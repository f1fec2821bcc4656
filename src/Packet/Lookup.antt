-- ===== src/Packet/Lookup.antt =====
-- Lookups in the table of shim/packet.c before and after a new socket.
use rust_ape.Prelude.{
  ℕ, ◌≡◌, ◌≢◌, refl, true, false, not, ◌||◌, List, [], ◌∷◌, none, some, arith, ap, ◌∙◌, sym,
  Bool-cases, Option-cases, inl, inr,
}
use mathlib.Core.Option.{some-injective}
use rust_ape.Packet.Table.{
  fill_sock-here, fill_sock-full, fill_sock-next, socket-full, socket-filled,
}
use rust_ape.Packet.{
  PktSock, PktTable, Fds, fd_is, empty_sock, reap_slots, reap_locked, is_sock, find_sock, PktFault,
  value, new_sock, fill_sock, packet_socket,
}

module _ (fds : Fds) (x : PktSock) (ps : List PktSock) where
  reap_slots-stays :
      (not x.live || fd_is fds x.fd x.handle) ≡ true
      → (reap_slots fds (x ∷ ps)).0 ≡ x ∷ (reap_slots fds ps).0
  unfolding reap_slots
  reap_slots-stays q = rw q refl

  reap_slots-goes :
      (not x.live || fd_is fds x.fd x.handle) ≡ false
      → (reap_slots fds (x ∷ ps)).0 ≡ empty_sock ∷ (reap_slots fds ps).0
  unfolding reap_slots
  reap_slots-goes q = rw q refl

-- A packet socket that is open as it was registered survives the reaping.
reap_slots-kept :
    (fds : Fds) (j : ℕ) (ps : List PktSock) (p : PktSock)
    → find_sock j ps ≡ some p
    → fd_is fds p.fd p.handle ≡ true
    → find_sock j (reap_slots fds ps).0 ≡ some p
unfolding find_sock
reap_slots-kept fds j [] p h k = absurd (ground (arith, h))
reap_slots-kept fds j (x ∷ ps) p h k = elim (Bool-cases (is_sock j x)) [
  | inl q ↦
      let e : x ≡ p = ground (arith, q, h) in
      let o : fd_is fds x.fd x.handle ≡ true =
        ap (λ (y : PktSock). fd_is fds y.fd y.handle) e ∙ k in
      let b : (not x.live || fd_is fds x.fd x.handle) ≡ true = ground (arith, o) in
      ap (find_sock j) (reap_slots-stays fds x ps b) ∙ rw q (ap some e)
  | inr q ↦
      let ih = reap_slots-kept fds j ps p (ground (arith, q, h)) k in
      elim (Bool-cases (not x.live || fd_is fds x.fd x.handle)) [
        | inl b ↦ ap (find_sock j) (reap_slots-stays fds x ps b) ∙ rw q ih
        | inr b ↦ ap (find_sock j) (reap_slots-goes fds x ps b) ∙ ih
      ]
]

reap_locked-kept :
    (fds : Fds) (j : ℕ) (t : PktTable) (p : PktSock)
    → find_sock j t.socks ≡ some p
    → fd_is fds p.fd p.handle ≡ true
    → find_sock j (reap_locked fds t).0.socks ≡ some p
unfolding reap_locked
reap_locked-kept fds j t p h k = reap_slots-kept fds j t.socks p h k

-- The slot that is filled was not live, so no other lookup finds something else.
fill_sock-find :
    (x : PktSock) (j : ℕ) (ps qs : List PktSock)
    → fill_sock x ps ≡ some qs
    → ((p : PktSock) → is_sock j x ≡ false → find_sock j ps ≡ some p → find_sock j qs ≡ some p)
      × (is_sock j x ≡ true → find_sock j ps ≡ none → find_sock j qs ≡ some x)
unfolding find_sock fill_sock
fill_sock-find x j [] qs h = absurd (ground (arith, h))
fill_sock-find x j (p ∷ ps) qs h = elim (Bool-cases p.live) [
  | inr q ↦
      let e : x ∷ ps ≡ qs = some-injective _ _ (sym (fill_sock-here x p ps q) ∙ h) in
      (
        λ y n f. ap (find_sock j) (sym e) ∙ ground (arith, n, q, f),
        λ n f. ap (find_sock j) (sym e) ∙ ground (arith, n),
      )
  | inl q ↦ elim (Option-cases (fill_sock x ps)) [
    | inl n ↦ absurd (ground (arith, sym (fill_sock-full x p ps q n) ∙ h))
    | inr (rest, s) ↦
        let (others, fresh) = fill_sock-find x j ps rest s in
        let e : p ∷ rest ≡ qs = some-injective _ _ (sym (fill_sock-next x p ps rest q s) ∙ h) in
        elim (Bool-cases (is_sock j p)) [
          | inl k ↦ (
            λ y n f. ap (find_sock j) (sym e) ∙ ground (arith, k, f),
            λ n f. absurd (ground (arith, k, f)),
          )
          | inr k ↦ (
            λ y n f. ap (find_sock j) (sym e) ∙ rw k (others y n (ground (arith, k, f))),
            λ n f. ap (find_sock j) (sym e) ∙ rw k (fresh n (ground (arith, k, f))),
          )
        ]
  ]
]

-- A call of socket that succeeds returns a number that names a slot of its own, with the new handle and
-- no second socket, and every other packet socket that is still open keeps its slot; where no slot
-- that the reaping leaves has the new number.
pub packet_socket-fresh :
    (fds : Fds) (e : PktFault) (fd handle j : ℕ) (t : PktTable) (p : PktSock)
    → find_sock fd (reap_locked fds t).0.socks ≡ none
    → (packet_socket fds e (some (fd, handle)) t).2 ≡ value fd
    → j ≢ fd
    → find_sock j t.socks ≡ some p
    → fd_is fds p.fd p.handle ≡ true
    → let after = (packet_socket fds e (some (fd, handle)) t).0.socks in
      (find_sock fd after ≡ some (new_sock fd handle)) × (find_sock j after ≡ some p)
packet_socket-fresh fds e fd handle j t p free ok n h k =
    let x = new_sock fd handle in
    let kept : find_sock j (reap_locked fds t).0.socks ≡ some p = reap_locked-kept fds j t p h k in
    elim (Option-cases (fill_sock x (reap_locked fds t).0.socks)) [
      | inl f ↦ absurd (ground (arith, sym (ap (λ r. r.2) (socket-full fds e fd handle t f)) ∙ ok))
      | inr (ps, f) ↦
          let s = ap (λ r. r.0.socks) (socket-filled fds e fd handle t ps f) in
          let own : is_sock fd x ≡ true = ground arith in
          let other : is_sock j x ≡ false = ground (arith, n) in
          (
            ap (find_sock fd) s ∙ (fill_sock-find x fd _ ps f).1 own free,
            ap (find_sock j) s ∙ (fill_sock-find x j _ ps f).0 p other kept,
          )
    ]
