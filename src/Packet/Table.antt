-- ===== src/Packet/Table.antt =====
-- The slots of `g_pkt` in shim/packet.c and their counter, under every operation on them.
use rust_ape.Prelude.{
  ℕ, suc, ◌+◌, ◌≡◌, refl, Bool, true, false, not, ◌||◌, List, [], ◌∷◌, ◌++◌, Option, none, some,
  ◌==◌, if◌then◌else◌, length, arith, ap, ◌∙◌, sym, subst, Bool-cases, Option-cases, inl, inr,
  negative,
}
use mathlib.Core.Option.{some-injective}
use rust_ape.Packet.{
  PktSock, PktTable, Fds, fd_is, reap_slots, reap_locked, is_sock, set_sock, packet_is, PktFault,
  value, failure, new_sock, fill_sock, packet_socket, Adapter, unknown, adapter, outcome4,
  secondary_of, store_fd6, bind_adapter, bound, packet_bind, pkt_max, mfile,
}

abbrev pub live_count : List PktSock → ℕ
live_count [] = 0
live_count (p ∷ ps) = (if p.live then 1 else 0) + live_count ps

-- The slots are 32, and the counter is the number of those that are live.
abbrev pub IsCounted : PktTable → Type 0
IsCounted t = (length t.socks ≡ pkt_max) × (t.count ≡ live_count t.socks)

reap_slots-counts :
    (fds : Fds) (ps : List PktSock)
    → (length (reap_slots fds ps).0 ≡ length ps)
      × (live_count (reap_slots fds ps).0 + (reap_slots fds ps).1 ≡ live_count ps)
unfolding reap_slots
reap_slots-counts fds [] = (refl, refl)
reap_slots-counts fds (p ∷ ps) =
    let (l, c) = reap_slots-counts fds ps in
    elim (Bool-cases p.live) [
      | inl q ↦ elim (Bool-cases (fd_is fds p.fd p.handle)) [
        | inl k ↦ rw (q, k) (omega (arith, l), omega (arith, q, c))
        | inr k ↦ rw (q, k) (omega (arith, l), omega (arith, q, c))
      ]
      | inr q ↦ rw q (omega (arith, l), omega (arith, q, c))
    ]

reap_locked-IsCounted : (fds : Fds) (t : PktTable) → IsCounted t → IsCounted (reap_locked fds t).0
unfolding reap_locked
reap_locked-IsCounted fds t (l, c) =
    let (m, d) = reap_slots-counts fds t.socks in (m ∙ l, omega (arith, c, d))

packet_is-IsCounted :
    (fds : Fds) (fd : ℕ) (t : PktTable) → IsCounted t → IsCounted (packet_is fds fd t).0
unfolding packet_is
packet_is-IsCounted fds fd t v = elim (Bool-cases (t.count == 0)) [
  | inl q ↦ rw q v
  | inr q ↦ rw q (reap_locked-IsCounted fds t v)
]

-- The three ways of filling a slot.
module _ (x p : PktSock) (ps : List PktSock) where
  pub fill_sock-here : p.live ≡ false → fill_sock x (p ∷ ps) ≡ some (x ∷ ps)
  unfolding fill_sock
  fill_sock-here q = rw q refl

  pub fill_sock-full : p.live ≡ true → fill_sock x ps ≡ none → fill_sock x (p ∷ ps) ≡ none
  unfolding fill_sock
  fill_sock-full q n = rw (q, fill_sock) (rw n refl)

  pub fill_sock-next :
      (rest : List PktSock)
      → p.live ≡ true
      → fill_sock x ps ≡ some rest
      → fill_sock x (p ∷ ps) ≡ some (p ∷ rest)
  unfolding fill_sock
  fill_sock-next rest q n =
      let e : fill_sock x (p ∷ ps)
          ≡ elim (fill_sock x ps) [ none ↦ none | some qs ↦ some (p ∷ qs) ] =
        ap
          (λ (b : Bool).
            if not b
            then some (x ∷ ps)
            else elim (fill_sock x ps) [ none ↦ none | some qs ↦ some (p ∷ qs) ])
          q in
      e ∙ rw n refl

fill_sock-counts :
    (x : PktSock) (ps qs : List PktSock)
    → x.live ≡ true
    → fill_sock x ps ≡ some qs
    → (length qs ≡ length ps) × (live_count qs ≡ suc (live_count ps))
unfolding fill_sock
fill_sock-counts x [] qs l h = absurd (ground (arith, h))
fill_sock-counts x (p ∷ ps) qs l h = elim (Bool-cases p.live) [
  | inr q ↦
      let e : x ∷ ps ≡ qs = some-injective _ _ (sym (fill_sock-here x p ps q) ∙ h) in
      subst (λ zs. (length zs ≡ length (p ∷ ps)) × (live_count zs ≡ suc (live_count (p ∷ ps)))) e
        (refl, ground (arith, l, q))
  | inl q ↦ elim (Option-cases (fill_sock x ps)) [
    | inl n ↦ absurd (ground (arith, sym (fill_sock-full x p ps q n) ∙ h))
    | inr (rest, s) ↦
        let (m, c) = fill_sock-counts x ps rest l s in
        let e : p ∷ rest ≡ qs = some-injective _ _ (sym (fill_sock-next x p ps rest q s) ∙ h) in
        subst (λ zs. (length zs ≡ length (p ∷ ps)) × (live_count zs ≡ suc (live_count (p ∷ ps)))) e
          (omega (arith, m), ground (arith, q, c))
  ]
]

module _ (fds : Fds) (e : PktFault) (fd handle : ℕ) (t : PktTable) where
  pub socket-full :
      fill_sock (new_sock fd handle) (reap_locked fds t).0.socks ≡ none
      → packet_socket fds e (some (fd, handle)) t
        ≡ ((reap_locked fds t).0, (reap_locked fds t).1 ++ (fd ∷ []), failure mfile)
  unfolding packet_socket
  socket-full h = rw (h, packet_socket) refl

  pub socket-filled :
      (ps : List PktSock)
      → fill_sock (new_sock fd handle) (reap_locked fds t).0.socks ≡ some ps
      → packet_socket fds e (some (fd, handle)) t ≡ (
        record { socks = ps; count = suc (reap_locked fds t).0.count },
        (reap_locked fds t).1,
        value fd,
      )
  unfolding packet_socket
  socket-filled ps h = rw (h, packet_socket) refl

packet_socket-IsCounted :
    (fds : Fds) (e : PktFault) (answer : Option (ℕ × ℕ)) (t : PktTable)
    → IsCounted t
    → IsCounted (packet_socket fds e answer t).0
unfolding packet_socket
packet_socket-IsCounted fds e none t v = v
packet_socket-IsCounted fds e (some (fd, handle)) t v =
    let w = reap_locked-IsCounted fds t v in
    let x = new_sock fd handle in
    elim (Option-cases (fill_sock x (reap_locked fds t).0.socks)) [
      | inl h ↦ subst (λ r. IsCounted r.0) (sym (socket-full fds e fd handle t h)) w
      | inr (ps, h) ↦
          let (l, c) = fill_sock-counts x (reap_locked fds t).0.socks ps refl h in
          subst (λ r. IsCounted r.0) (sym (socket-filled fds e fd handle t ps h))
            (l ∙ w.0, ap suc w.1 ∙ sym c)
    ]

set_sock-counts :
    (fd : ℕ) (f : PktSock → PktSock) (ps : List PktSock)
    → ((x : PktSock) → (f x).live ≡ x.live)
    → (length (set_sock fd f ps) ≡ length ps) × (live_count (set_sock fd f ps) ≡ live_count ps)
unfolding set_sock
set_sock-counts fd f [] same = (refl, refl)
set_sock-counts fd f (p ∷ ps) same =
    let (l, c) = set_sock-counts fd f ps same in
    elim (Bool-cases (is_sock fd p)) [
      | inl q ↦ rw q (refl, ap (λ (b : Bool). (if b then 1 else 0) + live_count ps) (same p))
      | inr q ↦ rw q (omega (arith, l), ap (λ x. (if p.live then 1 else 0) + x) c)
    ]

-- A store into one slot that does not touch `live`.
stored-IsCounted :
    (fd : ℕ) (f : PktSock → PktSock) (t : PktTable)
    → ((x : PktSock) → (f x).live ≡ x.live)
    → IsCounted t
    → IsCounted (record t { socks = set_sock fd f t.socks })
stored-IsCounted fd f t same (l, c) =
    let (m, d) = set_sock-counts fd f t.socks same in (m ∙ l, c ∙ sym d)

store_fd6-IsCounted :
    (fd : ℕ) (fd6 : Option ℕ) (found : Option PktSock) (t : PktTable)
    → IsCounted t
    → IsCounted (store_fd6 fd fd6 found t).0
unfolding store_fd6
store_fd6-IsCounted fd fd6 none t v = v
store_fd6-IsCounted fd fd6 (some p) t v =
    stored-IsCounted fd (λ (x : PktSock). record x { fd6 = fd6 }) t (λ x. refl) v

bound-IsCounted :
    (fd : ℕ) (err : Option PktFault) (fd6 : Option ℕ) (t : PktTable)
    → IsCounted t
    → IsCounted (bound fd err fd6 t).0
unfolding bound
bound-IsCounted fd (some e) none t v = v
bound-IsCounted fd none fd6 t v = store_fd6-IsCounted fd fd6 _ t v
bound-IsCounted fd (some e) (some f) t v = store_fd6-IsCounted fd (some f) _ t v

bind_adapter-IsCounted :
    (meanwhile : PktTable → PktTable) (fd i : ℕ) (a : Adapter) (found : Option PktSock)
    (t : PktTable)
    → ((u : PktTable) → IsCounted u → IsCounted (meanwhile u))
    → IsCounted t
    → IsCounted (bind_adapter meanwhile fd i a found t).0
unfolding bind_adapter
bind_adapter-IsCounted meanwhile fd i unknown found t keeps v = v
bind_adapter-IsCounted meanwhile fd i (adapter s4 s6) none t keeps v = v
bind_adapter-IsCounted meanwhile fd i (adapter s4 s6) (some p) t keeps v =
    bound-IsCounted fd (outcome4 s4) (secondary_of s6) _
      (keeps _ (stored-IsCounted fd (λ (x : PktSock). record x { ifindex = i }) t (λ x. refl) v))

packet_bind-IsCounted :
    (adapters : ℕ → Adapter) (meanwhile : PktTable → PktTable) (fd : ℕ) (addr : Option ℕ)
    (t : PktTable)
    → ((u : PktTable) → IsCounted u → IsCounted (meanwhile u))
    → IsCounted t
    → IsCounted (packet_bind adapters meanwhile fd addr t).0
unfolding packet_bind
packet_bind-IsCounted adapters meanwhile fd none t keeps v = v
packet_bind-IsCounted adapters meanwhile fd (some i) t keeps v =
    elim (Bool-cases (i == 0 || negative i)) [
      | inl q ↦ rw q v
      | inr q ↦ rw q (bind_adapter-IsCounted meanwhile fd i _ _ t keeps v)
    ]

-- A lookup, a new socket and a bind, successful or not, keep the 32 slots and the counter of those that
-- are live right, where what other threads do during the bind keeps them too.
pub calls-IsCounted :
    (fds : Fds) (fd : ℕ) (e : PktFault) (answer : Option (ℕ × ℕ)) (adapters : ℕ → Adapter)
    (meanwhile : PktTable → PktTable) (addr : Option ℕ) (t : PktTable)
    → ((u : PktTable) → IsCounted u → IsCounted (meanwhile u))
    → IsCounted t
    → IsCounted (packet_is fds fd t).0
      × IsCounted (packet_socket fds e answer t).0
      × IsCounted (packet_bind adapters meanwhile fd addr t).0
calls-IsCounted fds fd e answer adapters meanwhile addr t keeps v = (
  packet_is-IsCounted fds fd t v,
  packet_socket-IsCounted fds e answer t v,
  packet_bind-IsCounted adapters meanwhile fd addr t keeps v,
)
