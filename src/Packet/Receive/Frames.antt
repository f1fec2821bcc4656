-- ===== src/Packet/Receive/Frames.antt =====
-- What `__ape_shim_packet_recv` of shim/packet.c hands out, next to what its sockets hold.
use rust_ape.Prelude.{
  ℕ, zero, suc, ◌<◌, ◌≡◌, refl, false, List, [], ◌∷◌, ◌++◌, Option, none, some, leb, length, arith,
  All, ap, ap₂, ◌∙◌, sym, Bool-cases, Option-cases, inl, inr,
}
use rust_ape.Packet.{PktSock, again, inval, mfile, nodev, notsock, addrnotavail, host_error}
use rust_ape.Packet.Receive.{
  Received, failed, datagram, ethertype, framed, Framed, frame, fault, drain, drain_max,
  recv_framed, fill_sll, packet, judge,
}

-- A datagram that is no IP packet.
abbrev pub IsJunk : Received → Type 0
IsJunk (failed e) = ⊥
IsJunk (datagram d) = ethertype d ≡ none

-- The first IP packet of a socket, behind fewer than `k` datagrams that are none.
abbrev pub Holds : ℕ → List Received → ℕ → List ℕ → List Received → Type 0
Holds k q et d rest =
    (junk : List Received) × (q ≡ junk ++ datagram d ∷ rest)
    × All IsJunk junk
    × (length junk < k)
    × (ethertype d ≡ some et)

drain-junk :
    (k : ℕ) (d : List ℕ) (q : List Received)
    → ethertype d ≡ none
    → ((drain (suc k) (datagram d ∷ q)).result ≡ (drain k q).result)
      × ((drain (suc k) (datagram d ∷ q)).left ≡ (drain k q).left)
unfolding drain
drain-junk k [] q h = (refl, refl)
drain-junk k (b ∷ bs) q h = rw (h, drain) (refl, refl)

drain-ip :
    (k et : ℕ) (d : List ℕ) (q : List Received)
    → ethertype d ≡ some et
    → ((drain (suc k) (datagram d ∷ q)).result ≡ frame et d)
      × ((drain (suc k) (datagram d ∷ q)).left ≡ q)
unfolding drain
drain-ip k et [] q h = absurd (ground (arith, h))
drain-ip k et (b ∷ bs) q h = rw (h, drain) (refl, refl)

drain-first :
    (k : ℕ) (q : List Received) (et : ℕ) (d : List ℕ)
    → (drain k q).result ≡ frame et d
    → Holds k q et d (drain k q).left
unfolding drain
drain-first zero q et d h = absurd (ground (arith, h))
drain-first (suc k) [] et d h = absurd (ground (arith, h))
drain-first (suc k) (failed e ∷ q) et d h = absurd (ground (arith, h))
drain-first (suc k) (datagram x ∷ q) et d h = elim (Option-cases (ethertype x)) [
  | inl j ↦
      let (r, l) = drain-junk k x q j in
      let (junk, e, js, n, t) = drain-first k q et d (sym r ∙ h) in
      (
        datagram x ∷ junk,
        ap (λ y. datagram x ∷ y) (e ∙ ap (λ y. junk ++ datagram d ∷ y) (sym l)),
        (j, js),
        omega (arith, n),
        t,
      )
  | inr (t, j) ↦
      let (r, l) = drain-ip k t x q j in
      let same : frame t x ≡ frame et d = sym r ∙ h in
      let (a, b) : (t ≡ et) × (x ≡ d) = ground (arith, same) in
      (
        [],
        ap₂ (λ y z. datagram y ∷ z) b (sym l),
        tt,
        omega arith,
        ap ethertype (sym b) ∙ j ∙ ap some a,
      )
]

drain_complete :
    (k et : ℕ) (q rest : List Received) (d : List ℕ)
    → Holds k q et d rest
    → ((drain k q).result ≡ frame et d) × ((drain k q).left ≡ rest)
drain_complete zero et q rest d (junk, e, js, n, t) = absurd (omega (arith, n))
drain_complete (suc k) et q rest d ([], e, js, n, t) = rw e (drain-ip k et d rest t)
drain_complete (suc k) et q rest d (failed f ∷ junk, e, js, n, t) = absurd js.0
drain_complete (suc k) et q rest d (datagram x ∷ junk, e, js, n, t) =
    let (r, l) = drain-junk k x (junk ++ datagram d ∷ rest) js.0 in
    let (s, m) =
      drain_complete k et (junk ++ datagram d ∷ rest) rest d
        (junk, refl, js.1, omega (arith, n), t) in
    rw e (r ∙ s, l ∙ m)

pub recv_framed-first :
    (fd : Option ℕ) (n : ℕ) (q : List Received) (et : ℕ) (d : List ℕ)
    → (recv_framed fd n q).result ≡ frame et d
    → Holds drain_max q et d (recv_framed fd n q).left
unfolding recv_framed
recv_framed-first none n q et d h = absurd (ground (arith, h))
recv_framed-first (some fd) n q et d h = elim (Bool-cases (leb n 14)) [
  | inl s ↦ absurd (ground (arith, s, h))
  | inr s ↦
      let e : recv_framed (some fd) n q ≡ drain drain_max q = rw s refl in
      rw e (drain-first drain_max q et d (sym (ap (λ x. x.result) e) ∙ h))
]

pub recv_framed_complete :
    (fd n et : ℕ) (q rest : List Received) (d : List ℕ)
    → 14 < n
    → Holds drain_max q et d rest
    → ((recv_framed (some fd) n q).result ≡ frame et d) × ((recv_framed (some fd) n q).left ≡ rest)
unfolding recv_framed
recv_framed_complete fd n et q rest d l h =
    let s : leb n 14 ≡ false = ground (arith, l) in rw s (drain_complete drain_max et q rest d h)

pub judge-packet :
    (room : ℕ) (p : PktSock) (r : Framed) (f a : List ℕ)
    → judge room p r ≡ some (packet f a)
    → (et : ℕ) × (d : List ℕ) × (r ≡ frame et d)
      × (f ≡ framed et d)
      × (a ≡ fill_sll room p.ifindex et)
unfolding judge
judge-packet room p (frame et d) f a h =
    let same : (framed et d ≡ f) × (fill_sll room p.ifindex et ≡ a) = ground (arith, h) in
    (et, d, refl, sym same.0, sym same.1)
judge-packet room p (fault again) f a h = absurd (ground (arith, h))
judge-packet room p (fault inval) f a h = absurd (ground (arith, h))
judge-packet room p (fault mfile) f a h = absurd (ground (arith, h))
judge-packet room p (fault nodev) f a h = absurd (ground (arith, h))
judge-packet room p (fault notsock) f a h = absurd (ground (arith, h))
judge-packet room p (fault addrnotavail) f a h = absurd (ground (arith, h))
judge-packet room p (fault (host_error e)) f a h = absurd (ground (arith, h))
