-- ===== src/Packet/Receive/Turns.antt =====
-- The two sockets behind one packet socket in shim/packet.c, and whose turn it is.
use rust_ape.Prelude.{
  ℕ, ◌+◌, ◌<◌, ◌≡◌, refl, true, false, not, ◌&&◌, List, [], ◌∷◌, none, some, if◌then◌else◌, arith,
  ap, ◌∙◌, Bool-cases, inl, inr,
}
use rust_ape.Packet.{PktSock, is_sock, find_sock, set_sock}
use rust_ape.Packet.Receive.{
  Received, framed, Framed, frame, drain_max, recv_framed, fill_sll, Packet, packet, Queues,
  returns, dry, attempt, judge, pass, next_turn, after_pass, packet_recv,
}
use rust_ape.Packet.Receive.Frames.{Holds, recv_framed_complete}

module _ (p : PktSock) (n : ℕ) (room : ℕ) (qs : Queues) where
  pub pass-first :
      (r : Packet)
      → judge room p (attempt p n p.turn qs).0.result ≡ some r
      → pass p n room qs ≡ (returns r, (attempt p n p.turn qs).1)
  unfolding pass
  pass-first r h = rw (h, pass) refl

  pub pass-second :
      (r : Packet)
      → let (d, qs1) = attempt p n p.turn qs in
        let (e, qs2) = attempt p n (not p.turn) qs1 in
        judge room p d.result ≡ none
        → judge room p e.result ≡ some r
        → pass p n room qs ≡ (returns r, qs2)
  unfolding pass
  pass-second r h k = rw (h, pass) (rw k refl)

  pub pass-dry :
      let (d, qs1) = attempt p n p.turn qs in
      let (e, qs2) = attempt p n (not p.turn) qs1 in
      judge room p d.result ≡ none
      → judge room p e.result ≡ none
      → pass p n room qs ≡ (
        dry
            (d.consumed + e.consumed)
            (if p.turn then d.unframeable else e.unframeable && not d.unframeable),
        qs2,
      )
  unfolding pass
  pass-dry h k = rw (h, pass) (rw k refl)

find_sock-set_sock :
    (fd : ℕ) (f : PktSock → PktSock) (ps : List PktSock) (p : PktSock)
    → ((x : PktSock) → is_sock fd (f x) ≡ is_sock fd x)
    → find_sock fd ps ≡ some p
    → find_sock fd (set_sock fd f ps) ≡ some (f p)
unfolding find_sock set_sock
find_sock-set_sock fd f [] p same h = absurd (ground (arith, h))
find_sock-set_sock fd f (x ∷ ps) p same h = elim (Bool-cases (is_sock fd x)) [
  | inl q ↦
      let e : x ≡ p = ground (arith, q, h) in
      let s : is_sock fd (f x) ≡ true = same x ∙ q in
      rw q (rw s (ap (λ (y : PktSock). some (f y)) e))
  | inr q ↦ rw q (rw q (find_sock-set_sock fd f ps p same (ground (arith, q, h))))
]

pub packet_recv-at :
    (fd n room : ℕ) (ps : List PktSock) (p : PktSock) (qs : Queues)
    → find_sock fd ps ≡ some p
    → packet_recv fd n room ps qs
      ≡ (after_pass fd (set_sock fd next_turn ps) (pass p n room qs).0, (pass p n room qs).1)
unfolding packet_recv
packet_recv-at fd n room ps p qs h = rw (h, packet_recv) refl

pub packet_recv-returns :
    (fd n room : ℕ) (ps : List PktSock) (p : PktSock) (qs qs' : Queues) (r : Packet)
    → find_sock fd ps ≡ some p
    → pass p n room qs ≡ (returns r, qs')
    → packet_recv fd n room ps qs ≡ ((set_sock fd next_turn ps, [], r), qs')
unfolding after_pass
packet_recv-returns fd n room ps p qs qs' r h k = packet_recv-at fd n room ps p qs h ∙ rw k refl

-- What is handed out for an IP packet.
abbrev pub handed : ℕ → PktSock → ℕ → List ℕ → Packet
handed room p et d = packet (framed et d) (fill_sll room p.ifindex et)

judge-frame :
    (room : ℕ) (p : PktSock) (r : Framed) (et : ℕ) (d : List ℕ)
    → r ≡ frame et d
    → judge room p r ≡ some (handed room p et d)
unfolding judge
judge-frame room p r et d h = rw h refl

-- The socket whose turn it is has an IP packet.
module _ (p : PktSock) (n room et : ℕ) (d : List ℕ) (qs : Queues) (rest : List Received) where
  six-first :
      (f6 : ℕ)
      → p.turn ≡ true
      → p.fd6 ≡ some f6
      → 14 < n
      → Holds drain_max qs.q6 et d rest
      → pass p n room qs ≡ (returns (handed room p et d), record qs { q6 = rest })
  unfolding attempt
  six-first f6 t six l h =
      let a : attempt p n p.turn qs ≡ (
        recv_framed (some f6) n qs.q6,
        record qs { q6 = (recv_framed (some f6) n qs.q6).left },
      ) =
        rw (t, six) refl in
      let (r, left) = recv_framed_complete f6 n et qs.q6 rest d l h in
      let j = judge-frame room p _ et d (ap (λ x. x.0.result) a ∙ r) in
      pass-first p n room qs (handed room p et d) j
      ∙ ap (λ x. (returns (handed room p et d), x))
          (ap (λ x. x.1) a ∙ ap (λ (x : List Received). record qs { q6 = x }) left)

  four-first :
      p.turn ≡ false
      → 14 < n
      → Holds drain_max qs.q4 et d rest
      → pass p n room qs ≡ (returns (handed room p et d), record qs { q4 = rest })
  unfolding attempt
  four-first t l h =
      let a : attempt p n p.turn qs ≡ (
        recv_framed (some p.fd) n qs.q4,
        record qs { q4 = (recv_framed (some p.fd) n qs.q4).left },
      ) =
        rw t refl in
      let (r, left) = recv_framed_complete p.fd n et qs.q4 rest d l h in
      let j = judge-frame room p _ et d (ap (λ x. x.0.result) a ∙ r) in
      pass-first p n room qs (handed room p et d) j
      ∙ ap (λ x. (returns (handed room p et d), x))
          (ap (λ x. x.1) a ∙ ap (λ (x : List Received). record qs { q4 = x }) left)

next_turn-flips : (p : PktSock) (f6 : ℕ) → p.fd6 ≡ some f6 → (next_turn p).turn ≡ not p.turn
next_turn-flips p f6 h = rw h refl

-- Where both sockets behind a packet socket have an IP packet, behind fewer than 64 datagrams that are
-- none, two calls hand out one of each, first that of the socket whose turn it is; the buffer has room
-- for more than the 14 bytes of a header. Each frame is the header and the packet, and the address
-- has the interface.
pub packet_recv-alternates :
    (fd n room f6 et4 et6 : ℕ) (d4 d6 : List ℕ) (ps : List PktSock) (p : PktSock) (qs left : Queues)
    → find_sock fd ps ≡ some p
    → p.fd6 ≡ some f6
    → 14 < n
    → Holds drain_max qs.q4 et4 d4 left.q4
    → Holds drain_max qs.q6 et6 d6 left.q6
    → let one = packet_recv fd n room ps qs in
      let two = packet_recv fd n room one.0.0 one.1 in
      (one.0.2 ≡ (if p.turn then handed room p et6 d6 else handed room p et4 d4))
      × (two.0.2 ≡ (if p.turn then handed room p et4 d4 else handed room p et6 d6))
      × (two.1 ≡ left)
packet_recv-alternates fd n room f6 et4 et6 d4 d6 ps p qs left h six l h4 h6 =
    let found = find_sock-set_sock fd next_turn ps p (λ x. refl) h in
    let flip = next_turn-flips p f6 six in
    elim (Bool-cases p.turn) [
      | inl t ↦
          let e =
            packet_recv-returns fd n room ps p qs _ _ h
              (six-first p n room et6 d6 qs left.q6 f6 t six l h6) in
          let k =
            packet_recv-returns fd n room (set_sock fd next_turn ps) (next_turn p)
              (record qs { q6 = left.q6 }) _ _ found
              (four-first (next_turn p) n room et4 d4 (record qs { q6 = left.q6 }) left.q4
                (flip ∙ ap not t) l h4) in
          rw (t, e, k) (refl, refl, refl)
      | inr t ↦
          let e =
            packet_recv-returns fd n room ps p qs _ _ h
              (four-first p n room et4 d4 qs left.q4 t l h4) in
          let k =
            packet_recv-returns fd n room (set_sock fd next_turn ps) (next_turn p)
              (record qs { q4 = left.q4 }) _ _ found
              (six-first (next_turn p) n room et6 d6 (record qs { q4 = left.q4 }) left.q6 f6
                (flip ∙ ap not t) six l h6) in
          rw (t, e, k) (refl, refl, refl)
    ]
