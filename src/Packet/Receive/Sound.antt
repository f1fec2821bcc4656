-- ===== src/Packet/Receive/Sound.antt =====
-- What a frame that `__ape_shim_packet_recv` of shim/packet.c hands out stands for.
use rust_ape.Prelude.{
  ℕ, ◌≡◌, refl, Bool, true, false, not, List, some, ◌==◌, arith, ap, ◌∙◌, sym, subst, Bool-cases,
  Option-cases, inl, inr,
}
use rust_ape.Packet.{PktSock, find_sock, set_sock}
use rust_ape.Packet.Receive.{
  Received, framed, frame, drain_max, fill_sll, packet, Queues, dry, attempt, judge, next_turn,
  after_pass, packet_recv,
}
use rust_ape.Packet.Receive.Frames.{Holds, recv_framed-first, judge-packet}
use rust_ape.Packet.Receive.Turns.{
  pass-first, pass-second, pass-dry, packet_recv-at, packet_recv-returns,
}

-- The socket that is the second one or not.
abbrev pub queue : Bool → Queues → List Received
queue false qs = qs.q4
queue true qs = qs.q6

module _ (p : PktSock) (n : ℕ) (qs : Queues) where
  attempt-Holds :
      (which : Bool) (et : ℕ) (d : List ℕ)
      → (attempt p n which qs).0.result ≡ frame et d
      → Holds drain_max (queue which qs) et d (attempt p n which qs).0.left
  unfolding attempt
  attempt-Holds false et d h = recv_framed-first (some p.fd) n qs.q4 et d h
  attempt-Holds true et d h = recv_framed-first p.fd6 n qs.q6 et d h

  attempt-keeps : (which : Bool) → queue (not which) (attempt p n which qs).1 ≡ queue (not which) qs
  unfolding attempt
  attempt-keeps false = refl
  attempt-keeps true = refl

after_pass-dry :
    (fd : ℕ) (ps : List PktSock) (c : ℕ) (b : Bool) (f a : List ℕ)
    → (after_pass fd ps (dry c b)).2 ≡ packet f a
    → ⊥
unfolding after_pass
after_pass-dry fd ps c b f a h = elim (Bool-cases (c == 0)) [
  | inl q ↦ absurd (ground (arith, q, h))
  | inr q ↦ absurd (ground (arith, q, h))
]

-- A frame with its address stands for the first IP packet of one of the two sockets, which no other
-- datagram but fewer than 64 precedes: it is that packet behind a header with its type, and the
-- address has the type and the interface.
pub packet_recv_sound :
    (fd n room : ℕ) (ps : List PktSock) (p : PktSock) (qs : Queues) (f a : List ℕ)
    → find_sock fd ps ≡ some p
    → (packet_recv fd n room ps qs).0.2 ≡ packet f a
    → (which : Bool) × (et : ℕ) × (d : List ℕ) × (rest : List Received) × Holds drain_max
        (queue which qs)
        et
        d
        rest
      × (f ≡ framed et d)
      × (a ≡ fill_sll room p.ifindex et)
packet_recv_sound fd n room ps p qs f a h e =
    let qs1 = (attempt p n p.turn qs).1 in
    elim (Option-cases (judge room p (attempt p n p.turn qs).0.result)) [
      | inr (r, j) ↦
          let k = packet_recv-returns fd n room ps p qs _ r h (pass-first p n room qs r j) in
          let same : r ≡ packet f a = sym (ap (λ x. x.0.2) k) ∙ e in
          let (et, d, fr, ff, aa) = judge-packet room p _ f a (j ∙ ap some same) in
          (p.turn, et, d, _, attempt-Holds p n qs p.turn et d fr, ff, aa)
      | inl i ↦ elim (Option-cases (judge room p (attempt p n (not p.turn) qs1).0.result)) [
        | inr (r, j) ↦
            let k = packet_recv-returns fd n room ps p qs _ r h (pass-second p n room qs r i j) in
            let same : r ≡ packet f a = sym (ap (λ x. x.0.2) k) ∙ e in
            let (et, d, fr, ff, aa) = judge-packet room p _ f a (j ∙ ap some same) in
            (
              not p.turn,
              et,
              d,
              _,
              subst (λ q. Holds drain_max q et d (attempt p n (not p.turn) qs1).0.left)
                  (attempt-keeps p n qs p.turn) (attempt-Holds p n qs1 (not p.turn) et d fr),
              ff,
              aa,
            )
        | inl j ↦
            let k =
              packet_recv-at fd n room ps p qs h
              ∙ ap (λ x. (after_pass fd (set_sock fd next_turn ps) x.0, x.1))
                  (pass-dry p n room qs i j) in
            absurd
              (after_pass-dry fd (set_sock fd next_turn ps) _ _ f a (sym (ap (λ x. x.0.2) k) ∙ e))
      ]
    ]
