-- ===== src/Epoll/Arming/Edges.antt =====
-- Edge-triggered and one-shot reporting in shim/epoll.c: the slot of an entry before and after an
-- event.
use rust_ape.Prelude.{
  ℕ, zero, suc, ◌<◌, ◌≡◌, ◌≢◌, refl, ◌∙◌, ap, Bool, true, false, ◌&&◌, ◌||◌, some, if◌then◌else◌,
  has, bit_or, zero-bit_or, has-bit_or, has-mask, has-bit_and_le, implies, arith, Bool-cases, inl,
  inr, ◌⊎◌,
}
use rust_ape.Epoll.Arming.{
  PollBits, PollFd, epollin, epollpri, epollout, epollerr, epollhup, epollrdhup, epolloneshot,
  epollet, poll_to_epoll, epoll_to_poll, reported, disarm, slot, effective_armed, clear_reported,
  wants_edges,
}
use rust_ape.Epoll.Arming.Bits.{IsDisjoint, poll_to_epoll_bits, epoll_to_poll_bits}
use rust_ape.Epoll.Interest.{Entry, arm_in, arm_out}

armed-cases : (a : ℕ) → a < 4 → (a ≡ 0) ⊎ (a ≡ 1) ⊎ (a ≡ 2) ⊎ (a ≡ 3)
armed-cases zero h = inl refl
armed-cases (suc zero) h = inr (inl refl)
armed-cases (suc (suc zero)) h = inr (inr (inl refl))
armed-cases (suc (suc (suc zero))) h = inr (inr (inr refl))
armed-cases (suc (suc (suc (suc a)))) h = absurd (omega arith)

-- The arming that is left after a report, for each of the four values that it can have.
abbrev IsCleared : ℕ → ℕ → Type 0
IsCleared ev a =
    (has ev (bit_or (bit_or epollin epollpri) epollrdhup) ≡ true
      → has (clear_reported ev a) arm_in ≡ false)
    × (has ev epollout ≡ true → has (clear_reported ev a) arm_out ≡ false)
    × (clear_reported ev a < 4)

clear_reported-IsCleared : (ev a : ℕ) → a < 4 → IsCleared ev a
clear_reported-IsCleared ev zero h = (λ p. ground arith, λ p. ground arith, ground arith)
clear_reported-IsCleared ev (suc zero) h = (λ p. ground arith, λ p. ground arith, ground arith)
clear_reported-IsCleared ev (suc (suc zero)) h =
    (λ p. ground arith, λ p. ground arith, ground arith)
clear_reported-IsCleared ev (suc (suc (suc zero))) h =
    (λ p. ground arith, λ p. ground arith, ground arith)
clear_reported-IsCleared ev (suc (suc (suc (suc a)))) h = absurd (omega arith)

-- Disarming leaves the fd, the mask and the token alone, and only the two directions armed.
pub disarm-keeps :
    (lt : Bool) (ev : ℕ) (e : Entry)
    → ((disarm lt ev e).fd ≡ e.fd)
      × ((disarm lt ev e).events ≡ e.events)
      × ((disarm lt ev e).payload ≡ e.payload)
unfolding disarm
disarm-keeps lt ev e = ground arith

pub disarm-lt : (lt : Bool) (ev : ℕ) (e : Entry) → e.armed < 4 → (disarm lt ev e).armed < 4
unfolding disarm
disarm-lt lt ev e h = ground (arith, clear_reported-IsCleared ev e.armed h)

-- The same for `disarm`, whichever branch it takes.
disarm-IsCleared :
    (ev : ℕ) (e : Entry)
    → wants_edges e ≡ true
    → e.armed < 4
    → (has ev (bit_or (bit_or epollin epollpri) epollrdhup) ≡ true
        → has (disarm false ev e).armed arm_in ≡ false)
      × (has ev epollout ≡ true → has (disarm false ev e).armed arm_out ≡ false)
      × (has e.events epolloneshot ≡ true → (disarm false ev e).armed ≡ 0)
      × (has ev (bit_or epollerr epollhup) ≡ true → (disarm false ev e).armed ≡ 0)
unfolding disarm
disarm-IsCleared ev e w a =
    let c = clear_reported-IsCleared ev e.armed a in
    let m = has-mask e.events epollet epolloneshot in
    (
      λ t. ground (arith, c, m),
      λ t. ground (arith, c, m),
      λ t. ground (arith, m),
      λ t. ground (arith, m),
    )

module _ (h : PollBits) (d : IsDisjoint h) where
  reported-le :
      (q : PollFd)
      → (has (reported h q) h.pollin ≡ true → has q.events h.pollin ≡ true)
        × (has (reported h q) h.pollpri ≡ true → has q.events h.pollpri ≡ true)
        × (has (reported h q) h.pollout ≡ true → has q.events h.pollout ≡ true)
  reported-le q = (
    λ t. ground (arith, within h.pollin t, d.err, d.hup, d.nval),
    λ t. ground (arith, within h.pollpri t, d.err, d.hup, d.nval),
    λ t. ground (arith, within h.pollout t, d.err, d.hup, d.nval),
  )
    where
      within :
          (m : ℕ)
          → has (reported h q) m ≡ true
          → (((has q.events m || has h.pollerr m) || has h.pollhup m) || has h.pollnval m) ≡ true
      within m t = rw (← has-bit_or q.events h.pollerr m) (
          rw (← has-bit_or _ h.pollhup m)
            (rw (← has-bit_or _ h.pollnval m) ((has-bit_and_le q.revents _ m t).1)))

  -- An event is reported for reading, urgent data or writing only where the entry asked for it
  -- and that direction was armed when the array was built.
  pub reported_requested :
      (lt : Bool) (e : Entry) (q : PollFd)
      → q.events ≡ epoll_to_poll h e.events (effective_armed lt e)
      → let ev = poll_to_epoll h (reported h q) in
        let armed = effective_armed lt e in
        (implies (has ev epollin) (has e.events epollin && has armed arm_in) ≡ true)
        × (implies (has ev epollpri) (has e.events epollpri && has armed arm_in) ≡ true)
        × (implies (has ev epollout) (has e.events epollout && has armed arm_out) ≡ true)
  reported_requested lt e q asked =
      let b = poll_to_epoll_bits h (reported h q) in
      let (r_in, r_pri, r_out) = reported-le q in
      let p = epoll_to_poll_bits h d e.events (effective_armed lt e) in
      (
        elim (Bool-cases (has (reported h q) h.pollin)) [
          | inl t ↦ ground (arith, b, t, r_in t, p, asked)
          | inr t ↦ ground (arith, b, t)
        ],
        elim (Bool-cases (has (reported h q) h.pollpri)) [
          | inl t ↦ ground (arith, b, t, r_pri t, p, asked)
          | inr t ↦ ground (arith, b, t)
        ],
        elim (Bool-cases (has (reported h q) h.pollout)) [
          | inl t ↦ ground (arith, b, t, r_out t, p, asked)
          | inr t ↦ ground (arith, b, t)
        ],
      )

  epoll_to_poll-unarmed : (e : ℕ) → epoll_to_poll h e 0 ≡ 0
  unfolding epoll_to_poll
  epoll_to_poll-unarmed e = refl

  -- The slot of an edge-triggered or one-shot entry asks for something, for its armed directions.
  slot-edges :
      (e : Entry) (p : PollFd)
      → wants_edges e ≡ true
      → slot h false e ≡ some p
      → (p.events ≡ epoll_to_poll h e.events e.armed) × (p.events ≢ 0)
  unfolding slot effective_armed
  slot-edges e p w s = ground arith

  slot-unarmed :
      (e : Entry) (p : PollFd) → wants_edges e ≡ true → e.armed ≡ 0 → slot h false e ≢ some p
  slot-unarmed e p w z s =
      let (asked, some_bit) = slot-edges e p w s in
      some_bit (asked ∙ ap (epoll_to_poll h e.events) z ∙ epoll_to_poll-unarmed e.events)

  -- With the read side unarmed, a slot asks for POLLOUT and for nothing else.
  only_out :
      (e a : ℕ) → has a arm_in ≡ false → epoll_to_poll h e a ≢ 0 → epoll_to_poll h e a ≡ h.pollout
  unfolding epoll_to_poll
  only_out e a q nz = elim (Bool-cases (has a arm_out && has e epollout)) [
    | inl t ↦ rw (q, t) (zero-bit_or h.pollout)
    | inr t ↦ absurd (nz (rw (q, t)))
  ]

  slot-only_out :
      (e : Entry) (p : PollFd)
      → wants_edges e ≡ true
      → slot h false e ≡ some p
      → has e.armed arm_in ≡ false
      → p.events ≡ h.pollout
  slot-only_out e p w s q =
      let (asked, some_bit) = slot-edges e p w s in
      asked ∙ only_out e.events e.armed q (λ z. some_bit (asked ∙ z))

  -- Once an event has been handed out, an edge-triggered or one-shot entry is not polled again for
  -- what was reported: a direction that was reported is out of its slot, which after any report of the read
  -- side, EPOLLRDHUP alone included, asks for POLLOUT and nothing else; and after an error, a
  -- hang-up or a one-shot report it has no slot at all.
  pub edge_once :
      (ev : ℕ) (e : Entry) (p : PollFd)
      → wants_edges e ≡ true
      → e.armed < 4
      → slot h false (disarm false ev e) ≡ some p
      → (has ev epollin && has p.events h.pollin ≡ false)
        × (has ev epollpri && has p.events h.pollpri ≡ false)
        × (has ev epollout && has p.events h.pollout ≡ false)
        × (p.events ≡ (
            if has ev (bit_or (bit_or epollin epollpri) epollrdhup) then h.pollout else p.events))
        × (has ev (bit_or epollerr epollhup) ≡ false)
        × (has e.events epolloneshot ≡ false)
  edge_once ev e p w a s =
      let (_, same, _) = disarm-keeps false ev e in
      let w' : wants_edges (disarm false ev e) ≡ true = rw same w in
      let unarmed = slot-unarmed (disarm false ev e) p w' in
      let (asked, _) = slot-edges (disarm false ev e) p w' s in
      let b = epoll_to_poll_bits h d e.events (disarm false ev e).armed in
      let c = disarm-IsCleared ev e w a in
      (
        ground (
          arith,
          b,
          c,
          asked,
          same,
          has-mask ev (bit_or epollin epollpri) epollrdhup,
          has-mask ev epollin epollpri,
        ),
        ground (
          arith,
          b,
          c,
          asked,
          same,
          has-mask ev (bit_or epollin epollpri) epollrdhup,
          has-mask ev epollin epollpri,
        ),
        ground (arith, b, c, asked, same),
        elim (Bool-cases (has ev (bit_or (bit_or epollin epollpri) epollrdhup))) [
          | inl t ↦ rw t (slot-only_out (disarm false ev e) p w' s (c.0 t))
          | inr t ↦ rw t refl
        ],
        elim (Bool-cases (has ev (bit_or epollerr epollhup))) [
          | inl t ↦ absurd (unarmed (c.3 t) s)
          | inr t ↦ t
        ],
        elim (Bool-cases (has e.events epolloneshot)) [
          | inl t ↦ absurd (unarmed (c.2 t) s)
          | inr t ↦ t
        ],
      )
