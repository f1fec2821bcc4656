-- ===== src/Poll/Phases.antt =====
-- The end of the polled phase in `host_ppoll_inner` of shim/poll.c.
use rust_ape.Prelude.{
  ℕ, ◌-◌, ◌≤◌, ◌≡◌, refl, true, false, not, ◌||◌, length, List, [], ◌∷◌, ◌++◌, Option, none, some,
  leb, ◌==◌, if◌then◌else◌, arith, ap, ◌∙◌, Bool-cases, Option-cases, inl, inr,
}
use rust_ape.Epoll.Interest.{Errno}
use rust_ape.Epoll.Arming.{PollFd}
use rust_ape.Epoll.Chunked.{Answer, failed, polled}
use rust_ape.Poll.{
  Timespec, is_zero_timeout, zero_time, PolledRound, PollHost, nap_us, is_due, parked,
  polled_rounds, deadline_of, after_first, host_ppoll_inner,
}

-- One round, by its nap and its poll.
module _ (h : PollHost) (budget : ℕ) (deadline : Option ℕ) (r : PolledRound) (rs : List PolledRound)
    (ps : List PollFd) where
  round-parks :
      leb budget (r.before - h.start) ≡ true
      → polled_rounds h budget deadline (r ∷ rs) ps ≡ some (parked h deadline ps)
  unfolding polled_rounds
  round-parks q = rw q refl

  round-breaks :
      (e : Errno)
      → leb budget (r.before - h.start) ≡ false
      → r.nap_error (nap_us (r.before - h.start)) ≡ some e
      → polled_rounds h budget deadline (r ∷ rs) ps ≡ some (failed e)
  unfolding polled_rounds
  round-breaks e q n = rw (q, n) refl

  polled_answer : Answer → Option Answer
  polled_answer (failed e) = some (failed e)
  polled_answer (polled k qs) =
      if k == 0
      then if is_due deadline r.after
        then some (polled 0 qs)
        else polled_rounds h budget deadline rs qs
      else some (polled k qs)

  round-polls :
      leb budget (r.before - h.start) ≡ false
      → r.nap_error (nap_us (r.before - h.start)) ≡ none
      → polled_rounds h budget deadline (r ∷ rs) ps ≡ polled_answer (r.poll ps)
  unfolding polled_rounds polled_answer
  round-polls q n = rw (q, n) (by_answer (r.poll ps))
    where
      by_answer :
          (a : Answer)
          → (elim a as (λ _. Option Answer) [
            | failed e ↦ some (failed e)
            | polled k qs ↦
                if k == 0
                then if is_due deadline r.after
                  then some (polled 0 qs)
                  else polled_rounds h budget deadline rs qs
                else some (polled k qs)
          ])
            ≡ polled_answer a
      by_answer (failed e) = refl
      by_answer (polled k qs) = refl

  -- The answer ends the phase, unless nothing is ready and the deadline is not reached.
  polled_answer-ends :
      (a : Answer)
      → ((qs : List PollFd) → (b : Answer) × (polled_rounds h budget deadline rs qs ≡ some b))
      → (b : Answer) × (polled_answer a ≡ some b)
  unfolding polled_answer
  polled_answer-ends (failed e) rest = (failed e, refl)
  polled_answer-ends (polled k qs) rest = elim (Bool-cases (k == 0)) [
    | inr z ↦ (polled k qs, rw z refl)
    | inl z ↦ elim (Bool-cases (is_due deadline r.after)) [
      | inl d ↦ (polled 0 qs, rw (z, d) refl)
      | inr d ↦ let (b, e) = rest qs in (b, rw (z, d) e)
    ]
  ]

polled_rounds_ends :
    (h : PollHost) (budget : ℕ) (deadline : Option ℕ) (before after : List PolledRound)
    (late : PolledRound) (ps : List PollFd)
    → budget ≤ late.before - h.start
    → (a : Answer) × (polled_rounds h budget deadline (before ++ late ∷ after) ps ≡ some a)
polled_rounds_ends h budget deadline [] after late ps l =
    (parked h deadline ps, round-parks h budget deadline late after ps (ground (arith, l)))
polled_rounds_ends h budget deadline (r ∷ rs) after late ps l =
    let rest = rs ++ late ∷ after in
    elim (Bool-cases (leb budget (r.before - h.start))) [
      | inl q ↦ (parked h deadline ps, round-parks h budget deadline r rest ps q)
      | inr q ↦ elim (Option-cases (r.nap_error (nap_us (r.before - h.start)))) [
        | inr (e, n) ↦ (failed e, round-breaks h budget deadline r rest ps e q n)
        | inl n ↦
            let (b, e) =
              polled_answer-ends h budget deadline r rest ps (r.poll ps)
                (λ qs. polled_rounds_ends h budget deadline rs after late qs l) in
            (b, round-polls h budget deadline r rest ps q n ∙ e)
      ]
    ]

after_first_ends :
    (h : PollHost) (timeout : Option Timespec) (before after : List PolledRound)
    (late : PolledRound) (a : Answer)
    → h.rounds ≡ before ++ late ∷ after
    → h.budget ≤ late.before - h.start
    → (b : Answer) × (after_first h timeout a ≡ some b)
unfolding after_first
after_first_ends h timeout before after late (failed f) e l = (failed f, refl)
after_first_ends h timeout before after late (polled k qs) e l = elim (Bool-cases (k == 0)) [
  | inr z ↦ (polled k qs, rw z refl)
  | inl z ↦
      let d = deadline_of h.start timeout in
      let (b, r) = polled_rounds_ends h h.budget d before after late qs l in
      (b, rw z (ap (λ rs. polled_rounds h h.budget d rs qs) e ∙ r))
]

-- A wait is over, or handed to the host, at the latest in the first round of the polled phase whose
-- clock shows that its budget is used up, whatever the polls and naps before it answer.
pub host_ppoll_inner_ends :
    (h : PollHost) (timeout : Option Timespec) (before after : List PolledRound)
    (late : PolledRound) (ps : List PollFd)
    → h.rounds ≡ before ++ late ∷ after
    → h.budget ≤ late.before - h.start
    → (a : Answer) × (host_ppoll_inner h timeout ps ≡ some a)
unfolding host_ppoll_inner
host_ppoll_inner_ends h timeout before after late ps e l =
    elim (Bool-cases
      (not h.is_windows || (h.budget == 0 || (length ps == 0 || is_zero_timeout timeout)))) [
        | inl q ↦ (h.ppoll timeout ps, rw q refl)
        | inr q ↦
            let (a, k) =
              after_first_ends h timeout before after late (h.ppoll (some zero_time) ps) e l in
            (a, rw q k)
      ]
