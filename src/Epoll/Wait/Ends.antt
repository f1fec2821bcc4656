-- ===== src/Epoll/Wait/Ends.antt =====
-- The end of the loop of `emu_wait`, in shim/epoll.c.
use rust_ape.Prelude.{
  ℕ, ◌+◌, ◌-◌, ◌≡◌, ◌≢◌, refl, ◌∙◌, subst, Bool, true, false, not, ◌&&◌, List, [], ◌∷◌, ◌++◌,
  Option, none, some, ltb, if◌then◌else◌, length, ◌==◌, arith, All, Bool-cases, inl, inr,
  nonpositive, has, get_or,
}
use rust_ape.Epoll.Interest.{Entry, Errno, einval, enomem}
use rust_ape.Epoll.Arming.{PollBits, PollFd, slots}
use rust_ape.Epoll.Table.{EpollSet, Table, set_by_handle}
use rust_ape.Epoll.Chunked.{Answer, failed, polled, is_past}
use rust_ape.Epoll.Wait.{
  Tick, Call, Loop, Outcome, stored, error, again, time_left, is_early, waker_slot, is_closed,
  is_eintr, after_poll, after_error, round_poll, proceed, with_room, refill_one, refill, rest_of,
  wait_round, wait_loop, new_call, emu_wait,
}
use rust_ape.Epoll.Wait.Rounds.{finish-late}
use rust_ape.Epoll.Wait.Calls.{start, emu_wait-cases}

-- The host answers every poll of a tick: its own answer, or enough rounds for the chunked retry.
abbrev pub Answers : Call → Tick → Type 0
Answers c k =
    (ps : List PollFd) → (a : Answer) × (round_poll k (time_left c.deadline k.now_poll) ps ≡ some a)

-- A tick in which no answer is a closed descriptor, and the clock has reached the deadline at each
-- of the tests that may end the call.
pub record IsLate (c : Call) (k : Tick) : Type 0 where
  pub answers : Answers c k
  pub open_fds :
      (ps : List PollFd) (e : Errno)
      → round_poll k (time_left c.deadline k.now_poll) ps ≡ some (failed e)
      → is_closed e ≡ false
  pub past_intr : is_past c.deadline k.now_intr ≡ true
  pub past_waker : is_past c.deadline k.now_waker ≡ true
  pub past_end : is_past c.deadline k.now_end ≡ true

module _ (c : Call) (k : Tick) where
  if-not-again :
      (b : Bool) (x y : Outcome × Loop)
      → (b ≡ true → x.0 ≢ again)
      → (b ≡ false → y.0 ≢ again)
      → (if b then x else y).0 ≢ again
  if-not-again true x y hx hy = hx refl
  if-not-again false x y hx hy = hy refl

  after_poll-late :
      (late : IsLate c k) (rc : ℕ) (w : PollFd) (ps : List PollFd) (l : Loop)
      → (after_poll c k rc w ps l).0 ≢ again
  unfolding after_poll
  after_poll-late late rc w ps l =
      if-not-again (not (rc == 0) && has w.revents c.bits.pollin) _ _
        (λ _.
          if-not-again (rc - 1 == 0 && is_early c.deadline k.now_waker) _ _
            (λ p. absurd (ground (arith, late.past_waker, p)))
            (λ _. finish-late c k (rc - 1) ps l late.past_end))
        (λ _. finish-late c k rc ps l late.past_end)

  after_error-late :
      (late : IsLate c k) (e : Errno) (ps : List PollFd) (l : Loop)
      → is_closed e ≡ false
      → (after_error c k e ps l).0 ≢ again
  unfolding after_error
  after_error-late late e ps l open_fd =
      if-not-again (is_eintr e) _ _
        (λ _.
          if-not-again (is_early c.deadline k.now_intr) _ _
            (λ p. absurd (ground (arith, late.past_intr, p)))
            (λ _. finish-late c k 0 ps l late.past_end))
        (λ _. rw open_fd (λ h. ground arith))

  proceed-some :
      (ps : List PollFd) (s : Loop) (o : Option Answer) (a : Answer)
      → o ≡ some a
      → (x : Outcome × Loop) × (proceed c k ps s o ≡ some x)
  unfolding proceed
  proceed-some ps s o (failed e) q = (after_error c k e ps s, rw q)
  proceed-some ps s o (polled rc qs) q =
      (after_poll c k rc (refill_one (waker_slot c) qs) (refill ps (rest_of qs)) s, rw q)

  proceed-late :
      (late : IsLate c k) (ps : List PollFd) (s : Loop) (o : Option Answer) (x : Outcome × Loop)
      → ((e : Errno) → o ≡ some (failed e) → is_closed e ≡ false)
      → proceed c k ps s o ≡ some x
      → x.0 ≢ again
  unfolding proceed
  proceed-late late ps s none x open_fd h = absurd (cc)
  proceed-late late ps s (some (failed e)) x open_fd h =
      let same : after_error c k e ps s ≡ x = ground arith in
      subst (λ y. y.0 ≢ again) same (after_error-late late e ps s (open_fd e refl))
  proceed-late late ps s (some (polled rc qs)) x open_fd h =
      let w = refill_one (waker_slot c) qs in
      let rs = refill ps (rest_of qs) in
      let same : after_poll c k rc w rs s ≡ x = ground arith in
      subst (λ y. y.0 ≢ again) same (after_poll-late late rc w rs s)

  some-if :
      (b : Bool) (x : Outcome × Loop) (o : Option (Outcome × Loop))
      → (y : Outcome × Loop) × (o ≡ some y)
      → (y : Outcome × Loop) × ((if b then some x else o) ≡ some y)
  some-if true x o h = (x, refl)
  some-if false x o h = h

  wait_round-some : (s : Loop) → Answers c k → (x : Outcome × Loop) × (wait_round c k s ≡ some x)
  unfolding wait_round
  wait_round-some s ans =
      let es = k.before_snapshot s.entries in
      let ps = slots c.bits c.lt es in
      let (a, q) = ans (waker_slot c ∷ ps) in
      some-if (ltb s.pcap (length es + 1) && not k.grown) _ _
        (proceed-some ps (with_room es s) _ a q)

  late-if :
      (b : Bool) (e : Errno) (l : Loop) (o : Option (Outcome × Loop)) (x : Outcome × Loop)
      → (o ≡ some x → x.0 ≢ again)
      → (if b then some (error e, l) else o) ≡ some x
      → x.0 ≢ again
  late-if true e l o x f h = ground arith
  late-if false e l o x f h = f h

  wait_round-late :
      (s : Loop) (x : Outcome × Loop) → IsLate c k → wait_round c k s ≡ some x → x.0 ≢ again
  unfolding wait_round
  wait_round-late s x late h =
      let es = k.before_snapshot s.entries in
      let ps = slots c.bits c.lt es in
      late-if (ltb s.pcap (length es + 1) && not k.grown) enomem (record s { entries = es }) _ x
        (proceed-late late ps (with_room es s) _ x (late.open_fds (waker_slot c ∷ ps))) h

loop-round :
    (c : Call) (k : Tick) (ks : List Tick) (s l : Loop)
    → wait_round c k s ≡ some (again, l)
    → wait_loop c (k ∷ ks) s ≡ wait_loop c ks l
unfolding wait_loop
loop-round c k ks s l h = rw (h, wait_loop)

loop-last :
    (c : Call) (k : Tick) (ks : List Tick) (s : Loop) (o : Outcome) (l : Loop)
    → wait_round c k s ≡ some (o, l)
    → o ≢ again
    → wait_loop c (k ∷ ks) s ≡ some (o, l)
unfolding wait_loop
loop-last c k ks s (stored out) l h n = rw (h, wait_loop)
loop-last c k ks s (error e) l h n = rw (h, wait_loop)
loop-last c k ks s again l h n = absurd (n refl)

wait_loop_ends :
    (c : Call) (before after : List Tick) (late : Tick) (s : Loop)
    → All (Answers c) before
    → IsLate c late
    → (r : Outcome × Loop) × (wait_loop c (before ++ (late ∷ after)) s ≡ some r)
wait_loop_ends c [] after late s h l =
    let ((o, s'), q) = wait_round-some c late s l.answers in
    ((o, s'), loop-last c late after s o s' q (wait_round-late c late s (o, s') l q))
wait_loop_ends c (k ∷ ks) after late s h l =
    go (wait_round-some c k s h.0) (λ s'. wait_loop_ends c ks after late s' h.1 l)
  where
    go :
        (x : Outcome × Loop) × (wait_round c k s ≡ some x)
        → ((s' : Loop) → (r : Outcome × Loop) × (wait_loop c (ks ++ (late ∷ after)) s' ≡ some r))
        → (r : Outcome × Loop) × (wait_loop c (k ∷ (ks ++ (late ∷ after))) s ≡ some r)
    go ((stored out, s'), q) rest =
        ((stored out, s'), loop-last c k _ s (stored out) s' q (λ e. ground arith))
    go ((error e, s'), q) rest =
        ((error e, s'), loop-last c k _ s (error e) s' q (λ e. ground arith))
    go ((again, s'), q) rest = let (r, e) = rest s' in (r, loop-round c k _ s s' q ∙ e)

-- A call with a timeout returns: at the latest in the first round in which the clock has reached
-- the deadline and no descriptor is found closed, whatever rounds come before it, as long as the
-- host answers their polls.
pub emu_wait_ends :
    (h : PollBits) (lt : Bool) (epfd maxevents timeout now : ℕ) (t : Table) (s : EpollSet)
    (before after : List Tick) (late : Tick)
    → set_by_handle t epfd ≡ some s
    → All (Answers (new_call h lt (get_or s.handles 0 0) maxevents timeout now)) before
    → IsLate (new_call h lt (get_or s.handles 0 0) maxevents timeout now) late
    → (r : Outcome × List Entry) × (emu_wait h lt epfd maxevents timeout now t
          (before ++ (late ∷ after))
        ≡ some r)
emu_wait_ends h lt epfd maxevents timeout now t s before after late e a l =
    let c = new_call h lt (get_or s.handles 0 0) maxevents timeout now in
    let ((o, s'), q) = wait_loop_ends c before after late (start s) a l in
    let runs =
      (emu_wait-cases h lt epfd maxevents timeout now t (before ++ (late ∷ after))).1 s e in
    elim (Bool-cases (nonpositive maxevents)) [
      | inl p ↦ ((error einval, s.interest.entries), runs ∙ rw p)
      | inr p ↦ ((o, s'.entries), runs ∙ rw (p, q))
    ]
