-- ===== src/Epoll/Wait/Rounds.antt =====
-- One round of the loop of `emu_wait`, in shim/epoll.c, by the way it ends.
use rust_ape.Prelude.{
  ℕ, suc, ◌+◌, ◌-◌, ◌≤◌, ◌≡◌, ◌≢◌, refl, Bool, true, false, not, ◌&&◌, List, [], ◌∷◌, Option, none,
  some, ltb, if◌then◌else◌, length, ◌==◌, arith, has,
}
use rust_ape.Epoll.Interest.{Errno, ebadf, enomem}
use rust_ape.Epoll.Arming.{PollFd, Ready, slots}
use rust_ape.Epoll.Arming.Handout.{length-collect}
use rust_ape.Epoll.Chunked.{Answer, failed, polled, is_past}
use rust_ape.Epoll.Wait.{
  Tick, Call, Loop, Outcome, stored, error, again, time_left, is_early, waker_slot, is_closed,
  is_eintr, finish, after_poll, after_closed, after_error, round_poll, proceed, with_room,
  wait_round,
}

module _ (c : Call) (k : Tick) where
  finish-stored :
      (rc : ℕ) (ps : List PollFd) (s : Loop) (out : List Ready)
      → (finish c k rc ps s).0 ≡ stored out
      → (length out ≤ c.maxevents) × (out ≡ [] → is_past c.deadline k.now_end ≡ true)
  unfolding finish
  finish-stored rc ps s out h = (
    ground (arith, length-collect c.bits c.lt ps c.maxevents (k.before_match s.entries)),
    λ e. ground arith,
  )

  finish-error :
      (rc : ℕ) (ps : List PollFd) (s : Loop) (e : Errno) → (finish c k rc ps s).0 ≢ error e
  unfolding finish
  finish-error rc ps s e h = ground arith

  finish-keeps :
      (rc : ℕ) (ps : List PollFd) (s : Loop) → (finish c k rc ps s).1.bad_polls ≡ s.bad_polls
  unfolding finish
  finish-keeps rc ps s = ground arith

  pub finish-late :
      (rc : ℕ) (ps : List PollFd) (s : Loop)
      → is_past c.deadline k.now_end ≡ true
      → (finish c k rc ps s).0 ≢ again
  unfolding finish
  finish-late rc ps s e h = ground arith

  -- A round is over in one of four ways: it stops before it looks at anything, it goes through
  -- `finish`, it drops closed descriptors, or it fails.
  pub data Way (s : Loop) : Outcome × Loop → Type 0 where
    early : (l : Loop) → l.bad_polls ≡ s.bad_polls → Way s (again, l)
    finished :
        (rc : ℕ) (ps : List PollFd) (l : Loop)
        → l.bad_polls ≡ s.bad_polls
        → Way s (finish c k rc ps l)
    closed : (ps : List PollFd) (l : Loop) → l.bad_polls ≡ s.bad_polls → Way s (after_closed k ps l)
    broken : (e : Errno) (l : Loop) → is_closed e ≡ false → Way s (error e, l)

  Way-if :
      (s : Loop) (b : Bool) (x y : Outcome × Loop)
      → Way s x
      → (b ≡ false → Way s y)
      → Way s (if b then x else y)
  Way-if s true x y wx wy = wx
  Way-if s false x y wx wy = wy refl

  after_poll-Way :
      (rc : ℕ) (w : PollFd) (ps : List PollFd) (s l : Loop)
      → l.bad_polls ≡ s.bad_polls
      → Way s (after_poll c k rc w ps l)
  unfolding after_poll
  after_poll-Way rc w ps s l e =
      Way-if s (not (rc == 0) && has w.revents c.bits.pollin) _ _
        (Way-if s (rc - 1 == 0 && is_early c.deadline k.now_waker) _ _ (early l e)
          (λ _. finished (rc - 1) ps l e))
        (λ _. finished rc ps l e)

  after_error-Way :
      (e : Errno) (ps : List PollFd) (s l : Loop)
      → l.bad_polls ≡ s.bad_polls
      → Way s (after_error c k e ps l)
  unfolding after_error
  after_error-Way e ps s l q =
      Way-if s (is_eintr e) _ _
        (Way-if s (is_early c.deadline k.now_intr) _ _ (early l q) (λ _. finished 0 ps l q))
        (λ _. Way-if s (is_closed e) _ _ (closed ps l q) (λ n. broken e l n))

  abbrev pub WayOut : Loop → Option (Outcome × Loop) → Type 0
  WayOut s none = Unit
  WayOut s (some x) = Way s x

  proceed-WayOut :
      (ps : List PollFd) (s l : Loop) (a : Option Answer)
      → l.bad_polls ≡ s.bad_polls
      → WayOut s (proceed c k ps l a)
  unfolding proceed
  proceed-WayOut ps s l none e = tt
  proceed-WayOut ps s l (some (failed q)) e = after_error-Way q ps s l e
  proceed-WayOut ps s l (some (polled rc qs)) e = after_poll-Way rc _ _ s l e

  WayOut-if :
      (s : Loop) (b : Bool) (x y : Option (Outcome × Loop))
      → WayOut s x
      → WayOut s y
      → WayOut s (if b then x else y)
  WayOut-if s true x y wx wy = wx
  WayOut-if s false x y wx wy = wy

  pub wait_round-WayOut : (s : Loop) → WayOut s (wait_round c k s)
  unfolding wait_round
  wait_round-WayOut s =
      let es = k.before_snapshot s.entries in
      let ps = slots c.bits c.lt es in
      let answer = round_poll k (time_left c.deadline k.now_poll) (waker_slot c ∷ ps) in
      WayOut-if s (ltb s.pcap (length es + 1) && not k.grown) _ _ (broken enomem _ refl)
        (proceed-WayOut ps s (with_room es s) answer refl)

  -- One round, whatever its outcome.
  pub round-stored :
      (s : Loop) (x : Outcome × Loop) (out : List Ready)
      → Way s x
      → x.0 ≡ stored out
      → (length out ≤ c.maxevents) × (out ≡ [] → is_past c.deadline k.now_end ≡ true)
  round-stored s x out (early l e) h = absurd (ground arith)
  round-stored s x out (finished rc ps l e) h = finish-stored rc ps l out h
  round-stored s x out (closed ps l e) h = absurd (unfold after_closed in ground arith)
  round-stored s x out (broken e l n) h = absurd (ground arith)

  pub round-ebadf :
      (s : Loop) (x : Outcome × Loop)
      → Way s x
      → s.bad_polls ≤ 8
      → (x.0 ≡ error ebadf → s.bad_polls ≡ 8)
        × (x.0 ≡ again → (x.1.bad_polls ≤ suc s.bad_polls) × (x.1.bad_polls ≤ 8))
  round-ebadf s x (early l e) h = ground (arith, e)
  round-ebadf s x (finished rc ps l e) h =
      ((λ q. absurd (finish-error rc ps l ebadf q)), λ q. omega (arith, finish-keeps rc ps l, e))
  round-ebadf s x (closed ps l e) h = unfold after_closed in ground (arith, e)
  round-ebadf s x (broken e l n) h = ground (arith, n)
