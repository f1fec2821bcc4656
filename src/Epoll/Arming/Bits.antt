-- ===== src/Epoll/Arming/Bits.antt =====
-- The two translations of event bits in shim/epoll.c, bit by bit.
use rust_ape.Prelude.{
  ℕ, ◌≡◌, refl, ◌∙◌, ap, Bool, true, false, ◌&&◌, ◌||◌, Option, none, some, ◌==◌, if◌then◌else◌,
  has, or_if, has-or_if, has-zero, has_comm, has_self, arith,
}
use rust_ape.Epoll.Arming.{
  PollBits, epollin, epollpri, epollout, epollerr, epollhup, epollrdhup, has_defined, or_if_defined,
  poll_to_epoll, epoll_to_poll,
}
use rust_ape.Epoll.Interest.{arm_in, arm_out}

-- `poll_to_epoll` sets each EPOLL bit exactly where its POLL bit is set; a bogus fd's POLLNVAL is
-- spelled as an error.
pub poll_to_epoll_bits :
    (h : PollBits) (r : ℕ)
    → (has (poll_to_epoll h r) epollin ≡ has r h.pollin)
      × (has (poll_to_epoll h r) epollout ≡ has r h.pollout)
      × (has (poll_to_epoll h r) epollpri ≡ has r h.pollpri)
      × (has (poll_to_epoll h r) epollhup ≡ has r h.pollhup)
      × (has (poll_to_epoll h r) epollrdhup ≡ has_defined r h.rdhup)
      × (has (poll_to_epoll h r) epollerr ≡ (has r h.pollerr || has r h.pollnval))
unfolding poll_to_epoll
poll_to_epoll_bits h r =
    table (has r h.pollin) (has r h.pollout) (has r h.pollpri) (has r h.pollerr) (has r h.pollhup)
      (has_defined r h.rdhup) (has r h.pollnval)
  where
    table :
        (i o p e u d n : Bool)
        → let x = or_if n epollerr (
            or_if d epollrdhup (
              or_if u epollhup
                (or_if e epollerr (or_if p epollpri (or_if o epollout (or_if i epollin 0)))))) in
          (has x epollin ≡ i)
          × (has x epollout ≡ o)
          × (has x epollpri ≡ p)
          × (has x epollhup ≡ u)
          × (has x epollrdhup ≡ d)
          × (has x epollerr ≡ (e || n))
    table i o p e u d n = ground arith

-- What the emulation relies on in the host's headers: the three bits that it asks for are not
-- zero and overlap neither each other nor the bits that `poll` may always report.
pub record IsDisjoint (h : PollBits) : Type 0 where
  pub in_set : (h.pollin == 0) ≡ false
  pub pri_set : (h.pollpri == 0) ≡ false
  pub out_set : (h.pollout == 0) ≡ false
  pub in_pri : has h.pollin h.pollpri ≡ false
  pub in_out : has h.pollin h.pollout ≡ false
  pub pri_out : has h.pollpri h.pollout ≡ false
  pub err :
      (has h.pollerr h.pollin ≡ false)
      × (has h.pollerr h.pollpri ≡ false)
      × (has h.pollerr h.pollout ≡ false)
  pub hup :
      (has h.pollhup h.pollin ≡ false)
      × (has h.pollhup h.pollpri ≡ false)
      × (has h.pollhup h.pollout ≡ false)
  pub nval :
      (has h.pollnval h.pollin ≡ false)
      × (has h.pollnval h.pollpri ≡ false)
      × (has h.pollnval h.pollout ≡ false)
  pub rdhup_in : has_defined h.pollin h.rdhup ≡ false
  pub rdhup_pri : has_defined h.pollpri h.rdhup ≡ false
  pub rdhup_out : has_defined h.pollout h.rdhup ≡ false

has-or_if_defined :
    (b : Bool) (k : Option ℕ) (x m : ℕ)
    → has (or_if_defined b k x) m ≡ (has x m || (b && has_defined m k))
has-or_if_defined b none x m = ground arith
has-or_if_defined b (some k) x m = has-or_if b k x m ∙ ap (λ t. has x m || (b && t)) (has_comm k m)

has-if : (b : Bool) (x y m : ℕ) → has (if b then x else y) m ≡ (if b then has x m else has y m)
has-if true x y m = refl
has-if false x y m = refl

reads-has :
    (h : PollBits) (i p u : Bool) (m : ℕ)
    → has (or_if_defined u h.rdhup (or_if p h.pollpri (or_if i h.pollin 0))) m
      ≡ (((i && has h.pollin m) || (p && has h.pollpri m)) || (u && has_defined m h.rdhup))
reads-has h i p u m = rw (has-or_if_defined, has-or_if, has-or_if, has-zero)

-- A bit of the mask that `epoll_to_poll` builds, whatever the host's constants are.
polled-has :
    (h : PollBits) (e armed m : ℕ)
    → has (epoll_to_poll h e armed) m ≡ (
        (has armed arm_in
          && (((has e epollin && has h.pollin m) || (has e epollpri && has h.pollpri m))
              || (has e epollrdhup && has_defined m h.rdhup)))
        || ((has armed arm_out && has e epollout) && has h.pollout m))
unfolding epoll_to_poll
polled-has h e armed m = rw (has-or_if, has-if, reads-has, has-zero) (ground arith)

module _ (h : PollBits) (d : IsDisjoint h) where
  -- `epoll_to_poll` asks for a direction exactly where it is armed and was registered for.
  pub epoll_to_poll_bits :
      (e armed : ℕ)
      → (has (epoll_to_poll h e armed) h.pollin ≡ (has armed arm_in && has e epollin))
        × (has (epoll_to_poll h e armed) h.pollpri ≡ (has armed arm_in && has e epollpri))
        × (has (epoll_to_poll h e armed) h.pollout ≡ (has armed arm_out && has e epollout))
  epoll_to_poll_bits e armed = (
    rw
        (
          polled-has,
          has_self h.pollin d.in_set,
          has_comm h.pollpri h.pollin,
          d.in_pri,
          d.rdhup_in,
          has_comm h.pollout h.pollin,
          d.in_out,
        )
        (ground arith),
    rw
        (
          polled-has,
          has_self h.pollpri d.pri_set,
          d.in_pri,
          d.rdhup_pri,
          has_comm h.pollout h.pollpri,
          d.pri_out,
        )
        (ground arith),
    rw (polled-has, has_self h.pollout d.out_set, d.in_out, d.pri_out, d.rdhup_out) (ground arith),
  )
