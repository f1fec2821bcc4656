-- ===== src/Epoll/Arming.antt =====
-- Per-direction arming in shim/epoll.c: `effective_armed`, `epoll_to_poll`, `poll_to_epoll`, the
-- pollfd array that `emu_wait` builds, and the loop in which it hands events out and disarms. The
-- host's POLL* bits are runtime constants there, so they are a parameter here.
pub mod Bits
pub mod Edges
pub mod Collect
pub mod Handout
use rust_ape.Prelude.{
  ℕ, zero, suc, Bool, true, false, not, ◌&&◌, ◌||◌, List, [], ◌∷◌, ◌++◌, Option, none, some, ◌==◌,
  if◌then◌else◌, has, or_if, clear_bits, bit_and, bit_or,
}
use rust_ape.Epoll.Interest.{Entry, arm_in, arm_out, arm_both, find_entry, update_entry}

-- Linux's EPOLL* values, as the file spells them.
abbrev pub epollin : ℕ
epollin = 0x001

abbrev pub epollpri : ℕ
epollpri = 0x002

abbrev pub epollout : ℕ
epollout = 0x004

abbrev pub epollerr : ℕ
epollerr = 0x008

abbrev pub epollhup : ℕ
epollhup = 0x010

abbrev pub epollrdhup : ℕ
epollrdhup = 0x2000

abbrev pub epolloneshot : ℕ
epolloneshot = 0x40000000

abbrev pub epollet : ℕ
epollet = 0x80000000

-- The host's POLL* constants; `rdhup` is `none` where the headers define no POLLRDHUP.
pub record PollBits : Type 0 where
  pub pollin : ℕ
  pub pollpri : ℕ
  pub pollout : ℕ
  pub pollerr : ℕ
  pub pollhup : ℕ
  pub pollnval : ℕ
  pub rdhup : Option ℕ

-- `struct pollfd`
pub record PollFd : Type 0 where
  pub fd : ℕ
  pub events : ℕ
  pub revents : ℕ

-- What `epoll_wait` stores for one event.
pub record Ready : Type 0 where
  pub events : ℕ
  pub payload : ℕ

-- `e->events & (SHIM_EPOLLET | SHIM_EPOLLONESHOT)`
abbrev pub wants_edges : Entry → Bool
wants_edges e = has e.events (bit_or epollet epolloneshot)

-- `lt` is the answer of `lt_forced()`.
unfoldable pub effective_armed : Bool → Entry → ℕ
effective_armed lt e = if not (wants_edges e) || lt then arm_both else e.armed

-- `if (b & BIT) x |= y;` for a bit that the headers may lack
abbrev pub or_if_defined : Bool → Option ℕ → ℕ → ℕ
or_if_defined b none x = x
or_if_defined b (some m) x = or_if b m x

abbrev pub has_defined : ℕ → Option ℕ → Bool
has_defined r none = false
has_defined r (some m) = has r m

unfoldable pub epoll_to_poll : PollBits → ℕ → ℕ → ℕ
epoll_to_poll h e armed =
    let reads =
      or_if_defined (has e epollrdhup) h.rdhup
        (or_if (has e epollpri) h.pollpri (or_if (has e epollin) h.pollin 0)) in
    or_if (has armed arm_out && has e epollout) h.pollout (if has armed arm_in then reads else 0)

unfoldable pub poll_to_epoll : PollBits → ℕ → ℕ
poll_to_epoll h r = or_if (has r h.pollnval) epollerr (
    or_if (has_defined r h.rdhup) epollrdhup (
      or_if (has r h.pollhup) epollhup (
        or_if (has r h.pollerr) epollerr (
          or_if (has r h.pollpri) epollpri
            (or_if (has r h.pollout) epollout (or_if (has r h.pollin) epollin 0))))))

-- The slot of one entry, where it has one: an edge-triggered or one-shot entry with nothing to
-- poll for is left out of the array.
unfoldable pub slot : PollBits → Bool → Entry → Option PollFd
unfolding effective_armed epoll_to_poll
slot h lt e =
    let ev = epoll_to_poll h e.events (effective_armed lt e) in
    if ev == 0 && (wants_edges e && not lt)
    then none
    else some (record { fd = e.fd; events = ev; revents = 0 })

-- `pfds[1..np)`; entry 0, the waker, is put before it by the caller.
unfoldable pub slots : PollBits → Bool → List Entry → List PollFd
slots h lt [] = []
slots h lt (e ∷ es) = elim (slot h lt e) [ none ↦ slots h lt es | some p ↦ p ∷ slots h lt es ]

-- The two `e->armed &= ~…` of an edge-triggered entry.
abbrev pub clear_reported : ℕ → ℕ → ℕ
clear_reported ev armed =
    let read_side = has ev (bit_or (bit_or epollin epollpri) epollrdhup) in
    let a = if read_side then clear_bits armed arm_in else armed in
    if has ev epollout then clear_bits a arm_out else a

-- What a reported event does to the arming of its entry.
unfoldable pub disarm : Bool → ℕ → Entry → Entry
disarm lt ev e =
    if lt
    then e
    else if has e.events epolloneshot
    then record e { armed = 0 }
    else if has e.events epollet
    then if has ev (bit_or epollerr epollhup)
      then record e { armed = 0 }
      else record e { armed = clear_reported ev e.armed }
    else e

-- `revents` cut down to what was asked for, and to what poll may always report.
abbrev pub reported : PollBits → PollFd → ℕ
reported h p = bit_and p.revents (bit_or (bit_or (bit_or p.events h.pollerr) h.pollhup) h.pollnval)

-- The loop over `pfds[1..np)`. The number is the room left in `out`, `maxevents - got`; the result
-- is what is stored in `out` and the interest list afterwards.
unfoldable pub collect : PollBits → Bool → List PollFd → ℕ → List Entry → List Ready × List Entry
collect h lt [] room es = ([], es)
collect h lt (p ∷ ps) zero es = ([], es)
collect h lt (p ∷ ps) (suc room) es =
    let skip = collect h lt ps (suc room) es in
    let ev = poll_to_epoll h (reported h p) in
    let rest = collect h lt ps room (update_entry p.fd (disarm lt ev) es) in
    if reported h p == 0 then skip else elim (find_entry es p.fd) [
      | none ↦ skip
      | some e ↦ (record { events = ev; payload = e.payload } ∷ rest.0, rest.1)
    ]
