-- ===== src/Epoll/Rearm.antt =====
-- Re-arming in shim/epoll.c: `rearm` and its two entry points, which the I/O shims call.
pub mod Laws
use rust_ape.Prelude.{
  ℕ, Bool, true, false, not, ◌&&◌, ◌||◌, List, [], ◌∷◌, map, Option, none, some, ◌==◌,
  if◌then◌else◌, has, bit_or, negative,
}
use rust_ape.Epoll.Interest.{Entry, Interest, arm_in, arm_out, find_entry, update_entry}
use rust_ape.Epoll.Arming.{epollet, epolloneshot}
use rust_ape.Epoll.Table.{EpollSet, Table, Effect, kick}

-- `(e->events & SHIM_EPOLLET) && !(e->events & SHIM_EPOLLONESHOT)`
abbrev pub rearms : Entry → Bool
rearms e = has e.events epollet && not (has e.events epolloneshot)

abbrev pub arm_more : ℕ → Entry → Entry
arm_more bits e = record e { armed = bit_or e.armed bits }

-- One set: the set afterwards, and whether its waker has to be written.
unfoldable pub rearm_set : ℕ → ℕ → EpollSet → EpollSet × Bool
unfolding find_entry update_entry
rearm_set fd bits s = elim (find_entry s.interest.entries fd) [
  | none ↦ (s, false)
  | some e ↦
      if rearms e && not (bit_or e.armed bits == e.armed)
      then (
        record s {
          interest = record {
            entries = update_entry fd (arm_more bits) s.interest.entries;
            cap = s.interest.cap;
          };
        },
        true,
      )
      else (s, false)
]

-- `rearm` under the locks: the table, and the wakers in `kicks[0..nkicks)`.
unfoldable pub rearm_table : ℕ → ℕ → Table → Table × List ℕ
rearm_table fd bits [] = ([], [])
rearm_table fd bits (none ∷ t) = (none ∷ (rearm_table fd bits t).0, (rearm_table fd bits t).1)
rearm_table fd bits (some s ∷ t) =
    let rest = rearm_table fd bits t in
    let (s', changed) = rearm_set fd bits s in
    (some s' ∷ rest.0, if changed then s.waker ∷ rest.1 else rest.1)

-- `rearm`: the wakers are written after every lock is released.
unfoldable pub rearm : ℕ → ℕ → Table → Table × List Effect
unfolding rearm_table rearm_set
rearm fd bits t = let (t', kicks) = rearm_table fd bits t in (t', map kick kicks)

-- `__ape_shim_epoll_rearm_in`; `raw` is the answer of `use_syscalls()`.
unfoldable pub rearm_in : Bool → ℕ → Table → Table × List Effect
unfolding rearm
rearm_in raw fd t = if negative fd || raw then (t, []) else rearm fd arm_in t

-- `__ape_shim_epoll_rearm_out`
unfoldable pub rearm_out : Bool → ℕ → Table → Table × List Effect
unfolding rearm
rearm_out raw fd t = if negative fd || raw then (t, []) else rearm fd arm_out t
