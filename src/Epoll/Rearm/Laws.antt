-- ===== src/Epoll/Rearm/Laws.antt =====
-- Re-arming in shim/epoll.c, set by set.
use rust_ape.Prelude.{
  ℕ, ◌≡◌, refl, ◌∙◌, Bool, true, false, not, List, [], ◌∷◌, none, some, ◌==◌, if◌then◌else◌, Any,
  arith, Bool-cases, inl, inr, has, has-zero, has-bit_or, map,
}
use rust_ape.Epoll.Interest.{Entry, arm_in, find_entry}
use rust_ape.Epoll.Interest.Lookup.{find-update_entry}
use rust_ape.Epoll.Arming.{PollBits, PollFd, epollin, slot, epoll_to_poll, effective_armed}
use rust_ape.Epoll.Arming.Bits.{IsDisjoint, epoll_to_poll_bits}
use rust_ape.Epoll.Table.{EpollSet, Table, kick, owns, set_by_handle}
use rust_ape.Epoll.Rearm.{rearms, arm_more, rearm_set, rearm_table, rearm}

-- An entry after `rearm` of its fd: edge-triggered entries gain the direction, one-shot ones wait
-- for MOD.
abbrev pub rearmed : ℕ → Entry → Entry
rearmed bits e = if rearms e then arm_more bits e else e

-- `rearm` of one set changes the entry of the fd alone, and that one as `rearmed`; the set's
-- handles, waker and capacity stay.
pub rearm_set_lookup :
    (fd bits : ℕ) (s : EpollSet) (j : ℕ)
    → let s' = (rearm_set fd bits s).0 in
      (find_entry s'.interest.entries j ≡ (
        if fd == j
        then elim (find_entry s.interest.entries j) [ none ↦ none | some e ↦ some (rearmed bits e) ]
        else find_entry s.interest.entries j))
      × (s'.handles ≡ s.handles)
      × (s'.waker ≡ s.waker)
      × (s'.interest.cap ≡ s.interest.cap)
unfolding rearm_set
rearm_set_lookup fd bits s j = (
  ground (arith, find-update_entry fd (arm_more bits) (λ _. refl) s.interest.entries j),
  ground arith,
  ground arith,
  ground arith,
)

-- The waker is written exactly where an entry of the set gained a direction.
pub rearm_set_wakes :
    (fd bits : ℕ) (s : EpollSet) (e : Entry)
    → find_entry s.interest.entries fd ≡ some e
    → (rearm_set fd bits s).1 ≡ not ((rearmed bits e).armed == e.armed)
unfolding rearm_set
rearm_set_wakes fd bits s e f = ground (arith, f)

-- `rearm` goes through every set: each handle reaches its own set, re-armed.
pub set_by_handle-rearm :
    (fd bits : ℕ) (t : Table) (j : ℕ)
    → set_by_handle (rearm fd bits t).0 j
      ≡ (elim (set_by_handle t j) [ none ↦ none | some s ↦ some (rearm_set fd bits s).0 ])
unfolding rearm set_by_handle
set_by_handle-rearm fd bits [] j = refl
set_by_handle-rearm fd bits (none ∷ t) j = set_by_handle-rearm fd bits t j
set_by_handle-rearm fd bits (some s ∷ t) j =
    ground (arith, set_by_handle-rearm fd bits t j, rearm_set_lookup fd bits s j)

Any-if :
    (b : Bool) (w v : ℕ) (ks : List ℕ)
    → Any (λ x. x ≡ kick v) (map kick ks)
    → Any (λ x. x ≡ kick v) (map kick (if b then w ∷ ks else ks))
Any-if true w v ks h = inr h
Any-if false w v ks h = h

-- Whoever waits on a set in which an entry gained a direction is woken.
pub rearm_kicks :
    (fd bits : ℕ) (t : Table) (j : ℕ) (s : EpollSet)
    → set_by_handle t j ≡ some s
    → (rearm_set fd bits s).1 ≡ true
    → Any (λ x. x ≡ kick s.waker) (rearm fd bits t).1
unfolding rearm set_by_handle
rearm_kicks fd bits [] j s e c = cc
rearm_kicks fd bits (none ∷ t) j s e c = rearm_kicks fd bits t j s e c
rearm_kicks fd bits (some x ∷ t) j s e c = elim (Bool-cases (owns j x.handles)) [
  | inl o ↦ let same : x ≡ s = ground arith in rw same (rw c (inl refl))
  | inr o ↦
      Any-if (rearm_set fd bits x).1 x.waker s.waker (rearm_table fd bits t).1
        (rearm_kicks fd bits t j s (ground arith) c)
]

slot-some :
    (h : PollBits) (lt : Bool) (e : Entry) (m : ℕ)
    → has (epoll_to_poll h e.events (effective_armed lt e)) m ≡ true
    → slot h lt e
      ≡ some (record {
        fd = e.fd;
        events = epoll_to_poll h e.events (effective_armed lt e);
        revents = 0;
      })
unfolding slot
slot-some h lt e m asks = ground (arith, asks, has-zero m)

armed-arm_more :
    (lt : Bool) (e : Entry)
    → rearms e ≡ true
    → has (effective_armed lt (rearmed arm_in e)) arm_in ≡ true
unfolding effective_armed
armed-arm_more lt e edge = ground (arith, edge, has-bit_or e.armed arm_in arm_in)

-- An entry that is registered for reading and armed for it has a slot that asks for POLLIN.
slot-reads :
    (h : PollBits)
    → IsDisjoint h
    → (lt : Bool) (e : Entry) → has e.events epollin ≡ true
    → has (effective_armed lt e) arm_in ≡ true
    → (p : PollFd) × (slot h lt e ≡ some p) × (has p.events h.pollin ≡ true)
slot-reads h d lt e reads on =
    let asks = (epoll_to_poll_bits h d e.events (effective_armed lt e)).0 ∙ rw (reads, on) in
    (
      record { fd = e.fd; events = epoll_to_poll h e.events (effective_armed lt e); revents = 0 },
      slot-some h lt e h.pollin asks,
      asks,
    )

-- The direction is polled again: in every set where the fd is registered edge-triggered, not
-- one-shot, and for reading, it has a slot that asks for POLLIN after `rearm` of the read side.
pub rearm_in_polls :
    (h : PollBits) (lt : Bool) (fd : ℕ) (t : Table) (j : ℕ) (s : EpollSet) (e : Entry)
    → IsDisjoint h
    → set_by_handle t j ≡ some s
    → find_entry s.interest.entries fd ≡ some e
    → rearms e ≡ true
    → has e.events epollin ≡ true
    → (s' : EpollSet) × (e' : Entry) × (p : PollFd) × (set_by_handle (rearm fd arm_in t).0 j
        ≡ some s')
      × (find_entry s'.interest.entries fd ≡ some e')
      × (slot h lt e' ≡ some p)
      × (has p.events h.pollin ≡ true)
rearm_in_polls h lt fd t j s e d own found edge reads =
    let e' = rearmed arm_in e in
    let there = (rearm_set_lookup fd arm_in s fd).0 in
    let on = armed-arm_more lt e edge in
    let (p, has_slot, asks) = slot-reads h d lt e' (ground (arith, edge, reads)) on in
    (
      (rearm_set fd arm_in s).0,
      e',
      p,
      set_by_handle-rearm fd arm_in t j ∙ rw own,
      ground (arith, there, found),
      has_slot,
      asks,
    )

-- Whoever waits on such a set is woken by `rearm` of the read side, if that side was not armed:
-- the set's waker is written, so that a parked waiter builds its array anew.
pub rearm_in_wakes :
    (fd : ℕ) (t : Table) (j : ℕ) (s : EpollSet) (e : Entry)
    → set_by_handle t j ≡ some s
    → find_entry s.interest.entries fd ≡ some e
    → rearms e ≡ true
    → has e.armed arm_in ≡ false
    → Any (λ x. x ≡ kick s.waker) (rearm fd arm_in t).1
rearm_in_wakes fd t j s e own found edge off = rearm_kicks fd arm_in t j s own (
    ground
      (arith, rearm_set_wakes fd arm_in s e found, edge, off, has-bit_or e.armed arm_in arm_in))
