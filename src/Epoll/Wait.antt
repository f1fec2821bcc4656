-- ===== src/Epoll/Wait.antt =====
-- `emu_wait` of shim/epoll.c: the snapshot of the interest list, the poll, the recovery from a
-- closed descriptor, the waker, and the handing out of events. What the host, the clock and the
-- other threads do in one round of the loop is a record; the loop runs over a list of them.
pub mod Rounds
pub mod Calls
pub mod Results
pub mod Ends
pub mod Drop
use rust_ape.Prelude.{
  ℕ, zero, suc, ◌+◌, ◌-◌, ◌^◌, Bool, true, false, not, ◌&&◌, ◌||◌, List, [], ◌∷◌, ◌++◌, Option,
  none, some, ltb, leb, ◌==◌, if◌then◌else◌, length, has, nonpositive, negative, get_or,
}
use rust_ape.Epoll.Interest.{
  Entry, Errno, ebadf, einval, enomem, eintr, enotsock, other, find_entry, delete_entry,
}
use rust_ape.Epoll.Arming.{PollBits, PollFd, Ready, slots, collect}
use rust_ape.Epoll.Table.{Table, set_by_handle}
use rust_ape.Epoll.Chunked.{
  Answer, failed, polled, ChunkRound, poll_chunk, poll_chunked, is_past, deadline_after,
}

-- What the host and the other threads do in one round.
pub record Tick : Type 0 where
  -- whether `realloc` succeeds, where the array has to grow
  pub grown : Bool
  -- what other threads have done to the list when the two locks are taken
  pub before_snapshot : List Entry → List Entry
  pub before_match : List Entry → List Entry
  -- the clock: before the poll, after EINTR, after the waker, at the end
  pub now_poll : ℕ
  pub now_intr : ℕ
  pub now_waker : ℕ
  pub now_end : ℕ
  -- `__ape_shim_host_ppoll`, and the rounds that `poll_chunked` sees
  pub ppoll : List PollFd → Option ℕ → Answer
  pub chunk_start : ℕ
  pub chunks : List ChunkRound
  -- whether the probe of one slot finds its descriptor bad, and what other threads have done to
  -- the list when that slot's entry is looked up
  pub is_bad : PollFd → Bool
  pub before_drop : PollFd → List Entry → List Entry

-- What stays the same through one call.
pub record Call : Type 0 where
  pub bits : PollBits
  pub lt : Bool
  pub handle : ℕ
  pub maxevents : ℕ
  pub deadline : Option ℕ

-- The variables of the loop, and the set's entries.
pub record Loop : Type 0 where
  pub entries : List Entry
  pub pcap : ℕ
  pub bad_polls : ℕ

-- How a round ends: with the call's result, or with another round.
pub data Outcome : Type 0 where
  stored : List Ready → Outcome
  error : Errno → Outcome
  again : Outcome

abbrev pub int_max : ℕ
int_max = 2 ^ 31 - 1

-- `ms`, with `none` for -1.
abbrev pub time_left : Option ℕ → ℕ → Option ℕ
time_left none now = none
time_left (some d) now =
    some (if leb d now then 0 else if ltb int_max (d - now) then int_max else d - now)

-- `deadline < 0 || now < deadline`
abbrev pub is_early : Option ℕ → ℕ → Bool
is_early d now = not (is_past d now)

-- Entry 0 of the array.
abbrev pub waker_slot : Call → PollFd
waker_slot c = record { fd = c.handle; events = c.bits.pollin; revents = 0 }

-- The loop that drops closed descriptors: the list afterwards, and `dropped`.
unfoldable pub drop_bad : Tick → List PollFd → List Entry → List Entry × ℕ
unfolding find_entry delete_entry
drop_bad k [] es = (es, 0)
drop_bad k (p ∷ ps) es =
    let now = k.before_drop p es in
    let gone = drop_bad k ps (delete_entry p.fd now) in
    let next = drop_bad k ps now in
    let skip = drop_bad k ps es in
    if k.is_bad p
    then elim (find_entry now p.fd) [ some _ ↦ (gone.0, suc gone.1) | none ↦ next ]
    else skip

-- `errno == EBADF || errno == ENOTSOCK`
abbrev pub is_closed : Errno → Bool
is_closed ebadf = true
is_closed enotsock = true
is_closed _ = false

abbrev pub is_eintr : Errno → Bool
is_eintr eintr = true
is_eintr _ = false

abbrev pub is_einval : Errno → Bool
is_einval einval = true
is_einval _ = false

-- From the handing out to the end of the round.
unfoldable pub finish : Call → Tick → ℕ → List PollFd → Loop → Outcome × Loop
finish c k rc ps s =
    let (out, es') =
      if rc == 0
      then ([], s.entries)
      else collect c.bits c.lt ps c.maxevents (k.before_match s.entries) in
    let s' = record s { entries = es' } in
    elim out [
      | r ∷ rs ↦ (stored (r ∷ rs), s')
      | [] ↦ if is_past c.deadline k.now_end then (stored [], s') else (again, s')
    ]

-- After a successful poll: the waker, entry 0, comes first.
unfoldable pub after_poll : Call → Tick → ℕ → PollFd → List PollFd → Loop → Outcome × Loop
unfolding finish
after_poll c k rc w ps s =
    if not (rc == 0) && has w.revents c.bits.pollin
    then if rc - 1 == 0 && is_early c.deadline k.now_waker
      then (again, s)
      else finish c k (rc - 1) ps s
    else finish c k rc ps s

-- After a poll that failed because a descriptor is closed.
unfoldable pub after_closed : Tick → List PollFd → Loop → Outcome × Loop
unfolding drop_bad
after_closed k ps s =
    let (es, dropped) = drop_bad k ps s.entries in
    if not (dropped == 0) then (again, record s { entries = es }) else (
      if ltb s.bad_polls 8 then again else error ebadf,
      record s { entries = es; bad_polls = suc s.bad_polls },
    )

-- After a poll that failed.
unfoldable pub after_error : Call → Tick → Errno → List PollFd → Loop → Outcome × Loop
unfolding after_closed finish
after_error c k e ps s =
    if is_eintr e
    then if is_early c.deadline k.now_intr then (again, s) else finish c k 0 ps s
    else if is_closed e
    then after_closed k ps s
    else (error e, s)

-- `poll` writes `revents` and nothing else.
abbrev pub refill_one : PollFd → List PollFd → PollFd
refill_one p [] = p
refill_one p (q ∷ qs) = record p { revents = q.revents }

abbrev pub rest_of : List PollFd → List PollFd
rest_of [] = []
rest_of (q ∷ qs) = qs

abbrev pub refill : List PollFd → List PollFd → List PollFd
refill [] qs = []
refill (p ∷ ps) qs = refill_one p qs ∷ refill ps (rest_of qs)

-- The poll of one round, with the chunked retry of an array that the host refuses; `none` where
-- the rounds given for the retry run out.
unfoldable pub round_poll : Tick → Option ℕ → List PollFd → Option Answer
round_poll k ms ps = elim (k.ppoll ps ms) [
  | polled n qs ↦ some (polled n qs)
  | failed e ↦
      if is_einval e && ltb poll_chunk (length ps)
      then poll_chunked k.chunk_start ms ps k.chunks
      else some (failed e)
]

-- What the round does with the answer to its poll; `ps` is the array without its entry 0.
unfoldable pub proceed : Call → Tick → List PollFd → Loop → Option Answer → Option (Outcome × Loop)
proceed c k ps s none = none
proceed c k ps s (some (failed e)) = some (after_error c k e ps s)
proceed c k ps s (some (polled rc qs)) =
    some (after_poll c k rc (refill_one (waker_slot c) qs) (refill ps (rest_of qs)) s)

-- The loop's variables once the array is large enough for the list.
abbrev pub with_room : List Entry → Loop → Loop
with_room es s = record {
  entries = es;
  pcap = if ltb s.pcap (length es + 1) then length es + 1 else s.pcap;
  bad_polls = s.bad_polls;
}

-- One round of the `for (;;)`.
unfoldable pub wait_round : Call → Tick → Loop → Option (Outcome × Loop)
wait_round c k s =
    let es = k.before_snapshot s.entries in
    let ps = slots c.bits c.lt es in
    if ltb s.pcap (length es + 1) && not k.grown
    then some (error enomem, record s { entries = es })
    else proceed c k ps (with_room es s)
        (round_poll k (time_left c.deadline k.now_poll) (waker_slot c ∷ ps))

-- The loop, over what happens round by round; `none` where that runs out.
unfoldable pub wait_loop : Call → List Tick → Loop → Option (Outcome × Loop)
wait_loop c [] s = none
wait_loop c (k ∷ ks) s = elim (wait_round c k s) [
  | none ↦ none
  | some (again, s') ↦ wait_loop c ks s'
  | some (stored out, s') ↦ some (stored out, s')
  | some (error e, s') ↦ some (error e, s')
]

-- The call's constants: `timeout` is an `int`, and `now` the clock at the start.
abbrev pub new_call : PollBits → Bool → ℕ → ℕ → ℕ → ℕ → Call
new_call h lt handle maxevents timeout now = record {
  bits = h;
  lt = lt;
  handle = handle;
  maxevents = maxevents;
  deadline = if negative timeout then none else some (now + timeout);
}

-- `emu_wait`: its two checks and the loop. The result has the set's entries afterwards.
unfoldable pub emu_wait :
    PollBits → Bool → ℕ → ℕ → ℕ → ℕ → Table → List Tick → Option (Outcome × List Entry)
emu_wait h lt epfd maxevents timeout now t ks = elim (set_by_handle t epfd) [
  | none ↦ some (error ebadf, [])
  | some s ↦
      if nonpositive maxevents
      then some (error einval, s.interest.entries)
      else elim (wait_loop (new_call h lt (get_or s.handles 0 0) maxevents timeout now) ks
          (record { entries = s.interest.entries; pcap = 0; bad_polls = 0 })) [
            | none ↦ none
            | some (o, l) ↦ some (o, l.entries)
          ]
]
