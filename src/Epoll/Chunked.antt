-- ===== src/Epoll/Chunked.antt =====
-- `poll_chunked` of shim/epoll.c: an array that the host's `poll` refuses is scanned in chunks of
-- 32 with no timeout, with naps on the waker between the scans. What the host answers, and what
-- the clock shows, is an argument; times are in milliseconds.
pub mod Laws
use rust_ape.Prelude.{
  ℕ, zero, suc, ◌+◌, ◌-◌, Bool, true, false, List, [], ◌∷◌, ◌++◌, Option, none, some, ltb, leb,
  if◌then◌else◌, length, take, drop, ◌==◌,
}
use rust_ape.Epoll.Interest.{Errno}
use rust_ape.Epoll.Arming.{PollFd}

-- What a poll answers: -1 with an errno, or a count and the array with its `revents` filled in.
pub data Answer : Type 0 where
  failed : Errno → Answer
  polled : ℕ → List PollFd → Answer

-- `SHIM_POLL_CHUNK`, `SHIM_POLL_NAP_MS`
abbrev pub poll_chunk : ℕ
poll_chunk = 32

abbrev pub poll_nap : ℕ
poll_nap = 10

-- `ms < 0 ? -1 : now_ms() + ms`, with `none` for -1.
abbrev pub deadline_after : ℕ → Option ℕ → Option ℕ
deadline_after now none = none
deadline_after now (some ms) = some (now + ms)

-- What is joined to the chunks before it.
abbrev pub join_chunk : List PollFd → ℕ → Answer → Answer
join_chunk ps k (failed e) = failed e
join_chunk ps k (polled n qs) = polled (k + n) (ps ++ qs)

-- The inner `for`: one scan of the array. `poll` is the host's answer to a chunk that is polled
-- without waiting. A chunk is never empty, so the length of the array is fuel enough.
unfoldable pub scan : ℕ → (List PollFd → Answer) → List PollFd → Answer
scan zero poll ps = polled 0 []
scan (suc n) poll [] = polled 0 []
scan (suc n) poll (p ∷ ps) =
    let rest = scan n poll (drop poll_chunk (p ∷ ps)) in
    elim (poll (take poll_chunk (p ∷ ps))) [
      | failed e ↦ failed e
      | polled k qs ↦ join_chunk qs k rest
    ]

-- What the host shows in one round of the outer loop: the answers to the scan's chunks, the clock
-- after an empty scan, and the errno if a nap of so many milliseconds on the waker fails.
pub record ChunkRound : Type 0 where
  pub poll : List PollFd → Answer
  pub now : ℕ
  pub nap_error : ℕ → Option Errno

-- The nap, cut to the time that is left.
abbrev pub nap_ms : Option ℕ → ℕ → ℕ
nap_ms none now = poll_nap
nap_ms (some d) now = if ltb (d - now) poll_nap then d - now else poll_nap

abbrev pub is_past : Option ℕ → ℕ → Bool
is_past none now = false
is_past (some d) now = leb d now

-- The outer loop over the rounds that the host gives; `none` where they run out.
unfoldable pub chunk_rounds : Option ℕ → List PollFd → List ChunkRound → Option Answer
unfolding scan
chunk_rounds deadline ps [] = none
chunk_rounds deadline ps (r ∷ rs) =
    let rest = chunk_rounds deadline ps rs in
    elim (scan (length ps) r.poll ps) [
      | failed e ↦ some (failed e)
      | polled n qs ↦
          if n == 0
          then if is_past deadline r.now
            then some (polled 0 qs)
            else elim (r.nap_error (nap_ms deadline r.now)) [
              | some e ↦ some (failed e)
              | none ↦ rest
            ]
          else some (polled n qs)
    ]

unfoldable pub poll_chunked : ℕ → Option ℕ → List PollFd → List ChunkRound → Option Answer
poll_chunked now ms ps rs = chunk_rounds (deadline_after now ms) ps rs
