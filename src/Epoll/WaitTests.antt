-- ===== src/Epoll/WaitTests.antt =====
-- Runs of the pipe-pair table and of the waiting calls at concrete inputs, and the theorems there.
use rust_ape.Prelude.{
  ℕ, ◌+◌, ◌≤◌, ◌≡◌, refl, true, false, List, [], ◌∷◌, ◌++◌, none, some, if◌then◌else◌, length, ◌==◌,
  arith, Any, negative, leb, replicate,
}
use rust_ape.Epoll.Interest.{Entry, ebadf, arm_in, find_entry, update_entry}
use rust_ape.Epoll.Arming.{
  PollBits, PollFd, Ready, slot, slots, collect, disarm, effective_armed, epoll_to_poll,
  poll_to_epoll,
}
use rust_ape.Epoll.Table.{EpollSet, Table, set_by_handle}
use rust_ape.Epoll.Rearm.{rearm}
use rust_ape.Epoll.Pairs.{Pairs, no_pair, note_pipe, note_pair, note_new_fd, hint_pipe_write}
use rust_ape.Epoll.Pairs.Count.{IsCounted, mentions, note-IsCounted, note_new_fd_forgets}
use rust_ape.Epoll.Pairs.Hints.{hint-note_pipe, hint-note_pair}
use rust_ape.Epoll.Chunked.{
  Answer, failed, polled, ChunkRound, scan, chunk_rounds, poll_chunked, is_past, deadline_after,
}
use rust_ape.Epoll.Chunked.Laws.{
  poll_slots, scan-poll_slots, poll_chunked_ends, poll_chunked_timeout,
}
use rust_ape.Epoll.Wait.{
  Tick, Call, Outcome, stored, error, new_call, drop_bad, finish, after_poll, after_error,
  round_poll, proceed, wait_round, wait_loop, emu_wait,
}
use rust_ape.Epoll.Wait.Results.{emu_wait_bounded, emu_wait_timeout, emu_wait_gives_up}
use rust_ape.Epoll.Wait.Ends.{Answers, IsLate, emu_wait_ends}
use rust_ape.Epoll.Wait.Drop.{finds_bad, drop_bad_lookup}

abbrev host_bits : PollBits
host_bits = record {
  pollin = 1;
  pollpri = 2;
  pollout = 4;
  pollerr = 8;
  pollhup = 16;
  pollnval = 32;
  rdhup = none;
}

abbrev no_pairs : Pairs
no_pairs = record { slots = replicate 32 no_pair; next = 0; live = 0 }

no_pairs-IsCounted : IsCounted no_pairs
no_pairs-IsCounted = record { size = refl; counted = refl }

pair_count_run :
    IsCounted (note_new_fd false 6 no_pairs)
    × IsCounted (note_pipe false 6 8 no_pairs)
    × IsCounted (note_pair false 6 8 no_pairs)
pair_count_run = note-IsCounted false 6 8 no_pairs no_pairs-IsCounted (omega arith)

abbrev one_pipe : Pairs
one_pipe = record { slots = record { r = 6; w = 8 } ∷ replicate 31 no_pair; next = 1; live = 1 }

forgotten_run : mentions 6 (note_new_fd false 6 one_pipe).slots ≡ 0
forgotten_run = note_new_fd_forgets 6 one_pipe (record { size = refl; counted = refl }) refl

hinted_run : hint_pipe_write false 8 (note_pipe false 6 8 one_pipe) [] ≡ rearm 6 arm_in []
hinted_run =
    hint-note_pipe 6 8 one_pipe [] (record { size = refl; counted = refl }) (omega arith) refl refl

pair_hint_run :
    (hint_pipe_write false 6 (note_pair false 6 8 one_pipe) [] ≡ rearm 8 arm_in [])
    × (hint_pipe_write false 8 (note_pair false 6 8 one_pipe) [] ≡ rearm 6 arm_in [])
pair_hint_run =
    hint-note_pair 6 8 one_pipe [] (record { size = refl; counted = refl }) (omega arith) refl refl
      (omega arith)

abbrev pipe_slot : ℕ → PollFd
pipe_slot fd = record { fd = fd; events = 1; revents = 0 }

-- 40 slots need two chunks.
scan-poll_slots_example :
    scan 40 (poll_slots (λ p. p) (λ p. p.fd == 3)) (replicate 40 (pipe_slot 3))
    ≡ poll_slots (λ p. p) (λ p. p.fd == 3) (replicate 40 (pipe_slot 3))
scan-poll_slots_example =
    scan-poll_slots (λ p. p) (λ p. p.fd == 3) 40 (replicate 40 (pipe_slot 3)) (omega arith)

abbrev quiet_round : ℕ → ChunkRound
quiet_round t = record { poll = λ ps. polled 0 ps; now = t; nap_error = λ _. none }

poll_chunked_ends_example :
    (a : Answer) × (poll_chunked 100
        (some 15)
        (pipe_slot 3 ∷ [])
        (quiet_round 105 ∷ [] ++ (quiet_round 115 ∷ []))
      ≡ some a)
poll_chunked_ends_example =
    poll_chunked_ends 100 15 (pipe_slot 3 ∷ []) (quiet_round 105 ∷ []) [] (quiet_round 115)
      (omega arith)

timed_out_run :
    Any
      (λ (r : ChunkRound). is_past (deadline_after 100 (some 15)) r.now ≡ true)
      (quiet_round 105 ∷ quiet_round 115 ∷ [])
unfolding poll_chunked chunk_rounds scan
timed_out_run =
    poll_chunked_timeout 100 (some 15) (pipe_slot 3 ∷ []) (pipe_slot 3 ∷ [])
      (quiet_round 105 ∷ quiet_round 115 ∷ []) refl

abbrev listener : Entry
listener = record { fd = 7; events = 0x80000001; payload = 70; armed = 3 }

abbrev set0 : EpollSet
set0 = record {
  handles = 3 ∷ [];
  waker = 4;
  interest = record { entries = listener ∷ []; cap = 8 };
}

abbrev table : Table
table = some set0 ∷ []

-- A round at the given time in which the host gives the same answer to every poll.
abbrev tick : ℕ → Answer → Tick
tick t a = record {
  grown = true;
  before_snapshot = λ es. es;
  before_match = λ es. es;
  now_poll = t;
  now_intr = t;
  now_waker = t;
  now_end = t;
  ppoll = λ ps ms. a;
  chunk_start = t;
  chunks = [];
  is_bad = λ p. false;
  before_drop = λ p es. es;
}

abbrev quiet : ℕ → Tick
quiet t = tick t (polled 0 [])

abbrev readable : Answer
readable =
    polled 1
      (record { fd = 3; events = 1; revents = 0 } ∷ record { fd = 7; events = 1; revents = 1 } ∷ [])

-- The event is handed out once, and its read side is disarmed.
wait_once :
    emu_wait host_bits false 3 8 50 100 table (quiet 110 ∷ tick 120 readable ∷ [])
    ≡ some (stored (record { events = 1; payload = 70 } ∷ []), record listener { armed = 2 } ∷ [])
unfolding emu_wait wait_loop wait_round round_poll proceed after_poll finish set_by_handle slots
    slot effective_armed epoll_to_poll poll_to_epoll collect disarm find_entry update_entry
wait_once = refl

wait_nothing :
    emu_wait host_bits false 3 8 50 100 table (quiet 110 ∷ quiet 150 ∷ [])
    ≡ some (stored [], listener ∷ [])
unfolding emu_wait wait_loop wait_round round_poll proceed after_poll finish set_by_handle slots
    slot effective_armed epoll_to_poll poll_to_epoll collect disarm find_entry update_entry
wait_nothing = refl

bounded_run : length {A = Ready} (record { events = 1; payload = 70 } ∷ []) ≤ 8
bounded_run =
    emu_wait_bounded host_bits false 3 8 50 100 table (quiet 110 ∷ tick 120 readable ∷ [])
      (record { events = 1; payload = 70 } ∷ []) (record listener { armed = 2 } ∷ []) wait_once

late_run :
    (negative 50 ≡ false)
    × Any (λ (k : Tick). leb (100 + 50) k.now_end ≡ true) (quiet 110 ∷ quiet 150 ∷ [])
late_run =
    emu_wait_timeout host_bits false 3 8 50 100 table (quiet 110 ∷ quiet 150 ∷ []) (listener ∷ [])
      wait_nothing

quiet-Answers : (c : Call) (t : ℕ) → Answers c (quiet t)
unfolding round_poll
quiet-Answers c t ps = (polled 0 [], refl)

quiet-IsLate : (c : Call) → is_past c.deadline 150 ≡ true → IsLate c (quiet 150)
unfolding round_poll
quiet-IsLate c e = record {
  answers = quiet-Answers c 150;
  open_fds = λ ps q h. absurd (ground arith);
  past_intr = e;
  past_waker = e;
  past_end = e;
}

emu_wait_ends_example :
    (r : Outcome × List Entry) × (emu_wait host_bits false 3 8 50 100 table
        (quiet 110 ∷ [] ++ (quiet 150 ∷ []))
      ≡ some r)
unfolding set_by_handle
emu_wait_ends_example =
    emu_wait_ends host_bits false 3 8 50 100 table set0 (quiet 110 ∷ []) [] (quiet 150) refl
      (quiet-Answers (new_call host_bits false 3 8 50 100) 110, tt)
      (quiet-IsLate (new_call host_bits false 3 8 50 100) refl)

abbrev nine_bad : List Tick
nine_bad = replicate 9 (tick 110 (failed ebadf))

wait_gives_up :
    emu_wait host_bits false 3 8 50 100 table nine_bad ≡ some (error ebadf, listener ∷ [])
unfolding emu_wait wait_loop wait_round round_poll proceed after_error drop_bad set_by_handle slots
    slot effective_armed epoll_to_poll
wait_gives_up = refl

late_failure_run : 9 ≤ length nine_bad
unfolding set_by_handle
late_failure_run =
    emu_wait_gives_up host_bits false 3 8 50 100 table set0 nine_bad (listener ∷ []) refl
      wait_gives_up

abbrev bad_seven : Tick
bad_seven = record (tick 110 (failed ebadf)) { is_bad = λ p. p.fd == 7 }

bad_fd_run :
    find_entry (drop_bad bad_seven (pipe_slot 7 ∷ []) (listener ∷ [])).0 7
    ≡ (if finds_bad bad_seven (pipe_slot 7 ∷ []) 7 then none else find_entry (listener ∷ []) 7)
bad_fd_run =
    drop_bad_lookup bad_seven (λ p es. refl) (pipe_slot 7 ∷ []) (listener ∷ []) 7
      (λ j. ground arith)
