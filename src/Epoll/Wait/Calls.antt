-- ===== src/Epoll/Wait/Calls.antt =====
-- How the loop of `emu_wait` goes on from a round, and how a call begins.
use rust_ape.Prelude.{
  ℕ, ◌≡◌, ◌≢◌, refl, Bool, List, [], ◌∷◌, Option, none, some, if◌then◌else◌, arith, nonpositive,
  get_or,
}
use rust_ape.Epoll.Interest.{Entry, ebadf, einval}
use rust_ape.Epoll.Arming.{PollBits}
use rust_ape.Epoll.Table.{EpollSet, Table, set_by_handle}
use rust_ape.Epoll.Wait.{
  Tick, Call, Loop, Outcome, stored, error, again, wait_round, wait_loop, new_call, emu_wait,
}
use rust_ape.Epoll.Wait.Rounds.{Way, WayOut, wait_round-WayOut}

-- How the loop goes on from the first round.
pub data First (c : Call) (k : Tick) (ks : List Tick) (s : Loop) : Type 0 where
  stuck : wait_loop c (k ∷ ks) s ≡ none → First c k ks s
  last :
      (o : Outcome) (l : Loop)
      → Way c k s (o, l)
      → o ≢ again
      → wait_loop c (k ∷ ks) s ≡ some (o, l)
      → First c k ks s
  more :
      (l : Loop) → Way c k s (again, l) → wait_loop c (k ∷ ks) s ≡ wait_loop c ks l → First c k ks s

pub first : (c : Call) (k : Tick) (ks : List Tick) (s : Loop) → First c k ks s
unfolding wait_loop
first c k ks s = go (wait_round c k s) refl (wait_round-WayOut c k s)
  where
    go : (r : Option (Outcome × Loop)) → wait_round c k s ≡ r → WayOut c k s r → First c k ks s
    go none q w = stuck (ground (arith, q))
    go (some (again, l)) q w = more l w (ground (arith, q))
    go (some (stored out, l)) q w = last (stored out) l w (λ h. ground arith) (ground (arith, q))
    go (some (error e, l)) q w = last (error e) l w (λ h. ground arith) (ground (arith, q))

pub wait_loop-nil : (c : Call) (s : Loop) → wait_loop c [] s ≡ none
unfolding wait_loop
wait_loop-nil c s = refl

abbrev pub start : EpollSet → Loop
start s = record { entries = s.interest.entries; pcap = 0; bad_polls = 0 }

abbrev pub result : Option (Outcome × Loop) → Option (Outcome × List Entry)
result none = none
result (some (o, l)) = some (o, l.entries)

-- The two checks of a call, and the loop behind them.
pub emu_wait-cases :
    (h : PollBits) (lt : Bool) (epfd maxevents timeout now : ℕ) (t : Table) (ks : List Tick)
    → (set_by_handle t epfd ≡ none
        → emu_wait h lt epfd maxevents timeout now t ks ≡ some (error ebadf, []))
      × ((s : EpollSet)
          → set_by_handle t epfd ≡ some s
          → emu_wait h lt epfd maxevents timeout now t ks ≡ (
              if nonpositive maxevents
              then some (error einval, s.interest.entries)
              else result (
                  wait_loop
                    (new_call h lt (get_or s.handles 0 0) maxevents timeout now)
                    ks
                    (start s))))
unfolding emu_wait
emu_wait-cases h lt epfd maxevents timeout now t ks =
    (λ e. ground (arith, e), λ s e. ground (arith, e))
