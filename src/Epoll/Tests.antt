-- ===== src/Epoll/Tests.antt =====
-- Runs of the epoll emulation at concrete inputs, and the theorems there.
use rust_ape.Prelude.{
  ℕ, ◌≡◌, refl, true, false, ◌&&◌, List, [], ◌∷◌, none, some, if◌then◌else◌, ◌==◌, arith, implies,
  inl, has, bit_or, Any, All,
}
use rust_ape.Epoll.Interest.{
  Entry, Interest, fail, ebadf, eexist, arm_in, arm_out, find_entry, update_entry, add, remove,
  ctl_switch, ctl_add, ctl_del,
}
use rust_ape.Epoll.Interest.Lookup.{IsDistinct}
use rust_ape.Epoll.Interest.Laws.{IsWf, view, map_call, ctl_switch-IsWf}
use rust_ape.Epoll.Arming.{
  PollBits, PollFd, Ready, epollin, epollpri, epollout, epollerr, epollhup, epollrdhup,
  epolloneshot, slot, collect, disarm, effective_armed, epoll_to_poll, poll_to_epoll, reported,
}
use rust_ape.Epoll.Arming.Bits.{IsDisjoint, poll_to_epoll_bits}
use rust_ape.Epoll.Arming.Edges.{edge_once, reported_requested}
use rust_ape.Epoll.Arming.Handout.{Explains, collect_sound, collect_complete, collect_cutoff}
use rust_ape.Epoll.Table.{
  EpollSet, Table, Host, kick, set_by_handle, note_dup, push_handle, forget_fd, reclaim, place,
  retire, create1, new_set, emu_ctl, owns, kick_if_ok,
}
use rust_ape.Epoll.Table.Handles.{IsOwnedOnce, note_dup-IsOwnedOnce, note_dup_shares}
use rust_ape.Epoll.Table.Create.{reaches, create1-IsOwnedOnce, create1_fresh, create1-keeps}
use rust_ape.Epoll.Table.Ctl.{emu_ctl-fail, emu_ctl_refines, store_interest}
use rust_ape.Epoll.Rearm.{rearm}
use rust_ape.Epoll.Rearm.Laws.{rearm_in_polls, rearm_in_wakes}

-- The POLL* values of Linux.
abbrev host_bits : PollBits
host_bits = record {
  pollin = 1;
  pollpri = 2;
  pollout = 4;
  pollerr = 8;
  pollhup = 16;
  pollnval = 32;
  rdhup = some 0x2000;
}

host_bits-IsDisjoint : IsDisjoint host_bits
host_bits-IsDisjoint = record {
  in_set = refl;
  pri_set = refl;
  out_set = refl;
  in_pri = refl;
  in_out = refl;
  pri_out = refl;
  err = (refl, refl, refl);
  hup = (refl, refl, refl);
  nval = (refl, refl, refl);
  rdhup_in = refl;
  rdhup_pri = refl;
  rdhup_out = refl;
}

-- A socket, edge-triggered for reading and writing, whose read side has been reported.
abbrev socket : Entry
socket = record { fd = 7; events = 0x80000005; payload = 70; armed = 2 }

abbrev fresh_socket : Entry
fresh_socket = record { fd = 7; events = 0x80000005; payload = 70; armed = 3 }

-- A timer, level-triggered.
abbrev timer : Entry
timer = record { fd = 9; events = 1; payload = 90; armed = 3 }

abbrev two : List Entry
two = socket ∷ timer ∷ []

two-IsDistinct : IsDistinct two
two-IsDistinct j = ground arith

abbrev interest : Interest
interest = record { entries = two; cap = 8 }

interest-IsWf : IsWf interest
unfolding find_entry
interest-IsWf = record {
  distinct = two-IsDistinct;
  fits = omega arith;
  directions = λ j e h. ground arith;
}

abbrev set0 : EpollSet
set0 = record { handles = 3 ∷ []; waker = 4; interest = interest }

abbrev table : Table
table = some set0 ∷ none ∷ []

table-IsOwnedOnce : IsOwnedOnce table
table-IsOwnedOnce j = ground arith

edge_once_example :
    (has epollrdhup epollin && has 4 1 ≡ false)
    × (has epollrdhup epollpri && has 4 2 ≡ false)
    × (has epollrdhup epollout && has 4 4 ≡ false)
    × (◌≡◌ {A = ℕ} 4
        (if has epollrdhup (bit_or (bit_or epollin epollpri) epollrdhup) then 4 else 4))
    × (has epollrdhup (bit_or epollerr epollhup) ≡ false)
    × (has 0x80000005 epolloneshot ≡ false)
unfolding slot disarm
edge_once_example =
    edge_once host_bits host_bits-IsDisjoint epollrdhup fresh_socket
      (record { fd = 7; events = 4; revents = 0 }) refl (omega arith) refl

abbrev ready_timer : PollFd
ready_timer = record { fd = 9; events = 1; revents = 1 }

abbrev ready_socket : PollFd
ready_socket = record { fd = 7; events = 4; revents = 4 }

asked_for_run :
    let ev = poll_to_epoll host_bits (reported host_bits ready_socket) in
    let armed = effective_armed false socket in
    (implies (has ev epollin) (has socket.events epollin && has armed arm_in) ≡ true)
    × (implies (has ev epollpri) (has socket.events epollpri && has armed arm_in) ≡ true)
    × (implies (has ev epollout) (has socket.events epollout && has armed arm_out) ≡ true)
unfolding epoll_to_poll effective_armed
asked_for_run = reported_requested host_bits host_bits-IsDisjoint false socket ready_socket refl

two_collected : collect host_bits false (ready_timer ∷ ready_socket ∷ []) 8 two ≡ (
  record { events = 1; payload = 90 } ∷ record { events = 4; payload = 70 } ∷ [],
  record socket { armed = 0 } ∷ timer ∷ [],
)
unfolding collect poll_to_epoll disarm find_entry update_entry
two_collected = refl

collect_complete_example :
    Any
      (λ (r : Ready).
        (r.events ≡ poll_to_epoll host_bits (reported host_bits ready_timer)) × (r.payload ≡ 90))
      (collect host_bits false (ready_timer ∷ ready_socket ∷ []) 8 two).0
unfolding collect poll_to_epoll disarm find_entry update_entry
collect_complete_example =
    collect_complete host_bits false (ready_timer ∷ ready_socket ∷ []) 8 two ready_timer timer
      (inl refl) refl refl (omega arith)

true_report_run :
    All
      (λ r. Any (Explains host_bits false two r) (ready_timer ∷ []))
      (collect host_bits false (ready_timer ∷ []) 8 two).0
true_report_run = collect_sound host_bits false (ready_timer ∷ []) 8 two

collect_cutoff_example :
    find_entry (collect host_bits false (ready_timer ∷ ready_socket ∷ []) 1 two).1 7
    ≡ find_entry two 7
unfolding collect poll_to_epoll disarm find_entry update_entry
collect_cutoff_example =
    collect_cutoff host_bits false (ready_timer ∷ []) (ready_socket ∷ []) 1 two 7 refl (omega arith)

hangup_is_reported : has (poll_to_epoll host_bits 17) epollhup ≡ true
hangup_is_reported = (poll_to_epoll_bits host_bits 17).3

-- Registering the fd again is refused, and a removal frees it.
add_twice :
    (ctl_switch true ctl_add 7 (some (record { events = 1; payload = 1 })) interest).1 ≡ fail eexist
unfolding ctl_switch add
add_twice = refl

remove_first : (ctl_switch true ctl_del 7 none interest).0.entries ≡ timer ∷ []
unfolding ctl_switch remove
remove_first = refl

switched_run : IsWf (ctl_switch true ctl_del 7 none interest).0
switched_run = ctl_switch-IsWf true ctl_del 7 none interest interest-IsWf

emu_ctl_refines_example :
    let (t', r, effects) = emu_ctl true 3 ctl_del 7 none table in
    (r ≡ (map_call 3 ctl_del 7 none (view interest)).1)
    × (effects ≡ kick_if_ok r 4)
    × ((i : Interest) × (set_by_handle t' 3
          ≡ (if owns 3 (3 ∷ []) then some (store_interest i set0) else set_by_handle table 3))
        × IsWf i
        × (view i 7 ≡ (map_call 3 ctl_del 7 none (view interest)).0 7))
unfolding set_by_handle
emu_ctl_refines_example =
    emu_ctl_refines 3 ctl_del 7 none table set0 3 7 table-IsOwnedOnce refl interest-IsWf

emu_ctl-fail_run :
    ((emu_ctl true 5 ctl_add 11 none table).0 ≡ table)
    × ((emu_ctl true 5 ctl_add 11 none table).2 ≡ [])
unfolding emu_ctl set_by_handle
emu_ctl-fail_run = emu_ctl-fail true 5 ctl_add 11 none table ebadf refl

handle_run : IsOwnedOnce (note_dup false 3 12 table)
handle_run = note_dup-IsOwnedOnce false 3 12 table table-IsOwnedOnce

shared_run :
    (set_by_handle (note_dup false 3 12 table) 12 ≡ some (push_handle 12 set0))
    × (set_by_handle (note_dup false 3 12 table) 3 ≡ some (push_handle 12 set0))
unfolding set_by_handle
shared_run = note_dup_shares 3 12 table set0 (omega arith) refl refl (omega arith)

-- Descriptor 3 has been closed and its number comes back as a fresh pipe's read end.
abbrev host : Host
host = record { getfl = λ fd. some 0; nonblock = 2048; cloexec = 1; alive = λ fd. fd == 20 }

create1_reuse : (create1 host 0 0 (some (3, 5)) table).0 ≡ some (new_set 3 5) ∷ none ∷ []
unfolding create1 retire forget_fd reclaim place
create1_reuse = refl

fresh_set_run : IsOwnedOnce (create1 host 0 0 (some (3, 5)) table).0
fresh_set_run = create1-IsOwnedOnce host 0 0 (some (3, 5)) table table-IsOwnedOnce

fresh_run :
    (◌≡◌ {A = ℕ} 3 3)
    × (set_by_handle (create1 host 0 0 (some (3, 5)) table).0 3 ≡ some (new_set 3 5))
unfolding create1 retire forget_fd reclaim place
fresh_run = create1_fresh host 0 0 3 5 3 table refl

abbrev other_table : Table
other_table = some (record set0 { handles = 20 ∷ [] }) ∷ none ∷ []

create1-keeps_example :
    reaches (set_by_handle (create1 host 0 0 (some (3, 5)) other_table).0 20)
    ≡ reaches (set_by_handle other_table 20)
create1-keeps_example =
    create1-keeps host 0 0 (some (3, 5)) other_table 20 refl (λ r w e. ground arith)

rearm_in_polls_example :
    (s' : EpollSet) × (e' : Entry) × (p : PollFd) × (set_by_handle (rearm 7 arm_in table).0 3
      ≡ some s')
    × (find_entry s'.interest.entries 7 ≡ some e')
    × (slot host_bits false e' ≡ some p)
    × (has p.events 1 ≡ true)
unfolding set_by_handle find_entry
rearm_in_polls_example =
    rearm_in_polls host_bits false 7 table 3 set0 socket host_bits-IsDisjoint refl refl refl refl

rearm_in_wakes_example : Any (λ x. x ≡ kick 4) (rearm 7 arm_in table).1
unfolding set_by_handle find_entry
rearm_in_wakes_example = rearm_in_wakes 7 table 3 set0 socket refl refl refl refl
