-- ===== src/Poll/Tests.antt =====
-- Runs of shim/poll.c.
use rust_ape.Prelude.{
  ℕ, ◌≡◌, refl, true, false, List, [], ◌∷◌, none, some, ◌==◌, if◌then◌else◌, arith, replicate,
}
use rust_ape.Codes.{Row}
use rust_ape.Epoll.Arming.{PollFd}
use rust_ape.Epoll.Chunked.{Answer, polled}
use rust_ape.Packet.{PktTable, empty_sock, packet_secondary}
use rust_ape.Poll.{
  PollHost, PolledRound, host_ppoll_inner, host_ppoll, ready_count, fd_to_host, fd_to_linux,
  host_bits, linux_bits,
}
use rust_ape.Poll.Phases.{host_ppoll_inner_ends}
use rust_ape.Poll.Twins.{fill_all, joined_all, host_ppoll_joins}

abbrev quiet : PolledRound
quiet = record { before = 1010; nap_error = λ us. none; poll = λ ps. polled 0 ps; after = 1011 }

abbrev late : PolledRound
late = record quiet { before = 1250; after = 1251 }

-- NT with the polled phase of 250 ms, which begins at 1000.
abbrev nt : PollHost
nt = record {
  is_windows = true;
  budget = 250;
  ppoll = λ timeout ps. polled 0 ps;
  start = 1000;
  rounds = quiet ∷ late ∷ [];
  parked_at = 1251;
  park = λ timeout ps. polled 0 ps;
}

abbrev asked : List PollFd
asked = record { fd = 5; events = 1; revents = 0 } ∷ record { fd = 7; events = 1; revents = 0 } ∷ []

host_ppoll_inner_ends_example : (a : Answer) × (host_ppoll_inner nt none asked ≡ some a)
host_ppoll_inner_ends_example =
    host_ppoll_inner_ends nt none (quiet ∷ []) [] late asked refl (omega arith)

-- Descriptor 5 is a packet socket with the second socket 6.
abbrev table : PktTable
table = record {
  socks =
      record { live = true; fd = 5; handle = 70; fd6 = some 6; ifindex = 2; turn = false }
      ∷ replicate 31 empty_sock;
  count = 1;
}

-- Only descriptor 6 has something.
abbrev six_ready : ℕ → ℕ → ℕ
six_ready fd events = if fd == 6 then events else 0

host_ppoll_joins_example :
    let out = joined_all six_ready table asked in
    host_ppoll table (fill_all six_ready) asked ≡ some (polled (ready_count out) out)
host_ppoll_joins_example =
    host_ppoll_joins six_ready table (fill_all six_ready) asked (λ qs. refl) (omega arith)

joined_run :
    joined_all six_ready table asked
    ≡ record { fd = 5; events = 1; revents = 1 } ∷ record { fd = 7; events = 1; revents = 0 } ∷ []
unfolding packet_secondary
joined_run = refl

-- On a host where POLLIN is POLLRDNORM and another bit, a request for POLLRDNORM is not what comes back.
abbrev bits : List Row
bits = record { lin = 1; host = 0x300 } ∷ record { lin = 0x40; host = 0x100 } ∷ []

restored_run :
    fd_to_linux bits (fd_to_host bits (record { fd = 5; events = 0x40; revents = 0 }))
    ≡ record { fd = 5; events = 0x41; revents = 0 }
unfolding host_bits linux_bits
restored_run = refl
