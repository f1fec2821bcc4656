-- ===== src/Packet/Tests.antt =====
-- Runs of shim/packet.c: a packet socket on descriptor 5 with a second socket, and one IP packet on each.
use rust_ape.Prelude.{
  ℕ, ◌≡◌, refl, Bool, true, false, List, [], ◌∷◌, none, some, ◌==◌, if◌then◌else◌, arith, replicate,
}
use rust_ape.Packet.{
  PktSock, PktTable, Fds, empty_sock, reap_locked, find_sock, new_sock, packet_socket, packet_is,
  packet_bind, Adapter, unknown, adapter, sniffing, unaddressed, value, again, fd_is,
}
use rust_ape.Packet.Table.{IsCounted, calls-IsCounted}
use rust_ape.Packet.Lookup.{packet_socket-fresh}
use rust_ape.Packet.Receive.{
  Received, datagram, ethertype, framed, fill_sll, drain_max, Queues, packet, packet_recv,
}
use rust_ape.Packet.Receive.Frames.{Holds}
use rust_ape.Packet.Receive.Turns.{handed, packet_recv-alternates}
use rust_ape.Packet.Receive.Sound.{queue, packet_recv_sound}

abbrev sniffer : PktSock
sniffer = record { live = true; fd = 5; handle = 70; fd6 = some 6; ifindex = 2; turn = false }

abbrev all_slots : List PktSock
all_slots = sniffer ∷ replicate 31 empty_sock

abbrev table : PktTable
table = record { socks = all_slots; count = 1 }

-- Descriptors 5 and 9 are open.
abbrev open_fds : Fds
open_fds fd = if fd == 5 then some 70 else if fd == 9 then some 71 else none

abbrev ip4 : List ℕ
ip4 = 0x45 ∷ replicate 19 0

abbrev ip6 : List ℕ
ip6 = 0x60 ∷ replicate 39 0

abbrev queues : Queues
queues = record { q4 = datagram (1 ∷ []) ∷ datagram ip4 ∷ []; q6 = datagram ip6 ∷ [] }

abbrev emptied : Queues
emptied = record { q4 = []; q6 = [] }

found : find_sock 5 all_slots ≡ some sniffer
unfolding find_sock
found = refl

holds4 : Holds drain_max queues.q4 0x0800 ip4 []
unfolding ethertype
holds4 = (datagram (1 ∷ []) ∷ [], refl, (refl, tt), omega arith, refl)

holds6 : Holds drain_max queues.q6 0x86dd ip6 []
unfolding ethertype
holds6 = ([], refl, tt, omega arith, refl)

packet_recv-alternates_example :
    let one = packet_recv 5 1500 20 all_slots queues in
    let two = packet_recv 5 1500 20 one.0.0 one.1 in
    (one.0.2 ≡ handed 20 sniffer 0x0800 ip4)
    × (two.0.2 ≡ handed 20 sniffer 0x86dd ip6)
    × (two.1 ≡ emptied)
packet_recv-alternates_example =
    packet_recv-alternates 5 1500 20 6 0x0800 0x86dd ip4 ip6 all_slots sniffer queues emptied found
      refl (omega arith) holds4 holds6

first_run :
    (packet_recv 5 1500 20 all_slots queues).0.2 ≡ packet (framed 0x0800 ip4) (fill_sll 20 2 0x0800)
first_run = packet_recv-alternates_example.0

packet_recv_sound_example :
    (which : Bool) × (et : ℕ) × (d : List ℕ) × (rest : List Received) × Holds drain_max
      (queue which queues)
      et
      d
      rest
    × (framed 0x0800 ip4 ≡ framed et d)
    × (fill_sll 20 2 0x0800 ≡ fill_sll 20 sniffer.ifindex et)
packet_recv_sound_example =
    packet_recv_sound 5 1500 20 all_slots sniffer queues (framed 0x0800 ip4) (fill_sll 20 2 0x0800)
      found first_run

packets_run :
    IsCounted (packet_is open_fds 5 table).0
    × IsCounted (packet_socket open_fds again (some (9, 71)) table).0
    × IsCounted (packet_bind (λ i. adapter (sniffing 5) unaddressed) (λ t. t) 5 (some 2) table).0
packets_run =
    calls-IsCounted open_fds 5 again (some (9, 71)) (λ i. adapter (sniffing 5) unaddressed) (λ t. t)
      (some 2) table (λ u v. v) (refl, refl)

nine_free : find_sock 9 (reap_locked open_fds table).0.socks ≡ none
unfolding find_sock reap_locked
nine_free = refl

nine_run : (packet_socket open_fds again (some (9, 71)) table).2 ≡ value 9
unfolding packet_socket reap_locked rust_ape.Packet.fill_sock
nine_run = refl

packet_socket-fresh_run :
    let after = (packet_socket open_fds again (some (9, 71)) table).0.socks in
    (find_sock 9 after ≡ some (new_sock 9 71)) × (find_sock 5 after ≡ some sniffer)
packet_socket-fresh_run =
    packet_socket-fresh open_fds again 9 71 5 table sniffer nine_free nine_run (omega arith) found
      refl

-- A second bind of the same socket stores the new second socket, and closes nothing.
rebound_run :
    let (t, closed, r) =
      packet_bind (λ i. adapter (sniffing 5) (sniffing 8)) (λ t. t) 5 (some 2) table in
    (closed ≡ []) × (find_sock 5 t.socks ≡ some (record sniffer { fd6 = some 8 }))
unfolding packet_bind rust_ape.Packet.bind_adapter rust_ape.Packet.bound rust_ape.Packet.store_fd6
    find_sock rust_ape.Packet.set_sock
rebound_run = (refl, refl)
