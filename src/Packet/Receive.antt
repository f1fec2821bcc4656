-- ===== src/Packet/Receive.antt =====
-- The receiving side of shim/packet.c: `recv_framed`, `fill_sll`, `drop_secondary` and
-- `__ape_shim_packet_recv`. A socket is the list of what `recv` answers on it from now on; where the
-- list ends it is dry.
pub mod Frames
pub mod Turns
pub mod Sound
use rust_ape.Prelude.{
  ℕ, zero, suc, ◌+◌, ◌-◌, ◌*◌, ◌/◌, ◌%◌, Bool, true, false, not, ◌&&◌, ◌||◌, List, [], ◌∷◌, ◌++◌,
  Option, none, some, ltb, leb, ◌==◌, if◌then◌else◌, length, take, replicate,
}
use rust_ape.Packet.{
  PktSock, PktTable, find_sock, set_sock, PktFault, again, inval, notsock, closed_fd,
}

-- What one `recv` answers, with what stands in the buffer behind the place for the header.
pub data Received : Type 0 where
  failed : PktFault → Received
  datagram : List ℕ → Received

abbrev pub eth_hlen : ℕ
eth_hlen = 14

-- `PKT_DRAIN_MAX`
abbrev pub drain_max : ℕ
drain_max = 64

-- The EtherType of an IP packet, by its version and its length.
unfoldable pub ethertype : List ℕ → Option ℕ
ethertype [] = none
ethertype (b ∷ bs) =
    if b / 16 == 4 && leb 20 (length (b ∷ bs))
    then some 0x0800
    else if b / 16 == 6 && leb 40 (length (b ∷ bs))
    then some 0x86dd
    else none

-- The buffer after the header has been put in front.
abbrev pub framed : ℕ → List ℕ → List ℕ
framed et d = replicate 12 0 ++ (et / 256 ∷ et % 256 ∷ d)

-- What `recv_framed` returns.
pub data Framed : Type 0 where
  frame : ℕ → List ℕ → Framed
  fault : PktFault → Framed

-- The end of one call: what it returns, what is left of the socket, how many datagrams it took off,
-- and whether one of them was no IP packet.
pub record Drained : Type 0 where
  pub result : Framed
  pub left : List Received
  pub consumed : ℕ
  pub unframeable : Bool

-- The loop of `recv_framed`, with the rounds that are left.
unfoldable pub drain : ℕ → List Received → Drained
unfolding ethertype
drain zero q = record { result = fault again; left = q; consumed = 0; unframeable = false }
drain (suc k) [] = record { result = fault again; left = []; consumed = 0; unframeable = false }
drain (suc k) (failed e ∷ q) = record {
  result = fault e;
  left = q;
  consumed = 0;
  unframeable = false;
}
drain (suc k) (datagram [] ∷ q) =
    let rest = drain k q in record rest { consumed = suc rest.consumed }
drain (suc k) (datagram (b ∷ bs) ∷ q) =
    let rest = drain k q in
    elim (ethertype (b ∷ bs)) [
      | some et ↦ record { result = frame et (b ∷ bs); left = q; consumed = 1; unframeable = false }
      | none ↦ record rest { consumed = suc rest.consumed; unframeable = true }
    ]

-- `recv_framed` for a buffer of `n` bytes.
unfoldable pub recv_framed : Option ℕ → ℕ → List Received → Drained
recv_framed none n q = record { result = fault again; left = q; consumed = 0; unframeable = false }
recv_framed (some fd) n q =
    if leb n eth_hlen
    then record { result = fault inval; left = q; consumed = 0; unframeable = false }
    else drain drain_max q

-- `fill_sll`: the first 8 of the 20 bytes of a `sockaddr_ll`, and zeros.
unfoldable pub fill_sll : ℕ → ℕ → ℕ → List ℕ
fill_sll room ifindex et = take room (
    17
    ∷ 0
    ∷ et / 256
    ∷ et % 256
    ∷ ifindex % 256
    ∷ ifindex / 256 % 256
    ∷ ifindex / (256 * 256) % 256
    ∷ ifindex / (256 * 256 * 256) % 256
    ∷ replicate 12 0)

-- `drop_secondary`: the table, and what is closed.
abbrev pub without_secondary : PktSock → PktSock
without_secondary p = elim p.fd6 [ none ↦ p | some _ ↦ record p { fd6 = none; turn = false } ]

unfoldable pub drop_secondary : ℕ → List PktSock → List PktSock × List ℕ
drop_secondary fd ps = elim (find_sock fd ps) [
  | none ↦ (ps, [])
  | some p ↦ (set_sock fd without_secondary ps, closed_fd p.fd6)
]

-- What a call of `__ape_shim_packet_recv` returns: a frame with its address, an empty frame, or -1.
pub data Packet : Type 0 where
  packet : List ℕ → List ℕ → Packet
  nothing : Packet
  error : PktFault → Packet

-- The two sockets of a slot.
pub record Queues : Type 0 where
  pub q4 : List Received
  pub q6 : List Received

-- The inner loop's outcome: it returns, or both sockets are dry.
pub data Pass : Type 0 where
  returns : Packet → Pass
  dry : ℕ → Bool → Pass

-- One socket of the inner loop, `which` being the second one or not: what it does to the queues.
unfoldable pub attempt : PktSock → ℕ → Bool → Queues → Drained × Queues
attempt p n false qs = let d = recv_framed (some p.fd) n qs.q4 in (d, record qs { q4 = d.left })
attempt p n true qs = let d = recv_framed p.fd6 n qs.q6 in (d, record qs { q6 = d.left })

-- The test of one round: a frame, an error, or nothing on this socket.
unfoldable pub judge : ℕ → PktSock → Framed → Option Packet
judge room p (frame et d) = some (packet (framed et d) (fill_sll room p.ifindex et))
judge room p (fault again) = none
judge room p (fault e) = some (error e)

-- The two rounds, from the socket whose turn it is.
unfoldable pub pass : PktSock → ℕ → ℕ → Queues → Pass × Queues
pass p n room qs =
    let (d, qs1) = attempt p n p.turn qs in
    let (e, qs2) = attempt p n (not p.turn) qs1 in
    let bad6 = if p.turn then d.unframeable else e.unframeable && not d.unframeable in
    elim (judge room p d.result) [
      | some r ↦ (returns r, qs1)
      | none ↦ elim (judge room p e.result) [
        | some r ↦ (returns r, qs2)
        | none ↦ (dry (d.consumed + e.consumed) bad6, qs2)
      ]
    ]

-- The change of `turn` under the lock.
abbrev pub next_turn : PktSock → PktSock
next_turn p = record p { turn = elim p.fd6 [ none ↦ false | some _ ↦ not p.turn ] }

-- What follows the inner loop.
unfoldable pub after_pass : ℕ → List PktSock → Pass → List PktSock × List ℕ × Packet
unfolding drop_secondary
after_pass fd ps (returns r) = (ps, [], r)
after_pass fd ps (dry consumed bad6) =
    let (ps', closed) = if bad6 then drop_secondary fd ps else (ps, []) in
    (ps', closed, if consumed == 0 then error again else nothing)

-- `__ape_shim_packet_recv` with a buffer of `n` bytes and room for `room` bytes of address.
unfoldable pub packet_recv :
    ℕ → ℕ → ℕ → List PktSock → Queues → (List PktSock × List ℕ × Packet) × Queues
packet_recv fd n room ps qs = elim (find_sock fd ps) [
  | none ↦ ((ps, [], error notsock), qs)
  | some p ↦ let (r, qs') = pass p n room qs in (after_pass fd (set_sock fd next_turn ps) r, qs')
]
