-- ===== src/Packet.antt =====
-- The table of packet sockets in shim/packet.c, which emulates AF_PACKET on NT by raw IP sockets. A
-- descriptor or handle of -1 is `none`; the table of cosmo's descriptors, sockets, and what bind and
-- WSAIoctl answer are arguments.
pub mod Receive
pub mod Table
pub mod Lookup
mod Tests
use rust_ape.Prelude.{
  ℕ, zero, suc, ◌+◌, ◌-◌, ◌*◌, Bool, true, false, not, ◌&&◌, ◌||◌, List, [], ◌∷◌, ◌++◌, Option,
  none, some, ltb, leb, ◌==◌, if◌then◌else◌, negative,
}

-- `struct pkt_sock`; `turn` is whether the second socket comes first.
pub record PktSock : Type 0 where
  pub live : Bool
  pub fd : ℕ
  pub handle : ℕ
  pub fd6 : Option ℕ
  pub ifindex : ℕ
  pub turn : Bool

-- `g_pkt` and `g_pkt_live`
pub record PktTable : Type 0 where
  pub socks : List PktSock
  pub count : ℕ

-- `PKT_MAX`
abbrev pub pkt_max : ℕ
pkt_max = 32

-- `g_fds`: the handle of an open descriptor.
abbrev pub Fds : Type 0
Fds = ℕ → Option ℕ

-- `fd_is`
abbrev pub is_handle : Option ℕ → ℕ → Bool
is_handle none handle = false
is_handle (some h) handle = h == handle

abbrev pub fd_is : Fds → ℕ → ℕ → Bool
fd_is fds fd handle = is_handle (fds fd) handle

-- A slot after `memset`.
abbrev pub empty_sock : PktSock
empty_sock = record { live = false; fd = 0; handle = 0; fd6 = some 0; ifindex = 0; turn = false }

abbrev pub closed_fd : Option ℕ → List ℕ
closed_fd none = []
closed_fd (some fd) = fd ∷ []

-- `reap_locked`: the slots, how many were live and are not, and the descriptors that are closed.
unfoldable pub reap_slots : Fds → List PktSock → List PktSock × ℕ × List ℕ
reap_slots fds [] = ([], 0, [])
reap_slots fds (p ∷ ps) =
    let (rest, n, closed) = reap_slots fds ps in
    if not p.live || fd_is fds p.fd p.handle
    then (p ∷ rest, n, closed)
    else (empty_sock ∷ rest, suc n, closed_fd p.fd6 ++ closed)

unfoldable pub reap_locked : Fds → PktTable → PktTable × List ℕ
unfolding reap_slots
reap_locked fds t =
    let (ps, n, closed) = reap_slots fds t.socks in
    (record { socks = ps; count = t.count - n }, closed)

-- `find_locked`
abbrev pub is_sock : ℕ → PktSock → Bool
is_sock fd p = p.live && p.fd == fd

unfoldable pub find_sock : ℕ → List PktSock → Option PktSock
find_sock fd [] = none
find_sock fd (p ∷ ps) = if is_sock fd p then some p else find_sock fd ps

-- A store through the pointer that `find_locked` returns.
unfoldable pub set_sock : ℕ → (PktSock → PktSock) → List PktSock → List PktSock
set_sock fd f [] = []
set_sock fd f (p ∷ ps) = let rest = set_sock fd f ps in if is_sock fd p then f p ∷ ps else p ∷ rest

abbrev pub is_found : Option PktSock → Bool
is_found none = false
is_found (some _) = true

abbrev pub fd6_of : Option PktSock → Option ℕ
fd6_of none = none
fd6_of (some p) = p.fd6

-- `__ape_shim_packet_any`, `__ape_shim_packet_is`, `__ape_shim_packet_secondary`
abbrev pub packet_any : PktTable → Bool
packet_any t = not (t.count == 0)

unfoldable pub packet_is : Fds → ℕ → PktTable → PktTable × List ℕ × Bool
unfolding reap_locked find_sock
packet_is fds fd t =
    if t.count == 0
    then (t, [], false)
    else (let (t', closed) = reap_locked fds t in (t', closed, is_found (find_sock fd t'.socks)))

unfoldable pub packet_secondary : ℕ → PktTable → Option ℕ
unfolding find_sock
packet_secondary fd t = if t.count == 0 then none else fd6_of (find_sock fd t.socks)

-- The errors that the file sets, or tests; `host_error` is any other.
pub data PktFault : Type 0 where
  again inval mfile nodev notsock addrnotavail : PktFault
  host_error : ℕ → PktFault

pub data PktReturn : Type 0 where
  value : ℕ → PktReturn
  failure : PktFault → PktReturn

-- The slot that a new socket gets.
abbrev pub new_sock : ℕ → ℕ → PktSock
new_sock fd handle = record empty_sock { live = true; fd = fd; handle = handle; fd6 = none }

-- The first free slot is filled; `none` where there is none.
unfoldable pub fill_sock : PktSock → List PktSock → Option (List PktSock)
fill_sock x [] = none
fill_sock x (p ∷ ps) =
    let rest = fill_sock x ps in
    if not p.live then some (x ∷ ps) else elim rest [ none ↦ none | some ps' ↦ some (p ∷ ps') ]

-- `__ape_shim_packet_socket` with what `socket` answers: a descriptor and its handle, or an error. The
-- table, the descriptors that are closed, and the value.
unfoldable pub packet_socket :
    Fds → PktFault → Option (ℕ × ℕ) → PktTable → PktTable × List ℕ × PktReturn
packet_socket fds e none t = (t, [], failure e)
packet_socket fds e (some (fd, handle)) t =
    let (t', closed) = reap_locked fds t in
    elim (fill_sock (new_sock fd handle) t'.socks) [
      | none ↦ (t', closed ++ (fd ∷ []), failure mfile)
      | some ps ↦ (record { socks = ps; count = suc t'.count }, closed, value fd)
    ]

-- What the adapter and the two sockets answer to a bind: no such adapter; or, for each family, whether
-- there is an address, and what `socket`, `bind` and `WSAIoctl` make of it. A refusal has the new
-- descriptor that was opened for it, if any.
pub data Sniff : Type 0 where
  unaddressed : Sniff
  refused : Option ℕ → PktFault → Sniff
  sniffing : ℕ → Sniff

pub data Adapter : Type 0 where
  unknown : Adapter
  adapter : Sniff → Sniff → Adapter

-- `err4`, and whether the first socket sniffs.
abbrev pub outcome4 : Sniff → Option PktFault
outcome4 unaddressed = some addrnotavail
outcome4 (refused _ e) = some e
outcome4 (sniffing _) = none

-- `fd6`
abbrev pub secondary_of : Sniff → Option ℕ
secondary_of (sniffing fd6) = some fd6
secondary_of _ = none

-- `close(fd6)` where the second socket does not sniff.
abbrev pub unsniffed : Sniff → List ℕ
unsniffed (refused opened _) = closed_fd opened
unsniffed _ = []

-- The second part of `__ape_shim_packet_bind` under the lock, by what the lookup finds.
unfoldable pub store_fd6 : ℕ → Option ℕ → Option PktSock → PktTable → PktTable × List ℕ × PktReturn
store_fd6 fd fd6 none later = (later, closed_fd fd6, value 0)
store_fd6 fd fd6 (some _) later = (
  record later { socks = set_sock fd (λ (p : PktSock). record p { fd6 = fd6 }) later.socks },
  [],
  value 0,
)

-- The end of the call: `later` is the table that the second lookup sees.
unfoldable pub bound : ℕ → Option PktFault → Option ℕ → PktTable → PktTable × List ℕ × PktReturn
bound fd (some e) none later = (later, [], failure e)
bound fd (some e) (some fd6) later = store_fd6 fd (some fd6) (find_sock fd later.socks) later
bound fd none fd6 later = store_fd6 fd fd6 (find_sock fd later.socks) later

-- `__ape_shim_packet_bind` from the adapter and the first lookup on. `meanwhile` is what other threads
-- do to the table between the two locks.
unfoldable pub bind_adapter :
    (PktTable → PktTable)
    → ℕ
    → ℕ
    → Adapter
    → Option PktSock
    → PktTable
    → PktTable × List ℕ × PktReturn
bind_adapter meanwhile fd ifindex unknown found t = (t, [], failure nodev)
bind_adapter meanwhile fd ifindex (adapter sniff4 sniff6) none t = (t, [], failure notsock)
bind_adapter meanwhile fd ifindex (adapter sniff4 sniff6) (some _) t =
    let indexed = set_sock fd (λ (p : PktSock). record p { ifindex = ifindex }) t.socks in
    let (t', closed, r) =
      bound fd (outcome4 sniff4) (secondary_of sniff6) (meanwhile (record t { socks = indexed })) in
    (t', unsniffed sniff6 ++ closed, r)

-- `__ape_shim_packet_bind`; an address that is NULL or short is `none`, the index is the pattern of an
-- `int`.
unfoldable pub packet_bind :
    (ℕ → Adapter) → (PktTable → PktTable) → ℕ → Option ℕ → PktTable → PktTable × List ℕ × PktReturn
packet_bind adapters meanwhile fd none t = (t, [], failure inval)
packet_bind adapters meanwhile fd (some ifindex) t =
    if ifindex == 0 || negative ifindex
    then (t, [], failure inval)
    else bind_adapter meanwhile fd ifindex (adapters ifindex) (find_sock fd t.socks) t
