-- ===== src/Poll.antt =====
-- shim/poll.c: the translation of events, the polled first phase of a wait on NT, and the second socket
-- of a packet socket that is polled beside the first. What the host answers and what the clock shows are
-- arguments; times are in milliseconds. What stands in the array after a failure is not modelled.
pub mod Phases
pub mod Twins
mod Tests
use rust_ape.Prelude.{
  ℕ, zero, suc, ◌+◌, ◌-◌, ◌*◌, ◌/◌, ◌%◌, Bool, true, false, not, ◌&&◌, ◌||◌, List, [], ◌∷◌, ◌++◌,
  map, Option, none, some, ltb, leb, ◌==◌, if◌then◌else◌, length, take, drop, has, or_if, bit_or,
}
use rust_ape.Codes.{Row}
use rust_ape.Epoll.Interest.{Errno, einval}
use rust_ape.Epoll.Arming.{PollFd}
use rust_ape.Epoll.Chunked.{Answer, failed, polled, ChunkRound, chunk_rounds, deadline_after}
use rust_ape.Packet.{PktTable, packet_any, packet_secondary}

-- The loop of `ev_to_host`, and that of `ev_to_linux`, by `SHIM_POLL_TABLE`.
unfoldable pub host_bits : List Row → ℕ → ℕ → ℕ
host_bits [] lin host = host
host_bits (r ∷ rs) lin host = host_bits rs lin (or_if (has lin r.lin) r.host host)

unfoldable pub linux_bits : List Row → ℕ → ℕ → ℕ
linux_bits [] host lin = lin
linux_bits (r ∷ rs) host lin =
    linux_bits rs host (or_if (not (r.host == 0) && has host r.host) r.lin lin)

-- `ev_to_host`, `ev_to_linux`
abbrev pub ev_to_host : List Row → ℕ → ℕ
ev_to_host rows lin = host_bits rows lin 0

abbrev pub ev_to_linux : List Row → ℕ → ℕ
ev_to_linux rows host = linux_bits rows host 0

-- The two loops over the array in `__ape_shim_poll`.
abbrev pub fd_to_host : List Row → PollFd → PollFd
fd_to_host rows p = record p { events = ev_to_host rows p.events }

abbrev pub fd_to_linux : List Row → PollFd → PollFd
fd_to_linux rows p = record p {
  events = ev_to_linux rows p.events;
  revents = ev_to_linux rows p.revents;
}

-- `struct timespec`
pub record Timespec : Type 0 where
  pub sec : ℕ
  pub nsec : ℕ

abbrev pub zero_time : Timespec
zero_time = record { sec = 0; nsec = 0 }

-- `timeout && !timeout->tv_sec && !timeout->tv_nsec`
abbrev pub is_zero_timeout : Option Timespec → Bool
is_zero_timeout none = false
is_zero_timeout (some t) = t.sec == 0 && t.nsec == 0

-- One round of the polled phase: the clock before it, the errno of a nap that is interrupted, the answer
-- to the poll, and the clock after it.
pub record PolledRound : Type 0 where
  pub before : ℕ
  pub nap_error : ℕ → Option Errno
  pub poll : List PollFd → Answer
  pub after : ℕ

-- `polled_ms`: the value and what is cached from then on. `env` is the number in RUST_APE_POLL_MS, where
-- it has one and nothing else.
unfoldable pub polled_ms : Option ℕ → Option ℕ → ℕ
polled_ms (some ms) env = ms
polled_ms none none = 250
polled_ms none (some n) = if leb n 60000 then n else 250

-- The host: whether it is NT, what `polled_ms` gives, its answer to a first call, the clock after that, the
-- rounds, the clock when they are over, and its answer to the last call.
pub record PollHost : Type 0 where
  pub is_windows : Bool
  pub budget : ℕ
  pub ppoll : Option Timespec → List PollFd → Answer
  pub start : ℕ
  pub rounds : List PolledRound
  pub parked_at : ℕ
  pub park : Option Timespec → List PollFd → Answer

-- `SHIM_NT_NAP1_US`, `SHIM_NT_NAP1_MS`, `SHIM_NT_NAP2_US`
abbrev pub nap_us : ℕ → ℕ
nap_us elapsed = if ltb elapsed 10 then 500 else 1000

-- `deadline`, with `none` for -1.
abbrev pub deadline_of : ℕ → Option Timespec → Option ℕ
deadline_of start none = none
deadline_of start (some t) = some (start + t.sec * 1000 + (t.nsec + 999999) / 1000000)

abbrev pub is_due : Option ℕ → ℕ → Bool
is_due none now = false
is_due (some d) now = leb d now

-- The call after the polled phase.
unfoldable pub parked : PollHost → Option ℕ → List PollFd → Answer
parked h none ps = h.park none ps
parked h (some d) ps =
    let left = d - h.parked_at in
    if left == 0
    then polled 0 ps
    else h.park (some (record { sec = left / 1000; nsec = left % 1000 * 1000000 })) ps

-- The loop of the polled phase; `none` where the rounds run out.
unfoldable pub polled_rounds :
    PollHost → ℕ → Option ℕ → List PolledRound → List PollFd → Option Answer
polled_rounds h budget deadline [] ps = none
polled_rounds h budget deadline (r ∷ rs) ps =
    let elapsed = r.before - h.start in
    if leb budget elapsed
    then some (parked h deadline ps)
    else elim (r.nap_error (nap_us elapsed)) [
      | some e ↦ some (failed e)
      | none ↦ elim (r.poll ps) [
        | failed e ↦ some (failed e)
        | polled k qs ↦
            if k == 0
            then if is_due deadline r.after
              then some (polled 0 qs)
              else polled_rounds h budget deadline rs qs
            else some (polled k qs)
      ]
    ]

-- What follows the first poll without a timeout.
unfoldable pub after_first : PollHost → Option Timespec → Answer → Option Answer
after_first h timeout (failed e) = some (failed e)
after_first h timeout (polled k qs) =
    if k == 0
    then polled_rounds h h.budget (deadline_of h.start timeout) h.rounds qs
    else some (polled k qs)

-- `host_ppoll_inner`
unfoldable pub host_ppoll_inner : PollHost → Option Timespec → List PollFd → Option Answer
host_ppoll_inner h timeout ps =
    if not h.is_windows || (h.budget == 0 || (length ps == 0 || is_zero_timeout timeout))
    then some (h.ppoll timeout ps)
    else after_first h timeout (h.ppoll (some zero_time) ps)

-- The second sockets of the array's descriptors, and the slots that are appended for them.
abbrev pub secondaries : PktTable → List PollFd → List (Option ℕ)
secondaries t ps = map (λ (p : PollFd). packet_secondary p.fd t) ps

unfoldable pub twins : List (Option ℕ) → List PollFd → List PollFd
twins (some fd6 ∷ ss) (p ∷ ps) = record { fd = fd6; events = p.events; revents = 0 } ∷ twins ss ps
twins (none ∷ ss) (p ∷ ps) = twins ss ps
twins _ _ = []

-- The loop that folds a twin's answer onto its descriptor: the array, its own answers, the twins'.
unfoldable pub fold_twins : List (Option ℕ) → List PollFd → List PollFd → List PollFd → List PollFd
fold_twins (some fd6 ∷ ss) (p ∷ ps) (o ∷ os) (t ∷ ts) =
    record p { revents = bit_or o.revents t.revents } ∷ fold_twins ss ps os ts
fold_twins (none ∷ ss) (p ∷ ps) (o ∷ os) ts =
    record p { revents = o.revents } ∷ fold_twins ss ps os ts
fold_twins _ _ _ _ = []

-- `if (rev) ready++;`
abbrev pub ready_count : List PollFd → ℕ
ready_count [] = 0
ready_count (p ∷ ps) = (if p.revents == 0 then 0 else 1) + ready_count ps

abbrev pub has_twin : List (Option ℕ) → Bool
has_twin [] = false
has_twin (none ∷ ss) = has_twin ss
has_twin (some _ ∷ ss) = true

-- What is made of the answer to the longer array; the first `n` slots are the array's own.
unfoldable pub folded : List (Option ℕ) → List PollFd → Option Answer → Option Answer
folded ss ps none = none
folded ss ps (some (failed e)) = some (failed e)
folded ss ps (some (polled k qs)) =
    let out = fold_twins ss ps (take (length ps) qs) (drop (length ps) qs) in
    some (polled (ready_count out) out)

-- `__ape_shim_host_ppoll`, with `SHIM_PKT_POLL_MAX` 64; `inner` is `host_ppoll_inner` at its timeout.
unfoldable pub host_ppoll : PktTable → (List PollFd → Option Answer) → List PollFd → Option Answer
host_ppoll t inner ps =
    let ss = secondaries t ps in
    if not (packet_any t) || (length ps == 0 || ltb 64 (length ps))
    then inner ps
    else if has_twin ss
    then folded ss ps (inner (ps ++ twins ss ps))
    else inner ps

-- `chunked`, which is a copy of the loop in shim/epoll.c but for its nap.
abbrev pub chunked : Option ℕ → List PollFd → List ChunkRound → Option Answer
chunked deadline ps rs = chunk_rounds deadline ps rs

-- `r == -1 && errno == EINVAL && n > SHIM_POLL_CHUNK`
abbrev pub is_refused : Option Answer → List PollFd → Bool
is_refused (some (failed einval)) ps = ltb 32 (length ps)
is_refused _ ps = false

abbrev pub answer_to_linux : List Row → Option Answer → Option Answer
answer_to_linux rows (some (polled k qs)) = some (polled k (map (fd_to_linux rows) qs))
answer_to_linux rows a = a

-- The timeout of `__ape_shim_poll` as a `struct timespec`.
abbrev pub timespec_of : Option ℕ → Option Timespec
timespec_of none = none
timespec_of (some ms) = some (record { sec = ms / 1000; nsec = ms % 1000 * 1000000 })

-- The deadline of `__ape_shim_ppoll` for an array that has been refused.
abbrev pub chunk_deadline : ℕ → Option Timespec → Option ℕ
chunk_deadline now none = none
chunk_deadline now (some t) = some (now + t.sec * 1000 + t.nsec / 1000000)

-- `__ape_shim_poll`; a negative timeout is `none`. `chunk_start` is the clock when an array has been
-- refused, and `chunks` what the host shows from there on.
unfoldable pub poll :
    List Row → PktTable → PollHost → ℕ → List ChunkRound → Option ℕ → List PollFd → Option Answer
poll rows t h chunk_start chunks timeout fds =
    let ps = map (fd_to_host rows) fds in
    let r = host_ppoll t (host_ppoll_inner h (timespec_of timeout)) ps in
    answer_to_linux rows
      (if is_refused r ps then chunked (deadline_after chunk_start timeout) ps chunks else r)

-- `__ape_shim_ppoll`
unfoldable pub ppoll :
    List Row
    → PktTable
    → PollHost
    → ℕ
    → List ChunkRound
    → Option Timespec
    → List PollFd
    → Option Answer
ppoll rows t h chunk_start chunks timeout fds =
    let ps = map (fd_to_host rows) fds in
    let r = host_ppoll t (host_ppoll_inner h timeout) ps in
    answer_to_linux rows
      (if is_refused r ps then chunked (chunk_deadline chunk_start timeout) ps chunks else r)
