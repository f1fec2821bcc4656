-- ===== src/Epoll/Pairs.antt =====
-- The pipe-pair table of shim/epoll.c, `g_pairs`, with `g_pairs_next` and `g_pairs_live`: which
-- read end a write makes readable. A descriptor is an `int`, kept as its 32-bit pattern, and so is the
-- counter `g_pairs_next`.
pub mod Count
pub mod Hints
use rust_ape.Prelude.{
  ℕ, zero, suc, ◌+◌, ◌-◌, ◌%◌, ◌^◌, Bool, true, false, not, ◌&&◌, ◌||◌, List, [], ◌∷◌, Option, none,
  some, ◌==◌, if◌then◌else◌, negative, nonpositive, get_or, set,
}
use rust_ape.Epoll.Interest.{arm_in}
use rust_ape.Epoll.Table.{Table, Effect}
use rust_ape.Epoll.Rearm.{rearm}

-- One slot of `g_pairs`; `w` is 0 in an empty one.
pub record PipePair : Type 0 where
  pub r : ℕ
  pub w : ℕ

abbrev pub no_pair : PipePair
no_pair = record { r = 0; w = 0 }

-- `SHIM_PIPE_PAIRS`
abbrev pub pipe_pairs : ℕ
pipe_pairs = 32

pub record Pairs : Type 0 where
  pub slots : List PipePair
  pub next : ℕ
  pub live : ℕ

-- `g_pairs[i].w && (g_pairs[i].r == fd || g_pairs[i].w == fd)`
abbrev pub names_fd : ℕ → PipePair → Bool
names_fd fd p = not (p.w == 0) && (p.r == fd || p.w == fd)

-- The loop of `pairs_drop_locked`, with `g_pairs_live`.
unfoldable pub drop_slots : ℕ → List PipePair → ℕ → List PipePair × ℕ
drop_slots fd [] live = ([], live)
drop_slots fd (p ∷ ps) live =
    let (ps', live') = drop_slots fd ps (if names_fd fd p then live - 1 else live) in
    ((if names_fd fd p then no_pair else p) ∷ ps', live')

-- `pairs_drop_locked`
unfoldable pub pairs_drop : ℕ → Pairs → Pairs
unfolding drop_slots
pairs_drop fd s = let (ps, n) = drop_slots fd s.slots s.live in record s { slots = ps; live = n }

-- `next % SHIM_PIPE_PAIRS` on an `int`: the remainder of a negative number is negative or 0.
abbrev pub slot_of : ℕ → ℕ
slot_of next =
    if negative next then (2 ^ 32 - (2 ^ 32 - next) % pipe_pairs) % 2 ^ 32 else next % pipe_pairs

-- `pairs_insert_locked`, with a counter that wraps. A slot that lies before the table is read as an empty
-- one, and what is written there is lost.
unfoldable pub pairs_insert : ℕ → ℕ → Pairs → Pairs
pairs_insert rfd wfd s =
    if negative rfd || nonpositive wfd
    then s
    else (let i = slot_of s.next in
        let live = if (get_or s.slots i no_pair).w == 0 then s.live else s.live - 1 in
        record {
          slots = set s.slots i (record { r = rfd; w = wfd });
          next = (s.next + 1) % 2 ^ 32;
          live = live + 1;
        })

-- `__ape_shim_epoll_note_new_fd`; `raw` is the answer of `use_syscalls()`.
unfoldable pub note_new_fd : Bool → ℕ → Pairs → Pairs
unfolding pairs_drop
note_new_fd raw fd s = if negative fd || (s.live == 0 || raw) then s else pairs_drop fd s

-- `__ape_shim_epoll_note_pipe`
unfoldable pub note_pipe : Bool → ℕ → ℕ → Pairs → Pairs
note_pipe raw rfd wfd s =
    if negative rfd || (negative wfd || raw)
    then s
    else pairs_insert rfd wfd (pairs_drop wfd (pairs_drop rfd s))

-- `__ape_shim_epoll_note_pair`
unfoldable pub note_pair : Bool → ℕ → ℕ → Pairs → Pairs
note_pair raw a b s =
    if negative a || (negative b || raw)
    then s
    else pairs_insert b a (pairs_insert a b (pairs_drop b (pairs_drop a s)))

-- The loop of `__ape_shim_epoll_hint_pipe_write`: the read end of the first slot with this write
-- end; `none` where `rfd` stays -1.
unfoldable pub find_pair : List PipePair → ℕ → Option ℕ
find_pair [] wfd = none
find_pair (p ∷ ps) wfd = if p.w == wfd then some p.r else find_pair ps wfd

-- `__ape_shim_epoll_hint_pipe_write`
unfoldable pub hint_pipe_write : Bool → ℕ → Pairs → Table → Table × List Effect
unfolding find_pair rearm
hint_pipe_write raw wfd s t =
    if nonpositive wfd || (s.live == 0 || raw) then (t, []) else elim (find_pair s.slots wfd) [
      | none ↦ (t, [])
      | some rfd ↦ if negative rfd then (t, []) else rearm rfd arm_in t
    ]
