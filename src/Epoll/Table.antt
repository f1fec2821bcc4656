-- ===== src/Epoll/Table.antt =====
-- The table of epoll sets in shim/epoll.c, `g_sets`: lookup by handle, duplication, the retirement
-- of sets whose descriptors are gone, `emu_create1` and `emu_ctl`. A slot with `used == 0` is
-- `none`; `handles[0..nhandles)` is a list. The locks make each function here one atomic step.
-- Effects on descriptors come back in the order in which the C code causes them.
pub mod Handles
pub mod Create
pub mod Ctl
use rust_ape.Prelude.{
  ℕ, zero, suc, ◌*◌, Bool, true, false, not, ◌&&◌, ◌||◌, List, [], ◌∷◌, ◌++◌, map, Option, none,
  some, ◌==◌, ltb, if◌then◌else◌, length, last, drop_last, has, bit_or, get_or,
}
use rust_ape.Epoll.Interest.{
  Event, Entry, Interest, Errno, ebadf, einval, efault, emfile, other, Reply, ok, fail, ctl_add,
  ctl_mod, ctl_switch,
}

-- `struct shim_epoll_set`
pub record EpollSet : Type 0 where
  pub handles : List ℕ
  pub waker : ℕ
  pub interest : Interest

abbrev pub Table : Type 0
Table = List (Option EpollSet)

-- `SHIM_EPOLL_MAX_SETS`, `SHIM_EPOLL_MAX_HANDLES`, `SHIM_EPOLL_CLOEXEC`
abbrev pub max_sets : ℕ
max_sets = 32

abbrev pub max_handles : ℕ
max_handles = 8

abbrev pub epoll_cloexec : ℕ
epoll_cloexec = 0o2000000

-- The system calls that change a descriptor.
pub data Effect : Type 0 where
  set_fl : ℕ → ℕ → Effect
  set_fd : ℕ → ℕ → Effect
  close : ℕ → Effect
  -- one byte into a waker
  kick : ℕ → Effect

-- The inner loop of `set_by_handle_locked`.
pub owns : ℕ → List ℕ → Bool
owns fd [] = false
owns fd (h ∷ hs) = h == fd || owns fd hs

-- `set_by_handle_locked`
unfoldable pub set_by_handle : Table → ℕ → Option EpollSet
unfolding owns
set_by_handle [] fd = none
set_by_handle (none ∷ t) fd = set_by_handle t fd
set_by_handle (some s ∷ t) fd = if owns fd s.handles then some s else set_by_handle t fd

-- A store through the pointer that `set_by_handle_locked` returns.
unfoldable pub update_set : ℕ → (EpollSet → EpollSet) → Table → Table
unfolding owns
update_set fd f [] = []
update_set fd f (none ∷ t) = none ∷ update_set fd f t
update_set fd f (some s ∷ t) =
    if owns fd s.handles then some (f s) ∷ t else some s ∷ update_set fd f t

-- `s->handles[s->nhandles++] = newfd`
abbrev pub push_handle : ℕ → EpollSet → EpollSet
push_handle fd s = record s { handles = s.handles ++ (fd ∷ []) }

-- `__ape_shim_epoll_note_dup`; `raw` is the answer of `use_syscalls()`.
unfoldable pub note_dup : Bool → ℕ → ℕ → Table → Table
note_dup raw oldfd newfd t = if oldfd == newfd || raw then t else elim (set_by_handle t oldfd) [
  | none ↦ t
  | some s ↦ elim (set_by_handle t newfd) [
    | some _ ↦ t
    | none ↦
        if ltb (length s.handles) max_handles then update_set oldfd (push_handle newfd) t else t
  ]
]

-- `handles[h] = handles[--nhandles]; h--;`: the last handle takes the place of the one at the
-- front of what is left to look at.
abbrev pub move_last : List ℕ → List ℕ
move_last [] = []
move_last (h ∷ hs) = last h hs ∷ drop_last h hs

-- The loop over one set's handles in `forget_fd`. Each round leaves one handle fewer to look at,
-- so their number is fuel enough.
unfoldable pub forget_handles : ℕ → ℕ → List ℕ → List ℕ
forget_handles zero fd hs = []
forget_handles (suc n) fd [] = []
forget_handles (suc n) fd (h ∷ hs) =
    let gone = forget_handles n fd (move_last hs) in
    let kept = h ∷ forget_handles n fd hs in if h == fd then gone else kept

abbrev pub is_empty : List ℕ → Bool
is_empty [] = true
is_empty (h ∷ hs) = false

-- `forget_fd`: the table afterwards, and the wakers that the caller has to close.
unfoldable pub forget_fd : ℕ → Table → Table × List ℕ
unfolding owns forget_handles
forget_fd fd [] = ([], [])
forget_fd fd (none ∷ t) = (none ∷ (forget_fd fd t).0, (forget_fd fd t).1)
forget_fd fd (some s ∷ t) =
    let rest = forget_fd fd t in
    let hs = forget_handles (length s.handles) fd s.handles in
    if owns fd s.handles && is_empty hs
    then (none ∷ rest.0, s.waker ∷ rest.1)
    else (some (record s { handles = hs }) ∷ rest.0, rest.1)

-- `fcntl(F_GETFD)` on each handle of a set.
pub any_alive : (ℕ → Bool) → List ℕ → Bool
any_alive alive [] = false
any_alive alive (h ∷ hs) = alive h || any_alive alive hs

-- The loop of `emu_create1` over the sets whose handles are all closed.
unfoldable pub reclaim : (ℕ → Bool) → Table → Table × List ℕ
unfolding any_alive
reclaim alive [] = ([], [])
reclaim alive (none ∷ t) = (none ∷ (reclaim alive t).0, (reclaim alive t).1)
reclaim alive (some s ∷ t) =
    let rest = reclaim alive t in
    if any_alive alive s.handles
    then (some s ∷ rest.0, rest.1)
    else (none ∷ rest.0, s.waker ∷ rest.1)

-- The first unused slot takes the set; `none` where there is none.
unfoldable pub place : EpollSet → Table → Option Table
place s [] = none
place s (none ∷ t) = some (some s ∷ t)
place s (some x ∷ t) = elim (place s t) [ none ↦ none | some t' ↦ some (some x ∷ t') ]

-- What `emu_create1` reads of the host: the status flags of a descriptor (`none` for -1), the
-- constants `O_NONBLOCK` and `FD_CLOEXEC`, and whether a descriptor is open.
pub record Host : Type 0 where
  pub getfl : ℕ → Option ℕ
  pub nonblock : ℕ
  pub cloexec : ℕ
  pub alive : ℕ → Bool

-- The two `fcntl` calls on one end of the pipe.
abbrev pub pipe_flags : Host → ℕ → ℕ → List Effect
pipe_flags h flags fd =
    (elim (h.getfl fd) [ none ↦ [] | some fl ↦ set_fl fd (bit_or fl h.nonblock) ∷ [] ])
    ++ (if has flags epoll_cloexec then set_fd fd h.cloexec ∷ [] else [])

abbrev pub new_set : ℕ → ℕ → EpollSet
new_set rfd wfd = record {
  handles = rfd ∷ [];
  waker = wfd;
  interest = record { entries = []; cap = 0 };
}

-- The table after the stale sets are gone, with the wakers to close.
unfoldable pub retire : Host → ℕ → ℕ → Table → Table × List ℕ
unfolding forget_fd reclaim
retire h rfd wfd t =
    let (t1, c1) = forget_fd rfd t in
    let (t2, c2) = forget_fd wfd t1 in let (t3, c3) = reclaim h.alive t2 in (t3, c1 ++ (c2 ++ c3))

-- `emu_create1`; the pipe is the answer of `pipe(2)`, with the host's errno where it fails.
unfoldable pub create1 : Host → ℕ → ℕ → Option (ℕ × ℕ) → Table → Table × Reply × List Effect
create1 h flags err none t = (t, fail (other err), [])
create1 h flags err (some (rfd, wfd)) t =
    let (t', closes) = retire h rfd wfd t in
    let before = (pipe_flags h flags rfd ++ pipe_flags h flags wfd) ++ map close closes in
    elim (place (new_set rfd wfd) t') [
      | none ↦ (t', fail emfile, before ++ (close rfd ∷ close wfd ∷ []))
      | some t'' ↦ (t'', ok rfd, before)
    ]

abbrev pub is_none {ℓ} : {A : Type ℓ} → Option A → Bool
is_none none = true
is_none (some a) = false

-- The waker is written where the operation succeeded.
abbrev pub kick_if_ok : Reply → ℕ → List Effect
kick_if_ok (ok _) w = kick w ∷ []
kick_if_ok (fail _) w = []

-- `emu_ctl`; `grown` is the outcome of `realloc`.
unfoldable pub emu_ctl : Bool → ℕ → ℕ → ℕ → Option Event → Table → Table × Reply × List Effect
emu_ctl grown epfd op fd ev t = elim (set_by_handle t epfd) [
  | none ↦ (t, fail ebadf, [])
  | some s ↦
      if fd == epfd
      then (t, fail einval, [])
      else if (op == ctl_add || op == ctl_mod) && is_none ev
      then (t, fail efault, [])
      else (let (i, r) = ctl_switch grown op fd ev s.interest in
          (update_set epfd (λ x. record x { interest = i }) t, r, kick_if_ok r s.waker))
]
