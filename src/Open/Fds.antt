-- ===== src/Open/Fds.antt =====
-- The calls of shim/open.c that make descriptors: `open`, `openat`, and `pipe2`, with what they read of the host. What the host and the process files (shim/procfs/core) answer is an argument;
-- their -2, "not mine", is `none`. A path is the list of its bytes and no null pointer, and `errno` is part of an
-- answer.
use rust_ape.Prelude.{
  ℕ, Bool, false, not, ◌||◌, List, [], ◌∷◌, Option, none, some, ◌==◌, if◌then◌else◌, has,
}
use rust_ape.Epoll.Table.{Table, note_dup}
use rust_ape.Epoll.Pairs.{Pairs, note_new_fd, note_pipe}
use rust_ape.Open.{
  Outcome, returns, refuses, left_by_host, OpenHost, is_full, oflags_to_host, at_fdcwd,
  lin_at_fdcwd,
}

-- What shim/epoll.c keeps of the descriptors with the answer of its `use_syscalls()`, and
-- `g_fds.p[fd].flags` of the descriptors of process files that are held in memory, on NT; `none` for all
-- others.
pub record Kept : Type 0 where
  pub memfds : ℕ → Option ℕ
  pub raw : Bool
  pub sets : Table
  pub pairs : Pairs

-- `__ape_shim_epoll_note_new_fd`, `__ape_shim_epoll_note_dup`, `__ape_shim_epoll_note_pipe`
abbrev pub noted_new : ℕ → Kept → Kept
noted_new fd s = record s { pairs = note_new_fd s.raw fd s.pairs }

abbrev pub noted_dup : ℕ → ℕ → Kept → Kept
noted_dup fd nfd s = record s { sets = note_dup s.raw fd nfd s.sets }

abbrev pub noted_pipe : ℕ → ℕ → Kept → Kept
noted_pipe rfd wfd s = record s { pairs = note_pipe s.raw rfd wfd s.pairs }

-- `struct flock`
pub record Flock : Type 0 where
  pub l_type : ℕ
  pub whence : ℕ
  pub start : ℕ
  pub len : ℕ
  pub pid : ℕ

-- What `pipe2` answers.
pub data PipeAnswer : Type 0 where
  ends : ℕ → ℕ → PipeAnswer
  no_pipe : ℕ → PipeAnswer

-- The host's constants and calls. `setown` and `getown` are `none` where its headers do not define them.
pub record FdHost : Type 0 where
  pub flags : OpenHost
  pub at_fdcwd : ℕ
  pub cloexec : ℕ
  pub rdlck : ℕ
  pub wrlck : ℕ
  pub unlck : ℕ
  pub getlk : ℕ
  pub setlk : ℕ
  pub setlkw : ℕ
  pub setown : Option ℕ
  pub getown : Option ℕ
  pub dupfd_cloexec : ℕ
  pub host_open : List ℕ → ℕ → ℕ → Outcome
  pub openat : ℕ → List ℕ → ℕ → ℕ → Outcome
  pub pipe2 : ℕ → PipeAnswer
  pub fcntl : ℕ → ℕ → ℕ → Outcome
  pub fcntl_lock : ℕ → ℕ → Flock → Outcome × Flock
  pub procfs_open : List ℕ → ℕ → Option Outcome
  pub procfs_join : ℕ → List ℕ → Option (List ℕ)

-- How a call that opens ends: its answer, what shim/epoll.c keeps afterwards, and the paths that
-- `__ape_shim_procfs_track` is told of.
pub record Opened : Type 0 where
  pub reply : Outcome
  pub kept : Kept
  pub tracked : List (ℕ × List ℕ)

abbrev pub tracks : ℕ → Option (List ℕ) → List (ℕ × List ℕ)
tracks fd none = []
tracks fd (some path) = (fd, path) ∷ []

-- What follows an answer; `vpath` is what is tracked.
unfoldable pub opened : Option (List ℕ) → Outcome → Kept → Opened
opened vpath (refuses e) s = record { reply = refuses e; kept = s; tracked = [] }
opened vpath (returns fd) s = record {
  reply = returns fd;
  kept = noted_new fd s;
  tracked = tracks fd vpath;
}

unfoldable pub opened_by : Option (List ℕ) → Option Outcome → Outcome → Kept → Opened
unfolding opened
opened_by vpath (some r) x s = opened none r s
opened_by vpath none x s = opened vpath x s

-- The mode that is read from the variable arguments.
abbrev pub o_creat : ℕ
o_creat = 64

abbrev pub mode_of : OpenHost → ℕ → ℕ → ℕ
mode_of h lin mode = if has lin o_creat || is_full lin h.lin_tmpfile then mode else 0

-- `__ape_shim_open`
unfoldable pub open_flagged : FdHost → List ℕ → ℕ → Outcome → Kept → Opened
unfolding opened_by
open_flagged h path mode (refuses e) s = record { reply = refuses e; kept = s; tracked = [] }
open_flagged h path mode (returns host) s =
    opened_by (some path) (h.procfs_open path host) (h.host_open path host mode) s

unfoldable pub shim_open : FdHost → List ℕ → ℕ → ℕ → Kept → Opened
unfolding open_flagged oflags_to_host
shim_open h path lin mode s =
    open_flagged h path (mode_of h.flags lin mode) (oflags_to_host h.flags lin) s

-- `path[0] == '/'`
abbrev pub is_absolute : List ℕ → Bool
is_absolute [] = false
is_absolute (c ∷ cs) = c == 47

-- The path in the tree of process files, where there is one.
unfoldable pub vpath_of : FdHost → ℕ → List ℕ → Option (List ℕ)
vpath_of h dirfd path =
    if is_absolute path
    then some path
    else if not (dirfd == lin_at_fdcwd)
    then h.procfs_join dirfd path
    else none

abbrev pub asked_procfs : FdHost → Option (List ℕ) → ℕ → Option Outcome
asked_procfs h none host = none
asked_procfs h (some p) host = h.procfs_open p host

-- `__ape_shim_openat`
unfoldable pub openat_flagged : FdHost → ℕ → List ℕ → ℕ → Outcome → Kept → Opened
unfolding opened_by vpath_of
openat_flagged h dirfd path mode (refuses e) s = record {
  reply = refuses e;
  kept = s;
  tracked = [];
}
openat_flagged h dirfd path mode (returns host) s =
    let vpath = vpath_of h dirfd path in
    opened_by vpath (asked_procfs h vpath host)
      (h.openat (at_fdcwd h.at_fdcwd dirfd) path host mode) s

unfoldable pub openat : FdHost → ℕ → List ℕ → ℕ → ℕ → Kept → Opened
unfolding openat_flagged oflags_to_host
openat h dirfd path lin mode s =
    openat_flagged h dirfd path (mode_of h.flags lin mode) (oflags_to_host h.flags lin) s

-- `__ape_shim_pipe2`: the answer, the two ends where there are any, and what is kept.
unfoldable pub piped : PipeAnswer → Kept → Outcome × Option (ℕ × ℕ) × Kept
piped (ends r w) s = (returns 0, some (r, w), noted_pipe r w s)
piped (no_pipe e) s = (refuses (left_by_host e), none, s)

unfoldable pub pipe_flagged : FdHost → Outcome → Kept → Outcome × Option (ℕ × ℕ) × Kept
unfolding piped
pipe_flagged h (refuses e) s = (refuses e, none, s)
pipe_flagged h (returns host) s = piped (h.pipe2 host) s

unfoldable pub pipe2 : FdHost → ℕ → Kept → Outcome × Option (ℕ × ℕ) × Kept
unfolding pipe_flagged oflags_to_host
pipe2 h lin s = pipe_flagged h (oflags_to_host h.flags lin) s
