-- ===== src/Open/CallTests.antt =====
-- Runs of the calls in shim/open.c on one host, with a program "/p" that is "/p.exe" there.
use rust_ape.Prelude.{
  ℕ, ◌+◌, ◌-◌, ◌^◌, ◌≡◌, refl, Bool, true, false, List, [], ◌∷◌, none, some, ◌==◌, if◌then◌else◌,
  arith, replicate,
}
use rust_ape.Suffix.{Files, unreadable, Started, runs, refused, execve, exe_fallback}
use rust_ape.Epoll.Pairs.{no_pair}
use rust_ape.Epoll.Pairs.Count.{mentions, IsCounted}
use rust_ape.Open.{OpenHost, Outcome, returns, refuses, einval, left_by_host, lin_at_fdcwd}
use rust_ape.Open.Fds.{Kept, Flock, FdHost, ends, shim_open}
use rust_ape.Open.Control.{fcntl}
use rust_ape.Open.Control.Locks.{HasLocks, fcntl_getlk}
use rust_ape.Open.Sane.{IsSound}
use rust_ape.Open.Safety.{
  opens, pipes, controls, call, calls, calls-IsSound, call_refused, call-forgets,
}
use rust_ape.Open.Probes.{
  ProbeHost, access, eaccess, euidaccess, faccessat, unlinkat, linkat, utimensat, amode_to_host,
}
use rust_ape.Open.Probes.Resolution.{probes_agree}
use rust_ape.Open.Probes.Refusals.{IsRejected, flags-IsRejected}

abbrev flags : OpenHost
flags = record {
  lin_largefile = 32768;
  lin_sync = 1052672;
  lin_tmpfile = 4259840;
  sync = 0x80;
  tmpfile = 0;
  has_tmpfile = false;
  rows =
      record { linux_bit = 64; host = 0x200; droppable = false }
      ∷ record { linux_bit = 2048; host = 4; droppable = false }
      ∷ [];
}

-- "/p" and "/p.exe"
abbrev p : List ℕ
p = 47 ∷ 112 ∷ []

abbrev p_exe : List ℕ
p_exe = 47 ∷ 112 ∷ 46 ∷ 101 ∷ 120 ∷ 101 ∷ []

abbrev same_path : List ℕ → List ℕ → Bool
same_path [] [] = true
same_path (x ∷ xs) (y ∷ ys) = if x == y then same_path xs ys else false
same_path _ _ = false

-- The host opens every file as 9, duplicates every descriptor as 9, and finds a lock of its own type 30,
-- process 77, in the way of any other.
abbrev other_lock : ℕ → Flock
other_lock t = record { l_type = t; whence = 0; start = 0; len = 0; pid = 77 }

abbrev fds : FdHost
fds = record {
  flags = flags;
  at_fdcwd = 2 ^ 32 - 2;
  cloexec = 0x1000000;
  rdlck = 10;
  wrlck = 30;
  unlck = 20;
  getlk = 7;
  setlk = 8;
  setlkw = 9;
  setown = none;
  getown = none;
  dupfd_cloexec = 67;
  host_open = λ path f mode. returns 9;
  openat = λ fd path f mode. returns 9;
  pipe2 = λ f. ends 9 10;
  fcntl = λ fd cmd arg. returns 9;
  fcntl_lock = λ fd cmd fl. (returns 0, other_lock 30);
  procfs_open = λ path f. none;
  procfs_join = λ fd path. none;
}

-- A pipe that was recorded for 9 and 8, and a text that is held in memory as 40.
abbrev before : Kept
before = record {
  raw = false;
  memfds = λ fd. if fd == 40 then some 0 else none;
  sets = replicate 2 none;
  pairs = record { slots = record { r = 9; w = 8 } ∷ replicate 31 no_pair; next = 1; live = 1 };
}

before-IsCounted : IsCounted before.pairs
before-IsCounted = record { size = refl; counted = refl }

before-IsSound : IsSound before
before-IsSound = (λ a. omega arith, before-IsCounted)

opened_run : (call fds (opens p 64 0) before).0 ≡ returns 9
unfolding shim_open
opened_run = refl

call-forgets_example : mentions 9 (call fds (opens p 64 0) before).1.pairs.slots ≡ 0
call-forgets_example =
    call-forgets fds (opens p 64 0) before 9 refl before-IsCounted refl refl opened_run

-- A command that nobody knows, and one on the text in memory.
unknown_run : (call fds (controls 9 77 0 (other_lock 0)) before).0 ≡ refuses einval
unfolding fcntl
unknown_run = refl

call_refused_example :
    let c = call fds (controls 9 77 0 (other_lock 0)) before in
    (c.1.sets ≡ before.sets) × (c.1.pairs ≡ before.pairs) × (c.1.memfds 40 ≡ before.memfds 40)
call_refused_example =
    call_refused fds (controls 9 77 0 (other_lock 0)) before einval 40 unknown_run

cloexec_run :
    (call fds
      (controls 40 1 0 (other_lock 0))
      (call fds (controls 40 2 1 (other_lock 0)) before).1).0
    ≡ returns 1
unfolding fcntl
cloexec_run = refl

calls-IsSound_example :
    IsSound (calls ((fds, pipes 2048) ∷ (fds, controls 9 0 3 (other_lock 0)) ∷ []) before)
calls-IsSound_example =
    calls-IsSound ((fds, pipes 2048) ∷ (fds, controls 9 0 3 (other_lock 0)) ∷ []) before
      before-IsSound (omega arith)

fds-HasLocks : HasLocks fds
fds-HasLocks = record { rd_wr = refl; rd_un = refl; wr_un = refl }

fcntl_getlk_run :
    fcntl fds 9 5 0 (other_lock 0) before
    ≡ record { reply = returns 0; kept = before; lock = other_lock 1 }
fcntl_getlk_run =
    fcntl_getlk fds fds-HasLocks 9 0 (other_lock 0) (other_lock 5) 1 0 before refl refl
      (omega arith) (omega arith) refl

-- NT, where only "/p.exe" is a file; its constants for R_OK and the others are not Linux's.
abbrev files : Files
files = record {
  is_windows = true;
  path_max = 1024;
  enoent = 2;
  is_regular = same_path p_exe;
  readlink = λ _. unreadable;
}

abbrev exists_or : List ℕ → Outcome
exists_or path = if same_path path p_exe then returns 0 else refuses (left_by_host 2)

abbrev nt : ProbeHost
nt = record {
  at_fdcwd = 2 ^ 32 - 2;
  at_removedir = 0x80;
  at_symlink_nofollow = 0x100;
  at_symlink_follow = 0;
  at_empty_path = 0;
  at_eaccess = 0;
  r_ok = 2 ^ 31;
  w_ok = 2 ^ 30;
  x_ok = 2 ^ 29;
  utime_now = 11;
  utime_omit = 12;
  s_ififo = 0x1000;
  files = λ fd. files;
  access = λ path m. exists_or path;
  eaccess = λ path m. exists_or path;
  euidaccess = λ path m. exists_or path;
  faccessat = λ fd f path m. exists_or path;
  unlinkat = λ fd path f. returns 0;
  linkat = λ fd path to_fd to f. returns 0;
  utimensat = λ fd path t f. returns 0;
  mknod = λ path mode dev. returns 0;
  procfs_vstat = λ fd path. none;
}

abbrev start : List ℕ → Started
start path = if same_path path p_exe then runs path else refused 2

amode_run : amode_to_host nt 5 ≡ returns (2 ^ 31 + 2 ^ 29)
unfolding amode_to_host
amode_run = refl

access_run : access nt p 5 ≡ returns 0
unfolding access exe_fallback
access_run = refl

probes_agree_example :
    (access nt p 5 ≡ returns 0)
    × (eaccess nt p 5 ≡ returns 0)
    × (euidaccess nt p 5 ≡ returns 0)
    × (faccessat nt lin_at_fdcwd p 5 0 ≡ returns 0)
    × (execve files start p ≡ runs p_exe)
unfolding exe_fallback
probes_agree_example =
    probes_agree nt start p 5 (2 ^ 31 + 2 ^ 29) true amode_run refl refl refl refl refl refl

-- AT_REMOVEDIR with a flag of 2 ^ 20 beside it.
flags-IsRejected_example :
    IsRejected (unlinkat nt 3 p (512 + 1048576))
    × IsRejected (linkat nt 3 p 4 p (512 + 1048576))
    × IsRejected (utimensat nt 3 p none (512 + 1048576))
    × IsRejected (faccessat nt 3 p 4 (512 + 1048576))
flags-IsRejected_example =
    flags-IsRejected nt 3 4 p p none 4 (512 + 1048576) 1048576 (omega arith) refl refl refl refl
      refl
