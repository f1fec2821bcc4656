-- ===== src/Wait.antt =====
-- shim/wait.c: wait4, waitpid, wait and waitid, on top of the host's wait4. The host's constants and
-- its macros on a wait status are arguments. `x & (2 ^ k - 1)`, `x >> k` and `x << k` are written
-- with division; an `int` is its 32-bit pattern.
pub mod Status
mod Tests
use rust_ape.Prelude.{
  ℕ, ◌+◌, ◌-◌, ◌*◌, ◌/◌, ◌%◌, ◌^◌, Bool, true, false, not, ◌&&◌, ◌||◌, Option, none, some, ltb,
  ◌==◌, if◌then◌else◌, negative, has, or_if, bit_or, clear_bits, minus_one,
}
use rust_ape.Signal.{Signals, sig_to_linux}

-- What the file reads of the host.
pub record WaitHost : Type 0 where
  pub wnohang : ℕ
  pub wuntraced : ℕ
  pub wcontinued : ℕ
  pub is_windows : Bool
  pub wifexited : ℕ → Bool
  pub wifstopped : ℕ → Bool
  pub wifsignaled : ℕ → Bool
  pub wstopsig : ℕ → ℕ
  pub wtermsig : ℕ → ℕ
  pub signals : Signals
  pub uid : ℕ

-- `SHIM_LIN_W*`
abbrev pub lin_wnohang : ℕ
lin_wnohang = 1

abbrev pub lin_wuntraced : ℕ
lin_wuntraced = 2

abbrev pub lin_wstopped : ℕ
lin_wstopped = 2

abbrev pub lin_wexited : ℕ
lin_wexited = 4

abbrev pub lin_wcontinued : ℕ
lin_wcontinued = 8

abbrev pub lin_wnowait : ℕ
lin_wnowait = 0x1000000

-- One `if` of `wopts_to_host`: the options that are left, and the host's so far.
abbrev pub take_option : ℕ → Bool → ℕ → ℕ × ℕ → ℕ × ℕ
take_option bit is_kept value (lin, host) =
    if has lin bit then (clear_bits lin bit, or_if is_kept value host) else (lin, host)

-- `wopts_to_host`; `none` is EINVAL.
unfoldable pub wopts_to_host : WaitHost → ℕ → Option ℕ
wopts_to_host h lin =
    let (left, host) = take_option lin_wcontinued (not h.is_windows) h.wcontinued (
      take_option lin_wuntraced true h.wuntraced
        (take_option lin_wnohang true h.wnohang (lin, 0))) in
    if left == 0 then some host else none

-- `wstatus_to_linux`
unfoldable pub wstatus_to_linux : WaitHost → ℕ → ℕ
wstatus_to_linux h st =
    if h.wifstopped st
    then bit_or (sig_to_linux h.signals (h.wstopsig st) * 2 ^ 8) 0x7f
    else if h.wifsignaled st
    then bit_or (st / 2 ^ 7 % 2 * 2 ^ 7) (sig_to_linux h.signals (h.wtermsig st))
    else st

-- What `sigaction(SIGCHLD, NULL, &sa)` says.
pub data Disposition : Type 0 where
  unknown by_default ignored handled : Disposition

-- `nt_raise_sigchld`: whether the signal is raised.
abbrev pub nt_raise_sigchld : Disposition → Bool
nt_raise_sigchld handled = true
nt_raise_sigchld _ = false

-- What the host's `wait4` answers: -1 with its errno, 0, or a child with its status.
pub data Reaped : Type 0 where
  failed : ℕ → Reaped
  nothing : Reaped
  child : ℕ → ℕ → Reaped

-- The value of a call: -1 with EINVAL or with the host's errno, or a number.
pub data WaitReturn : Type 0 where
  invalid : WaitReturn
  host_error : ℕ → WaitReturn
  number : ℕ → WaitReturn

-- What one call does: the pid and the options that go to the host, what is returned, the status
-- that is stored, and whether SIGCHLD is raised.
pub record Waited : Type 0 where
  pub asked : Option (ℕ × ℕ)
  pub rc : WaitReturn
  pub status : Option ℕ
  pub raised : Bool

-- The host's `wait4`, by its pid, whether it is given a place for the status, and its options; and
-- the disposition of SIGCHLD.
pub record Children : Type 0 where
  pub wait4 : ℕ → Bool → ℕ → Reaped
  pub sigchld : Disposition

-- `__ape_shim_wait4` once the host has answered.
unfoldable pub answered : WaitHost → Disposition → ℕ → Bool → ℕ → Reaped → Waited
unfolding wstatus_to_linux
answered h d pid wanted opts (failed e) = record {
  asked = some (pid, opts);
  rc = host_error e;
  status = none;
  raised = false;
}
answered h d pid wanted opts nothing = record {
  asked = some (pid, opts);
  rc = number 0;
  status = none;
  raised = false;
}
answered h d pid wanted opts (child c st) =
    let seen = if wanted then st else 0 in
    record {
      asked = some (pid, opts);
      rc = number c;
      status = if wanted then some (wstatus_to_linux h st) else none;
      raised = (h.is_windows && (h.wifexited seen || h.wifsignaled seen)) && nt_raise_sigchld d;
    }

-- `__ape_shim_wait4`; `wanted` says that `status` is not NULL.
unfoldable pub wait4 : WaitHost → Children → ℕ → Bool → ℕ → Waited
unfolding wopts_to_host answered
wait4 h cs pid wanted lin = elim (wopts_to_host h lin) [
  | none ↦ record { asked = none; rc = invalid; status = none; raised = false }
  | some opts ↦ answered h cs.sigchld pid wanted opts (cs.wait4 pid wanted opts)
]

-- `__ape_shim_waitpid`, `__ape_shim_wait`
abbrev pub waitpid : WaitHost → Children → ℕ → Bool → ℕ → Waited
waitpid h cs pid wanted lin = wait4 h cs pid wanted lin

abbrev pub wait : WaitHost → Children → Bool → Waited
wait h cs wanted = wait4 h cs minus_one wanted 0

-- The fields of `siginfo_t` that `waitid_emulate` writes.
pub record ChildInfo : Type 0 where
  pub signo : ℕ
  pub errno : ℕ
  pub code : ℕ
  pub pid : ℕ
  pub uid : ℕ
  pub status : ℕ

-- The options that are let through: known bits only, one class of event at least, and no WNOWAIT.
abbrev pub has_events : ℕ → Bool
has_events lin =
    not (
      has lin
        (2 ^ 32 - 1 - (lin_wnohang + lin_wnowait + lin_wexited + lin_wstopped + lin_wcontinued)))
    && (has lin (lin_wexited + lin_wstopped + lin_wcontinued) && not (has lin lin_wnowait))

-- The `switch` over `idtype`: the pid for wait4.
unfoldable pub pid_of : ℕ → ℕ → Option ℕ
pid_of idtype id =
    if idtype == 0
    then some minus_one
    else if idtype == 1
    then (if id == 0 || negative id then none else some id)
    else if idtype == 2
    then some (if id == 0 then 0 else 2 ^ 32 - id)
    else none

-- `wopts`
unfoldable pub wopts_of : ℕ → ℕ
wopts_of lin =
    or_if (has lin lin_wcontinued) lin_wcontinued
      (or_if (has lin lin_wstopped) lin_wuntraced (if has lin lin_wnohang then lin_wnohang else 0))

-- The code and the status from a status in Linux's terms.
unfoldable pub read_status : ℕ → ℕ × ℕ
read_status st =
    if st % 2 ^ 8 == 0x7f
    then (5, st / 2 ^ 8 % 2 ^ 8)
    else if st == 0xffff
    then (6, 18)
    else if st % 2 ^ 7 == 0
    then (1, st / 2 ^ 8 % 2 ^ 8)
    else ((if st / 2 ^ 7 % 2 == 1 then 3 else 2), st % 2 ^ 7)

-- What is written to `infop` once wait4 has returned `rc`.
unfoldable pub fill_info : WaitHost → ℕ → ℕ → ChildInfo
unfolding read_status
fill_info h rc st =
    if rc == 0
    then record { signo = 0; errno = 0; code = 0; pid = 0; uid = 0; status = 0 }
    else record {
      signo = 17;
      errno = 0;
      code = (read_status st).0;
      pid = rc;
      uid = h.uid;
      status = (read_status st).1;
    }

-- What `waitid` does: the inner wait4, what is returned, and what `infop` is filled with.
pub record WaitedId : Type 0 where
  pub inner : Option Waited
  pub rc : WaitReturn
  pub info : Option ChildInfo

abbrev pub stored : Option ℕ → ℕ
stored none = 0
stored (some st) = st

-- `waitid_emulate` from the return of `__ape_shim_wait4` on.
unfoldable pub reported_child : WaitHost → Bool → Waited → WaitReturn → WaitedId
unfolding fill_info
reported_child h wanted w invalid = record { inner = some w; rc = invalid; info = none }
reported_child h wanted w (host_error e) = record { inner = some w; rc = host_error e; info = none }
reported_child h wanted w (number n) = record {
  inner = some w;
  rc = number 0;
  info = if wanted then some (fill_info h n (stored w.status)) else none;
}

-- `waitid_emulate`; `wanted` says that `infop` is not NULL.
unfoldable pub waitid_emulate : WaitHost → Children → ℕ → ℕ → Bool → ℕ → WaitedId
unfolding pid_of wopts_of wait4 reported_child
waitid_emulate h cs idtype id wanted lin =
    if not (has_events lin)
    then record { inner = none; rc = invalid; info = none }
    else elim (pid_of idtype id) [
      | none ↦ record { inner = none; rc = invalid; info = none }
      | some pid ↦ let w = wait4 h cs pid true (wopts_of lin) in reported_child h wanted w w.rc
    ]

-- `__ape_shim_waitid`: on Linux the answer of the kernel, below 0 as a pattern of 64 bits.
unfoldable pub waitid :
    WaitHost → Children → Option ℕ → ℕ → ℕ → Bool → ℕ → WaitReturn × Option WaitedId
unfolding waitid_emulate
waitid h cs (some r) idtype id wanted lin =
    (if ltb r (2 ^ 63) then number 0 else host_error ((2 ^ 64 - r) % 2 ^ 32), none)
waitid h cs none idtype id wanted lin =
    let w = waitid_emulate h cs idtype id wanted lin in (w.rc, some w)
