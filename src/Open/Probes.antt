-- ===== src/Open/Probes.antt =====
-- The calls of shim/open.c that ask about a path: the access family, and `unlinkat`, `linkat`, `utimensat`
-- and `mkfifo`, which pass one on. What the host answers is an argument; a stat of the process files
-- (shim/procfs/core) is one too, with `none` for its -2, "not mine".
pub mod Resolution
pub mod Refusals
use rust_ape.Prelude.{
  ℕ, ◌^◌, ◌-◌, Bool, true, false, not, ◌&&◌, ◌||◌, List, [], ◌∷◌, Option, none, some, ◌==◌,
  if◌then◌else◌, has, or_if, bit_or, clear_bits,
}
use rust_ape.Suffix.{Files, exe_fallback}
use rust_ape.Open.{
  Problem, einval, eacces, left_by_host, Outcome, returns, refuses, Translation, going, stopped,
  at_bit, at_fdcwd,
}

-- `struct timespec` of `utimensat`
pub record Stamp : Type 0 where
  pub sec : ℕ
  pub nsec : ℕ

-- The host: its constants, its calls, and its answers that `__ape_shim_exe_fallback` reads for names below a
-- directory. `at_empty_path` is 0 where it has none.
pub record ProbeHost : Type 0 where
  pub at_fdcwd : ℕ
  pub at_removedir : ℕ
  pub at_symlink_nofollow : ℕ
  pub at_symlink_follow : ℕ
  pub at_empty_path : ℕ
  pub at_eaccess : ℕ
  pub r_ok : ℕ
  pub w_ok : ℕ
  pub x_ok : ℕ
  pub utime_now : ℕ
  pub utime_omit : ℕ
  pub s_ififo : ℕ
  pub files : ℕ → Files
  pub access : List ℕ → ℕ → Outcome
  pub eaccess : List ℕ → ℕ → Outcome
  pub euidaccess : List ℕ → ℕ → Outcome
  pub faccessat : ℕ → ℕ → List ℕ → ℕ → Outcome
  pub unlinkat : ℕ → List ℕ → ℕ → Outcome
  pub linkat : ℕ → List ℕ → ℕ → List ℕ → ℕ → Outcome
  pub utimensat : ℕ → List ℕ → Option (Stamp × Stamp) → ℕ → Outcome
  pub mknod : List ℕ → ℕ → ℕ → Outcome
  pub procfs_vstat : ℕ → List ℕ → Option Outcome

-- `SHIM_LIN_AT_SYMLINK_NOFOLLOW`, `_REMOVEDIR`, `_SYMLINK_FOLLOW`, `_EMPTY_PATH`, `_EACCESS`
abbrev pub lin_symlink_nofollow : ℕ
lin_symlink_nofollow = 256

abbrev pub lin_removedir : ℕ
lin_removedir = 512

abbrev pub lin_symlink_follow : ℕ
lin_symlink_follow = 1024

abbrev pub lin_empty_path : ℕ
lin_empty_path = 4096

abbrev pub lin_eaccess : ℕ
lin_eaccess = 512

-- What follows the last `at_bit`: a bit that is left is refused, and the host is called otherwise.
unfoldable pub and_then : (ℕ → Outcome) → Translation → Outcome
and_then next (stopped e) = refuses e
and_then next (going lin host) = if lin == 0 then next host else refuses einval

-- `__ape_shim_unlinkat`, `__ape_shim_linkat`
unfoldable pub unlinkat : ProbeHost → ℕ → List ℕ → ℕ → Outcome
unfolding and_then at_bit
unlinkat h dirfd path lin =
    and_then (h.unlinkat (at_fdcwd h.at_fdcwd dirfd) path)
      (at_bit lin_removedir h.at_removedir (going lin 0))

unfoldable pub linkat : ProbeHost → ℕ → List ℕ → ℕ → List ℕ → ℕ → Outcome
unfolding and_then at_bit
linkat h old oldpath new newpath lin =
    and_then (h.linkat (at_fdcwd h.at_fdcwd old) oldpath (at_fdcwd h.at_fdcwd new) newpath) (
      at_bit lin_empty_path h.at_empty_path
        (at_bit lin_symlink_follow h.at_symlink_follow (going lin 0)))

-- The loop over the two times in `__ape_shim_utimensat`: both tests are made, one after the other.
abbrev pub utime_to_host : ProbeHost → ℕ → ℕ
utime_to_host h nsec =
    let now = if nsec == 0x3fffffff then h.utime_now else nsec in
    if now == 0x3ffffffe then h.utime_omit else now

abbrev pub stamp_to_host : ProbeHost → Stamp → Stamp
stamp_to_host h t = record t { nsec = utime_to_host h t.nsec }

abbrev pub times_to_host : ProbeHost → Option (Stamp × Stamp) → Option (Stamp × Stamp)
times_to_host h none = none
times_to_host h (some (a, m)) = some (stamp_to_host h a, stamp_to_host h m)

unfoldable pub utimensat : ProbeHost → ℕ → List ℕ → Option (Stamp × Stamp) → ℕ → Outcome
unfolding and_then at_bit
utimensat h dirfd path times lin =
    and_then (h.utimensat (at_fdcwd h.at_fdcwd dirfd) path (times_to_host h times))
      (at_bit lin_symlink_nofollow h.at_symlink_nofollow (going lin 0))

-- `__ape_shim_mkfifo`
abbrev pub mkfifo : ProbeHost → List ℕ → ℕ → Outcome
mkfifo h path mode = h.mknod path (bit_or h.s_ififo mode) 0

-- `amode_to_host`, for R_OK, W_OK and X_OK, which are 4, 2 and 1 on Linux
unfoldable pub amode_to_host : ProbeHost → ℕ → Outcome
amode_to_host h lin =
    if not (clear_bits lin 7 == 0)
    then refuses einval
    else returns (or_if (has lin 1) h.x_ok (or_if (has lin 2) h.w_ok (or_if (has lin 4) h.r_ok 0)))

-- `procfs_vaccess`
unfoldable pub vaccess_answer : ProbeHost → ℕ → Option Outcome → Option Outcome
vaccess_answer h host none = none
vaccess_answer h host (some (refuses e)) = some (refuses e)
vaccess_answer h host (some (returns x)) =
    some (if has host h.w_ok then refuses eacces else returns 0)

unfoldable pub procfs_vaccess : ProbeHost → ℕ → List ℕ → ℕ → Option Outcome
unfolding vaccess_answer
procfs_vaccess h dirfd path host = vaccess_answer h host (h.procfs_vstat dirfd path)

-- The retry that the four share: `ask` is the host's call.
abbrev pub ask_found : (List ℕ → Outcome) → Option (List ℕ) → Outcome → Outcome
ask_found ask none r = r
ask_found ask (some found) r = ask found

unfoldable pub retry : Files → (List ℕ → Outcome) → List ℕ → Outcome → Outcome
retry f ask path (returns x) = returns x
retry f ask path (refuses (left_by_host e)) =
    if e == f.enoent
    then ask_found ask (exe_fallback f path) (refuses (left_by_host e))
    else refuses (left_by_host e)
retry f ask path (refuses e) = refuses e

-- What they do with a translated amode.
unfoldable pub virtual_or : Option Outcome → Outcome → Outcome
virtual_or none x = x
virtual_or (some r) x = r

unfoldable pub asked : ProbeHost → ℕ → (List ℕ → ℕ → Outcome) → List ℕ → Outcome → Outcome
unfolding retry procfs_vaccess virtual_or
asked h dirfd ask path (refuses e) = refuses e
asked h dirfd ask path (returns host) =
    virtual_or (procfs_vaccess h dirfd path host)
      (retry (h.files dirfd) (λ p. ask p host) path (ask path host))

-- `__ape_shim_access`, `__ape_shim_eaccess`, `__ape_shim_euidaccess`
unfoldable pub access : ProbeHost → List ℕ → ℕ → Outcome
unfolding asked amode_to_host
access h path amode = asked h h.at_fdcwd h.access path (amode_to_host h amode)

unfoldable pub eaccess : ProbeHost → List ℕ → ℕ → Outcome
unfolding asked amode_to_host
eaccess h path amode = asked h h.at_fdcwd h.eaccess path (amode_to_host h amode)

unfoldable pub euidaccess : ProbeHost → List ℕ → ℕ → Outcome
unfolding asked amode_to_host
euidaccess h path amode = asked h h.at_fdcwd h.euidaccess path (amode_to_host h amode)

-- `__ape_shim_faccessat`: the flags, AT_EACCESS dropped where the host has no value for it.
abbrev pub faccessat_flags : ProbeHost → ℕ → Translation
faccessat_flags h lin = at_bit lin_symlink_follow h.at_symlink_follow (
    if h.at_eaccess == 0
    then going (clear_bits lin lin_eaccess) 0
    else at_bit lin_eaccess h.at_eaccess (going lin 0))

unfoldable pub faccessat : ProbeHost → ℕ → List ℕ → ℕ → ℕ → Outcome
unfolding and_then asked amode_to_host at_bit
faccessat h dirfd path amode lin =
    let fd = at_fdcwd h.at_fdcwd dirfd in
    and_then (λ host. asked h fd (λ p m. h.faccessat fd host p m) path (amode_to_host h amode))
      (faccessat_flags h lin)
