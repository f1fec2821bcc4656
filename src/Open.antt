-- ===== src/Open.antt =====
-- shim/open.c: the translation of what is passed to `open` and its relatives. The host's constants are
-- known at run time only, so they are arguments; an `int` is its 32-bit pattern.
pub mod Flags
pub mod Fds
pub mod Control
pub mod Sane
pub mod Safety
pub mod Probes
pub mod Stats
mod Tests
mod CallTests
mod StatTests
use rust_ape.Prelude.{
  ℕ, ◌^◌, ◌-◌, Bool, true, false, not, ◌&&◌, ◌||◌, List, [], ◌∷◌, ◌==◌, if◌then◌else◌, bit_and,
  bit_or, has, or_if, clear_bits,
}

-- The values of `errno` that the shim sets itself, and what a call of the host has left.
pub data Problem : Type 0 where
  eopnotsupp einval eacces enotty : Problem
  left_by_host : ℕ → Problem

-- What a call returns: a value, or -1 with `errno` set.
pub data Outcome : Type 0 where
  returns : ℕ → Outcome
  refuses : Problem → Outcome

-- `struct oflag`, with the value of the host's constant.
pub record Oflag : Type 0 where
  pub linux_bit : ℕ
  pub host : ℕ
  pub droppable : Bool

-- What the flags of `open` are translated by: `SHIM_LIN_O_LARGEFILE`, `SHIM_LIN_O_SYNC` and
-- `SHIM_LIN_O_TMPFILE`, which depend on the processor, the host's `O_SYNC`, the bits that stand for
-- O_TMPFILE there, whether it is Linux or NT, and `kOflags`.
pub record OpenHost : Type 0 where
  pub lin_largefile : ℕ
  pub lin_sync : ℕ
  pub lin_tmpfile : ℕ
  pub sync : ℕ
  pub tmpfile : ℕ
  pub has_tmpfile : Bool
  pub rows : List Oflag

-- `LIN_O_ACCMODE`
abbrev pub accmode : ℕ
accmode = 3

-- `unsupported`
abbrev pub unsupported : ℕ → Bool
unsupported bit = bit == 0 || bit == 2 ^ 32 - 1

-- The translation as far as it has come: what is left of the Linux flags, and the host's so far.
pub data Translation : Type 0 where
  going : ℕ → ℕ → Translation
  stopped : Problem → Translation

-- The three parts of `oflags_to_host`: O_SYNC, O_TMPFILE, and the loop over `kOflags` with what
-- follows it.
abbrev pub is_full : ℕ → ℕ → Bool
is_full x m = bit_and x m == m

unfoldable pub take_sync : OpenHost → ℕ → ℕ → Translation
take_sync h lin host =
    if is_full lin h.lin_sync
    then (if unsupported h.sync
        then stopped eopnotsupp
        else going (clear_bits lin h.lin_sync) (bit_or host h.sync))
    else going lin host

unfoldable pub take_tmpfile : OpenHost → Translation → Translation
take_tmpfile h (stopped e) = stopped e
take_tmpfile h (going lin host) =
    if is_full lin h.lin_tmpfile
    then (if not h.has_tmpfile
        then stopped eopnotsupp
        else going (clear_bits lin h.lin_tmpfile) (bit_or host h.tmpfile))
    else going lin host

unfoldable pub take_rows : List Oflag → ℕ → ℕ → Outcome
take_rows [] lin host = if lin == 0 then returns host else refuses einval
take_rows (r ∷ rs) lin host =
    let asked = has lin r.linux_bit in
    let rest =
      take_rows rs (if asked then clear_bits lin r.linux_bit else lin)
        (or_if (asked && not (unsupported r.host)) r.host host) in
    if asked && (unsupported r.host && not r.droppable) then refuses eopnotsupp else rest

unfoldable pub take_all : OpenHost → Translation → Outcome
unfolding take_rows
take_all h (stopped e) = refuses e
take_all h (going lin host) = take_rows h.rows lin host

-- `oflags_to_host`
unfoldable pub oflags_to_host : OpenHost → ℕ → Outcome
unfolding take_all take_tmpfile take_sync
oflags_to_host h lin = take_all h (
    take_tmpfile h
      (take_sync h (clear_bits (clear_bits lin accmode) h.lin_largefile) (bit_and lin accmode)))

-- The loop of `oflags_to_linux`.
unfoldable pub report_rows : List Oflag → ℕ → ℕ → ℕ
report_rows [] host lin = lin
report_rows (r ∷ rs) host lin =
    report_rows rs host (or_if (not (unsupported r.host) && is_full host r.host) r.linux_bit lin)

-- `oflags_to_linux`
unfoldable pub oflags_to_linux : OpenHost → ℕ → ℕ
unfolding report_rows
oflags_to_linux h host =
    let synced = not (unsupported h.sync) && is_full host h.sync in
    report_rows h.rows (if synced then clear_bits host h.sync else host)
      (or_if synced h.lin_sync (bit_and host accmode))

-- `at_bit`: what is left of the Linux flags and the host's flags afterwards; `host` is the host's
-- constant.
unfoldable pub at_bit : ℕ → ℕ → Translation → Translation
at_bit bit host (stopped e) = stopped e
at_bit bit host (going lin out) =
    if not (has lin bit)
    then going lin out
    else if host == 0
    then stopped eopnotsupp
    else going (clear_bits lin bit) (bit_or out host)

-- `SHIM_LIN_AT_FDCWD`, and `at_fdcwd` with the host's `AT_FDCWD`
abbrev pub lin_at_fdcwd : ℕ
lin_at_fdcwd = 2 ^ 32 - 100

abbrev pub at_fdcwd : ℕ → ℕ → ℕ
at_fdcwd host dirfd = if dirfd == lin_at_fdcwd then host else dirfd
