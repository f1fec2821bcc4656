-- ===== src/Codes.antt =====
-- The tables that pair a Linux value with the host's, as shim/errno.c and shim/signal.c search
-- them, and the copy of errno in shim/errno.c. The host's values are known at run time only, so a
-- table is an argument. An `int` is its 32-bit pattern.
pub mod Tables
pub mod Visits
mod Tests
use rust_ape.Prelude.{
  ℕ, ◌≡◌, ◌≢◌, Bool, true, false, List, [], ◌∷◌, Option, none, some, ◌==◌, if◌then◌else◌, ◌||◌,
}

-- `struct map`, `struct smap`, `struct rmap`
pub record Row : Type 0 where
  pub lin : ℕ
  pub host : ℕ

-- The two searches of a table; the first row that matches counts.
unfoldable pub host_of : List Row → ℕ → Option ℕ
host_of [] lin = none
host_of (r ∷ rs) lin = if r.lin == lin then some r.host else host_of rs lin

unfoldable pub lin_of : List Row → ℕ → Option ℕ
lin_of [] host = none
lin_of (r ∷ rs) host = if r.host == host then some r.lin else lin_of rs host

-- What a failed search leaves.
abbrev pub or_else : Option ℕ → ℕ → ℕ
or_else none x = x
or_else (some y) x = y

-- `SHIM_LIN_EACCES`, `SHIM_ERRNO_SENTINEL`
abbrev pub eacces : ℕ
eacces = 13

abbrev pub sentinel : ℕ
sentinel = 0x5AFEE44E

-- What shim/errno.c reads of the host: its table, and the one code that has no name there.
pub record Errnos : Type 0 where
  pub rows : List Row
  pub symlink_disabled : ℕ

-- `__ape_shim_errno_host_to_linux`
unfoldable pub errno_to_linux : Errnos → ℕ → ℕ
errno_to_linux c host =
    if host == 0
    then 0
    else or_else (lin_of c.rows host) (if host == c.symlink_disabled then eacces else host)

-- `linux_to_host`
unfoldable pub errno_to_host : Errnos → ℕ → ℕ
errno_to_host c lin = if lin == 0 then 0 else or_else (host_of c.rows lin) lin

-- The two cells: the host's `errno` and `shim_errno`.
pub record Cells : Type 0 where
  pub host : ℕ
  pub copy : ℕ

-- `__ape_shim_errno_location`; the pointer that it returns is to `copy`.
unfoldable pub errno_location : Errnos → Cells → Cells
errno_location c s = record {
  host = sentinel;
  copy = if s.host == sentinel then s.copy else errno_to_linux c s.host;
}

-- What happens to errno: a call of the host sets it, the Rust side reads it, and the Rust side
-- writes it. Reading and writing go through `errno_location`.
pub data ErrnoEvent : Type 0 where
  fails : ℕ → ErrnoEvent
  reads : ErrnoEvent
  writes : ℕ → ErrnoEvent

unfoldable pub happen : Errnos → ErrnoEvent → Cells → Cells
happen c (fails e) s = record s { host = e }
happen c reads s = errno_location c s
happen c (writes v) s = record (errno_location c s) { copy = v }

unfoldable pub happen_all : Errnos → List ErrnoEvent → Cells → Cells
happen_all c [] s = s
happen_all c (e ∷ es) s = happen_all c es (happen c e s)
