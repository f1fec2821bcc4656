-- ===== src/Termios.antt =====
-- shim/termios.c: the translation of terminal settings between musl's coding and the host's. The host's
-- constants are known at run time only, so the tables are arguments; a flag word is a number below
-- 2 ^ 32, a character of `c_cc` one below 2 ^ 8.
pub mod Prefix
pub mod Calls
pub mod Ioctl
mod Tests
use rust_ape.Prelude.{
  ℕ, ◌-◌, ◌^◌, Bool, true, false, not, ◌&&◌, ◌||◌, List, [], ◌∷◌, Option, none, some, ltb, ◌==◌,
  if◌then◌else◌, bit_and, bit_or, has, or_if, get_or, set,
}
use rust_ape.Codes.{Row}
use rust_ape.Open.{is_full}

-- One row of `DLY`: the field and the value in it, on the host and on Linux.
pub record Delay : Type 0 where
  pub host_mask : ℕ
  pub lin_mask : ℕ
  pub host : ℕ
  pub lin : ℕ

-- The host's constants that the translation reads: the tables of flags, the ten rows of delays, the
-- character sizes, the speeds, the places in `c_cc` with their number, and `_POSIX_VDISABLE`.
pub record TermTables : Type 0 where
  pub iflags : List Row
  pub oflags : List Row
  pub cflags : List Row
  pub lflags : List Row
  pub delays : List Delay
  pub csize : ℕ
  pub cs6 : ℕ
  pub cs7 : ℕ
  pub cs8 : ℕ
  pub bauds : List Row
  pub chars : List Row
  pub nccs : ℕ
  pub vdisable : ℕ

-- `SHIM_LIN_CSIZE`, `_CS6`, `_CS7`, `_CS8`, `_CBAUD`, `_VTIME`, `_VMIN`; CBAUDEX is a bit of CBAUD.
abbrev pub lin_csize : ℕ
lin_csize = 48

abbrev pub lin_cs6 : ℕ
lin_cs6 = 16

abbrev pub lin_cs7 : ℕ
lin_cs7 = 32

abbrev pub lin_cs8 : ℕ
lin_cs8 = 48

abbrev pub lin_cbaud : ℕ
lin_cbaud = 4111

abbrev pub lin_vtime : ℕ
lin_vtime = 5

abbrev pub lin_vmin : ℕ
lin_vmin = 6

-- `iflag_to_host` and the three others of `DEFINE_BITS`; `h` is what is gathered so far.
unfoldable pub flags_to_host : List Row → ℕ → ℕ → ℕ
flags_to_host [] lin h = h
flags_to_host (r ∷ rs) lin h = flags_to_host rs lin (or_if (has lin r.lin) r.host h)

-- `iflag_to_linux` and the three others.
unfoldable pub flags_to_linux : List Row → ℕ → ℕ → ℕ
flags_to_linux [] host lin = lin
flags_to_linux (r ∷ rs) host lin =
    flags_to_linux rs host (or_if (not (r.host == 0) && is_full host r.host) r.lin lin)

-- `LIN_ODLY_MASK`, `odly_to_host`, `odly_to_linux`
abbrev pub lin_odly_mask : ℕ
lin_odly_mask = 65280

unfoldable pub odly_to_host : List Delay → ℕ → ℕ → ℕ
odly_to_host [] lin h = h
odly_to_host (d ∷ ds) lin h =
    odly_to_host ds lin (or_if (not (d.host_mask == 0) && bit_and lin d.lin_mask == d.lin) d.host h)

unfoldable pub odly_to_linux : List Delay → ℕ → ℕ → ℕ
odly_to_linux [] host lin = lin
odly_to_linux (d ∷ ds) host lin = odly_to_linux ds host (
    or_if ((not (d.host_mask == 0) && bit_and host d.host_mask == d.host) && not (d.host == 0))
      d.lin lin)

-- `csize_to_host`, `csize_to_linux`
unfoldable pub csize_to_host : TermTables → ℕ → ℕ
csize_to_host c lin =
    let f = bit_and lin lin_csize in
    if f == lin_cs6
    then c.cs6
    else if f == lin_cs7
    then c.cs7
    else if f == lin_cs8
    then c.cs8
    else 0

unfoldable pub csize_to_linux : TermTables → ℕ → ℕ
csize_to_linux c host =
    let f = bit_and host c.csize in
    if not (c.cs8 == 0) && f == c.cs8
    then lin_cs8
    else if not (c.cs7 == 0) && f == c.cs7
    then lin_cs7
    else if not (c.cs6 == 0) && f == c.cs6
    then lin_cs6
    else 0

-- `CC_IS_COUNT`
abbrev pub is_count : ℕ → Bool
is_count lin = lin == lin_vmin || lin == lin_vtime

-- `cc_to_host`, `cc_to_linux`; `n` is the number of places on the Linux side.
abbrev pub char_to_host : TermTables → ℕ → ℕ → ℕ
char_to_host c lin b = if b == 0 && not (is_count lin) then c.vdisable else b

abbrev pub char_to_linux : TermTables → ℕ → ℕ → ℕ
char_to_linux c lin b = if b == c.vdisable && not (is_count lin) then 0 else b

abbrev pub in_both : TermTables → ℕ → Row → Bool
in_both c n r = ltb r.lin n && ltb r.host c.nccs

unfoldable pub cc_to_host : TermTables → List Row → List ℕ → ℕ → List ℕ → List ℕ
cc_to_host c [] lin_cc n host_cc = host_cc
cc_to_host c (r ∷ rs) lin_cc n host_cc = cc_to_host c rs lin_cc n (
    if in_both c n r
    then set host_cc r.host (char_to_host c r.lin (get_or lin_cc r.lin 0))
    else host_cc)

unfoldable pub cc_to_linux : TermTables → List Row → List ℕ → ℕ → List ℕ → List ℕ
cc_to_linux c [] host_cc n lin_cc = lin_cc
cc_to_linux c (r ∷ rs) host_cc n lin_cc = cc_to_linux c rs host_cc n (
    if in_both c n r
    then set lin_cc r.lin (char_to_linux c r.lin (get_or host_cc r.host 0))
    else lin_cc)
