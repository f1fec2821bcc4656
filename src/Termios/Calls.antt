-- ===== src/Termios/Calls.antt =====
-- The functions of shim/termios.c that a program calls: tcgetattr and its relatives, and the cf*
-- family on musl's struct. What the host answers is an argument, and so is `__ape_shim_console_sync`
-- (shim/console.c).
pub mod Speeds
pub mod Attributes
use rust_ape.Prelude.{
  ℕ, ◌^◌, ◌-◌, Bool, true, false, not, List, Option, none, some, ◌==◌, if◌then◌else◌, bit_and,
  bit_or, clear_bits, set,
}
use rust_ape.Codes.{Row, host_of}
use rust_ape.Open.{Outcome, returns, refuses, einval, left_by_host}
use rust_ape.Termios.{lin_csize, lin_cs8, lin_cbaud, lin_vmin, lin_vtime}
use rust_ape.Termios.Prefix.{HostTermios, LinTermios, TermHost, prefix_to_host, prefix_to_linux}

-- What the host keeps: `__ttyconf.magic`, the settings of each terminal, and the status flags of each
-- descriptor.
pub record Ttys : Type 0 where
  pub magic : ℕ
  pub settings : ℕ → HostTermios
  pub status : ℕ → ℕ

-- What the host's tcgetattr answers.
pub data Got : Type 0 where
  got : HostTermios → Got
  no_tty : ℕ → Got

-- The host: its translation tables, `kTtyXtMouse`, the codes of tcflush and tcflow, and its calls.
pub record TtyHost : Type 0 where
  pub terms : TermHost
  pub xt_mouse : ℕ
  pub flushes : List Row
  pub flows : List Row
  pub tcgetattr : ℕ → Ttys → Got
  pub tcsetattr : ℕ → ℕ → HostTermios → Ttys → Outcome × Ttys
  pub console_sync : Ttys → Ttys
  pub tcflush : ℕ → ℕ → Outcome
  pub tcflow : ℕ → ℕ → Outcome

-- `tcsetattr_keep_mouse`
abbrev pub with_mouse : ℕ → Ttys → Ttys
with_mouse mouse w = record w { magic = bit_or w.magic mouse }

unfoldable pub synced : TtyHost → Outcome → Ttys → Outcome × Ttys
synced h (refuses e) w = (refuses e, w)
synced h (returns rc) w = (returns rc, if rc == 0 then h.console_sync w else w)

unfoldable pub tcsetattr_keep_mouse : TtyHost → ℕ → ℕ → HostTermios → Ttys → Outcome × Ttys
unfolding synced
tcsetattr_keep_mouse h fd act t w =
    let (r, w') = h.tcsetattr fd act t w in synced h r (with_mouse (bit_and w.magic h.xt_mouse) w')

-- `__ape_shim_tcgetattr`, and `tio_get`, whose layouts have 19 characters: the answer and the caller's
-- struct afterwards.
unfoldable pub read_settings : TtyHost → ℕ → LinTermios → Got → Outcome × LinTermios
read_settings h n l (no_tty e) = (refuses (left_by_host e), l)
read_settings h n l (got t) = (returns 0, prefix_to_linux h.terms t n)

unfoldable pub tcgetattr : TtyHost → ℕ → LinTermios → Ttys → Outcome × LinTermios
unfolding read_settings
tcgetattr h fd l w = read_settings h 32 l (h.tcgetattr fd w)

-- `__ape_shim_tcsetattr`
unfoldable pub tcsetattr : TtyHost → ℕ → ℕ → LinTermios → Ttys → Outcome × Ttys
unfolding tcsetattr_keep_mouse
tcsetattr h fd act l w = tcsetattr_keep_mouse h fd act (prefix_to_host h.terms l 32) w

-- `__ape_shim_tcflush`, `__ape_shim_tcflow`: `coded` is the host's code.
abbrev pub or_einval : (ℕ → Outcome) → Option ℕ → Outcome
or_einval call none = refuses einval
or_einval call (some coded) = call coded

unfoldable pub tcflush : TtyHost → ℕ → ℕ → Outcome
tcflush h fd qs = or_einval (h.tcflush fd) (host_of h.flushes qs)

unfoldable pub tcflow : TtyHost → ℕ → ℕ → Outcome
tcflow h fd action = or_einval (h.tcflow fd) (host_of h.flows action)

-- `__ape_shim_cfgetospeed` and `__ape_shim_cfgetispeed`, which read the same field
unfoldable pub cfgetospeed : LinTermios → ℕ
cfgetospeed l = bit_and l.cflag lin_cbaud

unfoldable pub cfgetispeed : LinTermios → ℕ
cfgetispeed l = bit_and l.cflag lin_cbaud

-- `__ape_shim_cfsetospeed`, `__ape_shim_cfsetispeed`
unfoldable pub cfsetospeed : ℕ → LinTermios → Outcome × LinTermios
cfsetospeed sp l =
    if not (clear_bits sp lin_cbaud == 0)
    then (refuses einval, l)
    else (returns 0, record l { cflag = bit_or (clear_bits l.cflag lin_cbaud) sp })

unfoldable pub cfsetispeed : ℕ → LinTermios → Outcome × LinTermios
unfolding cfsetospeed
cfsetispeed sp l = if sp == 0 then (returns 0, l) else cfsetospeed sp l

-- `__ape_shim_cfmakeraw`: the masks are IGNBRK | BRKINT | PARMRK | ISTRIP | INLCR | IGNCR | ICRNL | IXON,
-- OPOST, ECHO | ECHONL | ICANON | ISIG | IEXTEN, and CSIZE | PARENB.
abbrev pub raw_iflags : ℕ
raw_iflags = 1515

abbrev pub raw_oflags : ℕ
raw_oflags = 1

abbrev pub raw_lflags : ℕ
raw_lflags = 32843

abbrev pub raw_cflags : ℕ
raw_cflags = 304

unfoldable pub cfmakeraw : LinTermios → LinTermios
cfmakeraw l = record l {
  iflag = clear_bits l.iflag raw_iflags;
  oflag = clear_bits l.oflag raw_oflags;
  lflag = clear_bits l.lflag raw_lflags;
  cflag = bit_or (clear_bits l.cflag raw_cflags) lin_cs8;
  cc = set (set l.cc lin_vmin 1) lin_vtime 0;
}
