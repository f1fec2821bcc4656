-- ===== src/Termios/Prefix.antt =====
-- The translation core of shim/termios.c over the prefix that the three Linux layouts share. The host's
-- cfsetospeed, cfsetispeed and cfgetospeed are arguments.
pub mod Flags
pub mod Chars
pub mod Whole
use rust_ape.Prelude.{ℕ, List, Option, none, some, bit_and, bit_or, clear_bits, replicate}
use rust_ape.Codes.{host_of, lin_of}
use rust_ape.Termios.{
  TermTables, lin_csize, lin_cbaud, lin_odly_mask, flags_to_host, flags_to_linux, odly_to_host,
  odly_to_linux, csize_to_host, csize_to_linux, cc_to_host, cc_to_linux,
}

-- The host's `struct termios`
pub record HostTermios : Type 0 where
  pub iflag : ℕ
  pub oflag : ℕ
  pub cflag : ℕ
  pub lflag : ℕ
  pub cc : List ℕ
  pub ispeed : ℕ
  pub ospeed : ℕ

-- `struct lin_termios`, `struct lin_ktermios` and `struct lin_ktermios2`, which differ in the length
-- of `cc` and in whether they have speeds.
pub record LinTermios : Type 0 where
  pub iflag : ℕ
  pub oflag : ℕ
  pub cflag : ℕ
  pub lflag : ℕ
  pub line : ℕ
  pub cc : List ℕ
  pub ispeed : ℕ
  pub ospeed : ℕ

-- What the translation has of the host: its constants and its three functions on speeds.
pub record TermHost : Type 0 where
  pub tables : TermTables
  pub cfsetospeed : ℕ → HostTermios → HostTermios
  pub cfsetispeed : ℕ → HostTermios → HostTermios
  pub cfgetospeed : HostTermios → ℕ

-- `memset` to zero
abbrev pub no_settings : TermTables → HostTermios
no_settings c = record {
  iflag = 0;
  oflag = 0;
  cflag = 0;
  lflag = 0;
  cc = replicate c.nccs 0;
  ispeed = 0;
  ospeed = 0;
}

-- `baud_to_host`, with `none` for `*ok = false`, and `baud_to_linux`, with `none` for -1
abbrev pub baud_to_host : TermTables → ℕ → Option ℕ
baud_to_host c code = host_of c.bauds code

abbrev pub baud_to_linux : TermTables → ℕ → Option ℕ
baud_to_linux c code = lin_of c.bauds code

abbrev pub with_speed : TermHost → Option ℕ → HostTermios → HostTermios
with_speed h none t = t
with_speed h (some sp) t = h.cfsetispeed sp (h.cfsetospeed sp t)

-- The settings before the speed.
abbrev pub to_host_flags : TermTables → LinTermios → ℕ → HostTermios
to_host_flags c l n = record (no_settings c) {
  iflag = flags_to_host c.iflags l.iflag 0;
  oflag =
      bit_or (flags_to_host c.oflags (clear_bits l.oflag lin_odly_mask) 0)
        (odly_to_host c.delays l.oflag 0);
  cflag =
      bit_or (flags_to_host c.cflags (clear_bits l.cflag (bit_or lin_csize lin_cbaud)) 0)
        (csize_to_host c l.cflag);
  lflag = flags_to_host c.lflags l.lflag 0;
  cc = cc_to_host c c.chars l.cc n (replicate c.nccs 0);
}

-- `prefix_to_host`
unfoldable pub prefix_to_host : TermHost → LinTermios → ℕ → HostTermios
prefix_to_host h l n =
    with_speed h (baud_to_host h.tables (bit_and l.cflag lin_cbaud)) (to_host_flags h.tables l n)

abbrev pub with_baud : Option ℕ → ℕ → ℕ
with_baud none f = f
with_baud (some code) f = bit_or f code

-- `prefix_to_linux`, into a struct that was set to zero
unfoldable pub prefix_to_linux : TermHost → HostTermios → ℕ → LinTermios
prefix_to_linux h t n =
    let c = h.tables in
    record {
      iflag = flags_to_linux c.iflags t.iflag 0;
      oflag = bit_or (flags_to_linux c.oflags t.oflag 0) (odly_to_linux c.delays t.oflag 0);
      cflag = with_baud (baud_to_linux c (h.cfgetospeed t)) (
          bit_or (flags_to_linux c.cflags (clear_bits t.cflag c.csize) 0)
            (csize_to_linux c t.cflag));
      lflag = flags_to_linux c.lflags t.lflag 0;
      line = 0;
      cc = cc_to_linux c c.chars t.cc n (replicate n 0);
      ispeed = 0;
      ospeed = 0;
    }
