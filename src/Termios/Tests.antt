-- ===== src/Termios/Tests.antt =====
-- Runs of shim/termios.c on one host, with a part of each table and constants that are not Linux's.
use rust_ape.Prelude.{
  ℕ, ◌+◌, ◌≡◌, refl, inl, inr, true, false, [], ◌∷◌, some, ◌==◌, if◌then◌else◌, bit_and, has, arith,
  replicate, get_or,
}
use rust_ape.Codes.{Row, host_of, lin_of}
use rust_ape.Open.{returns, refuses, einval, enotty, left_by_host}
use rust_ape.Termios.{
  TermTables, lin_csize, lin_cbaud, flags_to_host, flags_to_linux, odly_to_host, odly_to_linux,
  cc_to_host, cc_to_linux,
}
use rust_ape.Termios.Prefix.{LinTermios, TermHost, prefix_to_host, prefix_to_linux, no_settings}
use rust_ape.Termios.Prefix.Flags.{flags_to_linux-flags_to_host}
use rust_ape.Termios.Prefix.Chars.{HasPlaces, cc_to_linux-cc_to_host}
use rust_ape.Termios.Prefix.Whole.{IsTerm, prefix_to_linux-prefix_to_host}
use rust_ape.Termios.Calls.{
  Ttys, got, TtyHost, tcgetattr, tcsetattr, tcflush, cfsetospeed, cfsetispeed, cfgetospeed,
  cfgetispeed, cfmakeraw, raw_iflags, raw_oflags, raw_lflags,
}
use rust_ape.Termios.Calls.Speeds.{cfsetospeed_lem, cfmakeraw_lem}
use rust_ape.Termios.Calls.Attributes.{tcsetattr_mouse, tcgetattr-tcsetattr}
use rust_ape.Termios.Ioctl.{Pointed, IoctlHost, ioctl, lin_fionbio}
use rust_ape.Termios.Ioctl.Nonblocking.{put_status, ioctl_nonblocking}

abbrev row : ℕ → ℕ → Row
row l h = record { lin = l; host = h }

abbrev tables : TermTables
tables = record {
  iflags = row 1 1 ∷ row 512 0 ∷ row 1024 0x200 ∷ row 16384 0x4000 ∷ [];
  oflags = row 1 1 ∷ row 4 2 ∷ [];
  cflags =
      row 48 0x300 ∷ row 16 0x100 ∷ row 32 0x200 ∷ row 48 0x300 ∷ row 64 0x400 ∷ row 128 0x800 ∷ [];
  lflags = row 1 0x80 ∷ row 2 0x100 ∷ row 8 8 ∷ [];
  delays =
      record { host_mask = 0x3000; lin_mask = 1536; host = 0x1000; lin = 512 }
      ∷ record { host_mask = 0x3000; lin_mask = 1536; host = 0x2000; lin = 1024 }
      ∷ record { host_mask = 0x3000; lin_mask = 1536; host = 0x3000; lin = 1536 }
      ∷ [];
  csize = 0x300;
  cs6 = 0x100;
  cs7 = 0x200;
  cs8 = 0x300;
  bauds = row 0 0 ∷ row 13 9600 ∷ row 15 38400 ∷ row 4098 115200 ∷ [];
  chars = row 0 8 ∷ row 5 17 ∷ row 6 16 ∷ [];
  nccs = 20;
  vdisable = 255;
}

abbrev terms : TermHost
terms = record {
  tables = tables;
  cfsetospeed = λ sp t. record t { ospeed = sp };
  cfsetispeed = λ sp t. record t { ispeed = sp };
  cfgetospeed = λ t. t.ospeed;
}

speeds_run :
    (code sp : ℕ) → host_of tables.bauds code ≡ some sp → lin_of tables.bauds sp ≡ some code
unfolding host_of lin_of
speeds_run code sp e = ground (arith, e)

terms-IsTerm : IsTerm terms
terms-IsTerm = record {
  iflags = ((refl, (refl, (refl, tt))), ((refl, (refl, tt)), ((refl, tt), (tt, tt))));
  lflags = ((refl, (refl, tt)), ((refl, tt), (tt, tt)));
  cflags = (
    inr (refl, refl),
    (
      inr (refl, refl),
      (
        inr (refl, refl),
        (inr (refl, refl), (inl (refl, refl, refl), (inl (refl, refl, refl), tt))),
      ),
    ),
  );
  csize_lt = omega arith;
  cs_set = (refl, refl, refl);
  cs_differ = (refl, refl, refl);
  cs_inside = (refl, refl, refl);
  speeds = speeds_run;
  set_get = λ sp t. refl;
  set_rest = λ sp t. (refl, refl, refl, refl);
}

-- IGNBRK, IUCLC, which the host lacks, and IXON; ECHO; CS7 with CREAD at 115200 baud; "interrupt" disabled
-- and VMIN 1.
abbrev settings : LinTermios
settings = record {
  iflag = 1 + 512 + 1024;
  oflag = 4 + 1024;
  cflag = 32 + 128 + 4098;
  lflag = 8;
  line = 0;
  cc = 0 ∷ 28 ∷ 127 ∷ 21 ∷ 4 ∷ 0 ∷ 1 ∷ replicate 25 0;
  ispeed = 0;
  ospeed = 0;
}

flag_word_run :
    flags_to_linux tables.iflags (flags_to_host tables.iflags (1 + 512 + 1024) 0) 0 ≡ 1 + 1024
flag_word_run = flags_to_linux-flags_to_host tables.iflags (1 + 512 + 1024) terms-IsTerm.iflags

-- CR2 there and back.
delay_run : odly_to_linux tables.delays (odly_to_host tables.delays (4 + 1024) 0) 0 ≡ 1024
unfolding odly_to_linux odly_to_host
delay_run = refl

host_places : HasPlaces (λ r. r.host) tables.chars
host_places = ((refl, (refl, tt)), ((refl, tt), (tt, tt)))

lin_places : HasPlaces (λ r. r.lin) tables.chars
lin_places = ((refl, (refl, tt)), ((refl, tt), (tt, tt)))

chars_run :
    get_or
      (cc_to_linux tables tables.chars
        (cc_to_host tables tables.chars settings.cc 32 (replicate 20 0))
        32
        (replicate 32 0))
      0
      0
    ≡ 0
chars_run =
    cc_to_linux-cc_to_host tables settings.cc 32 0 (row 0 8) host_places lin_places refl refl
      (inr (inl refl))

prefix_run :
    let l' = prefix_to_linux terms (prefix_to_host terms settings 32) 32 in
    (l'.iflag ≡ 1 + 1024)
    × (l'.lflag ≡ 8)
    × (bit_and l'.cflag lin_csize ≡ 32)
    × (bit_and l'.cflag lin_cbaud ≡ 4098)
unfolding host_of
prefix_run = prefix_to_linux-prefix_to_host terms terms-IsTerm settings 32 115200 refl

cfsetospeed_lem_example :
    let (r, l') = cfsetospeed 13 settings in
    (r ≡ returns 0)
    × (cfgetospeed l' ≡ 13)
    × (cfgetispeed l' ≡ cfgetospeed l')
    × (has l'.cflag 128 ≡ true)
    × (l' ≡ record settings { cflag = l'.cflag })
    × ((cfsetispeed 13 settings).0 ≡ returns 0)
    × ((cfsetispeed 13 settings).1 ≡ l')
cfsetospeed_lem_example = cfsetospeed_lem 13 128 settings (omega arith) (omega arith) refl

raw_run :
    let r = cfmakeraw settings in
    (has r.iflag raw_iflags ≡ false)
    × (has r.oflag raw_oflags ≡ false)
    × (has r.lflag raw_lflags ≡ false)
    × (has r.cflag 256 ≡ false)
    × (bit_and r.cflag lin_csize ≡ 48)
    × (get_or r.cc 6 0 ≡ 1)
    × (get_or r.cc 5 0 ≡ 0)
    × (has r.iflag 4096 ≡ false)
    × (has r.oflag 4096 ≡ false)
    × (has r.lflag 4096 ≡ false)
    × (has r.cflag 4096 ≡ true)
    × (get_or r.cc 2 0 ≡ 127)
raw_run =
    cfmakeraw_lem settings 4096 2 (omega arith) (omega arith) refl refl refl refl (omega arith)
      (omega arith)

-- NT: the host's tcsetattr clears the magic word, whose bit 4 says that the mouse is reported.
abbrev tty : TtyHost
tty = record {
  terms = terms;
  xt_mouse = 4;
  flushes = row 0 1 ∷ row 1 2 ∷ row 2 3 ∷ [];
  flows = [];
  tcgetattr = λ fd w. got (w.settings fd);
  tcsetattr = λ fd act t w.
      (returns 0, record w { magic = 0; settings = λ j. if j == fd then t else w.settings j });
  console_sync = λ w. w;
  tcflush = λ fd q. returns q;
  tcflow = λ fd a. returns a;
}

abbrev ttys : Ttys
ttys = record {
  magic = 6;
  settings = λ j. no_settings tables;
  status = λ j. if j == 5 then 2 else 0;
}

tcsetattr_mouse_example : has (tcsetattr tty 0 1 settings ttys).1.magic 4 ≡ true
tcsetattr_mouse_example = tcsetattr_mouse tty 0 1 settings ttys 4 (λ v. refl) refl

tcgetattr-tcsetattr_example :
    let (answer, l') = tcgetattr tty 0 settings (tcsetattr tty 0 1 settings ttys).1 in
    (answer ≡ returns 0)
    × (l'.iflag ≡ 1 + 1024)
    × (l'.lflag ≡ 8)
    × (bit_and l'.cflag lin_csize ≡ 32)
    × (bit_and l'.cflag lin_cbaud ≡ 4098)
    × (get_or l'.cc 6 0 ≡ 1)
unfolding tcsetattr host_of
tcgetattr-tcsetattr_example =
    tcgetattr-tcsetattr tty terms-IsTerm 0 1 2 115200 settings settings ttys (row 6 16) host_places
      lin_places refl refl refl refl (inl (omega arith))

flush_run : tcflush tty 0 2 ≡ returns 3
unfolding tcflush host_of
flush_run = refl

bad_flush_run : tcflush tty 0 9 ≡ refuses einval
unfolding tcflush host_of
bad_flush_run = refl

abbrev nonblocking : IoctlHost
nonblocking = record {
  tty = tty;
  tiocgwinsz = 7;
  tiocswinsz = 8;
  fionread = 9;
  tiocsctty = 0;
  tiocnotty = 0;
  nonblock = 0x800;
  ioctl = λ fd req addr. returns req;
  getfl = λ fd w. returns (w.status fd);
  setfl = λ fd f w. (returns 0, put_status fd f w);
  tcgetpgrp = λ fd. returns 42;
  tcsetpgrp = λ fd id. returns 0;
  tcgetsid = λ fd. refuses (left_by_host 25);
}

abbrev object : Pointed
object = record { settings = settings; number = 1 }

pgrp_run : (ioctl nonblocking 0 21519 0 ttys object).pointed.number ≡ 42
unfolding ioctl
pgrp_run = refl

ctty_run : (ioctl nonblocking 0 21518 0 ttys object).reply ≡ refuses enotty
unfolding ioctl
ctty_run = refl

ioctl_nonblocking_example :
    let d = ioctl nonblocking 5 lin_fionbio 0 ttys object in
    (d.reply ≡ returns 0)
    × (has (d.ttys.status 5) 0x800 ≡ true)
    × (has (d.ttys.status 5) 2 ≡ true)
    × (d.ttys.status 6 ≡ 0)
ioctl_nonblocking_example =
    ioctl_nonblocking nonblocking 5 6 0 2 ttys object refl (λ f. refl) refl (omega arith)
      (omega arith) refl (omega arith)
