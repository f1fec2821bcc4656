-- ===== src/Termios/Ioctl.antt =====
-- `__ape_shim_ioctl` of shim/termios.c. The object that the third argument points to is a `Pointed`: the
-- settings of a terminal, or an `int`; requests that go through to the host as they are have its address
-- `addr` alone, and what the host writes there is not modelled.
pub mod Nonblocking
use rust_ape.Prelude.{
  ℕ, ◌^◌, ◌-◌, Bool, true, false, not, ◌&&◌, ◌==◌, if◌then◌else◌, bit_or, clear_bits,
}
use rust_ape.Open.{Outcome, returns, refuses, enotty}
use rust_ape.Termios.Prefix.{LinTermios, prefix_to_host}
use rust_ape.Termios.Calls.{Ttys, TtyHost, read_settings, tcsetattr_keep_mouse}

pub record Pointed : Type 0 where
  pub settings : LinTermios
  pub number : ℕ

-- The host: its calls, and its request codes, which are 0 where it has none.
pub record IoctlHost : Type 0 where
  pub tty : TtyHost
  pub tiocgwinsz : ℕ
  pub tiocswinsz : ℕ
  pub fionread : ℕ
  pub tiocsctty : ℕ
  pub tiocnotty : ℕ
  pub nonblock : ℕ
  pub ioctl : ℕ → ℕ → ℕ → Outcome
  pub getfl : ℕ → Ttys → Outcome
  pub setfl : ℕ → ℕ → Ttys → Outcome × Ttys
  pub tcgetpgrp : ℕ → Outcome
  pub tcsetpgrp : ℕ → ℕ → Outcome
  pub tcgetsid : ℕ → Outcome

-- How it ends: the answer, what the host keeps, and the object afterwards.
pub record Done : Type 0 where
  pub reply : Outcome
  pub ttys : Ttys
  pub pointed : Pointed

abbrev pub answered : Ttys → Pointed → Outcome → Done
answered w p r = record { reply = r; ttys = w; pointed = p }

-- `tio_get`, `tio_set`: both layouts have the flags and 19 characters.
unfoldable pub tio_get : IoctlHost → ℕ → Ttys → Pointed → Done
unfolding read_settings
tio_get h fd w p =
    let (r, l) = read_settings h.tty 19 p.settings (h.tty.tcgetattr fd w) in
    record { reply = r; ttys = w; pointed = record p { settings = l } }

unfoldable pub tio_set : IoctlHost → ℕ → ℕ → Ttys → Pointed → Done
unfolding tcsetattr_keep_mouse
tio_set h fd act w p =
    let (r, w') = tcsetattr_keep_mouse h.tty fd act (prefix_to_host h.tty.terms p.settings 19) w in
    answered w' p r

-- FIONBIO
abbrev pub wanted : IoctlHost → ℕ → ℕ → ℕ
wanted h number flags = if number == 0 then clear_bits flags h.nonblock else bit_or flags h.nonblock

abbrev pub set_status : IoctlHost → ℕ → ℕ → Ttys → Pointed → Done
set_status h fd flags w p = let (r, w') = h.setfl fd flags w in answered w' p r

unfoldable pub fionbio : IoctlHost → ℕ → Ttys → Pointed → Outcome → Done
fionbio h fd w p (refuses e) = answered w p (refuses e)
fionbio h fd w p (returns flags) =
    if wanted h p.number flags == flags
    then answered w p (returns 0)
    else set_status h fd (wanted h p.number flags) w p

-- The answer of tcgetpgrp or tcgetsid, stored.
abbrev pub stored : Ttys → Pointed → Outcome → Done
stored w p (refuses e) = answered w p (refuses e)
stored w p (returns id) = record { reply = returns 0; ttys = w; pointed = record p { number = id } }

-- `__ape_shim_ioctl`
abbrev pub is_request : ℕ → ℕ → ℕ → Bool
is_request req lin host = req == lin && not (host == 0)

unfoldable pub ioctl_session : IoctlHost → ℕ → ℕ → ℕ → Ttys → Pointed → Done
ioctl_session h fd req addr w p =
    if is_request req 21518 h.tiocsctty
    then answered w p (h.ioctl fd h.tiocsctty addr)
    else if is_request req 21538 h.tiocnotty
    then answered w p (h.ioctl fd h.tiocnotty addr)
    else if req == 21519
    then stored w p (h.tcgetpgrp fd)
    else if req == 21520
    then answered w p (h.tcsetpgrp fd p.number)
    else if req == 21545
    then stored w p (h.tcgetsid fd)
    else answered w p (refuses enotty)

abbrev pub lin_fionbio : ℕ
lin_fionbio = 21537

unfoldable pub ioctl : IoctlHost → ℕ → ℕ → ℕ → Ttys → Pointed → Done
unfolding tio_get tio_set fionbio ioctl_session
ioctl h fd req addr w p =
    if req == 21505
    then tio_get h fd w p
    else if req == 2 ^ 32 - 2144578518
    then tio_get h fd w p
    else if req == 21506
    then tio_set h fd 0 w p
    else if req == 21507
    then tio_set h fd 1 w p
    else if req == 21508
    then tio_set h fd 2 w p
    else if req == 1076646955
    then tio_set h fd 0 w p
    else if req == 1076646956
    then tio_set h fd 1 w p
    else if req == 1076646957
    then tio_set h fd 2 w p
    else if is_request req 21523 h.tiocgwinsz
    then answered w p (h.ioctl fd h.tiocgwinsz addr)
    else if is_request req 21524 h.tiocswinsz
    then answered w p (h.ioctl fd h.tiocswinsz addr)
    else if is_request req 21531 h.fionread
    then answered w p (h.ioctl fd h.fionread addr)
    else if req == lin_fionbio
    then fionbio h fd w p (h.getfl fd w)
    else ioctl_session h fd req addr w p
