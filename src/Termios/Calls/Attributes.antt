-- ===== src/Termios/Calls/Attributes.antt =====
-- tcsetattr and tcgetattr of shim/termios.c, one after the other.
use rust_ape.Prelude.{
  ℕ, ◌≡◌, ◌≢◌, refl, ◌∙◌, ap, ◌⊎◌, Bool, true, false, ◌||◌, some, ◌==◌, if◌then◌else◌, bit_and, has,
  get_or, get_elem?, has-bit_or, has-bit_and, replicate,
}
use rust_ape.Codes.{Row, host_of}
use rust_ape.Open.{Outcome, returns, refuses}
use rust_ape.Termios.{lin_csize, lin_cbaud, is_count, in_both, cc_to_host, cc_to_linux}
use rust_ape.Termios.Prefix.{
  HostTermios, LinTermios, TermHost, to_host_flags, prefix_to_host, prefix_to_linux,
}
use rust_ape.Termios.Prefix.Flags.{kept}
use rust_ape.Termios.Prefix.Chars.{HasPlaces, cc_to_linux-cc_to_host}
use rust_ape.Termios.Prefix.Whole.{IsTerm, to_host-with_speed, prefix_to_linux-prefix_to_host}
use rust_ape.Termios.Calls.{
  Ttys, got, TtyHost, with_mouse, synced, tcsetattr_keep_mouse, read_settings, tcgetattr, tcsetattr,
}

magic-synced :
    (h : TtyHost) (r : Outcome) (w : Ttys)
    → ((v : Ttys) → (h.console_sync v).magic ≡ v.magic)
    → (synced h r w).1.magic ≡ w.magic
unfolding synced
magic-synced h (refuses e) w s = refl
magic-synced h (returns rc) w s = if_synced (rc == 0)
  where
    if_synced : (b : Bool) → (if b then h.console_sync w else w).magic ≡ w.magic
    if_synced true = s w
    if_synced false = refl

-- tcsetattr, whether it succeeds or not, leaves each bit of `kTtyXtMouse` set in `__ttyconf.magic` that was
-- set, even where the host's tcsetattr clears it, and sets none that was not and that the host leaves
-- clear. `__ape_shim_console_sync` does not change that word; `m` is a mask within `kTtyXtMouse`.
pub tcsetattr_mouse :
    (h : TtyHost) (fd act : ℕ) (l : LinTermios) (w : Ttys) (m : ℕ)
    → ((v : Ttys) → (h.console_sync v).magic ≡ v.magic)
    → bit_and h.xt_mouse m ≡ m
    → has (tcsetattr h fd act l w).1.magic m
      ≡ (has (h.tcsetattr fd act (prefix_to_host h.terms l 32) w).1.magic m || has w.magic m)
unfolding tcsetattr tcsetattr_keep_mouse
tcsetattr_mouse h fd act l w m s q =
    let (r, w') = h.tcsetattr fd act (prefix_to_host h.terms l 32) w in
    let mouse = bit_and w.magic h.xt_mouse in
    ap (λ x. has x m) (magic-synced h r (with_mouse mouse w') s)
    ∙ (has-bit_or w'.magic mouse m
        ∙ ap (λ b. has w'.magic m || b)
            (has-bit_and w.magic h.xt_mouse m ∙ ap (λ x. has w.magic x) q))

cc_there :
    (h : TermHost) (t : IsTerm h) (l : LinTermios) (sp : ℕ)
    → host_of h.tables.bauds (bit_and l.cflag lin_cbaud) ≡ some sp
    → (prefix_to_linux h (prefix_to_host h l 32) 32).cc
      ≡ cc_to_linux h.tables h.tables.chars
          (cc_to_host h.tables h.tables.chars l.cc 32 (replicate h.tables.nccs 0))
          32
          (replicate 32 0)
unfolding prefix_to_linux
cc_there h t l sp e =
    ap (λ s. cc_to_linux h.tables h.tables.chars s.cc 32 (replicate 32 0))
      (to_host-with_speed h t l 32 sp e)
    ∙ ap (λ cc. cc_to_linux h.tables h.tables.chars cc 32 (replicate 32 0))
        (t.set_rest sp (to_host_flags h.tables l 32)).3

read_got :
    (h : TtyHost) (fd : ℕ) (l0 : LinTermios) (w : Ttys) (s : HostTermios)
    → h.tcgetattr fd w ≡ got s
    → tcgetattr h fd l0 w ≡ (returns 0, prefix_to_linux h.terms s 32)
unfolding tcgetattr read_settings
read_got h fd l0 w s q = ap (read_settings h 32 l0) q

-- Settings that tcsetattr has set, tcgetattr reports: the input and local flags that the host has, the
-- character size, the speed, and each control character with a row of the table, unless it is the
-- host's sign for a disabled one and is neither 0 nor VMIN or VTIME. The host answers with the
-- settings that it was given, has the speed, and has places of their own for the control characters.
pub tcgetattr-tcsetattr :
    (h : TtyHost) (t : IsTerm h.terms) (fd act i sp : ℕ) (l l0 : LinTermios) (w : Ttys) (r : Row)
    → HasPlaces (λ r. r.host) h.terms.tables.chars
    → HasPlaces (λ r. r.lin) h.terms.tables.chars
    → h.tcgetattr fd (tcsetattr h fd act l w).1 ≡ got (prefix_to_host h.terms l 32)
    → host_of h.terms.tables.bauds (bit_and l.cflag lin_cbaud) ≡ some sp
    → get_elem? h.terms.tables.chars i ≡ some r
    → in_both h.terms.tables 32 r ≡ true
    → (get_or l.cc r.lin 0 ≢ h.terms.tables.vdisable)
      ⊎ ((get_or l.cc r.lin 0 ≡ 0) ⊎ (is_count r.lin ≡ true))
    → let (answer, l') = tcgetattr h fd l0 (tcsetattr h fd act l w).1 in
      (answer ≡ returns 0)
      × (l'.iflag ≡ kept h.terms.tables.iflags l.iflag)
      × (l'.lflag ≡ kept h.terms.tables.lflags l.lflag)
      × (bit_and l'.cflag lin_csize ≡ bit_and l.cflag lin_csize)
      × (bit_and l'.cflag lin_cbaud ≡ bit_and l.cflag lin_cbaud)
      × (get_or l'.cc r.lin 0 ≡ get_or l.cc r.lin 0)
tcgetattr-tcsetattr h t fd act i sp l l0 w r hp lp g e row b d =
    let read = read_got h fd l0 (tcsetattr h fd act l w).1 (prefix_to_host h.terms l 32) g in
    let back = prefix_to_linux-prefix_to_host h.terms t l 32 sp e in
    (
      ap (λ x. x.0) read,
      ap (λ x. x.1.iflag) read ∙ back.0,
      ap (λ x. x.1.lflag) read ∙ back.1,
      ap (λ x. bit_and x.1.cflag lin_csize) read ∙ back.2,
      ap (λ x. bit_and x.1.cflag lin_cbaud) read ∙ back.3,
      ap (λ x. get_or x.1.cc r.lin 0) read
          ∙ (ap (λ cc. get_or cc r.lin 0) (cc_there h.terms t l sp e)
              ∙ cc_to_linux-cc_to_host h.terms.tables l.cc 32 i r hp lp row b d),
    )
