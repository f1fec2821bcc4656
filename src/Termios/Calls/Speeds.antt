-- ===== src/Termios/Calls/Speeds.antt =====
-- The cf* family of shim/termios.c.
use rust_ape.Prelude.{
  ℕ, ◌-◌, ◌^◌, ◌<◌, ◌≡◌, ◌≢◌, refl, ◌∙◌, ap, sym, Bool, true, false, ◌==◌, if◌then◌else◌, bit_and,
  bit_or, bit_xor, has, clear_bits, arith, get_or, set, length, length-set, get_or-set,
  get_or-set_other, Apart, bit_and-bit_or, bit_and_assoc, bit_and_comm, zero-bit_and, zero-bit_or,
  bit_or-zero, Bool-cases, inl, inr, mask_split, clear_bits_inside, has-clear_bits,
  has-clear_bits_self, bit_and_self, has-bit_or, has_comm, Apart-zero, ◌≤◌,
}
use rust_ape.Open.{Outcome, returns, refuses, einval}
use rust_ape.Termios.{lin_csize, lin_cs8, lin_cbaud, lin_vmin, lin_vtime}
use rust_ape.Termios.Prefix.{LinTermios}
use rust_ape.Termios.Calls.{
  cfgetospeed, cfgetispeed, cfsetospeed, cfsetispeed, cfmakeraw, raw_iflags, raw_oflags, raw_lflags,
  raw_cflags,
}

inside : (sp m : ℕ) → sp < 2 ^ 32 → m < 2 ^ 32 → clear_bits sp m ≡ 0 → bit_and sp m ≡ sp
inside sp m hs hm z =
    sym (bit_or-zero (bit_and sp m))
    ∙ (ap (λ y. bit_or (bit_and sp m) y) (sym z) ∙ mask_split sp m hs hm)

new_speed :
    (x sp : ℕ)
    → sp < 2 ^ 32
    → clear_bits sp lin_cbaud ≡ 0
    → bit_and (bit_or (clear_bits x lin_cbaud) sp) lin_cbaud ≡ sp
new_speed x sp hs z =
    rw
      (
        bit_and-bit_or,
        clear_bits_inside x lin_cbaud lin_cbaud (omega arith) (bit_and_self lin_cbaud),
        zero-bit_or,
      )
      (inside sp lin_cbaud hs (omega arith) z)

-- Outside the speed's field, a speed sets nothing.
speed-Apart :
    (sp k : ℕ) → sp < 2 ^ 32 → clear_bits sp lin_cbaud ≡ 0 → Apart lin_cbaud k → has sp k ≡ false
speed-Apart sp k hs z a =
    let q : bit_and sp k ≡ 0 =
      ap (λ y. bit_and y k) (sym (inside sp lin_cbaud hs (omega arith) z))
      ∙ rw (
        bit_and_assoc sp lin_cbaud k,
        Apart-zero lin_cbaud k a,
        bit_and_comm sp 0,
        zero-bit_and,
      ) in
    ground arith

-- cfsetospeed takes exactly the codes that fit into the speed's field. One that does is what both
-- cfgetospeed and cfgetispeed return then, and neither another control flag nor another field of the
-- struct changes; any other is EINVAL and the struct is as it was. cfsetispeed takes the same codes and
-- leaves the same struct, but for a speed of 0 the one that was there. `k` is any flag of 32 bits
-- outside the field.
pub cfsetospeed_lem :
    (sp k : ℕ) (l : LinTermios)
    → sp < 2 ^ 32
    → k < 2 ^ 32
    → Apart k lin_cbaud
    → let (r, l') = cfsetospeed sp l in
      (r ≡ (if clear_bits sp lin_cbaud == 0 then returns 0 else refuses einval))
      × (cfgetospeed l' ≡ (if clear_bits sp lin_cbaud == 0 then sp else cfgetospeed l))
      × (cfgetispeed l' ≡ cfgetospeed l')
      × (has l'.cflag k ≡ has l.cflag k)
      × (l' ≡ (if clear_bits sp lin_cbaud == 0 then record l { cflag = l'.cflag } else l))
      × ((cfsetispeed sp l).0
          ≡ (if clear_bits sp lin_cbaud == 0 then returns 0 else refuses einval))
      × ((cfsetispeed sp l).1 ≡ (if sp == 0 then l else l'))
unfolding cfsetospeed cfgetospeed cfgetispeed cfsetispeed
cfsetospeed_lem sp k l hs hk a = elim (Bool-cases (clear_bits sp lin_cbaud == 0)) [
  | inl q ↦
      let z : clear_bits sp lin_cbaud ≡ 0 = ground arith in
      (
        rw q,
        rw q (new_speed l.cflag sp hs z),
        refl,
        rw q (with_speed z),
        rw q refl,
        at_zero,
        by_zero (sp == 0) l (cfsetospeed sp l),
      )
  | inr q ↦ (rw q, rw q, refl, rw q, rw q refl, at_zero, by_zero (sp == 0) l (cfsetospeed sp l))
]
  where
    with_speed :
        clear_bits sp lin_cbaud ≡ 0
        → has (bit_or (clear_bits l.cflag lin_cbaud) sp) k ≡ has l.cflag k
    with_speed z =
        rw
          (
            has-bit_or,
            has-clear_bits l.cflag lin_cbaud k (omega arith) hk a,
            speed-Apart sp k hs z (has_comm lin_cbaud k ∙ a),
          )
          (ground arith)

    at_zero :
        (cfsetispeed sp l).0 ≡ (if clear_bits sp lin_cbaud == 0 then returns 0 else refuses einval)
    at_zero = ground arith

    by_zero :
        (b : Bool) (l : LinTermios) (y : Outcome × LinTermios)
        → (if b then (returns 0, l) else y).1 ≡ (if b then l else y.1)
    by_zero true l y = refl
    by_zero false l y = refl

size_of_raw : (x : ℕ) → bit_and (bit_or (clear_bits x raw_cflags) lin_cs8) lin_csize ≡ lin_cs8
size_of_raw x =
    let gone : bit_and (clear_bits x raw_cflags) lin_csize ≡ 0 =
      bit_and_assoc x (bit_xor (2 ^ 32 - 1) raw_cflags) lin_csize
      ∙ (bit_and_comm x 0 ∙ zero-bit_and x) in
    rw (bit_and-bit_or, gone, zero-bit_or)

-- What cfmakeraw promises: none of the flags that it switches off is left, the characters have eight
-- bits, a read waits for one character and for no time; and every flag outside its masks and every other
-- control character is as it was. The struct has at least seven characters; `k` is any flag of 32 bits
-- outside the four masks, and `j` any place but those of VMIN and VTIME.
pub cfmakeraw_lem :
    (l : LinTermios) (k j : ℕ)
    → 7 ≤ length l.cc
    → k < 2 ^ 32
    → Apart k raw_iflags
    → Apart k raw_oflags
    → Apart k raw_lflags
    → Apart k raw_cflags
    → j ≢ lin_vmin
    → j ≢ lin_vtime
    → let r = cfmakeraw l in
      (has r.iflag raw_iflags ≡ false)
      × (has r.oflag raw_oflags ≡ false)
      × (has r.lflag raw_lflags ≡ false)
      × (has r.cflag 256 ≡ false)
      × (bit_and r.cflag lin_csize ≡ lin_cs8)
      × (get_or r.cc lin_vmin 0 ≡ 1)
      × (get_or r.cc lin_vtime 0 ≡ 0)
      × (has r.iflag k ≡ has l.iflag k)
      × (has r.oflag k ≡ has l.oflag k)
      × (has r.lflag k ≡ has l.lflag k)
      × (has r.cflag k ≡ has l.cflag k)
      × (get_or r.cc j 0 ≡ get_or l.cc j 0)
unfolding cfmakeraw
cfmakeraw_lem l k j n hk i o f c nm nt = (
  has-clear_bits_self l.iflag raw_iflags (omega arith),
  has-clear_bits_self l.oflag raw_oflags (omega arith),
  has-clear_bits_self l.lflag raw_lflags (omega arith),
  rw (has-bit_or, parity_off),
  size_of_raw l.cflag,
  get_or-set_other (set l.cc lin_vmin 1) lin_vtime lin_vmin 0 0 refl
      ∙ get_or-set l.cc lin_vmin 1 0 (omega arith),
  get_or-set (set l.cc lin_vmin 1) lin_vtime 0 0 (omega (arith, length-set l.cc lin_vmin 1)),
  has-clear_bits l.iflag raw_iflags k (omega arith) hk i,
  has-clear_bits l.oflag raw_oflags k (omega arith) hk o,
  has-clear_bits l.lflag raw_lflags k (omega arith) hk f,
  rw (has-bit_or, has-clear_bits l.cflag raw_cflags k (omega arith) hk c, eight_bits)
      (ground arith),
  get_or-set_other (set l.cc lin_vmin 1) lin_vtime j 0 0 (ground arith)
      ∙ get_or-set_other l.cc lin_vmin j 1 0 (ground arith),
)
  where
    parity_off : has (clear_bits l.cflag raw_cflags) 256 ≡ false
    parity_off =
        let q : bit_and (clear_bits l.cflag raw_cflags) 256 ≡ 0 =
          bit_and_assoc l.cflag (bit_xor (2 ^ 32 - 1) raw_cflags) 256
          ∙ (bit_and_comm l.cflag 0 ∙ zero-bit_and l.cflag) in
        rw q

    eight_bits : has lin_cs8 k ≡ false
    eight_bits =
        let q : bit_and lin_cs8 k ≡ 0 =
          bit_and_assoc lin_cs8 raw_cflags k
          ∙ rw (Apart-zero raw_cflags k (has_comm raw_cflags k ∙ c), bit_and_comm lin_cs8 0) in
        rw q
