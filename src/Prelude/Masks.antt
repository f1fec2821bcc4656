-- ===== src/Prelude/Masks.antt =====
-- Unions of masks, the removal of bits from them, and masks that do not overlap.
use Prim.Native.Nat.{
  ℕ, zero, suc, ◌+◌, ◌-◌, ◌*◌, ◌/◌, ◌%◌, ◌^◌, ◌≤◌, ◌<◌, min, bit_and, bit_or, bit_xor, differ,
  bit_xor-bitwise,
}
use mathlib.Core.Path.{◌≡◌, ◌∙◌}
use mathlib.Core.Bool.{false}
use native.Mathlib.Omega.{arith}
use native.Mathlib.Numerals.{unary_clauses}
use rust_ape.Prelude.Bits.{
  has, clear_bits, digits-fuel, bit_and_step, bit_and-half, bit_or-half, bit_and-parity,
  bit_or-parity, eq_of_halves, zero-bit_and, zero-bit_or, bit_and-bit_or,
}

bit_xor_step : (x y : ℕ) → bit_xor x y ≡ bit_xor (x / 2) (y / 2) * 2 + differ (x % 2) (y % 2)
bit_xor_step zero y = ground (arith, bit_xor-bitwise 0 (y / 2), bit_xor-bitwise 0 y)
bit_xor_step (suc x) y =
    let half = suc x / 2 in
    omega (
      arith,
      digits-fuel (λ rest. rest) differ half x half (y / 2) (omega arith) (omega arith),
      bit_xor-bitwise half (y / 2),
      bit_xor-bitwise (suc x) y,
    )

-- `~m` on numbers of `w` binary digits.
abbrev flipped : ℕ → ℕ → ℕ
flipped w m = bit_xor (2 ^ w - 1) m

flipped_step : (w m : ℕ) → flipped (suc w) m ≡ flipped w (m / 2) * 2 + (1 - m % 2)
flipped_step w m =
    let pos : 1 ≤ 2 ^ w = one_le w in
    let twice : 2 ^ suc w ≡ 2 ^ w * 2 = simp unary_clauses in
    let q : (2 ^ suc w - 1) / 2 ≡ 2 ^ w - 1 = omega (arith, twice, pos) in
    let r : (2 ^ suc w - 1) % 2 ≡ 1 = omega (arith, twice, pos) in
    bit_xor_step (2 ^ suc w - 1) m ∙ rw (q, r) (digit m)
  where
    one_le : (w : ℕ) → 1 ≤ 2 ^ w
    one_le zero = omega arith
    one_le (suc w) = simp unary_clauses (omega (arith, one_le w))

    digit :
        (m : ℕ)
        → bit_xor (2 ^ w - 1) (m / 2) * 2 + differ 1 (m % 2)
          ≡ bit_xor (2 ^ w - 1) (m / 2) * 2 + (1 - m % 2)
    digit m = ground arith

bit_and-digit : (x a d : ℕ) → d ≤ 1 → bit_and x (a * 2 + d) ≡ bit_and (x / 2) a * 2 + min (x % 2) d
bit_and-digit x a d h =
    let q : (a * 2 + d) / 2 ≡ a = omega arith in
    let r : (a * 2 + d) % 2 ≡ d = omega arith in bit_and_step x (a * 2 + d) ∙ rw (q, r)

-- `m & ~m` is nothing, and `x & ~m` is `x` where the two do not overlap.
self-flipped : (w m : ℕ) → m < 2 ^ w → bit_and m (flipped w m) ≡ 0
self-flipped zero m h = let e : m ≡ 0 = omega arith in rw e (zero-bit_and (flipped 0 0))
self-flipped (suc w) m h =
    let hm : m < 2 ^ w * 2 = simp unary_clauses at h in
    let ih = self-flipped w (m / 2) (omega arith) in
    rw flipped_step
      (omega (arith, ih, bit_and-digit m (flipped w (m / 2)) (1 - m % 2) (omega arith)))

apart-flipped : (w x m : ℕ) → x < 2 ^ w → m < 2 ^ w → bit_and x m ≡ 0 → bit_and x (flipped w m) ≡ x
apart-flipped zero x m hx hm h = let e : x ≡ 0 = omega arith in rw e (zero-bit_and (flipped 0 m))
apart-flipped (suc w) x m hx hm h =
    let ux : x < 2 ^ w * 2 = simp unary_clauses at hx in
    let um : m < 2 ^ w * 2 = simp unary_clauses at hm in
    let halves : bit_and (x / 2) (m / 2) ≡ 0 = omega (arith, bit_and-half x m) in
    let ih = apart-flipped w (x / 2) (m / 2) (omega arith) (omega arith) halves in
    rw flipped_step (
      omega (
        arith,
        ih,
        bit_and-parity x m,
        bit_and-digit x (flipped w (m / 2)) (1 - m % 2) (omega arith),
      ))

-- Numbers of 32 bits that have a bit in common with none of each other.
abbrev pub Apart : ℕ → ℕ → Type 0
Apart a b = has a b ≡ false

pub clear_bits_self : (m : ℕ) → m < 2 ^ 32 → clear_bits m m ≡ 0
clear_bits_self m h = self-flipped 32 m h

pub clear_bits-Apart : (x m : ℕ) → x < 2 ^ 32 → m < 2 ^ 32 → Apart x m → clear_bits x m ≡ x
clear_bits-Apart x m hx hm h = apart-flipped 32 x m hx hm (ground arith)

pub clear_bits-bit_or :
    (a b m : ℕ) → clear_bits (bit_or a b) m ≡ bit_or (clear_bits a m) (clear_bits b m)
clear_bits-bit_or a b m = bit_and-bit_or a b (bit_xor (2 ^ 32 - 1) m)

pub clear_bits-zero : (m : ℕ) → clear_bits 0 m ≡ 0
clear_bits-zero m = zero-bit_and (bit_xor (2 ^ 32 - 1) m)

bit_or_comm_below : (n a b : ℕ) → a ≤ n → b ≤ n → bit_or a b ≡ bit_or b a
bit_or_comm_below zero a b h k =
    let ea : a ≡ 0 = omega arith in let eb : b ≡ 0 = omega arith in rw (ea, eb)
bit_or_comm_below (suc n) a b h k =
    eq_of_halves _ _
      (rw (bit_or-half, bit_or-half)
        (bit_or_comm_below n (a / 2) (b / 2) (omega arith) (omega arith)))
      (omega (arith, bit_or-parity a b, bit_or-parity b a))

pub bit_or_comm : (a b : ℕ) → bit_or a b ≡ bit_or b a
bit_or_comm a b = bit_or_comm_below (a + b) a b (omega arith) (omega arith)

pub bit_or-zero : (a : ℕ) → bit_or a 0 ≡ a
bit_or-zero a = bit_or_comm a 0 ∙ zero-bit_or a

bit_or_assoc_below : (n a b c : ℕ) → a ≤ n → b ≤ n → bit_or (bit_or a b) c ≡ bit_or a (bit_or b c)
bit_or_assoc_below zero a b c h k =
    let ea : a ≡ 0 = omega arith in
    let eb : b ≡ 0 = omega arith in rw (ea, eb) (rw (zero-bit_or, zero-bit_or))
bit_or_assoc_below (suc n) a b c h k =
    eq_of_halves _ _
      (rw (bit_or-half, bit_or-half, bit_or-half, bit_or-half)
        (bit_or_assoc_below n (a / 2) (b / 2) (c / 2) (omega arith) (omega arith)))
      (omega (
        arith,
        bit_or-parity (bit_or a b) c,
        bit_or-parity a b,
        bit_or-parity a (bit_or b c),
        bit_or-parity b c,
      ))

pub bit_or_assoc : (a b c : ℕ) → bit_or (bit_or a b) c ≡ bit_or a (bit_or b c)
bit_or_assoc a b c = bit_or_assoc_below (a + b) a b c (omega arith) (omega arith)

absorb_below : (n a m : ℕ) → a ≤ n → bit_or (bit_and a m) m ≡ m
absorb_below zero a m h = let ea : a ≡ 0 = omega arith in rw (ea, zero-bit_and, zero-bit_or)
absorb_below (suc n) a m h =
    eq_of_halves _ _ (rw (bit_or-half, bit_and-half) (absorb_below n (a / 2) (m / 2) (omega arith)))
      (omega (arith, bit_or-parity (bit_and a m) m, bit_and-parity a m))

-- `(a & m) | m = m`.
pub bit_or_absorb : (a m : ℕ) → bit_or (bit_and a m) m ≡ m
bit_or_absorb a m = absorb_below a a m (omega arith)

-- What is inside a mask and what is outside make up the number.
split_below :
    (w x m : ℕ) → x < 2 ^ w → m < 2 ^ w → bit_or (bit_and x m) (bit_and x (flipped w m)) ≡ x
split_below zero x m hx hm =
    let e : x ≡ 0 = omega arith in rw (e, zero-bit_and m, zero-bit_and (flipped 0 m), zero-bit_or 0)
split_below (suc w) x m hx hm =
    let ux : x < 2 ^ w * 2 = simp unary_clauses at hx in
    let um : m < 2 ^ w * 2 = simp unary_clauses at hm in
    let ih = split_below w (x / 2) (m / 2) (omega arith) (omega arith) in
    let digit = bit_and-digit x (flipped w (m / 2)) (1 - m % 2) (omega arith) in
    let q : bit_and x (flipped w (m / 2) * 2 + (1 - m % 2)) / 2
        ≡ bit_and (x / 2) (flipped w (m / 2)) =
      omega (arith, digit) in
    rw flipped_step (
      eq_of_halves _ _ (rw (bit_or-half, bit_and-half x m, q) ih) (
        omega (
          arith,
          digit,
          bit_or-parity (bit_and x m) (bit_and x (flipped w (m / 2) * 2 + (1 - m % 2))),
          bit_and-parity x m,
        )))

pub mask_split : (x m : ℕ) → x < 2 ^ 32 → m < 2 ^ 32 → bit_or (bit_and x m) (clear_bits x m) ≡ x
mask_split x m hx hm = split_below 32 x m hx hm
