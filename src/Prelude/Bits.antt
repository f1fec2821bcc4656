-- ===== src/Prelude/Bits.antt =====
-- Masks: the laws of `&` and `|` that flag translations use, from the digit recursion that the
-- native operations stand for.
use Prim.Native.Nat.{
  ℕ, zero, suc, ◌+◌, ◌-◌, ◌*◌, ◌/◌, ◌%◌, ◌^◌, ◌≤◌, min, max, bit_and, bit_or, bit_xor, digits,
  bit_and-bitwise, bit_or-bitwise,
}
use mathlib.Core.Path.{◌≡◌, refl, ap}
use mathlib.Core.Bool.{Bool, true, false, not, ◌||◌, ◌&&◌}
use native.Mathlib.Omega.{arith}
use rust_ape.Prelude.Tests.{◌==◌, if◌then◌else◌}

-- `x & m` as a C condition.
abbrev pub has : ℕ → ℕ → Bool
has x m = not (bit_and x m == 0)

-- `if (b) x |= m;`
abbrev pub or_if : Bool → ℕ → ℕ → ℕ
or_if b m x = if b then bit_or x m else x

-- `x & ~m` on `uint32_t`.
abbrev pub clear_bits : ℕ → ℕ → ℕ
clear_bits x m = bit_and x (bit_xor (2 ^ 32 - 1) m)

-- One equation for the lowest digit of a bitwise operation, whatever fuel its meaning runs on.
module _ (base : ℕ → ℕ) (digit : ℕ → ℕ → ℕ) where
  pub digits-fuel :
      (x k l y : ℕ) → x ≤ k → x ≤ l → digits base digit k x y ≡ digits base digit l x y
  digits-fuel zero zero zero y p q = refl
  digits-fuel zero zero (suc l) y p q = refl
  digits-fuel zero (suc k) zero y p q = refl
  digits-fuel zero (suc k) (suc l) y p q = refl
  digits-fuel (suc x) zero l y p q = absurd (omega arith)
  digits-fuel (suc x) (suc k) zero y p q = absurd (omega arith)
  digits-fuel (suc x) (suc k) (suc l) y p q =
      ap (λ high. high * 2 + digit (suc x % 2) (y % 2))
        (digits-fuel (suc x / 2) k l (y / 2) (omega arith) (omega arith))

pub bit_and_step : (x y : ℕ) → bit_and x y ≡ bit_and (x / 2) (y / 2) * 2 + min (x % 2) (y % 2)
bit_and_step zero y = omega (arith, bit_and-bitwise 0 (y / 2), bit_and-bitwise 0 y)
bit_and_step (suc x) y =
    let half = suc x / 2 in
    omega (
      arith,
      digits-fuel (λ _. zero) min half x half (y / 2) (omega arith) (omega arith),
      bit_and-bitwise half (y / 2),
      bit_and-bitwise (suc x) y,
    )

pub bit_or_step : (x y : ℕ) → bit_or x y ≡ bit_or (x / 2) (y / 2) * 2 + max (x % 2) (y % 2)
bit_or_step zero y = omega (arith, bit_or-bitwise 0 (y / 2), bit_or-bitwise 0 y)
bit_or_step (suc x) y =
    let half = suc x / 2 in
    omega (
      arith,
      digits-fuel (λ rest. rest) max half x half (y / 2) (omega arith) (omega arith),
      bit_or-bitwise half (y / 2),
      bit_or-bitwise (suc x) y,
    )

pub zero-bit_and : (m : ℕ) → bit_and 0 m ≡ 0
zero-bit_and m = bit_and-bitwise 0 m

pub zero-bit_or : (m : ℕ) → bit_or 0 m ≡ m
zero-bit_or m = bit_or-bitwise 0 m

-- Half of the result is the operation on the halves.
pub bit_and-half : (a b : ℕ) → bit_and a b / 2 ≡ bit_and (a / 2) (b / 2)
bit_and-half a b = omega (arith, bit_and_step a b)

pub bit_or-half : (a b : ℕ) → bit_or a b / 2 ≡ bit_or (a / 2) (b / 2)
bit_or-half a b = omega (arith, bit_or_step a b)

pub bit_and-parity : (a b : ℕ) → bit_and a b % 2 ≡ min (a % 2) (b % 2)
bit_and-parity a b = omega (arith, bit_and_step a b)

pub bit_or-parity : (a b : ℕ) → bit_or a b % 2 ≡ max (a % 2) (b % 2)
bit_or-parity a b = omega (arith, bit_or_step a b)

pub eq_of_halves : (x y : ℕ) → x / 2 ≡ y / 2 → x % 2 ≡ y % 2 → x ≡ y
eq_of_halves x y h k = omega arith

-- `&` distributes over `|`.
bit_and-bit_or_below :
    (n a b m : ℕ) → a ≤ n → b ≤ n → bit_and (bit_or a b) m ≡ bit_or (bit_and a m) (bit_and b m)
bit_and-bit_or_below zero a b m h k =
    let ea : a ≡ 0 = omega arith in
    let eb : b ≡ 0 = omega arith in rw (ea, eb) (rw (zero-bit_or, zero-bit_and, zero-bit_or))
bit_and-bit_or_below (suc n) a b m h k =
    eq_of_halves _ _
      (rw (bit_and-half, bit_or-half, bit_or-half, bit_and-half, bit_and-half)
        (bit_and-bit_or_below n (a / 2) (b / 2) (m / 2) (omega arith) (omega arith)))
      (omega (
        arith,
        bit_and-parity (bit_or a b) m,
        bit_or-parity a b,
        bit_or-parity (bit_and a m) (bit_and b m),
        bit_and-parity a m,
        bit_and-parity b m,
      ))

pub bit_and-bit_or : (a b m : ℕ) → bit_and (bit_or a b) m ≡ bit_or (bit_and a m) (bit_and b m)
bit_and-bit_or a b m = bit_and-bit_or_below (a + b) a b m (omega arith) (omega arith)

-- `(a & k) & m = a & (k & m)`.
bit_and_assoc_below : (n a k m : ℕ) → a ≤ n → bit_and (bit_and a k) m ≡ bit_and a (bit_and k m)
bit_and_assoc_below zero a k m h =
    let ea : a ≡ 0 = omega arith in rw ea (rw (zero-bit_and, zero-bit_and, zero-bit_and))
bit_and_assoc_below (suc n) a k m h =
    eq_of_halves _ _
      (rw (bit_and-half, bit_and-half, bit_and-half, bit_and-half)
        (bit_and_assoc_below n (a / 2) (k / 2) (m / 2) (omega arith)))
      (omega (
        arith,
        bit_and-parity (bit_and a k) m,
        bit_and-parity a k,
        bit_and-parity a (bit_and k m),
        bit_and-parity k m,
      ))

pub bit_and_assoc : (a k m : ℕ) → bit_and (bit_and a k) m ≡ bit_and a (bit_and k m)
bit_and_assoc a k m = bit_and_assoc_below a a k m (omega arith)

bit_and_self_below : (n a : ℕ) → a ≤ n → bit_and a a ≡ a
bit_and_self_below zero a h = let ea : a ≡ 0 = omega arith in rw ea (zero-bit_and 0)
bit_and_self_below (suc n) a h =
    eq_of_halves _ _ (rw bit_and-half (bit_and_self_below n (a / 2) (omega arith)))
      (omega (arith, bit_and-parity a a))

pub bit_and_self : (a : ℕ) → bit_and a a ≡ a
bit_and_self a = bit_and_self_below a a (omega arith)

-- `a | b` is zero only if both are.
bit_or-ge_below : (n a b : ℕ) → a ≤ n → b ≤ n → (a ≤ bit_or a b) × (b ≤ bit_or a b)
bit_or-ge_below zero a b h k = omega arith
bit_or-ge_below (suc n) a b h k =
    omega (arith, bit_or_step a b, bit_or-ge_below n (a / 2) (b / 2) (omega arith) (omega arith))

pub bit_or-ge : (a b : ℕ) → (a ≤ bit_or a b) × (b ≤ bit_or a b)
bit_or-ge a b = bit_or-ge_below (a + b) a b (omega arith) (omega arith)

-- A test of `a | b` is the tests of `a` and of `b`.
pub has-bit_or : (a b m : ℕ) → has (bit_or a b) m ≡ (has a m || has b m)
has-bit_or a b m =
    ground (arith, bit_and-bit_or a b m, bit_or-ge (bit_and a m) (bit_and b m), zero-bit_or 0)

pub has-zero : (m : ℕ) → has 0 m ≡ false
has-zero m = ground (arith, zero-bit_and m)

-- A test of a conditional `|=`.
pub has-or_if : (b : Bool) (k x m : ℕ) → has (or_if b k x) m ≡ (has x m || (b && has k m))
has-or_if true k x m = has-bit_or x k m
has-or_if false k x m = ground arith

bit_and_comm_below : (n a b : ℕ) → a ≤ n → b ≤ n → bit_and a b ≡ bit_and b a
bit_and_comm_below zero a b h k =
    let ea : a ≡ 0 = omega arith in let eb : b ≡ 0 = omega arith in rw (ea, eb)
bit_and_comm_below (suc n) a b h k =
    eq_of_halves _ _
      (rw (bit_and-half, bit_and-half)
        (bit_and_comm_below n (a / 2) (b / 2) (omega arith) (omega arith)))
      (omega (arith, bit_and-parity a b, bit_and-parity b a))

pub bit_and_comm : (a b : ℕ) → bit_and a b ≡ bit_and b a
bit_and_comm a b = bit_and_comm_below (a + b) a b (omega arith) (omega arith)

pub has_comm : (a b : ℕ) → has a b ≡ has b a
has_comm a b = rw (bit_and_comm a b)

-- A test with a union of masks is the tests with each.
pub has-mask : (x a b : ℕ) → has x (bit_or a b) ≡ (has x a || has x b)
has-mask x a b = rw (has_comm x (bit_or a b), has_comm x a, has_comm x b) (has-bit_or a b x)

pub has-bit_and : (a k m : ℕ) → has (bit_and a k) m ≡ has a (bit_and k m)
has-bit_and a k m = rw (bit_and_assoc a k m)

-- A set bit of an intersection is set in both.
pub has-bit_and_le : (a k m : ℕ) → has (bit_and a k) m ≡ true → (has a m ≡ true) × (has k m ≡ true)
has-bit_and_le a k m h = ground (
  arith,
  bit_and_assoc a k m,
  bit_and_comm k m,
  bit_and_assoc a m k,
  zero-bit_and k,
  bit_and_comm a 0,
  zero-bit_and a,
)

pub has_self : (m : ℕ) → (m == 0) ≡ false → has m m ≡ true
has_self m h = rw (bit_and_self m, h)
