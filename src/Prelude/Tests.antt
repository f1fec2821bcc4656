-- ===== src/Prelude/Tests.antt =====
-- Boolean tests on the native numbers, the conditional, and the signed reading of a C `int`,
-- which the model keeps as its 32-bit pattern.
use Prim.Native.Nat.{ℕ, ◌≤◌, ◌<◌, ◌-◌, ◌^◌, compare, Ordering}
use mathlib.Core.Path.{◌≡◌, refl}
use mathlib.Core.Logic.{◌↔◌, ◌≢◌, ◌⊎◌, inl, inr}
use mathlib.Core.Bool.{Bool, true, false, not, ◌||◌}
use mathlib.Core.Option.{Option, none, some}
use native.Mathlib.Omega.{arith}

abbrev pub ltb : ℕ → ℕ → Bool
ltb a b = elim (compare a b) [ Ordering.lt ↦ true | _ ↦ false ]

abbrev pub leb : ℕ → ℕ → Bool
leb a b = elim (compare a b) [ Ordering.gt ↦ false | _ ↦ true ]

infix 50 ◌==◌
abbrev pub ◌==◌ : ℕ → ℕ → Bool
a == b = elim (compare a b) [ Ordering.eq ↦ true | _ ↦ false ]

infix 1 if◌then◌else◌
abbrev pub if◌then◌else◌ {ℓ} : {A : Type ℓ} → Bool → A → A → A
if true then x else y = x
if false then x else y = y

pub ltb→lt : (a b : ℕ) → ltb a b ≡ true → a < b
ltb→lt a b h = ground arith

pub leb→le : (a b : ℕ) → leb a b ≡ true → a ≤ b
leb→le a b h = ground arith

pub ==_iff : (a b : ℕ) → ((a == b) ≡ true) ↔ (a ≡ b)
==_iff a b = ground arith

pub ==_self : (a : ℕ) → (a == a) ≡ true
==_self a = ground arith

pub ==_false_of_ne : (a b : ℕ) → a ≢ b → (a == b) ≡ false
==_false_of_ne a b h = ground arith

-- To split on a computed value and keep the equation.
pub Bool-cases : (b : Bool) → (b ≡ true) ⊎ (b ≡ false)
Bool-cases true = inl refl
Bool-cases false = inr refl

pub Option-cases {ℓ} : {A : Type ℓ} (o : Option A) → (o ≡ none) ⊎ ((a : A) × (o ≡ some a))
Option-cases none = inl refl
Option-cases (some a) = inr (a, refl)

-- Where the first test passes, so does the second.
abbrev pub implies : Bool → Bool → Bool
implies a b = not a || b

-- `x < 0` for a C `int` kept as its bit pattern.
abbrev pub negative : ℕ → Bool
negative x = leb (2 ^ 31) x

-- `x <= 0` for a C `int` kept as its bit pattern.
abbrev pub nonpositive : ℕ → Bool
nonpositive x = negative x || x == 0

-- `-1` as a C `int`.
abbrev pub minus_one : ℕ
minus_one = 2 ^ 32 - 1
