-- ===== src/Prelude/Unions.antt =====
-- The union of the masks that a choice takes from a list.
use Prim.Native.Nat.{ℕ, ◌^◌, ◌-◌, ◌<◌, bit_and, bit_or, bit_xor}
use mathlib.Core.Path.{◌≡◌, refl, ap, sym, subst, ◌∙◌}
use mathlib.Core.Logic.{◌⊎◌, inl, inr}
use mathlib.Core.Bool.{Bool, true, false}
use mathlib.Core.List.{List, [], ◌∷◌}
use native.Mathlib.Omega.{arith}
use rust_ape.Prelude.Tests.{◌==◌}
use rust_ape.Prelude.Lists.{All}
use rust_ape.Prelude.Bits.{
  has, or_if, clear_bits, has-or_if, has-zero, has_comm, has-bit_and, bit_and-bit_or, bit_and_assoc,
  bit_and_comm, bit_and_self, zero-bit_and, zero-bit_or,
}
use rust_ape.Prelude.Masks.{
  Apart, bit_or_comm, bit_or_assoc, clear_bits-bit_or, clear_bits_self, clear_bits-Apart,
}

pub Apart-zero : (a b : ℕ) → Apart a b → bit_and a b ≡ 0
Apart-zero a b h = ground arith

pub clear_bits-or_if :
    (b : Bool) (k x m : ℕ) → clear_bits (or_if b k x) m ≡ or_if b (clear_bits k m) (clear_bits x m)
clear_bits-or_if true k x m = clear_bits-bit_or x k m
clear_bits-or_if false k x m = refl

-- A mask inside another has nothing in common with what is left when that one is cleared.
pub clear_bits_inside : (x m k : ℕ) → m < 2 ^ 32 → bit_and m k ≡ k → bit_and (clear_bits x m) k ≡ 0
clear_bits_inside x m k lt q =
    let none_left : bit_and (bit_xor (2 ^ 32 - 1) m) m ≡ 0 =
      bit_and_comm (bit_xor (2 ^ 32 - 1) m) m ∙ clear_bits_self m lt in
    ap (λ y. bit_and (clear_bits x m) y) (sym q)
    ∙ rw (
      bit_and_assoc x (bit_xor (2 ^ 32 - 1) m) (bit_and m k),
      sym (bit_and_assoc (bit_xor (2 ^ 32 - 1) m) m k),
      none_left,
      zero-bit_and,
      bit_and_comm x 0,
      zero-bit_and,
    )

-- Clearing a mask takes its own bits and leaves those apart from it.
pub has-clear_bits_self : (x m : ℕ) → m < 2 ^ 32 → has (clear_bits x m) m ≡ false
has-clear_bits_self x m lt = rw (clear_bits_inside x m m lt (bit_and_self m))

pub has-clear_bits :
    (x m k : ℕ) → m < 2 ^ 32 → k < 2 ^ 32 → Apart k m → has (clear_bits x m) k ≡ has x k
has-clear_bits x m k hm hk a =
    let q : bit_and (bit_xor (2 ^ 32 - 1) m) k ≡ k =
      bit_and_comm (bit_xor (2 ^ 32 - 1) m) k ∙ clear_bits-Apart k m hk hm a in
    has-bit_and x (bit_xor (2 ^ 32 - 1) m) k ∙ ap (λ y. has x y) q

-- A conditional `|=` may be put off, or done first.
pub or_if_late : (b : Bool) (k x y : ℕ) → bit_or (or_if b k x) y ≡ bit_or x (or_if b k y)
or_if_late true k x y = bit_or_assoc x k y ∙ ap (λ z. bit_or x z) (bit_or_comm k y)
or_if_late false k x y = refl

pub or_if_last : (b : Bool) (k x y : ℕ) → bit_or (or_if b k x) y ≡ or_if b k (bit_or x y)
or_if_last true k x y = or_if_late true k x y ∙ sym (bit_or_assoc x y k)
or_if_last false k x y = refl

module _ {ℓ} {A : Type ℓ} (bits : A → ℕ) where
  abbrev pub union : (A → Bool) → List A → ℕ
  union p [] = 0
  union p (x ∷ xs) = or_if (p x) (bits x) (union p xs)

  -- No two masks of the list overlap.
  abbrev pub IsSpread : List A → Type ℓ
  IsSpread [] = Unit
  IsSpread (x ∷ xs) = All (λ y. Apart (bits y) (bits x)) xs × IsSpread xs

  -- A union of masks that are apart from another, or not taken, is.
  pub union-Apart :
      (p : A → Bool) (m : ℕ) (xs : List A)
      → All (λ x. (p x ≡ false) ⊎ Apart (bits x) m) xs
      → Apart (union p xs) m
  union-Apart p m [] d = has-zero m
  union-Apart p m (x ∷ xs) (inl q, d) = rw (has-or_if, union-Apart p m xs d, q)
  union-Apart p m (x ∷ xs) (inr a, d) = rw (has-or_if, union-Apart p m xs d, a) (ground arith)

  pub union_same :
      (p q : A → Bool) (xs : List A) → All (λ x. p x ≡ q x) xs → union p xs ≡ union q xs
  union_same p q [] e = refl
  union_same p q (x ∷ xs) (e, es) = rw (e, union_same p q xs es)

  All-inr :
      (p : A → Bool) (m : ℕ) (xs : List A)
      → All (λ x. Apart (bits x) m) xs
      → All (λ x. (p x ≡ false) ⊎ Apart (bits x) m) xs
  All-inr p m [] d = tt
  All-inr p m (x ∷ xs) (a, d) = (inr a, All-inr p m xs d)

  pub union-Apart-All :
      (p : A → Bool) (m : ℕ) (xs : List A) → All (λ x. Apart (bits x) m) xs → Apart (union p xs) m
  union-Apart-All p m xs d = union-Apart p m xs (All-inr p m xs d)

  -- A mask of the list is there in full exactly where it was taken.
  abbrev TakenIn : ℕ → (A → Bool) → A → Type 0
  TakenIn w p y = (bits y == 0) ≡ false → (bit_and w (bits y) == bits y) ≡ p y

  head_taken :
      (p : A → Bool) (x : A) (u acc : ℕ)
      → Apart acc (bits x)
      → Apart u (bits x)
      → TakenIn (bit_or acc (or_if (p x) (bits x) u)) p x
  head_taken p x u acc a b nz = by_choice (p x)
    where
      by_choice : (c : Bool) → (bit_and (bit_or acc (or_if c (bits x) u)) (bits x) == bits x) ≡ c
      by_choice true =
          let q : bit_and (bit_or acc (bit_or u (bits x))) (bits x) ≡ bits x = rw (
            bit_and-bit_or,
            bit_and-bit_or,
            Apart-zero acc (bits x) a,
            Apart-zero u (bits x) b,
            zero-bit_or,
            zero-bit_or,
            bit_and_self,
          ) in
          ground arith
      by_choice false =
          let q : bit_and (bit_or acc u) (bits x) ≡ 0 =
            rw (bit_and-bit_or, Apart-zero acc (bits x) a, Apart-zero u (bits x) b, zero-bit_or) in
          ground arith

  Apart-or_if :
      (b : Bool) (k acc : ℕ) (xs : List A)
      → All (λ y. Apart (bits y) acc) xs
      → All (λ y. Apart (bits y) k) xs
      → All (λ y. Apart (bits y) (or_if b k acc)) xs
  Apart-or_if b k acc [] d e = tt
  Apart-or_if b k acc (y ∷ ys) (d, ds) (e, es) = (
    has_comm (bits y) (or_if b k acc)
        ∙ rw (has-or_if, has_comm acc (bits y), has_comm k (bits y), d, e) (ground arith),
    Apart-or_if b k acc ys ds es,
  )

  pub union_taken :
      (p : A → Bool) (xs : List A) (acc : ℕ)
      → IsSpread xs
      → All (λ y. Apart (bits y) acc) xs
      → All (TakenIn (bit_or acc (union p xs)) p) xs
  union_taken p [] acc s d = tt
  union_taken p (x ∷ xs) acc (s, ss) (d, ds) = (
    head_taken p x (union p xs) acc (has_comm acc (bits x) ∙ d) (union-Apart-All p (bits x) xs s),
    subst (λ w. All (TakenIn w p) xs) (or_if_late (p x) (bits x) acc (union p xs))
        (union_taken p xs (or_if (p x) (bits x) acc) ss (Apart-or_if (p x) (bits x) acc xs ds s)),
  )
