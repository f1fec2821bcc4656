-- ===== src/UncRest/InPlace.antt =====
-- The lengths of what `__normuncrest` of shim/mkntpath.c reads and writes.
use rust_ape.Prelude.{
  ℕ, zero, suc, ◌+◌, ◌≤◌, ◌≡◌, refl, Bool, true, false, ◌||◌, List, [], ◌∷◌, if◌then◌else◌, length,
  arith, Bool-cases, inl, inr,
}
use rust_ape.UncRest.{
  is_sep, skip_seps, name_of, after_name, pop, write_name, is_nil, resolve_name, norm_loop,
  ends_in_sep, norm_rest,
}

-- What follows a root is empty or starts with a slash.
abbrev pub starts_in_sep : List ℕ → Bool
starts_in_sep [] = true
starts_in_sep (c ∷ p) = is_sep c

length-pop : (out : List ℕ) → length (pop out) ≤ length out
unfolding pop
length-pop [] = omega arith
length-pop (c ∷ out) = ground (arith, length-pop out)

length-write_name : (n out : List ℕ) → length (write_name n out) ≡ length n + length out
unfolding write_name
length-write_name [] out = omega arith
length-write_name (c ∷ n) out = omega (arith, length-write_name n (c ∷ out))

-- A name and the backslash before it are all that is added.
length-resolve_name :
    (n : List ℕ) (s : List ℕ × Bool)
    → length (resolve_name n s).0 ≤ length s.0 + (if is_nil n then 0 else length n + 1)
unfolding resolve_name
length-resolve_name n (out, climbed) =
    ground (arith, length-pop out, length-write_name n (92 ∷ out))

length-name_of : (p : List ℕ) → length (name_of p) + length (after_name p) ≡ length p
unfolding name_of after_name
length-name_of [] = refl
length-name_of (c ∷ p) = ground (arith, length-name_of p)

length-skip_seps : (p : List ℕ) → length (skip_seps p) ≤ length p
unfolding skip_seps
length-skip_seps [] = omega arith
length-skip_seps (c ∷ p) = ground (arith, length-skip_seps p)

length-skip_seps_lt : (c : ℕ) (p : List ℕ) → is_sep c ≡ true → length (skip_seps (c ∷ p)) ≤ length p
unfolding skip_seps
length-skip_seps_lt c p h = ground (arith, h, length-skip_seps p)

starts-after_name : (p : List ℕ) → starts_in_sep (after_name p) ≡ true
unfolding after_name
starts-after_name [] = refl
starts-after_name (c ∷ p) = ground (arith, starts-after_name p)

-- One round adds no more than it reads.
round-length :
    (c : ℕ) (p : List ℕ) (s : List ℕ × Bool)
    → is_sep c ≡ true
    → let q = skip_seps (c ∷ p) in
      length (resolve_name (name_of q) s).0 + length (after_name q) ≤ length s.0 + length (c ∷ p)
round-length c p s h =
    let q = skip_seps (c ∷ p) in
    ground (arith, length-resolve_name (name_of q) s, length-name_of q, length-skip_seps_lt c p h)

norm_loop-length :
    (n : ℕ) (p : List ℕ) (s : List ℕ × Bool)
    → starts_in_sep p ≡ true
    → length (norm_loop n p s).0 ≤ length s.0 + length p
unfolding norm_loop
norm_loop-length zero p s h = omega arith
norm_loop-length (suc n) [] s h = omega arith
norm_loop-length (suc n) (c ∷ p) s h =
    let q = skip_seps (c ∷ p) in
    omega (
      arith,
      round-length c p s h,
      norm_loop-length n (after_name q) (resolve_name (name_of q) s) (starts-after_name q),
    )

abbrev nil_or_ends : List ℕ → Bool
nil_or_ends p = is_nil p || ends_in_sep p

ends-skip_seps : (p : List ℕ) → nil_or_ends p ≡ true → nil_or_ends (skip_seps p) ≡ true
unfolding skip_seps
ends-skip_seps [] h = refl
ends-skip_seps (c ∷ []) h = ground (arith, h)
ends-skip_seps (c ∷ d ∷ p) h = elim (Bool-cases (is_sep c)) [
  | inl q ↦ rw q (ends-skip_seps (d ∷ p) h)
  | inr q ↦ rw q h
]

-- A text that ends in a separator does not end in a name.
ends-after_name :
    (c : ℕ) (p : List ℕ)
    → ends_in_sep (c ∷ p) ≡ true
    → (is_nil (after_name (c ∷ p)) ≡ false) × (ends_in_sep (after_name (c ∷ p)) ≡ true)
unfolding after_name
ends-after_name c [] h = ground (arith, h)
ends-after_name c (d ∷ p) h = elim (Bool-cases (is_sep c)) [
  | inl q ↦ rw q (refl, h)
  | inr q ↦ rw q (ends-after_name d p h)
]

norm_loop-nothing :
    (n : ℕ) (s : List ℕ × Bool)
    → length (norm_loop n (after_name []) (resolve_name (name_of []) s)).0 ≡ length s.0
unfolding norm_loop after_name name_of resolve_name
norm_loop-nothing zero s = refl
norm_loop-nothing (suc n) s = refl

norm_loop-trailing :
    (n : ℕ) (p : List ℕ) (s : List ℕ × Bool)
    → starts_in_sep p ≡ true
    → ends_in_sep p ≡ true
    → length (norm_loop n p s).0 + 1 ≤ length s.0 + length p
unfolding norm_loop
norm_loop-trailing n [] s h e = absurd (ground (arith, e))
norm_loop-trailing zero (c ∷ p) s h e = omega arith
norm_loop-trailing (suc n) (c ∷ p) s h e =
    go (λ r t. norm_loop-trailing n r t) (skip_seps (c ∷ p)) (ends-skip_seps (c ∷ p) e)
      (round-length c p s h)
  where
    go :
        ((r : List ℕ) (t : List ℕ × Bool)
          → starts_in_sep r ≡ true
          → ends_in_sep r ≡ true
          → length (norm_loop n r t).0 + 1 ≤ length t.0 + length r)
        → (q : List ℕ) → nil_or_ends q ≡ true
        → length (resolve_name (name_of q) s).0 + length (after_name q)
          ≤ length s.0 + length (c ∷ p)
        → length (norm_loop n (after_name q) (resolve_name (name_of q) s)).0 + 1
          ≤ length s.0 + length (c ∷ p)
    go rest [] x l = omega (arith, norm_loop-nothing n s)
    go rest (d ∷ q) x l = omega (
      arith,
      l,
      rest (after_name (d ∷ q)) (resolve_name (name_of (d ∷ q)) s) (starts-after_name (d ∷ q))
          (ends-after_name d q x).1,
    )

-- What follows a root is normalised in place: no more is written than was read, the trailing
-- backslash included.
pub norm_rest-length : (p : List ℕ) → starts_in_sep p ≡ true → length (norm_rest p).0 ≤ length p
unfolding norm_rest
norm_rest-length p h = elim (Bool-cases (ends_in_sep p)) [
  | inl e ↦ ground (arith, e, norm_loop-trailing (length p) p ([], false) h e)
  | inr e ↦ ground (arith, e, norm_loop-length (length p) p ([], false) h)
]
