-- ===== src/UncRest/Stack.antt =====
-- The names of a path, and the outer loop of `__normuncrest` in shim/mkntpath.c.
use rust_ape.Prelude.{
  ℕ, zero, suc, ◌≤◌, ◌≡◌, refl, Bool, List, [], ◌∷◌, if◌then◌else◌, length, arith, Bool-cases, inl,
  inr, ap, ◌∙◌, sym,
}
use rust_ape.UncRest.{is_sep, skip_seps, name_of, after_name, resolve_name, norm_loop}

-- A character in front of the first name.
abbrev pub widen : ℕ → List (List ℕ) → List (List ℕ)
widen c [] = (c ∷ []) ∷ []
widen c (n ∷ ns) = (c ∷ n) ∷ ns

-- The names between the separators, empty ones too.
abbrev pub names : List ℕ → List (List ℕ)
names [] = [] ∷ []
names (c ∷ p) = if is_sep c then [] ∷ names p else widen c (names p)

-- One name after the other.
abbrev pub resolve_all : List (List ℕ) → List ℕ × Bool → List ℕ × Bool
resolve_all [] s = s
resolve_all (n ∷ ns) s = resolve_all ns (resolve_name n s)

resolve_name-empty : (s : List ℕ × Bool) → resolve_name [] s ≡ s
unfolding resolve_name
resolve_name-empty (out, climbed) = refl

resolve_all-skip_seps :
    (p : List ℕ) (s : List ℕ × Bool) → resolve_all (names (skip_seps p)) s ≡ resolve_all (names p) s
unfolding skip_seps
resolve_all-skip_seps [] s = refl
resolve_all-skip_seps (c ∷ p) s = elim (Bool-cases (is_sep c)) [
  | inl q ↦
      rw q (resolve_all-skip_seps p s ∙ ap (resolve_all (names p)) (sym (resolve_name-empty s)))
  | inr q ↦ ground (arith, q)
]

-- The names after the first.
abbrev others : List (List ℕ) → List (List ℕ)
others [] = []
others (n ∷ ns) = ns

names-widen :
    (ns : List (List ℕ)) (c : ℕ) (n : List ℕ) (ms : List (List ℕ))
    → ns ≡ n ∷ ms
    → widen c ns ≡ (c ∷ n) ∷ ms
names-widen ns c n ms e = ap (widen c) e

names-split : (p : List ℕ) → names p ≡ name_of p ∷ others (names (after_name p))
unfolding name_of after_name
names-split [] = refl
names-split (c ∷ p) = elim (Bool-cases (is_sep c)) [
  | inl q ↦ ground (arith, q)
  | inr q ↦ rw q (names-widen (names p) c (name_of p) _ (names-split p))
]

-- What is left after a name is empty, or starts with a separator.
names-after_name : (p : List ℕ) → names (after_name p) ≡ [] ∷ others (names (after_name p))
unfolding after_name
names-after_name [] = refl
names-after_name (c ∷ p) = elim (Bool-cases (is_sep c)) [
  | inl q ↦ ground (arith, q)
  | inr q ↦ rw q (names-after_name p)
]

resolve_all-first :
    (p : List ℕ) (s : List ℕ × Bool)
    → resolve_all (names (after_name p)) (resolve_name (name_of p) s) ≡ resolve_all (names p) s
resolve_all-first p s =
    ap (λ ns. resolve_all ns (resolve_name (name_of p) s)) (names-after_name p)
    ∙ ap (resolve_all (others (names (after_name p))))
        (resolve_name-empty (resolve_name (name_of p) s))
    ∙ ap (λ ns. resolve_all ns s) (sym (names-split p))

length-after_name : (p : List ℕ) → length (after_name p) ≤ length p
unfolding after_name
length-after_name [] = omega arith
length-after_name (c ∷ p) = ground (arith, length-after_name p)

length-skip_seps : (p : List ℕ) → length (skip_seps p) ≤ length p
unfolding skip_seps
length-skip_seps [] = omega arith
length-skip_seps (c ∷ p) = ground (arith, length-skip_seps p)

-- Every round gets shorter.
round-shorter : (c : ℕ) (p : List ℕ) → length (after_name (skip_seps (c ∷ p))) ≤ length p
unfolding skip_seps after_name
round-shorter c p = elim (Bool-cases (is_sep c)) [
  | inl q ↦ rw q (omega (arith, length-skip_seps p, length-after_name (skip_seps p)))
  | inr q ↦ rw (q, q) (length-after_name p)
]

-- The loop resolves one name after the other, where it has fuel for every character.
pub norm_loop-names :
    (n : ℕ) (p : List ℕ) (s : List ℕ × Bool)
    → length p ≤ n
    → norm_loop n p s ≡ resolve_all (names p) s
unfolding norm_loop
norm_loop-names zero [] s h = sym (resolve_name-empty s)
norm_loop-names zero (c ∷ p) s h = absurd (omega arith)
norm_loop-names (suc n) [] s h = sym (resolve_name-empty s)
norm_loop-names (suc n) (c ∷ p) s h =
    let q = skip_seps (c ∷ p) in
    norm_loop-names n (after_name q) (resolve_name (name_of q) s) (omega (arith, round-shorter c p))
    ∙ resolve_all-first q s
    ∙ resolve_all-skip_seps (c ∷ p) s
