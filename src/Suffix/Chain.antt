-- ===== src/Suffix/Chain.antt =====
-- The chain of links that `__ape_shim_exe_fallback` in shim/suffix.c goes along.
use rust_ape.Prelude.{
  ℕ, zero, suc, ◌+◌, ◌≤◌, ◌<◌, ◌≡◌, refl, true, false, List, [], ◌∷◌, ◌++◌, none, some, ◌==◌,
  length, length-append, arith, ap, ◌∙◌, sym, Bool-cases, Option-cases, inl, inr, ◌⊎◌,
}
use rust_ape.Suffix.{
  Files, Link, unreadable, target, dot_exe, dot_com, contains, dir_of, base_of, probe_suffixes,
  follow, chase, exe_fallback,
}

-- From the first name to the second in this many links.
pub data Reaches (h : Files) : ℕ → List ℕ → List ℕ → Type 0 where
  here : (p : List ℕ) → Reaches h zero p p
  via :
      (n : ℕ) (p q r : List ℕ)
      → follow h p (h.readlink p) ≡ some q
      → Reaches h n q r
      → Reaches h (suc n) p r

-- The second name is a program that the first one may stand for: a regular file, whose name is the
-- first with a suffix, where the first has no dot in its last part; and it fits a buffer of PATH_MAX.
pub record IsProgram (h : Files) (r b : List ℕ) : Type 0 where
  pub regular : h.is_regular b ≡ true
  pub suffix : (b ≡ r ++ dot_exe) ⊎ (b ≡ r ++ dot_com)
  pub bare : contains 46 (base_of r) ≡ false
  pub fits : length b + 1 ≤ h.path_max

probe_suffixes-IsProgram :
    (h : Files) (r b : List ℕ) → probe_suffixes h r ≡ some b → IsProgram h r b
unfolding probe_suffixes
probe_suffixes-IsProgram h r b e =
    let le = length-append r dot_exe in
    let lc = length-append r dot_com in
    elim (Bool-cases (h.is_regular (r ++ dot_exe))) [
      | inl x ↦
          let eb : b ≡ r ++ dot_exe = ground (arith, x, e) in
          record {
            regular = ap h.is_regular eb ∙ x;
            suffix = inl eb;
            bare = ground (arith, e);
            fits = ground (arith, e, ap length eb, le);
          }
      | inr x ↦
          let eb : b ≡ r ++ dot_com = ground (arith, x, e) in
          record {
            regular = ap h.is_regular eb ∙ ground (arith, x, e);
            suffix = inr eb;
            bare = ground (arith, e);
            fits = ground (arith, e, ap length eb, lc);
          }
    ]

follow-fits :
    (h : Files) (cur next : List ℕ) (a : Link)
    → ((t : List ℕ) → a ≡ target t → length t < h.path_max)
    → follow h cur a ≡ some next
    → length next < h.path_max
unfolding follow
follow-fits h cur next unreadable reads e = absurd (ground (arith, e))
follow-fits h cur next (target []) reads e = absurd (ground (arith, e))
follow-fits h cur next (target (x ∷ xs)) reads e = elim (Bool-cases (x == 47)) [
  | inl q ↦
      let same : x ∷ xs ≡ next = ground (arith, q, e) in
      ground (arith, ap length same, reads (x ∷ xs) refl)
  | inr q ↦
      let same : dir_of cur ++ x ∷ xs ≡ next = ground (arith, q, e) in
      ground (arith, q, e, ap length same, length-append (dir_of cur) (x ∷ xs))
]

-- What a chain of fewer than `n` links leads to.
abbrev pub Within : Files → ℕ → List ℕ → (List ℕ → Type 0) → Type 0
Within h n p P = (k : ℕ) × (r : List ℕ) × (k < n) × Reaches h k p r × P r

-- One round, by what it sees.
module _ (h : Files) (n : ℕ) (p : List ℕ) where
  chase-here : (b : List ℕ) → probe_suffixes h p ≡ some b → chase h (suc n) p ≡ some b
  unfolding chase
  chase-here b q = rw (q, chase) refl

  chase-stuck :
      probe_suffixes h p ≡ none → follow h p (h.readlink p) ≡ none → chase h (suc n) p ≡ none
  unfolding chase
  chase-stuck q f = rw (q, f, chase) refl

  chase-next :
      (next : List ℕ)
      → probe_suffixes h p ≡ none
      → follow h p (h.readlink p) ≡ some next
      → chase h (suc n) p ≡ chase h n next
  unfolding chase
  chase-next next q f = rw (q, f, chase) refl

chase-found :
    (h : Files) (n : ℕ) (p b : List ℕ) → chase h n p ≡ some b → Within h n p (λ r. IsProgram h r b)
unfolding chase
chase-found h zero p b e = absurd (ground (arith, e))
chase-found h (suc n) p b e = elim (Option-cases (probe_suffixes h p)) [
  | inr (c, q) ↦
      let same : some c ≡ some b = sym (chase-here h n p c q) ∙ e in
      (0, p, omega arith, here p, probe_suffixes-IsProgram h p b (q ∙ same))
  | inl q ↦ elim (Option-cases (follow h p (h.readlink p))) [
    | inl f ↦ absurd (ground (arith, sym (chase-stuck h n p q f) ∙ e))
    | inr (next, f) ↦
        let (k, r, l, c, is) = chase-found h n next b (sym (chase-next h n p next q f) ∙ e) in
        (suc k, r, omega (arith, l), via k p next r f c, is)
  ]
]

probe-none : (h : Files) (n : ℕ) (p : List ℕ) → chase h (suc n) p ≡ none → probe_suffixes h p ≡ none
probe-none h n p e = elim (Option-cases (probe_suffixes h p)) [
  | inl q ↦ q
  | inr (b, q) ↦ absurd (ground (arith, sym (chase-here h n p b q) ∙ e))
]

chase-none :
    (h : Files) (n : ℕ) {k : ℕ} {p r : List ℕ}
    → Reaches h k p r
    → k < n
    → chase h n p ≡ none
    → probe_suffixes h r ≡ none
chase-none h zero c l e = absurd (omega (arith, l))
chase-none h (suc n) (here p) l e = probe-none h n p e
chase-none h (suc n) (via k p next r f c) l e =
    chase-none h n c (omega (arith, l)) (sym (chase-next h n p next (probe-none h n p e) f) ∙ e)

-- A name of the chain fits the buffer of PATH_MAX that the next round reads, where the first one
-- does and the host reads a link into `PATH_MAX - 1` bytes.
Reaches-fits :
    (h : Files)
    → ((p t : List ℕ) → h.readlink p ≡ target t → length t < h.path_max)
    → {k : ℕ} {p r : List ℕ} → Reaches h k p r
    → length p < h.path_max
    → length r < h.path_max
Reaches-fits h reads (here p) l = l
Reaches-fits h reads (via k p next r f c) l =
    Reaches-fits h reads c (follow-fits h p next (h.readlink p) (reads p) f)

-- A program that the fallback finds stands for a name that the path reaches in fewer than 16 links:
-- it is a regular file, named like that with a suffix, where that has no dot in its last part. Both
-- fit a buffer of PATH_MAX, where the host reads a link into `PATH_MAX - 1` bytes.
pub exe_fallback-found :
    (h : Files) (path b : List ℕ)
    → ((p t : List ℕ) → h.readlink p ≡ target t → length t < h.path_max)
    → exe_fallback h path ≡ some b
    → Within h 16 path (λ r. IsProgram h r b × (length r < h.path_max))
unfolding exe_fallback
exe_fallback-found h path b reads e =
    let u : length path < h.path_max = ground (arith, e) in
    let (k, r, l, c, is) = chase-found h 16 path b (ground (arith, e)) in
    (k, r, l, c, (is, Reaches-fits h reads c u))

-- Where the fallback finds nothing, no name that the path reaches in fewer than 16 links has a
-- program with a suffix; on NT, for a path that is not empty and fits a buffer of PATH_MAX.
pub exe_fallback-none :
    (h : Files) (path r : List ℕ) (k : ℕ)
    → h.is_windows ≡ true
    → 1 ≤ length path
    → length path < h.path_max
    → exe_fallback h path ≡ none
    → k < 16
    → Reaches h k path r
    → probe_suffixes h r ≡ none
unfolding exe_fallback
exe_fallback-none h path r k w l u e lt c = chase-none h 16 c lt (ground (arith, w, e))
