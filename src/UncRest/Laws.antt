-- ===== src/UncRest/Laws.antt =====
-- `__normuncrest` of shim/mkntpath.c, and a walk through the names of a path beside it.
use rust_ape.Prelude.{
  ℕ, ◌≡◌, refl, Bool, true, false, not, ◌&&◌, ◌||◌, List, [], ◌∷◌, if◌then◌else◌, length, arith,
  Bool-cases, inl, inr, ap, ◌∙◌, All,
}
use rust_ape.UncRest.{
  is_sep, pop, write_name, is_nil, is_dot, is_dot_dot, resolve_name, ends_in_sep, norm_rest,
}
use rust_ape.UncRest.InPlace.{starts_in_sep}
use rust_ape.UncRest.Stack.{names, widen, resolve_all, norm_loop-names}

-- A stack of names, the last one first, as it is written.
abbrev pub render : List (List ℕ) → List ℕ
render [] = []
render (n ∷ ns) = write_name n (92 ∷ render ns)

-- How a path is read: "." is nothing, ".." leaves the last directory, or climbs out where there is
-- none, and any other name is entered.
abbrev pub enter : List ℕ → List (List ℕ) × Bool → List (List ℕ) × Bool
enter n (stack, climbed) =
    if is_nil n || is_dot n
    then (stack, climbed)
    else if is_dot_dot n
    then elim stack [ [] ↦ ([], true) | m ∷ ms ↦ (ms, climbed) ]
    else (n ∷ stack, climbed)

abbrev pub enter_all : List (List ℕ) → List (List ℕ) × Bool → List (List ℕ) × Bool
enter_all [] s = s
enter_all (n ∷ ns) s = enter_all ns (enter n s)

-- A name without a separator.
abbrev pub IsName : List ℕ → Type 0
IsName = All (λ c. is_sep c ≡ false)

-- A name that stands for itself.
pub record IsPlain (n : List ℕ) : Type 0 where
  pub name : IsName n
  pub full : is_nil n ≡ false
  pub not_dot : is_dot n ≡ false
  pub not_dot_dot : is_dot_dot n ≡ false

abbrev written : List (List ℕ) × Bool → List ℕ × Bool
written s = (render s.0, s.1)

pop-write_name : (n out : List ℕ) → IsName n → pop (write_name n out) ≡ pop out
unfolding pop write_name
pop-write_name [] out h = refl
pop-write_name (c ∷ n) out h = pop-write_name n (c ∷ out) h.1 ∙ ground (arith, h.0)

write_name-full : (n out : List ℕ) → is_nil out ≡ false → is_nil (write_name n out) ≡ false
unfolding write_name
write_name-full [] out h = h
write_name-full (c ∷ n) out h = write_name-full n (c ∷ out) refl

resolve_name-enter :
    (n : List ℕ) (s : List (List ℕ) × Bool)
    → All IsPlain s.0
    → resolve_name n (written s) ≡ written (enter n s)
unfolding resolve_name pop
resolve_name-enter n ([], climbed) w = ground (arith)
resolve_name-enter n (m ∷ ms, climbed) w =
    ground
      (arith, pop-write_name m (92 ∷ render ms) w.0.name, write_name-full m (92 ∷ render ms) refl)

enter-IsPlain :
    (n : List ℕ) (s : List (List ℕ) × Bool) → IsName n → All IsPlain s.0 → All IsPlain (enter n s).0
enter-IsPlain n (stack, climbed) h w = elim (Bool-cases (is_nil n || is_dot n)) [
  | inl q ↦ rw q w
  | inr q ↦ elim (Bool-cases (is_dot_dot n)) [
    | inl r ↦ rw (q, r) (dropped stack w)
    | inr r ↦
        rw (q, r)
          (
            record {
              name = h;
              full = ground (arith, q);
              not_dot = ground (arith, q);
              not_dot_dot = r;
            },
            w,
          )
  ]
]
  where
    dropped :
        (st : List (List ℕ))
        → All IsPlain st
        → All IsPlain
            (elim st as (λ _. List (List ℕ) × Bool) [ [] ↦ ([], true) | m ∷ ms ↦ (ms, climbed) ]).0
    dropped [] v = v
    dropped (m ∷ ms) v = v.1

names-IsName : (p : List ℕ) → All IsName (names p)
names-IsName [] = (tt, tt)
names-IsName (c ∷ p) = elim (Bool-cases (is_sep c)) [
  | inl q ↦ rw q (tt, names-IsName p)
  | inr q ↦ rw q (wide (names p) (names-IsName p) q)
]
  where
    wide : (ns : List (List ℕ)) → All IsName ns → is_sep c ≡ false → All IsName (widen c ns)
    wide [] h q = ((q, tt), tt)
    wide (n ∷ ns) h q = ((q, h.0), h.1)

enter_all-IsPlain :
    (ns : List (List ℕ)) (s : List (List ℕ) × Bool)
    → All IsName ns
    → All IsPlain s.0
    → All IsPlain (enter_all ns s).0
enter_all-IsPlain [] s h w = w
enter_all-IsPlain (n ∷ ns) s h w = enter_all-IsPlain ns (enter n s) h.1 (enter-IsPlain n s h.0 w)

resolve_all-enter_all :
    (ns : List (List ℕ)) (s : List (List ℕ) × Bool)
    → All IsName ns
    → All IsPlain s.0
    → resolve_all ns (written s) ≡ written (enter_all ns s)
resolve_all-enter_all [] s h w = refl
resolve_all-enter_all (n ∷ ns) s h w =
    ap (resolve_all ns) (resolve_name-enter n s w)
    ∙ resolve_all-enter_all ns (enter n s) h.1 (enter-IsPlain n s h.0 w)

-- `__normuncrest` writes the names that a walk through the path ends with, each after a backslash,
-- and a last backslash where the path had one and a name is left; and it reports a climb exactly
-- where the walk climbs. The text is what follows a root.
pub norm_rest_refines :
    (p : List ℕ)
    → starts_in_sep p ≡ true
    → norm_rest p ≡ (
      if ends_in_sep p && not (is_nil (render (enter_all (names p) ([], false)).0))
          then 92 ∷ render (enter_all (names p) ([], false)).0
          else render (enter_all (names p) ([], false)).0,
      (enter_all (names p) ([], false)).1,
    )
unfolding norm_rest
norm_rest_refines p _ =
    ap (λ (s : List ℕ × Bool). (if ends_in_sep p && not (is_nil s.0) then 92 ∷ s.0 else s.0, s.1))
      (norm_loop-names (length p) p ([], false) (omega arith)
        ∙ resolve_all-enter_all (names p) ([], false) (names-IsName p) tt)

-- What is written is a backslash and a name, over and over, and a last backslash where the path
-- had one: no name is empty, "." or "..", and none has a separator. The text is what follows a
-- root.
pub norm_rest-IsPlain :
    (p : List ℕ)
    → starts_in_sep p ≡ true
    → (ns : List (List ℕ)) × All IsPlain ns
      × ((norm_rest p).0
          ≡ (if ends_in_sep p && not (is_nil (render ns)) then 92 ∷ render ns else render ns))
norm_rest-IsPlain p h = (
  (enter_all (names p) ([], false)).0,
  enter_all-IsPlain (names p) ([], false) (names-IsName p) tt,
  ap (λ s. s.0) (norm_rest_refines p h),
)
