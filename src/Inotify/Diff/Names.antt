-- ===== src/Inotify/Diff/Names.antt =====
-- The order of names by `strcmp`, and sorted listings, in shim/inotify.c.
use rust_ape.Prelude.{
  ℕ, ◌≡◌, refl, Bool, true, false, List, [], ◌∷◌, Option, none, some, if◌then◌else◌, arith, All,
  inl, inr, ◌⊎◌,
}
use rust_ape.Inotify.Diff.{Kid, Sign, below, same, above, strcmp}

pub Sign-cases : (s : Sign) → (s ≡ below) ⊎ ((s ≡ same) ⊎ (s ≡ above))
Sign-cases below = inl refl
Sign-cases same = inr (inl refl)
Sign-cases above = inr (inr refl)

abbrev pub is_same : Sign → Bool
is_same same = true
is_same _ = false

pub strcmp_self : (xs : List ℕ) → strcmp xs xs ≡ same
unfolding strcmp
strcmp_self [] = refl
strcmp_self (x ∷ xs) = ground (arith, strcmp_self xs)

pub strcmp-eq : (xs ys : List ℕ) → strcmp xs ys ≡ same → xs ≡ ys
unfolding strcmp
strcmp-eq [] [] h = refl
strcmp-eq [] (y ∷ ys) h = ground arith
strcmp-eq (x ∷ xs) [] h = ground arith
strcmp-eq (x ∷ xs) (y ∷ ys) h = ground (arith, h, strcmp-eq xs ys)

pub strcmp-flip : (xs ys : List ℕ) → strcmp xs ys ≡ below → strcmp ys xs ≡ above
unfolding strcmp
strcmp-flip [] [] h = ground arith
strcmp-flip [] (y ∷ ys) h = refl
strcmp-flip (x ∷ xs) [] h = ground arith
strcmp-flip (x ∷ xs) (y ∷ ys) h = ground (arith, h, strcmp-flip xs ys)

pub strcmp-flip_above : (xs ys : List ℕ) → strcmp xs ys ≡ above → strcmp ys xs ≡ below
unfolding strcmp
strcmp-flip_above [] [] h = ground arith
strcmp-flip_above [] (y ∷ ys) h = ground arith
strcmp-flip_above (x ∷ xs) [] h = refl
strcmp-flip_above (x ∷ xs) (y ∷ ys) h = ground (arith, h, strcmp-flip_above xs ys)

pub strcmp_trans :
    (xs ys zs : List ℕ) → strcmp xs ys ≡ below → strcmp ys zs ≡ below → strcmp xs zs ≡ below
unfolding strcmp
strcmp_trans [] [] zs h k = ground arith
strcmp_trans [] (y ∷ ys) [] h k = ground arith
strcmp_trans [] (y ∷ ys) (z ∷ zs) h k = refl
strcmp_trans (x ∷ xs) [] zs h k = ground arith
strcmp_trans (x ∷ xs) (y ∷ ys) [] h k = ground arith
strcmp_trans (x ∷ xs) (y ∷ ys) (z ∷ zs) h k = ground (arith, h, k, strcmp_trans xs ys zs)

-- Every kid's name comes after this one.
abbrev pub IsBelow : List ℕ → List Kid → Type 0
IsBelow x = All (λ k. strcmp x k.name ≡ below)

-- A listing after `qsort`: no name stands twice in a directory.
abbrev pub IsSorted : List Kid → Type 0
IsSorted [] = Unit {0}
IsSorted (k ∷ ks) = IsBelow k.name ks × IsSorted ks

-- The entry with this name.
abbrev pub find_kid : List ℕ → List Kid → Option Kid
find_kid x [] = none
find_kid x (k ∷ ks) = if is_same (strcmp k.name x) then some k else find_kid x ks

pub find_kid-IsBelow : (x : List ℕ) (ks : List Kid) → IsBelow x ks → find_kid x ks ≡ none
find_kid-IsBelow x [] h = refl
find_kid-IsBelow x (k ∷ ks) h = ground (arith, strcmp-flip x k.name h.0, find_kid-IsBelow x ks h.1)

pub IsBelow-trans :
    (x y : List ℕ) (ks : List Kid) → strcmp x y ≡ below → IsBelow y ks → IsBelow x ks
IsBelow-trans x y [] l h = tt
IsBelow-trans x y (k ∷ ks) l h = (strcmp_trans x y k.name l h.0, IsBelow-trans x y ks l h.1)

pub is_same-eq : (x y : List ℕ) → is_same (strcmp x y) ≡ true → x ≡ y
is_same-eq x y h = strcmp-eq x y (ground (arith, h))
