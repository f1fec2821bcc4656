-- ===== src/Termios/Prefix/Chars.antt =====
-- The control characters of shim/termios.c between the two indexings.
use rust_ape.Prelude.{
  ℕ, ◌≡◌, ◌≢◌, ◌<◌, refl, ◌∙◌, ◌⊎◌, inl, inr, Bool, true, false, List, [], ◌∷◌, some, ◌==◌,
  if◌then◌else◌, All, arith, get_or, get_elem?, set, length, replicate, length-set,
  length-replicate, get_or-set, get_or-set_other, All-get_elem?,
}
use rust_ape.Codes.{Row}
use rust_ape.Termios.{
  TermTables, is_count, char_to_host, char_to_linux, in_both, cc_to_host, cc_to_linux,
}

-- The places of the rows differ.
abbrev pub HasPlaces : (Row → ℕ) → List Row → Type 0
HasPlaces place [] = Unit {0}
HasPlaces place (r ∷ rs) = All (λ s. (place s == place r) ≡ false) rs × HasPlaces place rs

-- What both loops are: each row that passes a test stores a value at its place.
module _ (test : Row → Bool) (place value : Row → ℕ) where
  abbrev filled : List Row → List ℕ → List ℕ
  filled [] cc = cc
  filled (r ∷ rs) cc = filled rs (if test r then set cc (place r) (value r) else cc)

  if_set_other :
      (b : Bool) (cc : List ℕ) (i j v : ℕ)
      → (i == j) ≡ false
      → get_or (if b then set cc i v else cc) j 0 ≡ get_or cc j 0
  if_set_other true cc i j v q = get_or-set_other cc i j v 0 q
  if_set_other false cc i j v q = refl

  length-if_set :
      (b : Bool) (cc : List ℕ) (i v : ℕ) → length (if b then set cc i v else cc) ≡ length cc
  length-if_set true cc i v = length-set cc i v
  length-if_set false cc i v = refl

  filled_other :
      (rs : List Row) (cc : List ℕ) (j : ℕ)
      → All (λ s. (place s == j) ≡ false) rs
      → get_or (filled rs cc) j 0 ≡ get_or cc j 0
  filled_other [] cc j d = refl
  filled_other (r ∷ rs) cc j (d, ds) =
      filled_other rs _ j ds ∙ if_set_other (test r) cc (place r) j (value r) d

  filled_there :
      (rs : List Row) (cc : List ℕ) (n : ℕ)
      → length cc ≡ n
      → HasPlaces place rs
      → All (λ s. test s ≡ true → place s < n → get_or (filled rs cc) (place s) 0 ≡ value s) rs
  filled_there [] cc n l h = tt
  filled_there (r ∷ rs) cc n l (h, hs) = (
    λ t lt.
        filled_other rs _ (place r) h ∙ rw t (get_or-set cc (place r) (value r) 0 (omega arith)),
    filled_there rs _ n (length-if_set (test r) cc (place r) (value r) ∙ l) hs,
  )

cc_to_host-filled :
    (c : TermTables) (rs : List Row) (l : List ℕ) (n : ℕ) (cc : List ℕ)
    → cc_to_host c rs l n cc
      ≡ filled (in_both c n) (λ r. r.host) (λ r. char_to_host c r.lin (get_or l r.lin 0)) rs cc
unfolding cc_to_host
cc_to_host-filled c [] l n cc = refl
cc_to_host-filled c (r ∷ rs) l n cc = cc_to_host-filled c rs l n _

cc_to_linux-filled :
    (c : TermTables) (rs : List Row) (l : List ℕ) (n : ℕ) (cc : List ℕ)
    → cc_to_linux c rs l n cc
      ≡ filled (in_both c n) (λ r. r.lin) (λ r. char_to_linux c r.lin (get_or l r.host 0)) rs cc
unfolding cc_to_linux
cc_to_linux-filled c [] l n cc = refl
cc_to_linux-filled c (r ∷ rs) l n cc = cc_to_linux-filled c rs l n _

char_back :
    (c : TermTables) (lin b : ℕ)
    → (b ≢ c.vdisable) ⊎ ((b ≡ 0) ⊎ (is_count lin ≡ true))
    → char_to_linux c lin (char_to_host c lin b) ≡ b
char_back c lin b (inl n) = ground arith
char_back c lin b (inr (inl z)) = ground arith
char_back c lin b (inr (inr k)) = rw k (ground arith)

-- A control character that is translated to the host and back stands where it stood, unless it is the
-- host's sign for a disabled one and is neither 0 nor VMIN or VTIME. It has a row of the table, both of
-- whose places exist, and the rows have places of their own on either side.
pub cc_to_linux-cc_to_host :
    (c : TermTables) (l : List ℕ) (n i : ℕ) (r : Row)
    → HasPlaces (λ r. r.host) c.chars
    → HasPlaces (λ r. r.lin) c.chars
    → get_elem? c.chars i ≡ some r
    → in_both c n r ≡ true
    → (get_or l r.lin 0 ≢ c.vdisable) ⊎ ((get_or l r.lin 0 ≡ 0) ⊎ (is_count r.lin ≡ true))
    → get_or
        (cc_to_linux c c.chars (cc_to_host c c.chars l n (replicate c.nccs 0)) n (replicate n 0))
        r.lin
        0
      ≡ get_or l r.lin 0
cc_to_linux-cc_to_host c l n i r hp lp e b w =
    let hs : List ℕ = cc_to_host c c.chars l n (replicate c.nccs 0) in
    let zeros : List ℕ = replicate c.nccs 0 in
    let blank : List ℕ = replicate n 0 in
    let there : get_or hs r.host 0 ≡ char_to_host c r.lin (get_or l r.lin 0) =
      rw (cc_to_host-filled c c.chars l n zeros) (
        All-get_elem? _ c.chars i r
          (filled_there (in_both c n) (λ s. s.host) (λ s. char_to_host c s.lin (get_or l s.lin 0))
            c.chars zeros c.nccs (length-replicate c.nccs 0) hp)
          e b (ground arith)) in
    let back : get_or (cc_to_linux c c.chars hs n blank) r.lin 0
        ≡ char_to_linux c r.lin (get_or hs r.host 0) =
      rw (cc_to_linux-filled c c.chars hs n blank) (
        All-get_elem? _ c.chars i r
          (filled_there (in_both c n) (λ s. s.lin) (λ s. char_to_linux c s.lin (get_or hs s.host 0))
            c.chars blank n (length-replicate n 0) lp)
          e b (ground arith)) in
    back ∙ rw there (char_back c r.lin (get_or l r.lin 0) w)
