-- ===== src/Unc/Spelling.antt =====
-- Paths below one share that are spelled differently, as `UncRootEquals` of shim/mkntpath.c compares them.
use rust_ape.Prelude.{
  ℕ, zero, suc, ◌+◌, ◌≡◌, refl, ◌∙◌, sym, ap, Bool, true, false, ◌&&◌, List, [], ◌∷◌, ◌++◌, ◌==◌,
  length, arith,
}
use rust_ape.Unc.{lower, at, same_char, next_of, root_equals, root_known}
use rust_ape.Unc.Shares.{is_name, IsShare, below}

-- The same name up to the case of its letters.
abbrev pub same_name : List ℕ → List ℕ → Bool
same_name [] [] = true
same_name (a ∷ s) (b ∷ t) = lower a == lower b && same_name s t
same_name _ _ = false

-- The names of the same share in another spelling make a root, too.
pub length-same_name : (s s' : List ℕ) → same_name s s' ≡ true → length s ≡ length s'
length-same_name [] [] e = refl
length-same_name [] (b ∷ s') e = absurd (ground (arith, e))
length-same_name (a ∷ s) [] e = absurd (ground (arith, e))
length-same_name (a ∷ s) (b ∷ s') e = ap suc (length-same_name s s' (ground (arith, e)))

same_name-is_name : (s s' : List ℕ) → same_name s s' ≡ true → is_name s ≡ true → is_name s' ≡ true
same_name-is_name [] [] e n = refl
same_name-is_name [] (b ∷ s') e n = absurd (ground (arith, e))
same_name-is_name (a ∷ s) [] e n = absurd (ground (arith, e))
same_name-is_name (a ∷ s) (b ∷ s') e n = ground (arith, e, n, same_name-is_name s s')

same_name-at : (s s' : List ℕ) (i : ℕ) → same_name s s' ≡ true → lower (at s i) ≡ lower (at s' i)
same_name-at [] [] i e = refl
same_name-at [] (b ∷ s') i e = absurd (ground (arith, e))
same_name-at (a ∷ s) [] i e = absurd (ground (arith, e))
same_name-at (a ∷ s) (b ∷ s') zero e = ground (arith, e)
same_name-at (a ∷ s) (b ∷ s') (suc i) e = same_name-at s s' i (ground (arith, e))

pub same_name-IsShare :
    (server server' share share' : List ℕ)
    → same_name server server' ≡ true
    → same_name share share' ≡ true
    → IsShare server share
    → IsShare server' share'
same_name-IsShare server server' share share' p q v =
    let n = length-same_name server server' p in
    let m = length-same_name share share' q in
    let first = same_name-at server server' 0 p in
    let start = same_name-at share share' 0 q in
    let second = same_name-at share share' 1 q in
    record {
      server_name = same_name-is_name server server' p v.server_name;
      share_name = same_name-is_name share share' q v.share_name;
      server_some = ground (arith, n, v.server_some);
      share_some = ground (arith, m, v.share_some);
      no_device = ground (arith, first, v.no_device);
      no_drive = ground (arith, first, n, v.no_drive);
      no_dots = ground (arith, start, second, m, v.no_dots);
      fits = omega (arith, n, m, v.fits);
    }

-- Alike in the first `n` bytes, for `UncRootEquals`.
unfoldable is_alike : List ℕ → List ℕ → ℕ → Bool
is_alike p q zero = true
is_alike p q (suc n) =
    let rest = is_alike (next_of p) (next_of q) n in same_char (at p 0) (at q 0) && rest

is_alike-append :
    (s s' p q : List ℕ) (n : ℕ)
    → same_name s s' ≡ true
    → is_alike p q n ≡ true
    → is_alike (s ++ p) (s' ++ q) (length s + n) ≡ true
unfolding is_alike
is_alike-append [] [] p q n e h = ap (is_alike p q) (omega arith) ∙ h
is_alike-append [] (b ∷ s') p q n e h = absurd (ground (arith, e))
is_alike-append (a ∷ s) [] p q n e h = absurd (ground (arith, e))
is_alike-append (a ∷ s) (b ∷ s') p q n e h =
    let long : suc (length s) + n ≡ suc (length s + n) = omega arith in
    ap (is_alike (a ∷ s ++ p) (b ∷ s' ++ q)) long
    ∙ ground (arith, e, is_alike-append s s' p q n (ground (arith, e)) h)

same_char_trans : (a b c : ℕ) → same_char a b ≡ true → same_char b c ≡ true → same_char a c ≡ true
same_char_trans a b c h k = ground (arith, h, k)

both_true : (a b : Bool) → (a && b) ≡ true → (a ≡ true) × (b ≡ true)
both_true true b h = (refl, h)
both_true false b h = absurd (ground (arith, h))

root_equals-alike :
    (r p q : List ℕ) (n : ℕ)
    → is_alike p q n ≡ true
    → root_equals r p n ≡ true
    → root_equals r q n ≡ true
unfolding is_alike root_equals
root_equals-alike r p q zero h e = e
root_equals-alike r p q (suc n) h e =
    let (h0, hs) = both_true (same_char (at p 0) (at q 0)) _ h in
    let (e0, es) = both_true (same_char (at r 0) (at p 0)) _ e in
    rw (same_char_trans (at r 0) (at p 0) (at q 0) e0 h0)
      (root_equals-alike (next_of r) (next_of p) (next_of q) n hs es)

root_known-alike :
    (roots : List (List ℕ)) (p q : List ℕ) (n : ℕ)
    → is_alike p q n ≡ true
    → root_known roots p n ≡ true
    → root_known roots q n ≡ true
unfolding root_known
root_known-alike [] p q n h e = e
root_known-alike (r ∷ roots) p q n h e =
    ground (arith, e, root_equals-alike r p q n h, root_known-alike roots p q n h)

shares_alike :
    (share share' t t' : List ℕ)
    → same_name share share' ≡ true
    → is_alike (47 ∷ share ++ t) (47 ∷ share' ++ t') (suc (length share + 0)) ≡ true
unfolding is_alike
shares_alike share share' t t' q = is_alike-append share share' t t' 0 q refl

-- Where the root of a path is known, so is that of any path below the same share.
pub root_known-below :
    (roots : List (List ℕ)) (server server' share share' t t' : List ℕ)
    → same_name server server' ≡ true
    → same_name share share' ≡ true
    → root_known roots (below server share t) (length server + 1 + length share) ≡ true
    → root_known roots (below server' share' t') (length server + 1 + length share) ≡ true
root_known-below roots server server' share share' t t' p q e =
    let size : length server + suc (length share + 0) ≡ length server + 1 + length share =
      omega arith in
    root_known-alike roots (below server share t) (below server' share' t') _
      (ap (is_alike (below server share t) (below server' share' t')) (sym size)
        ∙ is_alike-append server server' (47 ∷ share ++ t) (47 ∷ share' ++ t')
            (suc (length share + 0)) p (shares_alike share share' t t' q))
      e
