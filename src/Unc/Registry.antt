-- ===== src/Unc/Registry.antt =====
-- The registry of UNC roots in shim/mkntpath.c: `unc_note` and `is_collapsed`.
use rust_ape.Prelude.{
  ℕ, zero, suc, ◌+◌, ◌≤◌, ◌<◌, ◌≡◌, refl, ap, sym, ◌∙◌, true, false, not, ◌&&◌, ◌||◌, List, [], ◌∷◌,
  ◌++◌, ltb, ◌==◌, length, length-append, take, drop, arith, All, All-append, Any, Bool-cases, inl,
  inr,
}
use rust_ape.Unc.Shares.{IsShare, ends_name, below, unc_root_len-below}
use rust_ape.Unc.Spelling.{same_name, same_name-IsShare, length-same_name, root_known-below}
use rust_ape.Unc.{
  is_slash, is_alpha, unc_root_max, unc_root_len_max, at, name_len, share_end, unc_root_len,
  root_equals, root_known, store_root, unc_note, is_empty_roots, is_collapsed,
}

name_len-le : (p : List ℕ) → name_len p ≤ length p
unfolding name_len
name_len-le [] = omega arith
name_len-le (c ∷ p) = ground (arith, name_len-le p)

length-drop : (i : ℕ) (p : List ℕ) → i ≤ length p → i + length (drop i p) ≡ length p
length-drop zero p h = omega arith
length-drop (suc i) [] h = absurd (omega arith)
length-drop (suc i) (c ∷ p) h = omega (arith, length-drop i p (omega arith))

at-inside : (p : List ℕ) (i : ℕ) → (at p i == 0) ≡ false → i < length p
at-inside [] i h = absurd (ground (arith, h))
at-inside (c ∷ p) zero h = omega arith
at-inside (c ∷ p) (suc i) h = omega (arith, at-inside p i h)

share_end-le :
    (p : List ℕ) (i : ℕ) → i ≤ length p → (share_end p i ≤ length p) × (share_end p i < 256)
unfolding share_end
share_end-le p i h = ground (arith, name_len-le (drop i p), length-drop i p h)

slash-inside : (p : List ℕ) (i : ℕ) → is_slash (at p i) ≡ true → i < length p
slash-inside p i h = at-inside p i (ground (arith, h))

unc_root_len-le : (p : List ℕ) → (unc_root_len p ≤ length p) × (unc_root_len p < 256)
unfolding unc_root_len
unc_root_len-le p = elim (Bool-cases (is_slash (at p (name_len p)))) [
  | inl s ↦
      ground
        (arith, s, share_end-le p (name_len p + 1) (omega (arith, slash-inside p (name_len p) s)))
  | inr s ↦ ground (arith, s)
]

root_equals-take : (p : List ℕ) (n : ℕ) → n ≤ length p → root_equals (take n p) p n ≡ true
unfolding root_equals
root_equals-take p zero h = refl
root_equals-take [] (suc n) h = absurd (omega arith)
root_equals-take (c ∷ p) (suc n) h = ground (arith, root_equals-take p n (omega arith))

root_known-append :
    (roots : List (List ℕ)) (r p : List ℕ) (n : ℕ)
    → root_known (roots ++ (r ∷ [])) p n ≡ (root_known roots p n || root_equals r p n)
unfolding root_known
root_known-append [] r p n = ground arith
root_known-append (x ∷ roots) r p n = ground (arith, root_known-append roots r p n)

length-take_le : (n : ℕ) (p : List ℕ) → length (take n p) ≤ n
length-take_le zero p = omega arith
length-take_le (suc n) [] = omega arith
length-take_le (suc n) (c ∷ p) = omega (arith, length-take_le n p)

-- The registry fits its array: 16 entries of less than 256 bytes.
pub record IsRegistry (roots : List (List ℕ)) : Type 0 where
  pub few : length roots ≤ unc_root_max
  pub short : All (λ r. length r < unc_root_len_max) roots

store_root-IsRegistry :
    (p : List ℕ) (n : ℕ) (roots : List (List ℕ))
    → n < unc_root_len_max
    → IsRegistry roots
    → IsRegistry (store_root p n roots)
unfolding store_root
store_root-IsRegistry p n roots h w =
    elim (Bool-cases (not (root_known roots p n) && ltb (length roots) unc_root_max)) [
      | inl l ↦ rw l (record {
        few = ground (arith, length-append roots (take n p ∷ []), l);
        short =
            All-append _ roots (take n p ∷ []) w.short (omega (arith, h, length-take_le n p), tt);
      })
      | inr l ↦ rw l w
    ]

-- No path, and nothing that other threads add meanwhile, makes the registry outgrow its array.
pub unc_note-IsRegistry :
    (others : List (List ℕ) → List (List ℕ)) (path : List ℕ) (roots : List (List ℕ))
    → IsRegistry roots
    → IsRegistry (others roots)
    → IsRegistry (unc_note others path roots)
unfolding unc_note
unc_note-IsRegistry others path roots w v =
    let p = drop 2 path in
    let n = unc_root_len p in
    let stored = store_root-IsRegistry p n (others roots) (unc_root_len-le p).1 v in
    elim (Bool-cases (not (is_slash (at path 0)) || not (is_slash (at path 1)))) [
      | inl q ↦ rw q w
      | inr q ↦ elim (Bool-cases (n == 0 || root_known roots p n)) [
        | inl r ↦ rw (q, r) w
        | inr r ↦ rw (q, r) stored
      ]
    ]

store_root-known :
    (p : List ℕ) (n : ℕ) (roots : List (List ℕ))
    → n ≤ length p
    → length roots < unc_root_max
    → root_known (store_root p n roots) p n ≡ true
unfolding store_root
store_root-known p n roots h room = elim (Bool-cases (root_known roots p n)) [
  | inl k ↦ ground (arith, k)
  | inr k ↦ ground (arith, k, room, root_known-append roots (take n p) p n, root_equals-take p n h)
]

-- A share that has been noted is known from then on, where the registry had room.
pub unc_note-known :
    (others : List (List ℕ) → List (List ℕ)) (p : List ℕ) (roots : List (List ℕ))
    → (unc_root_len p == 0) ≡ false
    → length (others roots) < unc_root_max
    → root_known (unc_note others (47 ∷ 47 ∷ p) roots) p (unc_root_len p) ≡ true
unfolding unc_note
unc_note-known others p roots h room = elim (Bool-cases (root_known roots p (unc_root_len p))) [
  | inl k ↦ ground (arith, h, k)
  | inr k ↦
      ground
        (arith, h, k, store_root-known p (unc_root_len p) (others roots) (unc_root_len-le p).0 room)
]

root_known-nonempty :
    (roots : List (List ℕ)) (p : List ℕ) (n : ℕ)
    → root_known roots p n ≡ true
    → is_empty_roots roots ≡ false
unfolding root_known
root_known-nonempty [] p n h = absurd (ground (arith, h))
root_known-nonempty (r ∷ roots) p n h = refl

unc_root_len-first : (p : List ℕ) → (unc_root_len p == 0) ≡ false → is_slash (at p 0) ≡ false
unfolding unc_root_len
unc_root_len-first p h = ground (arith, h)

is_collapsed-known :
    (p : List ℕ) (roots : List (List ℕ))
    → (unc_root_len p == 0) ≡ false
    → (is_alpha (at p 0) && (is_slash (at p 1) || at p 1 == 0)) ≡ false
    → root_known roots p (unc_root_len p) ≡ true
    → is_collapsed roots (47 ∷ p) ≡ true
unfolding is_collapsed
is_collapsed-known p roots h d k =
    ground (arith, h, d, k, unc_root_len-first p h, root_known-nonempty roots p (unc_root_len p) k)

drive-below :
    (server share t : List ℕ)
    → IsShare server share
    → (is_alpha (at (below server share t) 0)
        && (is_slash (at (below server share t) 1) || at (below server share t) 1 == 0))
      ≡ false
drive-below [] share t v = absurd (ground (arith, v.server_some))
drive-below (a ∷ []) share t v = ground (arith, v.no_drive)
drive-below (a ∷ b ∷ server) share t v = ground (arith, v.server_name)

-- Once a path below a share has been noted, every path below that share is recognised after its two
-- leading slashes have been collapsed into one, whatever the case of its letters and whatever follows the
-- share's name in either path. The registry has room when the share is noted; the names are a server's and
-- a share's, the server being no single letter, which names a drive.
pub is_collapsed-unc_note :
    (others : List (List ℕ) → List (List ℕ)) (server server' share share' t t' : List ℕ)
    (roots : List (List ℕ))
    → IsShare server share
    → same_name server server' ≡ true
    → same_name share share' ≡ true
    → ends_name t ≡ true
    → ends_name t' ≡ true
    → length (others roots) < unc_root_max
    → is_collapsed
        (unc_note others (47 ∷ 47 ∷ below server share t) roots)
        (47 ∷ below server' share' t')
      ≡ true
is_collapsed-unc_note others server server' share share' t t' roots v p q e e' room =
    let x = below server share t in
    let y = below server' share' t' in
    let v' = same_name-IsShare server server' share share' p q v in
    let n = unc_root_len-below server share t v e in
    let n' = unc_root_len-below server' share' t' v' e' in
    let same : unc_root_len y ≡ length server + 1 + length share =
      omega (arith, n', length-same_name server server' p, length-same_name share share' q) in
    let noted = unc_note others (47 ∷ 47 ∷ x) roots in
    let known = unc_note-known others x roots (ground (arith, n)) room in
    is_collapsed-known y noted (ground (arith, n')) (drive-below server' share' t' v') (
      ap (root_known noted y) same
      ∙ root_known-below noted server server' share share' t t' p q
          (ap (root_known noted x) (sym n) ∙ known))

root_known-equals :
    (roots : List (List ℕ)) (p : List ℕ) (n : ℕ)
    → root_known roots p n ≡ true
    → Any (λ r. root_equals r p n ≡ true) roots
unfolding root_known
root_known-equals [] p n h = absurd (ground (arith, h))
root_known-equals (r ∷ roots) p n h = elim (Bool-cases (root_equals r p n)) [
  | inl e ↦ inl e
  | inr e ↦ inr (root_known-equals roots p n (ground (arith, e, h)))
]

-- An ordinary rooted path is never taken for a share: where a path with a share's shape is
-- recognised, its first two names are those of a root in the registry.
pub is_collapsed_registered :
    (p : List ℕ) (roots : List (List ℕ))
    → (unc_root_len p == 0) ≡ false
    → is_collapsed roots (47 ∷ p) ≡ true
    → Any (λ r. root_equals r p (unc_root_len p) ≡ true) roots
unfolding is_collapsed
is_collapsed_registered p roots h e = elim (Bool-cases (root_known roots p (unc_root_len p))) [
  | inl k ↦ root_known-equals roots p (unc_root_len p) k
  | inr k ↦ absurd (ground (arith, h, k, e))
]
