-- ===== src/Epoll/Interest/Lookup.antt =====
-- How `find_entry` reads an interest list after a store, an append or a removal.
use rust_ape.Prelude.{
  ℕ, ◌+◌, ◌≤◌, ◌≡◌, refl, List, [], ◌∷◌, ◌++◌, none, some, ◌==◌, if◌then◌else◌, length, last,
  drop_last, inl, inr, subst, ◌⊎◌, ◌≢◌, arith, drop_last-append-last, sym, ap,
}
use rust_ape.Epoll.Interest.{chop, Entry, find_entry, update_entry, delete_entry}

-- How many entries claim this fd.
abbrev pub fd_count : ℕ → List Entry → ℕ
fd_count fd [] = 0
fd_count fd (e ∷ es) = (if e.fd == fd then 1 else 0) + fd_count fd es

-- No two entries claim one fd.
abbrev pub IsDistinct : List Entry → Type 0
IsDistinct es = (fd : ℕ) → fd_count fd es ≤ 1

pub fd_count-append :
    (fd : ℕ) (es fs : List Entry) → fd_count fd (es ++ fs) ≡ fd_count fd es + fd_count fd fs
fd_count-append fd [] fs = omega arith
fd_count-append fd (e ∷ es) fs = omega (arith, fd_count-append fd es fs)

-- An entry is found exactly where one claims the fd.
pub find-none_iff : (es : List Entry) (fd : ℕ) → find_entry es fd ≡ none → fd_count fd es ≡ 0
unfolding find_entry
find-none_iff [] fd h = refl
find-none_iff (e ∷ es) fd h = ground (arith, find-none_iff es fd)

pub find-none_of_count : (es : List Entry) (fd : ℕ) → fd_count fd es ≡ 0 → find_entry es fd ≡ none
unfolding find_entry
find-none_of_count [] fd h = refl
find-none_of_count (e ∷ es) fd h = ground (arith, find-none_of_count es fd)

pub find-some-fd : (es : List Entry) (fd : ℕ) (e : Entry) → find_entry es fd ≡ some e → e.fd ≡ fd
unfolding find_entry
find-some-fd [] fd e h = cc
find-some-fd (x ∷ es) fd e h = ground (arith, find-some-fd es fd e)

pub find-append :
    (es fs : List Entry) (fd : ℕ)
    → find_entry (es ++ fs) fd
      ≡ (elim (find_entry es fd) [ some e ↦ some e | none ↦ find_entry fs fd ])
unfolding find_entry
find-append [] fs fd = refl
find-append (e ∷ es) fs fd = ground (arith, find-append es fs fd)

module _ (fd : ℕ) (f : Entry → Entry) where
  pub length-update_entry : (es : List Entry) → length (update_entry fd f es) ≡ length es
  unfolding update_entry
  length-update_entry [] = refl
  length-update_entry (e ∷ es) = ground (arith, length-update_entry es)

  module _ (keeps : (e : Entry) → (f e).fd ≡ e.fd) where
    pub fd_count-update_entry :
        (j : ℕ) (es : List Entry) → fd_count j (update_entry fd f es) ≡ fd_count j es
    unfolding update_entry
    fd_count-update_entry j [] = refl
    fd_count-update_entry j (e ∷ es) = ground (arith, keeps e, fd_count-update_entry j es)

    -- A store is seen at its fd, and nowhere else.
    pub find-update_entry :
        (es : List Entry) (j : ℕ)
        → find_entry (update_entry fd f es) j ≡ (
            if fd == j
            then elim (find_entry es j) [ none ↦ none | some e ↦ some (f e) ]
            else find_entry es j)
    unfolding update_entry find_entry
    find-update_entry [] j = ground arith
    find-update_entry (e ∷ es) j = ground (arith, keeps e, find-update_entry es j)

-- The removal in terms of the array's last entry.
last-snoc : (e : Entry) (zs : List Entry) (l : Entry) → last e (zs ++ (l ∷ [])) ≡ l
last-snoc e [] l = refl
last-snoc e (z ∷ zs) l = last-snoc z zs l

chop-snoc : (zs : List Entry) (l : Entry) → chop (zs ++ (l ∷ [])) ≡ zs
chop-snoc [] l = refl
chop-snoc (z ∷ []) l = refl
chop-snoc (z ∷ y ∷ zs) l = ap (λ t. z ∷ t) (chop-snoc (y ∷ zs) l)

update-snoc :
    (fd : ℕ) (zs : List Entry) (l : Entry)
    → update_entry fd (λ _. l) (zs ++ (l ∷ [])) ≡ update_entry fd (λ _. l) zs ++ (l ∷ [])
unfolding update_entry
update-snoc fd [] l = ground arith
update-snoc fd (z ∷ zs) l = ground (arith, update-snoc fd zs l)

delete-cons :
    (fd : ℕ) (e : Entry) (es : List Entry)
    → delete_entry fd (e ∷ es) ≡ chop (update_entry fd (λ _. last e es) (e ∷ es))
unfolding delete_entry
delete-cons fd e es = refl

pub delete-snoc :
    (fd : ℕ) (zs : List Entry) (l : Entry)
    → delete_entry fd (zs ++ (l ∷ [])) ≡ update_entry fd (λ _. l) zs
delete-snoc fd [] l = rw delete-cons (unfold update_entry in ground arith)
delete-snoc fd (z ∷ zs) l =
    rw (delete-cons, last-snoc z zs l, update-snoc fd (z ∷ zs) l)
      (chop-snoc (update_entry fd (λ _. l) (z ∷ zs)) l)

-- Every list but the empty one ends in an entry.
pub snoc-cases :
    (es : List Entry) → (es ≡ []) ⊎ ((zs : List Entry) × (l : Entry) × (es ≡ zs ++ (l ∷ [])))
snoc-cases [] = inl refl
snoc-cases (e ∷ es) = inr (drop_last e es, last e es, sym (drop_last-append-last e es))

module _ (fd : ℕ) (l : Entry) where
  fd_count-moved :
      (j : ℕ) (zs : List Entry)
      → 1 ≤ fd_count fd (zs ++ (l ∷ []))
      → fd_count j (update_entry fd (λ _. l) zs) + (if fd == j then 1 else 0)
        ≡ fd_count j (zs ++ (l ∷ []))
  unfolding update_entry
  fd_count-moved j [] h = ground arith
  fd_count-moved j (z ∷ zs) h = ground (arith, fd_count-moved j zs, fd_count-append j zs (l ∷ []))

  find-moved :
      (j : ℕ) (zs : List Entry)
      → 1 ≤ fd_count fd (zs ++ (l ∷ []))
      → fd_count j (zs ++ (l ∷ [])) ≤ 1
      → fd ≢ j
      → find_entry (update_entry fd (λ _. l) zs) j ≡ find_entry (zs ++ (l ∷ [])) j
  unfolding update_entry find_entry
  find-moved j [] h d ne = ground arith
  find-moved j (z ∷ zs) h d ne = ground (
    arith,
    find-moved j zs,
    find-append zs (l ∷ []) j,
    fd_count-append j zs (l ∷ []),
    find-none_of_count zs j,
  )

-- Removing the entry of an fd lowers that fd's count by one, and no other.
pub fd_count-delete_entry :
    (fd : ℕ) (es : List Entry) (j : ℕ)
    → 1 ≤ fd_count fd es
    → fd_count j (delete_entry fd es) + (if fd == j then 1 else 0) ≡ fd_count j es
fd_count-delete_entry fd es j h = elim (snoc-cases es) [
  | inl e ↦ absurd (omega (arith, ap (fd_count fd) e))
  | inr (zs, l, e) ↦
      rw (e, delete-snoc fd zs l) (fd_count-moved fd l j zs (subst (λ t. 1 ≤ fd_count fd t) e h))
]

-- After a removal the fd is gone, and every other entry is found as before.
pub find-delete_entry :
    (fd : ℕ) (es : List Entry) (j : ℕ)
    → IsDistinct es
    → 1 ≤ fd_count fd es
    → find_entry (delete_entry fd es) j ≡ (if fd == j then none else find_entry es j)
find-delete_entry fd es j d h = elim (snoc-cases es) [
  | inl e ↦ absurd (omega (arith, ap (fd_count fd) e))
  | inr (zs, l, e) ↦ ground (
    arith,
    d j,
    d fd,
    e,
    delete-snoc fd zs l,
    find-moved fd l j zs,
    fd_count-delete_entry fd es j h,
    find-none_of_count (delete_entry fd es) j,
  )
]
