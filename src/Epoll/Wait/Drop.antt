-- ===== src/Epoll/Wait/Drop.antt =====
-- The recovery of `emu_wait` from a poll that a closed descriptor made fail.
use rust_ape.Prelude.{
  ℕ, suc, ◌≡◌, refl, ◌∙◌, ap, Bool, true, false, ◌&&◌, ◌||◌, List, [], ◌∷◌, none, some,
  if◌then◌else◌, ◌==◌, arith, Bool-cases, Option-cases, inl, inr,
}
use rust_ape.Epoll.Interest.{Entry, find_entry, delete_entry}
use rust_ape.Epoll.Interest.Lookup.{
  IsDistinct, find-none_of_count, fd_count-delete_entry, find-delete_entry,
}
use rust_ape.Epoll.Arming.{PollFd}
use rust_ape.Epoll.Wait.{Tick, drop_bad}

-- Whether the probe of some slot finds this descriptor bad.
abbrev pub finds_bad : Tick → List PollFd → ℕ → Bool
finds_bad k [] j = false
finds_bad k (p ∷ ps) j = (k.is_bad p && p.fd == j) || finds_bad k ps j

module _ (k : Tick) (alone : (p : PollFd) (es : List Entry) → k.before_drop p es ≡ es) where
  drop_skip :
      (p : PollFd) (ps : List PollFd) (es : List Entry)
      → k.is_bad p ≡ false
      → drop_bad k (p ∷ ps) es ≡ drop_bad k ps es
  unfolding drop_bad
  drop_skip p ps es b = ground (arith, b)

  drop_none :
      (p : PollFd) (ps : List PollFd) (es : List Entry)
      → k.is_bad p ≡ true
      → find_entry es p.fd ≡ none
      → drop_bad k (p ∷ ps) es ≡ drop_bad k ps es
  unfolding drop_bad
  drop_none p ps es b f = ground (arith, b, f, alone p es)

  drop_some :
      (p : PollFd) (ps : List PollFd) (es : List Entry) (e : Entry)
      → k.is_bad p ≡ true
      → find_entry es p.fd ≡ some e
      → drop_bad k (p ∷ ps) es
        ≡ ((drop_bad k ps (delete_entry p.fd es)).0, suc (drop_bad k ps (delete_entry p.fd es)).1)
  unfolding drop_bad
  drop_some p ps es e b f = ground (arith, b, f, alone p es)

  delete-IsDistinct :
      (fd : ℕ) (es : List Entry) (e : Entry)
      → IsDistinct es
      → find_entry es fd ≡ some e
      → IsDistinct (delete_entry fd es)
  delete-IsDistinct fd es e d f j =
      ground (arith, f, d j, find-none_of_count es fd, fd_count-delete_entry fd es j)

  -- Where no other thread changes the list meanwhile, the recovery drops the entry of every
  -- descriptor that a probe finds bad, and leaves every other entry as it was.
  pub drop_bad_lookup :
      (ps : List PollFd) (es : List Entry) (j : ℕ)
      → IsDistinct es
      → find_entry (drop_bad k ps es).0 j ≡ (if finds_bad k ps j then none else find_entry es j)
  drop_bad_lookup [] es j d = unfold drop_bad in refl
  drop_bad_lookup (p ∷ ps) es j d = elim (Bool-cases (k.is_bad p)) [
    | inr b ↦
        ap (λ r. find_entry r.0 j) (drop_skip p ps es b)
        ∙ ground (arith, b, drop_bad_lookup ps es j d)
    | inl b ↦ elim (Option-cases (find_entry es p.fd)) [
      | inl f ↦
          ap (λ r. find_entry r.0 j) (drop_none p ps es b f)
          ∙ ground (arith, b, f, drop_bad_lookup ps es j d)
      | inr (e, f) ↦
          ap (λ r. find_entry r.0 j) (drop_some p ps es e b f)
          ∙ ground (
            arith,
            b,
            f,
            drop_bad_lookup ps (delete_entry p.fd es) j (delete-IsDistinct p.fd es e d f),
            find-delete_entry p.fd es j d,
            find-none_of_count es p.fd,
          )
    ]
  ]

  -- The count says whether anything was dropped: none exactly where no bad descriptor is
  -- registered.
  pub drop_bad_count :
      (ps : List PollFd) (es : List Entry) → (drop_bad k ps es).1 ≡ 0 → (drop_bad k ps es).0 ≡ es
  drop_bad_count [] es z = unfold drop_bad in refl
  drop_bad_count (p ∷ ps) es z = elim (Bool-cases (k.is_bad p)) [
    | inr b ↦ ground (arith, drop_skip p ps es b, drop_bad_count ps es)
    | inl b ↦ elim (Option-cases (find_entry es p.fd)) [
      | inl f ↦ ground (arith, drop_none p ps es b f, drop_bad_count ps es)
      | inr (e, f) ↦ absurd (ground (arith, drop_some p ps es e b f))
    ]
  ]
