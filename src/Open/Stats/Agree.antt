-- ===== src/Open/Stats/Agree.antt =====
-- The three spellings of a stat in shim/open.c.
use rust_ape.Prelude.{
  ℕ, ◌^◌, ◌<◌, ◌≡◌, refl, ◌∙◌, ap, sym, Bool, true, false, ◌&&◌, inl, inr, List, Option, none, some,
  ◌==◌, if◌then◌else◌, clear_bits, has_self, has-zero, zero-bit_or, clear_bits_self, Bool-cases,
}
use rust_ape.Suffix.{Files, exe_fallback}
use rust_ape.Procfs.{is_empty}
use rust_ape.Open.{eopnotsupp, einval, eacces, enotty, left_by_host, at_bit, lin_at_fdcwd}
use rust_ape.Open.Probes.{lin_symlink_nofollow}
use rust_ape.Open.Stats.{
  StatAnswer, found, no_stat, StatHost, must_follow, ask_found, retry, mapped, virtual_or, stat,
  lstat, link_stat, follow_stat, fstatat_host, fstatat_flags, fstatat,
}

module _ (a b : List ℕ → StatAnswer) (same : (p : List ℕ) → a p ≡ b p) where
  ask_found_same : (o : Option (List ℕ)) (r : StatAnswer) → ask_found a o r ≡ ask_found b o r
  ask_found_same none r = refl
  ask_found_same (some p) r = same p

  retry_same : (f : Files) (path : List ℕ) (r : StatAnswer) → retry f a path r ≡ retry f b path r
  unfolding retry
  retry_same f path (found st) = refl
  retry_same f path (no_stat (left_by_host e)) = elim (Bool-cases (e == f.enoent)) [
    | inl q ↦ rw q (ask_found_same (exe_fallback f path) (no_stat (left_by_host e)))
    | inr q ↦ rw q
  ]
  retry_same f path (no_stat eopnotsupp) = refl
  retry_same f path (no_stat einval) = refl
  retry_same f path (no_stat eacces) = refl
  retry_same f path (no_stat enotty) = refl

  asked_same : (f : Files) (path : List ℕ) → retry f a path (a path) ≡ retry f b path (b path)
  asked_same f path = retry_same f path (a path) ∙ ap (retry f b path) (same path)

and_false : (b : Bool) → (b && false) ≡ false
and_false true = refl
and_false false = refl

-- The part behind the flags, with the host's flags none or AT_SYMLINK_NOFOLLOW.
module _ (h : StatHost) (path : List ℕ) where
  following :
      ((p : List ℕ) → h.fstatat h.at_fdcwd p 0 ≡ h.stat p)
      → fstatat_host h lin_at_fdcwd path 0 ≡ stat h path
  unfolding fstatat_host stat
  following s = rw (has-zero h.at_symlink_nofollow) (
      ap
        (λ r.
          virtual_or (h.procfs_vstat h.at_fdcwd path false)
            (mapped (follow_stat h lin_at_fdcwd path) r))
        (asked_same (λ p. h.fstatat h.at_fdcwd p 0) h.stat s (h.files h.at_fdcwd) path))

  not_following :
      ((p : List ℕ) → h.fstatat h.at_fdcwd p h.at_symlink_nofollow ≡ h.lstat p)
      → (h.at_symlink_nofollow == 0) ≡ false
      → must_follow path ≡ false
      → fstatat_host h lin_at_fdcwd path h.at_symlink_nofollow ≡ lstat h path
  unfolding fstatat_host lstat
  not_following s nz m =
      rw (has_self h.at_symlink_nofollow nz, m)
        (ap
          (λ r.
            virtual_or (h.procfs_vstat h.at_fdcwd path true)
              (mapped (link_stat h lin_at_fdcwd path) r))
          (asked_same (λ p. h.fstatat h.at_fdcwd p h.at_symlink_nofollow) h.lstat s
            (h.files h.at_fdcwd) path))

  no_flags : fstatat h lin_at_fdcwd path 0 ≡ fstatat_host h lin_at_fdcwd path 0
  unfolding fstatat fstatat_flags at_bit
  no_flags = rw (and_false (is_empty path), has-zero h.at_symlink_nofollow)

  nofollow_flag :
      (h.at_symlink_nofollow == 0) ≡ false
      → fstatat h lin_at_fdcwd path lin_symlink_nofollow
        ≡ fstatat_host h lin_at_fdcwd path (
            if must_follow path
            then clear_bits h.at_symlink_nofollow h.at_symlink_nofollow
            else h.at_symlink_nofollow)
  unfolding fstatat fstatat_flags at_bit
  nofollow_flag nz = rw (
    and_false (is_empty path),
    nz,
    zero-bit_or h.at_symlink_nofollow,
    has_self h.at_symlink_nofollow nz,
  )

  lstat_stat : must_follow path ≡ true → lstat h path ≡ stat h path
  unfolding lstat
  lstat_stat m = rw m

  -- fstatat below the current directory is `stat` without a flag, and `lstat` with AT_SYMLINK_NOFOLLOW,
  -- whatever the path, the process files and the suffixes: also where lstat has to follow the last name, and
  -- where a link of the process files is answered from their tree. That holds where it holds of the
  -- host's three calls, whose AT_SYMLINK_NOFOLLOW is not 0 and of 32 bits.
  pub stats_agree :
      ((p : List ℕ) → h.fstatat h.at_fdcwd p 0 ≡ h.stat p)
      → ((p : List ℕ) → h.fstatat h.at_fdcwd p h.at_symlink_nofollow ≡ h.lstat p)
      → (h.at_symlink_nofollow == 0) ≡ false
      → h.at_symlink_nofollow < 2 ^ 32
      → (fstatat h lin_at_fdcwd path 0 ≡ stat h path)
        × (fstatat h lin_at_fdcwd path lin_symlink_nofollow ≡ lstat h path)
  stats_agree s l nz lt = (
    no_flags ∙ following s,
    nofollow_flag nz ∙ elim (Bool-cases (must_follow path)) [
      | inl m ↦ rw (m, clear_bits_self h.at_symlink_nofollow lt) (following s ∙ sym (lstat_stat m))
      | inr m ↦ rw m (not_following l nz m)
    ],
  )
