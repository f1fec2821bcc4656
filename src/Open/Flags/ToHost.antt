-- ===== src/Open/Flags/ToHost.antt =====
-- `oflags_to_host` of shim/open.c on a choice of flags.
use rust_ape.Prelude.{
  ℕ, ◌≤◌, ◌≡◌, refl, ◌∙◌, ◌⊎◌, inl, inr, Bool, true, false, ◌&&◌, ◌||◌, List, [], ◌∷◌,
  if◌then◌else◌, bit_and, bit_or, or_if, clear_bits, arith, Bool-cases, zero-bit_or, bit_or-zero,
  Apart-zero, clear_bits-or_if, clear_bits_self, clear_bits-Apart, clear_bits-bit_or,
  bit_and-bit_or, bit_and_self, bit_or_absorb,
}
use rust_ape.Open.{
  Oflag, OpenHost, returns, refuses, eopnotsupp, unsupported, oflags_to_host, accmode, is_full,
  take_all, take_tmpfile, take_sync, going, stopped,
}
use rust_ape.Open.Flags.{
  chosen, gathered, missing, chosen-Apart, clear_bits-chosen, take_rows-chosen, IsLinux, beside,
  flags_of, chosen_not_full, clear_bits-beside, access_mode,
}

chosen-beside :
    (p : Oflag → Bool) (sync : ℕ) (rs : List Oflag) → chosen (beside false sync p) rs ≡ chosen p rs
chosen-beside p sync [] = refl
chosen-beside p sync (r ∷ rs) = rw (chosen-beside p sync rs) (ground arith)

full_with :
    (s : Bool) (h : OpenHost) (t : IsLinux h) (c : ℕ)
    → is_full c h.lin_sync ≡ false
    → is_full (or_if s h.lin_sync c) h.lin_sync ≡ s
full_with true h t c f =
    let q : bit_and (bit_or c h.lin_sync) h.lin_sync ≡ h.lin_sync =
      bit_and-bit_or c h.lin_sync h.lin_sync ∙ rw bit_and_self (bit_or_absorb c h.lin_sync) in
    ground arith
full_with false h t c f = f

-- The host's flags for such a choice.
abbrev pub host_flags : OpenHost → Bool → ℕ → (Oflag → Bool) → ℕ
host_flags h s a p = gathered (beside s h.lin_sync p) h.rows (or_if s h.sync a)

module _ (h : OpenHost) (t : IsLinux h) where
  and_mode :
      (s : Bool) (a : ℕ) (p : Oflag → Bool) → a ≤ accmode → bit_and (flags_of h s a p) accmode ≡ a
  and_mode true a p la = rw (
    bit_and-bit_or,
    bit_and-bit_or,
    (access_mode a la).0,
    Apart-zero (chosen p h.rows) accmode (chosen-Apart p accmode h.rows t.mode),
    Apart-zero h.lin_sync accmode t.sync_mode,
    bit_or-zero,
    bit_or-zero,
  )
  and_mode false a p la = rw (
    bit_and-bit_or,
    (access_mode a la).0,
    Apart-zero (chosen p h.rows) accmode (chosen-Apart p accmode h.rows t.mode),
    bit_or-zero,
  )

  left_to_take :
      (s : Bool) (a : ℕ) (p : Oflag → Bool)
      → a ≤ accmode
      → clear_bits (clear_bits (flags_of h s a p) accmode) h.lin_largefile
        ≡ or_if s h.lin_sync (chosen p h.rows)
  left_to_take s a p la = rw (
    clear_bits-or_if,
    clear_bits-bit_or,
    (access_mode a la).1,
    zero-bit_or,
    clear_bits-Apart h.lin_sync accmode t.sync_lt (omega arith) t.sync_mode,
    clear_bits-chosen p accmode h.rows (omega arith) t.table t.mode,
    clear_bits-or_if,
    clear_bits-Apart h.lin_sync h.lin_largefile t.sync_lt t.large_lt t.sync_large,
    clear_bits-chosen p h.lin_largefile h.rows t.large_lt t.table t.large,
  )

  take_sync-flags :
      (s : Bool) (a : ℕ) (p : Oflag → Bool)
      → (s && unsupported h.sync) ≡ false
      → take_sync h (or_if s h.lin_sync (chosen p h.rows)) a
        ≡ going (chosen (beside s h.lin_sync p) h.rows) (or_if s h.sync a)
  unfolding take_sync
  take_sync-flags true a p u = rw (
    full_with true h t (chosen p h.rows)
        (chosen_not_full p h.rows h.lin_sync t.sync_bit t.sync_has t.sync_apart),
    u,
    clear_bits-bit_or,
    clear_bits_self h.lin_sync t.sync_lt,
    bit_or-zero,
    clear_bits-beside p h.lin_sync h.rows t.sync_lt t.table t.sync_splits,
  )
  take_sync-flags false a p u = rw (
    chosen_not_full p h.rows h.lin_sync t.sync_bit t.sync_has t.sync_apart,
    chosen-beside p h.lin_sync h.rows,
  )

  take_sync-refused :
      (s : Bool) (a : ℕ) (p : Oflag → Bool)
      → (s && unsupported h.sync) ≡ true
      → take_sync h (or_if s h.lin_sync (chosen p h.rows)) a ≡ stopped eopnotsupp
  unfolding take_sync
  take_sync-refused true a p u = rw (
    full_with true h t (chosen p h.rows)
        (chosen_not_full p h.rows h.lin_sync t.sync_bit t.sync_has t.sync_apart),
    u,
  )
  take_sync-refused false a p u = ground arith

  rows_taken :
      (p : Oflag → Bool) (host : ℕ)
      → take_all h (take_tmpfile h (going (chosen p h.rows) host))
        ≡ (if missing p h.rows then refuses eopnotsupp else returns (gathered p h.rows host))
  unfolding take_all take_tmpfile
  rows_taken p host =
      rw (chosen_not_full p h.rows h.lin_tmpfile t.tmp_bit t.tmp_has t.tmp_apart)
        (take_rows-chosen p h.rows host t.table)

  translated :
      (s : Bool) (a : ℕ) (p : Oflag → Bool)
      → ((s && unsupported h.sync) ≡ true) ⊎ ((s && unsupported h.sync) ≡ false)
      → take_all h (take_tmpfile h (take_sync h (or_if s h.lin_sync (chosen p h.rows)) a)) ≡ (
          if (s && unsupported h.sync) || missing (beside s h.lin_sync p) h.rows
          then refuses eopnotsupp
          else returns (host_flags h s a p))
  unfolding take_all take_tmpfile
  translated s a p (inl u) = rw (take_sync-refused s a p u, u)
  translated s a p (inr u) =
      rw (take_sync-flags s a p u, u, rows_taken (beside s h.lin_sync p) (or_if s h.sync a))

  -- What `oflags_to_host` makes of an access mode, any choice of rows of the table, and O_SYNC or not:
  -- EOPNOTSUPP where one of them is no mere hint and the host lacks it, and otherwise the access mode
  -- with exactly the host's bits for them; a row that lies inside O_SYNC goes with it. The constants
  -- are laid out as Linux has them.
  pub oflags_to_host-chosen :
      (s : Bool) (a : ℕ) (p : Oflag → Bool)
      → a ≤ accmode
      → oflags_to_host h (flags_of h s a p) ≡ (
          if (s && unsupported h.sync) || missing (beside s h.lin_sync p) h.rows
          then refuses eopnotsupp
          else returns (host_flags h s a p))
  unfolding oflags_to_host
  oflags_to_host-chosen s a p la =
      rw (left_to_take s a p la, and_mode s a p la)
        (translated s a p (Bool-cases (s && unsupported h.sync)))
