-- ===== src/Open/Flags/Reported.antt =====
-- `oflags_to_linux` of shim/open.c, and its way back to the host.
use rust_ape.Prelude.{
  ℕ, ◌-◌, ◌^◌, ◌≡◌, refl, ◌∙◌, sym, Bool, true, false, not, ◌&&◌, List, [], ◌∷◌, if◌then◌else◌,
  bit_and, bit_or, clear_bits, arith, bit_or-zero, or_if_late, or_if_last, clear_bits-or_if,
  clear_bits-Apart, clear_bits-bit_or, bit_and_assoc, bit_xor, bit_and_comm, zero-bit_and,
}
use rust_ape.Open.{
  Oflag, OpenHost, returns, unsupported, oflags_to_host, oflags_to_linux, accmode, is_full,
  report_rows,
}
use rust_ape.Open.Flags.{chosen, missing, clear_bits-chosen, IsLinux, beside, flags_of}
use rust_ape.Open.Flags.ToHost.{host_flags, oflags_to_host-chosen}

-- What F_GETFL reports: the rows whose host pattern is there, with O_SYNC's bits set apart.
abbrev pub is_synced : OpenHost → ℕ → Bool
is_synced h host = not (unsupported h.sync) && is_full host h.sync

abbrev pub reported : OpenHost → ℕ → Oflag → Bool
reported h host r =
    not (unsupported r.host)
    && is_full (if is_synced h host then clear_bits host h.sync else host) r.host

report_rows-chosen :
    (host : ℕ) (rs : List Oflag) (lin : ℕ)
    → report_rows rs host lin
      ≡ bit_or lin (chosen (λ r. not (unsupported r.host) && is_full host r.host) rs)
unfolding report_rows
report_rows-chosen host [] lin = sym (bit_or-zero lin)
report_rows-chosen host (r ∷ rs) lin =
    report_rows-chosen host rs _
    ∙ or_if_late (not (unsupported r.host) && is_full host r.host) r.linux_bit lin (chosen _ rs)

missing-reported :
    (h : OpenHost) (q : Oflag → Bool) (rs : List Oflag)
    → ((r : Oflag) → (q r && unsupported r.host) ≡ false)
    → missing q rs ≡ false
missing-reported h q [] f = refl
missing-reported h q (r ∷ rs) f = ground (arith, f r, missing-reported h q rs f)

oflags_to_linux-flags :
    (h : OpenHost) (host : ℕ)
    → oflags_to_linux h host
      ≡ flags_of h (is_synced h host) (bit_and host accmode) (reported h host)
unfolding oflags_to_linux
oflags_to_linux-flags h host =
    report_rows-chosen (if is_synced h host then clear_bits host h.sync else host) h.rows _
    ∙ or_if_last (is_synced h host) h.lin_sync (bit_and host accmode)
        (chosen (reported h host) h.rows)

without_mode :
    (h : OpenHost) (t : IsLinux h) (host : ℕ)
    → clear_bits (oflags_to_linux h host) accmode
      ≡ flags_of h (is_synced h host) 0 (reported h host)
without_mode h t host = rw (
  oflags_to_linux-flags h host,
  clear_bits-or_if,
  clear_bits-bit_or,
  bit_and_assoc host accmode (bit_xor (2 ^ 32 - 1) accmode),
  bit_and_comm host 0,
  zero-bit_and,
  clear_bits-Apart h.lin_sync accmode t.sync_lt (omega arith) t.sync_mode,
  clear_bits-chosen (reported h host) accmode h.rows (omega arith) t.table t.mode,
)

-- Flags that F_GETFL reports, F_SETFL takes back, whatever the host's word and the host's constants: no
-- flag of them is refused, and the host is given its own bits for exactly the flags that were reported,
-- O_SYNC's once. The Linux constants are laid out as Linux has them.
pub oflags_to_host-to_linux :
    (h : OpenHost) (t : IsLinux h) (host : ℕ)
    → oflags_to_host h (clear_bits (oflags_to_linux h host) accmode)
      ≡ returns (host_flags h (is_synced h host) 0 (reported h host))
oflags_to_host-to_linux h t host =
    let synced : (is_synced h host && unsupported h.sync) ≡ false = ground arith in
    let there : missing (beside (is_synced h host) h.lin_sync (reported h host)) h.rows ≡ false =
      missing-reported h (beside (is_synced h host) h.lin_sync (reported h host)) h.rows
        (λ (r : Oflag). supported (unsupported r.host) _ _) in
    rw (without_mode h t host, oflags_to_host-chosen h t _ 0 _ (omega arith), synced, there)
  where
    supported : (u b c : Bool) → (((not u && b) && c) && u) ≡ false
    supported true b c = refl
    supported false b c = ground arith
