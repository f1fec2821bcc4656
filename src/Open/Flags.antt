-- ===== src/Open/Flags.antt =====
-- The flags of `open` and of F_SETFL, as shim/open.c translates them.
pub mod ToHost
pub mod Reported
use rust_ape.Prelude.{
  ℕ, zero, suc, ◌-◌, ◌^◌, ◌≤◌, ◌<◌, ◌≡◌, refl, ◌∙◌, ap, sym, ◌⊎◌, inl, inr, Bool, true, false, not,
  ◌&&◌, ◌||◌, List, [], ◌∷◌, ◌==◌, if◌then◌else◌, bit_and, bit_or, has, or_if, clear_bits, arith,
  All, Apart, Bool-cases, has-or_if, has-bit_or, has_self, has_comm, has-bit_and_le, zero-bit_or,
  bit_or-zero, bit_or_comm, bit_or_assoc, union, union-Apart-All, clear_bits-or_if, clear_bits_self,
  clear_bits-Apart, clear_bits-bit_or, clear_bits-zero, has-zero, bit_and-bit_or, bit_and_assoc,
  bit_xor, bit_and_self, bit_and_comm, zero-bit_and, bit_or_absorb,
}
use rust_ape.Open.{
  Oflag, OpenHost, Outcome, returns, refuses, eopnotsupp, einval, unsupported, take_rows,
  oflags_to_host, oflags_to_linux, accmode, is_full, report_rows, take_all, take_tmpfile, take_sync,
  going, stopped,
}

-- The Linux bits of the rows that a choice takes, and the host's for them where it has any.
abbrev pub chosen : (Oflag → Bool) → List Oflag → ℕ
chosen p rs = union (λ r. r.linux_bit) p rs

abbrev pub gathered : (Oflag → Bool) → List Oflag → ℕ → ℕ
gathered p [] host = host
gathered p (r ∷ rs) host = gathered p rs (or_if (p r && not (unsupported r.host)) r.host host)

-- A row is chosen that the host does not have and that no caller can do without.
abbrev pub missing : (Oflag → Bool) → List Oflag → Bool
missing p [] = false
missing p (r ∷ rs) = p r && (unsupported r.host && not r.droppable) || missing p rs

abbrev pub ApartFrom : ℕ → Oflag → Type 0
ApartFrom m r = Apart r.linux_bit m

-- Each row has bits of its own.
abbrev pub IsTable : List Oflag → Type 0
IsTable [] = Unit {0}
IsTable (r ∷ rs) =
    (r.linux_bit < 2 ^ 32)
    × ((r.linux_bit == 0) ≡ false)
    × All (ApartFrom r.linux_bit) rs
    × IsTable rs

pub chosen-Apart :
    (p : Oflag → Bool) (m : ℕ) (rs : List Oflag)
    → All (ApartFrom m) rs
    → has (chosen p rs) m ≡ false
chosen-Apart p m rs d = union-Apart-All (λ r. r.linux_bit) p m rs d

pub clear_bits-chosen :
    (p : Oflag → Bool) (m : ℕ) (rs : List Oflag)
    → m < 2 ^ 32
    → IsTable rs
    → All (ApartFrom m) rs
    → clear_bits (chosen p rs) m ≡ chosen p rs
clear_bits-chosen p m [] h t d = clear_bits-zero m
clear_bits-chosen p m (r ∷ rs) h t d =
    rw (
      clear_bits-or_if,
      clear_bits-Apart r.linux_bit m t.0 h d.0,
      clear_bits-chosen p m rs h t.3 d.1,
    )

-- A row's bits are taken exactly where it is chosen, and its choice leaves the others alone.
row_asked :
    (b : Bool) (r : Oflag) (x : ℕ)
    → r.linux_bit < 2 ^ 32
    → (r.linux_bit == 0) ≡ false
    → has x r.linux_bit ≡ false
    → clear_bits x r.linux_bit ≡ x
    → (has (or_if b r.linux_bit x) r.linux_bit ≡ b)
      × ((if b then clear_bits (or_if b r.linux_bit x) r.linux_bit else or_if b r.linux_bit x) ≡ x)
row_asked true r x lt nz a c = (
  rw (has-bit_or, a, has_self r.linux_bit nz),
  rw (clear_bits-bit_or, c, clear_bits_self r.linux_bit lt, bit_or-zero),
)
row_asked false r x lt nz a c = (a, refl)

pub take_rows-chosen :
    (p : Oflag → Bool) (rs : List Oflag) (host : ℕ)
    → IsTable rs
    → take_rows rs (chosen p rs) host
      ≡ (if missing p rs then refuses eopnotsupp else returns (gathered p rs host))
unfolding take_rows
take_rows-chosen p [] host t = refl
take_rows-chosen p (r ∷ rs) host (lt, nz, d, t) =
    let step =
      row_asked (p r) r (chosen p rs) lt nz (chosen-Apart p r.linux_bit rs d)
        (clear_bits-chosen p r.linux_bit rs lt t d) in
    let ih = take_rows-chosen p rs (or_if (p r && not (unsupported r.host)) r.host host) t in
    rw (step.0, step.1, ih)
      (by_test (p r && (unsupported r.host && not r.droppable)) (missing p rs) (refuses eopnotsupp)
        (returns (gathered p (r ∷ rs) host)))
  where
    by_test :
        (a b : Bool) (x y : Outcome)
        → (if a then x else if b then x else y) ≡ (if a || b then x else y)
    by_test true b x y = refl
    by_test false b x y = refl

-- What the translation relies on in the Linux constants of a processor: O_SYNC is below 2 ^ 32 and
-- apart from the access mode and O_LARGEFILE, as the rows are; each row lies inside O_SYNC or apart
-- from it; O_SYNC and O_TMPFILE have a bit each that no row has.
pub record IsLinux (h : OpenHost) : Type 0 where
  pub table : IsTable h.rows
  pub mode : All (ApartFrom accmode) h.rows
  pub large_lt : h.lin_largefile < 2 ^ 32
  pub large : All (ApartFrom h.lin_largefile) h.rows
  pub sync_lt : h.lin_sync < 2 ^ 32
  pub sync_mode : Apart h.lin_sync accmode
  pub sync_large : Apart h.lin_sync h.lin_largefile
  pub sync_splits :
      All (λ r. (Apart r.linux_bit h.lin_sync) ⊎ (clear_bits r.linux_bit h.lin_sync ≡ 0)) h.rows
  pub sync_bit : ℕ
  pub sync_has : has h.lin_sync sync_bit ≡ true
  pub sync_apart : All (ApartFrom sync_bit) h.rows
  pub tmp_bit : ℕ
  pub tmp_has : has h.lin_tmpfile tmp_bit ≡ true
  pub tmp_apart : All (ApartFrom tmp_bit) h.rows

-- O_SYNC has the row's bits already.
abbrev pub beside : Bool → ℕ → (Oflag → Bool) → Oflag → Bool
beside s sync p r = p r && not (s && clear_bits r.linux_bit sync == 0)

-- The flags of a choice of rows, an access mode, and O_SYNC where `s` is true.
abbrev pub flags_of : OpenHost → Bool → ℕ → (Oflag → Bool) → ℕ
flags_of h s a p = or_if s h.lin_sync (bit_or a (chosen p h.rows))

pub chosen_not_full :
    (p : Oflag → Bool) (rs : List Oflag) (m k : ℕ)
    → has m k ≡ true
    → All (ApartFrom k) rs
    → is_full (chosen p rs) m ≡ false
chosen_not_full p rs m k e d = elim (Bool-cases (is_full (chosen p rs) m)) [
  | inr f ↦ f
  | inl t ↦
      let q : bit_and (chosen p rs) m ≡ m = ground arith in
      let both = has-bit_and_le (chosen p rs) m k (ap (λ x. has x k) q ∙ e) in
      let n = chosen-Apart p k rs d in ground (arith, both.0, n)
]

pub clear_bits-beside :
    (p : Oflag → Bool) (sync : ℕ) (rs : List Oflag)
    → sync < 2 ^ 32
    → IsTable rs
    → All (λ r. (Apart r.linux_bit sync) ⊎ (clear_bits r.linux_bit sync ≡ 0)) rs
    → clear_bits (chosen p rs) sync ≡ chosen (beside true sync p) rs
clear_bits-beside p sync [] h t d = clear_bits-zero sync
clear_bits-beside p sync (r ∷ rs) h (lt, nz, _, t) (inl a, d) =
    rw
      (
        clear_bits-or_if,
        clear_bits-Apart r.linux_bit sync lt h a,
        nz,
        clear_bits-beside p sync rs h t d,
      )
      (ground arith)
clear_bits-beside p sync (r ∷ rs) h (lt, nz, _, t) (inr z, d) =
    rw (clear_bits-or_if, z, clear_bits-beside p sync rs h t d)
      (none_left (p r) r.linux_bit (chosen (beside true sync p) rs))
  where
    none_left : (b : Bool) (k x : ℕ) → or_if b 0 x ≡ or_if (b && false) k x
    none_left true k x = bit_or-zero x
    none_left false k x = refl

pub access_mode : (a : ℕ) → a ≤ accmode → (bit_and a accmode ≡ a) × (clear_bits a accmode ≡ 0)
access_mode zero h = (refl, refl)
access_mode (suc zero) h = (refl, refl)
access_mode (suc (suc zero)) h = (refl, refl)
access_mode (suc (suc (suc zero))) h = (refl, refl)
access_mode (suc (suc (suc (suc a)))) h = absurd (omega arith)
