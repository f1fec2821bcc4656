-- ===== src/Open/Tests.antt =====
-- Runs of the translations and calls in shim/open.c on one host, whose constants differ from Linux's.
use rust_ape.Prelude.{
  ℕ, ◌+◌, ◌⊎◌, not, ◌&&◌, has, ltb, All, Apart, Bool-cases, ◌^◌, ◌≡◌, refl, inl, inr, Bool, true,
  false, List, [], ◌∷◌, ◌==◌, ◌||◌, arith, clear_bits,
}
use rust_ape.Open.{
  Oflag, OpenHost, returns, refuses, eopnotsupp, einval, accmode, oflags_to_host, oflags_to_linux,
}
use rust_ape.Open.Flags.{ApartFrom, IsTable, IsLinux}
use rust_ape.Open.Flags.ToHost.{oflags_to_host-chosen}
use rust_ape.Open.Flags.Reported.{oflags_to_host-to_linux}

-- The table on x86-64, and a host without O_PATH, O_DIRECT and O_NOATIME.
abbrev rows : List Oflag
rows =
    record { linux_bit = 64; host = 512; droppable = false }
    ∷ record { linux_bit = 128; host = 2048; droppable = false }
    ∷ record { linux_bit = 512; host = 1024; droppable = false }
    ∷ record { linux_bit = 1024; host = 8; droppable = false }
    ∷ record { linux_bit = 2048; host = 4; droppable = false }
    ∷ record { linux_bit = 524288; host = 16777216; droppable = false }
    ∷ record { linux_bit = 65536; host = 1048576; droppable = false }
    ∷ record { linux_bit = 131072; host = 256; droppable = false }
    ∷ record { linux_bit = 2097152; host = 0; droppable = true }
    ∷ record { linux_bit = 4096; host = 4194304; droppable = false }
    ∷ record { linux_bit = 256; host = 131072; droppable = true }
    ∷ record { linux_bit = 8192; host = 64; droppable = true }
    ∷ record { linux_bit = 16384; host = 4294967295; droppable = true }
    ∷ record { linux_bit = 262144; host = 0; droppable = true }
    ∷ []

abbrev pub host : OpenHost
host = record {
  lin_largefile = 32768;
  lin_sync = 1052672;
  lin_tmpfile = 4259840;
  sync = 0x80;
  tmpfile = 0;
  has_tmpfile = false;
  rows = rows;
}

-- Tests of the layout, and that they decide it.
abbrev all_apart : ℕ → List Oflag → Bool
all_apart m [] = true
all_apart m (r ∷ rs) = not (has r.linux_bit m) && all_apart m rs

abbrev is_table : List Oflag → Bool
is_table [] = true
is_table (r ∷ rs) =
    ltb r.linux_bit (2 ^ 32)
    && (not (r.linux_bit == 0) && (all_apart r.linux_bit rs && is_table rs))

abbrev splits : ℕ → List Oflag → Bool
splits sync [] = true
splits sync (r ∷ rs) =
    (not (has r.linux_bit sync) || clear_bits r.linux_bit sync == 0) && splits sync rs

all_apart-All : (m : ℕ) (rs : List Oflag) → all_apart m rs ≡ true → All (ApartFrom m) rs
all_apart-All m [] h = tt
all_apart-All m (r ∷ rs) h = (ground arith, all_apart-All m rs (ground arith))

is_table-IsTable : (rs : List Oflag) → is_table rs ≡ true → IsTable rs
is_table-IsTable [] h = tt
is_table-IsTable (r ∷ rs) h = (
  ground arith,
  ground arith,
  all_apart-All r.linux_bit rs (ground arith),
  is_table-IsTable rs (ground arith),
)

splits-All :
    (sync : ℕ) (rs : List Oflag)
    → splits sync rs ≡ true
    → All (λ r. (Apart r.linux_bit sync) ⊎ (clear_bits r.linux_bit sync ≡ 0)) rs
splits-All sync [] h = tt
splits-All sync (r ∷ rs) h = (
  elim (Bool-cases (has r.linux_bit sync)) [ inl q ↦ inr (ground arith) | inr q ↦ inl q ],
  splits-All sync rs (ground arith),
)

host-IsLinux : IsLinux host
host-IsLinux = record {
  table = is_table-IsTable rows refl;
  mode = all_apart-All 3 rows refl;
  large_lt = omega arith;
  large = all_apart-All 32768 rows refl;
  sync_lt = omega arith;
  sync_mode = refl;
  sync_large = refl;
  sync_splits = splits-All 1052672 rows refl;
  sync_bit = 1048576;
  sync_has = refl;
  sync_apart = all_apart-All 1048576 rows refl;
  tmp_bit = 4194304;
  tmp_has = refl;
  tmp_apart = all_apart-All 4194304 rows refl;
}

-- O_RDWR | O_CREAT | O_CLOEXEC | O_LARGEFILE | O_PATH, which is dropped; O_SYNC with O_DSYNC in it; O_TMPFILE,
-- which the host lacks; and a flag that nobody knows.
creat_run :
    oflags_to_host host (2 + 64 + 524288 + 32768 + 2097152) ≡ returns (2 + 0x200 + 0x1000000)
unfolding oflags_to_host
creat_run = refl

sync_run : oflags_to_host host (1 + 1052672) ≡ returns (1 + 0x80)
unfolding oflags_to_host
sync_run = refl

tmpfile_run : oflags_to_host host (2 + 4259840) ≡ refuses eopnotsupp
unfolding oflags_to_host
tmpfile_run = refl

unknown_run : oflags_to_host host (2 ^ 29) ≡ refuses einval
unfolding oflags_to_host
unknown_run = refl

-- O_RDWR | O_APPEND | O_SYNC on the host, and a bit that has no name.
getfl_run : oflags_to_linux host (2 + 8 + 0x80 + 0x2000) ≡ 2 + 1024 + 1052672
unfolding oflags_to_linux
getfl_run = refl

-- O_WRONLY | O_NONBLOCK | O_DSYNC | O_SYNC
abbrev two_flags : Oflag → Bool
two_flags r = r.linux_bit == 2048 || r.linux_bit == 4096

oflags_to_host-chosen_example : oflags_to_host host (1 + 2048 + 1052672) ≡ returns (1 + 4 + 0x80)
oflags_to_host-chosen_example =
    oflags_to_host-chosen host host-IsLinux true 1 two_flags (omega arith)

oflags_to_host-to_linux_example :
    oflags_to_host host (clear_bits (oflags_to_linux host (2 + 8 + 0x80)) accmode)
    ≡ returns (8 + 0x80)
oflags_to_host-to_linux_example = oflags_to_host-to_linux host host-IsLinux (2 + 8 + 0x80)
