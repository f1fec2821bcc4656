-- ===== src/Procfs/Content.antt =====
-- A text of the process files that is held in memory, `struct memfd` of shim/procfs/core/open.c: `readv`
-- and `lseek` on it. A call is one step, under the lock of the descriptor; what the generation of a
-- fresh text does is an argument.
pub mod Reading
use rust_ape.Prelude.{
  ℕ, zero, suc, ◌+◌, ◌-◌, ◌%◌, ◌^◌, min, Bool, not, ◌&&◌, ◌||◌, List, [], ◌∷◌, Option, none, some,
  ltb, leb, ◌==◌, if◌then◌else◌, length, take, drop,
}

-- `struct memfd`, without its lock and its path
pub record Memfd : Type 0 where
  pub text : List ℕ
  pub pos : ℕ
  pub gen : ℕ
  pub is_dir : Bool

-- The loop of `__ape_shim_procfs_memfd_read` over the vectors, by their lengths: what each of them
-- gets, and the position afterwards.
unfoldable pub read_vectors : List ℕ → ℕ → List ℕ → List (List ℕ) × ℕ
read_vectors text pos [] = ([], pos)
read_vectors text pos (len ∷ lens) =
    let k = min (length text - pos) len in
    let (more, end) = read_vectors text (pos + k) lens in
    if ltb pos (length text) then (take k (drop pos text) ∷ more, end) else ([], pos)

-- `__ape_shim_procfs_memfd_read`; `none` is EISDIR.
unfoldable pub memfd_read : List ℕ → Memfd → Option (List (List ℕ)) × Memfd
memfd_read lens m =
    let (got, end) = read_vectors m.text m.pos lens in
    if m.is_dir then (none, m) else (some got, record m { pos = end })

-- What a rewind meets: `pc_busy`, the generation that the path has before and after, and what
-- `gen_vpath` makes of it.
pub record Fresh : Type 0 where
  pub is_busy : Bool
  pub gen_before : ℕ
  pub generated : Option (List ℕ)
  pub gen_after : ℕ

abbrev pub seek_set : ℕ
seek_set = 0

-- The rewind: a stale text is replaced, where there is a new one.
unfoldable pub regenerated : Fresh → Option (List ℕ) → Memfd → Memfd
regenerated w none m = record m { pos = 0 }
regenerated w (some t) m = record m { text = t; pos = 0; gen = w.gen_after }

unfoldable pub rewind : Fresh → Memfd → Memfd
rewind w m =
    if m.gen == 0 || not (m.gen == w.gen_before)
    then regenerated w w.generated m
    else record m { pos = 0 }

-- The other seeks. An offset is the pattern of an `int64_t`, and a sum beyond 64 bits wraps.
abbrev pub is_minus : ℕ → Bool
is_minus x = leb (2 ^ 63) x

abbrev pub base_of_whence : ℕ → Memfd → ℕ
base_of_whence zero m = 0
base_of_whence (suc zero) m = m.pos
base_of_whence (suc (suc zero)) m = length m.text
base_of_whence _ m = 2 ^ 64 - 1

unfoldable pub moved : ℕ → ℕ → Memfd → Option ℕ × Memfd
moved base off m =
    if is_minus base || is_minus ((base + off) % 2 ^ 64)
    then (none, m)
    else (some ((base + off) % 2 ^ 64), record m { pos = (base + off) % 2 ^ 64 })

-- `__ape_shim_procfs_memfd_lseek`; `none` is EINVAL.
unfoldable pub memfd_lseek : Fresh → ℕ → ℕ → Memfd → Option ℕ × Memfd
memfd_lseek w off whence m =
    if (off == 0 && whence == seek_set) && (not w.is_busy && not m.is_dir)
    then (some 0, rewind w m)
    else moved (base_of_whence whence m) off m
