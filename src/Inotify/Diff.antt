-- ===== src/Inotify/Diff.antt =====
-- The comparison of two listings of a directory in shim/inotify.c: `kid_from_stat`, `kid_cmp`, and
-- the loop of `scan_dir` that walks two sorted listings in step.
pub mod Names
pub mod Laws
use rust_ape.Prelude.{
  ℕ, ◌≡◌, Bool, true, false, not, ◌&&◌, ◌||◌, List, [], ◌∷◌, ◌++◌, ltb, ◌==◌, if◌then◌else◌, has,
  bit_or,
}
use rust_ape.Inotify.Channel.{Notice}

-- `LIN_IN_*`, as far as the emulation uses them.
abbrev pub in_modify : ℕ
in_modify = 0x2

abbrev pub in_attrib : ℕ
in_attrib = 0x4

abbrev pub in_create : ℕ
in_create = 0x100

abbrev pub in_delete : ℕ
in_delete = 0x200

abbrev pub in_isdir : ℕ
in_isdir = 0x40000000

-- The fields of `struct stat` that `kid_from_stat` reads, with the answer of `S_ISDIR`.
pub record Stat : Type 0 where
  pub ino : ℕ
  pub mtime : ℕ
  pub mtime_ns : ℕ
  pub size : ℕ
  pub mode : ℕ
  pub isdir : Bool

-- `struct shim_in_kid`
pub record Kid : Type 0 where
  pub name : List ℕ
  pub stat : Stat

-- The sign of `strcmp`, on the bytes of two C strings.
pub data Sign : Type 0 where
  below same above : Sign

unfoldable pub strcmp : List ℕ → List ℕ → Sign
strcmp [] [] = same
strcmp [] (y ∷ ys) = below
strcmp (x ∷ xs) [] = above
strcmp (x ∷ xs) (y ∷ ys) =
    let rest = strcmp xs ys in if x == y then rest else if ltb x y then below else above

abbrev pub isdir_bit : Stat → ℕ
isdir_bit st = if st.isdir then in_isdir else 0

-- `if (w->mask & want) emit(in, w->wd, m, name);`
abbrev pub notice_if : Bool → ℕ → ℕ → List ℕ → List Notice
notice_if b wd m name = if b then record { wd = wd; mask = m; name = name } ∷ [] else []

-- `o->mtime != p->mtime || …`
abbrev pub is_touched : Stat → Stat → Bool
is_touched o p =
    not (o.mtime == p.mtime) || (not (o.mtime_ns == p.mtime_ns) || not (o.size == p.size))

-- The three cases of a step: a name that is gone, one that is new, and one that is in both.
abbrev pub gone : ℕ → ℕ → Kid → List Notice
gone wd mask o = notice_if (has mask in_delete) wd (bit_or in_delete (isdir_bit o.stat)) o.name

abbrev pub came : ℕ → ℕ → Kid → List Notice
came wd mask p = notice_if (has mask in_create) wd (bit_or in_create (isdir_bit p.stat)) p.name

abbrev pub kept : ℕ → ℕ → Kid → Kid → List Notice
kept wd mask o p =
    if not (o.stat.ino == p.stat.ino)
    then notice_if (has mask in_delete) wd (bit_or in_delete (isdir_bit p.stat)) o.name
      ++ notice_if (has mask in_create) wd (bit_or in_create (isdir_bit p.stat)) p.name
    else notice_if (is_touched o.stat p.stat && has mask in_modify) wd
        (bit_or in_modify (isdir_bit p.stat)) p.name
      ++ notice_if (not (o.stat.mode == p.stat.mode) && has mask in_attrib) wd
          (bit_or in_attrib (isdir_bit p.stat)) p.name

-- The loop over the two listings: what is passed to `emit`, in order.
unfoldable pub diff_kids : ℕ → ℕ → List Kid → List Kid → List Notice
unfolding strcmp
diff_kids wd mask [] [] = []
diff_kids wd mask (o ∷ os) [] = gone wd mask o ++ diff_kids wd mask os []
diff_kids wd mask [] (p ∷ ps) = came wd mask p ++ diff_kids wd mask [] ps
diff_kids wd mask (o ∷ os) (p ∷ ps) = elim (strcmp o.name p.name) [
  | below ↦ gone wd mask o ++ diff_kids wd mask os (p ∷ ps)
  | above ↦ came wd mask p ++ diff_kids wd mask (o ∷ os) ps
  | same ↦ kept wd mask o p ++ diff_kids wd mask os ps
]
