-- ===== src/Open/Stats.antt =====
-- `stat`, `lstat` and `fstatat` of shim/open.c. A path is the list of its bytes and no null pointer. What
-- the host answers is an argument, and so is what the process files answer where nothing of them is on
-- disk (`__ape_shim_procfs_vstat`, with `none` for -2) and where they join a name to a directory.
pub mod Agree
use rust_ape.Prelude.{
  ℕ, ◌^◌, ◌-◌, Bool, true, false, not, ◌&&◌, ◌||◌, List, [], ◌∷◌, ◌++◌, Option, none, some, ltb,
  ◌==◌, if◌then◌else◌, bit_or, has, clear_bits, take, drop, negative, last,
}
use rust_ape.Suffix.{Files, exe_fallback, contains, base_of}
use rust_ape.Procfs.{slash, starts_with, is_empty, is_digit, proc_prefix, self_name}
use rust_ape.Procfs.Links.{Processes, readlink, link_mode}
use rust_ape.Open.{
  Problem, einval, left_by_host, Translation, going, stopped, at_bit, at_fdcwd, lin_at_fdcwd,
}
use rust_ape.Open.Probes.{lin_symlink_nofollow, lin_empty_path}

-- `struct stat`; `other` stands for the fields that the shim leaves alone.
pub record Stat : Type 0 where
  pub mode : ℕ
  pub size : ℕ
  pub nlink : ℕ
  pub other : ℕ

pub data StatAnswer : Type 0 where
  found : Stat → StatAnswer
  no_stat : Problem → StatAnswer

pub record StatHost : Type 0 where
  pub at_fdcwd : ℕ
  pub at_symlink_nofollow : ℕ
  pub at_empty_path : ℕ
  pub s_iflnk : ℕ
  pub s_ifsock : ℕ
  pub path_max : ℕ
  pub files : ℕ → Files
  pub processes : Processes
  pub stat : List ℕ → StatAnswer
  pub lstat : List ℕ → StatAnswer
  pub fstat : ℕ → StatAnswer
  pub fstatat : ℕ → List ℕ → ℕ → StatAnswer
  pub procfs_vstat : ℕ → List ℕ → Bool → Option StatAnswer
  pub procfs_join : ℕ → List ℕ → Option (List ℕ)

-- `lstat_must_follow`
abbrev pub is_dots : List ℕ → Bool
is_dots [] = false
is_dots (a ∷ []) = a == 46
is_dots (a ∷ b ∷ []) = a == 46 && b == 46
is_dots _ = false

abbrev pub ends_in_slash : List ℕ → Bool
ends_in_slash [] = false
ends_in_slash (c ∷ cs) = last c cs == slash

unfoldable pub must_follow : List ℕ → Bool
must_follow p = ends_in_slash p || is_dots (base_of p)

-- The path in the tree of process files that a name stands for, where it stands for one.
abbrev pub if_proc : List ℕ → Option (List ℕ)
if_proc vpath = if starts_with proc_prefix vpath then some vpath else none

abbrev pub if_joined : Option (List ℕ) → Option (List ℕ)
if_joined none = none
if_joined (some vpath) = if_proc vpath

unfoldable pub proc_path : StatHost → ℕ → List ℕ → Option (List ℕ)
proc_path h dirfd path =
    if starts_with (slash ∷ []) path then if_proc path else if_joined (h.procfs_join dirfd path)

-- `procfs_link_stat`
abbrev pub as_link : StatHost → ℕ → Stat → Stat
as_link h bits st =
    if bits == 0 then st else record st { mode = bit_or h.s_iflnk bits; size = 0; nlink = 1 }

unfoldable pub link_stat_at : StatHost → Option (List ℕ) → Stat → Stat
link_stat_at h none st = st
link_stat_at h (some vpath) st = as_link h (link_mode h.processes vpath) st

unfoldable pub link_stat : StatHost → ℕ → List ℕ → Stat → Stat
link_stat h dirfd path st = link_stat_at h (proc_path h dirfd path) st

-- `procfs_follow_stat`: the three kinds of targets.
abbrev pub found_or : StatAnswer → Stat → Stat
found_or (found t) st = t
found_or (no_stat e) st = st

-- `strstr(vpath, "/fd/")`, behind the match
abbrev pub slash_fd : List ℕ
slash_fd = 47 ∷ 102 ∷ 100 ∷ 47 ∷ []

unfoldable pub behind_fd : List ℕ → Option (List ℕ)
behind_fd [] = none
behind_fd (c ∷ cs) =
    let rest = behind_fd cs in
    if starts_with slash_fd (c ∷ cs) then some (drop 4 (c ∷ cs)) else rest

abbrev pub as_socket : StatHost → Stat → Stat
as_socket h st = record st { mode = bit_or h.s_ifsock 0o777; size = 0 }

abbrev pub own_or : StatHost → StatAnswer → Stat → Stat
own_or h (found t) st = t
own_or h (no_stat e) st = as_socket h st

unfoldable pub fd_stat : StatHost → List ℕ → Option (List ℕ) → Stat → Stat
fd_stat h vpath none st = as_socket h st
fd_stat h vpath (some digits) st =
    let fd = h.processes.atoi digits in
    if not (negative fd) && starts_with (proc_prefix ++ (slash ∷ self_name ++ (slash ∷ []))) vpath
    then own_or h (h.fstat fd) st
    else as_socket h st

unfoldable pub target_stat : StatHost → List ℕ → Option (List ℕ) → Stat → Stat
target_stat h vpath none st = st
target_stat h vpath (some []) st = st
target_stat h vpath (some (c ∷ cs)) st =
    if c == slash
    then found_or (h.stat (c ∷ cs)) st
    else if is_digit c && not (contains slash (drop 6 vpath))
    then found_or (h.stat (take 63 (proc_prefix ++ (slash ∷ c ∷ cs)))) st
    else fd_stat h vpath (behind_fd vpath) st

unfoldable pub follow_stat_at : StatHost → Option (List ℕ) → Stat → Stat
follow_stat_at h none st = st
follow_stat_at h (some vpath) st =
    if link_mode h.processes vpath == 0
    then st
    else target_stat h vpath (readlink h.processes vpath (h.path_max - 1)) st

unfoldable pub follow_stat : StatHost → ℕ → List ℕ → Stat → Stat
follow_stat h dirfd path st = follow_stat_at h (proc_path h dirfd path) st

-- The retry with a suffix, and what is made of an answer then.
abbrev pub ask_found : (List ℕ → StatAnswer) → Option (List ℕ) → StatAnswer → StatAnswer
ask_found ask none r = r
ask_found ask (some path) r = ask path

unfoldable pub retry : Files → (List ℕ → StatAnswer) → List ℕ → StatAnswer → StatAnswer
retry f ask path (found st) = found st
retry f ask path (no_stat (left_by_host e)) =
    if e == f.enoent
    then ask_found ask (exe_fallback f path) (no_stat (left_by_host e))
    else no_stat (left_by_host e)
retry f ask path (no_stat e) = no_stat e

abbrev pub mapped : (Stat → Stat) → StatAnswer → StatAnswer
mapped f (found st) = found (f st)
mapped f (no_stat e) = no_stat e

abbrev pub virtual_or : Option StatAnswer → StatAnswer → StatAnswer
virtual_or none r = r
virtual_or (some v) r = v

-- `__ape_shim_stat`, `__ape_shim_lstat`
unfoldable pub stat : StatHost → List ℕ → StatAnswer
stat h path = virtual_or (h.procfs_vstat h.at_fdcwd path false) (
    mapped (follow_stat h lin_at_fdcwd path) (retry (h.files h.at_fdcwd) h.stat path (h.stat path)))

unfoldable pub lstat : StatHost → List ℕ → StatAnswer
lstat h path =
    if must_follow path
    then stat h path
    else virtual_or (h.procfs_vstat h.at_fdcwd path true) (
        mapped (link_stat h lin_at_fdcwd path)
          (retry (h.files h.at_fdcwd) h.lstat path (h.lstat path)))

-- `SHIM_LIN_AT_NO_AUTOMOUNT`
abbrev pub lin_no_automount : ℕ
lin_no_automount = 2048

-- `__ape_shim_fstatat`: its part behind the flags, with the host's flags.
abbrev pub finished : StatHost → ℕ → List ℕ → Bool → Stat → Stat
finished h dirfd path nofollow st =
    if nofollow then link_stat h dirfd path st else follow_stat h dirfd path st

unfoldable pub fstatat_host : StatHost → ℕ → List ℕ → ℕ → StatAnswer
fstatat_host h dirfd path host =
    let fd = at_fdcwd h.at_fdcwd dirfd in
    virtual_or (h.procfs_vstat fd path (has host h.at_symlink_nofollow)) (
      mapped (finished h dirfd path (has host h.at_symlink_nofollow))
        (retry (h.files fd) (λ p. h.fstatat fd p host) path (h.fstatat fd path host)))

unfoldable pub fstatat_flags : StatHost → ℕ → List ℕ → Translation → StatAnswer
fstatat_flags h dirfd path (stopped e) = no_stat e
fstatat_flags h dirfd path (going lin host) =
    if not (clear_bits lin lin_no_automount == 0)
    then no_stat einval
    else fstatat_host h dirfd path (
        if has host h.at_symlink_nofollow && must_follow path
        then clear_bits host h.at_symlink_nofollow
        else host)

unfoldable pub fstatat : StatHost → ℕ → List ℕ → ℕ → StatAnswer
fstatat h dirfd path lin =
    if is_empty path && has lin lin_empty_path
    then (if dirfd == lin_at_fdcwd then h.stat (46 ∷ []) else h.fstat dirfd)
    else fstatat_flags h dirfd path (
        at_bit lin_empty_path h.at_empty_path
          (at_bit lin_symlink_nofollow h.at_symlink_nofollow (going lin 0)))
