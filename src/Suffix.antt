-- ===== src/Suffix.antt =====
-- shim/suffix.c: the retry of a program's name with ".exe" and ".com" on NT. A C string is the list
-- of its bytes; the directory that a name is relative to is part of the host's answers, which are
-- for that directory. `execve` and the others end in a program that runs, or in an errno.
pub mod Chain
mod Tests
use rust_ape.Prelude.{
  ℕ, zero, suc, ◌+◌, Bool, true, false, not, ◌&&◌, ◌||◌, List, [], ◌∷◌, ◌++◌, Option, none, some,
  leb, ltb, ◌==◌, if◌then◌else◌, length, take,
}

-- What `readlinkat` answers: a failure or an empty link, or what was read.
pub data Link : Type 0 where
  unreadable : Link
  target : List ℕ → Link

-- The host: whether it is NT, `PATH_MAX`, `ENOENT`, whether `fstatat` finds a regular file, and `readlinkat`
-- with a buffer of `PATH_MAX - 1` bytes.
pub record Files : Type 0 where
  pub is_windows : Bool
  pub path_max : ℕ
  pub enoent : ℕ
  pub is_regular : List ℕ → Bool
  pub readlink : List ℕ → Link

-- ".exe" and ".com"
abbrev pub dot_exe : List ℕ
dot_exe = 46 ∷ 101 ∷ 120 ∷ 101 ∷ []

abbrev pub dot_com : List ℕ
dot_com = 46 ∷ 99 ∷ 111 ∷ 109 ∷ []

-- `strchr(s, c)` as a condition.
unfoldable pub contains : ℕ → List ℕ → Bool
contains c [] = false
contains c (x ∷ xs) = x == c || contains c xs

-- What `strrchr(s, '/')` cuts: the part up to the last slash and with it, and the part behind it.
unfoldable pub dir_of : List ℕ → List ℕ
unfolding contains
dir_of [] = []
dir_of (x ∷ xs) = let rest = dir_of xs in if x == 47 || contains 47 xs then x ∷ rest else []

unfoldable pub base_of : List ℕ → List ℕ
unfolding contains
base_of [] = []
base_of (x ∷ xs) =
    let rest = base_of xs in if contains 47 xs then rest else if x == 47 then xs else x ∷ xs

-- `probe_suffixes`
unfoldable pub probe_suffixes : Files → List ℕ → Option (List ℕ)
unfolding contains base_of
probe_suffixes h name =
    if length name == 0 || ltb h.path_max (length name + 5)
    then none
    else if contains 46 (base_of name)
    then none
    else if h.is_regular (name ++ dot_exe)
    then some (name ++ dot_exe)
    else if h.is_regular (name ++ dot_com)
    then some (name ++ dot_com)
    else none

-- The next name of the chain; `none` where the loop ends.
unfoldable pub follow : Files → List ℕ → Link → Option (List ℕ)
unfolding dir_of contains
follow h cur unreadable = none
follow h cur (target []) = none
follow h cur (target (x ∷ xs)) =
    if x == 47
    then some (x ∷ xs)
    else if leb h.path_max (length (dir_of cur) + length (x ∷ xs))
    then none
    else some (dir_of cur ++ x ∷ xs)

-- The loop of `__ape_shim_exe_fallback`, with what is left of its 16 rounds.
unfoldable pub chase : Files → ℕ → List ℕ → Option (List ℕ)
unfolding probe_suffixes follow
chase h zero cur = none
chase h (suc depth) cur = elim (probe_suffixes h cur) [
  | some found ↦ some found
  | none ↦ elim (follow h cur (h.readlink cur)) [ none ↦ none | some next ↦ chase h depth next ]
]

-- `__ape_shim_exe_fallback`
unfoldable pub exe_fallback : Files → List ℕ → Option (List ℕ)
unfolding chase
exe_fallback h path =
    if not h.is_windows || (length path == 0 || leb h.path_max (length path))
    then none
    else chase h 16 path

-- How starting a program ends.
pub data Started : Type 0 where
  runs : List ℕ → Started
  refused : ℕ → Started

-- The retry that the wrappers share: `again` starts what the fallback has found.
unfoldable pub retried : (List ℕ → Started) → Option (List ℕ) → ℕ → Started
retried again none e = refused e
retried again (some found) e = again found

-- `__ape_shim_execve`, `__ape_shim_execv`, `__ape_shim_posix_spawn`: `start` is the host's.
unfoldable pub start_path : Files → (List ℕ → Started) → List ℕ → Started → Started
unfolding retried exe_fallback
start_path h start path (runs p) = runs p
start_path h start path (refused e) =
    if e == h.enoent then retried start (exe_fallback h path) e else refused e

unfoldable pub execve : Files → (List ℕ → Started) → List ℕ → Started
unfolding start_path
execve h start path = start_path h start path (start path)

-- `__ape_shim_execvpe`, `__ape_shim_execvp`, `__ape_shim_posix_spawnp`: `search` is the host's search
-- in PATH.
unfoldable pub start_file : Files → (List ℕ → Started) → List ℕ → Started → Started
unfolding retried exe_fallback contains
start_file h start file (runs p) = runs p
start_file h start file (refused e) =
    if e == h.enoent && contains 47 file then retried start (exe_fallback h file) e else refused e

unfoldable pub execvpe : Files → (List ℕ → Started) → (List ℕ → Started) → List ℕ → Started
unfolding start_file
execvpe h search start file = start_file h start file (search file)
