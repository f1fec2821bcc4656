-- ===== src/Suffix/Tests.antt =====
-- Runs of shim/suffix.c: "/t" is a link to "d/u", and "/d/u.com" is a program.
use rust_ape.Prelude.{
  ℕ, ◌<◌, ◌≡◌, refl, Bool, true, false, List, [], ◌∷◌, none, some, arith, length, if◌then◌else◌,
  ◌==◌,
}
use rust_ape.Suffix.{
  Files, Link, unreadable, target, probe_suffixes, follow, exe_fallback, Started, runs, refused,
  execve, execvpe,
}
use rust_ape.Suffix.Chain.{here, via, IsProgram, Within, exe_fallback-found, exe_fallback-none}

abbrev same_text : List ℕ → List ℕ → Bool
same_text [] [] = true
same_text (x ∷ xs) (y ∷ ys) = if x == y then same_text xs ys else false
same_text _ _ = false

abbrev tool : List ℕ
tool = 47 ∷ 116 ∷ []

abbrev unit_path : List ℕ
unit_path = 47 ∷ 100 ∷ 47 ∷ 117 ∷ []

abbrev unit_com : List ℕ
unit_com = 47 ∷ 100 ∷ 47 ∷ 117 ∷ 46 ∷ 99 ∷ 111 ∷ 109 ∷ []

abbrev link_of : Bool → Link
link_of true = target (100 ∷ 47 ∷ 117 ∷ [])
link_of false = unreadable

abbrev nt : Files
nt = record {
  is_windows = true;
  path_max = 1024;
  enoent = 2;
  is_regular = same_text unit_com;
  readlink = λ p. link_of (same_text p tool);
}

nt_reads : (b : Bool) (t : List ℕ) → link_of b ≡ target t → length t < 1024
nt_reads true t e = ground (arith, e)
nt_reads false t e = absurd (ground (arith, e))

fallback_run : exe_fallback nt tool ≡ some unit_com
unfolding exe_fallback
fallback_run = refl

exe_fallback-found_example : Within nt 16 tool (λ r. IsProgram nt r unit_com × (length r < 1024))
exe_fallback-found_example =
    exe_fallback-found nt tool unit_com (λ p t. nt_reads (same_text p tool) t) fallback_run

abbrev bare_nt : Files
bare_nt = record nt { is_regular = λ p. false }

bare_run : exe_fallback bare_nt tool ≡ none
unfolding exe_fallback
bare_run = refl

tool_link : follow bare_nt tool (bare_nt.readlink tool) ≡ some unit_path
unfolding follow
tool_link = refl

no_program_run : probe_suffixes bare_nt unit_path ≡ none
no_program_run =
    exe_fallback-none bare_nt tool unit_path 1 refl (omega arith) (omega arith) bare_run
      (omega arith) (via 0 tool unit_path unit_path tool_link (here unit_path))

-- The host starts only what is a regular file.
abbrev start : List ℕ → Started
start p = if nt.is_regular p then runs p else refused 2

execve_run : execve nt start tool ≡ runs unit_com
unfolding execve
execve_run = refl

-- A name without a slash is not tried again.
execvpe_run : execvpe nt start start (116 ∷ []) ≡ refused 2
unfolding execvpe
execvpe_run = refl
