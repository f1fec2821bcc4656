-- ===== src/UncRest.antt =====
-- `__normuncrest` of shim/mkntpath.c: what follows a UNC root is normalised in place. The array is
-- a list, and what has been written, `p[0..j)`, is a list with the last character first. The
-- text is one that is empty or starts with a slash, as what follows a root does: only there is each
-- name still unharmed when it is moved.
pub mod Stack
pub mod Laws
pub mod InPlace
mod Tests
use rust_ape.Prelude.{
  ℕ, zero, suc, Bool, true, false, not, ◌&&◌, ◌||◌, List, [], ◌∷◌, ◌++◌, ◌==◌, if◌then◌else◌,
  length, last,
}

-- `p[i] == '\\' || p[i] == '/'`
abbrev pub is_sep : ℕ → Bool
is_sep c = c == 92 || c == 47

-- The two inner loops: over the separators, and to the end of a name.
unfoldable pub skip_seps : List ℕ → List ℕ
skip_seps [] = []
skip_seps (c ∷ p) = let rest = skip_seps p in if is_sep c then rest else c ∷ p

unfoldable pub name_of : List ℕ → List ℕ
name_of [] = []
name_of (c ∷ p) = let rest = name_of p in if is_sep c then [] else c ∷ rest

unfoldable pub after_name : List ℕ → List ℕ
after_name [] = []
after_name (c ∷ p) = let rest = after_name p in if is_sep c then c ∷ p else rest

-- `while (j && p[j - 1] != '\\') j--; if (j) j--;`
unfoldable pub pop : List ℕ → List ℕ
pop [] = []
pop (c ∷ out) = let rest = pop out in if c == 92 then out else rest

-- `memmove` of a name to the end of what has been written.
unfoldable pub write_name : List ℕ → List ℕ → List ℕ
write_name [] out = out
write_name (c ∷ name) out = write_name name (c ∷ out)

abbrev pub is_nil : List ℕ → Bool
is_nil [] = true
is_nil (c ∷ p) = false

abbrev pub is_dot : List ℕ → Bool
is_dot (c ∷ []) = c == 46
is_dot _ = false

abbrev pub is_dot_dot : List ℕ → Bool
is_dot_dot (c ∷ d ∷ []) = c == 46 && d == 46
is_dot_dot _ = false

-- What one name does to what has been written, and to `*climbed`.
unfoldable pub resolve_name : List ℕ → List ℕ × Bool → List ℕ × Bool
unfolding pop write_name
resolve_name name (out, climbed) =
    if is_dot name
    then (out, climbed)
    else if is_dot_dot name
    then if is_nil out then (out, true) else (pop out, climbed)
    else if is_nil name
    then (out, climbed)
    else (write_name name (92 ∷ out), climbed)

-- The outer loop. Each round but the last reads a character, so their number is fuel enough.
unfoldable pub norm_loop : ℕ → List ℕ → List ℕ × Bool → List ℕ × Bool
unfolding skip_seps name_of after_name resolve_name
norm_loop zero p s = s
norm_loop (suc n) [] s = s
norm_loop (suc n) (c ∷ p) s =
    let q = skip_seps (c ∷ p) in norm_loop n (after_name q) (resolve_name (name_of q) s)

-- `n && (p[n - 1] == '\\' || p[n - 1] == '/')`
abbrev pub ends_in_sep : List ℕ → Bool
ends_in_sep [] = false
ends_in_sep (c ∷ p) = is_sep (last c p)

-- `__normuncrest`: what is written, the last character first, and `*climbed`.
unfoldable pub norm_rest : List ℕ → List ℕ × Bool
unfolding norm_loop
norm_rest p =
    let (out, climbed) = norm_loop (length p) p ([], false) in
    (if ends_in_sep p && not (is_nil out) then 92 ∷ out else out, climbed)
