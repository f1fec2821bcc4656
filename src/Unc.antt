-- ===== src/Unc.antt =====
-- The registry of UNC roots in shim/mkntpath.c: a share that has been seen as "//server/share" is
-- remembered, so that a path whose two leading slashes were collapsed into one is known again. A C
-- string is the list of its bytes, and reading past its end gives 0.
pub mod Shares
pub mod Spelling
pub mod Registry
mod Tests
use rust_ape.Prelude.{
  ℕ, zero, suc, ◌+◌, ◌-◌, Bool, true, false, not, ◌&&◌, ◌||◌, List, [], ◌∷◌, ◌++◌, ltb, leb, ◌==◌,
  if◌then◌else◌, length, get_or, take, drop,
}

-- `IsSlash`, `IsAlpha`, `Lower`
abbrev pub is_slash : ℕ → Bool
is_slash c = c == 47 || c == 92

abbrev pub is_alpha : ℕ → Bool
is_alpha c = (leb 65 c && leb c 90) || (leb 97 c && leb c 122)

abbrev pub lower : ℕ → ℕ
lower c = if leb 65 c && leb c 90 then c + 32 else c

-- `UNC_ROOT_MAX`, `UNC_ROOT_LEN`
abbrev pub unc_root_max : ℕ
unc_root_max = 16

abbrev pub unc_root_len_max : ℕ
unc_root_len_max = 256

-- `p[i]`
abbrev pub at : List ℕ → ℕ → ℕ
at p i = get_or p i 0

-- `while (p[i] && !IsSlash(p[i])) i++;`
unfoldable pub name_len : List ℕ → ℕ
name_len [] = 0
name_len (c ∷ p) = let rest = name_len p in if is_slash c then 0 else suc rest

-- The rest of `UncRootLen` from the share on, which starts at index `i`.
unfoldable pub share_end : List ℕ → ℕ → ℕ
unfolding name_len
share_end p i =
    let share = drop i p in
    let len = name_len share in
    if at share 0 == 46 && (len == 1 || (len == 2 && at share 1 == 46))
    then 0
    else if ltb (i + len) unc_root_len_max
    then i + len
    else 0

-- `UncRootLen`
unfoldable pub unc_root_len : List ℕ → ℕ
unfolding name_len share_end
unc_root_len p =
    let i = name_len p in
    if at p 0 == 0 || (is_slash (at p 0) || (at p 0 == 63 || at p 0 == 46))
    then 0
    else if not (is_slash (at p i)) || (at p (i + 1) == 0 || is_slash (at p (i + 1)))
    then 0
    else share_end p (i + 1)

-- What follows the first byte of a string.
abbrev pub next_of : List ℕ → List ℕ
next_of [] = []
next_of (c ∷ p) = p

-- One round of the loop of `UncRootEquals`.
abbrev pub same_char : ℕ → ℕ → Bool
same_char a b = (is_slash a && is_slash b) || lower a == lower b

-- `UncRootEquals`
unfoldable pub root_equals : List ℕ → List ℕ → ℕ → Bool
root_equals root p zero = at root 0 == 0
root_equals root p (suc n) =
    let rest = root_equals (next_of root) (next_of p) n in same_char (at root 0) (at p 0) && rest

-- `UncRootKnown`, over the entries that the count publishes.
unfoldable pub root_known : List (List ℕ) → List ℕ → ℕ → Bool
unfolding root_equals
root_known [] p n = false
root_known (r ∷ roots) p n = root_equals r p n || root_known roots p n

-- What `__ape_shim_unc_note` does under its lock with a root of `n` bytes.
unfoldable pub store_root : List ℕ → ℕ → List (List ℕ) → List (List ℕ)
unfolding root_known
store_root p n roots =
    if not (root_known roots p n) && ltb (length roots) unc_root_max
    then roots ++ (take n p ∷ [])
    else roots

-- `__ape_shim_unc_note`; the list is `unc_roots[0..unc_count)`, and `others` what other threads
-- have done to it when the lock is taken.
unfoldable pub unc_note : (List (List ℕ) → List (List ℕ)) → List ℕ → List (List ℕ) → List (List ℕ)
unfolding unc_root_len root_known store_root
unc_note others path roots =
    let p = drop 2 path in
    let n = unc_root_len p in
    if not (is_slash (at path 0)) || not (is_slash (at path 1))
    then roots
    else if n == 0 || root_known roots p n
    then roots
    else store_root p n (others roots)

-- The loop over one root in `UncServerKnown`: `n` bytes in common, and then a slash.
unfoldable pub server_matches : List ℕ → List ℕ → ℕ → Bool
server_matches r p zero = is_slash (at r 0)
server_matches r p (suc n) =
    let rest = server_matches (next_of r) (next_of p) n in
    not (at r 0 == 0) && (lower (at r 0) == lower (at p 0) && rest)

-- `UncServerKnown`
unfoldable pub server_known : List (List ℕ) → List ℕ → ℕ → Bool
unfolding server_matches
server_known [] p n = false
server_known (r ∷ roots) p n = server_matches r p n || server_known roots p n

abbrev pub is_empty_roots : List (List ℕ) → Bool
is_empty_roots [] = true
is_empty_roots (r ∷ roots) = false

-- `IsCollapsedUnc`
unfoldable pub is_collapsed : List (List ℕ) → List ℕ → Bool
unfolding unc_root_len root_known server_known name_len
is_collapsed roots path =
    let p = drop 1 path in
    let n = unc_root_len p in
    let k = name_len p in
    if not (is_slash (at path 0)) || is_slash (at path 1)
    then false
    else if is_alpha (at path 1) && (is_slash (at path 2) || at path 2 == 0)
    then false
    else if is_empty_roots roots
    then false
    else if not (n == 0)
    then root_known roots p n
    else if not (at p k == 0) && (not (is_slash (at p k)) || not (at p (k + 1) == 0))
    then false
    else server_known roots p k
