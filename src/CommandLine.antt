-- ===== src/CommandLine.antt =====
-- shim/mkntcmdline.c: the command line of an NT process from the arguments. The decoding of UTF-8,
-- the encoding of UTF-16 and `mungentpath` are the C library's, and arguments here, as are the
-- drives that exist. A path that does not fit `argbuf` is left as it is.
pub mod Verbatim
mod Tests
use rust_ape.Prelude.{
  ℕ, zero, suc, ◌+◌, ◌*◌, ◌-◌, ◌≡◌, Bool, true, false, not, ◌&&◌, ◌||◌, List, [], ◌∷◌, ◌++◌, ltb,
  ◌==◌, if◌then◌else◌, length, get_or, take, replicate, min,
}
use rust_ape.Unc.{is_alpha}

-- What the file takes from the C library and the host: the characters of an argument, the units of
-- a character, the rewriting of a path, `PATH_MAX`, and the test for a drive.
pub record Library : Type 0 where
  pub decode : List ℕ → List ℕ
  pub encode : ℕ → List ℕ
  pub munge : List ℕ → List ℕ
  pub path_max : ℕ
  pub drive_exists : ℕ → Bool

-- The bytes that `NeedsQuotes` looks for.
abbrev pub breaks_word : ℕ → Bool
breaks_word c = c == 34 || (c == 32 || (c == 9 || (c == 11 || c == 10)))

abbrev pub any_breaks : List ℕ → Bool
any_breaks [] = false
any_breaks (c ∷ s) = breaks_word c || any_breaks s

-- `NeedsQuotes`
abbrev pub needs_quotes : List ℕ → Bool
needs_quotes [] = true
needs_quotes (c ∷ s) = any_breaks (c ∷ s)

-- `LooksLikeCosmoDrivePath`
abbrev pub is_drive_path : List ℕ → Bool
is_drive_path s = get_or s 0 0 == 47 && (is_alpha (get_or s 1 0) && get_or s 2 0 == 47)

-- The argument, rewritten for a native child.
abbrev pub native_arg : Library → Bool → List ℕ → List ℕ
native_arg l native s =
    if native && (is_drive_path s && (l.drive_exists (get_or s 1 0) && ltb (length s) l.path_max))
    then l.munge s
    else s

-- The loop over the characters: what it appends, and the backslashes that are still pending.
unfoldable pub quote_chars : (ℕ → List ℕ) → List ℕ → ℕ → List ℕ × ℕ
quote_chars encode [] slashes = ([], slashes)
quote_chars encode (x ∷ xs) slashes =
    let after_slash = quote_chars encode xs (suc slashes) in
    let after_quote = quote_chars encode xs slashes in
    let after_other = quote_chars encode xs 0 in
    if x == 92
    then after_slash
    else if x == 34
    then (34 ∷ 34 ∷ 34 ∷ after_quote.0, after_quote.1)
    else (replicate slashes 92 ++ (encode x ++ after_other.0), after_other.1)

-- `slashes << needsquote`
abbrev pub doubled : Bool → ℕ → ℕ
doubled b n = if b then n * 2 else n

abbrev pub quote_mark : Bool → List ℕ
quote_mark b = if b then 34 ∷ [] else []

-- The characters of an argument, with the quotes around them where `b` says so.
unfoldable pub quote_text : (ℕ → List ℕ) → Bool → List ℕ → List ℕ
unfolding quote_chars
quote_text encode b xs =
    let (text, slashes) = quote_chars encode xs 0 in
    quote_mark b ++ (text ++ (replicate (doubled b slashes) 92 ++ quote_mark b))

-- One argument of the outer loop.
unfoldable pub quote_arg : Library → Bool → List ℕ → List ℕ
unfolding quote_text
quote_arg l native s =
    let arg = native_arg l native s in quote_text l.encode (needs_quotes arg) (l.decode arg)

-- The outer loop, with a space before every argument but the first.
unfoldable pub join_args : Library → Bool → List (List ℕ) → List ℕ
unfolding quote_arg
join_args l native [] = []
join_args l native (s ∷ []) = quote_arg l native s
join_args l native (s ∷ (t ∷ ss)) =
    let rest = join_args l native (t ∷ ss) in quote_arg l native s ++ (32 ∷ rest)

-- `__ape_shim_mkntcmdline`: what stands in the buffer before its NUL, and the length returned.
unfoldable pub mkntcmdline : Library → Bool → List (List ℕ) → ℕ → List ℕ × ℕ
unfolding join_args
mkntcmdline l native argv size =
    let line = join_args l native argv in (take (min (length line) (size - 1)) line, length line)
