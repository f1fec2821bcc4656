-- ===== src/CommandLine/Tests.antt =====
-- Runs of the command line, with a library that changes nothing.
use rust_ape.Prelude.{ℕ, ◌≡◌, refl, true, List, [], ◌∷◌, ◌==◌}
use rust_ape.CommandLine.{Library, quote_chars, quote_text, quote_arg, join_args, mkntcmdline}
use rust_ape.CommandLine.Verbatim.{quote_arg_verbatim}

abbrev plain : Library
plain = record {
  decode = λ s. s;
  encode = λ x. x ∷ [];
  munge = λ s. s;
  path_max = 1024;
  drive_exists = λ d. d == 99;
}

-- `a b\` and `c`, in a buffer of 6
abbrev spaced : List ℕ
spaced = 97 ∷ 32 ∷ 98 ∷ 92 ∷ []

cut_short : mkntcmdline plain true (spaced ∷ (99 ∷ []) ∷ []) 6 ≡ (34 ∷ 97 ∷ 32 ∷ 98 ∷ 92 ∷ [], 9)
unfolding mkntcmdline join_args quote_arg quote_text quote_chars
cut_short = refl

-- A backslash before a quotation mark comes out after it.
moved_behind : quote_arg plain true (92 ∷ 34 ∷ 98 ∷ []) ≡ 34 ∷ 34 ∷ 34 ∷ 34 ∷ 92 ∷ 98 ∷ 34 ∷ []
unfolding quote_arg quote_text quote_chars
moved_behind = refl

quote_arg_verbatim_example : quote_arg plain true spaced ≡ 34 ∷ 97 ∷ 32 ∷ 98 ∷ 92 ∷ 92 ∷ 34 ∷ []
quote_arg_verbatim_example =
    quote_arg_verbatim plain true spaced refl (refl, (refl, (refl, (refl, tt))))
