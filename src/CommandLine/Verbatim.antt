-- ===== src/CommandLine/Verbatim.antt =====
-- shim/mkntcmdline.c on arguments without a quotation mark.
use rust_ape.Prelude.{
  ℕ, zero, suc, ◌+◌, ◌*◌, ◌≡◌, refl, Bool, true, false, ◌&&◌, List, [], ◌∷◌, ◌++◌, ◌==◌,
  if◌then◌else◌, length, replicate, arith, All, Bool-cases, inl, inr, ap, ◌∙◌, sym, append_assoc,
  append-nil,
}
use rust_ape.CommandLine.{Library, needs_quotes, native_arg, quote_chars, quote_text, quote_arg}

-- The units of a text.
abbrev pub encoded : (ℕ → List ℕ) → List ℕ → List ℕ
encoded encode [] = []
encoded encode (x ∷ xs) = encode x ++ encoded encode xs

abbrev pub all_slashes : List ℕ → Bool
all_slashes [] = true
all_slashes (x ∷ xs) = x == 92 && all_slashes xs

-- How many backslashes a text ends in.
abbrev pub trailing : List ℕ → ℕ
trailing [] = 0
trailing (x ∷ xs) = if all_slashes (x ∷ xs) then suc (length xs) else trailing xs

replicate-snoc : (n : ℕ) (xs : List ℕ) → replicate (suc n) 92 ++ xs ≡ replicate n 92 ++ (92 ∷ xs)
replicate-snoc zero xs = refl
replicate-snoc (suc n) xs = ap (λ t. 92 ∷ t) (replicate-snoc n xs)

trailing-all : (xs : List ℕ) → (if all_slashes xs then length xs else trailing xs) ≡ trailing xs
trailing-all [] = refl
trailing-all (x ∷ xs) = ground arith

doubled-split : (n : ℕ) → replicate (n * 2) 92 ≡ replicate {A = ℕ} n 92 ++ replicate n 92
doubled-split zero = refl
doubled-split (suc n) =
    let two : suc n * 2 ≡ suc (suc (n * 2)) = omega arith in
    ap (λ (k : ℕ). replicate {A = ℕ} k 92) two
    ∙ ap (λ t. 92 ∷ 92 ∷ t) (doubled-split n)
    ∙ ap (λ t. 92 ∷ t) (replicate-snoc n (replicate n 92))

module _ (encode : ℕ → List ℕ) (slash : encode 92 ≡ 92 ∷ []) where
  quote-slash :
      (x : ℕ) (xs : List ℕ) (s : ℕ)
      → (x == 92) ≡ true
      → quote_chars encode (x ∷ xs) s ≡ quote_chars encode xs (suc s)
  unfolding quote_chars
  quote-slash x xs s q = rw q

  quote-other :
      (x : ℕ) (xs : List ℕ) (s : ℕ)
      → (x == 92) ≡ false
      → (x == 34) ≡ false
      → quote_chars encode (x ∷ xs) s
        ≡ (replicate s 92 ++ (encode x ++ (quote_chars encode xs 0).0), (quote_chars encode xs 0).1)
  unfolding quote_chars
  quote-other x xs s q r = rw (q, r)

  slashes-trailing :
      (xs : List ℕ) (s : ℕ)
      → All (λ x. (x == 34) ≡ false) xs
      → (quote_chars encode xs s).1 ≡ (if all_slashes xs then s + length xs else trailing xs)
  unfolding quote_chars
  slashes-trailing [] s h = omega arith
  slashes-trailing (x ∷ xs) s h = elim (Bool-cases (x == 92)) [
    | inl q ↦ ground (arith, q, slashes-trailing xs (suc s) h.1)
    | inr q ↦ ground (arith, q, h.0, slashes-trailing xs 0 h.1, trailing-all xs)
  ]

  whole : List ℕ × ℕ → List ℕ
  whole r = r.0 ++ replicate r.1 92

  quote_chars-encoded :
      (xs : List ℕ) (s : ℕ)
      → All (λ x. (x == 34) ≡ false) xs
      → (quote_chars encode xs s).0 ++ replicate (quote_chars encode xs s).1 92
        ≡ replicate s 92 ++ encoded encode xs
  unfolding whole
  quote_chars-encoded [] s h = unfold quote_chars in sym (append-nil (replicate s 92))
  quote_chars-encoded (x ∷ xs) s h =
      let r = quote_chars encode xs 0 in
      elim (Bool-cases (x == 92)) [
        | inl q ↦
            ap whole (quote-slash x xs s q)
            ∙ quote_chars-encoded xs (suc s) h.1
            ∙ replicate-snoc s (encoded encode xs)
            ∙ ap (λ t. replicate s 92 ++ (t ++ encoded encode xs))
                (sym slash ∙ ap encode (ground (arith, q)))
        | inr q ↦
            ap whole (quote-other x xs s q h.0)
            ∙ append_assoc (replicate s 92) (encode x ++ r.0) (replicate r.1 92)
            ∙ ap (λ t. replicate s 92 ++ t)
                (append_assoc (encode x) r.0 (replicate r.1 92)
                  ∙ ap (λ t. encode x ++ t) (quote_chars-encoded xs 0 h.1))
      ]

  quote_chars-trailing :
      (xs : List ℕ) → All (λ x. (x == 34) ≡ false) xs → (quote_chars encode xs 0).1 ≡ trailing xs
  quote_chars-trailing xs h = ground (arith, slashes-trailing xs 0 h, trailing-all xs)

  quote_text-plain :
      (xs : List ℕ)
      → All (λ x. (x == 34) ≡ false) xs
      → quote_text encode false xs ≡ encoded encode xs
  unfolding quote_text
  quote_text-plain xs h =
      let r = quote_chars encode xs 0 in
      ap (λ t. r.0 ++ t) (append-nil (replicate r.1 92)) ∙ quote_chars-encoded xs 0 h

  quote_text-quoted :
      (xs : List ℕ)
      → All (λ x. (x == 34) ≡ false) xs
      → quote_text encode true xs
        ≡ 34 ∷ (encoded encode xs ++ (replicate (trailing xs) 92 ++ (34 ∷ [])))
  unfolding quote_text
  quote_text-quoted xs h =
      let r = quote_chars encode xs 0 in
      let run = replicate r.1 92 in
      ap (λ t. 34 ∷ t)
        (ap (λ t. r.0 ++ (t ++ (34 ∷ []))) (doubled-split r.1)
          ∙ ap (λ t. r.0 ++ t) (append_assoc run run (34 ∷ []))
          ∙ sym (append_assoc r.0 run (run ++ (34 ∷ [])))
          ∙ ap (λ t. t ++ (run ++ (34 ∷ []))) (quote_chars-encoded xs 0 h)
          ∙ ap (λ n. encoded encode xs ++ (replicate n 92 ++ (34 ∷ [])))
              (quote_chars-trailing xs h))

-- An argument without a quotation mark is written unit by unit as it is; where it needs quotes it
-- stands between two, with the backslashes that it ends in written once more before the second.
pub quote_arg_verbatim :
    (l : Library) (native : Bool) (s : List ℕ)
    → l.encode 92 ≡ 92 ∷ []
    → All (λ x. (x == 34) ≡ false) (l.decode (native_arg l native s))
    → quote_arg l native s ≡ (
        let arg = native_arg l native s in
        let text = encoded l.encode (l.decode arg) in
        if needs_quotes arg
        then 34 ∷ (text ++ (replicate (trailing (l.decode arg)) 92 ++ (34 ∷ [])))
        else text)
unfolding quote_arg
quote_arg_verbatim l native s slash h = either (needs_quotes (native_arg l native s))
  where
    either :
        (b : Bool)
        → quote_text l.encode b (l.decode (native_arg l native s)) ≡ (
            if b
            then 34
              ∷ (encoded l.encode (l.decode (native_arg l native s))
                  ++ (replicate (trailing (l.decode (native_arg l native s))) 92 ++ (34 ∷ [])))
            else encoded l.encode (l.decode (native_arg l native s)))
    either true = quote_text-quoted l.encode slash (l.decode (native_arg l native s)) h
    either false = quote_text-plain l.encode slash (l.decode (native_arg l native s)) h
