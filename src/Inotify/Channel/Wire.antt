-- ===== src/Inotify/Channel/Wire.antt =====
-- The bytes of the records of shim/inotify.c, and a reader beside them.
use rust_ape.Prelude.{
  ℕ, zero, suc, ◌+◌, ◌-◌, ◌*◌, ◌^◌, ◌≤◌, ◌<◌, ◌≡◌, refl, false, List, [], ◌∷◌, ◌++◌, ◌==◌,
  if◌then◌else◌, length, length-append, length-take, length-replicate, take-append, drop-append,
  ap₂, take, drop, replicate, min, arith, All, ap, ◌∙◌, sym,
}
use rust_ape.Inotify.Channel.{Notice, word_bytes, padded_len, record_bytes}

-- The number that four bytes stand for.
abbrev pub word_at : List ℕ → ℕ
word_at (a ∷ b ∷ c ∷ d ∷ _) = a + 256 * b + 256 * 256 * c + 256 * 256 * 256 * d
word_at _ = 0

-- A C string: up to the first NUL.
abbrev pub text_of : List ℕ → List ℕ
text_of [] = []
text_of (c ∷ s) = if c == 0 then [] else c ∷ text_of s

-- How a program reads its inotify descriptor: a header of 16 bytes, and `len` bytes of name.
abbrev pub read_record : List ℕ → Notice × List ℕ
read_record s =
    let len = word_at (drop 12 s) in
    (
      record { wd = word_at s; mask = word_at (drop 4 s); name = text_of (take len (drop 16 s)) },
      drop len (drop 16 s),
    )

word_at-word_bytes : (x : ℕ) (s : List ℕ) → x < 2 ^ 32 → word_at (word_bytes x ++ s) ≡ x
word_at-word_bytes x s h = omega arith

text_of-zeros : (k : ℕ) → text_of (replicate k 0) ≡ []
text_of-zeros zero = refl
text_of-zeros (suc k) = refl

text_of-padded :
    (s : List ℕ) (k : ℕ) → All (λ c. (c == 0) ≡ false) s → text_of (s ++ replicate k 0) ≡ s
text_of-padded [] k h = text_of-zeros k
text_of-padded (c ∷ s) k h = rw h.0 (ap (λ t. c ∷ t) (text_of-padded s k h.1))

All-take : (P : ℕ → Type 0) (n : ℕ) (s : List ℕ) → All P s → All P (take n s)
All-take P zero s h = tt
All-take P (suc n) [] h = tt
All-take P (suc n) (c ∷ s) h = (h.0, All-take P n s h.1)

-- What stands behind the header.
abbrev body : ℕ → List ℕ → List ℕ
body n name = take n name ++ replicate (padded_len n - n) 0

padded_len-ge : (n : ℕ) → n ≤ padded_len n
padded_len-ge n = ground arith

padded_len-small : (n : ℕ) → n ≤ 4096 → padded_len n < 2 ^ 32
padded_len-small n h = ground arith

length-body : (n : ℕ) (name : List ℕ) → n ≤ length name → length (body n name) ≡ padded_len n
length-body n name h = ground (
  arith,
  length-append (take n name) (replicate (padded_len n - n) 0),
  length-take n name h,
  length-replicate {A = ℕ} (padded_len n - n) 0,
  padded_len-ge n,
)

read_body :
    (len : ℕ) (s rest : List ℕ)
    → length s ≡ len
    → (take len (s ++ rest) ≡ s) × (drop len (s ++ rest) ≡ rest)
read_body len s rest e = (
  ap (λ k. take k (s ++ rest)) (sym e) ∙ take-append s rest,
  ap (λ k. drop k (s ++ rest)) (sym e) ∙ drop-append s rest,
)

-- A reader gets back the record that was written, its name cut to `NAME_MAX`, and stands behind
-- it, where the name has no NUL in it and `NAME_MAX` is 4096 at most.
pub read_record-record_bytes :
    (name_max : ℕ) (ev : Notice) (rest : List ℕ)
    → name_max ≤ 4096
    → ev.wd < 2 ^ 32
    → ev.mask < 2 ^ 32
    → All (λ c. (c == 0) ≡ false) ev.name
    → read_record (record_bytes name_max ev ++ rest) ≡ (
      record { wd = ev.wd; mask = ev.mask; name = take (min (length ev.name) name_max) ev.name },
      rest,
    )
unfolding record_bytes
read_record-record_bytes name_max ev rest small hw hm hn =
    let n : ℕ = min (length ev.name) name_max in
    let b = body n ev.name in
    let s = record_bytes name_max ev ++ rest in
    let len : word_at (drop 12 s) ≡ padded_len n =
      word_at-word_bytes (padded_len n) (b ++ rest) (padded_len-small n (omega arith)) in
    let wd : word_at s ≡ ev.wd = omega arith in
    let mask : word_at (drop 4 s) ≡ ev.mask = omega arith in
    let got =
      read_body (word_at (drop 12 s)) b rest (length-body n ev.name (omega arith) ∙ sym len) in
    let name : text_of (take (word_at (drop 12 s)) (drop 16 s)) ≡ take n ev.name =
      ap text_of got.0 ∙ text_of-padded (take n ev.name) _ (All-take _ n ev.name hn) in
    ap₂ (λ (r : Notice) (t : List ℕ). (r, t))
      (ap₂ (λ (h : ℕ × ℕ) (t : List ℕ). record { wd = h.0; mask = h.1; name = t })
        (ap₂ (λ (x y : ℕ). (x, y)) wd mask) name)
      got.1
