-- ===== src/Procfs/Content/Reading.antt =====
-- What a reader gets of a text of the process files, shim/procfs/core/open.c, after a seek.
use rust_ape.Prelude.{
  ℕ, zero, suc, ◌+◌, ◌-◌, ◌%◌, ◌^◌, ◌<◌, ◌≤◌, ◌≡◌, refl, sym, ap, ap₂, ◌∙◌, Bool, true, false, not,
  ◌&&◌, ◌||◌, ◌==◌, leb, min, List, [], ◌∷◌, ◌++◌, Option, none, some, ltb, length, Bool-cases, inl,
  inr, take, drop, arith,
}
use native.Mathlib.Numerals.{unary_clauses}
use rust_ape.Procfs.Content.{
  Memfd, Fresh, read_vectors, memfd_read, seek_set, regenerated, rewind, moved, memfd_lseek,
}

-- The bytes that the vectors get, one after the other, and the room in them.
unfoldable pub joined : List (List ℕ) → List ℕ
joined [] = []
joined (x ∷ xs) = x ++ joined xs

unfoldable pub room : List ℕ → ℕ
room [] = 0
room (len ∷ lens) = len + room lens

-- The bytes of two readings, where both succeed.
unfoldable pub both : Option (List (List ℕ)) → Option (List (List ℕ)) → Option (List ℕ)
both (some a) (some b) = some (joined a ++ joined b)
both _ _ = none

take_nil : (n : ℕ) → take {A = ℕ} n [] ≡ []
take_nil zero = refl
take_nil (suc n) = refl

take_split :
    (n k s : ℕ) (xs : List ℕ)
    → n ≤ k
    → (n < k → length xs ≤ n)
    → take n xs ++ take s (drop n xs) ≡ take (k + s) xs
take_split zero zero s xs le h = ap (λ i. take i xs) (omega arith)
take_split zero (suc k) s [] le h = take_nil s ∙ sym (take_nil (suc k + s))
take_split zero (suc k) s (x ∷ xs) le h = absurd (omega (arith, h (omega arith)))
take_split (suc n) zero s xs le h = absurd (omega arith)
take_split (suc n) (suc k) s [] le h = take_nil s ∙ sym (take_nil (suc k + s))
take_split (suc n) (suc k) s (x ∷ xs) le h =
    let e : suc (k + s) ≡ suc k + s = omega arith in
    ap (λ r. x ∷ r) (take_split n k s xs (omega arith) (λ lt. omega (arith, h (omega arith))))
    ∙ ap (λ i. take i (x ∷ xs)) e

drop-drop : (a b : ℕ) (xs : List ℕ) → drop b (drop a xs) ≡ drop (a + b) xs
drop-drop zero b xs = ap (λ i. drop i xs) (omega arith)
drop-drop (suc a) zero [] = simp unary_clauses refl
drop-drop (suc a) (suc b) [] = simp unary_clauses refl
drop-drop (suc a) b (x ∷ xs) =
    let e : suc (a + b) ≡ suc a + b = omega arith in drop-drop a b xs ∙ ap (λ i. drop i (x ∷ xs)) e

length-drop : (a : ℕ) (xs : List ℕ) → length (drop a xs) ≡ length xs - a
length-drop zero xs = omega arith
length-drop (suc a) [] = omega arith
length-drop (suc a) (x ∷ xs) = length-drop a xs ∙ omega arith

drop_past : (a : ℕ) (xs : List ℕ) → length xs ≤ a → drop a xs ≡ []
drop_past zero [] h = refl
drop_past zero (x ∷ xs) h = absurd (omega arith)
drop_past (suc a) [] h = refl
drop_past (suc a) (x ∷ xs) h = drop_past a xs (omega arith)

-- A reading of any vectors gets the bytes that follow the position, and leaves the position behind
-- them.
joined-read_vectors :
    (text : List ℕ) (pos : ℕ) (lens : List ℕ)
    → joined (read_vectors text pos lens).0 ≡ take (room lens) (drop pos text)
unfolding joined room read_vectors
joined-read_vectors text pos [] = refl
joined-read_vectors text pos (len ∷ lens) =
    let k = min (length text - pos) len in
    elim (Bool-cases (ltb pos (length text))) [
      | inl t ↦ rw t (
          ap (λ r. take k (drop pos text) ++ r)
            (joined-read_vectors text (pos + k) lens
              ∙ ap (λ r. take (room lens) r) (sym (drop-drop pos k text)))
          ∙ take_split k len (room lens) (drop pos text) (omega arith)
              (λ lt. omega (arith, length-drop pos text)))
      | inr f ↦ rw (f, drop_past pos text (ground (arith, f))) (sym (take_nil (len + room lens)))
    ]

-- The end of a reading, for the next one.
same_rest :
    (k len r : ℕ) (pos : ℕ) (text : List ℕ)
    → k ≡ min (length text - pos) len
    → drop (pos + k + r) text ≡ drop (pos + (len + r)) text
same_rest k len r pos text e = elim (Bool-cases (ltb k len)) [
  | inl lt ↦
      drop_past (pos + k + r) text (ground (arith, e, lt))
      ∙ sym (drop_past (pos + (len + r)) text (ground (arith, e, lt)))
  | inr ge ↦ ap (λ i. drop i text) (ground (arith, e, ge))
]

read_vectors_end :
    (text : List ℕ) (pos : ℕ) (lens : List ℕ)
    → drop (read_vectors text pos lens).1 text ≡ drop (pos + room lens) text
unfolding room read_vectors
read_vectors_end text pos [] = ap (λ i. drop i text) (omega arith)
read_vectors_end text pos (len ∷ lens) =
    let k = min (length text - pos) len in
    elim (Bool-cases (ltb pos (length text))) [
      | inl t ↦
          rw t (read_vectors_end text (pos + k) lens ∙ same_rest k len (room lens) pos text refl)
      | inr f ↦ rw f (
          drop_past pos text (ground (arith, f))
          ∙ sym (drop_past (pos + (len + room lens)) text (ground (arith, f))))
    ]

file_read :
    (xs : List ℕ) (m : Memfd)
    → m.is_dir ≡ false
    → memfd_read xs m
      ≡ (some (read_vectors m.text m.pos xs).0, record m { pos = (read_vectors m.text m.pos xs).1 })
unfolding memfd_read
file_read xs m d = rw d refl

-- Two readings, one after the other.
two_readings :
    (m : Memfd) (xs ys : List ℕ)
    → m.is_dir ≡ false
    → let (first, m1) = memfd_read xs m in
      both first (memfd_read ys m1).0 ≡ some (take (room xs + room ys) (drop m.pos m.text))
unfolding both
two_readings m xs ys d =
    rw (file_read xs m d, file_read ys (record m { pos = (read_vectors m.text m.pos xs).1 }) d)
      (ap some (
        ap₂ ◌++◌ (joined-read_vectors m.text m.pos xs) (
          joined-read_vectors m.text (read_vectors m.text m.pos xs).1 ys
          ∙ ap (take (room ys))
              (read_vectors_end m.text m.pos xs ∙ sym (drop-drop m.pos (room xs) m.text)))
        ∙ take_split (room xs) (room xs) (room ys) (drop m.pos m.text) (omega arith)
            (λ lt. omega arith)))

-- The text that a seek from the start leaves: the fresh one where the seek is to the very start, none
-- is being made already, the text at hand is of no generation or of an old one, and a fresh one
-- can be made; the text at hand otherwise.
abbrev pub finds_fresh : Fresh → ℕ → Memfd → Bool
finds_fresh w off m = (off == 0 && not w.is_busy) && (m.gen == 0 || not (m.gen == w.gen_before))

abbrev pub fresh_or : Bool → Option (List ℕ) → List ℕ → List ℕ
fresh_or true (some t) old = t
fresh_or _ _ old = old

-- A seek from the start goes where it says, with that text.
abbrev IsLeft : List ℕ → ℕ → Memfd → Type 0
IsLeft text off m = (m.text ≡ text) × (m.pos ≡ off) × (m.is_dir ≡ false)

regenerated-IsLeft :
    (w : Fresh) (o : Option (List ℕ)) (m : Memfd)
    → m.is_dir ≡ false
    → IsLeft (fresh_or true o m.text) 0 (regenerated w o m)
unfolding regenerated
regenerated-IsLeft w none m d = (refl, refl, d)
regenerated-IsLeft w (some t) m d = (refl, refl, d)

rewind-IsLeft :
    (w : Fresh) (m : Memfd)
    → m.is_dir ≡ false
    → IsLeft
        (fresh_or (m.gen == 0 || not (m.gen == w.gen_before)) w.generated m.text)
        0
        (rewind w m)
unfolding rewind
rewind-IsLeft w m d = elim (Bool-cases (m.gen == 0 || not (m.gen == w.gen_before))) [
  | inl stale ↦ rw stale (regenerated-IsLeft w w.generated m d)
  | inr kept ↦ rw kept (refl, refl, d)
]

moved_start :
    (m : Memfd) (off : ℕ) → off < 2 ^ 63 → moved 0 off m ≡ (some off, record m { pos = off })
unfolding moved
moved_start m off lt =
    let e : (0 + off) % 2 ^ 64 ≡ off = omega arith in
    let below : leb (2 ^ 63) off ≡ false = ground (arith, lt) in rw (e, below) refl

not_busy :
    (w : Fresh) (off : ℕ) (m : Memfd)
    → m.is_dir ≡ false
    → (off == 0 && not w.is_busy) ≡ ((off == 0 && true) && (not w.is_busy && not m.is_dir))
not_busy w off m d = ground (arith, d)

seek_start :
    (w : Fresh) (m : Memfd) (off : ℕ)
    → m.is_dir ≡ false
    → off < 2 ^ 63
    → let (r, m1) = memfd_lseek w off seek_set m in
      (r ≡ some off) × IsLeft (fresh_or (finds_fresh w off m) w.generated m.text) off m1
unfolding memfd_lseek
seek_start w m off d lt =
    elim (Bool-cases ((off == 0 && true) && (not w.is_busy && not m.is_dir))) [
      | inl t ↦
          let z : 0 ≡ off = ground (arith, t) in
          let (text, at, file) = rewind-IsLeft w m d in
          rw (not_busy w off m d, t) (ap some z, (text, at ∙ z, file))
      | inr f ↦ rw (not_busy w off m d, f, moved_start m off lt) (refl, (refl, refl, d))
    ]

-- After a seek from the start, two readings into any vectors get the bytes of the text from there on, each
-- once and in order, as many as there is room for: of the fresh text where the seek is a rewind, none is
-- being made already, the text at hand is of no generation or of an old one, and a fresh one can be
-- made; of the text at hand otherwise. The descriptor is no directory's, and the offset is not negative.
pub lseek_read :
    (w : Fresh) (m : Memfd) (off : ℕ) (xs ys : List ℕ)
    → m.is_dir ≡ false
    → off < 2 ^ 63
    → let (r, m1) = memfd_lseek w off seek_set m in
      let (first, m2) = memfd_read xs m1 in
      (r ≡ some off)
      × (both first (memfd_read ys m2).0
          ≡ some (
              take
                (room xs + room ys)
                (drop off (fresh_or (finds_fresh w off m) w.generated m.text))))
lseek_read w m off xs ys d lt =
    let m1 = (memfd_lseek w off seek_set m).1 in
    let (r, (text, at, file)) = seek_start w m off d lt in
    (
      r,
      two_readings m1 xs ys file
          ∙ (ap (λ i. some (take (room xs + room ys) (drop i m1.text))) at
              ∙ ap (λ t. some (take (room xs + room ys) (drop off t))) text),
    )
