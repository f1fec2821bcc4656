-- ===== src/Procfs/Decimal.antt =====
-- Numbers in paths of shim/procfs/core: what `%u` prints, `strtoul` reads.
use rust_ape.Prelude.{
  ℕ, zero, suc, ◌+◌, ◌-◌, ◌*◌, ◌/◌, ◌%◌, ◌^◌, ◌≤◌, ◌<◌, ◌≡◌, true, List, [], ◌∷◌, ◌++◌, ltb, length,
  length-append, All, All-append, arith, Bool-cases, inl, inr,
}
use native.Mathlib.Numerals.{unary_clauses}
use rust_ape.Procfs.{is_digit, number_of, decimal}

abbrev pub IsDigit : ℕ → Type 0
IsDigit c = is_digit c ≡ true

pub decimal-IsDigit : (k n : ℕ) → All IsDigit (decimal k n)
unfolding decimal
decimal-IsDigit zero n = (ground arith, tt)
decimal-IsDigit (suc k) n = elim (Bool-cases (ltb n 10)) [
  | inl q ↦ rw q (ground arith, tt)
  | inr q ↦
      rw q
        (All-append IsDigit (decimal k (n / 10)) _ (decimal-IsDigit k (n / 10)) (ground arith, tt))
]

pub length-decimal : (k n : ℕ) → (1 ≤ length (decimal k n)) × (length (decimal k n) ≤ suc k)
unfolding decimal
length-decimal zero n = (omega arith, omega arith)
length-decimal (suc k) n =
    ground
      (arith, length-decimal k (n / 10), length-append (decimal k (n / 10)) ((48 + n % 10) ∷ []))

number_of-append :
    (acc d : ℕ) (xs : List ℕ)
    → All IsDigit xs
    → d < 10
    → number_of acc (xs ++ ((48 + d) ∷ [])) ≡ number_of acc xs * 10 + d
unfolding number_of
number_of-append acc d [] h lt = ground arith
number_of-append acc d (x ∷ xs) (h, hs) lt =
    rw h (number_of-append (acc * 10 + (x - 48)) d xs hs lt)

-- A number of at most `suc k` decimal digits is read back from its digits.
pub number_of-decimal : (k n : ℕ) → n < 10 ^ suc k → number_of 0 (decimal k n) ≡ n
unfolding number_of decimal
number_of-decimal zero n h = let lt : n < 10 = h in ground arith
number_of-decimal (suc k) n h =
    let lt : n < 10 ^ k * 10 * 10 = simp unary_clauses at h in
    let ih = number_of-decimal k (n / 10) (simp unary_clauses (omega arith)) in
    elim (Bool-cases (ltb n 10)) [
      | inl q ↦ rw q (ground arith)
      | inr q ↦
          rw
            (
              q,
              number_of-append 0 (n % 10) (decimal k (n / 10)) (decimal-IsDigit k (n / 10))
                  (omega arith),
              ih,
            )
            (omega arith)
    ]
