-- ===== src/Signal/Masks/Sigwait.antt =====
-- The dispositions before, during and after `__ape_shim_sigwait` in shim/signal.c.
use rust_ape.Prelude.{
  ℕ, zero, suc, ◌+◌, ◌≡◌, refl, Bool, true, false, not, ◌&&◌, ◌||◌, List, [], ◌∷◌, Option, leb, ltb,
  ◌==◌, if◌then◌else◌, arith, ap, ◌∙◌, Bool-cases, inl, inr,
}
use rust_ape.Signal.{Signals}
use rust_ape.Signal.Masks.{
  SigwaitHost, set_disposition, is_armed, arm_defaults, is_defaulted, restore_defaults, sigwait,
}

-- The signal is among the `n` from `s` on.
abbrev pub is_among : ℕ → ℕ → ℕ → Bool
is_among s n j = leb s j && ltb j (s + n)

module _ (h : SigwaitHost) (set : ℕ) (j : ℕ) where
  arm_defaults-at :
      (n s : ℕ) (disp : ℕ → ℕ) (ds : List ℕ)
      → let b = is_among s n j && is_armed h set j (disp j) in
        ((arm_defaults h set n s disp ds).0 j ≡ (if b then h.noop else disp j))
        × (is_defaulted j (arm_defaults h set n s disp ds).1 ≡ b || is_defaulted j ds)
  unfolding arm_defaults is_defaulted
  arm_defaults-at zero s disp ds = (ground arith, ground arith)
  arm_defaults-at (suc n) s disp ds =
      let b = is_armed h set s (disp s) in
      let ih =
        arm_defaults-at n (suc s) (if b then set_disposition disp s h.noop else disp)
          (if b then s ∷ ds else ds) in
      elim (Bool-cases (j == s)) [
        | inl q ↦
            let e : j ≡ s = ground (arith, q) in
            let out : is_among (suc s) n j ≡ false = ground (arith, q) in
            let into : is_among s (suc n) j ≡ true = ground (arith, q) in
            let same : is_armed h set j (disp j) ≡ b = ap (λ x. is_armed h set x (disp x)) e in
            elim (Bool-cases b) [
              | inl t ↦ (
                ih.0 ∙ rw (t, same, out, into, t) (ground (arith, q, out, into, t)),
                ih.1 ∙ rw (t, same, out, into, t) (ground (arith, q, out, into, t)),
              )
              | inr t ↦ (
                ih.0 ∙ rw (t, same, out, into, t) (ground (arith, q, out, into, t)),
                ih.1 ∙ rw (t, same, out, into, t) (ground (arith, q, out, into, t)),
              )
            ]
        | inr q ↦ elim (Bool-cases b) [
          | inl t ↦ (ih.0 ∙ rw t (ground (arith, q)), ih.1 ∙ rw t (ground (arith, q)))
          | inr t ↦ (ih.0 ∙ rw t (ground (arith, q)), ih.1 ∙ rw t (ground (arith, q)))
        ]
      ]

  restore_defaults-at :
      (n s : ℕ) (disp : ℕ → ℕ) (ds : List ℕ)
      → restore_defaults h n s disp ds j
        ≡ (if is_among s n j && (is_defaulted j ds && h.can_set j) then h.sig_dfl else disp j)
  unfolding restore_defaults
  restore_defaults-at zero s disp ds = ground arith
  restore_defaults-at (suc n) s disp ds =
      let b = is_defaulted s ds && h.can_set s in
      let ih =
        restore_defaults-at n (suc s) (if b then set_disposition disp s h.sig_dfl else disp) ds in
      elim (Bool-cases (j == s)) [
        | inl q ↦
            let e : j ≡ s = ground (arith, q) in
            let same : is_defaulted j ds && h.can_set j ≡ b =
              ap (λ x. is_defaulted x ds && h.can_set x) e in
            elim (Bool-cases b) [
              | inl t ↦ ih ∙ rw (same, t) (ground (arith, q, same, t))
              | inr t ↦ ih ∙ rw (same, t) (ground (arith, q, same, t))
            ]
        | inr q ↦ elim (Bool-cases b) [
          | inl e ↦ ih ∙ rw e (ground (arith, q))
          | inr e ↦ ih ∙ rw e (ground (arith, q))
        ]
      ]

  -- The second loop undoes the first.
  restored :
      (n s : ℕ) (disp : ℕ → ℕ)
      → let (during, ds) = arm_defaults h set n s disp [] in
        restore_defaults h n s during ds j ≡ disp j
  unfolding is_defaulted
  restored n s disp =
      let arm = arm_defaults-at n s disp [] in
      let (during, ds) = arm_defaults h set n s disp [] in
      restore_defaults-at n s during ds ∙ rw (arm.0, arm.1) (ground arith)

  unarmed : (n s : ℕ) (disp : ℕ → ℕ) → restore_defaults h n s disp [] j ≡ disp j
  unfolding is_defaulted
  unarmed n s disp = restore_defaults-at n s disp [] ∙ ground arith

-- During the wait, exactly the signals from 1 to 63 that are in the set, at their default, and open
-- to `sigaction` have the handler that does nothing, on a host other than Linux; after it, every
-- signal has the disposition that it had before. Nothing else changes dispositions meanwhile.
pub sigwait-restores :
    (c : Signals) (h : SigwaitHost) (set : ℕ) (disp : ℕ → ℕ) (answer : Option ℕ) (j : ℕ)
    → let (during, after, sig) = sigwait c h set disp answer in
      (during j ≡ (
        if not h.is_linux && (is_among 1 63 j && is_armed h set j (disp j))
        then h.noop
        else disp j))
      × (after j ≡ disp j)
unfolding sigwait
sigwait-restores c h set disp answer j =
    let arm = arm_defaults-at h set j 63 1 disp [] in
    elim (Bool-cases h.is_linux) [
      | inl q ↦ rw q (refl, unarmed h set j 63 1 disp)
      | inr q ↦ rw q (arm.0, restored h set j 63 1 disp)
    ]
