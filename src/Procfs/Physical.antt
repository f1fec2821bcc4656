-- ===== src/Procfs/Physical.antt =====
-- Virtual and physical paths of shim/procfs/core/tree.c.
use rust_ape.Prelude.{
  ℕ, zero, suc, ◌+◌, ◌-◌, ◌%◌, ◌^◌, ◌≤◌, ◌<◌, ◌≡◌, ◌≢◌, refl, ◌∙◌, ap, sym, subst, ◌⊎◌, inl, inr,
  Bool, true, false, List, [], ◌∷◌, ◌++◌, ◌==◌, length, take, length-append, All, arith, Bool-cases,
}
use rust_ape.Procfs.{
  slash, is_empty, skip_slashes, first_comp, after_comp, comp, strtoul, number_of, decimal,
  same_text, self_name, begins_with_digit, Node, OwnPid, below_pid, numbered, named, pc_parse,
  pc_phys_suffix,
}
use rust_ape.Procfs.Decimal.{IsDigit, decimal-IsDigit, length-decimal, number_of-decimal}

-- Nothing, or a text that begins with a slash.
abbrev EndsComp : List ℕ → Type 0
EndsComp [] = Unit {0}
EndsComp (c ∷ cs) = c ≡ slash

after_comp-EndsComp : (s : List ℕ) → EndsComp (after_comp s)
unfolding after_comp
after_comp-EndsComp [] = tt
after_comp-EndsComp (c ∷ cs) = elim (Bool-cases (c == slash)) [
  | inl q ↦ rw q (ground arith)
  | inr q ↦ rw q (after_comp-EndsComp cs)
]

-- A name of digits in front of such a text.
skip_slashes-digits :
    (ds t : List ℕ) → All IsDigit ds → 1 ≤ length ds → skip_slashes (ds ++ t) ≡ ds ++ t
unfolding skip_slashes
skip_slashes-digits [] t h l = absurd (omega arith)
skip_slashes-digits (d ∷ ds) t (h, hs) l = let q : (d == slash) ≡ false = ground arith in rw q

first_comp-digits : (ds t : List ℕ) → All IsDigit ds → EndsComp t → first_comp (ds ++ t) ≡ ds
unfolding first_comp
first_comp-digits [] [] h e = refl
first_comp-digits [] (c ∷ cs) h e = let q : (c == slash) ≡ true = ground arith in rw q
first_comp-digits (d ∷ ds) t (h, hs) e =
    let q : (d == slash) ≡ false = ground arith in rw (q, first_comp-digits ds t hs e)

after_comp-digits : (ds t : List ℕ) → All IsDigit ds → EndsComp t → after_comp (ds ++ t) ≡ t
unfolding after_comp
after_comp-digits [] [] h e = refl
after_comp-digits [] (c ∷ cs) h e = let q : (c == slash) ≡ true = ground arith in rw q
after_comp-digits (d ∷ ds) t (h, hs) e =
    let q : (d == slash) ≡ false = ground arith in rw (q, after_comp-digits ds t hs e)

digits_not_self : (ds : List ℕ) → All IsDigit ds → same_text ds self_name ≡ false
digits_not_self [] h = refl
digits_not_self (d ∷ ds) (h, hs) = let q : (d == 115) ≡ false = ground arith in rw q

digits_begin : (ds : List ℕ) → All IsDigit ds → 1 ≤ length ds → begins_with_digit ds ≡ true
digits_begin [] h l = absurd (omega arith)
digits_begin (d ∷ ds) h l = h.0

take_short : (n : ℕ) (s : List ℕ) → length s ≤ n → take n s ≡ s
take_short zero [] h = refl
take_short zero (x ∷ s) h = absurd (omega arith)
take_short (suc n) [] h = refl
take_short (suc n) (x ∷ s) h = ap (λ t. x ∷ t) (take_short n s (omega arith))

not_empty : (ds t : List ℕ) → 1 ≤ length ds → is_empty (ds ++ t) ≡ false
not_empty [] t h = absurd (omega arith)
not_empty (d ∷ ds) t h = refl

-- What a path with a number in front means.
pc_parse-decimal :
    (o : OwnPid) (pid : ℕ) (t : List ℕ)
    → pid < 2 ^ 32
    → EndsComp t
    → pc_parse o (slash ∷ decimal 9 pid ++ t) ≡ numbered o pid (skip_slashes t)
unfolding pc_parse named skip_slashes
pc_parse-decimal o pid t lt e =
    let ds : List ℕ = decimal 9 pid in
    let digits = decimal-IsDigit 9 pid in
    let size = length-decimal 9 pid in
    let skipped : skip_slashes (slash ∷ ds ++ t) ≡ ds ++ t =
      skip_slashes-digits ds t digits size.0 in
    let first : comp 64 (ds ++ t) ≡ ds =
      ap (λ s. take 63 s) (first_comp-digits ds t digits e) ∙ take_short 63 ds (omega arith) in
    let read : number_of 0 ds ≡ pid = number_of-decimal 9 pid (omega arith) in
    let value : strtoul ds % 2 ^ 32 ≡ pid = rw read (omega arith) in
    rw (
      skipped,
      not_empty ds t size.0,
      first,
      after_comp-digits ds t digits e,
      digits_not_self ds digits,
      digits_begin ds digits size.0,
      value,
    )

below_pid-pid : (self : Bool) (pid : ℕ) (t : List ℕ) → (below_pid self pid t).pid ≡ pid
unfolding below_pid
below_pid-pid self pid [] = refl
below_pid-pid self pid (c ∷ cs) = refl

below_pid-was_self :
    (self b : Bool) (pid : ℕ) (t : List ℕ)
    → below_pid b pid t ≡ record (below_pid self pid t) { was_self = b }
unfolding below_pid
below_pid-was_self self b pid [] = refl
below_pid-was_self self b pid (c ∷ cs) = refl

-- A number that does not name another process than itself.
abbrev IsOwn : OwnPid → ℕ → Type 0
IsOwn o pid = (pid ≡ o.self_pid) ⊎ ((pid == o.getpid) ≡ false)

numbered-own :
    (o : OwnPid) (pid : ℕ) (t : List ℕ)
    → IsOwn o pid
    → numbered o pid t ≡ below_pid (pid == o.getpid) pid t
unfolding numbered
numbered-own o pid t w = elim (Bool-cases (pid == o.getpid)) [
  | inl q ↦ rw q (ap (λ x. below_pid true x t) (same w q))
  | inr q ↦ rw q
]
  where
    same : IsOwn o pid → (pid == o.getpid) ≡ true → o.self_pid ≡ pid
    same (inl e) q = sym e
    same (inr n) q = absurd (ground (arith, n, q))

-- Where a process is named, which one it is.
abbrev IsProcess : OwnPid → List ℕ → Node → Type 0
IsProcess o t n =
    (self : Bool) × (pid : ℕ) × (n ≡ below_pid self pid t) × (IsOwn o pid) × (pid < 2 ^ 32)

numbered-IsProcess :
    (o : OwnPid) (pid : ℕ) (t : List ℕ)
    → o.self_pid < 2 ^ 32
    → pid < 2 ^ 32
    → IsProcess o t (numbered o pid t)
unfolding numbered
numbered-IsProcess o pid t ls lp = elim (Bool-cases (pid == o.getpid)) [
  | inl q ↦ rw q (true, o.self_pid, refl, inl refl, ls)
  | inr q ↦ rw q (false, pid, refl, inr q, lp)
]

named_other :
    (o : OwnPid) (first t : List ℕ)
    → same_text first self_name ≡ false
    → begins_with_digit first ≡ false
    → (named o first t).pid ≡ 0
unfolding named
named_other o first t p q = ground (arith, p, q)

named-IsProcess :
    (o : OwnPid) (first t : List ℕ)
    → o.self_pid < 2 ^ 32
    → (named o first t).pid ≢ 0
    → IsProcess o t (named o first t)
unfolding named
named-IsProcess o first t ls ne = elim (Bool-cases (same_text first self_name)) [
  | inl p ↦ rw p (true, o.self_pid, refl, inl refl, ls)
  | inr p ↦ elim (Bool-cases (begins_with_digit first)) [
    | inl q ↦ rw (p, q) (numbered-IsProcess o (strtoul first % 2 ^ 32) t ls (omega arith))
    | inr q ↦ absurd (ne (named_other o first t p q))
  ]
]

pc_parse-IsProcess :
    (o : OwnPid) (sub : List ℕ)
    → o.self_pid < 2 ^ 32
    → (pc_parse o sub).pid ≢ 0
    → IsProcess o (skip_slashes (after_comp (skip_slashes sub))) (pc_parse o sub)
unfolding pc_parse
pc_parse-IsProcess o sub ls ne = elim (Bool-cases (is_empty (skip_slashes sub))) [
  | inl p ↦ absurd (ne (rw p))
  | inr p ↦
      let t : List ℕ = skip_slashes sub in
      let first : List ℕ = comp 64 t in
      let rest : List ℕ = skip_slashes (after_comp t) in
      let q : pc_parse o sub ≡ named o first rest = rw p in
      subst (IsProcess o rest) (sym q)
        (named-IsProcess o first rest ls (subst (λ (x : Node). x.pid ≢ 0) q ne))
]

phys_whole :
    (n : Node) (sub : List ℕ) (cap : ℕ)
    → n.pid ≢ 0
    → length (after_comp (skip_slashes sub)) + 12 ≤ cap
    → pc_phys_suffix n sub cap ≡ slash ∷ decimal 9 n.pid ++ after_comp (skip_slashes sub)
unfolding pc_phys_suffix
phys_whole n sub cap ne fits =
    let z : (n.pid == 0) ≡ false = ground arith in
    let t : List ℕ = after_comp (skip_slashes sub) in
    rw z (
      take_short (cap - 1) (slash ∷ decimal 9 n.pid ++ t)
        (omega (arith, length-append (decimal 9 n.pid) t, length-decimal 9 n.pid)))

-- The physical path of what belongs to a process is spelled with its number, whichever name the
-- virtual one has, "self" included; and it stands for the same node: the same process, name and rest.
-- It counts as "self" where the number is what getpid returns. The path fits the buffer, and the own
-- process has a number of 32 bits.
pub pc_parse-pc_phys_suffix :
    (o : OwnPid) (sub : List ℕ) (cap : ℕ)
    → o.self_pid < 2 ^ 32
    → (pc_parse o sub).pid ≢ 0
    → length (after_comp (skip_slashes sub)) + 12 ≤ cap
    → let n = pc_parse o sub in
      (pc_phys_suffix n sub cap ≡ slash ∷ decimal 9 n.pid ++ after_comp (skip_slashes sub))
      × (pc_parse o (pc_phys_suffix n sub cap) ≡ record n { was_self = n.pid == o.getpid })
pc_parse-pc_phys_suffix o sub cap ls ne fits =
    let n = pc_parse o sub in
    let t : List ℕ = after_comp (skip_slashes sub) in
    let (self, pid, e, own, lt) = pc_parse-IsProcess o sub ls ne in
    let number : n.pid ≡ pid = ap (λ x. x.pid) e ∙ below_pid-pid self pid (skip_slashes t) in
    let path = phys_whole n sub cap ne fits in
    (
      path,
      ap (pc_parse o) path
          ∙ (ap (λ x. pc_parse o (slash ∷ decimal 9 x ++ t)) number
              ∙ (pc_parse-decimal o pid t lt (after_comp-EndsComp (skip_slashes sub))
                  ∙ (numbered-own o pid (skip_slashes t) own
                      ∙ (below_pid-was_self self (pid == o.getpid) pid (skip_slashes t)
                          ∙ (ap (λ b. record (below_pid self pid (skip_slashes t)) { was_self = b })
                                (ap (λ k. k == o.getpid) (sym number))
                              ∙ ap (λ (x : Node). record x { was_self = n.pid == o.getpid })
                                  (sym e)))))),
    )
