-- ===== src/Codes/Tables.antt =====
-- The two searches of a table in shim/errno.c.
use rust_ape.Prelude.{ℕ, ◌≡◌, ◌≢◌, List, [], ◌∷◌, none, some, ◌==◌, arith, Bool-cases, inl, inr}
use rust_ape.Codes.{Row, host_of, lin_of, Errnos, errno_to_linux, errno_to_host}

-- No Linux value has two rows.
abbrev pub IsFunctional : List Row → Type 0
IsFunctional [] = Unit {0}
IsFunctional (r ∷ rs) = (host_of rs r.lin ≡ none) × IsFunctional rs

lin_of-host_of :
    (rs : List Row) (h l : ℕ) → IsFunctional rs → lin_of rs h ≡ some l → host_of rs l ≡ some h
unfolding host_of lin_of
lin_of-host_of [] h l f e = absurd (cc)
lin_of-host_of (r ∷ rs) h l f e = elim (Bool-cases (r.host == h)) [
  | inl p ↦ ground (arith, p, e)
  | inr p ↦
      let rest : lin_of rs h ≡ some l = ground (arith, p, e) in
      let found = lin_of-host_of rs h l f.1 rest in
      elim (Bool-cases (r.lin == l)) [
        | inl q ↦ absurd (ground (arith, q, f.0, found))
        | inr q ↦ ground (arith, q, found)
      ]
]

-- The host value of a name survives the way to Linux and back, where no Linux value has two rows.
pub errno_to_host-errno_to_linux :
    (c : Errnos) (h l : ℕ)
    → IsFunctional c.rows
    → lin_of c.rows h ≡ some l
    → h ≢ 0
    → l ≢ 0
    → errno_to_host c (errno_to_linux c h) ≡ h
unfolding errno_to_host errno_to_linux
errno_to_host-errno_to_linux c h l f e nh nl = ground (arith, e, lin_of-host_of c.rows h l f e)
