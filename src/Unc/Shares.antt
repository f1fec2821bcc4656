-- ===== src/Unc/Shares.antt =====
-- Two paths under one share, as `UncRootLen` and `UncRootEquals` of shim/mkntpath.c see them.
use rust_ape.Prelude.{
  ℕ, suc, ◌+◌, ◌<◌, ◌≡◌, refl, ◌∙◌, ap, Bool, true, false, not, ◌&&◌, ◌||◌, List, [], ◌∷◌, ◌++◌,
  ◌==◌, length, drop, arith,
}
use rust_ape.Unc.{is_slash, is_alpha, unc_root_len_max, at, name_len, share_end, unc_root_len}

-- The bytes of a name, and what may follow one: the end, or a slash.
abbrev pub is_name : List ℕ → Bool
is_name [] = true
is_name (c ∷ s) = (not (c == 0) && not (is_slash c)) && is_name s

abbrev pub ends_name : List ℕ → Bool
ends_name [] = true
ends_name (c ∷ t) = is_slash c

-- The names of a server and a share that a root can be made of: both of one byte at least, the server no
-- device ("//?/", "//./") and no drive's letter, the share not "." or "..".
pub record IsShare (server share : List ℕ) : Type 0 where
  pub server_name : is_name server ≡ true
  pub share_name : is_name share ≡ true
  pub server_some : (length server == 0) ≡ false
  pub share_some : (length share == 0) ≡ false
  pub no_device : (at server 0 == 63 || at server 0 == 46) ≡ false
  pub no_drive : (is_alpha (at server 0) && length server == 1) ≡ false
  pub no_dots :
      (at share 0 == 46 && (length share == 1 || (length share == 2 && at share 1 == 46))) ≡ false
  pub fits : length server + length share + 1 < unc_root_len_max

-- "server/share" and what follows
abbrev pub below : List ℕ → List ℕ → List ℕ → List ℕ
below server share t = server ++ (47 ∷ share ++ t)

name_len-append :
    (s t : List ℕ) → is_name s ≡ true → ends_name t ≡ true → name_len (s ++ t) ≡ length s
unfolding name_len
name_len-append [] [] n e = refl
name_len-append [] (c ∷ t) n e = ground (arith, e)
name_len-append (c ∷ s) t n e = ground (arith, n, name_len-append s t)

at-append : (s t : List ℕ) → at (s ++ t) (length s) ≡ at t 0
at-append [] t = refl
at-append (c ∷ s) t = at-append s t

at_next-append : (s t : List ℕ) → at (s ++ t) (length s + 1) ≡ at t 1
at_next-append s t = ap (at (s ++ t)) (omega arith) ∙ behind s
  where
    behind : (s : List ℕ) → at (s ++ t) (suc (length s)) ≡ at t 1
    behind [] = refl
    behind (c ∷ s) = behind s

drop-append_next : (s t : List ℕ) (c : ℕ) → drop (length s + 1) (s ++ (c ∷ t)) ≡ t
drop-append_next s t c =
    let e : length s + 1 ≡ suc (length s) = omega arith in
    ap (λ i. drop i (s ++ (c ∷ t))) e ∙ behind s
  where
    behind : (s : List ℕ) → drop (suc (length s)) (s ++ (c ∷ t)) ≡ t
    behind [] = refl
    behind (c ∷ s) = behind s

-- The first byte of a name that is not empty.
first_byte :
    (s t : List ℕ)
    → is_name s ≡ true
    → (length s == 0) ≡ false
    → (at (s ++ t) 0 ≡ at s 0) × ((at s 0 == 0) ≡ false) × (is_slash (at s 0) ≡ false)
first_byte [] t n e = absurd (ground (arith, e))
first_byte (c ∷ s) t n e = (refl, ground (arith, n), ground (arith, n))

dots-append :
    (s t : List ℕ)
    → (length s == 0) ≡ false
    → (at (s ++ t) 0 == 46 && (length s == 1 || (length s == 2 && at (s ++ t) 1 == 46)))
      ≡ (at s 0 == 46 && (length s == 1 || (length s == 2 && at s 1 == 46)))
dots-append [] t e = absurd (ground (arith, e))
dots-append (a ∷ []) t e = ground arith
dots-append (a ∷ b ∷ s) t e = refl

share_end-below :
    (server share t : List ℕ)
    → IsShare server share
    → ends_name t ≡ true
    → share_end (below server share t) (length server + 1) ≡ length server + 1 + length share
unfolding share_end
share_end-below server share t v e =
    rw
      (
        drop-append_next server (share ++ t) 47,
        name_len-append share t v.share_name e,
        dots-append share t v.share_some,
        v.no_dots,
      )
      (ground (arith, v.fits))

-- The root of a path below a share is the server's and the share's name with the slash between them.
pub unc_root_len-below :
    (server share t : List ℕ)
    → IsShare server share
    → ends_name t ≡ true
    → unc_root_len (below server share t) ≡ length server + 1 + length share
unfolding unc_root_len
unc_root_len-below server share t v e =
    let tail : List ℕ = 47 ∷ share ++ t in
    let (start, some_byte, no_slash) = first_byte server tail v.server_name v.server_some in
    let (start', some_byte', no_slash') = first_byte share t v.share_name v.share_some in
    let device = v.no_device in
    ground (
      arith,
      name_len-append server tail v.server_name refl,
      at-append server tail,
      at_next-append server tail,
      start,
      some_byte,
      no_slash,
      start',
      some_byte',
      no_slash',
      device,
      share_end-below server share t v e,
    )
