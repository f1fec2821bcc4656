-- ===== src/Termios/Prefix/Flags.antt =====
-- Flag words on their way through the tables of shim/termios.c and back.
use rust_ape.Prelude.{
  ℕ, ◌≡◌, ◌∙◌, sym, subst, Bool, false, not, ◌&&◌, List, [], ◌∷◌, ◌==◌, bit_or, has, All, Apart,
  union, union_same, union_taken, IsSpread, or_if_late, bit_or-zero, zero-bit_or, has_comm,
  has-zero, Bool-cases, inl, inr,
}
use rust_ape.Codes.{Row}
use rust_ape.Open.{is_full}
use rust_ape.Termios.{flags_to_host, flags_to_linux}

-- The host's flags for a word, and the Linux flags for one, as unions.
abbrev pub sent : List Row → ℕ → ℕ
sent rs lin = union (λ r. r.host) (λ r. has lin r.lin) rs

abbrev pub is_reported : ℕ → Row → Bool
is_reported host r = not (r.host == 0) && is_full host r.host

abbrev pub reported : List Row → ℕ → ℕ
reported rs host = union (λ r. r.lin) (is_reported host) rs

-- The flags of a table that are set in a word and that the host has.
abbrev pub kept : List Row → ℕ → ℕ
kept rs lin = union (λ r. r.lin) (λ r. not (r.host == 0) && has lin r.lin) rs

pub flags_to_host-sent :
    (rs : List Row) (lin h : ℕ) → flags_to_host rs lin h ≡ bit_or h (sent rs lin)
unfolding flags_to_host
flags_to_host-sent [] lin h = sym (bit_or-zero h)
flags_to_host-sent (r ∷ rs) lin h =
    flags_to_host-sent rs lin _ ∙ or_if_late (has lin r.lin) r.host h (sent rs lin)

flags_to_linux-sum :
    (rs : List Row) (host lin : ℕ) → flags_to_linux rs host lin ≡ bit_or lin (reported rs host)
unfolding flags_to_linux
flags_to_linux-sum [] host lin = sym (bit_or-zero lin)
flags_to_linux-sum (r ∷ rs) host lin =
    flags_to_linux-sum rs host _ ∙ or_if_late (is_reported host r) r.lin lin (reported rs host)

pub flags_to_linux-reported :
    (rs : List Row) (host : ℕ) → flags_to_linux rs host 0 ≡ reported rs host
flags_to_linux-reported rs host = flags_to_linux-sum rs host 0 ∙ zero-bit_or (reported rs host)

as_sent :
    (w lin : ℕ) (rs : List Row)
    → All (λ r. (r.host == 0) ≡ false → is_full w r.host ≡ has lin r.lin) rs
    → All (λ r. is_reported w r ≡ (not (r.host == 0) && has lin r.lin)) rs
as_sent w lin [] t = tt
as_sent w lin (r ∷ rs) (t, ts) =
    (elim (Bool-cases (r.host == 0)) [ inl q ↦ rw q | inr q ↦ rw (q, t q) ], as_sent w lin rs ts)

All-Apart : (rs : List Row) → All (λ r. Apart r.host 0) rs
All-Apart [] = tt
All-Apart (r ∷ rs) = (has_comm r.host 0 ∙ has-zero r.host, All-Apart rs)

-- A flag word that is translated to the host and back is the flags of the table that were set and that
-- the host has, no more and no fewer. No two of the host's patterns in the table overlap.
pub flags_to_linux-flags_to_host :
    (rs : List Row) (lin : ℕ)
    → IsSpread (λ r. r.host) rs
    → flags_to_linux rs (flags_to_host rs lin 0) 0 ≡ kept rs lin
flags_to_linux-flags_to_host rs lin s =
    flags_to_linux-reported rs _
    ∙ union_same (λ r. r.lin) _ _ rs
        (as_sent (flags_to_host rs lin 0) lin rs (
          subst (λ w. All (λ r. (r.host == 0) ≡ false → is_full w r.host ≡ has lin r.lin) rs)
            (sym (flags_to_host-sent rs lin 0))
            (union_taken (λ r. r.host) (λ r. has lin r.lin) rs 0 s (All-Apart rs))))
