-- ===== src/Open/Probes/Refusals.antt =====
-- What the path calls of shim/open.c do with a flag that they do not know.
use rust_ape.Prelude.{
  ℕ, ◌^◌, ◌<◌, ◌≡◌, refl, ◌∙◌, ap, Bool, true, false, not, ◌⊎◌, inl, inr, List, Option, ◌==◌,
  if◌then◌else◌, arith, has, clear_bits, bit_or, Apart, has-clear_bits, has-zero,
}
use rust_ape.Open.{
  eopnotsupp, einval, Outcome, refuses, Translation, going, stopped, at_bit, at_fdcwd,
}
use rust_ape.Open.Probes.{
  ProbeHost, Stamp, lin_symlink_nofollow, lin_removedir, lin_symlink_follow, lin_empty_path,
  lin_eaccess, and_then, unlinkat, linkat, utimensat, faccessat, faccessat_flags, times_to_host,
  asked, amode_to_host,
}

-- A failure for want of support or of sense.
abbrev pub IsRejected : Outcome → Type 0
IsRejected r = (r ≡ refuses einval) ⊎ (r ≡ refuses eopnotsupp)

-- The bit `k` is still to be seen.
abbrev StillThere : ℕ → Translation → Type 0
StillThere k (going lin host) = has lin k ≡ true
StillThere k (stopped e) = e ≡ eopnotsupp

StillThere-at_bit :
    (k m host : ℕ) (t : Translation)
    → m < 2 ^ 32
    → k < 2 ^ 32
    → Apart k m
    → StillThere k t
    → StillThere k (at_bit m host t)
unfolding at_bit
StillThere-at_bit k m host (stopped e) hm hk a w = w
StillThere-at_bit k m host (going lin out) hm hk a w = by_tests (has lin m) (host == 0)
  where
    by_tests :
        (b c : Bool)
        → StillThere k (
            if not b
            then going lin out
            else if c
            then stopped eopnotsupp
            else going (clear_bits lin m) (bit_or out host))
    by_tests false c = w
    by_tests true true = refl
    by_tests true false = has-clear_bits lin m k hm hk a ∙ w

and_then-IsRejected :
    (k : ℕ) (next : ℕ → Outcome) (t : Translation) → StillThere k t → IsRejected (and_then next t)
unfolding and_then
and_then-IsRejected k next (stopped e) w = inr (ap refuses w)
and_then-IsRejected k next (going lin host) w =
    let z : (lin == 0) ≡ false = ground (arith, w, has-zero k) in rw z (inl refl)

-- With a flag that none of them knows, alone or among others, `unlinkat`, `linkat`, `utimensat` and
-- `faccessat` fail with EINVAL or EOPNOTSUPP, whatever the host's constants and answers. The flag is of 32
-- bits and apart from those that the four know.
pub flags-IsRejected :
    (h : ProbeHost) (a b : ℕ) (p q : List ℕ) (times : Option (Stamp × Stamp)) (amode lin k : ℕ)
    → k < 2 ^ 32
    → has lin k ≡ true
    → Apart k lin_symlink_nofollow
    → Apart k lin_removedir
    → Apart k lin_symlink_follow
    → Apart k lin_empty_path
    → IsRejected (unlinkat h a p lin)
      × IsRejected (linkat h a p b q lin)
      × IsRejected (utimensat h a p times lin)
      × IsRejected (faccessat h a p amode lin)
unfolding unlinkat linkat utimensat faccessat
flags-IsRejected h a b p q times amode lin k lt w n r f e =
    let start = going lin 0 in
    let removed = StillThere-at_bit k lin_removedir h.at_removedir start (omega arith) lt r w in
    let followed =
      StillThere-at_bit k lin_symlink_follow h.at_symlink_follow start (omega arith) lt f w in
    let linked =
      StillThere-at_bit k lin_empty_path h.at_empty_path
        (at_bit lin_symlink_follow h.at_symlink_follow start) (omega arith) lt e followed in
    let kept =
      StillThere-at_bit k lin_symlink_nofollow h.at_symlink_nofollow start (omega arith) lt n w in
    let probed =
      StillThere-at_bit k lin_symlink_follow h.at_symlink_follow
        (if h.at_eaccess == 0
          then going (clear_bits lin lin_eaccess) 0
          else at_bit lin_eaccess h.at_eaccess start)
        (omega arith) lt f (with_eaccess (h.at_eaccess == 0)) in
    let fd = at_fdcwd h.at_fdcwd a in
    (
      and_then-IsRejected k (h.unlinkat fd p) _ removed,
      and_then-IsRejected k (h.linkat fd p (at_fdcwd h.at_fdcwd b) q) _ linked,
      and_then-IsRejected k (h.utimensat fd p (times_to_host h times)) _ kept,
      and_then-IsRejected k
          (λ host. asked h fd (λ x m. h.faccessat fd host x m) p (amode_to_host h amode))
          (faccessat_flags h lin) probed,
    )
  where
    with_eaccess :
        (c : Bool)
        → StillThere k (
            if c
            then going (clear_bits lin lin_eaccess) 0
            else at_bit lin_eaccess h.at_eaccess (going lin 0))
    with_eaccess true = has-clear_bits lin lin_eaccess k (omega arith) lt r ∙ w
    with_eaccess false =
        StillThere-at_bit k lin_eaccess h.at_eaccess (going lin 0) (omega arith) lt r w
