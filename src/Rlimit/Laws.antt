-- ===== src/Rlimit/Laws.antt =====
-- `__ape_shim_prlimit` in shim/rlimit.c on the own process, next to getrlimit and setrlimit.
use rust_ape.Prelude.{ℕ, ◌≡◌, refl, true, ◌||◌, Option, none, some, ◌==◌, Option-cases, inl, inr}
use rust_ape.Rlimit.{
  Limit, Limits, LimitHost, done, invalid, Limited, res_to_host, host_get, host_set, ended,
  getrlimit, setrlimit, prlimit_self, prlimit,
}

-- getrlimit, then setrlimit where it has shown a limit.
abbrev pub exchange : Limited → Limited → Option Limit → Limited
exchange got set none = got
exchange got set (some old) = record set { shown = some old }

module _ (h : LimitHost) (raw : Limited) (pid lin : ℕ) (x : Limit) (ls : Limits) where
  unknown :
      res_to_host h lin ≡ none
      → (getrlimit h lin ls ≡ ended invalid ls)
        × (prlimit h raw pid lin (some x) true ls ≡ ended invalid ls)
  unfolding getrlimit prlimit
  unknown q = (rw (q, getrlimit) refl, rw (q, prlimit) refl)

  known :
      (res : ℕ)
      → res_to_host h lin ≡ some res
      → (pid == 0 || pid == h.own_pid) ≡ true
      → (getrlimit h lin ls ≡ host_get h res ls)
        × (setrlimit h lin x ls ≡ host_set h res x ls)
        × (prlimit h raw pid lin (some x) true ls ≡ prlimit_self h res (some x) true ls)
  unfolding getrlimit setrlimit prlimit
  known res q own = (rw (q, getrlimit) refl, rw (q, setrlimit) refl, rw (q, prlimit) (rw own refl))

prlimit_self-exchange :
    (h : LimitHost) (res : ℕ) (x : Limit) (ls : Limits)
    → prlimit_self h res (some x) true ls
      ≡ exchange (host_get h res ls) (host_set h res x ls) (host_get h res ls).shown
unfolding prlimit_self host_get
prlimit_self-exchange h res x ls = elim (Option-cases (h.get_error res)) [
  | inl g ↦
      let got : host_get h res ls ≡ record { limits = ls; rc = done; shown = some (ls res) } =
        rw (g, host_get) refl in
      rw (g, prlimit_self) (rw got refl)
  | inr (e, g) ↦ rw (g, prlimit_self, host_get) refl
]

-- prlimit with a new limit and a place for the old one, on the own process, is getrlimit followed by
-- setrlimit: where getrlimit fails, it fails alike and changes nothing; otherwise it shows what
-- getrlimit shows, and ends and leaves the limits as setrlimit does.
pub prlimit-exchange :
    (h : LimitHost) (raw : Limited) (pid lin : ℕ) (x : Limit) (ls : Limits)
    → (pid == 0 || pid == h.own_pid) ≡ true
    → let got = getrlimit h lin ls in
      let set = setrlimit h lin x ls in
      prlimit h raw pid lin (some x) true ls ≡ exchange got set got.shown
prlimit-exchange h raw pid lin x ls own = elim (Option-cases (res_to_host h lin)) [
  | inl q ↦ let (g, p) = unknown h raw pid lin x ls q in rw (g, p) refl
  | inr (res, q) ↦
      let (g, s, p) = known h raw pid lin x ls res q own in
      rw (g, s, p) (prlimit_self-exchange h res x ls)
]
