-- ===== src/Open/Probes/Resolution.antt =====
-- Which path the access family of shim/open.c asks the host about, and which one shim/suffix.c starts.
use rust_ape.Prelude.{
  ℕ, ◌≡◌, refl, ◌∙◌, ap, sym, Bool, true, false, List, Option, none, some, ◌==◌, if◌then◌else◌,
  arith,
}
use rust_ape.Suffix.{Files, exe_fallback, Started, runs, refused, start_path, execve, retried}
use rust_ape.Open.{
  eopnotsupp, einval, eacces, enotty, left_by_host, Outcome, returns, refuses, lin_at_fdcwd, at_bit,
}
use rust_ape.Open.Probes.{
  ProbeHost, amode_to_host, procfs_vaccess, vaccess_answer, ask_found, retry, virtual_or, asked,
  access, eaccess, euidaccess, faccessat, faccessat_flags, and_then,
}

-- The host says that there is no such file.
abbrev pub is_absent : Files → Outcome → Bool
is_absent f (returns x) = false
is_absent f (refuses (left_by_host e)) = e == f.enoent
is_absent f (refuses e) = false

abbrev pub start_absent : Files → Started → Bool
start_absent f (runs p) = false
start_absent f (refused e) = e == f.enoent

-- The path with a suffix where the name as it is does not exist and one with a suffix does.
abbrev pub found_or : Option (List ℕ) → List ℕ → List ℕ
found_or none path = path
found_or (some found) path = found

abbrev pub resolved : Files → Bool → List ℕ → List ℕ
resolved f absent path = if absent then found_or (exe_fallback f path) path else path

found-ask_found :
    (ask : List ℕ → Outcome) (o : Option (List ℕ)) (path : List ℕ) (r : Outcome)
    → ask path ≡ r
    → ask_found ask o r ≡ ask (found_or o path)
found-ask_found ask none path r q = sym q
found-ask_found ask (some found) path r q = refl

found-retried :
    (start : List ℕ → Started) (o : Option (List ℕ)) (path : List ℕ) (e : ℕ)
    → start path ≡ refused e
    → retried start o e ≡ start (found_or o path)
unfolding retried
found-retried start none path e q = sym q
found-retried start (some found) path e q = refl

module _ {ℓ} {A : Type ℓ} (ask : List ℕ → A) (path found : List ℕ) (r s : A) where
  ask_either :
      (b : Bool)
      → ask path ≡ s
      → r ≡ ask found
      → (if b then r else s) ≡ ask (if b then found else path)
  ask_either true q p = p
  ask_either false q p = sym q

retry-resolved :
    (f : Files) (ask : List ℕ → Outcome) (path : List ℕ) (r : Outcome)
    → ask path ≡ r
    → retry f ask path r ≡ ask (resolved f (is_absent f r) path)
unfolding retry
retry-resolved f ask path (returns x) q = sym q
retry-resolved f ask path (refuses (left_by_host e)) q =
    ask_either ask path (found_or (exe_fallback f path) path) _ _ (e == f.enoent) q
      (found-ask_found ask (exe_fallback f path) path _ q)
retry-resolved f ask path (refuses eopnotsupp) q = sym q
retry-resolved f ask path (refuses einval) q = sym q
retry-resolved f ask path (refuses eacces) q = sym q
retry-resolved f ask path (refuses enotty) q = sym q

start_path-resolved :
    (f : Files) (start : List ℕ → Started) (path : List ℕ) (r : Started)
    → start path ≡ r
    → start_path f start path r ≡ start (resolved f (start_absent f r) path)
unfolding start_path
start_path-resolved f start path (runs p) q = sym q
start_path-resolved f start path (refused e) q =
    ask_either start path (found_or (exe_fallback f path) path) _ _ (e == f.enoent) q
      (found-retried start (exe_fallback f path) path e q)

without_flags : (h : ProbeHost) (next : ℕ → Outcome) → and_then next (faccessat_flags h 0) ≡ next 0
unfolding and_then at_bit
without_flags h next = ground arith

asked-resolved :
    (h : ProbeHost) (dirfd : ℕ) (ask : List ℕ → ℕ → Outcome) (path : List ℕ) (host : ℕ)
    → h.procfs_vstat dirfd path ≡ none
    → asked h dirfd ask path (returns host)
      ≡ ask (resolved (h.files dirfd) (is_absent (h.files dirfd) (ask path host)) path) host
unfolding asked virtual_or procfs_vaccess vaccess_answer
asked-resolved h dirfd ask path host v =
    rw v (retry-resolved (h.files dirfd) (λ p. ask p host) path (ask path host) refl)

-- The four probes and `execve` speak of one file: with a name that the process files do not own, each
-- is the host's own call on one and the same path, which is the name as it is where the host finds it
-- and otherwise the name that the search for ".exe" and ".com" ends in, where it finds one. The mode is
-- one of the access family's, and the five calls of the host agree on whether the name exists.
pub probes_agree :
    (h : ProbeHost) (start : List ℕ → Started) (path : List ℕ) (amode host : ℕ) (absent : Bool)
    → amode_to_host h amode ≡ returns host
    → h.procfs_vstat h.at_fdcwd path ≡ none
    → is_absent (h.files h.at_fdcwd) (h.access path host) ≡ absent
    → is_absent (h.files h.at_fdcwd) (h.eaccess path host) ≡ absent
    → is_absent (h.files h.at_fdcwd) (h.euidaccess path host) ≡ absent
    → is_absent (h.files h.at_fdcwd) (h.faccessat h.at_fdcwd 0 path host) ≡ absent
    → start_absent (h.files h.at_fdcwd) (start path) ≡ absent
    → let p = resolved (h.files h.at_fdcwd) absent path in
      (access h path amode ≡ h.access p host)
      × (eaccess h path amode ≡ h.eaccess p host)
      × (euidaccess h path amode ≡ h.euidaccess p host)
      × (faccessat h lin_at_fdcwd path amode 0 ≡ h.faccessat h.at_fdcwd 0 p host)
      × (execve (h.files h.at_fdcwd) start path ≡ start p)
unfolding access eaccess euidaccess faccessat execve
probes_agree h start path amode host absent m v a e u f s = (
  rw (m, asked-resolved h h.at_fdcwd h.access path host v, a),
  rw (m, asked-resolved h h.at_fdcwd h.eaccess path host v, e),
  rw (m, asked-resolved h h.at_fdcwd h.euidaccess path host v, u),
  without_flags h (λ flags.
        asked h h.at_fdcwd (λ p k. h.faccessat h.at_fdcwd flags p k) path (amode_to_host h amode))
      ∙ rw (m, asked-resolved h h.at_fdcwd (λ p k. h.faccessat h.at_fdcwd 0 p k) path host v, f),
  start_path-resolved (h.files h.at_fdcwd) start path (start path) refl
      ∙ ap (λ b. start (resolved (h.files h.at_fdcwd) b path)) s,
)
