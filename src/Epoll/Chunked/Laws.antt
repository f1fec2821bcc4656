-- ===== src/Epoll/Chunked/Laws.antt =====
-- The scan and the rounds of `poll_chunked`, in shim/epoll.c.
use rust_ape.Prelude.{
  ℕ, zero, suc, ◌+◌, ◌≤◌, ◌≡◌, refl, ◌∙◌, ap, sym, Bool, true, false, List, [], ◌∷◌, ◌++◌, map,
  Option, none, some, if◌then◌else◌, length, take, drop, ◌==◌, arith, Bool-cases, Option-cases, Any,
  inl, inr,
}
use rust_ape.Epoll.Interest.{Errno}
use rust_ape.Epoll.Arming.{PollFd}
use rust_ape.Epoll.Chunked.{
  Answer, failed, polled, ChunkRound, scan, chunk_rounds, poll_chunked, poll_chunk, nap_ms, is_past,
  deadline_after,
}

-- A host without a limit: each slot is answered on its own.
module _ (ready : PollFd → PollFd) (hot : PollFd → Bool) where
  abbrev pub hot_count : List PollFd → ℕ
  hot_count [] = 0
  hot_count (p ∷ ps) = (if hot p then 1 else 0) + hot_count ps

  abbrev pub poll_slots : List PollFd → Answer
  poll_slots ps = polled (hot_count ps) (map ready ps)

  hot_count-append : (ps qs : List PollFd) → hot_count (ps ++ qs) ≡ hot_count ps + hot_count qs
  hot_count-append [] qs = omega arith
  hot_count-append (p ∷ ps) qs = omega (arith, hot_count-append ps qs)

  map-take-drop :
      (n : ℕ) (ps : List PollFd) → map ready (take n ps) ++ map ready (drop n ps) ≡ map ready ps
  map-take-drop zero ps = refl
  map-take-drop (suc n) [] = refl
  map-take-drop (suc n) (p ∷ ps) = ap (λ t. ready p ∷ t) (map-take-drop n ps)

  hot_count-take-drop :
      (n : ℕ) (ps : List PollFd) → hot_count (take n ps) + hot_count (drop n ps) ≡ hot_count ps
  hot_count-take-drop zero ps = omega arith
  hot_count-take-drop (suc n) [] = omega arith
  hot_count-take-drop (suc n) (p ∷ ps) = omega (arith, hot_count-take-drop n ps)

  length-drop_le : (n : ℕ) (ps : List PollFd) → length (drop n ps) ≤ length ps
  length-drop_le zero ps = omega arith
  length-drop_le (suc n) [] = omega arith
  length-drop_le (suc n) (p ∷ ps) = omega (arith, length-drop_le n ps)

  -- Scanning an array in chunks gives the count and the array that one poll of all of it gives,
  -- where the host answers each slot by itself; fuel for every element is enough.
  pub scan-poll_slots :
      (n : ℕ) (ps : List PollFd) → length ps ≤ n → scan n poll_slots ps ≡ poll_slots ps
  unfolding scan
  scan-poll_slots zero [] h = refl
  scan-poll_slots zero (p ∷ ps) h = absurd (omega arith)
  scan-poll_slots (suc n) [] h = refl
  scan-poll_slots (suc n) (p ∷ ps) h =
      rw (scan-poll_slots n (drop poll_chunk (p ∷ ps)) (omega (arith, length-drop_le 31 ps)))
        (ground (arith, map-take-drop 31 ps, hot_count-take-drop 31 ps))

-- One round of the outer loop, by what its scan answers.
data Scanned (ps : List PollFd) (r : ChunkRound) : Type 0 where
  broken : (e : Errno) → scan (length ps) r.poll ps ≡ failed e → Scanned ps r
  found :
      (n : ℕ) (qs : List PollFd)
      → scan (length ps) r.poll ps ≡ polled n qs
      → (n == 0) ≡ false
      → Scanned ps r
  empty : (qs : List PollFd) → scan (length ps) r.poll ps ≡ polled 0 qs → Scanned ps r

scanned : (ps : List PollFd) (r : ChunkRound) → Scanned ps r
scanned ps r = go (scan (length ps) r.poll ps) refl
  where
    go : (a : Answer) → scan (length ps) r.poll ps ≡ a → Scanned ps r
    go (failed e) q = broken e q
    go (polled zero qs) q = empty qs q
    go (polled (suc n) qs) q = found (suc n) qs q (ground arith)

rounds-broken :
    (d : Option ℕ) (ps : List PollFd) (r : ChunkRound) (rs : List ChunkRound) (e : Errno)
    → scan (length ps) r.poll ps ≡ failed e
    → chunk_rounds d ps (r ∷ rs) ≡ some (failed e)
unfolding chunk_rounds
rounds-broken d ps r rs e q = ground (arith, q)

rounds-found :
    (d : Option ℕ) (ps : List PollFd) (r : ChunkRound) (rs : List ChunkRound) (n : ℕ)
    (qs : List PollFd)
    → scan (length ps) r.poll ps ≡ polled n qs
    → (n == 0) ≡ false
    → chunk_rounds d ps (r ∷ rs) ≡ some (polled n qs)
unfolding chunk_rounds
rounds-found d ps r rs n qs q z = ground (arith, q, z)

rounds-empty :
    (d : Option ℕ) (ps : List PollFd) (r : ChunkRound) (rs : List ChunkRound) (qs : List PollFd)
    → scan (length ps) r.poll ps ≡ polled 0 qs
    → chunk_rounds d ps (r ∷ rs) ≡ (
        if is_past d r.now then some (polled 0 qs) else elim (r.nap_error (nap_ms d r.now)) [
          | some e ↦ some (failed e)
          | none ↦ chunk_rounds d ps rs
        ])
unfolding chunk_rounds
rounds-empty d ps r rs qs q = ground (arith, q)

chunk_rounds_ends :
    (d : ℕ) (ps : List PollFd) (before after : List ChunkRound) (late : ChunkRound)
    → d ≤ late.now
    → (a : Answer) × (chunk_rounds (some d) ps (before ++ (late ∷ after)) ≡ some a)
chunk_rounds_ends d ps [] after late h = elim (scanned ps late) [
  | broken e q ↦ (failed e, rounds-broken (some d) ps late after e q)
  | found n qs q z ↦ (polled n qs, rounds-found (some d) ps late after n qs q z)
  | empty qs q ↦ (polled 0 qs, rounds-empty (some d) ps late after qs q ∙ ground (arith, h))
]
chunk_rounds_ends d ps (r ∷ rs) after late h = elim (scanned ps r) [
  | broken e q ↦ (failed e, rounds-broken (some d) ps r (rs ++ (late ∷ after)) e q)
  | found n qs q z ↦ (polled n qs, rounds-found (some d) ps r (rs ++ (late ∷ after)) n qs q z)
  | empty qs q ↦ elim (Bool-cases (is_past (some d) r.now)) [
    | inl p ↦ (polled 0 qs, rounds-empty (some d) ps r (rs ++ (late ∷ after)) qs q ∙ rw p)
    | inr p ↦ elim (Option-cases (r.nap_error (nap_ms (some d) r.now))) [
      | inr (e, k) ↦
          (failed e, rounds-empty (some d) ps r (rs ++ (late ∷ after)) qs q ∙ ground (arith, p, k))
      | inl k ↦
          let (a, rest) = chunk_rounds_ends d ps rs after late h in
          (a, rounds-empty (some d) ps r (rs ++ (late ∷ after)) qs q ∙ ground (arith, p, k, rest))
    ]
  ]
]

-- With a deadline, `poll_chunked` has answered by the first round whose clock has reached it,
-- whatever the scans find and however many rounds come before.
pub poll_chunked_ends :
    (start ms : ℕ) (ps : List PollFd) (before after : List ChunkRound) (late : ChunkRound)
    → start + ms ≤ late.now
    → (a : Answer) × (poll_chunked start (some ms) ps (before ++ (late ∷ after)) ≡ some a)
unfolding poll_chunked
poll_chunked_ends start ms = chunk_rounds_ends (start + ms)

chunk_rounds_timeout :
    (d : Option ℕ) (ps qs : List PollFd) (rs : List ChunkRound)
    → chunk_rounds d ps rs ≡ some (polled 0 qs)
    → Any (λ r. is_past d r.now ≡ true) rs
chunk_rounds_timeout d ps qs [] h = unfold chunk_rounds in cc h
chunk_rounds_timeout d ps qs (r ∷ rs) h = elim (scanned ps r) [
  | broken e q ↦ absurd (cc (sym (rounds-broken d ps r rs e q) ∙ h))
  | found n us q z ↦ absurd (ground (arith, z, sym (rounds-found d ps r rs n us q z) ∙ h))
  | empty us q ↦ elim (Bool-cases (is_past d r.now)) [
    | inl p ↦ inl p
    | inr p ↦
        inr (
          chunk_rounds_timeout d ps qs rs
            (ground (arith, p, sym (rounds-empty d ps r rs us q) ∙ h)))
  ]
]

-- It answers "nothing ready" only once the clock has reached the deadline, and never where there
-- is none.
pub poll_chunked_timeout :
    (start : ℕ) (ms : Option ℕ) (ps qs : List PollFd) (rs : List ChunkRound)
    → poll_chunked start ms ps rs ≡ some (polled 0 qs)
    → Any (λ r. is_past (deadline_after start ms) r.now ≡ true) rs
unfolding poll_chunked
poll_chunked_timeout start ms = chunk_rounds_timeout (deadline_after start ms)
