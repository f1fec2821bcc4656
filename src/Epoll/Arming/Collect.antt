-- ===== src/Epoll/Arming/Collect.antt =====
-- The loop of `emu_wait` in shim/epoll.c that hands events out, step by step.
use rust_ape.Prelude.{
  ℕ, zero, suc, ◌≡◌, refl, ◌∙◌, sym, Bool, true, false, List, [], ◌∷◌, ◌++◌, none, some, ◌==◌,
  length, arith, Bool-cases, Option-cases, inl, inr, ◌⊎◌,
}
use rust_ape.Epoll.Arming.{PollBits, PollFd, Ready, poll_to_epoll, reported, disarm, collect}
use rust_ape.Epoll.Interest.{Entry, find_entry, update_entry}

module _ (h : PollBits) (lt : Bool) where
  -- One round of the loop, on each of its three ways through.
  collect-quiet :
      (p : PollFd) (ps : List PollFd) (room : ℕ) (es : List Entry)
      → (reported h p == 0) ≡ true
      → collect h lt (p ∷ ps) (suc room) es ≡ collect h lt ps (suc room) es
  unfolding collect
  collect-quiet p ps room es q = rw q

  collect-gone :
      (p : PollFd) (ps : List PollFd) (room : ℕ) (es : List Entry)
      → find_entry es p.fd ≡ none
      → collect h lt (p ∷ ps) (suc room) es ≡ collect h lt ps (suc room) es
  unfolding collect
  collect-gone p ps room es q = ground arith

  collect-hit :
      (p : PollFd) (ps : List PollFd) (room : ℕ) (es : List Entry) (e : Entry)
      → (reported h p == 0) ≡ false
      → find_entry es p.fd ≡ some e
      → let ev = poll_to_epoll h (reported h p) in
        let (out, es') = collect h lt ps room (update_entry p.fd (disarm lt ev) es) in
        collect h lt (p ∷ ps) (suc room) es
        ≡ (record { events = ev; payload = e.payload } ∷ out, es')
  unfolding collect
  collect-hit p ps room es e q f = rw (q, f)

  collect-full : (ps : List PollFd) (es : List Entry) → collect h lt ps zero es ≡ ([], es)
  unfolding collect
  collect-full [] es = refl
  collect-full (p ∷ ps) es = refl

  -- What the head slot does, as one case distinction.
  data Round (p : PollFd) (es : List Entry) : Type 0 where
    quiet : (reported h p == 0) ≡ true → Round p es
    gone : find_entry es p.fd ≡ none → Round p es
    hit : (e : Entry) → (reported h p == 0) ≡ false → find_entry es p.fd ≡ some e → Round p es

  round : (p : PollFd) (es : List Entry) → Round p es
  round p es = elim (Bool-cases (reported h p == 0)) [
    | inl q ↦ quiet q
    | inr q ↦ elim (Option-cases (find_entry es p.fd)) [ inl f ↦ gone f | inr (e, f) ↦ hit e q f ]
  ]

  -- An induction over the loop.
  pub collect-induction :
      (P : List PollFd → ℕ → List Entry → List Ready × List Entry → Type 0)
      → ((room : ℕ) (es : List Entry) → P [] room es ([], es))
      → ((p : PollFd) (ps : List PollFd) (es : List Entry) → P (p ∷ ps) zero es ([], es))
      → ((p : PollFd) (ps : List PollFd) (room : ℕ) (es : List Entry)
          → ((reported h p == 0) ≡ true) ⊎ (find_entry es p.fd ≡ none)
          → P ps (suc room) es (collect h lt ps (suc room) es)
          → P (p ∷ ps) (suc room) es (collect h lt ps (suc room) es))
      → ((p : PollFd) (ps : List PollFd) (room : ℕ) (es : List Entry) (e : Entry)
          → (reported h p == 0) ≡ false
          → find_entry es p.fd ≡ some e
          → let ev = poll_to_epoll h (reported h p) in
            let es' = update_entry p.fd (disarm lt ev) es in
            let rest = collect h lt ps room es' in
            P ps room es' rest
            → P
                (p ∷ ps)
                (suc room)
                es
                (record { events = ev; payload = e.payload } ∷ rest.0, rest.1))
      → (ps : List PollFd) (room : ℕ) (es : List Entry) → P ps room es (collect h lt ps room es)
  collect-induction P nil full skip take [] room es = unfold collect in nil room es
  collect-induction P nil full skip take (p ∷ ps) zero es = unfold collect in full p ps es
  collect-induction P nil full skip take (p ∷ ps) (suc room) es = elim (round p es) [
    | quiet q ↦
        rw (collect-quiet p ps room es q)
          (skip p ps room es (inl q) (collect-induction P nil full skip take ps (suc room) es))
    | gone q ↦
        rw (collect-gone p ps room es q)
          (skip p ps room es (inr q) (collect-induction P nil full skip take ps (suc room) es))
    | hit e q f ↦ rw (collect-hit p ps room es e q f) (
        take p ps room es e q f (
          collect-induction P nil full skip take ps room
            (update_entry p.fd (disarm lt (poll_to_epoll h (reported h p))) es)))
  ]

  -- Once `out` is full the rest of the array is not looked at.
  pub collect-append :
      (qs ps : List PollFd) (room : ℕ) (es : List Entry)
      → length (collect h lt ps room es).0 ≡ room
      → collect h lt (ps ++ qs) room es ≡ collect h lt ps room es
  collect-append qs [] zero es full = collect-full qs es ∙ sym (collect-full [] es)
  collect-append qs [] (suc room) es full = absurd (unfold collect in omega (arith, full))
  collect-append qs (p ∷ ps) zero es full =
      collect-full (p ∷ (ps ++ qs)) es ∙ sym (collect-full (p ∷ ps) es)
  collect-append qs (p ∷ ps) (suc room) es full = elim (round p es) [
    | quiet q ↦
        rw (collect-quiet p (ps ++ qs) room es q, collect-quiet p ps room es q)
          (collect-append qs ps (suc room) es (rw (collect-quiet p ps room es q) at full))
    | gone q ↦
        rw (collect-gone p (ps ++ qs) room es q, collect-gone p ps room es q)
          (collect-append qs ps (suc room) es (rw (collect-gone p ps room es q) at full))
    | hit e q f ↦
        rw (collect-hit p (ps ++ qs) room es e q f, collect-hit p ps room es e q f)
          (rw (
            collect-append qs ps room
              (update_entry p.fd (disarm lt (poll_to_epoll h (reported h p))) es)
              (omega (arith, rw (collect-hit p ps room es e q f) at full))))
  ]
