-- ===== src/Epoll/Arming/Handout.antt =====
-- The events that `emu_wait` of shim/epoll.c hands out, and the entries behind them.
use rust_ape.Prelude.{
  ℕ, ◌<◌, ◌≤◌, ◌≡◌, ◌≢◌, refl, ◌∙◌, ap, sym, subst, Bool, false, List, [], ◌∷◌, ◌++◌, some, ◌==◌,
  if◌then◌else◌, length, All, Any, Any-map, arith, Option-cases, inl, inr,
}
use rust_ape.Epoll.Arming.{PollBits, PollFd, Ready, poll_to_epoll, reported, disarm, collect}
use rust_ape.Epoll.Arming.Edges.{disarm-keeps}
use rust_ape.Epoll.Arming.Collect.{collect-induction, collect-append}
use rust_ape.Epoll.Interest.{Entry, find_entry, update_entry}
use rust_ape.Epoll.Interest.Lookup.{IsDistinct, fd_count-update_entry, find-update_entry}

All-map {ℓ} :
    {A : Type ℓ} (P Q : A → Type 0) (xs : List A) → ((x : A) → P x → Q x) → All P xs → All Q xs
All-map P Q [] f h = tt
All-map P Q (x ∷ xs) f h = (f x h.0, All-map P Q xs f h.1)

All-Any : {A : Type 0} (P : A → Type 0) (a : A) (xs : List A) → Any (λ x. x ≡ a) xs → All P xs → P a
All-Any P a [] m h = absurd m
All-Any P a (x ∷ xs) (inl e) h = subst P e h.0
All-Any P a (x ∷ xs) (inr m) h = All-Any P a xs m h.1

module _ (h : PollBits) (lt : Bool) where
  -- A report changes no token.
  find-disarmed :
      (ev fd j : ℕ) (es : List Entry) (e' : Entry)
      → find_entry (update_entry fd (disarm lt ev) es) j ≡ some e'
      → (e : Entry) × (find_entry es j ≡ some e) × (e.payload ≡ e'.payload)
  find-disarmed ev fd j es e' f = elim (Option-cases (find_entry es j)) [
    | inl q ↦
        absurd
          (ground (arith, find-update_entry fd (disarm lt ev) (λ e. (disarm-keeps lt ev e).0) es j))
    | inr (e, q) ↦ (
      e,
      q,
      ground (
        arith,
        disarm-keeps lt ev e,
        find-update_entry fd (disarm lt ev) (λ e. (disarm-keeps lt ev e).0) es j,
      ),
    )
  ]

  find-kept :
      (ev fd j : ℕ) (es : List Entry) (e : Entry)
      → find_entry es j ≡ some e
      → (e' : Entry) × (find_entry (update_entry fd (disarm lt ev) es) j ≡ some e')
        × (e'.payload ≡ e.payload)
  find-kept ev fd j es e f = (
    if fd == j then disarm lt ev e else e,
    ground (arith, find-update_entry fd (disarm lt ev) (λ e. (disarm-keeps lt ev e).0) es j),
    ground (arith, disarm-keeps lt ev e),
  )

  -- The slot has bits to report, its fd is registered, and the stored event is the translation of
  -- those bits with the token of the registration.
  pub record Explains (es : List Entry) (r : Ready) (p : PollFd) : Type 0 where
    pub entry : Entry
    pub some_bit : (reported h p == 0) ≡ false
    pub registered : find_entry es p.fd ≡ some entry
    pub bits : r.events ≡ poll_to_epoll h (reported h p)
    pub token : r.payload ≡ entry.payload

  -- No more than `maxevents` events are stored.
  pub length-collect :
      (ps : List PollFd) (room : ℕ) (es : List Entry) → length (collect h lt ps room es).0 ≤ room
  length-collect =
      collect-induction h lt (λ ps room es r. length r.0 ≤ room) (λ room es. omega arith)
        (λ p ps es. omega arith) (λ p ps room es _ ih. ih) (λ p ps room es e _ _ ih. omega arith)

  -- Every event that is stored comes from a slot with something to report, whose fd is registered,
  -- and carries the token of that registration.
  pub collect_sound :
      (ps : List PollFd) (room : ℕ) (es : List Entry)
      → All (λ r. Any (Explains es r) ps) (collect h lt ps room es).0
  collect_sound =
      collect-induction h lt (λ ps room es o. All (λ r. Any (Explains es r) ps) o.0) (λ room es. tt)
        (λ p ps es. tt) (λ p ps room es _ ih. All-map _ _ _ (λ r a. inr a) ih)
        (λ p ps room es e q f ih. (
          inl (record { entry = e; some_bit = q; registered = f; bits = refl; token = refl }),
          All-map _ _ _
              (λ r a. inr (
                Any-map _ _ ps
                  (λ x ex.
                    let (e0, f0, t0) = find-disarmed _ _ x.fd es ex.entry ex.registered in
                    record {
                      entry = e0;
                      some_bit = ex.some_bit;
                      registered = f0;
                      bits = ex.bits;
                      token = ex.token ∙ sym t0;
                    })
                  a))
              ih,
        ))

  collect-All :
      (ps : List PollFd) (room : ℕ) (es : List Entry)
      → length (collect h lt ps room es).0 < room
      → All
          (λ p.
            (e : Entry)
            → (reported h p == 0) ≡ false
            → find_entry es p.fd ≡ some e
            → Any
                (λ (r : Ready).
                  (r.events ≡ poll_to_epoll h (reported h p)) × (r.payload ≡ e.payload))
                (collect h lt ps room es).0)
          ps
  collect-All =
      collect-induction h lt
        (λ ps room es o.
          length o.0 < room
          → All
              (λ p.
                (e : Entry)
                → (reported h p == 0) ≡ false
                → find_entry es p.fd ≡ some e
                → Any
                    (λ (r : Ready).
                      (r.events ≡ poll_to_epoll h (reported h p)) × (r.payload ≡ e.payload))
                    o.0)
              ps)
        (λ room es _. tt) (λ p ps es l. absurd (omega arith))
        (λ p ps room es why ih l.
          (λ e q f. elim why [ inl z ↦ absurd (cc) | inr n ↦ absurd (cc) ], ih l))
        (λ p ps room es e q f ih l. (
          λ e0 q0 f0. inl (refl, ground arith),
          All-map _ _ ps
              (λ x k e0 q0 f0.
                let (e1, f1, t1) = find-kept _ _ x.fd es e0 f0 in
                inr (Any-map _ _ _ (λ r a. (a.0, a.1 ∙ t1)) (k e1 q0 f1)))
              (ih (omega arith)),
        ))

  -- Where there is room left, every slot with something to report and a registered fd is stored,
  -- with the token of the registration.
  pub collect_complete :
      (ps : List PollFd) (room : ℕ) (es : List Entry) (p : PollFd) (e : Entry)
      → Any (λ q. q ≡ p) ps
      → (reported h p == 0) ≡ false
      → find_entry es p.fd ≡ some e
      → length (collect h lt ps room es).0 < room
      → Any
          (λ (r : Ready). (r.events ≡ poll_to_epoll h (reported h p)) × (r.payload ≡ e.payload))
          (collect h lt ps room es).0
  collect_complete ps room es p e m q f l = All-Any _ p ps m (collect-All ps room es l) e q f

  -- An entry whose fd has no slot in the array is left as it was.
  pub collect-other :
      (j : ℕ) (ps : List PollFd) (room : ℕ) (es : List Entry)
      → All (λ (p : PollFd). p.fd ≢ j) ps
      → find_entry (collect h lt ps room es).1 j ≡ find_entry es j
  collect-other j =
      collect-induction h lt
        (λ ps room es o. All (λ (p : PollFd). p.fd ≢ j) ps → find_entry o.1 j ≡ find_entry es j)
        (λ room es _. refl) (λ p ps es _. refl) (λ p ps room es _ ih a. ih a.1)
        (λ p ps room es e q f ih a.
          ih a.1
          ∙ ground (
            arith,
            a.0,
            find-update_entry p.fd (disarm lt (poll_to_epoll h (reported h p)))
                (λ e. (disarm-keeps lt (poll_to_epoll h (reported h p)) e).0) es j,
          ))

  -- No event is lost to a small `maxevents`: when the slots of `ps` fill `out`, an entry with a
  -- slot behind them only is left armed exactly as it was.
  pub collect_cutoff :
      (ps qs : List PollFd) (room : ℕ) (es : List Entry) (j : ℕ)
      → length (collect h lt ps room es).0 ≡ room
      → All (λ (p : PollFd). p.fd ≢ j) ps
      → find_entry (collect h lt (ps ++ qs) room es).1 j ≡ find_entry es j
  collect_cutoff ps qs room es j full apart =
      ap (λ o. find_entry o.1 j) (collect-append h lt qs ps room es full)
      ∙ collect-other j ps room es apart

  -- Handing events out keeps the fds of the list distinct and the directions to the two there are.
  pub collect-IsDistinct :
      (ps : List PollFd) (room : ℕ) (es : List Entry)
      → IsDistinct es
      → IsDistinct (collect h lt ps room es).1
  collect-IsDistinct =
      collect-induction h lt (λ ps room es o. IsDistinct es → IsDistinct o.1) (λ room es d. d)
        (λ p ps es d. d) (λ p ps room es _ ih d. ih d)
        (λ p ps room es e q f ih d. ih (λ j. omega (
          arith,
          d j,
          fd_count-update_entry p.fd (disarm lt (poll_to_epoll h (reported h p)))
              (λ e. (disarm-keeps lt (poll_to_epoll h (reported h p)) e).0) j es,
        )))
