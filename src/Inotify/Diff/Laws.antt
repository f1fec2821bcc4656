-- ===== src/Inotify/Diff/Laws.antt =====
-- The walk of `scan_dir` in shim/inotify.c through two sorted listings, name by name.
use rust_ape.Prelude.{
  ℕ, ◌≡◌, refl, Bool, true, false, List, [], ◌∷◌, ◌++◌, append-nil, Option, none, some,
  if◌then◌else◌, arith, Bool-cases, inl, inr, ap, ap₂, ◌∙◌, sym, subst,
}
use rust_ape.Inotify.Channel.{Notice}
use rust_ape.Inotify.Diff.{Kid, below, same, above, strcmp, notice_if, gone, came, kept, diff_kids}
use rust_ape.Inotify.Diff.Names.{
  Sign-cases, is_same, strcmp-eq, strcmp-flip_above, IsBelow, IsSorted, find_kid, find_kid-IsBelow,
  IsBelow-trans, is_same-eq,
}

-- The records that carry this name.
abbrev pub about : List ℕ → List Notice → List Notice
about x [] = []
about x (ev ∷ evs) = if is_same (strcmp ev.name x) then ev ∷ about x evs else about x evs

-- What a directory's reader is owed for one name, from what the two listings say about it.
abbrev pub owed : ℕ → ℕ → Option Kid → Option Kid → List Notice
owed wd mask none none = []
owed wd mask (some o) none = gone wd mask o
owed wd mask none (some p) = came wd mask p
owed wd mask (some o) (some p) = kept wd mask o p

about-append : (x : List ℕ) (us vs : List Notice) → about x (us ++ vs) ≡ about x us ++ about x vs
about-append x [] vs = refl
about-append x (u ∷ us) vs = ground (arith, about-append x us vs)

module _ (x : List ℕ) (wd : ℕ) (mask : ℕ) where
  about-notice_if :
      (b : Bool) (m : ℕ) (name : List ℕ)
      → about x (notice_if b wd m name)
        ≡ (if is_same (strcmp name x) then notice_if b wd m name else [])
  about-notice_if b m name = ground arith

  about-kept :
      (o p : Kid)
      → o.name ≡ p.name
      → about x (kept wd mask o p) ≡ (if is_same (strcmp o.name x) then kept wd mask o p else [])
  about-kept o p e = ground (arith, ap (λ n. strcmp n x) e)

  diff-below :
      (o : Kid) (os : List Kid) (p : Kid) (ps : List Kid)
      → strcmp o.name p.name ≡ below
      → diff_kids wd mask (o ∷ os) (p ∷ ps) ≡ gone wd mask o ++ diff_kids wd mask os (p ∷ ps)
  unfolding diff_kids
  diff-below o os p ps h = rw (h, diff_kids)

  diff-above :
      (o : Kid) (os : List Kid) (p : Kid) (ps : List Kid)
      → strcmp o.name p.name ≡ above
      → diff_kids wd mask (o ∷ os) (p ∷ ps) ≡ came wd mask p ++ diff_kids wd mask (o ∷ os) ps
  unfolding diff_kids
  diff-above o os p ps h = rw (h, diff_kids)

  diff-same :
      (o : Kid) (os : List Kid) (p : Kid) (ps : List Kid)
      → strcmp o.name p.name ≡ same
      → diff_kids wd mask (o ∷ os) (p ∷ ps) ≡ kept wd mask o p ++ diff_kids wd mask os ps
  unfolding diff_kids
  diff-same o os p ps h = rw (h, diff_kids)

  -- A step of the walk, for a name that it is about and for one that it is not.
  step :
      (first rest : List Notice) (k : Kid) (r : List Notice)
      → about x first ≡ (if is_same (strcmp k.name x) then first else [])
      → (is_same (strcmp k.name x) ≡ true → (first ≡ r) × (about x rest ≡ []))
      → (is_same (strcmp k.name x) ≡ false → about x rest ≡ r)
      → about x (first ++ rest) ≡ r
  step first rest k r e hit miss = elim (Bool-cases (is_same (strcmp k.name x))) [
    | inl q ↦
        let all : about x first ≡ first = e ∙ rw q in
        about-append x first rest
        ∙ ap₂ (λ us vs. us ++ vs) all (hit q).1
        ∙ append-nil first
        ∙ (hit q).0
    | inr q ↦
        let nothing : about x first ≡ [] = e ∙ rw q in
        about-append x first rest ∙ ap (λ a. a ++ about x rest) nothing ∙ miss q
  ]

  behind :
      (k : Kid) (ks : List Kid)
      → is_same (strcmp k.name x) ≡ true
      → IsBelow k.name ks
      → find_kid x ks ≡ none
  behind k ks q h = find_kid-IsBelow x ks (subst (λ n. IsBelow n ks) (is_same-eq k.name x q) h)

  found :
      (k : Kid) (ks : List Kid) → is_same (strcmp k.name x) ≡ true → find_kid x (k ∷ ks) ≡ some k
  found k ks q = rw q

  passed :
      (k : Kid) (ks : List Kid)
      → is_same (strcmp k.name x) ≡ false
      → find_kid x ks ≡ find_kid x (k ∷ ks)
  passed k ks q = ground (arith, q)

  -- A name of one listing that comes before all of the other is not in the other.
  apart :
      (k j : Kid) (ks : List Kid)
      → is_same (strcmp k.name x) ≡ true
      → strcmp k.name j.name ≡ below
      → IsBelow j.name ks
      → find_kid x (j ∷ ks) ≡ none
  apart k j ks q l h = behind k (j ∷ ks) q (l, IsBelow-trans k.name j.name ks l h)

  -- Of two sorted listings, the walk passes to `emit` for each name exactly what is owed for it:
  -- IN_CREATE for a new one, IN_DELETE for one that is gone, both for a file that was replaced,
  -- IN_MODIFY and IN_ATTRIB for one that changed, as far as the mask asks for them.
  -- For every name, what the walk through two sorted listings passes on under it is what the two
  -- entries of that name, or their absence, call for, in order.
  pub diff_kids-owed :
      (os ps : List Kid)
      → IsSorted os
      → IsSorted ps
      → about x (diff_kids wd mask os ps) ≡ owed wd mask (find_kid x os) (find_kid x ps)
  unfolding diff_kids
  diff_kids-owed [] [] so sp = refl
  diff_kids-owed (o ∷ os) [] so sp =
      let ih = diff_kids-owed os [] so.1 tt in
      step (gone wd mask o) (diff_kids wd mask os []) o _ (about-notice_if _ _ o.name)
        (λ q. (
          sym (ap (λ f. owed wd mask f none) (found o os q)),
          ih ∙ ap (λ f. owed wd mask f none) (behind o os q so.0),
        ))
        (λ q. ih ∙ ap (λ f. owed wd mask f none) (passed o os q))
  diff_kids-owed [] (p ∷ ps) so sp =
      let ih = diff_kids-owed [] ps tt sp.1 in
      step (came wd mask p) (diff_kids wd mask [] ps) p _ (about-notice_if _ _ p.name)
        (λ q. (
          sym (ap (owed wd mask none) (found p ps q)),
          ih ∙ ap (owed wd mask none) (behind p ps q sp.0),
        ))
        (λ q. ih ∙ ap (owed wd mask none) (passed p ps q))
  diff_kids-owed (o ∷ os) (p ∷ ps) so sp = elim (Sign-cases (strcmp o.name p.name)) [
    | inl l ↦
        let ih = diff_kids-owed os (p ∷ ps) so.1 sp in
        let none_p = λ (q : is_same (strcmp o.name x) ≡ true). apart o p ps q l sp.0 in
        ap (about x) (diff-below o os p ps l)
        ∙ step (gone wd mask o) (diff_kids wd mask os (p ∷ ps)) o _ (about-notice_if _ _ o.name)
            (λ q. (
              sym (ap₂ (owed wd mask) (found o os q) (none_p q)),
              ih ∙ ap₂ (owed wd mask) (behind o os q so.0) (none_p q),
            ))
            (λ q. ih ∙ ap (λ f. owed wd mask f (find_kid x (p ∷ ps))) (passed o os q))
    | inr (inl e) ↦
        let ih = diff_kids-owed os ps so.1 sp.1 in
        let eq = strcmp-eq o.name p.name e in
        let in_p = λ (b : Bool) (q : is_same (strcmp o.name x) ≡ b).
          ap (λ n. is_same (strcmp n x)) (sym eq) ∙ q in
        ap (about x) (diff-same o os p ps e)
        ∙ step (kept wd mask o p) (diff_kids wd mask os ps) o _ (about-kept o p eq)
            (λ q. (
              sym (ap₂ (owed wd mask) (found o os q) (found p ps (in_p true q))),
              ih ∙ ap₂ (owed wd mask) (behind o os q so.0) (behind p ps (in_p true q) sp.0),
            ))
            (λ q. ih ∙ ap₂ (owed wd mask) (passed o os q) (passed p ps (in_p false q)))
    | inr (inr g) ↦
        let ih = diff_kids-owed (o ∷ os) ps so sp.1 in
        let l = strcmp-flip_above o.name p.name g in
        let none_o = λ (q : is_same (strcmp p.name x) ≡ true). apart p o os q l so.0 in
        ap (about x) (diff-above o os p ps g)
        ∙ step (came wd mask p) (diff_kids wd mask (o ∷ os) ps) p _ (about-notice_if _ _ p.name)
            (λ q. (
              sym (ap₂ (owed wd mask) (none_o q) (found p ps q)),
              ih ∙ ap₂ (owed wd mask) (none_o q) (behind p ps q sp.0),
            ))
            (λ q. ih ∙ ap (owed wd mask (find_kid x (o ∷ os))) (passed p ps q))
  ]
