-- ===== src/Epoll/Pairs/Hints.antt =====
-- The pipe-pair table of shim/epoll.c: the hint for a write, after a pair has been recorded.
use rust_ape.Prelude.{
  ℕ, zero, suc, ◌+◌, ◌%◌, ◌^◌, ◌<◌, ◌≤◌, ◌≡◌, ◌≢◌, refl, ◌∙◌, ap, sym, false, List, [], ◌∷◌, some,
  ◌==◌, if◌then◌else◌, length, arith, negative, nonpositive, get_or, set,
}
use rust_ape.Epoll.Interest.{arm_in}
use rust_ape.Epoll.Table.{Table}
use rust_ape.Epoll.Rearm.{rearm}
use rust_ape.Epoll.Pairs.{
  PipePair, Pairs, no_pair, pipe_pairs, drop_slots, pairs_drop, pairs_insert, note_pipe, note_pair,
  find_pair, hint_pipe_write,
}
use rust_ape.Epoll.Pairs.Count.{
  mentions, IsCounted, mentions-drop_slots, pairs_drop-IsCounted, pairs_insert-IsCounted,
  slot_of-inside, pairs_insert-next, dropped_next,
}

-- How many slots have this write end.
abbrev writers : ℕ → List PipePair → ℕ
writers fd [] = 0
writers fd (p ∷ ps) = (if p.w == fd then 1 else 0) + writers fd ps

writers-le : (fd : ℕ) (ps : List PipePair) → 0 < fd → writers fd ps ≤ mentions fd ps
writers-le fd [] h = omega arith
writers-le fd (p ∷ ps) h = ground (arith, writers-le fd ps h)

find_pair-set :
    (ps : List PipePair) (i rfd wfd : ℕ)
    → i < length ps
    → writers wfd ps ≡ 0
    → find_pair (set ps i (record { r = rfd; w = wfd })) wfd ≡ some rfd
unfolding find_pair
find_pair-set [] i rfd wfd l m = absurd (omega arith)
find_pair-set (p ∷ ps) zero rfd wfd l m = ground arith
find_pair-set (p ∷ ps) (suc i) rfd wfd l m = ground (arith, find_pair-set ps i rfd wfd)

-- A store over a slot with another write end, of a pair with another write end, is not seen.
find_pair-set_other :
    (ps : List PipePair) (i fd : ℕ) (p : PipePair)
    → (get_or ps i no_pair).w ≢ fd
    → p.w ≢ fd
    → find_pair (set ps i p) fd ≡ find_pair ps fd
unfolding find_pair
find_pair-set_other [] i fd p o n = refl
find_pair-set_other (x ∷ ps) zero fd p o n = ground arith
find_pair-set_other (x ∷ ps) (suc i) fd p o n = ground (arith, find_pair-set_other ps i fd p o n)

get_or-set_apart :
    (ps : List PipePair) (i k : ℕ) (p : PipePair)
    → i ≢ k
    → get_or (set ps i p) k no_pair ≡ get_or ps k no_pair
get_or-set_apart [] i k p ne = refl
get_or-set_apart (x ∷ ps) zero zero p ne = absurd (ne refl)
get_or-set_apart (x ∷ ps) zero (suc k) p ne = refl
get_or-set_apart (x ∷ ps) (suc i) zero p ne = refl
get_or-set_apart (x ∷ ps) (suc i) (suc k) p ne = get_or-set_apart ps i k p (λ e. ne (ap suc e))

get_or-writers :
    (ps : List PipePair) (i fd : ℕ) → 0 < fd → writers fd ps ≡ 0 → (get_or ps i no_pair).w ≢ fd
get_or-writers [] i fd k z = omega arith
get_or-writers (p ∷ ps) zero fd k z = ground arith
get_or-writers (p ∷ ps) (suc i) fd k z = get_or-writers ps i fd k (ground arith)

writers-set :
    (ps : List PipePair) (i fd : ℕ) (p : PipePair)
    → p.w ≢ fd
    → writers fd (set ps i p) ≤ writers fd ps
writers-set [] i fd p n = omega arith
writers-set (x ∷ ps) zero fd p n = ground arith
writers-set (x ∷ ps) (suc i) fd p n = ground (arith, writers-set ps i fd p n)

pairs_insert-stores :
    (rfd wfd : ℕ) (s : Pairs)
    → negative rfd ≡ false
    → nonpositive wfd ≡ false
    → s.next < 2 ^ 31
    → ((pairs_insert rfd wfd s).slots
        ≡ set s.slots (s.next % pipe_pairs) (record { r = rfd; w = wfd }))
      × ((pairs_insert rfd wfd s).next ≡ s.next + 1)
      × (((pairs_insert rfd wfd s).live == 0) ≡ false)
unfolding pairs_insert
pairs_insert-stores rfd wfd s hr hw lt =
    let wrapped : (s.next + 1) % 2 ^ 32 ≡ s.next + 1 = omega (arith, lt) in
    rw (hr, hw, slot_of-inside s.next lt, wrapped) (refl, refl, ground arith)

-- Both descriptors are gone from the table after the two drops that every insertion begins with.
pairs_drop-both :
    (a b : ℕ) (s : Pairs)
    → (mentions a (pairs_drop b (pairs_drop a s)).slots ≡ 0)
      × (mentions b (pairs_drop b (pairs_drop a s)).slots ≡ 0)
unfolding pairs_drop
pairs_drop-both a b s = omega (
  arith,
  mentions-drop_slots a s.slots s.live a,
  mentions-drop_slots b (drop_slots a s.slots s.live).0 (drop_slots a s.slots s.live).1 a,
)

positive : (w : ℕ) → nonpositive w ≡ false → 0 < w
positive w h = ground arith

negative-nonpositive : (w : ℕ) → nonpositive w ≡ false → negative w ≡ false
negative-nonpositive w h = ground arith

note_pipe-runs :
    (r w : ℕ) (s : Pairs)
    → negative r ≡ false
    → nonpositive w ≡ false
    → note_pipe false r w s ≡ pairs_insert r w (pairs_drop w (pairs_drop r s))
unfolding note_pipe
note_pipe-runs r w s hr hw = rw (hr, negative-nonpositive w hw)

note_pair-runs :
    (a b : ℕ) (s : Pairs)
    → negative a ≡ false
    → negative b ≡ false
    → note_pair false a b s ≡ pairs_insert b a (pairs_insert a b (pairs_drop b (pairs_drop a s)))
unfolding note_pair
note_pair-runs a b s ha hb = rw (ha, hb)

hint-found :
    (wfd rfd : ℕ) (s : Pairs) (t : Table)
    → nonpositive wfd ≡ false
    → negative rfd ≡ false
    → (s.live == 0) ≡ false
    → find_pair s.slots wfd ≡ some rfd
    → hint_pipe_write false wfd s t ≡ rearm rfd arm_in t
unfolding hint_pipe_write
hint-found wfd rfd s t hw hr l f = rw (hw, l, f, hr)

-- A write into a pipe re-arms its read end: directly after the pipe is recorded, the hint for its
-- write end is `rearm` of the read end, whatever the table held before. `g_pairs_next` has not reached the
-- end of `int`.
pub hint-note_pipe :
    (rfd wfd : ℕ) (s : Pairs) (t : Table)
    → IsCounted s
    → s.next < 2 ^ 31
    → negative rfd ≡ false
    → nonpositive wfd ≡ false
    → hint_pipe_write false wfd (note_pipe false rfd wfd s) t ≡ rearm rfd arm_in t
hint-note_pipe rfd wfd s t w lt hr hw =
    let s1 = pairs_drop wfd (pairs_drop rfd s) in
    let w1 = pairs_drop-IsCounted wfd (pairs_drop rfd s) (pairs_drop-IsCounted rfd s w) in
    let (stored, _, live) =
      pairs_insert-stores rfd wfd s1 hr hw (omega (arith, lt, dropped_next rfd wfd s)) in
    let found =
      find_pair-set s1.slots (s1.next % pipe_pairs) rfd wfd (omega (arith, w1.size))
        (omega (arith, writers-le wfd s1.slots (positive wfd hw), pairs_drop-both rfd wfd s)) in
    ap (λ x. hint_pipe_write false wfd x t) (note_pipe-runs rfd wfd s hr hw)
    ∙ hint-found wfd rfd (pairs_insert rfd wfd s1) t hw hr live
        (ap (λ x. find_pair x wfd) stored ∙ found)

-- A socket pair is recorded both ways: a write to either end re-arms the other, where
-- `g_pairs_next` has not reached the end of `int`.
pub hint-note_pair :
    (a b : ℕ) (s : Pairs) (t : Table)
    → IsCounted s
    → s.next + 1 < 2 ^ 31
    → nonpositive a ≡ false
    → nonpositive b ≡ false
    → a ≢ b
    → (hint_pipe_write false a (note_pair false a b s) t ≡ rearm b arm_in t)
      × (hint_pipe_write false b (note_pair false a b s) t ≡ rearm a arm_in t)
hint-note_pair a b s t w lt ha hb ne =
    let s1 = pairs_drop b (pairs_drop a s) in
    let w1 = pairs_drop-IsCounted b (pairs_drop a s) (pairs_drop-IsCounted a s w) in
    let s2 = pairs_insert a b s1 in
    let lt1 : s1.next < 2 ^ 31 = omega (arith, lt, dropped_next a b s) in
    let lt2 : s2.next < 2 ^ 31 = omega (arith, lt, dropped_next a b s, pairs_insert-next a b s1) in
    let w2 = pairs_insert-IsCounted a b s1 w1 lt1 in
    let na = negative-nonpositive a ha in
    let nb = negative-nonpositive b hb in
    let (stored1, next1, live1) = pairs_insert-stores a b s1 na hb lt1 in
    let (stored2, next2, live2) = pairs_insert-stores b a s2 nb ha lt2 in
    let gone = pairs_drop-both a b s in
    let i = s1.next % pipe_pairs in
    let no_a : writers a s1.slots ≡ 0 =
      omega (arith, writers-le a s1.slots (positive a ha), gone) in
    let no_b : writers b s1.slots ≡ 0 =
      omega (arith, writers-le b s1.slots (positive b hb), gone) in
    let no_a2 : writers a s2.slots ≡ 0 =
      ap (writers a) stored1
      ∙ omega (arith, no_a, writers-set s1.slots i a (record { r = a; w = b }) (λ e. ne (sym e))) in
    let found_a =
      find_pair-set s2.slots (s2.next % pipe_pairs) b a (omega (arith, w2.size)) no_a2 in
    let found_b = find_pair-set s1.slots i a b (omega (arith, w1.size)) no_b in
    let apart : i ≢ s2.next % pipe_pairs = omega (arith, next1) in
    let old : (get_or s2.slots (s2.next % pipe_pairs) no_pair).w ≢ b =
      rw
        (
          stored1,
          get_or-set_apart s1.slots i (s2.next % pipe_pairs) (record { r = a; w = b }) apart,
        )
        (get_or-writers s1.slots (s2.next % pipe_pairs) b (positive b hb) no_b) in
    let kept =
      find_pair-set_other s2.slots (s2.next % pipe_pairs) b (record { r = b; w = a }) old ne in
    let runs = note_pair-runs a b s na nb in
    (
      ap (λ x. hint_pipe_write false a x t) runs
          ∙ hint-found a b (pairs_insert b a s2) t ha nb live2
              (ap (λ x. find_pair x a) stored2 ∙ found_a),
      ap (λ x. hint_pipe_write false b x t) runs
          ∙ hint-found b a (pairs_insert b a s2) t hb na live2
              (ap (λ x. find_pair x b) stored2 ∙ kept ∙ ap (λ x. find_pair x b) stored1 ∙ found_b),
    )
