-- ===== src/Epoll/Pairs/Count.antt =====
-- The pipe-pair table of shim/epoll.c: its slots and its counter.
use rust_ape.Prelude.{
  ℕ, zero, suc, ◌+◌, ◌-◌, ◌%◌, ◌^◌, ◌<◌, ◌≤◌, ◌≡◌, refl, ◌∙◌, Bool, true, false, ◌||◌, List, [],
  ◌∷◌, ◌==◌, if◌then◌else◌, length, length-set, arith, Bool-cases, inl, inr, negative, nonpositive,
  get_or, set,
}
use rust_ape.Epoll.Pairs.{
  PipePair, Pairs, no_pair, pipe_pairs, slot_of, names_fd, drop_slots, pairs_drop, pairs_insert,
  note_new_fd, note_pipe, note_pair,
}

-- How many slots are in use.
abbrev pub occupied : List PipePair → ℕ
occupied [] = 0
occupied (p ∷ ps) = (if p.w == 0 then 0 else 1) + occupied ps

-- How many slots name this descriptor.
abbrev pub mentions : ℕ → List PipePair → ℕ
mentions fd [] = 0
mentions fd (p ∷ ps) = (if names_fd fd p then 1 else 0) + mentions fd ps

-- The table has its 32 slots, and `g_pairs_live` counts those in use.
pub record IsCounted (s : Pairs) : Type 0 where
  pub size : length s.slots ≡ pipe_pairs
  pub counted : s.live ≡ occupied s.slots

pub mentions-le : (fd : ℕ) (ps : List PipePair) → mentions fd ps ≤ occupied ps
mentions-le fd [] = omega arith
mentions-le fd (p ∷ ps) = ground (arith, mentions-le fd ps)

length-drop_slots :
    (fd : ℕ) (ps : List PipePair) (n : ℕ) → length (drop_slots fd ps n).0 ≡ length ps
unfolding drop_slots
length-drop_slots fd [] n = refl
length-drop_slots fd (p ∷ ps) n =
    ground (arith, length-drop_slots fd ps (if names_fd fd p then n - 1 else n))

drop_slots-count :
    (fd : ℕ) (ps : List PipePair) (n k : ℕ)
    → n ≡ k + occupied ps
    → (drop_slots fd ps n).1 ≡ k + occupied (drop_slots fd ps n).0
unfolding drop_slots
drop_slots-count fd [] n k h = ground arith
drop_slots-count fd (p ∷ ps) n k h = ground (
  arith,
  drop_slots-count fd ps (if names_fd fd p then n - 1 else n)
      (k + (if names_fd fd p then 0 else if p.w == 0 then 0 else 1)),
)

pub mentions-drop_slots :
    (fd : ℕ) (ps : List PipePair) (n j : ℕ)
    → (mentions fd (drop_slots fd ps n).0 ≡ 0) × (mentions j (drop_slots fd ps n).0 ≤ mentions j ps)
unfolding drop_slots
mentions-drop_slots fd [] n j = ground arith
mentions-drop_slots fd (p ∷ ps) n j =
    ground (arith, mentions-drop_slots fd ps (if names_fd fd p then n - 1 else n) j)

-- `pairs_drop_locked` keeps the counter right.
pub pairs_drop-IsCounted : (fd : ℕ) (s : Pairs) → IsCounted s → IsCounted (pairs_drop fd s)
unfolding pairs_drop
pairs_drop-IsCounted fd s w = record {
  size = length-drop_slots fd s.slots s.live ∙ w.size;
  counted = drop_slots-count fd s.slots s.live 0 (omega (arith, w.counted)) ∙ omega arith;
}

set-occupied :
    (ps : List PipePair) (i : ℕ) (p : PipePair)
    → i < length ps
    → occupied (set ps i p) + (if (get_or ps i no_pair).w == 0 then 0 else 1)
      ≡ occupied ps + (if p.w == 0 then 0 else 1)
set-occupied [] i p h = absurd (omega arith)
set-occupied (x ∷ ps) zero p h = ground arith
set-occupied (x ∷ ps) (suc i) p h = ground (arith, set-occupied ps i p)

nonpositive-false : (r w : ℕ) → (negative r || nonpositive w) ≡ false → (w == 0) ≡ false
nonpositive-false r w h = ground arith

get_or-occupied :
    (ps : List PipePair) (i : ℕ) → (if (get_or ps i no_pair).w == 0 then 0 else 1) ≤ occupied ps
get_or-occupied [] i = omega arith
get_or-occupied (p ∷ ps) zero = ground arith
get_or-occupied (p ∷ ps) (suc i) = ground (arith, get_or-occupied ps i)

-- Below the end of `int`, the counter names a slot of the table.
pub slot_of-inside : (n : ℕ) → n < 2 ^ 31 → slot_of n ≡ n % pipe_pairs
slot_of-inside n h = ground (arith, h)

pub pairs_insert-next : (rfd wfd : ℕ) (s : Pairs) → (pairs_insert rfd wfd s).next ≤ s.next + 1
unfolding pairs_insert
pairs_insert-next rfd wfd s = ground arith

pub pairs_insert-IsCounted :
    (rfd wfd : ℕ) (s : Pairs) → IsCounted s → s.next < 2 ^ 31 → IsCounted (pairs_insert rfd wfd s)
unfolding pairs_insert
pairs_insert-IsCounted rfd wfd s w lt =
    let i = slot_of s.next in
    let inside : slot_of s.next < length s.slots =
      omega (arith, w.size, slot_of-inside s.next lt) in
    record {
      size =
          ground (arith, w.size, length-set s.slots (slot_of s.next) (record { r = rfd; w = wfd }));
      counted = elim (Bool-cases (negative rfd || nonpositive wfd)) [
        | inl e ↦ rw e (w.counted)
        | inr e ↦ rw e (
            ground (
              arith,
              w.counted,
              get_or-occupied s.slots i,
              set-occupied s.slots i (record { r = rfd; w = wfd }) inside,
              nonpositive-false rfd wfd e,
            ))
      ];
    }

pub dropped_next : (a b : ℕ) (s : Pairs) → (pairs_drop b (pairs_drop a s)).next ≡ s.next
unfolding pairs_drop
dropped_next a b s = refl

-- What the operations do to the counter.
pub note-next :
    (raw : Bool) (a b : ℕ) (s : Pairs)
    → ((note_new_fd raw a s).next ≡ s.next) × ((note_pipe raw a b s).next ≤ s.next + 1)
unfolding note_new_fd note_pipe pairs_drop
note-next raw a b s =
    ground (arith, pairs_insert-next a b (pairs_drop b (pairs_drop a s)), dropped_next a b s)

if-IsCounted : (b : Bool) (x y : Pairs) → IsCounted x → IsCounted y → IsCounted (if b then x else y)
if-IsCounted true x y wx wy = wx
if-IsCounted false x y wx wy = wy

-- Every operation on the table keeps its 32 slots and its counter of live entries right, where the
-- insertions that it makes do not bring `g_pairs_next` to the end of `int`.
pub note-IsCounted :
    (raw : Bool) (a b : ℕ) (s : Pairs)
    → IsCounted s
    → s.next + 1 < 2 ^ 31
    → IsCounted (note_new_fd raw a s)
      × IsCounted (note_pipe raw a b s)
      × IsCounted (note_pair raw a b s)
unfolding note_new_fd note_pipe note_pair
note-IsCounted raw a b s w lt =
    let s1 = pairs_drop b (pairs_drop a s) in
    let dropped = pairs_drop-IsCounted b (pairs_drop a s) (pairs_drop-IsCounted a s w) in
    let inserted = pairs_insert-IsCounted a b s1 dropped (omega (arith, lt, dropped_next a b s)) in
    let next2 : (pairs_insert a b s1).next < 2 ^ 31 =
      omega (arith, lt, pairs_insert-next a b s1, dropped_next a b s) in
    (
      if-IsCounted (negative a || (s.live == 0 || raw)) _ _ w (pairs_drop-IsCounted a s w),
      if-IsCounted (negative a || (negative b || raw)) _ _ w inserted,
      if-IsCounted (negative a || (negative b || raw)) _ _ w
          (pairs_insert-IsCounted b a _ inserted next2),
    )

-- Once a number is handed out anew, no slot names it any more: the early return on an empty table
-- misses nothing.
pub note_new_fd_forgets :
    (fd : ℕ) (s : Pairs)
    → IsCounted s
    → negative fd ≡ false
    → mentions fd (note_new_fd false fd s).slots ≡ 0
unfolding note_new_fd pairs_drop
note_new_fd_forgets fd s w v =
    ground (arith, v, w.counted, mentions-le fd s.slots, mentions-drop_slots fd s.slots s.live fd)
