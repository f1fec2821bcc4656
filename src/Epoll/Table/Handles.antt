-- ===== src/Epoll/Table/Handles.antt =====
-- Which set a descriptor number belongs to, in shim/epoll.c.
use rust_ape.Prelude.{
  ℕ, zero, suc, ◌+◌, ◌<◌, ◌≤◌, ◌≡◌, ◌≢◌, refl, Bool, true, false, ◌||◌, List, [], ◌∷◌, ◌++◌, none,
  some, ◌==◌, if◌then◌else◌, length, count, count-append, count-rotate, length-drop_last, arith,
  Option-cases, inl, inr, ◌⊎◌,
}
use rust_ape.Epoll.Table.{
  EpollSet, Table, owns, set_by_handle, update_set, push_handle, note_dup, move_last,
  forget_handles, is_empty, forget_fd, reclaim, place, max_handles,
}

-- How often a number stands among the handles of the table.
abbrev pub claims : ℕ → Table → ℕ
claims h [] = 0
claims h (none ∷ t) = claims h t
claims h (some s ∷ t) = count h s.handles + claims h t

-- No number is a handle twice, neither of two sets nor of one.
abbrev pub IsOwnedOnce : Table → Type 0
IsOwnedOnce t = (h : ℕ) → claims h t ≤ 1

pub owns-count : (fd : ℕ) (hs : List ℕ) → owns fd hs ≡ (if count fd hs == 0 then false else true)
unfolding owns
owns-count fd [] = refl
owns-count fd (h ∷ hs) = ground (arith, owns-count fd hs)

pub set_by_handle-none : (t : Table) (fd : ℕ) → set_by_handle t fd ≡ none → claims fd t ≡ 0
unfolding set_by_handle
set_by_handle-none [] fd h = refl
set_by_handle-none (none ∷ t) fd h = set_by_handle-none t fd h
set_by_handle-none (some s ∷ t) fd h =
    ground (arith, owns-count fd s.handles, set_by_handle-none t fd)

pub claims-set_by_handle :
    (t : Table) (fd : ℕ) (s : EpollSet)
    → set_by_handle t fd ≡ some s
    → (1 ≤ count fd s.handles) × (count fd s.handles ≤ claims fd t)
unfolding set_by_handle
claims-set_by_handle [] fd s h = cc
claims-set_by_handle (none ∷ t) fd s h = claims-set_by_handle t fd s h
claims-set_by_handle (some x ∷ t) fd s h =
    ground (arith, owns-count fd x.handles, claims-set_by_handle t fd s)

count-move_last : (a : ℕ) (hs : List ℕ) → count a (move_last hs) ≡ count a hs
count-move_last a [] = refl
count-move_last a (h ∷ hs) = count-rotate a h hs

length-move_last : (hs : List ℕ) → length (move_last hs) ≡ length hs
length-move_last [] = refl
length-move_last (h ∷ hs) = omega (arith, length-drop_last h hs)

-- The loop of `forget_fd` takes every copy of the number out and leaves the others.
pub count-forget_handles :
    (n fd : ℕ) (hs : List ℕ) (a : ℕ)
    → length hs ≤ n
    → count a (forget_handles n fd hs) ≡ (if fd == a then 0 else count a hs)
unfolding forget_handles
count-forget_handles zero fd [] a l = ground arith
count-forget_handles zero fd (h ∷ hs) a l = absurd (omega arith)
count-forget_handles (suc n) fd [] a l = ground arith
count-forget_handles (suc n) fd (h ∷ hs) a l = ground (
  arith,
  count-forget_handles n fd (move_last hs) a,
  count-forget_handles n fd hs a,
  count-move_last a hs,
  length-move_last hs,
)

pub count-is_empty : (hs : List ℕ) (a : ℕ) → is_empty hs ≡ true → count a hs ≡ 0
count-is_empty [] a h = refl
count-is_empty (x ∷ hs) a h = cc

-- `forget_fd` leaves no claim of the number and touches no other number.
pub claims-forget_fd :
    (fd : ℕ) (t : Table) (a : ℕ) → claims a (forget_fd fd t).0 ≡ (if fd == a then 0 else claims a t)
unfolding forget_fd
claims-forget_fd fd [] a = ground arith
claims-forget_fd fd (none ∷ t) a = claims-forget_fd fd t a
claims-forget_fd fd (some s ∷ t) a = ground (
  arith,
  claims-forget_fd fd t a,
  count-forget_handles (length s.handles) fd s.handles a,
  count-is_empty (forget_handles (length s.handles) fd s.handles) a,
)

pub claims-reclaim :
    (alive : ℕ → Bool) (t : Table) (a : ℕ) → claims a (reclaim alive t).0 ≤ claims a t
unfolding reclaim
claims-reclaim alive [] a = omega arith
claims-reclaim alive (none ∷ t) a = claims-reclaim alive t a
claims-reclaim alive (some s ∷ t) a = ground (arith, claims-reclaim alive t a)

pub claims-place :
    (s : EpollSet) (t t' : Table) (a : ℕ)
    → place s t ≡ some t'
    → claims a t' ≡ count a s.handles + claims a t
unfolding place
claims-place s [] t' a h = cc
claims-place s (none ∷ t) t' a h = ground arith
claims-place s (some x ∷ t) t' a h = elim (Option-cases (place s t)) [
  | inl q ↦ absurd (ground arith)
  | inr (u, q) ↦ ground (arith, claims-place s t u a q)
]

pub claims-update_set :
    (fd : ℕ) (f : EpollSet → EpollSet) (k a : ℕ) (t : Table)
    → ((s : EpollSet) → count a (f s).handles ≡ k + count a s.handles)
    → (s : EpollSet) → set_by_handle t fd ≡ some s
    → claims a (update_set fd f t) ≡ k + claims a t
unfolding update_set set_by_handle
claims-update_set fd f k a [] g s h = cc
claims-update_set fd f k a (none ∷ t) g s h = claims-update_set fd f k a t g s h
claims-update_set fd f k a (some x ∷ t) g s h =
    ground (arith, g x, claims-update_set fd f k a t g s)

-- Duplicating a descriptor keeps every number a handle of one set at most, and of that set once.
pub note_dup-IsOwnedOnce :
    (raw : Bool) (oldfd newfd : ℕ) (t : Table)
    → IsOwnedOnce t
    → IsOwnedOnce (note_dup raw oldfd newfd t)
unfolding note_dup
note_dup-IsOwnedOnce raw oldfd newfd t w a = elim (Option-cases (set_by_handle t oldfd)) [
  | inl e ↦ ground (arith, w a)
  | inr (s, e) ↦ ground (
    arith,
    w a,
    set_by_handle-none t newfd,
    claims-update_set oldfd (push_handle newfd) (if newfd == a then 1 else 0) a t
        (λ x. omega (arith, count-append x.handles (newfd ∷ []) a)) s e,
  )
]

owns-append : (fd : ℕ) (hs ks : List ℕ) → owns fd (hs ++ ks) ≡ (owns fd hs || owns fd ks)
unfolding owns
owns-append fd [] ks = refl
owns-append fd (h ∷ hs) ks = ground (arith, owns-append fd hs ks)

set_by_handle-push :
    (oldfd newfd : ℕ) (t : Table) (s : EpollSet) (j : ℕ)
    → set_by_handle t oldfd ≡ some s
    → set_by_handle t newfd ≡ none
    → (j ≡ oldfd) ⊎ (j ≡ newfd)
    → set_by_handle (update_set oldfd (push_handle newfd) t) j ≡ some (push_handle newfd s)
unfolding set_by_handle update_set
set_by_handle-push oldfd newfd [] s j e n w = cc
set_by_handle-push oldfd newfd (none ∷ t) s j e n w = set_by_handle-push oldfd newfd t s j e n w
set_by_handle-push oldfd newfd (some x ∷ t) s j e n w =
    ground (arith, owns-append j x.handles (newfd ∷ []), set_by_handle-push oldfd newfd t s j)

-- A duplicate names the same set as the original, where the number was free and the set has room
-- for another handle.
pub note_dup_shares :
    (oldfd newfd : ℕ) (t : Table) (s : EpollSet)
    → oldfd ≢ newfd
    → set_by_handle t oldfd ≡ some s
    → set_by_handle t newfd ≡ none
    → length s.handles < max_handles
    → (set_by_handle (note_dup false oldfd newfd t) newfd ≡ some (push_handle newfd s))
      × (set_by_handle (note_dup false oldfd newfd t) oldfd ≡ some (push_handle newfd s))
unfolding note_dup
note_dup_shares oldfd newfd t s ne e n room = (
  ground (arith, set_by_handle-push oldfd newfd t s newfd e n (inr refl)),
  ground (arith, set_by_handle-push oldfd newfd t s oldfd e n (inl refl)),
)
