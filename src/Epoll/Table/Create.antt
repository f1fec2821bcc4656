-- ===== src/Epoll/Table/Create.antt =====
-- `emu_create1` of shim/epoll.c: the sets that it retires and the one that it makes.
use rust_ape.Prelude.{
  ℕ, ◌≤◌, ◌≡◌, ◌≢◌, refl, ◌∙◌, Bool, true, false, List, [], ◌∷◌, Option, none, some, length, arith,
  Option-cases, inl, inr,
}
use rust_ape.Epoll.Interest.{Interest, ok}
use rust_ape.Epoll.Table.{
  EpollSet, Table, Host, owns, set_by_handle, forget_handles, forget_fd, any_alive, reclaim, place,
  retire, create1, new_set,
}
use rust_ape.Epoll.Table.Handles.{
  claims, IsOwnedOnce, owns-count, count-forget_handles, count-is_empty, claims-forget_fd,
  claims-reclaim, claims-place,
}

-- What a handle reaches: the waker and the interest list of its set.
abbrev pub reaches : Option EpollSet → Option (ℕ × Interest)
reaches none = none
reaches (some s) = some (s.waker, s.interest)

module _ (h : Host) (rfd wfd : ℕ) (t : Table) where
  pub claims-retire :
      (a : ℕ)
      → (claims a (retire h rfd wfd t).0 ≤ claims a t) × (claims rfd (retire h rfd wfd t).0 ≡ 0)
  unfolding retire
  claims-retire a = ground (
    arith,
    claims-forget_fd rfd t a,
    claims-forget_fd rfd t rfd,
    claims-forget_fd wfd (forget_fd rfd t).0 a,
    claims-forget_fd wfd (forget_fd rfd t).0 rfd,
    claims-reclaim h.alive (forget_fd wfd (forget_fd rfd t).0).0 a,
    claims-reclaim h.alive (forget_fd wfd (forget_fd rfd t).0).0 rfd,
  )

-- Creating a set, with or without success, keeps every number a handle of one set at most.
pub create1-IsOwnedOnce :
    (h : Host) (flags err : ℕ) (pipe : Option (ℕ × ℕ)) (t : Table)
    → IsOwnedOnce t
    → IsOwnedOnce (create1 h flags err pipe t).0
unfolding create1
create1-IsOwnedOnce h flags err none t w a = w a
create1-IsOwnedOnce h flags err (some (rfd, wfd)) t w a =
    elim (Option-cases (place (new_set rfd wfd) (retire h rfd wfd t).0)) [
      | inl e ↦ ground (arith, w a, claims-retire h rfd wfd t a)
      | inr (u, e) ↦ ground (
        arith,
        w a,
        claims-retire h rfd wfd t a,
        claims-place (new_set rfd wfd) (retire h rfd wfd t).0 u a e,
      )
    ]

set_by_handle-place :
    (rfd wfd : ℕ) (t t' : Table)
    → place (new_set rfd wfd) t ≡ some t'
    → claims rfd t ≡ 0
    → set_by_handle t' rfd ≡ some (new_set rfd wfd)
unfolding place set_by_handle
set_by_handle-place rfd wfd [] t' e z = cc
set_by_handle-place rfd wfd (none ∷ t) t' e z = ground arith
set_by_handle-place rfd wfd (some x ∷ t) t' e z = elim (Option-cases (place (new_set rfd wfd) t)) [
  | inl q ↦ absurd (ground arith)
  | inr (u, q) ↦ ground (arith, set_by_handle-place rfd wfd t u q, owns-count rfd x.handles)
]

reaches-forget_fd :
    (fd : ℕ) (t : Table) (j : ℕ)
    → fd ≢ j
    → reaches (set_by_handle (forget_fd fd t).0 j) ≡ reaches (set_by_handle t j)
unfolding forget_fd set_by_handle
reaches-forget_fd fd [] j ne = refl
reaches-forget_fd fd (none ∷ t) j ne = reaches-forget_fd fd t j ne
reaches-forget_fd fd (some s ∷ t) j ne = ground (
  arith,
  reaches-forget_fd fd t j ne,
  owns-count j s.handles,
  owns-count j (forget_handles (length s.handles) fd s.handles),
  count-forget_handles (length s.handles) fd s.handles j,
  count-is_empty (forget_handles (length s.handles) fd s.handles) j,
)

any_alive-owns :
    (alive : ℕ → Bool) (hs : List ℕ) (j : ℕ)
    → alive j ≡ true
    → any_alive alive hs ≡ false
    → owns j hs ≡ false
unfolding any_alive owns
any_alive-owns alive [] j a n = refl
any_alive-owns alive (x ∷ hs) j a n = ground (arith, any_alive-owns alive hs j a)

reaches-reclaim :
    (alive : ℕ → Bool) (t : Table) (j : ℕ)
    → alive j ≡ true
    → reaches (set_by_handle (reclaim alive t).0 j) ≡ reaches (set_by_handle t j)
unfolding reclaim set_by_handle
reaches-reclaim alive [] j a = refl
reaches-reclaim alive (none ∷ t) j a = reaches-reclaim alive t j a
reaches-reclaim alive (some s ∷ t) j a =
    ground (arith, reaches-reclaim alive t j a, any_alive-owns alive s.handles j a)

reaches-place :
    (rfd wfd : ℕ) (t t' : Table) (j : ℕ)
    → place (new_set rfd wfd) t ≡ some t'
    → rfd ≢ j
    → reaches (set_by_handle t' j) ≡ reaches (set_by_handle t j)
unfolding place set_by_handle
reaches-place rfd wfd [] t' j e ne = cc
reaches-place rfd wfd (none ∷ t) t' j e ne = ground arith
reaches-place rfd wfd (some x ∷ t) t' j e ne = elim (Option-cases (place (new_set rfd wfd) t)) [
  | inl q ↦ absurd (ground arith)
  | inr (u, q) ↦ ground (arith, reaches-place rfd wfd t u j q ne)
]

-- What a successful `emu_create1` returns: the read end of the pipe, which names a set that is
-- empty and whose waker is the write end.
pub create1_fresh :
    (h : Host) (flags err rfd wfd fd : ℕ) (t : Table)
    → (create1 h flags err (some (rfd, wfd)) t).1 ≡ ok fd
    → (fd ≡ rfd)
      × (set_by_handle (create1 h flags err (some (rfd, wfd)) t).0 fd ≡ some (new_set rfd wfd))
unfolding create1
create1_fresh h flags err rfd wfd fd t r =
    elim (Option-cases (place (new_set rfd wfd) (retire h rfd wfd t).0)) [
      | inl e ↦ absurd (ground arith)
      | inr (u, e) ↦ ground (
        arith,
        set_by_handle-place rfd wfd (retire h rfd wfd t).0 u e,
        claims-retire h rfd wfd t rfd,
      )
    ]

reaches-retire :
    (h : Host) (rfd wfd : ℕ) (t : Table) (j : ℕ)
    → h.alive j ≡ true
    → rfd ≢ j
    → wfd ≢ j
    → reaches (set_by_handle (retire h rfd wfd t).0 j) ≡ reaches (set_by_handle t j)
unfolding retire
reaches-retire h rfd wfd t j a ne nw =
    reaches-reclaim h.alive _ j a ∙ reaches-forget_fd wfd _ j nw ∙ reaches-forget_fd rfd t j ne

-- `emu_create1` never takes a set from under an open handle: a descriptor that is open, and is
-- not one of the two that `pipe` has just returned, reaches the same waker and interest list
-- after the call, whether it succeeds or not.
pub create1-keeps :
    (h : Host) (flags err : ℕ) (pipe : Option (ℕ × ℕ)) (t : Table) (j : ℕ)
    → h.alive j ≡ true
    → ((rfd wfd : ℕ) → pipe ≡ some (rfd, wfd) → (rfd ≢ j) × (wfd ≢ j))
    → reaches (set_by_handle (create1 h flags err pipe t).0 j) ≡ reaches (set_by_handle t j)
unfolding create1
create1-keeps h flags err none t j a fresh = refl
create1-keeps h flags err (some (rfd, wfd)) t j a fresh =
    let (nr, nw) = fresh rfd wfd refl in
    let before = reaches-retire h rfd wfd t j a nr nw in
    elim (Option-cases (place (new_set rfd wfd) (retire h rfd wfd t).0)) [
      | inl e ↦ ground (arith, before)
      | inr (u, e) ↦ ground (arith, before, reaches-place rfd wfd (retire h rfd wfd t).0 u j e nr)
    ]
