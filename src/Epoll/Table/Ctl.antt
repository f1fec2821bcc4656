-- ===== src/Epoll/Table/Ctl.antt =====
-- `emu_ctl` of shim/epoll.c on the whole table.
use rust_ape.Prelude.{
  ℕ, ◌≤◌, ◌≡◌, refl, ◌∙◌, ap, Bool, true, [], ◌∷◌, Option, none, some, if◌then◌else◌, count, arith,
  Option-cases, inl, inr,
}
use rust_ape.Epoll.Interest.{Event, Interest, Errno, fail, ctl_switch}
use rust_ape.Epoll.Interest.Laws.{
  IsWf, ctl_switch-fail, view, map_call, guarded, guarded_refines, guarded-IsWf,
}
use rust_ape.Epoll.Table.{EpollSet, Table, owns, set_by_handle, update_set, emu_ctl, kick_if_ok}
use rust_ape.Epoll.Table.Handles.{claims, IsOwnedOnce, owns-count}

count-le-claims :
    (t : Table) (fd a : ℕ) (s : EpollSet)
    → set_by_handle t fd ≡ some s
    → count a s.handles ≤ claims a t
unfolding set_by_handle
count-le-claims [] fd a s e = cc
count-le-claims (none ∷ t) fd a s e = count-le-claims t fd a s e
count-le-claims (some x ∷ t) fd a s e = ground (arith, count-le-claims t fd a s)

-- A store through a set's pointer that keeps its handles is seen by the handles of that set, and
-- by no other.
pub set_by_handle-update :
    (fd : ℕ) (f : EpollSet → EpollSet) (t : Table) (j : ℕ)
    → ((s : EpollSet) → (f s).handles ≡ s.handles)
    → claims j t ≤ 1
    → (s : EpollSet) → set_by_handle t fd ≡ some s
    → set_by_handle (update_set fd f t) j
      ≡ (if owns j s.handles then some (f s) else set_by_handle t j)
unfolding set_by_handle update_set
set_by_handle-update fd f [] j keep w s e = cc
set_by_handle-update fd f (none ∷ t) j keep w s e = set_by_handle-update fd f t j keep w s e
set_by_handle-update fd f (some x ∷ t) j keep w s e = ground (
  arith,
  keep x,
  owns-count j x.handles,
  owns-count j s.handles,
  count-le-claims t fd j s,
  set_by_handle-update fd f t j keep (omega (arith, w)) s,
)

update_set_self :
    (fd : ℕ) (f : EpollSet → EpollSet) (t : Table) (s : EpollSet)
    → set_by_handle t fd ≡ some s
    → f s ≡ s
    → update_set fd f t ≡ t
unfolding set_by_handle update_set
update_set_self fd f [] s e same = refl
update_set_self fd f (none ∷ t) s e same = ap (λ r. none ∷ r) (update_set_self fd f t s e same)
update_set_self fd f (some x ∷ t) s e same = ground (arith, update_set_self fd f t s)

abbrev pub store_interest : Interest → EpollSet → EpollSet
store_interest i s = record s { interest = i }

-- A failed `epoll_ctl` changes no set and writes no waker, whatever made it fail.
pub emu_ctl-fail :
    (grown : Bool) (epfd op fd : ℕ) (arg : Option Event) (t : Table) (err : Errno)
    → (emu_ctl grown epfd op fd arg t).1 ≡ fail err
    → ((emu_ctl grown epfd op fd arg t).0 ≡ t) × ((emu_ctl grown epfd op fd arg t).2 ≡ [])
unfolding emu_ctl
emu_ctl-fail grown epfd op fd arg t err e = elim (Option-cases (set_by_handle t epfd)) [
  | inl q ↦ ground (arith, q)
  | inr (s, q) ↦
      let i = (ctl_switch grown op fd arg s.interest).0 in
      ground (
        arith,
        q,
        ctl_switch-fail grown op fd arg s.interest err,
        update_set_self epfd (store_interest i) t s q,
      )
]

emu_ctl-runs :
    (epfd op fd : ℕ) (arg : Option Event) (t : Table) (s : EpollSet)
    → set_by_handle t epfd ≡ some s
    → let (i, r) = guarded epfd op fd arg s.interest in
      emu_ctl true epfd op fd arg t
      ≡ (update_set epfd (store_interest i) t, r, kick_if_ok r s.waker)
unfolding emu_ctl ctl_switch
emu_ctl-runs epfd op fd none t s e =
    ground (arith, e, update_set_self epfd (store_interest s.interest) t s e refl)
emu_ctl-runs epfd op fd (some ev) t s e =
    ground (arith, e, update_set_self epfd (store_interest s.interest) t s e refl)

-- On a table where no number names two sets, a call on a well-formed set, with an event or without,
-- is seen through every handle of that set, as `map_call` changes and answers, and through no handle of
-- another set; the set stays well-formed, and its waker is written exactly where the call succeeds.
-- Memory for a longer list can be had.
pub emu_ctl_refines :
    (epfd op fd : ℕ) (arg : Option Event) (t : Table) (s : EpollSet) (j k : ℕ)
    → IsOwnedOnce t
    → set_by_handle t epfd ≡ some s
    → IsWf s.interest
    → let (t', r, effects) = emu_ctl true epfd op fd arg t in
      (r ≡ (map_call epfd op fd arg (view s.interest)).1)
      × (effects ≡ kick_if_ok r s.waker)
      × ((i : Interest) × (set_by_handle t' j
            ≡ (if owns j s.handles then some (store_interest i s) else set_by_handle t j))
          × IsWf i
          × (view i k ≡ (map_call epfd op fd arg (view s.interest)).0 k))
emu_ctl_refines epfd op fd arg t s j k w e wf =
    let i : Interest = (guarded epfd op fd arg s.interest).0 in
    let runs = emu_ctl-runs epfd op fd arg t s e in
    let seen = set_by_handle-update epfd (store_interest i) t j (λ _. refl) (w j) s e in
    let (now, answer) = guarded_refines epfd op fd arg s.interest k wf in
    (
      ap (λ x. x.1) runs ∙ answer,
      rw runs,
      (
        i,
        ap (λ x. set_by_handle x.0 j) runs ∙ seen,
        guarded-IsWf epfd op fd arg s.interest wf,
        now,
      ),
    )
