-- ===== src/Epoll/Interest/Laws.antt =====
-- The three operations of `emu_ctl`'s `switch`, in shim/epoll.c, and a finite map from fds to
-- entries beside them.
use rust_ape.Prelude.{
  ℕ, ◌≤◌, ◌<◌, ◌≡◌, refl, Bool, true, false, ◌||◌, Bool-cases, List, [], ◌∷◌, Option, none, some,
  ◌==◌, if◌then◌else◌, length, last, length-append, length-drop_last, Option-cases, inl, inr, arith,
}
use rust_ape.Epoll.Interest.{
  Errno, Event, Entry, Interest, Reply, ok, fail, eexist, enoent, einval, efault, chop, new_entry,
  modified, ctl_add, ctl_mod, ctl_del, find_entry, update_entry, delete_entry, add, modify, remove,
  ctl_switch,
}
use rust_ape.Epoll.Interest.Lookup.{
  IsDistinct, fd_count-append, find-none_iff, find-none_of_count, find-some-fd, find-append,
  length-update_entry, fd_count-update_entry, find-update_entry, fd_count-delete_entry,
  find-delete_entry,
}

-- The representation invariant of an interest list.
pub record IsWf (s : Interest) : Type 0 where
  pub distinct : IsDistinct s.entries
  pub fits : length s.entries ≤ s.cap
  pub directions : (j : ℕ) (e : Entry) → find_entry s.entries j ≡ some e → e.armed < 4

length-chop : (es : List Entry) → length (chop es) ≤ length es
length-chop [] = omega arith
length-chop (e ∷ es) = omega (arith, length-drop_last e es)

pub length-delete_entry : (fd : ℕ) (es : List Entry) → length (delete_entry fd es) ≤ length es
unfolding delete_entry
length-delete_entry fd [] = omega arith
length-delete_entry fd (e ∷ es) = omega (
  arith,
  length-chop (update_entry fd (λ _. last e es) (e ∷ es)),
  length-update_entry fd (λ _. last e es) (e ∷ es),
)

-- The interest list as a map, and the three operations on maps.
abbrev pub View : Type 0
View = ℕ → Option Entry

abbrev pub view : Interest → View
view s fd = find_entry s.entries fd

abbrev pub put : ℕ → Entry → View → View
put fd e m j = if fd == j then some e else m j

abbrev pub forget : ℕ → View → View
forget fd m j = if fd == j then none else m j

-- What epoll_ctl promises of the map: EEXIST and ENOENT decide on the key alone, ADD and MOD leave
-- the entry armed in both directions.
pub map_ctl : ℕ → ℕ → Event → View → View × Reply
map_ctl op fd ev m =
    if op == ctl_add
    then elim (m fd) [ some _ ↦ (m, fail eexist) | none ↦ (put fd (new_entry fd ev) m, ok 0) ]
    else if op == ctl_mod
    then elim (m fd) [ some _ ↦ (put fd (new_entry fd ev) m, ok 0) | none ↦ (m, fail enoent) ]
    else if op == ctl_del
    then elim (m fd) [ some _ ↦ (forget fd m, ok 0) | none ↦ (m, fail enoent) ]
    else (m, fail einval)

if-IsWf : (b : Bool) (x y : Interest × Reply) → IsWf x.0 → IsWf y.0 → IsWf (if b then x else y).0
if-IsWf true x y wx wy = wx
if-IsWf false x y wx wy = wy

module _ (fd : ℕ) (s : Interest) (w : IsWf s) where
  add-IsWf : (grown : Bool) (ev : Event) → IsWf (add grown fd ev s).0
  unfolding add
  add-IsWf grown ev = record {
    distinct = λ j. ground (
      arith,
      w.distinct j,
      find-none_iff s.entries fd,
      fd_count-append j s.entries (new_entry fd ev ∷ []),
    );
    fits = ground (arith, w.fits, length-append s.entries (new_entry fd ev ∷ []));
    directions =
        λ j e h. ground (arith, w.directions j e, find-append s.entries (new_entry fd ev ∷ []) j);
  }

  modify-IsWf : (ev : Event) → IsWf (modify fd ev s).0
  unfolding modify
  modify-IsWf ev = record {
    distinct = λ j.
        ground
          (arith, w.distinct j, fd_count-update_entry fd (modified ev) (λ _. refl) j s.entries);
    fits = ground (arith, w.fits, length-update_entry fd (modified ev) s.entries);
    directions = λ j e h.
        ground
          (arith, w.directions j e, find-update_entry fd (modified ev) (λ _. refl) s.entries j);
  }

  remove-IsWf : IsWf (remove fd s).0
  unfolding remove
  remove-IsWf = record {
    distinct = λ j. ground (
      arith,
      w.distinct j,
      find-none_of_count s.entries fd,
      fd_count-delete_entry fd s.entries j,
    );
    fits = ground (arith, w.fits, length-delete_entry fd s.entries);
    directions = λ j e h. ground (
      arith,
      w.directions j e,
      find-none_of_count s.entries fd,
      find-delete_entry fd s.entries j w.distinct,
    );
  }

-- Every operation of `epoll_ctl`, successful or not, leaves a well-formed interest list
-- well-formed: no fd has two entries, the list fits its array, and only the two directions are
-- armed.
pub ctl_switch-IsWf :
    (grown : Bool) (op fd : ℕ) (arg : Option Event) (s : Interest)
    → IsWf s
    → IsWf (ctl_switch grown op fd arg s).0
unfolding ctl_switch
ctl_switch-IsWf grown op fd none s w =
    if-IsWf (op == ctl_add) _ _ w
      (if-IsWf (op == ctl_mod) _ _ w (if-IsWf (op == ctl_del) _ _ (remove-IsWf fd s w) w))
ctl_switch-IsWf grown op fd (some ev) s w = if-IsWf (op == ctl_add) _ _ (add-IsWf fd s w grown ev) (
    if-IsWf (op == ctl_mod) _ _ (modify-IsWf fd s w ev)
      (if-IsWf (op == ctl_del) _ _ (remove-IsWf fd s w) w))

-- The same for a call as a whole: a set cannot watch its own descriptor, and without an event only
-- DEL can be asked for.
abbrev pub map_call : ℕ → ℕ → ℕ → Option Event → View → View × Reply
map_call epfd op fd (some ev) m = if fd == epfd then (m, fail einval) else map_ctl op fd ev m
map_call epfd op fd none m =
    if fd == epfd
    then (m, fail einval)
    else if op == ctl_add || op == ctl_mod
    then (m, fail efault)
    else if op == ctl_del
    then elim (m fd) [ some _ ↦ (forget fd m, ok 0) | none ↦ (m, fail enoent) ]
    else (m, fail einval)

-- On a well-formed list, where `realloc` does not fail, an operation answers and changes every
-- lookup as `map_ctl` does on the map of the entries.
ctl_switch_refines :
    (op fd : ℕ) (ev : Event) (s : Interest) (j : ℕ)
    → IsWf s
    → let (s', r) = ctl_switch true op fd (some ev) s in
      (view s' j ≡ (map_ctl op fd ev (view s)).0 j) × (r ≡ (map_ctl op fd ev (view s)).1)
unfolding ctl_switch add modify remove map_ctl
ctl_switch_refines op fd ev s j w = elim (Option-cases (find_entry s.entries fd)) [
  | inl e ↦ ground (arith, find-append s.entries (new_entry fd ev ∷ []) j)
  | inr (x, e) ↦ ground (
    arith,
    find-some-fd s.entries fd x e,
    find-update_entry fd (modified ev) (λ _. refl) s.entries j,
    find-delete_entry fd s.entries j w.distinct,
    find-none_of_count s.entries fd,
  )
]

-- What `emu_ctl` does to the list of its set.
abbrev pub guarded : ℕ → ℕ → ℕ → Option Event → Interest → Interest × Reply
guarded epfd op fd arg s = if fd == epfd then (s, fail einval) else ctl_switch true op fd arg s

ctl_switch_null :
    (epfd op fd : ℕ) (s : Interest) (j : ℕ)
    → IsWf s
    → (fd == epfd) ≡ false
    → let (s', r) = ctl_switch true op fd none s in
      (view s' j ≡ (map_call epfd op fd none (view s)).0 j)
      × (r ≡ (map_call epfd op fd none (view s)).1)
unfolding ctl_switch remove
ctl_switch_null epfd op fd s j w q = elim (Option-cases (find_entry s.entries fd)) [
  | inl e ↦ ground (arith, q)
  | inr (x, e) ↦
      ground
        (arith, q, find-delete_entry fd s.entries j w.distinct, find-none_of_count s.entries fd)
]

pub guarded_refines :
    (epfd op fd : ℕ) (arg : Option Event) (s : Interest) (j : ℕ)
    → IsWf s
    → let (s', r) = guarded epfd op fd arg s in
      (view s' j ≡ (map_call epfd op fd arg (view s)).0 j)
      × (r ≡ (map_call epfd op fd arg (view s)).1)
guarded_refines epfd op fd none s j w = elim (Bool-cases (fd == epfd)) [
  | inl q ↦ rw q (refl, refl)
  | inr q ↦ ground (arith, q, ctl_switch_null epfd op fd s j w q)
]
guarded_refines epfd op fd (some ev) s j w = elim (Bool-cases (fd == epfd)) [
  | inl q ↦ rw q (refl, refl)
  | inr q ↦ rw q (ctl_switch_refines op fd ev s j w)
]

pub guarded-IsWf :
    (epfd op fd : ℕ) (arg : Option Event) (s : Interest)
    → IsWf s
    → IsWf (guarded epfd op fd arg s).0
guarded-IsWf epfd op fd arg s w =
    if-IsWf (fd == epfd) (s, fail einval) _ w (ctl_switch-IsWf true op fd arg s w)

-- A failed operation changes nothing, whatever made it fail.
pub ctl_switch-fail :
    (grown : Bool) (op fd : ℕ) (arg : Option Event) (s : Interest) (e : Errno)
    → (ctl_switch grown op fd arg s).1 ≡ fail e
    → (ctl_switch grown op fd arg s).0 ≡ s
unfolding ctl_switch add modify remove
ctl_switch-fail grown op fd arg s e h = ground arith
