-- ===== src/Epoll/Interest.antt =====
-- The interest list of one epoll set in shim/epoll.c: `struct shim_epoll_entry`, `find_entry` and
-- the three operations of the `switch` in `emu_ctl`. The array `entries[0..count)` is a list, so
-- `count` is its length; an `int` is its 32-bit pattern.
pub mod Lookup
pub mod Laws
use rust_ape.Prelude.{
  ℕ, ◌*◌, Bool, true, false, List, [], ◌∷◌, ◌++◌, Option, none, some, ◌==◌, if◌then◌else◌, length,
  last, drop_last,
}

-- `struct shim_epoll_event`
pub record Event : Type 0 where
  pub events : ℕ
  pub payload : ℕ

-- `struct shim_epoll_entry`
pub record Entry : Type 0 where
  pub fd : ℕ
  pub events : ℕ
  pub payload : ℕ
  pub armed : ℕ

-- The `errno` values that this part sets.
pub data Errno : Type 0 where
  ebadf einval efault eexist enoent enomem emfile eintr enotsock : Errno
  -- any other value that a call of the host left
  other : ℕ → Errno

-- What a call returns: a value, or -1 with `errno` set.
pub data Reply : Type 0 where
  ok : ℕ → Reply
  fail : Errno → Reply

-- `SHIM_EPOLL_CTL_ADD`, `_DEL`, `_MOD`
abbrev pub ctl_add : ℕ
ctl_add = 1

abbrev pub ctl_del : ℕ
ctl_del = 2

abbrev pub ctl_mod : ℕ
ctl_mod = 3

-- `SHIM_ARM_IN`, `SHIM_ARM_OUT`, and the two together
abbrev pub arm_in : ℕ
arm_in = 1

abbrev pub arm_out : ℕ
arm_out = 2

abbrev pub arm_both : ℕ
arm_both = 3

-- The first entry with this fd.
unfoldable pub find_entry : List Entry → ℕ → Option Entry
find_entry [] fd = none
find_entry (e ∷ es) fd = if e.fd == fd then some e else find_entry es fd

-- A store through the pointer that `find_entry` returns; nothing where it returns NULL.
unfoldable pub update_entry : ℕ → (Entry → Entry) → List Entry → List Entry
update_entry fd f [] = []
update_entry fd f (e ∷ es) = if e.fd == fd then f e ∷ es else e ∷ update_entry fd f es

-- `s->count--`
abbrev pub chop : List Entry → List Entry
chop [] = []
chop (e ∷ es) = drop_last e es

-- `*e = s->entries[s->count - 1]; s->count--;` for the entry `e` with this fd.
unfoldable pub delete_entry : ℕ → List Entry → List Entry
unfolding update_entry
delete_entry fd [] = []
delete_entry fd (e ∷ es) = chop (update_entry fd (λ _. last e es) (e ∷ es))

-- The entry that ADD stores.
abbrev pub new_entry : ℕ → Event → Entry
new_entry fd ev = record { fd = fd; events = ev.events; payload = ev.payload; armed = arm_both }

-- What MOD stores through the pointer.
abbrev pub modified : Event → Entry → Entry
modified ev e = record e { events = ev.events; payload = ev.payload; armed = arm_both }

-- The array and its capacity.
pub record Interest : Type 0 where
  pub entries : List Entry
  pub cap : ℕ

-- `grown` says whether `realloc` succeeds where the array is full.
unfoldable pub add : Bool → ℕ → Event → Interest → Interest × Reply
unfolding find_entry
add grown fd ev s = elim (find_entry s.entries fd) [
  | some _ ↦ (s, fail eexist)
  | none ↦
      if length s.entries == s.cap
      then if grown
        then (
          record {
            entries = s.entries ++ (new_entry fd ev ∷ []);
            cap = if s.cap == 0 then 8 else s.cap * 2;
          },
          ok 0,
        )
        else (s, fail enomem)
      else (record s { entries = s.entries ++ (new_entry fd ev ∷ []) }, ok 0)
]

unfoldable pub modify : ℕ → Event → Interest → Interest × Reply
unfolding find_entry update_entry
modify fd ev s = elim (find_entry s.entries fd) [
  | none ↦ (s, fail enoent)
  | some _ ↦ (record s { entries = update_entry fd (modified ev) s.entries }, ok 0)
]

unfoldable pub remove : ℕ → Interest → Interest × Reply
unfolding find_entry delete_entry
remove fd s = elim (find_entry s.entries fd) [
  | none ↦ (s, fail enoent)
  | some _ ↦ (record s { entries = delete_entry fd s.entries }, ok 0)
]

-- The `switch (op)` of `emu_ctl`. `ev` is dereferenced by ADD and MOD alone, which run only where
-- it is not NULL; the `none` cases repeat the answer that `emu_ctl` gives before.
unfoldable pub ctl_switch : Bool → ℕ → ℕ → Option Event → Interest → Interest × Reply
ctl_switch grown op fd ev s =
    if op == ctl_add
    then elim ev [ some e ↦ add grown fd e s | none ↦ (s, fail efault) ]
    else if op == ctl_mod
    then elim ev [ some e ↦ modify fd e s | none ↦ (s, fail efault) ]
    else if op == ctl_del
    then remove fd s
    else (s, fail einval)
