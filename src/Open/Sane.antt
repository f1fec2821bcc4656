-- ===== src/Open/Sane.antt =====
-- What each function behind `open`, `openat`, `pipe2` and `fcntl` of shim/open.c leaves in the tables of
-- shim/epoll.c.
use rust_ape.Prelude.{
  ℕ, suc, ◌+◌, ◌^◌, ◌<◌, sym, ◌≡◌, ◌≢◌, refl, subst, inl, inr, Bool, true, false, ◌||◌, List,
  Option, none, some, ◌==◌, if◌then◌else◌, negative, nonpositive, arith, Bool-cases,
}
use rust_ape.Epoll.Table.Handles.{IsOwnedOnce, note_dup-IsOwnedOnce}
use rust_ape.Epoll.Pairs.{note_pipe}
use rust_ape.Epoll.Pairs.Count.{IsCounted, note-IsCounted, note-next, note_new_fd_forgets, mentions}
use rust_ape.Open.{Problem, left_by_host, Outcome, returns, refuses, einval}
use rust_ape.Open.Fds.{
  Kept, noted_new, noted_dup, Flock, FdHost, opened, opened_by, open_flagged, openat_flagged,
  vpath_of, asked_procfs, PipeAnswer, ends, no_pipe, piped, pipe_flagged,
}
use rust_ape.Open.Control.{
  Controlled, memfd_fcntl, fcntl_after, fcntl_switch, duplicated, f_dupfd_cloexec, answered_lock,
  put_flags,
}

-- The two tables are as they should be.
abbrev pub IsSound : Kept → Type 0
IsSound s = IsOwnedOnce s.sets × IsCounted s.pairs

-- The same, with room in `g_pairs_next` for so many insertions.
abbrev pub IsSoundFor : ℕ → Kept → Type 0
IsSoundFor n s = IsSound s × (s.pairs.next + n < 2 ^ 31)

abbrev pub IsKept : Kept → Kept → Type 0
IsKept s s' = (n : ℕ) → IsSoundFor (suc n) s → IsSoundFor n s'

same-IsKept : (s s' : Kept) → s'.sets ≡ s.sets → s'.pairs ≡ s.pairs → IsKept s s'
same-IsKept s s' p q n ((o, c), lt) =
    ((subst IsOwnedOnce (sym p) o, subst IsCounted (sym q) c), rw q (omega (arith, lt)))

noted_new-IsKept : (fd : ℕ) (s : Kept) → IsKept s (noted_new fd s)
noted_new-IsKept fd s n ((o, c), lt) = (
  (o, (note-IsCounted s.raw fd fd s.pairs c (omega (arith, lt))).0),
  omega (arith, lt, note-next s.raw fd fd s.pairs),
)

noted_dup-IsKept : (fd nfd : ℕ) (s : Kept) → IsKept s (noted_new nfd (noted_dup fd nfd s))
noted_dup-IsKept fd nfd s n ((o, c), lt) =
    noted_new-IsKept nfd (noted_dup fd nfd s) n
      ((note_dup-IsOwnedOnce s.raw fd nfd s.sets o, c), lt)

-- What the three properties of a call come down to for each of the functions that it is made of.
abbrev IsUnchanged : Kept → Kept → ℕ → Type 0
IsUnchanged s s' j = (s'.sets ≡ s.sets) × (s'.pairs ≡ s.pairs) × (s'.memfds j ≡ s.memfds j)

abbrev pub Sane : Bool → Kept → Outcome → Kept → Type 0
Sane g s (refuses e) s' = IsKept s s' × ((j : ℕ) → IsUnchanged s s' j)
Sane g s (returns fd) s' =
    IsKept s s'
    × (g ≡ true
        → IsCounted s.pairs
        → s.raw ≡ false
        → negative fd ≡ false
        → mentions fd s'.pairs.slots ≡ 0)

refuses-Sane : (g : Bool) (e : Problem) (s : Kept) → Sane g s (refuses e) s
refuses-Sane g e s = (same-IsKept s s refl refl, λ j. (refl, refl, refl))

answer-Sane : (r : Outcome) (s : Kept) → Sane false s r s
answer-Sane (refuses e) s = refuses-Sane false e s
answer-Sane (returns x) s = (same-IsKept s s refl refl, λ q. absurd (ground arith))

forgotten :
    (fd : ℕ) (s : Kept)
    → IsCounted s.pairs
    → s.raw ≡ false
    → negative fd ≡ false
    → mentions fd (noted_new fd s).pairs.slots ≡ 0
forgotten fd s c r n = rw r (note_new_fd_forgets fd s.pairs c n)

opened-Sane :
    (vpath : Option (List ℕ)) (r : Outcome) (s : Kept)
    → Sane true s (opened vpath r s).reply (opened vpath r s).kept
unfolding opened
opened-Sane vpath (refuses e) s = refuses-Sane true e s
opened-Sane vpath (returns fd) s = (noted_new-IsKept fd s, λ q. forgotten fd s)

opened_by-Sane :
    (vpath : Option (List ℕ)) (p : Option Outcome) (r : Outcome) (s : Kept)
    → Sane true s (opened_by vpath p r s).reply (opened_by vpath p r s).kept
unfolding opened_by
opened_by-Sane vpath none r s = opened-Sane vpath r s
opened_by-Sane vpath (some q) r s = opened-Sane none q s

pub open_flagged-Sane :
    (h : FdHost) (path : List ℕ) (mode : ℕ) (f : Outcome) (s : Kept)
    → Sane true s (open_flagged h path mode f s).reply (open_flagged h path mode f s).kept
unfolding open_flagged
open_flagged-Sane h path mode (refuses e) s = refuses-Sane true e s
open_flagged-Sane h path mode (returns host) s =
    opened_by-Sane (some path) (h.procfs_open path host) (h.host_open path host mode) s

pub openat_flagged-Sane :
    (h : FdHost) (dirfd : ℕ) (path : List ℕ) (mode : ℕ) (f : Outcome) (s : Kept)
    → Sane true s
        (openat_flagged h dirfd path mode f s).reply
        (openat_flagged h dirfd path mode f s).kept
unfolding openat_flagged
openat_flagged-Sane h dirfd path mode (refuses e) s = refuses-Sane true e s
openat_flagged-Sane h dirfd path mode (returns host) s =
    opened_by-Sane (vpath_of h dirfd path) (asked_procfs h (vpath_of h dirfd path) host) _ s

pipe-IsKept : (r w : ℕ) (s : Kept) → IsKept s (record s { pairs = note_pipe s.raw r w s.pairs })
pipe-IsKept r w s n ((o, c), lt) = (
  (o, (note-IsCounted s.raw r w s.pairs c (omega (arith, lt))).1),
  omega (arith, lt, note-next s.raw r w s.pairs),
)

piped-Sane : (p : PipeAnswer) (s : Kept) → Sane false s (piped p s).0 (piped p s).2
unfolding piped
piped-Sane (ends r w) s = (pipe-IsKept r w s, λ q. absurd (ground arith))
piped-Sane (no_pipe e) s = refuses-Sane false (left_by_host e) s

pub pipe_flagged-Sane :
    (h : FdHost) (f : Outcome) (s : Kept)
    → Sane false s (pipe_flagged h f s).0 (pipe_flagged h f s).2
unfolding pipe_flagged
pipe_flagged-Sane h (refuses e) s = refuses-Sane false e s
pipe_flagged-Sane h (returns host) s = piped-Sane (h.pipe2 host) s

duplicated-Sane :
    (g : Bool) (fd : ℕ) (r : Outcome) (fl : Flock) (s : Kept)
    → Sane g s (duplicated fd r fl s).reply (duplicated fd r fl s).kept
unfolding duplicated
duplicated-Sane g fd (refuses e) fl s = refuses-Sane g e s
duplicated-Sane g fd (returns nfd) fl s =
    (noted_dup-IsKept fd nfd s, λ q. forgotten nfd (noted_dup fd nfd s))

if-Sane :
    (b g : Bool) (s : Kept) (x y : Controlled)
    → (b ≡ true → Sane g s x.reply x.kept)
    → (b ≡ false → Sane g s y.reply y.kept)
    → Sane g s (if b then x else y).reply (if b then x else y).kept
if-Sane true g s x y p q = p refl
if-Sane false g s x y p q = q refl

answered-Sane : (g : Bool) (r : Outcome) (fl : Flock) (s : Kept) → g ≡ false → Sane g s r s
answered-Sane true r fl s q = absurd (ground arith)
answered-Sane false r fl s q = answer-Sane r s

lock-Sane :
    (g : Bool) (a : Outcome × Flock) (s : Kept)
    → g ≡ false
    → Sane g s (answered_lock a s).reply (answered_lock a s).kept
lock-Sane g (r, fl) s q = answered-Sane g r fl s q

-- One arm of the `switch`, for a command that makes no descriptor.
arm-Sane :
    (cmd k : ℕ) (s : Kept) (r : Outcome) (fl : Flock) (y : Controlled)
    → k ≢ 0
    → k ≢ f_dupfd_cloexec
    → Sane (cmd == 0 || cmd == f_dupfd_cloexec) s y.reply y.kept
    → let z = if cmd == k then record { reply = r; kept = s; lock = fl } else y in
      Sane (cmd == 0 || cmd == f_dupfd_cloexec) s z.reply z.kept
arm-Sane cmd k s r fl y n m rest =
    if-Sane (cmd == k) _ s _ y (λ q. answered-Sane _ r fl s (ground arith)) (λ _. rest)

fcntl_switch-Sane :
    (h : FdHost) (fd cmd arg : ℕ) (fl : Flock) (s : Kept)
    → let o = fcntl_switch h fd cmd arg fl s in
      Sane (cmd == 0 || cmd == f_dupfd_cloexec) s o.reply o.kept
unfolding fcntl_switch
fcntl_switch-Sane h fd cmd arg fl s =
    if-Sane (cmd == 0) _ s _ _ (λ _. duplicated-Sane _ fd (h.fcntl fd cmd arg) fl s)
      (λ _. arm-Sane cmd 1 s _ fl _ (omega arith) (omega arith) (
        arm-Sane cmd 2 s _ fl _ (omega arith) (omega arith) (
          arm-Sane cmd 3 s _ fl _ (omega arith) (omega arith) (
            arm-Sane cmd 4 s _ fl _ (omega arith) (omega arith) (
              arm-Sane cmd 5 s _ _ _ (omega arith) (omega arith) (
                arm-Sane cmd 6 s _ _ _ (omega arith) (omega arith) (
                  arm-Sane cmd 7 s _ _ _ (omega arith) (omega arith) (
                    arm-Sane cmd 8 s _ fl _ (omega arith) (omega arith) (
                      arm-Sane cmd 9 s _ fl _ (omega arith) (omega arith) (
                        if-Sane (cmd == f_dupfd_cloexec) _ s _ _
                          (λ _.
                            if-Sane (nonpositive h.dupfd_cloexec) _ s _ _
                              (λ _. refuses-Sane (cmd == 0 || cmd == f_dupfd_cloexec) einval s)
                              (λ _. duplicated-Sane _ fd (h.fcntl fd h.dupfd_cloexec arg) fl s))
                          (λ _.
                            refuses-Sane (cmd == 0 || cmd == f_dupfd_cloexec) einval s)))))))))))

put_flags_same :
    (m : ℕ → Option ℕ) (fd flags j : ℕ) → m fd ≡ some flags → put_flags m fd flags j ≡ m j
put_flags_same m fd flags j e = ground (arith, e)

abbrev SaneMemory : Bool → Kept → ℕ → Outcome × ℕ → Type 0
SaneMemory g s fd (r, flags) = Sane g s r (record s { memfds = put_flags s.memfds fd flags })

-- One arm of the other `switch`, for a command that makes no descriptor.
memory_arm :
    (cmd k fd : ℕ) (s : Kept) (x flags : ℕ) (y : Outcome × ℕ)
    → k ≢ 0
    → k ≢ f_dupfd_cloexec
    → SaneMemory (cmd == 0 || cmd == f_dupfd_cloexec) s fd y
    → SaneMemory
        (cmd == 0 || cmd == f_dupfd_cloexec)
        s
        fd
        (if cmd == k then (returns x, flags) else y)
memory_arm cmd k fd s x flags y n m rest = elim (Bool-cases (cmd == k)) [
  | inl q ↦ rw q (λ n. same-IsKept s s refl refl n, λ g. absurd (ground arith))
  | inr q ↦ rw q rest
]

memfd-Sane :
    (h : FdHost) (fd cmd arg flags : ℕ) (fl : Flock) (s : Kept)
    → s.memfds fd ≡ some flags
    → let o = fcntl_after h fd cmd arg fl (some flags) s in
      Sane (cmd == 0 || cmd == f_dupfd_cloexec) s o.reply o.kept
unfolding fcntl_after memfd_fcntl
memfd-Sane h fd cmd arg flags fl s e = memory_arm cmd 1 fd s _ flags _ (omega arith) (omega arith) (
    memory_arm cmd 2 fd s 0 _ _ (omega arith) (omega arith) (
      memory_arm cmd 3 fd s 0 flags _ (omega arith) (omega arith) (
        memory_arm cmd 4 fd s 0 flags _ (omega arith) (omega arith) (
          λ n. same-IsKept s s refl refl n,
          λ j. (refl, refl, put_flags_same s.memfds fd flags j e),
        ))))

pub fcntl_after-Sane :
    (h : FdHost) (fd cmd arg : ℕ) (fl : Flock) (m : Option ℕ) (s : Kept)
    → s.memfds fd ≡ m
    → let o = fcntl_after h fd cmd arg fl m s in
      Sane (cmd == 0 || cmd == f_dupfd_cloexec) s o.reply o.kept
unfolding fcntl_after
fcntl_after-Sane h fd cmd arg fl none s e = fcntl_switch-Sane h fd cmd arg fl s
fcntl_after-Sane h fd cmd arg fl (some flags) s e = memfd-Sane h fd cmd arg flags fl s e

pub Sane-IsKept : (g : Bool) (s : Kept) (r : Outcome) (s' : Kept) → Sane g s r s' → IsKept s s'
Sane-IsKept g s (refuses e) s' k = k.0
Sane-IsKept g s (returns fd) s' k = k.0
