-- ===== src/Open/Safety.antt =====
-- What a descriptor that shim/open.c hands out leaves in the tables of shim/epoll.c.
use rust_ape.Prelude.{
  ℕ, ◌+◌, ◌^◌, ◌<◌, length, ◌≡◌, refl, subst, Bool, true, false, ◌||◌, List, [], ◌∷◌, ◌==◌,
  negative,
}
use rust_ape.Epoll.Pairs.Count.{IsCounted, mentions}
use rust_ape.Open.{Problem, Outcome, returns, refuses, oflags_to_host}
use rust_ape.Open.Sane.{
  IsSound, IsSoundFor, Sane, open_flagged-Sane, openat_flagged-Sane, pipe_flagged-Sane,
  fcntl_after-Sane, Sane-IsKept,
}
use rust_ape.Open.Fds.{Kept, Flock, FdHost, shim_open, openat, pipe2, mode_of}
use rust_ape.Open.Control.{fcntl, f_dupfd_cloexec}

-- A call that can make a descriptor, and what it answers and leaves.
pub data FdCall : Type 0 where
  opens : List ℕ → ℕ → ℕ → FdCall
  opens_at : ℕ → List ℕ → ℕ → ℕ → FdCall
  pipes : ℕ → FdCall
  controls : ℕ → ℕ → ℕ → Flock → FdCall

abbrev pub call : FdHost → FdCall → Kept → Outcome × Kept
call h (opens path lin mode) s = let o = shim_open h path lin mode s in (o.reply, o.kept)
call h (opens_at dirfd path lin mode) s =
    let o = openat h dirfd path lin mode s in (o.reply, o.kept)
call h (pipes lin) s = let (r, _, s') = pipe2 h lin s in (r, s')
call h (controls fd cmd arg fl) s = let o = fcntl h fd cmd arg fl s in (o.reply, o.kept)

-- The calls whose answer is a new descriptor.
abbrev pub gives_fd : FdCall → Bool
gives_fd (opens path lin mode) = true
gives_fd (opens_at dirfd path lin mode) = true
gives_fd (pipes lin) = false
gives_fd (controls fd cmd arg fl) = cmd == 0 || cmd == f_dupfd_cloexec

call-Sane : (h : FdHost) (c : FdCall) (s : Kept) → Sane (gives_fd c) s (call h c s).0 (call h c s).1
unfolding shim_open openat pipe2 fcntl
call-Sane h (opens path lin mode) s =
    open_flagged-Sane h path (mode_of h.flags lin mode) (oflags_to_host h.flags lin) s
call-Sane h (opens_at dirfd path lin mode) s =
    openat_flagged-Sane h dirfd path (mode_of h.flags lin mode) (oflags_to_host h.flags lin) s
call-Sane h (pipes lin) s = pipe_flagged-Sane h (oflags_to_host h.flags lin) s
call-Sane h (controls fd cmd arg fl) s = fcntl_after-Sane h fd cmd arg fl (s.memfds fd) s refl

-- Any calls one after the other, each with what the host answers to it.
abbrev pub calls : List (FdHost × FdCall) → Kept → Kept
calls [] s = s
calls ((h, c) ∷ cs) s = calls cs (call h c s).1

calls-IsSoundFor :
    (cs : List (FdHost × FdCall)) (s : Kept) → IsSoundFor (length cs) s → IsSoundFor 0 (calls cs s)
calls-IsSoundFor [] s w = w
calls-IsSoundFor ((h, c) ∷ cs) s w =
    calls-IsSoundFor cs (call h c s).1
      (Sane-IsKept (gives_fd c) s (call h c s).0 (call h c s).1 (call-Sane h c s) (length cs) w)

-- Whatever `open`, `openat`, `pipe2` and `fcntl` are called with, one after the other, and whatever the
-- host answers, failures included: no number is a handle of two epoll sets, and the table of pipe pairs
-- has its 32 slots and the right counter of live entries, where that was so at the start. `g_pairs_next`,
-- which each call raises by one at most, does not reach the end of `int`.
pub calls-IsSound :
    (cs : List (FdHost × FdCall)) (s : Kept)
    → IsSound s
    → s.pairs.next + length cs < 2 ^ 31
    → IsSound (calls cs s)
calls-IsSound cs s w lt = (calls-IsSoundFor cs s (w, lt)).0

-- A call of `open`, `openat`, `pipe2` or `fcntl` that fails, for whatever reason, leaves the epoll sets,
-- the pipe pairs and the flags of every descriptor held in memory as they were.
pub call_refused :
    (h : FdHost) (c : FdCall) (s : Kept) (e : Problem) (j : ℕ)
    → (call h c s).0 ≡ refuses e
    → ((call h c s).1.sets ≡ s.sets)
      × ((call h c s).1.pairs ≡ s.pairs)
      × ((call h c s).1.memfds j ≡ s.memfds j)
call_refused h c s e j q =
    (subst (λ r. Sane (gives_fd c) s r (call h c s).1) q (call-Sane h c s)).1 j

-- A descriptor that `open` or `openat` returns, or `fcntl` with F_DUPFD or F_DUPFD_CLOEXEC, is in no
-- slot of the pipe-pair table any more, whatever stood there under its number. The emulation is in use,
-- and the table's counter was right.
pub call-forgets :
    (h : FdHost) (c : FdCall) (s : Kept) (fd : ℕ)
    → gives_fd c ≡ true
    → IsCounted s.pairs
    → s.raw ≡ false
    → negative fd ≡ false
    → (call h c s).0 ≡ returns fd
    → mentions fd (call h c s).1.pairs.slots ≡ 0
call-forgets h c s fd g w raw n q =
    (subst (λ r. Sane (gives_fd c) s r (call h c s).1) q (call-Sane h c s)).1 g w raw n
