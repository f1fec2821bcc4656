-- ===== src/Open/Control.antt =====
-- `fcntl` of shim/open.c with its translation of locks. A command without an argument passes 0 to the
-- host's `fcntl` here.
pub mod Locks
use rust_ape.Prelude.{
  ℕ, Bool, true, false, Option, none, some, ◌==◌, if◌then◌else◌, nonpositive, has, or_if,
  clear_bits,
}
use rust_ape.Open.{
  Outcome, returns, refuses, einval, OpenHost, accmode, oflags_to_host, oflags_to_linux,
}
use rust_ape.Open.Fds.{Kept, noted_new, noted_dup, Flock, FdHost}

-- `SHIM_LIN_F_RDLCK`, `_WRLCK`, `_UNLCK`, and the types of a lock in both codings
abbrev pub lin_rdlck : ℕ
lin_rdlck = 0

abbrev pub lin_wrlck : ℕ
lin_wrlck = 1

abbrev pub lin_unlck : ℕ
lin_unlck = 2

-- `ltype_to_host`; `none` where it fails.
unfoldable pub ltype_to_host : FdHost → ℕ → Option ℕ
ltype_to_host h lin =
    if lin == lin_rdlck
    then some h.rdlck
    else if lin == lin_wrlck
    then some h.wrlck
    else if lin == lin_unlck
    then some h.unlck
    else none

-- `ltype_to_linux`
unfoldable pub ltype_to_linux : FdHost → ℕ → ℕ
ltype_to_linux h host =
    if host == h.rdlck
    then lin_rdlck
    else if host == h.wrlck
    then lin_wrlck
    else if host == h.unlck
    then lin_unlck
    else host

-- `lock_cmd`: the answer and the caller's struct afterwards.
unfoldable pub locked : FdHost → Bool → Flock → Outcome × Flock → Outcome × Flock
unfolding ltype_to_linux
locked h writes_back fl (refuses e, got) = (refuses e, fl)
locked h writes_back fl (returns rc, got) =
    (returns rc, if writes_back then record got { l_type = ltype_to_linux h got.l_type } else fl)

unfoldable pub lock_typed : FdHost → ℕ → ℕ → Flock → Bool → Option ℕ → Outcome × Flock
unfolding locked
lock_typed h fd cmd fl writes_back none = (refuses einval, fl)
lock_typed h fd cmd fl writes_back (some host) =
    locked h writes_back fl (h.fcntl_lock fd cmd (record fl { l_type = host }))

unfoldable pub lock_cmd : FdHost → ℕ → ℕ → Flock → Bool → Outcome × Flock
unfolding lock_typed ltype_to_host
lock_cmd h fd cmd fl writes_back = lock_typed h fd cmd fl writes_back (ltype_to_host h fl.l_type)

-- What `fcntl` leaves: its answer, what is kept, and the struct that a lock command points to.
pub record Controlled : Type 0 where
  pub reply : Outcome
  pub kept : Kept
  pub lock : Flock

-- The arms of the `switch`.
unfoldable pub duplicated : ℕ → Outcome → Flock → Kept → Controlled
duplicated fd (refuses e) fl s = record { reply = refuses e; kept = s; lock = fl }
duplicated fd (returns nfd) fl s = record {
  reply = returns nfd;
  kept = noted_new nfd (noted_dup fd nfd s);
  lock = fl;
}

abbrev pub reported_flags : OpenHost → Outcome → Outcome
reported_flags h (refuses e) = refuses e
reported_flags h (returns host) = returns (oflags_to_linux h host)

abbrev pub set_flags : FdHost → ℕ → ℕ → Outcome → Outcome
set_flags h fd cmd (refuses e) = refuses e
set_flags h fd cmd (returns host) = h.fcntl fd cmd host

abbrev pub lock_if : FdHost → ℕ → ℕ → Flock → Bool → Outcome × Flock
lock_if h fd cmd fl writes_back =
    if nonpositive cmd then (refuses einval, fl) else lock_cmd h fd cmd fl writes_back

abbrev pub owner_if : FdHost → ℕ → Option ℕ → ℕ → Outcome
owner_if h fd none arg = refuses einval
owner_if h fd (some cmd) arg = if nonpositive cmd then refuses einval else h.fcntl fd cmd arg

abbrev pub answered : Outcome → Flock → Kept → Controlled
answered r fl s = record { reply = r; kept = s; lock = fl }

abbrev pub answered_lock : Outcome × Flock → Kept → Controlled
answered_lock (r, fl) s = record { reply = r; kept = s; lock = fl }

-- `SHIM_LIN_F_GETLK` and the others; 0 to 4 are F_DUPFD, F_GETFD, F_SETFD, F_GETFL and F_SETFL.
abbrev pub f_dupfd_cloexec : ℕ
f_dupfd_cloexec = 1030

unfoldable pub fcntl_switch : FdHost → ℕ → ℕ → ℕ → Flock → Kept → Controlled
unfolding duplicated lock_cmd oflags_to_host oflags_to_linux
fcntl_switch h fd cmd arg fl s =
    if cmd == 0
    then duplicated fd (h.fcntl fd cmd arg) fl s
    else if cmd == 1
    then answered (h.fcntl fd cmd 0) fl s
    else if cmd == 2
    then answered (h.fcntl fd cmd arg) fl s
    else if cmd == 3
    then answered (reported_flags h.flags (h.fcntl fd cmd 0)) fl s
    else if cmd == 4
    then answered (set_flags h fd cmd (oflags_to_host h.flags (clear_bits arg accmode))) fl s
    else if cmd == 5
    then answered_lock (lock_if h fd h.getlk fl true) s
    else if cmd == 6
    then answered_lock (lock_if h fd h.setlk fl false) s
    else if cmd == 7
    then answered_lock (lock_if h fd h.setlkw fl false) s
    else if cmd == 8
    then answered (owner_if h fd h.setown arg) fl s
    else if cmd == 9
    then answered (owner_if h fd h.getown 0) fl s
    else if cmd == f_dupfd_cloexec
    then (if nonpositive h.dupfd_cloexec
        then answered (refuses einval) fl s
        else duplicated fd (h.fcntl fd h.dupfd_cloexec arg) fl s)
    else answered (refuses einval) fl s

-- `FD_CLOEXEC`, and `__ape_shim_procfs_memfd_fcntl` on a descriptor with these flags: the answer, and its
-- flags afterwards.
abbrev pub fd_cloexec : ℕ
fd_cloexec = 1

unfoldable pub memfd_fcntl : FdHost → ℕ → ℕ → ℕ → Outcome × ℕ
memfd_fcntl h flags cmd arg =
    if cmd == 1
    then (returns (if has flags h.cloexec then fd_cloexec else 0), flags)
    else if cmd == 2
    then (returns 0, or_if (has arg fd_cloexec) h.cloexec (clear_bits flags h.cloexec))
    else if cmd == 3
    then (returns 0, flags)
    else if cmd == 4
    then (returns 0, flags)
    else (refuses einval, flags)

abbrev pub put_flags : (ℕ → Option ℕ) → ℕ → ℕ → ℕ → Option ℕ
put_flags m fd flags j = if j == fd then some flags else m j

-- `__ape_shim_fcntl`; `arg` is its argument as a number, `fl` what it points to as an address.
unfoldable pub fcntl_after : FdHost → ℕ → ℕ → ℕ → Flock → Option ℕ → Kept → Controlled
unfolding fcntl_switch memfd_fcntl
fcntl_after h fd cmd arg fl (some flags) s =
    let (r, flags') = memfd_fcntl h flags cmd arg in
    record { reply = r; kept = record s { memfds = put_flags s.memfds fd flags' }; lock = fl }
fcntl_after h fd cmd arg fl none s = fcntl_switch h fd cmd arg fl s

unfoldable pub fcntl : FdHost → ℕ → ℕ → ℕ → Flock → Kept → Controlled
unfolding fcntl_after
fcntl h fd cmd arg fl s = fcntl_after h fd cmd arg fl (s.memfds fd) s
