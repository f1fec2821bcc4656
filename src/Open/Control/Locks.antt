-- ===== src/Open/Control/Locks.antt =====
-- File locks through `fcntl` of shim/open.c.
use rust_ape.Prelude.{ℕ, suc, zero, ◌≤◌, ◌≡◌, refl, false, none, some, ◌==◌, nonpositive, arith}
use rust_ape.Open.{returns}
use rust_ape.Open.Fds.{Kept, Flock, FdHost}
use rust_ape.Open.Control.{
  lin_unlck, ltype_to_host, ltype_to_linux, locked, lock_typed, lock_cmd, fcntl, fcntl_after,
  fcntl_switch,
}

-- The host's constant for a type of lock, 0 to 2 as Linux numbers them.
abbrev pub host_ltype : FdHost → ℕ → ℕ
host_ltype h zero = h.rdlck
host_ltype h (suc zero) = h.wrlck
host_ltype h (suc (suc k)) = h.unlck

-- The host tells the three types apart.
pub record HasLocks (h : FdHost) : Type 0 where
  pub rd_wr : (h.rdlck == h.wrlck) ≡ false
  pub rd_un : (h.rdlck == h.unlck) ≡ false
  pub wr_un : (h.wrlck == h.unlck) ≡ false

ltype_to_host_lem : (h : FdHost) (k : ℕ) → k ≤ lin_unlck → ltype_to_host h k ≡ some (host_ltype h k)
unfolding ltype_to_host
ltype_to_host_lem h zero l = refl
ltype_to_host_lem h (suc zero) l = refl
ltype_to_host_lem h (suc (suc zero)) l = refl
ltype_to_host_lem h (suc (suc (suc k))) l = absurd (omega arith)

ltype_to_linux_lem :
    (h : FdHost) → HasLocks h → (k : ℕ) → k ≤ lin_unlck → ltype_to_linux h (host_ltype h k) ≡ k
unfolding ltype_to_linux
ltype_to_linux_lem h d zero l = ground arith
ltype_to_linux_lem h d (suc zero) l = ground (arith, d.rd_wr)
ltype_to_linux_lem h d (suc (suc zero)) l = ground (arith, d.rd_un, d.wr_un)
ltype_to_linux_lem h d (suc (suc (suc k))) l = absurd (omega arith)

-- F_GETLK with one of the three types asks the host with its own constant for it, and what the host
-- answers about the lock that is in the way reaches the caller with every field as it is and the type as
-- Linux numbers it. The host has F_GETLK and tells the types apart, and the descriptor is not held in
-- memory.
pub fcntl_getlk :
    (h : FdHost) (d : HasLocks h) (fd arg : ℕ) (fl got : Flock) (k rc : ℕ) (s : Kept)
    → s.memfds fd ≡ none
    → nonpositive h.getlk ≡ false
    → fl.l_type ≤ lin_unlck
    → k ≤ lin_unlck
    → h.fcntl_lock fd h.getlk (record fl { l_type = host_ltype h fl.l_type })
      ≡ (returns rc, record got { l_type = host_ltype h k })
    → fcntl h fd 5 arg fl s
      ≡ record { reply = returns rc; kept = s; lock = record got { l_type = k } }
unfolding fcntl fcntl_after fcntl_switch lock_cmd lock_typed locked
fcntl_getlk h d fd arg fl got k rc s m g lf lk q =
    rw (m, g, ltype_to_host_lem h fl.l_type lf, q, ltype_to_linux_lem h d k lk)
