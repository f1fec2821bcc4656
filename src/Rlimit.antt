-- ===== src/Rlimit.antt =====
-- Resource limits in shim/rlimit.c. The host's limits are the state; which of them can be read and
-- changed, and the raw call of Linux, are arguments. A `struct rlimit` is its two numbers.
pub mod Laws
mod Tests
use rust_ape.Prelude.{
  ℕ, ◌+◌, Bool, true, false, not, ◌&&◌, ◌||◌, List, [], ◌∷◌, Option, none, some, ◌==◌,
  if◌then◌else◌,
}
use rust_ape.Codes.{Row, host_of}

-- `struct rlimit`
pub record Limit : Type 0 where
  pub soft : ℕ
  pub hard : ℕ

-- The host's limits by its own numbers.
abbrev pub Limits : Type 0
Limits = ℕ → Limit

-- The host: `kRlimits`, the errno of `getrlimit` and of `setrlimit` where they fail, the own pid,
-- and whether it is Linux.
pub record LimitHost : Type 0 where
  pub rows : List Row
  pub get_error : ℕ → Option ℕ
  pub set_error : ℕ → Limit → Option ℕ
  pub own_pid : ℕ
  pub is_linux : Bool

-- What a call returns: 0, EINVAL or ENOSYS from the shim, or the host's errno.
pub data LimitReturn : Type 0 where
  done : LimitReturn
  invalid : LimitReturn
  unsupported : LimitReturn
  host_error : ℕ → LimitReturn

-- A call's end: the limits, what is returned, and what is written to `old` or `rl`.
pub record Limited : Type 0 where
  pub limits : Limits
  pub rc : LimitReturn
  pub shown : Option Limit

-- `res_to_host`; `none` is EINVAL.
abbrev pub res_to_host : LimitHost → ℕ → Option ℕ
res_to_host h lin = host_of h.rows lin

abbrev pub put_limit : Limits → ℕ → Limit → Limits
put_limit ls res x r = if r == res then x else ls r

-- The host's `getrlimit` and `setrlimit`.
unfoldable pub host_get : LimitHost → ℕ → Limits → Limited
host_get h res ls = elim (h.get_error res) [
  | none ↦ record { limits = ls; rc = done; shown = some (ls res) }
  | some e ↦ record { limits = ls; rc = host_error e; shown = none }
]

unfoldable pub host_set : LimitHost → ℕ → Limit → Limits → Limited
host_set h res x ls = elim (h.set_error res x) [
  | none ↦ record { limits = put_limit ls res x; rc = done; shown = none }
  | some e ↦ record { limits = ls; rc = host_error e; shown = none }
]

-- A call that ends before the limits are touched.
abbrev pub ended : LimitReturn → Limits → Limited
ended rc ls = record { limits = ls; rc = rc; shown = none }

-- `__ape_shim_getrlimit`, `__ape_shim_setrlimit`
unfoldable pub getrlimit : LimitHost → ℕ → Limits → Limited
unfolding host_get
getrlimit h lin ls = elim (res_to_host h lin) [
  | none ↦ ended invalid ls
  | some res ↦ host_get h res ls
]

unfoldable pub setrlimit : LimitHost → ℕ → Limit → Limits → Limited
unfolding host_set
setrlimit h lin x ls = elim (res_to_host h lin) [
  | none ↦ ended invalid ls
  | some res ↦ host_set h res x ls
]

-- The two steps of `__ape_shim_prlimit` on the own process; a NULL `neu` is `none`, and `wanted` says
-- that `old` is not NULL.
unfoldable pub install_limit : LimitHost → ℕ → Option Limit → Limited → Limited
unfolding host_set
install_limit h res none before = before
install_limit h res (some x) before = record (host_set h res x before.limits) {
  shown = before.shown;
}

unfoldable pub prlimit_self : LimitHost → ℕ → Option Limit → Bool → Limits → Limited
unfolding host_get install_limit
prlimit_self h res neu false ls = install_limit h res neu (ended done ls)
prlimit_self h res neu true ls = elim (h.get_error res) [
  | none ↦ install_limit h res neu (host_get h res ls)
  | some e ↦ ended (host_error e) ls
]

-- `__ape_shim_prlimit`; `raw` is the end of the raw call on another process.
unfoldable pub prlimit : LimitHost → Limited → ℕ → ℕ → Option Limit → Bool → Limits → Limited
unfolding prlimit_self
prlimit h raw pid lin neu wanted ls = elim (res_to_host h lin) [
  | none ↦ ended invalid ls
  | some res ↦
      if pid == 0 || pid == h.own_pid
      then prlimit_self h res neu wanted ls
      else if h.is_linux
      then raw
      else ended unsupported ls
]
