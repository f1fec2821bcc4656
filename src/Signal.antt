-- ===== src/Signal.antt =====
-- Signals in shim/signal.c: the numbers, the flags, the table of handlers behind the two
-- trampolines, and `__ape_shim_sigaction`. The host's values are arguments; a handler is an
-- address, an `int` its 32-bit pattern. Of the mask only the first word is used, as in the source,
-- so a `sigaction` has one word.
pub mod Trampolines
pub mod Masks
mod Tests
use rust_ape.Prelude.{
  ℕ, ◌+◌, ◌^◌, Bool, true, false, not, ◌&&◌, ◌||◌, List, [], ◌∷◌, Option, none, some, ltb, ◌==◌,
  if◌then◌else◌, negative, has, or_if, bit_or,
}
use rust_ape.Codes.{Row, host_of, lin_of, or_else, Errnos, errno_to_linux}

-- What shim/signal.c reads of the host: `kSigs`, `SHIM_SA_TABLE`, and the addresses of the three
-- dispositions that are no handlers.
pub record Signals : Type 0 where
  pub sigs : List Row
  pub flags : List Row
  pub sig_dfl : ℕ
  pub sig_ign : ℕ
  pub sig_err : ℕ
  pub errnos : Errnos

-- `SHIM_LIN_SA_SIGINFO`, `SHIM_LIN_SA_RESTART`, `SHIM_MAXSIG`
abbrev pub sa_siginfo : ℕ
sa_siginfo = 4

abbrev pub sa_restart : ℕ
sa_restart = 0x10000000

abbrev pub max_sig : ℕ
max_sig = 65

-- `sig_to_host`, `sig_to_linux`
unfoldable pub sig_to_host : Signals → ℕ → ℕ
sig_to_host c lin = or_else (host_of c.sigs lin) lin

unfoldable pub sig_to_linux : Signals → ℕ → ℕ
sig_to_linux c host = or_else (lin_of c.sigs host) host

-- `sa_flags_to_host`, `sa_flags_to_linux`: one row of the table after the other.
unfoldable pub flags_to_host : List Row → ℕ → ℕ → ℕ
flags_to_host [] lin host = host
flags_to_host (r ∷ rs) lin host = flags_to_host rs lin (or_if (has lin r.lin) r.host host)

unfoldable pub flags_to_linux : List Row → ℕ → ℕ → ℕ
flags_to_linux [] host lin = lin
flags_to_linux (r ∷ rs) host lin = flags_to_linux rs host (or_if (has host r.host) r.lin lin)

-- `struct lin_sigaction`, without the fields that are always zero.
pub record LinAction : Type 0 where
  pub handler : ℕ
  pub mask : ℕ
  pub flags : ℕ

-- The host's `sa_handler`: an address, or one of the two trampolines.
pub data Target : Type 0 where
  address : ℕ → Target
  tramp1 tramp3 : Target

pub record HostAction : Type 0 where
  pub target : Target
  pub mask : ℕ
  pub flags : ℕ

-- `g_h1` and `g_h3`; 0 is no handler.
pub record Handlers : Type 0 where
  pub h1 : ℕ → ℕ
  pub h3 : ℕ → ℕ

abbrev pub put_handler : (ℕ → ℕ) → ℕ → ℕ → ℕ → ℕ
put_handler f i v j = if j == i then v else f j

-- `hostsig > 0 && hostsig < SHIM_MAXSIG`
abbrev pub has_slot : ℕ → Bool
has_slot sig = not (negative sig) && (ltb 0 sig && ltb sig max_sig)

-- `special_disposition`
abbrev pub is_special : Signals → ℕ → Bool
is_special c h = h == c.sig_dfl || (h == c.sig_ign || h == c.sig_err)

-- Both slots of a signal.
abbrev pub store : ℕ → ℕ → ℕ → Handlers → Handlers
store sig a b t = record { h1 = put_handler t.h1 sig a; h3 = put_handler t.h3 sig b }

-- What `lin_act` puts into the table, and the target that goes to the host.
unfoldable pub install : Signals → ℕ → LinAction → Handlers → Handlers × Target
install c sig act t =
    if is_special c act.handler || not (has_slot sig)
    then (if has_slot sig then store sig 0 0 t else t, address act.handler)
    else if has act.flags sa_siginfo
    then (store sig 0 act.handler t, tramp3)
    else (store sig act.handler 0 t, tramp1)

-- `prev1` and `prev3`
abbrev pub previous : (ℕ → ℕ) → ℕ → ℕ
previous h sig = if has_slot sig then h sig else 0

-- The handler that `lin_old` shows.
abbrev pub shown : ℕ → Handlers → Target → ℕ
shown sig t (address h) = h
shown sig t tramp1 = previous t.h1 sig
shown sig t tramp3 = previous t.h3 sig

-- The action that goes to the host's `sigaction`.
abbrev pub to_host_action : Signals → LinAction → Target → HostAction
to_host_action c act h = record {
  target = h;
  mask = act.mask;
  flags = flags_to_host c.flags act.flags 0;
}

-- What `lin_old` is filled with.
abbrev pub to_lin_action : Signals → ℕ → Handlers → HostAction → LinAction
to_lin_action c sig t old = record {
  handler = shown sig t old.target;
  mask = old.mask;
  flags = flags_to_linux c.flags old.flags 0;
}

-- `__ape_shim_sigaction` with an action. `answer` is what the host's `sigaction` does with the
-- action that it is given: it fails, or it leaves the old one. The result is the table, and the old
-- action in Linux's terms; `none` for -1.
unfoldable pub set_action :
    Signals
    → ℕ
    → LinAction
    → (HostAction → Option HostAction)
    → Handlers
    → Handlers × Option LinAction
unfolding install
set_action c lin_sig act answer t =
    let sig = sig_to_host c lin_sig in
    let (t', target) = install c sig act t in
    elim (answer (to_host_action c act target)) [
      | none ↦
          (if has_slot sig then store sig (previous t.h1 sig) (previous t.h3 sig) t' else t', none)
      | some old ↦ (t', some (to_lin_action c sig t old))
    ]

-- `__ape_shim_sigaction` without an action.
unfoldable pub get_action : Signals → ℕ → Option HostAction → Handlers → Option LinAction
get_action c lin_sig none t = none
get_action c lin_sig (some old) t = some (to_lin_action c (sig_to_host c lin_sig) t old)

-- `__ape_shim_signal`: the old handler; `SIG_ERR` where the call fails.
unfoldable pub signal : Signals → ℕ → ℕ → (HostAction → Option HostAction) → Handlers → Handlers × ℕ
unfolding set_action
signal c sig handler answer t =
    let (t', old) =
      set_action c sig (record { handler = handler; mask = 0; flags = sa_restart }) answer t in
    (t', elim old [ none ↦ c.sig_err | some o ↦ o.handler ])

-- `siginfo_t`, as far as the trampoline writes it.
pub record SigInfo : Type 0 where
  pub signo : ℕ
  pub errno : ℕ

-- The call that a trampoline makes: the handler, its signal number, and its `siginfo_t`.
pub record Delivery : Type 0 where
  pub handler : ℕ
  pub signo : ℕ
  pub info : Option SigInfo

-- The fields that `tramp3` translates.
abbrev pub translate_info : Signals → SigInfo → SigInfo
translate_info c i = record {
  signo = sig_to_linux c i.signo;
  errno = if i.errno == 0 then i.errno else errno_to_linux c.errnos i.errno;
}

-- `tramp1`; `none` where no handler is called.
unfoldable pub run_tramp1 : Signals → Handlers → ℕ → Option Delivery
run_tramp1 c t sig =
    let h = previous t.h1 sig in
    if h == 0 then none else some (record { handler = h; signo = sig_to_linux c sig; info = none })

-- `tramp3`
unfoldable pub run_tramp3 : Signals → Handlers → ℕ → SigInfo → Option Delivery
run_tramp3 c t sig i =
    let h = previous t.h3 sig in
    if h == 0
    then none
    else some (record { handler = h; signo = sig_to_linux c sig; info = some (translate_info c i) })
