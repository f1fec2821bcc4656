-- ===== src/Signal/Trampolines.antt =====
-- The handler table of shim/signal.c behind `sigaction` and the two trampolines.
use rust_ape.Prelude.{
  ℕ, ◌≡◌, ◌≢◌, refl, true, false, Option, none, some, if◌then◌else◌, arith, ap, ◌∙◌, has,
}
use rust_ape.Signal.{
  Signals, LinAction, HostAction, Handlers, Target, address, tramp1, tramp3, has_slot, is_special,
  install, shown, set_action, get_action, sig_to_host, sig_to_linux, to_host_action, to_lin_action,
  sa_siginfo, Delivery, SigInfo, run_tramp1, run_tramp3, translate_info,
}

shown-install :
    (c : Signals) (sig : ℕ) (act : LinAction) (t : Handlers)
    → shown sig (install c sig act t).0 (install c sig act t).1 ≡ act.handler
unfolding install
shown-install c sig act t = ground arith

set_action-some :
    (c : Signals) (sig : ℕ) (act : LinAction) (answer : HostAction → Option HostAction)
    (t : Handlers) (old : HostAction)
    → answer (to_host_action c act (install c (sig_to_host c sig) act t).1) ≡ some old
    → set_action c sig act answer t
      ≡ ((install c (sig_to_host c sig) act t).0, some (to_lin_action c (sig_to_host c sig) t old))
unfolding set_action
set_action-some c sig act answer t old e = ground (arith, e)

-- A handler that has been installed is shown by the next query as the Rust side gave it, whichever
-- trampoline stands for it, where the host answers that query with the action it was given.
pub get_action-set_action :
    (c : Signals) (sig : ℕ) (act : LinAction) (answer : HostAction → Option HostAction)
    (t : Handlers) (old : HostAction)
    → answer (to_host_action c act (install c (sig_to_host c sig) act t).1) ≡ some old
    → (shows : LinAction) × (get_action c sig
          (some (to_host_action c act (install c (sig_to_host c sig) act t).1))
          (set_action c sig act answer t).0
        ≡ some shows)
      × (shows.handler ≡ act.handler)
      × (shows.mask ≡ act.mask)
unfolding get_action
get_action-set_action c sig act answer t old e =
    let host = sig_to_host c sig in
    (
      to_lin_action c host (install c host act t).0 (to_host_action c act (install c host act t).1),
      rw (set_action-some c sig act answer t old e),
      shown-install c host act t,
      refl,
    )

-- A call that the host refuses leaves every slot of the table as it was.
pub set_action-fail :
    (c : Signals) (sig : ℕ) (act : LinAction) (answer : HostAction → Option HostAction)
    (t : Handlers) (j : ℕ)
    → (set_action c sig act answer t).1 ≡ none
    → ((set_action c sig act answer t).0.h1 j ≡ t.h1 j)
      × ((set_action c sig act answer t).0.h3 j ≡ t.h3 j)
unfolding set_action install
set_action-fail c sig act answer t j e = ground (arith, e)

-- What the host's call of a target does: a trampoline runs; an address is not the shim's.
abbrev pub deliver : Signals → Handlers → Target → ℕ → SigInfo → Option Delivery
deliver c t (address h) sig i = none
deliver c t tramp1 sig i = run_tramp1 c t sig
deliver c t tramp3 sig i = run_tramp3 c t sig i

deliver-install :
    (c : Signals) (sig : ℕ) (act : LinAction) (t : Handlers) (i : SigInfo)
    → has_slot sig ≡ true
    → is_special c act.handler ≡ false
    → act.handler ≢ 0
    → deliver c (install c sig act t).0 (install c sig act t).1 sig i
      ≡ some (record {
        handler = act.handler;
        signo = sig_to_linux c sig;
        info = if has act.flags sa_siginfo then some (translate_info c i) else none;
      })
unfolding install run_tramp1 run_tramp3
deliver-install c sig act t i slot plain n = ground (arith, slot, plain, n)

-- Once a handler is installed, a signal runs it with the Linux number, and with the translated
-- `siginfo_t` exactly where it asked for one.
pub deliver-set_action :
    (c : Signals) (sig : ℕ) (act : LinAction) (answer : HostAction → Option HostAction)
    (t : Handlers) (old : HostAction) (i : SigInfo)
    → answer (to_host_action c act (install c (sig_to_host c sig) act t).1) ≡ some old
    → has_slot (sig_to_host c sig) ≡ true
    → is_special c act.handler ≡ false
    → act.handler ≢ 0
    → deliver c
        (set_action c sig act answer t).0
        (install c (sig_to_host c sig) act t).1
        (sig_to_host c sig)
        i
      ≡ some (record {
        handler = act.handler;
        signo = sig_to_linux c (sig_to_host c sig);
        info = if has act.flags sa_siginfo then some (translate_info c i) else none;
      })
deliver-set_action c sig act answer t old i e slot plain n =
    let host = sig_to_host c sig in
    ap (λ x. deliver c x.0 (install c host act t).1 host i)
      (set_action-some c sig act answer t old e)
    ∙ deliver-install c host act t i slot plain n
