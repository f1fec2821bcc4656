-- ===== src/Signal/Tests.antt =====
-- Runs of the functions of Signal, on the table of a host like XNU.
use rust_ape.Prelude.{◌^◌, ◌-◌, ◌≡◌, refl, Option, none, some, [], ◌∷◌, arith}
use rust_ape.Codes.{host_of, lin_of}
use rust_ape.Signal.{
  Signals, LinAction, HostAction, Handlers, Target, address, tramp1, tramp3, set_action, get_action,
  sig_to_host, sig_to_linux, install, to_host_action, Delivery, SigInfo, run_tramp3, run_tramp1,
}
use rust_ape.Signal.Trampolines.{
  get_action-set_action, set_action-fail, deliver, deliver-set_action,
}

-- SIGUSR1 is 10 on Linux and 30 here.
abbrev xnu : Signals
xnu = record {
  sigs = record { lin = 10; host = 30 } ∷ [];
  flags = record { lin = 4; host = 64 } ∷ [];
  sig_dfl = 0;
  sig_ign = 1;
  sig_err = 2 ^ 64 - 1;
  errnos = record { rows = []; symlink_disabled = 1463 };
}

abbrev no_handlers : Handlers
no_handlers = record { h1 = λ _. 0; h3 = λ _. 0 }

abbrev with_info : LinAction
with_info = record { handler = 4096; mask = 2; flags = 4 }

abbrev was_default : HostAction
was_default = record { target = address 0; mask = 0; flags = 0 }

abbrev installed : HostAction
installed = record { target = tramp3; mask = 2; flags = 64 }

abbrev accept : HostAction → Option HostAction
accept _ = some was_default

abbrev refuse : HostAction → Option HostAction
refuse _ = none

get_action-set_action_run :
    (shows : LinAction) × (get_action xnu 10
        (some installed)
        (set_action xnu 10 with_info accept no_handlers).0
      ≡ some shows)
    × (shows.handler ≡ 4096)
    × (shows.mask ≡ 2)
unfolding install host_of sig_to_host rust_ape.Signal.flags_to_host
get_action-set_action_run =
    get_action-set_action xnu 10 with_info accept no_handlers was_default refl

refused_run :
    ((set_action xnu 10 with_info refuse no_handlers).0.h1 30 ≡ 0)
    × ((set_action xnu 10 with_info refuse no_handlers).0.h3 30 ≡ 0)
unfolding set_action install host_of sig_to_host
refused_run = set_action-fail xnu 10 with_info refuse no_handlers 30 refl

deliver-set_action_example :
    deliver xnu
      (set_action xnu 10 with_info accept no_handlers).0
      tramp3
      30
      (record { signo = 30; errno = 0 })
    ≡ some (record { handler = 4096; signo = 10; info = some (record { signo = 10; errno = 0 }) })
unfolding install host_of lin_of sig_to_host sig_to_linux
deliver-set_action_example =
    deliver-set_action xnu 10 with_info accept no_handlers was_default
      (record { signo = 30; errno = 0 }) refl refl refl (omega arith)
