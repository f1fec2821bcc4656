-- ===== src/Wait/Tests.antt =====
-- Runs of shim/wait.c on a host where stopping and killing are coded as on Linux.
use rust_ape.Prelude.{
  ◌/◌, ◌%◌, ◌≡◌, refl, true, false, ◌&&◌, [], ◌∷◌, some, ltb, ◌==◌, arith, minus_one,
}
use rust_ape.Codes.{Row}
use rust_ape.Signal.{sig_to_linux}
use rust_ape.Wait.{
  WaitHost, answered, child, Children, handled, wait4, invalid, number, waitid_emulate, pid_of,
}
use rust_ape.Wait.Status.{killed, asked_options, waitid_emulate-told}

-- SIGUSR1 is 30 on this host and 10 on Linux; WUNTRACED is 4.
abbrev host : WaitHost
host = record {
  wnohang = 1;
  wuntraced = 4;
  wcontinued = 16;
  is_windows = true;
  wifexited = λ st. st % 128 == 0;
  wifstopped = λ st. st % 256 == 127;
  wifsignaled = λ st. ltb 0 (st % 128) && ltb (st % 128) 127;
  wstopsig = λ st. st / 256;
  wtermsig = λ st. st % 128;
  signals = record {
    sigs = record { lin = 10; host = 30 } ∷ [];
    flags = [];
    sig_dfl = 0;
    sig_ign = 1;
    sig_err = minus_one;
    errnos = record { rows = []; symlink_disabled = 0 };
  };
  uid = 501;
}

-- Child 77 was killed by SIGUSR1.
abbrev family : Children
family = record { wait4 = λ pid wanted opts. child 77 30; sigchld = handled }

usr1_number : sig_to_linux host.signals 30 ≡ 10
unfolding sig_to_linux rust_ape.Codes.lin_of
usr1_number = refl

pid_run : pid_of 1 77 ≡ some 77
unfolding pid_of
pid_run = refl

waitid_emulate-told_example :
    let w = waitid_emulate host family 1 77 true 4 in
    (w.rc ≡ number 0)
    × (w.info
        ≡ some (record {
          signo = 17;
          errno = 0;
          code = 2;
          pid = 77;
          uid = 501;
          status = sig_to_linux host.signals 30;
        }))
    × (w.inner ≡ some (answered host family.sigchld 77 true (asked_options host 4) (child 77 30)))
waitid_emulate-told_example =
    waitid_emulate-told host family 1 77 4 77 77 30 (killed 30 false) refl pid_run refl
      (omega arith) (refl, refl, refl, refl)
      (omega (arith, usr1_number), omega (arith, usr1_number))

wait4_run :
    let w = wait4 host family 77 true 3 in
    (w.asked ≡ some (77, 5)) × (w.rc ≡ number 77) × (w.status ≡ some 10) × (w.raised ≡ true)
unfolding wait4 sig_to_linux rust_ape.Codes.lin_of
wait4_run = (refl, refl, refl, refl)

-- WEXITED is not an option of wait4.
refused_run : (wait4 host family 77 true 4).rc ≡ invalid
unfolding wait4
refused_run = refl
