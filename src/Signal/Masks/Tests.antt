-- ===== src/Signal/Masks/Tests.antt =====
-- Runs of the masks and of `__ape_shim_sigwait` in shim/signal.c.
use rust_ape.Prelude.{
  ℕ, ◌≡◌, refl, true, false, not, ◌&&◌, [], ◌∷◌, some, ◌==◌, if◌then◌else◌, minus_one, replicate,
}
use rust_ape.Signal.{Signals}
use rust_ape.Signal.Masks.{
  SigwaitHost, is_armed, sigwait, held, masked, invalid, sigprocmask, getauxval, sigaltstack,
}
use rust_ape.Signal.Masks.Sigwait.{is_among, sigwait-restores}

abbrev names : Signals
names = record {
  sigs = record { lin = 10; host = 30 } ∷ [];
  flags = [];
  sig_dfl = 0;
  sig_ign = 1;
  sig_err = minus_one;
  errnos = record { rows = []; symlink_disabled = 0 };
}

-- Signals 14 and 30 are waited for; 14 has a handler.
abbrev bsd : SigwaitHost
bsd = record {
  is_linux = false;
  is_member = λ set s. if s == 14 then true else s == 30;
  sig_dfl = 0;
  noop = 0x4000;
  can_ask = λ s. true;
  can_set = λ s. not (s == 9);
}

abbrev handlers : ℕ → ℕ
handlers s = if s == 14 then 0x5000 else 0

sigwait-restores_example :
    let (during, after, sig) = sigwait names bsd 0 handlers (some 30) in
    (during 30 ≡ (
      if not bsd.is_linux && (is_among 1 63 30 && is_armed bsd 0 30 (handlers 30))
      then bsd.noop
      else handlers 30))
    × (after 30 ≡ handlers 30)
sigwait-restores_example = sigwait-restores names bsd 0 handlers (some 30) 30

mask_run :
    sigprocmask
      (record { block = 1; unblock = 2; setmask = 3 })
      (λ how set. held how)
      2
      (some 5)
      true
    ≡ masked (some (3 ∷ replicate 15 0))
unfolding sigprocmask
mask_run = refl

how_run :
    sigprocmask
      (record { block = 1; unblock = 2; setmask = 3 })
      (λ how set. held how)
      3
      (some 5)
      true
    ≡ invalid
unfolding sigprocmask
how_run = refl

-- A host without AT_MINSIGSTKSZ.
auxv_run : getauxval [] (λ key. 0) 32768 51 ≡ 32768
unfolding getauxval
auxv_run = refl

-- An unknown flag is dropped.
altstack_run :
    sigaltstack
      (record { lin = 2; host = 4 } ∷ [])
      (λ s. s)
      (some (record { sp = 4096; flags = 18; size = 8192 }))
      true
    ≡ some (some (record { sp = 4096; flags = 2; size = 8192 }))
unfolding sigaltstack
altstack_run = refl
