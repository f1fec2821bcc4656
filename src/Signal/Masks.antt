-- ===== src/Signal/Masks.antt =====
-- The rest of shim/signal.c: the alternate stack, signal sets and masks, `__ape_shim_sigwait` and
-- `__ape_shim_getauxval`. A `sigset_t` of the host is its 64-bit word; `defaulted` is the list of the
-- signals whose bit is set, the last one first.
pub mod Sigwait
mod Tests
use rust_ape.Prelude.{
  ℕ, zero, suc, ◌+◌, ◌-◌, ◌^◌, Bool, true, false, not, ◌&&◌, ◌||◌, List, [], ◌∷◌, Option, none,
  some, ltb, ◌==◌, if◌then◌else◌, or_if, has, replicate,
}
use rust_ape.Codes.{Row, host_of, or_else}
use rust_ape.Signal.{Signals, sig_to_host, sig_to_linux, flags_to_host, flags_to_linux}

-- `struct lin_stack` and `stack_t`
pub record AltStack : Type 0 where
  pub sp : ℕ
  pub flags : ℕ
  pub size : ℕ

-- `ss_flags_to_host`, `ss_flags_to_linux`, by `SHIM_SS_TABLE`
abbrev pub ss_flags_to_host : List Row → ℕ → ℕ
ss_flags_to_host rows lin = flags_to_host rows lin 0

abbrev pub ss_flags_to_linux : List Row → ℕ → ℕ
ss_flags_to_linux rows host = flags_to_linux rows host 0

abbrev pub stack_to_host : List Row → AltStack → AltStack
stack_to_host rows s = record s { flags = ss_flags_to_host rows s.flags }

abbrev pub stack_to_linux : List Row → AltStack → AltStack
stack_to_linux rows s = record s { flags = ss_flags_to_linux rows s.flags }

-- `__ape_shim_sigaltstack` on a host other than NT: the host answers with the stack that was set, or
-- fails; what is written to `old`, where that is not NULL. `none` is -1.
unfoldable pub sigaltstack :
    List Row
    → (Option AltStack → Option AltStack)
    → Option AltStack
    → Bool
    → Option (Option AltStack)
unfolding flags_to_host flags_to_linux
sigaltstack rows answer ss wanted =
    elim (answer (elim ss [ none ↦ none | some s ↦ some (stack_to_host rows s) ])) [
      | none ↦ none
      | some hold ↦ some (if wanted then some (stack_to_linux rows hold) else none)
    ]

-- `how_to_host`, by the host's SIG_BLOCK, SIG_UNBLOCK and SIG_SETMASK; `none` is EINVAL.
pub record Hows : Type 0 where
  pub block : ℕ
  pub unblock : ℕ
  pub setmask : ℕ

unfoldable pub how_to_host : Hows → ℕ → Option ℕ
how_to_host h lin =
    if lin == 0
    then some h.block
    else if lin == 1
    then some h.unblock
    else if lin == 2
    then some h.setmask
    else none

-- `write_back_set`: the 16 words of a `struct lin_sigset`.
abbrev pub write_back_set : ℕ → List ℕ
write_back_set host = host ∷ replicate 15 0

-- How a mask call ends: refused by the shim, an error of the host, or the words for `old`.
pub data Masked : Type 0 where
  invalid : Masked
  host_error : ℕ → Masked
  masked : Option (List ℕ) → Masked

-- The host's mask call: from its `how` and the set, where there is one, to an error or the old set.
pub data MaskAnswer : Type 0 where
  failed : ℕ → MaskAnswer
  held : ℕ → MaskAnswer

abbrev pub mask_result : Bool → MaskAnswer → Masked
mask_result wanted (failed e) = host_error e
mask_result wanted (held hold) = masked (if wanted then some (write_back_set hold) else none)

-- `__ape_shim_sigprocmask`, `__ape_shim_pthread_sigmask`: they differ in where the error goes. A set
-- is the first word of what the caller passes.
unfoldable pub sigprocmask : Hows → (ℕ → Option ℕ → MaskAnswer) → ℕ → Option ℕ → Bool → Masked
unfolding how_to_host
sigprocmask h answer how none wanted = mask_result wanted (answer h.setmask none)
sigprocmask h answer how (some set) wanted = elim (how_to_host h how) [
  | none ↦ invalid
  | some host_how ↦ mask_result wanted (answer host_how (some set))
]

-- `__ape_shim_sigaddset`, `__ape_shim_sigdelset`, `__ape_shim_sigismember`: the host's operation on
-- the host's number.
abbrev pub on_host_signal {ℓ} : {R : Type ℓ} → Signals → (ℕ → ℕ → R) → ℕ → ℕ → R
on_host_signal c op set sig = op set (sig_to_host c sig)

-- The host's side of `__ape_shim_sigwait`: whether it is Linux, `sigismember`, SIG_DFL, the address
-- of `sigwait_noop`, and which signals `sigaction` can ask about and change.
pub record SigwaitHost : Type 0 where
  pub is_linux : Bool
  pub is_member : ℕ → ℕ → Bool
  pub sig_dfl : ℕ
  pub noop : ℕ
  pub can_ask : ℕ → Bool
  pub can_set : ℕ → Bool

-- The dispositions of the process, by signal.
abbrev pub set_disposition : (ℕ → ℕ) → ℕ → ℕ → ℕ → ℕ
set_disposition f s v j = if j == s then v else f j

-- The tests of one round of the first loop.
abbrev pub is_armed : SigwaitHost → ℕ → ℕ → ℕ → Bool
is_armed h set s old = h.is_member set s && (h.can_ask s && (old == h.sig_dfl && h.can_set s))

-- The first loop, `n` rounds from signal `s` on.
unfoldable pub arm_defaults : SigwaitHost → ℕ → ℕ → ℕ → (ℕ → ℕ) → List ℕ → (ℕ → ℕ) × List ℕ
arm_defaults h set zero s disp defaulted = (disp, defaulted)
arm_defaults h set (suc n) s disp defaulted =
    let b = is_armed h set s (disp s) in
    arm_defaults h set n (suc s) (if b then set_disposition disp s h.noop else disp)
      (if b then s ∷ defaulted else defaulted)

-- `defaulted & ((uint64_t)1 << s)`
unfoldable pub is_defaulted : ℕ → List ℕ → Bool
is_defaulted s [] = false
is_defaulted s (d ∷ ds) = d == s || is_defaulted s ds

-- The second loop, `n` rounds from signal `s` on.
unfoldable pub restore_defaults : SigwaitHost → ℕ → ℕ → (ℕ → ℕ) → List ℕ → ℕ → ℕ
unfolding is_defaulted
restore_defaults h zero s disp defaulted = disp
restore_defaults h (suc n) s disp defaulted =
    restore_defaults h n (suc s)
      (if is_defaulted s defaulted && h.can_set s then set_disposition disp s h.sig_dfl else disp)
      defaulted

-- `__ape_shim_sigwait`: what the host's `sigwait` answers goes through `sig_to_linux`. The result is
-- the dispositions during the wait, those after it, and the signal; `none` is an error.
unfoldable pub sigwait :
    Signals → SigwaitHost → ℕ → (ℕ → ℕ) → Option ℕ → (ℕ → ℕ) × (ℕ → ℕ) × Option ℕ
unfolding arm_defaults restore_defaults sig_to_linux
sigwait c h set disp answer =
    let armed = arm_defaults h set 63 1 disp [] in
    let (during, defaulted) = if h.is_linux then (disp, []) else armed in
    (
      during,
      restore_defaults h 63 1 during defaulted,
      elim answer [ none ↦ none | some hsig ↦ some (sig_to_linux c hsig) ],
    )

-- `__ape_shim_getauxval`, by `SHIM_AUXV_TABLE`, the host's `getauxval` and MINSIGSTKSZ. A later row
-- of the table would overrule an earlier one.
unfoldable pub auxv_key : List Row → ℕ → ℕ → ℕ
auxv_key [] lin key = key
auxv_key (r ∷ rs) lin key = auxv_key rs lin (if lin == r.lin then r.host else key)

unfoldable pub getauxval : List Row → (ℕ → ℕ) → ℕ → ℕ → ℕ
unfolding auxv_key
getauxval rows host_auxval minsigstksz lin =
    let v = host_auxval (auxv_key rows lin lin) in
    if lin == 51 && ltb v minsigstksz then minsigstksz else v

-- `__libc_current_sigrtmin`, `__libc_current_sigrtmax`
abbrev pub sigrtmin : ℕ
sigrtmin = 35

abbrev pub sigrtmax : ℕ
sigrtmax = 64
