-- ===== src/Wait/Status.antt =====
-- The way of a child's status through shim/wait.c: from the host's `wait4` to the `siginfo_t`.
use rust_ape.Prelude.{
  ℕ, zero, suc, ◌+◌, ◌*◌, ◌/◌, ◌%◌, ◌^◌, ◌≤◌, ◌<◌, ◌≡◌, refl, Bool, true, false, not, ◌&&◌, none,
  some, ◌==◌, if◌then◌else◌, arith, ap, ◌∙◌, sym, has, or_if, bit_or, zero-bit_or, bit_or_step,
}
use native.Mathlib.Nat.{mul_assoc}
use native.Mathlib.Numerals.{unary_clauses}
use rust_ape.Signal.{Signals, sig_to_linux}
use rust_ape.Wait.{
  WaitHost, take_option, wopts_to_host, wstatus_to_linux, child, Children, answered, wait4, number,
  has_events, pid_of, wopts_of, read_status, fill_info, waitid_emulate,
}

-- `|` of a number whose low digits are 0 with one that has only those.
bit_or-low : (n a b : ℕ) → b < 2 ^ n → bit_or (a * 2 ^ n) b ≡ a * 2 ^ n + b
bit_or-low zero a b h =
    let eb : b ≡ 0 = omega arith in rw eb (bit_or-none (a * 2 ^ 0) ∙ omega arith)
  where
    bit_or-none_below : (n a : ℕ) → a ≤ n → bit_or a 0 ≡ a
    bit_or-none_below zero a h = let ea : a ≡ 0 = omega arith in rw ea (zero-bit_or 0)
    bit_or-none_below (suc n) a h =
        omega (arith, bit_or_step a 0, bit_or-none_below n (a / 2) (omega arith))

    bit_or-none : (a : ℕ) → bit_or a 0 ≡ a
    bit_or-none a = bit_or-none_below a a (omega arith)
bit_or-low (suc n) a b h =
    let half : a * 2 ^ suc n ≡ a * 2 ^ n * 2 = simp unary_clauses (sym (mul_assoc a (2 ^ n) 2)) in
    let hb : b < 2 ^ n * 2 = simp unary_clauses at h in
    let q : a * 2 ^ n * 2 / 2 ≡ a * 2 ^ n = omega arith in
    let low = bit_or-low n a (b / 2) (omega arith) in
    let step : bit_or (a * 2 ^ n * 2) b ≡ bit_or (a * 2 ^ n) (b / 2) * 2 + b % 2 =
      bit_or_step (a * 2 ^ n * 2) b ∙ rw q (omega arith) in
    rw half (omega (arith, low, step))

-- What a child can do that a wait reports.
pub data ChildEvent : Type 0 where
  exited : ℕ → ChildEvent
  killed : ℕ → Bool → ChildEvent
  stopped : ℕ → ChildEvent
  continued : ChildEvent

-- What the host's macros say about a status, and the parts of its coding that are Linux's too: the
-- place of the exit code and of the core flag, and the status of a child that goes on.
abbrev pub Tells : WaitHost → ℕ → ChildEvent → Type 0
Tells h st (exited code) =
    (h.wifstopped st ≡ false) × (h.wifsignaled st ≡ false) × (st ≡ code * 2 ^ 8)
Tells h st (killed sig core) =
    (h.wifstopped st ≡ false)
    × (h.wifsignaled st ≡ true)
    × (h.wtermsig st ≡ sig)
    × (st / 2 ^ 7 % 2 ≡ (if core then 1 else 0))
Tells h st (stopped sig) = (h.wifstopped st ≡ true) × (h.wstopsig st ≡ sig)
Tells h st continued = (h.wifstopped st ≡ false) × (h.wifsignaled st ≡ false) × (st ≡ 0xffff)

-- The numbers fit where a status carries them.
abbrev pub Fits : Signals → ChildEvent → Type 0
Fits c (exited code) = code < 2 ^ 8
Fits c (killed sig core) = (1 ≤ sig_to_linux c sig) × (sig_to_linux c sig < 127)
Fits c (stopped sig) = sig_to_linux c sig < 2 ^ 8
Fits c continued = Unit {0}

-- `si_code` and `si_status` by the manual of waitid: CLD_EXITED with the exit code, CLD_KILLED or
-- CLD_DUMPED, CLD_STOPPED, CLD_CONTINUED, with the signal's number in Linux.
abbrev pub told : Signals → ChildEvent → ℕ × ℕ
told c (exited code) = (1, code)
told c (killed sig core) = (if core then 3 else 2, sig_to_linux c sig)
told c (stopped sig) = (5, sig_to_linux c sig)
told c continued = (6, 18)

-- The host's options for a waitid with these.
abbrev pub asked_options : WaitHost → ℕ → ℕ
asked_options h lin =
    or_if (has lin 8 && not h.is_windows) h.wcontinued
      (or_if (has lin 2) h.wuntraced (if has lin 1 then bit_or 0 h.wnohang else 0))

wopts_to_host-wopts_of :
    (h : WaitHost) (lin : ℕ) → wopts_to_host h (wopts_of lin) ≡ some (asked_options h lin)
unfolding wopts_to_host wopts_of
wopts_to_host-wopts_of h lin = by_bits (has lin 1) (has lin 2) (has lin 8) h.is_windows
  where
    by_bits :
        (a b c win : Bool)
        → let opts = or_if c 8 (or_if b 2 (if a then 1 else 0)) in
          let (left, host) =
            take_option 8
              (not win)
              h.wcontinued
              (take_option 2 true h.wuntraced (take_option 1 true h.wnohang (opts, 0))) in
          (if left == 0 then some host else none)
          ≡ some (
              or_if
                (c && not win)
                h.wcontinued
                (or_if b h.wuntraced (if a then bit_or 0 h.wnohang else 0)))
    by_bits false false false win = refl
    by_bits false false true false = refl
    by_bits false false true true = refl
    by_bits false true false win = refl
    by_bits false true true false = refl
    by_bits false true true true = refl
    by_bits true false false win = refl
    by_bits true false true false = refl
    by_bits true false true true = refl
    by_bits true true false win = refl
    by_bits true true true false = refl
    by_bits true true true true = refl

read_status-stopped : (x n : ℕ) → n ≡ x * 256 + 127 → x < 256 → read_status n ≡ (5, x)
unfolding read_status
read_status-stopped x n q f =
    let low : (n % 2 ^ 8 == 0x7f) ≡ true = ground arith in
    let high : n / 2 ^ 8 % 2 ^ 8 ≡ x = omega arith in rw (low, high) refl

read_status-exited : (x : ℕ) → x < 256 → read_status (x * 256) ≡ (1, x)
unfolding read_status
read_status-exited x f =
    let a : (x * 256 % 2 ^ 8 == 0x7f) ≡ false = ground arith in
    let b : (x * 256 == 0xffff) ≡ false = ground arith in
    let c : (x * 256 % 2 ^ 7 == 0) ≡ true = ground arith in
    let d : x * 256 / 2 ^ 8 % 2 ^ 8 ≡ x = omega arith in rw (a, b, c, d) refl

read_status-killed :
    (core : Bool) (x n : ℕ)
    → n ≡ (if core then 1 else 0) * 128 + x
    → 1 ≤ x
    → x < 127
    → read_status n ≡ (if core then 3 else 2, x)
unfolding read_status
read_status-killed core x n q l u =
    let a : (n % 2 ^ 8 == 0x7f) ≡ false = ground arith in
    let b : (n == 0xffff) ≡ false = ground arith in
    let c : (n % 2 ^ 7 == 0) ≡ false = ground arith in
    let d : n % 2 ^ 7 ≡ x = ground arith in
    let e : (n / 2 ^ 7 % 2 == 1) ≡ core = ground arith in rw (a, b, c, d, e) refl

read_status-continued : read_status 0xffff ≡ (6, 18)
unfolding read_status
read_status-continued = refl

read_status-wstatus_to_linux :
    (h : WaitHost) (st : ℕ) (ev : ChildEvent)
    → Tells h st ev
    → Fits h.signals ev
    → read_status (wstatus_to_linux h st) ≡ told h.signals ev
unfolding wstatus_to_linux
read_status-wstatus_to_linux h st (exited code) (p, q, e) f =
    let v : wstatus_to_linux h st ≡ code * 256 = ground (arith, p, q, e) in
    rw v (read_status-exited code f)
read_status-wstatus_to_linux h st (killed sig core) (p, q, t, e) (l, u) =
    let x = sig_to_linux h.signals sig in
    let low = bit_or-low 7 (st / 2 ^ 7 % 2) x (omega arith) in
    let v : wstatus_to_linux h st ≡ (if core then 1 else 0) * 128 + x =
      rw (p, q, t, low, e) (omega arith) in
    read_status-killed core x (wstatus_to_linux h st) v l u
read_status-wstatus_to_linux h st (stopped sig) (p, t) f =
    let x = sig_to_linux h.signals sig in
    let low = bit_or-low 8 x 127 (omega arith) in
    let v : wstatus_to_linux h st ≡ x * 256 + 127 = rw (p, t, low) (omega arith) in
    read_status-stopped x (wstatus_to_linux h st) v f
read_status-wstatus_to_linux h st continued (p, q, e) f =
    let v : wstatus_to_linux h st ≡ 0xffff = ground (arith, p, q, e) in rw v read_status-continued

wait4_child :
    (h : WaitHost) (cs : Children) (pid lin opts c st : ℕ)
    → wopts_to_host h lin ≡ some opts
    → cs.wait4 pid true opts ≡ child c st
    → wait4 h cs pid true lin ≡ answered h cs.sigchld pid true opts (child c st)
unfolding wait4
wait4_child h cs pid lin opts c st q k = rw (q, wait4) (ap (answered h cs.sigchld pid true opts) k)

fill_info-told :
    (h : WaitHost) (c st : ℕ) (ev : ChildEvent)
    → 1 ≤ c
    → Tells h st ev
    → Fits h.signals ev
    → fill_info h c (wstatus_to_linux h st) ≡ record {
      signo = 17;
      errno = 0;
      code = (told h.signals ev).0;
      pid = c;
      uid = h.uid;
      status = (told h.signals ev).1;
    }
unfolding fill_info
fill_info-told h c st ev pos t f =
    let z : (c == 0) ≡ false = ground arith in rw (z, read_status-wstatus_to_linux h st ev t f) refl

-- A waitid that asks for an event, where the host's wait4 finds a child that something has happened
-- to, returns 0 and fills in what the manual says of that event, with the signal's number in Linux;
-- the host is asked once, for the pid that the arguments stand for. The status says the event by
-- the host's macros, and its numbers fit into a status.
pub waitid_emulate-told :
    (h : WaitHost) (cs : Children) (idtype id lin pid c st : ℕ) (ev : ChildEvent)
    → has_events lin ≡ true
    → pid_of idtype id ≡ some pid
    → cs.wait4 pid true (asked_options h lin) ≡ child c st
    → 1 ≤ c
    → Tells h st ev
    → Fits h.signals ev
    → let w = waitid_emulate h cs idtype id true lin in
      (w.rc ≡ number 0)
      × (w.info
          ≡ some (record {
            signo = 17;
            errno = 0;
            code = (told h.signals ev).0;
            pid = c;
            uid = h.uid;
            status = (told h.signals ev).1;
          }))
      × (w.inner ≡ some (answered h cs.sigchld pid true (asked_options h lin) (child c st)))
unfolding waitid_emulate
waitid_emulate-told h cs idtype id lin pid c st ev e p k pos t f =
    let w4 : wait4 h cs pid true (wopts_of lin)
        ≡ answered h cs.sigchld pid true (asked_options h lin) (child c st) =
      wait4_child h cs pid (wopts_of lin) (asked_options h lin) c st (wopts_to_host-wopts_of h lin)
        k in
    let info : fill_info h c (wstatus_to_linux h st) ≡ record {
      signo = 17;
      errno = 0;
      code = (told h.signals ev).0;
      pid = c;
      uid = h.uid;
      status = (told h.signals ev).1;
    } =
      fill_info-told h c st ev pos t f in
    let whole : waitid_emulate h cs idtype id true lin ≡ record {
      inner = some (answered h cs.sigchld pid true (asked_options h lin) (child c st));
      rc = number 0;
      info = some (fill_info h c (wstatus_to_linux h st));
    } =
      rw (e, p, w4) refl in
    (ap (λ w. w.rc) whole, ap (λ w. w.info) whole ∙ ap some info, ap (λ w. w.inner) whole)
