-- ===== src/Epoll/Wait/Results.antt =====
-- The results of `emu_wait`, in shim/epoll.c.
use rust_ape.Prelude.{
  ℕ, ◌+◌, ◌≤◌, ◌≡◌, refl, ◌∙◌, sym, Bool, true, false, List, [], ◌∷◌, Option, none, some, leb,
  length, arith, Any, Any-map, Bool-cases, Option-cases, inl, inr, ◌⊎◌, negative, nonpositive,
  get_or,
}
use rust_ape.Epoll.Interest.{Entry, ebadf, einval}
use rust_ape.Epoll.Arming.{PollBits, Ready}
use rust_ape.Epoll.Table.{EpollSet, Table, set_by_handle}
use rust_ape.Epoll.Chunked.{is_past}
use rust_ape.Epoll.Wait.{
  Tick, Call, Loop, Outcome, stored, error, again, wait_loop, new_call, emu_wait,
}
use rust_ape.Epoll.Wait.Rounds.{round-stored, round-ebadf}
use rust_ape.Epoll.Wait.Calls.{
  stuck, last, more, first, wait_loop-nil, start, result, emu_wait-cases,
}

wait_loop-stored :
    (c : Call) (ks : List Tick) (s l : Loop) (out : List Ready)
    → wait_loop c ks s ≡ some (stored out, l)
    → (length out ≤ c.maxevents) × (out ≡ [] → Any (λ k. is_past c.deadline k.now_end ≡ true) ks)
wait_loop-stored c [] s l out h = absurd (cc (wait_loop-nil c s))
wait_loop-stored c (k ∷ ks) s l out h = elim (first c k ks s) [
  | stuck q ↦ absurd (cc (sym q ∙ h))
  | last o l' w n q ↦
      let r = round-stored c k s (o, l') out w (ground (arith, sym q ∙ h)) in
      (r.0, λ e. inl (r.1 e))
  | more l' w q ↦ let r = wait_loop-stored c ks l' l out (sym q ∙ h) in (r.0, λ e. inr (r.1 e))
]

wait_loop-ebadf :
    (c : Call) (ks : List Tick) (s l : Loop)
    → s.bad_polls ≤ 8
    → wait_loop c ks s ≡ some (error ebadf, l)
    → 9 ≤ length ks + s.bad_polls
wait_loop-ebadf c [] s l b h = absurd (cc (wait_loop-nil c s))
wait_loop-ebadf c (k ∷ ks) s l b h = elim (first c k ks s) [
  | stuck q ↦ absurd (cc (sym q ∙ h))
  | last o l' w n q ↦ omega (arith, (round-ebadf c k s (o, l') w b).0 (ground (arith, sym q ∙ h)))
  | more l' w q ↦
      let r = (round-ebadf c k s (again, l') w b).1 refl in
      omega (arith, r, wait_loop-ebadf c ks l' l r.1 (sym q ∙ h))
]

Any-once : (P : Tick → Type 0) (Q : Type 0) (ks : List Tick) → ((k : Tick) → P k → Q) → Any P ks → Q
Any-once P Q [] f h = absurd h
Any-once P Q (k ∷ ks) f (inl p) = f k p
Any-once P Q (k ∷ ks) f (inr h) = Any-once P Q ks f h

result-some :
    (r : Option (Outcome × Loop)) (o : Outcome) (es : List Entry)
    → result r ≡ some (o, es)
    → (l : Loop) × (r ≡ some (o, l))
result-some none o es h = absurd (cc)
result-some (some (p, l)) o es h = (l, ground arith)

past-new_call :
    (h : PollBits) (lt : Bool) (handle maxevents timeout now t : ℕ)
    → is_past (new_call h lt handle maxevents timeout now).deadline t ≡ true
    → (negative timeout ≡ false) × (leb (now + timeout) t ≡ true)
past-new_call h lt handle maxevents timeout now t e = ground arith

-- The loop behind a call that neither failed a check nor ran out of rounds.
emu_wait-loop :
    (h : PollBits) (lt : Bool) (epfd maxevents timeout now : ℕ) (t : Table) (ks : List Tick)
    (o : Outcome) (es : List Entry) (s : EpollSet)
    → set_by_handle t epfd ≡ some s
    → emu_wait h lt epfd maxevents timeout now t ks ≡ some (o, es)
    → (o ≡ error einval)
      ⊎ ((l : Loop) × (wait_loop
              (new_call h lt (get_or s.handles 0 0) maxevents timeout now)
              ks
              (start s)
            ≡ some (o, l)))
emu_wait-loop h lt epfd maxevents timeout now t ks o es s own e =
    let runs = (emu_wait-cases h lt epfd maxevents timeout now t ks).1 s own in
    elim (Bool-cases (nonpositive maxevents)) [
      | inl p ↦ inl (ground (arith, sym runs ∙ e, p))
      | inr p ↦ inr (result-some _ o es (sym (runs ∙ rw p) ∙ e))
    ]

-- The loop behind a call that stored its events.
stored-loop :
    (h : PollBits) (lt : Bool) (epfd maxevents timeout now : ℕ) (t : Table) (ks : List Tick)
    (out : List Ready) (es : List Entry)
    → emu_wait h lt epfd maxevents timeout now t ks ≡ some (stored out, es)
    → let d = (new_call h lt 0 maxevents timeout now).deadline in
      (length out ≤ maxevents) × (out ≡ [] → Any (λ k. is_past d k.now_end ≡ true) ks)
stored-loop h lt epfd maxevents timeout now t ks out es e =
    elim (Option-cases (set_by_handle t epfd)) [
      | inl none_there ↦
          absurd (cc (sym ((emu_wait-cases h lt epfd maxevents timeout now t ks).0 none_there) ∙ e))
      | inr (s, own) ↦
          elim (emu_wait-loop h lt epfd maxevents timeout now t ks (stored out) es s own e) [
            | inl q ↦ absurd (ground arith)
            | inr (l, q) ↦
                wait_loop-stored (new_call h lt (get_or s.handles 0 0) maxevents timeout now) ks
                  (start s) l out q
          ]
    ]

-- A call stores at most `maxevents` events.
pub emu_wait_bounded :
    (h : PollBits) (lt : Bool) (epfd maxevents timeout now : ℕ) (t : Table) (ks : List Tick)
    (out : List Ready) (es : List Entry)
    → emu_wait h lt epfd maxevents timeout now t ks ≡ some (stored out, es)
    → length out ≤ maxevents
emu_wait_bounded h lt epfd maxevents timeout now t ks out es e =
    (stored-loop h lt epfd maxevents timeout now t ks out es e).0

-- A call returns without an event only where its timeout is not negative and the clock has reached
-- the deadline by the end of some round.
pub emu_wait_timeout :
    (h : PollBits) (lt : Bool) (epfd maxevents timeout now : ℕ) (t : Table) (ks : List Tick)
    (es : List Entry)
    → emu_wait h lt epfd maxevents timeout now t ks ≡ some (stored [], es)
    → (negative timeout ≡ false) × Any (λ k. leb (now + timeout) k.now_end ≡ true) ks
emu_wait_timeout h lt epfd maxevents timeout now t ks es e =
    let past = (stored-loop h lt epfd maxevents timeout now t ks [] es e).1 refl in
    let reached = λ (k : Tick). past-new_call h lt 0 0 timeout now k.now_end in
    (
      Any-once _ (negative timeout ≡ false) ks (λ k p. (reached k p).0) past,
      Any-map _ _ ks (λ k p. (reached k p).1) past,
    )

-- A closed descriptor makes a call give up only after nine rounds, or more, in which none could
-- be found; before that it drops what it finds and polls again.
pub emu_wait_gives_up :
    (h : PollBits) (lt : Bool) (epfd maxevents timeout now : ℕ) (t : Table) (s : EpollSet)
    (ks : List Tick) (es : List Entry)
    → set_by_handle t epfd ≡ some s
    → emu_wait h lt epfd maxevents timeout now t ks ≡ some (error ebadf, es)
    → 9 ≤ length ks
emu_wait_gives_up h lt epfd maxevents timeout now t s ks es own e =
    elim (emu_wait-loop h lt epfd maxevents timeout now t ks (error ebadf) es s own e) [
      | inl q ↦ absurd (ground arith)
      | inr (l, q) ↦ omega (
        arith,
        wait_loop-ebadf (new_call h lt (get_or s.handles 0 0) maxevents timeout now) ks (start s) l
            (omega arith) q,
      )
    ]
