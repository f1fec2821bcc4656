-- ===== src/Inotify/Calls/Counts.antt =====
-- The numbers and paths of a list of watches when `emu_add_watch` and `emu_rm_watch` of shim/inotify.c
-- change it.
use rust_ape.Prelude.{
  ℕ, suc, ◌+◌, ◌≤◌, ◌≡◌, refl, List, [], ◌∷◌, ◌++◌, none, length, arith, Bool-cases, inl, inr, ap,
}
use rust_ape.Inotify.Watches.{Watch}
use rust_ape.Inotify.Watches.Counts.{wd_count, live_count, IsNumbered}
use rust_ape.Inotify.Calls.{is_live_at, find_watch, remask, is_live_wd, drop_watch}

pub IsNumbered-weaken : (n : ℕ) (ws : List Watch) → IsNumbered n ws → IsNumbered (suc n) ws
IsNumbered-weaken n [] h = tt
IsNumbered-weaken n (w ∷ ws) h = (omega (arith, h.0), IsNumbered-weaken n ws h.1)

pub wd_count-fresh : (n : ℕ) (ws : List Watch) → IsNumbered n ws → wd_count n ws ≡ 0
wd_count-fresh n [] h = refl
wd_count-fresh n (w ∷ ws) h = ground (arith, h.0, wd_count-fresh n ws h.1)

pub live_count-none : (x : List ℕ) (ws : List Watch) → find_watch x ws ≡ none → live_count x ws ≡ 0
unfolding find_watch
live_count-none x [] h = refl
live_count-none x (w ∷ ws) h = ground (arith, h, live_count-none x ws)

pub wd_count-append :
    (j : ℕ) (us vs : List Watch) → wd_count j (us ++ vs) ≡ wd_count j us + wd_count j vs
wd_count-append j [] vs = omega arith
wd_count-append j (u ∷ us) vs = omega (arith, wd_count-append j us vs)

pub live_count-append :
    (x : List ℕ) (us vs : List Watch) → live_count x (us ++ vs) ≡ live_count x us + live_count x vs
live_count-append x [] vs = omega arith
live_count-append x (u ∷ us) vs = omega (arith, live_count-append x us vs)

pub remask-counts :
    (path : List ℕ) (mask : ℕ) (ws : List Watch) (j : ℕ) (x : List ℕ) (n : ℕ)
    → let vs = remask path mask ws in
      (length vs ≡ length ws)
      × (wd_count j vs ≡ wd_count j ws)
      × (live_count x vs ≡ live_count x ws)
      × (IsNumbered n ws → IsNumbered n vs)
unfolding remask
remask-counts path mask [] j x n = (refl, refl, refl, λ h. h)
remask-counts path mask (w ∷ ws) j x n =
    let (len, wds, lives, num) = remask-counts path mask ws j x n in
    elim (Bool-cases (is_live_at path w)) [
      | inl q ↦ rw q (refl, refl, refl, λ h. h)
      | inr q ↦ rw q (ap suc len, omega (arith, wds), omega (arith, lives), λ h. (h.0, num h.1))
    ]

pub drop_watch-counts :
    (wd : ℕ) (ws : List Watch) (j : ℕ) (x : List ℕ) (n : ℕ)
    → let vs = drop_watch wd ws in
      (length vs ≤ length ws)
      × (wd_count j vs ≤ wd_count j ws)
      × (live_count x vs ≤ live_count x ws)
      × (IsNumbered n ws → IsNumbered n vs)
unfolding drop_watch
drop_watch-counts wd [] j x n = (omega arith, omega arith, omega arith, λ h. h)
drop_watch-counts wd (w ∷ ws) j x n =
    let (len, wds, lives, num) = drop_watch-counts wd ws j x n in
    elim (Bool-cases (is_live_wd wd w)) [
      | inl q ↦ rw q (omega arith, omega arith, omega arith, λ h. h.1)
      | inr q ↦
          rw q (omega (arith, len), omega (arith, wds), omega (arith, lives), λ h. (h.0, num h.1))
    ]
