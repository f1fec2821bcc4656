-- ===== src/Inotify/Watches/Counts.antt =====
-- The watches of an instance in shim/inotify.c through one round of `scan_thread`: their numbers and
-- their paths.
use rust_ape.Prelude.{
  ℕ, suc, ◌+◌, ◌≤◌, ◌<◌, ◌≡◌, refl, true, List, [], ◌∷◌, ◌==◌, if◌then◌else◌, length, implies,
  arith, All, Bool-cases, inl, inr, ap,
}
use rust_ape.Inotify.Channel.{Channel}
use rust_ape.Inotify.Diff.{strcmp}
use rust_ape.Inotify.Diff.Names.{is_same}
use rust_ape.Inotify.Watches.{
  World, Watch, DirView, unopened, listed, StatView, unseen, seen, scan_dir, scan_view, scan_stat,
  scan_file, scan_watch, scan_all, stat_path, reap,
}
use rust_ape.Inotify.Calls.{is_live_at}

-- How many watches have this number, and how many live ones this path.
abbrev pub wd_count : ℕ → List Watch → ℕ
wd_count j [] = 0
wd_count j (w ∷ ws) = (if w.wd == j then 1 else 0) + wd_count j ws

abbrev pub live_count : List ℕ → List Watch → ℕ
live_count x [] = 0
live_count x (w ∷ ws) = (if is_live_at x w then 1 else 0) + live_count x ws

-- The numbers are positive, and below the next one.
abbrev pub IsNumbered : ℕ → List Watch → Type 0
IsNumbered n = All (λ w. (1 ≤ w.wd) × (w.wd < n))

-- The same watch later: number and path stay, and what has been dropped is not back.
abbrev pub Follows : Watch → Watch → Type 0
Follows w v = (v.wd ≡ w.wd) × (v.path ≡ w.path) × (implies w.dropped v.dropped ≡ true)

module _ (world : World) where
  scan_view-Follows :
      (w : Watch) (v : DirView) (ch : Channel) → Follows w (scan_view world w v ch).0
  unfolding scan_view
  scan_view-Follows w (unopened e) ch = ground arith
  scan_view-Follows w (listed es) ch = ground arith

  pub scan_dir-Follows : (w : Watch) (ch : Channel) → Follows w (scan_dir world w ch).0
  unfolding scan_dir
  scan_dir-Follows w ch = scan_view-Follows w (world.opendir w.path) ch

  scan_stat-Follows :
      (w : Watch) (v : StatView) (ch : Channel) → Follows w (scan_stat world w v ch).0
  unfolding scan_stat
  scan_stat-Follows w (unseen e) ch = ground arith
  scan_stat-Follows w (seen st) ch = ground arith

  scan_file-Follows : (w : Watch) (ch : Channel) → Follows w (scan_file world w ch).0
  unfolding scan_file
  scan_file-Follows w ch = scan_stat-Follows w (stat_path world w.mask w.path) ch

  scan_watch-Follows : (w : Watch) (ch : Channel) → Follows w (scan_watch world w ch).0
  scan_watch-Follows w ch = ground (arith, scan_dir-Follows w ch, scan_file-Follows w ch)

  pub scan_all-counts :
      (ws : List Watch) (ch : Channel) (j : ℕ) (x : List ℕ) (n : ℕ)
      → let vs = (scan_all world ws ch).0 in
        (length vs ≡ length ws)
        × (wd_count j vs ≡ wd_count j ws)
        × (live_count x vs ≤ live_count x ws)
        × (IsNumbered n ws → IsNumbered n vs)
  unfolding scan_all
  scan_all-counts [] ch j x n = (refl, refl, omega arith, λ h. h)
  scan_all-counts (w ∷ ws) ch j x n =
      let f = scan_watch-Follows w ch in
      let (len, wds, lives, num) = scan_all-counts ws (scan_watch world w ch).1 j x n in
      (
        ap suc len,
        ground (arith, f.0, wds),
        ground (arith, ap (λ p. is_same (strcmp p x)) f.1, f.2, lives),
        λ h. (ground (arith, f.0, h.0), num h.1),
      )

pub reap-counts :
    (ws : List Watch) (j : ℕ) (x : List ℕ) (n : ℕ)
    → (length (reap ws) ≤ length ws)
      × (wd_count j (reap ws) ≤ wd_count j ws)
      × (live_count x (reap ws) ≡ live_count x ws)
      × (IsNumbered n ws → IsNumbered n (reap ws))
unfolding reap
reap-counts [] j x n = (omega arith, omega arith, refl, λ h. h)
reap-counts (w ∷ ws) j x n =
    let (len, wds, lives, num) = reap-counts ws j x n in
    elim (Bool-cases w.dropped) [
      | inl q ↦ rw q (omega (arith, len), ground (arith, wds), ground (arith, lives), λ h. num h.1)
      | inr q ↦
          rw q (omega (arith, len), ground (arith, wds), ground (arith, lives), λ h. (h.0, num h.1))
    ]
