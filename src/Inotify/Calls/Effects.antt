-- ===== src/Inotify/Calls/Effects.antt =====
-- What `emu_add_watch` and `emu_rm_watch` of shim/inotify.c do to the watches and to the pipe.
use rust_ape.Prelude.{
  ℕ, ◌≤◌, ◌≡◌, ◌≢◌, refl, false, List, [], ◌∷◌, some, if◌then◌else◌, length, arith, Bool-cases,
  Option-cases, inl, inr, ap, ◌∙◌, has,
}
use rust_ape.Inotify.Channel.{Channel, Pipe, emit_all}
use rust_ape.Inotify.Diff.{Stat, Kid, diff_kids}
use rust_ape.Inotify.Watches.{
  World, Watch, Instance, DirView, unopened, listed, scan_dir, scan_view, value, failure, inval,
  in_mask_create, sort_kids, list_kids,
}
use rust_ape.Inotify.Watches.Counts.{wd_count}
use rust_ape.Inotify.Calls.{
  Luck, is_live_at, find_watch, remask, new_mask, fresh_watch, first_listing, add_new, add_watch_in,
  is_live_wd, has_watch, drop_watch, rm_watch_in,
}
use rust_ape.Inotify.Calls.Laws.{IsWf, add_watch_in-new, add_watch_in-known}

diff_kids-silent : (wd : ℕ) (ps : List Kid) → diff_kids wd 0 [] ps ≡ []
unfolding diff_kids
diff_kids-silent wd [] = refl
diff_kids-silent wd (p ∷ ps) = diff_kids-silent wd ps

scan_view-silent :
    (world : World) (w : Watch) (v : DirView) (ch : Channel)
    → (scan_view world (record w { mask = 0; kids = [] }) v ch).1 ≡ ch
unfolding scan_view emit_all
scan_view-silent world w (unopened e) ch = ground arith
scan_view-silent world w (listed es) ch =
    ap (λ evs. emit_all world.pipe evs ch)
      (diff_kids-silent w.wd (sort_kids world (list_kids world.path_max w.path es 0 0)))

first_listing-silent :
    (world : World) (wd : ℕ) (path : List ℕ) (mask : ℕ) (st : Stat) (ch : Channel)
    → (first_listing world mask (fresh_watch wd path mask st) ch).1 ≡ ch
unfolding scan_dir
first_listing-silent world wd path mask st ch =
    ground (arith, scan_view-silent world (fresh_watch wd path 0 st) (world.opendir path) ch)

add_new-silent :
    (world : World) (luck : Luck) (path : List ℕ) (mask : ℕ) (st : Stat) (i : Instance)
    → (add_new world luck path mask st i).0.channel ≡ i.channel
unfolding add_new
add_new-silent world luck path mask st i =
    ground (arith, first_listing-silent world i.next_wd path mask st i.channel)

-- The names that are already there when a directory is first watched are not reported: adding a
-- watch, successful or not, writes nothing to the pipe.
pub add_watch_in-silent :
    (world : World) (luck : Luck) (path : List ℕ) (mask : ℕ) (st : Stat) (i : Instance)
    → (add_watch_in world luck path mask st i).0.channel ≡ i.channel
add_watch_in-silent world luck path mask st i = elim (Option-cases (find_watch path i.watches)) [
  | inl q ↦
      ap (λ r. r.0.channel) (add_watch_in-new world luck path mask st i q)
      ∙ add_new-silent world luck path mask st i
  | inr (w, q) ↦ ground (arith, add_watch_in-known world luck path mask st i w q)
]

find_watch-remask :
    (path : List ℕ) (mask : ℕ) (ws : List Watch) (w : Watch)
    → find_watch path ws ≡ some w
    → find_watch path (remask path mask ws) ≡ some (record w { mask = new_mask mask w })
unfolding find_watch remask
find_watch-remask path mask [] w h = ground arith
find_watch-remask path mask (v ∷ ws) w h = elim (Bool-cases (is_live_at path v)) [
  | inl q ↦
      let same_watch : v ≡ w = ground (arith, q, h) in
      rw (q, q) (ap (λ (u : Watch). some (record u { mask = new_mask mask u })) same_watch)
  | inr q ↦ rw (q, q) (find_watch-remask path mask ws w (ground (arith, q, h)))
]

length-remask :
    (path : List ℕ) (mask : ℕ) (ws : List Watch) → length (remask path mask ws) ≡ length ws
unfolding remask
length-remask path mask [] = refl
length-remask path mask (w ∷ ws) = ground (arith, length-remask path mask ws)

-- Adding a path that is watched gives the number it has, with the mask replaced, or widened by
-- IN_MASK_ADD; no other watch on a path is made.
pub add_watch_in-again :
    (world : World) (luck : Luck) (path : List ℕ) (mask : ℕ) (st : Stat) (i : Instance) (w : Watch)
    → find_watch path i.watches ≡ some w
    → has mask in_mask_create ≡ false
    → let (i', r) = add_watch_in world luck path mask st i in
      (r ≡ value w.wd)
      × (find_watch path i'.watches ≡ some (record w { mask = new_mask mask w }))
      × (length i'.watches ≡ length i.watches)
add_watch_in-again world luck path mask st i w q c =
    let e : add_watch_in world luck path mask st i
        ≡ (record i { watches = remask path mask i.watches }, value w.wd) =
      add_watch_in-known world luck path mask st i w q ∙ rw c in
    (
      ap (λ r. r.1) e,
      ap (λ r. find_watch path r.0.watches) e ∙ find_watch-remask path mask i.watches w q,
      ap (λ r. length r.0.watches) e ∙ length-remask path mask i.watches,
    )

has_watch-count : (wd : ℕ) (ws : List Watch) → wd_count wd ws ≡ 0 → has_watch wd ws ≡ false
unfolding has_watch
has_watch-count wd [] h = refl
has_watch-count wd (w ∷ ws) h = ground (arith, h, has_watch-count wd ws)

has_watch-drop_watch :
    (wd j : ℕ) (ws : List Watch)
    → wd_count wd ws ≤ 1
    → (has_watch wd (drop_watch wd ws) ≡ false)
      × (j ≢ wd → has_watch j (drop_watch wd ws) ≡ has_watch j ws)
unfolding has_watch drop_watch
has_watch-drop_watch wd j [] h = (refl, λ _. refl)
has_watch-drop_watch wd j (w ∷ ws) h =
    let rest = has_watch-drop_watch wd j ws (ground (arith, h)) in
    elim (Bool-cases (is_live_wd wd w)) [
      | inl q ↦ rw q (has_watch-count wd ws (ground (arith, q, h)), λ n. ground (arith, q, n))
      | inr q ↦ rw q (ground (arith, q, rest.0), λ n. ground (arith, rest.1 n))
    ]

-- Removing a watch succeeds exactly where its number names a live one; then it is gone, and every
-- other number names a live watch where it did before.
pub rm_watch_in-gone :
    (pipe : Pipe) (wd j : ℕ) (i : Instance)
    → IsWf i
    → j ≢ wd
    → let (i', r) = rm_watch_in pipe wd i in
      (r ≡ (if has_watch wd i.watches then value 0 else failure inval))
      × (has_watch wd i'.watches ≡ false)
      × (has_watch j i'.watches ≡ has_watch j i.watches)
unfolding rm_watch_in
rm_watch_in-gone pipe wd j i v n =
    let d = has_watch-drop_watch wd j i.watches (v.once wd) in
    elim (Bool-cases (has_watch wd i.watches)) [
      | inl q ↦ rw q (refl, d.0, d.1 n)
      | inr q ↦ rw q (refl, q, refl)
    ]
