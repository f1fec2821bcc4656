-- ===== src/Inotify/Calls/Laws.antt =====
-- The watches of an instance in shim/inotify.c, under its calls and the rounds of its thread.
use rust_ape.Prelude.{
  ℕ, suc, ◌+◌, ◌^◌, ◌≤◌, ◌<◌, ◌≡◌, refl, Bool, true, false, not, ◌&&◌, List, [], ◌∷◌, ◌++◌, none,
  some, leb, ◌==◌, if◌then◌else◌, length, length-append, arith, All-append, Bool-cases,
  Option-cases, inl, inr, ap, ◌∙◌, sym, subst, has,
}
use rust_ape.Inotify.Channel.{Channel, Pipe}
use rust_ape.Inotify.Diff.{Stat, strcmp}
use rust_ape.Inotify.Diff.Names.{is_same, is_same-eq}
use rust_ape.Inotify.Watches.{
  World, Watch, Instance, max_watches, scan_all, scan_round, report_overflow, value, failure,
  in_mask_create, exist,
}
use rust_ape.Inotify.Watches.Counts.{
  wd_count, live_count, IsNumbered, scan_dir-Follows, scan_all-counts, reap-counts,
}
use rust_ape.Inotify.Calls.Counts.{
  IsNumbered-weaken, wd_count-fresh, live_count-none, wd_count-append, live_count-append,
  remask-counts, drop_watch-counts,
}
use rust_ape.Inotify.Calls.{
  Luck, next_number, find_watch, remask, fresh_watch, first_listing, next_cap, add_new,
  add_watch_in, has_watch, rm_watch_in,
}

-- No number names two watches and no path two live ones; numbers below the next one are used, and
-- the watches fit the kernel's limit.
pub record IsWf (i : Instance) : Type 0 where
  pub few : length i.watches ≤ max_watches
  pub next : 1 ≤ i.next_wd
  pub numbered : IsNumbered i.next_wd i.watches
  pub once : (j : ℕ) → wd_count j i.watches ≤ 1
  pub paths : (x : List ℕ) → live_count x i.watches ≤ 1

-- Below the end of `int`, the counter does not wrap.
next_number-suc : (n : ℕ) → n + 1 < 2 ^ 31 → next_number n ≡ suc n
next_number-suc n h = omega (arith, h)

-- A watch on a fresh number and path.
append-IsWf :
    (i : Instance) (path : List ℕ) (w : Watch) (cap : ℕ) (scanning : Bool) (ch : Channel)
    → IsWf i
    → i.next_wd + 1 < 2 ^ 31
    → length i.watches < max_watches
    → find_watch path i.watches ≡ none
    → w.wd ≡ i.next_wd
    → w.path ≡ path
    → IsWf (record i {
      next_wd = next_number i.next_wd;
      watches = i.watches ++ (w ∷ []);
      cap = cap;
      scanning = scanning;
      channel = ch;
    })
append-IsWf i path w cap scanning ch v lt room free e p = record {
  few = omega (arith, length-append i.watches (w ∷ []), room);
  next = omega arith;
  numbered = rw (next_number-suc i.next_wd lt) (
      All-append _ i.watches (w ∷ []) (IsNumbered-weaken i.next_wd i.watches v.numbered)
        (omega (arith, e, v.next), tt));
  once = λ j. ground (
    arith,
    e,
    v.once j,
    wd_count-append j i.watches (w ∷ []),
    wd_count-fresh i.next_wd i.watches v.numbered,
  );
  paths = λ x. elim (Bool-cases (is_same (strcmp w.path x))) [
    | inl q ↦
        let none_there : live_count x i.watches ≡ 0 =
          live_count-none x i.watches
            (ap (λ y. find_watch y i.watches) (sym (is_same-eq w.path x q) ∙ p) ∙ free) in
        ground (arith, none_there, live_count-append x i.watches (w ∷ []))
    | inr q ↦ ground (arith, q, v.paths x, live_count-append x i.watches (w ∷ []))
  ];
}

skip-IsWf :
    (i : Instance) (cap : ℕ)
    → IsWf i
    → i.next_wd + 1 < 2 ^ 31
    → IsWf (record i { cap = cap; next_wd = next_number i.next_wd })
skip-IsWf i cap v lt = record {
  few = v.few;
  next = omega arith;
  numbered = rw (next_number-suc i.next_wd lt) (IsNumbered-weaken i.next_wd i.watches v.numbered);
  once = v.once;
  paths = v.paths;
}

if-IsWf :
    {B : Type 0} (b : Bool) (x y : Instance × B)
    → IsWf x.0
    → (b ≡ false → IsWf y.0)
    → IsWf (if b then x else y).0
if-IsWf true x y h k = h
if-IsWf false x y h k = k refl

first_listing-Follows :
    (world : World) (mask : ℕ) (w : Watch) (ch : Channel)
    → ((first_listing world mask w ch).0.wd ≡ w.wd)
      × ((first_listing world mask w ch).0.path ≡ w.path)
first_listing-Follows world mask w ch = elim (Bool-cases w.isdir) [
  | inl q ↦ let f = scan_dir-Follows world (record w { mask = 0 }) ch in ground (arith, q, f.0, f.1)
  | inr q ↦ ground (arith, q)
]

add_new-IsWf :
    (world : World) (luck : Luck) (path : List ℕ) (mask : ℕ) (st : Stat) (i : Instance)
    → IsWf i
    → i.next_wd + 1 < 2 ^ 31
    → find_watch path i.watches ≡ none
    → IsWf (add_new world luck path mask st i).0
unfolding add_new
add_new-IsWf world luck path mask st i v lt free =
    let w0 = fresh_watch i.next_wd path mask st in
    let f = first_listing-Follows world mask w0 i.channel in
    if-IsWf (leb max_watches (length i.watches)) _ _ v λ room.
      if-IsWf (length i.watches == i.cap && not luck.grown) _ _ v λ _.
        if-IsWf (not luck.copied) _ _ (skip-IsWf i (next_cap i) v lt) λ _.
          let w = (first_listing world mask w0 i.channel).0 in
          append-IsWf i path w (next_cap i) _ (first_listing world mask w0 i.channel).1 v lt
            (ground (arith, room)) free f.0 f.1

pub add_watch_in-new :
    (world : World) (luck : Luck) (path : List ℕ) (mask : ℕ) (st : Stat) (i : Instance)
    → find_watch path i.watches ≡ none
    → add_watch_in world luck path mask st i ≡ add_new world luck path mask st i
unfolding add_watch_in
add_watch_in-new world luck path mask st i q = rw (q, add_watch_in)

pub add_watch_in-known :
    (world : World) (luck : Luck) (path : List ℕ) (mask : ℕ) (st : Stat) (i : Instance) (w : Watch)
    → find_watch path i.watches ≡ some w
    → add_watch_in world luck path mask st i ≡ (
        if has mask in_mask_create
        then (i, failure exist)
        else (record i { watches = remask path mask i.watches }, value w.wd))
unfolding add_watch_in
add_watch_in-known world luck path mask st i w q = rw (q, add_watch_in)

remask-IsWf :
    (path : List ℕ) (mask : ℕ) (i : Instance)
    → IsWf i
    → IsWf (record i { watches = remask path mask i.watches })
remask-IsWf path mask i v =
    let counts = λ (j : ℕ) (x : List ℕ). remask-counts path mask i.watches j x i.next_wd in
    record {
      few = omega (arith, (counts 0 []).0, v.few);
      next = v.next;
      numbered = (counts 0 []).3 v.numbered;
      once = λ j. omega (arith, (counts j []).1, v.once j);
      paths = λ x. omega (arith, (counts 0 x).2, v.paths x);
    }

add_watch_in-IsWf :
    (world : World) (luck : Luck) (path : List ℕ) (mask : ℕ) (st : Stat) (i : Instance)
    → IsWf i
    → i.next_wd + 1 < 2 ^ 31
    → IsWf (add_watch_in world luck path mask st i).0
add_watch_in-IsWf world luck path mask st i v lt = elim (Option-cases (find_watch path i.watches)) [
  | inl q ↦
      subst (λ r. IsWf r.0) (sym (add_watch_in-new world luck path mask st i q))
        (add_new-IsWf world luck path mask st i v lt q)
  | inr (w, q) ↦
      subst (λ r. IsWf r.0) (sym (add_watch_in-known world luck path mask st i w q))
        (if-IsWf (has mask in_mask_create) _ _ v (λ _. remask-IsWf path mask i v))
]

rm_watch_in-IsWf : (pipe : Pipe) (wd : ℕ) (i : Instance) → IsWf i → IsWf (rm_watch_in pipe wd i).0
unfolding rm_watch_in
rm_watch_in-IsWf pipe wd i v =
    let counts = λ (j : ℕ) (x : List ℕ). drop_watch-counts wd i.watches j x i.next_wd in
    elim (Bool-cases (has_watch wd i.watches)) [
      | inl q ↦ rw q (record {
        few = omega (arith, (counts 0 []).0, v.few);
        next = v.next;
        numbered = (counts 0 []).3 v.numbered;
        once = λ j. omega (arith, (counts j []).1, v.once j);
        paths = λ x. omega (arith, (counts 0 x).2, v.paths x);
      })
      | inr q ↦ rw q v
    ]

scan_round-IsWf : (world : World) (i : Instance) → IsWf i → IsWf (scan_round world i).0
unfolding scan_round
scan_round-IsWf world i v =
    let ch = report_overflow world.pipe i.channel in
    let ws = (scan_all world i.watches ch).0 in
    let counts = λ (j : ℕ) (x : List ℕ). scan_all-counts world i.watches ch j x i.next_wd in
    let reaped = λ (j : ℕ) (x : List ℕ). reap-counts ws j x i.next_wd in
    if-IsWf i.channel.dead (i, false) _ v
      λ _. record {
        few = omega (arith, (counts 0 []).0, (reaped 0 []).0, v.few);
        next = v.next;
        numbered = (reaped 0 []).3 ((counts 0 []).3 v.numbered);
        once = λ j. omega (arith, (counts j []).1, (reaped j []).1, v.once j);
        paths = λ x. omega (arith, (counts 0 x).2, (reaped 0 x).2, v.paths x);
      }

-- Adding a watch, removing one and a round of the thread, successful or not, keep an instance
-- well-formed: no number names two watches, no path two live ones, every number is below the next one, and
-- there are 8192 at most. The next number has not reached the end of `int`.
pub calls-IsWf :
    (world : World) (luck : Luck) (path : List ℕ) (mask : ℕ) (st : Stat) (pipe : Pipe) (wd : ℕ)
    (i : Instance)
    → IsWf i
    → i.next_wd + 1 < 2 ^ 31
    → IsWf (add_watch_in world luck path mask st i).0
      × IsWf (rm_watch_in pipe wd i).0
      × IsWf (scan_round world i).0
calls-IsWf world luck path mask st pipe wd i v lt = (
  add_watch_in-IsWf world luck path mask st i v lt,
  rm_watch_in-IsWf pipe wd i v,
  scan_round-IsWf world i v,
)
