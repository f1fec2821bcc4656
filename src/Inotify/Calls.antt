-- ===== src/Inotify/Calls.antt =====
-- The calls of shim/inotify.c: `emu_init1`, `emu_add_watch`, `emu_rm_watch`, and the end of
-- `scan_thread`. `g_insts` is the list of its 16 slots. Each function is one step under its locks.
pub mod Counts
pub mod Laws
pub mod Effects
use rust_ape.Prelude.{
  ℕ, zero, suc, ◌+◌, ◌*◌, ◌%◌, ◌^◌, Bool, true, false, not, ◌&&◌, ◌||◌, List, [], ◌∷◌, ◌++◌, Option,
  none, some, leb, ltb, ◌==◌, if◌then◌else◌, length, has, bit_or, clear_bits, minus_one,
}
use rust_ape.Inotify.Channel.{Notice, Channel, Pipe, emit}
use rust_ape.Inotify.Diff.{Stat, strcmp}
use rust_ape.Inotify.Diff.Names.{is_same}
use rust_ape.Inotify.Watches.{
  in_ignored, in_mask_create, in_mask_add, max_watches, Fault, fault, inval, badf, exist, nospc,
  nomem, mfile, tryagain, notdir, host_error, Return, value, failure, World, Watch, scan_dir,
  Instance, stat_path, StatView, unseen, seen,
}

abbrev pub in_all_events : ℕ
in_all_events = 0xfff

abbrev pub in_onlydir : ℕ
in_onlydir = 0x1000000

abbrev pub in_nonblock : ℕ
in_nonblock = 0x800

abbrev pub in_cloexec : ℕ
in_cloexec = 0x80000

-- `SHIM_IN_MAX_INSTANCES`
abbrev pub max_instances : ℕ
max_instances = 16

-- `!w->dropped && !strcmp(w->path, path)`
abbrev pub is_live_at : List ℕ → Watch → Bool
is_live_at path w = not w.dropped && is_same (strcmp w.path path)

-- The loop of `emu_add_watch` over the watches.
unfoldable pub find_watch : List ℕ → List Watch → Option Watch
find_watch path [] = none
find_watch path (w ∷ ws) = if is_live_at path w then some w else find_watch path ws

-- `w->mask = (mask & LIN_IN_MASK_ADD) ? (w->mask | mask) : mask`, on the watch that was found.
abbrev pub new_mask : ℕ → Watch → ℕ
new_mask mask w = if has mask in_mask_add then bit_or w.mask mask else mask

unfoldable pub remask : List ℕ → ℕ → List Watch → List Watch
remask path mask [] = []
remask path mask (w ∷ ws) =
    let rest = remask path mask ws in
    if is_live_at path w then record w { mask = new_mask mask w } ∷ ws else w ∷ rest

-- The outcomes of `realloc`, `strdup` and `pthread_create`.
pub record Luck : Type 0 where
  pub grown : Bool
  pub copied : Bool
  pub started : Bool

-- `in->next_wd++` on an `int`, as its pattern: the sum wraps.
abbrev pub next_number : ℕ → ℕ
next_number n = suc n % 2 ^ 32

-- The fresh watch, with the mask that the first listing of a directory sees.
abbrev pub fresh_watch : ℕ → List ℕ → ℕ → Stat → Watch
fresh_watch wd path mask st = record {
  wd = wd;
  path = path;
  mask = mask;
  isdir = st.isdir;
  dropped = false;
  kids = [];
  self = st;
}

-- The first listing, with the mask at 0 so that nothing is reported.
abbrev pub first_listing : World → ℕ → Watch → Channel → Watch × Channel
first_listing world mask w ch =
    if w.isdir
    then (let (w', ch') = scan_dir world (record w { mask = 0 }) ch in
        (record w' { mask = mask }, ch'))
    else (w, ch)

-- `if (in->nwatches == in->cap)`
abbrev pub next_cap : Instance → ℕ
next_cap i = if length i.watches == i.cap then (if i.cap == 0 then 8 else i.cap * 2) else i.cap

-- A watch on a path that has none, from the test of the count on.
unfoldable pub add_new : World → Luck → List ℕ → ℕ → Stat → Instance → Instance × Return
unfolding scan_dir
add_new world luck path mask st i =
    let grown = record i { cap = next_cap i } in
    let (w, ch) = first_listing world mask (fresh_watch i.next_wd path mask st) i.channel in
    let start = not i.scanning && not ch.dead in
    let added = record grown {
      next_wd = next_number i.next_wd;
      watches = i.watches ++ (w ∷ []);
      channel = ch;
      scanning = i.scanning || (start && luck.started);
    } in
    if leb max_watches (length i.watches)
    then (i, failure nospc)
    else if length i.watches == i.cap && not luck.grown
    then (i, failure nomem)
    else if not luck.copied
    then (record grown { next_wd = next_number i.next_wd }, failure nomem)
    else (added, if start && not luck.started then failure tryagain else value i.next_wd)

-- `emu_add_watch` under the instance's lock.
unfoldable pub add_watch_in : World → Luck → List ℕ → ℕ → Stat → Instance → Instance × Return
unfolding find_watch remask add_new
add_watch_in world luck path mask st i = elim (find_watch path i.watches) [
  | none ↦ add_new world luck path mask st i
  | some w ↦
      if has mask in_mask_create
      then (i, failure exist)
      else (record i { watches = remask path mask i.watches }, value w.wd)
]

-- `in->watches[i].wd == wd && !in->watches[i].dropped`
abbrev pub is_live_wd : ℕ → Watch → Bool
is_live_wd wd w = w.wd == wd && not w.dropped

unfoldable pub has_watch : ℕ → List Watch → Bool
has_watch wd [] = false
has_watch wd (w ∷ ws) = is_live_wd wd w || has_watch wd ws

unfoldable pub drop_watch : ℕ → List Watch → List Watch
drop_watch wd [] = []
drop_watch wd (w ∷ ws) = let rest = drop_watch wd ws in if is_live_wd wd w then ws else w ∷ rest

-- `emu_rm_watch` under the instance's lock.
unfoldable pub rm_watch_in : Pipe → ℕ → Instance → Instance × Return
unfolding has_watch drop_watch emit
rm_watch_in pipe wd i =
    if has_watch wd i.watches
    then (
      record i {
        watches = drop_watch wd i.watches;
        channel = emit pipe (record { wd = wd; mask = in_ignored; name = [] }) i.channel;
      },
      value 0,
    )
    else (i, failure inval)

-- `inst_by_fd_locked`
abbrev pub is_at : ℕ → Instance → Bool
is_at fd i = i.used && (not i.channel.dead && i.rfd == fd)

unfoldable pub inst_by_fd : ℕ → List Instance → Option Instance
inst_by_fd fd [] = none
inst_by_fd fd (i ∷ is) = if is_at fd i then some i else inst_by_fd fd is

-- A step on the instance that `inst_by_fd_locked` returns.
unfoldable pub on_inst : ℕ → (Instance → Instance × Return) → List Instance → List Instance × Return
on_inst fd f [] = ([], failure badf)
on_inst fd f (i ∷ is) =
    let rest = on_inst fd f is in
    if is_at fd i then ((f i).0 ∷ is, (f i).1) else (i ∷ rest.0, rest.1)

-- `emu_add_watch`; a path that is NULL is `none`.
unfoldable pub add_watch :
    World → Luck → ℕ → Option (List ℕ) → ℕ → List Instance → List Instance × Return
unfolding add_watch_in on_inst
add_watch world luck fd none mask is = (is, failure fault)
add_watch world luck fd (some path) mask is =
    if not (has mask in_all_events) then (is, failure inval) else elim (stat_path world mask path) [
      | unseen e ↦ (is, failure e)
      | seen st ↦
          if has mask in_onlydir && not st.isdir
          then (is, failure notdir)
          else on_inst fd (add_watch_in world luck path mask st) is
    ]

-- `emu_rm_watch`
unfoldable pub rm_watch : Pipe → ℕ → ℕ → List Instance → List Instance × Return
unfolding rm_watch_in on_inst
rm_watch pipe fd wd is = on_inst fd (rm_watch_in pipe wd) is

-- The calls of `fcntl` and `close`.
pub data FdChange : Type 0 where
  nonblock : ℕ → FdChange
  cloexec : ℕ → FdChange
  closed : ℕ → FdChange

-- The slot after `memset` and the four stores.
abbrev pub fresh_instance : ℕ → ℕ → Instance
fresh_instance rfd wfd = record {
  used = true;
  rfd = rfd;
  wfd = wfd;
  next_wd = 1;
  scanning = false;
  watches = [];
  cap = 0;
  channel = record { dead = false; overflow = false; sent = [] };
}

-- The first unused slot is filled; `none` where there is none.
unfoldable pub fill_slot : Instance → List Instance → Option (List Instance)
fill_slot x [] = none
fill_slot x (i ∷ is) =
    let rest = fill_slot x is in
    if not i.used then some (x ∷ is) else elim rest [ none ↦ none | some is' ↦ some (i ∷ is') ]

abbrev pub pipe_changes : ℕ → ℕ → ℕ → List FdChange
pipe_changes flags rfd wfd =
    (if has flags in_nonblock then nonblock rfd ∷ [] else [])
    ++ ((if has flags in_cloexec then cloexec rfd ∷ cloexec wfd ∷ [] else [])
        ++ (nonblock wfd ∷ []))

-- `emu_init1`; the pipe is the answer of `pipe(2)`, with the host's errno where it fails.
unfoldable pub init1 :
    ℕ → Option (ℕ × ℕ) → ℕ → List Instance → List Instance × Return × List FdChange
unfolding fill_slot
init1 flags fds errno is =
    if not (clear_bits flags (bit_or in_nonblock in_cloexec) == 0)
    then (is, failure inval, [])
    else elim fds [
      | none ↦ elim (fill_slot (fresh_instance 0 0) is) [
        | none ↦ (is, failure mfile, [])
        | some _ ↦ (is, failure (host_error errno), [])
      ]
      | some (rfd, wfd) ↦ elim (fill_slot (fresh_instance rfd wfd) is) [
        | none ↦ (is, failure mfile, [])
        | some is' ↦ (is', value rfd, pipe_changes flags rfd wfd)
      ]
    ]

-- What `scan_thread` does to its slot when it ends.
unfoldable pub thread_end : Instance → Instance × List FdChange
thread_end i = (
  record i { watches = []; cap = 0; wfd = minus_one; scanning = false; used = false },
  closed i.wfd ∷ [],
)
