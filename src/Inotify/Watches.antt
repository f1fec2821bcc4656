-- ===== src/Inotify/Watches.antt =====
-- The watches of one instance in shim/inotify.c: `scan_dir`, `scan_file`, one round of
-- `scan_thread`, and the parts of `emu_add_watch` and `emu_rm_watch` that hold the instance's lock.
-- What the host shows is an argument. An array with its count is a list; `next_wd` is an
-- `int`, as its 32-bit pattern.
pub mod Counts
use rust_ape.Prelude.{
  ℕ, zero, suc, ◌+◌, ◌*◌, ◌-◌, ◌^◌, Bool, true, false, not, ◌&&◌, ◌||◌, List, [], ◌∷◌, ◌++◌, Option,
  none, some, ltb, leb, ◌==◌, if◌then◌else◌, length, has, bit_or, minus_one,
}
use rust_ape.Inotify.Channel.{Notice, Channel, Pipe, emit, emit_all}
use rust_ape.Inotify.Diff.{
  Stat, Kid, strcmp, diff_kids, is_touched, notice_if, in_modify, in_attrib,
}
use rust_ape.Inotify.Diff.Names.{is_same}

abbrev pub in_delete_self : ℕ
in_delete_self = 0x400

abbrev pub in_q_overflow : ℕ
in_q_overflow = 0x4000

abbrev pub in_ignored : ℕ
in_ignored = 0x8000

abbrev pub in_dont_follow : ℕ
in_dont_follow = 0x2000000

abbrev pub in_mask_create : ℕ
in_mask_create = 0x10000000

abbrev pub in_mask_add : ℕ
in_mask_add = 0x20000000

-- `SHIM_IN_MAX_WATCHES`
abbrev pub max_watches : ℕ
max_watches = 8192

-- The `errno` values that the file sets or tests; `host_error` is any other.
pub data Fault : Type 0 where
  noent notdir fault inval badf exist nospc nomem mfile tryagain : Fault
  host_error : ℕ → Fault

-- What a call returns: a value, or -1 with `errno` set.
pub data Return : Type 0 where
  value : ℕ → Return
  failure : Fault → Return

-- One answer of `readdir`: the name, its `lstat`, and whether the two allocations succeed.
pub record Dirent : Type 0 where
  pub name : List ℕ
  pub stat : Option Stat
  pub grown : Bool
  pub copied : Bool

-- The answers of `opendir` with the `readdir` after it, and of `stat`.
pub data DirView : Type 0 where
  unopened : Fault → DirView
  listed : List Dirent → DirView

pub data StatView : Type 0 where
  unseen : Fault → StatView
  seen : Stat → StatView

-- What the file system shows during one round, with the host's `PATH_MAX`, its `qsort` by
-- `kid_cmp`, and its pipe.
pub record World : Type 0 where
  pub opendir : List ℕ → DirView
  pub stat : List ℕ → StatView
  pub lstat : List ℕ → StatView
  pub path_max : ℕ
  pub qsort : List Kid → List Kid
  pub pipe : Pipe

-- `struct shim_in_watch`; `self` has no name.
pub record Watch : Type 0 where
  pub wd : ℕ
  pub path : List ℕ
  pub mask : ℕ
  pub isdir : Bool
  pub dropped : Bool
  pub kids : List Kid
  pub self : Stat

-- "." and ".."
abbrev pub is_dots : List ℕ → Bool
is_dots (c ∷ []) = c == 46
is_dots (c ∷ d ∷ []) = c == 46 && d == 46
is_dots _ = false

-- The loop over `readdir`: `n` entries so far, in an array of `cap`.
unfoldable pub list_kids : ℕ → List ℕ → List Dirent → ℕ → ℕ → List Kid
list_kids path_max path [] n cap = []
list_kids path_max path (e ∷ es) n cap =
    let skip = list_kids path_max path es n cap in
    let room = if n == cap then (if cap == 0 then 16 else cap * 2) else cap in
    let rest = list_kids path_max path es (suc n) room in
    if is_dots e.name || leb path_max (length path + 1 + length e.name) then skip else elim e.stat [
      | none ↦ skip
      | some st ↦
          if (n == cap && not e.grown) || not e.copied
          then []
          else record { name = e.name; stat = st } ∷ rest
    ]

-- `if (n > 1) qsort(…)`
abbrev pub sort_kids : World → List Kid → List Kid
sort_kids w ks = if ltb 1 (length ks) then w.qsort ks else ks

-- `errno == ENOENT || errno == ENOTDIR`
abbrev pub is_missing : Fault → Bool
is_missing noent = true
is_missing notdir = true
is_missing _ = false

-- What is passed to `emit` when the watched path is gone; a directory watch with an empty mask is
-- silent.
abbrev pub farewell : Bool → Watch → List Notice
farewell silent w =
    notice_if (has w.mask in_delete_self) w.wd in_delete_self []
    ++ notice_if (not silent) w.wd in_ignored []

-- `scan_dir`, by the answer of `opendir`.
unfoldable pub scan_view : World → Watch → DirView → Channel → Watch × Channel
unfolding emit_all list_kids diff_kids
scan_view world w (unopened e) ch =
    if is_missing e
    then (record w { dropped = true }, emit_all world.pipe (farewell (w.mask == 0) w) ch)
    else (w, ch)
scan_view world w (listed es) ch =
    let now = sort_kids world (list_kids world.path_max w.path es 0 0) in
    (record w { kids = now }, emit_all world.pipe (diff_kids w.wd w.mask w.kids now) ch)

unfoldable pub scan_dir : World → Watch → Channel → Watch × Channel
unfolding scan_view
scan_dir world w ch = scan_view world w (world.opendir w.path) ch

-- `(mask & LIN_IN_DONT_FOLLOW) ? lstat(path, &st) : stat(path, &st)`
abbrev pub stat_path : World → ℕ → List ℕ → StatView
stat_path world mask path = if has mask in_dont_follow then world.lstat path else world.stat path

-- What is passed to `emit` for a watched file that is there.
abbrev pub file_changes : Watch → Stat → List Notice
file_changes w now =
    if not (now.ino == w.self.ino)
    then notice_if (has w.mask in_attrib) w.wd in_attrib []
    else notice_if (is_touched now w.self && has w.mask in_modify) w.wd in_modify []
      ++ notice_if (not (now.mode == w.self.mode) && has w.mask in_attrib) w.wd in_attrib []

-- `scan_file`, by the answer of `stat`.
unfoldable pub scan_stat : World → Watch → StatView → Channel → Watch × Channel
unfolding emit_all
scan_stat world w (unseen e) ch =
    if is_missing e
    then (record w { dropped = true }, emit_all world.pipe (farewell false w) ch)
    else (w, ch)
scan_stat world w (seen st) ch =
    (record w { self = st }, emit_all world.pipe (file_changes w st) ch)

unfoldable pub scan_file : World → Watch → Channel → Watch × Channel
unfolding scan_stat
scan_file world w ch = scan_stat world w (stat_path world w.mask w.path) ch

-- One watch of the round's first loop.
abbrev pub scan_watch : World → Watch → Channel → Watch × Channel
scan_watch world w ch =
    if w.dropped then (w, ch) else if w.isdir then scan_dir world w ch else scan_file world w ch

unfoldable pub scan_all : World → List Watch → Channel → List Watch × Channel
unfolding scan_dir scan_file
scan_all world [] ch = ([], ch)
scan_all world (w ∷ ws) ch =
    let now = scan_watch world w ch in
    let rest = scan_all world ws now.1 in (now.0 ∷ rest.0, rest.1)

-- The second loop: what reported IN_IGNORED is reaped.
unfoldable pub reap : List Watch → List Watch
reap [] = []
reap (w ∷ ws) = let rest = reap ws in if w.dropped then rest else w ∷ rest

-- `struct shim_in_inst`, without the lock and the thread's handle.
pub record Instance : Type 0 where
  pub used : Bool
  pub rfd : ℕ
  pub wfd : ℕ
  pub next_wd : ℕ
  pub scanning : Bool
  pub watches : List Watch
  pub cap : ℕ
  pub channel : Channel

-- `if (in->overflow) { … }`
abbrev pub report_overflow : Pipe → Channel → Channel
report_overflow h ch =
    if ch.overflow
    then emit h (record { wd = minus_one; mask = in_q_overflow; name = [] })
        (record ch { overflow = false })
    else ch

-- One round of `scan_thread` after its nap: the instance, and whether the thread goes on.
unfoldable pub scan_round : World → Instance → Instance × Bool
unfolding emit scan_all reap
scan_round world i =
    if i.channel.dead
    then (i, false)
    else (let (ws, ch) = scan_all world i.watches (report_overflow world.pipe i.channel) in
        (record i { watches = reap ws; channel = ch }, not ch.dead))
