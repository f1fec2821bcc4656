-- ===== src/Inotify/Tests.antt =====
-- Runs of shim/inotify.c on concrete watches and listings.
use rust_ape.Prelude.{
  ℕ, ◌≤◌, ◌≡◌, refl, true, false, List, [], ◌∷◌, ◌++◌, some, arith, length, take, min,
  if◌then◌else◌,
}
use rust_ape.Inotify.Channel.{Notice, Pipe, accepted, record_bytes}
use rust_ape.Inotify.Channel.Wire.{read_record, read_record-record_bytes}
use rust_ape.Inotify.Diff.{Stat, Kid, below, strcmp, diff_kids}
use rust_ape.Inotify.Diff.Names.{find_kid}
use rust_ape.Inotify.Diff.Laws.{about, owed, diff_kids-owed}
use rust_ape.Inotify.Watches.{
  Instance, Watch, World, listed, seen, scan_round, value, failure, inval, tryagain,
}
use rust_ape.Inotify.Watches.Counts.{live_count}
use rust_ape.Inotify.Calls.{
  Luck, find_watch, new_mask, add_watch_in, has_watch, rm_watch_in, fresh_instance, inst_by_fd,
  init1,
}
use rust_ape.Inotify.Calls.Laws.{IsWf, calls-IsWf}
use rust_ape.Inotify.Calls.Effects.{add_watch_in-silent, add_watch_in-again, rm_watch_in-gone}

abbrev plain : ℕ → ℕ → Stat
plain ino mtime = record {
  ino = ino;
  mtime = mtime;
  mtime_ns = 0;
  size = 3;
  mode = 0x81a4;
  isdir = false;
}

abbrev folder : Stat
folder = record { ino = 2; mtime = 0; mtime_ns = 0; size = 0; mode = 0x41ed; isdir = true }

-- "a" and "b", then "b" written to and "c" new.
abbrev before : List Kid
before =
    record { name = 97 ∷ []; stat = plain 11 1 } ∷ record { name = 98 ∷ []; stat = plain 12 1 } ∷ []

abbrev after : List Kid
after =
    record { name = 98 ∷ []; stat = plain 12 5 } ∷ record { name = 99 ∷ []; stat = plain 13 5 } ∷ []

diff_run :
    diff_kids 1 0xfff before after
    ≡ record { wd = 1; mask = 0x200; name = 97 ∷ [] }
      ∷ record { wd = 1; mask = 0x2; name = 98 ∷ [] }
      ∷ record { wd = 1; mask = 0x100; name = 99 ∷ [] }
      ∷ []
unfolding diff_kids
diff_run = refl

before-IsSorted : strcmp (97 ∷ []) (98 ∷ []) ≡ below
unfolding strcmp
before-IsSorted = refl

after-IsSorted : strcmp (98 ∷ []) (99 ∷ []) ≡ below
unfolding strcmp
after-IsSorted = refl

diff_kids-owed_example :
    about (98 ∷ []) (diff_kids 1 0xfff before after)
    ≡ owed 1 0xfff (find_kid (98 ∷ []) before) (find_kid (98 ∷ []) after)
diff_kids-owed_example =
    diff_kids-owed (98 ∷ []) 1 0xfff before after ((before-IsSorted, tt), (tt, tt))
      ((after-IsSorted, tt), (tt, tt))

abbrev notice : Notice
notice = record { wd = 1; mask = 0x100; name = 97 ∷ 98 ∷ [] }

read_record-record_bytes_example :
    read_record (record_bytes 255 notice ++ (7 ∷ []))
    ≡ (record { wd = 1; mask = 0x100; name = take (min 2 255) (97 ∷ 98 ∷ []) }, 7 ∷ [])
read_record-record_bytes_example =
    read_record-record_bytes 255 notice (7 ∷ []) (omega arith) (omega arith) (omega arith)
      (refl, (refl, tt))

abbrev pipe : Pipe
pipe = record { name_max = 255; write = λ sent bytes. accepted }

abbrev world : World
world = record {
  opendir = λ path. listed [];
  stat = λ path. seen folder;
  lstat = λ path. seen folder;
  path_max = 1024;
  qsort = λ ks. ks;
  pipe = pipe;
}

-- A directory and a file, watched as 1 and 2 in an instance on descriptor 5.
abbrev etc : Watch
etc = record {
  wd = 1;
  path = 47 ∷ 101 ∷ [];
  mask = 0xfff;
  isdir = true;
  dropped = false;
  kids = [];
  self = folder;
}

abbrev log : Watch
log = record {
  wd = 2;
  path = 47 ∷ 108 ∷ [];
  mask = 0x2;
  isdir = false;
  dropped = false;
  kids = [];
  self = plain 9 1;
}

abbrev busy : Instance
busy = record (fresh_instance 5 6) {
  next_wd = 3;
  scanning = true;
  watches = etc ∷ log ∷ [];
  cap = 8;
}

abbrev lucky : Luck
lucky = record { grown = true; copied = true; started = true }

busy-paths : (x : List ℕ) → live_count x busy.watches ≤ 1
unfolding strcmp
busy-paths [] = omega arith
busy-paths (a ∷ []) = ground arith
busy-paths (a ∷ b ∷ []) = ground arith
busy-paths (a ∷ b ∷ c ∷ x) = ground arith

busy-IsWf : IsWf busy
busy-IsWf = record {
  few = omega arith;
  next = omega arith;
  numbered = ((omega arith, omega arith), ((omega arith, omega arith), tt));
  once = λ j. ground arith;
  paths = busy-paths;
}

calls-IsWf_example :
    IsWf (add_watch_in world lucky (47 ∷ 118 ∷ []) 0xfff folder busy).0
    × IsWf (rm_watch_in pipe 1 busy).0
    × IsWf (scan_round world busy).0
calls-IsWf_example =
    calls-IsWf world lucky (47 ∷ 118 ∷ []) 0xfff folder pipe 1 busy busy-IsWf (omega arith)

unwatch_run :
    ((rm_watch_in pipe 1 busy).1 ≡ (if has_watch 1 busy.watches then value 0 else failure inval))
    × (has_watch 1 (rm_watch_in pipe 1 busy).0.watches ≡ false)
    × (has_watch 2 (rm_watch_in pipe 1 busy).0.watches ≡ has_watch 2 busy.watches)
unwatch_run = rm_watch_in-gone pipe 1 2 busy busy-IsWf (omega arith)

silence_run : (add_watch_in world lucky (47 ∷ 118 ∷ []) 0xfff folder busy).0.channel ≡ busy.channel
silence_run = add_watch_in-silent world lucky (47 ∷ 118 ∷ []) 0xfff folder busy

log_found : find_watch log.path busy.watches ≡ some log
unfolding find_watch strcmp
log_found = refl

second_add_run :
    let (i', r) = add_watch_in world lucky log.path 0x4 (plain 9 1) busy in
    (r ≡ value 2)
    × (find_watch log.path i'.watches ≡ some (record log { mask = new_mask 0x4 log }))
    × (length i'.watches ≡ 2)
second_add_run = add_watch_in-again world lucky log.path 0x4 (plain 9 1) busy log log_found refl

-- The reader of descriptor 5 has closed it, and nothing has been written since: the slot is still
-- in use.
abbrev closed_slot : Instance
closed_slot = fresh_instance 5 6

abbrev free_slot : Instance
free_slot = record (fresh_instance 0 0) { used = false }

-- `inotify_init1` hands out the same number again, and a lookup of it finds the old slot.
stale_slot :
    let is = (init1 0 (some (5, 8)) 0 (closed_slot ∷ free_slot ∷ [])).0 in
    (is ≡ closed_slot ∷ fresh_instance 5 8 ∷ []) × (inst_by_fd 5 is ≡ some closed_slot)
unfolding init1 inst_by_fd
stale_slot = (refl, refl)

-- `pthread_create` fails: the call reports it, and the watch stays.
unstarted_run :
    let (i, r) =
      add_watch_in world (record lucky { started = false }) etc.path 0xfff folder closed_slot in
    (r ≡ failure tryagain) × (length i.watches ≡ 1)
unfolding add_watch_in
unstarted_run = (refl, refl)
