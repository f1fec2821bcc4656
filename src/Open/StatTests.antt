-- ===== src/Open/StatTests.antt =====
-- Runs of the stat family of shim/open.c: "/proc/self/exe" is a placeholder on disk that the process files
-- call a link to "/p".
use rust_ape.Prelude.{
  ℕ, ◌-◌, ◌^◌, ◌≡◌, refl, true, false, List, [], ◌∷◌, ◌++◌, none, some, if◌then◌else◌, arith,
}
use rust_ape.Suffix.{Files, unreadable}
use rust_ape.Procfs.{OwnPid, proc_prefix, self_name, exe_name, same_text}
use rust_ape.Procfs.Links.{Processes}
use rust_ape.Open.{left_by_host, lin_at_fdcwd}
use rust_ape.Open.Stats.{Stat, StatAnswer, found, no_stat, StatHost, stat, lstat, fstatat}
use rust_ape.Open.Stats.Agree.{stats_agree}

abbrev own_exe : List ℕ
own_exe = proc_prefix ++ (47 ∷ self_name ++ (47 ∷ exe_name))

abbrev p : List ℕ
p = 47 ∷ 112 ∷ []

abbrev file : ℕ → Stat
file size = record { mode = 0o100644; size = size; nlink = 1; other = 0 }

abbrev on_disk : List ℕ → StatAnswer
on_disk path =
    if same_text path own_exe
    then found (file 2)
    else if same_text path p
    then found (file 900)
    else no_stat (left_by_host 2)

abbrev host : StatHost
host = record {
  at_fdcwd = 2 ^ 32 - 2;
  at_symlink_nofollow = 32;
  at_empty_path = 0;
  s_iflnk = 0o120000;
  s_ifsock = 0o140000;
  path_max = 1024;
  files = λ fd. record {
    is_windows = true;
    path_max = 1024;
    enoent = 2;
    is_regular = λ path. false;
    readlink = λ path. unreadable;
  };
  processes = record {
    own = record { self_pid = 4242; getpid = 7 };
    is_hosted = true;
    atoi = λ s. 0;
    pid_link = λ pid name n. some p;
    fds_of = λ pid. none;
    net_fds_of = λ pid. [];
  };
  stat = on_disk;
  lstat = on_disk;
  fstat = λ fd. no_stat (left_by_host 9);
  fstatat = λ fd path flags. on_disk path;
  procfs_vstat = λ fd path nofollow. none;
  procfs_join = λ fd path. none;
}

abbrev exe_link : Stat
exe_link = record { mode = 0o120777; size = 0; nlink = 1; other = 0 }

lstat_run : lstat host own_exe ≡ found exe_link
unfolding lstat rust_ape.Open.Stats.must_follow rust_ape.Suffix.base_of rust_ape.Suffix.contains
    rust_ape.Open.Stats.retry rust_ape.Open.Stats.link_stat rust_ape.Open.Stats.proc_path
    rust_ape.Open.Stats.link_stat_at rust_ape.Procfs.Links.link_mode rust_ape.Procfs.Links.mode_at
    rust_ape.Procfs.Links.mode_of_node rust_ape.Procfs.Links.pc_link_name
    rust_ape.Procfs.Links.mode_of_sub rust_ape.Procfs.spelled_self rust_ape.Procfs.pc_parse
    rust_ape.Procfs.named rust_ape.Procfs.below_pid rust_ape.Procfs.first_comp
    rust_ape.Procfs.skip_slashes rust_ape.Procfs.after_comp
lstat_run = refl

stat_run : stat host own_exe ≡ found (file 900)
unfolding stat rust_ape.Open.Stats.retry rust_ape.Open.Stats.follow_stat
    rust_ape.Open.Stats.proc_path rust_ape.Open.Stats.follow_stat_at rust_ape.Open.Stats.target_stat
    rust_ape.Procfs.Links.link_mode rust_ape.Procfs.Links.mode_at rust_ape.Procfs.Links.mode_of_node
    rust_ape.Procfs.Links.pc_link_name rust_ape.Procfs.Links.mode_of_sub
    rust_ape.Procfs.Links.readlink rust_ape.Procfs.Links.link_at rust_ape.Procfs.Links.link_of_node
    rust_ape.Procfs.Links.link_target rust_ape.Suffix.contains rust_ape.Procfs.spelled_self
    rust_ape.Procfs.pc_parse rust_ape.Procfs.named rust_ape.Procfs.below_pid
    rust_ape.Procfs.first_comp rust_ape.Procfs.skip_slashes rust_ape.Procfs.after_comp
stat_run = refl

stats_agree_example :
    (fstatat host lin_at_fdcwd own_exe 0 ≡ stat host own_exe)
    × (fstatat host lin_at_fdcwd own_exe 256 ≡ lstat host own_exe)
stats_agree_example = stats_agree host own_exe (λ path. refl) (λ path. refl) refl (omega arith)
