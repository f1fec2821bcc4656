-- ===== src/Procfs/Tests.antt =====
-- Runs of the path model and the links of shim/procfs/core for process 4242, which getpid calls 7.
use rust_ape.Prelude.{
  ℕ, ◌+◌, ◌≡◌, refl, true, false, ◌-◌, ◌^◌, take, List, [], ◌∷◌, ◌++◌, none, some, length, arith,
  ◌==◌,
}
use rust_ape.Procfs.{
  slash, self_name, fd_name, proc_prefix, exe_name, net_name, Node, k_pid_sub, k_root, k_net_file,
  OwnPid, decimal, skip_slashes, after_comp, pc_parse, pc_phys_suffix,
}
use rust_ape.Procfs.Physical.{pc_parse-pc_phys_suffix}
use rust_ape.Procfs.Links.{Processes, Fdent, readlink, link_mode}
use rust_ape.Procfs.Shown.{readlink-link_mode}
use rust_ape.Procfs.Content.{Memfd, Fresh, read_vectors, memfd_read, seek_set, memfd_lseek}
use rust_ape.Procfs.Content.Reading.{room, both, lseek_read}

abbrev own : OwnPid
own = record { self_pid = 4242; getpid = 7 }

-- "/self//fd/3", and the same through the number
abbrev sub : List ℕ
sub = 47 ∷ self_name ++ (47 ∷ 47 ∷ fd_name ++ (47 ∷ 51 ∷ []))

abbrev digits : List ℕ
digits = 52 ∷ 50 ∷ 52 ∷ 50 ∷ []

abbrev node : Node
node = record { kind = k_pid_sub; was_self = true; pid = 4242; name = fd_name; rest = 51 ∷ [] }

parse_run : pc_parse own sub ≡ node
unfolding pc_parse rust_ape.Procfs.named rust_ape.Procfs.below_pid rust_ape.Procfs.first_comp
    skip_slashes after_comp
parse_run = refl

pid_run : (pc_parse own sub).pid ≡ 4242
unfolding pc_parse rust_ape.Procfs.named rust_ape.Procfs.below_pid rust_ape.Procfs.first_comp
    skip_slashes after_comp
pid_run = refl

fits_run : length (after_comp (skip_slashes sub)) + 12 ≡ 18
unfolding skip_slashes after_comp
fits_run = refl

pc_parse-pc_phys_suffix_example :
    let n = pc_parse own sub in
    (pc_phys_suffix n sub 100 ≡ slash ∷ decimal 9 n.pid ++ after_comp (skip_slashes sub))
    × (pc_parse own (pc_phys_suffix n sub 100) ≡ record n { was_self = n.pid == 7 })
pc_parse-pc_phys_suffix_example =
    pc_parse-pc_phys_suffix own sub 100 (omega arith) (ground (arith, pid_run))
      (omega (arith, fits_run))

abbrev processes : Processes
processes = record {
  own = own;
  is_hosted = true;
  atoi = λ s. 3;
  pid_link = λ pid name bufsiz. some (47 ∷ []);
  fds_of = λ pid. some (record { fd = 3; text = 112 ∷ 105 ∷ 112 ∷ 101 ∷ [] } ∷ []);
  net_fds_of = λ pid. [];
}

-- The target of "/proc/self//fd/3", and what is left of it in a buffer of its length.
pipe_run : readlink processes (proc_prefix ++ sub) 64 ≡ some (112 ∷ 105 ∷ 112 ∷ 101 ∷ [])
unfolding readlink rust_ape.Procfs.Links.link_at rust_ape.Procfs.Links.link_of_node
    rust_ape.Procfs.Links.pc_link_name rust_ape.Procfs.Links.link_target
    rust_ape.Procfs.Links.fd_text rust_ape.Procfs.Links.text_of rust_ape.Procfs.Links.printed
    rust_ape.Suffix.contains rust_ape.Procfs.spelled_self pc_parse rust_ape.Procfs.named
    rust_ape.Procfs.below_pid rust_ape.Procfs.first_comp skip_slashes after_comp
pipe_run = refl

exact_run : readlink processes (proc_prefix ++ sub) 4 ≡ some (112 ∷ 105 ∷ 112 ∷ 0 ∷ [])
unfolding readlink rust_ape.Procfs.Links.link_at rust_ape.Procfs.Links.link_of_node
    rust_ape.Procfs.Links.pc_link_name rust_ape.Procfs.Links.link_target
    rust_ape.Procfs.Links.fd_text rust_ape.Procfs.Links.text_of rust_ape.Procfs.Links.printed
    rust_ape.Suffix.contains rust_ape.Procfs.spelled_self pc_parse rust_ape.Procfs.named
    rust_ape.Procfs.below_pid rust_ape.Procfs.first_comp skip_slashes after_comp
exact_run = refl

mode_run : link_mode processes (proc_prefix ++ sub) ≡ 0o700
unfolding link_mode rust_ape.Procfs.Links.mode_at rust_ape.Procfs.Links.mode_of_node
    rust_ape.Procfs.Links.pc_link_name rust_ape.Procfs.Links.mode_of_sub rust_ape.Suffix.contains
    rust_ape.Procfs.spelled_self pc_parse rust_ape.Procfs.named rust_ape.Procfs.below_pid
    rust_ape.Procfs.first_comp skip_slashes after_comp
mode_run = refl

-- "/proc/net/exe" is no link.
abbrev net_exe : List ℕ
net_exe = proc_prefix ++ (47 ∷ net_name ++ (47 ∷ exe_name))

no_mode_run : link_mode processes net_exe ≡ 0
unfolding link_mode rust_ape.Procfs.Links.mode_at rust_ape.Procfs.Links.mode_of_node pc_parse
    rust_ape.Procfs.named rust_ape.Procfs.first_comp skip_slashes after_comp
no_mode_run = refl

readlink-link_mode_example : readlink processes net_exe 64 ≡ none
readlink-link_mode_example = readlink-link_mode processes net_exe 64 no_mode_run

-- A text of four bytes that has been read to its end.
abbrev four : Memfd
four = record { text = 65 ∷ 66 ∷ 67 ∷ 10 ∷ []; pos = 4; gen = 3; is_dir = false }

-- A newer text of the same file, of five bytes.
abbrev newer : Fresh
newer = record {
  is_busy = false;
  gen_before = 5;
  generated = some (70 ∷ 71 ∷ 72 ∷ 73 ∷ 10 ∷ []);
  gen_after = 6;
}

end_run : (memfd_read (2 ∷ 2 ∷ []) four).0 ≡ some []
unfolding memfd_read read_vectors
end_run = refl

back_run : (memfd_lseek newer (2 ^ 64 - 3) 1 four).0 ≡ some 1
unfolding memfd_lseek rust_ape.Procfs.Content.moved
back_run = refl

before_run : (memfd_lseek newer (2 ^ 64 - 5) 1 four).0 ≡ none
unfolding memfd_lseek rust_ape.Procfs.Content.moved
before_run = refl

rewind_run : (memfd_lseek newer 0 seek_set four).1.gen ≡ 6
unfolding memfd_lseek rust_ape.Procfs.Content.rewind rust_ape.Procfs.Content.regenerated
rewind_run = refl

lseek_read_example :
    let m1 = (memfd_lseek newer 0 seek_set four).1 in
    let (first, m2) = memfd_read (1 ∷ 2 ∷ []) m1 in
    ((memfd_lseek newer 0 seek_set four).0 ≡ some 0)
    × (both first (memfd_read (7 ∷ []) m2).0
        ≡ some (take (room (1 ∷ 2 ∷ []) + room (7 ∷ [])) (70 ∷ 71 ∷ 72 ∷ 73 ∷ 10 ∷ [])))
lseek_read_example = lseek_read newer four 0 (1 ∷ 2 ∷ []) (7 ∷ []) refl (omega arith)
