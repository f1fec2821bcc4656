-- ===== src/Procfs/Links.antt =====
-- The links among the process files, shim/procfs/core/links.c: which paths are links and what readlink
-- says of an absolute one. What is known of a process is an argument: the targets of its exe, cwd and
-- root (`pfs_pid_link`), its descriptors with their texts (`pfs_self_fds`, `pfs_other_fds`), and the
-- numbers of its sockets (`pfs_net_fds_of`).
use rust_ape.Prelude.{
  ℕ, ◌-◌, Bool, true, false, not, ◌&&◌, ◌||◌, List, [], ◌∷◌, ◌++◌, Option, none, some, leb, ◌==◌,
  if◌then◌else◌, length, take, drop, get_elem?, negative,
}
use rust_ape.Suffix.{contains}
use rust_ape.Procfs.{
  slash, same_text, starts_with, is_empty, skip_slashes, after_comp, decimal, Kind, k_pid_dir,
  k_pid_sub, Node, OwnPid, task_name, exe_name, cwd_name, root_name, fd_name, proc_prefix,
  socket_prefix, pc_parse, spelled_self,
}

-- One row of `struct pfs_fdent`
pub record Fdent : Type 0 where
  pub fd : ℕ
  pub text : List ℕ

-- What the links are answered from. `own` has the two numbers of the own process, `is_hosted` is
-- `PC_HOSTED()`, `atoi` the C library's, an `int` as its pattern; `fds_of` is `none` where nothing sees into
-- the process.
pub record Processes : Type 0 where
  pub own : OwnPid
  pub is_hosted : Bool
  pub atoi : List ℕ → ℕ
  pub pid_link : ℕ → List ℕ → ℕ → Option (List ℕ)
  pub fds_of : ℕ → Option (List Fdent)
  pub net_fds_of : ℕ → List ℕ

-- `strchr(s, '/')`, behind the slash
unfoldable pub behind_slash : List ℕ → Option (List ℕ)
behind_slash [] = none
behind_slash (c ∷ cs) = let rest = behind_slash cs in if c == slash then some cs else rest

-- `pc_link_name`
abbrev pub link_if_known : List ℕ → Option (List ℕ)
link_if_known name =
    if same_text name exe_name || (same_text name cwd_name || same_text name root_name)
    then some name
    else none

unfoldable pub task_link : Option (List ℕ) → Option (List ℕ)
unfolding contains
task_link none = none
task_link (some name) = if contains slash name then none else link_if_known name

abbrev pub is_pid_sub : Kind → Bool
is_pid_sub k_pid_sub = true
is_pid_sub _ = false

abbrev pub is_pid_dir : Kind → Bool
is_pid_dir k_pid_dir = true
is_pid_dir _ = false

unfoldable pub pc_link_name : Node → Option (List ℕ)
unfolding task_link behind_slash
pc_link_name n =
    if not (is_pid_sub n.kind)
    then none
    else if same_text n.name task_name
    then task_link (behind_slash n.rest)
    else if not (is_empty n.rest)
    then none
    else link_if_known n.name

-- `snprintf(buf, bufsiz, "%s", text)` and what is returned of it: the bytes of `buf` up to the length
-- that is returned. A text of `bufsiz` bytes loses its last one to the terminating NUL.
unfoldable pub printed : ℕ → List ℕ → Option (List ℕ)
printed bufsiz text =
    if not (is_empty text) && leb (length text) bufsiz
    then some (if length text == bufsiz then take (bufsiz - 1) text ++ (0 ∷ []) else text)
    else none

-- The target of a descriptor's link, in the process's list and by its number among the sockets.
unfoldable pub text_of : ℕ → ℕ → List Fdent → Option (List ℕ)
text_of bufsiz k [] = none
text_of bufsiz k (e ∷ es) =
    let rest = text_of bufsiz k es in if e.fd == k then printed bufsiz e.text else rest

abbrev pub socket_text : ℕ → List ℕ
socket_text inode = socket_prefix ++ (decimal 19 inode ++ (93 ∷ []))

unfoldable pub socket_of : ℕ → Option ℕ → Option (List ℕ)
socket_of bufsiz none = none
socket_of bufsiz (some inode) = printed bufsiz (socket_text inode)

unfoldable pub fd_text : Processes → ℕ → ℕ → ℕ → Option (List Fdent) → Option (List ℕ)
fd_text h bufsiz pid k (some es) = text_of bufsiz k es
fd_text h bufsiz pid k none =
    if negative k then none else socket_of bufsiz (get_elem? (h.net_fds_of pid) k)

-- `!strcmp(n->name, "fd") && n->rest[0] && !strchr(n->rest, '/')`
abbrev pub is_fd_link : Node → Bool
is_fd_link n = same_text n.name fd_name && (not (is_empty n.rest) && not (contains slash n.rest))

-- `link_of_node`
unfoldable pub link_target : Processes → Node → ℕ → Option (List ℕ) → Option (List ℕ)
link_target h n bufsiz (some link) = h.pid_link n.pid link bufsiz
link_target h n bufsiz none =
    if is_fd_link n then fd_text h bufsiz n.pid (h.atoi n.rest) (h.fds_of n.pid) else none

unfoldable pub link_of_node : Processes → Node → List ℕ → ℕ → Option (List ℕ)
link_of_node h n sub bufsiz =
    if (is_pid_dir n.kind && spelled_self sub) && is_empty (after_comp (skip_slashes sub))
    then printed bufsiz (decimal 9 n.pid)
    else if not (is_pid_sub n.kind)
    then none
    else link_target h n bufsiz (pc_link_name n)

-- What follows "/proc" in a path that names something there.
abbrev pub below_proc : List ℕ → Option (List ℕ)
below_proc vpath =
    if starts_with proc_prefix vpath
      && (is_empty (drop 5 vpath) || starts_with (slash ∷ []) (drop 5 vpath))
    then some (drop 5 vpath)
    else none

-- `__ape_shim_procfs_readlinkat` on an absolute path
unfoldable pub link_at : Processes → ℕ → Option (List ℕ) → Option (List ℕ)
link_at h bufsiz none = none
link_at h bufsiz (some sub) = link_of_node h (pc_parse h.own sub) sub bufsiz

unfoldable pub readlink : Processes → List ℕ → ℕ → Option (List ℕ)
readlink h vpath bufsiz =
    if not h.is_hosted || bufsiz == 0 then none else link_at h bufsiz (below_proc vpath)

-- `__ape_shim_procfs_link_mode`
unfoldable pub mode_of_sub : Option (List ℕ) → Node → ℕ
mode_of_sub (some link) n = 0o777
mode_of_sub none n = if is_fd_link n then 0o700 else 0

unfoldable pub mode_of_node : Node → List ℕ → ℕ
mode_of_node n sub =
    if is_pid_dir n.kind && spelled_self sub
    then (if is_empty (skip_slashes (after_comp (skip_slashes sub))) then 0o777 else 0)
    else if not (is_pid_sub n.kind)
    then 0
    else mode_of_sub (pc_link_name n) n

unfoldable pub mode_at : OwnPid → Option (List ℕ) → ℕ
mode_at o none = 0
mode_at o (some sub) = mode_of_node (pc_parse o sub) sub

unfoldable pub link_mode : Processes → List ℕ → ℕ
link_mode h vpath = if not h.is_hosted then 0 else mode_at h.own (below_proc vpath)
