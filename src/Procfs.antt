-- ===== src/Procfs.antt =====
-- The path model of the process files: `comp`, `pc_parse` and `pc_phys_suffix` of
-- shim/procfs/core/tree.c, and the links of shim/procfs/core/links.c for absolute paths. A C string
-- is the list of its bytes. What shim/procfs/pid.c and its neighbours answer about a process is an
-- argument, as are the two numbers of the own process.
pub mod Decimal
pub mod Physical
pub mod Links
pub mod Shown
pub mod Content
mod Tests
use rust_ape.Prelude.{
  ℕ, zero, suc, ◌+◌, ◌-◌, ◌*◌, ◌/◌, ◌%◌, ◌^◌, min, Bool, true, false, not, ◌&&◌, ◌||◌, List, [],
  ◌∷◌, ◌++◌, Option, none, some, ltb, leb, ◌==◌, if◌then◌else◌, length, take, drop, get_elem?,
  negative,
}
use rust_ape.Suffix.{contains}

abbrev pub slash : ℕ
slash = 47

-- `!strcmp(a, b)`, and `!strncmp(s, pre, strlen(pre))`
abbrev pub same_text : List ℕ → List ℕ → Bool
same_text [] [] = true
same_text (x ∷ xs) (y ∷ ys) = x == y && same_text xs ys
same_text _ _ = false

abbrev pub starts_with : List ℕ → List ℕ → Bool
starts_with [] s = true
starts_with (x ∷ xs) [] = false
starts_with (x ∷ xs) (y ∷ ys) = x == y && starts_with xs ys

abbrev pub is_empty : List ℕ → Bool
is_empty [] = true
is_empty (c ∷ cs) = false

-- `while (*p == '/') p++;`, and what `comp` reads and leaves.
unfoldable pub skip_slashes : List ℕ → List ℕ
skip_slashes [] = []
skip_slashes (c ∷ cs) = let rest = skip_slashes cs in if c == slash then rest else c ∷ cs

unfoldable pub first_comp : List ℕ → List ℕ
first_comp [] = []
first_comp (c ∷ cs) = let rest = first_comp cs in if c == slash then [] else c ∷ rest

unfoldable pub after_comp : List ℕ → List ℕ
after_comp [] = []
after_comp (c ∷ cs) = let rest = after_comp cs in if c == slash then c ∷ cs else rest

-- The text that `comp` stores.
abbrev pub comp : ℕ → List ℕ → List ℕ
comp cap s = take (cap - 1) (first_comp s)

-- `strtoul(s, 0, 10)` on a text that begins with a digit, without its bound
abbrev pub is_digit : ℕ → Bool
is_digit c = leb 48 c && leb c 57

unfoldable pub number_of : ℕ → List ℕ → ℕ
number_of acc [] = acc
number_of acc (c ∷ cs) =
    let more = number_of (acc * 10 + (c - 48)) cs in if is_digit c then more else acc

abbrev pub strtoul : List ℕ → ℕ
strtoul s = min (number_of 0 s) (2 ^ 64 - 1)

-- `%u` and `%llu`, of at most `suc fuel` digits
unfoldable pub decimal : ℕ → ℕ → List ℕ
decimal zero n = (48 + n % 10) ∷ []
decimal (suc fuel) n =
    let high = decimal fuel (n / 10) in
    if ltb n 10 then (48 + n) ∷ [] else high ++ ((48 + n % 10) ∷ [])

-- `enum kind` and `struct node`
pub data Kind : Type 0 where
  k_other k_root k_top k_pid_dir k_pid_sub k_net_dir k_net_file k_sys : Kind

pub record Node : Type 0 where
  pub kind : Kind
  pub was_self : Bool
  pub pid : ℕ
  pub name : List ℕ
  pub rest : List ℕ

-- "self", "net", "sys", "task", "exe", "cwd", "root", "fd", "/proc", "socket:["
abbrev pub self_name : List ℕ
self_name = 115 ∷ 101 ∷ 108 ∷ 102 ∷ []

abbrev pub net_name : List ℕ
net_name = 110 ∷ 101 ∷ 116 ∷ []

abbrev pub sys_name : List ℕ
sys_name = 115 ∷ 121 ∷ 115 ∷ []

abbrev pub task_name : List ℕ
task_name = 116 ∷ 97 ∷ 115 ∷ 107 ∷ []

abbrev pub exe_name : List ℕ
exe_name = 101 ∷ 120 ∷ 101 ∷ []

abbrev pub cwd_name : List ℕ
cwd_name = 99 ∷ 119 ∷ 100 ∷ []

abbrev pub root_name : List ℕ
root_name = 114 ∷ 111 ∷ 111 ∷ 116 ∷ []

abbrev pub fd_name : List ℕ
fd_name = 102 ∷ 100 ∷ []

abbrev pub proc_prefix : List ℕ
proc_prefix = 47 ∷ 112 ∷ 114 ∷ 111 ∷ 99 ∷ []

abbrev pub socket_prefix : List ℕ
socket_prefix = 115 ∷ 111 ∷ 99 ∷ 107 ∷ 101 ∷ 116 ∷ 58 ∷ 91 ∷ []

-- The own process: what `pfs_self_pid` and `getpid` return, as `uint32_t`.
pub record OwnPid : Type 0 where
  pub self_pid : ℕ
  pub getpid : ℕ

abbrev pub plain_node : Kind → List ℕ → List ℕ → Node
plain_node k name rest = record { kind = k; was_self = false; pid = 0; name = name; rest = rest }

-- The end of `pc_parse`, below a process; `rest` is what follows its name.
unfoldable pub below_pid : Bool → ℕ → List ℕ → Node
below_pid self pid rest =
    if is_empty rest
    then record { kind = k_pid_dir; was_self = self; pid = pid; name = []; rest = [] }
    else record {
      kind = k_pid_sub;
      was_self = self;
      pid = pid;
      name = comp 64 rest;
      rest = take 199 (skip_slashes (after_comp rest));
    }

-- `/proc/<number>`: the number that `getpid` returns is the own process, too.
unfoldable pub numbered : OwnPid → ℕ → List ℕ → Node
numbered o pid rest =
    if pid == o.getpid then below_pid true o.self_pid rest else below_pid false pid rest

abbrev pub begins_with_digit : List ℕ → Bool
begins_with_digit [] = false
begins_with_digit (c ∷ cs) = is_digit c

-- What follows the split into the first component and the rest.
unfoldable pub named : OwnPid → List ℕ → List ℕ → Node
named o first rest =
    if same_text first self_name
    then below_pid true o.self_pid rest
    else if begins_with_digit first
    then numbered o (strtoul first % 2 ^ 32) rest
    else if same_text first net_name
    then (if is_empty rest
        then plain_node k_net_dir [] []
        else plain_node k_net_file (comp 64 rest) [])
    else if same_text first sys_name
    then plain_node k_sys [] (take 199 rest)
    else plain_node (if is_empty rest then k_top else k_other) first []

-- `pc_parse`
unfoldable pub pc_parse : OwnPid → List ℕ → Node
pc_parse o sub =
    let s = skip_slashes sub in
    if is_empty s
    then plain_node k_root [] []
    else named o (comp 64 s) (skip_slashes (after_comp s))

-- `pc_phys_suffix`
unfoldable pub pc_phys_suffix : Node → List ℕ → ℕ → List ℕ
pc_phys_suffix n sub cap =
    if not (n.pid == 0) || n.was_self
    then take (cap - 1) (slash ∷ decimal 9 n.pid ++ after_comp (skip_slashes sub))
    else take (cap - 1) (if is_empty sub then slash ∷ [] else sub)

-- `spelled_self`
unfoldable pub spelled_self : List ℕ → Bool
spelled_self sub =
    let s = skip_slashes sub in
    starts_with self_name s && (is_empty (drop 4 s) || starts_with (slash ∷ []) (drop 4 s))
