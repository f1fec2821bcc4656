-- ===== src/Lib.antt =====
-- rust-ape runs Rust programs built for Linux and musl on Cosmopolitan's libc. The C files of
-- `shim/` stand between the two: they translate constants and structures, and emulate what the
-- host does not have. This library models that C code.
--
-- The parts that are modelled. From `shim/epoll.c`, the emulation of epoll by poll:
--
-- Epoll.Interest: `struct shim_epoll_entry`, `find_entry` and the `switch` of `emu_ctl`; `add`,
--   `modify` and `remove` are its three cases and `ctl_switch` is the whole of it.
-- Epoll.Arming: `effective_armed`, `epoll_to_poll`, `poll_to_epoll`, the array that `emu_wait`
--   builds (`slot`, `slots`), and the loop of `emu_wait` that matches what was found to the
--   registrations and disarms them (`reported`, `disarm`, `collect`).
-- Epoll.Table: `g_sets`; `set_by_handle`, `note_dup`, `forget_fd`, `create1` for `emu_create1`,
--   and `emu_ctl`.
-- Epoll.Rearm: `rearm`, `rearm_in`, `rearm_out`.
-- Epoll.Pairs: `g_pairs`; `note_new_fd`, `note_pipe`, `note_pair`, `hint_pipe_write`.
-- Epoll.Chunked: `poll_chunked`, used where the host refuses a long array.
-- Epoll.Wait: `emu_wait`. A round of its loop builds the array from the interest list (Arming),
--   polls it (Chunked, where it has to), and ends with the events handed out, a recovery from a
--   closed descriptor (`drop_bad`), or another round.
--
-- From other files of `shim/`:
--
-- Codes: the tables of host and Linux values as `shim/errno.c` and `shim/signal.c` search them,
--   and the copy of errno behind `__ape_shim_errno_location` (`errno_location`), with what the
--   host and the Rust side do to it as events (`happen`).
-- Signal: `shim/signal.c`, up to `__ape_shim_signal`: `sig_to_host`, `sig_to_linux`, the flags,
--   and `__ape_shim_sigaction` as `set_action` and `get_action`, with the two trampolines.
-- Signal.Masks: the rest of that file: `__ape_shim_sigaltstack`, `__ape_shim_sigprocmask` and
--   its kin, `__ape_shim_sigwait` with its two loops (`arm_defaults`, `restore_defaults`),
--   `getauxval`.
-- Inotify: `shim/inotify.c`, the emulation of inotify by listings that are compared. Channel is
--   `emit` with the bytes that it writes; Diff is the walk of `scan_dir` through two listings
--   (`diff_kids`); Watches is `scan_dir`, `scan_file` and one round of `scan_thread`
--   (`scan_round`); Calls is `emu_init1`, `emu_add_watch` and `emu_rm_watch`.
-- Wait: `shim/wait.c`: `__ape_shim_wait4` and `waitid_emulate`.
-- Suffix: `shim/suffix.c`: `probe_suffixes`, `__ape_shim_exe_fallback` (`exe_fallback`, with
--   its loop `chase`) and the wrappers that retry with what it finds.
-- Rlimit: `shim/rlimit.c`.
-- Packet: `shim/packet.c`, AF_PACKET on NT by two raw sockets: the table `g_pkt` with
--   `packet_socket` and `packet_bind`, and in Packet.Receive `recv_framed` and
--   `__ape_shim_packet_recv`. A socket is the list of what `recv` answers on it.
-- Poll: `shim/poll.c`: the polled phase of `host_ppoll_inner`, and `__ape_shim_host_ppoll`,
--   which asks the table of Packet for the second socket of each descriptor (Poll.Twins); its
--   `chunked` is that of Epoll.Chunked.
-- Open: `shim/open.c`. The module itself has `oflags_to_host`, `oflags_to_linux` and `at_bit`;
--   Open.Fds has `open` (`shim_open`), `openat` and `pipe2`, Open.Control `fcntl` with file
--   locks and, from `shim/procfs/core/open.c`, `fcntl` on a text that is held in memory
--   (`memfd_fcntl`); Open.Probes has the access family, `unlinkat`, `linkat`, `utimensat` and
--   `mkfifo`. The first two tell Epoll.Table and Epoll.Pairs of each new descriptor, and the
--   probes retry with what Suffix finds.
-- Open.Stats: `stat`, `lstat` and `fstatat` of the same file, which ask the links of Procfs.
-- Procfs: the path model of the process files, `comp`, `pc_parse` and `pc_phys_suffix` of
--   `shim/procfs/core/tree.c`, and in Procfs.Links the links of `shim/procfs/core/links.c`:
--   `pc_link_name`, `link_of_node`, `__ape_shim_procfs_readlinkat` on an absolute path
--   (`readlink`) and `__ape_shim_procfs_link_mode` (`link_mode`). The files behind a process are
--   the record `Processes`. Procfs.Content is `readv` and `lseek` on a text that is held in memory,
--   of `shim/procfs/core/open.c`.
-- Termios: `shim/termios.c`: the tables of the module itself, `prefix_to_host` and
--   `prefix_to_linux` in Termios.Prefix, tcgetattr and its relatives and the cf* family in
--   Termios.Calls, `__ape_shim_ioctl` in Termios.Ioctl.
-- Unc: the registry of UNC roots in `shim/mkntpath.c`: `UncRootLen`, `UncRootKnown`,
--   `__ape_shim_unc_note`, `IsCollapsedUnc`.
-- UncRest: `__normuncrest` of the same file.
-- CommandLine: `shim/mkntcmdline.c`; `quote_chars` is its loop over the characters of an
--   argument.
--
-- The parts of epoll meet in the table of sets: `emu_ctl` changes an interest list and writes the
-- waker of its set, `rearm` arms an entry and writes the waker, a write to a pipe re-arms through
-- the pair table, and `emu_wait` reads the list anew in each round.
--
-- State is passed explicitly. An array with a count is a list; a slot of `g_sets` with `used ==
-- 0` is `none`; a C `int` is its 32-bit pattern, so that a negative one is 2 ^ 31 or more; EPOLL
-- and POLL words are numbers with bitwise operations. What the source does under a lock is one
-- step, and what other threads do between two locks is an argument (`before_snapshot`,
-- `before_match`, `before_drop`). Calls of the host are arguments too: the answers of pipe,
-- fcntl, realloc, poll and the clock. System calls that change a descriptor come back as a list
-- of effects, in their order. In Open and Termios the host's constants, its tables and its calls
-- are the fields of one record (`OpenHost`, `FdHost`, `ProbeHost`, `TermHost`, `TtyHost`), and
-- what a record has to satisfy for a result is a record of its own (`IsLinux`, `IsTerm`).
--
-- The scanning thread of inotify is a function of one round, with what the file system shows in
-- that round as an argument; a call is one step between two rounds. A wait status, a signal's
-- disposition and a limit are what the host says they are, by arguments.
--
-- Loops over arrays are recursions over lists. `scan` and `forget_handles` recurse on the length
-- of what they look at, which each of their rounds makes shorter, and so does `norm_loop`. The
-- polled phase of `host_ppoll_inner` runs over a list of rounds in the same way. The loop of
-- `__ape_shim_exe_fallback` has the 16 rounds of the source as its fuel, `recv_framed` its 64,
-- and the two loops of `__ape_shim_sigwait` their 63. The `for (;;)` of `emu_wait` and the outer
-- loop of `poll_chunked` run over a list of what happens round by round, and answer `none` only
-- where that list runs out.
--
-- Not modelled: the bytes in the waker pipes; what stands before `g_pairs`, where `g_pairs_next`
-- points after 2 ^ 31 insertions; the choice between the emulations and the system calls of Linux,
-- `use_syscalls`; the nap between two rounds of `scan_thread`; the search for an adapter's
-- addresses in `shim/packet.c`; `nt_stack_slack`, which claims a guard below a thread's stack on
-- NT; `fstat` and the directory streams of `shim/open.c`; of the process files, how their texts
-- are made, the tree on disk, the tracked descriptors and relative paths;
-- `__ape_shim_console_sync` of `shim/console.c`; the rest of `shim/mkntpath.c`; the other files of
-- `shim/`; the build tool and the examples.
pub mod Prelude
pub mod Epoll
pub mod Codes
pub mod Signal
pub mod Wait
pub mod Rlimit
pub mod Suffix
pub mod Unc
pub mod UncRest
pub mod CommandLine
pub mod Inotify
pub mod Packet
pub mod Open
pub mod Procfs
pub mod Termios
pub mod Poll
