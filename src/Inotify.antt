-- ===== src/Inotify.antt =====
-- The emulation of inotify in shim/inotify.c, for hosts without inotify.
pub mod Channel
pub mod Diff
pub mod Watches
pub mod Calls
mod Tests
