-- ===== src/Epoll.antt =====
-- The epoll emulation of shim/epoll.c, for hosts without epoll.
pub mod Interest
pub mod Arming
pub mod Table
pub mod Rearm
pub mod Pairs
pub mod Chunked
pub mod Wait
mod Tests
mod WaitTests
