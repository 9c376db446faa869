-- ===== src/Io.antt =====
-- The I/O layer: src/core/io.c.
pub mod Calls
pub mod Pull
pub mod Push
pub mod Queues
pub mod Fds
pub mod Pause
pub mod Poll
