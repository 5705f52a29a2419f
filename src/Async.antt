-- ===== src/Async.antt =====
-- src/util/: operations that wait for one another on the event loop.
pub mod Queue
pub mod Optional
pub mod Fifo
pub mod Storage
