-- ===== src/Fs.antt =====
-- src/fs.hpp: file-system operations on the event loop, and the recursive removal of a directory.
pub mod Ops
pub mod Disk
pub mod RmRf
pub mod Iter
