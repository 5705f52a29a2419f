-- ===== src/Npb.antt =====
-- src/npb.hpp and src/iface.cpp: the streams that nanopb reads and writes, and the fields that it leaves to
-- callbacks.
pub mod Streams
pub mod Fields
pub mod Dispatch
mod Examples
