-- ===== src/Wire.antt =====
-- What travels between src/server.cpp and src/client.cpp: messages as COBS frames, each ended by a 0.
pub mod Send
pub mod Receiver
pub mod Link
mod Examples
