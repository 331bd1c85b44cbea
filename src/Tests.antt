-- ===== src/Tests.antt =====
-- The theorems at concrete inputs, one file for each part of the program.
mod Chunks
mod Indexes
mod Headers
mod Seeking
mod Packets
mod Sidebands
