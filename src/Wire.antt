-- ===== src/Wire.antt =====
-- The byte layer under the encodings of core/entity, core/storage/sstable and core/storage/wal:
-- encoding/binary's little-endian numbers, writes into a buffer of a fixed size, and reads that
-- check what is left. An int64 is its bit pattern, a number below 2 ^ 64.
pub mod Numbers
pub mod Buffer
pub mod Cursor
pub mod Text
