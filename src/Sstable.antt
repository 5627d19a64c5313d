-- ===== src/Sstable.antt =====
-- core/storage/sstable: the tables on disk. The file is the list of its bytes, and writes to it
-- succeed; CRC-32 and sort.Slice are parameters. An int64 is its bit pattern, a number below
-- 2 ^ 64, and negative from 2 ^ 63 on; a file is shorter than 2 ^ 63 bytes.
pub mod Format
pub mod Writer
pub mod Reader
pub mod Layout
pub mod Rows
pub mod Groups
pub mod Table
pub mod Open
pub mod Search
pub mod RowsAt
pub mod GroupAt
pub mod ReadBack
pub mod Integrity
pub mod Fuel
mod Tests
