-- ===== src/Sstable/Fuel.antt =====
-- Opening a table and reading an entity come to an end, whatever the bytes are.
use allidb.Sstable.Reader.{Reader}
