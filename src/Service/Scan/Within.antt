-- ===== src/Service/Scan/Within.antt =====
-- What RangeScan finds lies in the range and belongs to the tenant.
use allidb.Memtable
use allidb.Memtable.{Memtable}
use allidb.Entity.Unified.{UnifiedEntity}
use allidb.Sstable.Reader.{Reader}
use allidb.Service.Scan.{in_range, allowed}
use allidb.Base.{Bytes, Map, lookup, some, true, ◌≡◌}

module _ (start end tenant : Bytes) where
  -- Each entry of a result.
  abbrev IsWithin : Map UnifiedEntity → Type 0
  IsWithin found =
      (key : Bytes) (ent : UnifiedEntity)
      → lookup key found ≡ some ent
      → (in_range key start end ≡ true) × (allowed tenant ent ≡ true)
