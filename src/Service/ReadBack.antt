-- ===== src/Service/ReadBack.antt =====
-- What PutEntity stores, GetEntity finds.
use allidb.Memtable
use allidb.Memtable.{Memtable}
use allidb.Entity.Unified
use allidb.Entity.Unified.{UnifiedEntity}
use allidb.Sstable.Format.{IndexEntry}
use allidb.Sstable.Reader.{int64_lt}
use allidb.Service.{StorageService, entity_row, latest_from_sstables}
use allidb.Base.{Bytes, List, Option, if◌then◌else◌, some, ℕ}

module _ {Wal : Type 0} (checksum : Bytes → ℕ) (sort_index : List IndexEntry → List IndexEntry)
    (sort_ids : List Bytes → List Bytes) (append : Wal → Bytes → Option Wal) where
  abbrev stored : StorageService Wal → UnifiedEntity → Wal → StorageService Wal
  stored s ent wal = record s { wal = wal; memtable = Memtable.put entity_row s.memtable ent }

  -- An entity, or what the tables on disk have at a later time.
  abbrev newest : StorageService Wal → UnifiedEntity → Option UnifiedEntity
  newest s ent =
      let sst = latest_from_sstables checksum s.tables ent.entity_id ent.tenant_id in
      if int64_lt ent.updated_at sst.1 then sst.0 else some ent
