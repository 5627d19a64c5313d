-- ===== src/Service/Scan.antt =====
-- cmd/allidbd/storage_service.go: RangeScan, over the same table in memory and tables on disk.
pub mod Within
use allidb.Memtable
use allidb.Memtable.{Memtable}
use allidb.Entity.Unified
use allidb.Entity.Unified.{UnifiedEntity}
use allidb.Sstable.Reader
use allidb.Sstable.Reader.{Reader, new_reader, get_all_entity_ids}
use allidb.Service.{StorageService, last_of}
use allidb.Base.{
  Bool, Bytes, List, Map, Option, [], err, false, has_key, if◌then◌else◌, insert, none, ok, some,
  str_eq, str_lt, true, ℕ, ◌∷◌,
}

-- key < end; an empty bound is none.
unfoldable pub below_end : Bytes → Bytes → Bool
below_end key [] = true
below_end key (c ∷ cs) = str_lt key (c ∷ cs)

unfoldable pub in_range : Bytes → Bytes → Bytes → Bool
unfolding below_end
in_range key start end = if str_lt key start then false else below_end key end

-- An empty tenant allows every entity.
unfoldable pub allowed : Bytes → UnifiedEntity → Bool
allowed [] ent = true
allowed (c ∷ cs) ent = str_eq ent.tenant_id (c ∷ cs)

unfoldable pub add_found :
    Bytes → Bytes → Option UnifiedEntity → Map UnifiedEntity → Map UnifiedEntity
unfolding allowed
add_found tenant key none found = found
add_found tenant key (some ent) found = if allowed tenant ent then insert key ent found else found

-- The last row of an entity in memory.
unfoldable pub row_in_memory : Memtable UnifiedEntity → Bytes → Option UnifiedEntity
row_in_memory t id = elim (Memtable.get t id) [ none ↦ none | some rows ↦ last_of rows ]

-- The last row of an entity in one table, where it can be read.
unfoldable pub row_on_disk : (Bytes → ℕ) → Reader → Bytes → Option UnifiedEntity
row_on_disk checksum r id = elim (Reader.get checksum r id) [
  | err e ↦ none
  | ok rows ↦ elim (last_of rows) [
    | none ↦ none
    | some row ↦ elim (Unified.from_bytes row.contents) [ err e ↦ none | ok ent ↦ some ent ]
  ]
]

module _ (start end tenant : Bytes) where
  unfoldable pub scan_memtable :
      Memtable UnifiedEntity → List Bytes → Map UnifiedEntity → Map UnifiedEntity
  unfolding in_range add_found row_in_memory
  scan_memtable t [] found = found
  scan_memtable t (id ∷ ids) found =
      scan_memtable t ids
        (if in_range id start end then add_found tenant id (row_in_memory t id) found else found)

  module _ (checksum : Bytes → ℕ) where
    -- An id that is there already, from a newer table, is passed over.
    unfoldable pub scan_ids : Reader → List Bytes → Map UnifiedEntity → Map UnifiedEntity
    unfolding in_range add_found row_on_disk has_key
    scan_ids r [] found = found
    scan_ids r (id ∷ ids) found = scan_ids r ids (
        if in_range id start end
        then (if has_key id found
            then found
            else add_found tenant id (row_on_disk checksum r id) found)
        else found)

    unfoldable pub scan_files : List Bytes → Map UnifiedEntity → Map UnifiedEntity
    unfolding scan_ids
    scan_files [] found = found
    scan_files (bytes ∷ files) found =
        scan_files files (elim (new_reader bytes) [
          | err e ↦ found
          | ok r ↦ scan_ids r (get_all_entity_ids r) found
        ])

    unfoldable pub range_scan : {Wal : Type 0} → StorageService Wal → Map UnifiedEntity
    unfolding scan_memtable scan_files
    range_scan s =
        scan_files s.tables (scan_memtable s.memtable (Memtable.get_all_entities s.memtable) [])
