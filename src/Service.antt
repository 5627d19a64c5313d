-- ===== src/Service.antt =====
-- cmd/allidbd/storage_service.go: reads and writes of entities over the guard, the log, the table
-- in memory and the tables on disk. The log is any state with an append that may fail; the files
-- are their bytes, newest first, all readable, and can be created.
pub mod Laws
pub mod Scan
pub mod ReadBack
mod Tests
use allidb.Wire.Numbers.{le_value}
use allidb.Wire.Buffer.{Panic}
use allidb.Memtable
use allidb.Memtable.{RowType, Memtable}
use allidb.Entity.Unified
use allidb.Entity.Unified.{UnifiedEntity, EntityError}
use allidb.Tenant.{
  Context, TenantGuard, Violation, Outcome, returned, failed, panicked, with_tenant, require_tenant,
  validate_entity_tenant,
}
use allidb.Sstable.Format.{Row, IndexEntry}
use allidb.Sstable.Writer.{write_table}
use allidb.Sstable.Reader
use allidb.Sstable.Reader.{Reader, ReaderError, int64_lt, new_reader}
use allidb.Base.{
  Bytes, List, Option, Result, [], err, fail_if, if◌then◌else◌, length, ltb, none, not, ok, some,
  str_eq, sum_of, take, ℕ, ◌*◌, ◌++◌, ◌+◌, ◌==◌, ◌>>=◌, ◌>>◌, ◌∷◌,
}

-- EntityRow.Size
unfoldable pub entity_size : UnifiedEntity → ℕ
entity_size e =
    length e.entity_id
    + length e.tenant_id
    + sum_of (λ v. length v.vector * 4) e.embeddings
    + length e.incoming_edges * 100
    + length e.outgoing_edges * 100
    + sum_of (λ c. length c.text + 50) e.chunks

unfoldable pub entity_row : RowType UnifiedEntity
unfolding entity_size
entity_row = record { entity_id = λ e. e.entity_id; size = entity_size }

pub record StorageService (Wal : Type 0) : Type 0 where
  pub wal : Wal
  pub memtable : Memtable UnifiedEntity
  pub tenant_guard : TenantGuard
  pub tables : List Bytes

pub data ServiceError : Type 0 where
  tenant_error tenant_panic : Violation → ServiceError
  wal_failed write_panicked invalid_key tenant_mismatch : ServiceError
  bad_entity : EntityError → ServiceError

abbrev pub guarded : {A : Type 0} → Outcome A → Result ServiceError A
guarded (returned a) = ok a
guarded (failed v) = err (tenant_error v)
guarded (panicked v) = err (tenant_panic v)

abbrev pub written : {A : Type 0} → Result Panic A → Result ServiceError A
written (ok a) = ok a
written (err p) = err write_panicked

-- extractRowTimestamp
unfoldable pub row_timestamp : Bytes → ℕ
row_timestamp bytes = if ltb (length bytes) 8 then 0 else le_value (take 8 bytes)

abbrev pub last_of {ℓ} : {A : Type ℓ} → List A → Option A
last_of [] = none
last_of (x ∷ []) = some x
last_of (x ∷ y ∷ ys) = last_of (y ∷ ys)

-- What one table says: the last row of the entity, if it can be read and is the tenant's.
unfoldable pub row_of_tenant : Bytes → List Row → Option (UnifiedEntity × ℕ)
unfolding row_timestamp
row_of_tenant tenant rows = elim (last_of rows) [
  | none ↦ none
  | some row ↦ elim (Unified.from_bytes row.contents) [
    | err e ↦ none
    | ok ent ↦ if str_eq ent.tenant_id tenant then some (ent, row_timestamp row.contents) else none
  ]
]

-- if ts >= bestTS { bestTS = ts; bestEnt = ent }
unfoldable pub better :
    Option (UnifiedEntity × ℕ) → Option UnifiedEntity × ℕ → Option UnifiedEntity × ℕ
better none best = best
better (some (ent, ts)) best = if int64_lt ts best.1 then best else (some ent, ts)

-- extractEntityTimestamp is the time of the last update.
unfoldable pub latest_from_memtable :
    Memtable UnifiedEntity → Bytes → Bytes → Option UnifiedEntity × ℕ
latest_from_memtable t id tenant = elim (Memtable.get t id) [
  | none ↦ (none, 0)
  | some rows ↦ elim (last_of rows) [
    | none ↦ (none, 0)
    | some ent ↦ if str_eq ent.tenant_id tenant then (some ent, ent.updated_at) else (none, 0)
  ]
]

-- if memEnt != nil && memTS >= sstTS { return memEnt }, and the one of the tables otherwise
unfoldable pub choose : Option UnifiedEntity × ℕ → Option UnifiedEntity × ℕ → Option UnifiedEntity
choose (none, mem_ts) (sst, sst_ts) = sst
choose (some ent, mem_ts) (sst, sst_ts) = if int64_lt mem_ts sst_ts then sst else some ent

module _ (checksum : Bytes → ℕ) where
  unfoldable pub table_row : Bytes → Bytes → Bytes → Option (UnifiedEntity × ℕ)
  unfolding row_of_tenant
  table_row id tenant bytes = elim (new_reader bytes) [
    | err e ↦ none
    | ok r ↦ elim (Reader.get checksum r id) [ err e ↦ none | ok rows ↦ row_of_tenant tenant rows ]
  ]

  unfoldable pub scan_tables :
      Bytes → Bytes → List Bytes → Option UnifiedEntity × ℕ → Option UnifiedEntity × ℕ
  unfolding table_row better
  scan_tables id tenant [] best = best
  scan_tables id tenant (bytes ∷ tables) best =
      scan_tables id tenant tables (better (table_row id tenant bytes) best)

  unfoldable pub latest_from_sstables : List Bytes → Bytes → Bytes → Option UnifiedEntity × ℕ
  unfolding scan_tables
  latest_from_sstables tables id tenant = scan_tables id tenant tables (none, 0)

  unfoldable pub get_entity :
      {Wal : Type 0}
      → StorageService Wal
      → Context
      → Bytes
      → Result ServiceError (Option UnifiedEntity)
  unfolding latest_from_memtable latest_from_sstables choose
  get_entity s ctx id = do
    tenant ← guarded (require_tenant s.tenant_guard ctx)
    ok (
        choose (latest_from_memtable s.memtable id tenant)
          (latest_from_sstables s.tables id tenant))

-- The rows of one entity, each with the entity's bytes.
unfoldable pub rows_for : Bytes → List UnifiedEntity → Result Panic (List Row)
rows_for id [] = ok []
rows_for id (ent ∷ ents) = do
  bytes ← Unified.to_bytes ent
  rows ← rows_for id ents
  ok (record { row_type = 4; entity_id = id; contents = bytes; crc32 = 0 } ∷ rows)

unfoldable pub all_rows : List Bytes → Memtable UnifiedEntity → Result Panic (List Row)
unfolding rows_for
all_rows [] t = ok []
all_rows (id ∷ ids) t = do
  rows ← rows_for id (Memtable.rows_of t.rows id)
  more ← all_rows ids t
  ok (rows ++ more)

module _ {Wal : Type 0} (checksum : Bytes → ℕ) (sort_index : List IndexEntry → List IndexEntry)
    (sort_ids : List Bytes → List Bytes) (append : Wal → Bytes → Option Wal) where
  unfoldable pub flush_memtable : StorageService Wal → Result ServiceError (StorageService Wal)
  unfolding all_rows
  flush_memtable s =
      if Memtable.entity_count s.memtable == 0
      then ok (record s { memtable = Memtable.reset s.memtable })
      else do
        rows ← written (all_rows (sort_ids (Memtable.get_all_entities s.memtable)) s.memtable)
        bytes ← written (write_table checksum sort_index rows)
        ok (record s { memtable = Memtable.reset s.memtable; tables = bytes ∷ s.tables })

  -- The part of PutEntity behind the guard and the log.
  unfoldable pub store_entity :
      StorageService Wal → UnifiedEntity → Result ServiceError (StorageService Wal)
  unfolding entity_row flush_memtable
  store_entity s ent =
      let s' = record s { memtable = Memtable.put entity_row s.memtable ent } in
      if Memtable.should_flush s'.memtable then flush_memtable s' else ok s'

  unfoldable pub put_entity :
      StorageService Wal → Context → UnifiedEntity → Result ServiceError (StorageService Wal)
  unfolding store_entity
  put_entity s ctx ent = do
    tenant ← guarded (require_tenant s.tenant_guard ctx)
    u ← guarded (validate_entity_tenant s.tenant_guard ctx ent.tenant_id)
    bytes ← written (Unified.to_bytes ent)
    elim (append s.wal bytes) [
      | none ↦ err wal_failed
      | some wal ↦ store_entity (record s { wal = wal }) ent
    ]

-- strings.SplitN(key, ":", 2), where there is a colon
unfoldable pub split_key : Bytes → Option (Bytes × Bytes)
split_key [] = none
split_key (c ∷ cs) =
    if c == 58
    then some ([], cs)
    else elim (split_key cs) [ none ↦ none | some (tenant, id) ↦ some (c ∷ tenant, id) ]

-- The tenant of a replica's call: the argument if it is given, which has to be the key's.
unfoldable pub replica_tenant : Bytes → Bytes → Result ServiceError Bytes
replica_tenant prefix [] = ok prefix
replica_tenant prefix (c ∷ cs) = if str_eq prefix (c ∷ cs) then ok (c ∷ cs) else err tenant_mismatch

unfoldable pub replica_read :
    {Wal : Type 0}
    → (Bytes → ℕ)
    → StorageService Wal
    → Context
    → Bytes
    → Bytes
    → Result ServiceError (Option Bytes)
unfolding split_key replica_tenant get_entity
replica_read checksum s ctx key tenant = elim (split_key key) [
  | none ↦ err invalid_key
  | some (prefix, id) ↦ do
    tenant' ← replica_tenant prefix tenant
    found ← get_entity checksum s (with_tenant tenant' ctx) id
    elim found [
      | none ↦ ok none
      | some ent ↦ written (Unified.to_bytes ent) >>= λ bytes. ok (some bytes)
    ]
]

abbrev pub decoded : Result EntityError UnifiedEntity → Result ServiceError UnifiedEntity
decoded (ok ent) = ok ent
decoded (err e) = err (bad_entity e)

unfoldable pub replica_write :
    {Wal : Type 0}
    → StorageService Wal
    → Bytes
    → Bytes
    → Bytes
    → Result ServiceError (StorageService Wal)
unfolding split_key replica_tenant entity_row
replica_write s key tenant value = elim (split_key key) [
  | none ↦ err invalid_key
  | some (prefix, id) ↦ do
    tenant' ← replica_tenant prefix tenant
    ent ← decoded (Unified.from_bytes value)
    fail_if (not (str_eq ent.tenant_id prefix)) tenant_mismatch
    ok (record s { memtable = Memtable.put entity_row s.memtable ent })
]
