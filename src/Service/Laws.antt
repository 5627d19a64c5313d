-- ===== src/Service/Laws.antt =====
-- A read of the storage service gives only entities of the request's tenant.
use allidb.Memtable
use allidb.Memtable.{Memtable}
use allidb.Entity.Unified
use allidb.Entity.Unified.{UnifiedEntity}
use allidb.Sstable.Reader
use allidb.Base.{Bytes, Option, none, some, ℕ, ◌≡◌}

-- An entity, if there is one, is the tenant's; with it stands its time.
abbrev pub OwnedBy : Bytes → Option UnifiedEntity → Type 0
OwnedBy tenant none = Unit {0}
OwnedBy tenant (some ent) = ent.tenant_id ≡ tenant

abbrev pub RowOwnedBy : Bytes → Option (UnifiedEntity × ℕ) → Type 0
RowOwnedBy tenant none = Unit {0}
RowOwnedBy tenant (some (ent, ts)) = ent.tenant_id ≡ tenant
