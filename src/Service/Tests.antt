-- ===== src/Service/Tests.antt =====
-- Reads of a service with one entity in memory.
use allidb.Entity.Unified.{UnifiedEntity}
use allidb.Tenant.{require_tenant, Context, default_tenant_guard}
use allidb.Service.{StorageService, get_entity}
use allidb.Entity.Unified
use allidb.Memtable
use allidb.Base.{
  Bytes, List, Option, [], codes, err, length, lookup, none, ok, refl, some, str_eq, ℕ, ◌%◌, ◌^◌,
  ◌∷◌, ◌≡◌,
}

-- Numbers below 2 ^ 32.
abbrev checksum : Bytes → ℕ
checksum b = length b % 2 ^ 32

abbrev e_id : Bytes
e_id = codes "e"

abbrev request : Context
request = some (codes "t")

abbrev entity_at : ℕ → UnifiedEntity
entity_at now = record {
  entity_id = e_id;
  tenant_id = codes "t";
  entity_type = [];
  embeddings = [];
  incoming_edges = [];
  outgoing_edges = [];
  chunks = [];
  importance = 0;
  created_at = 7;
  updated_at = now;
}

abbrev holding : UnifiedEntity → List Bytes → StorageService (List Bytes)
holding ent tables = record {
  wal = [];
  memtable = record { rows = (e_id, ent ∷ []) ∷ []; size = 2; max_size = 100 };
  tenant_guard = default_tenant_guard;
  tables = tables;
}

foreign_read : get_entity checksum (holding (entity_at 8) []) (some (codes "u")) e_id ≡ ok none
unfolding get_entity require_tenant Memtable.get Memtable.rows_of lookup str_eq
foreign_read = refl

abbrev append : List Bytes → Bytes → Option (List Bytes)
append wal entry = some (entry ∷ wal)

abbrev encoded : Bytes
encoded = elim (Unified.to_bytes (entity_at 9)) [ ok bytes ↦ bytes | err e ↦ [] ]
