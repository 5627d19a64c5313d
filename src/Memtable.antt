-- ===== src/Memtable.antt =====
-- core/storage/memtable/memtable.go: the in-memory table. A row is any type with an entity id and a
-- size, as the interface Row has it. Each write publishes a new copy of the data by one atomic
-- store and holds the write lock meanwhile, so that a reader sees the table after some whole
-- number of writes: the model's operations are those writes and reads. Sizes do not overflow.
pub mod Laws
mod Tests
use allidb.Base.{
  Bool, Bytes, List, Map, Option, [], insert, leb, length, lookup, map, none, or_default, some,
  sum_of, ℕ, ℤ, ◌*◌, ◌++◌, ◌+◌, ◌∷◌,
}

pub record RowType (Row : Type 0) : Type 0 where
  pub entity_id : Row → Bytes
  pub size : Row → ℕ

pub record Memtable (Row : Type 0) : Type 0 where
  pub rows : Map (List Row)
  pub size : ℕ
  pub max_size : ℕ

-- The rows of an id, with none for an id that is not there.
unfoldable pub rows_of : {Row : Type 0} → Map (List Row) → Bytes → List Row
rows_of m id = elim (lookup id m) [ none ↦ [] | some rows ↦ rows ]

module _ {Row : Type 0} where
  unfoldable pub new : ℤ → Memtable Row
  unfolding or_default
  new max_size = record { rows = []; size = 0; max_size = or_default max_size (64 * 1024 * 1024) }

  unfoldable pub put : RowType Row → Memtable Row → Row → Memtable Row
  put rt t row = record t {
    rows = insert (rt.entity_id row) (rows_of t.rows (rt.entity_id row) ++ row ∷ []) t.rows;
    size = t.size + rt.size row;
  }

  -- nil where there are no rows
  unfoldable pub get : Memtable Row → Bytes → Option (List Row)
  get t id = elim (rows_of t.rows id) [ [] ↦ none | r ∷ rs ↦ some (r ∷ rs) ]

  unfoldable pub should_flush : Memtable Row → Bool
  should_flush t = leb t.max_size t.size

  unfoldable pub reset : Memtable Row → Memtable Row
  reset t = record t { rows = []; size = 0 }

  unfoldable pub count_rows : Memtable Row → ℕ
  count_rows t = sum_of (λ e. length e.1) t.rows

  unfoldable pub entity_count : Memtable Row → ℕ
  entity_count t = length t.rows

  unfoldable pub get_all_entities : Memtable Row → List Bytes
  get_all_entities t = map (λ e. e.0) t.rows

  unfoldable pub get_all_data : Memtable Row → Map (List Row)
  get_all_data t = t.rows

  unfoldable pub put_all : RowType Row → Memtable Row → List Row → Memtable Row
  put_all rt t [] = t
  put_all rt t (row ∷ rows) = put_all rt (put rt t row) rows
