-- ===== src/Memtable/Tests.antt =====
-- The table at concrete rows: pairs of an id and a size.
use allidb.Memtable.{RowType, Memtable, rows_of, put, get, should_flush, reset, count_rows, put_all}
use allidb.Memtable.Laws.{put_all-reset, none_if_empty}
use allidb.Base.{
  Bytes, List, [], codes, insert, keep, lookup, refl, some, str_eq, true, ℕ, ◌↔◌, ◌∷◌, ◌≡◌, ◌≤◌,
}

abbrev Row : Type 0
Row = Bytes × ℕ

abbrev rt : RowType Row
rt = record { entity_id = λ r. r.0; size = λ r. r.1 }

abbrev empty : Memtable Row
empty = record { rows = []; size = 0; max_size = 100 }

abbrev rows : List Row
rows = (codes "a", 60) ∷ (codes "b", 30) ∷ (codes "a", 20) ∷ []

rows_of_a : get (put_all rt empty rows) (codes "a") ≡ some ((codes "a", 60) ∷ (codes "a", 20) ∷ [])
unfolding get put_all put rows_of insert lookup str_eq
rows_of_a = refl

put_all-reset_example :
    let t = put_all rt (reset empty) rows in
    ((id : Bytes) → get t id ≡ none_if_empty rt (keep (λ r. str_eq (rt.entity_id r) id) rows))
    × (t.size ≡ 110)
    × (count_rows t ≡ 3)
    × ((should_flush t ≡ true) ↔ (100 ≤ 110))
put_all-reset_example = put_all-reset rt empty rows
