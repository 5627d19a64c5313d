-- ===== src/Sstable/Tests.antt =====
-- Tables of two entities. The checksum of bytes is their number here.
use allidb.Sstable.Format.{Row, IndexEntry, row_size, index_entry_size}
use allidb.Sstable.Reader.{merge_row_count, merge_entity_count, Reader, get, entity_count}
use allidb.Sstable.Layout.{row_head}
use allidb.Sstable.Rows.{summed}
use allidb.Sstable.Groups.{Group, Ascending, IsGroup}
use allidb.Sstable.Table.{table_layout}
use allidb.Sstable.Open.{table_reader, table-Lies}
use allidb.Sstable.ReadBack.{IsTable, get-of_entity}
use allidb.Sstable.Integrity.{get-IsOwn}
use allidb.Base.{
  All, Bytes, List, [], arith, codes, if◌then◌else◌, length, map, ok, refl, str_eq, str_lt, ℕ, ◌%◌,
  ◌<◌, ◌^◌, ◌∷◌, ◌≡◌,
}

-- Numbers below 2 ^ 32.
abbrev checksum : Bytes → ℕ
checksum b = length b % 2 ^ 32

checksum_small : (b : Bytes) → checksum b < 2 ^ 32
checksum_small b = omega arith

abbrev insert_entry : IndexEntry → List IndexEntry → List IndexEntry
insert_entry e [] = e ∷ []
insert_entry e (f ∷ es) =
    let later = insert_entry e es in
    if str_lt f.entity_id e.entity_id then f ∷ later else e ∷ f ∷ es

abbrev sorted : List IndexEntry → List IndexEntry
sorted [] = []
sorted (e ∷ es) = insert_entry e (sorted es)

abbrev row : Bytes → Bytes → Row
row id contents = record { row_type = 0; entity_id = id; contents = contents; crc32 = 0 }

abbrev groups : List Group
groups =
    (codes "a", row (codes "a") (codes "one") ∷ row (codes "a") (codes "two") ∷ [])
    ∷ (codes "b", row (codes "b") (codes "six") ∷ [])
    ∷ []

groups-Ascending : Ascending groups
unfolding str_lt
groups-Ascending = ((refl, tt), (tt, tt))

groups-IsGroup : All IsGroup groups
groups-IsGroup =
    let two : IsGroup
        (codes "a", row (codes "a") (codes "one") ∷ row (codes "a") (codes "two") ∷ []) =
      (omega arith, omega arith, (refl, (refl, tt))) in
    let one : IsGroup (codes "b", row (codes "b") (codes "six") ∷ []) =
      (omega arith, omega arith, (refl, tt)) in
    (two, (one, tt))

groups_small : length (table_layout checksum groups) < 2 ^ 63
unfolding row_size index_entry_size
groups_small = omega (arith, (table-Lies checksum groups).total)

groups-IsTable : IsTable checksum groups
groups-IsTable = record {
  ascending = groups-Ascending;
  groups = groups-IsGroup;
  names = omega arith;
  rows = omega arith;
  small = groups_small;
}

abbrev reader : Reader
reader = table_reader checksum groups

read_back :
    get checksum reader (codes "a")
    ≡ ok
        (map (summed checksum) (row (codes "a") (codes "one") ∷ row (codes "a") (codes "two") ∷ []))
unfolding str_eq
read_back = get-of_entity checksum checksum_small groups (codes "a") groups-IsTable

get-IsOwn_example :
    All
      (λ row. (row.entity_id ≡ codes "a") × (checksum (row_head row) ≡ row.crc32))
      (map (summed checksum) (row (codes "a") (codes "one") ∷ row (codes "a") (codes "two") ∷ []))
get-IsOwn_example = get-IsOwn checksum reader (codes "a") read_back

two_entities : entity_count reader ≡ 2
unfolding entity_count
two_entities = refl

two_tables :
    (merge_row_count (reader ∷ reader ∷ []) ≡ 6) × (merge_entity_count (reader ∷ reader ∷ []) ≡ 2)
unfolding merge_row_count merge_entity_count str_eq
two_tables = (refl, refl)
