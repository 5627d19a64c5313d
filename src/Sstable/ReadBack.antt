-- ===== src/Sstable/ReadBack.antt =====
-- A table gives back the rows that were written to it.
use allidb.Sstable.Format.{Row, IndexEntry, row_size}
use allidb.Sstable.Reader.{Reader, read_rows, entry_from, end_offset, get}
use allidb.Sstable.Rows.{FitsRow, summed}
use allidb.Sstable.Groups.{
  Group, flatten, sizes, entries, Ascending, IsGroup, rows_layout, later_differ, length-rows_layout,
}
use allidb.Sstable.Table.{table_layout}
use allidb.Sstable.Open.{FitsNames, table_reader}
use allidb.Sstable.Search.{entry_at, search-found, Absent, entry-differs, locate}
use allidb.Sstable.RowsAt.{rows-few, read_rows-At}
use allidb.Sstable.GroupAt.{flatten-append, group-At, All-mid, flatten-All}
use allidb.Base.{
  All, Bool-cases, Bytes, List, Option-cases, [], ap, append-nil, arith, false, get_elem?, inl, inr,
  keep, keep-append, length, length-append, map, none, ok, refl, search, some, str_eq, str_eq_iff,
  str_eq_refl, str_lt, str_lt_irrefl, suc, sum_of-append, true, ℕ, ◌++◌, ◌+◌, ◌<◌, ◌^◌, ◌∙◌, ◌∷◌,
  ◌≡◌,
}

-- The rows of an entity.
abbrev pub of_entity : Bytes → List Row → List Row
of_entity id rs = keep (λ r. str_eq r.entity_id id) rs

-- What a table needs: its entities in ascending order with their rows, and what fits.
pub record IsTable (checksum : Bytes → ℕ) (gs : List Group) : Type 0 where
  pub ascending : Ascending gs
  pub groups : All IsGroup gs
  pub names : FitsNames gs
  pub rows : All FitsRow (flatten gs)
  pub small : length (table_layout checksum gs) < 2 ^ 63

-- In ascending order, names differ.
differ_below : (a b : Bytes) → str_lt a b ≡ true → str_eq a b ≡ false
differ_below a b h = elim (Bool-cases (str_eq a b)) [
  | inr e ↦ e
  | inl e ↦ absurd (ground (arith, (str_eq_iff a b).0 e, h, str_lt_irrefl a))
]

module _ (checksum : Bytes → ℕ) (sums : (b : Bytes) → checksum b < 2 ^ 32) where
  get-hit :
      (r : Reader) (id : Bytes) (e : IndexEntry) (end : ℕ)
      → get_elem? r.index (search (length r.index) (entry_from r.index id)) ≡ some e
      → end_offset r (search (length r.index) (entry_from r.index id)) ≡ end
      → str_eq e.entity_id id ≡ true
      → get checksum r id ≡ read_rows checksum (suc (length r.bytes)) r.bytes id e.offset end
  unfolding get
  get-hit r id e end at stop same =
      rw (at, same, get) (ap (read_rows checksum (suc (length r.bytes)) r.bytes id e.offset) stop)

  get-miss :
      (r : Reader) (id : Bytes)
      → ((e : IndexEntry)
          → get_elem? r.index (search (length r.index) (entry_from r.index id)) ≡ some e
          → str_eq e.entity_id id ≡ false)
      → get checksum r id ≡ ok []
  unfolding get
  get-miss r id miss =
      let i = search (length r.index) (entry_from r.index id) in
      elim (Option-cases (get_elem? r.index i)) [
        | inl none_there ↦ rw (none_there, get) refl
        | inr (e, there) ↦ rw (there, miss e there, get) refl
      ]

  end_offset-some :
      (r : Reader) (i : ℕ) (e : IndexEntry)
      → get_elem? r.index (i + 1) ≡ some e
      → end_offset r i ≡ e.offset
  unfolding end_offset
  end_offset-some r i e at = rw (at, end_offset) refl

  end_offset-none :
      (r : Reader) (i : ℕ)
      → get_elem? r.index (i + 1) ≡ none
      → end_offset r i ≡ r.footer.index_offset
  unfolding end_offset
  end_offset-none r i at = rw (at, end_offset) refl

  end_offset-next :
      (gs hs : List Group) (id : Bytes) (rows : List Row)
      → end_offset (table_reader checksum (gs ++ (id, rows) ∷ hs)) (length gs)
        ≡ 16 + sizes (flatten gs) + sizes rows
  end_offset-next gs [] id rows =
      end_offset-none (table_reader checksum (gs ++ (id, rows) ∷ [])) (length gs)
        (entry_at gs [] (id, rows) 1)
      ∙ rw (flatten-append gs ((id, rows) ∷ []), append-nil rows)
          (omega (arith, sum_of-append row_size (flatten gs) rows))
  end_offset-next gs (h ∷ hs) id rows =
      end_offset-some (table_reader checksum (gs ++ (id, rows) ∷ h ∷ hs)) (length gs)
        (record { entity_id = h.0; offset = 16 + sizes (flatten gs) + sizes rows })
        (entry_at gs (h ∷ hs) (id, rows) 1)

  get-present :
      (gs hs : List Group) (id : Bytes) (rows : List Row)
      → IsTable checksum (gs ++ (id, rows) ∷ hs)
      → get checksum (table_reader checksum (gs ++ (id, rows) ∷ hs)) id
        ≡ ok (map (summed checksum) rows)
  get-present gs hs id rows t =
      let all : List Group = gs ++ (id, rows) ∷ hs in
      let bytes = table_layout checksum all in
      let found = search-found gs hs (id, rows) t.ascending in
      let here : length gs ≡ length gs + 0 = omega arith in
      let e : IndexEntry = record { entity_id = id; offset = 16 + sizes (flatten gs) } in
      let (rest, a) = group-At checksum gs hs id rows in
      let mine = All-mid IsGroup gs hs (id, rows) t.groups in
      get-hit (table_reader checksum all) id e (16 + sizes (flatten gs) + sizes rows)
        (ap (get_elem? (entries all 16)) (found ∙ here) ∙ entry_at gs hs (id, rows) 0)
        (ap (end_offset (table_reader checksum all)) found ∙ end_offset-next gs hs id rows)
        (str_eq_refl id)
      ∙ read_rows-At checksum sums rows (suc (length bytes)) bytes rest id (16 + sizes (flatten gs))
          (16 + sizes (flatten gs) + sizes rows) (flatten-All FitsRow gs hs (id, rows) t.rows)
          mine.2
          (omega (
            arith,
            a.size,
            rows-few rows,
            length-append (rows_layout checksum rows) rest,
            length-rows_layout checksum rows,
          ))
          t.small refl a

  get-Absent :
      (gs : List Group) (id : Bytes)
      → Absent id gs
      → get checksum (table_reader checksum gs) id ≡ ok []
  get-Absent gs id absent = get-miss (table_reader checksum gs) id (λ e at.
      entry-differs gs id (search (length (entries gs 16)) (entry_from (entries gs 16) id)) e absent
        at)

  of_entity-own :
      (id : Bytes) (rows : List Row) → All (λ r. r.entity_id ≡ id) rows → of_entity id rows ≡ rows
  of_entity-own id [] own = refl
  of_entity-own id (r ∷ rows) own =
      rw ((str_eq_iff r.entity_id id).1 own.0) (ap (λ l. r ∷ l) (of_entity-own id rows own.1))

  of_entity-other :
      (id name : Bytes) (rows : List Row)
      → All (λ r. r.entity_id ≡ name) rows
      → str_eq name id ≡ false
      → of_entity id rows ≡ []
  of_entity-other id name [] own differs = refl
  of_entity-other id name (r ∷ rows) own differs =
      rw (ap (λ n. str_eq n id) own.0 ∙ differs) (of_entity-other id name rows own.1 differs)

  of_entity-Absent :
      (id : Bytes) (gs : List Group)
      → All IsGroup gs
      → Absent id gs
      → of_entity id (flatten gs) ≡ []
  of_entity-Absent id [] ok_gs absent = refl
  of_entity-Absent id ((name, rows) ∷ gs) ok_gs absent =
      keep-append (λ r. str_eq r.entity_id id) rows (flatten gs)
      ∙ rw
          (of_entity-other id name rows ok_gs.0.2 absent.0, of_entity-Absent id gs ok_gs.1 absent.1)
          refl

  -- Among ascending groups, all others have another name.
  of_entity-group :
      (gs hs : List Group) (id : Bytes) (rows : List Row)
      → Ascending (gs ++ (id, rows) ∷ hs)
      → All IsGroup (gs ++ (id, rows) ∷ hs)
      → of_entity id (flatten (gs ++ (id, rows) ∷ hs)) ≡ rows
  of_entity-group [] hs id rows up ok_gs =
      keep-append (λ r. str_eq r.entity_id id) rows (flatten hs)
      ∙ rw
          (
            of_entity-own id rows ok_gs.0.2,
            of_entity-Absent id hs ok_gs.1 (later_differ checksum id hs up.0),
          )
          (append-nil rows)
  of_entity-group ((name, rs) ∷ gs) hs id rows up ok_gs =
      let below = All-mid (λ g. str_lt name g.0 ≡ true) gs hs (id, rows) up.0 in
      keep-append (λ r. str_eq r.entity_id id) rs (flatten (gs ++ (id, rows) ∷ hs))
      ∙ rw
          (
            of_entity-other id name rs ok_gs.0.2 (differ_below name id below),
            of_entity-group gs hs id rows up.1 ok_gs.1,
          )
          refl

  pub get-of_entity :
      (gs : List Group) (id : Bytes)
      → IsTable checksum gs
      → get checksum (table_reader checksum gs) id
        ≡ ok (map (summed checksum) (of_entity id (flatten gs)))
  get-of_entity gs id t = elim (locate id gs) [
    | inl (pre, rows, post, e) ↦
        let t' : IsTable checksum (pre ++ (id, rows) ∷ post) = rw e at t in
        rw (e, of_entity-group pre post id rows t'.ascending t'.groups)
          (get-present pre post id rows t')
    | inr absent ↦ rw (of_entity-Absent id gs t.groups absent) (get-Absent gs id absent)
  ]
