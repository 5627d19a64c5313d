-- ===== src/Memtable/Laws.antt =====
-- The table against the list of the rows that were put since it was empty.
use allidb.Memtable.{
  RowType, Memtable, rows_of, new, put, get, should_flush, reset, count_rows, put_all,
}
use allidb.Base.{
  Bool, Bytes, DistinctKeys, DistinctKeys-insert, List, Map, Option, [], append-nil, append_assoc,
  arith, if◌then◌else◌, insert, keep, length, length-append, lookup, lookup-insert, none, refl,
  some, str_eq, str_eq_iff, sum_of, sum_of-append, sym, true, ℕ, ℤ, ◌++◌, ◌+◌, ◌↔◌, ◌∙◌, ◌∷◌, ◌≡◌,
  ◌≤◌,
}

module _ {Row : Type 0} (rt : RowType Row) where
  rows_of-insert :
      (m : Map (List Row)) (k j : Bytes) (rows : List Row)
      → rows_of (insert k rows m) j ≡ (if str_eq k j then rows else rows_of m j)
  unfolding rows_of
  rows_of-insert m k j rows = ground (arith, lookup-insert k j rows m)

  sum-insert :
      (f : List Row → ℕ) (k : Bytes) (rows : List Row) (m : Map (List Row))
      → f [] ≡ 0
      → sum_of (λ e. f e.1) (insert k rows m) + f (rows_of m k) ≡ sum_of (λ e. f e.1) m + f rows
  unfolding insert rows_of lookup
  sum-insert f k rows [] z = omega arith
  sum-insert f k rows ((j, old) ∷ m) z = ground (arith, sum-insert f k rows m z)

  -- The bookkeeping of the table: one entry to an id, and the size of all rows.
  pub record IsTable (t : Memtable Row) : Type 0 where
    pub keys : DistinctKeys t.rows
    pub size : t.size ≡ sum_of (λ e. sum_of rt.size e.1) t.rows

  pub new-IsTable : (max_size : ℤ) → IsTable (new max_size)
  unfolding new
  new-IsTable max_size = record { keys = tt; size = refl }

  -- Put keeps the ids of the table distinct and its size the sum of the sizes of its rows.
  pub put-IsTable : (t : Memtable Row) (row : Row) → IsTable t → IsTable (put rt t row)
  unfolding put
  put-IsTable t row h =
      let id = rt.entity_id row in
      let old = rows_of t.rows id in
      record {
        keys = DistinctKeys-insert id (old ++ row ∷ []) t.rows h.keys;
        size = omega (
          arith,
          h.size,
          sum-insert (λ l. sum_of rt.size l) id (old ++ row ∷ []) t.rows refl,
          sum_of-append rt.size old (row ∷ []),
        );
      }

  -- After a put the rows of its entity end in the new row, and those of others are as they were.
  rows_of-put :
      (t : Memtable Row) (row : Row) (id : Bytes)
      → rows_of (put rt t row).rows id
        ≡ rows_of t.rows id ++ keep (λ r. str_eq (rt.entity_id r) id) (row ∷ [])
  unfolding put
  rows_of-put t row id = ground (
    arith,
    rows_of-insert t.rows (rt.entity_id row) id (rows_of t.rows (rt.entity_id row) ++ row ∷ []),
    str_eq_iff (rt.entity_id row) id,
    append-nil (rows_of t.rows id),
  )

  count-put : (t : Memtable Row) (row : Row) → count_rows (put rt t row) ≡ count_rows t + 1
  unfolding put count_rows
  count-put t row =
      let id = rt.entity_id row in
      let old = rows_of t.rows id in
      omega (
        arith,
        sum-insert (λ l. length l) id (old ++ row ∷ []) t.rows refl,
        length-append old (row ∷ []),
      )

  keep_cons :
      (p : Row → Bool) (r : Row) (rs : List Row) → keep p (r ∷ rs) ≡ keep p (r ∷ []) ++ keep p rs
  keep_cons p r rs = ground arith

  rows_of-put_all :
      (t : Memtable Row) (rows : List Row) (id : Bytes)
      → rows_of (put_all rt t rows).rows id
        ≡ rows_of t.rows id ++ keep (λ r. str_eq (rt.entity_id r) id) rows
  unfolding put_all
  rows_of-put_all t [] id = sym (append-nil (rows_of t.rows id))
  rows_of-put_all t (row ∷ rows) id =
      let p = λ (r : Row). str_eq (rt.entity_id r) id in
      rows_of-put_all (put rt t row) rows id
      ∙ rw (rows_of-put t row id, keep_cons p row rows)
          (append_assoc (rows_of t.rows id) (keep p (row ∷ [])) (keep p rows))

  put_all-books :
      (t : Memtable Row) (rows : List Row)
      → ((put_all rt t rows).size ≡ t.size + sum_of rt.size rows)
        × (count_rows (put_all rt t rows) ≡ count_rows t + length rows)
        × ((put_all rt t rows).max_size ≡ t.max_size)
  unfolding put_all put
  put_all-books t [] = (omega arith, omega arith, refl)
  put_all-books t (row ∷ rows) =
      let rest = put_all-books (put rt t row) rows in
      (omega (arith, rest.0), omega (arith, rest.1, count-put t row), rest.2)

  abbrev pub none_if_empty : List Row → Option (List Row)
  none_if_empty [] = none
  none_if_empty (r ∷ rs) = some (r ∷ rs)

  -- A table that was emptied and then got these rows holds, for each id, the rows of that id in
  -- the order of the puts (nil for none); its size and count are theirs; and it asks for a flush
  -- exactly when their sizes reach the limit.
  pub put_all-reset :
      (t : Memtable Row) (rows : List Row)
      → let t' = put_all rt (reset t) rows in
        ((id : Bytes) → get t' id ≡ none_if_empty (keep (λ r. str_eq (rt.entity_id r) id) rows))
        × (t'.size ≡ sum_of rt.size rows)
        × (count_rows t' ≡ length rows)
        × ((should_flush t' ≡ true) ↔ (t.max_size ≤ sum_of rt.size rows))
  unfolding reset get should_flush rows_of lookup count_rows
  put_all-reset t rows =
      let books = put_all-books (reset t) rows in
      (
        λ id. rw (rows_of-put_all (reset t) rows id, get) (same _),
        omega (arith, books.0),
        omega (arith, books.1),
        (λ h. ground (arith, books.0, books.2), λ h. ground (arith, books.0, books.2)),
      )
    where
      same :
          (l : List Row)
          → ◌≡◌ {A = Option (List Row)}
              (elim l [ [] ↦ none | r ∷ rs ↦ some (r ∷ rs) ])
              (none_if_empty l)
      same [] = refl
      same (r ∷ rs) = refl
