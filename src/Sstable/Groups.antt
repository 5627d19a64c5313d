-- ===== src/Sstable/Groups.antt =====
-- What the writer makes of rows that come in groups, one for each entity, in ascending order.
use allidb.Sstable.Format.{Row, IndexEntry, row_size, index_entry_size}
use allidb.Sstable.Writer.{
  Writer, finish_entity, start_entity, write_row, write_rows, write_entries,
}
use allidb.Sstable.Layout.{
  entry_layout, row_layout, length-entry_layout, length-row_layout, encode_index_entry-eq-layout,
  calculate_row_crc-eq, encode_row-eq-layout,
}
use allidb.Base.{
  All, Bool-cases, Bytes, List, [], ap, append-nil, append_assoc, arith, false, inl, inr, length,
  length-append, ok, refl, str_eq, str_eq_iff, str_lt, str_lt_irrefl, suc, sum_of, sum_of-append,
  sym, true, ℕ, ◌++◌, ◌+◌, ◌<◌, ◌>>=◌, ◌∙◌, ◌∷◌, ◌≡◌,
}

abbrev pub Group : Type 0
Group = Bytes × List Row

abbrev pub flatten : List Group → List Row
flatten [] = []
flatten ((id, rows) ∷ gs) = rows ++ flatten gs

abbrev pub sizes : List Row → ℕ
sizes rs = sum_of row_size rs

-- The index entries of groups that are written from an offset on.
abbrev pub entries : List Group → ℕ → List IndexEntry
entries [] offset = []
entries ((id, rows) ∷ gs) offset =
    record { entity_id = id; offset = offset } ∷ entries gs (offset + sizes rows)

abbrev pub Ascending : List Group → Type 0
Ascending [] = Unit {0}
Ascending ((id, rows) ∷ gs) = All (λ g. str_lt id g.0 ≡ true) gs × Ascending gs

-- A group has rows, all of its entity, and the entity has a name.
abbrev pub IsGroup : Group → Type 0
IsGroup g = (0 < length g.0) × (0 < length g.1) × All (λ r. r.entity_id ≡ g.0) g.1

abbrev pub entries_layout : List IndexEntry → Bytes
entries_layout [] = []
entries_layout (e ∷ es) = entry_layout e ++ entries_layout es

pub length-entries_layout :
    (es : List IndexEntry) → length (entries_layout es) ≡ sum_of index_entry_size es
length-entries_layout [] = refl
length-entries_layout (e ∷ es) = omega (
  arith,
  length-append (entry_layout e) (entries_layout es),
  length-entry_layout e,
  length-entries_layout es,
)

pub write_entries-eq :
    (w : Writer) (es : List IndexEntry)
    → write_entries w es
      ≡ ok (record w {
        out = w.out ++ entries_layout es;
        offset = w.offset + sum_of index_entry_size es;
      })
unfolding write_entries
write_entries-eq w [] =
    let out = append-nil w.out in
    let offset : w.offset ≡ w.offset + 0 = omega arith in
    λ i. ok (record w { out = sym out i; offset = offset i })
write_entries-eq w (e ∷ es) =
    let out = append_assoc w.out (entry_layout e) (entries_layout es) in
    let offset : w.offset + length (entry_layout e) + sum_of index_entry_size es
        ≡ w.offset + (index_entry_size e + sum_of index_entry_size es) =
      omega (arith, length-entry_layout e) in
    rw
      (
        encode_index_entry-eq-layout e,
        write_entries-eq
            (record w {
              out = w.out ++ entry_layout e;
              offset = w.offset + length (entry_layout e);
            })
            es,
      )
      (λ i. ok (record w { out = out i; offset = offset i }))

start_entity-same :
    (w : Writer) (id : Bytes) → str_eq id w.current_entity ≡ true → start_entity w id ≡ w
unfolding start_entity
start_entity-same w id e = rw (e, start_entity) refl

abbrev started : Writer → Bytes → Writer
started w id = record w {
  index = finish_entity w;
  current_entity = id;
  entity_start_offset = w.offset;
}

start_entity-new :
    (w : Writer) (id : Bytes)
    → str_eq id w.current_entity ≡ false
    → start_entity w id ≡ started w id
unfolding start_entity
start_entity-new w id e = rw (e, start_entity) refl

finish_entity-named :
    (w : Writer)
    → 0 < length w.current_entity
    → finish_entity w
      ≡ w.index ++ record { entity_id = w.current_entity; offset = w.entity_start_offset } ∷ []
unfolding finish_entity
finish_entity-named w h = go w.current_entity refl
  where
    go :
        (c : Bytes)
        → c ≡ w.current_entity
        → finish_entity w
          ≡ w.index ++ record { entity_id = w.current_entity; offset = w.entity_start_offset } ∷ []
    go [] e = absurd (ground (arith, e))
    go (c ∷ cs) e = rw (← e, finish_entity) refl

module _ (checksum : Bytes → ℕ) where
  abbrev pub rows_layout : List Row → Bytes
  rows_layout [] = []
  rows_layout (r ∷ rs) = row_layout checksum r ++ rows_layout rs

  pub length-rows_layout : (rs : List Row) → length (rows_layout rs) ≡ sizes rs
  length-rows_layout [] = refl
  length-rows_layout (r ∷ rs) = omega (
    arith,
    length-append (row_layout checksum r) (rows_layout rs),
    length-row_layout checksum r,
    length-rows_layout rs,
  )

  pub rows_layout-append :
      (xs ys : List Row) → rows_layout (xs ++ ys) ≡ rows_layout xs ++ rows_layout ys
  rows_layout-append [] ys = refl
  rows_layout-append (x ∷ xs) ys =
      rw (rows_layout-append xs ys)
        (sym (append_assoc (row_layout checksum x) (rows_layout xs) (rows_layout ys)))

  -- The writer after rows of the current entity.
  abbrev advance : Writer → List Row → Writer
  advance w rs = record w {
    out = w.out ++ rows_layout rs;
    offset = w.offset + sizes rs;
    row_count = w.row_count + length rs;
  }

  write_row-eq :
      (w : Writer) (r : Row)
      → write_row checksum w r
        ≡ ok (record (start_entity w r.entity_id) {
          out = w.out ++ row_layout checksum r;
          offset = w.offset + row_size r;
          row_count = w.row_count + 1;
        })
  unfolding write_row
  write_row-eq w r =
      rw
        (
          calculate_row_crc-eq checksum r,
          encode_row-eq-layout checksum r,
          length-row_layout checksum r,
        )
        refl

  write_rows-current :
      (w : Writer) (rs : List Row)
      → All (λ r. r.entity_id ≡ w.current_entity) rs
      → write_rows checksum w rs ≡ ok (advance w rs)
  unfolding write_rows
  write_rows-current w [] same =
      let out = append-nil w.out in
      let offset : w.offset ≡ w.offset + 0 = omega arith in
      let row_count : w.row_count ≡ w.row_count + 0 = omega arith in
      λ i. ok (record w { out = sym out i; offset = offset i; row_count = row_count i })
  write_rows-current w (r ∷ rs) same =
      let w' : Writer = record w {
        out = w.out ++ row_layout checksum r;
        offset = w.offset + row_size r;
        row_count = w.row_count + 1;
      } in
      let out = append_assoc w.out (row_layout checksum r) (rows_layout rs) in
      let offset : w.offset + row_size r + sizes rs ≡ w.offset + (row_size r + sizes rs) =
        omega arith in
      let row_count : w.row_count + 1 + length rs ≡ w.row_count + suc (length rs) = omega arith in
      rw
        (
          write_row-eq w r,
          start_entity-same w r.entity_id ((str_eq_iff r.entity_id w.current_entity).1 same.0),
          write_rows-current w' rs same.1,
        )
        (λ i. ok (record w { out = out i; offset = offset i; row_count = row_count i }))

  -- One group, after another entity.
  write_rows-group :
      (w : Writer) (g : Group)
      → str_eq g.0 w.current_entity ≡ false
      → IsGroup g
      → write_rows checksum w g.1 ≡ ok (advance (started w g.0) g.1)
  unfolding write_rows
  write_rows-group w (id, []) other ok_g = absurd (omega (arith, ok_g.1))
  write_rows-group w (id, r ∷ rs) other ok_g =
      let w' : Writer = record (started w id) {
        out = w.out ++ row_layout checksum r;
        offset = w.offset + row_size r;
        row_count = w.row_count + 1;
      } in
      let out = append_assoc w.out (row_layout checksum r) (rows_layout rs) in
      let offset : w.offset + row_size r + sizes rs ≡ w.offset + (row_size r + sizes rs) =
        omega arith in
      let row_count : w.row_count + 1 + length rs ≡ w.row_count + suc (length rs) = omega arith in
      let start : start_entity w r.entity_id ≡ started w id =
        ap (start_entity w) ok_g.2.0 ∙ start_entity-new w id other in
      rw (write_row-eq w r, start, write_rows-current w' rs ok_g.2.1)
        (λ i.
          ok (record (started w id) { out = out i; offset = offset i; row_count = row_count i }))

  write_rows-append :
      (xs ys : List Row) (w : Writer)
      → write_rows checksum w (xs ++ ys)
        ≡ (write_rows checksum w xs >>= λ w'. write_rows checksum w' ys)
  unfolding write_rows
  write_rows-append [] ys w = refl
  write_rows-append (x ∷ xs) ys w = rw (write_row-eq w x) (write_rows-append xs ys _)

  -- The writer after the groups: what it wrote, and the index that it would finish with.
  pub record Wrote (w w' : Writer) (gs : List Group) : Type 0 where
    pub out : w'.out ≡ w.out ++ rows_layout (flatten gs)
    pub offset : w'.offset ≡ w.offset + sizes (flatten gs)
    pub index : finish_entity w' ≡ finish_entity w ++ entries gs w.offset
    pub row_count : w'.row_count ≡ w.row_count + length (flatten gs)

  pub later_differ :
      (id : Bytes) (gs : List Group)
      → All (λ g. str_lt id g.0 ≡ true) gs
      → All (λ g. str_eq g.0 id ≡ false) gs
  later_differ id [] h = tt
  later_differ id (g ∷ gs) h = (
    elim (Bool-cases (str_eq g.0 id)) [
      | inr e ↦ e
      | inl e ↦ absurd (ground (arith, (str_eq_iff g.0 id).0 e, h.0, str_lt_irrefl id))
    ],
    later_differ id gs h.1,
  )

  pub write_rows-groups :
      (w : Writer) (gs : List Group)
      → All (λ g. str_eq g.0 w.current_entity ≡ false) gs
      → Ascending gs
      → All IsGroup gs
      → (w' : Writer) × (write_rows checksum w (flatten gs) ≡ ok w') × Wrote w w' gs
  unfolding write_rows
  write_rows-groups w [] others up ok_gs = (
    w,
    refl,
    record {
      out = sym (append-nil w.out);
      offset = omega arith;
      index = sym (append-nil (finish_entity w));
      row_count = omega arith;
    },
  )
  write_rows-groups w ((id, rows) ∷ gs) others up ok_gs =
      let w₁ = advance (started w id) rows in
      let (w', e, wrote) = write_rows-groups w₁ gs (later_differ id gs up.0) up.1 ok_gs.1 in
      (
        w',
        write_rows-append rows (flatten gs) w
            ∙ rw (write_rows-group w (id, rows) others.0 ok_gs.0) e,
        record {
          out =
              wrote.out
              ∙ append_assoc w.out (rows_layout rows) (rows_layout (flatten gs))
              ∙ ap (◌++◌ w.out) (sym (rows_layout-append rows (flatten gs)));
          offset = omega (arith, wrote.offset, sum_of-append row_size rows (flatten gs));
          index =
              wrote.index
              ∙ ap (λ l. l ++ entries gs (w.offset + sizes rows)) (finish_entity-named w₁ ok_gs.0.0)
              ∙ append_assoc (finish_entity w) (record { entity_id = id; offset = w.offset } ∷ [])
                  (entries gs (w.offset + sizes rows));
          row_count = omega (arith, wrote.row_count, length-append rows (flatten gs));
        },
      )
