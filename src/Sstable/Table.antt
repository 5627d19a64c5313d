-- ===== src/Sstable/Table.antt =====
-- The bytes of a whole table.
use allidb.Sstable.Format.{Footer, IndexEntry, index_entry_size}
use allidb.Sstable.Writer.{
  Writer, new_writer, write_header, finish_entity, write_index, write_table,
}
use allidb.Sstable.Layout.{
  header_layout, footer_layout, length-header_layout, encode_header-eq-layout,
  encode_footer-eq-layout,
}
use allidb.Sstable.Rows.{first_header}
use allidb.Sstable.Groups.{
  Group, flatten, sizes, entries, Ascending, IsGroup, entries_layout, write_entries-eq, rows_layout,
  Wrote, write_rows-groups,
}
use allidb.Base.{
  All, Bytes, List, [], ap, append_assoc, arith, false, length, ok, refl, str_eq, str_eq_iff,
  sum_of, ℕ, ◌++◌, ◌+◌, ◌-◌, ◌∙◌, ◌∷◌, ◌≡◌,
}

abbrev pub table_footer : List Group → Footer
table_footer gs = record {
  index_offset = 16 + sizes (flatten gs);
  index_size = sum_of index_entry_size (entries gs 16);
  row_count = length (flatten gs);
}

abbrev pub table_layout : (Bytes → ℕ) → List Group → Bytes
table_layout checksum gs =
    header_layout first_header
    ++ (rows_layout checksum (flatten gs)
        ++ (entries_layout (entries gs 16) ++ footer_layout (table_footer gs)))

-- Writing a whole table, where the sort leaves a list as it is that is already in order.
module _ (checksum : Bytes → ℕ) (sort_slice : List IndexEntry → List IndexEntry) (gs : List Group)
    (sorted : sort_slice (entries gs 16) ≡ entries gs 16) where
  abbrev headed : Writer
  headed = record new_writer { out = header_layout first_header; offset = 16 }

  write_header-eq : write_header new_writer ≡ ok headed
  unfolding write_header
  write_header-eq =
      rw (encode_header-eq-layout first_header, length-header_layout first_header) refl

  names_differ : (gs : List Group) → All IsGroup gs → All (λ g. str_eq g.0 [] ≡ false) gs
  names_differ [] h = tt
  names_differ (g ∷ gs) h = (ground (arith, str_eq_iff g.0 [], h.0.0), names_differ gs h.1)

  write_index-eq :
      (w : Writer)
      → Wrote checksum headed w gs
      → (w' : Writer) × (write_index checksum sort_slice w ≡ ok w')
        × (w'.out ≡ (table_layout checksum gs))
  unfolding write_index finish_entity
  write_index-eq w wrote =
      let es = entries gs 16 in
      let idx : sort_slice (finish_entity w) ≡ es = ap sort_slice wrote.index ∙ sorted in
      let size : w.offset + sum_of index_entry_size es - w.offset ≡ sum_of index_entry_size es =
        omega arith in
      let row_count : w.row_count ≡ length (flatten gs) = omega (arith, wrote.row_count) in
      let f : Footer = record {
        index_offset = w.offset;
        index_size = w.offset + sum_of index_entry_size es - w.offset;
        row_count = w.row_count;
      } in
      let rows = rows_layout checksum (flatten gs) in
      (
        record w {
          index = es;
          out = w.out ++ entries_layout es ++ footer_layout f;
          offset = w.offset + sum_of index_entry_size es;
        },
        rw (idx, write_entries-eq (record w { index = es }) es, encode_footer-eq-layout f) refl,
        ap (λ o. o ++ entries_layout es ++ footer_layout f) wrote.out
            ∙ (λ i.
                header_layout first_header
                ++ rows
                ++ entries_layout es
                ++ footer_layout (record {
                  index_offset = wrote.offset i;
                  index_size = size i;
                  row_count = row_count i;
                }))
            ∙ append_assoc (header_layout first_header ++ rows) (entries_layout es)
                (footer_layout (table_footer gs))
            ∙ append_assoc (header_layout first_header) rows
                (entries_layout es ++ footer_layout (table_footer gs)),
      )

  pub write_table-eq-layout :
      Ascending gs
      → All IsGroup gs
      → write_table checksum sort_slice (flatten gs) ≡ ok (table_layout checksum gs)
  unfolding write_table
  write_table-eq-layout up ok_gs =
      let (w, e, wrote) = write_rows-groups checksum headed gs (names_differ gs ok_gs) up ok_gs in
      let (w', e', out) = write_index-eq w wrote in rw (write_header-eq, e, e') (ap ok out)
