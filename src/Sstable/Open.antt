-- ===== src/Sstable/Open.antt =====
-- Opening a table that was written.
use allidb.Wire.Cursor.{slice, At, At-start, At-step}
use allidb.Wire.Text.{Fits}
use allidb.Sstable.Format.{Footer, IndexEntry, header_size, footer_size, row_size, index_entry_size}
use allidb.Sstable.Reader.{Reader, is_negative, load_index, index_data, new_reader}
use allidb.Sstable.Layout.{
  header_layout, footer_layout, entry_layout, length-header_layout, length-footer_layout,
  length-entry_layout, decode_index_entry-At,
}
use allidb.Sstable.Rows.{
  slice-At, first_header, decode_header-first, FitsFooter, decode_footer-layout,
}
use allidb.Sstable.Groups.{
  Group, flatten, sizes, entries, entries_layout, length-entries_layout, rows_layout,
  length-rows_layout,
}
use allidb.Sstable.Table.{table_footer, table_layout}
use allidb.Base.{
  All, Bytes, List, [], ap, arith, false, leb, length, length-append, ltb, ltb-eq-false, lt→ltb,
  not, ok, refl, suc, sum_of, sum_of-append, sym, true, zero, ℕ, ◌%◌, ◌&&◌, ◌++◌, ◌+◌, ◌-◌, ◌<◌,
  ◌^◌, ◌||◌, ◌∷◌, ◌≡◌, ◌≤◌,
}

abbrev pub FitsEntry : IndexEntry → Type 0
FitsEntry e = Fits e.entity_id × (e.offset < 2 ^ 64)

some_left :
    (e : IndexEntry) (bytes rest : Bytes) (offset : ℕ)
    → At bytes offset (entry_layout e ++ rest)
    → offset < length bytes
unfolding index_entry_size
some_left e bytes rest offset a =
    omega (arith, a.size, length-append (entry_layout e) rest, length-entry_layout e)

load_index-At :
    (es : List IndexEntry) (fuel : ℕ) (bytes : Bytes) (offset : ℕ)
    → All FitsEntry es
    → length es < fuel
    → At bytes offset (entries_layout es)
    → load_index fuel bytes offset ≡ ok es
unfolding load_index
load_index-At es zero bytes offset fits h a = absurd (omega arith)
load_index-At [] (suc fuel) bytes offset fits h a =
    rw (ltb-eq-false offset (length bytes) (omega (arith, a.size)), load_index) refl
load_index-At (e ∷ es) (suc fuel) bytes offset fits h a =
    let read = decode_index_entry-At e bytes (entries_layout es) offset fits.0.0 fits.0.1 a in
    let more : ltb offset (length bytes) ≡ true =
      lt→ltb offset (length bytes) (some_left e bytes (entries_layout es) offset a) in
    rw
      (
        more,
        read.0,
        load_index-At es fuel bytes (offset + index_entry_size e) fits.1 (omega arith) read.1,
        load_index,
      )
      refl

entries-few : (es : List IndexEntry) → length es ≤ sum_of index_entry_size es
unfolding index_entry_size
entries-few [] = omega arith
entries-few (e ∷ es) = omega (arith, entries-few es)

-- The names of the groups fit into 32-bit lengths.
abbrev pub FitsNames : List Group → Type 0
FitsNames gs = All (λ g. Fits g.0) gs

entries-FitsEntry :
    (gs : List Group) (offset : ℕ)
    → FitsNames gs
    → offset + sizes (flatten gs) < 2 ^ 64
    → All FitsEntry (entries gs offset)
entries-FitsEntry [] offset fits small = tt
entries-FitsEntry ((id, rows) ∷ gs) offset fits small = (
  (fits.0, omega arith),
  entries-FitsEntry gs (offset + sizes rows) fits.1
      (omega (arith, sum_of-append row_size rows (flatten gs))),
)

index_data-eq :
    (bytes part : Bytes) (f : Footer) (rest : Bytes)
    → length bytes < 2 ^ 63
    → 0 < length rest
    → f.index_size ≡ length part
    → At bytes f.index_offset (part ++ rest)
    → index_data bytes f ≡ ok part
unfolding index_data
index_data-eq bytes part f rest small left size a =
    let end : (f.index_offset + f.index_size) % 2 ^ 64 ≡ f.index_offset + length part =
      omega (arith, a.size, size, length-append part rest) in
    let total : f.index_offset + (length part + length rest) ≡ length bytes =
      omega (arith, a.size, length-append part rest) in
    let first : (is_negative f.index_offset || leb (length bytes) f.index_offset) ≡ false =
      ground (arith, total) in
    let second : (is_negative f.index_size
          || (not (is_negative (f.index_offset + length part))
              && ltb (length bytes) (f.index_offset + length part)))
        ≡ false =
      ground (arith, total, size) in
    let third : is_negative (f.index_offset + length part) ≡ false = ground (arith, total) in
    rw (end, first, second, third)
      (ap ok (slice-At bytes part rest f.index_offset (f.index_offset + length part) refl a))

-- The reader of a table that was written.
abbrev pub table_reader : (Bytes → ℕ) → List Group → Reader
table_reader checksum gs = record {
  bytes = table_layout checksum gs;
  header = first_header;
  footer = table_footer gs;
  index = entries gs 16;
}

-- How the parts of a table lie, where the table is shorter than 2 ^ 63 bytes.
pub record Lies (checksum : Bytes → ℕ) (gs : List Group) : Type 0 where
  pub rows : At (table_layout checksum gs) 16 (
      rows_layout checksum (flatten gs)
      ++ (entries_layout (entries gs 16) ++ footer_layout (table_footer gs)))
  pub index :
      At
        (table_layout checksum gs)
        (16 + sizes (flatten gs))
        (entries_layout (entries gs 16) ++ footer_layout (table_footer gs))
  pub footer :
      At
        (table_layout checksum gs)
        (16 + sizes (flatten gs) + sum_of index_entry_size (entries gs 16))
        (footer_layout (table_footer gs))
  pub total :
      16 + sizes (flatten gs) + sum_of index_entry_size (entries gs 16) + 24
      ≡ length (table_layout checksum gs)

pub table-Lies : (checksum : Bytes → ℕ) (gs : List Group) → Lies checksum gs
table-Lies checksum gs =
    let bytes = table_layout checksum gs in
    let header = header_layout first_header in
    let rows = rows_layout checksum (flatten gs) in
    let es = entries gs 16 in
    let index = entries_layout es in
    let footer = footer_layout (table_footer gs) in
    let a₁ = At-step bytes header (rows ++ (index ++ footer)) 0 (At-start bytes) in
    let a₂ = rw (length-header_layout first_header) at a₁ in
    let a₃ =
      rw (length-rows_layout checksum (flatten gs)) at
        (At-step bytes rows (index ++ footer) 16 a₂) in
    let a₄ =
      rw (length-entries_layout es) at (At-step bytes index footer (16 + sizes (flatten gs)) a₃) in
    record {
      rows = a₂;
      index = a₃;
      footer = a₄;
      total = omega (arith, a₄.size, length-footer_layout (table_footer gs));
    }

module _ (checksum : Bytes → ℕ) (gs : List Group) where
  -- A table whose names fit into 32-bit lengths and that is shorter than 2 ^ 63 bytes opens, with
  -- the index that was written.
  pub new_reader-layout :
      FitsNames gs
      → length (table_layout checksum gs) < 2 ^ 63
      → length (flatten gs) < 2 ^ 64
      → new_reader (table_layout checksum gs) ≡ ok (table_reader checksum gs)
  unfolding new_reader
  new_reader-layout fits small few =
      let bytes = table_layout checksum gs in
      let es = entries gs 16 in
      let part = entries_layout es in
      let lies = table-Lies checksum gs in
      let footer = footer_layout (table_footer gs) in
      let rows = rows_layout checksum (flatten gs) in
      let room : ltb (length bytes) (header_size + footer_size) ≡ false =
        ltb-eq-false (length bytes) 40 (omega (arith, lies.total)) in
      let head : slice bytes 0 header_size ≡ header_layout first_header =
        slice-At bytes (header_layout first_header) (rows ++ (part ++ footer)) 0 header_size
          (omega (arith, length-header_layout first_header)) (At-start bytes) in
      let foot_at : length bytes - footer_size
          ≡ 16 + sizes (flatten gs) + sum_of index_entry_size es =
        omega (arith, lies.total) in
      let foot_fits : FitsFooter (table_footer gs) =
        (omega (arith, lies.total), omega (arith, lies.total), few) in
      let data_eq =
        index_data-eq bytes part (table_footer gs) footer small
          (omega (arith, length-footer_layout (table_footer gs))) (sym (length-entries_layout es))
          lies.index in
      let loaded =
        load_index-At es (suc (length part)) part 0
          (entries-FitsEntry gs 16 fits (omega (arith, lies.total)))
          (omega (arith, entries-few es, length-entries_layout es)) (At-start part) in
      rw
        (
          room,
          head,
          decode_header-first,
          foot_at,
          lies.footer.tail,
          decode_footer-layout (table_footer gs) foot_fits,
          data_eq,
          loaded,
        )
        refl
