-- ===== src/Sstable/Reader.antt =====
-- core/storage/sstable/reader.go: the reader of a table, and of several tables.
use allidb.Wire.Buffer.{make}
use allidb.Wire.Cursor.{slice, read_number}
use allidb.Wire.Text.{read_string}
use allidb.Sstable.Format.{
  Header, Row, Footer, IndexEntry, FormatError, header_size, footer_size, decode_header,
  decode_footer, decode_index_entry,
}
use allidb.Sstable.Writer.{put_row}
use allidb.Base.{
  Bool, Bytes, List, Result, [], any, drop, err, fail_if, false, get_elem?, if◌then◌else◌, leb,
  length, ltb, map, none, not, ok, search, some, str_eq, str_lt, suc, true, zero, ℕ, ◌%◌, ◌&&◌,
  ◌++◌, ◌+◌, ◌-◌, ◌==◌, ◌>>=◌, ◌>>◌, ◌^◌, ◌||◌, ◌∷◌,
}

pub record Reader : Type 0 where
  pub bytes : Bytes
  pub header : Header
  pub footer : Footer
  pub index : List IndexEntry

-- `panicked` is a slice out of range.
pub data ReaderError : Type 0 where
  file_too_small bad_index_offset bad_index_size panicked : ReaderError
  bad_format : FormatError → ReaderError
  out_of_bounds no_row_header no_id_length no_id no_data_length no_data no_crc : ReaderError
  crc_mismatch : ReaderError
  out_of_fuel : ReaderError

abbrev pub is_negative : ℕ → Bool
is_negative x = not (ltb x (2 ^ 63))

-- x < y on int64
abbrev pub int64_lt : ℕ → ℕ → Bool
int64_lt x y = ltb ((x + 2 ^ 63) % 2 ^ 64) ((y + 2 ^ 63) % 2 ^ 64)

abbrev pub formatted : {A : Type 0} → Result FormatError A → Result ReaderError A
formatted (ok a) = ok a
formatted (err e) = err (bad_format e)

unfoldable pub load_index : ℕ → Bytes → ℕ → Result ReaderError (List IndexEntry)
load_index zero bytes offset = err out_of_fuel
load_index (suc fuel) bytes offset = elim (ltb offset (length bytes)) [
  | true ↦ elim (decode_index_entry bytes offset) [
    | err e ↦ err (bad_format e)
    | ok (entry, offset') ↦ load_index fuel bytes offset' >>= λ entries. ok (entry ∷ entries)
  ]
  | false ↦ ok []
]

-- The index part of the file, by the footer's numbers.
unfoldable pub index_data : Bytes → Footer → Result ReaderError Bytes
index_data bytes f =
    let end = (f.index_offset + f.index_size) % 2 ^ 64 in
    fail_if (is_negative f.index_offset || leb (length bytes) f.index_offset) bad_index_offset
    >> (fail_if (is_negative f.index_size || (not (is_negative end) && ltb (length bytes) end))
          bad_index_size
        >> (fail_if (is_negative end) panicked >> ok (slice bytes f.index_offset end)))

unfoldable pub new_reader : Bytes → Result ReaderError Reader
unfolding load_index index_data
new_reader bytes = do
  fail_if (ltb (length bytes) (header_size + footer_size)) file_too_small
  header ← formatted (decode_header (slice bytes 0 header_size))
  footer ← formatted (decode_footer (drop (length bytes - footer_size) bytes))
  part ← index_data bytes footer
  index ← load_index (suc (length part)) part 0
  ok (record { bytes = bytes; header = header; footer = footer; index = index })

-- r.index[i].EntityID >= entityID
unfoldable pub entry_from : List IndexEntry → Bytes → ℕ → Bool
entry_from index id i = elim (get_elem? index i) [
  | none ↦ true
  | some e ↦ not (str_lt e.entity_id id)
]

-- Where the rows of an entry end: at the next entry, or at the index.
unfoldable pub end_offset : Reader → ℕ → ℕ
end_offset r i = elim (get_elem? r.index (i + 1)) [
  | none ↦ r.footer.index_offset
  | some e ↦ e.offset
]

module _ (checksum : Bytes → ℕ) where
  unfoldable pub expected_crc : Row → Result ReaderError ℕ
  expected_crc r = elim (put_row r (make (1 + 4 + length r.entity_id + 4 + length r.contents))) [
    | err e ↦ err panicked
    | ok b ↦ ok (checksum b.bytes)
  ]

  -- readRowAt, on the data from the offset on: the row, and how many bytes it takes.
  unfoldable pub decode_row : Bytes → Result ReaderError (Row × ℕ)
  unfolding expected_crc
  decode_row [] = err no_row_header
  decode_row (t ∷ rest) = do
    fail_if (ltb (length (t ∷ rest)) (1 + 4)) no_row_header
    (id, offset₁) ← read_string no_id_length no_id (t ∷ rest) 1
    (contents, offset₂) ← read_string no_data_length no_data (t ∷ rest) offset₁
    (crc, offset₃) ← read_number no_crc 4 (t ∷ rest) offset₂
    expected ←
        expected_crc (record { row_type = t; entity_id = id; contents = contents; crc32 = crc })
    fail_if (not (crc == expected)) crc_mismatch
    ok (record { row_type = t; entity_id = id; contents = contents; crc32 = crc }, offset₃)

  unfoldable pub read_row_at : Bytes → ℕ → Result ReaderError (Row × ℕ)
  read_row_at bytes offset =
      fail_if (is_negative offset || leb (length bytes) offset) out_of_bounds
      >> (decode_row (drop offset bytes) >>= λ read. ok (read.0, (offset + read.1) % 2 ^ 64))

  -- The loop of Get, from the current offset to the end offset.
  unfoldable pub read_rows : ℕ → Bytes → Bytes → ℕ → ℕ → Result ReaderError (List Row)
  read_rows zero bytes id current end = err out_of_fuel
  read_rows (suc fuel) bytes id current end = elim (int64_lt current end) [
    | false ↦ ok []
    | true ↦ elim (read_row_at bytes current) [
      | err e ↦ err e
      | ok (row, next) ↦ elim (str_eq row.entity_id id) [
        | false ↦ ok []
        | true ↦ read_rows fuel bytes id next end >>= λ rows. ok (row ∷ rows)
      ]
    ]
  ]

  -- An unknown id has no rows.
  unfoldable pub get : Reader → Bytes → Result ReaderError (List Row)
  unfolding read_rows entry_from end_offset
  get r id =
      let i = search (length r.index) (entry_from r.index id) in
      elim (get_elem? r.index i) [
        | none ↦ ok []
        | some e ↦
            if str_eq e.entity_id id
            then read_rows (suc (length r.bytes)) r.bytes id e.offset (end_offset r i)
            else ok []
      ]

  -- MergeReader.Get: the rows of all tables, in the order of the readers.
  unfoldable pub merge_get : List Reader → Bytes → Result ReaderError (List Row)
  merge_get [] id = ok []
  merge_get (r ∷ rs) id = do rows ← get r id; more ← merge_get rs id; ok (rows ++ more)

unfoldable pub row_count : Reader → ℕ
row_count r = r.footer.row_count

unfoldable pub entity_count : Reader → ℕ
entity_count r = length r.index

unfoldable pub get_all_entity_ids : Reader → List Bytes
get_all_entity_ids r = map (λ e. e.entity_id) r.index

-- MergeReader.RowCount
unfoldable pub merge_row_count : List Reader → ℕ
unfolding row_count
merge_row_count [] = 0
merge_row_count (r ∷ rs) = row_count r + merge_row_count rs

add_ids : List Bytes → List Bytes → List Bytes
add_ids [] seen = seen
add_ids (id ∷ ids) seen = add_ids ids (if any (str_eq id) seen then seen else seen ++ id ∷ [])

all_ids : List Reader → List Bytes → List Bytes
all_ids [] seen = seen
all_ids (r ∷ rs) seen = all_ids rs (add_ids (get_all_entity_ids r) seen)

-- MergeReader.EntityCount: each id counts once.
unfoldable pub merge_entity_count : List Reader → ℕ
unfolding all_ids add_ids get_all_entity_ids
merge_entity_count rs = length (all_ids rs [])
