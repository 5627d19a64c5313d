-- ===== src/Sstable/Writer.antt =====
-- core/storage/sstable/writer.go: the sequential writer.
use allidb.Wire.Numbers.{le_bytes}
use allidb.Wire.Buffer.{Panic, Buffer, make, put}
use allidb.Wire.Text.{put_string}
use allidb.Sstable.Format.{
  Row, IndexEntry, magic_number, header_size, row_size, encode_header, encode_footer,
  encode_index_entry,
}
use allidb.Base.{
  Bytes, List, Result, [], if◌then◌else◌, length, ok, str_eq, ℕ, ◌++◌, ◌+◌, ◌-◌, ◌>>=◌, ◌∷◌,
}

pub record Writer : Type 0 where
  pub out : Bytes
  pub offset : ℕ
  pub index : List IndexEntry
  pub current_entity : Bytes
  pub entity_start_offset : ℕ
  pub row_count : ℕ

abbrev pub new_writer : Writer
new_writer = record {
  out = [];
  offset = 0;
  index = [];
  current_entity = [];
  entity_start_offset = 0;
  row_count = 0;
}

unfoldable pub write_header : Writer → Result Panic Writer
write_header w = do
  bytes ←
      encode_header
        (record { magic = magic_number; version = 1; reserved = 0; data_offset = header_size })
  ok (record w { out = w.out ++ bytes; offset = length bytes })

-- What the checksum covers.
unfoldable pub put_row : Row → Buffer → Result Panic Buffer
put_row r b = do
  b₁ ← put (r.row_type ∷ []) b
  b₂ ← put_string r.entity_id b₁
  put_string r.contents b₂

-- A new entity ends the one before it, unless there was none.
unfoldable pub finish_entity : Writer → List IndexEntry
finish_entity w = elim w.current_entity [
  | [] ↦ w.index
  | c ∷ cs ↦ w.index ++ record { entity_id = c ∷ cs; offset = w.entity_start_offset } ∷ []
]

unfoldable pub start_entity : Writer → Bytes → Writer
unfolding finish_entity
start_entity w id =
    if str_eq id w.current_entity
    then w
    else record w { index = finish_entity w; current_entity = id; entity_start_offset = w.offset }

module _ (checksum : Bytes → ℕ) where
  unfoldable pub calculate_row_crc : Row → Result Panic ℕ
  unfolding put_row
  calculate_row_crc r = do
    b ← put_row r (make (1 + 4 + length r.entity_id + 4 + length r.contents))
    ok (checksum b.bytes)

  unfoldable pub encode_row : Row → ℕ → Result Panic Bytes
  unfolding put_row row_size
  encode_row r crc = do
    b₁ ← put_row r (make (row_size r))
    b₂ ← put (le_bytes 4 crc) b₁
    ok b₂.bytes

  unfoldable pub write_row : Writer → Row → Result Panic Writer
  write_row w r = do
    crc ← calculate_row_crc r
    bytes ← encode_row r crc
    ok (record (start_entity w r.entity_id) {
      out = w.out ++ bytes;
      offset = w.offset + length bytes;
      row_count = w.row_count + 1;
    })

  unfoldable pub write_rows : Writer → List Row → Result Panic Writer
  unfolding write_row
  write_rows w [] = ok w
  write_rows w (r ∷ rs) = do w' ← write_row w r; write_rows w' rs

unfoldable pub write_entries : Writer → List IndexEntry → Result Panic Writer
write_entries w [] = ok w
write_entries w (e ∷ es) = do
  bytes ← encode_index_entry e
  write_entries (record w { out = w.out ++ bytes; offset = w.offset + length bytes }) es

module _ (checksum : Bytes → ℕ) (sort_slice : List IndexEntry → List IndexEntry) where
  -- WriteIndex, which Close calls
  unfoldable pub write_index : Writer → Result Panic Writer
  unfolding finish_entity write_entries
  write_index w = do
    w' ←
        write_entries (record w { index = sort_slice (finish_entity w) })
          (sort_slice (finish_entity w))
    bytes ← encode_footer (record {
      index_offset = w.offset;
      index_size = w'.offset - w.offset;
      row_count = w.row_count;
    })
    ok (record w' { out = w'.out ++ bytes })

  -- A whole table: the header, the rows, and Close.
  unfoldable pub write_table : List Row → Result Panic Bytes
  unfolding write_header write_rows write_index
  write_table rows = do
    w₁ ← write_header new_writer
    w₂ ← write_rows checksum w₁ rows
    w₃ ← write_index w₂
    ok w₃.out
