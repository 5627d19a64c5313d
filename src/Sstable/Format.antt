-- ===== src/Sstable/Format.antt =====
-- core/storage/sstable/format.go: the parts of a table and their encodings.
use allidb.Wire.Numbers.{le_bytes, le_value}
use allidb.Wire.Buffer.{Panic, make, put}
use allidb.Wire.Cursor.{slice, read_uint64}
use allidb.Wire.Text.{put_string, read_string}
use allidb.Base.{Bytes, Result, fail_if, length, ltb, not, ok, ℕ, ◌+◌, ◌==◌, ◌>>=◌, ◌>>◌}

-- "SSTB", as a number
abbrev pub magic_number : ℕ
magic_number = 1397970498

abbrev pub header_size : ℕ
header_size = 16

abbrev pub footer_size : ℕ
footer_size = 24

pub record Header : Type 0 where
  pub magic : ℕ
  pub version : ℕ
  pub reserved : ℕ
  pub data_offset : ℕ

pub record Row : Type 0 where
  pub row_type : ℕ
  pub entity_id : Bytes
  pub contents : Bytes
  pub crc32 : ℕ

pub record Footer : Type 0 where
  pub index_offset : ℕ
  pub index_size : ℕ
  pub row_count : ℕ

pub record IndexEntry : Type 0 where
  pub entity_id : Bytes
  pub offset : ℕ

pub data FormatError : Type 0 where
  short_header bad_magic bad_version short_footer : FormatError
  no_id_length no_id no_offset : FormatError

unfoldable pub encode_header : Header → Result Panic Bytes
encode_header h = do
  b₁ ← put (le_bytes 4 h.magic) (make header_size)
  b₂ ← put (le_bytes 2 h.version) b₁
  b₃ ← put (le_bytes 2 h.reserved) b₂
  b₄ ← put (le_bytes 8 h.data_offset) b₃
  ok b₄.bytes

unfoldable pub decode_header : Bytes → Result FormatError Header
decode_header bytes = do
  fail_if (ltb (length bytes) header_size) short_header
  fail_if (not (le_value (slice bytes 0 4) == magic_number)) bad_magic
  fail_if (not (le_value (slice bytes 4 6) == 1)) bad_version
  ok (record {
    magic = le_value (slice bytes 0 4);
    version = le_value (slice bytes 4 6);
    reserved = le_value (slice bytes 6 8);
    data_offset = le_value (slice bytes 8 16);
  })

unfoldable pub row_size : Row → ℕ
row_size r = 1 + 4 + length r.entity_id + 4 + length r.contents + 4

unfoldable pub encode_footer : Footer → Result Panic Bytes
encode_footer f = do
  b₁ ← put (le_bytes 8 f.index_offset) (make footer_size)
  b₂ ← put (le_bytes 8 f.index_size) b₁
  b₃ ← put (le_bytes 8 f.row_count) b₂
  ok b₃.bytes

unfoldable pub decode_footer : Bytes → Result FormatError Footer
decode_footer bytes = do
  fail_if (ltb (length bytes) footer_size) short_footer
  ok (record {
    index_offset = le_value (slice bytes 0 8);
    index_size = le_value (slice bytes 8 16);
    row_count = le_value (slice bytes 16 24);
  })

unfoldable pub index_entry_size : IndexEntry → ℕ
index_entry_size e = 4 + length e.entity_id + 8

unfoldable pub encode_index_entry : IndexEntry → Result Panic Bytes
unfolding index_entry_size
encode_index_entry e = do
  b₁ ← put_string e.entity_id (make (index_entry_size e))
  b₂ ← put (le_bytes 8 e.offset) b₁
  ok b₂.bytes

unfoldable pub decode_index_entry : Bytes → ℕ → Result FormatError (IndexEntry × ℕ)
decode_index_entry bytes offset = do
  (id, offset₁) ← read_string no_id_length no_id bytes offset
  (row_offset, offset₂) ← read_uint64 no_offset bytes offset₁
  ok (record { entity_id = id; offset = row_offset }, offset₂)
