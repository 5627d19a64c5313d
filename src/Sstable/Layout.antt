-- ===== src/Sstable/Layout.antt =====
-- What the encoders write, as bytes, and that the decoders read it back.
use allidb.Wire.Numbers.{le_bytes, length-le_bytes}
use allidb.Wire.Buffer.{make, filled, make-eq-filled, put-filled, bytes-filled}
use allidb.Wire.Cursor.{At, At-step_number, read_number-At}
use allidb.Wire.Text.{
  string_layout, length-string_layout, put_string-filled, Fits, At-step_string, read_string-At,
}
use allidb.Sstable.Format.{
  Header, Row, Footer, IndexEntry, row_size, index_entry_size, encode_header, encode_footer,
  encode_index_entry, decode_index_entry, no_id_length, no_id, no_offset,
}
use allidb.Sstable.Writer.{put_row, calculate_row_crc, encode_row}
use allidb.Base.{
  Bytes, [], ap, append_assoc, arith, length, length-append, ok, refl, ℕ, ◌++◌, ◌+◌, ◌<◌, ◌^◌, ◌∙◌,
  ◌∷◌, ◌≡◌,
}

unfoldable pub header_layout : Header → Bytes
header_layout h =
    le_bytes 4 h.magic
    ++ (le_bytes 2 h.version ++ (le_bytes 2 h.reserved ++ le_bytes 8 h.data_offset))

unfoldable pub footer_layout : Footer → Bytes
footer_layout f = le_bytes 8 f.index_offset ++ (le_bytes 8 f.index_size ++ le_bytes 8 f.row_count)

unfoldable pub entry_layout : IndexEntry → Bytes
entry_layout e = string_layout e.entity_id ++ le_bytes 8 e.offset

-- What the checksum of a row covers.
unfoldable pub row_head : Row → Bytes
row_head r = r.row_type ∷ (string_layout r.entity_id ++ string_layout r.contents)

unfoldable pub row_layout : (Bytes → ℕ) → Row → Bytes
row_layout checksum r = row_head r ++ le_bytes 4 (checksum (row_head r))

pub length-header_layout : (h : Header) → length (header_layout h) ≡ 16
unfolding header_layout
length-header_layout h = omega (
  arith,
  length-append (le_bytes 4 h.magic)
      (le_bytes 2 h.version ++ (le_bytes 2 h.reserved ++ le_bytes 8 h.data_offset)),
  length-append (le_bytes 2 h.version) (le_bytes 2 h.reserved ++ le_bytes 8 h.data_offset),
  length-append (le_bytes 2 h.reserved) (le_bytes 8 h.data_offset),
  length-le_bytes 4 h.magic,
  length-le_bytes 2 h.version,
  length-le_bytes 2 h.reserved,
  length-le_bytes 8 h.data_offset,
)

pub length-footer_layout : (f : Footer) → length (footer_layout f) ≡ 24
unfolding footer_layout
length-footer_layout f = omega (
  arith,
  length-append (le_bytes 8 f.index_offset) (le_bytes 8 f.index_size ++ le_bytes 8 f.row_count),
  length-append (le_bytes 8 f.index_size) (le_bytes 8 f.row_count),
  length-le_bytes 8 f.index_offset,
  length-le_bytes 8 f.index_size,
  length-le_bytes 8 f.row_count,
)

pub length-entry_layout : (e : IndexEntry) → length (entry_layout e) ≡ index_entry_size e
unfolding entry_layout index_entry_size
length-entry_layout e = omega (
  arith,
  length-append (string_layout e.entity_id) (le_bytes 8 e.offset),
  length-string_layout e.entity_id,
  length-le_bytes 8 e.offset,
)

length-row_head :
    (r : Row) → length (row_head r) ≡ 1 + 4 + length r.entity_id + 4 + length r.contents
unfolding row_head
length-row_head r = omega (
  arith,
  length-append (string_layout r.entity_id) (string_layout r.contents),
  length-string_layout r.entity_id,
  length-string_layout r.contents,
)

pub length-row_layout :
    (checksum : Bytes → ℕ) (r : Row) → length (row_layout checksum r) ≡ row_size r
unfolding row_layout row_size
length-row_layout checksum r = omega (
  arith,
  length-append (row_head r) (le_bytes 4 (checksum (row_head r))),
  length-row_head r,
  length-le_bytes 4 (checksum (row_head r)),
)

pub encode_header-eq-layout : (h : Header) → encode_header h ≡ ok (header_layout h)
unfolding encode_header header_layout
encode_header-eq-layout h =
    let a = le_bytes 4 h.magic in
    let b = le_bytes 2 h.version in
    let c = le_bytes 2 h.reserved in
    let d = le_bytes 8 h.data_offset in
    rw
      (
        make-eq-filled 16,
        put-filled a [] 16 12 (omega (arith, length-le_bytes 4 h.magic)),
        put-filled b a 12 10 (omega (arith, length-le_bytes 2 h.version)),
        put-filled c (a ++ b) 10 8 (omega (arith, length-le_bytes 2 h.reserved)),
        put-filled d (a ++ b ++ c) 8 0 (omega (arith, length-le_bytes 8 h.data_offset)),
      )
      (ap ok
        (bytes-filled (a ++ b ++ c ++ d) ∙ append_assoc (a ++ b) c d ∙ append_assoc a b (c ++ d)))

pub encode_footer-eq-layout : (f : Footer) → encode_footer f ≡ ok (footer_layout f)
unfolding encode_footer footer_layout
encode_footer-eq-layout f =
    let a = le_bytes 8 f.index_offset in
    let b = le_bytes 8 f.index_size in
    let c = le_bytes 8 f.row_count in
    rw
      (
        make-eq-filled 24,
        put-filled a [] 24 16 (omega (arith, length-le_bytes 8 f.index_offset)),
        put-filled b a 16 8 (omega (arith, length-le_bytes 8 f.index_size)),
        put-filled c (a ++ b) 8 0 (omega (arith, length-le_bytes 8 f.row_count)),
      )
      (ap ok (bytes-filled (a ++ b ++ c) ∙ append_assoc a b c))

pub encode_index_entry-eq-layout : (e : IndexEntry) → encode_index_entry e ≡ ok (entry_layout e)
unfolding encode_index_entry entry_layout index_entry_size
encode_index_entry-eq-layout e =
    rw
      (
        make-eq-filled (index_entry_size e),
        put_string-filled e.entity_id [] (index_entry_size e) 8 refl,
        put-filled (le_bytes 8 e.offset) (string_layout e.entity_id) 8 0
            (omega (arith, length-le_bytes 8 e.offset)),
      )
      (ap ok (bytes-filled (string_layout e.entity_id ++ le_bytes 8 e.offset)))

put_row-filled :
    (r : Row) (n m : ℕ)
    → n ≡ 1 + 4 + length r.entity_id + 4 + length r.contents + m
    → put_row r (filled [] n) ≡ ok (filled (row_head r) m)
unfolding put_row row_head
put_row-filled r n m e =
    rw
      (
        put-filled (r.row_type ∷ []) [] n (4 + length r.entity_id + (4 + length r.contents + m))
            (omega arith),
        put_string-filled r.entity_id (r.row_type ∷ [])
            (4 + length r.entity_id + (4 + length r.contents + m)) (4 + length r.contents + m) refl,
      )
      (put_string-filled r.contents (r.row_type ∷ string_layout r.entity_id)
        (4 + length r.contents + m) m refl)

pub put_row-whole :
    (r : Row)
    → put_row r (make (1 + 4 + length r.entity_id + 4 + length r.contents))
      ≡ ok (filled (row_head r) 0)
put_row-whole r =
    rw (make-eq-filled (1 + 4 + length r.entity_id + 4 + length r.contents))
      (put_row-filled r (1 + 4 + length r.entity_id + 4 + length r.contents) 0 (omega arith))

pub calculate_row_crc-eq :
    (checksum : Bytes → ℕ) (r : Row) → calculate_row_crc checksum r ≡ ok (checksum (row_head r))
unfolding calculate_row_crc
calculate_row_crc-eq checksum r =
    rw (put_row-whole r) (ap (λ b. ok (checksum b)) (bytes-filled (row_head r)))

pub encode_row-eq-layout :
    (checksum : Bytes → ℕ) (r : Row)
    → encode_row checksum r (checksum (row_head r)) ≡ ok (row_layout checksum r)
unfolding encode_row row_layout row_size
encode_row-eq-layout checksum r =
    let sum = le_bytes 4 (checksum (row_head r)) in
    rw
      (
        make-eq-filled (row_size r),
        put_row-filled r (row_size r) 4 (omega arith),
        put-filled sum (row_head r) 4 0 (omega (arith, length-le_bytes 4 (checksum (row_head r)))),
      )
      (ap ok (bytes-filled (row_head r ++ sum)))

-- An index entry whose id fits and whose offset is a 64-bit pattern is read back.
pub decode_index_entry-At :
    (e : IndexEntry) (bytes rest : Bytes) (offset : ℕ)
    → Fits e.entity_id
    → e.offset < 2 ^ 64
    → At bytes offset (entry_layout e ++ rest)
    → (decode_index_entry bytes offset ≡ ok (e, offset + index_entry_size e))
      × At bytes (offset + index_entry_size e) rest
unfolding decode_index_entry entry_layout index_entry_size
decode_index_entry-At e bytes rest offset fits small a =
    let a₁ = rw (append_assoc (string_layout e.entity_id) (le_bytes 8 e.offset) rest) at a in
    let a₂ = At-step_string bytes e.entity_id (le_bytes 8 e.offset ++ rest) offset a₁ in
    let sum : offset + 4 + length e.entity_id + 8 ≡ offset + (4 + length e.entity_id + 8) =
      omega arith in
    (
      rw
          (
            read_string-At no_id_length no_id bytes e.entity_id (le_bytes 8 e.offset ++ rest) offset
                fits a₁,
            read_number-At no_offset bytes rest (offset + 4 + length e.entity_id) 8 e.offset small
                a₂,
          )
          (ap (λ n. ok (e, n)) sum),
      rw sum at (At-step_number bytes rest (offset + 4 + length e.entity_id) 8 e.offset a₂),
    )
