-- ===== src/Sstable/Rows.antt =====
-- Reading the header, the footer, and a row of a table back.
use allidb.Wire.Numbers.{le_bytes, le_value, length-le_bytes, le_value-le_bytes}
use allidb.Wire.Buffer.{bytes-filled}
use allidb.Wire.Cursor.{slice, At, At-of_eq, At-step_number, read_number-At}
use allidb.Wire.Text.{string_layout, length-string_layout, Fits, At-step_string, read_string-At}
use allidb.Sstable.Format.{
  Header, Row, Footer, magic_number, header_size, footer_size, row_size, decode_header,
  decode_footer,
}
use allidb.Sstable.Reader.{
  no_id_length, no_id, no_data_length, no_data, no_crc, expected_crc, decode_row,
}
use allidb.Sstable.Layout.{
  header_layout, footer_layout, row_head, row_layout, length-footer_layout, put_row-whole,
}
use allidb.Base.{
  ==_iff, Bytes, [], ap, append-nil, append_assoc, arith, false, length, length-append, ltb,
  ltb-eq-false, ok, refl, take-append, ℕ, ◌++◌, ◌+◌, ◌-◌, ◌<◌, ◌^◌, ◌∙◌, ◌∷◌, ◌≡◌,
}

pub slice-At :
    (bytes x rest : Bytes) (offset n : ℕ)
    → n ≡ offset + length x
    → At bytes offset (x ++ rest)
    → slice bytes offset n ≡ x
slice-At bytes x rest offset n e a =
    let count : n - offset ≡ length x = omega arith in rw (count, a.tail) (take-append x rest)

field-At :
    (bytes rest : Bytes) (offset width n v : ℕ)
    → n ≡ offset + width
    → v < 256 ^ width
    → At bytes offset (le_bytes width v ++ rest)
    → le_value (slice bytes offset n) ≡ v
field-At bytes rest offset width n v e small a =
    rw (slice-At bytes (le_bytes width v) rest offset n (omega (arith, length-le_bytes width v)) a)
      (le_value-le_bytes width v small)

-- The header that the writer writes.
abbrev pub first_header : Header
first_header = record { magic = magic_number; version = 1; reserved = 0; data_offset = header_size }

pub decode_header-first : decode_header (header_layout first_header) ≡ ok first_header
unfolding decode_header header_layout le_bytes le_value
decode_header-first = refl

abbrev pub FitsFooter : Footer → Type 0
FitsFooter f = (f.index_offset < 2 ^ 64) × (f.index_size < 2 ^ 64) × (f.row_count < 2 ^ 64)

footer_shape :
    (f : Footer)
    → footer_layout f
      ≡ le_bytes 8 f.index_offset ++ (le_bytes 8 f.index_size ++ le_bytes 8 f.row_count)
unfolding footer_layout
footer_shape f = refl

-- A footer of 64-bit patterns is read back.
pub decode_footer-layout : (f : Footer) → FitsFooter f → decode_footer (footer_layout f) ≡ ok f
unfolding decode_footer
decode_footer-layout f fits =
    let bytes = footer_layout f in
    let c = le_bytes 8 f.row_count in
    let room : ltb (length (footer_layout f)) footer_size ≡ false =
      ltb-eq-false (length (footer_layout f)) 24 (omega (arith, length-footer_layout f)) in
    let a₀ =
      At-of_eq bytes (le_bytes 8 f.index_offset ++ (le_bytes 8 f.index_size ++ c))
        (footer_shape f) in
    let a₁ = At-step_number bytes (le_bytes 8 f.index_size ++ c) 0 8 f.index_offset a₀ in
    let a₂ = At-step_number bytes c 8 8 f.index_size a₁ in
    let a₃ : At bytes 16 (c ++ []) = rw (append-nil c) a₂ in
    rw
      (
        room,
        field-At bytes (le_bytes 8 f.index_size ++ c) 0 8 8 f.index_offset refl fits.0 a₀,
        field-At bytes c 8 8 16 f.index_size refl fits.1 a₁,
        field-At bytes [] 16 8 24 f.row_count refl fits.2 a₃,
      )
      refl

At-start_cons : (b : ℕ) (rest : Bytes) → At (b ∷ rest) 1 rest
At-start_cons b rest = record { tail = refl; size = omega arith }

size_sum : (r : Row) → 1 + 4 + length r.entity_id + 4 + length r.contents + 4 ≡ row_size r
unfolding row_size
size_sum r = omega arith

-- A row whose strings fit into 32-bit lengths.
abbrev pub FitsRow : Row → Type 0
FitsRow r = Fits r.entity_id × Fits r.contents

module _ (checksum : Bytes → ℕ) where
  -- The row as it is read: with the checksum that was written.
  abbrev pub summed : Row → Row
  summed r = record r { crc32 = checksum (row_head r) }

  pub expected_crc-eq : (r : Row) → expected_crc checksum r ≡ ok (checksum (row_head r))
  unfolding expected_crc
  expected_crc-eq r =
      rw (put_row-whole r, expected_crc) (ap (λ b. ok (checksum b)) (bytes-filled (row_head r)))

module _ (checksum : Bytes → ℕ) (sums : (b : Bytes) → checksum b < 2 ^ 32) where
  head_summed : (r : Row) → row_head (summed checksum r) ≡ row_head r
  unfolding row_head
  head_summed r = refl

  row_shape :
      (r : Row) (rest : Bytes)
      → row_layout checksum r ++ rest
        ≡ r.row_type
          ∷ (string_layout r.entity_id
              ++ (string_layout r.contents ++ (le_bytes 4 (checksum (row_head r)) ++ rest)))
  unfolding row_layout row_head
  row_shape r rest =
      let sum = le_bytes 4 (checksum (row_head r)) in
      ap (λ b. r.row_type ∷ b)
        (append_assoc (string_layout r.entity_id ++ string_layout r.contents) sum rest
          ∙ append_assoc (string_layout r.entity_id) (string_layout r.contents) (sum ++ rest))

  pub decode_row-layout :
      (r : Row) (rest : Bytes)
      → FitsRow r
      → decode_row checksum (row_layout checksum r ++ rest) ≡ ok (summed checksum r, row_size r)
  unfolding decode_row
  decode_row-layout r rest fits =
      let sum = le_bytes 4 (checksum (row_head r)) in
      let r₁ = sum ++ rest in
      let r₂ = string_layout r.contents ++ r₁ in
      let r₃ = string_layout r.entity_id ++ r₂ in
      let bytes : Bytes = r.row_type ∷ r₃ in
      let a₁ = At-start_cons r.row_type r₃ in
      let a₂ = At-step_string bytes r.entity_id r₂ 1 a₁ in
      let offset₁ = 1 + 4 + length r.entity_id in
      let a₃ = At-step_string bytes r.contents r₁ offset₁ a₂ in
      let offset₂ = offset₁ + 4 + length r.contents in
      let room : ltb (length bytes) (1 + 4) ≡ false = ltb-eq-false (length bytes) 5 (
        omega (
          arith,
          length-append (string_layout r.entity_id) r₂,
          length-string_layout r.entity_id,
        )) in
      rw
        (
          row_shape r rest,
          room,
          read_string-At no_id_length no_id bytes r.entity_id r₂ 1 fits.0 a₁,
          read_string-At no_data_length no_data bytes r.contents r₁ offset₁ fits.1 a₂,
          read_number-At no_crc bytes rest offset₂ 4 (checksum (row_head r)) (sums (row_head r)) a₃,
          expected_crc-eq checksum (summed checksum r),
          head_summed r,
          (==_iff (checksum (row_head r)) (checksum (row_head r))).1 refl,
          decode_row,
        )
        (ap (λ n. ok (summed checksum r, n)) (size_sum r))
