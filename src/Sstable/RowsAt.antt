-- ===== src/Sstable/RowsAt.antt =====
-- Rows that stand at an offset are read from there.
use allidb.Wire.Cursor.{At, At-step}
use allidb.Sstable.Format.{Row, row_size}
use allidb.Sstable.Reader.{is_negative, int64_lt, read_row_at, read_rows}
use allidb.Sstable.Layout.{row_layout, length-row_layout}
use allidb.Sstable.Rows.{FitsRow, summed, decode_row-layout}
use allidb.Sstable.Groups.{sizes, rows_layout, length-rows_layout}
use allidb.Base.{
  All, Bytes, List, [], append_assoc, arith, false, leb, length, length-append, lt→ltb, map, ok,
  refl, str_eq_iff, suc, true, zero, ℕ, ◌%◌, ◌++◌, ◌+◌, ◌<◌, ◌^◌, ◌||◌, ◌∷◌, ◌≡◌, ◌≤◌,
}

pub row_size-positive : (r : Row) → 13 ≤ row_size r
unfolding row_size
row_size-positive r = omega arith

pub rows-few : (rs : List Row) → length rs ≤ sizes rs
rows-few [] = omega arith
rows-few (r ∷ rs) = omega (arith, rows-few rs, row_size-positive r)

module _ (checksum : Bytes → ℕ) (sums : (b : Bytes) → checksum b < 2 ^ 32) where
  read_row_at-At :
      (r : Row) (bytes rest : Bytes) (offset : ℕ)
      → FitsRow r
      → length bytes < 2 ^ 63
      → At bytes offset (row_layout checksum r ++ rest)
      → read_row_at checksum bytes offset ≡ ok (summed checksum r, offset + row_size r)
  unfolding read_row_at
  read_row_at-At r bytes rest offset fits small a =
      let total : offset + (row_size r + length rest) ≡ length bytes =
        omega (
          arith,
          a.size,
          length-append (row_layout checksum r) rest,
          length-row_layout checksum r,
        ) in
      let inside : (is_negative offset || leb (length bytes) offset) ≡ false =
        ground (arith, total, row_size-positive r) in
      let next : (offset + row_size r) % 2 ^ 64 ≡ offset + row_size r = omega arith in
      rw (inside, a.tail, decode_row-layout checksum sums r rest fits, next) refl

  pub read_rows-At :
      (rs : List Row) (fuel : ℕ) (bytes rest id : Bytes) (offset end : ℕ)
      → All FitsRow rs
      → All (λ r. r.entity_id ≡ id) rs
      → length rs < fuel
      → length bytes < 2 ^ 63
      → end ≡ offset + sizes rs
      → At bytes offset (rows_layout checksum rs ++ rest)
      → read_rows checksum fuel bytes id offset end ≡ ok (map (summed checksum) rs)
  unfolding read_rows
  read_rows-At rs zero bytes rest id offset end fits same h small e a = absurd (omega arith)
  read_rows-At [] (suc fuel) bytes rest id offset end fits same h small e a =
      let done : int64_lt offset end ≡ false = ground (arith, e, a.size) in
      rw (done, read_rows) refl
  read_rows-At (r ∷ rs) (suc fuel) bytes rest id offset end fits same h small e a =
      let a' = rw (append_assoc (row_layout checksum r) (rows_layout checksum rs) rest) at a in
      let after =
        rw (length-row_layout checksum r) at
          (At-step bytes (row_layout checksum r) (rows_layout checksum rs ++ rest) offset a') in
      let within : offset + sizes (r ∷ rs) ≤ length bytes = omega (
        arith,
        after.size,
        length-append (rows_layout checksum rs) rest,
        length-rows_layout checksum rs,
      ) in
      let more : int64_lt offset end ≡ true =
        lt→ltb ((offset + 2 ^ 63) % 2 ^ 64) ((end + 2 ^ 63) % 2 ^ 64)
          (omega (arith, within, e, row_size-positive r)) in
      let next : end ≡ offset + row_size r + sizes rs = omega (arith, e) in
      rw
        (
          more,
          read_row_at-At r bytes (rows_layout checksum rs ++ rest) offset fits.0 small a',
          (str_eq_iff r.entity_id id).1 same.0,
          read_rows-At rs fuel bytes rest id (offset + row_size r) end fits.1 same.1 (omega arith)
              small next after,
          read_rows,
        )
        refl
