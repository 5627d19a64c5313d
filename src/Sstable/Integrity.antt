-- ===== src/Sstable/Integrity.antt =====
-- What a read promises of any bytes, damaged ones too.
use allidb.Wire.Cursor.{read_bytes, read_number}
use allidb.Wire.Text.{read_string}
use allidb.Sstable.Format.{Row}
use allidb.Sstable.Reader.{
  Reader, no_row_header, no_id_length, no_id, no_data_length, no_data, no_crc, crc_mismatch,
  out_of_bounds, expected_crc, is_negative, int64_lt, decode_row, read_row_at, read_rows,
  entry_from, end_offset, get,
}
use allidb.Sstable.Layout.{row_head}
use allidb.Sstable.Rows.{expected_crc-eq}
use allidb.Base.{
  All, Bool-cases, Bytes, List, OnOk, OnOk->>=, OnOk-fail_if, OnOk-weaken, Option-cases,
  Result-cases, [], arith, drop, fail_if, get_elem?, inl, inr, leb, length, ltb, not, ok, ok-OnOk,
  refl, search, str_eq, str_eq_iff, suc, zero, ℕ, ◌+◌, ◌<◌, ◌==◌, ◌>>=◌, ◌>>◌, ◌||◌, ◌∷◌, ◌≡◌, ◌≤◌,
}

read_bytes-OnOk :
    {E : Type 0} (error : E) (bytes : Bytes) (n offset : ℕ)
    → OnOk
        (λ read. (read.1 ≡ offset + n) × (read.1 ≤ length bytes))
        (read_bytes error bytes n offset)
unfolding read_bytes
read_bytes-OnOk error bytes n offset = elim (Bool-cases (ltb (length bytes) (offset + n))) [
  | inl e ↦ rw e tt
  | inr e ↦ rw e (refl, ground (arith, e))
]

pub read_number-OnOk :
    {E : Type 0} (error : E) (width : ℕ) (bytes : Bytes) (offset : ℕ)
    → OnOk
        (λ read. (read.1 ≡ offset + width) × (read.1 ≤ length bytes))
        (read_number error width bytes offset)
unfolding read_number
read_number-OnOk error width bytes offset =
    OnOk->>= _ _ (read_bytes error bytes width offset) _ (read_bytes-OnOk error bytes width offset)
      (λ read h. h)

pub read_string-OnOk :
    {E : Type 0} (no_length no_content : E) (bytes : Bytes) (offset : ℕ)
    → OnOk
        (λ read. (offset + 4 ≤ read.1) × (read.1 ≤ length bytes))
        (read_string no_length no_content bytes offset)
unfolding read_string
read_string-OnOk no_length no_content bytes offset =
    OnOk->>= _ _ (read_number no_length 4 bytes offset) _
      (read_number-OnOk no_length 4 bytes offset)
      (λ size h.
        OnOk-weaken (read_bytes no_content bytes size.0 size.1)
          (read_bytes-OnOk no_content bytes size.0 size.1) (λ read k. omega (arith, h.0, k.0, k.1)))

module _ (checksum : Bytes → ℕ) where
  -- The row has the checksum that it carries.
  abbrev pub IsIntact : Row → Type 0
  IsIntact r = checksum (row_head r) ≡ r.crc32

  abbrev pub IsSound : Bytes → Row × ℕ → Type 0
  IsSound bytes read = (0 < read.1) × (read.1 ≤ length bytes) × IsIntact read.0

  checked :
      (row : Row) (bytes : Bytes) (end : ℕ)
      → 0 < end
      → end ≤ length bytes
      → OnOk (IsSound bytes) (
          expected_crc checksum row >>= λ expected.
          fail_if (not (row.crc32 == expected)) crc_mismatch >> ok (row, end))
  checked row bytes end moved inside =
      let sum = checksum (row_head row) in
      rw (expected_crc-eq checksum row) (
        OnOk->>= _ _ (fail_if (not (row.crc32 == sum)) crc_mismatch) _ (OnOk-fail_if _ crc_mismatch)
          (λ _ e. (moved, inside, ground (arith, e))))

  pub decode_row-OnOk : (bytes : Bytes) → OnOk (IsSound bytes) (decode_row checksum bytes)
  unfolding decode_row
  decode_row-OnOk [] = tt
  decode_row-OnOk (t ∷ rest) =
      let bytes : Bytes = t ∷ rest in
      OnOk->>= _ _ (fail_if (ltb (length bytes) 5) no_row_header) _ (OnOk-fail_if _ no_row_header)
        (λ _ _.
          OnOk->>= _ _ (read_string no_id_length no_id bytes 1) _
            (read_string-OnOk no_id_length no_id bytes 1)
            (λ id h₁.
              OnOk->>= _ _ (read_string no_data_length no_data bytes id.1) _
                (read_string-OnOk no_data_length no_data bytes id.1)
                (λ contents h₂.
                  OnOk->>= _ _ (read_number no_crc 4 bytes contents.1) _
                    (read_number-OnOk no_crc 4 bytes contents.1)
                    (λ crc h₃.
                      checked
                        (record {
                          row_type = t;
                          entity_id = id.0;
                          contents = contents.0;
                          crc32 = crc.0;
                        })
                        bytes crc.1 (omega (arith, h₁.0, h₂.0, h₃.0)) h₃.1))))

  read_row_at-OnOk :
      (bytes : Bytes) (offset : ℕ)
      → OnOk (λ read. IsIntact read.0) (read_row_at checksum bytes offset)
  unfolding read_row_at
  read_row_at-OnOk bytes offset =
      OnOk->>= _ _ (fail_if (is_negative offset || leb (length bytes) offset) out_of_bounds) _
        (OnOk-fail_if _ out_of_bounds)
        (λ _ _.
          OnOk->>= _ _ (decode_row checksum (drop offset bytes)) _
            (decode_row-OnOk (drop offset bytes)) (λ read h. h.2))

  abbrev IsOwn : Bytes → Row → Type 0
  IsOwn id row = (row.entity_id ≡ id) × IsIntact row

  read_rows-OnOk :
      (fuel : ℕ) (bytes id : Bytes) (current end : ℕ)
      → OnOk (All (IsOwn id)) (read_rows checksum fuel bytes id current end)
  unfolding read_rows
  read_rows-OnOk zero bytes id current end = tt
  read_rows-OnOk (suc fuel) bytes id current end = elim (Bool-cases (int64_lt current end)) [
    | inr done ↦ rw (done, read_rows) tt
    | inl more ↦ elim (Result-cases (read_row_at checksum bytes current)) [
      | inr (e, at) ↦ rw (more, at, read_rows) tt
      | inl ((row, next), at) ↦ elim (Bool-cases (str_eq row.entity_id id)) [
        | inr other ↦ rw (more, at, other, read_rows) tt
        | inl same ↦
            rw (more, at, same, read_rows)
              (OnOk->>= _ _ (read_rows checksum fuel bytes id next end) _
                (read_rows-OnOk fuel bytes id next end)
                (λ rows h. (
                  (
                    (str_eq_iff row.entity_id id).0 same,
                    ok-OnOk (λ read. IsIntact read.0) (read_row_at checksum bytes current)
                        (read_row_at-OnOk bytes current) at,
                  ),
                  h,
                )))
      ]
    ]
  ]

  get-OnOk : (r : Reader) (id : Bytes) → OnOk (All (IsOwn id)) (get checksum r id)
  unfolding get
  get-OnOk r id =
      let i = search (length r.index) (entry_from r.index id) in
      elim (Option-cases (get_elem? r.index i)) [
        | inl none_there ↦ rw (none_there, get) tt
        | inr (e, there) ↦ elim (Bool-cases (str_eq e.entity_id id)) [
          | inr other ↦ rw (there, other, get) tt
          | inl same ↦
              rw (there, same, get)
                (read_rows-OnOk (suc (length r.bytes)) r.bytes id e.offset (end_offset r i))
        ]
      ]

  -- Of any reader, damaged bytes, footers and indexes included: where Get succeeds, each row is of
  -- the entity that was asked for and carries the checksum of its type, id and data.
  pub get-IsOwn :
      (r : Reader) (id : Bytes) {rows : List Row}
      → get checksum r id ≡ ok rows
      → All (λ row. (row.entity_id ≡ id) × (checksum (row_head row) ≡ row.crc32)) rows
  get-IsOwn r id h = ok-OnOk (All (IsOwn id)) (get checksum r id) (get-OnOk r id) h
