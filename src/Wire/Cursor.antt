-- ===== src/Wire/Cursor.antt =====
-- Reads at an offset: each checks that the data reaches far enough, and moves the offset.
use allidb.Wire.Numbers.{le_bytes, le_value, length-le_bytes, le_value-le_bytes}
use allidb.Base.{
  Bytes, Result, arith, drop, drop-append, drop-drop, err, false, if◌then◌else◌, length,
  length-append, ltb, ok, refl, sym, take, take-append, ℕ, ◌++◌, ◌+◌, ◌-◌, ◌<◌, ◌>>=◌, ◌^◌, ◌∙◌,
  ◌≡◌,
}

-- data[from:to]
abbrev pub slice : Bytes → ℕ → ℕ → Bytes
slice bytes from to = take (to - from) (drop from bytes)

module _ {E : Type 0} where
  -- if offset+n > len(data) { return error }; x := data[offset:offset+n]; offset += n
  unfoldable pub read_bytes : E → Bytes → ℕ → ℕ → Result E (Bytes × ℕ)
  read_bytes error bytes n offset =
      if ltb (length bytes) (offset + n)
      then err error
      else ok (slice bytes offset (offset + n), offset + n)

  unfoldable pub read_number : E → ℕ → Bytes → ℕ → Result E (ℕ × ℕ)
  unfolding read_bytes
  read_number error width bytes offset = do
    (x, offset') ← read_bytes error bytes width offset
    ok (le_value x, offset')

  abbrev pub read_uint32 : E → Bytes → ℕ → Result E (ℕ × ℕ)
  read_uint32 error = read_number error 4

  abbrev pub read_uint64 : E → Bytes → ℕ → Result E (ℕ × ℕ)
  read_uint64 error = read_number error 8

-- From the offset on, the data reads `rest`.
pub record At (bytes : Bytes) (offset : ℕ) (rest : Bytes) : Type 0 where
  pub tail : drop offset bytes ≡ rest
  pub size : offset + length rest ≡ length bytes

pub At-start : (bytes : Bytes) → At bytes 0 bytes
At-start bytes = record { tail = refl; size = omega arith }

pub At-of_eq : (bytes rest : Bytes) → bytes ≡ rest → At bytes 0 rest
At-of_eq bytes rest e = rw e (At-start rest)

pub At-step :
    (bytes x rest : Bytes) (offset : ℕ)
    → At bytes offset (x ++ rest)
    → At bytes (offset + length x) rest
At-step bytes x rest offset a = record {
  tail = sym (drop-drop offset (length x) bytes) ∙ rw (a.tail) (drop-append x rest);
  size = omega (arith, a.size, length-append x rest);
}

pub At-step_number :
    (bytes rest : Bytes) (offset width v : ℕ)
    → At bytes offset (le_bytes width v ++ rest)
    → At bytes (offset + width) rest
At-step_number bytes rest offset width v a =
    rw (length-le_bytes width v) at (At-step bytes (le_bytes width v) rest offset a)

module _ {E : Type 0} (error : E) (bytes rest : Bytes) (offset : ℕ) where
  pub read_bytes-At :
      (x : Bytes) (n : ℕ)
      → n ≡ length x
      → At bytes offset (x ++ rest)
      → read_bytes error bytes n offset ≡ ok (x, offset + n)
  unfolding read_bytes
  read_bytes-At x n e a =
      let room : ltb (length bytes) (offset + n) ≡ false =
        ground (arith, a.size, length-append x rest) in
      let count : offset + n - offset ≡ length x = omega arith in
      rw (room, count, a.tail, take-append x rest)

  pub read_number-At :
      (width v : ℕ)
      → v < 256 ^ width
      → At bytes offset (le_bytes width v ++ rest)
      → read_number error width bytes offset ≡ ok (v, offset + width)
  unfolding read_number
  read_number-At width v h a =
      rw (read_bytes-At (le_bytes width v) width (sym (length-le_bytes width v)) a)
        (rw (le_value-le_bytes width v h))
