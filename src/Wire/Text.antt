-- ===== src/Wire/Text.antt =====
-- A string on the wire: its length in four bytes, then its bytes. core/entity and core/storage
-- write and read every string so.
use allidb.Wire.Numbers.{le_bytes, length-le_bytes}
use allidb.Wire.Buffer.{Panic, Buffer, put, filled, put-filled}
use allidb.Wire.Cursor.{
  read_bytes, read_uint32, At, At-step, At-step_number, read_bytes-At, read_number-At,
}
use allidb.Base.{
  Bytes, Result, ap, append_assoc, arith, length, length-append, ok, refl, ℕ, ◌++◌, ◌+◌, ◌<◌, ◌>>=◌,
  ◌^◌, ◌≡◌,
}

unfoldable pub put_string : Bytes → Buffer → Result Panic Buffer
put_string s b = do b' ← put (le_bytes 4 (length s)) b; put s b'

unfoldable pub read_string : {E : Type 0} → E → E → Bytes → ℕ → Result E (Bytes × ℕ)
read_string no_length no_content bytes offset = do
  (n, offset') ← read_uint32 no_length bytes offset
  read_bytes no_content bytes n offset'

-- The bytes of a string on the wire.
unfoldable pub string_layout : Bytes → Bytes
string_layout s = le_bytes 4 (length s) ++ s

pub length-string_layout : (s : Bytes) → length (string_layout s) ≡ 4 + length s
unfolding string_layout
length-string_layout s =
    omega (arith, length-append (le_bytes 4 (length s)) s, length-le_bytes 4 (length s))

pub put_string-filled :
    (s pre : Bytes) (n m : ℕ)
    → n ≡ 4 + length s + m
    → put_string s (filled pre n) ≡ ok (filled (pre ++ string_layout s) m)
unfolding put_string string_layout
put_string-filled s pre n m e =
    rw
      (put-filled (le_bytes 4 (length s)) pre n (length s + m)
        (omega (arith, length-le_bytes 4 (length s))))
      (rw (put-filled s (pre ++ le_bytes 4 (length s)) (length s + m) m refl)
        (ap (λ p. ok (filled p m)) (append_assoc pre (le_bytes 4 (length s)) s)))

-- Lengths below 2 ^ 32 survive the four bytes.
abbrev pub Fits : Bytes → Type 0
Fits s = length s < 2 ^ 32

pub At-step_string :
    (bytes s rest : Bytes) (offset : ℕ)
    → At bytes offset (string_layout s ++ rest)
    → At bytes (offset + 4 + length s) rest
unfolding string_layout
At-step_string bytes s rest offset a = At-step bytes s rest (offset + 4) (
    At-step_number bytes (s ++ rest) offset 4 (length s)
      (rw (append_assoc (le_bytes 4 (length s)) s rest) at a))

pub read_string-At :
    {E : Type 0} (no_length no_content : E) (bytes s rest : Bytes) (offset : ℕ)
    → Fits s
    → At bytes offset (string_layout s ++ rest)
    → read_string no_length no_content bytes offset ≡ ok (s, offset + 4 + length s)
unfolding read_string string_layout
read_string-At no_length no_content bytes s rest offset fits a =
    let a' = rw (append_assoc (le_bytes 4 (length s)) s rest) at a in
    rw (read_number-At no_length bytes (s ++ rest) offset 4 (length s) fits a') (
      read_bytes-At no_content bytes rest (offset + 4) s (length s) refl
        (At-step_number bytes (s ++ rest) offset 4 (length s) a'))
