-- ===== src/Wire/Buffer.antt =====
-- `buf := make([]byte, size)`, and `copy(buf[offset:offset+len(x)], x); offset += len(x)`: a write
-- past the end of the buffer panics.
use allidb.Base.{
  Bytes, Result, [], ap, append-nil, arith, drop, drop-append, drop-drop, err, if◌then◌else◌, leb,
  length, length-append, length-replicate, ok, refl, replicate, suc, sym, take, take-append, true,
  zero, ℕ, ◌++◌, ◌+◌, ◌∙◌, ◌≡◌,
}

pub data Panic : Type 0 where
  out_of_range : Panic

pub record Buffer : Type 0 where
  pub bytes : Bytes
  pub offset : ℕ

unfoldable pub make : ℕ → Buffer
make size = record { bytes = replicate size 0; offset = 0 }

unfoldable pub put : Bytes → Buffer → Result Panic Buffer
put x b =
    if leb (b.offset + length x) (length b.bytes)
    then ok (record {
      bytes = take b.offset b.bytes ++ x ++ drop (b.offset + length x) b.bytes;
      offset = b.offset + length x;
    })
    else err out_of_range

-- The buffer after the bytes `pre` were written, with room for n more.
unfoldable pub filled : Bytes → ℕ → Buffer
filled pre n = record { bytes = pre ++ replicate n 0; offset = length pre }

pub make-eq-filled : (n : ℕ) → make n ≡ filled [] n
unfolding make filled
make-eq-filled n = refl

drop-replicate : (m n : ℕ) (v : ℕ) → drop m (replicate (m + n) v) ≡ replicate n v
drop-replicate zero n v = ap (λ k. replicate k v) (omega arith)
drop-replicate (suc m) n v =
    let e : suc m + n ≡ suc (m + n) = omega arith in rw e (drop-replicate m n v)

-- A write that the room allows puts its bytes behind the others.
pub put-filled :
    (x pre : Bytes) (n m : ℕ) → n ≡ length x + m → put x (filled pre n) ≡ ok (filled (pre ++ x) m)
unfolding put filled
put-filled x pre n m e =
    let rest : Bytes = replicate n 0 in
    let room : leb (length pre + length x) (length (pre ++ rest)) ≡ true =
      ground (arith, length-append pre rest, length-replicate {A = ℕ} n 0) in
    let back : drop (length pre + length x) (pre ++ rest) ≡ replicate m 0 =
      sym (drop-drop (length pre) (length x) (pre ++ rest))
      ∙ rw (drop-append pre rest, e) (drop-replicate (length x) m 0) in
    rw (room, take-append pre rest, back)
      (ap ok
        (λ i. record { bytes = (pre ++ x) ++ replicate m 0; offset = sym (length-append pre x) i }))

pub bytes-filled : (pre : Bytes) → (filled pre 0).bytes ≡ pre
unfolding filled
bytes-filled pre = append-nil pre
