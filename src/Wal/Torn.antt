-- ===== src/Wal/Torn.antt =====
-- A log file whose last write was cut short: the whole entries are handed over, and then the
-- replay ends with an error.
use allidb.Wire.Numbers.{le_bytes, length-le_bytes, le_value-le_bytes}
use allidb.Wal.{
  bad, ReplayError, short_length, short_checksum, short_data, and_then, frame, read_entry,
  read_checksum, read_data, replay_file,
}
use allidb.Wal.Frames.{
  IsChecksum, Short, frames, length-frame, apply_all, read_entry_long, read_checksum_long,
  read_entry-frame, take_front, drop_front,
}
use allidb.Base.{
  All, Bool-cases, Bytes, List, Option, Option-cases, [], ap, append_assoc, arith, if◌then◌else◌,
  inl, inr, length, length-append, length-take, ltb, ltb→lt, lt→ltb, refl, some, suc, take, zero, ℕ,
  ◌++◌, ◌+◌, ◌-◌, ◌<◌, ◌∷◌, ◌≡◌, ◌≤◌,
}

-- The error for a frame of which only k bytes are there.
abbrev pub torn_error : ℕ → ReplayError
torn_error k = if ltb k 4 then short_length else if ltb k 8 then short_checksum else short_data

take_beyond {ℓ} :
    {A : Type ℓ} (k n : ℕ) (xs ys : List A)
    → k ≡ length xs + n
    → take k (xs ++ ys) ≡ xs ++ take n ys
take_beyond k n [] ys e = let e' : k ≡ n = omega arith in rw e'
take_beyond zero n (x ∷ xs) ys e = absurd (omega arith)
take_beyond (suc k) n (x ∷ xs) ys e = ap (◌∷◌ x) (take_beyond k n xs ys (omega arith))

module _ (crc32 : Bytes → ℕ) where
  read_entry_short :
      (bs : Bytes) → 0 < length bs → length bs < 4 → read_entry crc32 bs ≡ bad short_length
  unfolding read_entry
  read_entry_short [] h k = absurd (omega arith)
  read_entry_short (b ∷ bs) h k = rw (lt→ltb (length (b ∷ bs)) 4 k)

  read_checksum_short :
      (n : ℕ) (bs : Bytes) → length bs < 4 → read_checksum crc32 n bs ≡ bad short_checksum
  unfolding read_checksum
  read_checksum_short n bs h = rw (lt→ltb (length bs) 4 h)

  read_data_short :
      (n sum : ℕ) (bs : Bytes) → length bs < n → read_data crc32 n sum bs ≡ bad short_data
  unfolding read_data
  read_data_short n sum bs h = rw (lt→ltb (length bs) n h)

  length-take_le : (k : ℕ) (bs : Bytes) → k ≤ length bs → length (take k bs) ≡ k
  length-take_le k bs h = omega (arith, length-take k bs)

  module _ (sums : IsChecksum crc32) (x : Bytes) (short : Short x) where
    size : Bytes
    size = le_bytes 4 (length x)

    sum : Bytes
    sum = le_bytes 4 (crc32 x)

    size_4 : length size ≡ 4
    unfolding size
    size_4 = length-le_bytes 4 (length x)

    sum_4 : length sum ≡ 4
    unfolding sum
    sum_4 = length-le_bytes 4 (crc32 x)

    frame_parts : frame crc32 x ≡ size ++ (sum ++ x)
    unfolding frame size sum
    frame_parts = refl

    -- ReadEntry on the rest of a frame behind its length field
    read_after_size :
        (bs : Bytes) → read_entry crc32 (size ++ bs) ≡ read_checksum crc32 (length x) bs
    unfolding size
    read_after_size bs =
        read_entry_long crc32 (size ++ bs) (length x) bs
          (omega (arith, length-append size bs, size_4))
          (rw (take_front 4 size bs size_4) (le_value-le_bytes 4 (length x) short))
          (drop_front 4 size bs size_4)

    read_after_sum :
        (bs : Bytes)
        → read_checksum crc32 (length x) (sum ++ bs) ≡ read_data crc32 (length x) (crc32 x) bs
    unfolding sum
    read_after_sum bs =
        read_checksum_long crc32 (length x) (sum ++ bs) (crc32 x) bs
          (omega (arith, length-append sum bs, sum_4))
          (rw (take_front 4 sum bs sum_4) (le_value-le_bytes 4 (crc32 x) (sums x)))
          (drop_front 4 sum bs sum_4)

    read_entry-torn :
        (k : ℕ)
        → 0 < k
        → k < 8 + length x
        → read_entry crc32 (take k (frame crc32 x)) ≡ bad (torn_error k)
    read_entry-torn k some_bytes h = elim (Bool-cases (ltb k 4)) [
      | inl early ↦
          let n = length-take_le k (frame crc32 x) (omega (arith, length-frame crc32 x)) in
          rw early (
            read_entry_short (take k (frame crc32 x)) (omega (arith, n))
              (omega (arith, n, ltb→lt k 4 early)))
      | inr later ↦
          let past : 4 ≤ k = ground arith in
          rw
            (
              later,
              frame_parts,
              take_beyond k (k - 4) size (sum ++ x) (omega (arith, size_4)),
              read_after_size (take (k - 4) (sum ++ x)),
            )
            (elim (Bool-cases (ltb k 8)) [
              | inl mid ↦
                  let n =
                    length-take_le (k - 4) (sum ++ x) (omega (arith, length-append sum x, sum_4)) in
                  rw mid (
                    read_checksum_short (length x) (take (k - 4) (sum ++ x))
                      (omega (arith, n, ltb→lt k 8 mid)))
              | inr late ↦
                  let past' : 8 ≤ k = ground arith in
                  rw
                    (
                      late,
                      take_beyond (k - 4) (k - 8) sum x (omega (arith, sum_4)),
                      read_after_sum (take (k - 8) x),
                    )
                    (read_data_short (length x) (crc32 x) (take (k - 8) x)
                      (omega (arith, length-take (k - 8) x)))
            ])
    ]

  -- A file that ends in the first k bytes of a frame, neither none nor all of it, hands its whole
  -- entries to the callback and then, unless the callback failed, ends in an error, which says where
  -- the frame was cut. The entries are shorter than 2 ^ 32 bytes, a checksum fits into 32 bits, and
  -- more fuel than the file has bytes is enough.
  pub replay_file-torn :
      (sums : IsChecksum crc32) {S : Type 0} (callback : S → Bytes → Option S) (x : Bytes)
      (xs : List Bytes) (k fuel : ℕ) (s : S)
      → Short x
      → All Short xs
      → 0 < k
      → k < 8 + length x
      → length (frames crc32 xs) + k < fuel
      → replay_file crc32 callback fuel (frames crc32 xs ++ take k (frame crc32 x)) s
        ≡ and_then (apply_all callback xs s) (λ s'. (s', some (torn_error k)))
  unfolding replay_file frames apply_all
  replay_file-torn sums callback x xs k zero s short shorts some_bytes h enough = elim enough [ ]
  replay_file-torn sums callback x [] k (suc fuel) s short shorts some_bytes h enough =
      rw (read_entry-torn sums x short k some_bytes h, replay_file)
  replay_file-torn sums callback x (y ∷ ys) k (suc fuel) s short shorts some_bytes h enough =
      let rest = frames crc32 ys ++ take k (frame crc32 x) in
      let size' = length-frame crc32 y in
      let whole = length-append (frame crc32 y) (frames crc32 ys) in
      rw (append_assoc (frame crc32 y) (frames crc32 ys) (take k (frame crc32 x)))
        (elim (Option-cases (callback s y)) [
          | inl e ↦ rw (read_entry-frame crc32 sums y rest shorts.0, e, replay_file, apply_all)
          | inr (s', e) ↦
              rw (read_entry-frame crc32 sums y rest shorts.0, e, replay_file, apply_all)
                (replay_file-torn sums callback x ys k fuel s' short shorts.1 some_bytes h
                  (omega (arith, size', whole)))
        ])
