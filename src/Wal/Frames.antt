-- ===== src/Wal/Frames.antt =====
-- Reading a file of whole entries: every entry comes back, in order, and the loop ends.
use allidb.Wire.Numbers.{le_bytes, le_value, length-le_bytes, le_value-le_bytes}
use allidb.Wal.{
  eof, entry, ReplayError, frame, read_entry, read_checksum, read_data, replay_file,
  callback_failed,
}
use allidb.Base.{
  All, Bytes, List, Option, Option-cases, [], ap, append-nil, append_assoc, arith, drop,
  drop-append, false, inl, inr, length, length-append, ltb, ltb-eq-false, none, refl, some, suc,
  sym, take, take-append, zero, ℕ, ◌++◌, ◌+◌, ◌<◌, ◌^◌, ◌∙◌, ◌∷◌, ◌≡◌, ◌≤◌,
}

-- What crc32.ChecksumIEEE promises here: a 32-bit number.
abbrev pub IsChecksum : (Bytes → ℕ) → Type 0
IsChecksum crc32 = (x : Bytes) → crc32 x < 2 ^ 32

abbrev pub Short : Bytes → Type 0
Short x = length x < 2 ^ 32

pub take_front {ℓ} : {A : Type ℓ} (n : ℕ) (xs ys : List A) → length xs ≡ n → take n (xs ++ ys) ≡ xs
take_front n xs ys e = rw (← e) (take-append xs ys)

pub drop_front {ℓ} : {A : Type ℓ} (n : ℕ) (xs ys : List A) → length xs ≡ n → drop n (xs ++ ys) ≡ ys
drop_front n xs ys e = rw (← e) (drop-append xs ys)

read_entry_end : (crc32 : Bytes → ℕ) → read_entry crc32 [] ≡ eof
unfolding read_entry
read_entry_end crc32 = refl

-- The callback over a list of entries, up to its first error.
unfoldable pub apply_all :
    {S : Type 0} → (S → Bytes → Option S) → List Bytes → S → S × Option ReplayError
apply_all callback [] s = (s, none)
apply_all callback (x ∷ xs) s = elim (callback s x) [
  | none ↦ (s, some callback_failed)
  | some s' ↦ apply_all callback xs s'
]

module _ (crc32 : Bytes → ℕ) where
  -- The bytes of a file that holds these entries.
  unfoldable pub frames : List Bytes → Bytes
  frames [] = []
  frames (x ∷ xs) = frame crc32 x ++ frames xs

  pub length-frame : (x : Bytes) → length (frame crc32 x) ≡ 8 + length x
  unfolding frame
  length-frame x = omega (
    arith,
    length-append (le_bytes 4 (length x)) (le_bytes 4 (crc32 x) ++ x),
    length-append (le_bytes 4 (crc32 x)) x,
    length-le_bytes 4 (length x),
    length-le_bytes 4 (crc32 x),
  )

  pub frames-append : (xs ys : List Bytes) → frames (xs ++ ys) ≡ frames xs ++ frames ys
  unfolding frames
  frames-append [] ys = refl
  frames-append (x ∷ xs) ys =
      ap (◌++◌ (frame crc32 x)) (frames-append xs ys)
      ∙ sym (append_assoc (frame crc32 x) (frames xs) (frames ys))

  pub length-frames_snoc :
      (xs : List Bytes) (x : Bytes)
      → length (frames (xs ++ x ∷ [])) ≡ length (frames xs) + (8 + length x)
  unfolding frames
  length-frames_snoc [] x = ap length (append-nil (frame crc32 x)) ∙ length-frame x ∙ omega arith
  length-frames_snoc (y ∷ ys) x = omega (
    arith,
    length-append (frame crc32 y) (frames (ys ++ x ∷ [])),
    length-append (frame crc32 y) (frames ys),
    length-frames_snoc ys x,
  )

  -- The reads of ReadEntry on a file that is long enough.
  pub read_entry_long :
      (bs : Bytes) (n : ℕ) (rest : Bytes)
      → 4 ≤ length bs
      → le_value (take 4 bs) ≡ n
      → drop 4 bs ≡ rest
      → read_entry crc32 bs ≡ read_checksum crc32 n rest
  unfolding read_entry
  read_entry_long [] n rest h e f = absurd (omega arith)
  read_entry_long (b ∷ bs) n rest h e f =
      let long : ltb (length (b ∷ bs)) 4 ≡ false = ltb-eq-false (length (b ∷ bs)) 4 h in
      rw (long, e, f)

  pub read_checksum_long :
      (n : ℕ) (bs : Bytes) (checksum : ℕ) (rest : Bytes)
      → 4 ≤ length bs
      → le_value (take 4 bs) ≡ checksum
      → drop 4 bs ≡ rest
      → read_checksum crc32 n bs ≡ read_data crc32 n checksum rest
  unfolding read_checksum
  read_checksum_long n bs checksum rest h e f = rw (ltb-eq-false (length bs) 4 h, e, f)

  read_data_long :
      (x rest : Bytes) → read_data crc32 (length x) (crc32 x) (x ++ rest) ≡ entry x rest
  unfolding read_data
  read_data_long x rest =
      rw
        (
          ltb-eq-false (length (x ++ rest)) (length x) (omega (arith, length-append x rest)),
          take-append x rest,
          drop-append x rest,
        )
        (ground arith)

  module _ (sums : IsChecksum crc32) where
    -- ReadEntry takes a written entry off the front of a file.
    pub read_entry-frame :
        (x rest : Bytes) → Short x → read_entry crc32 (frame crc32 x ++ rest) ≡ entry x rest
    unfolding frame
    read_entry-frame x rest short =
        let size = le_bytes 4 (length x) in
        let sum = le_bytes 4 (crc32 x) in
        let size_4 : length size ≡ 4 = length-le_bytes 4 (length x) in
        let sum_4 : length sum ≡ 4 = length-le_bytes 4 (crc32 x) in
        rw (append_assoc size (sum ++ x) rest, append_assoc sum x rest)
          (read_entry_long (size ++ (sum ++ (x ++ rest))) (length x) (sum ++ (x ++ rest))
              (omega (arith, length-append size (sum ++ (x ++ rest))))
              (rw (take_front 4 size (sum ++ (x ++ rest)) size_4)
                (le_value-le_bytes 4 (length x) short))
              (drop_front 4 size (sum ++ (x ++ rest)) size_4)
            ∙ read_checksum_long (length x) (sum ++ (x ++ rest)) (crc32 x) (x ++ rest)
                (omega (arith, length-append sum (x ++ rest)))
                (rw (take_front 4 sum (x ++ rest) sum_4) (le_value-le_bytes 4 (crc32 x) (sums x)))
                (drop_front 4 sum (x ++ rest) sum_4)
            ∙ read_data_long x rest)

    module _ {S : Type 0} (callback : S → Bytes → Option S) where
      -- On a file of whole frames, each of an entry shorter than 2 ^ 32 bytes, replayFile hands the
      -- entries to the callback in order and stops at its first error; more fuel than the file has
      -- bytes is enough.
      pub replay_file-frames :
          (xs : List Bytes) (fuel : ℕ) (s : S)
          → All Short xs
          → length (frames xs) < fuel
          → replay_file crc32 callback fuel (frames xs) s ≡ apply_all callback xs s
      unfolding replay_file frames apply_all
      replay_file-frames xs zero s short h = elim h [ ]
      replay_file-frames [] (suc fuel) s short h = rw (read_entry_end crc32, replay_file)
      replay_file-frames (x ∷ xs) (suc fuel) s short h =
          let step = read_entry-frame x (frames xs) short.0 in
          let size = length-frame x in
          let whole = length-append (frame crc32 x) (frames xs) in
          elim (Option-cases (callback s x)) [
            | inl e ↦ rw (step, e, replay_file, apply_all)
            | inr (s', e) ↦
                rw (step, e, replay_file, apply_all)
                  (replay_file-frames xs fuel s' short.1 (omega arith))
          ]
