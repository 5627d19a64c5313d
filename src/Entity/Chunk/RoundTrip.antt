-- ===== src/Entity/Chunk/RoundTrip.antt =====
-- TextChunk: what ToBytes writes, and that FromBytes reads it back.
use allidb.Wire.Numbers.{le_bytes, length-le_bytes}
use allidb.Wire.Buffer.{filled, make-eq-filled, put-filled, bytes-filled}
use allidb.Wire.Cursor.{At, At-of_eq, At-step_number, read_number-At}
use allidb.Wire.Text.{string_layout, put_string-filled, Fits, At-step_string, read_string-At}
use allidb.Entity.Chunk.{
  TextChunk, no_id_length, no_id, no_text_length, no_text, no_metadata_count, no_key_length, no_key,
  no_value_length, no_value, encoded_size, put_entries, to_bytes, read_entries, from_bytes,
}
use allidb.Base.{
  All, Bytes, DistinctKeys, Map, [], absent_before, ap, append-nil, append_assoc, arith, insert_new,
  length, ok, refl, sum_of, ℕ, ◌++◌, ◌+◌, ◌<◌, ◌^◌, ◌∙◌, ◌∷◌, ◌≡◌,
}

unfoldable pub entries_layout : Map Bytes → Bytes
entries_layout [] = []
entries_layout ((k, v) ∷ m) = string_layout k ++ (string_layout v ++ entries_layout m)

unfoldable pub chunk_layout : TextChunk → Bytes
unfolding entries_layout
chunk_layout c =
    string_layout c.chunk_id
    ++ (string_layout c.text ++ (le_bytes 4 (length c.metadata) ++ entries_layout c.metadata))

abbrev entries_size : Map Bytes → ℕ
entries_size m = sum_of (λ e. 4 + length e.0 + 4 + length e.1) m

put_entries-filled :
    (m : Map Bytes) (pre : Bytes) (n rest : ℕ)
    → n ≡ entries_size m + rest
    → put_entries m (filled pre n) ≡ ok (filled (pre ++ entries_layout m) rest)
unfolding put_entries entries_layout
put_entries-filled [] pre n rest e = let e' : n ≡ rest = omega arith in rw (e', append-nil pre)
put_entries-filled ((k, v) ∷ m) pre n rest e =
    let after_key : ℕ = 4 + length v + (entries_size m + rest) in
    rw
      (
        put_string-filled k pre n after_key (omega arith),
        put_string-filled v (pre ++ string_layout k) after_key (entries_size m + rest) refl,
      )
      (put_entries-filled m (pre ++ string_layout k ++ string_layout v) _ rest refl
        ∙ ap (λ p. ok (filled p rest))
            (append_assoc (pre ++ string_layout k) (string_layout v) (entries_layout m)
              ∙ append_assoc pre (string_layout k) (string_layout v ++ entries_layout m)))

-- ToBytes writes the documented layout and fills its buffer exactly: no write falls outside.
pub to_bytes-eq-layout : (c : TextChunk) → to_bytes c ≡ ok (chunk_layout c)
unfolding to_bytes chunk_layout encoded_size
to_bytes-eq-layout c =
    let id = string_layout c.chunk_id in
    let text = string_layout c.text in
    let count = le_bytes 4 (length c.metadata) in
    let tail = entries_size c.metadata in
    rw
      (
        make-eq-filled (encoded_size c),
        put_string-filled c.chunk_id [] (encoded_size c) (4 + length c.text + (4 + tail))
            (omega arith),
        put_string-filled c.text id (4 + length c.text + (4 + tail)) (4 + tail) refl,
        put-filled count (id ++ text) (4 + tail) tail
            (omega (arith, length-le_bytes 4 (length c.metadata))),
        put_entries-filled c.metadata (id ++ text ++ count) tail 0 (omega arith),
      )
      (ap ok (
        bytes-filled (id ++ text ++ count ++ entries_layout c.metadata)
        ∙ append_assoc (id ++ text) count (entries_layout c.metadata)
        ∙ append_assoc id text (count ++ entries_layout c.metadata)))

abbrev pub FitsEntries : Map Bytes → Type 0
FitsEntries m = All (λ e. Fits e.0 × Fits e.1) m

same_end : (offset k v m : ℕ) → offset + 4 + k + 4 + v + m ≡ offset + (4 + k + 4 + v + m)
same_end offset k v m = omega arith

read_entries-At :
    (m done : Map Bytes) (bytes rest : Bytes) (offset : ℕ)
    → FitsEntries m
    → DistinctKeys (done ++ m)
    → At bytes offset (entries_layout m ++ rest)
    → read_entries (length m) bytes offset done ≡ ok (done ++ m, offset + entries_size m)
unfolding read_entries entries_layout
read_entries-At [] done bytes rest offset fits d a =
    let e : offset + 0 ≡ offset = omega arith in rw (e, append-nil done)
read_entries-At ((k, v) ∷ m) done bytes rest offset fits d a =
    let a₁ : At bytes offset (string_layout k ++ (string_layout v ++ (entries_layout m ++ rest))) =
      rw
        (
          append_assoc (string_layout k) (string_layout v ++ entries_layout m) rest,
          append_assoc (string_layout v) (entries_layout m) rest,
        )
        at a in
    let a₂ = At-step_string bytes k (string_layout v ++ (entries_layout m ++ rest)) offset a₁ in
    let a₃ = At-step_string bytes v (entries_layout m ++ rest) (offset + 4 + length k) a₂ in
    let tidy = append_assoc done ((k, v) ∷ []) m in
    let behind = offset + 4 + length k + 4 + length v in
    rw
      (
        read_string-At no_key_length no_key bytes k (string_layout v ++ (entries_layout m ++ rest))
            offset fits.0.0 a₁,
        read_string-At no_value_length no_value bytes v (entries_layout m ++ rest)
            (offset + 4 + length k) fits.0.1 a₂,
        insert_new k v done (absent_before k v done m d),
      )
      (read_entries-At m (done ++ (k, v) ∷ []) bytes rest behind fits.1 (rw tidy d) a₃ ∙ λ i.
        ok (tidy i, same_end offset (length k) (length v) (entries_size m) i))

abbrev pub FitsChunk : TextChunk → Type 0
FitsChunk c =
    Fits c.chunk_id
    × Fits c.text
    × (length c.metadata < 2 ^ 32)
    × FitsEntries c.metadata
    × DistinctKeys c.metadata

-- FromBytes reads a chunk whose lengths fit into 32 bits, and whose metadata has each key once,
-- back from its layout, also where other bytes follow.
pub from_bytes-layout :
    (c : TextChunk) (rest : Bytes) → FitsChunk c → from_bytes (chunk_layout c ++ rest) ≡ ok c
unfolding from_bytes chunk_layout
from_bytes-layout c rest fits =
    let bytes = chunk_layout c ++ rest in
    let id = string_layout c.chunk_id in
    let text = string_layout c.text in
    let count = le_bytes 4 (length c.metadata) in
    let entries = entries_layout c.metadata in
    let a₀ = At-of_eq bytes (id ++ (text ++ (count ++ (entries ++ rest)))) (
      append_assoc id (text ++ (count ++ entries)) rest
      ∙ ap (◌++◌ id) (
          append_assoc text (count ++ entries) rest
          ∙ ap (◌++◌ text) (append_assoc count entries rest))) in
    let a₁ = At-step_string bytes c.chunk_id (text ++ (count ++ (entries ++ rest))) 0 a₀ in
    let offset₁ = 0 + 4 + length c.chunk_id in
    let a₂ = At-step_string bytes c.text (count ++ (entries ++ rest)) offset₁ a₁ in
    let offset₂ = offset₁ + 4 + length c.text in
    let a₃ = At-step_number bytes (entries ++ rest) offset₂ 4 (length c.metadata) a₂ in
    rw (
      read_string-At no_id_length no_id bytes c.chunk_id (text ++ (count ++ (entries ++ rest))) 0
          fits.0 a₀,
      read_string-At no_text_length no_text bytes c.text (count ++ (entries ++ rest)) offset₁ fits.1
          a₁,
      read_number-At no_metadata_count bytes (entries ++ rest) offset₂ 4 (length c.metadata) fits.2
          a₂,
      read_entries-At c.metadata [] bytes rest (offset₂ + 4) fits.3 fits.4 a₃,
    )

-- What ToBytes writes, FromBytes reads back: a chunk whose lengths fit into 32 bits, and whose
-- metadata has each key once, survives the round trip.
pub from_bytes-to_bytes :
    (c : TextChunk)
    → FitsChunk c
    → (bytes : Bytes) × (to_bytes c ≡ ok bytes) × (from_bytes bytes ≡ ok c)
from_bytes-to_bytes c fits = (
  chunk_layout c,
  to_bytes-eq-layout c,
  rw (append-nil (chunk_layout c)) at (from_bytes-layout c [] fits),
)
