-- ===== src/Entity/Unified/Reads.antt =====
-- What the reads of FromBytes give where the data goes on with what ToBytes put there.
use allidb.Wire.Numbers.{le_bytes, length-le_bytes, le_value-le_bytes}
use allidb.Wire.Buffer.{Panic}
use allidb.Wire.Cursor.{At, At-step, read_number, read_number-At}
use allidb.Wire.Text.{string_layout, length-string_layout, Fits, read_string, read_string-At}
use allidb.Entity.Unified.{
  VectorEmbedding, EntityError, no_version, no_embedding_time, no_vector_length, read_all,
  read_counted, floats_of, read_vector, read_embedding, read_encoded,
}
use allidb.Entity.Unified.Layout.{each_layout, counted_layout, embedding_layout, length-floats}
use allidb.Base.{
  All, Bytes, List, Result, [], ap, append_assoc, arith, false, length, length-append, ltb,
  ltb-eq-false, ok, refl, ℕ, ◌*◌, ◌++◌, ◌+◌, ◌<◌, ◌^◌, ◌∙◌, ◌∷◌, ◌≡◌,
}

-- Where the data goes on with these bytes, the read returns x and moves behind them.
pub record Reads {ℓ} {A : Type ℓ} (read : Bytes → ℕ → Result EntityError (A × ℕ)) (x : A)
    (layout : Bytes) : Type ℓ where
  pub reads :
      (bytes rest : Bytes) (offset : ℕ)
      → At bytes offset (layout ++ rest)
      → read bytes offset ≡ ok (x, offset + length layout)

-- The first of two parts is read, and the second comes next.
pub next {ℓ} :
    {A : Type ℓ} (read : Bytes → ℕ → Result EntityError (A × ℕ)) (v : A) (bytes x y rest : Bytes)
    (offset : ℕ)
    → Reads read v x
    → At bytes offset ((x ++ y) ++ rest)
    → (read bytes offset ≡ ok (v, offset + length x)) × At bytes (offset + length x) (y ++ rest)
next read v bytes x y rest offset r a =
    let a' = rw (append_assoc x y rest) at a in
    (r.reads bytes (y ++ rest) offset a', At-step bytes x (y ++ rest) offset a')

pub number-Reads :
    (error : EntityError) (width v : ℕ)
    → v < 256 ^ width
    → Reads (read_number error width) v (le_bytes width v)
number-Reads error width v small = record {
  reads = λ bytes rest offset a.
      rw (length-le_bytes width v) (read_number-At error bytes rest offset width v small a);
}

pub string-Reads :
    (no_length no_content : EntityError) (s : Bytes)
    → Fits s
    → Reads (read_string no_length no_content) s (string_layout s)
string-Reads no_length no_content s fits = record {
  reads = λ bytes rest offset a.
      read_string-At no_length no_content bytes s rest offset fits a
      ∙ ap (λ n. ok (s, n)) (omega (arith, length-string_layout s));
}

module _ {ℓ} {A : Type ℓ} (P : A → Type 0) (layout : A → Bytes)
    (read_item : Bytes → ℕ → Result EntityError (A × ℕ))
    (item : (x : A) → P x → Reads read_item x (layout x)) where
  pub read_all-Reads :
      (xs : List A) → All P xs → Reads (read_all read_item (length xs)) xs (each_layout layout xs)
  unfolding read_all
  read_all-Reads [] fits = record {
    reads = λ bytes rest offset a. ap (λ n. ok ([], n)) (omega arith);
  }
  read_all-Reads (x ∷ xs) fits =
      let tail = each_layout layout xs in
      record {
        reads = λ bytes rest offset a.
            let step = next read_item x bytes (layout x) tail rest offset (item x fits.0) a in
            rw
              (
                step.0,
                (read_all-Reads xs fits.1).reads bytes rest (offset + length (layout x)) step.1,
              )
              (ap (λ n. ok (x ∷ xs, n)) (omega (arith, length-append (layout x) tail)));
      }

  pub read_counted-Reads :
      (no_count : EntityError) (xs : List A)
      → length xs < 2 ^ 32
      → All P xs
      → Reads (read_counted no_count read_item) xs (counted_layout layout xs)
  unfolding read_counted
  read_counted-Reads no_count xs few fits =
      let number = le_bytes 4 (length xs) in
      let items = each_layout layout xs in
      record {
        reads = λ bytes rest offset a.
            let step =
              next (read_number no_count 4) (length xs) bytes number items rest offset
                (number-Reads no_count 4 (length xs) few) a in
            rw (step.0, (read_all-Reads xs fits).reads bytes rest (offset + length number) step.1)
              (ap (λ n. ok (xs, n)) (omega (arith, length-append number items)));
      }

abbrev pub FitsEmbedding : VectorEmbedding → Type 0
FitsEmbedding v =
    (v.version < 2 ^ 64)
    × (v.timestamp < 2 ^ 64)
    × (length v.vector < 2 ^ 32)
    × All (λ x. x < 2 ^ 32) v.vector

pub floats_of-layout :
    (xs : List ℕ) (rest : Bytes)
    → All (λ x. x < 2 ^ 32) xs
    → floats_of (length xs) (each_layout (le_bytes 4) xs ++ rest) ≡ xs
unfolding floats_of le_bytes
floats_of-layout [] rest fits = refl
floats_of-layout (x ∷ xs) rest fits =
    rw (floats_of-layout xs rest fits.1) (ap (λ v. v ∷ xs) (le_value-le_bytes 4 x fits.0))

pub read_vector-Reads :
    (xs : List ℕ)
    → All (λ x. x < 2 ^ 32) xs
    → Reads (read_vector (length xs)) xs (each_layout (le_bytes 4) xs)
unfolding read_vector
read_vector-Reads xs fits =
    let layout = each_layout (le_bytes 4) xs in
    record {
      reads = λ bytes rest offset a.
          let room : ltb (length bytes) (offset + length xs * 4) ≡ false =
            ltb-eq-false (length bytes) (offset + length xs * 4)
              (omega (arith, a.size, length-append layout rest, length-floats xs)) in
          rw (room, a.tail, floats_of-layout xs rest fits)
            (ap (λ n. ok (xs, n)) (omega (arith, length-floats xs)));
    }

pub embedding-Reads :
    (v : VectorEmbedding) → FitsEmbedding v → Reads read_embedding v (embedding_layout v)
unfolding read_embedding
embedding-Reads v fits =
    let b₁ = le_bytes 8 v.version in
    let b₂ = le_bytes 8 v.timestamp in
    let b₃ = le_bytes 4 (length v.vector) in
    let b₄ = each_layout (le_bytes 4) v.vector in
    record {
      reads = λ bytes rest offset a.
          let s₁ =
            next (read_number no_version 8) v.version bytes b₁ (b₂ ++ (b₃ ++ b₄)) rest offset
              (number-Reads no_version 8 v.version fits.0) a in
          let o₁ = offset + length b₁ in
          let s₂ =
            next (read_number no_embedding_time 8) v.timestamp bytes b₂ (b₃ ++ b₄) rest o₁
              (number-Reads no_embedding_time 8 v.timestamp fits.1) s₁.1 in
          let o₂ = o₁ + length b₂ in
          let s₃ =
            next (read_number no_vector_length 4) (length v.vector) bytes b₃ b₄ rest o₂
              (number-Reads no_vector_length 4 (length v.vector) fits.2) s₂.1 in
          rw
            (
              s₁.0,
              s₂.0,
              s₃.0,
              (read_vector-Reads v.vector fits.3).reads bytes rest (o₂ + length b₃) s₃.1,
            )
            (ap (λ n. ok (v, n))
              (omega (
                arith,
                length-append b₁ (b₂ ++ (b₃ ++ b₄)),
                length-append b₂ (b₃ ++ b₄),
                length-append b₃ b₄,
              )));
    }

module _ {A E : Type 0} (bad : E → EntityError) (decode : Bytes → Result E A)
    (encode : A → Result Panic Bytes) (layout : A → Bytes) (P : A → Type 0)
    (decodes : (x : A) (rest : Bytes) → P x → decode (layout x ++ rest) ≡ ok x)
    (encodes : (x : A) → encode x ≡ ok (layout x)) where
  pub encoded-Reads : (x : A) → P x → Reads (read_encoded bad decode encode) x (layout x)
  unfolding read_encoded
  encoded-Reads x fits = record {
    reads = λ bytes rest offset a.
        let room : ltb (length bytes) offset ≡ false =
          ltb-eq-false (length bytes) offset (omega (arith, a.size)) in
        rw (room, a.tail, decodes x rest fits, encodes x) refl;
  }
