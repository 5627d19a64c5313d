-- ===== src/Entity/Edge/RoundTrip.antt =====
-- GraphEdge: what ToBytes writes, and that FromBytes reads it back.
use allidb.Wire.Numbers.{le_bytes, length-le_bytes}
use allidb.Wire.Buffer.{make-eq-filled, put-filled, bytes-filled}
use allidb.Wire.Cursor.{At-of_eq, At-step_number, read_number-At}
use allidb.Wire.Text.{string_layout, put_string-filled, Fits, At-step_string, read_string-At}
use allidb.Entity.Edge.{
  GraphEdge, encoded_size, to_bytes, from_bytes, no_from_length, no_from, no_to_length, no_to,
  no_relation_length, no_relation, no_weight, no_timestamp,
}
use allidb.Base.{
  Bytes, [], ap, append-nil, append_assoc, arith, length, ok, refl, ℕ, ◌++◌, ◌+◌, ◌<◌, ◌^◌, ◌∙◌,
  ◌≡◌,
}

unfoldable pub edge_layout : GraphEdge → Bytes
edge_layout e =
    string_layout e.from_entity
    ++ (string_layout e.to_entity
        ++ (string_layout e.relation ++ (le_bytes 8 e.weight ++ le_bytes 8 e.timestamp)))

-- ToBytes writes the documented layout and fills its buffer exactly: no write falls outside.
pub edge-to_bytes-eq-layout : (e : GraphEdge) → to_bytes e ≡ ok (edge_layout e)
unfolding to_bytes edge_layout encoded_size
edge-to_bytes-eq-layout e =
    let from = string_layout e.from_entity in
    let to = string_layout e.to_entity in
    let relation = string_layout e.relation in
    let weight = le_bytes 8 e.weight in
    let timestamp = le_bytes 8 e.timestamp in
    let after_to : ℕ = 4 + length e.relation + 16 in
    let after_from : ℕ = 4 + length e.to_entity + after_to in
    rw
      (
        make-eq-filled (encoded_size e),
        put_string-filled e.from_entity [] (encoded_size e) after_from (omega arith),
        put_string-filled e.to_entity from after_from after_to refl,
        put_string-filled e.relation (from ++ to) after_to 16 refl,
        put-filled weight (from ++ to ++ relation) 16 8 (omega (arith, length-le_bytes 8 e.weight)),
        put-filled timestamp (from ++ to ++ relation ++ weight) 8 0
            (omega (arith, length-le_bytes 8 e.timestamp)),
      )
      (ap ok (
        bytes-filled (from ++ to ++ relation ++ weight ++ timestamp)
        ∙ append_assoc (from ++ to ++ relation) weight timestamp
        ∙ append_assoc (from ++ to) relation (weight ++ timestamp)
        ∙ append_assoc from to (relation ++ (weight ++ timestamp))))

abbrev pub FitsEdge : GraphEdge → Type 0
FitsEdge e =
    Fits e.from_entity
    × Fits e.to_entity
    × Fits e.relation
    × (e.weight < 2 ^ 64)
    × (e.timestamp < 2 ^ 64)

-- FromBytes reads an edge back from its layout, also where other bytes follow.
pub edge-from_bytes-layout :
    (e : GraphEdge) (rest : Bytes) → FitsEdge e → from_bytes (edge_layout e ++ rest) ≡ ok e
unfolding from_bytes edge_layout
edge-from_bytes-layout e rest fits =
    let bytes = edge_layout e ++ rest in
    let from = string_layout e.from_entity in
    let to = string_layout e.to_entity in
    let relation = string_layout e.relation in
    let weight = le_bytes 8 e.weight in
    let timestamp = le_bytes 8 e.timestamp in
    let r₅ = timestamp ++ rest in
    let r₄ = weight ++ r₅ in
    let r₃ = relation ++ r₄ in
    let r₂ = to ++ r₃ in
    let a₁ = At-of_eq bytes (from ++ r₂) (
      append_assoc from (to ++ (relation ++ (weight ++ timestamp))) rest
      ∙ ap (◌++◌ from) (
          append_assoc to (relation ++ (weight ++ timestamp)) rest
          ∙ ap (◌++◌ to) (
              append_assoc relation (weight ++ timestamp) rest
              ∙ ap (◌++◌ relation) (append_assoc weight timestamp rest)))) in
    let a₂ = At-step_string bytes e.from_entity r₂ 0 a₁ in
    let offset₁ = 0 + 4 + length e.from_entity in
    let a₃ = At-step_string bytes e.to_entity r₃ offset₁ a₂ in
    let offset₂ = offset₁ + 4 + length e.to_entity in
    let a₄ = At-step_string bytes e.relation r₄ offset₂ a₃ in
    let offset₃ = offset₂ + 4 + length e.relation in
    let a₅ = At-step_number bytes r₅ offset₃ 8 e.weight a₄ in
    rw (
      read_string-At no_from_length no_from bytes e.from_entity r₂ 0 fits.0 a₁,
      read_string-At no_to_length no_to bytes e.to_entity r₃ offset₁ fits.1 a₂,
      read_string-At no_relation_length no_relation bytes e.relation r₄ offset₂ fits.2 a₃,
      read_number-At no_weight bytes r₅ offset₃ 8 e.weight fits.3 a₄,
      read_number-At no_timestamp bytes rest (offset₃ + 8) 8 e.timestamp fits.4 a₅,
    )

-- An edge whose strings fit into 32-bit lengths, and whose weight and timestamp are 64-bit
-- patterns, survives ToBytes and FromBytes.
edge-from_bytes-to_bytes :
    (e : GraphEdge)
    → FitsEdge e
    → (bytes : Bytes) × (to_bytes e ≡ ok bytes) × (from_bytes bytes ≡ ok e)
edge-from_bytes-to_bytes e fits = (
  edge_layout e,
  edge-to_bytes-eq-layout e,
  rw (append-nil (edge_layout e)) at (edge-from_bytes-layout e [] fits),
)
