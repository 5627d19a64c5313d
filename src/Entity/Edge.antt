-- ===== src/Entity/Edge.antt =====
-- core/entity/edge.go: GraphEdge and its binary encoding. The weight is its IEEE 754 bit pattern,
-- which math.Float64bits gives, and the timestamp is its Unix nanoseconds as a 64-bit pattern.
pub mod RoundTrip
use allidb.Wire.Numbers.{le_bytes}
use allidb.Wire.Buffer.{Panic, make, put}
use allidb.Wire.Cursor.{read_uint64}
use allidb.Wire.Text.{put_string, read_string}
use allidb.Base.{Bytes, Result, length, ok, ℕ, ◌+◌, ◌>>=◌, ◌>>◌}

pub record GraphEdge : Type 0 where
  pub from_entity : Bytes
  pub to_entity : Bytes
  pub relation : Bytes
  pub weight : ℕ
  pub timestamp : ℕ

unfoldable pub encoded_size : GraphEdge → ℕ
encoded_size e = 4 + length e.from_entity + 4 + length e.to_entity + 4 + length e.relation + 8 + 8

unfoldable pub to_bytes : GraphEdge → Result Panic Bytes
to_bytes e = do
  b₁ ← put_string e.from_entity (make (encoded_size e))
  b₂ ← put_string e.to_entity b₁
  b₃ ← put_string e.relation b₂
  b₄ ← put (le_bytes 8 e.weight) b₃
  b₅ ← put (le_bytes 8 e.timestamp) b₄
  ok b₅.bytes

pub data EdgeError : Type 0 where
  no_from_length no_from no_to_length no_to no_relation_length no_relation : EdgeError
  no_weight no_timestamp : EdgeError

unfoldable pub from_bytes : Bytes → Result EdgeError GraphEdge
from_bytes bytes = do
  (from_entity, offset₁) ← read_string no_from_length no_from bytes 0
  (to_entity, offset₂) ← read_string no_to_length no_to bytes offset₁
  (relation, offset₃) ← read_string no_relation_length no_relation bytes offset₂
  (weight, offset₄) ← read_uint64 no_weight bytes offset₃
  (timestamp, offset₅) ← read_uint64 no_timestamp bytes offset₄
  ok (record {
    from_entity = from_entity;
    to_entity = to_entity;
    relation = relation;
    weight = weight;
    timestamp = timestamp;
  })
