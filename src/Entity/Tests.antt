-- ===== src/Entity/Tests.antt =====
-- Runs of the encodings, and their theorems at concrete values.
use allidb.Entity.Chunk
use allidb.Entity.Chunk.{TextChunk, ChunkError, no_text}
use allidb.Entity.Chunk.RoundTrip.{FitsChunk, from_bytes-to_bytes}
use allidb.Entity.Edge.{GraphEdge}
use allidb.Entity.Unified
use allidb.Entity.Unified.{UnifiedEntity}
use allidb.Entity.Unified.RoundTrip.{FitsEntity, entity-from_bytes-to_bytes}
use allidb.Entity.Unified.Updates.{
  Update, run, VersionsFrom, latest_version, Extends, run-append_only,
}
use allidb.Wire.Buffer.{put, make}
use allidb.Wire.Numbers.{le_bytes, le_value}
use allidb.Wire.Cursor.{read_bytes, read_number}
use allidb.Wire.Text.{put_string, read_string}
use allidb.Base.{
  Bytes, List, [], arith, codes, err, has_key, length, none, ok, refl, str_eq, ◌∷◌, ◌≡◌,
}

abbrev chunk : TextChunk
chunk = record {
  chunk_id = codes "c1";
  text = codes "hi";
  metadata = (codes "k", codes "v") ∷ (codes "l", []) ∷ [];
}

chunk_bytes :
    Chunk.to_bytes chunk
    ≡ ok (
        2 ∷ 0 ∷ 0 ∷ 0 ∷ 99 ∷ 49 ∷ 2 ∷ 0 ∷ 0 ∷ 0 ∷ 104 ∷ 105 ∷ 2 ∷ 0 ∷ 0 ∷ 0 ∷ 1 ∷ 0 ∷ 0 ∷ 0 ∷ 107
        ∷ 1 ∷ 0 ∷ 0 ∷ 0 ∷ 118 ∷ 1 ∷ 0 ∷ 0 ∷ 0 ∷ 108 ∷ 0 ∷ 0 ∷ 0 ∷ 0 ∷ [])
unfolding Chunk.to_bytes Chunk.encoded_size Chunk.put_entries put_string put make le_bytes
chunk_bytes = refl

chunk_cut : Chunk.from_bytes (1 ∷ 0 ∷ 0 ∷ 0 ∷ 99 ∷ 3 ∷ 0 ∷ 0 ∷ 0 ∷ 104 ∷ []) ≡ err no_text
unfolding Chunk.from_bytes read_string read_bytes read_number le_value
chunk_cut = refl

from_bytes-to_bytes_example :
    (bytes : Bytes) × (Chunk.to_bytes chunk ≡ ok bytes) × (Chunk.from_bytes bytes ≡ ok chunk)
unfolding has_key str_eq
from_bytes-to_bytes_example = from_bytes-to_bytes chunk (
  omega arith,
  omega arith,
  omega arith,
  ((omega arith, omega arith), ((omega arith, omega arith), tt)),
  (refl, (refl, tt)),
)

abbrev edge : GraphEdge
edge = record {
  from_entity = codes "a";
  to_entity = codes "b";
  relation = codes "cites";
  weight = 4607182418800017408;
  timestamp = 1700000000000000000;
}

abbrev entity : UnifiedEntity
entity = record {
  entity_id = codes "e";
  tenant_id = codes "t";
  entity_type = codes "doc";
  embeddings = record { version = 1; vector = 1065353216 ∷ 0 ∷ []; timestamp = 7 } ∷ [];
  incoming_edges = [];
  outgoing_edges = edge ∷ [];
  chunks = chunk ∷ [];
  importance = 4607182418800017408;
  created_at = 7;
  updated_at = 8;
}

chunk-FitsChunk : FitsChunk chunk
unfolding has_key str_eq
chunk-FitsChunk = (
  omega arith,
  omega arith,
  omega arith,
  ((omega arith, omega arith), ((omega arith, omega arith), tt)),
  (refl, (refl, tt)),
)

entity-FitsEntity : FitsEntity entity
entity-FitsEntity = record {
  id = omega arith;
  tenant = omega arith;
  entity_type = omega arith;
  embeddings_few = omega arith;
  embeddings = omega arith;
  incoming_few = omega arith;
  incoming = tt;
  outgoing_few = omega arith;
  outgoing = omega arith;
  chunks_few = omega arith;
  chunks = (chunk-FitsChunk, tt);
  importance = omega arith;
  created_at = omega arith;
  updated_at = omega arith;
}

entity-from_bytes-to_bytes_example :
    (bytes : Bytes) × (Unified.to_bytes entity ≡ ok bytes) × (Unified.from_bytes bytes ≡ ok entity)
entity-from_bytes-to_bytes_example = entity-from_bytes-to_bytes entity entity-FitsEntity

abbrev updates : List Update
updates = Update.embedding 9 10 (1 ∷ []) ∷ Update.chunk 11 chunk ∷ Update.importance 12 0 ∷ []

run-append_only_example :
    VersionsFrom 1 (run entity updates).embeddings
    × (latest_version (run entity updates) ≡ length (run entity updates).embeddings)
    × Extends entity (run entity updates)
run-append_only_example = run-append_only updates entity (refl, tt)

new_is_empty :
    Unified.get_latest_embedding
      (Unified.new_unified_entity 1 (codes "e") (codes "t") (codes "doc"))
    ≡ none
unfolding Unified.get_latest_embedding Unified.new_unified_entity
new_is_empty = refl
