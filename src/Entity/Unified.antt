-- ===== src/Entity/Unified.antt =====
-- core/entity/entity.go: UnifiedEntity, its append-only updates, its reads and its binary encoding.
-- A float is its IEEE 754 bit pattern and a time its Unix nanoseconds as a 64-bit pattern; the
-- clock's readings are arguments. The receiver's state after a failed FromBytes is left out: the
-- callers drop it. JSON is encoding/json's, and is not modelled.
pub mod Layout
pub mod Reads
pub mod RoundTrip
pub mod Updates
use allidb.Wire.Numbers.{le_bytes, le_value}
use allidb.Wire.Buffer.{Panic, Buffer, make, put}
use allidb.Wire.Cursor.{read_uint32, read_uint64}
use allidb.Wire.Text.{put_string, read_string}
use allidb.Entity.Chunk
use allidb.Entity.Chunk.{TextChunk, ChunkError}
use allidb.Entity.Edge
use allidb.Entity.Edge.{GraphEdge, EdgeError}
use allidb.Base.{
  Bytes, List, Option, Result, [], drop, err, fail_if, get_elem?, if◌then◌else◌, length, ltb, none,
  ok, suc, sum_of, take, zero, ℕ, ◌*◌, ◌++◌, ◌+◌, ◌-◌, ◌==◌, ◌>>=◌, ◌>>◌, ◌∷◌,
}

pub record VectorEmbedding : Type 0 where
  pub version : ℕ
  pub vector : List ℕ
  pub timestamp : ℕ

pub record UnifiedEntity : Type 0 where
  pub entity_id : Bytes
  pub tenant_id : Bytes
  pub entity_type : Bytes
  pub embeddings : List VectorEmbedding
  pub incoming_edges : List GraphEdge
  pub outgoing_edges : List GraphEdge
  pub chunks : List TextChunk
  pub importance : ℕ
  pub created_at : ℕ
  pub updated_at : ℕ

unfoldable pub new_unified_entity : ℕ → Bytes → Bytes → Bytes → UnifiedEntity
new_unified_entity now entity_id tenant_id entity_type = record {
  entity_id = entity_id;
  tenant_id = tenant_id;
  entity_type = entity_type;
  embeddings = [];
  incoming_edges = [];
  outgoing_edges = [];
  chunks = [];
  importance = 0;
  created_at = now;
  updated_at = now;
}

-- The clock is read twice: for the embedding, and for the entity.
unfoldable pub add_embedding : ℕ → ℕ → List ℕ → UnifiedEntity → UnifiedEntity
add_embedding now later vector e = record e {
  embeddings =
      e.embeddings
      ++ record { version = length e.embeddings + 1; vector = vector; timestamp = now } ∷ [];
  updated_at = later;
}

unfoldable pub add_incoming_edge : ℕ → GraphEdge → UnifiedEntity → UnifiedEntity
add_incoming_edge now edge e = record e {
  incoming_edges = e.incoming_edges ++ edge ∷ [];
  updated_at = now;
}

unfoldable pub add_outgoing_edge : ℕ → GraphEdge → UnifiedEntity → UnifiedEntity
add_outgoing_edge now edge e = record e {
  outgoing_edges = e.outgoing_edges ++ edge ∷ [];
  updated_at = now;
}

unfoldable pub add_chunk : ℕ → TextChunk → UnifiedEntity → UnifiedEntity
add_chunk now chunk e = record e { chunks = e.chunks ++ chunk ∷ []; updated_at = now }

unfoldable pub set_importance : ℕ → ℕ → UnifiedEntity → UnifiedEntity
set_importance now score e = record e { importance = score; updated_at = now }

-- The reads return copies of what they read.
unfoldable pub get_entity_id : UnifiedEntity → Bytes
get_entity_id e = e.entity_id

unfoldable pub get_tenant_id : UnifiedEntity → Bytes
get_tenant_id e = e.tenant_id

unfoldable pub get_entity_type : UnifiedEntity → Bytes
get_entity_type e = e.entity_type

unfoldable pub get_embeddings : UnifiedEntity → List VectorEmbedding
get_embeddings e = e.embeddings

unfoldable pub get_incoming_edges : UnifiedEntity → List GraphEdge
get_incoming_edges e = e.incoming_edges

unfoldable pub get_outgoing_edges : UnifiedEntity → List GraphEdge
get_outgoing_edges e = e.outgoing_edges

unfoldable pub get_chunks : UnifiedEntity → List TextChunk
get_chunks e = e.chunks

unfoldable pub get_importance : UnifiedEntity → ℕ
get_importance e = e.importance

unfoldable pub get_created_at : UnifiedEntity → ℕ
get_created_at e = e.created_at

unfoldable pub get_updated_at : UnifiedEntity → ℕ
get_updated_at e = e.updated_at

-- The last of the embeddings, if there is one.
unfoldable pub get_latest_embedding : UnifiedEntity → Option VectorEmbedding
get_latest_embedding e =
    if length e.embeddings == 0 then none else get_elem? e.embeddings (length e.embeddings - 1)

-- for _, x := range xs { write x }
unfoldable pub put_all {ℓ} :
    {A : Type ℓ} → (A → Buffer → Result Panic Buffer) → List A → Buffer → Result Panic Buffer
put_all put_item [] b = ok b
put_all put_item (x ∷ xs) b = do b' ← put_item x b; put_all put_item xs b'

-- The number of items, then the items.
unfoldable pub put_counted {ℓ} :
    {A : Type ℓ} → (A → Buffer → Result Panic Buffer) → List A → Buffer → Result Panic Buffer
unfolding put_all
put_counted put_item xs b = do b' ← put (le_bytes 4 (length xs)) b; put_all put_item xs b'

unfoldable pub put_embedding : VectorEmbedding → Buffer → Result Panic Buffer
unfolding put_counted
put_embedding v b = do
  b₁ ← put (le_bytes 8 v.version) b
  b₂ ← put (le_bytes 8 v.timestamp) b₁
  put_counted (λ x. put (le_bytes 4 x)) v.vector b₂

-- xBytes := x.ToBytes(), copied into the buffer.
unfoldable pub put_encoded :
    {A : Type 0} → (A → Result Panic Bytes) → A → Buffer → Result Panic Buffer
put_encoded encode x b = do bytes ← encode x; put bytes b

-- for _, x := range xs { size += len(x.ToBytes()) }
unfoldable pub encoded_sizes : {A : Type 0} → (A → Result Panic Bytes) → List A → Result Panic ℕ
encoded_sizes encode [] = ok 0
encoded_sizes encode (x ∷ xs) = do
  bytes ← encode x
  n ← encoded_sizes encode xs
  ok (length bytes + n)

unfoldable pub encoded_size : UnifiedEntity → Result Panic ℕ
unfolding encoded_sizes
encoded_size e = do
  incoming ← encoded_sizes Edge.to_bytes e.incoming_edges
  outgoing ← encoded_sizes Edge.to_bytes e.outgoing_edges
  chunks ← encoded_sizes Chunk.to_bytes e.chunks
  ok (
      4
      + length e.entity_id
      + 4
      + length e.tenant_id
      + 4
      + length e.entity_type
      + 40
      + sum_of (λ v. 20 + length v.vector * 4) e.embeddings
      + incoming
      + outgoing
      + chunks)

unfoldable pub put_fields : UnifiedEntity → Buffer → Result Panic Buffer
unfolding put_counted put_embedding put_encoded
put_fields e b = do
  b₁ ← put_string e.entity_id b
  b₂ ← put_string e.tenant_id b₁
  b₃ ← put_string e.entity_type b₂
  b₄ ← put_counted put_embedding e.embeddings b₃
  b₅ ← put_counted (put_encoded Edge.to_bytes) e.incoming_edges b₄
  b₆ ← put_counted (put_encoded Edge.to_bytes) e.outgoing_edges b₅
  b₇ ← put_counted (put_encoded Chunk.to_bytes) e.chunks b₆
  b₈ ← put (le_bytes 8 e.importance) b₇
  b₉ ← put (le_bytes 8 e.created_at) b₈
  put (le_bytes 8 e.updated_at) b₉

unfoldable pub to_bytes : UnifiedEntity → Result Panic Bytes
unfolding put_fields encoded_size
to_bytes e = do n ← encoded_size e; b ← put_fields e (make n); ok b.bytes

-- `panicked` is a slice out of range.
pub data EntityError : Type 0 where
  no_id_length no_id no_tenant_length no_tenant no_type_length no_type : EntityError
  no_embeddings_count no_version no_embedding_time no_vector_length no_vector : EntityError
  no_incoming_count no_outgoing_count no_chunks_count panicked : EntityError
  bad_incoming_edge bad_outgoing_edge : EdgeError → EntityError
  bad_chunk : ChunkError → EntityError
  no_importance no_created_at no_updated_at : EntityError

-- Each read returns the offset behind it.
unfoldable pub read_all {ℓ} :
    {A : Type ℓ}
    → (Bytes → ℕ → Result EntityError (A × ℕ))
    → ℕ
    → Bytes
    → ℕ
    → Result EntityError (List A × ℕ)
read_all read_item zero bytes offset = ok ([], offset)
read_all read_item (suc n) bytes offset = do
  (x, offset₁) ← read_item bytes offset
  (xs, offset₂) ← read_all read_item n bytes offset₁
  ok (x ∷ xs, offset₂)

unfoldable pub read_counted {ℓ} :
    {A : Type ℓ}
    → EntityError
    → (Bytes → ℕ → Result EntityError (A × ℕ))
    → Bytes
    → ℕ
    → Result EntityError (List A × ℕ)
unfolding read_all
read_counted no_count read_item bytes offset = do
  (n, offset₁) ← read_uint32 no_count bytes offset
  read_all read_item n bytes offset₁

-- The loop over a vector: n numbers of four bytes each.
unfoldable pub floats_of : ℕ → Bytes → List ℕ
floats_of zero bytes = []
floats_of (suc n) bytes = le_value (take 4 bytes) ∷ floats_of n (drop 4 bytes)

unfoldable pub read_vector : ℕ → Bytes → ℕ → Result EntityError (List ℕ × ℕ)
unfolding floats_of
read_vector n bytes offset = do
  fail_if (ltb (length bytes) (offset + n * 4)) no_vector
  ok (floats_of n (drop offset bytes), offset + n * 4)

unfoldable pub read_embedding : Bytes → ℕ → Result EntityError (VectorEmbedding × ℕ)
unfolding read_vector
read_embedding bytes offset = do
  (version, offset₁) ← read_uint64 no_version bytes offset
  (timestamp, offset₂) ← read_uint64 no_embedding_time bytes offset₁
  (n, offset₃) ← read_uint32 no_vector_length bytes offset₂
  (vector, offset₄) ← read_vector n bytes offset₃
  ok (record { version = version; vector = vector; timestamp = timestamp }, offset₄)

abbrev pub or_error : {A E : Type 0} → (E → EntityError) → Result E A → Result EntityError A
or_error f (ok a) = ok a
or_error f (err e) = err (f e)

-- x.FromBytes(data[offset:]), and the offset moves by the size of x encoded again.
unfoldable pub read_encoded :
    {A E : Type 0}
    → (E → EntityError)
    → (Bytes → Result E A)
    → (A → Result Panic Bytes)
    → Bytes
    → ℕ
    → Result EntityError (A × ℕ)
read_encoded bad decode encode bytes offset = do
  fail_if (ltb (length bytes) offset) panicked
  x ← or_error bad (decode (drop offset bytes))
  again ← or_error (λ p. panicked) (encode x)
  ok (x, offset + length again)

unfoldable pub from_bytes : Bytes → Result EntityError UnifiedEntity
unfolding read_counted read_embedding read_encoded
from_bytes bytes = do
  (id, o₁) ← read_string no_id_length no_id bytes 0
  (tenant, o₂) ← read_string no_tenant_length no_tenant bytes o₁
  (entity_type, o₃) ← read_string no_type_length no_type bytes o₂
  (embeddings, o₄) ← read_counted no_embeddings_count read_embedding bytes o₃
  (incoming, o₅) ←
      read_counted no_incoming_count (read_encoded bad_incoming_edge Edge.from_bytes Edge.to_bytes)
        bytes o₄
  (outgoing, o₆) ←
      read_counted no_outgoing_count (read_encoded bad_outgoing_edge Edge.from_bytes Edge.to_bytes)
        bytes o₅
  (chunks, o₇) ←
      read_counted no_chunks_count (read_encoded bad_chunk Chunk.from_bytes Chunk.to_bytes) bytes o₆
  (importance, o₈) ← read_uint64 no_importance bytes o₇
  (created_at, o₉) ← read_uint64 no_created_at bytes o₈
  (updated_at, o₁₀) ← read_uint64 no_updated_at bytes o₉
  ok (record {
    entity_id = id;
    tenant_id = tenant;
    entity_type = entity_type;
    embeddings = embeddings;
    incoming_edges = incoming;
    outgoing_edges = outgoing;
    chunks = chunks;
    importance = importance;
    created_at = created_at;
    updated_at = updated_at;
  })
