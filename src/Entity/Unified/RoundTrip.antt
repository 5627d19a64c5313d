-- ===== src/Entity/Unified/RoundTrip.antt =====
-- FromBytes reads an entity back from what ToBytes wrote.
use allidb.Wire.Numbers.{le_bytes}
use allidb.Wire.Cursor.{At, At-start}
use allidb.Wire.Text.{string_layout, Fits}
use allidb.Entity.Chunk
use allidb.Entity.Chunk.{TextChunk}
use allidb.Entity.Chunk.RoundTrip.{chunk_layout, FitsChunk, to_bytes-eq-layout, from_bytes-layout}
use allidb.Entity.Edge
use allidb.Entity.Edge.{GraphEdge}
use allidb.Entity.Edge.RoundTrip.{
  edge_layout, FitsEdge, edge-to_bytes-eq-layout, edge-from_bytes-layout,
}
use allidb.Entity.Unified.{
  UnifiedEntity, to_bytes, EntityError, no_id_length, no_id, no_tenant_length, no_tenant,
  no_type_length, no_type, no_embeddings_count, no_incoming_count, no_outgoing_count,
  no_chunks_count, bad_incoming_edge, bad_outgoing_edge, bad_chunk, no_importance, no_created_at,
  no_updated_at, read_counted, read_embedding, read_encoded, from_bytes,
}
use allidb.Entity.Unified.Layout.{
  counted_layout, embedding_layout, entity_layout, entity-to_bytes-eq-layout,
}
use allidb.Entity.Unified.Reads.{
  Reads, next, number-Reads, string-Reads, read_counted-Reads, FitsEmbedding, embedding-Reads,
  encoded-Reads,
}
use allidb.Base.{All, Bytes, List, [], append-nil, length, ok, refl, ◌++◌, ◌<◌, ◌^◌, ◌≡◌}

-- What an entity needs to fit into the encoding.
pub record FitsEntity (e : UnifiedEntity) : Type 0 where
  pub id : Fits e.entity_id
  pub tenant : Fits e.tenant_id
  pub entity_type : Fits e.entity_type
  pub embeddings_few : length e.embeddings < 2 ^ 32
  pub embeddings : All FitsEmbedding e.embeddings
  pub incoming_few : length e.incoming_edges < 2 ^ 32
  pub incoming : All FitsEdge e.incoming_edges
  pub outgoing_few : length e.outgoing_edges < 2 ^ 32
  pub outgoing : All FitsEdge e.outgoing_edges
  pub chunks_few : length e.chunks < 2 ^ 32
  pub chunks : All FitsChunk e.chunks
  pub importance : e.importance < 2 ^ 64
  pub created_at : e.created_at < 2 ^ 64
  pub updated_at : e.updated_at < 2 ^ 64

embeddings-Reads :
    (e : UnifiedEntity)
    → FitsEntity e
    → Reads
        (read_counted no_embeddings_count read_embedding)
        e.embeddings
        (counted_layout embedding_layout e.embeddings)
embeddings-Reads e fits =
    read_counted-Reads FitsEmbedding embedding_layout read_embedding embedding-Reads
      no_embeddings_count e.embeddings fits.embeddings_few fits.embeddings

edges-Reads :
    (no_count : EntityError) (bad : Edge.EdgeError → EntityError) (es : List GraphEdge)
    → length es < 2 ^ 32
    → All FitsEdge es
    → Reads
        (read_counted no_count (read_encoded bad Edge.from_bytes Edge.to_bytes))
        es
        (counted_layout edge_layout es)
edges-Reads no_count bad es few fits =
    read_counted-Reads FitsEdge edge_layout (read_encoded bad Edge.from_bytes Edge.to_bytes)
      (encoded-Reads bad Edge.from_bytes Edge.to_bytes edge_layout FitsEdge edge-from_bytes-layout
        edge-to_bytes-eq-layout)
      no_count es few fits

chunks-Reads :
    (e : UnifiedEntity)
    → FitsEntity e
    → Reads
        (read_counted no_chunks_count (read_encoded bad_chunk Chunk.from_bytes Chunk.to_bytes))
        e.chunks
        (counted_layout chunk_layout e.chunks)
chunks-Reads e fits =
    read_counted-Reads FitsChunk chunk_layout
      (read_encoded bad_chunk Chunk.from_bytes Chunk.to_bytes)
      (encoded-Reads bad_chunk Chunk.from_bytes Chunk.to_bytes chunk_layout FitsChunk
        from_bytes-layout to_bytes-eq-layout)
      no_chunks_count e.chunks fits.chunks_few fits.chunks

entity-from_bytes-layout : (e : UnifiedEntity) → FitsEntity e → from_bytes (entity_layout e) ≡ ok e
unfolding from_bytes
entity-from_bytes-layout e fits =
    let bytes = entity_layout e in
    let x₁ = string_layout e.entity_id in
    let x₂ = string_layout e.tenant_id in
    let x₃ = string_layout e.entity_type in
    let x₄ = counted_layout embedding_layout e.embeddings in
    let x₅ = counted_layout edge_layout e.incoming_edges in
    let x₆ = counted_layout edge_layout e.outgoing_edges in
    let x₇ = counted_layout chunk_layout e.chunks in
    let x₈ = le_bytes 8 e.importance in
    let x₉ = le_bytes 8 e.created_at in
    let x₁₀ = le_bytes 8 e.updated_at in
    let t₇ = x₈ ++ (x₉ ++ x₁₀) in
    let t₅ = x₆ ++ (x₇ ++ t₇) in
    let t₃ = x₄ ++ (x₅ ++ t₅) in
    let a₀ : At bytes 0 (bytes ++ []) = rw (append-nil bytes) (At-start bytes) in
    let s₁ =
      next _ e.entity_id bytes x₁ (x₂ ++ (x₃ ++ t₃)) [] 0
        (string-Reads no_id_length no_id e.entity_id fits.id) a₀ in
    let s₂ =
      next _ e.tenant_id bytes x₂ (x₃ ++ t₃) [] _
        (string-Reads no_tenant_length no_tenant e.tenant_id fits.tenant) s₁.1 in
    let s₃ =
      next _ e.entity_type bytes x₃ t₃ [] _
        (string-Reads no_type_length no_type e.entity_type fits.entity_type) s₂.1 in
    let s₄ = next _ e.embeddings bytes x₄ (x₅ ++ t₅) [] _ (embeddings-Reads e fits) s₃.1 in
    let s₅ =
      next _ e.incoming_edges bytes x₅ t₅ [] _
        (edges-Reads no_incoming_count bad_incoming_edge e.incoming_edges fits.incoming_few
          fits.incoming)
        s₄.1 in
    let s₆ =
      next _ e.outgoing_edges bytes x₆ (x₇ ++ t₇) [] _
        (edges-Reads no_outgoing_count bad_outgoing_edge e.outgoing_edges fits.outgoing_few
          fits.outgoing)
        s₅.1 in
    let s₇ = next _ e.chunks bytes x₇ t₇ [] _ (chunks-Reads e fits) s₆.1 in
    let s₈ =
      next _ e.importance bytes x₈ (x₉ ++ x₁₀) [] _
        (number-Reads no_importance 8 e.importance fits.importance) s₇.1 in
    let s₉ =
      next _ e.created_at bytes x₉ x₁₀ [] _
        (number-Reads no_created_at 8 e.created_at fits.created_at) s₈.1 in
    let last = (number-Reads no_updated_at 8 e.updated_at fits.updated_at).reads bytes [] _ s₉.1 in
    rw (s₁.0, s₂.0, s₃.0, s₄.0, s₅.0, s₆.0, s₇.0, s₈.0, s₉.0, last) refl

-- What ToBytes writes, FromBytes reads back, with every embedding, edge and chunk: an entity whose
-- lengths and counts fit into 32 bits, whose numbers are patterns of their width, and whose chunks
-- have each metadata key once, survives the round trip.
pub entity-from_bytes-to_bytes :
    (e : UnifiedEntity)
    → FitsEntity e
    → (bytes : Bytes) × (to_bytes e ≡ ok bytes) × (from_bytes bytes ≡ ok e)
entity-from_bytes-to_bytes e fits =
    (entity_layout e, entity-to_bytes-eq-layout e, entity-from_bytes-layout e fits)
