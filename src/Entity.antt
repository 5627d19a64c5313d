-- ===== src/Entity.antt =====
-- core/entity: text chunks, graph edges and the entities that hold them, with their binary
-- encodings.
pub mod Chunk
pub mod Edge
pub mod Unified
mod Tests
