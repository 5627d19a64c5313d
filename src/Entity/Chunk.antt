-- ===== src/Entity/Chunk.antt =====
-- core/entity/chunk.go: TextChunk, its size and its binary encoding. Lengths are Go's `int`, and
-- are cut to 32 bits where they are written. The receiver's state after a failed FromBytes is left
-- out: the callers drop it. JSON is encoding/json's, and is not modelled.
pub mod RoundTrip
use allidb.Wire.Numbers.{le_bytes}
use allidb.Wire.Buffer.{Panic, Buffer, make, put}
use allidb.Wire.Cursor.{read_uint32}
use allidb.Wire.Text.{put_string, read_string}
use allidb.Base.{
  Bytes, Map, Result, [], count, insert, length, ok, suc, sum_of, zero, ℕ, ◌+◌, ◌>>=◌, ◌>>◌, ◌∷◌,
}

pub record TextChunk : Type 0 where
  pub chunk_id : Bytes
  pub text : Bytes
  pub metadata : Map Bytes

-- Size: an estimate of the memory that the chunk takes
unfoldable pub size : TextChunk → ℕ
size c =
    length c.chunk_id
    + 8
    + (length c.text + 8)
    + 24
    + sum_of (λ e. length e.0 + length e.1 + 16) c.metadata

unfoldable pub encoded_size : TextChunk → ℕ
encoded_size c =
    4
    + length c.chunk_id
    + 4
    + length c.text
    + 4
    + sum_of (λ e. 4 + length e.0 + 4 + length e.1) c.metadata

unfoldable pub put_entries : Map Bytes → Buffer → Result Panic Buffer
put_entries [] b = ok b
put_entries ((k, v) ∷ m) b = do b' ← put_string k b; b'' ← put_string v b'; put_entries m b''

unfoldable pub to_bytes : TextChunk → Result Panic Bytes
to_bytes c = do
  b₁ ← put_string c.chunk_id (make (encoded_size c))
  b₂ ← put_string c.text b₁
  b₃ ← put (le_bytes 4 (length c.metadata)) b₂
  b₄ ← put_entries c.metadata b₃
  ok b₄.bytes

pub data ChunkError : Type 0 where
  no_id_length no_id no_text_length no_text no_metadata_count : ChunkError
  no_key_length no_key no_value_length no_value : ChunkError

unfoldable pub read_entries : ℕ → Bytes → ℕ → Map Bytes → Result ChunkError (Map Bytes × ℕ)
read_entries zero bytes offset m = ok (m, offset)
read_entries (suc count) bytes offset m = do
  (key, offset') ← read_string no_key_length no_key bytes offset
  (value, offset'') ← read_string no_value_length no_value bytes offset'
  read_entries count bytes offset'' (insert key value m)

unfoldable pub from_bytes : Bytes → Result ChunkError TextChunk
from_bytes bytes = do
  (id, offset₁) ← read_string no_id_length no_id bytes 0
  (text, offset₂) ← read_string no_text_length no_text bytes offset₁
  (count, offset₃) ← read_uint32 no_metadata_count bytes offset₂
  (metadata, offset₄) ← read_entries count bytes offset₃ []
  ok (record { chunk_id = id; text = text; metadata = metadata })
