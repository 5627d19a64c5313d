-- ===== src/Entity/Unified/Layout.antt =====
-- What ToBytes of an entity writes.
use allidb.Wire.Numbers.{le_bytes, length-le_bytes}
use allidb.Wire.Buffer.{Panic, Buffer, put, filled, make-eq-filled, put-filled, bytes-filled}
use allidb.Wire.Text.{put_string, string_layout, length-string_layout, put_string-filled}
use allidb.Entity.Chunk
use allidb.Entity.Chunk.{TextChunk}
use allidb.Entity.Chunk.RoundTrip.{chunk_layout, to_bytes-eq-layout}
use allidb.Entity.Edge
use allidb.Entity.Edge.{GraphEdge}
use allidb.Entity.Edge.RoundTrip.{edge_layout, edge-to_bytes-eq-layout}
use allidb.Entity.Unified.{
  VectorEmbedding, UnifiedEntity, put_all, put_counted, put_embedding, put_encoded, encoded_sizes,
  encoded_size, put_fields, to_bytes,
}
use allidb.Base.{
  Bytes, List, Result, [], ap, append-nil, append_assoc, arith, length, length-append, ok, refl,
  sum_of, sym, ℕ, ◌*◌, ◌++◌, ◌+◌, ◌>>=◌, ◌∙◌, ◌∷◌, ◌≡◌,
}

abbrev pub each_layout {ℓ} : {A : Type ℓ} → (A → Bytes) → List A → Bytes
each_layout f [] = []
each_layout f (x ∷ xs) = f x ++ each_layout f xs

abbrev pub counted_layout {ℓ} : {A : Type ℓ} → (A → Bytes) → List A → Bytes
counted_layout f xs = le_bytes 4 (length xs) ++ each_layout f xs

abbrev pub embedding_layout : VectorEmbedding → Bytes
embedding_layout v =
    le_bytes 8 v.version ++ (le_bytes 8 v.timestamp ++ counted_layout (le_bytes 4) v.vector)

abbrev pub times_layout : UnifiedEntity → Bytes
times_layout e = le_bytes 8 e.created_at ++ le_bytes 8 e.updated_at

abbrev pub entity_layout : UnifiedEntity → Bytes
entity_layout e =
    string_layout e.entity_id
    ++ (string_layout e.tenant_id
        ++ (string_layout e.entity_type
            ++ (counted_layout embedding_layout e.embeddings
                ++ (counted_layout edge_layout e.incoming_edges
                    ++ (counted_layout edge_layout e.outgoing_edges
                        ++ (counted_layout chunk_layout e.chunks
                            ++ (le_bytes 8 e.importance ++ times_layout e)))))))

-- The action writes these bytes, where there is room for them.
record Writes (f : Buffer → Result Panic Buffer) (x : Bytes) : Type 0 where
  writes : (pre : Bytes) (n m : ℕ) → n ≡ length x + m → f (filled pre n) ≡ ok (filled (pre ++ x) m)

Writes-then :
    (f g : Buffer → Result Panic Buffer) (x y : Bytes)
    → Writes f x
    → Writes g y
    → Writes (λ b. f b >>= g) (x ++ y)
Writes-then f g x y wf wg = record {
  writes = λ pre n m e. rw (wf.writes pre n (length y + m) (omega (arith, e, length-append x y))) (
      wg.writes (pre ++ x) (length y + m) m refl
      ∙ ap (λ p. ok (filled p m)) (append_assoc pre x y));
}

put-Writes : (x : Bytes) → Writes (put x) x
put-Writes x = record { writes = put-filled x }

put_string-Writes : (s : Bytes) → Writes (put_string s) (string_layout s)
put_string-Writes s = record {
  writes = λ pre n m e. put_string-filled s pre n m (omega (arith, e, length-string_layout s));
}

module _ {ℓ} {A : Type ℓ} (put_item : A → Buffer → Result Panic Buffer) (layout : A → Bytes)
    (writes : (x : A) → Writes (put_item x) (layout x)) where
  put_all-Writes : (xs : List A) → Writes (put_all put_item xs) (each_layout layout xs)
  unfolding put_all
  put_all-Writes [] = record {
    writes = λ pre n m e. let e' : n ≡ m = omega (arith, e) in rw (e', append-nil pre) refl;
  }
  put_all-Writes (x ∷ xs) =
      Writes-then (put_item x) (put_all put_item xs) (layout x) (each_layout layout xs) (writes x)
        (put_all-Writes xs)

  put_counted-Writes : (xs : List A) → Writes (put_counted put_item xs) (counted_layout layout xs)
  unfolding put_counted
  put_counted-Writes xs =
      Writes-then (put (le_bytes 4 (length xs))) (put_all put_item xs) (le_bytes 4 (length xs))
        (each_layout layout xs) (put-Writes (le_bytes 4 (length xs))) (put_all-Writes xs)

put_embedding-Writes : (v : VectorEmbedding) → Writes (put_embedding v) (embedding_layout v)
unfolding put_embedding
put_embedding-Writes v =
    Writes-then (put (le_bytes 8 v.version)) _ (le_bytes 8 v.version) _
      (put-Writes (le_bytes 8 v.version))
      (Writes-then (put (le_bytes 8 v.timestamp)) _ (le_bytes 8 v.timestamp) _
        (put-Writes (le_bytes 8 v.timestamp))
        (put_counted-Writes (λ x. put (le_bytes 4 x)) (le_bytes 4) (λ x. put-Writes (le_bytes 4 x))
          v.vector))

module _ {A : Type 0} (encode : A → Result Panic Bytes) (layout : A → Bytes)
    (encodes : (x : A) → encode x ≡ ok (layout x)) where
  put_encoded-Writes : (x : A) → Writes (put_encoded encode x) (layout x)
  unfolding put_encoded
  put_encoded-Writes x = record {
    writes = λ pre n m e. rw (encodes x) (put-filled (layout x) pre n m e);
  }

  encoded_sizes-eq : (xs : List A) → encoded_sizes encode xs ≡ ok (length (each_layout layout xs))
  unfolding encoded_sizes
  encoded_sizes-eq [] = refl
  encoded_sizes-eq (x ∷ xs) =
      rw (encodes x, encoded_sizes-eq xs)
        (ap ok (sym (length-append (layout x) (each_layout layout xs))))

put_fields-Writes : (e : UnifiedEntity) → Writes (put_fields e) (entity_layout e)
unfolding put_fields
put_fields-Writes e =
    let edges =
      put_counted-Writes (put_encoded Edge.to_bytes) edge_layout
        (put_encoded-Writes Edge.to_bytes edge_layout edge-to_bytes-eq-layout) in
    Writes-then _ _ _ _ (put_string-Writes e.entity_id) (
      Writes-then _ _ _ _ (put_string-Writes e.tenant_id) (
        Writes-then _ _ _ _ (put_string-Writes e.entity_type) (
          Writes-then _ _ _ _
            (put_counted-Writes put_embedding embedding_layout put_embedding-Writes e.embeddings)
            (Writes-then _ _ _ _ (edges e.incoming_edges) (
              Writes-then _ _ _ _ (edges e.outgoing_edges) (
                Writes-then _ _ _ _
                  (put_counted-Writes (put_encoded Chunk.to_bytes) chunk_layout
                    (put_encoded-Writes Chunk.to_bytes chunk_layout to_bytes-eq-layout) e.chunks)
                  (Writes-then _ _ _ _ (put-Writes (le_bytes 8 e.importance)) (
                    Writes-then _ _ _ _ (put-Writes (le_bytes 8 e.created_at))
                      (put-Writes (le_bytes 8 e.updated_at))))))))))

pub length-floats : (xs : List ℕ) → length (each_layout (le_bytes 4) xs) ≡ length xs * 4
length-floats [] = omega arith
length-floats (x ∷ xs) = omega (
  arith,
  length-append (le_bytes 4 x) (each_layout (le_bytes 4) xs),
  length-le_bytes 4 x,
  length-floats xs,
)

length-counted {ℓ} :
    {A : Type ℓ} (f : A → Bytes) (xs : List A)
    → length (counted_layout f xs) ≡ 4 + length (each_layout f xs)
length-counted f xs = omega (
  arith,
  length-append (le_bytes 4 (length xs)) (each_layout f xs),
  length-le_bytes 4 (length xs),
)

length-embeddings :
    (vs : List VectorEmbedding)
    → length (each_layout embedding_layout vs) ≡ sum_of (λ v. 20 + length v.vector * 4) vs
length-embeddings [] = refl
length-embeddings (v ∷ vs) = omega (
  arith,
  length-append (embedding_layout v) (each_layout embedding_layout vs),
  length-append (le_bytes 8 v.version)
      (le_bytes 8 v.timestamp ++ counted_layout (le_bytes 4) v.vector),
  length-append (le_bytes 8 v.timestamp) (counted_layout (le_bytes 4) v.vector),
  length-le_bytes 8 v.version,
  length-le_bytes 8 v.timestamp,
  length-counted (le_bytes 4) v.vector,
  length-floats v.vector,
  length-embeddings vs,
)

length-tail :
    (e : UnifiedEntity)
    → length (
        counted_layout edge_layout e.outgoing_edges
        ++ (counted_layout chunk_layout e.chunks ++ (le_bytes 8 e.importance ++ times_layout e)))
      ≡ 32
        + length (each_layout edge_layout e.outgoing_edges)
        + length (each_layout chunk_layout e.chunks)
length-tail e =
    let chunks = counted_layout chunk_layout e.chunks in
    let numbers = le_bytes 8 e.importance ++ times_layout e in
    omega (
      arith,
      length-append (counted_layout edge_layout e.outgoing_edges) (chunks ++ numbers),
      length-append chunks numbers,
      length-append (le_bytes 8 e.importance) (times_layout e),
      length-append (le_bytes 8 e.created_at) (le_bytes 8 e.updated_at),
      length-le_bytes 8 e.importance,
      length-le_bytes 8 e.created_at,
      length-le_bytes 8 e.updated_at,
      length-counted edge_layout e.outgoing_edges,
      length-counted chunk_layout e.chunks,
    )

length-entity_layout :
    (e : UnifiedEntity)
    → length (entity_layout e)
      ≡ 4
        + length e.entity_id
        + 4
        + length e.tenant_id
        + 4
        + length e.entity_type
        + 40
        + sum_of (λ v. 20 + length v.vector * 4) e.embeddings
        + length (each_layout edge_layout e.incoming_edges)
        + length (each_layout edge_layout e.outgoing_edges)
        + length (each_layout chunk_layout e.chunks)
length-entity_layout e =
    let tail =
      counted_layout edge_layout e.outgoing_edges
      ++ (counted_layout chunk_layout e.chunks ++ (le_bytes 8 e.importance ++ times_layout e)) in
    let incoming = counted_layout edge_layout e.incoming_edges in
    let embeddings = counted_layout embedding_layout e.embeddings in
    let entity_type = string_layout e.entity_type in
    let tenant = string_layout e.tenant_id in
    omega (
      arith,
      length-append (string_layout e.entity_id)
          (tenant ++ (entity_type ++ (embeddings ++ (incoming ++ tail)))),
      length-append tenant (entity_type ++ (embeddings ++ (incoming ++ tail))),
      length-append entity_type (embeddings ++ (incoming ++ tail)),
      length-append embeddings (incoming ++ tail),
      length-append incoming tail,
      length-tail e,
      length-string_layout e.entity_id,
      length-string_layout e.tenant_id,
      length-string_layout e.entity_type,
      length-counted embedding_layout e.embeddings,
      length-embeddings e.embeddings,
      length-counted edge_layout e.incoming_edges,
    )

-- The buffer has exactly the room that the fields take.
encoded_size-eq : (e : UnifiedEntity) → encoded_size e ≡ ok (length (entity_layout e))
unfolding encoded_size
encoded_size-eq e =
    rw
      (
        encoded_sizes-eq Edge.to_bytes edge_layout edge-to_bytes-eq-layout e.incoming_edges,
        encoded_sizes-eq Edge.to_bytes edge_layout edge-to_bytes-eq-layout e.outgoing_edges,
        encoded_sizes-eq Chunk.to_bytes chunk_layout to_bytes-eq-layout e.chunks,
      )
      (ap ok (sym (length-entity_layout e)))

pub entity-to_bytes-eq-layout : (e : UnifiedEntity) → to_bytes e ≡ ok (entity_layout e)
unfolding to_bytes
entity-to_bytes-eq-layout e =
    rw
      (
        encoded_size-eq e,
        make-eq-filled (length (entity_layout e)),
        (put_fields-Writes e).writes [] (length (entity_layout e)) 0 (omega arith),
      )
      (ap ok (bytes-filled (entity_layout e)))
