-- ===== src/Entity/Unified/Updates.antt =====
-- The updates of an entity only add to it.
use allidb.Entity.Chunk.{TextChunk}
use allidb.Entity.Edge.{GraphEdge}
use allidb.Entity.Unified.{
  VectorEmbedding, UnifiedEntity, add_embedding, add_incoming_edge, add_outgoing_edge, add_chunk,
  set_importance, get_latest_embedding,
}
use allidb.Base.{
  List, Option, [], append-nil, append_assoc, arith, get_elem?, if◌then◌else◌, length, none, refl,
  some, suc, sym, ℕ, ◌++◌, ◌+◌, ◌-◌, ◌==◌, ◌∙◌, ◌∷◌, ◌≡◌,
}

-- A call of an update, with the clock's readings.
pub data Update : Type 0 where
  embedding : ℕ → ℕ → List ℕ → Update
  incoming outgoing : ℕ → GraphEdge → Update
  chunk : ℕ → TextChunk → Update
  importance : ℕ → ℕ → Update

unfoldable pub step : UnifiedEntity → Update → UnifiedEntity
unfolding add_embedding add_incoming_edge add_outgoing_edge add_chunk set_importance
step e (embedding now later vector) = add_embedding now later vector e
step e (incoming now edge) = add_incoming_edge now edge e
step e (outgoing now edge) = add_outgoing_edge now edge e
step e (chunk now c) = add_chunk now c e
step e (importance now score) = set_importance now score e

unfoldable pub run : UnifiedEntity → List Update → UnifiedEntity
run e [] = e
run e (u ∷ us) = run (step e u) us

-- The versions count up from n.
abbrev pub VersionsFrom : ℕ → List VectorEmbedding → Type 0
VersionsFrom n [] = Unit {0}
VersionsFrom n (v ∷ vs) = (v.version ≡ n) × VersionsFrom (suc n) vs

VersionsFrom-append :
    (n : ℕ) (vs : List VectorEmbedding) (v : VectorEmbedding)
    → VersionsFrom n vs
    → v.version ≡ n + length vs
    → VersionsFrom n (vs ++ v ∷ [])
VersionsFrom-append n [] v h e = (omega (arith, e), tt)
VersionsFrom-append n (w ∷ vs) v h e =
    (h.0, VersionsFrom-append (suc n) vs v h.1 (omega (arith, e)))

step-VersionsFrom :
    (e : UnifiedEntity) (u : Update)
    → VersionsFrom 1 e.embeddings
    → VersionsFrom 1 (step e u).embeddings
unfolding step
step-VersionsFrom e (embedding now later vector) h =
    VersionsFrom-append 1 e.embeddings _ h (omega arith)
step-VersionsFrom e (incoming now edge) h = h
step-VersionsFrom e (outgoing now edge) h = h
step-VersionsFrom e (chunk now c) h = h
step-VersionsFrom e (importance now score) h = h

-- The list goes on where the other ends.
abbrev pub IsPrefix {ℓ} : {A : Type ℓ} → List A → List A → Type ℓ
IsPrefix {A = A} xs ys = (zs : List A) × (ys ≡ xs ++ zs)

IsPrefix-refl {ℓ} : {A : Type ℓ} (xs : List A) → IsPrefix xs xs
IsPrefix-refl xs = ([], sym (append-nil xs))

IsPrefix-trans {ℓ} :
    {A : Type ℓ} (xs : List A) {ys zs : List A} → IsPrefix xs ys → IsPrefix ys zs → IsPrefix xs zs
IsPrefix-trans xs (us, e) (vs, f) = (us ++ vs, rw (f, e) (append_assoc xs us vs))

-- What was there stays, in its place, and the names do not change.
pub record Extends (e f : UnifiedEntity) : Type 0 where
  pub entity_id : f.entity_id ≡ e.entity_id
  pub tenant_id : f.tenant_id ≡ e.tenant_id
  pub entity_type : f.entity_type ≡ e.entity_type
  pub created_at : f.created_at ≡ e.created_at
  pub embeddings : IsPrefix e.embeddings f.embeddings
  pub incoming_edges : IsPrefix e.incoming_edges f.incoming_edges
  pub outgoing_edges : IsPrefix e.outgoing_edges f.outgoing_edges
  pub chunks : IsPrefix e.chunks f.chunks

Extends-refl : (e : UnifiedEntity) → Extends e e
Extends-refl e = record {
  entity_id = refl;
  tenant_id = refl;
  entity_type = refl;
  created_at = refl;
  embeddings = IsPrefix-refl e.embeddings;
  incoming_edges = IsPrefix-refl e.incoming_edges;
  outgoing_edges = IsPrefix-refl e.outgoing_edges;
  chunks = IsPrefix-refl e.chunks;
}

Extends-trans : (e f g : UnifiedEntity) → Extends e f → Extends f g → Extends e g
Extends-trans e f g x y = record {
  entity_id = y.entity_id ∙ x.entity_id;
  tenant_id = y.tenant_id ∙ x.tenant_id;
  entity_type = y.entity_type ∙ x.entity_type;
  created_at = y.created_at ∙ x.created_at;
  embeddings = IsPrefix-trans e.embeddings x.embeddings y.embeddings;
  incoming_edges = IsPrefix-trans e.incoming_edges x.incoming_edges y.incoming_edges;
  outgoing_edges = IsPrefix-trans e.outgoing_edges x.outgoing_edges y.outgoing_edges;
  chunks = IsPrefix-trans e.chunks x.chunks y.chunks;
}

-- Where only lists have grown.
grown :
    {e f : UnifiedEntity}
    → f.entity_id ≡ e.entity_id
    → f.tenant_id ≡ e.tenant_id
    → f.entity_type ≡ e.entity_type
    → f.created_at ≡ e.created_at
    → IsPrefix e.embeddings f.embeddings
    → IsPrefix e.incoming_edges f.incoming_edges
    → IsPrefix e.outgoing_edges f.outgoing_edges
    → IsPrefix e.chunks f.chunks
    → Extends e f
grown id tenant kind created p q r s = record {
  entity_id = id;
  tenant_id = tenant;
  entity_type = kind;
  created_at = created;
  embeddings = p;
  incoming_edges = q;
  outgoing_edges = r;
  chunks = s;
}

step-Extends : (e : UnifiedEntity) (u : Update) → Extends e (step e u)
unfolding step
step-Extends e (embedding now later vector) =
    grown refl refl refl refl (_, refl) (IsPrefix-refl _) (IsPrefix-refl _) (IsPrefix-refl _)
step-Extends e (incoming now edge) =
    grown refl refl refl refl (IsPrefix-refl _) (_, refl) (IsPrefix-refl _) (IsPrefix-refl _)
step-Extends e (outgoing now edge) =
    grown refl refl refl refl (IsPrefix-refl _) (IsPrefix-refl _) (_, refl) (IsPrefix-refl _)
step-Extends e (chunk now c) =
    grown refl refl refl refl (IsPrefix-refl _) (IsPrefix-refl _) (IsPrefix-refl _) (_, refl)
step-Extends e (importance now score) =
    grown refl refl refl refl (IsPrefix-refl _) (IsPrefix-refl _) (IsPrefix-refl _)
      (IsPrefix-refl _)

-- The version of the latest embedding, 0 where there is none.
abbrev pub latest_version : UnifiedEntity → ℕ
latest_version e = elim (get_latest_embedding e) [ none ↦ 0 | some v ↦ v.version ]

VersionsFrom-last :
    (n : ℕ) (v : VectorEmbedding) (vs : List VectorEmbedding)
    → VersionsFrom n (v ∷ vs)
    → (w : VectorEmbedding) × (get_elem? (v ∷ vs) (length vs) ≡ some w)
      × (w.version ≡ n + length vs)
VersionsFrom-last n v [] h = (v, refl, omega (arith, h.0))
VersionsFrom-last n v (w ∷ vs) h =
    let (last, at, version) = VersionsFrom-last (suc n) w vs h.1 in
    (last, at, omega (arith, version))

latest_of : List VectorEmbedding → Option VectorEmbedding
latest_of vs = if length vs == 0 then none else get_elem? vs (length vs - 1)

latest_of-version :
    (vs : List VectorEmbedding)
    → VersionsFrom 1 vs
    → elim (latest_of vs) as (λ x. ℕ) [ none ↦ 0 | some v ↦ v.version ] ≡ length vs
unfolding latest_of
latest_of-version [] h = refl
latest_of-version (v ∷ vs) h =
    let (last, at, version) = VersionsFrom-last 1 v vs h in ground (arith, at, version)

latest_version-eq :
    (e : UnifiedEntity) → VersionsFrom 1 e.embeddings → latest_version e ≡ length e.embeddings
unfolding get_latest_embedding latest_of
latest_version-eq e h = latest_of-version e.embeddings h

-- Over any updates of an entity whose embeddings have the versions 1, 2, ..., as those of a new
-- one do: the versions go on without a gap, GetLatestEmbedding returns the one with the highest
-- version, every embedding, edge and chunk stays where it is, and the id, the tenant, the type and
-- the time of creation do not change.
pub run-append_only :
    (us : List Update) (e : UnifiedEntity)
    → VersionsFrom 1 e.embeddings
    → VersionsFrom 1 (run e us).embeddings
      × (latest_version (run e us) ≡ length (run e us).embeddings)
      × Extends e (run e us)
unfolding run
run-append_only [] e h = (h, latest_version-eq e h, Extends-refl e)
run-append_only (u ∷ us) e h =
    let (versions, latest, extends) = run-append_only us (step e u) (step-VersionsFrom e u h) in
    (versions, latest, Extends-trans e (step e u) (run (step e u) us) (step-Extends e u) extends)
