-- ===== src/Graph/Runs.antt =====
-- The invariant over calls of all operations.
use allidb.Entity.Edge.{GraphEdge}
use allidb.Graph.{
  GraphCache, holds, touch_entity, add_outgoing, add_incoming, add_edge, get_outgoing_edges,
  get_incoming_edges, get_neighbors, drop_reverse, remove_outgoing, remove_incoming, remove_lru,
  remove_entity, clear,
}
use allidb.Graph.Invariant.{
  IsCache, Almost-outgoing, Almost-incoming, same_keys-IsCache, touch_entity-IsCache, holds-keep,
  Nodup-keep, length-keep,
}
use allidb.Base.{
  Bool, Bool-cases, Bytes, List, Map, Option-cases, [], arith, delete, false, has_key,
  has_key-delete, has_key-insert, if◌then◌else◌, inl, inr, insert, keep, lookup, lookup-absent,
  none, not, refl, some, str_eq, str_eq_iff, true, ◌||◌, ◌∙◌, ◌∷◌, ◌≡◌,
}

touch_entity-holds : (id : Bytes) (g : GraphCache) → holds id (touch_entity id g).lru ≡ true
unfolding touch_entity
touch_entity-holds id g = ground (arith, str_eq_iff id id)

insert_outgoing-IsCache :
    (id : Bytes) (es : List GraphEdge) (g : GraphCache)
    → IsCache g
    → holds id g.lru ≡ true
    → IsCache (record g { outgoing_edges = insert id es g.outgoing_edges })
insert_outgoing-IsCache id es g c h = record {
  distinct = c.distinct;
  counted = c.counted;
  bounded = c.bounded;
  positive = c.positive;
  outgoing = λ k has.
      ground
        (arith, c.outgoing k, has, has_key-insert id k es g.outgoing_edges, str_eq_iff id k, h);
  incoming = c.incoming;
}

insert_incoming-IsCache :
    (id : Bytes) (es : List GraphEdge) (g : GraphCache)
    → IsCache g
    → holds id g.lru ≡ true
    → IsCache (record g { incoming_edges = insert id es g.incoming_edges })
insert_incoming-IsCache id es g c h = record {
  distinct = c.distinct;
  counted = c.counted;
  bounded = c.bounded;
  positive = c.positive;
  outgoing = c.outgoing;
  incoming = λ k has.
      ground
        (arith, c.incoming k, has, has_key-insert id k es g.incoming_edges, str_eq_iff id k, h);
}

add_outgoing-IsCache :
    (edge : GraphEdge) (g : GraphCache) → IsCache g → IsCache (add_outgoing edge g)
unfolding add_outgoing
add_outgoing-IsCache edge g c =
    let id = edge.from_entity in
    elim (Bool-cases (has_key id g.outgoing_edges)) [
      | inl there ↦
          rw there (insert_outgoing-IsCache id _ g c (ground (arith, c.outgoing id there)))
      | inr new ↦
          let g₁ = record g { outgoing_edges = insert id [] g.outgoing_edges } in
          rw new (
            insert_outgoing-IsCache id _ (touch_entity id g₁)
              (touch_entity-IsCache id g₁ (Almost-outgoing id [] g c)) (touch_entity-holds id g₁))
    ]

add_incoming-IsCache :
    (edge : GraphEdge) (g : GraphCache) → IsCache g → IsCache (add_incoming edge g)
unfolding add_incoming
add_incoming-IsCache edge g c =
    let id = edge.to_entity in
    elim (Bool-cases (has_key id g.incoming_edges)) [
      | inl there ↦
          rw there (insert_incoming-IsCache id _ g c (ground (arith, c.incoming id there)))
      | inr new ↦
          let g₁ = record g { incoming_edges = insert id [] g.incoming_edges } in
          rw new (
            insert_incoming-IsCache id _ (touch_entity id g₁)
              (touch_entity-IsCache id g₁ (Almost-incoming id [] g c)) (touch_entity-holds id g₁))
    ]

touched-IsCache :
    (test : Bool) (id : Bytes) (g : GraphCache)
    → IsCache g
    → IsCache (if test then touch_entity id g else g)
touched-IsCache true id g c = touch_entity-IsCache id g (record {
  distinct = c.distinct;
  counted = c.counted;
  bounded = c.bounded;
  positive = c.positive;
  outgoing = λ k has. ground (arith, c.outgoing k has);
  incoming = λ k has. ground (arith, c.incoming k has);
})
touched-IsCache false id g c = c

lookup-some-has_key :
    (k : Bytes) (m : Map (List GraphEdge)) {es : List GraphEdge}
    → lookup k m ≡ some es
    → has_key k m ≡ true
lookup-some-has_key k m h = ground (arith, h, lookup-absent k m)

lookup-none-has_key :
    (k : Bytes) (m : Map (List GraphEdge)) → lookup k m ≡ none → has_key k m ≡ false
unfolding lookup has_key
lookup-none-has_key k [] h = refl
lookup-none-has_key k ((j, v) ∷ m) h = ground (arith, h, lookup-none-has_key k m)

has_key-drop_reverse :
    (other : GraphEdge → Bytes) (stays : GraphEdge → Bool) (es : List GraphEdge)
    (m : Map (List GraphEdge)) (k : Bytes)
    → has_key k (drop_reverse other stays es m) ≡ has_key k m
unfolding drop_reverse
has_key-drop_reverse other stays [] m k = refl
has_key-drop_reverse other stays (e ∷ es) m k = elim (Option-cases (lookup (other e) m)) [
  | inl absent ↦ rw absent (has_key-drop_reverse other stays es m k)
  | inr (l, there) ↦ rw there (
      has_key-drop_reverse other stays es (insert (other e) (keep stays l) m) k
      ∙ ground (
        arith,
        has_key-insert (other e) k (keep stays l) m,
        lookup-some-has_key (other e) m there,
        str_eq_iff (other e) k,
      ))
]

remove_outgoing-IsCache :
    (id : Bytes) (g : GraphCache)
    → IsCache g
    → IsCache (remove_outgoing id g)
      × (has_key id (remove_outgoing id g).outgoing_edges ≡ false)
      × ((remove_outgoing id g).lru ≡ g.lru)
unfolding remove_outgoing
remove_outgoing-IsCache id g c = elim (Option-cases (lookup id g.outgoing_edges)) [
  | inl absent ↦
      rw (absent, remove_outgoing) (c, lookup-none-has_key id g.outgoing_edges absent, refl)
  | inr (es, there) ↦
      rw (there, remove_outgoing)
        (
          same_keys-IsCache g (delete id g.outgoing_edges)
              (drop_reverse (λ e. e.to_entity) (λ e. not (str_eq e.from_entity id)) es
                g.incoming_edges)
              c (λ k has. ground (arith, has, has_key-delete id k g.outgoing_edges))
              (λ k has. ground (
                arith,
                has,
                has_key-drop_reverse (λ (e : GraphEdge). e.to_entity)
                    (λ (e : GraphEdge). not (str_eq e.from_entity id)) es g.incoming_edges k,
              )),
          ground (arith, has_key-delete id id g.outgoing_edges, str_eq_iff id id),
          refl,
        )
]

remove_incoming-IsCache :
    (id : Bytes) (g : GraphCache)
    → IsCache g
    → IsCache (remove_incoming id g)
      × (has_key id (remove_incoming id g).incoming_edges ≡ false)
      × ((k : Bytes) → has_key k (remove_incoming id g).outgoing_edges ≡ has_key k g.outgoing_edges)
unfolding remove_incoming
remove_incoming-IsCache id g c = elim (Option-cases (lookup id g.incoming_edges)) [
  | inl absent ↦
      rw (absent, remove_incoming) (c, lookup-none-has_key id g.incoming_edges absent, λ k. refl)
  | inr (es, there) ↦
      let same =
        has_key-drop_reverse (λ (e : GraphEdge). e.from_entity)
          (λ (e : GraphEdge). not (str_eq e.to_entity id)) es g.outgoing_edges in
      rw (there, remove_incoming)
        (
          same_keys-IsCache g
              (drop_reverse (λ e. e.from_entity) (λ e. not (str_eq e.to_entity id)) es
                g.outgoing_edges)
              (delete id g.incoming_edges) c (λ k has. ground (arith, has, same k))
              (λ k has. ground (arith, has, has_key-delete id k g.incoming_edges)),
          ground (arith, has_key-delete id id g.incoming_edges, str_eq_iff id id),
          same,
        )
]

remove_lru-IsCache :
    (id : Bytes) (g : GraphCache)
    → IsCache g
    → has_key id g.outgoing_edges ≡ false
    → has_key id g.incoming_edges ≡ false
    → IsCache (remove_lru id g)
unfolding remove_lru
remove_lru-IsCache id g c out inc = elim (Bool-cases (holds id g.lru)) [
  | inr absent ↦ rw absent c
  | inl there ↦ rw there (record {
    distinct = Nodup-keep id g.lru c.distinct;
    counted = omega (arith, c.counted, length-keep id g.lru c.distinct there);
    bounded = omega (arith, c.bounded);
    positive = c.positive;
    outgoing =
        λ k has. ground (arith, c.outgoing k has, holds-keep k id g.lru, str_eq_iff id k, out, has);
    incoming =
        λ k has. ground (arith, c.incoming k has, holds-keep k id g.lru, str_eq_iff id k, inc, has);
  })
]

remove_entity-IsCache : (id : Bytes) (g : GraphCache) → IsCache g → IsCache (remove_entity id g)
unfolding remove_entity
remove_entity-IsCache id g c =
    let (c₁, out, same₁) = remove_outgoing-IsCache id g c in
    let (c₂, inc, same₂) = remove_incoming-IsCache id (remove_outgoing id g) c₁ in
    remove_lru-IsCache id (remove_incoming id (remove_outgoing id g)) c₂ (same₂ id ∙ out) inc

-- A call of an operation.
pub data Op : Type 0 where
  add : GraphEdge → Op
  outgoing incoming neighbors remove : Bytes → Op
  clear_all : Op

unfoldable pub step : GraphCache → Op → GraphCache
unfolding add_edge get_outgoing_edges get_incoming_edges get_neighbors remove_entity clear
step g (add edge) = add_edge edge g
step g (outgoing id) = (get_outgoing_edges id g).0
step g (incoming id) = (get_incoming_edges id g).0
step g (neighbors id) = (get_neighbors id g).0
step g (remove id) = remove_entity id g
step g clear_all = clear g

unfoldable pub run : GraphCache → List Op → GraphCache
unfolding step
run g [] = g
run g (op ∷ ops) = run (step g op) ops

clear-IsCache : (g : GraphCache) → IsCache g → IsCache (clear g)
unfolding clear has_key
clear-IsCache g c = record {
  distinct = tt;
  counted = refl;
  bounded = omega arith;
  positive = c.positive;
  outgoing = λ k has. absurd (cc);
  incoming = λ k has. absurd (cc);
}

step-IsCache : (g : GraphCache) (op : Op) → IsCache g → IsCache (step g op)
unfolding step
step-IsCache g (add edge) c =
    add_incoming-IsCache edge (add_outgoing edge g) (add_outgoing-IsCache edge g c)
step-IsCache g (outgoing id) c = touched-IsCache (has_key id g.outgoing_edges) id g c
step-IsCache g (incoming id) c = touched-IsCache (has_key id g.incoming_edges) id g c
step-IsCache g (neighbors id) c =
    touched-IsCache (has_key id g.outgoing_edges || has_key id g.incoming_edges) id g c
step-IsCache g (remove id) c = remove_entity-IsCache id g c
step-IsCache g clear_all c = clear-IsCache g c

-- From a cache that satisfies the invariant, such as a new one, no calls break it: the list of used
-- entities has each entity once, the size counts it and stays within the bound, and every entity
-- that has edges is in the list, so that it can be evicted.
pub run-IsCache : (g : GraphCache) (ops : List Op) → IsCache g → IsCache (run g ops)
unfolding run
run-IsCache g [] c = c
run-IsCache g (op ∷ ops) c = run-IsCache (step g op) ops (step-IsCache g op c)
