-- ===== src/Graph/Multigraph.antt =====
-- A cache with room for all entities is the list of the edges that were added.
use allidb.Entity.Edge.{GraphEdge}
use allidb.Graph.{
  GraphCache, new_graph_cache, holds, make_room, push_front, touch_entity, found, edges_of,
  add_outgoing, add_incoming, add_edge, get_outgoing_edges, get_incoming_edges,
}
use allidb.Graph.Invariant.{IsCache}
use allidb.Graph.Runs.{add, step, run, run-IsCache}
use allidb.Base.{
  Bool, Bool-cases, Bytes, List, Map, [], ap, append-nil, append_assoc, arith, false, has_key,
  if◌then◌else◌, inl, inr, insert, keep, keep-append, leb, length, lookup, lookup-absent,
  lookup-insert, ltb, map, refl, str_eq, str_eq_iff, sym, true, ℕ, ◌*◌, ◌++◌, ◌+◌, ◌<◌, ◌||◌, ◌∙◌,
  ◌∷◌, ◌≡◌, ◌≤◌,
}

-- The abstract view: the edges in the order in which they were added.
abbrev pub edges_from : Bytes → List GraphEdge → List GraphEdge
edges_from id es = keep (λ e. str_eq e.from_entity id) es

abbrev pub edges_to : Bytes → List GraphEdge → List GraphEdge
edges_to id es = keep (λ e. str_eq e.to_entity id) es

record Refines (g : GraphCache) (es : List GraphEdge) : Type 0 where
  outgoing : (k : Bytes) → edges_of k g.outgoing_edges ≡ edges_from k es
  incoming : (k : Bytes) → edges_of k g.incoming_edges ≡ edges_to k es

-- The entity is in the list, or there is room for it.
abbrev Fits : Bytes → GraphCache → Type 0
Fits id g = (holds id g.lru || ltb g.current_size g.max_size) ≡ true

record Same (g h : GraphCache) : Type 0 where
  outgoing : h.outgoing_edges ≡ g.outgoing_edges
  incoming : h.incoming_edges ≡ g.incoming_edges
  max_size : h.max_size ≡ g.max_size
  grown : h.current_size ≤ g.current_size + 1

touch_entity-Same : (id : Bytes) (g : GraphCache) → Fits id g → Same g (touch_entity id g)
unfolding touch_entity
touch_entity-Same id g fits = elim (Bool-cases (holds id g.lru)) [
  | inl there ↦
      rw there (record { outgoing = refl; incoming = refl; max_size = refl; grown = omega arith })
  | inr new ↦
      let room : leb g.max_size g.current_size ≡ false = ground (arith, fits, new) in
      rw (new, room, make_room, push_front)
        (record { outgoing = refl; incoming = refl; max_size = refl; grown = omega arith })
]

edges_of-insert :
    (id k : Bytes) (es : List GraphEdge) (m : Map (List GraphEdge))
    → edges_of k (insert id es m) ≡ (if str_eq id k then es else edges_of k m)
edges_of-insert id k es m = elim (Bool-cases (str_eq id k)) [
  | inl e ↦ ap found (lookup-insert id k es m) ∙ rw e refl
  | inr e ↦ ap found (lookup-insert id k es m) ∙ rw e refl
]

edges_of-absent :
    (id : Bytes) (m : Map (List GraphEdge)) → has_key id m ≡ false → edges_of id m ≡ []
edges_of-absent id m h = ap found (lookup-absent id m h)

-- What adding one half of an edge does, where nothing is evicted.
record Added (edge : GraphEdge) (id : Bytes) (m n : Map (List GraphEdge)) : Type 0 where
  lists :
      (k : Bytes) → edges_of k n ≡ (if str_eq id k then edges_of k m ++ edge ∷ [] else edges_of k m)

insert-Added :
    (edge : GraphEdge) (id : Bytes) (m : Map (List GraphEdge))
    → Added edge id m (insert id (edges_of id m ++ edge ∷ []) m)
insert-Added edge id m = record {
  lists = λ k. edges_of-insert id k (edges_of id m ++ edge ∷ []) m ∙ same k;
}
  where
    same :
        (k : Bytes)
        → (if str_eq id k then edges_of id m ++ edge ∷ [] else edges_of k m)
          ≡ (if str_eq id k then edges_of k m ++ edge ∷ [] else edges_of k m)
    same k = elim (Bool-cases (str_eq id k)) [
      | inl e ↦ rw e (ap (λ j. edges_of j m ++ edge ∷ []) ((str_eq_iff id k).0 e))
      | inr e ↦ rw e refl
    ]

insert_new-Added :
    (edge : GraphEdge) (id : Bytes) (m : Map (List GraphEdge))
    → has_key id m ≡ false
    → Added edge id m (insert id (edges_of id (insert id [] m) ++ edge ∷ []) (insert id [] m))
insert_new-Added edge id m new = record {
  lists = λ k. (insert-Added edge id (insert id [] m)).lists k ∙ elim (Bool-cases (str_eq id k)) [
    | inl e ↦
        let here : edges_of k m ≡ [] =
          edges_of-absent k m (ground (arith, new, str_eq_iff id k, e)) in
        rw (e, edges_of-insert id k [] m, e, here) refl
    | inr e ↦ rw (e, edges_of-insert id k [] m, e) refl
  ];
}

-- Adding one half of an edge: its list grows, and at most one entity is new.
record HalfAdded (g h : GraphCache) (edge : GraphEdge) : Type 0 where
  outgoing : Added edge edge.from_entity g.outgoing_edges h.outgoing_edges
  incoming : h.incoming_edges ≡ g.incoming_edges
  max_size : h.max_size ≡ g.max_size
  grown : h.current_size ≤ g.current_size + 1

add_outgoing-HalfAdded :
    (edge : GraphEdge) (g : GraphCache)
    → g.current_size < g.max_size
    → HalfAdded g (add_outgoing edge g) edge
unfolding add_outgoing
add_outgoing-HalfAdded edge g room =
    let id = edge.from_entity in
    elim (Bool-cases (has_key id g.outgoing_edges)) [
      | inl there ↦ rw there (record {
        outgoing = insert-Added edge id g.outgoing_edges;
        incoming = refl;
        max_size = refl;
        grown = omega arith;
      })
      | inr new ↦
          let g₁ = record g { outgoing_edges = insert id [] g.outgoing_edges } in
          let same = touch_entity-Same id g₁ (ground (arith, room)) in
          rw (new, same.outgoing)
            (record {
              outgoing = insert_new-Added edge id g.outgoing_edges new;
              incoming = same.incoming;
              max_size = same.max_size;
              grown = same.grown;
            })
    ]

record OtherHalfAdded (g h : GraphCache) (edge : GraphEdge) : Type 0 where
  outgoing : h.outgoing_edges ≡ g.outgoing_edges
  incoming : Added edge edge.to_entity g.incoming_edges h.incoming_edges
  max_size : h.max_size ≡ g.max_size
  grown : h.current_size ≤ g.current_size + 1

add_incoming-OtherHalfAdded :
    (edge : GraphEdge) (g : GraphCache)
    → g.current_size < g.max_size
    → OtherHalfAdded g (add_incoming edge g) edge
unfolding add_incoming
add_incoming-OtherHalfAdded edge g room =
    let id = edge.to_entity in
    elim (Bool-cases (has_key id g.incoming_edges)) [
      | inl there ↦ rw there (record {
        outgoing = refl;
        incoming = insert-Added edge id g.incoming_edges;
        max_size = refl;
        grown = omega arith;
      })
      | inr new ↦
          let g₁ = record g { incoming_edges = insert id [] g.incoming_edges } in
          let same = touch_entity-Same id g₁ (ground (arith, room)) in
          rw (new, same.incoming)
            (record {
              outgoing = same.outgoing;
              incoming = insert_new-Added edge id g.incoming_edges new;
              max_size = same.max_size;
              grown = same.grown;
            })
    ]

keep_snoc :
    (p : GraphEdge → Bool) (es : List GraphEdge) (e : GraphEdge)
    → keep p (es ++ e ∷ []) ≡ (if p e then keep p es ++ e ∷ [] else keep p es)
keep_snoc p es e = elim (Bool-cases (p e)) [
  | inl kept ↦ keep-append p es (e ∷ []) ∙ rw kept refl
  | inr dropped ↦ keep-append p es (e ∷ []) ∙ rw dropped (append-nil (keep p es))
]

add_edge-Refines :
    (edge : GraphEdge) (g : GraphCache) (es : List GraphEdge)
    → g.current_size + 2 ≤ g.max_size
    → Refines g es
    → Refines (add_edge edge g) (es ++ edge ∷ [])
      × ((add_edge edge g).max_size ≡ g.max_size)
      × ((add_edge edge g).current_size ≤ g.current_size + 2)
unfolding add_edge
add_edge-Refines edge g es room r =
    let first = add_outgoing-HalfAdded edge g (omega (arith, room)) in
    let h = add_outgoing edge g in
    let second =
      add_incoming-OtherHalfAdded edge h (omega (arith, room, first.grown, first.max_size)) in
    (
      record {
        outgoing = λ k.
            ap (edges_of k) second.outgoing
            ∙ first.outgoing.lists k
            ∙ rw (r.outgoing k) (sym (keep_snoc (λ e. str_eq e.from_entity k) es edge));
        incoming = λ k.
            second.incoming.lists k
            ∙ rw (first.incoming, r.incoming k)
                (sym (keep_snoc (λ e. str_eq e.to_entity k) es edge));
      },
      second.max_size ∙ first.max_size,
      omega (arith, first.grown, second.grown),
    )

add_all-Refines :
    (es : List GraphEdge) (g : GraphCache) (known : List GraphEdge)
    → g.current_size + 2 * length es ≤ g.max_size
    → Refines g known
    → Refines (run g (map add es)) (known ++ es)
unfolding run step
add_all-Refines [] g known room r = rw (append-nil known) r
add_all-Refines (e ∷ es) g known room r =
    let (r', max, size) = add_edge-Refines e g known (omega (arith, room)) r in
    rw (append_assoc known (e ∷ []) es) at
      (add_all-Refines es (add_edge e g) (known ++ e ∷ []) (omega (arith, room, max, size)) r')

pub new-IsCache : (n : ℕ) → 0 < n → IsCache (new_graph_cache n)
unfolding new_graph_cache has_key
new-IsCache n h = record {
  distinct = tt;
  counted = refl;
  bounded = omega arith;
  positive = ground (arith, h);
  outgoing = λ k has. absurd (cc);
  incoming = λ k has. absurd (cc);
}

new-Refines : (n : ℕ) → Refines (new_graph_cache n) []
unfolding new_graph_cache lookup
new-Refines n = record { outgoing = λ k. refl; incoming = λ k. refl }

new_size : (n : ℕ) → 0 < n → (new_graph_cache n).max_size ≡ n
unfolding new_graph_cache
new_size n h = ground (arith, h)

new_empty : (n : ℕ) → (new_graph_cache n).current_size ≡ 0
unfolding new_graph_cache
new_empty n = refl

get-found :
    (id : Bytes) (g : GraphCache)
    → IsCache g
    → (found (get_outgoing_edges id g).1 ≡ edges_of id g.outgoing_edges)
      × (found (get_incoming_edges id g).1 ≡ edges_of id g.incoming_edges)
unfolding get_outgoing_edges get_incoming_edges
get-found id g c = (
  elim (Bool-cases (has_key id g.outgoing_edges)) [
    | inr absent ↦ rw absent refl
    | inl there ↦
        rw (there, (touch_entity-Same id g (ground (arith, c.outgoing id there))).outgoing) refl
  ],
  elim (Bool-cases (has_key id g.incoming_edges)) [
    | inr absent ↦ rw absent refl
    | inl there ↦
        rw (there, (touch_entity-Same id g (ground (arith, c.incoming id there))).incoming) refl
  ],
)

-- The cache refines the list of the edges: of a new cache whose bound allows two entities for each
-- edge, after any edges are added, the outgoing and the incoming edges of every entity are those of
-- the list, in its order.
pub add_edges-get :
    (n : ℕ) (es : List GraphEdge) (id : Bytes)
    → 0 < n
    → 2 * length es ≤ n
    → (found (get_outgoing_edges id (run (new_graph_cache n) (map add es))).1 ≡ edges_from id es)
      × (found (get_incoming_edges id (run (new_graph_cache n) (map add es))).1 ≡ edges_to id es)
add_edges-get n es id h room =
    let g = new_graph_cache n in
    let cache = run-IsCache g (map add es) (new-IsCache n h) in
    let refines =
      add_all-Refines es g [] (omega (arith, room, new_size n h, new_empty n)) (new-Refines n) in
    let (out, inc) = get-found id (run g (map add es)) cache in
    (out ∙ refines.outgoing id, inc ∙ refines.incoming id)
