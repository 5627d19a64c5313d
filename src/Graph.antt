-- ===== src/Graph.antt =====
-- core/index/graph/cache.go: the adjacency lists of entities, with least-recently-used eviction.
-- lruMap holds exactly the ids of lruList, front first, and is read off the list.
pub mod Invariant
pub mod Runs
pub mod Multigraph
pub mod Traverse
mod Tests
use allidb.Entity.Edge.{GraphEdge}
use allidb.Base.{
  Bool, Bytes, List, Map, Option, [], any, delete, has_key, if◌then◌else◌, insert, keep, leb,
  length, lookup, map, none, not, some, str_eq, sum_of, ℕ, ◌++◌, ◌+◌, ◌-◌, ◌==◌, ◌||◌, ◌∷◌,
}

pub record GraphCache : Type 0 where
  pub outgoing_edges : Map (List GraphEdge)
  pub incoming_edges : Map (List GraphEdge)
  pub lru : List Bytes
  pub max_size : ℕ
  pub current_size : ℕ

-- A negative size is given as 0 too.
unfoldable pub new_graph_cache : ℕ → GraphCache
new_graph_cache max_size = record {
  outgoing_edges = [];
  incoming_edges = [];
  lru = [];
  max_size = (if max_size == 0 then 10000 else max_size);
  current_size = 0;
}

-- The last of a list that is not empty, and what stands before it.
abbrev pub last : Bytes → List Bytes → Bytes
last x [] = x
last x (y ∷ ys) = last y ys

abbrev pub but_last : Bytes → List Bytes → List Bytes
but_last x [] = []
but_last x (y ∷ ys) = x ∷ but_last y ys

unfoldable pub evict_lru : GraphCache → GraphCache
evict_lru g = elim g.lru [
  | [] ↦ g
  | x ∷ xs ↦ record g {
    outgoing_edges = delete (last x xs) g.outgoing_edges;
    incoming_edges = delete (last x xs) g.incoming_edges;
    lru = but_last x xs;
    current_size = g.current_size - 1;
  }
]

abbrev pub holds : Bytes → List Bytes → Bool
holds id ids = any (str_eq id) ids

-- Room for one more entity.
unfoldable pub make_room : GraphCache → GraphCache
unfolding evict_lru
make_room g = if leb g.max_size g.current_size then evict_lru g else g

unfoldable pub push_front : Bytes → GraphCache → GraphCache
push_front id g = record g { lru = id ∷ g.lru; current_size = g.current_size + 1 }

unfoldable pub touch_entity : Bytes → GraphCache → GraphCache
unfolding make_room push_front
touch_entity id g =
    if holds id g.lru
    then record g { lru = id ∷ keep (λ x. not (str_eq id x)) g.lru }
    else push_front id (make_room g)

-- nil is no edges.
abbrev pub found : Option (List GraphEdge) → List GraphEdge
found none = []
found (some es) = es

-- m[k], with no edges for a missing key
abbrev pub edges_of : Bytes → Map (List GraphEdge) → List GraphEdge
edges_of k m = found (lookup k m)

unfoldable pub add_outgoing : GraphEdge → GraphCache → GraphCache
unfolding touch_entity
add_outgoing edge g =
    let id = edge.from_entity in
    let g' =
      if has_key id g.outgoing_edges
      then g
      else touch_entity id (record g { outgoing_edges = insert id [] g.outgoing_edges }) in
    record g' {
      outgoing_edges = insert id (edges_of id g'.outgoing_edges ++ edge ∷ []) g'.outgoing_edges;
    }

unfoldable pub add_incoming : GraphEdge → GraphCache → GraphCache
unfolding touch_entity
add_incoming edge g =
    let id = edge.to_entity in
    let g' =
      if has_key id g.incoming_edges
      then g
      else touch_entity id (record g { incoming_edges = insert id [] g.incoming_edges }) in
    record g' {
      incoming_edges = insert id (edges_of id g'.incoming_edges ++ edge ∷ []) g'.incoming_edges;
    }

unfoldable pub add_edge : GraphEdge → GraphCache → GraphCache
unfolding add_outgoing add_incoming
add_edge edge g = add_incoming edge (add_outgoing edge g)

-- The reads mark the entity as used; they return nil for an unknown one.
unfoldable pub get_outgoing_edges : Bytes → GraphCache → GraphCache × Option (List GraphEdge)
unfolding touch_entity
get_outgoing_edges id g =
    let g' = if has_key id g.outgoing_edges then touch_entity id g else g in
    (g', lookup id g'.outgoing_edges)

unfoldable pub get_incoming_edges : Bytes → GraphCache → GraphCache × Option (List GraphEdge)
unfolding touch_entity
get_incoming_edges id g =
    let g' = if has_key id g.incoming_edges then touch_entity id g else g in
    (g', lookup id g'.incoming_edges)

-- Each neighbour once, in the order of the edges; the map gives them in any order.
unfoldable pub add_new : List Bytes → List Bytes → List Bytes
add_new [] seen = seen
add_new (id ∷ ids) seen = add_new ids (if holds id seen then seen else seen ++ id ∷ [])

unfoldable pub get_neighbors : Bytes → GraphCache → GraphCache × List Bytes
unfolding touch_entity add_new
get_neighbors id g =
    let out = map (λ (e : GraphEdge). e.to_entity) (edges_of id g.outgoing_edges) in
    let inc = map (λ (e : GraphEdge). e.from_entity) (edges_of id g.incoming_edges) in
    (
      if has_key id g.outgoing_edges || has_key id g.incoming_edges then touch_entity id g else g,
      add_new inc (add_new out []),
    )

unfoldable pub get_outgoing_neighbors : Bytes → GraphCache → GraphCache × List Bytes
unfolding get_outgoing_edges
get_outgoing_neighbors id g =
    let (g', edges) = get_outgoing_edges id g in
    (g', map (λ (e : GraphEdge). e.to_entity) (found edges))

unfoldable pub get_incoming_neighbors : Bytes → GraphCache → GraphCache × List Bytes
unfolding get_incoming_edges
get_incoming_neighbors id g =
    let (g', edges) = get_incoming_edges id g in
    (g', map (λ (e : GraphEdge). e.from_entity) (found edges))

-- The edges from (or to) the entity leave the lists of the entities at their other end.
unfoldable pub drop_reverse :
    (GraphEdge → Bytes)
    → (GraphEdge → Bool)
    → List GraphEdge
    → Map (List GraphEdge)
    → Map (List GraphEdge)
drop_reverse other stays [] m = m
drop_reverse other stays (e ∷ es) m =
    drop_reverse other stays es
      (elim (lookup (other e) m) [ none ↦ m | some l ↦ insert (other e) (keep stays l) m ])

unfoldable pub remove_outgoing : Bytes → GraphCache → GraphCache
unfolding drop_reverse
remove_outgoing id g = elim (lookup id g.outgoing_edges) [
  | none ↦ g
  | some edges ↦ record g {
    incoming_edges =
        drop_reverse (λ e. e.to_entity) (λ e. not (str_eq e.from_entity id)) edges g.incoming_edges;
    outgoing_edges = delete id g.outgoing_edges;
  }
]

unfoldable pub remove_incoming : Bytes → GraphCache → GraphCache
unfolding drop_reverse
remove_incoming id g = elim (lookup id g.incoming_edges) [
  | none ↦ g
  | some edges ↦ record g {
    outgoing_edges =
        drop_reverse (λ e. e.from_entity) (λ e. not (str_eq e.to_entity id)) edges g.outgoing_edges;
    incoming_edges = delete id g.incoming_edges;
  }
]

unfoldable pub remove_lru : Bytes → GraphCache → GraphCache
remove_lru id g =
    if holds id g.lru
    then record g { lru = keep (λ x. not (str_eq id x)) g.lru; current_size = g.current_size - 1 }
    else g

unfoldable pub remove_entity : Bytes → GraphCache → GraphCache
unfolding remove_outgoing remove_incoming remove_lru
remove_entity id g = remove_lru id (remove_incoming id (remove_outgoing id g))

unfoldable pub clear : GraphCache → GraphCache
clear g = record g { outgoing_edges = []; incoming_edges = []; lru = []; current_size = 0 }

unfoldable pub has_entity : Bytes → GraphCache → Bool
has_entity id g = has_key id g.outgoing_edges

unfoldable pub get_edge_count : GraphCache → ℕ
get_edge_count g = sum_of (λ e. length e.1) g.outgoing_edges
