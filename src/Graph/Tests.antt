-- ===== src/Graph/Tests.antt =====
-- Caches at concrete edges.
use allidb.Entity.Edge.{GraphEdge}
use allidb.Graph.{
  GraphCache, new_graph_cache, found, get_outgoing_edges, get_incoming_edges, get_neighbors,
  get_outgoing_neighbors, get_incoming_neighbors, remove_entity, clear, has_entity, get_edge_count,
}
use allidb.Graph.Invariant.{IsCache}
use allidb.Graph.Runs.{Op, add, outgoing, remove, run, run-IsCache}
use allidb.Graph.Traverse.{search, traverse, traverse_depth}
use allidb.Graph.Traverse.Reach.{Visits, collect, traverse-Reach}
use allidb.Graph.Multigraph.{edges_from, edges_to, new-IsCache, add_edges-get}
use allidb.Base.{
  Bytes, List, [], arith, codes, delete, false, has_key, insert, length, lookup, ltb, map, none,
  refl, some, str_eq, true, ℕ, ◌+◌, ◌∷◌, ◌≡◌,
}

abbrev edge : Bytes → Bytes → GraphEdge
edge from to = record {
  from_entity = from;
  to_entity = to;
  relation = codes "r";
  weight = 0;
  timestamp = 0;
}

abbrev a : Bytes
a = codes "a"

abbrev b : Bytes
b = codes "b"

abbrev c : Bytes
c = codes "c"

abbrev edges : List GraphEdge
edges = edge a b ∷ edge b c ∷ edge a c ∷ []

abbrev calls : List Op
calls = add (edge a b) ∷ add (edge a c) ∷ outgoing b ∷ remove a ∷ add (edge b c) ∷ []

run-IsCache_example : IsCache (run (new_graph_cache 2) calls)
run-IsCache_example = run-IsCache (new_graph_cache 2) calls (new-IsCache 2 (omega arith))

add_edges-get_example :
    (found (get_outgoing_edges a (run (new_graph_cache 6) (map add edges))).1 ≡ edges_from a edges)
    × (found (get_incoming_edges a (run (new_graph_cache 6) (map add edges))).1 ≡ edges_to a edges)
add_edges-get_example = add_edges-get 6 edges a (omega arith) (omega arith)

-- On a full cache, a known entity that was not used lately loses the edge that is just added.
lost :
    (get_outgoing_edges a (run (new_graph_cache 2) (add (edge a b) ∷ add (edge a c) ∷ []))).1 ≡ none
unfolding get_outgoing_edges run new_graph_cache str_eq lookup insert delete has_key
lost = refl

neighbors : (get_neighbors c (run (new_graph_cache 6) (map add edges))).1 ≡ b ∷ a ∷ []
unfolding get_neighbors run new_graph_cache str_eq lookup insert delete has_key
neighbors = refl

one_way :
    ((get_outgoing_neighbors a (run (new_graph_cache 6) (map add edges))).1 ≡ b ∷ c ∷ [])
    × ((get_incoming_neighbors c (run (new_graph_cache 6) (map add edges))).1 ≡ b ∷ a ∷ [])
unfolding get_outgoing_neighbors get_incoming_neighbors run new_graph_cache str_eq lookup insert
    delete has_key
one_way = (refl, refl)

counts :
    (get_edge_count (run (new_graph_cache 6) (map add edges)) ≡ 3)
    × (has_entity b (run (new_graph_cache 6) (map add edges)) ≡ true)
    × (get_edge_count (remove_entity a (run (new_graph_cache 6) (map add edges))) ≡ 1)
    × (has_entity b (clear (run (new_graph_cache 6) (map add edges))) ≡ false)
unfolding get_edge_count has_entity remove_entity clear run new_graph_cache str_eq lookup insert
    delete has_key
counts = (refl, refl, refl, refl)

abbrev cached : GraphCache
cached = record {
  outgoing_edges = (a, edge a c ∷ edge a b ∷ []) ∷ (c, edge c a ∷ edge c c ∷ []) ∷ [];
  incoming_edges = [];
  lru = a ∷ c ∷ [];
  max_size = 9;
  current_size = 2;
}

traverse-Reach_example :
    Visits cached a (traverse (collect cached) cached a [])
    × Visits cached a (traverse_depth (collect cached) cached a [])
traverse-Reach_example = traverse-Reach cached a

-- A visitor that stops at the second entity: it does not count.
stopped : traverse {S = ℕ} (λ n id es. (n + length es, ltb n 1)) cached a 0 ≡ some (4, 1)
unfolding traverse search str_eq lookup
stopped = refl
