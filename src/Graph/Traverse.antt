-- ===== src/Graph/Traverse.antt =====
-- core/index/graph/cache.go: Traverse and TraverseDepth. A visitor is a function on a state of the
-- caller's, which also says whether to go on. The loop runs on fuel; what is given is above the
-- number of ids that can ever be queued.
pub mod Reach
use allidb.Entity.Edge.{GraphEdge}
use allidb.Graph.{GraphCache, holds, edges_of}
use allidb.Base.{
  Bool, Bytes, List, Option, [], false, keep, length, map, none, not, some, suc, sum_of, true, zero,
  ℕ, ◌++◌, ◌∷◌,
}

-- The neighbours that are not visited yet.
unfoldable pub new_neighbors : List Bytes → List GraphEdge → List Bytes
new_neighbors visited edges = keep (λ id. not (holds id visited)) (map (λ e. e.to_entity) edges)

module _ {S : Type 0} (visitor : S → Bytes → List GraphEdge → S × Bool) (g : GraphCache) where
  -- The loop, over what joins the neighbours to the ids that wait: the state, and how many visits.
  unfoldable pub search :
      (List Bytes → List Bytes → List Bytes) → ℕ → List Bytes → List Bytes → S → ℕ → Option (S × ℕ)
  unfolding new_neighbors
  search join fuel [] visited s n = some (s, n)
  search join zero (id ∷ rest) visited s n = none
  search join (suc fuel) (id ∷ rest) visited s n = elim (holds id visited) [
    | true ↦ search join fuel rest visited s n
    | false ↦
        let edges = edges_of id g.outgoing_edges in
        let (s', more) = visitor s id edges in
        elim more [
          | false ↦ some (s', n)
          | true ↦
              search join fuel (join rest (new_neighbors (id ∷ visited) edges)) (id ∷ visited) s'
                (suc n)
        ]
  ]

  -- A queue: the neighbours wait behind the others.
  abbrev pub behind : List Bytes → List Bytes → List Bytes
  behind rest new = rest ++ new

  -- A stack, its top first: they are pushed in reverse order, so that the first is on top.
  abbrev pub on_top : List Bytes → List Bytes → List Bytes
  on_top rest new = new ++ rest

  abbrev pub enough : ℕ
  enough = suc (sum_of (λ e. length e.1) g.outgoing_edges)

  unfoldable pub traverse : Bytes → S → Option (S × ℕ)
  unfolding search
  traverse start s = search behind enough (start ∷ []) [] s 0

  unfoldable pub traverse_depth : Bytes → S → Option (S × ℕ)
  unfolding search
  traverse_depth start s = search on_top enough (start ∷ []) [] s 0
