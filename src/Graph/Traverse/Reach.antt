-- ===== src/Graph/Traverse/Reach.antt =====
-- A traversal visits each entity that can be reached, once, and no other.
use mathlib.Core.Path.{subst}
use allidb.Entity.Edge.{GraphEdge}
use allidb.Graph.{GraphCache, holds, edges_of}
use allidb.Graph.Traverse.{new_neighbors, search, traverse, traverse_depth, behind, on_top, enough}
use allidb.Base.{
  Bool, Bool-cases, Bytes, List, Map, Option, [], arith, false, if◌then◌else◌, inl, inr, length,
  length-append, lookup, map, not, refl, some, str_eq, str_eq_iff, str_eq_refl, suc, sum_of, true,
  zero, ℕ, ◌&&◌, ◌++◌, ◌+◌, ◌||◌, ◌↔◌, ◌∷◌, ◌≡◌, ◌≤◌,
}

module _ (g : GraphCache) where
  abbrev pub edge : Bytes → Bytes → Bool
  edge u v = holds v (map (λ e. e.to_entity) (edges_of u g.outgoing_edges))

  -- What the outgoing edges lead to, from an entity.
  pub data Reach (start : Bytes) : Bytes → Type 0 where
    here : Reach start start
    step : (u v : Bytes) → Reach start u → edge u v ≡ true → Reach start v

  -- Each id is followed by others alone.
  abbrev pub IsOnce : List Bytes → Type 0
  IsOnce [] = Unit {0}
  IsOnce (id ∷ ids) = (holds id ids ≡ false) × IsOnce ids

  record Inv (start : Bytes) (pending visited : List Bytes) : Type 0 where
    once : IsOnce visited
    begun : (holds start visited || holds start pending) ≡ true
    sound : (v : Bytes) → (holds v visited || holds v pending) ≡ true → Reach start v
    closed :
        (u v : Bytes)
        → holds u visited ≡ true
        → edge u v ≡ true
        → (holds v visited || holds v pending) ≡ true

  -- The visitor that notes each id, the last first.
  abbrev pub collect : List Bytes → Bytes → List GraphEdge → List Bytes × Bool
  collect ids id edges = (id ∷ ids, true)

  -- The edges of what is not visited, and the ids that wait.
  abbrev unvisited : List Bytes → Map (List GraphEdge) → ℕ
  unvisited visited m = sum_of (λ e. if holds e.0 visited then 0 else length e.1) m

  holds-new_neighbors :
      (v : Bytes) (visited : List Bytes) (edges : List GraphEdge)
      → holds v (new_neighbors visited edges)
        ≡ (holds v (map (λ e. e.to_entity) edges) && not (holds v visited))
  unfolding new_neighbors
  holds-new_neighbors v visited [] = refl
  holds-new_neighbors v visited (e ∷ edges) =
      ground (arith, holds-new_neighbors v visited edges, str_eq_iff v e.to_entity)

  length-new_neighbors :
      (visited : List Bytes) (edges : List GraphEdge)
      → length (new_neighbors visited edges) ≤ length edges
  unfolding new_neighbors
  length-new_neighbors visited [] = omega arith
  length-new_neighbors visited (e ∷ edges) = ground (arith, length-new_neighbors visited edges)

  unvisited-le :
      (id : Bytes) (visited : List Bytes) (m : Map (List GraphEdge))
      → unvisited (id ∷ visited) m ≤ unvisited visited m
  unvisited-le id visited [] = omega arith
  unvisited-le id visited ((j, es) ∷ m) = ground (arith, unvisited-le id visited m)

  unvisited-cons :
      (id : Bytes) (visited : List Bytes) (m : Map (List GraphEdge))
      → holds id visited ≡ false
      → unvisited (id ∷ visited) m + length (edges_of id m) ≤ unvisited visited m
  unfolding lookup
  unvisited-cons id visited [] h = omega arith
  unvisited-cons id visited ((j, es) ∷ m) h = elim (Bool-cases (str_eq j id)) [
    | inl e ↦ ground (arith, e, h, str_eq_iff j id, unvisited-le id visited m)
    | inr e ↦ ground (arith, e, h, str_eq_iff id j, str_eq_iff j id, unvisited-cons id visited m)
  ]

  -- How the neighbours join the ids that wait: each id of both, and no other.
  abbrev Joins : (List Bytes → List Bytes → List Bytes) → Type 0
  Joins join =
      (rest new : List Bytes)
      → ((v : Bytes) → holds v (join rest new) ≡ (holds v rest || holds v new))
        × (length (join rest new) ≡ length rest + length new)

  holds-append : (v : Bytes) (xs ys : List Bytes) → holds v (xs ++ ys) ≡ (holds v xs || holds v ys)
  holds-append v [] ys = refl
  holds-append v (x ∷ xs) ys = ground (arith, holds-append v xs ys)

  behind-Joins : Joins (behind collect g)
  behind-Joins rest new = (λ v. holds-append v rest new, length-append rest new)

  on_top-Joins : Joins (on_top collect g)
  on_top-Joins rest new =
      (λ v. ground (arith, holds-append v new rest), omega (arith, length-append new rest))

  module _ (start : Bytes) where
    skip-Inv :
        (id : Bytes) (rest visited : List Bytes)
        → holds id visited ≡ true
        → Inv start (id ∷ rest) visited
        → Inv start rest visited
    skip-Inv id rest visited h i = record {
      once = i.once;
      begun = ground (arith, i.begun, h, str_eq_iff start id);
      sound = λ v m. i.sound v (ground (arith, m));
      closed = λ u v m e. ground (arith, i.closed u v m e, h, str_eq_iff v id);
    }

    visit-Inv :
        (join : List Bytes → List Bytes → List Bytes) (id : Bytes) (rest visited : List Bytes)
        → Joins join
        → holds id visited ≡ false
        → Inv start (id ∷ rest) visited
        → Inv start
            (join rest (new_neighbors (id ∷ visited) (edges_of id g.outgoing_edges)))
            (id ∷ visited)
    visit-Inv join id rest visited j h i =
        let edges = edges_of id g.outgoing_edges in
        let new = new_neighbors (id ∷ visited) edges in
        let joined = λ (v : Bytes). (j rest new).0 v in
        let news = λ (v : Bytes). holds-new_neighbors v (id ∷ visited) edges in
        record {
          once = (h, i.once);
          begun = ground (arith, i.begun, joined start, news start);
          sound = λ v m. elim (Bool-cases (holds v visited || holds v (id ∷ rest))) [
            | inl seen ↦ i.sound v seen
            | inr new_one ↦
                step id v (i.sound id (ground (arith, str_eq_refl id)))
                  (ground (arith, m, new_one, joined v, news v))
          ];
          closed = λ u v m e. elim (Bool-cases (str_eq u id)) [
            | inl same ↦
                let e' : edge id v ≡ true =
                  subst (λ w. edge w v ≡ true) ((str_eq_iff u id).0 same) e in
                ground (arith, e', joined v, news v)
            | inr other ↦ ground (
              arith,
              m,
              other,
              i.closed u v (ground (arith, m, other)) e,
              joined v,
              news v,
              str_eq_iff v id,
            )
          ];
        }

    search-Inv :
        (join : List Bytes → List Bytes → List Bytes) (fuel : ℕ) (pending visited : List Bytes)
        → Joins join
        → length pending + unvisited visited g.outgoing_edges ≤ fuel
        → Inv start pending visited
        → (ids : List Bytes) × (search collect g join fuel pending visited visited (length visited)
            ≡ some (ids, length ids))
          × Inv start [] ids
    unfolding search
    search-Inv join fuel [] visited j l i = (visited, refl, i)
    search-Inv join zero (id ∷ rest) visited j l i = ground (arith, l)
    search-Inv join (suc fuel) (id ∷ rest) visited j l i = elim (Bool-cases (holds id visited)) [
      | inl h ↦
          rw (search, h)
            (search-Inv join fuel rest visited j (omega (arith, l)) (skip-Inv id rest visited h i))
      | inr h ↦
          let edges = edges_of id g.outgoing_edges in
          let new = new_neighbors (id ∷ visited) edges in
          rw (search, h)
            (search-Inv join fuel (join rest new) (id ∷ visited) j
              (omega (
                arith,
                l,
                (j rest new).1,
                length-new_neighbors (id ∷ visited) edges,
                unvisited-cons id visited g.outgoing_edges h,
              ))
              (visit-Inv join id rest visited j h i))
    ]

    reached :
        (ids : List Bytes) → Inv start [] ids → (v : Bytes) → Reach start v → holds v ids ≡ true
    reached ids i v here = ground (arith, i.begun)
    reached ids i v (step u w r e) = ground (arith, i.closed u w (reached ids i u r) e)

    start-Inv : Inv start (start ∷ []) []
    start-Inv = record {
      once = tt;
      begun = ground (arith, str_eq_refl start);
      sound = λ v m.
          subst (Reach start)
            ((str_eq_iff start v).0 (ground (arith, m, str_eq_iff start v, str_eq_iff v start)))
            here;
      closed = λ u v m e. ground (arith, m);
    }

  abbrev pub Visits : Bytes → Option (List Bytes × ℕ) → Type 0
  Visits start result =
      (ids : List Bytes) × (result ≡ some (ids, length ids))
      × IsOnce ids
      × ((v : Bytes) → (holds v ids ≡ true) ↔ Reach start v)

  Visits-search :
      (join : List Bytes → List Bytes → List Bytes) (start : Bytes)
      → Joins join
      → Visits start (search collect g join (enough collect g) (start ∷ []) [] [] 0)
  Visits-search join start j =
      let (ids, e, i) =
        search-Inv start join (enough collect g) (start ∷ []) [] j (omega arith)
          (start-Inv start) in
      (ids, e, i.once, λ v. (λ h. i.sound v (ground (arith, h)), reached start ids i v))

  -- A breadth-first and a depth-first traversal, of any cache from any entity, with a visitor that
  -- notes each entity and never stops: both end within their fuel, and have visited, each once,
  -- exactly the entities that the cached edges lead to from the first, whose number they return.
  pub traverse-Reach :
      (start : Bytes)
      → Visits start (traverse collect g start [])
        × Visits start (traverse_depth collect g start [])
  unfolding traverse traverse_depth
  traverse-Reach start = (
    Visits-search (behind collect g) start behind-Joins,
    Visits-search (on_top collect g) start on_top-Joins,
  )
