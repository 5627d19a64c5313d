-- ===== src/Ring/Invariant.antt =====
-- The invariant of the ring: the virtual nodes are in order, and are exactly those of the nodes.
use allidb.Ring.{
  VirtualNode, Ring, new, virtual_nodes_from, hash_string, all_virtual_nodes, add_node, rebalance,
  remove_node,
}
use allidb.Ring.Order.{IsSorted, IsSort, SortedFrom-keep}
use allidb.Base.{
  Bool, Bool-cases, Bytes, DistinctKeys, DistinctKeys-delete, DistinctKeys-insert, List, Map, [],
  ap, arith, count, count-append, delete, false, has_key, has_key-delete, has_key-insert,
  if◌then◌else◌, inl, inr, insert, keep, length, length-append, not, ok, refl, str_eq, str_eq_iff,
  suc, sym, true, zero, ℕ, ℤ, ◌*◌, ◌++◌, ◌+◌, ◌∙◌, ◌∷◌, ◌≡◌,
}

abbrev pub of_node : Bytes → VirtualNode → Bool
of_node id v = str_eq v.node_id id

pub record IsRing (r : Ring) : Type 0 where
  pub sorted : IsSorted r.virtual_nodes
  pub keys : DistinctKeys r.nodes
  -- every node has its number of virtual nodes, and no other name has any
  pub placed :
      (id : Bytes)
      → count (of_node id) r.virtual_nodes
        ≡ (if has_key id r.nodes then r.virtual_nodes_per_node else 0)
  pub total : length r.virtual_nodes ≡ length r.nodes * r.virtual_nodes_per_node

count_all {ℓ} : {A : Type ℓ} (xs : List A) → count (λ x. true) xs ≡ length xs
count_all [] = refl
count_all (x ∷ xs) = ap suc (count_all xs)

pub length-sort :
    (sort_slice : List VirtualNode → List VirtualNode)
    → IsSort sort_slice
    → (vs : List VirtualNode) → length (sort_slice vs) ≡ length vs
length-sort sort_slice sorts vs =
    sym (count_all (sort_slice vs)) ∙ sorts.same (λ v. true) vs ∙ count_all vs

count-virtual_nodes_from :
    (hash_string : Bytes → ℕ) (n i : ℕ) (id j : Bytes)
    → count (of_node j) (virtual_nodes_from hash_string n i id) ≡ (if str_eq id j then n else 0)
unfolding virtual_nodes_from
count-virtual_nodes_from hash_string zero i id j = ground arith
count-virtual_nodes_from hash_string (suc n) i id j =
    ground (arith, count-virtual_nodes_from hash_string n (i + 1) id j)

length-virtual_nodes_from :
    (hash_string : Bytes → ℕ) (n i : ℕ) (id : Bytes)
    → length (virtual_nodes_from hash_string n i id) ≡ n
unfolding virtual_nodes_from
length-virtual_nodes_from hash_string zero i id = refl
length-virtual_nodes_from hash_string (suc n) i id =
    ap suc (length-virtual_nodes_from hash_string n (i + 1) id)

module _ {ℓ} {V : Type ℓ} where
  length-insert_new :
      (k : Bytes) (v : V) (m : Map V) → has_key k m ≡ false → length (insert k v m) ≡ length m + 1
  unfolding insert has_key
  length-insert_new k v [] h = omega arith
  length-insert_new k v ((j, w) ∷ m) h = ground (arith, length-insert_new k v m)

  delete_absent : (k : Bytes) (m : Map V) → has_key k m ≡ false → delete k m ≡ m
  unfolding delete has_key
  delete_absent k [] h = refl
  delete_absent k ((j, w) ∷ m) h = ground (arith, delete_absent k m)

  length-delete :
      (k : Bytes) (m : Map V)
      → DistinctKeys m
      → has_key k m ≡ true
      → length (delete k m) + 1 ≡ length m
  unfolding delete has_key
  length-delete k [] d h = cc
  length-delete k ((j, w) ∷ m) d h =
      ground (arith, length-delete k m, delete_absent k m, str_eq_iff j k)

count-keep-not :
    (id j : Bytes) (vs : List VirtualNode)
    → count (of_node j) (keep (λ v. not (str_eq v.node_id id)) vs)
      ≡ (if str_eq id j then 0 else count (of_node j) vs)
count-keep-not id j [] = ground arith
count-keep-not id j (v ∷ vs) = ground (
  arith,
  count-keep-not id j vs,
  str_eq_iff v.node_id id,
  str_eq_iff v.node_id j,
  str_eq_iff id j,
)

length-keep-not :
    (id : Bytes) (vs : List VirtualNode)
    → length (keep (λ v. not (str_eq v.node_id id)) vs) + count (of_node id) vs ≡ length vs
length-keep-not id [] = refl
length-keep-not id (v ∷ vs) = ground (arith, length-keep-not id vs)

times_suc : (n k p : ℕ) → k ≡ n + 1 → k * p ≡ n * p + p
times_suc n k p e = rw e (omega arith)

-- A new ring is well formed, whatever the configuration.
pub new-IsRing : (per factor : ℤ) → IsRing (new per factor)
unfolding new has_key
new-IsRing per factor = record { sorted = tt; keys = tt; placed = λ id. refl; total = omega arith }

-- A RemoveNode that succeeds keeps the ring well formed.
pub remove_node-IsRing : (r s : Ring) (id : Bytes) → IsRing r → remove_node r id ≡ ok s → IsRing s
unfolding remove_node
remove_node-IsRing r s id w e = elim (Bool-cases (has_key id r.nodes)) [
  | inr absent ↦ ground arith
  | inl present ↦
      let e' : s ≡ record r {
        virtual_nodes = keep (λ v. not (str_eq v.node_id id)) r.virtual_nodes;
        nodes = delete id r.nodes;
      } =
        ground arith in
      rw e' (record {
        sorted = SortedFrom-keep _ 0 r.virtual_nodes w.sorted;
        keys = DistinctKeys-delete id r.nodes w.keys;
        placed = λ j.
            ground
              (arith, count-keep-not id j r.virtual_nodes, has_key-delete id j r.nodes, w.placed j);
        total = ground (
          arith,
          length-keep-not id r.virtual_nodes,
          w.placed id,
          w.total,
          times_suc (length (delete id r.nodes)) (length r.nodes) r.virtual_nodes_per_node
              (sym (length-delete id r.nodes w.keys present)),
        );
      })
]

module _ (sha1 : Bytes → Bytes) (sort_slice : List VirtualNode → List VirtualNode)
    (sorts : IsSort sort_slice) where
  -- An AddNode that succeeds keeps the ring well formed, where the sort is one.
  pub add_node-IsRing :
      (r s : Ring) (id : Bytes) → IsRing r → add_node sha1 sort_slice r id ≡ ok s → IsRing s
  unfolding add_node
  add_node-IsRing r s id w e = elim (Bool-cases (has_key id r.nodes)) [
    | inl present ↦ ground arith
    | inr absent ↦
        let per = r.virtual_nodes_per_node in
        let fresh = virtual_nodes_from (hash_string sha1) per 0 id in
        let e' : s ≡ record r {
          virtual_nodes = sort_slice (r.virtual_nodes ++ fresh);
          nodes = insert id per r.nodes;
        } =
          ground arith in
        rw e' (record {
          sorted = sorts.sorted (r.virtual_nodes ++ fresh);
          keys = DistinctKeys-insert id per r.nodes w.keys;
          placed = λ j.
              sorts.same (of_node j) (r.virtual_nodes ++ fresh)
              ∙ count-append (of_node j) r.virtual_nodes fresh
              ∙ ground (
                arith,
                count-virtual_nodes_from (hash_string sha1) per 0 id j,
                has_key-insert id j per r.nodes,
                str_eq_iff id j,
                w.placed j,
              );
          total = ground (
            arith,
            length-sort sort_slice sorts (r.virtual_nodes ++ fresh),
            length-append r.virtual_nodes fresh,
            length-virtual_nodes_from (hash_string sha1) per 0 id,
            w.total,
            times_suc (length r.nodes) (length (insert id per r.nodes)) per
                (length-insert_new id per r.nodes absent),
          );
        })
  ]

  count-all_virtual_nodes :
      (per : ℕ) (nodes : Map ℕ) (id : Bytes)
      → DistinctKeys nodes
      → count (of_node id) (all_virtual_nodes sha1 per nodes)
        ≡ (if has_key id nodes then per else 0)
  unfolding all_virtual_nodes has_key
  count-all_virtual_nodes per [] id d = refl
  count-all_virtual_nodes per ((j, n) ∷ nodes) id d =
      count-append (of_node id) (virtual_nodes_from (hash_string sha1) per 0 j) _
      ∙ ground (
        arith,
        count-virtual_nodes_from (hash_string sha1) per 0 j id,
        count-all_virtual_nodes per nodes id d.1,
        str_eq_iff j id,
      )

  length-all_virtual_nodes :
      (per : ℕ) (nodes : Map ℕ) → length (all_virtual_nodes sha1 per nodes) ≡ length nodes * per
  unfolding all_virtual_nodes
  length-all_virtual_nodes per [] = omega arith
  length-all_virtual_nodes per ((j, n) ∷ nodes) = omega (
    arith,
    length-append (virtual_nodes_from (hash_string sha1) per 0 j)
        (all_virtual_nodes sha1 per nodes),
    length-virtual_nodes_from (hash_string sha1) per 0 j,
    length-all_virtual_nodes per nodes,
    times_suc (length nodes) (suc (length nodes)) per (omega arith),
  )

  -- Rebalance rebuilds a well-formed ring from the set of nodes alone, whatever the virtual nodes
  -- were before.
  pub rebalance-IsRing : (r : Ring) → DistinctKeys r.nodes → IsRing (rebalance sha1 sort_slice r)
  unfolding rebalance
  rebalance-IsRing r d =
      let all = all_virtual_nodes sha1 r.virtual_nodes_per_node r.nodes in
      record {
        sorted = sorts.sorted all;
        keys = d;
        placed = λ id.
            sorts.same (of_node id) all
            ∙ count-all_virtual_nodes r.virtual_nodes_per_node r.nodes id d;
        total =
            length-sort sort_slice sorts all
            ∙ length-all_virtual_nodes r.virtual_nodes_per_node r.nodes;
      }
