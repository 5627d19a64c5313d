-- ===== src/Repair/Merkle.antt =====
-- core/cluster/repair/entropy/merkle.go: the trees, how they are built from keys and values, and
-- how two of them are compared. SHA-256 and sort.Strings are parameters. A nil node is `none`; a
-- node's two children are either both there or both nil. JSON is encoding/json's, and is not
-- modelled.
use allidb.Base.{
  Bytes, List, Map, Option, [], if◌then◌else◌, length, lookup, ltb, map, none, some, str_eq, suc,
  zero, ℕ, ◌++◌, ◌+◌, ◌∷◌,
}

pub record KeyRange : Type 0 where
  pub start : Bytes
  pub end : Bytes

pub data MerkleNode : Type 0 where
  leaf : Bytes → KeyRange → MerkleNode
  node : Bytes → KeyRange → MerkleNode → MerkleNode → MerkleNode

abbrev pub hash_of : MerkleNode → Bytes
hash_of (leaf h r) = h
hash_of (node h r left right) = h

abbrev pub range_of : MerkleNode → KeyRange
range_of (leaf h r) = r
range_of (node h r left right) = r

pub record MerkleTree : Type 0 where
  pub partition_id : Bytes
  pub root : Option MerkleNode
  pub key_ranges : List KeyRange
  pub depth : ℕ

module _ (sha256 : Bytes → Bytes) where
  -- The key, a zero byte, and the value.
  unfoldable pub hash_data : Bytes → Bytes → Bytes
  hash_data key value = sha256 (key ++ 0 ∷ value)

  unfoldable pub hash_nodes : Bytes → Bytes → Bytes
  hash_nodes a b = sha256 (a ++ b)

  unfoldable pub join_nodes : MerkleNode → MerkleNode → MerkleNode
  unfolding hash_nodes
  join_nodes left right =
      node (hash_nodes (hash_of left) (hash_of right))
        (record { start = (range_of left).start; end = (range_of right).end }) left right

  -- One level: an odd node at the end is joined with itself.
  unfoldable pub next_level : List MerkleNode → List MerkleNode
  unfolding join_nodes
  next_level [] = []
  next_level (x ∷ []) = join_nodes x x ∷ []
  next_level (x ∷ y ∷ xs) = join_nodes x y ∷ next_level xs

  -- Level by level, until one node is left; `none` means that the fuel ran out.
  unfoldable pub build_levels : ℕ → List MerkleNode → ℕ → Option (Option MerkleNode × ℕ)
  unfolding next_level
  build_levels fuel [] depth = some (none, 0)
  build_levels fuel (x ∷ []) depth = some (some x, depth)
  build_levels zero (x ∷ y ∷ xs) depth = none
  build_levels (suc fuel) (x ∷ y ∷ xs) depth =
      build_levels fuel (next_level (x ∷ y ∷ xs)) (depth + 1)

  unfoldable pub build_tree_from_leaves : List MerkleNode → Option (Option MerkleNode × ℕ)
  unfolding build_levels
  build_tree_from_leaves leaves = build_levels (length leaves) leaves 1

  -- The range of a leaf goes from the key before it to its own.
  unfoldable pub leaves_from : Bytes → List Bytes → Map Bytes → List MerkleNode
  unfolding hash_data
  leaves_from before [] m = []
  leaves_from before (key ∷ keys) m =
      leaf (hash_data key (elim (lookup key m) [ none ↦ [] | some v ↦ v ]))
        (record { start = before; end = key })
      ∷ leaves_from key keys m

  unfoldable pub leaves_of : List Bytes → Map Bytes → List MerkleNode
  unfolding leaves_from
  leaves_of [] m = []
  leaves_of (key ∷ keys) m = leaves_from key (key ∷ keys) m

  -- The part of BuildTree behind its leaves.
  unfoldable pub tree_of : Bytes → List MerkleNode → Option MerkleTree
  tree_of partition_id leaves = elim (build_tree_from_leaves leaves) [
    | none ↦ none
    | some (root, depth) ↦ some (record {
      partition_id = partition_id;
      root = root;
      key_ranges = map range_of leaves;
      depth = depth;
    })
  ]

  unfoldable pub build_tree : (List Bytes → List Bytes) → Bytes → Map Bytes → Option MerkleTree
  unfolding tree_of leaves_of
  build_tree sort_strings partition_id m =
      tree_of partition_id (leaves_of (sort_strings (map (λ e. e.0) m)) m)

unfoldable pub get_root_hash : MerkleTree → Option Bytes
get_root_hash t = elim t.root [ none ↦ none | some n ↦ some (hash_of n) ]

-- Where only one of two nodes has children, those are compared with nil.
unfoldable pub compare_nodes : MerkleNode → MerkleNode → List KeyRange
compare_nodes (leaf g r) (leaf h s) = if str_eq g h then [] else r ∷ []
compare_nodes (leaf g r) (node h s left right) =
    if str_eq g h then [] else range_of left ∷ range_of right ∷ []
compare_nodes (node g r left right) (leaf h s) =
    if str_eq g h then [] else range_of left ∷ range_of right ∷ []
compare_nodes (node g r left right) (node h s left' right') =
    let below = compare_nodes left left' ++ compare_nodes right right' in
    if str_eq g h then [] else below

unfoldable pub find_divergent_ranges : MerkleTree → MerkleTree → List KeyRange
unfolding compare_nodes
find_divergent_ranges t u = elim t.root [
  | none ↦ elim u.root [ none ↦ [] | some n ↦ u.key_ranges ]
  | some m ↦ elim u.root [
    | none ↦ t.key_ranges
    | some n ↦ if str_eq (hash_of m) (hash_of n) then [] else compare_nodes m n
  ]
]

unfoldable pub collect_key_ranges : MerkleNode → List KeyRange
collect_key_ranges (leaf h r) = r ∷ []
collect_key_ranges (node h r left right) = collect_key_ranges left ++ collect_key_ranges right

unfoldable pub compute_depth : MerkleNode → ℕ
compute_depth (leaf h r) = 1
compute_depth (node h r left right) =
    if ltb (compute_depth right) (compute_depth left)
    then compute_depth left + 1
    else compute_depth right + 1
