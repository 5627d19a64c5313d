-- ===== src/Repair/MerkleLaws.antt =====
-- The trees are built in the end, and their comparison finds the leaves that differ.
use allidb.Repair.Merkle.{
  KeyRange, MerkleNode, leaf, node, hash_of, range_of, join_nodes, next_level, build_levels,
  build_tree_from_leaves, compare_nodes, MerkleTree, leaves_from, leaves_of, tree_of, build_tree,
  find_divergent_ranges,
}
use allidb.Repair.MerkleDiffs.{
  tree_diffs, SameShape, NoCollision, compare_nodes-eq-diffs, SameShapes, pair_diffs, SameRanges,
  All_split, length_next,
}
use allidb.Base.{
  All, All-append, Bytes, List, Map, Option, [], ap, arith, if◌then◌else◌, length, map, none, refl,
  some, str_eq, suc, zero, ℕ, ◌++◌, ◌+◌, ◌↔◌, ◌∙◌, ◌∷◌, ◌≡◌, ◌≤◌,
}

module _ (sha256 : Bytes → Bytes) where
  build_levels-some :
      (fuel : ℕ) (x : MerkleNode) (xs : List MerkleNode) (depth : ℕ)
      → length xs ≤ fuel
      → (root : MerkleNode) × (d : ℕ) × (build_levels sha256 fuel (x ∷ xs) depth
          ≡ some (some root, d))
  unfolding build_levels
  build_levels-some fuel x [] depth h = (x, depth, refl)
  build_levels-some zero x (y ∷ xs) depth h = absurd (omega arith)
  build_levels-some (suc fuel) x (y ∷ xs) depth h =
      build_levels-some fuel (join_nodes sha256 x y) (next_level sha256 xs) (depth + 1)
        (omega (arith, length_next sha256 xs))

  next-SameShapes :
      (xs ys : List MerkleNode)
      → SameShapes xs ys
      → SameShapes (next_level sha256 xs) (next_level sha256 ys)
  unfolding next_level
  next-SameShapes [] [] s = tt
  next-SameShapes [] (y ∷ ys) s = absurd s
  next-SameShapes (x ∷ xs) [] s = absurd s
  next-SameShapes (x ∷ []) (y ∷ []) s = ((s.0, s.0), tt)
  next-SameShapes (x ∷ []) (y ∷ y' ∷ ys) s = absurd s.1
  next-SameShapes (x ∷ x' ∷ xs) (y ∷ []) s = absurd s.1
  next-SameShapes (x ∷ x' ∷ xs) (y ∷ y' ∷ ys) s = ((s.0, s.1.0), next-SameShapes xs ys s.1.1)

  next-SameRanges :
      (xs ys : List MerkleNode)
      → SameShapes xs ys
      → SameRanges (pair_diffs xs ys) (pair_diffs (next_level sha256 xs) (next_level sha256 ys))
  unfolding next_level tree_diffs
  next-SameRanges [] ys s P = (λ all. all, λ all. all)
  next-SameRanges (x ∷ xs) [] s P = absurd s
  next-SameRanges (x ∷ []) (y ∷ []) s P =
      let d = tree_diffs x y in
      (
        λ all.
            let here = (All_split P d [] all).0 in
            All-append P (d ++ d) [] (All-append P d d here here) tt,
        λ all.
            let both = (All_split P (d ++ d) [] all).0 in
            All-append P d [] (All_split P d d both).0 tt,
      )
  next-SameRanges (x ∷ []) (y ∷ y' ∷ ys) s P = absurd s.1
  next-SameRanges (x ∷ x' ∷ xs) (y ∷ []) s P = absurd s.1
  next-SameRanges (x ∷ x' ∷ xs) (y ∷ y' ∷ ys) s P =
      let d = tree_diffs x y in
      let e = tree_diffs x' y' in
      let (to, from) = next-SameRanges xs ys s.1.1 P in
      (
        λ all.
            let (first, rest) = All_split P d (e ++ pair_diffs xs ys) all in
            let (second, later) = All_split P e (pair_diffs xs ys) rest in
            All-append P (d ++ e) _ (All-append P d e first second) (to later),
        λ all.
            let (both, later) = All_split P (d ++ e) _ all in
            let (first, second) = All_split P d e both in
            All-append P d (e ++ pair_diffs xs ys) first
              (All-append P e (pair_diffs xs ys) second (from later)),
      )

  levels-SameRanges :
      (fuel : ℕ) (xs ys : List MerkleNode) (c d : ℕ) {m n : MerkleNode} {c' d' : ℕ}
      → SameShapes xs ys
      → build_levels sha256 fuel xs c ≡ some (some m, c')
      → build_levels sha256 fuel ys d ≡ some (some n, d')
      → SameShape m n × SameRanges (pair_diffs xs ys) (tree_diffs m n)
  unfolding build_levels
  levels-SameRanges fuel [] ys c d s e f = absurd (cc)
  levels-SameRanges fuel (x ∷ xs) [] c d s e f = absurd s
  levels-SameRanges fuel (x ∷ []) (y ∷ []) c d {m} {n} s e f =
      let em : x ≡ m = cc in
      let en : y ≡ n = cc in
      rw (← em, ← en)
        (
          s.0,
          λ P. (
            λ all. (All_split P (tree_diffs x y) [] all).0,
            λ all. All-append P (tree_diffs x y) [] all tt,
          ),
        )
  levels-SameRanges fuel (x ∷ []) (y ∷ y' ∷ ys) c d s e f = absurd s.1
  levels-SameRanges fuel (x ∷ x' ∷ xs) (y ∷ []) c d s e f = absurd s.1
  levels-SameRanges zero (x ∷ x' ∷ xs) (y ∷ y' ∷ ys) c d s e f = absurd (cc)
  levels-SameRanges (suc fuel) (x ∷ x' ∷ xs) (y ∷ y' ∷ ys) c d s e f =
      let all_x : List MerkleNode = x ∷ x' ∷ xs in
      let all_y : List MerkleNode = y ∷ y' ∷ ys in
      let (shape, below) =
        levels-SameRanges fuel (next_level sha256 all_x) (next_level sha256 all_y) (c + 1) (d + 1)
          (next-SameShapes all_x all_y s) e f in
      let here = next-SameRanges all_x all_y s in
      (shape, λ P. (λ all. (below P).0 ((here P).0 all), λ all. (here P).1 ((below P).1 all)))

  leaves_from-SameShapes :
      (before : Bytes) (keys : List Bytes) (v w : Map Bytes)
      → SameShapes (leaves_from sha256 before keys v) (leaves_from sha256 before keys w)
  unfolding leaves_from
  leaves_from-SameShapes before [] v w = tt
  leaves_from-SameShapes before (key ∷ keys) v w = (tt, leaves_from-SameShapes key keys v w)

  length-leaves_from :
      (before : Bytes) (keys : List Bytes) (v w : Map Bytes)
      → length (leaves_from sha256 before keys v) ≡ length (leaves_from sha256 before keys w)
  unfolding leaves_from
  length-leaves_from before [] v w = refl
  length-leaves_from before (key ∷ keys) v w = ap suc (length-leaves_from key keys v w)

  tree_of-some :
      (id : Bytes) (leaves : List MerkleNode) (root : Option MerkleNode) (d : ℕ)
      → build_tree_from_leaves sha256 leaves ≡ some (root, d)
      → tree_of sha256 id leaves
        ≡ some
            (record { partition_id = id; root = root; key_ranges = map range_of leaves; depth = d })
  unfolding tree_of
  tree_of-some id leaves root d e = rw (e, tree_of) refl

  -- The tree of keys that are sorted, with the run of the levels that built it.
  build_tree-root :
      (sort_strings : List Bytes → List Bytes) (id : Bytes) (m : Map Bytes) (key : Bytes)
      (keys : List Bytes)
      → sort_strings (map (λ e. e.0) m) ≡ key ∷ keys
      → (root : MerkleNode) × (d : ℕ) × (build_tree_from_leaves sha256
            (leaves_of sha256 (key ∷ keys) m)
          ≡ some (some root, d))
        × (build_tree sha256 sort_strings id m
            ≡ some (record {
              partition_id = id;
              root = some root;
              key_ranges = map range_of (leaves_of sha256 (key ∷ keys) m);
              depth = d;
            }))
  unfolding build_tree build_tree_from_leaves
  build_tree-root sort_strings id m key keys sorted =
      let (root, d, e) =
        build_levels-some (suc (length (leaves_from sha256 key keys m))) _
          (leaves_from sha256 key keys m) 1 (omega arith) in
      (
        root,
        d,
        e,
        ap (λ ks. tree_of sha256 id (leaves_of sha256 ks m)) sorted
            ∙ tree_of-some id (leaves_of sha256 (key ∷ keys) m) (some root) d e,
      )

  -- BuildTree ends with a tree, of any values: the levels shrink until one node is left.
  pub build_tree_total :
      (sort_strings : List Bytes → List Bytes) (id : Bytes) (m : Map Bytes)
      → (t : MerkleTree) × (build_tree sha256 sort_strings id m ≡ some t)
  unfolding build_tree build_tree_from_leaves
  build_tree_total sort_strings id m = go (sort_strings (map (λ e. e.0) m)) refl
    where
      go :
          (ks : List Bytes)
          → sort_strings (map (λ e. e.0) m) ≡ ks
          → (t : MerkleTree) × (build_tree sha256 sort_strings id m ≡ some t)
      go [] e = (
        _,
        ap (λ ks. tree_of sha256 id (leaves_of sha256 ks m)) e ∙ tree_of-some id [] none 0 refl,
      )
      go (k ∷ ks) e =
          let (root, d, run, built) = build_tree-root sort_strings id m k ks e in (_, built)

  abbrev pub NoCollisions : Option MerkleNode → Option MerkleNode → Type 0
  NoCollisions none n = Unit {0}
  NoCollisions (some m) none = Unit {0}
  NoCollisions (some m) (some n) = NoCollision m n

  root_test :
      (m n : MerkleNode)
      → (if str_eq (hash_of m) (hash_of n) then [] else compare_nodes m n) ≡ compare_nodes m n
  unfolding compare_nodes
  root_test (leaf g r) (leaf h s) = ground arith
  root_test (leaf g r) (node h s left right) = ground arith
  root_test (node g r left right) (leaf h s) = ground arith
  root_test (node g r left right) (node h s left' right') = ground arith

  find-eq-compare :
      (t u : MerkleTree) (m n : MerkleNode)
      → t.root ≡ some m
      → u.root ≡ some n
      → find_divergent_ranges t u ≡ compare_nodes m n
  unfolding find_divergent_ranges
  find-eq-compare t u m n et eu = rw (et, eu, find_divergent_ranges) (root_test m n)

  -- Two trees that were built over the same keys, in which nodes in one place with one hash have the
  -- same subtrees: FindDivergentRanges gives exactly the ranges of the keys whose hashed data
  -- differ, so that what holds of all ranges of the one list holds of all of the other.
  pub find_divergent_ranges-differing :
      (sort_strings : List Bytes → List Bytes) (id : Bytes) (v w : Map Bytes) (key : Bytes)
      (keys : List Bytes) (t u : MerkleTree)
      → sort_strings (map (λ e. e.0) v) ≡ key ∷ keys
      → sort_strings (map (λ e. e.0) w) ≡ key ∷ keys
      → build_tree sha256 sort_strings id v ≡ some t
      → build_tree sha256 sort_strings id w ≡ some u
      → NoCollisions t.root u.root
      → (P : KeyRange → Type 0)
      → All P (find_divergent_ranges t u)
        ↔ All P (pair_diffs (leaves_of sha256 (key ∷ keys) v) (leaves_of sha256 (key ∷ keys) w))
  unfolding build_tree_from_leaves leaves_of
  find_divergent_ranges-differing sort_strings id v w key keys t u sv sw bv bw free P =
      let (m, c, run_v, built_v) = build_tree-root sort_strings id v key keys sv in
      let (n, d, run_w, built_w) = build_tree-root sort_strings id w key keys sw in
      let et : t.root ≡ some m = cc (bv, built_v) in
      let eu : u.root ≡ some n = cc (bw, built_w) in
      let (shape, same) =
        levels-SameRanges (suc (length (leaves_from sha256 key keys v)))
          (leaves_of sha256 (key ∷ keys) v) (leaves_of sha256 (key ∷ keys) w) 1 1
          (tt, leaves_from-SameShapes key keys v w) run_v
          (ap (λ fuel. build_levels sha256 (suc fuel) (leaves_of sha256 (key ∷ keys) w) 1)
              (length-leaves_from key keys v w)
            ∙ run_w) in
      let eq =
        find-eq-compare t u m n et eu ∙ compare_nodes-eq-diffs m n shape (rw (et, eu) at free) in
      rw eq ((same P).1, (same P).0)
