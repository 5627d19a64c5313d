-- ===== src/Repair/MerkleDiffs.antt =====
-- The ranges at which the leaves of two trees of one shape differ.
use allidb.Repair.Merkle.{KeyRange, MerkleNode, leaf, node, next_level, compare_nodes}
use allidb.Base.{
  All, Bool-cases, Bytes, List, [], arith, if◌then◌else◌, inl, inr, length, refl, str_eq,
  str_eq_iff, str_eq_refl, ◌++◌, ◌↔◌, ◌∷◌, ◌≡◌, ◌≤◌,
}

-- The ranges at which two trees of one shape have leaves with different hashes.
unfoldable pub tree_diffs : MerkleNode → MerkleNode → List KeyRange
tree_diffs (leaf g r) (leaf h s) = if str_eq g h then [] else r ∷ []
tree_diffs (leaf g r) (node h s left right) = []
tree_diffs (node g r left right) (leaf h s) = []
tree_diffs (node g r left right) (node h s left' right') =
    tree_diffs left left' ++ tree_diffs right right'

abbrev pub SameShape : MerkleNode → MerkleNode → Type 0
SameShape (leaf g r) (leaf h s) = Unit {0}
SameShape (leaf g r) (node h s left right) = ⊥
SameShape (node g r left right) (leaf h s) = ⊥
SameShape (node g r left right) (node h s left' right') =
    SameShape left left' × SameShape right right'

-- Where two nodes in one place have the same hash, they have the same subtrees.
abbrev pub NoCollision : MerkleNode → MerkleNode → Type 0
NoCollision (leaf g r) (leaf h s) = Unit {0}
NoCollision (leaf g r) (node h s left right) = Unit {0}
NoCollision (node g r left right) (leaf h s) = Unit {0}
NoCollision (node g r left right) (node h s left' right') =
    (g ≡ h → (left ≡ left') × (right ≡ right')) × NoCollision left left' × NoCollision right right'

pub tree_diffs-same : (m : MerkleNode) → tree_diffs m m ≡ []
unfolding tree_diffs
tree_diffs-same (leaf g r) = rw (str_eq_refl g) refl
tree_diffs-same (node g r left right) = rw (tree_diffs-same left, tree_diffs-same right) refl

pub compare_nodes-eq-diffs :
    (m n : MerkleNode) → SameShape m n → NoCollision m n → compare_nodes m n ≡ tree_diffs m n
unfolding compare_nodes tree_diffs
compare_nodes-eq-diffs (leaf g r) (leaf h s) shape free = refl
compare_nodes-eq-diffs (leaf g r) (node h s left right) shape free = absurd shape
compare_nodes-eq-diffs (node g r left right) (leaf h s) shape free = absurd shape
compare_nodes-eq-diffs (node g r left right) (node h s left' right') shape free =
    elim (Bool-cases (str_eq g h)) [
      | inr differ ↦
          rw
            (
              differ,
              compare_nodes-eq-diffs left left' shape.0 free.1,
              compare_nodes-eq-diffs right right' shape.1 free.2,
            )
            refl
      | inl same ↦
          let (l, r) = free.0 ((str_eq_iff g h).0 same) in
          rw (same, ← l, ← r, tree_diffs-same left, tree_diffs-same right) refl
    ]

abbrev pub SameShapes : List MerkleNode → List MerkleNode → Type 0
SameShapes [] [] = Unit {0}
SameShapes [] (y ∷ ys) = ⊥
SameShapes (x ∷ xs) [] = ⊥
SameShapes (x ∷ xs) (y ∷ ys) = SameShape x y × SameShapes xs ys

abbrev pub pair_diffs : List MerkleNode → List MerkleNode → List KeyRange
pair_diffs [] ys = []
pair_diffs (x ∷ xs) [] = []
pair_diffs (x ∷ xs) (y ∷ ys) = tree_diffs x y ++ pair_diffs xs ys

-- The two lists have the same elements.
abbrev pub SameRanges : List KeyRange → List KeyRange → Type 1
SameRanges rs ss = (P : KeyRange → Type 0) → All P rs ↔ All P ss

pub All_split :
    (P : KeyRange → Type 0) (rs ss : List KeyRange) → All P (rs ++ ss) → All P rs × All P ss
All_split P [] ss all = (tt, all)
All_split P (r ∷ rs) ss all = let (here, there) = All_split P rs ss all.1 in ((all.0, here), there)

pub length_next :
    (sha256 : Bytes → Bytes) (xs : List MerkleNode) → length (next_level sha256 xs) ≤ length xs
unfolding next_level
length_next sha256 [] = omega arith
length_next sha256 (x ∷ []) = omega arith
length_next sha256 (x ∷ y ∷ xs) = omega (arith, length_next sha256 xs)
