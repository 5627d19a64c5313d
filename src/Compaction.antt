-- ===== src/Compaction.antt =====
-- core/storage/compaction/planner.go: which SSTables are compacted together. The list of the tables,
-- which ListSSTables reads from the directory and sorts, is an argument; limits below 0 act as 0,
-- and sums of sizes do not overflow. The readers that the list carries are not looked at.
pub mod Tiers
pub mod Plans
mod Tests
use allidb.Base.{
  Bool, Bytes, List, [], any, count, false, if◌then◌else◌, keep, leb, length, ltb, map, ℕ, ◌&&◌,
  ◌*◌, ◌++◌, ◌+◌, ◌/◌, ◌||◌, ◌∷◌,
}

pub record SstableInfo : Type 0 where
  pub path : Bytes
  pub size : ℕ
  pub age : ℕ

pub record Planner : Type 0 where
  pub min_size : ℕ
  pub max_age : ℕ

-- The loop of groupBySizeTier, with the tier that is being filled and the sum of its sizes.
unfoldable pub group_from :
    Planner → List SstableInfo → List SstableInfo → ℕ → List (List SstableInfo)
group_from p [] [] total = []
group_from p [] (c ∷ cs) total = (c ∷ cs) ∷ []
group_from p (i ∷ is) [] total =
    if ltb i.size p.min_size then group_from p is [] total else group_from p is (i ∷ []) i.size
group_from p (i ∷ is) (c ∷ cs) total =
    if ltb i.size p.min_size
    then group_from p is (c ∷ cs) total
    else if ltb (total / length (c ∷ cs) * 2) i.size
    then (c ∷ cs) ∷ group_from p is (i ∷ []) i.size
    else group_from p is ((c ∷ cs) ++ i ∷ []) (total + i.size)

unfoldable pub group_by_size_tier : Planner → List SstableInfo → List (List SstableInfo)
unfolding group_from
group_by_size_tier p infos = group_from p infos [] 0

unfoldable pub is_old : Planner → SstableInfo → Bool
is_old p i = leb p.max_age i.age && leb p.min_size i.size

-- What a tier adds to the compactions.
unfoldable pub plan_tier : Planner → List SstableInfo → List (List Bytes)
plan_tier p tier =
    if leb 4 (length tier)
    then map (λ i. i.path) tier ∷ []
    else if leb 2 (length (keep (is_old p) tier))
    then map (λ i. i.path) (keep (is_old p) tier) ∷ []
    else []

unfoldable pub plan_tiers : Planner → List (List SstableInfo) → List (List Bytes)
plan_tiers p [] = []
plan_tiers p (tier ∷ tiers) = plan_tier p tier ++ plan_tiers p tiers

unfoldable pub plan_compaction : Planner → List SstableInfo → List (List Bytes)
plan_compaction p infos =
    if ltb (length infos) 2 then [] else plan_tiers p (group_by_size_tier p infos)

unfoldable pub should_compact : Planner → List SstableInfo → Bool
should_compact p infos =
    if ltb (length infos) 2
    then false
    else any (λ tier. leb 4 (length tier)) (group_by_size_tier p infos)
      || leb 2 (count (is_old p) infos)
