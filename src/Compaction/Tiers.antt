-- ===== src/Compaction/Tiers.antt =====
-- The tiers are the tables of sufficient size, in their order.
use allidb.Compaction.{SstableInfo, Planner, group_from, group_by_size_tier}
use allidb.Base.{
  All, Bool, List, [], append_assoc, arith, keep, length, ltb, not, refl, ℕ, ◌++◌, ◌+◌, ◌<◌, ◌∷◌,
  ◌≡◌,
}

module _ {ℓ} {A : Type ℓ} where
  abbrev pub joined : List (List A) → List A
  joined [] = []
  joined (xs ∷ xss) = xs ++ joined xss

abbrev pub is_big : Planner → SstableInfo → Bool
is_big p i = not (ltb i.size p.min_size)

group_from-joined :
    (p : Planner) (is current : List SstableInfo) (total : ℕ)
    → joined (group_from p is current total) ≡ current ++ keep (is_big p) is
unfolding group_from
group_from-joined p [] [] total = refl
group_from-joined p [] (c ∷ cs) total = refl
group_from-joined p (i ∷ is) [] total =
    ground (arith, group_from-joined p is [] total, group_from-joined p is (i ∷ []) i.size)
group_from-joined p (i ∷ is) (c ∷ cs) total = ground (
  arith,
  group_from-joined p is (c ∷ cs) total,
  group_from-joined p is (i ∷ []) i.size,
  group_from-joined p is ((c ∷ cs) ++ i ∷ []) (total + i.size),
  append_assoc cs (i ∷ []) (keep (is_big p) is),
)

group_from-filled :
    (p : Planner) (is current : List SstableInfo) (total : ℕ)
    → All (λ tier. 0 < length tier) (group_from p is current total)
unfolding group_from
group_from-filled p [] [] total = tt
group_from-filled p [] (c ∷ cs) total = (omega arith, tt)
group_from-filled p (i ∷ is) [] total =
    ground (arith, group_from-filled p is [] total, group_from-filled p is (i ∷ []) i.size)
group_from-filled p (i ∷ is) (c ∷ cs) total = ground (
  arith,
  group_from-filled p is (c ∷ cs) total,
  group_from-filled p is (i ∷ []) i.size,
  group_from-filled p is ((c ∷ cs) ++ i ∷ []) (total + i.size),
)

-- The tiers one after the other are the tables that are not too small, each once and in their
-- order, and no tier is empty.
pub group_by_size_tier-joined :
    (p : Planner) (infos : List SstableInfo)
    → (joined (group_by_size_tier p infos) ≡ keep (is_big p) infos)
      × All (λ tier. 0 < length tier) (group_by_size_tier p infos)
unfolding group_by_size_tier
group_by_size_tier-joined p infos = (group_from-joined p infos [] 0, group_from-filled p infos [] 0)
