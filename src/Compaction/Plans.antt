-- ===== src/Compaction/Plans.antt =====
-- What is planned, and when.
use allidb.Compaction.{
  SstableInfo, Planner, group_by_size_tier, is_old, plan_tier, plan_tiers, plan_compaction,
  should_compact,
}
use allidb.Compaction.Tiers.{joined, is_big, group_by_size_tier-joined}
use allidb.Base.{
  All, All-append, Bool, Bool-cases, Bytes, List, [], any, ap, append-nil, append_assoc, arith,
  count, count-append, inl, inr, keep, leb, length, length-map, ltb, map, refl, true, ◌++◌, ◌<◌,
  ◌∷◌, ◌≡◌, ◌≤◌, ◌⊎◌,
}

abbrev pub paths : List SstableInfo → List Bytes
paths is = map (λ i. i.path) is

count-keep_le : {A : Type 0} (p q : A → Bool) (xs : List A) → count p (keep q xs) ≤ count p xs
count-keep_le p q [] = omega arith
count-keep_le p q (x ∷ xs) = ground (arith, count-keep_le p q xs)

count-paths :
    (test : Bytes → Bool) (is : List SstableInfo)
    → count test (paths is) ≡ count (λ i. test i.path) is
count-paths test [] = refl
count-paths test (i ∷ is) = ground (arith, count-paths test is)

module _ (p : Planner) where
  plan_tier-count :
      (test : Bytes → Bool) (tier : List SstableInfo)
      → count test (joined (plan_tier p tier)) ≤ count (λ i. test i.path) tier
  unfolding plan_tier
  plan_tier-count test tier = ground (
    arith,
    count-paths test tier,
    count-paths test (keep (is_old p) tier),
    count-keep_le (λ i. test i.path) (is_old p) tier,
    append-nil (paths tier),
    append-nil (paths (keep (is_old p) tier)),
  )

  joined-append : (xss yss : List (List Bytes)) → joined (xss ++ yss) ≡ joined xss ++ joined yss
  joined-append [] yss = refl
  joined-append (xs ∷ xss) yss =
      ground (arith, joined-append xss yss, append_assoc xs (joined xss) (joined yss))

  plan_tiers-count :
      (test : Bytes → Bool) (tiers : List (List SstableInfo))
      → count test (joined (plan_tiers p tiers)) ≤ count (λ i. test i.path) (joined tiers)
  unfolding plan_tiers
  plan_tiers-count test [] = omega arith
  plan_tiers-count test (tier ∷ tiers) = omega (
    arith,
    ap (count test) (joined-append (plan_tier p tier) (plan_tiers p tiers)),
    count-append test (joined (plan_tier p tier)) (joined (plan_tiers p tiers)),
    count-append (λ i. test i.path) tier (joined tiers),
    plan_tier-count test tier,
    plan_tiers-count test tiers,
  )

  plan_tier-large : (tier : List SstableInfo) → All (λ c. 2 ≤ length c) (plan_tier p tier)
  unfolding plan_tier
  plan_tier-large tier =
      ground (arith, length-map (λ i. i.path) tier, length-map (λ i. i.path) (keep (is_old p) tier))

  plan_tiers-large :
      (tiers : List (List SstableInfo)) → All (λ c. 2 ≤ length c) (plan_tiers p tiers)
  unfolding plan_tiers
  plan_tiers-large [] = tt
  plan_tiers-large (tier ∷ tiers) =
      All-append (λ c. 2 ≤ length c) (plan_tier p tier) (plan_tiers p tiers) (plan_tier-large tier)
        (plan_tiers-large tiers)

  -- Every planned compaction joins at least two tables, and together they hold no table more often
  -- than the list of the tables does: where the paths differ, no table is in two compactions.
  pub plan_compaction-count :
      (infos : List SstableInfo)
      → All (λ c. 2 ≤ length c) (plan_compaction p infos)
        × ((test : Bytes → Bool)
            → count test (joined (plan_compaction p infos)) ≤ count test (paths infos))
  unfolding plan_compaction
  plan_compaction-count infos = elim (Bool-cases (ltb (length infos) 2)) [
    | inl e ↦ rw e (tt, λ test. omega arith)
    | inr e ↦ rw e (
      plan_tiers-large (group_by_size_tier p infos),
      λ test. omega (
        arith,
        plan_tiers-count test (group_by_size_tier p infos),
        ap (count (λ i. test i.path)) (group_by_size_tier-joined p infos).0,
        count-keep_le (λ i. test i.path) (is_big p) infos,
        count-paths test infos,
      ),
    )
  ]

  length-keep : (tier : List SstableInfo) → length (keep (is_old p) tier) ≡ count (is_old p) tier
  length-keep [] = refl
  length-keep (i ∷ is) = ground (arith, length-keep is)

  plan_tiers-reason :
      (tiers : List (List SstableInfo))
      → 0 < length (plan_tiers p tiers)
      → (any (λ tier. leb 4 (length tier)) tiers ≡ true) ⊎ (2 ≤ count (is_old p) (joined tiers))
  unfolding plan_tiers plan_tier
  plan_tiers-reason [] h = absurd (omega arith)
  plan_tiers-reason (tier ∷ tiers) h = ground (
    arith,
    plan_tiers-reason tiers,
    length-keep tier,
    count-append (is_old p) tier (joined tiers),
  )

  -- Where something is planned, ShouldCompact says so.
  pub should_compact-plan_compaction :
      (infos : List SstableInfo)
      → 0 < length (plan_compaction p infos)
      → should_compact p infos ≡ true
  unfolding plan_compaction should_compact
  should_compact-plan_compaction infos h = elim (Bool-cases (ltb (length infos) 2)) [
    | inl e ↦ ground (arith, e)
    | inr e ↦ ground (
      arith,
      e,
      plan_tiers-reason (group_by_size_tier p infos),
      ap (count (is_old p)) (group_by_size_tier-joined p infos).0,
      count-keep_le (is_old p) (is_big p) infos,
    )
  ]
