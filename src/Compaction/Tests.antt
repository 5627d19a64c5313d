-- ===== src/Compaction/Tests.antt =====
-- The planner at concrete tables.
use allidb.Compaction.{
  SstableInfo, Planner, group_by_size_tier, is_old, plan_tier, plan_tiers, plan_compaction,
  should_compact,
}
use allidb.Compaction.Tiers.{joined, is_big, group_by_size_tier-joined}
use allidb.Compaction.Plans.{paths, plan_compaction-count, should_compact-plan_compaction}
use allidb.Base.{
  All, Bool, Bytes, List, [], arith, count, keep, length, refl, true, ℕ, ◌<◌, ◌∷◌, ◌≡◌, ◌≤◌,
}

abbrev planner : Planner
planner = record { min_size = 10; max_age = 60 }

abbrev table : ℕ → ℕ → SstableInfo
table size age = record { path = size ∷ []; size = size; age = age }

abbrev tables : List SstableInfo
tables = table 5 0 ∷ table 10 0 ∷ table 20 0 ∷ table 30 0 ∷ table 40 0 ∷ table 200 0 ∷ []

-- A tier may span more than a factor of two, since its average moves.
tiers :
    group_by_size_tier planner tables
    ≡ (table 10 0 ∷ table 20 0 ∷ table 30 0 ∷ table 40 0 ∷ []) ∷ (table 200 0 ∷ []) ∷ []
unfolding group_by_size_tier
tiers = refl

abbrev apart : List SstableInfo
apart = table 10 90 ∷ table 200 90 ∷ []

-- Two old tables in different tiers call for a compaction that is never planned.
called_for : should_compact planner apart ≡ true
unfolding should_compact group_by_size_tier is_old
called_for = refl

never_planned : plan_compaction planner apart ≡ []
unfolding plan_compaction plan_tiers plan_tier group_by_size_tier is_old
never_planned = refl

planned : 0 < length (plan_compaction planner tables)
unfolding plan_compaction plan_tiers plan_tier group_by_size_tier is_old
planned = omega arith

group_by_size_tier-joined_example :
    (joined (group_by_size_tier planner tables) ≡ keep (is_big planner) tables)
    × All (λ tier. 0 < length tier) (group_by_size_tier planner tables)
group_by_size_tier-joined_example = group_by_size_tier-joined planner tables

plan_compaction-count_example :
    All (λ c. 2 ≤ length c) (plan_compaction planner tables)
    × ((test : Bytes → Bool)
        → count test (joined (plan_compaction planner tables)) ≤ count test (paths tables))
plan_compaction-count_example = plan_compaction-count planner tables

should_compact-plan_compaction_example : should_compact planner tables ≡ true
should_compact-plan_compaction_example = should_compact-plan_compaction planner tables planned
