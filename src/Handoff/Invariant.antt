-- ===== src/Handoff/Invariant.antt =====
-- The well-formed stores, and that every operation keeps a store well-formed.
use allidb.Handoff.{
  Hint, Config, Store, Op, store, remove, remove_node, clean_up, replayed, estimate_hint_size,
  hint_size, hints_of, put_back, new_hint, store_hint, without_key, remove_hint,
  remove_hints_for_node, without_expired, clean, cleanup, mark_hint_replayed, step, run,
}
use allidb.Handoff.Sizes.{
  sizes, all_sizes, all_sizes-insert, all_sizes-delete, all_sizes-put_back, hints_of-le,
  subtract_sizes-eq, other_key, hints_cases, without_key-eq, lives, without_expired-eq,
}
use allidb.Handoff.Queries.{clean-DistinctKeys, clean-sizes}
use allidb.Base.{
  Bool, Bool-cases, Bytes, DistinctKeys, DistinctKeys-delete, DistinctKeys-insert, List, Map, [],
  ap, arith, inl, inr, keep, ltb, refl, sum_of-append, ℕ, ◌++◌, ◌+◌, ◌∷◌, ◌≡◌, ◌≤◌,
}

-- The total size is that of the hints and within the limit, and the nodes differ.
pub record IsStore (s : Store) : Type 0 where
  pub distinct : DistinctKeys s.hints
  pub sized : s.total_size ≡ all_sizes s.hints
  pub bounded : s.total_size ≤ s.config.max_size

DistinctKeys-put_back :
    (id : Bytes) (hs : List Hint) (m : Map (List Hint))
    → DistinctKeys m
    → DistinctKeys (put_back id hs m)
unfolding put_back
DistinctKeys-put_back id [] m d = DistinctKeys-delete id m d
DistinctKeys-put_back id (h ∷ hs) m d = DistinctKeys-insert id (h ∷ hs) m d

new_hint-size :
    (checksum : Bytes → ℕ) (now : ℕ) (id key value : Bytes)
    → hint_size (new_hint checksum now id key value) ≡ estimate_hint_size key value
unfolding new_hint
new_hint-size checksum now id key value = refl

store_hint-IsStore :
    (checksum : Bytes → ℕ) (now : ℕ) (s : Store) (id key value : Bytes)
    → IsStore s
    → IsStore (store_hint checksum now s id key value).0
unfolding store_hint
store_hint-IsStore checksum now s id key value w =
    let size = estimate_hint_size key value in
    let hs = hints_of s.hints id in
    let h = new_hint checksum now id key value in
    elim (Bool-cases (ltb s.config.max_size (s.total_size + size))) [
      | inl e ↦ rw e (record { distinct = w.distinct; sized = w.sized; bounded = w.bounded })
      | inr e ↦ rw e (record {
        distinct = DistinctKeys-insert id (hs ++ h ∷ []) s.hints w.distinct;
        sized = omega (
          arith,
          w.sized,
          all_sizes-insert id (hs ++ h ∷ []) s.hints w.distinct,
          sum_of-append hint_size hs (h ∷ []),
          new_hint-size checksum now id key value,
        );
        bounded = ground (arith, e);
      })
    ]

sum_of-keep_le : (test : Hint → Bool) (hs : List Hint) → sizes (keep test hs) ≤ sizes hs
sum_of-keep_le test [] = omega arith
sum_of-keep_le test (h ∷ hs) = ground (arith, sum_of-keep_le test hs)

pub remove_hint-IsStore : (s : Store) (id key : Bytes) → IsStore s → IsStore (remove_hint s id key)
unfolding remove_hint
remove_hint-IsStore s id key w = elim (hints_cases (hints_of s.hints id)) [
  | inl e ↦ rw (e, remove_hint) w
  | inr (k, more, e) ↦
      let u = without_key key (k ∷ more) s.total_size in
      let size = ap sizes e in
      let part = hints_of-le id s.hints in
      let eq = without_key-eq key (k ∷ more) s.total_size (omega (arith, w.sized, part, size)) in
      let put = all_sizes-put_back id u.0 s.hints w.distinct in
      let kept = ap sizes eq.0 in
      let left = sum_of-keep_le (other_key key) (k ∷ more) in
      rw (e, remove_hint)
        (record {
          distinct = DistinctKeys-put_back id u.0 s.hints w.distinct;
          sized = omega (arith, put, size, kept, eq.1, w.sized);
          bounded = omega (arith, eq.1, left, w.bounded);
        })
]

remove_hints_for_node-IsStore :
    (s : Store) (id : Bytes) → IsStore s → IsStore (remove_hints_for_node s id)
unfolding remove_hints_for_node
remove_hints_for_node-IsStore s id w = elim (hints_cases (hints_of s.hints id)) [
  | inl e ↦ rw (e, remove_hints_for_node) w
  | inr (k, more, e) ↦
      let size = ap sizes e in
      let put = all_sizes-delete id s.hints w.distinct in
      let eq = subtract_sizes-eq (k ∷ more) s.total_size in
      rw (e, remove_hints_for_node)
        (record {
          distinct = DistinctKeys-delete id s.hints w.distinct;
          sized = omega (arith, put, size, eq, w.sized);
          bounded = omega (arith, eq, w.bounded);
        })
]

module _ (config : Config) (now : ℕ) where
  clean-le :
      (m : Map (List Hint)) (total expired : ℕ)
      → all_sizes m ≤ total
      → all_sizes (clean config now m total expired).0 ≤ all_sizes m
  unfolding clean
  clean-le [] total expired h = omega arith
  clean-le ((j, hs) ∷ m) total expired h =
      let w = without_expired config now hs total expired in
      ground (
        arith,
        clean-le m w.1 w.2,
        without_expired-eq config now hs total expired,
        sum_of-keep_le (lives config now) hs,
      )

cleanup-IsStore : (now : ℕ) (s : Store) → IsStore s → IsStore (cleanup now s)
unfolding cleanup
cleanup-IsStore now s w =
    let within : all_sizes s.hints ≤ s.total_size = omega (arith, w.sized) in
    let sum = clean-sizes s.config now s.hints s.total_size s.hints_expired within in
    let le = clean-le s.config now s.hints s.total_size s.hints_expired within in
    record {
      distinct = clean-DistinctKeys s.config now s.hints s.total_size s.hints_expired w.distinct;
      sized = omega (arith, sum, w.sized);
      bounded = omega (arith, sum, le, w.sized, w.bounded);
    }

pub step-IsStore :
    (checksum : Bytes → ℕ) (s : Store) (op : Op) → IsStore s → IsStore (step checksum s op)
unfolding step mark_hint_replayed
step-IsStore checksum s (store now id key value) w =
    store_hint-IsStore checksum now s id key value w
step-IsStore checksum s (remove id key) w = remove_hint-IsStore s id key w
step-IsStore checksum s (remove_node id) w = remove_hints_for_node-IsStore s id w
step-IsStore checksum s (clean_up now) w = cleanup-IsStore now s w
step-IsStore checksum s replayed w = record {
  distinct = w.distinct;
  sized = w.sized;
  bounded = w.bounded;
}

-- Over any sequence of operations a well-formed store stays well-formed: the total size is that of
-- the hints it has and stays within the limit, and no node is listed twice.
pub run-IsStore :
    (checksum : Bytes → ℕ) (s : Store) (ops : List Op) → IsStore s → IsStore (run checksum s ops)
run-IsStore checksum s [] w = w
run-IsStore checksum s (op ∷ ops) w =
    run-IsStore checksum (step checksum s op) ops (step-IsStore checksum s op w)
