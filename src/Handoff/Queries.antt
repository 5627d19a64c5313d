-- ===== src/Handoff/Queries.antt =====
-- What the hints of each node are after an operation.
use allidb.Handoff.{
  Hint, Config, Store, full, estimate_hint_size, hints_of, put_back, new_hint, store_hint,
  get_hints_for_node, without_key, remove_hint, remove_hints_for_node, without_expired, clean,
  cleanup,
}
use allidb.Handoff.Sizes.{
  all_sizes, other_key, hints_cases, without_key-eq, lives, without_expired-eq, hints_of-le,
}
use allidb.Base.{
  Bool-cases, Bytes, DistinctKeys, List, Map, [], arith, delete, err, false, has_key, if◌then◌else◌,
  inl, inr, insert, keep, lookup, lookup-absent, lookup-delete, lookup-insert, ltb, ltb→lt, ok,
  refl, str_eq, str_eq_iff, ℕ, ◌++◌, ◌+◌, ◌<◌, ◌∙◌, ◌∷◌, ◌≡◌, ◌≤◌, ◌⊎◌,
}

pub hints_of-insert :
    (id j : Bytes) (hs : List Hint) (m : Map (List Hint))
    → hints_of (insert id hs m) j ≡ (if str_eq id j then hs else hints_of m j)
unfolding hints_of
hints_of-insert id j hs m = ground (arith, lookup-insert id j hs m)

pub hints_of-delete :
    (id j : Bytes) (m : Map (List Hint))
    → hints_of (delete id m) j ≡ (if str_eq id j then [] else hints_of m j)
unfolding hints_of
hints_of-delete id j m = ground (arith, lookup-delete id j m)

pub hints_of-put_back :
    (id j : Bytes) (hs : List Hint) (m : Map (List Hint))
    → hints_of (put_back id hs m) j ≡ (if str_eq id j then hs else hints_of m j)
unfolding put_back
hints_of-put_back id j [] m = hints_of-delete id j m
hints_of-put_back id j (h ∷ hs) m = hints_of-insert id j (h ∷ hs) m

pub absent_hints : (id : Bytes) (m : Map (List Hint)) → has_key id m ≡ false → hints_of m id ≡ []
unfolding hints_of
absent_hints id m h = ground (arith, lookup-absent id m h)

module _ (config : Config) (now : ℕ) where
  pub clean-absent :
      (id : Bytes) (m : Map (List Hint)) (total expired : ℕ)
      → has_key id m ≡ false
      → has_key id (clean config now m total expired).0 ≡ false
  unfolding clean has_key
  clean-absent id [] total expired h = refl
  clean-absent id ((j, hs) ∷ m) total expired h =
      let w = without_expired config now hs total expired in
      ground (arith, clean-absent id m w.1 w.2)

  pub clean-DistinctKeys :
      (m : Map (List Hint)) (total expired : ℕ)
      → DistinctKeys m
      → DistinctKeys (clean config now m total expired).0
  unfolding clean
  clean-DistinctKeys [] total expired d = tt
  clean-DistinctKeys ((j, hs) ∷ m) total expired d =
      let w = without_expired config now hs total expired in
      ground (arith, clean-DistinctKeys m w.1 w.2, clean-absent j m w.1 w.2)

  pub clean-sizes :
      (m : Map (List Hint)) (total expired : ℕ)
      → all_sizes m ≤ total
      → (clean config now m total expired).1 + all_sizes m
        ≡ total + all_sizes (clean config now m total expired).0
  unfolding clean
  clean-sizes [] total expired h = ground arith
  clean-sizes ((j, hs) ∷ m) total expired h =
      let w = without_expired config now hs total expired in
      ground (arith, clean-sizes m w.1 w.2, without_expired-eq config now hs total expired)

  pub clean-hints_of :
      (m : Map (List Hint)) (total expired : ℕ) (id : Bytes)
      → DistinctKeys m
      → all_sizes m ≤ total
      → hints_of (clean config now m total expired).0 id ≡ keep (lives config now) (hints_of m id)
  unfolding clean hints_of lookup
  clean-hints_of [] total expired id d h = refl
  clean-hints_of ((j, hs) ∷ m) total expired id d h =
      let w = without_expired config now hs total expired in
      let eq = without_expired-eq config now hs total expired (omega arith) in
      let rest = clean-hints_of m w.1 w.2 id d.1 (omega arith) in
      let gone = clean-absent j m w.1 w.2 d.0 in
      let gone' = absent_hints j (clean config now m w.1 w.2).0 gone in
      elim (hints_cases w.0) [
        | inl e ↦ ground (arith, e, eq.0, rest, gone', str_eq_iff j id)
        | inr (k, more, e) ↦ ground (arith, e, eq.0, rest, str_eq_iff j id)
      ]

-- Storing a hint fails, and changes nothing but the count of dropped hints, exactly if the total
-- size would exceed the limit; otherwise the hint becomes the last one of its node and the other
-- nodes keep theirs.
store_hint-get_hints :
    (checksum : Bytes → ℕ) (now : ℕ) (s : Store) (id key value : Bytes)
    → ((s.config.max_size < s.total_size + estimate_hint_size key value)
        × (store_hint checksum now s id key value ≡ (
          record s { hints_dropped = s.hints_dropped + 1 },
          err (full s.total_size s.config.max_size),
        )))
      ⊎ ((s.total_size + estimate_hint_size key value ≤ s.config.max_size)
          × ((store_hint checksum now s id key value).1 ≡ ok tt)
          × ((j : Bytes)
              → get_hints_for_node (store_hint checksum now s id key value).0 j ≡ (
                  if str_eq id j
                  then get_hints_for_node s j ++ new_hint checksum now id key value ∷ []
                  else get_hints_for_node s j)))
unfolding store_hint get_hints_for_node
store_hint-get_hints checksum now s id key value =
    let size = estimate_hint_size key value in
    elim (Bool-cases (ltb s.config.max_size (s.total_size + size))) [
      | inl e ↦ inl (ltb→lt s.config.max_size (s.total_size + size) e, rw e refl)
      | inr e ↦ inr (
        ground (arith, e),
        rw e refl,
        λ j. rw e (
            hints_of-insert id j (hints_of s.hints id ++ new_hint checksum now id key value ∷ [])
              s.hints
            ∙ ground (arith, str_eq_iff id j)),
      )
    ]

-- Where the total size is at least that of the hints, removing a hint of a node takes all hints of
-- that node with the key away, and no other hint.
pub remove_hint-get_hints :
    (s : Store) (id key j : Bytes)
    → all_sizes s.hints ≤ s.total_size
    → get_hints_for_node (remove_hint s id key) j ≡ (
        if str_eq id j
        then keep (other_key key) (get_hints_for_node s j)
        else get_hints_for_node s j)
unfolding remove_hint get_hints_for_node
remove_hint-get_hints s id key j h = elim (hints_cases (hints_of s.hints id)) [
  | inl e ↦ rw (e, remove_hint) (ground (arith, e, str_eq_iff id j))
  | inr (k, more, e) ↦
      let w = without_key key (k ∷ more) s.total_size in
      rw (e, remove_hint)
        (ground (
          arith,
          e,
          hints_of-put_back id j w.0 s.hints,
          without_key-eq key (k ∷ more) s.total_size,
          hints_of-le id s.hints,
          str_eq_iff id j,
        ))
]

-- Removing the hints of a node leaves it none, and the other nodes theirs.
pub remove_hints_for_node-get_hints :
    (s : Store) (id j : Bytes)
    → get_hints_for_node (remove_hints_for_node s id) j
      ≡ (if str_eq id j then [] else get_hints_for_node s j)
unfolding remove_hints_for_node get_hints_for_node
remove_hints_for_node-get_hints s id j = elim (hints_cases (hints_of s.hints id)) [
  | inl e ↦ rw (e, remove_hints_for_node) (ground (arith, e, str_eq_iff id j))
  | inr (k, more, e) ↦ rw (e, remove_hints_for_node) (ground (arith, hints_of-delete id j s.hints))
]

-- Where the nodes differ and the total size is at least that of the hints, a clean-up leaves every
-- node, in their order, the hints that are not older than the limit.
pub cleanup-get_hints :
    (now : ℕ) (s : Store) (id : Bytes)
    → DistinctKeys s.hints
    → all_sizes s.hints ≤ s.total_size
    → get_hints_for_node (cleanup now s) id ≡ keep (lives s.config now) (get_hints_for_node s id)
unfolding cleanup get_hints_for_node
cleanup-get_hints now s id d h =
    clean-hints_of s.config now s.hints s.total_size s.hints_expired id d h
