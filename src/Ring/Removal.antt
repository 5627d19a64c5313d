-- ===== src/Ring/Removal.antt =====
-- What removing a node does to the owners of the keys.
use allidb.Ring.{VirtualNode, Ring, hash_string, get_owners, remove_node}
use allidb.Ring.Order.{IsSorted, SortedFrom-keep}
use allidb.Ring.Clockwise.{clockwise, at_or_after}
use allidb.Ring.Owners.{
  contains, distinct, preference, keep-keep, keep_congr, get_owners-eq-preference,
}
use allidb.Base.{
  Bool, Bool-cases, Bytes, List, [], ap, arith, false, inl, inr, keep, keep-append, map, not, ok,
  refl, some, str_eq, str_eq_iff, suc, sym, take, zero, ℕ, ◌&&◌, ◌∙◌, ◌∷◌, ◌≡◌,
}

keep_comm {ℓ} :
    {A : Type ℓ} (p q : A → Bool) (xs : List A) → keep p (keep q xs) ≡ keep q (keep p xs)
keep_comm p q xs = keep-keep p q xs ∙ keep_congr _ _ xs (λ x. ground arith) ∙ sym (keep-keep q p xs)

distinct-keep : (q : Bytes → Bool) (xs : List Bytes) → distinct (keep q xs) ≡ keep q (distinct xs)
distinct-keep q [] = refl
distinct-keep q (x ∷ xs) = elim (Bool-cases (q x)) [
  | inl e ↦
      rw e
        (ap (◌∷◌ x) (rw (distinct-keep q xs) (keep_comm (λ y. not (str_eq x y)) q (distinct xs))))
  | inr e ↦ rw e (
      distinct-keep q xs
      ∙ sym (
          keep-keep q (λ y. not (str_eq x y)) (distinct xs)
          ∙ keep_congr _ q (distinct xs) (same e)))
]
  where
    same : q x ≡ false → (y : Bytes) → not (str_eq x y) && q y ≡ q y
    same e y = elim (Bool-cases (str_eq x y)) [
      | inl f ↦ let f' = (str_eq_iff x y).0 f in rw (f, ← f', e)
      | inr f ↦ rw f
    ]

abbrev pub not_node : Bytes → VirtualNode → Bool
not_node id v = not (str_eq v.node_id id)

abbrev pub not_id : Bytes → Bytes → Bool
not_id id k = not (str_eq k id)

ids-keep :
    (id : Bytes) (vs : List VirtualNode)
    → map (λ v. v.node_id) (keep (not_node id) vs) ≡ keep (not_id id) (map (λ v. v.node_id) vs)
ids-keep id [] = refl
ids-keep id (v ∷ vs) = ground (arith, ids-keep id vs)

clockwise-keep :
    (q : VirtualNode → Bool) (key_hash : ℕ) (vs : List VirtualNode)
    → clockwise key_hash (keep q vs) ≡ keep q (clockwise key_hash vs)
clockwise-keep q key_hash vs =
    rw (keep_comm (at_or_after key_hash) q vs, keep_comm (λ v. not (at_or_after key_hash v)) q vs)
      (sym (keep-append q (keep (at_or_after key_hash) vs) _))

-- Without a node's virtual nodes the preference list is the old one without that node.
pub preference-keep :
    (id : Bytes) (key_hash : ℕ) (vs : List VirtualNode)
    → preference key_hash (keep (not_node id) vs) ≡ keep (not_id id) (preference key_hash vs)
preference-keep id key_hash vs =
    rw (clockwise-keep (not_node id) key_hash vs, ids-keep id (clockwise key_hash vs))
      (distinct-keep (not_id id) (map (λ v. v.node_id) (clockwise key_hash vs)))

take-keep_absent :
    (id : Bytes) (n : ℕ) (xs : List Bytes)
    → contains (take n xs) id ≡ false
    → take n (keep (not_id id) xs) ≡ take n xs
take-keep_absent id zero xs h = refl
take-keep_absent id (suc n) [] h = refl
take-keep_absent id (suc n) (x ∷ xs) h = ground (arith, take-keep_absent id n xs)

module _ (sha1 : Bytes → Bytes) (r s : Ring) (id : Bytes) (removed : remove_node r id ≡ ok s)
    (sorted : IsSorted r.virtual_nodes) where
  removed_nodes : s.virtual_nodes ≡ keep (not_node id) r.virtual_nodes
  unfolding remove_node
  removed_nodes = ground arith

  removed_factor : s.replication_factor ≡ r.replication_factor
  unfolding remove_node
  removed_factor = ground arith

  -- After a RemoveNode that succeeded on a ring in order, a key's owners are the first nodes of its
  -- old preference list without the removed node: the next nodes clockwise move up, and no other
  -- node's place changes.
  pub get_owners-remove_node :
      (key : Bytes)
      → get_owners sha1 s key
        ≡ some (
            take r.replication_factor
              (keep (not_id id) (preference (hash_string sha1 key) r.virtual_nodes)))
  get_owners-remove_node key =
      get_owners-eq-preference sha1 s key
        (rw removed_nodes (SortedFrom-keep (not_node id) 0 r.virtual_nodes sorted))
      ∙ rw (removed_nodes, removed_factor)
          (ap (λ l. some (take r.replication_factor l))
            (preference-keep id (hash_string sha1 key) r.virtual_nodes))

  -- After a RemoveNode that succeeded on a ring in order, a key that the removed node did not own
  -- keeps its owners, in their order.
  get_owners-remove_node_other :
      (key : Bytes) (owners : List Bytes)
      → get_owners sha1 r key ≡ some owners
      → contains owners id ≡ false
      → get_owners sha1 s key ≡ some owners
  get_owners-remove_node_other key owners e absent =
      let old = get_owners-eq-preference sha1 r key sorted in
      let same : owners
          ≡ take r.replication_factor (preference (hash_string sha1 key) r.virtual_nodes) =
        ground (arith, old) in
      get_owners-remove_node key
      ∙ ap some (take-keep_absent id r.replication_factor _ (rw (← same) absent) ∙ sym same)
