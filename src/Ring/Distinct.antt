-- ===== src/Ring/Distinct.antt =====
-- The owners of a key are different nodes of the ring, as many as there can be.
use allidb.Ring.{VirtualNode, Ring, hash_string, get_owners, has_node, get_node_count}
use allidb.Ring.Clockwise.{clockwise, at_or_after}
use allidb.Ring.Owners.{contains, distinct, preference, get_owners-eq-preference}
use allidb.Ring.Invariant.{IsRing, of_node}
use allidb.Base.{
  All, Bool, Bool-cases, Bytes, DistinctKeys, List, Map, [], arith, count, count-append, false,
  has_key, inl, inr, keep, length, length-map, length-take, ltb, map, min, not, refl, some, str_eq,
  str_eq_iff, str_eq_refl, suc, sym, take, true, zero, ℕ, ◌&&◌, ◌+◌, ◌<◌, ◌∙◌, ◌∷◌, ◌≡◌,
}

-- No string occurs twice.
abbrev pub IsDistinct : List Bytes → Type 0
IsDistinct [] = Unit {0}
IsDistinct (x ∷ xs) = (contains xs x ≡ false) × IsDistinct xs

contains-keep :
    (q : Bytes → Bool) (k : Bytes) (xs : List Bytes) → contains (keep q xs) k ≡ q k && contains xs k
contains-keep q k [] = ground arith
contains-keep q k (x ∷ xs) = ground (arith, contains-keep q k xs, str_eq_iff x k)

IsDistinct-keep : (q : Bytes → Bool) (xs : List Bytes) → IsDistinct xs → IsDistinct (keep q xs)
IsDistinct-keep q [] d = tt
IsDistinct-keep q (x ∷ xs) d = ground (arith, contains-keep q x xs, IsDistinct-keep q xs d.1)

distinct-IsDistinct : (xs : List Bytes) → IsDistinct (distinct xs)
distinct-IsDistinct [] = tt
distinct-IsDistinct (x ∷ xs) = (
  contains-keep (λ y. not (str_eq x y)) x (distinct xs) ∙ rw (str_eq_refl x),
  IsDistinct-keep (λ y. not (str_eq x y)) (distinct xs) (distinct-IsDistinct xs),
)

contains-distinct : (k : Bytes) (xs : List Bytes) → contains (distinct xs) k ≡ contains xs k
contains-distinct k [] = refl
contains-distinct k (x ∷ xs) =
    ground (arith, contains-keep (λ y. not (str_eq x y)) k (distinct xs), contains-distinct k xs)

length-remove :
    (x : Bytes) (ys : List Bytes)
    → IsDistinct ys
    → contains ys x ≡ true
    → length (keep (λ y. not (str_eq x y)) ys) + 1 ≡ length ys
length-remove x [] d h = cc
length-remove x (y ∷ ys) d h = elim (Bool-cases (str_eq x y)) [
  | inl e ↦ let e' = (str_eq_iff x y).0 e in rw e (ground (arith, absent_kept ys (rw e' d.0)))
  | inr e ↦ rw e (ground (arith, length-remove x ys d.1, str_eq_iff x y, str_eq_iff y x))
]
  where
    absent_kept :
        (zs : List Bytes)
        → contains zs x ≡ false
        → length (keep (λ z. not (str_eq x z)) zs) ≡ length zs
    absent_kept [] h' = refl
    absent_kept (z ∷ zs) h' = ground (arith, absent_kept zs, str_eq_iff x z, str_eq_iff z x)

-- Two lists without repetition that hold the same strings are of one length.
length_of_same :
    (xs ys : List Bytes)
    → IsDistinct xs
    → IsDistinct ys
    → ((k : Bytes) → contains xs k ≡ contains ys k)
    → length xs ≡ length ys
length_of_same [] [] d e h = refl
length_of_same [] (y ∷ ys) d e h = ground (arith, h y, str_eq_refl y)
length_of_same (x ∷ xs) ys d e h = omega (
  arith,
  length-remove x ys e (sym (h x) ∙ rw (str_eq_refl x)),
  length_of_same xs (keep (λ y. not (str_eq x y)) ys) d.1
      (IsDistinct-keep (λ y. not (str_eq x y)) ys e) rest,
)
  where
    rest : (k : Bytes) → contains xs k ≡ contains (keep (λ y. not (str_eq x y)) ys) k
    rest k = ground (arith, contains-keep (λ y. not (str_eq x y)) k ys, h k, d.0, str_eq_iff x k)

contains_ids :
    (k : Bytes) (vs : List VirtualNode)
    → contains (map (λ v. v.node_id) vs) k ≡ ltb 0 (count (of_node k) vs)
contains_ids k [] = refl
contains_ids k (v ∷ vs) = ground (arith, contains_ids k vs)

count-clockwise :
    (p : VirtualNode → Bool) (h : ℕ) (vs : List VirtualNode) → count p (clockwise h vs) ≡ count p vs
count-clockwise p h vs =
    count-append p (keep (at_or_after h) vs) (keep (λ v. not (at_or_after h v)) vs) ∙ both vs
  where
    both :
        (ws : List VirtualNode)
        → count p (keep (at_or_after h) ws) + count p (keep (λ v. not (at_or_after h v)) ws)
          ≡ count p ws
    both [] = refl
    both (w ∷ ws) = ground (arith, both ws)

contains_keys : (k : Bytes) (m : Map ℕ) → contains (map (λ n. n.0) m) k ≡ has_key k m
unfolding has_key
contains_keys k [] = refl
contains_keys k ((j, n) ∷ m) = ground (arith, contains_keys k m)

keys-IsDistinct : (m : Map ℕ) → DistinctKeys m → IsDistinct (map (λ n. n.0) m)
keys-IsDistinct [] d = tt
keys-IsDistinct ((j, n) ∷ m) d = (contains_keys j m ∙ d.0, keys-IsDistinct m d.1)

module _ (r : Ring) (w : IsRing r) (some_virtual : 0 < r.virtual_nodes_per_node) (h : ℕ) where
  contains-preference : (k : Bytes) → contains (preference h r.virtual_nodes) k ≡ has_key k r.nodes
  contains-preference k =
      contains-distinct k (map (λ v. v.node_id) (clockwise h r.virtual_nodes))
      ∙ contains_ids k (clockwise h r.virtual_nodes)
      ∙ ground (arith, count-clockwise (of_node k) h r.virtual_nodes, w.placed k)

  length-preference : length (preference h r.virtual_nodes) ≡ length r.nodes
  length-preference =
      length_of_same (preference h r.virtual_nodes) (map (λ n. n.0) r.nodes)
        (distinct-IsDistinct (map (λ v. v.node_id) (clockwise h r.virtual_nodes)))
        (keys-IsDistinct r.nodes w.keys)
        (λ k. contains-preference k ∙ sym (contains_keys k r.nodes))
      ∙ length-map (λ n. n.0) r.nodes

contains-take :
    (n : ℕ) (xs : List Bytes) (k : Bytes) → contains xs k ≡ false → contains (take n xs) k ≡ false
contains-take zero xs k h = refl
contains-take (suc n) [] k h = refl
contains-take (suc n) (x ∷ xs) k h = ground (arith, contains-take n xs k)

IsDistinct-take : (n : ℕ) (xs : List Bytes) → IsDistinct xs → IsDistinct (take n xs)
IsDistinct-take zero xs d = tt
IsDistinct-take (suc n) [] d = tt
IsDistinct-take (suc n) (x ∷ xs) d = (contains-take n xs x d.0, IsDistinct-take n xs d.1)

All-members :
    (P : Bytes → Bool) (xs : List Bytes)
    → ((k : Bytes) → contains xs k ≡ true → P k ≡ true)
    → All (λ k. P k ≡ true) xs
All-members P [] h = tt
All-members P (x ∷ xs) h = (h x (rw (str_eq_refl x)), All-members P xs (λ k e. h k (ground arith)))

All-take :
    (P : Bytes → Bool) (n : ℕ) (xs : List Bytes)
    → All (λ k. P k ≡ true) xs
    → All (λ k. P k ≡ true) (take n xs)
All-take P zero xs a = tt
All-take P (suc n) [] a = tt
All-take P (suc n) (x ∷ xs) a = (a.0, All-take P n xs a.1)

-- On a well-formed ring whose nodes have virtual nodes, GetOwners returns different nodes of the
-- ring, the lesser of the replication factor and the number of nodes.
pub get_owners-IsDistinct :
    (sha1 : Bytes → Bytes) (r : Ring) (key : Bytes)
    → IsRing r
    → 0 < r.virtual_nodes_per_node
    → (owners : List Bytes) × (get_owners sha1 r key ≡ some owners)
      × IsDistinct owners
      × All (λ id. has_node r id ≡ true) owners
      × (length owners ≡ min r.replication_factor (get_node_count r))
unfolding has_node get_node_count
get_owners-IsDistinct sha1 r key w some_virtual =
    let h = hash_string sha1 key in
    let all = preference h r.virtual_nodes in
    (
      take r.replication_factor all,
      get_owners-eq-preference sha1 r key w.sorted,
      IsDistinct-take r.replication_factor all (distinct-IsDistinct _),
      All-take (λ id. has_key id r.nodes) r.replication_factor all
          (All-members (λ id. has_key id r.nodes) all
            (λ k e. sym (contains-preference r w some_virtual h k) ∙ e)),
      omega (arith, length-take r.replication_factor all, length-preference r w some_virtual h),
    )
