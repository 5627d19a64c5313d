-- ===== src/Ring/Owners.antt =====
-- What GetOwners returns: the first nodes of the preference list of a key, which are the physical
-- nodes in clockwise order from the key's hash, each once.
use allidb.Ring.{
  VirtualNode, Ring, is_seen, collect_owners, find_virtual_node, hash_string, get_owners,
}
use allidb.Ring.Order.{IsSorted}
use allidb.Ring.Clockwise.{
  clockwise, get_elem?-rotate, get_elem?_of_lt, rotate-eq-clockwise, find_virtual_node-lt,
}
use allidb.Base.{
  Bool, Bool-cases, Bytes, List, Map, [], any, ap, append-nil, append_assoc, arith, drop, false,
  get_elem?, inl, inr, insert, keep, length, length-append, lookup-insert, ltb, map, not, refl,
  some, str_eq, str_eq_iff, suc, sym, take, take-append-drop, true, zero, ℕ, ◌&&◌, ◌++◌, ◌+◌, ◌-◌,
  ◌<◌, ◌||◌, ◌∙◌, ◌∷◌, ◌≡◌,
}

abbrev pub contains : List Bytes → Bytes → Bool
contains ids k = any (λ x. str_eq x k) ids

-- The first occurrence of each string.
abbrev pub distinct : List Bytes → List Bytes
distinct [] = []
distinct (x ∷ xs) = x ∷ keep (λ y. not (str_eq x y)) (distinct xs)

abbrev pub preference : ℕ → List VirtualNode → List Bytes
preference key_hash vs = distinct (map (λ v. v.node_id) (clockwise key_hash vs))

-- The loop of GetOwners over the rotated list.
visit : ℕ → List VirtualNode → List Bytes → List Bytes
visit factor [] owners = owners
visit factor (v ∷ vs) owners = elim (ltb (length owners) factor) [
  | true ↦ elim (contains owners v.node_id) [
    | true ↦ visit factor vs owners
    | false ↦ visit factor vs (owners ++ v.node_id ∷ [])
  ]
  | false ↦ owners
]

module _ {ℓ} {A : Type ℓ} where
  drop_at :
      (xs : List A) (i : ℕ) (x : A) → get_elem? xs i ≡ some x → drop i xs ≡ x ∷ drop (i + 1) xs
  drop_at [] i x e = cc
  drop_at (y ∷ ys) zero x e = ground arith
  drop_at (y ∷ ys) (suc i) x e =
      let e' : suc i + 1 ≡ suc (i + 1) = omega arith in rw e' (drop_at ys i x e)

  drop_end : (n : ℕ) (xs : List A) → length xs ≡ n → drop n xs ≡ []
  drop_end zero [] h = refl
  drop_end zero (x ∷ xs) h = absurd (omega arith)
  drop_end (suc n) [] h = refl
  drop_end (suc n) (x ∷ xs) h = drop_end n xs (omega arith)

  pub keep-keep : (p q : A → Bool) (xs : List A) → keep p (keep q xs) ≡ keep (λ x. q x && p x) xs
  keep-keep p q [] = refl
  keep-keep p q (x ∷ xs) = ground (arith, keep-keep p q xs)

  pub keep_congr : (p q : A → Bool) (xs : List A) → ((x : A) → p x ≡ q x) → keep p xs ≡ keep q xs
  keep_congr p q [] h = refl
  keep_congr p q (x ∷ xs) h = ground (arith, h x, keep_congr p q xs h)

  pub any-append : (p : A → Bool) (xs ys : List A) → any p (xs ++ ys) ≡ any p xs || any p ys
  any-append p [] ys = refl
  any-append p (x ∷ xs) ys = ground (arith, any-append p xs ys)

  length-rotate : (n : ℕ) (xs : List A) → length (drop n xs ++ take n xs) ≡ length xs
  length-rotate n xs = omega (
    arith,
    length-append (drop n xs) (take n xs),
    length-append (take n xs) (drop n xs),
    ap length (take-append-drop n xs),
  )

  take_none : (n : ℕ) → take {A = A} n [] ≡ []
  take_none zero = refl
  take_none (suc n) = refl

is_seen-insert :
    (seen : Map Bool) (owners : List Bytes) (id : Bytes)
    → ((k : Bytes) → is_seen seen k ≡ contains owners k)
    → (k : Bytes) → is_seen (insert id true seen) k ≡ contains (owners ++ id ∷ []) k
unfolding is_seen
is_seen-insert seen owners id agree k =
    ground
      (arith, agree k, lookup-insert id k true seen, any-append (λ x. str_eq x k) owners (id ∷ []))

module _ (vns : List VirtualNode) (start factor : ℕ) (inside : start < length vns) where
  abbrev rotated : List VirtualNode
  rotated = drop start vns ++ take start vns

  collect-eq-visit :
      (rounds i : ℕ) (owners : List Bytes) (seen : Map Bool)
      → i + rounds ≡ length vns
      → ((k : Bytes) → is_seen seen k ≡ contains owners k)
      → collect_owners vns start factor rounds i owners seen
        ≡ some (visit factor (drop i rotated) owners)
  unfolding collect_owners visit
  collect-eq-visit zero i owners seen e agree =
      rw (drop_end i rotated (omega (arith, length-rotate start vns)))
  collect-eq-visit (suc rounds) i owners seen e agree =
      let (v, ev) = get_elem?_of_lt rotated i (omega (arith, length-rotate start vns)) in
      let at = get_elem?-rotate vns start i inside (omega arith) ∙ ev in
      rw (drop_at rotated i v ev) (
        ground (
          arith,
          at,
          agree v.node_id,
          collect-eq-visit rounds (i + 1) owners seen (omega arith) agree,
          collect-eq-visit rounds (i + 1) (owners ++ v.node_id ∷ []) (insert v.node_id true seen)
              (omega arith) (is_seen-insert seen owners v.node_id agree),
        ))

keep_seen :
    (owners : List Bytes) (x : Bytes) (rest : List Bytes)
    → contains owners x ≡ true
    → keep (λ y. not (contains owners y)) (keep (λ y. not (str_eq x y)) rest)
      ≡ keep (λ y. not (contains owners y)) rest
keep_seen owners x rest h =
    keep-keep (λ y. not (contains owners y)) (λ y. not (str_eq x y)) rest ∙ keep_congr _ _ rest same
  where
    same : (y : Bytes) → not (str_eq x y) && not (contains owners y) ≡ not (contains owners y)
    same y = elim (Bool-cases (str_eq x y)) [
      | inl e ↦ let e' = (str_eq_iff x y).0 e in rw (e, ← e', h)
      | inr e ↦ rw e
    ]

keep_new :
    (owners : List Bytes) (x : Bytes) (rest : List Bytes)
    → keep (λ y. not (contains owners y)) (keep (λ y. not (str_eq x y)) rest)
      ≡ keep (λ y. not (contains (owners ++ x ∷ []) y)) rest
keep_new owners x rest =
    keep-keep (λ y. not (contains owners y)) (λ y. not (str_eq x y)) rest
    ∙ keep_congr _ _ rest (λ y. ground (arith, any-append (λ z. str_eq z y) owners (x ∷ [])))

visit-eq-take :
    (factor : ℕ) (vs : List VirtualNode) (owners : List Bytes)
    → visit factor vs owners
      ≡ owners
        ++ take
            (factor - length owners)
            (keep (λ y. not (contains owners y)) (distinct (map (λ v. v.node_id) vs)))
unfolding visit
visit-eq-take factor [] owners = rw (take_none (factor - length owners)) (sym (append-nil owners))
visit-eq-take factor (v ∷ vs) owners = elim (Bool-cases (ltb (length owners) factor)) [
  | inr full ↦
      let none_left : factor - length owners ≡ 0 = ground arith in
      rw (full, none_left, visit) (sym (append-nil owners))
  | inl room ↦ elim (Bool-cases (contains owners v.node_id)) [
    | inl old ↦
        rw (room, old, visit)
          (visit-eq-take factor vs owners
            ∙ ap (λ r. owners ++ take (factor - length owners) r)
                (sym (keep_seen owners v.node_id (distinct (map (λ w. w.node_id) vs)) old)))
    | inr new ↦
        let one_less : factor - length owners ≡ suc (factor - length (owners ++ v.node_id ∷ [])) =
          ground (arith, length-append owners (v.node_id ∷ [])) in
        rw (room, new, one_less, visit)
          (visit-eq-take factor vs (owners ++ v.node_id ∷ [])
            ∙ append_assoc owners (v.node_id ∷ []) _
            ∙ ap (λ r. owners ++ v.node_id ∷ take (factor - length (owners ++ v.node_id ∷ [])) r)
                (sym (keep_new owners v.node_id (distinct (map (λ w. w.node_id) vs)))))
  ]
]

keep-true : (xs : List Bytes) → keep (λ y. not (contains [] y)) xs ≡ xs
keep-true [] = refl
keep-true (x ∷ xs) = ap (◌∷◌ x) (keep-true xs)

collect-eq-preference :
    (factor key_hash : ℕ) (vs : List VirtualNode)
    → IsSorted vs
    → 0 < length vs
    → collect_owners vs (find_virtual_node vs key_hash) factor (length vs) 0 [] []
      ≡ some (take factor (preference key_hash vs))
unfolding is_seen
collect-eq-preference factor key_hash vs s h =
    collect-eq-visit vs (find_virtual_node vs key_hash) factor (find_virtual_node-lt key_hash vs h)
      (length vs) 0 [] [] (omega arith) (λ k. refl)
    ∙ ap some
        (visit-eq-take factor _ [] ∙ rw (keep-true _, rotate-eq-clockwise key_hash vs s, no_owners))
  where
    no_owners : factor - length {A = Bytes} [] ≡ factor
    no_owners = omega arith

module _ (sha1 : Bytes → Bytes) where
  -- On a ring in order, GetOwners returns the first nodes of the key's preference list, as many as
  -- the replication factor, and does not panic.
  pub get_owners-eq-preference :
      (r : Ring) (key : Bytes)
      → IsSorted r.virtual_nodes
      → get_owners sha1 r key
        ≡ some (take r.replication_factor (preference (hash_string sha1 key) r.virtual_nodes))
  unfolding get_owners
  get_owners-eq-preference r key s = cases r.virtual_nodes s
    where
      cases :
          (vs : List VirtualNode)
          → IsSorted vs
          → get_owners sha1 (record r { virtual_nodes = vs }) key
            ≡ some (take r.replication_factor (preference (hash_string sha1 key) vs))
      cases [] s = rw (take_none r.replication_factor)
      cases (v ∷ vs) s =
          collect-eq-preference r.replication_factor (hash_string sha1 key) (v ∷ vs) s (omega arith)
