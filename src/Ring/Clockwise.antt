-- ===== src/Ring/Clockwise.antt =====
-- The ring read clockwise from a key: the virtual nodes at or after the key's hash, then those
-- before it. The search and the modular index of GetOwners walk exactly this list.
use native.Mathlib.Nat.{mod-eq_of_lt, add-mod_right}
use allidb.Ring.{VirtualNode, hash_from, find_virtual_node}
use allidb.Ring.Order.{IsSorted, SortedFrom-le}
use allidb.Base.{
  All, Bool, Bool-cases, List, Monotone, [], ap, append-nil, arith, drop, false, get_elem?,
  if◌then◌else◌, inl, inr, keep, leb, length, length-drop, ltb, not, refl, search, search-IsFirst,
  some, suc, take, true, zero, ℕ, ◌%◌, ◌++◌, ◌+◌, ◌-◌, ◌<◌, ◌∷◌, ◌≡◌, ◌≤◌,
}

abbrev pub at_or_after : ℕ → VirtualNode → Bool
at_or_after key_hash v = leb key_hash v.hash

abbrev pub clockwise : ℕ → List VirtualNode → List VirtualNode
clockwise key_hash vs =
    keep (at_or_after key_hash) vs ++ keep (λ v. not (at_or_after key_hash v)) vs

mod_below : (a b : ℕ) → a < b → a % b ≡ a
mod_below a b h = mod-eq_of_lt h

mod_wrap : (r i n d : ℕ) → d ≡ n - r → r < n → i < n → d ≤ i → (r + i) % n ≡ i - d
mod_wrap r i n d e hr hi le =
    let back : r + i ≡ (i - d) + n = omega arith in
    rw (back, add-mod_right) (mod_below (i - d) n (omega arith))

module _ {ℓ} {A : Type ℓ} where
  keep_everything : (p : A → Bool) (xs : List A) → All (λ x. p x ≡ true) xs → keep p xs ≡ xs
  keep_everything p [] a = refl
  keep_everything p (x ∷ xs) a = rw (a.0) (ap (◌∷◌ x) (keep_everything p xs a.1))

  keep_none : (p : A → Bool) (xs : List A) → All (λ x. p x ≡ false) xs → keep p xs ≡ []
  keep_none p [] a = refl
  keep_none p (x ∷ xs) a = rw (a.0) (keep_none p xs a.1)

  -- A test that fails on the first r elements and passes on the rest cuts the list there.
  keep_split :
      (p : A → Bool) (r : ℕ) (xs : List A)
      → All (λ x. p x ≡ false) (take r xs)
      → All (λ x. p x ≡ true) (drop r xs)
      → (keep p xs ≡ drop r xs) × (keep (λ x. not (p x)) xs ≡ take r xs)
  keep_split p zero xs lo hi = (keep_everything p xs hi, none_left xs hi)
    where
      none_left : (ys : List A) → All (λ x. p x ≡ true) ys → keep (λ x. not (p x)) ys ≡ []
      none_left [] a = refl
      none_left (y ∷ ys) a = rw (a.0) (none_left ys a.1)
  keep_split p (suc r) [] lo hi = (refl, refl)
  keep_split p (suc r) (x ∷ xs) lo hi =
      let rest = keep_split p r xs lo.1 hi in rw (lo.0) (rest.0, ap (◌∷◌ x) rest.1)

  -- An indexed test as a test on each element.
  All-take_of :
      (p : A → Bool) (b : Bool) (r : ℕ) (xs : List A)
      → ((i : ℕ) → i < r → (x : A) → get_elem? xs i ≡ some x → p x ≡ b)
      → All (λ x. p x ≡ b) (take r xs)
  All-take_of p b zero xs h = tt
  All-take_of p b (suc r) [] h = tt
  All-take_of p b (suc r) (x ∷ xs) h =
      (h 0 (omega arith) x refl, All-take_of p b r xs (λ i k. h (suc i) (omega arith)))

  All-drop_of :
      (p : A → Bool) (b : Bool) (r : ℕ) (xs : List A)
      → ((i : ℕ) → r ≤ i → (x : A) → get_elem? xs i ≡ some x → p x ≡ b)
      → All (λ x. p x ≡ b) (drop r xs)
  All-drop_of p b zero [] h = tt
  All-drop_of p b zero (x ∷ xs) h =
      (h 0 (omega arith) x refl, All-drop_of p b zero xs (λ i k. h (suc i) (omega arith)))
  All-drop_of p b (suc r) [] h = tt
  All-drop_of p b (suc r) (x ∷ xs) h = All-drop_of p b r xs (λ i k. h (suc i) (omega arith))

  get_elem?-lt : (xs : List A) (i : ℕ) (x : A) → get_elem? xs i ≡ some x → i < length xs
  get_elem?-lt [] i x e = cc
  get_elem?-lt (y ∷ ys) zero x e = omega arith
  get_elem?-lt (y ∷ ys) (suc i) x e = omega (arith, get_elem?-lt ys i x e)

  pub get_elem?_of_lt : (xs : List A) (i : ℕ) → i < length xs → (x : A) × (get_elem? xs i ≡ some x)
  get_elem?_of_lt [] i h = elim h [ ]
  get_elem?_of_lt (y ∷ ys) zero h = (y, refl)
  get_elem?_of_lt (y ∷ ys) (suc i) h = get_elem?_of_lt ys i (omega arith)

  pub get_elem?-append :
      (xs ys : List A) (i : ℕ)
      → get_elem? (xs ++ ys) i
        ≡ (if ltb i (length xs) then get_elem? xs i else get_elem? ys (i - length xs))
  get_elem?-append [] ys i = ground (arith, ap (get_elem? ys) (minus_zero i))
    where
      minus_zero : (n : ℕ) → n ≡ n - 0
      minus_zero n = omega arith
  get_elem?-append (x ∷ xs) ys zero = ground arith
  get_elem?-append (x ∷ xs) ys (suc i) =
      rw (get_elem?-append xs ys i) (ground (arith, ap (get_elem? ys) (minus_suc i (length xs))))
    where
      minus_suc : (n m : ℕ) → n - m ≡ suc n - suc m
      minus_suc n m = omega arith

  get_elem?-take : (n i : ℕ) (xs : List A) → i < n → get_elem? (take n xs) i ≡ get_elem? xs i
  get_elem?-take zero i xs h = elim h [ ]
  get_elem?-take (suc n) i [] h = refl
  get_elem?-take (suc n) zero (x ∷ xs) h = refl
  get_elem?-take (suc n) (suc i) (x ∷ xs) h = get_elem?-take n i xs (omega arith)

  get_elem?-drop : (n i : ℕ) (xs : List A) → get_elem? (drop n xs) i ≡ get_elem? xs (n + i)
  get_elem?-drop zero i xs = ap (get_elem? xs) (omega arith)
  get_elem?-drop (suc n) i [] = refl
  get_elem?-drop (suc n) i (x ∷ xs) =
      let e : suc n + i ≡ suc (n + i) = omega arith in rw e (get_elem?-drop n i xs)

  -- The modular index reads the rotated list.
  pub get_elem?-rotate :
      (xs : List A) (r i : ℕ)
      → r < length xs
      → i < length xs
      → get_elem? xs ((r + i) % length xs) ≡ get_elem? (drop r xs ++ take r xs) i
  get_elem?-rotate xs r i hr hi =
      rw (get_elem?-append (drop r xs) (take r xs) i)
        (elim (Bool-cases (ltb i (length (drop r xs)))) [
          | inl lo ↦
              rw (lo, get_elem?-drop r i xs)
                (ap (get_elem? xs)
                  (mod_below (r + i) (length xs) (ground (arith, length-drop r xs))))
          | inr hi' ↦
              rw
                (
                  hi',
                  get_elem?-take r (i - length (drop r xs)) xs (ground (arith, length-drop r xs)),
                )
                (ap (get_elem? xs) (
                  mod_wrap r i (length xs) (length (drop r xs)) (length-drop r xs) hr hi
                    (ground arith)))
        ])

module _ {ℓ} {A : Type ℓ} where
  drop_past : (n : ℕ) (xs : List A) → length xs ≤ n → drop n xs ≡ []
  drop_past zero [] h = refl
  drop_past zero (x ∷ xs) h = elim h [ ]
  drop_past (suc n) [] h = refl
  drop_past (suc n) (x ∷ xs) h = drop_past n xs (omega arith)

  take_past : (n : ℕ) (xs : List A) → length xs ≤ n → take n xs ≡ xs
  take_past zero [] h = refl
  take_past zero (x ∷ xs) h = elim h [ ]
  take_past (suc n) [] h = refl
  take_past (suc n) (x ∷ xs) h = ap (◌∷◌ x) (take_past n xs (omega arith))

hash_from-Monotone :
    (key_hash : ℕ) (vs : List VirtualNode)
    → IsSorted vs
    → Monotone (length vs) (hash_from vs key_hash)
unfolding hash_from
hash_from-Monotone key_hash vs s x y h k t =
    let (w, ew) = get_elem?_of_lt vs y k in
    let (v, ev) = get_elem?_of_lt vs x (omega arith) in
    ground (arith, SortedFrom-le 0 vs x y v w s h ev ew)

hash_from-eq :
    (key_hash : ℕ) (vs : List VirtualNode) (i : ℕ) (v : VirtualNode) (b : Bool)
    → get_elem? vs i ≡ some v
    → hash_from vs key_hash i ≡ b
    → at_or_after key_hash v ≡ b
unfolding hash_from
hash_from-eq key_hash vs i v b e h = ground arith

module _ (key_hash : ℕ) (vs : List VirtualNode) (s : IsSorted vs) where
  -- The bisection cuts the sorted list at the key's hash.
  search_split :
      let r = search (length vs) (hash_from vs key_hash) in
      (keep (at_or_after key_hash) vs ≡ drop r vs)
      × (keep (λ v. not (at_or_after key_hash v)) vs ≡ take r vs)
  search_split =
      let r = search (length vs) (hash_from vs key_hash) in
      let first =
        search-IsFirst (length vs) (hash_from vs key_hash) (hash_from-Monotone key_hash vs s) in
      keep_split (at_or_after key_hash) r vs
        (All-take_of (at_or_after key_hash) false r vs
          (λ i h v e. hash_from-eq key_hash vs i v false e (first.before i h)))
        (All-drop_of (at_or_after key_hash) true r vs
          (λ i h v e. hash_from-eq key_hash vs i v true e (first.from i h (get_elem?-lt vs i v e))))

  -- Rotated to the index that findVirtualNode returns, the list is in clockwise order.
  pub rotate-eq-clockwise :
      let r = find_virtual_node vs key_hash in drop r vs ++ take r vs ≡ clockwise key_hash vs
  unfolding find_virtual_node
  rotate-eq-clockwise = elim (Bool-cases (leb (length vs) r)) [
    | inl past ↦
        rw (past, search_split.0, search_split.1)
          (rw (drop_past r vs (ground arith), take_past r vs (ground arith)) (append-nil vs))
    | inr inside ↦ rw (inside, search_split.0, search_split.1)
  ]
    where
      r : ℕ
      r = search (length vs) (hash_from vs key_hash)

pub find_virtual_node-lt :
    (key_hash : ℕ) (vs : List VirtualNode)
    → 0 < length vs
    → find_virtual_node vs key_hash < length vs
unfolding find_virtual_node
find_virtual_node-lt key_hash vs h = ground arith
