-- ===== src/Coordinator/Values.antt =====
-- The value that a read makes of the responses.
use allidb.Coordinator.{Response, count_values, most_frequent, merge_read_responses}
use allidb.Base.{
  ==_iff, Bool, Bool-cases, Bytes, DistinctKeys, DistinctKeys-insert, List, Map, Option,
  Option-cases, [], any, arith, count, false, inl, inr, insert, leb, lookup, lookup-insert,
  lookup-absent, none, not, refl, some, str_eq, str_eq_iff, str_eq_refl, true, ℕ, ◌&&◌, ◌+◌, ◌<◌,
  ◌==◌, ◌∙◌, ◌∷◌, ◌≡◌,
}

-- How many successful responses bring a value.
abbrev pub brings : {E : Type 0} → Bytes → Response E → Bool
brings v r = r.success && (elim r.value as (λ _. Bool) [ none ↦ false | some w ↦ str_eq w v ])

abbrev pub votes : {E : Type 0} → Bytes → List (Response E) → ℕ
votes v rs = count (brings v) rs

or_zero : Option ℕ → ℕ
or_zero none = 0
or_zero (some n) = n

module _ {E : Type 0} where
  count_values-lookup :
      (v : Bytes) (rs : List (Response E)) (m : Map ℕ)
      → or_zero (lookup v (count_values rs m)) ≡ or_zero (lookup v m) + votes v rs
  unfolding count_values or_zero
  count_values-lookup v [] m = ground arith
  count_values-lookup v (r ∷ rs) m = elim (Bool-cases r.success) [
    | inr e ↦ ground (arith, e, count_values-lookup v rs m)
    | inl e ↦ elim (Option-cases r.value) [
      | inl none_e ↦ ground (arith, e, none_e, count_values-lookup v rs m)
      | inr (w, some_e) ↦
          let n = (elim (lookup w m) as (λ _. ℕ) [ none ↦ 1 | some n ↦ n + 1 ]) in
          rw (e, some_e)
            (ground (
              arith,
              count_values-lookup v rs (insert w n m),
              lookup-insert w v n m,
              str_eq_iff w v,
            ))
    ]
  ]

  count_values-DistinctKeys :
      (rs : List (Response E)) (m : Map ℕ) → DistinctKeys m → DistinctKeys (count_values rs m)
  unfolding count_values
  count_values-DistinctKeys [] m d = d
  count_values-DistinctKeys (r ∷ rs) m d = elim (Bool-cases r.success) [
    | inr e ↦ rw e (count_values-DistinctKeys rs m d)
    | inl e ↦ elim (Option-cases r.value) [
      | inl none_e ↦ rw (e, none_e) (count_values-DistinctKeys rs m d)
      | inr (w, some_e) ↦
          rw (e, some_e) (count_values-DistinctKeys rs (insert w _ m) (DistinctKeys-insert w _ m d))
    ]
  ]

-- An entry that is at least as frequent as n of v, and is another one.
abbrev rival : Bytes → ℕ → Bytes × ℕ → Bool
rival v n e = leb n e.1 && not (str_eq e.0 v && e.1 == n)

abbrev is_entry : Bytes → ℕ → Bytes × ℕ → Bool
is_entry v n e = str_eq e.0 v && e.1 == n

most_frequent_kept :
    (v : Bytes) (n : ℕ) (es : List (Bytes × ℕ))
    → any (rival v n) es ≡ false
    → most_frequent es n (some v) ≡ some v
unfolding most_frequent
most_frequent_kept v n [] h = refl
most_frequent_kept v n ((w, k) ∷ es) h = ground (arith, most_frequent_kept v n es)

most_frequent_found :
    (v : Bytes) (n max_count : ℕ) (es : List (Bytes × ℕ)) (result : Option Bytes)
    → max_count < n
    → any (rival v n) es ≡ false
    → any (is_entry v n) es ≡ true
    → most_frequent es max_count result ≡ some v
unfolding most_frequent
most_frequent_found v n max_count [] result lt h k = cc
most_frequent_found v n max_count ((w, j) ∷ es) result lt h k = ground (
  arith,
  most_frequent_kept v n es,
  most_frequent_found v n max_count es result,
  most_frequent_found v n j es (some w),
  str_eq_iff w v,
)

-- In a map with distinct keys, an entry that passes a test is found by its key.
entry_at :
    (test : Bytes × ℕ → Bool) (m : Map ℕ)
    → DistinctKeys m
    → any test m ≡ true
    → (k : Bytes) × (n : ℕ) × (lookup k m ≡ some n) × (test (k, n) ≡ true)
unfolding lookup
entry_at test [] d h = cc
entry_at test ((j, v) ∷ m) d h = elim (Bool-cases (test (j, v))) [
  | inl e ↦ (j, v, ground (arith, str_eq_refl j), e)
  | inr e ↦
      let (k, n, at, passed) = entry_at test m d.1 (ground (arith, e)) in
      (k, n, ground (arith, at, lookup-absent j m, str_eq_iff j k), passed)
]

entry_in : (v : Bytes) (n : ℕ) (m : Map ℕ) → lookup v m ≡ some n → any (is_entry v n) m ≡ true
unfolding lookup
entry_in v n [] h = cc
entry_in v n ((j, k) ∷ m) h = ground (arith, entry_in v n m, ==_iff k n)

-- Reading a map in some order leaves out no entry and makes none up.
abbrev pub IsOrder : (List (Bytes × ℕ) → List (Bytes × ℕ)) → Type 0
IsOrder order = (test : Bytes × ℕ → Bool) (m : List (Bytes × ℕ)) → any test (order m) ≡ any test m

-- Every other value has fewer votes than v.
abbrev pub Leads : {E : Type 0} → Bytes → List (Response E) → Type 0
Leads v rs = (w : Bytes) → str_eq w v ≡ false → votes w rs < votes v rs

module _ {E : Type 0} where
  counted :
      (v : Bytes) (n : ℕ) (rs : List (Response E))
      → lookup v (count_values rs []) ≡ some n
      → n ≡ votes v rs
  unfolding or_zero lookup
  counted v n rs e = ground (arith, e, count_values-lookup v rs [])

  no_rival :
      (v : Bytes) (rs : List (Response E))
      → Leads v rs
      → any (rival v (votes v rs)) (count_values rs []) ≡ false
  no_rival v rs leads = elim (Bool-cases (any (rival v (votes v rs)) (count_values rs []))) [
    | inr e ↦ e
    | inl e ↦
        let d = count_values-DistinctKeys rs [] tt in
        let (k, n, at, passed) = entry_at (rival v (votes v rs)) (count_values rs []) d e in
        let c = counted k n rs at in
        absurd
          (ground (arith, passed, c, leads k, str_eq_iff k v, ==_iff (votes v rs) (votes v rs)))
  ]

  leader_counted :
      (v : Bytes) (rs : List (Response E))
      → 0 < votes v rs
      → any (is_entry v (votes v rs)) (count_values rs []) ≡ true
  unfolding or_zero lookup
  leader_counted v rs h = elim (Option-cases (lookup v (count_values rs []))) [
    | inl e ↦ absurd (ground (arith, count_values-lookup v rs [], e))
    | inr (n, e) ↦ rw (← counted v n rs e) (entry_in v n (count_values rs []) e)
  ]

  -- A value that has more votes among the successful responses than every other value is what a
  -- read returns, in whatever order the counts are read.
  pub merge_read_responses-leader :
      (order : List (Bytes × ℕ) → List (Bytes × ℕ)) (v : Bytes) (rs : List (Response E))
      → IsOrder order
      → 0 < votes v rs
      → Leads v rs
      → merge_read_responses order rs ≡ some v
  unfolding merge_read_responses
  merge_read_responses-leader order v [] o h leads = absurd (omega arith)
  merge_read_responses-leader order v (r ∷ rs) o h leads =
      let n = votes v (r ∷ rs) in
      let m = count_values (r ∷ rs) [] in
      rw
        (most_frequent_found v n 0 (order m) none h (o (rival v n) m ∙ no_rival v (r ∷ rs) leads)
          (o (is_entry v n) m ∙ leader_counted v (r ∷ rs) h))
        refl
