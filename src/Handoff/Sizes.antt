-- ===== src/Handoff/Sizes.antt =====
-- The sizes of the hints in a map, and how an update changes their sum.
use allidb.Handoff.{
  Hint, hint_size, hints_of, put_back, without_key, subtract_sizes, is_expired, Config,
  without_expired,
}
use allidb.Base.{
  Bool, Bool-cases, Bytes, DistinctKeys, List, Map, [], arith, count, delete, false, has_key, inl,
  inr, insert, keep, lookup, not, refl, str_eq, str_eq_iff, sum_of, ℕ, ◌+◌, ◌-◌, ◌∷◌, ◌≡◌, ◌≤◌, ◌⊎◌,
}

pub hints_cases : (hs : List Hint) → (hs ≡ []) ⊎ ((h : Hint) × (more : List Hint) × (hs ≡ h ∷ more))
hints_cases [] = inl refl
hints_cases (h ∷ hs) = inr (h, hs, refl)

abbrev pub sizes : List Hint → ℕ
sizes hs = sum_of hint_size hs

abbrev pub all_sizes : Map (List Hint) → ℕ
all_sizes m = sum_of (λ e. sizes e.1) m

pub all_sizes-insert :
    (id : Bytes) (hs : List Hint) (m : Map (List Hint))
    → DistinctKeys m
    → all_sizes (insert id hs m) + sizes (hints_of m id) ≡ all_sizes m + sizes hs
unfolding insert hints_of lookup
all_sizes-insert id hs [] d = omega arith
all_sizes-insert id hs ((j, ks) ∷ m) d =
    ground (arith, all_sizes-insert id hs m d.1, str_eq_iff j id, str_eq_iff id j)

all_sizes-delete_absent :
    (id : Bytes) (m : Map (List Hint))
    → has_key id m ≡ false
    → all_sizes (delete id m) ≡ all_sizes m
unfolding delete has_key
all_sizes-delete_absent id [] h = refl
all_sizes-delete_absent id ((j, ks) ∷ m) h =
    ground (arith, all_sizes-delete_absent id m, str_eq_iff j id, str_eq_iff id j)

pub all_sizes-delete :
    (id : Bytes) (m : Map (List Hint))
    → DistinctKeys m
    → all_sizes (delete id m) + sizes (hints_of m id) ≡ all_sizes m
unfolding delete hints_of lookup
all_sizes-delete id [] d = refl
all_sizes-delete id ((j, ks) ∷ m) d = elim (Bool-cases (str_eq j id)) [
  | inl e ↦ ground (arith, e, all_sizes-delete_absent j m d.0, str_eq_iff j id, str_eq_iff id j)
  | inr e ↦ ground (arith, e, all_sizes-delete id m d.1, str_eq_iff j id, str_eq_iff id j)
]

pub all_sizes-put_back :
    (id : Bytes) (hs : List Hint) (m : Map (List Hint))
    → DistinctKeys m
    → all_sizes (put_back id hs m) + sizes (hints_of m id) ≡ all_sizes m + sizes hs
unfolding put_back
all_sizes-put_back id [] m d = ground (arith, all_sizes-delete id m d)
all_sizes-put_back id (h ∷ hs) m d = all_sizes-insert id (h ∷ hs) m d

pub hints_of-le : (id : Bytes) (m : Map (List Hint)) → sizes (hints_of m id) ≤ all_sizes m
unfolding hints_of lookup
hints_of-le id [] = omega arith
hints_of-le id ((j, ks) ∷ m) = ground (arith, hints_of-le id m)

pub subtract_sizes-eq : (hs : List Hint) (total : ℕ) → subtract_sizes hs total ≡ total - sizes hs
unfolding subtract_sizes
subtract_sizes-eq [] total = ground arith
subtract_sizes-eq (h ∷ hs) total = ground (arith, subtract_sizes-eq hs (total - hint_size h))

abbrev pub other_key : Bytes → Hint → Bool
other_key key h = not (str_eq h.key key)

pub without_key-eq :
    (key : Bytes) (hs : List Hint) (total : ℕ)
    → sizes hs ≤ total
    → ((without_key key hs total).0 ≡ keep (other_key key) hs)
      × ((without_key key hs total).1 + sizes hs ≡ total + sizes (keep (other_key key) hs))
unfolding without_key
without_key-eq key [] total h = (refl, ground arith)
without_key-eq key (k ∷ hs) total h = elim (Bool-cases (str_eq k.key key)) [
  | inl e ↦ ground (arith, e, without_key-eq key hs (total - hint_size k))
  | inr e ↦ ground (arith, e, without_key-eq key hs total)
]

abbrev pub lives : Config → ℕ → Hint → Bool
lives config now h = not (is_expired config now h)

pub without_expired-eq :
    (config : Config) (now : ℕ) (hs : List Hint) (total expired : ℕ)
    → sizes hs ≤ total
    → ((without_expired config now hs total expired).0 ≡ keep (lives config now) hs)
      × ((without_expired config now hs total expired).1 + sizes hs
          ≡ total + sizes (keep (lives config now) hs))
      × ((without_expired config now hs total expired).2
          ≡ expired + count (is_expired config now) hs)
unfolding without_expired
without_expired-eq config now [] total expired h = (refl, ground arith, ground arith)
without_expired-eq config now (k ∷ hs) total expired h =
    elim (Bool-cases (is_expired config now k)) [
      | inl e ↦
          ground (arith, e, without_expired-eq config now hs (total - hint_size k) (expired + 1))
      | inr e ↦ ground (arith, e, without_expired-eq config now hs total expired)
    ]
