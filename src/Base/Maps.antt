-- ===== src/Base/Maps.antt =====
-- Go maps with string keys, as association lists. Go leaves the order of an iteration open; here
-- it is the list's order, and what is proved holds for every list.
use mathlib.Core.Path.{◌≡◌, refl}
use mathlib.Core.Bool.{Bool, false, ◌||◌}
use mathlib.Core.List.{List, [], ◌∷◌, ◌++◌}
use mathlib.Core.Option.{Option, none, some}
use native.Mathlib.Omega.{arith}
use allidb.Base.Tests.{if◌then◌else◌}
use allidb.Base.Strings.{Bytes, str_eq, str_eq_iff}

abbrev pub Map {ℓ} : Type ℓ → Type ℓ
Map V = List (Bytes × V)

module _ {ℓ} {V : Type ℓ} where
  -- m[k], with `none` for a missing key
  unfoldable pub lookup : Bytes → Map V → Option V
  lookup k [] = none
  lookup k ((j, v) ∷ m) = if str_eq j k then some v else lookup k m

  -- m[k] = v
  unfoldable pub insert : Bytes → V → Map V → Map V
  insert k v [] = (k, v) ∷ []
  insert k v ((j, w) ∷ m) = if str_eq j k then (j, v) ∷ m else (j, w) ∷ insert k v m

  -- delete(m, k)
  unfoldable pub delete : Bytes → Map V → Map V
  delete k [] = []
  delete k ((j, v) ∷ m) = if str_eq j k then delete k m else (j, v) ∷ delete k m

  -- _, ok := m[k]
  unfoldable pub has_key : Bytes → Map V → Bool
  has_key k [] = false
  has_key k ((j, v) ∷ m) = str_eq j k || has_key k m

  -- The keys of a map differ pairwise.
  abbrev pub DistinctKeys : Map V → Type 0
  DistinctKeys [] = Unit
  DistinctKeys ((j, v) ∷ m) = (has_key j m ≡ false) × DistinctKeys m

  pub lookup-insert :
      (k j : Bytes) (v : V) (m : Map V)
      → lookup j (insert k v m) ≡ (if str_eq k j then some v else lookup j m)
  unfolding lookup insert
  lookup-insert k j v [] = refl
  lookup-insert k j v ((i, w) ∷ m) =
      ground (arith, str_eq_iff k j, str_eq_iff i k, str_eq_iff i j, lookup-insert k j v m)

  pub lookup-delete :
      (k j : Bytes) (m : Map V) → lookup j (delete k m) ≡ (if str_eq k j then none else lookup j m)
  unfolding lookup delete
  lookup-delete k j [] = ground arith
  lookup-delete k j ((i, w) ∷ m) =
      ground (arith, str_eq_iff k j, str_eq_iff i k, str_eq_iff i j, lookup-delete k j m)

  pub has_key-insert :
      (k j : Bytes) (v : V) (m : Map V) → has_key j (insert k v m) ≡ str_eq k j || has_key j m
  unfolding has_key insert
  has_key-insert k j v [] = refl
  has_key-insert k j v ((i, w) ∷ m) =
      ground (arith, str_eq_iff k j, str_eq_iff i k, str_eq_iff i j, has_key-insert k j v m)

  pub has_key-delete :
      (k j : Bytes) (m : Map V)
      → has_key j (delete k m) ≡ (if str_eq k j then false else has_key j m)
  unfolding has_key delete
  has_key-delete k j [] = ground arith
  has_key-delete k j ((i, w) ∷ m) =
      ground (arith, str_eq_iff k j, str_eq_iff i k, str_eq_iff i j, has_key-delete k j m)

  pub lookup-absent : (k : Bytes) (m : Map V) → has_key k m ≡ false → lookup k m ≡ none
  unfolding lookup has_key
  lookup-absent k [] h = refl
  lookup-absent k ((j, v) ∷ m) h = ground (arith, lookup-absent k m)

  pub DistinctKeys-insert :
      (k : Bytes) (v : V) (m : Map V) → DistinctKeys m → DistinctKeys (insert k v m)
  unfolding insert has_key
  DistinctKeys-insert k v [] d = (refl, tt)
  DistinctKeys-insert k v ((i, w) ∷ m) d =
      ground
        (arith, DistinctKeys-insert k v m, has_key-insert k i v m, str_eq_iff k i, str_eq_iff i k)

  pub DistinctKeys-delete : (k : Bytes) (m : Map V) → DistinctKeys m → DistinctKeys (delete k m)
  unfolding delete has_key
  DistinctKeys-delete k [] d = tt
  DistinctKeys-delete k ((i, w) ∷ m) d =
      ground (arith, DistinctKeys-delete k m, has_key-delete k i m)

  pub insert_new :
      (k : Bytes) (v : V) (m : Map V) → has_key k m ≡ false → insert k v m ≡ m ++ (k, v) ∷ []
  unfolding insert has_key
  insert_new k v [] h = refl
  insert_new k v ((j, w) ∷ m) h = ground (arith, insert_new k v m)

  has_key-append : (k : Bytes) (m n : Map V) → has_key k (m ++ n) ≡ has_key k m || has_key k n
  unfolding has_key
  has_key-append k [] n = refl
  has_key-append k ((j, w) ∷ m) n = ground (arith, has_key-append k m n)

  -- In a map without repeated keys, a key is not among those before it.
  pub absent_before :
      (k : Bytes) (v : V) (m n : Map V) → DistinctKeys (m ++ (k, v) ∷ n) → has_key k m ≡ false
  unfolding has_key
  absent_before k v [] n d = refl
  absent_before k v ((j, w) ∷ m) n d = ground (
    arith,
    absent_before k v m n d.1,
    has_key-append j m ((k, v) ∷ n),
    str_eq_iff j k,
    str_eq_iff k j,
  )
