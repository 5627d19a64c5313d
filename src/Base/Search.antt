-- ===== src/Base/Search.antt =====
-- Go's `sort.Search`: the least index below n at which a test passes, by bisection.
use Prim.Native.Nat.{ℕ, zero, suc, ◌+◌, ◌/◌, ◌≤◌, ◌<◌}
use mathlib.Core.Path.{◌≡◌}
use mathlib.Core.Logic.{inl, inr}
use mathlib.Core.Bool.{Bool, true, false}
use native.Mathlib.Omega.{arith}
use allidb.Base.Tests.{ltb, Bool-cases}

search_loop : ℕ → (ℕ → Bool) → ℕ → ℕ → ℕ
search_loop zero f i j = i
search_loop (suc fuel) f i j = elim (ltb i j) [
  | true ↦ elim (f ((i + j) / 2)) [
    | true ↦ search_loop fuel f i ((i + j) / 2)
    | false ↦ search_loop fuel f ((i + j) / 2 + 1) j
  ]
  | false ↦ i
]

-- Each round at least halves the range, so n rounds are enough.
unfoldable pub search : ℕ → (ℕ → Bool) → ℕ
unfolding search_loop
search n f = search_loop n f 0 n

-- Once the test passes it goes on passing.
abbrev pub Monotone : ℕ → (ℕ → Bool) → Type 0
Monotone n f = (x y : ℕ) → x ≤ y → y < n → f x ≡ true → f y ≡ true

pub record IsFirst (n : ℕ) (f : ℕ → Bool) (r : ℕ) : Type 0 where
  pub within : r ≤ n
  pub before : (x : ℕ) → x < r → f x ≡ false
  pub from : (x : ℕ) → r ≤ x → x < n → f x ≡ true

fails_below :
    (n : ℕ) (f : ℕ → Bool)
    → Monotone n f
    → (h : ℕ) → h < n
    → f h ≡ false
    → (x : ℕ) → x < h + 1
    → f x ≡ false
fails_below n f mono h hn e x lt = elim (Bool-cases (f x)) [
  | inl t ↦ cc (mono x h (omega arith) hn t)
  | inr t ↦ t
]

search_loop-IsFirst :
    (n : ℕ) (f : ℕ → Bool)
    → Monotone n f
    → (fuel i j : ℕ) → i ≤ j
    → j ≤ n
    → j ≤ i + fuel
    → ((x : ℕ) → x < i → f x ≡ false)
    → ((x : ℕ) → j ≤ x → x < n → f x ≡ true)
    → IsFirst n f (search_loop fuel f i j)
unfolding search_loop
search_loop-IsFirst n f mono zero i j ij jn e lo hi = record {
  within = omega arith;
  before = lo;
  from = λ x h k. hi x (omega arith) k;
}
search_loop-IsFirst n f mono (suc fuel) i j ij jn e lo hi = elim (Bool-cases (ltb i j)) [
  | inl more ↦ elim (Bool-cases (f ((i + j) / 2))) [
    | inl t ↦
        rw (more, t, search_loop)
          (search_loop-IsFirst n f mono fuel i ((i + j) / 2) (omega arith) (ground arith)
            (ground arith) lo (λ x h k. mono ((i + j) / 2) x h k t))
    | inr t ↦
        rw (more, t, search_loop)
          (search_loop-IsFirst n f mono fuel ((i + j) / 2 + 1) j (ground arith) jn (omega arith)
            (fails_below n f mono ((i + j) / 2) (ground arith) t) hi)
  ]
  | inr done ↦
      rw (done, search_loop)
        (record { within = omega arith; before = lo; from = λ x h k. hi x (ground arith) k })
]

-- On a monotone test the search finds the first index at which it passes, or n.
pub search-IsFirst : (n : ℕ) (f : ℕ → Bool) → Monotone n f → IsFirst n f (search n f)
unfolding search
search-IsFirst n f mono =
    search_loop-IsFirst n f mono n 0 n (omega arith) (omega arith) (omega arith) (λ x h. elim h [ ])
      (λ x h k. absurd (omega arith))
