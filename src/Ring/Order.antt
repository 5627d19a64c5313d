-- ===== src/Ring/Order.antt =====
-- The order of the virtual nodes by hash, and what `sort.Slice` does to them.
use allidb.Ring.{VirtualNode}
use allidb.Base.{Bool, List, [], arith, count, get_elem?, keep, some, suc, zero, ℕ, ◌∷◌, ◌≡◌, ◌≤◌}

-- Hashes rise along the list, and are at least `low`.
abbrev pub SortedFrom : ℕ → List VirtualNode → Type 0
SortedFrom low [] = Unit {0}
SortedFrom low (v ∷ vs) = (low ≤ v.hash) × SortedFrom v.hash vs

abbrev pub IsSorted : List VirtualNode → Type 0
IsSorted = SortedFrom 0

-- What `sort.Slice` promises: the same elements, as often, in rising order. It is not stable.
pub record IsSort (sort_slice : List VirtualNode → List VirtualNode) : Type 0 where
  pub sorted : (vs : List VirtualNode) → IsSorted (sort_slice vs)
  pub same : (p : VirtualNode → Bool) (vs : List VirtualNode) → count p (sort_slice vs) ≡ count p vs

pub SortedFrom-mono :
    (low high : ℕ) (vs : List VirtualNode) → low ≤ high → SortedFrom high vs → SortedFrom low vs
SortedFrom-mono low high [] h s = tt
SortedFrom-mono low high (v ∷ vs) h s = (omega arith, s.1)

pub SortedFrom-keep :
    (p : VirtualNode → Bool) (low : ℕ) (vs : List VirtualNode)
    → SortedFrom low vs
    → SortedFrom low (keep p vs)
SortedFrom-keep p low [] s = tt
SortedFrom-keep p low (v ∷ vs) s =
    ground (arith, SortedFrom-keep p v.hash vs s.1, SortedFrom-mono low v.hash (keep p vs))

-- In a sorted list every element below a position is at most the one at it.
pub SortedFrom-get :
    (low : ℕ) (vs : List VirtualNode) (i : ℕ) (v : VirtualNode)
    → SortedFrom low vs
    → get_elem? vs i ≡ some v
    → low ≤ v.hash
SortedFrom-get low [] i v s e = cc
SortedFrom-get low (w ∷ vs) zero v s e = ground arith
SortedFrom-get low (w ∷ vs) (suc i) v s e = ground (arith, SortedFrom-get w.hash vs i v s.1)

pub SortedFrom-le :
    (low : ℕ) (vs : List VirtualNode) (i j : ℕ) (v w : VirtualNode)
    → SortedFrom low vs
    → i ≤ j
    → get_elem? vs i ≡ some v
    → get_elem? vs j ≡ some w
    → v.hash ≤ w.hash
SortedFrom-le low [] i j v w s h e f = cc
SortedFrom-le low (x ∷ vs) zero zero v w s h e f = ground arith
SortedFrom-le low (x ∷ vs) zero (suc j) v w s h e f =
    ground (arith, SortedFrom-get x.hash vs j w s.1 f)
SortedFrom-le low (x ∷ vs) (suc i) zero v w s h e f = absurd (omega arith)
SortedFrom-le low (x ∷ vs) (suc i) (suc j) v w s h e f =
    SortedFrom-le x.hash vs i j v w s.1 (omega arith) e f
