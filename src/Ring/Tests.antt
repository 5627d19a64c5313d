-- ===== src/Ring/Tests.antt =====
-- Runs of the ring, and its theorems at concrete rings. The digest of a string is the string
-- itself here, and the sort is by insertion.
use allidb.Ring.{
  VirtualNode, Ring, new, decimal, hash_string, get_owners, get_owner, add_node, remove_node,
  get_node_count, has_node,
}
use allidb.Ring.Order.{IsSorted, SortedFrom, IsSort}
use allidb.Ring.Owners.{preference, get_owners-eq-preference}
use allidb.Ring.Invariant.{IsRing, new-IsRing, add_node-IsRing}
use allidb.Ring.Runs.{join, leave, changes, changes-new-IsRing}
use allidb.Ring.Removal.{not_id, get_owners-remove_node}
use allidb.Ring.Distinct.{IsDistinct, get_owners-IsDistinct}
use allidb.Base.{
  All, Bool, Bytes, List, [], arith, codes, count, delete, has_key, if◌then◌else◌, insert, keep,
  leb, length, lookup, min, ok, pos, refl, search, some, str_eq, take, true, ℕ, ◌∷◌, ◌≡◌, ◌≤◌,
}

abbrev digest : Bytes → Bytes
digest s = s

insert_by_hash : VirtualNode → List VirtualNode → List VirtualNode
insert_by_hash v [] = v ∷ []
insert_by_hash v (w ∷ ws) = if leb v.hash w.hash then v ∷ w ∷ ws else w ∷ insert_by_hash v ws

unfoldable pub insertion_sort : List VirtualNode → List VirtualNode
unfolding insert_by_hash
insertion_sort [] = []
insertion_sort (v ∷ vs) = insert_by_hash v (insertion_sort vs)

count-insert_by_hash :
    (p : VirtualNode → Bool) (v : VirtualNode) (ws : List VirtualNode)
    → count p (insert_by_hash v ws) ≡ count p (v ∷ ws)
unfolding insert_by_hash
count-insert_by_hash p v [] = refl
count-insert_by_hash p v (w ∷ ws) = ground (arith, count-insert_by_hash p v ws)

insert_by_hash-SortedFrom :
    (low : ℕ) (v : VirtualNode) (ws : List VirtualNode)
    → low ≤ v.hash
    → SortedFrom low ws
    → SortedFrom low (insert_by_hash v ws)
unfolding insert_by_hash
insert_by_hash-SortedFrom low v [] h s = (h, tt)
insert_by_hash-SortedFrom low v (w ∷ ws) h s = ground (arith, insert_by_hash-SortedFrom w.hash v ws)

sort_rises : (vs : List VirtualNode) → IsSorted (insertion_sort vs)
unfolding insertion_sort
sort_rises [] = tt
sort_rises (v ∷ vs) =
    insert_by_hash-SortedFrom 0 v (insertion_sort vs) (omega arith) (sort_rises vs)

sort_counts :
    (p : VirtualNode → Bool) (vs : List VirtualNode) → count p (insertion_sort vs) ≡ count p vs
unfolding insertion_sort
sort_counts p [] = refl
sort_counts p (v ∷ vs) =
    ground (arith, count-insert_by_hash p v (insertion_sort vs), sort_counts p vs)

pub insertion_sort-IsSort : IsSort insertion_sort
insertion_sort-IsSort = record { sorted = sort_rises; same = sort_counts }

abbrev a : Bytes
a = codes "a"

abbrev b : Bytes
b = codes "b"

abbrev c : Bytes
c = codes "c"

abbrev key : Bytes
key = codes "k"

abbrev at : ℕ → Bytes → ℕ → VirtualNode
at hash id index = record { hash = hash; node_id = id; index = index }

-- The key has hash 107, so that the clockwise order from it is c, a, b, a, b, c.
abbrev three : Ring
three = record {
  virtual_nodes = at 10 a 0 ∷ at 20 b 0 ∷ at 30 a 1 ∷ at 100 b 1 ∷ at 107 c 0 ∷ at 120 c 1 ∷ [];
  nodes = (a, 2) ∷ (b, 2) ∷ (c, 2) ∷ [];
  virtual_nodes_per_node = 2;
  replication_factor = 2;
}

abbrev without_b : Ring
without_b = record three {
  virtual_nodes = at 10 a 0 ∷ at 30 a 1 ∷ at 107 c 0 ∷ at 120 c 1 ∷ [];
  nodes = (a, 2) ∷ (c, 2) ∷ [];
}

three-IsSorted : IsSorted three.virtual_nodes
three-IsSorted = omega arith

owners_of_key : get_owners digest three key ≡ some (c ∷ a ∷ [])
unfolding get_owners hash_string search str_eq lookup insert
owners_of_key = refl

primary_of_key : get_owner digest three key ≡ some c
unfolding get_owner hash_string search str_eq lookup insert
primary_of_key = refl

b_removed : remove_node three b ≡ ok without_b
unfolding remove_node has_key delete str_eq
b_removed = refl

decimal_lem : decimal 1207 ≡ codes "1207"
unfolding decimal
decimal_lem = refl

get_owners-eq-preference_example :
    get_owners digest three key
    ≡ some (take 2 (preference (hash_string digest key) three.virtual_nodes))
get_owners-eq-preference_example = get_owners-eq-preference digest three key three-IsSorted

get_owners-remove_node_example :
    get_owners digest without_b key
    ≡ some (take 2 (keep (not_id b) (preference (hash_string digest key) three.virtual_nodes)))
get_owners-remove_node_example =
    get_owners-remove_node digest three without_b b b_removed three-IsSorted key

abbrev empty : Ring
empty = new (pos 2) (pos 2)

abbrev only_a : Ring
only_a = record {
  virtual_nodes = at 6371888 a 0 ∷ at 6371889 a 1 ∷ [];
  nodes = (a, 2) ∷ [];
  virtual_nodes_per_node = 2;
  replication_factor = 2;
}

a_added : add_node digest insertion_sort empty a ≡ ok only_a
unfolding add_node new decimal hash_string insertion_sort has_key insert str_eq
a_added = refl

only_a-IsRing : IsRing only_a
only_a-IsRing =
    add_node-IsRing digest insertion_sort insertion_sort-IsSort empty only_a a
      (new-IsRing (pos 2) (pos 2)) a_added

abbrev none_left : Ring
none_left = record only_a { virtual_nodes = []; nodes = [] }

a_removed : remove_node only_a a ≡ ok none_left
unfolding remove_node has_key delete str_eq
a_removed = refl

changes-new-IsRing_example :
    IsRing (changes digest insertion_sort empty (join a ∷ leave key ∷ join a ∷ leave a ∷ []))
changes-new-IsRing_example =
    changes-new-IsRing digest insertion_sort insertion_sort-IsSort (pos 2) (pos 2)
      (join a ∷ leave key ∷ join a ∷ leave a ∷ [])

get_owners-IsDistinct_example :
    (owners : List Bytes) × (get_owners digest only_a key ≡ some owners)
    × IsDistinct owners
    × All (λ id. has_node only_a id ≡ true) owners
    × (length owners ≡ min 2 (get_node_count only_a))
get_owners-IsDistinct_example = get_owners-IsDistinct digest only_a key only_a-IsRing (omega arith)
