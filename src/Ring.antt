-- ===== src/Ring.antt =====
-- core/cluster/ring/ring.go: the consistent hashing ring with virtual nodes. The lock is left out:
-- each method holds it from its first line to its last, so that methods run one after the other.
-- SHA-1 and `sort.Slice` are parameters. `none` is a panic by an index out of range.
pub mod Clockwise
pub mod Order
pub mod Owners
pub mod Invariant
pub mod Runs
pub mod Removal
pub mod Distinct
pub mod Tests
use allidb.Base.{
  Bool, Bytes, List, Map, Option, Result, [], count, delete, fail_if, false, get_elem?, has_key,
  if◌then◌else◌, insert, keep, leb, length, lookup, ltb, map, none, not, ok, or_default, search,
  some, str_eq, suc, take, true, zero, ℕ, ℤ, ◌%◌, ◌*◌, ◌++◌, ◌+◌, ◌/◌, ◌>>=◌, ◌>>◌, ◌^◌, ◌∷◌,
}

pub record VirtualNode : Type 0 where
  pub hash : ℕ
  pub node_id : Bytes
  pub index : ℕ

pub record Ring : Type 0 where
  pub virtual_nodes : List VirtualNode
  pub nodes : Map ℕ
  pub virtual_nodes_per_node : ℕ
  pub replication_factor : ℕ

pub data RingError : Type 0 where
  node_exists node_missing : RingError

-- ring.New; the configuration's fields are Go's `int`
unfoldable pub new : ℤ → ℤ → Ring
unfolding or_default
new virtual_nodes_per_node replication_factor = record {
  virtual_nodes = [];
  nodes = [];
  virtual_nodes_per_node = or_default virtual_nodes_per_node 150;
  replication_factor = or_default replication_factor 3;
}

-- The decimal digits of a number, as `%d` prints them; one digit goes for each unit of fuel.
decimal_onto : ℕ → ℕ → Bytes → Bytes
decimal_onto zero n rest = rest
decimal_onto (suc fuel) n rest = elim (ltb n 10) [
  | true ↦ (48 + n) ∷ rest
  | false ↦ decimal_onto fuel (n / 10) ((48 + n % 10) ∷ rest)
]

unfoldable pub decimal : ℕ → Bytes
unfolding decimal_onto
decimal n = decimal_onto (suc n) n []

-- result = result<<8 | uint64(b), over the bytes of a digest
fold_bytes : ℕ → Bytes → ℕ
fold_bytes result [] = result
fold_bytes result (b ∷ bs) = fold_bytes ((result * 256 + b % 256) % 2 ^ 64) bs

-- Virtual node i of a physical node, for `count` indexes from i on.
unfoldable pub virtual_nodes_from : (Bytes → ℕ) → ℕ → ℕ → Bytes → List VirtualNode
virtual_nodes_from hash_string zero i id = []
virtual_nodes_from hash_string (suc count) i id =
    record { hash = hash_string (id ++ b':' ∷ decimal i); node_id = id; index = i }
    ∷ virtual_nodes_from hash_string count (i + 1) id

-- seen[id]
unfoldable pub is_seen : Map Bool → Bytes → Bool
unfolding lookup
is_seen seen id = elim (lookup id seen) [ some b ↦ b | none ↦ false ]

-- The loop of GetOwners over i; `rounds` is the number of virtual nodes less i.
unfoldable pub collect_owners :
    List VirtualNode → ℕ → ℕ → ℕ → ℕ → List Bytes → Map Bool → Option (List Bytes)
unfolding is_seen
collect_owners vns start factor zero i owners seen = some owners
collect_owners vns start factor (suc rounds) i owners seen = elim (ltb (length owners) factor) [
  | true ↦ elim (get_elem? vns ((start + i) % length vns)) [
    | none ↦ none
    | some v ↦ elim (is_seen seen v.node_id) [
      | true ↦ collect_owners vns start factor rounds (i + 1) owners seen
      | false ↦
          collect_owners vns start factor rounds (i + 1) (owners ++ v.node_id ∷ [])
            (insert v.node_id true seen)
    ]
  ]
  | false ↦ some owners
]

-- r.virtualNodes[i].Hash >= keyHash
unfoldable pub hash_from : List VirtualNode → ℕ → ℕ → Bool
hash_from vns key_hash i = elim (get_elem? vns i) [ none ↦ true | some v ↦ leb key_hash v.hash ]

unfoldable pub find_virtual_node : List VirtualNode → ℕ → ℕ
unfolding hash_from
find_virtual_node vns key_hash =
    let idx = search (length vns) (hash_from vns key_hash) in
    if leb (length vns) idx then 0 else idx

module _ (sha1 : Bytes → Bytes) where
  unfoldable pub hash_string : Bytes → ℕ
  unfolding fold_bytes
  hash_string s = fold_bytes 0 (take 8 (sha1 s))

  unfoldable pub get_owners : Ring → Bytes → Option (List Bytes)
  unfolding collect_owners find_virtual_node
  get_owners r key = elim r.virtual_nodes [
    | [] ↦ some []
    | v ∷ rest ↦
        collect_owners (v ∷ rest) (find_virtual_node (v ∷ rest) (hash_string key))
          r.replication_factor (length (v ∷ rest)) 0 [] []
  ]

  -- The empty string where there is no owner.
  unfoldable pub get_owner : Ring → Bytes → Option Bytes
  unfolding get_owners
  get_owner r key = elim (get_owners r key) [
    | none ↦ none
    | some [] ↦ some []
    | some (owner ∷ rest) ↦ some owner
  ]

  unfoldable pub all_virtual_nodes : ℕ → Map ℕ → List VirtualNode
  unfolding virtual_nodes_from
  all_virtual_nodes per_node [] = []
  all_virtual_nodes per_node ((id, n) ∷ nodes) =
      virtual_nodes_from hash_string per_node 0 id ++ all_virtual_nodes per_node nodes

module _ (sha1 : Bytes → Bytes) (sort_slice : List VirtualNode → List VirtualNode) where
  unfoldable pub add_node : Ring → Bytes → Result RingError Ring
  unfolding virtual_nodes_from
  add_node r id = do
    fail_if (has_key id r.nodes) node_exists
    ok (record r {
      virtual_nodes =
          sort_slice (
            r.virtual_nodes ++ virtual_nodes_from (hash_string sha1) r.virtual_nodes_per_node 0 id);
      nodes = insert id r.virtual_nodes_per_node r.nodes;
    })

  unfoldable pub rebalance : Ring → Ring
  unfolding all_virtual_nodes
  rebalance r = record r {
    virtual_nodes = sort_slice (all_virtual_nodes sha1 r.virtual_nodes_per_node r.nodes);
  }

unfoldable pub remove_node : Ring → Bytes → Result RingError Ring
remove_node r id = do
  fail_if (not (has_key id r.nodes)) node_missing
  ok (record r {
    virtual_nodes = keep (λ v. not (str_eq v.node_id id)) r.virtual_nodes;
    nodes = delete id r.nodes;
  })

unfoldable pub has_node : Ring → Bytes → Bool
has_node r id = has_key id r.nodes

unfoldable pub get_node_count : Ring → ℕ
get_node_count r = length r.nodes

unfoldable pub get_virtual_node_count : Ring → ℕ
get_virtual_node_count r = length r.virtual_nodes

unfoldable pub get_virtual_nodes_for_node : Ring → Bytes → List VirtualNode
get_virtual_nodes_for_node r id = keep (λ v. str_eq v.node_id id) r.virtual_nodes

-- GetNodes, with its `sort.Slice` on the names as a parameter
unfoldable pub get_nodes : (List Bytes → List Bytes) → Ring → List Bytes
get_nodes sort_names r = sort_names (map (λ n. n.0) r.nodes)
