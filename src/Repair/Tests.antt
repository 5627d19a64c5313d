-- ===== src/Repair/Tests.antt =====
-- Trees over two keys, where the hash of bytes is the bytes, and repairs of two nodes.
use allidb.Repair.Merkle.{
  MerkleNode, leaf, node, hash_of, MerkleTree, leaves_of, build_tree, build_tree_from_leaves,
  get_root_hash, find_divergent_ranges, collect_key_ranges, compute_depth,
}
use allidb.Repair.MerkleDiffs.{pair_diffs}
use allidb.Repair.MerkleLaws.{build_tree_total, find_divergent_ranges-differing}
use allidb.Repair.Schedule.{
  RepairTask, RateLimiter, Executor, new_rate_limiter, second, allow, schedule_repair, dequeue_task,
  execute_repair, execute_repair_to_node,
}
use allidb.Repair.ScheduleLaws.{
  last_time, granted, allow_all, allow_all_bounds, execute_repair_counts,
}
use allidb.Base.{
  All, Bytes, List, Map, [], arith, codes, count, false, lookup, not, ok, refl, some, str_eq, true,
  ℕ, ◌*◌, ◌+◌, ◌-◌, ◌<◌, ◌↔◌, ◌∷◌, ◌≡◌, ◌≤◌,
}

abbrev sha256 : Bytes → Bytes
sha256 b = b

abbrev a : Bytes
a = codes "a"

abbrev b : Bytes
b = codes "b"

-- The keys are in order.
abbrev sorted : List Bytes → List Bytes
sorted ks = ks

abbrev values : ℕ → Map Bytes
values v = (a, 1 ∷ []) ∷ (b, v ∷ []) ∷ []

abbrev leaf_a : MerkleNode
leaf_a = leaf (97 ∷ 0 ∷ 1 ∷ []) (record { start = a; end = a })

abbrev leaf_b : ℕ → MerkleNode
leaf_b v = leaf (98 ∷ 0 ∷ v ∷ []) (record { start = a; end = b })

abbrev root : ℕ → MerkleNode
root v = node (97 ∷ 0 ∷ 1 ∷ 98 ∷ 0 ∷ v ∷ []) (record { start = a; end = b }) leaf_a (leaf_b v)

abbrev tree : ℕ → MerkleTree
tree v = record {
  partition_id = a;
  root = some (root v);
  key_ranges = record { start = a; end = a } ∷ record { start = a; end = b } ∷ [];
  depth = 2;
}

built : (v : ℕ) → build_tree sha256 sorted a (values v) ≡ some (tree v)
unfolding build_tree build_tree_from_leaves lookup str_eq
built v = refl

build_tree_total_example : (t : MerkleTree) × (build_tree sha256 sorted a (values 2) ≡ some t)
build_tree_total_example = build_tree_total sha256 sorted a (values 2)

find_divergent_ranges-differing_example :
    All (λ r. r.end ≡ b) (find_divergent_ranges (tree 2) (tree 3))
    ↔ All
        (λ r. r.end ≡ b)
        (pair_diffs
          (leaves_of sha256 (a ∷ b ∷ []) (values 2))
          (leaves_of sha256 (a ∷ b ∷ []) (values 3)))
find_divergent_ranges-differing_example =
    find_divergent_ranges-differing sha256 sorted a (values 2) (values 3) a (b ∷ []) (tree 2)
      (tree 3) refl refl (built 2) (built 3) ((λ e. absurd (cc)), tt, tt) (λ r. r.end ≡ b)

differ_at_b : find_divergent_ranges (tree 2) (tree 3) ≡ record { start = a; end = b } ∷ []
unfolding find_divergent_ranges str_eq
differ_at_b = refl

same_tree : find_divergent_ranges (tree 2) (tree 2) ≡ []
unfolding find_divergent_ranges str_eq
same_tree = refl

read_off :
    (collect_key_ranges (root 2) ≡ (tree 2).key_ranges)
    × (compute_depth (root 2) ≡ 2)
    × (get_root_hash (tree 2) ≡ some (hash_of (root 2)))
unfolding collect_key_ranges compute_depth get_root_hash
read_off = (refl, refl, refl)

abbrev limiter : RateLimiter
limiter = record { max_rate = 2; ops_count = 1; window_start = 100 }

abbrev times : List ℕ
times = 100 ∷ 200 ∷ 1000000300 ∷ []

allow_all_bounds_example :
    (k : ℕ) × (k * second ≤ last_time 100 times - limiter.window_start)
    × (limiter.ops_count + granted (allow_all limiter times).1
        ≤ limiter.max_rate + k * limiter.max_rate)
allow_all_bounds_example =
    allow_all_bounds limiter times 100 (omega arith) (omega arith) (omega arith)

answers : (allow_all limiter times).1 ≡ true ∷ false ∷ true ∷ []
unfolding allow_all
answers = refl

abbrev task : RepairTask
task = record {
  key = a;
  correct_value = [];
  target_nodes = a ∷ b ∷ [];
  priority = 1;
  created_at = 0;
}

abbrev executor : Executor
executor = record { repairs_executed = 3; repairs_failed = 0 }

execute_repair_counts_example :
    ((execute_repair (str_eq a) task executor).0.repairs_executed
      ≡ executor.repairs_executed + count (str_eq a) task.target_nodes)
    × ((execute_repair (str_eq a) task executor).0.repairs_failed
        ≡ executor.repairs_failed + count (λ n. not (str_eq a n)) task.target_nodes)
    × (((execute_repair (str_eq a) task executor).1 ≡ ok tt)
        ↔ (0 < count (str_eq a) task.target_nodes))
execute_repair_counts_example = execute_repair_counts (str_eq a) task executor (omega arith)

first_out : dequeue_task (schedule_repair (λ q. q) task []) ≡ some (task, [])
unfolding dequeue_task schedule_repair
first_out = refl

one_node : (execute_repair_to_node (str_eq a) b executor).0.repairs_failed ≡ 1
unfolding execute_repair_to_node str_eq
one_node = refl

fresh : (allow 5 (new_rate_limiter 0 5)).1 ≡ false
unfolding allow new_rate_limiter
fresh = refl
