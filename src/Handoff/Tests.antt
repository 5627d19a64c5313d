-- ===== src/Handoff/Tests.antt =====
-- The store of hints at concrete hints. The checksum of a string is its length here.
use allidb.Handoff.{
  Hint, Config, Store, Op, store, remove, clean_up, estimate_hint_size, calculate_crc,
  get_hints_for_node, remove_hint, new_store, run,
}
use allidb.Handoff.Sizes.{all_sizes, other_key}
use allidb.Handoff.Invariant.{IsStore, run-IsStore}
use allidb.Handoff.Queries.{remove_hint-get_hints}
use allidb.Handoff.Restart.{AllSaved}
use allidb.Wire.Numbers.{le_bytes}
use allidb.Base.{
  Bytes, DistinctKeys, List, Map, Option, [], arith, codes, has_key, if◌then◌else◌, keep, length,
  refl, some, str_eq, sym, ℕ, ◌∷◌, ◌≡◌, ◌≤◌,
}

abbrev checksum : Bytes → ℕ
checksum b = length b

abbrev node : Bytes
node = codes "n"

abbrev one : Hint
one = record {
  target_node_id = node;
  key = codes "k";
  value = codes "v";
  timestamp = 5;
  crc32 = 10;
}

abbrev two : Hint
two = record {
  target_node_id = node;
  key = codes "l";
  value = codes "w";
  timestamp = 50;
  crc32 = 10;
}

abbrev hints : Map (List Hint)
hints = (node, one ∷ two ∷ []) ∷ []

abbrev config : Config
config = record { max_size = 100; max_ttl = 60 }

abbrev stored : Store
stored = record {
  config = config;
  hints = hints;
  total_size = 60;
  hints_stored = 2;
  hints_replayed = 0;
  hints_expired = 0;
  hints_dropped = 0;
}

hints-distinct : DistinctKeys hints
unfolding has_key
hints-distinct = (refl, tt)

hints-size : all_sizes hints ≡ 60
unfolding estimate_hint_size
hints-size = refl

stored-IsStore : IsStore stored
stored-IsStore = record { distinct = hints-distinct; sized = sym hints-size; bounded = omega arith }

within : all_sizes stored.hints ≤ stored.total_size
within = omega (arith, hints-size)

run-IsStore_example : IsStore (
    run checksum stored
      (store 60 node (codes "m") (codes "x") ∷ remove node (codes "k") ∷ clean_up 200 ∷ []))
run-IsStore_example =
    run-IsStore checksum stored
      (store 60 node (codes "m") (codes "x") ∷ remove node (codes "k") ∷ clean_up 200 ∷ [])
      stored-IsStore

remove_hint-get_hints_example : get_hints_for_node (remove_hint stored node (codes "k")) node ≡ (
    if str_eq node node
    then keep (other_key (codes "k")) (get_hints_for_node stored node)
    else get_hints_for_node stored node)
remove_hint-get_hints_example = remove_hint-get_hints stored node (codes "k") node within

-- A line of this test names the first or the second hint.
abbrev encode : Hint → Bytes
encode h = h.key

abbrev decode : Bytes → Option Hint
decode line = if str_eq line (codes "k") then some one else some two

hints-AllSaved : AllSaved checksum encode decode hints
unfolding calculate_crc str_eq le_bytes
hints-AllSaved = (((refl, refl, refl), ((refl, refl, refl), tt)), tt)

abbrev ops : List Op
ops = store 5 node (codes "k") (codes "v") ∷ clean_up 20 ∷ []

abbrev after_ops : Store
after_ops = run checksum (new_store checksum (λ line. some one) 0 config []) ops
