-- ===== src/Coordinator/Tests.antt =====
-- Reads and writes over three replicas, of which one does not answer. The digest of a string is
-- the string itself here.
use allidb.Ring.{get_owners, hash_string}
use allidb.Coordinator.{
  Coordinator, Response, filter_alive_nodes, read_from_replicas, write_to_replicas, wait_for_quorum,
  collect_successful, select_replicas, read_with_responses, read, write, merge_read_responses,
}
use allidb.Coordinator.Quorum.{HasQuorum, accepts, answers, write_iff, read-meets-write}
use allidb.Coordinator.Values.{IsOrder, Leads, merge_read_responses-leader}
use allidb.Coordinator.Latest.{Retained, read-after-write}
use allidb.Base.{
  Bytes, List, Option, [], any, arith, codes, false, if◌then◌else◌, insert, lookup, none, ok, refl,
  search, some, str_eq, str_eq_iff, str_eq_refl, true, ℕ, ◌&&◌, ◌↔◌, ◌∷◌, ◌≡◌,
}

abbrev digest : Bytes → Bytes
digest s = s

abbrev key : Bytes
key = codes "k"

abbrev a_id : Bytes
a_id = codes "a"

abbrev b_id : Bytes
b_id = codes "b"

abbrev c_id : Bytes
c_id = codes "c"

abbrev value : Bytes
value = codes "new"

abbrev replicas : List Bytes
replicas = a_id ∷ b_id ∷ c_id ∷ []

abbrev coordinator : Coordinator
coordinator = record {
  ring = record {
    virtual_nodes =
        record { hash = 200; node_id = a_id; index = 0 }
        ∷ record { hash = 300; node_id = b_id; index = 0 }
        ∷ record { hash = 400; node_id = c_id; index = 0 }
        ∷ [];
    nodes = (a_id, 1) ∷ (b_id, 1) ∷ (c_id, 1) ∷ [];
    virtual_nodes_per_node = 1;
    replication_factor = 3;
  };
  gossip = some replicas;
  config = record { read_quorum = 2; write_quorum = 2; replica_count = 3 };
}

-- The third replica refuses the write and answers reads with an old value.
abbrev writer : Bytes → Bytes → Option Bytes → Option ℕ
writer id k v = if str_eq id c_id then some 1 else none

abbrev reader : Bytes → Bytes → Option Bytes × Option ℕ
reader id k = if str_eq id c_id then (some (codes "old"), none) else (some value, none)

abbrev in_order : List (Bytes × ℕ) → List (Bytes × ℕ)
in_order es = es

in_order-IsOrder : IsOrder in_order
in_order-IsOrder test m = refl

selected : select_replicas digest coordinator key ≡ some replicas
unfolding select_replicas get_owners hash_string lookup insert str_eq search
selected = refl

written : write digest coordinator writer key (some value) ≡ some (ok tt)
unfolding write select_replicas get_owners hash_string lookup insert str_eq search write_to_replicas
    wait_for_quorum collect_successful
written = refl

was_read :
    read_with_responses digest coordinator reader key
    ≡ some (ok (read_from_replicas reader key (filter_alive_nodes (some replicas) replicas)))
unfolding read_with_responses select_replicas get_owners hash_string lookup insert str_eq search
    filter_alive_nodes read_from_replicas wait_for_quorum collect_successful
was_read = refl

write_iff_example :
    (write digest coordinator writer key (some value) ≡ some (ok tt))
    ↔ HasQuorum (some replicas) 2 (accepts writer key (some value)) replicas
write_iff_example = write_iff digest coordinator writer key (some value) replicas selected

read-meets-write_example :
    any (λ id. accepts writer key (some value) id && answers reader key id) replicas ≡ true
read-meets-write_example =
    read-meets-write digest coordinator (some replicas) writer reader key (some value) replicas
      selected (omega arith) written was_read

abbrev responses : List (Response ℕ)
responses =
    record { node_id = a_id; value = some value; error = none; success = true }
    ∷ record { node_id = c_id; value = none; error = some 1; success = false }
    ∷ []

responses-Leads : Leads value responses
responses-Leads w h = ground (arith, str_eq_iff value w, str_eq_iff w value, str_eq_refl value, h)

merge_read_responses-leader_example : merge_read_responses in_order responses ≡ some value
merge_read_responses-leader_example =
    merge_read_responses-leader in_order value responses in_order-IsOrder
      (ground (arith, str_eq_refl value)) responses-Leads

kept : Retained (some replicas) writer reader key value replicas
unfolding str_eq
kept =
    let same : (true ≡ true) × (reader a_id key ≡ (some value, none)) = (refl, refl) in
    (λ h. same, (λ h. same, (λ h. cc, tt)))

read-after-write_example : read digest in_order coordinator reader key ≡ some (ok (some value))
read-after-write_example =
    read-after-write digest coordinator (some replicas) writer reader key value replicas in_order
      in_order-IsOrder selected written (omega arith) (omega arith) kept
