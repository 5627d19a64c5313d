-- ===== src/Command/Agreement.antt =====
-- The replicas and the quorums that main's configuration leads to.
use allidb.Config.{Config}
use allidb.Config.Validate.{Files, validate}
use allidb.Config.Valid.{validate-Valid}
use allidb.Config.Accepts.{Within}
use allidb.Ring
use allidb.Ring.{Ring, VirtualNode, RingError, add_node, get_owners, get_node_count}
use allidb.Ring.Order.{IsSort}
use allidb.Ring.Invariant.{IsRing}
use allidb.Ring.Distinct.{get_owners-IsDistinct}
use allidb.Ring.Runs.{Change, join, leave, change, changes, changes-new-IsRing}
use allidb.Coordinator.{Coordinator, select_replicas, read, write}
use allidb.Coordinator.Values.{IsOrder}
use allidb.Coordinator.Quorum.{accepts}
use allidb.Coordinator.Latest.{counts_alive, read-after-write}
use allidb.Command.{to_nat, new_ring, new_coordinator}
use allidb.Base.{
  All, Bool-cases, Bytes, List, Option, [], arith, false, has_key, inl, inr, length, ltb, negsuc,
  none, ok, or_default, pos, refl, some, suc, true, zero, ℕ, ℤ, ◌<◌, ◌∙◌, ◌∷◌, ◌≡◌, ◌≤◌,
}

-- What no change of the nodes touches.
abbrev SameCounts : Ring → Ring → Type 0
SameCounts r s =
    (s.virtual_nodes_per_node ≡ r.virtual_nodes_per_node)
    × (s.replication_factor ≡ r.replication_factor)

or_default-Within : (x : ℤ) (d : ℕ) → Within 1 10 x → or_default x d ≡ to_nat x
unfolding or_default
or_default-Within (pos zero) d (n, e, l, u) = ground (arith, e, l)
or_default-Within (pos (suc k)) d (n, e, l, u) = refl
or_default-Within (negsuc k) d (n, e, l, u) = ground (arith, e)

or_default-pos : (x : ℤ) (d : ℕ) → Within 1 1000 x → 0 < or_default x d
unfolding or_default
or_default-pos (pos zero) d (n, e, l, u) = ground (arith, e, l)
or_default-pos (pos (suc k)) d (n, e, l, u) = ground arith
or_default-pos (negsuc k) d (n, e, l, u) = ground (arith, e)

select_replicas-few :
    (sha1 : Bytes → Bytes) (c : Coordinator) (key : Bytes) (owners : List Bytes)
    → get_owners sha1 c.ring key ≡ some owners
    → length owners ≤ c.config.replica_count
    → select_replicas sha1 c key ≡ some owners
unfolding select_replicas
select_replicas-few sha1 c key owners e few =
    let all : ltb c.config.replica_count (length owners) ≡ false = ground (arith, few) in
    rw (select_replicas, e, all) refl

All-every : {P : Bytes → Type 0} (ids : List Bytes) → ((id : Bytes) → P id) → All P ids
All-every [] h = tt
All-every (id ∷ ids) h = (h id, All-every ids h)

module _ (sha1 : Bytes → Bytes) (sort_slice : List VirtualNode → List VirtualNode) where
  change-SameCounts : (r : Ring) (c : Change) → SameCounts r (change sha1 sort_slice r c)
  unfolding add_node Ring.remove_node
  change-SameCounts r (join id) = elim (Bool-cases (has_key id r.nodes)) [
    | inl e ↦ rw (add_node, e) (refl, refl)
    | inr e ↦ rw (add_node, e) (refl, refl)
  ]
  change-SameCounts r (leave id) = elim (Bool-cases (has_key id r.nodes)) [
    | inl e ↦ rw (Ring.remove_node, e) (refl, refl)
    | inr e ↦ rw (Ring.remove_node, e) (refl, refl)
  ]

  changes-SameCounts : (r : Ring) (cs : List Change) → SameCounts r (changes sha1 sort_slice r cs)
  changes-SameCounts r [] = (refl, refl)
  changes-SameCounts r (c ∷ cs) =
      let first = change-SameCounts r c in
      let rest = changes-SameCounts (change sha1 sort_slice r c) cs in
      (rest.0 ∙ first.0, rest.1 ∙ first.1)

  -- The ring of a configuration after the nodes that joined and left.
  abbrev ring_after : Config → List Change → Ring
  ring_after c cs = changes sha1 sort_slice (new_ring sha1 sort_slice c) cs

  module _ (sorts : IsSort sort_slice) where
    ring_after-IsRing :
        (c : Config) (cs : List Change)
        → Within 1 1000 c.cluster.virtual_nodes_per_node
        → Within 1 10 c.cluster.replication_factor
        → IsRing (ring_after c cs)
          × (0 < (ring_after c cs).virtual_nodes_per_node)
          × ((ring_after c cs).replication_factor ≡ to_nat c.cluster.replication_factor)
    unfolding new_ring Ring.new
    ring_after-IsRing c cs v f =
        let per = c.cluster.virtual_nodes_per_node in
        let factor = c.cluster.replication_factor in
        let same = changes-SameCounts (Ring.new per factor) (join c.node.id ∷ cs) in
        (
          changes-new-IsRing sha1 sort_slice sorts per factor (join c.node.id ∷ cs),
          rw (same.0) (or_default-pos per 150 v),
          same.1 ∙ or_default-Within factor 3 f,
        )

    -- The replicas of a key with a valid configuration.
    valid_replicas :
        (c : Config) (cs : List Change) (gossip : Option (List Bytes)) (key : Bytes)
        → Within 1 1000 c.cluster.virtual_nodes_per_node
        → Within 1 10 c.cluster.replication_factor
        → (replicas : List Bytes) × (select_replicas sha1
              (new_coordinator sha1 sort_slice c (ring_after c cs) gossip)
              key
            ≡ some replicas)
          × (length replicas ≤ to_nat c.cluster.replication_factor)
    unfolding new_coordinator
    valid_replicas c cs gossip key v f =
        let (w, some_virtual, factor) = ring_after-IsRing c cs v f in
        let r = ring_after c cs in
        let (owners, e, d, known, l) = get_owners-IsDistinct sha1 r key w some_virtual in
        let few : length owners ≤ to_nat c.cluster.replication_factor = ground (arith, l, factor) in
        (
          owners,
          select_replicas-few sha1 (new_coordinator sha1 sort_slice c r gossip) key owners e few,
          few,
        )

    -- Every configuration that passes the checks and every sequence of nodes that join and leave,
    -- where the sort of the ring is one and the values of a read are counted in any order: where a
    -- write through the coordinator of that configuration reports success, and each node that took
    -- the value counts as alive later and then answers with it, a read of the key through the
    -- coordinator finds the value, whatever the other nodes answer.
    pub validate-write-read :
        {E : Type 0} (fs : Files) (c : Config) (cs : List Change)
        (gossip gossip' : Option (List Bytes)) (writer : Bytes → Bytes → Option Bytes → Option E)
        (reader : Bytes → Bytes → Option Bytes × Option E)
        (order : List (Bytes × ℕ) → List (Bytes × ℕ)) (key v : Bytes)
        → validate fs c ≡ ok tt
        → IsOrder order
        → write sha1
            (new_coordinator sha1 sort_slice c (ring_after c cs) gossip)
            writer
            key
            (some v)
          ≡ some (ok tt)
        → ((id : Bytes)
            → accepts writer key (some v) id ≡ true
            → (counts_alive gossip' id ≡ true) × (reader id key ≡ (some v, none)))
        → read sha1 order (new_coordinator sha1 sort_slice c (ring_after c cs) gossip') reader key
          ≡ some (ok (some v))
    unfolding new_coordinator
    validate-write-read fs c cs gossip gossip' writer reader order key v passes o w kept =
        let cluster = ((validate-Valid fs c).0 passes).1.0 in
        let factor = cluster.1.1.0 in
        let per_node = cluster.1.1.1.1.1.1.1.1.1 in
        let (replicas, e, few) = valid_replicas c cs gossip key per_node factor in
        read-after-write sha1 (new_coordinator sha1 sort_slice c (ring_after c cs) gossip) gossip'
          writer reader key v replicas order o e w (omega arith) (omega arith)
          (All-every replicas kept)
