-- ===== src/Command.antt =====
-- cmd/allidbd/main.go: the ring and the coordinator that main makes of the configuration. main
-- checks it first and ends where it is not valid, so that a count is never below 0 when it gets
-- here. What AddNode returns is ignored.
pub mod Agreement
mod Tests
use allidb.Config.{Config}
use allidb.Ring
use allidb.Ring.{Ring, VirtualNode}
use allidb.Ring.Runs.{change, join}
use allidb.Coordinator
use allidb.Coordinator.{Coordinator}
use allidb.Base.{Bytes, List, Option, negsuc, pos, ℕ, ℤ, ◌+◌, ◌/◌}

-- An int that is not below 0.
abbrev pub to_nat : ℤ → ℕ
to_nat (pos n) = n
to_nat (negsuc n) = 0

module _ (sha1 : Bytes → Bytes) (sort_slice : List VirtualNode → List VirtualNode) where
  unfoldable pub new_ring : Config → Ring
  new_ring c =
      change sha1 sort_slice
        (Ring.new c.cluster.virtual_nodes_per_node c.cluster.replication_factor) (join c.node.id)

  -- Over the ring and the list of nodes that gossip gives at that time.
  unfoldable pub new_coordinator : Config → Ring → Option (List Bytes) → Coordinator
  new_coordinator c r gossip = record {
    ring = r;
    gossip = gossip;
    config = record {
      read_quorum = to_nat c.cluster.replication_factor / 2 + 1;
      write_quorum = to_nat c.cluster.replication_factor / 2 + 1;
      replica_count = to_nat c.cluster.replication_factor;
    };
  }
