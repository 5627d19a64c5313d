-- ===== src/Gossip/Tests.antt =====
-- The gossip handlers at concrete messages.
use allidb.Gossip.{
  handle_ack, handle_ack2, handle_syn, build_digest, alive, dead, EndpointState, GossipDigest,
  Gossip, Message, ack2, existing_state, check_dead_nodes, handle_message,
}
use allidb.Gossip.Versions.{VersionLe, version, carried, handle_message-le}
use allidb.Gossip.Exchange.{exchange, state_of}
use allidb.Gossip.Exchange.Convergence.{both_ways, both_ways_converges}
use allidb.Gossip.Failures.{Overdue, check_dead_nodes-lookup}
use allidb.Base.{
  All, Bytes, Map, [], codes, false, insert, lookup, refl, some, str_eq, ℕ, ◌∷◌, ◌≡◌, ◌⊎◌,
}

abbrev a_id : Bytes
a_id = codes "a"

abbrev b_id : Bytes
b_id = codes "b"

abbrev entry : Bytes → ℕ → ℕ → EndpointState
entry id generation heartbeat = record {
  node_id = id;
  state = alive;
  heartbeat = heartbeat;
  generation = generation;
  last_update = 10;
  application_state = [];
}

abbrev states : Map EndpointState
states = (b_id, entry b_id 1 5) ∷ []

abbrev node : Gossip
node = record {
  local_node_id = a_id;
  failure_timeout = 30;
  local_state = entry a_id 1 1;
  endpoint_states = states;
  known_nodes = [];
}

abbrev news : Message
news = ack2 ((b_id, entry b_id 2 0) ∷ [])

abbrev digest : GossipDigest
digest = record { node_id = b_id; generation = 1; heartbeat = 3 }

handle_message-le_example :
    ((j : Bytes)
      → VersionLe
          (existing_state j states)
          (existing_state j (handle_message 20 node news).endpoint_states))
    × All
        (λ e. VersionLe e.1 (existing_state e.0 (handle_message 20 node news).endpoint_states))
        (carried news)
handle_message-le_example = handle_message-le 20 node news

known : lookup b_id states ≡ some (entry b_id 1 5)
unfolding lookup str_eq
known = refl

check_dead_nodes-lookup_example :
    ((alive ≡ alive)
      × Overdue 50 30 (entry b_id 1 5)
      × (lookup b_id (check_dead_nodes 50 30 states).0
          ≡ some (record (entry b_id 1 5) { state = dead })))
    ⊎ (¬ ((alive ≡ alive) × Overdue 50 30 (entry b_id 1 5))
        × (lookup b_id (check_dead_nodes 50 30 states).0 ≡ some (entry b_id 1 5)))
check_dead_nodes-lookup_example = check_dead_nodes-lookup 50 30 b_id states (entry b_id 1 5) known

other_id : str_eq a_id b_id ≡ false
unfolding str_eq
other_id = refl

abbrev peer : Gossip
peer = record {
  local_node_id = codes "p";
  failure_timeout = 30;
  local_state = entry (codes "p") 1 1;
  endpoint_states = (b_id, entry b_id 1 9) ∷ [];
  known_nodes = [];
}

apart : str_eq a_id b_id ≡ false
unfolding str_eq
apart = refl

apart' : str_eq (codes "p") b_id ≡ false
unfolding str_eq
apart' = refl

known' : lookup b_id peer.endpoint_states ≡ some (entry b_id 1 9)
unfolding lookup str_eq
known' = refl

both_ways_converges_example :
    (version (state_of (both_ways 20 21 node peer).0 b_id)
      ≡ version (state_of (both_ways 20 21 node peer).1 b_id))
    × VersionLe (entry b_id 1 5) (state_of (both_ways 20 21 node peer).0 b_id)
    × VersionLe (entry b_id 1 9) (state_of (both_ways 20 21 node peer).0 b_id)
both_ways_converges_example =
    both_ways_converges 20 21 node peer b_id (entry b_id 1 5) (entry b_id 1 9) apart apart' known
      known'

-- The node that a SYN comes from is not told to send what is newer there.
not_requested : version (state_of (exchange 20 peer node).1 b_id) ≡ (1, 5)
unfolding handle_ack handle_ack2 handle_syn existing_state lookup str_eq build_digest insert
not_requested = refl
