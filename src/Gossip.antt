-- ===== src/Gossip.antt =====
-- core/cluster/gossip/gossip.go: the gossip state of a node and the handlers of its messages. A
-- handler holds the lock from its first read to its last write, so that handlers run one after the
-- other; the time is an argument. Generations and heartbeats do not overflow. The transport, the
-- tickers and the callbacks are outside: a handler returns what it sends, and which callbacks it
-- starts. A state in a message is a copy: the two nodes share no memory.
pub mod Versions
pub mod Exchange
pub mod Failures
mod Tests
use allidb.Base.{
  Bool, Bytes, List, Map, [], codes, delete, false, if◌then◌else◌, insert, keep, lookup, ltb, map,
  none, not, pos, some, str_eq, take, true, ℕ, ℤ, ◌&&◌, ◌++◌, ◌+◌, ◌-◌, ◌==◌, ◌||◌, ◌∷◌,
}

pub data NodeState : Type 0 where
  alive dead unknown : NodeState

-- A value of the application state: an int64, or something else.
pub data AppValue : Type 0 where
  int64 : ℤ → AppValue
  other : Bytes → AppValue

pub record EndpointState : Type 0 where
  pub node_id : Bytes
  pub state : NodeState
  pub heartbeat : ℕ
  pub generation : ℕ
  pub last_update : ℕ
  pub application_state : Map AppValue

pub record GossipDigest : Type 0 where
  pub node_id : Bytes
  pub generation : ℕ
  pub heartbeat : ℕ

pub record Ack : Type 0 where
  pub digests : List GossipDigest
  pub states : Map EndpointState

pub record Node : Type 0 where
  pub node_id : Bytes
  pub address : Bytes
  pub port : ℕ

-- The configuration's fields that the handlers read, the states and the known nodes.
pub record Gossip : Type 0 where
  pub local_node_id : Bytes
  pub failure_timeout : ℕ
  pub local_state : EndpointState
  pub endpoint_states : Map EndpointState
  pub known_nodes : Map Node

pub data Message : Type 0 where
  syn : List GossipDigest → Message
  ack : Ack → Message
  ack2 : Map EndpointState → Message

-- The callbacks that a handler starts.
pub data Event : Type 0 where
  node_alive node_dead : Bytes → Event

-- newGen > gen || (newGen == gen && newHeartbeat > heartbeat)
abbrev pub newer : ℕ → ℕ → ℕ → ℕ → Bool
newer generation' heartbeat' generation heartbeat =
    ltb generation generation' || (generation' == generation && ltb heartbeat heartbeat')

unfoldable pub digest_of : Bytes → EndpointState → GossipDigest
digest_of id s = record { node_id = id; generation = s.generation; heartbeat = s.heartbeat }

unfoldable pub build_digest : Gossip → List GossipDigest
build_digest g =
    digest_of g.local_state.node_id g.local_state ∷ map (λ e. digest_of e.0 e.1) g.endpoint_states

-- What a SYN's digest of a node makes the receiver send: its own state, where that is newer.
unfoldable pub request : Gossip → GossipDigest → Map EndpointState → Map EndpointState
request g d requested = elim (lookup d.node_id g.endpoint_states) [
  | none ↦ requested
  | some ours ↦
      if newer d.generation d.heartbeat ours.generation ours.heartbeat
      then requested
      else if newer ours.generation ours.heartbeat d.generation d.heartbeat
      then insert d.node_id ours requested
      else requested
]

unfoldable pub request_all : Gossip → List GossipDigest → Map EndpointState → Map EndpointState
unfolding request
request_all g [] requested = requested
request_all g (d ∷ ds) requested = request_all g ds (request g d requested)

-- The local state is sent unless the first digest of this node is as new.
unfoldable pub request_local : Gossip → List GossipDigest → Map EndpointState → Map EndpointState
request_local g [] requested = insert g.local_state.node_id g.local_state requested
request_local g (d ∷ ds) requested =
    if str_eq d.node_id g.local_state.node_id
    then if newer g.local_state.generation g.local_state.heartbeat d.generation d.heartbeat
      then insert g.local_state.node_id g.local_state requested
      else requested
    else request_local g ds requested

unfoldable pub handle_syn : Gossip → List GossipDigest → Ack
unfolding request_all request_local digest_of
handle_syn g digests = record {
  digests = digest_of g.local_state.node_id g.local_state ∷ [];
  states = request_local g digests (request_all g digests []);
}

-- The zero EndpointState that updateEndpointState creates for a new node.
abbrev pub fresh_state : Bytes → EndpointState
fresh_state id = record {
  node_id = id;
  state = alive;
  heartbeat = 0;
  generation = 0;
  last_update = 0;
  application_state = [];
}

unfoldable pub copy_all : Map AppValue → Map AppValue → Map AppValue
copy_all [] app = app
copy_all ((k, v) ∷ new) app = copy_all new (insert k v app)

-- The entry of a node after a received state, and whether the callback starts.
unfoldable pub merge : ℕ → EndpointState → EndpointState → EndpointState × Bool
unfolding copy_all
merge now existing new =
    if newer new.generation new.heartbeat existing.generation existing.heartbeat
    then (
      record existing {
        generation = new.generation;
        heartbeat = new.heartbeat;
        state = alive;
        last_update = now;
        application_state = copy_all new.application_state existing.application_state;
      },
      true,
    )
    else (existing, false)

unfoldable pub existing_state : Bytes → Map EndpointState → EndpointState
existing_state id m = elim (lookup id m) [ none ↦ fresh_state id | some s ↦ s ]

unfoldable pub update_endpoint_state :
    ℕ → Map EndpointState → Bytes → EndpointState → Map EndpointState × List Event
unfolding merge existing_state
update_endpoint_state now m id new =
    let (merged, notify) = merge now (existing_state id m) new in
    (insert id merged m, if notify then node_alive id ∷ [] else [])

unfoldable pub update_all :
    ℕ → Map EndpointState → Map EndpointState → Map EndpointState × List Event
unfolding update_endpoint_state
update_all now [] m = (m, [])
update_all now ((id, s) ∷ states) m =
    let (m', events) = update_endpoint_state now m id s in
    let (m'', more) = update_all now states m' in (m'', events ++ more)

-- The states that an ACK's digests ask for.
unfoldable pub ack2_states :
    Map EndpointState → List GossipDigest → Map EndpointState → Map EndpointState
ack2_states m [] out = out
ack2_states m (d ∷ ds) out = ack2_states m ds (elim (lookup d.node_id m) [
  | none ↦ out
  | some ours ↦
      if newer ours.generation ours.heartbeat d.generation d.heartbeat
      then insert d.node_id ours out
      else out
])

unfoldable pub handle_ack : ℕ → Gossip → Ack → Gossip × Map EndpointState × List Event
unfolding update_all ack2_states
handle_ack now g a =
    let (m, events) = update_all now a.states g.endpoint_states in
    (record g { endpoint_states = m }, ack2_states m a.digests [], events)

unfoldable pub handle_ack2 : ℕ → Gossip → Map EndpointState → Gossip × List Event
unfolding update_all
handle_ack2 now g states =
    let (m, events) = update_all now states g.endpoint_states in
    (record g { endpoint_states = m }, events)

-- handleMessage: the node's state after a message
unfoldable pub handle_message : ℕ → Gossip → Message → Gossip
unfolding handle_ack handle_ack2
handle_message now g (syn digests) = g
handle_message now g (ack a) = (handle_ack now g a).0
handle_message now g (ack2 states) = (handle_ack2 now g states).0

abbrev pub is_alive : NodeState → Bool
is_alive alive = true
is_alive _ = false

-- checkDeadNodes, for one node
unfoldable pub check_node : ℕ → ℕ → EndpointState → EndpointState × Bool
check_node now timeout s =
    if ltb timeout (now - s.last_update)
    then if is_alive s.state then (record s { state = dead }, true) else (s, false)
    else (s, false)

unfoldable pub check_dead_nodes : ℕ → ℕ → Map EndpointState → Map EndpointState × List Event
unfolding check_node
check_dead_nodes now timeout [] = ([], [])
check_dead_nodes now timeout ((id, s) ∷ m) =
    let (s', died) = check_node now timeout s in
    let (m', events) = check_dead_nodes now timeout m in
    ((id, s') ∷ m', if died then node_dead id ∷ events else events)

unfoldable pub add_node : Gossip → Node → Gossip
add_node g n = record g { known_nodes = insert n.node_id n g.known_nodes }

unfoldable pub remove_node : Gossip → Bytes → Gossip
remove_node g id = record g {
  known_nodes = delete id g.known_nodes;
  endpoint_states = delete id g.endpoint_states;
}

unfoldable pub increment_heartbeat : ℕ → Gossip → Gossip
increment_heartbeat now g = record g {
  local_state = record (g.local_state) {
    heartbeat = g.local_state.heartbeat + 1;
    last_update = now;
  };
}

unfoldable pub update_application_state : ℕ → Gossip → Bytes → AppValue → Gossip
update_application_state now g key value = record g {
  local_state = record (g.local_state) {
    application_state = insert key value g.local_state.application_state;
    last_update = now;
  };
}

unfoldable pub get_node_state : Gossip → Bytes → NodeState × Bool
get_node_state g id =
    if str_eq id g.local_node_id
    then (alive, true)
    else elim (lookup id g.endpoint_states) [ none ↦ (unknown, false) | some s ↦ (s.state, true) ]

unfoldable pub get_alive_nodes : Gossip → List Bytes
get_alive_nodes g =
    g.local_node_id ∷ map (λ e. e.0) (keep (λ e. is_alive e.1.state) g.endpoint_states)

unfoldable pub get_sstable_version : Gossip → Bytes → ℤ × Bool
get_sstable_version g id = elim (lookup id g.endpoint_states) [
  | none ↦ (pos 0, false)
  | some s ↦ elim (lookup (codes "sstable_version") s.application_state) [
    | none ↦ (pos 0, false)
    | some (int64 v) ↦ (v, true)
    | some (other b) ↦ (pos 0, false)
  ]
]

unfoldable pub select_random_peers : Gossip → ℕ → List Node
select_random_peers g n =
    take n (map (λ e. e.1) (keep (λ e. not (str_eq e.0 g.local_node_id)) g.known_nodes))
