-- ===== src/Handoff/Dispatcher.antt =====
-- core/cluster/handoff/dispatcher.go: the replay of hints to nodes that are back. What the writes
-- act on is any state; a write gives the state after it and whether it succeeded. That Stop was
-- called, or that the batch's time is up, is read off that state, against the one at the batch's
-- start. The batch size is not negative. A replay holds its node in `replaying` from first to last.
pub mod Deliveries
pub mod Replay
pub mod Rounds
mod Tests
use allidb.Handoff
use allidb.Handoff.{
  Hint, Store, calculate_crc, get_hints_for_node, remove_hint, mark_hint_replayed, get_stats,
  get_nodes_with_hints,
}
use allidb.Base.{
  Bool, Bytes, List, Map, Option, [], any, delete, drop, false, has_key, if◌then◌else◌, insert,
  keep, length, none, not, some, str_eq, suc, take, true, zero, ℕ, ◌&&◌, ◌+◌, ◌==◌, ◌||◌, ◌∷◌,
}

pub record Dispatcher : Type 0 where
  pub store : Store
  -- whether these are set
  pub coordinator : Bool
  pub replica_client : Bool
  pub replay_batch_size : ℕ
  pub replaying : Map (Unit {0})
  pub running : Bool
  pub hints_replayed : ℕ
  pub hints_failed : ℕ
  pub replay_errors : ℕ

pub record DispatcherStats : Type 0 where
  pub hints_replayed : ℕ
  pub hints_failed : ℕ
  pub replay_errors : ℕ
  pub nodes_replaying : ℕ

unfoldable pub new_dispatcher : Store → Bool → Bool → ℕ → Dispatcher
new_dispatcher store coordinator replica_client batch_size = record {
  store = store;
  coordinator = coordinator;
  replica_client = replica_client;
  replay_batch_size = batch_size;
  replaying = [];
  running = false;
  hints_replayed = 0;
  hints_failed = 0;
  replay_errors = 0;
}

-- none where it is running already
unfoldable pub start : Dispatcher → Option Dispatcher
start d = if d.running then none else some (record d { running = true })

unfoldable pub stop : Dispatcher → Dispatcher
stop d = if d.running then record d { running = false } else d

unfoldable pub is_replaying : Dispatcher → Bytes → Bool
is_replaying d id = has_key id d.replaying

unfoldable pub get_dispatcher_stats : Dispatcher → DispatcherStats
get_dispatcher_stats d = record {
  hints_replayed = d.hints_replayed;
  hints_failed = d.hints_failed;
  replay_errors = d.replay_errors;
  nodes_replaying = length d.replaying;
}

-- The nodes with hints that are alive and not being replayed.
unfoldable pub nodes_to_replay : Dispatcher → List Bytes → List Bytes
unfolding is_replaying
nodes_to_replay d alive =
    keep (λ id. any (str_eq id) alive && not (is_replaying d id)) (get_nodes_with_hints d.store)

unfoldable pub begin_replay : Dispatcher → Bytes → Dispatcher
begin_replay d id = record d { replaying = insert id tt d.replaying }

unfoldable pub end_replay : Dispatcher → Bytes → Dispatcher
end_replay d id = record d { replaying = delete id d.replaying }

unfoldable pub failed_hint : Dispatcher → Dispatcher
failed_hint d = record d { hints_failed = d.hints_failed + 1; replay_errors = d.replay_errors + 1 }

unfoldable pub delivered : Dispatcher → Bytes → Hint → Dispatcher
delivered d id h = record d {
  store = mark_hint_replayed (remove_hint d.store id h.key);
  hints_replayed = d.hints_replayed + 1;
}

module _ {W : Type 0} (checksum : Bytes → ℕ) (coordinator_write : W → Bytes → Bytes → W × Bool)
    (client_write : W → Bytes → Bytes → Bytes → W × Bool) (stopped : W → Bool)
    (timed_out : W → W → Bool) where
  unfoldable pub replay_hint : Dispatcher → W → Bytes → Hint → W × Bool
  replay_hint d w id h =
      if h.crc32 == calculate_crc checksum h
      then if d.coordinator
        then coordinator_write w h.key h.value
        else if d.replica_client
        then client_write w id h.key h.value
        else (w, false)
      else (w, false)

  -- The body of the loop of replayBatch.
  unfoldable pub replay_one : Dispatcher → W → Bytes → Hint → Dispatcher × W
  unfolding replay_hint failed_hint delivered
  replay_one d w id h =
      let (w', done) = replay_hint d w id h in
      (if done then delivered d id h else failed_hint d, w')

  unfoldable pub replay_batch : W → Dispatcher → W → Bytes → List Hint → Dispatcher × W
  unfolding replay_one
  replay_batch begin d w id [] = (d, w)
  replay_batch begin d w id (h ∷ hs) = elim (stopped w || timed_out begin w) [
    | true ↦ (d, w)
    | false ↦ let (d', w') = replay_one d w id h in replay_batch begin d' w' id hs
  ]

  -- The loop over the batches; none where it runs out of fuel.
  unfoldable pub replay_batches : ℕ → Dispatcher → W → Bytes → List Hint → Option (Dispatcher × W)
  unfolding replay_batch
  replay_batches fuel d w id [] = some (d, w)
  replay_batches zero d w id (h ∷ hs) = none
  replay_batches (suc fuel) d w id (h ∷ hs) = elim (stopped w) [
    | true ↦ some (d, w)
    | false ↦
        let (d', w') = replay_batch w d w id (take d.replay_batch_size (h ∷ hs)) in
        replay_batches fuel d' w' id (drop d.replay_batch_size (h ∷ hs))
  ]

  unfoldable pub replay_hints_for_node : Dispatcher → W → Bytes → Option (Dispatcher × W)
  unfolding is_replaying replay_batches begin_replay end_replay
  replay_hints_for_node d w id =
      let hints = get_hints_for_node d.store id in
      if is_replaying d id
      then some (d, w)
      else elim (replay_batches (length hints) (begin_replay d id) w id hints) [
        | none ↦ none
        | some (d', w') ↦ some (end_replay d' id, w')
      ]

  unfoldable pub replay_nodes : Dispatcher → W → List Bytes → Option (Dispatcher × W)
  unfolding replay_hints_for_node
  replay_nodes d w [] = some (d, w)
  replay_nodes d w (id ∷ ids) = elim (stopped w) [
    | true ↦ some (d, w)
    | false ↦ elim (replay_hints_for_node d w id) [
      | none ↦ none
      | some (d', w') ↦ replay_nodes d' w' ids
    ]
  ]

  unfoldable pub check_and_replay : Dispatcher → W → List Bytes → Option (Dispatcher × W)
  unfolding nodes_to_replay replay_nodes
  check_and_replay d w alive =
      if (get_stats d.store).nodes_with_hints == 0
      then some (d, w)
      else replay_nodes d w (nodes_to_replay d alive)
