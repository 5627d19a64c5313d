-- ===== src/Handoff/Dispatcher/Tests.antt =====
-- A round over two nodes, where the writes are logged.
use allidb.Handoff.{Hint, Store, get_hints_for_node, hints_of, estimate_hint_size, calculate_crc}
use allidb.Wire.Numbers.{le_bytes}
use allidb.Handoff.Dispatcher.{
  Dispatcher, nodes_to_replay, replay_batches, replay_batch, check_and_replay,
}
use allidb.Handoff.Dispatcher.Replay.{IsReady, IsIntact, sent}
use allidb.Handoff.Dispatcher.Rounds.{all_hints, check_and_replay_delivers}
use allidb.Base.{
  All, Bool, Bool-cases, Bytes, List, Map, [], any, arith, codes, false, has_key, if◌then◌else◌,
  inl, inr, length, lookup, none, refl, some, str_eq, suc, true, zero, ℕ, ◌++◌, ◌+◌, ◌∷◌, ◌≡◌,
}

abbrev checksum : Bytes → ℕ
checksum b = length b

abbrev World : Type 0
World = List (Bytes × Bytes)

abbrev logged_write : World → Bytes → Bytes → World × Bool
logged_write w key value = (w ++ (key, value) ∷ [], true)

abbrev client_write : World → Bytes → Bytes → Bytes → World × Bool
client_write w id key value = (w, false)

abbrev never : World → Bool
never w = false

abbrev in_time : World → World → Bool
in_time begin w = false

abbrev hint : Bytes → Bytes → Hint
hint id value = record {
  target_node_id = id;
  key = codes "k";
  value = value;
  timestamp = 5;
  crc32 = 9 + length value;
}

abbrev n_id : Bytes
n_id = codes "n"

abbrev m_id : Bytes
m_id = codes "m"

abbrev hints : Store
hints = record {
  config = record { max_size = 1000; max_ttl = 60 };
  hints =
      (n_id, hint n_id (codes "1") ∷ hint n_id (codes "22") ∷ [])
      ∷ (m_id, hint m_id (codes "3") ∷ [])
      ∷ [];
  total_size = 91;
  hints_stored = 3;
  hints_replayed = 0;
  hints_expired = 0;
  hints_dropped = 0;
}

abbrev dispatcher : ℕ → Dispatcher
dispatcher batch_size = record {
  store = hints;
  coordinator = true;
  replica_client = false;
  replay_batch_size = batch_size;
  replaying = [];
  running = true;
  hints_replayed = 0;
  hints_failed = 0;
  replay_errors = 0;
}

abbrev AreIntact : List Hint → Type 0
AreIntact hs = All (IsIntact checksum) hs

stored-AreIntact : All (λ e. AreIntact e.1) hints.hints
unfolding calculate_crc le_bytes
stored-AreIntact = ((refl, (refl, tt)), ((refl, tt), tt))

hints_of-AreIntact :
    (m : Map (List Hint)) → All (λ e. AreIntact e.1) m → (id : Bytes) → AreIntact (hints_of m id)
unfolding hints_of lookup
hints_of-AreIntact [] a id = tt
hints_of-AreIntact ((j, hs) ∷ m) a id = elim (Bool-cases (str_eq j id)) [
  | inl e ↦ rw (hints_of, e) a.0
  | inr e ↦ rw (hints_of, e) (hints_of-AreIntact m a.1 id)
]

dispatcher-IsReady : IsReady checksum (dispatcher 1)
unfolding has_key str_eq get_hints_for_node estimate_hint_size
dispatcher-IsReady = record {
  stored = record { distinct = (refl, (refl, tt)); sized = refl; bounded = omega arith };
  batch = omega arith;
  writer = refl;
  idle = refl;
  intact = hints_of-AreIntact hints.hints stored-AreIntact;
}

check_and_replay_delivers_example :
    (d' : Dispatcher) × (check_and_replay checksum logged_write client_write never in_time
        (dispatcher 1)
        []
        (n_id ∷ [])
      ≡ some (
        d',
        sent checksum logged_write client_write never in_time []
            (all_hints hints (nodes_to_replay (dispatcher 1) (n_id ∷ []))),
      ))
    × ((j : Bytes)
        → get_hints_for_node d'.store j
          ≡ (if any (str_eq j) (n_id ∷ []) then [] else get_hints_for_node hints j))
check_and_replay_delivers_example =
    check_and_replay_delivers checksum logged_write client_write never in_time (λ w key value. refl)
      (λ w. refl) (λ begin w. refl) (dispatcher 1) [] (n_id ∷ []) dispatcher-IsReady

-- With a batch size of 0 the loop over the batches never ends.
no_batches :
    (fuel : ℕ)
    → replay_batches checksum logged_write client_write never in_time fuel
        (dispatcher 0)
        []
        n_id
        (get_hints_for_node hints n_id)
      ≡ none
unfolding replay_batches replay_batch get_hints_for_node hints_of lookup str_eq
no_batches zero = refl
no_batches (suc fuel) = no_batches fuel
