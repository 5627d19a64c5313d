-- ===== src/Handoff.antt =====
-- core/cluster/handoff/store.go: the store of hints, writes kept for nodes that are away. Each
-- method holds the lock from its first line to its last, so that methods run one after the other.
-- The time is an argument, in nanoseconds from 1970; a limit below 0 acts as 0. The total
-- size is a natural number: what is subtracted is the size of hints that were added. CRC-32, the
-- JSON encoding and the line scanner are parameters, and the file is the list of its lines.
pub mod Sizes
pub mod Invariant
pub mod Queries
pub mod Restart
pub mod Owned
pub mod Dispatcher
mod Tests
use allidb.Wire.Numbers.{le_bytes}
use allidb.Base.{
  Bool, Bytes, List, Map, Option, Result, [], delete, err, if◌then◌else◌, insert, length, lookup,
  ltb, map, none, ok, some, str_eq, sum_of, ℕ, ◌++◌, ◌+◌, ◌-◌, ◌==◌, ◌∷◌,
}

pub record Hint : Type 0 where
  pub target_node_id : Bytes
  pub key : Bytes
  pub value : Bytes
  pub timestamp : ℕ
  pub crc32 : ℕ

pub record Config : Type 0 where
  pub max_size : ℕ
  pub max_ttl : ℕ

pub record Store : Type 0 where
  pub config : Config
  pub hints : Map (List Hint)
  pub total_size : ℕ
  pub hints_stored : ℕ
  pub hints_replayed : ℕ
  pub hints_expired : ℕ
  pub hints_dropped : ℕ

pub record Stats : Type 0 where
  pub total_hints : ℕ
  pub total_size : ℕ
  pub hints_stored : ℕ
  pub hints_replayed : ℕ
  pub hints_expired : ℕ
  pub hints_dropped : ℕ
  pub nodes_with_hints : ℕ

-- The store is full: its size and its limit.
pub data StoreError : Type 0 where
  full : ℕ → ℕ → StoreError

unfoldable pub estimate_hint_size : Bytes → Bytes → ℕ
estimate_hint_size key value = length key + length value + 28

abbrev pub hint_size : Hint → ℕ
hint_size h = estimate_hint_size h.key h.value

-- A missing key reads as a nil slice.
unfoldable pub hints_of : Map (List Hint) → Bytes → List Hint
hints_of m id = elim (lookup id m) [ none ↦ [] | some hs ↦ hs ]

-- The slice of a node written back, or its key deleted where nothing is left.
unfoldable pub put_back : Bytes → List Hint → Map (List Hint) → Map (List Hint)
put_back id [] m = delete id m
put_back id (h ∷ hs) m = insert id (h ∷ hs) m

module _ (checksum : Bytes → ℕ) where
  unfoldable pub calculate_crc : Hint → ℕ
  calculate_crc h = checksum (h.key ++ h.value ++ le_bytes 8 h.timestamp)

  unfoldable pub new_hint : ℕ → Bytes → Bytes → Bytes → Hint
  unfolding calculate_crc
  new_hint now id key value =
      let h : Hint = record {
        target_node_id = id;
        key = key;
        value = value;
        timestamp = now;
        crc32 = 0;
      } in
      record h { crc32 = calculate_crc h }

  unfoldable pub store_hint :
      ℕ → Store → Bytes → Bytes → Bytes → Store × Result StoreError (Unit {0})
  unfolding new_hint
  store_hint now s id key value =
      let size = estimate_hint_size key value in
      if ltb s.config.max_size (s.total_size + size)
      then (
        record s { hints_dropped = s.hints_dropped + 1 },
        err (full s.total_size s.config.max_size),
      )
      else (
        record s {
          hints = insert id (hints_of s.hints id ++ new_hint now id key value ∷ []) s.hints;
          total_size = s.total_size + size;
          hints_stored = s.hints_stored + 1;
        },
        ok tt,
      )

unfoldable pub get_hints_for_node : Store → Bytes → List Hint
get_hints_for_node s id = hints_of s.hints id

-- The loop of RemoveHint: the hints that stay, and the total size that is left.
unfoldable pub without_key : Bytes → List Hint → ℕ → List Hint × ℕ
without_key key [] total = ([], total)
without_key key (h ∷ hs) total =
    let (stay, left) =
      without_key key hs (if str_eq h.key key then total - hint_size h else total) in
    (if str_eq h.key key then stay else h ∷ stay, left)

unfoldable pub remove_hint : Store → Bytes → Bytes → Store
unfolding without_key
remove_hint s id key = elim (hints_of s.hints id) [
  | [] ↦ s
  | h ∷ hs ↦
      let (stay, left) = without_key key (h ∷ hs) s.total_size in
      record s { hints = put_back id stay s.hints; total_size = left }
]

unfoldable pub subtract_sizes : List Hint → ℕ → ℕ
subtract_sizes [] total = total
subtract_sizes (h ∷ hs) total = subtract_sizes hs (total - hint_size h)

unfoldable pub remove_hints_for_node : Store → Bytes → Store
unfolding subtract_sizes
remove_hints_for_node s id = elim (hints_of s.hints id) [
  | [] ↦ s
  | h ∷ hs ↦ record s {
    hints = delete id s.hints;
    total_size = subtract_sizes (h ∷ hs) s.total_size;
  }
]

abbrev pub is_expired : Config → ℕ → Hint → Bool
is_expired config now h = ltb config.max_ttl (now - h.timestamp)

-- The inner loop of cleanup: the hints that stay, the total size and the count of expired hints.
unfoldable pub without_expired : Config → ℕ → List Hint → ℕ → ℕ → List Hint × ℕ × ℕ
without_expired config now [] total expired = ([], total, expired)
without_expired config now (h ∷ hs) total expired =
    let gone = is_expired config now h in
    let (stay, total', expired') =
      without_expired config now hs (if gone then total - hint_size h else total)
        (if gone then expired + 1 else expired) in
    (if gone then stay else h ∷ stay, total', expired')

-- The outer loop of cleanup: each key's slice is written back, or the key deleted.
unfoldable pub clean : Config → ℕ → Map (List Hint) → ℕ → ℕ → Map (List Hint) × ℕ × ℕ
unfolding without_expired
clean config now [] total expired = ([], total, expired)
clean config now ((id, hs) ∷ m) total expired =
    let (stay, total', expired') = without_expired config now hs total expired in
    let (m', total'', expired'') = clean config now m total' expired' in
    (
      elim stay as (λ _. Map (List Hint)) [ [] ↦ m' | h ∷ more ↦ (id, h ∷ more) ∷ m' ],
      total'',
      expired'',
    )

unfoldable pub cleanup : ℕ → Store → Store
unfolding clean
cleanup now s =
    let (m, total, expired) = clean s.config now s.hints s.total_size s.hints_expired in
    record s { hints = m; total_size = total; hints_expired = expired }

unfoldable pub mark_hint_replayed : Store → Store
mark_hint_replayed s = record s { hints_replayed = s.hints_replayed + 1 }

unfoldable pub get_nodes_with_hints : Store → List Bytes
get_nodes_with_hints s = map (λ e. e.0) s.hints

unfoldable pub get_stats : Store → Stats
get_stats s = record {
  total_hints = sum_of (λ e. length e.1) s.hints;
  total_size = s.total_size;
  hints_stored = s.hints_stored;
  hints_replayed = s.hints_replayed;
  hints_expired = s.hints_expired;
  hints_dropped = s.hints_dropped;
  nodes_with_hints = length s.hints;
}

-- flush: one line for each hint, node by node in the order in which the map is read
unfoldable pub encode_hints : (Hint → Bytes) → List Hint → List Bytes
encode_hints encode hs = map encode hs

unfoldable pub flush_lines : (Hint → Bytes) → List (Bytes × List Hint) → List Bytes
unfolding encode_hints
flush_lines encode [] = []
flush_lines encode ((id, hs) ∷ m) = encode_hints encode hs ++ flush_lines encode m

module _ (checksum : Bytes → ℕ) where
  unfoldable pub load_hint : ℕ → Store → Hint → Store
  load_hint now s h =
      if h.crc32 == calculate_crc checksum h
      then if is_expired s.config now h
        then record s { hints_expired = s.hints_expired + 1 }
        else record s {
          hints = insert h.target_node_id (hints_of s.hints h.target_node_id ++ h ∷ []) s.hints;
          total_size = s.total_size + hint_size h;
        }
      else s

module _ (checksum : Bytes → ℕ) (decode : Bytes → Option Hint) where
  unfoldable pub load : ℕ → List Bytes → Store → Store
  unfolding load_hint
  load now [] s = s
  load now (line ∷ lines) s = elim (decode line) [
    | none ↦ load now lines s
    | some h ↦ load now lines (load_hint checksum now s h)
  ]

  -- NewStore, over the lines of the file; opening the file does not fail
  unfoldable pub new_store : ℕ → Config → List Bytes → Store
  unfolding load
  new_store now config lines = load now lines (record {
    config = config;
    hints = [];
    total_size = 0;
    hints_stored = 0;
    hints_replayed = 0;
    hints_expired = 0;
    hints_dropped = 0;
  })

-- What clients and the clean-up loop do to a store, each at its time.
pub data Op : Type 0 where
  store : ℕ → Bytes → Bytes → Bytes → Op
  remove : Bytes → Bytes → Op
  remove_node : Bytes → Op
  clean_up : ℕ → Op
  replayed : Op

module _ (checksum : Bytes → ℕ) where
  unfoldable pub step : Store → Op → Store
  unfolding store_hint remove_hint remove_hints_for_node cleanup mark_hint_replayed
  step s (store now id key value) = (store_hint checksum now s id key value).0
  step s (remove id key) = remove_hint s id key
  step s (remove_node id) = remove_hints_for_node s id
  step s (clean_up now) = cleanup now s
  step s replayed = mark_hint_replayed s

  abbrev pub run : Store → List Op → Store
  run s [] = s
  run s (op ∷ ops) = run (step s op) ops
