-- ===== src/Coordinator.antt =====
-- core/cluster/coordinator.go: quorum reads and writes over the replicas of a key. The gossip is
-- what GetAliveNodes returns at the call, none where there is no gossip; the replica client is an
-- argument: what each replica answers, a value and an error. The requests run in parallel and each
-- answer goes to the place of its replica, so that their order does not show. Quorums and the
-- replica count are not negative. Timeouts are errors that the client answers.
pub mod Quorum
pub mod Values
pub mod Latest
mod Tests
use mathlib.Core.Option
use allidb.Ring.{Ring, get_owners}
use allidb.Base.{
  Bool, Bytes, List, Map, Option, Result, [], err, fail_if, false, if◌then◌else◌, insert, keep, leb,
  length, lookup, ltb, map, none, not, ok, some, take, true, ℕ, ◌&&◌, ◌++◌, ◌+◌, ◌==◌, ◌>>=◌, ◌>>◌,
  ◌∷◌,
}

pub record Config : Type 0 where
  pub read_quorum : ℕ
  pub write_quorum : ℕ
  pub replica_count : ℕ

-- A value of none is a nil slice.
pub record Response (E : Type 0) : Type 0 where
  pub node_id : Bytes
  pub value : Option Bytes
  pub error : Option E
  pub success : Bool

pub record Coordinator : Type 0 where
  pub ring : Ring
  pub gossip : Option (List Bytes)
  pub config : Config

pub data CoordinatorError : Type 0 where
  no_replicas : Bytes → CoordinatorError
  insufficient quorum_not_reached : ℕ → ℕ → CoordinatorError

unfoldable pub alive_set : List Bytes → Map Bool → Map Bool
alive_set [] set = set
alive_set (id ∷ ids) set = alive_set ids (insert id true set)

unfoldable pub filter_alive_nodes : Option (List Bytes) → List Bytes → List Bytes
unfolding alive_set
filter_alive_nodes none nodes = nodes
filter_alive_nodes (some ids) nodes =
    let set = alive_set ids [] in
    keep (λ id. elim (lookup id set) [ none ↦ false | some b ↦ b ]) nodes

abbrev pub is_nil {ℓ} : {A : Type ℓ} → Option A → Bool
is_nil none = true
is_nil (some a) = false

-- The first value with the highest count, in the order in which the map is read.
unfoldable pub most_frequent : List (Bytes × ℕ) → ℕ → Option Bytes → Option Bytes
most_frequent [] max_count result = result
most_frequent ((v, n) ∷ counts) max_count result =
    if ltb max_count n
    then most_frequent counts n (some v)
    else most_frequent counts max_count result

module _ {E : Type 0} where
  unfoldable pub read_from_replicas :
      (Bytes → Bytes → Option Bytes × Option E) → Bytes → List Bytes → List (Response E)
  read_from_replicas client key replicas =
      map
        (λ id.
          let (value, error) = client id key in
          record { node_id = id; value = value; error = error; success = is_nil error })
        replicas

  unfoldable pub write_to_replicas :
      (Bytes → Bytes → Option Bytes → Option E)
      → Bytes
      → Option Bytes
      → List Bytes
      → List (Response E)
  write_to_replicas client key value replicas =
      map
        (λ id.
          let error = client id key value in
          record { node_id = id; value = none; error = error; success = is_nil error })
        replicas

  unfoldable pub collect_successful : ℕ → List (Response E) → List (Response E) → List (Response E)
  collect_successful quorum successful [] = successful
  collect_successful quorum successful (r ∷ rs) =
      if r.success
      then if leb quorum (length (successful ++ r ∷ []))
        then successful ++ r ∷ []
        else collect_successful quorum (successful ++ r ∷ []) rs
      else collect_successful quorum successful rs

  unfoldable pub wait_for_quorum : List (Response E) → ℕ → List (Response E)
  unfolding collect_successful
  wait_for_quorum responses quorum = collect_successful quorum [] responses

  -- How often each value occurs among the successful responses.
  unfoldable pub count_values : List (Response E) → Map ℕ → Map ℕ
  count_values [] counts = counts
  count_values (r ∷ rs) counts =
      if r.success
      then elim r.value [
        | none ↦ count_values rs counts
        | some v ↦
            count_values rs (insert v (elim (lookup v counts) [ none ↦ 1 | some n ↦ n + 1 ]) counts)
      ]
      else count_values rs counts

  unfoldable pub first_value : List (Response E) → Option Bytes
  first_value [] = none
  first_value (r ∷ rs) = if r.success && not (is_nil r.value) then r.value else first_value rs

  -- The order of a map's entries is an argument.
  unfoldable pub merge_read_responses :
      (List (Bytes × ℕ) → List (Bytes × ℕ)) → List (Response E) → Option Bytes
  unfolding count_values most_frequent first_value
  merge_read_responses order [] = none
  merge_read_responses order (r ∷ rs) =
      let result = most_frequent (order (count_values (r ∷ rs) [])) 0 none in
      if is_nil result then first_value (r ∷ rs) else result

-- The lengths checked before the requests are sent, and the replicas that are alive.
unfoldable pub alive_quorum :
    Option (List Bytes) → ℕ → Bytes → List Bytes → Result CoordinatorError (List Bytes)
unfolding filter_alive_nodes
alive_quorum gossip quorum key replicas = do
  fail_if (length replicas == 0) (no_replicas key)
  fail_if (ltb (length (filter_alive_nodes gossip replicas)) quorum)
      (insufficient quorum (length (filter_alive_nodes gossip replicas)))
  ok (filter_alive_nodes gossip replicas)

-- None where the ring panics.
unfoldable pub select_replicas : (Bytes → Bytes) → Coordinator → Bytes → Option (List Bytes)
select_replicas sha1 c key = elim (get_owners sha1 c.ring key) [
  | none ↦ none
  | some owners ↦ some (
      if ltb c.config.replica_count (length owners)
      then take c.config.replica_count owners
      else owners)
]

module _ {E : Type 0} where
  unfoldable pub read_replicas :
      Coordinator
      → (Bytes → Bytes → Option Bytes × Option E)
      → Bytes
      → List Bytes
      → Result CoordinatorError (List (Response E))
  unfolding alive_quorum
  read_replicas c client key replicas =
      alive_quorum c.gossip c.config.read_quorum key replicas >>= λ alive_replicas.
      let responses = read_from_replicas client key alive_replicas in
      let got = length (wait_for_quorum responses c.config.read_quorum) in
      if ltb got c.config.read_quorum
      then err (quorum_not_reached c.config.read_quorum got)
      else ok responses

  unfoldable pub write_replicas :
      Coordinator
      → (Bytes → Bytes → Option Bytes → Option E)
      → Bytes
      → Option Bytes
      → List Bytes
      → Result CoordinatorError (Unit {0})
  unfolding alive_quorum
  write_replicas c client key value replicas =
      alive_quorum c.gossip c.config.write_quorum key replicas >>= λ alive_replicas.
      let responses = write_to_replicas client key value alive_replicas in
      let got = length (wait_for_quorum responses c.config.write_quorum) in
      if ltb got c.config.write_quorum
      then err (quorum_not_reached c.config.write_quorum got)
      else ok tt

module _ (sha1 : Bytes → Bytes) {E : Type 0} where
  unfoldable pub read_with_responses :
      Coordinator
      → (Bytes → Bytes → Option Bytes × Option E)
      → Bytes
      → Option (Result CoordinatorError (List (Response E)))
  unfolding select_replicas read_replicas
  read_with_responses c client key =
      Option.map (read_replicas c client key) (select_replicas sha1 c key)

  unfoldable pub read :
      (List (Bytes × ℕ) → List (Bytes × ℕ))
      → Coordinator
      → (Bytes → Bytes → Option Bytes × Option E)
      → Bytes
      → Option (Result CoordinatorError (Option Bytes))
  unfolding read_with_responses
  read order c client key =
      Option.map (λ result. result >>= λ responses. ok (merge_read_responses order responses))
        (read_with_responses c client key)

  unfoldable pub write :
      Coordinator
      → (Bytes → Bytes → Option Bytes → Option E)
      → Bytes
      → Option Bytes
      → Option (Result CoordinatorError (Unit {0}))
  unfolding select_replicas write_replicas
  write c client key value =
      Option.map (write_replicas c client key value) (select_replicas sha1 c key)

unfoldable pub get_replicas : (Bytes → Bytes) → Coordinator → Bytes → Option (List Bytes)
get_replicas sha1 c key = select_replicas sha1 c key

unfoldable pub get_alive_replicas : (Bytes → Bytes) → Coordinator → Bytes → Option (List Bytes)
unfolding filter_alive_nodes
get_alive_replicas sha1 c key = Option.map (filter_alive_nodes c.gossip) (get_replicas sha1 c key)

unfoldable pub update_config : Coordinator → Config → Coordinator
update_config c config = record c { config = config }
