-- ===== src/Gossip/Versions.antt =====
-- The versions of the endpoint states, ordered by generation and then by heartbeat.
use allidb.Gossip.{
  EndpointState, Gossip, Message, syn, ack, ack2, merge, existing_state, update_endpoint_state,
  update_all, handle_ack, handle_ack2, handle_message,
}
use allidb.Base.{
  All, Bool-cases, Bytes, List, Map, [], arith, if◌then◌else◌, inl, inr, lookup-insert, refl,
  str_eq, str_eq_iff, str_eq_refl, ℕ, ◌<◌, ◌∷◌, ◌≡◌, ◌≤◌, ◌⊎◌,
}

-- The version of a is at most that of b.
abbrev pub VersionLe : EndpointState → EndpointState → Type 0
VersionLe a b =
    (a.generation < b.generation) ⊎ ((a.generation ≡ b.generation) × (a.heartbeat ≤ b.heartbeat))

pub VersionLe-refl : (a : EndpointState) → VersionLe a a
VersionLe-refl a = inr (refl, omega arith)

pub VersionLe-trans : (a b c : EndpointState) → VersionLe a b → VersionLe b c → VersionLe a c
VersionLe-trans a b c h k = ground arith

merge-le_old : (now : ℕ) (old new : EndpointState) → VersionLe old (merge now old new).0
unfolding merge
merge-le_old now old new = ground arith

pub merge-le_new : (now : ℕ) (old new : EndpointState) → VersionLe new (merge now old new).0
unfolding merge
merge-le_new now old new = ground arith

-- A received state changes the entry of its node alone.
pub existing_state-update :
    (now : ℕ) (m : Map EndpointState) (id j : Bytes) (new : EndpointState)
    → existing_state j (update_endpoint_state now m id new).0
      ≡ (if str_eq id j then (merge now (existing_state id m) new).0 else existing_state j m)
unfolding update_endpoint_state existing_state
existing_state-update now m id j new =
    ground (arith, lookup-insert id j (merge now (existing_state id m) new).0 m)

update-le_old :
    (now : ℕ) (m : Map EndpointState) (id j : Bytes) (new : EndpointState)
    → VersionLe (existing_state j m) (existing_state j (update_endpoint_state now m id new).0)
update-le_old now m id j new = elim (Bool-cases (str_eq id j)) [
  | inl e ↦
      let e' = (str_eq_iff id j).0 e in
      rw (existing_state-update now m id j new, e, ← e')
        (merge-le_old now (existing_state id m) new)
  | inr e ↦ rw (existing_state-update now m id j new, e) (VersionLe-refl (existing_state j m))
]

pub update_all-le_old :
    (now : ℕ) (states m : Map EndpointState) (j : Bytes)
    → VersionLe (existing_state j m) (existing_state j (update_all now states m).0)
unfolding update_all
update_all-le_old now [] m j = VersionLe-refl (existing_state j m)
update_all-le_old now ((id, s) ∷ states) m j =
    let m' = (update_endpoint_state now m id s).0 in
    VersionLe-trans (existing_state j m) (existing_state j m')
      (existing_state j (update_all now states m').0) (update-le_old now m id j s)
      (update_all-le_old now states m' j)

-- Every received state is taken in: afterwards the entry of its node is at least as new.
pub update_all-le_new :
    (now : ℕ) (states m : Map EndpointState)
    → All (λ e. VersionLe e.1 (existing_state e.0 (update_all now states m).0)) states
unfolding update_all
update_all-le_new now [] m = tt
update_all-le_new now ((id, s) ∷ states) m =
    let m' = (update_endpoint_state now m id s).0 in
    (
      VersionLe-trans s (existing_state id m') (existing_state id (update_all now states m').0)
          (rw (existing_state-update now m id id s, str_eq_refl id)
            (merge-le_new now (existing_state id m) s))
          (update_all-le_old now states m' id),
      update_all-le_new now states m',
    )

-- The states that a message brings.
abbrev pub carried : Message → Map EndpointState
carried (syn digests) = []
carried (ack a) = a.states
carried (ack2 states) = states

-- No message makes any entry older, and every state that a message brings is taken in: afterwards
-- the entry of its node is at least as new.
pub handle_message-le :
    (now : ℕ) (g : Gossip) (m : Message)
    → ((j : Bytes)
        → VersionLe
            (existing_state j g.endpoint_states)
            (existing_state j (handle_message now g m).endpoint_states))
      × All
          (λ e. VersionLe e.1 (existing_state e.0 (handle_message now g m).endpoint_states))
          (carried m)
unfolding handle_message handle_ack handle_ack2
handle_message-le now g (syn digests) =
    (λ j. VersionLe-refl (existing_state j g.endpoint_states), tt)
handle_message-le now g (ack a) = (
  λ j. update_all-le_old now a.states g.endpoint_states j,
  update_all-le_new now a.states g.endpoint_states,
)
handle_message-le now g (ack2 states) = (
  λ j. update_all-le_old now states g.endpoint_states j,
  update_all-le_new now states g.endpoint_states,
)

-- Messages one after the other, each at its time.
abbrev pub handle_all : Gossip → List (ℕ × Message) → Gossip
handle_all g [] = g
handle_all g ((now, m) ∷ ms) = handle_all (handle_message now g m) ms

-- Over any sequence of messages no node's entry gets older.
pub handle_all-le :
    (g : Gossip) (ms : List (ℕ × Message)) (j : Bytes)
    → VersionLe
        (existing_state j g.endpoint_states)
        (existing_state j (handle_all g ms).endpoint_states)
handle_all-le g [] j = VersionLe-refl (existing_state j g.endpoint_states)
handle_all-le g ((now, m) ∷ ms) j =
    VersionLe-trans (existing_state j g.endpoint_states)
      (existing_state j (handle_message now g m).endpoint_states)
      (existing_state j (handle_all (handle_message now g m) ms).endpoint_states)
      ((handle_message-le now g m).0 j) (handle_all-le (handle_message now g m) ms j)

abbrev pub version : EndpointState → ℕ × ℕ
version s = (s.generation, s.heartbeat)

merge_swap :
    (now now' : ℕ) (old a b : EndpointState)
    → version (merge now' (merge now old a).0 b).0 ≡ version (merge now (merge now' old b).0 a).0
unfolding merge
merge_swap now now' old a b = ground arith

-- The order in which two states arrive does not matter for the versions.
update_swap :
    (now now' : ℕ) (m : Map EndpointState) (i k j : Bytes) (a b : EndpointState)
    → version
        (existing_state j (update_endpoint_state now' (update_endpoint_state now m i a).0 k b).0)
      ≡ version
          (existing_state j (update_endpoint_state now (update_endpoint_state now' m k b).0 i a).0)
update_swap now now' m i k j a b =
    let ma = (update_endpoint_state now m i a).0 in
    let mb = (update_endpoint_state now' m k b).0 in
    rw
      (
        existing_state-update now' ma k j b,
        existing_state-update now mb i j a,
        existing_state-update now m i k a,
        existing_state-update now m i j a,
        existing_state-update now' m k i b,
        existing_state-update now' m k j b,
      )
      (ground (
        arith,
        str_eq_iff i k,
        str_eq_iff k i,
        str_eq_iff i j,
        str_eq_iff k j,
        merge_swap now now' (existing_state i m) a b,
      ))
