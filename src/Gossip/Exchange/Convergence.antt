-- ===== src/Gossip/Exchange/Convergence.antt =====
-- Two nodes that exchange messages in both directions agree on the nodes that both know.
use mathlib.Core.Path.{subst}
use allidb.Gossip.{
  EndpointState, GossipDigest, Gossip, newer, digest_of, build_digest, request, request_all,
  request_local, handle_syn, merge, existing_state, update_endpoint_state, update_all, ack2_states,
  handle_ack, handle_ack2,
}
use allidb.Gossip.Versions.{
  VersionLe, VersionLe-refl, version, existing_state-update, update_all-le_old,
}
use allidb.Gossip.Exchange.{exchange, state_of, answer, existing_some, request_cases, pulled}
use allidb.Base.{
  All, Bool-cases, Bytes, List, Map, Option-cases, [], ap, arith, false, inl, inr, insert, lookup,
  lookup-insert, refl, some, str_eq, str_eq_iff, str_eq_refl, sym, ℕ, ◌∙◌, ◌∷◌, ◌≡◌,
}

All-insert :
    {V : Type 0} (P : Bytes × V → Type 0) (k : Bytes) (v : V) (m : Map V)
    → P (k, v)
    → All P m
    → All P (insert k v m)
unfolding insert
All-insert P k v [] p a = (p, tt)
All-insert P k v ((j, w) ∷ m) p a = elim (Bool-cases (str_eq j k)) [
  | inl same ↦ rw (insert, same) (rw ((str_eq_iff j k).0 same) p, a.1)
  | inr other ↦ rw (insert, other) (a.0, All-insert P k v m p a.1)
]

-- An entry under another id than the node's own is the node's entry.
abbrev IsEntryOf : Gossip → Bytes × EndpointState → Type 0
IsEntryOf g e = str_eq g.local_state.node_id e.0 ≡ false → state_of g e.0 ≡ e.1

request-IsEntryOf :
    (g : Gossip) (d : GossipDigest) (req : Map EndpointState)
    → All (IsEntryOf g) req
    → All (IsEntryOf g) (request g d req)
request-IsEntryOf g d req a = elim (request_cases g d req) [
  | inl e ↦ rw e a
  | inr (ours, e, f) ↦ rw f (
      All-insert (IsEntryOf g) d.node_id ours req
        (λ other. existing_some d.node_id g.endpoint_states ours e) a)
]

request_all-IsEntryOf :
    (g : Gossip) (ds : List GossipDigest) (req : Map EndpointState)
    → All (IsEntryOf g) req
    → All (IsEntryOf g) (request_all g ds req)
unfolding request_all
request_all-IsEntryOf g [] req a = a
request_all-IsEntryOf g (d ∷ ds) req a =
    request_all-IsEntryOf g ds (request g d req) (request-IsEntryOf g d req a)

own-IsEntryOf :
    (g : Gossip) (req : Map EndpointState)
    → All (IsEntryOf g) req
    → All (IsEntryOf g) (insert g.local_state.node_id g.local_state req)
own-IsEntryOf g req a =
    All-insert (IsEntryOf g) g.local_state.node_id g.local_state req
      (λ other. ground (arith, other, str_eq_refl g.local_state.node_id)) a

request_local-IsEntryOf :
    (g : Gossip) (ds : List GossipDigest) (req : Map EndpointState)
    → All (IsEntryOf g) req
    → All (IsEntryOf g) (request_local g ds req)
unfolding request_local
request_local-IsEntryOf g [] req a = own-IsEntryOf g req a
request_local-IsEntryOf g (d ∷ ds) req a =
    elim (Bool-cases (str_eq d.node_id g.local_state.node_id)) [
      | inl own ↦
          elim (Bool-cases
            (newer g.local_state.generation g.local_state.heartbeat d.generation d.heartbeat)) [
              | inl new ↦ rw (request_local, own, new) (own-IsEntryOf g req a)
              | inr old ↦ rw (request_local, own, old) a
            ]
      | inr other ↦ rw (request_local, other) (request_local-IsEntryOf g ds req a)
    ]

answer-IsEntryOf : (a b : Gossip) → All (IsEntryOf b) (answer a b)
unfolding handle_syn
answer-IsEntryOf a b =
    request_local-IsEntryOf b (build_digest a) (request_all b (build_digest a) [])
      (request_all-IsEntryOf b (build_digest a) [] tt)

merge-le_upper :
    (now : ℕ) (old new x : EndpointState)
    → VersionLe old x
    → VersionLe new x
    → VersionLe (merge now old new).0 x
unfolding merge
merge-le_upper now old new x h k = ground (arith, h, k)

update_all-le_upper :
    (now : ℕ) (states m : Map EndpointState) (j : Bytes) (x : EndpointState)
    → All (λ e. e.0 ≡ j → VersionLe e.1 x) states
    → VersionLe (existing_state j m) x
    → VersionLe (existing_state j (update_all now states m).0) x
unfolding update_all
update_all-le_upper now [] m j x a h = h
update_all-le_upper now ((id, s) ∷ states) m j x a h =
    let m' = (update_endpoint_state now m id s).0 in
    update_all-le_upper now states m' j x a.1 (elim (Bool-cases (str_eq id j)) [
      | inl same ↦
          let e = (str_eq_iff id j).0 same in
          rw (existing_state-update now m id j s, same, e)
            (merge-le_upper now (existing_state j m) s x h (a.0 e))
      | inr other ↦ rw (existing_state-update now m id j s, other) h
    ])

-- States of other nodes leave an entry as it is.
update_all-other :
    (now : ℕ) (states m : Map EndpointState) (j : Bytes)
    → All (λ e. str_eq e.0 j ≡ false) states
    → lookup j (update_all now states m).0 ≡ lookup j m
unfolding update_all update_endpoint_state
update_all-other now [] m j a = refl
update_all-other now ((id, s) ∷ states) m j a =
    update_all-other now states (update_endpoint_state now m id s).0 j a.1
    ∙ rw (lookup-insert id j (merge now (existing_state id m) s).0 m, a.0) refl

ack2_states-other :
    (m : Map EndpointState) (d : GossipDigest) (j : Bytes)
    → str_eq d.node_id j ≡ false
    → All (λ e. str_eq e.0 j ≡ false) (ack2_states m (d ∷ []) [])
unfolding ack2_states insert
ack2_states-other m d j h = elim (Option-cases (lookup d.node_id m)) [
  | inl e ↦ rw (ack2_states, e) tt
  | inr (ours, e) ↦
      elim (Bool-cases (newer ours.generation ours.heartbeat d.generation d.heartbeat)) [
        | inl new ↦ rw (ack2_states, e, new) (h, tt)
        | inr old ↦ rw (ack2_states, e, old) tt
      ]
]

-- What the first node sends at the end is about the second alone.
second-states :
    (now : ℕ) (a b : Gossip) (j : Bytes)
    → str_eq b.local_state.node_id j ≡ false
    → lookup j (exchange now a b).1.endpoint_states ≡ lookup j b.endpoint_states
unfolding handle_ack handle_ack2 handle_syn digest_of
second-states now a b j other =
    let m' = (exchange now a b).0.endpoint_states in
    let d = digest_of b.local_state.node_id b.local_state in
    update_all-other now (ack2_states m' (d ∷ []) []) b.endpoint_states j
      (ack2_states-other m' d j other)

existing_same :
    (j : Bytes) (m m' : Map EndpointState)
    → lookup j m ≡ lookup j m'
    → existing_state j m ≡ existing_state j m'
unfolding existing_state
existing_same j m m' h = rw (existing_state, h) refl

entries_below :
    (g : Gossip) (j : Bytes)
    → str_eq g.local_state.node_id j ≡ false
    → (states : Map EndpointState) → All (IsEntryOf g) states
    → All (λ e. e.0 ≡ j → VersionLe e.1 (state_of g j)) states
entries_below g j other [] a = tt
entries_below g j other ((k, s) ∷ states) a = (
  λ e.
      subst (λ s'. VersionLe s' (state_of g j))
        (ap (state_of g) (sym e) ∙ a.0 (ap (str_eq g.local_state.node_id) e ∙ other))
        (VersionLe-refl (state_of g j)),
  entries_below g j other states a.1,
)

VersionLe-antisym : (a b : EndpointState) → VersionLe a b → VersionLe b a → version a ≡ version b
VersionLe-antisym a b h k = ground (arith, h, k)

-- The two nodes after an exchange that the first starts, and one that the second starts.
abbrev pub both_ways : ℕ → ℕ → Gossip → Gossip → Gossip × Gossip
both_ways now now' a b =
    let (a', b') = exchange now a b in let (b'', a'') = exchange now' b' a' in (a'', b'')

-- Of two nodes, the first starts an exchange with the second, and then the second one with the
-- first, and no message is lost. Of each third node that both knew, they then have entries of the
-- same version, which is at least that of both nodes' old entries.
pub both_ways_converges :
    (now now' : ℕ) (a b : Gossip) (j : Bytes) (old old' : EndpointState)
    → str_eq a.local_state.node_id j ≡ false
    → str_eq b.local_state.node_id j ≡ false
    → lookup j a.endpoint_states ≡ some old
    → lookup j b.endpoint_states ≡ some old'
    → let (a', b') = both_ways now now' a b in
      (version (state_of a' j) ≡ version (state_of b' j))
      × VersionLe old (state_of a' j)
      × VersionLe old' (state_of a' j)
unfolding handle_ack handle_ack2
both_ways_converges now now' a b j old old' other other' e e' =
    let (a', b') = exchange now a b in
    let (b'', a'') = exchange now' b' a' in
    let x = state_of a' j in
    let kept = second-states now a b j other' in
    let below =
      subst (λ s. VersionLe s x) (existing_some j b.endpoint_states old' e')
        (pulled now a b j old other' e) in
    let above = pulled now' b' a' j old' other (kept ∙ e') in
    let own =
      subst (λ s. VersionLe s x) (existing_some j a.endpoint_states old e)
        (update_all-le_old now (answer a b) a.endpoint_states j) in
    let upper =
      update_all-le_upper now' (answer b' a') b'.endpoint_states j x
        (entries_below a' j other (answer b' a') (answer-IsEntryOf b' a'))
        (rw (existing_some j b'.endpoint_states old' (kept ∙ e')) below) in
    rw (existing_same j a''.endpoint_states a'.endpoint_states (second-states now' b' a' j other))
      (VersionLe-antisym x (state_of b'' j) above upper, own, below)
