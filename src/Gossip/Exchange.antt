-- ===== src/Gossip/Exchange.antt =====
-- SYN, ACK and ACK2 between two nodes, and what the first has learnt afterwards.
pub mod Convergence
use mathlib.Core.Path.{subst}
use allidb.Gossip.{
  EndpointState, GossipDigest, Gossip, Ack, newer, digest_of, build_digest, request, request_all,
  request_local, handle_syn, merge, existing_state, fresh_state, update_endpoint_state, update_all,
  ack2_states, handle_ack, handle_ack2,
}
use allidb.Gossip.Versions.{
  VersionLe, VersionLe-refl, VersionLe-trans, version, existing_state-update, update_all-le_old,
  update_all-le_new, merge-le_new,
}
use allidb.Base.{
  All, Bool-cases, Bytes, List, Map, Option-cases, [], ap, arith, false, inl, inr, insert, lookup,
  lookup-insert, map, none, refl, some, str_eq, str_eq_iff, sym, true, ℕ, ◌∙◌, ◌∷◌, ◌≡◌, ◌⊎◌,
}

-- The first node sends a SYN; the two nodes after the messages.
abbrev pub exchange : ℕ → Gossip → Gossip → Gossip × Gossip
exchange now a b =
    let (a', states, events) = handle_ack now a (handle_syn b (build_digest a)) in
    (a', (handle_ack2 now b states).0)

abbrev pub state_of : Gossip → Bytes → EndpointState
state_of g j = existing_state j g.endpoint_states

-- What a digest adds is the receiver's entry, if anything.
pub request_cases :
    (g : Gossip) (d : GossipDigest) (req : Map EndpointState)
    → (request g d req ≡ req)
      ⊎ ((ours : EndpointState) × (lookup d.node_id g.endpoint_states ≡ some ours)
          × (request g d req ≡ insert d.node_id ours req))
unfolding request
request_cases g d req = elim (Option-cases (lookup d.node_id g.endpoint_states)) [
  | inl e ↦ inl (rw (request, e) refl)
  | inr (ours, e) ↦
      elim (Bool-cases (newer d.generation d.heartbeat ours.generation ours.heartbeat)) [
        | inl old ↦ inl (rw (request, e, old) refl)
        | inr not_old ↦
            elim (Bool-cases (newer ours.generation ours.heartbeat d.generation d.heartbeat)) [
              | inl new ↦ inr (ours, e, rw (request, e, not_old, new) refl)
              | inr not_new ↦ inl (rw (request, e, not_old, not_new) refl)
            ]
      ]
]

not_older : (g h g' h' : ℕ) → newer g h g' h' ≡ true → newer g' h' g h ≡ false
not_older g h g' h' e = ground (arith, e)

request-newer :
    (g : Gossip) (d : GossipDigest) (req : Map EndpointState) (ours : EndpointState)
    → lookup d.node_id g.endpoint_states ≡ some ours
    → newer ours.generation ours.heartbeat d.generation d.heartbeat ≡ true
    → request g d req ≡ insert d.node_id ours req
unfolding request
request-newer g d req ours e n =
    rw (request, e, not_older ours.generation ours.heartbeat d.generation d.heartbeat n, n) refl

-- Once it is the receiver's entry, it stays.
lookup-request :
    (g : Gossip) (d : GossipDigest) (req : Map EndpointState) (j : Bytes)
    → lookup j req ≡ lookup j g.endpoint_states
    → lookup j (request g d req) ≡ lookup j g.endpoint_states
lookup-request g d req j h = elim (request_cases g d req) [
  | inl e ↦ rw e h
  | inr (ours, e, f) ↦ elim (Bool-cases (str_eq d.node_id j)) [
    | inl same ↦
        rw (f, lookup-insert d.node_id j ours req, same)
          (sym e ∙ ap (λ k. lookup k g.endpoint_states) ((str_eq_iff d.node_id j).0 same))
    | inr other ↦ rw (f, lookup-insert d.node_id j ours req, other) h
  ]
]

lookup-request_all :
    (g : Gossip) (ds : List GossipDigest) (req : Map EndpointState) (j : Bytes)
    → lookup j req ≡ lookup j g.endpoint_states
    → lookup j (request_all g ds req) ≡ lookup j g.endpoint_states
unfolding request_all
lookup-request_all g [] req j h = h
lookup-request_all g (d ∷ ds) req j h =
    lookup-request_all g ds (request g d req) j (lookup-request g d req j h)

lookup_cons :
    {V : Type 0} (k j : Bytes) (w v : V) (m : Map V)
    → lookup j ((k, w) ∷ m) ≡ some v
    → ((k ≡ j) × (w ≡ v)) ⊎ (lookup j m ≡ some v)
unfolding lookup
lookup_cons k j w v m h = ground (arith, h, str_eq_iff k j)

All-lookup :
    {V : Type 0} (P : Bytes × V → Type 0) (m : Map V) (j : Bytes) (v : V)
    → All P m
    → lookup j m ≡ some v
    → P (j, v)
unfolding lookup
All-lookup P [] j v a h = ground (arith, h)
All-lookup P ((k, w) ∷ m) j v a h = elim (lookup_cons k j w v m h) [
  | inl (e, f) ↦ rw (← e, ← f) a.0
  | inr more ↦ All-lookup P m j v a.1 more
]

-- Where the sender's entry of a node is older, the receiver's is among the states.
request_all-older :
    (g : Gossip) (m req : Map EndpointState) (j : Bytes) (theirs ours : EndpointState)
    → lookup j m ≡ some theirs
    → lookup j g.endpoint_states ≡ some ours
    → newer ours.generation ours.heartbeat theirs.generation theirs.heartbeat ≡ true
    → lookup j (request_all g (map (λ e. digest_of e.0 e.1) m) req) ≡ some ours
unfolding request_all lookup digest_of
request_all-older g [] req j theirs ours e f n = ground (arith, e)
request_all-older g ((k, s) ∷ m) req j theirs ours e f n = elim (lookup_cons k j s theirs m e) [
  | inl (same, same') ↦
      let hit =
        request-newer g (digest_of k s) req ours (ap (λ i. lookup i g.endpoint_states) same ∙ f)
          (rw same' n) in
      lookup-request_all g (map (λ e. digest_of e.0 e.1) m) (request g (digest_of k s) req) j
        (rw (hit, lookup-insert k j ours req, (str_eq_iff k j).1 same) (sym f))
      ∙ f
  | inr more ↦ request_all-older g m (request g (digest_of k s) req) j theirs ours more f n
]

-- The local state is added under the node's own id.
lookup-request_local :
    (g : Gossip) (ds : List GossipDigest) (req : Map EndpointState) (j : Bytes)
    → str_eq g.local_state.node_id j ≡ false
    → lookup j (request_local g ds req) ≡ lookup j req
unfolding request_local
lookup-request_local g [] req j h =
    rw (lookup-insert g.local_state.node_id j g.local_state req, h) refl
lookup-request_local g (d ∷ ds) req j h =
    elim (Bool-cases (str_eq d.node_id g.local_state.node_id)) [
      | inl own ↦
          elim (Bool-cases
            (newer g.local_state.generation g.local_state.heartbeat d.generation d.heartbeat)) [
              | inl new ↦
                  rw
                    (
                      request_local,
                      own,
                      new,
                      lookup-insert g.local_state.node_id j g.local_state req,
                      h,
                    )
                    refl
              | inr old ↦ rw (request_local, own, old) refl
            ]
      | inr other ↦ rw (request_local, other) (lookup-request_local g ds req j h)
    ]

not_newer-VersionLe :
    (a b : EndpointState)
    → newer b.generation b.heartbeat a.generation a.heartbeat ≡ false
    → VersionLe b a
not_newer-VersionLe a b h = ground (arith, h)

fresh-VersionLe : (id : Bytes) (a : EndpointState) → VersionLe (fresh_state id) a
fresh-VersionLe id a = ground arith

pub existing_some :
    (j : Bytes) (m : Map EndpointState) (s : EndpointState)
    → lookup j m ≡ some s
    → existing_state j m ≡ s
unfolding existing_state
existing_some j m s h = rw (existing_state, h) refl

existing_none :
    (j : Bytes) (m : Map EndpointState) → lookup j m ≡ none → existing_state j m ≡ fresh_state j
unfolding existing_state
existing_none j m h = rw (existing_state, h) refl

-- What the second node's ACK brings.
abbrev pub answer : Gossip → Gossip → Map EndpointState
answer a b = (handle_syn b (build_digest a)).states

answer-older :
    (a b : Gossip) (j : Bytes) (theirs ours : EndpointState)
    → str_eq b.local_state.node_id j ≡ false
    → lookup j a.endpoint_states ≡ some theirs
    → lookup j b.endpoint_states ≡ some ours
    → newer ours.generation ours.heartbeat theirs.generation theirs.heartbeat ≡ true
    → lookup j (answer a b) ≡ some ours
unfolding handle_syn build_digest request_all
answer-older a b j theirs ours other e f n =
    let local = digest_of a.local_state.node_id a.local_state in
    lookup-request_local b (build_digest a) (request_all b (build_digest a) []) j other
    ∙ request_all-older b a.endpoint_states (request b local []) j theirs ours e f n

pub first-states :
    (now : ℕ) (a b : Gossip)
    → (exchange now a b).0.endpoint_states ≡ (update_all now (answer a b) a.endpoint_states).0
unfolding handle_ack
first-states now a b = refl

-- After an exchange, the first node has, of each node that it knew, but the second itself, an entry
-- that is at least as new as the second's.
pub pulled :
    (now : ℕ) (a b : Gossip) (j : Bytes) (theirs : EndpointState)
    → str_eq b.local_state.node_id j ≡ false
    → lookup j a.endpoint_states ≡ some theirs
    → VersionLe (state_of b j) (state_of (exchange now a b).0 j)
pulled now a b j theirs other e =
    let m' = (update_all now (answer a b) a.endpoint_states).0 in
    rw (first-states now a b) (elim (Option-cases (lookup j b.endpoint_states)) [
      | inl f ↦ rw (existing_none j b.endpoint_states f) (fresh-VersionLe j (existing_state j m'))
      | inr (ours, f) ↦
          rw (existing_some j b.endpoint_states ours f)
            (elim (Bool-cases
              (newer ours.generation ours.heartbeat theirs.generation theirs.heartbeat)) [
                | inl new ↦
                    All-lookup (λ x. VersionLe x.1 (existing_state x.0 m')) (answer a b) j ours
                      (update_all-le_new now (answer a b) a.endpoint_states)
                      (answer-older a b j theirs ours other e f new)
                | inr old ↦
                    VersionLe-trans ours theirs (existing_state j m')
                      (not_newer-VersionLe theirs ours old)
                      (subst (λ s. VersionLe s (existing_state j m'))
                        (existing_some j a.endpoint_states theirs e)
                        (update_all-le_old now (answer a b) a.endpoint_states j))
              ])
    ])
