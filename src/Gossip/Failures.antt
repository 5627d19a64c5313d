-- ===== src/Gossip/Failures.antt =====
-- Failure detection, and what a SYN is answered with.
use allidb.Gossip.{
  NodeState, alive, dead, unknown, EndpointState, GossipDigest, Gossip, newer, check_node,
  check_dead_nodes, get_alive_nodes, get_node_state, is_alive, request, request_all, request_local,
  handle_syn,
}
use allidb.Base.{
  All, Bool, Bool-cases, Bytes, DistinctKeys, List, Map, Option, Option-cases, [], any, ap, arith,
  false, has_key, if◌then◌else◌, inl, inr, keep, lookup, lookup-insert, ltb, ltb→lt, map, none,
  refl, some, str_eq, str_eq_iff, str_eq_refl, true, ℕ, ◌++◌, ◌-◌, ◌<◌, ◌↔◌, ◌∙◌, ◌∷◌, ◌≡◌, ◌⊎◌,
}

abbrev pub Overdue : ℕ → ℕ → EndpointState → Type 0
Overdue now timeout s = timeout < now - s.last_update

lookup-check :
    (now timeout : ℕ) (id : Bytes) (m : Map EndpointState)
    → lookup id (check_dead_nodes now timeout m).0
      ≡ elim (lookup id m) as (λ _. Option EndpointState) [
        | none ↦ none
        | some s ↦ some (check_node now timeout s).0
      ]
unfolding check_dead_nodes lookup
lookup-check now timeout id [] = refl
lookup-check now timeout id ((j, s) ∷ m) = ground (arith, lookup-check now timeout id m)

check-at :
    (now timeout : ℕ) (id : Bytes) (m : Map EndpointState) (s : EndpointState)
    → lookup id m ≡ some s
    → lookup id (check_dead_nodes now timeout m).0 ≡ some (check_node now timeout s).0
check-at now timeout id m s e = rw (lookup-check now timeout id m, e)

is_alive_iff : (s : NodeState) → (is_alive s ≡ true) ↔ (s ≡ alive)
is_alive_iff alive = (λ h. refl, λ h. refl)
is_alive_iff dead = (λ h. cc, λ h. cc)
is_alive_iff unknown = (λ h. cc, λ h. cc)

check_marks :
    (now timeout : ℕ) (s : EndpointState)
    → (s.state ≡ alive) × Overdue now timeout s
    → (check_node now timeout s).0 ≡ record s { state = dead }
unfolding check_node
check_marks now timeout s h = ground (arith, is_alive_iff s.state)

check_keeps :
    (now timeout : ℕ) (s : EndpointState)
    → ¬ ((s.state ≡ alive) × Overdue now timeout s)
    → (check_node now timeout s).0 ≡ s
unfolding check_node
check_keeps now timeout s h = elim (Bool-cases (ltb timeout (now - s.last_update))) [
  | inr early ↦ rw early
  | inl late ↦ elim (Bool-cases (is_alive s.state)) [
    | inr gone ↦ rw (late, gone)
    | inl live ↦
        absurd (h ((is_alive_iff s.state).0 live, ltb→lt timeout (now - s.last_update) late))
  ]
]

-- A check for dead nodes marks a known node dead exactly if it was alive and is overdue, and changes
-- nothing else of its entry; in every other case the entry stays as it was.
pub check_dead_nodes-lookup :
    (now timeout : ℕ) (id : Bytes) (m : Map EndpointState) (s : EndpointState)
    → lookup id m ≡ some s
    → ((s.state ≡ alive)
        × Overdue now timeout s
        × (lookup id (check_dead_nodes now timeout m).0 ≡ some (record s { state = dead })))
      ⊎ (¬ ((s.state ≡ alive) × Overdue now timeout s)
          × (lookup id (check_dead_nodes now timeout m).0 ≡ some s))
check_dead_nodes-lookup now timeout id m s e =
    elim (Bool-cases (ltb timeout (now - s.last_update))) [
      | inr early ↦ inr (
        λ h. ground (arith, early),
        check-at now timeout id m s e
            ∙ ap some (check_keeps now timeout s (λ h. ground (arith, early))),
      )
      | inl late ↦ elim (Bool-cases (is_alive s.state)) [
        | inr gone ↦ inr (
          λ h. ground (arith, is_alive_iff s.state, gone),
          check-at now timeout id m s e
              ∙ ap some
                  (check_keeps now timeout s (λ h. ground (arith, is_alive_iff s.state, gone))),
        )
        | inl live ↦
            let a = (is_alive_iff s.state).0 live in
            let o = ltb→lt timeout (now - s.last_update) late in
            inl (a, o, check-at now timeout id m s e ∙ ap some (check_marks now timeout s (a, o)))
      ]
    ]

-- No digest of this node is in the list.
abbrev pub NoDigest : Bytes → List GossipDigest → Type 0
NoDigest id ds = All (λ d. str_eq d.node_id id ≡ false) ds

request-other :
    (g : Gossip) (d : GossipDigest) (id : Bytes) (out : Map EndpointState)
    → str_eq d.node_id id ≡ false
    → lookup id (request g d out) ≡ lookup id out
unfolding request
request-other g d id out h = elim (Option-cases (lookup d.node_id g.endpoint_states)) [
  | inl e ↦ rw (e, request)
  | inr (ours, e) ↦ rw (e, request) (ground (arith, lookup-insert d.node_id id ours out))
]

request_all-other :
    (g : Gossip) (ds : List GossipDigest) (id : Bytes) (out : Map EndpointState)
    → NoDigest id ds
    → lookup id (request_all g ds out) ≡ lookup id out
unfolding request_all
request_all-other g [] id out no_digest = refl
request_all-other g (d ∷ ds) id out no_digest =
    request_all-other g ds id (request g d out) no_digest.1 ∙ request-other g d id out no_digest.0

request_local-other :
    (g : Gossip) (ds : List GossipDigest) (id : Bytes) (out : Map EndpointState)
    → str_eq g.local_state.node_id id ≡ false
    → lookup id (request_local g ds out) ≡ lookup id out
unfolding request_local
request_local-other g [] id out h = rw (lookup-insert g.local_state.node_id id g.local_state out, h)
request_local-other g (d ∷ ds) id out h = ground (
  arith,
  lookup-insert g.local_state.node_id id g.local_state out,
  request_local-other g ds id out h,
)

request_all-at :
    (g : Gossip) (pre : List GossipDigest) (d : GossipDigest) (post : List GossipDigest)
    (out : Map EndpointState)
    → NoDigest d.node_id post
    → (o : Map EndpointState) × (lookup d.node_id (request_all g (pre ++ d ∷ post) out)
        ≡ lookup d.node_id (request g d o))
      × (NoDigest d.node_id pre → lookup d.node_id o ≡ lookup d.node_id out)
unfolding request_all
request_all-at g [] d post out no_digest =
    (out, request_all-other g post d.node_id (request g d out) no_digest, λ h. refl)
request_all-at g (p ∷ pre) d post out no_digest =
    let rest = request_all-at g pre d post (request g p out) no_digest in
    (rest.0, rest.1, λ h. rest.2 h.1 ∙ request-other g p d.node_id out h.0)

-- The entry that a node has and that is newer than a digest.
abbrev pub newer_entry : Gossip → GossipDigest → Option EndpointState
newer_entry g d = elim (lookup d.node_id g.endpoint_states) as (λ _. Option EndpointState) [
  | none ↦ none
  | some ours ↦
      if newer ours.generation ours.heartbeat d.generation d.heartbeat then some ours else none
]

request_self :
    (g : Gossip) (d : GossipDigest) (out : Map EndpointState)
    → lookup d.node_id out ≡ none
    → lookup d.node_id (request g d out) ≡ newer_entry g d
unfolding request
request_self g d out h = elim (Option-cases (lookup d.node_id g.endpoint_states)) [
  | inl e ↦ ground (arith, e)
  | inr (ours, e) ↦
      ground (arith, e, lookup-insert d.node_id d.node_id ours out, str_eq_refl d.node_id)
]

lookup_empty : (id : Bytes) → lookup {V = EndpointState} id [] ≡ none
unfolding lookup
lookup_empty id = refl

-- For a digest of another node, the only one of that node in the SYN, the ACK carries the
-- receiver's entry exactly if it has one that is newer than the digest.
handle_syn-lookup :
    (g : Gossip) (pre : List GossipDigest) (d : GossipDigest) (post : List GossipDigest)
    → NoDigest d.node_id pre
    → NoDigest d.node_id post
    → str_eq g.local_state.node_id d.node_id ≡ false
    → lookup d.node_id (handle_syn g (pre ++ d ∷ post)).states ≡ newer_entry g d
unfolding handle_syn
handle_syn-lookup g pre d post before after not_local =
    let at = request_all-at g pre d post [] after in
    request_local-other g (pre ++ d ∷ post) d.node_id (request_all g (pre ++ d ∷ post) []) not_local
    ∙ at.1
    ∙ request_self g d at.0 (at.2 before ∙ lookup_empty d.node_id)

keep_keys_absent :
    (id : Bytes) (m : Map EndpointState)
    → has_key id m ≡ false
    → any (λ j. str_eq j id) (map (λ e. e.0) (keep (λ e. is_alive e.1.state) m)) ≡ false
unfolding has_key
keep_keys_absent id [] h = refl
keep_keys_absent id ((j, s) ∷ m) h = ground (arith, keep_keys_absent id m)

alive_keys :
    (id : Bytes) (m : Map EndpointState)
    → DistinctKeys m
    → any (λ j. str_eq j id) (map (λ e. e.0) (keep (λ e. is_alive e.1.state) m))
      ≡ (elim (lookup id m) as (λ _. Bool) [ none ↦ false | some s ↦ is_alive s.state ])
unfolding lookup
alive_keys id [] d = refl
alive_keys id ((j, s) ∷ m) d = elim (Bool-cases (is_alive s.state)) [
  | inl live ↦ ground (arith, alive_keys id m d.1, live, keep_keys_absent id m, str_eq_iff j id)
  | inr gone ↦ ground (arith, alive_keys id m d.1, gone, keep_keys_absent id m, str_eq_iff j id)
]

-- Where the endpoint states have distinct keys, a node is among the alive nodes exactly if it is
-- the local node or its state is alive: the two queries agree.
get_alive_nodes-eq-get_node_state :
    (g : Gossip) (id : Bytes)
    → DistinctKeys g.endpoint_states
    → any (λ j. str_eq j id) (get_alive_nodes g) ≡ is_alive (get_node_state g id).0
unfolding get_alive_nodes get_node_state
get_alive_nodes-eq-get_node_state g id d = ground (
  arith,
  alive_keys id g.endpoint_states d,
  str_eq_iff id g.local_node_id,
  str_eq_iff g.local_node_id id,
)
