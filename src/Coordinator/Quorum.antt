-- ===== src/Coordinator/Quorum.antt =====
-- When the coordinator's reads and writes succeed, and why the replicas of two quorums meet.
use allidb.Coordinator.{
  Coordinator, Response, is_nil, filter_alive_nodes, collect_successful, wait_for_quorum,
  read_from_replicas, write_to_replicas, alive_quorum, select_replicas, read_replicas,
  write_replicas, read_with_responses, write,
}
use allidb.Base.{
  Bool, Bool-cases, Bytes, List, Option, [], any, arith, count, count-le-length, inl, inr, keep,
  length, length-append, none, ok, refl, some, true, ℕ, ◌&&◌, ◌++◌, ◌+◌, ◌<◌, ◌↔◌, ◌∙◌, ◌∷◌, ◌≡◌,
  ◌≤◌,
}

-- There are replicas, and enough of the alive ones pass the test.
abbrev pub HasQuorum : Option (List Bytes) → ℕ → (Bytes → Bool) → List Bytes → Type 0
HasQuorum gossip q test replicas =
    (0 < length replicas) × (q ≤ count test (filter_alive_nodes gossip replicas))

module _ {E : Type 0} where
  abbrev pub accepts :
      (Bytes → Bytes → Option Bytes → Option E) → Bytes → Option Bytes → Bytes → Bool
  accepts client key value id = is_nil (client id key value)

  abbrev pub answers : (Bytes → Bytes → Option Bytes × Option E) → Bytes → Bytes → Bool
  answers client key id = is_nil (client id key).1

  collect-reaches :
      (q : ℕ) (acc rs : List (Response E))
      → (q ≤ length acc + count (λ r. r.success) rs) ↔ (q ≤ length (collect_successful q acc rs))
  unfolding collect_successful
  collect-reaches q acc [] = ground arith
  collect-reaches q acc (r ∷ rs) = elim (Bool-cases r.success) [
    | inr e ↦ ground (arith, e, collect-reaches q acc rs)
    | inl e ↦ ground (arith, e, collect-reaches q (acc ++ r ∷ []) rs, length-append acc (r ∷ []))
  ]

  count-write :
      (client : Bytes → Bytes → Option Bytes → Option E) (key : Bytes) (value : Option Bytes)
      (ids : List Bytes)
      → count (λ r. r.success) (write_to_replicas client key value ids)
        ≡ count (accepts client key value) ids
  unfolding write_to_replicas
  count-write client key value [] = refl
  count-write client key value (id ∷ ids) = ground (arith, count-write client key value ids)

  pub count-read :
      (client : Bytes → Bytes → Option Bytes × Option E) (key : Bytes) (ids : List Bytes)
      → count (λ r. r.success) (read_from_replicas client key ids) ≡ count (answers client key) ids
  unfolding read_from_replicas
  count-read client key [] = refl
  count-read client key (id ∷ ids) = ground (arith, count-read client key ids)

  wait-reaches :
      (q : ℕ) (rs : List (Response E))
      → (q ≤ count (λ r. r.success) rs) ↔ (q ≤ length (wait_for_quorum rs q))
  unfolding wait_for_quorum
  wait-reaches q rs = ground (arith, collect-reaches q [] rs)

  write_replicas_iff :
      (c : Coordinator) (client : Bytes → Bytes → Option Bytes → Option E) (key : Bytes)
      (value : Option Bytes) (replicas : List Bytes)
      → (write_replicas c client key value replicas ≡ ok tt)
        ↔ HasQuorum c.gossip c.config.write_quorum (accepts client key value) replicas
  unfolding write_replicas alive_quorum
  write_replicas_iff c client key value replicas =
      let alive = filter_alive_nodes c.gossip replicas in
      ground (
        arith,
        wait-reaches c.config.write_quorum (write_to_replicas client key value alive),
        count-write client key value alive,
        count-le-length (accepts client key value) alive,
      )

  read_replicas_iff :
      (c : Coordinator) (client : Bytes → Bytes → Option Bytes × Option E) (key : Bytes)
      (replicas : List Bytes)
      → (read_replicas c client key replicas
          ≡ ok (read_from_replicas client key (filter_alive_nodes c.gossip replicas)))
        ↔ HasQuorum c.gossip c.config.read_quorum (answers client key) replicas
  unfolding read_replicas alive_quorum
  read_replicas_iff c client key replicas =
      let alive = filter_alive_nodes c.gossip replicas in
      ground (
        arith,
        wait-reaches c.config.read_quorum (read_from_replicas client key alive),
        count-read client key alive,
        count-le-length (answers client key) alive,
      )

  -- Where the ring gives the replicas of a key, a write succeeds exactly if there is one and at
  -- least the write quorum of those alive accept it.
  pub write_iff :
      (sha1 : Bytes → Bytes) (c : Coordinator) (client : Bytes → Bytes → Option Bytes → Option E)
      (key : Bytes) (value : Option Bytes) (replicas : List Bytes)
      → select_replicas sha1 c key ≡ some replicas
      → (write sha1 c client key value ≡ some (ok tt))
        ↔ HasQuorum c.gossip c.config.write_quorum (accepts client key value) replicas
  unfolding write
  write_iff sha1 c client key value replicas e =
      ground (arith, e, write_replicas_iff c client key value replicas)

  -- Where the ring gives the replicas of a key, a read gives the answers of the alive ones exactly
  -- if there is a replica and at least the read quorum of the alive ones answer.
  pub read_with_responses_iff :
      (sha1 : Bytes → Bytes) (c : Coordinator) (client : Bytes → Bytes → Option Bytes × Option E)
      (key : Bytes) (replicas : List Bytes)
      → select_replicas sha1 c key ≡ some replicas
      → (read_with_responses sha1 c client key
          ≡ some (ok (read_from_replicas client key (filter_alive_nodes c.gossip replicas))))
        ↔ HasQuorum c.gossip c.config.read_quorum (answers client key) replicas
  unfolding read_with_responses
  read_with_responses_iff sha1 c client key replicas e =
      ground (arith, e, read_replicas_iff c client key replicas)

keep_everything : (xs : List Bytes) → xs ≡ keep (λ x. true) xs
keep_everything [] = refl
keep_everything (x ∷ xs) = ground (arith, keep_everything xs)

filter-keep :
    (gossip : Option (List Bytes))
    → (test : Bytes → Bool) × ((xs : List Bytes) → filter_alive_nodes gossip xs ≡ keep test xs)
unfolding filter_alive_nodes
filter-keep none = (λ id. true, keep_everything)
filter-keep (some ids) = (_, λ xs. refl)

pigeonhole :
    (a b p q : Bytes → Bool) (xs : List Bytes)
    → length xs < count p (keep a xs) + count q (keep b xs)
    → any (λ x. p x && q x) xs ≡ true
pigeonhole a b p q [] h = absurd (omega arith)
pigeonhole a b p q (x ∷ xs) h = ground (arith, pigeonhole a b p q xs)

pub select_gossip :
    (sha1 : Bytes → Bytes) (c : Coordinator) (gossip : Option (List Bytes)) (key : Bytes)
    → select_replicas sha1 (record c { gossip = gossip }) key ≡ select_replicas sha1 c key
unfolding select_replicas
select_gossip sha1 c gossip key = refl

-- Where the read quorum and the write quorum together exceed the number of replicas that the ring
-- gives, some replica both accepts in a write that succeeded and answers in a read of the key that
-- succeeded, whichever replicas were alive at the two times.
pub read-meets-write :
    {E : Type 0} (sha1 : Bytes → Bytes) (c : Coordinator) (gossip' : Option (List Bytes))
    (writer : Bytes → Bytes → Option Bytes → Option E)
    (reader : Bytes → Bytes → Option Bytes × Option E) (key : Bytes) (value : Option Bytes)
    (replicas : List Bytes)
    → select_replicas sha1 c key ≡ some replicas
    → length replicas < c.config.read_quorum + c.config.write_quorum
    → write sha1 c writer key value ≡ some (ok tt)
    → read_with_responses sha1 (record c { gossip = gossip' }) reader key
      ≡ some (ok (read_from_replicas reader key (filter_alive_nodes gossip' replicas)))
    → any (λ id. accepts writer key value id && answers reader key id) replicas ≡ true
read-meets-write sha1 c gossip' writer reader key value replicas e n w r =
    let a = filter-keep c.gossip in
    let b = filter-keep gossip' in
    let c' : Coordinator = record c { gossip = gossip' } in
    let took = (write_iff sha1 c writer key value replicas e).0 w in
    let e' = select_gossip sha1 c gossip' key ∙ e in
    let gave = (read_with_responses_iff sha1 c' reader key replicas e').0 r in
    let took' : c.config.write_quorum ≤ count (accepts writer key value) (keep a.0 replicas) =
      rw (← a.1 replicas) took.1 in
    let gave' : c.config.read_quorum ≤ count (answers reader key) (keep b.0 replicas) =
      rw (← b.1 replicas) gave.1 in
    pigeonhole a.0 b.0 (accepts writer key value) (answers reader key) replicas (omega arith)
