-- ===== src/Coordinator/Latest.antt =====
-- When a read returns the value of the last successful write.
use allidb.Coordinator.{
  Coordinator, is_nil, alive_set, filter_alive_nodes, read_from_replicas, select_replicas, read,
  write,
}
use allidb.Coordinator.Quorum.{accepts, answers, select_gossip, write_iff, read_with_responses_iff}
use allidb.Coordinator.Values.{votes, IsOrder, Leads, merge_read_responses-leader}
use allidb.Base.{
  All, Bool, Bytes, List, Map, Option, Option-cases, [], any, arith, count, false, inl, inr, insert,
  keep, length, lookup, lookup-insert, none, ok, refl, some, str_eq, str_eq_iff, str_eq_refl, true,
  ℕ, ◌&&◌, ◌*◌, ◌+◌, ◌<◌, ◌||◌, ◌∙◌, ◌∷◌, ◌≡◌, ◌≤◌,
}

is_among : Map Bool → Bytes → Bool
is_among set id = elim (lookup id set) as (λ _. Bool) [ none ↦ false | some b ↦ b ]

alive_set-among :
    (ids : List Bytes) (set : Map Bool) (id : Bytes)
    → is_among (alive_set ids set) id ≡ any (λ j. str_eq j id) ids || is_among set id
unfolding alive_set is_among
alive_set-among [] set id = refl
alive_set-among (j ∷ ids) set id =
    ground (arith, alive_set-among ids (insert j true set) id, lookup-insert j id true set)

-- A node counts as alive where there is no gossip, and else if the gossip's list has it.
abbrev pub counts_alive : Option (List Bytes) → Bytes → Bool
counts_alive none id = true
counts_alive (some ids) id = any (λ j. str_eq j id) ids

keep_eq : (p q : Bytes → Bool) (xs : List Bytes) → ((x : Bytes) → p x ≡ q x) → keep p xs ≡ keep q xs
keep_eq p q [] h = refl
keep_eq p q (x ∷ xs) h = ground (arith, h x, keep_eq p q xs h)

keep-true : (xs : List Bytes) → xs ≡ keep (λ x. true) xs
keep-true [] = refl
keep-true (x ∷ xs) = ground (arith, keep-true xs)

-- The replicas that are asked are those that count as alive, in the order of the ring.
pub filter_alive_nodes-keep :
    (gossip : Option (List Bytes)) (nodes : List Bytes)
    → filter_alive_nodes gossip nodes ≡ keep (counts_alive gossip) nodes
unfolding filter_alive_nodes is_among lookup
filter_alive_nodes-keep none nodes = keep-true nodes
filter_alive_nodes-keep (some ids) nodes =
    keep_eq _ _ nodes (λ id. ground (arith, alive_set-among ids [] id))

All-map : {P Q : Bytes → Type 0} (xs : List Bytes) → ((x : Bytes) → P x → Q x) → All P xs → All Q xs
All-map [] f h = tt
All-map (x ∷ xs) f h = (f x h.0, All-map xs f h.1)

count_mono :
    (a b p q : Bytes → Bool) (xs : List Bytes)
    → All (λ x. p x ≡ true → (b x ≡ true) × (q x ≡ true)) xs
    → count p (keep a xs) ≤ count q (keep b xs)
count_mono a b p q [] h = omega arith
count_mono a b p q (x ∷ xs) h = ground (arith, count_mono a b p q xs h.1, h.0)

module _ {E : Type 0} where
  -- The replica answers with the value.
  answers_with : (Bytes → Bytes → Option Bytes × Option E) → Bytes → Bytes → Bytes → Bool
  answers_with reader key v id =
      is_nil (reader id key).1
      && (elim (reader id key).0 as (λ _. Bool) [ none ↦ false | some w ↦ str_eq w v ])

  votes-read :
      (reader : Bytes → Bytes → Option Bytes × Option E) (key v : Bytes) (ids : List Bytes)
      → votes v (read_from_replicas reader key ids) ≡ count (answers_with reader key v) ids
  unfolding read_from_replicas answers_with
  votes-read reader key v [] = refl
  votes-read reader key v (id ∷ ids) = ground (arith, votes-read reader key v ids)

  two_values :
      (reader : Bytes → Bytes → Option Bytes × Option E) (key v w : Bytes) (a : Bytes → Bool)
      (ids : List Bytes)
      → str_eq w v ≡ false
      → count (answers_with reader key v) (keep a ids)
          + count (answers_with reader key w) (keep a ids)
        ≤ length ids
  unfolding answers_with
  two_values reader key v w a [] h = omega arith
  two_values reader key v w a (id ∷ ids) h = elim (Option-cases (reader id key).0) [
    | inl e ↦ ground (arith, e, two_values reader key v w a ids h)
    | inr (u, e) ↦ ground (
      arith,
      e,
      two_values reader key v w a ids h,
      str_eq_iff u v,
      str_eq_iff u w,
      str_eq_iff w v,
    )
  ]

-- What a later reader sees of the replicas that accepted a write: all count as alive, and each
-- answers with the written value.
abbrev pub Retained :
    {E : Type 0}
    → Option (List Bytes)
    → (Bytes → Bytes → Option Bytes → Option E)
    → (Bytes → Bytes → Option Bytes × Option E)
    → Bytes
    → Bytes
    → List Bytes
    → Type 0
Retained gossip' writer reader key v replicas =
    All
      (λ id.
        accepts writer key (some v) id ≡ true
        → (counts_alive gossip' id ≡ true) × (reader id key ≡ (some v, none)))
      replicas

module _ {E : Type 0} (sha1 : Bytes → Bytes) (c : Coordinator) (gossip' : Option (List Bytes))
    (writer : Bytes → Bytes → Option Bytes → Option E)
    (reader : Bytes → Bytes → Option Bytes × Option E) (key v : Bytes) (replicas : List Bytes) where
  asked : List Bytes
  asked = keep (counts_alive gossip') replicas

  votes-ge :
      select_replicas sha1 c key ≡ some replicas
      → write sha1 c writer key (some v) ≡ some (ok tt)
      → Retained gossip' writer reader key v replicas
      → (0 < length replicas)
        × (c.config.write_quorum ≤ votes v (read_from_replicas reader key asked))
        × (c.config.write_quorum ≤ count (answers reader key) asked)
  unfolding answers_with asked
  votes-ge e w kept =
      let took = (write_iff sha1 c writer key (some v) replicas e).0 w in
      let took' : c.config.write_quorum
          ≤ count (accepts writer key (some v)) (keep (counts_alive c.gossip) replicas) =
        rw (← filter_alive_nodes-keep c.gossip replicas) took.1 in
      (
        took.0,
        omega (
          arith,
          took',
          votes-read reader key v asked,
          count_mono (counts_alive c.gossip) (counts_alive gossip') (accepts writer key (some v))
              (answers_with reader key v) replicas
              (All-map replicas (λ id k a. ((k a).0, rw ((k a).1) (str_eq_refl v))) kept),
        ),
        omega (
          arith,
          took',
          count_mono (counts_alive c.gossip) (counts_alive gossip') (accepts writer key (some v))
              (answers reader key) replicas
              (All-map replicas (λ id k a. ((k a).0, rw ((k a).1) (refl))) kept),
        ),
      )

  -- Where the ring gives the replicas of a key: after a write that succeeded with a quorum of more
  -- than half of the replicas, a read of the key succeeds and returns the value written, if its quorum is no larger and every replica that
  -- accepted the write counts as alive and answers with it. Neither the other replicas' answers
  -- nor the order in which the counts are read matter.
  pub read-after-write :
      (order : List (Bytes × ℕ) → List (Bytes × ℕ))
      → IsOrder order
      → select_replicas sha1 c key ≡ some replicas
      → write sha1 c writer key (some v) ≡ some (ok tt)
      → length replicas < 2 * c.config.write_quorum
      → c.config.read_quorum ≤ c.config.write_quorum
      → Retained gossip' writer reader key v replicas
      → read sha1 order (record c { gossip = gossip' }) reader key ≡ some (ok (some v))
  unfolding read asked
  read-after-write order o e w majority small kept =
      let (some_replica, voted, answered) = votes-ge e w kept in
      let c' : Coordinator = record c { gossip = gossip' } in
      let alive-eq = filter_alive_nodes-keep gossip' replicas in
      let responses =
        (read_with_responses_iff sha1 c' reader key replicas
            (select_gossip sha1 c gossip' key ∙ e)).1
          (some_replica, rw alive-eq (omega arith)) in
      let leads : Leads v (read_from_replicas reader key asked) = λ w differ. omega (
        arith,
        voted,
        majority,
        votes-read reader key v asked,
        votes-read reader key w asked,
        two_values reader key v w (counts_alive gossip') replicas differ,
      ) in
      rw (responses, alive-eq)
        (rw
          (merge_read_responses-leader order v (read_from_replicas reader key asked) o (omega arith)
            leads)
          refl)
