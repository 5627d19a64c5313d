-- ===== src/Handoff/Dispatcher/Rounds.antt =====
-- One round of the dispatcher over all nodes that are alive.
use allidb.Handoff.{Hint, Store, get_hints_for_node, get_nodes_with_hints, get_stats}
use allidb.Handoff.Queries.{absent_hints}
use allidb.Handoff.Dispatcher.{
  Dispatcher, is_replaying, nodes_to_replay, replay_nodes, check_and_replay,
}
use allidb.Handoff.Dispatcher.Replay.{
  IsReady, not_replaying, sent, sent-append, replay_hints_for_node_delivers,
}
use allidb.Base.{
  Bool, Bool-cases, Bytes, DistinctKeys, List, Map, Option, [], any, ap, arith, false, has_key,
  if◌then◌else◌, inl, inr, keep, length, map, not, refl, some, str_eq, str_eq_iff, sym, true, ℕ,
  ◌&&◌, ◌++◌, ◌==◌, ◌∙◌, ◌∷◌, ◌≡◌,
}

-- Every name once.
abbrev Apart : List Bytes → Type 0
Apart [] = Unit {0}
Apart (id ∷ ids) = (any (str_eq id) ids ≡ false) × Apart ids

module _ {V : Type 0} (p : Bytes → Bool) where
  abbrev kept : Map V → List Bytes
  kept m = keep p (map (λ e. e.0) m)

  any-kept : (id : Bytes) (m : Map V) → any (str_eq id) (kept m) ≡ (has_key id m && p id)
  unfolding has_key
  any-kept id [] = refl
  any-kept id ((j, v) ∷ m) = ground (arith, any-kept id m, str_eq_iff j id, str_eq_iff id j)

  kept-Apart : (m : Map V) → DistinctKeys m → Apart (kept m)
  kept-Apart [] d = tt
  kept-Apart ((j, v) ∷ m) d = ground (arith, kept-Apart m d.1, any-kept j m, d.0)

-- The hints of several nodes.
abbrev pub all_hints : Store → List Bytes → List Hint
all_hints s [] = []
all_hints s (id ∷ ids) = get_hints_for_node s id ++ all_hints s ids

all_hints_same :
    (s s' : Store) (id : Bytes) (ids : List Bytes)
    → any (str_eq id) ids ≡ false
    → ((j : Bytes) → get_hints_for_node s' j ≡ (if str_eq id j then [] else get_hints_for_node s j))
    → all_hints s' ids ≡ all_hints s ids
all_hints_same s s' id [] a h = refl
all_hints_same s s' id (j ∷ ids) a h = ground (arith, a, h j, all_hints_same s s' id ids)

no_entries : {V : Type 0} (m : Map V) → (length m == 0) ≡ true → m ≡ []
no_entries [] e = refl
no_entries (x ∷ m) e = ground (arith, e)

no_key : {V : Type 0} (j : Bytes) (m : Map V) → (length m == 0) ≡ true → has_key j m ≡ false
unfolding has_key
no_key j [] e = refl
no_key j (x ∷ m) e = ground (arith, e)

-- Without an entry there are no hints.
absent_get_hints : (s : Store) (j : Bytes) → has_key j s.hints ≡ false → get_hints_for_node s j ≡ []
unfolding get_hints_for_node
absent_get_hints s j h = absent_hints j s.hints h

module _ {W : Type 0} (checksum : Bytes → ℕ) (coordinator_write : W → Bytes → Bytes → W × Bool)
    (client_write : W → Bytes → Bytes → Bytes → W × Bool) (stopped : W → Bool)
    (timed_out : W → W → Bool)
    (writes : (w : W) (key value : Bytes) → (coordinator_write w key value).1 ≡ true)
    (runs : (w : W) → stopped w ≡ false) (in_time : (begin w : W) → timed_out begin w ≡ false) where
  abbrev written : W → List Hint → W
  written = sent checksum coordinator_write client_write stopped timed_out

  -- What a round over these nodes leads to.
  abbrev Delivers : Dispatcher → W → List Bytes → Option (Dispatcher × W) → Type 0
  Delivers d w ids result =
      (d' : Dispatcher) × (result ≡ some (d', written w (all_hints d.store ids)))
      × ((j : Bytes)
          → get_hints_for_node d'.store j
            ≡ (if any (str_eq j) ids then [] else get_hints_for_node d.store j))

  replay_nodes-Delivers :
      (d : Dispatcher) (w : W) (ids : List Bytes)
      → IsReady checksum d
      → Apart ids
      → Delivers d w ids
          (replay_nodes checksum coordinator_write client_write stopped timed_out d w ids)
  unfolding replay_nodes
  replay_nodes-Delivers d w [] r a = (d, refl, λ j. refl)
  replay_nodes-Delivers d w (id ∷ ids) r (new, a) =
      let (d', e, r', left) =
        replay_hints_for_node_delivers checksum coordinator_write client_write stopped timed_out
          writes runs in_time d w id r in
      let (d'', e', left') =
        replay_nodes-Delivers d' (written w (get_hints_for_node d.store id)) ids r' a in
      (
        d'',
        rw (replay_nodes, runs w, e)
            (e'
              ∙ rw
                  (
                    all_hints_same d.store d'.store id ids new left,
                    sent-append checksum coordinator_write client_write stopped timed_out w
                        (get_hints_for_node d.store id) (all_hints d.store ids),
                  )
                  refl),
        λ j. ground (arith, left j, left' j, str_eq_iff id j, str_eq_iff j id),
      )

  -- A round of the dispatcher that is not stopped, is in time and whose writes succeed, from a
  -- state in which nothing else can fail: it ends; every hint of a node with hints that is alive
  -- has been written once, the hints of each node in the order in which they were stored; no node
  -- that is alive has hints left; and all other nodes keep theirs.
  pub check_and_replay_delivers :
      (d : Dispatcher) (w : W) (alive : List Bytes)
      → IsReady checksum d
      → (d' : Dispatcher) × (check_and_replay checksum coordinator_write client_write stopped
            timed_out d w alive
          ≡ some (d', written w (all_hints d.store (nodes_to_replay d alive))))
        × ((j : Bytes)
            → get_hints_for_node d'.store j
              ≡ (if any (str_eq j) alive then [] else get_hints_for_node d.store j))
  unfolding check_and_replay nodes_to_replay get_nodes_with_hints get_stats
  check_and_replay_delivers d w alive r =
      let p = λ (id : Bytes). any (str_eq id) alive && not (is_replaying d id) in
      let (d', e, left) =
        replay_nodes-Delivers d w (kept p d.store.hints) r
          (kept-Apart p d.store.hints r.stored.distinct) in
      elim (Bool-cases (length d.store.hints == 0)) [
        | inl none_stored ↦ (
          d,
          rw (check_and_replay, none_stored)
              (ap (λ m. some (d, written w (all_hints d.store (kept p m))))
                (sym (no_entries d.store.hints none_stored))),
          λ j. ground (arith, absent_get_hints d.store j, no_key j d.store.hints none_stored),
        )
        | inr some_stored ↦ (
          d',
          rw (check_and_replay, some_stored) e,
          λ j. ground (
            arith,
            left j,
            any-kept p j d.store.hints,
            absent_get_hints d.store j,
            not_replaying d j r.idle,
          ),
        )
      ]
