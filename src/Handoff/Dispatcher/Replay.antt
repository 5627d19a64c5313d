-- ===== src/Handoff/Dispatcher/Replay.antt =====
-- A replay that is not stopped and whose writes succeed delivers all hints.
use allidb.Handoff.{Hint, calculate_crc, get_hints_for_node}
use allidb.Handoff.Invariant.{IsStore}
use allidb.Handoff.Dispatcher.{
  Dispatcher, is_replaying, begin_replay, end_replay, delivered, replay_hint, replay_one,
  replay_batch, replay_batches, replay_hints_for_node,
}
use allidb.Handoff.Dispatcher.Deliveries.{
  all_delivered, all_delivered-append, all_delivered-IsStore, all_delivered-SameConfig,
  all_delivered-empty,
}
use allidb.Base.{
  ==_iff, All, Bool, Bytes, List, Map, [], ap, arith, delete, drop, false, has_key, if◌then◌else◌,
  insert, length, length-drop, refl, some, str_eq, str_eq_refl, suc, take, take-append-drop, true,
  zero, ℕ, ◌++◌, ◌<◌, ◌∙◌, ◌∷◌, ◌≡◌, ◌≤◌,
}

All-take : {A : Type 0} (P : A → Type 0) (n : ℕ) (xs : List A) → All P xs → All P (take n xs)
All-take P zero xs a = tt
All-take P (suc n) [] a = tt
All-take P (suc n) (x ∷ xs) a = (a.0, All-take P n xs a.1)

All-drop : {A : Type 0} (P : A → Type 0) (n : ℕ) (xs : List A) → All P xs → All P (drop n xs)
All-drop P zero xs a = a
All-drop P (suc n) [] a = tt
All-drop P (suc n) (x ∷ xs) a = All-drop P n xs a.1

abbrev pub IsIntact : (Bytes → ℕ) → Hint → Type 0
IsIntact checksum h = h.crc32 ≡ calculate_crc checksum h

-- Nothing but the writes can keep it from delivering all hints: it has a coordinator, a batch size
-- above 0, no replay that has not ended, and hints whose checksums are right.
pub record IsReady (checksum : Bytes → ℕ) (d : Dispatcher) : Type 0 where
  pub stored : IsStore d.store
  pub batch : 0 < d.replay_batch_size
  pub writer : d.coordinator ≡ true
  pub idle : d.replaying ≡ []
  pub intact : (id : Bytes) → All (IsIntact checksum) (get_hints_for_node d.store id)

pub not_replaying : (d : Dispatcher) (id : Bytes) → d.replaying ≡ [] → is_replaying d id ≡ false
unfolding is_replaying has_key
not_replaying d id e = rw e refl

delete-insert : (id : Bytes) (m : Map (Unit {0})) → m ≡ [] → delete id (insert id tt m) ≡ []
unfolding delete insert
delete-insert id [] e = ground (arith, str_eq_refl id)
delete-insert id (x ∷ m) e = absurd (cc)

if-All :
    (P : Hint → Type 0) (test : Bool) (hs : List Hint) → All P hs → All P (if test then [] else hs)
if-All P true hs a = tt
if-All P false hs a = a

module _ {W : Type 0} (checksum : Bytes → ℕ) (coordinator_write : W → Bytes → Bytes → W × Bool)
    (client_write : W → Bytes → Bytes → Bytes → W × Bool) (stopped : W → Bool)
    (timed_out : W → W → Bool) where
  -- The writes of these hints, in their order.
  abbrev pub sent : W → List Hint → W
  sent w [] = w
  sent w (h ∷ hs) = sent (coordinator_write w h.key h.value).0 hs

  pub sent-append : (w : W) (hs ks : List Hint) → sent w (hs ++ ks) ≡ sent (sent w hs) ks
  sent-append w [] ks = refl
  sent-append w (h ∷ hs) ks = sent-append (coordinator_write w h.key h.value).0 hs ks

  module _ (writes : (w : W) (key value : Bytes) → (coordinator_write w key value).1 ≡ true)
      (runs : (w : W) → stopped w ≡ false)
      (in_time : (begin w : W) → timed_out begin w ≡ false) where
    replay_one-eq :
        (d : Dispatcher) (w : W) (id : Bytes) (h : Hint)
        → d.coordinator ≡ true
        → IsIntact checksum h
        → replay_one checksum coordinator_write client_write stopped timed_out d w id h
          ≡ (delivered d id h, (coordinator_write w h.key h.value).0)
    unfolding replay_one replay_hint
    replay_one-eq d w id h c crc =
        rw
          (
            replay_one,
            replay_hint,
            (==_iff h.crc32 (calculate_crc checksum h)).1 crc,
            c,
            writes w h.key h.value,
          )
          refl

    replay_batch-eq :
        (begin w : W) (d : Dispatcher) (id : Bytes) (hs : List Hint)
        → d.coordinator ≡ true
        → All (IsIntact checksum) hs
        → replay_batch checksum coordinator_write client_write stopped timed_out begin d w id hs
          ≡ (all_delivered d id hs, sent w hs)
    unfolding replay_batch
    replay_batch-eq begin w d id [] c a = refl
    replay_batch-eq begin w d id (h ∷ hs) c (crc, a) =
        rw (replay_batch, runs w, in_time begin w)
          (ap
              (λ (p : Dispatcher × W).
                replay_batch checksum coordinator_write client_write stopped timed_out begin p.0 p.1
                  id hs)
              (replay_one-eq d w id h c crc)
            ∙ replay_batch-eq begin (coordinator_write w h.key h.value).0 (delivered d id h) id hs
                ((all_delivered-SameConfig d id (h ∷ [])).0 ∙ c) a)

    replay_batches-eq :
        (fuel : ℕ) (d : Dispatcher) (w : W) (id : Bytes) (hs : List Hint)
        → length hs ≤ fuel
        → 0 < d.replay_batch_size
        → d.coordinator ≡ true
        → All (IsIntact checksum) hs
        → replay_batches checksum coordinator_write client_write stopped timed_out fuel d w id hs
          ≡ some (all_delivered d id hs, sent w hs)
    unfolding replay_batches
    replay_batches-eq fuel d w id [] l n c a = refl
    replay_batches-eq zero d w id (h ∷ hs) l n c a = ground (arith, l)
    replay_batches-eq (suc fuel) d w id (h ∷ hs) l n c a =
        let xs = take d.replay_batch_size (h ∷ hs) in
        let ys = drop d.replay_batch_size (h ∷ hs) in
        let split = take-append-drop d.replay_batch_size (h ∷ hs) in
        let d' = all_delivered d id xs in
        let same = all_delivered-SameConfig d id xs in
        let rest =
          replay_batches-eq fuel d' (sent w xs) id ys
            (omega (arith, l, n, length-drop d.replay_batch_size (h ∷ hs)))
            (omega (arith, n, same.1)) (same.0 ∙ c)
            (All-drop (IsIntact checksum) d.replay_batch_size (h ∷ hs) a) in
        rw
          (
            replay_batches,
            runs w,
            replay_batch-eq w w d id xs c
                (All-take (IsIntact checksum) d.replay_batch_size (h ∷ hs) a),
          )
          (rest ∙ rw (← all_delivered-append d id xs ys, ← sent-append w xs ys, split) refl)

    replay_hints_for_node-eq :
        (d : Dispatcher) (w : W) (id : Bytes)
        → IsReady checksum d
        → is_replaying d id ≡ false
        → replay_hints_for_node checksum coordinator_write client_write stopped timed_out d w id
          ≡ some (
            end_replay (all_delivered (begin_replay d id) id (get_hints_for_node d.store id)) id,
            sent w (get_hints_for_node d.store id),
          )
    unfolding replay_hints_for_node begin_replay
    replay_hints_for_node-eq d w id r idle =
        let hs = get_hints_for_node d.store id in
        rw
          (
            replay_hints_for_node,
            idle,
            replay_batches-eq (length hs) (begin_replay d id) w id hs (omega arith) r.batch r.writer
                (r.intact id),
          )
          refl

    pub replay_hints_for_node_delivers :
        (d : Dispatcher) (w : W) (id : Bytes)
        → IsReady checksum d
        → (d' : Dispatcher) × (replay_hints_for_node checksum coordinator_write client_write stopped
              timed_out d w id
            ≡ some (d', sent w (get_hints_for_node d.store id)))
          × IsReady checksum d'
          × ((j : Bytes)
              → get_hints_for_node d'.store j
                ≡ (if str_eq id j then [] else get_hints_for_node d.store j))
    unfolding begin_replay end_replay
    replay_hints_for_node_delivers d w id r =
        let hs = get_hints_for_node d.store id in
        let d' = begin_replay d id in
        let same = all_delivered-SameConfig d' id hs in
        let left = λ (j : Bytes). all_delivered-empty d' id j r.stored in
        (
          end_replay (all_delivered d' id hs) id,
          replay_hints_for_node-eq d w id r (not_replaying d id r.idle),
          record {
            stored = all_delivered-IsStore d' id hs r.stored;
            batch = rw same.1 r.batch;
            writer = same.0 ∙ r.writer;
            idle = ap (delete id) same.2 ∙ delete-insert id d.replaying r.idle;
            intact = λ j. rw (left j) (
                if-All (IsIntact checksum) (str_eq id j) (get_hints_for_node d.store j)
                  (r.intact j));
          },
          left,
        )
