-- ===== src/Handoff/Dispatcher/Deliveries.antt =====
-- What is left when hints of a node have been delivered.
use mathlib.Core.Path.{subst}
use allidb.Handoff.{Hint, get_hints_for_node, mark_hint_replayed}
use allidb.Handoff.Sizes.{other_key}
use allidb.Handoff.Invariant.{IsStore, remove_hint-IsStore}
use allidb.Handoff.Queries.{remove_hint-get_hints}
use allidb.Handoff.Dispatcher.{Dispatcher, delivered}
use allidb.Base.{
  Bool, Bool-cases, Bytes, List, [], ap, arith, if◌then◌else◌, inl, inr, keep, refl, str_eq,
  str_eq_iff, str_eq_refl, sym, true, ◌&&◌, ◌++◌, ◌∙◌, ◌∷◌, ◌≡◌,
}

-- The hints that are left when these have been delivered.
abbrev left_by : List Hint → List Hint → List Hint
left_by [] xs = xs
left_by (h ∷ hs) xs = left_by hs (keep (other_key h.key) xs)

keep-keep :
    {A : Type 0} (p q : A → Bool) (xs : List A) → keep p (keep q xs) ≡ keep (λ x. q x && p x) xs
keep-keep p q [] = refl
keep-keep p q (x ∷ xs) = ground (arith, keep-keep p q xs)

without_self :
    (p : Hint → Bool) (h : Hint) (hs : List Hint)
    → keep (other_key h.key) (keep p (h ∷ hs)) ≡ keep (other_key h.key) (keep p hs)
without_self p h hs = ground (arith, str_eq_refl h.key)

left_by_self : (p : Hint → Bool) (hs : List Hint) → left_by hs (keep p hs) ≡ []
left_by_self p [] = refl
left_by_self p (h ∷ hs) =
    ap (left_by hs) (without_self p h hs ∙ keep-keep (other_key h.key) p hs)
    ∙ left_by_self (λ x. p x && other_key h.key x) hs

-- Deliveries of the hints of one node, one after the other.
abbrev pub all_delivered : Dispatcher → Bytes → List Hint → Dispatcher
all_delivered d id [] = d
all_delivered d id (h ∷ hs) = all_delivered (delivered d id h) id hs

delivered-IsStore :
    (d : Dispatcher) (id : Bytes) (h : Hint) → IsStore d.store → IsStore (delivered d id h).store
unfolding delivered mark_hint_replayed
delivered-IsStore d id h s =
    let s' = remove_hint-IsStore d.store id h.key s in
    record { distinct = s'.distinct; sized = s'.sized; bounded = s'.bounded }

delivered-get_hints :
    (d : Dispatcher) (id : Bytes) (h : Hint) (j : Bytes)
    → IsStore d.store
    → get_hints_for_node (delivered d id h).store j ≡ (
        if str_eq id j
        then keep (other_key h.key) (get_hints_for_node d.store j)
        else get_hints_for_node d.store j)
unfolding delivered mark_hint_replayed get_hints_for_node
delivered-get_hints d id h j s = remove_hint-get_hints d.store id h.key j (omega (arith, s.sized))

pub all_delivered-IsStore :
    (d : Dispatcher) (id : Bytes) (hs : List Hint)
    → IsStore d.store
    → IsStore (all_delivered d id hs).store
all_delivered-IsStore d id [] s = s
all_delivered-IsStore d id (h ∷ hs) s =
    all_delivered-IsStore (delivered d id h) id hs (delivered-IsStore d id h s)

all_delivered-get_hints :
    (d : Dispatcher) (id : Bytes) (hs : List Hint) (j : Bytes)
    → IsStore d.store
    → get_hints_for_node (all_delivered d id hs).store j ≡ (
        if str_eq id j
        then left_by hs (get_hints_for_node d.store j)
        else get_hints_for_node d.store j)
all_delivered-get_hints d id [] j s = ground arith
all_delivered-get_hints d id (h ∷ hs) j s = elim (Bool-cases (str_eq id j)) [
  | inl e ↦
      all_delivered-get_hints (delivered d id h) id hs j (delivered-IsStore d id h s)
      ∙ rw (e, delivered-get_hints d id h j s, e) refl
  | inr e ↦
      all_delivered-get_hints (delivered d id h) id hs j (delivered-IsStore d id h s)
      ∙ rw (e, delivered-get_hints d id h j s, e) refl
]

keep_all : (hs : List Hint) → keep (λ h. true) hs ≡ hs
keep_all [] = refl
keep_all (h ∷ hs) = ap (λ more. h ∷ more) (keep_all hs)

-- Who has what after the hints of a node are delivered.
pub all_delivered-empty :
    (d : Dispatcher) (id j : Bytes)
    → IsStore d.store
    → get_hints_for_node (all_delivered d id (get_hints_for_node d.store id)).store j
      ≡ (if str_eq id j then [] else get_hints_for_node d.store j)
all_delivered-empty d id j s =
    let hs = get_hints_for_node d.store id in
    let none_left : left_by hs hs ≡ [] =
      subst (λ xs. left_by hs xs ≡ []) (keep_all hs) (left_by_self (λ h. true) hs) in
    elim (Bool-cases (str_eq id j)) [
      | inl e ↦ all_delivered-get_hints d id hs j s ∙ rw (e, sym ((str_eq_iff id j).0 e)) none_left
      | inr e ↦ all_delivered-get_hints d id hs j s ∙ rw e refl
    ]

pub all_delivered-append :
    (d : Dispatcher) (id : Bytes) (hs ks : List Hint)
    → all_delivered d id (hs ++ ks) ≡ all_delivered (all_delivered d id hs) id ks
all_delivered-append d id [] ks = refl
all_delivered-append d id (h ∷ hs) ks = all_delivered-append (delivered d id h) id hs ks

-- A delivery changes the store and the counter alone.
abbrev pub SameConfig : Dispatcher → Dispatcher → Type 0
SameConfig d d' =
    (d'.coordinator ≡ d.coordinator)
    × (d'.replay_batch_size ≡ d.replay_batch_size)
    × (d'.replaying ≡ d.replaying)

pub all_delivered-SameConfig :
    (d : Dispatcher) (id : Bytes) (hs : List Hint) → SameConfig d (all_delivered d id hs)
unfolding delivered
all_delivered-SameConfig d id [] = (refl, refl, refl)
all_delivered-SameConfig d id (h ∷ hs) = all_delivered-SameConfig (delivered d id h) id hs
