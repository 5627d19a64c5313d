-- ===== src/Sstable/Search.antt =====
-- Where the index search of Get ends.
use allidb.Sstable.Format.{Row, IndexEntry, row_size}
use allidb.Sstable.Reader.{entry_from}
use allidb.Sstable.Groups.{Group, flatten, sizes, entries, Ascending}
use allidb.Base.{
  All, Bool-cases, Bytes, List, Monotone, [], ap, arith, false, get_elem?, inl, inr, length,
  length-append, ltb, ltb→lt, none, not, refl, search, search-IsFirst, some, str_eq, str_eq_iff,
  str_lt, str_lt_irrefl, str_lt_trans, suc, sum_of-append, true, zero, ℕ, ◌++◌, ◌+◌, ◌<◌, ◌∙◌, ◌∷◌,
  ◌≡◌, ◌≤◌, ◌⊎◌,
}

module _ {ℓ} {A : Type ℓ} where
  get_elem?-left :
      (xs ys : List A) (i : ℕ) → i < length xs → get_elem? (xs ++ ys) i ≡ get_elem? xs i
  get_elem?-left [] ys i h = absurd (omega arith)
  get_elem?-left (x ∷ xs) ys zero h = refl
  get_elem?-left (x ∷ xs) ys (suc i) h = get_elem?-left xs ys i (omega arith)

  pub get_elem?-right :
      (xs ys : List A) (i : ℕ) → get_elem? (xs ++ ys) (length xs + i) ≡ get_elem? ys i
  get_elem?-right [] ys i = ap (get_elem? ys) (omega arith)
  get_elem?-right (x ∷ xs) ys i =
      let e : suc (length xs) + i ≡ suc (length xs + i) = omega arith in
      rw e (get_elem?-right xs ys i)

  get_elem?-All :
      {P : A → Type 0} (xs : List A) (i : ℕ)
      → i < length xs
      → All P xs
      → (x : A) × (get_elem? xs i ≡ some x) × P x
  get_elem?-All [] i h all = absurd (omega arith)
  get_elem?-All (x ∷ xs) zero h all = (x, refl, all.0)
  get_elem?-All (x ∷ xs) (suc i) h all = get_elem?-All xs i (omega arith) all.1

  get_elem?-past : (xs : List A) (i : ℕ) → length xs ≤ i → get_elem? xs i ≡ none
  get_elem?-past [] i h = refl
  get_elem?-past (x ∷ xs) zero h = absurd (omega arith)
  get_elem?-past (x ∷ xs) (suc i) h = get_elem?-past xs i (omega arith)

pub length-entries : (gs : List Group) (offset : ℕ) → length (entries gs offset) ≡ length gs
length-entries [] offset = refl
length-entries ((id, rows) ∷ gs) offset = ap suc (length-entries gs (offset + sizes rows))

pub entries-append :
    (gs hs : List Group) (offset : ℕ)
    → entries (gs ++ hs) offset ≡ entries gs offset ++ entries hs (offset + sizes (flatten gs))
entries-append [] hs offset = ap (entries hs) (omega arith)
entries-append ((id, rows) ∷ gs) hs offset =
    let e : offset + sizes rows + sizes (flatten gs) ≡ offset + sizes (rows ++ flatten gs) =
      omega (arith, sum_of-append row_size rows (flatten gs)) in
    ap (λ es. record { entity_id = id; offset = offset } ∷ es)
      (rw (← e) (entries-append gs hs (offset + sizes rows)))

entries-All :
    (P : Bytes → Type 0) (gs : List Group) (offset : ℕ)
    → All (λ g. P g.0) gs
    → All (λ e. P e.entity_id) (entries gs offset)
entries-All P [] offset h = tt
entries-All P ((id, rows) ∷ gs) offset h = (h.0, entries-All P gs (offset + sizes rows) h.1)

entry_from-some :
    (es : List IndexEntry) (id : Bytes) (i : ℕ) (e : IndexEntry)
    → get_elem? es i ≡ some e
    → entry_from es id i ≡ not (str_lt e.entity_id id)
unfolding entry_from
entry_from-some es id i e at = rw (at, entry_from) refl

entry_from-Monotone :
    (gs : List Group) (offset : ℕ) (id : Bytes)
    → Ascending gs
    → Monotone (length gs) (entry_from (entries gs offset) id)
unfolding entry_from
entry_from-Monotone [] offset id up x y le lt e = absurd (omega arith)
entry_from-Monotone ((j, rows) ∷ gs) offset id up zero zero le lt e = e
entry_from-Monotone ((j, rows) ∷ gs) offset id up zero (suc y) le lt e =
    let o = offset + sizes rows in
    let (later, at, above) =
      get_elem?-All (entries gs o) y (omega (arith, length-entries gs o))
        (entries-All (λ k. str_lt j k ≡ true) gs o up.0) in
    entry_from-some (entries gs o) id y later at
    ∙ ground (arith, e, above, str_lt_trans j later.entity_id id)
entry_from-Monotone ((j, rows) ∷ gs) offset id up (suc x) zero le lt e = absurd (omega arith)
entry_from-Monotone ((j, rows) ∷ gs) offset id up (suc x) (suc y) le lt e =
    entry_from-Monotone gs (offset + sizes rows) id up.1 x y (omega arith) (omega arith) e

-- In ascending groups, those before one have smaller names.
before_smaller :
    (gs hs : List Group) (g : Group)
    → Ascending (gs ++ g ∷ hs)
    → All (λ k. str_lt k.0 g.0 ≡ true) gs
before_smaller [] hs g up = tt
before_smaller ((j, rows) ∷ gs) hs g up = (member gs up.0, before_smaller gs hs g up.1)
  where
    member : (ks : List Group) → All (λ k. str_lt j k.0 ≡ true) (ks ++ g ∷ hs) → str_lt j g.0 ≡ true
    member [] h = h.0
    member (k ∷ ks) h = member ks h.1

entry_from-before :
    (gs hs : List Group) (g : Group) (x : ℕ)
    → Ascending (gs ++ g ∷ hs)
    → x < length gs
    → entry_from (entries (gs ++ g ∷ hs) 16) g.0 x ≡ false
unfolding entry_from
entry_from-before gs hs g x up h =
    let rest = entries (g ∷ hs) (16 + sizes (flatten gs)) in
    let small = entries-All (λ k. str_lt k g.0 ≡ true) gs 16 (before_smaller gs hs g up) in
    let (e, at, lt) = get_elem?-All (entries gs 16) x (omega (arith, length-entries gs 16)) small in
    let at' : get_elem? (entries (gs ++ g ∷ hs) 16) x ≡ some e =
      ap (λ es. get_elem? es x) (entries-append gs (g ∷ hs) 16)
      ∙ get_elem?-left (entries gs 16) rest x (omega (arith, length-entries gs 16))
      ∙ at in
    entry_from-some (entries (gs ++ g ∷ hs) 16) g.0 x e at' ∙ ap not lt

pub entry_at :
    (gs hs : List Group) (g : Group) (i : ℕ)
    → get_elem? (entries (gs ++ g ∷ hs) 16) (length gs + i)
      ≡ get_elem? (entries (g ∷ hs) (16 + sizes (flatten gs))) i
entry_at gs hs g i =
    rw (entries-append gs (g ∷ hs) 16, ← length-entries gs 16)
      (get_elem?-right (entries gs 16) (entries (g ∷ hs) (16 + sizes (flatten gs))) i)

-- The search ends at the group with the name that is looked for.
pub search-found :
    (gs hs : List Group) (g : Group)
    → Ascending (gs ++ g ∷ hs)
    → search (length (entries (gs ++ g ∷ hs) 16)) (entry_from (entries (gs ++ g ∷ hs) 16) g.0)
      ≡ length gs
unfolding entry_from
search-found gs hs g up =
    let all = gs ++ g ∷ hs in
    let es = entries all 16 in
    let test = entry_from es g.0 in
    let first = search-IsFirst (length all) test (entry_from-Monotone all 16 g.0 up) in
    let r = search (length all) test in
    let here : test (length gs) ≡ true =
      entry_from-some es g.0 (length gs)
        (record { entity_id = g.0; offset = 16 + sizes (flatten gs) })
        (ap (get_elem? es) (len gs) ∙ entry_at gs hs g 0)
      ∙ ap not (str_lt_irrefl g.0) in
    rw (length-entries all 16) (elim (Bool-cases (ltb r (length gs))) [
      | inl small ↦ absurd (
          cc (
            entry_from-before gs hs g r up (ltb→lt r (length gs) small),
            first.from r (omega arith) (ground (arith, length-append gs (g ∷ hs), small)),
          ))
      | inr big ↦ elim (Bool-cases (ltb (length gs) r)) [
        | inl large ↦ absurd (cc (first.before (length gs) (ltb→lt (length gs) r large), here))
        | inr equal ↦ ground (arith, big, equal)
      ]
    ])
  where
    len : (gs : List Group) → length gs ≡ length gs + 0
    len gs = omega arith

-- No group has the name.
abbrev pub Absent : Bytes → List Group → Type 0
Absent id gs = All (λ g. str_eq g.0 id ≡ false) gs

-- Where there is no such group, any entry that a search may end at has another name.
pub entry-differs :
    (gs : List Group) (id : Bytes) (i : ℕ) (e : IndexEntry)
    → Absent id gs
    → get_elem? (entries gs 16) i ≡ some e
    → str_eq e.entity_id id ≡ false
entry-differs gs id i e absent at = elim (Bool-cases (ltb i (length (entries gs 16)))) [
  | inl small ↦
      let (x, at', differs) =
        get_elem?-All (entries gs 16) i (ltb→lt i (length (entries gs 16)) small)
          (entries-All (λ k. str_eq k id ≡ false) gs 16 absent) in
      ground (arith, at, at', differs)
  | inr past ↦ absurd (cc (get_elem?-past (entries gs 16) i (ground (arith, past)), at))
]

-- A name is that of a group, or of none.
pub locate :
    (id : Bytes) (gs : List Group)
    → ((pre : List Group) × (rows : List Row) × (post : List Group) × (gs
          ≡ pre ++ (id, rows) ∷ post))
      ⊎ Absent id gs
locate id [] = inr tt
locate id ((j, rows) ∷ gs) = elim (Bool-cases (str_eq j id)) [
  | inl e ↦ inl ([], rows, gs, ap (λ k. (k, rows) ∷ gs) ((str_eq_iff j id).0 e))
  | inr e ↦ elim (locate id gs) [
    | inl (pre, found, post, eq) ↦ inl ((j, rows) ∷ pre, found, post, ap (λ l. (j, rows) ∷ l) eq)
    | inr absent ↦ inr (e, absent)
  ]
]
