-- ===== src/Graph/Invariant.antt =====
-- What every sequence of calls keeps of the cache.
use allidb.Entity.Edge.{GraphEdge}
use allidb.Graph.{GraphCache, last, but_last, evict_lru, holds, make_room, push_front, touch_entity}
use allidb.Base.{
  Bool, Bool-cases, Bytes, List, Map, [], ap, arith, delete, false, has_key, has_key-delete,
  has_key-insert, inl, inr, insert, keep, leb, length, not, refl, str_eq, str_eq_iff, suc, true,
  ◌&&◌, ◌-◌, ◌<◌, ◌||◌, ◌∷◌, ◌≡◌, ◌≤◌,
}

abbrev pub Nodup : List Bytes → Type 0
Nodup [] = Unit {0}
Nodup (x ∷ xs) = (holds x xs ≡ false) × Nodup xs

-- The entities of a map are in the list, but for some.
abbrev pub Covered : (Bytes → Bool) → Map (List GraphEdge) → List Bytes → Type 0
Covered but m ids = (k : Bytes) → has_key k m ≡ true → (but k || holds k ids) ≡ true

-- The list has every entity once, its length is the size, which the bound limits, and every entity
-- with edges is in it.
pub record IsCache (g : GraphCache) : Type 0 where
  pub distinct : Nodup g.lru
  pub counted : length g.lru ≡ g.current_size
  pub bounded : g.current_size ≤ g.max_size
  pub positive : 0 < g.max_size
  pub outgoing : Covered (λ k. false) g.outgoing_edges g.lru
  pub incoming : Covered (λ k. false) g.incoming_edges g.lru

pub holds-keep :
    (k id : Bytes) (ids : List Bytes)
    → holds k (keep (λ x. not (str_eq id x)) ids) ≡ not (str_eq id k) && holds k ids
holds-keep k id [] = ground arith
holds-keep k id (x ∷ xs) =
    ground (arith, holds-keep k id xs, str_eq_iff k x, str_eq_iff id x, str_eq_iff id k)

pub Nodup-keep :
    (id : Bytes) (ids : List Bytes) → Nodup ids → Nodup (keep (λ x. not (str_eq id x)) ids)
Nodup-keep id [] d = tt
Nodup-keep id (x ∷ xs) d = ground (arith, Nodup-keep id xs, holds-keep x id xs)

keep_absent :
    (id : Bytes) (ids : List Bytes) → holds id ids ≡ false → keep (λ x. not (str_eq id x)) ids ≡ ids
keep_absent id [] h = refl
keep_absent id (x ∷ xs) h = ground (arith, keep_absent id xs)

pub length-keep :
    (id : Bytes) (ids : List Bytes)
    → Nodup ids
    → holds id ids ≡ true
    → suc (length (keep (λ x. not (str_eq id x)) ids)) ≡ length ids
length-keep id [] d h = absurd (cc)
length-keep id (x ∷ xs) d h = ground (arith, length-keep id xs, str_eq_iff id x, keep_absent id xs)

holds-but_last :
    (k x : Bytes) (xs : List Bytes)
    → holds k (x ∷ xs) ≡ holds k (but_last x xs) || str_eq k (last x xs)
holds-but_last k x [] = ground arith
holds-but_last k x (y ∷ ys) = ground (arith, holds-but_last k y ys)

Nodup-but_last : (x : Bytes) (xs : List Bytes) → Nodup (x ∷ xs) → Nodup (but_last x xs)
Nodup-but_last x [] d = tt
Nodup-but_last x (y ∷ ys) d = ground (arith, Nodup-but_last y ys d.1, holds-but_last x y ys)

length-but_last : (x : Bytes) (xs : List Bytes) → length (but_last x xs) ≡ length xs
length-but_last x [] = refl
length-but_last x (y ∷ ys) = ap suc (length-but_last y ys)

-- The same, where one entity may have edges and not be in the list yet.
pub record Almost (id : Bytes) (g : GraphCache) : Type 0 where
  pub distinct : Nodup g.lru
  pub counted : length g.lru ≡ g.current_size
  pub bounded : g.current_size ≤ g.max_size
  pub positive : 0 < g.max_size
  pub outgoing : Covered (str_eq id) g.outgoing_edges g.lru
  pub incoming : Covered (str_eq id) g.incoming_edges g.lru

evict_lru-eq :
    (g : GraphCache) (x : Bytes) (xs : List Bytes)
    → x ∷ xs ≡ g.lru
    → evict_lru g ≡ record g {
      outgoing_edges = delete (last x xs) g.outgoing_edges;
      incoming_edges = delete (last x xs) g.incoming_edges;
      lru = but_last x xs;
      current_size = g.current_size - 1;
    }
unfolding evict_lru
evict_lru-eq g x xs e = rw (← e, evict_lru) refl

evict-Covered :
    (id x : Bytes) (xs ids : List Bytes) (m : Map (List GraphEdge))
    → x ∷ xs ≡ ids
    → Covered (str_eq id) m ids
    → Covered (str_eq id) (delete (last x xs) m) (but_last x xs)
evict-Covered id x xs ids m e c k h = ground (
  arith,
  c k,
  has_key-delete (last x xs) k m,
  holds-but_last k x xs,
  ap (holds k) e,
  str_eq_iff (last x xs) k,
  str_eq_iff k (last x xs),
)

evict_lru-Almost :
    (id : Bytes) (g : GraphCache) (ids : List Bytes)
    → ids ≡ g.lru
    → 0 < g.current_size
    → Almost id g
    → Almost id (evict_lru g)
      × ((evict_lru g).current_size < (evict_lru g).max_size)
      × (holds id g.lru ≡ false → holds id (evict_lru g).lru ≡ false)
evict_lru-Almost id g [] e some_there a = absurd (omega (arith, some_there, a.counted, ap length e))
evict_lru-Almost id g (x ∷ xs) e some_there a = rw (evict_lru-eq g x xs e) (
    let d : Nodup (x ∷ xs) = rw (← e) at a.distinct in
    (
      record {
        distinct = Nodup-but_last x xs d;
        counted = omega (arith, a.counted, ap length e, length-but_last x xs);
        bounded = omega (arith, a.bounded);
        positive = a.positive;
        outgoing = evict-Covered id x xs g.lru g.outgoing_edges e a.outgoing;
        incoming = evict-Covered id x xs g.lru g.incoming_edges e a.incoming;
      },
      omega (arith, a.bounded, some_there),
      λ h. ground (arith, h, ap (holds id) e, holds-but_last id x xs),
    ))

push_front-IsCache :
    (id : Bytes) (g : GraphCache)
    → Almost id g
    → g.current_size < g.max_size
    → holds id g.lru ≡ false
    → IsCache (push_front id g)
unfolding push_front
push_front-IsCache id g a room h = record {
  distinct = (h, a.distinct);
  counted = omega (arith, a.counted);
  bounded = omega (arith, room);
  positive = a.positive;
  outgoing = λ k has. ground (arith, a.outgoing k has, str_eq_iff id k, str_eq_iff k id);
  incoming = λ k has. ground (arith, a.incoming k has, str_eq_iff id k, str_eq_iff k id);
}

pub touch_entity-IsCache : (id : Bytes) (g : GraphCache) → Almost id g → IsCache (touch_entity id g)
unfolding touch_entity
touch_entity-IsCache id g a = elim (Bool-cases (holds id g.lru)) [
  | inl there ↦ rw there (record {
    distinct =
        (ground (arith, holds-keep id id g.lru, str_eq_iff id id), Nodup-keep id g.lru a.distinct);
    counted = omega (arith, a.counted, length-keep id g.lru a.distinct there);
    bounded = a.bounded;
    positive = a.positive;
    outgoing = λ k has.
        ground (arith, a.outgoing k has, holds-keep k id g.lru, str_eq_iff id k, str_eq_iff k id);
    incoming = λ k has.
        ground (arith, a.incoming k has, holds-keep k id g.lru, str_eq_iff id k, str_eq_iff k id);
  })
  | inr new ↦ elim (Bool-cases (leb g.max_size g.current_size)) [
    | inr room ↦ rw (new, room, make_room) (push_front-IsCache id g a (ground (arith, room)) new)
    | inl full ↦
        let evicted = evict_lru-Almost id g g.lru refl (ground (arith, full, a.positive)) a in
        rw (new, full, make_room)
          (push_front-IsCache id (evict_lru g) evicted.0 evicted.1 (evicted.2 new))
  ]
]

-- A cache with an entity more in one of its maps.
pub Almost-outgoing :
    (id : Bytes) (es : List GraphEdge) (g : GraphCache)
    → IsCache g
    → Almost id (record g { outgoing_edges = insert id es g.outgoing_edges })
Almost-outgoing id es g c = record {
  distinct = c.distinct;
  counted = c.counted;
  bounded = c.bounded;
  positive = c.positive;
  outgoing = λ k has. ground (arith, c.outgoing k, has, has_key-insert id k es g.outgoing_edges);
  incoming = λ k has. ground (arith, c.incoming k has);
}

pub Almost-incoming :
    (id : Bytes) (es : List GraphEdge) (g : GraphCache)
    → IsCache g
    → Almost id (record g { incoming_edges = insert id es g.incoming_edges })
Almost-incoming id es g c = record {
  distinct = c.distinct;
  counted = c.counted;
  bounded = c.bounded;
  positive = c.positive;
  outgoing = λ k has. ground (arith, c.outgoing k has);
  incoming = λ k has. ground (arith, c.incoming k, has, has_key-insert id k es g.incoming_edges);
}

-- The maps change, and no entity is new in them.
pub same_keys-IsCache :
    (g : GraphCache) (out inc : Map (List GraphEdge))
    → IsCache g
    → ((k : Bytes) → has_key k out ≡ true → has_key k g.outgoing_edges ≡ true)
    → ((k : Bytes) → has_key k inc ≡ true → has_key k g.incoming_edges ≡ true)
    → IsCache (record g { outgoing_edges = out; incoming_edges = inc })
same_keys-IsCache g out inc c o i = record {
  distinct = c.distinct;
  counted = c.counted;
  bounded = c.bounded;
  positive = c.positive;
  outgoing = λ k has. c.outgoing k (o k has);
  incoming = λ k has. c.incoming k (i k has);
}
