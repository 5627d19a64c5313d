-- ===== src/Handoff/Restart.antt =====
-- What a store has after a restart: the hints of the file that the last flush wrote.
use allidb.Handoff.{
  Hint, Config, Store, hints_of, calculate_crc, is_expired, encode_hints, flush_lines, load_hint,
  load, new_store, get_hints_for_node,
}
use allidb.Handoff.Sizes.{lives}
use allidb.Handoff.Queries.{hints_of-insert, absent_hints}
use allidb.Base.{
  ==_iff, All, Bool-cases, Bytes, DistinctKeys, List, Map, Option, Option-cases, [], append-nil,
  append_assoc, arith, if◌then◌else◌, inl, inr, keep, lookup, refl, some, str_eq, str_eq_iff, ℕ,
  ◌++◌, ◌∙◌, ◌∷◌, ◌≡◌,
}

hints_of_empty : (j : Bytes) → hints_of [] j ≡ []
unfolding hints_of lookup
hints_of_empty j = refl

pub hints_of-cons :
    (id j : Bytes) (hs : List Hint) (m : Map (List Hint))
    → hints_of ((id, hs) ∷ m) j ≡ (if str_eq id j then hs else hints_of m j)
unfolding hints_of lookup
hints_of-cons id j hs m = ground arith

module _ (checksum : Bytes → ℕ) (encode : Hint → Bytes) (decode : Bytes → Option Hint) where
  -- A hint of a node whose checksum is right and whose line reads back.
  abbrev pub IsSaved : Bytes → Hint → Type 0
  IsSaved id h =
      (h.target_node_id ≡ id) × (h.crc32 ≡ calculate_crc checksum h) × (decode (encode h) ≡ some h)

  abbrev pub AllSaved : Map (List Hint) → Type 0
  AllSaved m = All (λ e. All (IsSaved e.0) e.1) m

  load-append :
      (now : ℕ) (xs ys : List Bytes) (s : Store)
      → load checksum decode now (xs ++ ys) s
        ≡ load checksum decode now ys (load checksum decode now xs s)
  unfolding load
  load-append now [] ys s = refl
  load-append now (x ∷ xs) ys s = elim (Option-cases (decode x)) [
    | inl e ↦ rw (e, load) (load-append now xs ys s)
    | inr (h, e) ↦ rw (e, load) (load-append now xs ys (load_hint checksum now s h))
  ]

  load_hint-hints :
      (now : ℕ) (s : Store) (id j : Bytes) (h : Hint)
      → IsSaved id h
      → ((load_hint checksum now s h).config ≡ s.config)
        × (hints_of (load_hint checksum now s h).hints j
            ≡ hints_of s.hints j
              ++ (if str_eq id j then keep (lives s.config now) (h ∷ []) else []))
  unfolding load_hint
  load_hint-hints now s id j h saved = elim (Bool-cases (is_expired s.config now h)) [
    | inl e ↦ ground (
      arith,
      e,
      saved.0,
      saved.1,
      append-nil (hints_of s.hints j),
      ==_iff h.crc32 (calculate_crc checksum h),
    )
    | inr e ↦ ground (
      arith,
      e,
      saved.0,
      saved.1,
      append-nil (hints_of s.hints j),
      hints_of-insert h.target_node_id j (hints_of s.hints h.target_node_id ++ h ∷ []) s.hints,
      str_eq_iff id j,
      ==_iff h.crc32 (calculate_crc checksum h),
    )
  ]

  load-node :
      (now : ℕ) (s : Store) (id j : Bytes) (hs : List Hint)
      → All (IsSaved id) hs
      → ((load checksum decode now (encode_hints encode hs) s).config ≡ s.config)
        × (hints_of (load checksum decode now (encode_hints encode hs) s).hints j
            ≡ hints_of s.hints j ++ (if str_eq id j then keep (lives s.config now) hs else []))
  unfolding load encode_hints
  load-node now s id j [] saved = (refl, ground (arith, append-nil (hints_of s.hints j)))
  load-node now s id j (h ∷ hs) saved =
      let s' = load_hint checksum now s h in
      let first = load_hint-hints now s id j h saved.0 in
      let rest = load-node now s' id j hs saved.1 in
      rw (saved.0.2, load)
        (
          rest.0 ∙ first.0,
          rest.1
              ∙ rw (first.0, first.1)
                  (ground (
                    arith,
                    append-nil (hints_of s.hints j),
                    append_assoc (hints_of s.hints j) (keep (lives s.config now) (h ∷ []))
                        (keep (lives s.config now) hs),
                  )),
        )

  load-flush :
      (now : ℕ) (s : Store) (m : Map (List Hint)) (j : Bytes)
      → DistinctKeys m
      → AllSaved m
      → hints_of (load checksum decode now (flush_lines encode m) s).hints j
        ≡ hints_of s.hints j ++ keep (lives s.config now) (hints_of m j)
  unfolding load flush_lines
  load-flush now s [] j d saved = ground (arith, append-nil (hints_of s.hints j), hints_of_empty j)
  load-flush now s ((id, hs) ∷ m) j d saved =
      let s' = load checksum decode now (encode_hints encode hs) s in
      let first = load-node now s id j hs saved.0 in
      let rest = load-flush now s' m j d.1 saved.1 in
      let one = hints_of-cons id j hs m in
      let nothing = append-nil (hints_of s.hints j ++ keep (lives s.config now) hs) in
      rw (load-append now (encode_hints encode hs) (flush_lines encode m) s) (
        rest ∙ elim (Bool-cases (str_eq id j)) [
          | inl e ↦
              ground
                (arith, e, first.0, first.1, one, nothing, absent_hints id m d.0, str_eq_iff id j)
          | inr e ↦ ground (arith, e, first.0, first.1, one, append-nil (hints_of s.hints j))
        ])

  -- Whatever the order in which the map was written, a store that is made anew over the lines of a
  -- flush has for every node its hints that are not older than the limit, in their order, if each
  -- hint stands under its node, has the right checksum and is read back from its line.
  pub new_store-flush_lines :
      (now : ℕ) (config : Config) (m : Map (List Hint)) (j : Bytes)
      → DistinctKeys m
      → AllSaved m
      → get_hints_for_node (new_store checksum decode now config (flush_lines encode m)) j
        ≡ keep (lives config now) (hints_of m j)
  unfolding new_store get_hints_for_node hints_of lookup
  new_store-flush_lines now config m j d saved = load-flush now _ m j d saved
