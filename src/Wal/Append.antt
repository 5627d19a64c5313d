-- ===== src/Wal/Append.antt =====
-- The log across appends, rotations and restarts: its files in order hold the appended entries in
-- order, and a replay hands over exactly those.
mod Groups
use mathlib.Core.Path.{fun_ext}
use allidb.Wal.{
  LogFile, Wal, WalError, ReplayError, create_file, append_to, rotate_file, latest_file, opened,
  open_wal, frame, write_entry, write_frame, append, and_then, replay_file, replay_files, replay,
  close, Op, appends, closes, reopens, step, run,
}
use allidb.Wal.Frames.{IsChecksum, Short, frames, length-frames_snoc, apply_all, replay_file-frames}
use Groups.{
  Group, file, files, entries_of, Ascending, Ascending-next, Ascending-regrown, append_to_last,
  create_next, latest-file, sort-Ascending, entries_of-append,
}
use allidb.Base.{
  All, Bool-cases, Bytes, List, Option, Option-cases, [], ap, append-nil, append_assoc, arith,
  false, inl, inr, length, ltb, none, refl, some, suc, sym, true, ℕ, ◌++◌, ◌+◌, ◌∙◌, ◌∷◌, ◌≡◌,
}

-- The log's directory holds the groups `old`, complete, and `current`, which it appends to.
pub record Holds (crc32 : Bytes → ℕ) (w : Wal) (old : List Group) (current : Group) : Type 0 where
  pub dir : w.dir ≡ files crc32 (old ++ current ∷ [])
  pub ascending : Ascending 0 (old ++ current ∷ [])
  pub sequence : w.file_sequence ≡ current.seq
  pub size : w.current_size ≡ length (frames crc32 current.entries)

module _ {ℓ} {A : Type ℓ} (P : A → Type 0) where
  All-left : (xs ys : List A) → All P (xs ++ ys) → All P xs
  All-left [] ys a = tt
  All-left (x ∷ xs) ys a = (a.0, All-left xs ys a.1)

  All-right : (xs ys : List A) → All P (xs ++ ys) → All P ys
  All-right [] ys a = a
  All-right (x ∷ xs) ys a = All-right xs ys a.1

module _ (crc32 : Bytes → ℕ) where
  abbrev grown : Group → Bytes → Group
  grown g x = record g { entries = g.entries ++ x ∷ [] }

  abbrev next_group : Group → Bytes → Group
  next_group g x = record { seq = g.seq + 1; entries = x ∷ [] }

  Holds-frame :
      (w : Wal) (old : List Group) (current : Group) (x : Bytes)
      → Holds crc32 w old current
      → Holds crc32 (write_frame crc32 w x) old (grown current x)
  unfolding write_frame
  Holds-frame w old current x h = record {
    dir = rw (h.dir, h.sequence) (append_to_last crc32 0 old current x h.ascending);
    ascending = Ascending-regrown 0 old current (grown current x) h.ascending refl;
    sequence = h.sequence;
    size = omega (arith, h.size, length-frames_snoc crc32 current.entries x);
  }

  abbrev empty_next : Group → Group
  empty_next g = record { seq = g.seq + 1; entries = [] }

  Holds-rotated :
      (w : Wal) (old : List Group) (current : Group)
      → Holds crc32 w old current
      → Holds crc32 (rotate_file w (w.file_sequence + 1)) (old ++ current ∷ []) (empty_next current)
  unfolding rotate_file frames
  Holds-rotated w old current h =
      let tidy = append_assoc old (current ∷ []) (empty_next current ∷ []) in
      record {
        dir = rw (tidy, h.dir, h.sequence) (create_next crc32 0 old current h.ascending);
        ascending =
            rw tidy (Ascending-next 0 old current (empty_next current) h.ascending (omega arith));
        sequence = omega (arith, h.sequence);
        size = refl;
      }

  entries_snoc :
      (old : List Group) (g : Group) (x : Bytes)
      → entries_of (old ++ grown g x ∷ []) ≡ entries_of (old ++ g ∷ []) ++ x ∷ []
  entries_snoc old g x =
      rw
        (
          entries_of-append old (grown g x ∷ []),
          entries_of-append old (g ∷ []),
          append-nil (g.entries ++ x ∷ []),
          append-nil g.entries,
        )
        (sym (append_assoc (entries_of old) g.entries (x ∷ [])))

  entries_opened :
      (old : List Group) (g : Group)
      → entries_of ((old ++ g ∷ []) ++ empty_next g ∷ []) ≡ entries_of (old ++ g ∷ [])
  entries_opened old g =
      entries_of-append (old ++ g ∷ []) (empty_next g ∷ [])
      ∙ append-nil (entries_of (old ++ g ∷ []))

  -- The log holds exactly the entries `xs`, in order.
  abbrev pub Contents : Wal → List Bytes → Type 0
  Contents w xs =
      (old : List Group) × (current : Group) × Holds crc32 w old current
      × (entries_of (old ++ current ∷ []) ≡ xs)

  -- A write adds its entry behind the others, in the current file or as the first of the next.
  write_entry-Contents :
      (w : Wal) (xs : List Bytes) (x : Bytes)
      → Contents w xs
      → Contents (write_entry crc32 w x) (xs ++ x ∷ [])
  unfolding write_entry
  write_entry-Contents w xs x (old, current, h, e) =
      elim (Bool-cases (ltb w.max_file_size (w.current_size + (8 + 4 + length x)))) [
        | inr stay ↦
            rw (stay, write_entry)
              (
                old,
                grown current x,
                Holds-frame w old current x h,
                entries_snoc old current x ∙ ap (λ l. l ++ x ∷ []) e,
              )
        | inl full ↦
            let old' = old ++ current ∷ [] in
            let next = empty_next current in
            rw (full, write_entry)
              (
                old',
                grown next x,
                Holds-frame _ old' next x (Holds-rotated w old current h),
                entries_snoc old' next x ∙ ap (λ l. l ++ x ∷ []) (entries_opened old current ∙ e),
              )
      ]

  -- A restart, New over the directory, finds the same entries.
  reopen-Contents :
      (max : ℕ) (w : Wal) (xs : List Bytes) → Contents w xs → Contents (open_wal max w.dir) xs
  unfolding open_wal
  reopen-Contents max w xs (old, current, h, e) = rw h.dir (elim (Bool-cases (ltb size max)) [
    | inl room ↦ rw (found, room, open_wal) (old, current, same, e)
    | inr full ↦
        rw (found, full, open_wal)
          (
            old ++ current ∷ [],
            empty_next current,
            Holds-rotated _ old current same,
            entries_opened old current ∙ e,
          )
  ])
    where
      size : ℕ
      size = length (frames crc32 current.entries)

      dir : List LogFile
      dir = files crc32 (old ++ current ∷ [])

      found : latest_file dir none ≡ some (current.seq, size)
      found = latest-file crc32 0 old current h.ascending

      same : Holds crc32 (opened max dir current.seq size) old current
      same = record { dir = refl; ascending = h.ascending; sequence = refl; size = refl }

  open-Contents : (max : ℕ) → Contents (open_wal max []) []
  unfolding open_wal frames
  open-Contents max = (
    [],
    record { seq = 0; entries = [] },
    record { dir = refl; ascending = (omega arith, tt); sequence = refl; size = refl },
    refl,
  )

  close-Contents : (w : Wal) (xs : List Bytes) → Contents w xs → Contents (close w) xs
  unfolding close
  close-Contents w xs (old, current, h, e) = (
    old,
    current,
    record { dir = h.dir; ascending = h.ascending; sequence = h.sequence; size = h.size },
    e,
  )

  step_shut : (w : Wal) (x : Bytes) → w.closed ≡ true → step crc32 w (appends x) ≡ (w, [])
  unfolding step append
  step_shut w x shut = ground arith

  step_live :
      (w : Wal) (x : Bytes)
      → w.closed ≡ false
      → step crc32 w (appends x) ≡ (write_entry crc32 w x, x ∷ [])
  unfolding step append
  step_live w x live = ground arith

  step-Contents :
      (w : Wal) (xs : List Bytes) (op : Op)
      → Contents w xs
      → Contents (step crc32 w op).0 (xs ++ (step crc32 w op).1)
  unfolding step
  step-Contents w xs (appends x) c = elim (Bool-cases w.closed) [
    | inl shut ↦ rw (step_shut w x shut, append-nil xs) c
    | inr live ↦ rw (step_live w x live) (write_entry-Contents w xs x c)
  ]
  step-Contents w xs closes c = rw (append-nil xs) (close-Contents w xs c)
  step-Contents w xs (reopens max) c = rw (append-nil xs) (reopen-Contents max w xs c)

  run-Contents :
      (w : Wal) (xs : List Bytes) (ops : List Op)
      → Contents w xs
      → Contents (run crc32 w ops).0 (xs ++ (run crc32 w ops).1)
  unfolding run
  run-Contents w xs [] c = rw (append-nil xs) c
  run-Contents w xs (op ∷ ops) c =
      rw (append_assoc xs (step crc32 w op).1 (run crc32 (step crc32 w op).0 ops).1) at
        (run-Contents (step crc32 w op).0 (xs ++ (step crc32 w op).1) ops (step-Contents w xs op c))

  module _ (sums : IsChecksum crc32) {S : Type 0} (callback : S → Bytes → Option S) where
    and_then-apply_all :
        (xs ys : List Bytes) (s : S)
        → and_then (apply_all callback xs s) (apply_all callback ys)
          ≡ apply_all callback (xs ++ ys) s
    unfolding apply_all
    and_then-apply_all [] ys s = refl
    and_then-apply_all (x ∷ xs) ys s = elim (Option-cases (callback s x)) [
      | inl e ↦ rw (e, apply_all)
      | inr (s', e) ↦ rw (e, apply_all) (and_then-apply_all xs ys s')
    ]

    replay_files-apply_all :
        (gs : List Group) (s : S)
        → All Short (entries_of gs)
        → replay_files crc32 callback (files crc32 gs) s ≡ apply_all callback (entries_of gs) s
    unfolding replay_files apply_all
    replay_files-apply_all [] s short = refl
    replay_files-apply_all (g ∷ gs) s short =
        rw
          (
            replay_file-frames crc32 sums callback g.entries (suc (length (frames crc32 g.entries)))
                s (All-left Short g.entries (entries_of gs) short) (omega arith),
            fun_ext (λ s'.
                replay_files-apply_all gs s' (All-right Short g.entries (entries_of gs) short)),
          )
          (and_then-apply_all g.entries (entries_of gs) s)

    replay-Contents :
        (w : Wal) (xs : List Bytes) (s : S)
        → Contents w xs
        → All Short xs
        → replay crc32 callback w.dir s ≡ apply_all callback xs s
    unfolding replay
    replay-Contents w xs s (old, current, h, e) short =
        rw (h.dir, sort-Ascending crc32 0 (old ++ current ∷ []) h.ascending)
          (replay_files-apply_all (old ++ current ∷ []) s (rw e short) ∙ rw e)

    -- Whatever sequence of appends, closes and restarts a fresh log goes through, if every accepted
    -- entry is shorter than 2 ^ 32 bytes, a replay of its directory hands the accepted entries to
    -- the callback in the order of acceptance, all of them unless the callback fails.
    pub replay-run :
        (max : ℕ) (ops : List Op) (s : S)
        → All Short (run crc32 (open_wal max []) ops).1
        → replay crc32 callback (run crc32 (open_wal max []) ops).0.dir s
          ≡ apply_all callback (run crc32 (open_wal max []) ops).1 s
    replay-run max ops s short =
        replay-Contents (run crc32 (open_wal max []) ops).0 (run crc32 (open_wal max []) ops).1 s
          (run-Contents (open_wal max []) [] ops (open-Contents max)) short
