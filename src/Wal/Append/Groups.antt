-- ===== src/Wal/Append/Groups.antt =====
-- The directory as groups of entries, one group to a file, in order of the sequence numbers.
use allidb.Wal.{LogFile, create_file, append_to, latest_file, insert_file, sort_files, frame}
use allidb.Wal.Frames.{frames, frames-append}
use allidb.Base.{
  Bytes, List, [], ap, append-nil, append_assoc, arith, leb, length, map, none, refl, some, suc,
  sym, true, ℕ, ◌++◌, ◌+◌, ◌<◌, ◌∙◌, ◌∷◌, ◌≡◌, ◌≤◌,
}

pub record Group : Type 0 where
  pub seq : ℕ
  pub entries : List Bytes

abbrev pub entries_of : List Group → List Bytes
entries_of [] = []
entries_of (g ∷ gs) = g.entries ++ entries_of gs

pub entries_of-append :
    (gs hs : List Group) → entries_of (gs ++ hs) ≡ entries_of gs ++ entries_of hs
entries_of-append [] hs = refl
entries_of-append (g ∷ gs) hs =
    ap (◌++◌ g.entries) (entries_of-append gs hs)
    ∙ sym (append_assoc g.entries (entries_of gs) (entries_of hs))

-- Sequence numbers rise, from at least `low`.
abbrev pub Ascending : ℕ → List Group → Type 0
Ascending low [] = Unit {0}
Ascending low (g ∷ gs) = (low ≤ g.seq) × Ascending (suc g.seq) gs

pub Ascending-next :
    (low : ℕ) (gs : List Group) (g h : Group)
    → Ascending low (gs ++ g ∷ [])
    → g.seq < h.seq
    → Ascending low (gs ++ g ∷ h ∷ [])
Ascending-next low [] g h a lt = (a.0, (lt, tt))
Ascending-next low (k ∷ gs) g h a lt = (a.0, Ascending-next (suc k.seq) gs g h a.1 lt)

pub Ascending-regrown :
    (low : ℕ) (gs : List Group) (g h : Group)
    → Ascending low (gs ++ g ∷ [])
    → g.seq ≡ h.seq
    → Ascending low (gs ++ h ∷ [])
Ascending-regrown low [] g h a e = (omega arith, tt)
Ascending-regrown low (k ∷ gs) g h a e = (a.0, Ascending-regrown (suc k.seq) gs g h a.1 e)

Ascending-last :
    (low : ℕ) (gs : List Group) (g : Group) → Ascending low (gs ++ g ∷ []) → low ≤ g.seq
Ascending-last low [] g a = a.0
Ascending-last low (h ∷ gs) g a = omega (arith, Ascending-last (suc h.seq) gs g a.1)

module _ (crc32 : Bytes → ℕ) where
  abbrev pub file : Group → LogFile
  file g = record { seq = g.seq; contents = frames crc32 g.entries }

  abbrev pub files : List Group → List LogFile
  files gs = map file gs

  pub append_to_last :
      (low : ℕ) (gs : List Group) (g : Group) (x : Bytes)
      → Ascending low (gs ++ g ∷ [])
      → append_to g.seq (frame crc32 x) (files (gs ++ g ∷ []))
        ≡ files (gs ++ record g { entries = g.entries ++ x ∷ [] } ∷ [])
  unfolding append_to
  append_to_last low [] g x a = ground (arith, more)
    where
      more : frames crc32 g.entries ++ frame crc32 x ≡ frames crc32 (g.entries ++ x ∷ [])
      more = sym (
          frames-append crc32 g.entries (x ∷ [])
          ∙ ap (◌++◌ (frames crc32 g.entries)) (unfold frames in append-nil (frame crc32 x)))
  append_to_last low (h ∷ gs) g x a =
      ground (arith, Ascending-last (suc h.seq) gs g a.1, append_to_last (suc h.seq) gs g x a.1)

  -- Creating the file after the last one adds an empty file at the end.
  pub create_next :
      (low : ℕ) (gs : List Group) (g : Group)
      → Ascending low (gs ++ g ∷ [])
      → create_file (g.seq + 1) (files (gs ++ g ∷ []))
        ≡ files (gs ++ g ∷ record { seq = g.seq + 1; entries = [] } ∷ [])
  unfolding create_file frames
  create_next low [] g a = ground arith
  create_next low (h ∷ gs) g a =
      ground (arith, Ascending-last (suc h.seq) gs g a.1, create_next (suc h.seq) gs g a.1)

  latest_above :
      (low : ℕ) (gs : List Group) (g : Group) (seq size : ℕ)
      → Ascending low (gs ++ g ∷ [])
      → seq < low
      → latest_file (files (gs ++ g ∷ [])) (some (seq, size))
        ≡ some (g.seq, length (frames crc32 g.entries))
  unfolding latest_file
  latest_above low [] g seq size a h = ground arith
  latest_above low (k ∷ gs) g seq size a h =
      let newer : leb seq k.seq ≡ true = ground arith in
      rw (newer, latest_file)
        (latest_above (suc k.seq) gs g k.seq (length (frames crc32 k.entries)) a.1 (omega arith))

  -- The scan finds the last file.
  pub latest-file :
      (low : ℕ) (gs : List Group) (g : Group)
      → Ascending low (gs ++ g ∷ [])
      → latest_file (files (gs ++ g ∷ [])) none ≡ some (g.seq, length (frames crc32 g.entries))
  unfolding latest_file
  latest-file low [] g a = refl
  latest-file low (k ∷ gs) g a =
      latest_above (suc k.seq) gs g k.seq (length (frames crc32 k.entries)) a.1 (omega arith)

  insert_least :
      (g : Group) (gs : List Group)
      → Ascending (suc g.seq) gs
      → insert_file (file g) (files gs) ≡ file g ∷ files gs
  unfolding insert_file
  insert_least g [] a = refl
  insert_least g (h ∷ gs) a = ground arith

  -- Files in order stay as they are.
  pub sort-Ascending :
      (low : ℕ) (gs : List Group) → Ascending low gs → sort_files (files gs) ≡ files gs
  unfolding sort_files
  sort-Ascending low [] a = refl
  sort-Ascending low (g ∷ gs) a = rw (sort-Ascending (suc g.seq) gs a.1) (insert_least g gs a.1)
