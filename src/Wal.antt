-- ===== src/Wal.antt =====
-- core/storage/wal/wal.go and replay.go: the write-ahead log. The directory is the list of its log
-- files, each by its sequence number; its operations succeed, so that what is proved of a crash is
-- proved of a file cut short. The one writer goroutine handles the requests one after the other.
-- CRC-32 is a parameter. An entry is the bytes that its ToBytes gives.
pub mod Frames
pub mod Append
pub mod Torn
mod Tests
use allidb.Wire.Numbers.{le_bytes, le_value}
use allidb.Base.{
  Bool, Bytes, List, Option, Result, [], drop, err, false, if◌then◌else◌, leb, length, ltb, none,
  ok, some, suc, take, true, zero, ℕ, ◌++◌, ◌+◌, ◌==◌, ◌∷◌,
}

pub record LogFile : Type 0 where
  pub seq : ℕ
  pub contents : Bytes

pub record Wal : Type 0 where
  pub max_file_size : ℕ
  pub dir : List LogFile
  pub current_size : ℕ
  pub file_sequence : ℕ
  pub closed : Bool

-- os.OpenFile with O_CREATE|O_APPEND: an existing file keeps its contents.
unfoldable pub create_file : ℕ → List LogFile → List LogFile
create_file seq [] = record { seq = seq; contents = [] } ∷ []
create_file seq (f ∷ fs) = if f.seq == seq then f ∷ fs else f ∷ create_file seq fs

unfoldable pub append_to : ℕ → Bytes → List LogFile → List LogFile
append_to seq x [] = []
append_to seq x (f ∷ fs) =
    if f.seq == seq then record f { contents = f.contents ++ x } ∷ fs else f ∷ append_to seq x fs

-- rotateFile
unfoldable pub rotate_file : Wal → ℕ → Wal
unfolding create_file
rotate_file w seq = record w { dir = create_file seq w.dir; current_size = 0; file_sequence = seq }

-- The scan of openOrCreateFile for the highest sequence number, with the size of that file.
unfoldable pub latest_file : List LogFile → Option (ℕ × ℕ) → Option (ℕ × ℕ)
latest_file [] latest = latest
latest_file (f ∷ fs) none = latest_file fs (some (f.seq, length f.contents))
latest_file (f ∷ fs) (some (seq, size)) =
    latest_file fs (if leb seq f.seq then some (f.seq, length f.contents) else some (seq, size))

-- The log on a file that the scan found.
abbrev pub opened : ℕ → List LogFile → ℕ → ℕ → Wal
opened max_file_size dir seq size = record {
  max_file_size = max_file_size;
  dir = dir;
  current_size = size;
  file_sequence = seq;
  closed = false;
}

-- New, with openOrCreateFile, over what the directory holds
unfoldable pub open_wal : ℕ → List LogFile → Wal
unfolding latest_file rotate_file
open_wal max_file_size dir = elim (latest_file dir none) [
  | none ↦ rotate_file (opened max_file_size dir 0 0) 0
  | some (seq, size) ↦
      if ltb size max_file_size
      then opened max_file_size dir seq size
      else rotate_file (opened max_file_size dir seq size) (seq + 1)
]

pub data WalError : Type 0 where
  wal_closed : WalError

pub data ReplayError : Type 0 where
  short_length short_checksum short_data checksum_mismatch : ReplayError
  callback_failed : ReplayError
  out_of_fuel : ReplayError

-- What ReadEntry gives: the end of the file, an error, or an entry and what follows it.
pub data ReadResult : Type 0 where
  eof : ReadResult
  bad : ReplayError → ReadResult
  entry : Bytes → Bytes → ReadResult

-- if err := ...; err != nil { return err }, and on to the next file
abbrev pub and_then :
    {S : Type 0} → S × Option ReplayError → (S → S × Option ReplayError) → S × Option ReplayError
and_then (s, none) next = next s
and_then (s, some e) next = (s, some e)

module _ (crc32 : Bytes → ℕ) where
  -- The bytes of one entry in the file: length, checksum, data.
  unfoldable pub frame : Bytes → Bytes
  frame x = le_bytes 4 (length x) ++ (le_bytes 4 (crc32 x) ++ x)

  -- The three writes to the current file.
  unfoldable pub write_frame : Wal → Bytes → Wal
  write_frame w x = record w {
    dir = append_to w.file_sequence (frame x) w.dir;
    current_size = w.current_size + (8 + length x);
  }

  unfoldable pub write_entry : Wal → Bytes → Wal
  write_entry w x =
      if ltb w.max_file_size (w.current_size + (8 + 4 + length x))
      then write_frame (rotate_file w (w.file_sequence + 1)) x
      else write_frame w x

  -- Append, with the writer's handling of the request
  unfoldable pub append : Wal → Bytes → Result WalError Wal
  append w x = if w.closed then err wal_closed else ok (write_entry w x)

  check_data : Bytes → Bytes → ℕ → ReadResult
  check_data x rest checksum = if crc32 x == checksum then entry x rest else bad checksum_mismatch

  pub read_data : ℕ → ℕ → Bytes → ReadResult
  unfolding check_data
  read_data n checksum rest =
      if ltb (length rest) n
      then bad short_data
      else check_data (take n rest) (drop n rest) checksum

  pub read_checksum : ℕ → Bytes → ReadResult
  unfolding read_data
  read_checksum n rest =
      if ltb (length rest) 4
      then bad short_checksum
      else read_data n (le_value (take 4 rest)) (drop 4 rest)

  unfoldable pub read_entry : Bytes → ReadResult
  unfolding read_checksum
  read_entry [] = eof
  read_entry (b ∷ bs) =
      if ltb (length (b ∷ bs)) 4
      then bad short_length
      else read_checksum (le_value (take 4 (b ∷ bs))) (drop 4 (b ∷ bs))

  module _ {S : Type 0} (callback : S → Bytes → Option S) where
    -- replayFile: the state after the last callback, and the error that ended the file, if any
    unfoldable pub replay_file : ℕ → Bytes → S → S × Option ReplayError
    replay_file zero contents s = (s, some out_of_fuel)
    replay_file (suc fuel) contents s = elim (read_entry contents) [
      | eof ↦ (s, none)
      | bad e ↦ (s, some e)
      | entry x rest ↦ elim (callback s x) [
        | none ↦ (s, some callback_failed)
        | some s' ↦ replay_file fuel rest s'
      ]
    ]

    unfoldable pub replay_files : List LogFile → S → S × Option ReplayError
    unfolding replay_file
    replay_files [] s = (s, none)
    replay_files (f ∷ fs) s =
        and_then (replay_file (suc (length f.contents)) f.contents s) (replay_files fs)

-- The sort of Replay by sequence number, which no two files share.
unfoldable pub insert_file : LogFile → List LogFile → List LogFile
insert_file f [] = f ∷ []
insert_file f (g ∷ gs) = if leb f.seq g.seq then f ∷ g ∷ gs else g ∷ insert_file f gs

unfoldable pub sort_files : List LogFile → List LogFile
unfolding insert_file
sort_files [] = []
sort_files (f ∷ fs) = insert_file f (sort_files fs)

unfoldable pub replay :
    (Bytes → ℕ) → {S : Type 0} → (S → Bytes → Option S) → List LogFile → S → S × Option ReplayError
unfolding sort_files
replay crc32 callback dir s = replay_files crc32 callback (sort_files dir) s

-- Close: nothing is appended any more.
unfoldable pub close : Wal → Wal
close w = record w { closed = true }

-- A use of the log over time: appends, closing it, and opening it again over its directory.
pub data Op : Type 0 where
  appends : Bytes → Op
  closes : Op
  reopens : ℕ → Op

-- One use, with the entries that were accepted.
unfoldable pub step : (Bytes → ℕ) → Wal → Op → Wal × List Bytes
step crc32 w (appends x) = elim (append crc32 w x) [ ok w' ↦ (w', x ∷ []) | err e ↦ (w, []) ]
step crc32 w closes = (close w, [])
step crc32 w (reopens max_file_size) = (open_wal max_file_size w.dir, [])

unfoldable pub run : (Bytes → ℕ) → Wal → List Op → Wal × List Bytes
run crc32 w [] = (w, [])
run crc32 w (op ∷ ops) =
    let (w', accepted) = step crc32 w op in
    let (w'', rest) = run crc32 w' ops in (w'', accepted ++ rest)
