-- ===== src/Wal/Tests.antt =====
-- Runs of the log, and its theorems at concrete files. The checksum is the sum of the bytes here.
use allidb.Wire.Numbers.{le_bytes}
use allidb.Wal.{
  Op, appends, closes, reopens, open_wal, latest_file, rotate_file, create_file, append_to,
  write_frame, write_entry, append, close, frame, step, run, replay, replay_file, short_data,
}
use allidb.Wal.Frames.{IsChecksum, frames, apply_all}
use allidb.Wal.Append.{replay-run}
use allidb.Wal.Torn.{replay_file-torn}
use allidb.Base.{
  Bytes, List, Option, [], arith, codes, map, refl, some, sum_of, take, ℕ, ◌%◌, ◌++◌, ◌^◌, ◌∷◌, ◌≡◌,
}

abbrev checksum : Bytes → ℕ
checksum x = sum_of (λ b. b) x % 2 ^ 32

checksum-IsChecksum : IsChecksum checksum
checksum-IsChecksum x = omega arith

abbrev collect : List Bytes → Bytes → Option (List Bytes)
collect seen x = some (seen ++ x ∷ [])

abbrev ops : List Op
ops =
    appends (codes "one")
    ∷ appends (codes "two")
    ∷ closes
    ∷ appends (codes "lost")
    ∷ reopens 30
    ∷ appends (codes "three")
    ∷ []

-- Two entries go into file 0 and one into file 1; the append to the closed log is refused.
ops_accepted :
    (run checksum (open_wal 30 []) ops).1 ≡ codes "one" ∷ codes "two" ∷ codes "three" ∷ []
unfolding run step append write_entry write_frame open_wal latest_file rotate_file create_file
    append_to close frame le_bytes
ops_accepted = refl

ops_files : map (λ f. f.seq) (run checksum (open_wal 30 []) ops).0.dir ≡ 0 ∷ 1 ∷ []
unfolding run step append write_entry write_frame open_wal latest_file rotate_file create_file
    append_to close frame le_bytes
ops_files = refl

replay-run_example :
    replay checksum collect (run checksum (open_wal 30 []) ops).0.dir []
    ≡ apply_all collect (run checksum (open_wal 30 []) ops).1 []
replay-run_example =
    replay-run checksum checksum-IsChecksum collect 30 ops []
      (rw ops_accepted (omega arith, (omega arith, (omega arith, tt))))

abbrev two : List Bytes
two = codes "one" ∷ codes "two" ∷ []

replay_file-torn_example :
    replay_file checksum collect 40
      (frames checksum two ++ take 10 (frame checksum (codes "three")))
      []
    ≡ (two, some short_data)
unfolding apply_all frames frame le_bytes
replay_file-torn_example =
    replay_file-torn checksum checksum-IsChecksum collect (codes "three") two 10 40 [] (omega arith)
      (omega arith, (omega arith, tt)) (omega arith) (omega arith) (omega arith)
