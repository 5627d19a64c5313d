-- ===== src/Handoff/Owned.antt =====
-- Every hint stands under its node and has the right checksum, whatever is done with a store; so a
-- restart loses none but the old hints.
use allidb.Handoff.{Hint, calculate_crc}
use allidb.Base.{All, Bytes, List, Map, Option, some, ℕ, ◌≡◌}

module _ (checksum : Bytes → ℕ) where
  -- The hint is one for the node, and its checksum is right.
  abbrev pub IsOwn : Bytes → Hint → Type 0
  IsOwn id h = (h.target_node_id ≡ id) × (h.crc32 ≡ calculate_crc checksum h)

  abbrev pub AllOwn : Map (List Hint) → Type 0
  AllOwn m = All (λ e. All (IsOwn e.0) e.1) m

  module _ (encode : Hint → Bytes) (decode : Bytes → Option Hint) where
    -- The lines of all hints of the map read back.
    abbrev pub AllRead : Map (List Hint) → Type 0
    AllRead m = All (λ e. All (λ h. decode (encode h) ≡ some h) e.1) m
