-- ===== src/Command/Tests.antt =====
-- A write and a read over three nodes, each with one virtual node, of the default configuration.
-- The digest of a string is the string itself here.
use allidb.Config.{Config, default_config}
use allidb.Config.Validate.{Files, a_directory, validate}
use allidb.Ring
use allidb.Ring.{Ring, get_owners, hash_string, add_node}
use allidb.Ring.Runs.{Change, join, changes}
use allidb.Ring.Tests.{insertion_sort, insertion_sort-IsSort}
use allidb.Coordinator.{select_replicas, write, read, write_to_replicas, wait_for_quorum}
use allidb.Coordinator.Quorum.{accepts}
use allidb.Coordinator.Values.{IsOrder}
use allidb.Command.{new_ring, new_coordinator}
use allidb.Command.Agreement.{validate-write-read}
use allidb.Base.{
  Bool-cases, Bytes, List, Option, [], arith, codes, false, has_key, if◌then◌else◌, inl, inr,
  insert, lookup, none, ok, pos, refl, search, some, str_eq, true, ℕ, ◌∷◌, ◌≡◌,
}

abbrev files : Files
files = record { abs = some; stat = λ path. a_directory; mkdir_all = λ path. false }

abbrev config : Config
config = record default_config {
  cluster = record (default_config.cluster) { virtual_nodes_per_node = pos 1 };
}

config_passes : validate files config ≡ ok tt
unfolding validate str_eq
config_passes = refl

abbrev digest : Bytes → Bytes
digest s = s

abbrev joins : List Change
joins = join (codes "b") ∷ join (codes "c") ∷ []

abbrev ring : Ring
ring = changes digest insertion_sort (new_ring digest insertion_sort config) joins

-- The third node refuses the write and answers reads with an old value.
abbrev writer : Bytes → Bytes → Option Bytes → Option ℕ
writer id k v = if str_eq id (codes "c") then some 1 else none

abbrev reader : Bytes → Bytes → Option Bytes × Option ℕ
reader id k = if str_eq id (codes "c") then (some (codes "old"), none) else (some (codes "v"), none)

abbrev in_order : List (Bytes × ℕ) → List (Bytes × ℕ)
in_order es = es

in_order-IsOrder : IsOrder in_order
in_order-IsOrder test m = refl

written :
    write digest
      (new_coordinator digest insertion_sort config ring none)
      writer
      (codes "k")
      (some (codes "v"))
    ≡ some (ok tt)
unfolding write new_ring new_coordinator Ring.new insertion_sort add_node select_replicas get_owners
    hash_string lookup insert str_eq search write_to_replicas wait_for_quorum has_key Ring.decimal
written = refl

keeps :
    (id : Bytes)
    → accepts writer (codes "k") (some (codes "v")) id ≡ true
    → (true ≡ true) × (reader id (codes "k") ≡ (some (codes "v"), none))
keeps id h = elim (Bool-cases (str_eq id (codes "c"))) [
  | inl e ↦ ground (arith, e, h)
  | inr e ↦ ground (arith, e)
]

validate-write-read_example :
    read digest in_order (new_coordinator digest insertion_sort config ring none) reader (codes "k")
    ≡ some (ok (some (codes "v")))
validate-write-read_example =
    validate-write-read digest insertion_sort insertion_sort-IsSort files config joins none none
      writer reader in_order (codes "k") (codes "v") config_passes in_order-IsOrder written keeps
