-- ===== src/Sstable/GroupAt.antt =====
-- The rows of a group stand behind those of the groups before it.
use mathlib.Core.Path.{subst}
use allidb.Wire.Cursor.{At, At-step}
use allidb.Sstable.Format.{Row}
use allidb.Sstable.Layout.{footer_layout}
use allidb.Sstable.Groups.{
  Group, flatten, sizes, entries, entries_layout, rows_layout, length-rows_layout,
  rows_layout-append,
}
use allidb.Sstable.Table.{table_footer, table_layout}
use allidb.Sstable.Open.{table-Lies}
use allidb.Base.{All, Bytes, List, [], ap, append_assoc, refl, sym, ℕ, ◌++◌, ◌+◌, ◌∙◌, ◌∷◌, ◌≡◌}

pub flatten-append : (gs hs : List Group) → flatten (gs ++ hs) ≡ flatten gs ++ flatten hs
flatten-append [] hs = refl
flatten-append ((id, rows) ∷ gs) hs =
    rw (flatten-append gs hs) (sym (append_assoc rows (flatten gs) (flatten hs)))

pub All-mid : (P : Group → Type 0) (gs hs : List Group) (g : Group) → All P (gs ++ g ∷ hs) → P g
All-mid P [] hs g all = all.0
All-mid P (k ∷ gs) hs g all = All-mid P gs hs g all.1

All-left : (P : Row → Type 0) (rs ss : List Row) → All P (rs ++ ss) → All P rs × All P ss
All-left P [] ss all = (tt, all)
All-left P (r ∷ rs) ss all = let (here, there) = All-left P rs ss all.1 in ((all.0, here), there)

pub flatten-All :
    (P : Row → Type 0) (gs hs : List Group) (g : Group) → All P (flatten (gs ++ g ∷ hs)) → All P g.1
flatten-All P [] hs (id, rows) all = (All-left P rows (flatten hs) all).0
flatten-All P ((j, rs) ∷ gs) hs g all =
    flatten-All P gs hs g (All-left P rs (flatten (gs ++ g ∷ hs)) all).1

module _ (checksum : Bytes → ℕ) where
  rows_split :
      (gs hs : List Group) (id : Bytes) (rows : List Row) (tail : Bytes)
      → rows_layout checksum (flatten (gs ++ (id, rows) ∷ hs)) ++ tail
        ≡ rows_layout checksum (flatten gs)
          ++ (rows_layout checksum rows ++ (rows_layout checksum (flatten hs) ++ tail))
  rows_split gs hs id rows tail =
      let first = rows_layout checksum (flatten gs) in
      let mine = rows_layout checksum rows in
      let later = rows_layout checksum (flatten hs) in
      rw
        (
          flatten-append gs ((id, rows) ∷ hs),
          rows_layout-append checksum (flatten gs) (rows ++ flatten hs),
          rows_layout-append checksum rows (flatten hs),
        )
        (append_assoc first (mine ++ later) tail
          ∙ ap (λ b. first ++ b) (append_assoc mine later tail))

  -- The rows of a group lie behind those of the groups before it.
  pub group-At :
      (gs hs : List Group) (id : Bytes) (rows : List Row)
      → (rest : Bytes) × At
          (table_layout checksum (gs ++ (id, rows) ∷ hs))
          (16 + sizes (flatten gs))
          (rows_layout checksum rows ++ rest)
  group-At gs hs id rows =
      let all : List Group = gs ++ (id, rows) ∷ hs in
      let bytes = table_layout checksum all in
      let tail = entries_layout (entries all 16) ++ footer_layout (table_footer all) in
      let rest = rows_layout checksum (flatten hs) ++ tail in
      let a = subst (At bytes 16) (rows_split gs hs id rows tail) (table-Lies checksum all).rows in
      (
        rest,
        rw (length-rows_layout checksum (flatten gs)) at (
            At-step bytes (rows_layout checksum (flatten gs)) (rows_layout checksum rows ++ rest) 16
              a),
      )
