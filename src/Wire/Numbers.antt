-- ===== src/Wire/Numbers.antt =====
-- binary.LittleEndian: a number as bytes, the lowest first.
use native.Mathlib.Nat.{pow-suc}
use allidb.Base.{
  All, Bytes, [], ap, arith, length, refl, suc, zero, ℕ, ◌%◌, ◌*◌, ◌+◌, ◌/◌, ◌<◌, ◌^◌, ◌∷◌, ◌≡◌,
}

unfoldable pub le_bytes : ℕ → ℕ → Bytes
le_bytes zero v = []
le_bytes (suc width) v = v % 256 ∷ le_bytes width (v / 256)

unfoldable pub le_value : Bytes → ℕ
le_value [] = 0
le_value (b ∷ bs) = b + 256 * le_value bs

pub length-le_bytes : (width v : ℕ) → length (le_bytes width v) ≡ width
unfolding le_bytes
length-le_bytes zero v = refl
length-le_bytes (suc width) v = ap suc (length-le_bytes width (v / 256))

pub le_value-le_bytes : (width v : ℕ) → v < 256 ^ width → le_value (le_bytes width v) ≡ v
unfolding le_bytes le_value
le_value-le_bytes zero v h = omega arith
le_value-le_bytes (suc width) v h =
    omega
      (arith, pow-suc 256 width, le_value-le_bytes width (v / 256) (smaller (pow-suc 256 width)))
  where
    smaller : 256 ^ suc width ≡ 256 ^ width * 256 → v / 256 < 256 ^ width
    smaller e = omega arith

-- Encoded bytes are bytes.
pub le_bytes-All : (width v : ℕ) → All (λ b. b < 256) (le_bytes width v)
unfolding le_bytes
le_bytes-All zero v = tt
le_bytes-All (suc width) v = (omega arith, le_bytes-All width (v / 256))
