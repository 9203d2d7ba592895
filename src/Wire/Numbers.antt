-- ===== src/Wire/Numbers.antt =====
-- The bytes of a number on the wire.
use minesweeper.Prelude.{
  ℕ, zero, suc, ◌+◌, ◌*◌, ◌/◌, ◌^◌, ◌≤◌, ◌<◌, ◌≡◌, refl, [], ◌∷◌, length, arith,
}
use minesweeper.Parameter.{Bytes}
use minesweeper.Wire.Writer.{byte, bytes_needed_from, bytes_needed, width, le_bytes}
use minesweeper.Wire.Reader.{le_value}

-- The ladder of `write` picks the width that `bytes_needed` reserves.
pub bytes_needed-eq-width : (v : ℕ) → bytes_needed v ≡ width v
unfolding bytes_needed bytes_needed_from width
bytes_needed-eq-width v = ground arith

pub width_bounds : (v : ℕ) → (1 ≤ width v) × (width v ≤ 8)
unfolding width
width_bounds v = ground arith

-- The bytes of `v` from index `i` on, and the number that they add up to.
unfoldable pub digits : ℕ → ℕ → ℕ → Bytes
digits zero i v = []
digits (suc k) i v = byte v i ∷ digits k (i + 1) v

unfoldable pub value : ℕ → ℕ → ℕ → ℕ
value zero i v = 0
value (suc k) i v = byte v i * 2 ^ (8 * i) + value k (i + 1) v

pub length-digits : (k i v : ℕ) → length (digits k i v) ≡ k
unfolding digits
length-digits zero i v = refl
length-digits (suc k) i v = omega (arith, length-digits k (i + 1) v)

value_one : (v : ℕ) → v < 2 ^ 8 → value 1 0 v ≡ v
unfolding value
value_one v h = omega arith

value_two : (v : ℕ) → v < 2 ^ 16 → value 2 0 v ≡ v
unfolding value
value_two v h = omega arith

value_three : (v : ℕ) → v < 2 ^ 24 → value 3 0 v ≡ v
unfolding value
value_three v h = omega arith

value_four : (v : ℕ) → v < 2 ^ 32 → value 4 0 v ≡ v
unfolding value
value_four v h = omega arith

value_five : (v : ℕ) → v < 2 ^ 40 → value 5 0 v ≡ v
unfolding value
value_five v h = omega arith

value_six : (v : ℕ) → v < 2 ^ 48 → value 6 0 v ≡ v
unfolding value
value_six v h = omega arith

value_seven : (v : ℕ) → v < 2 ^ 56 → value 7 0 v ≡ v
unfolding value
value_seven v h = omega arith

value_eight : (v : ℕ) → v < 2 ^ 64 → value 8 0 v ≡ v
unfolding value
value_eight v h = omega arith

-- The bytes of the width that is picked add up to the number.
pub value-width : (v : ℕ) → v < 2 ^ 64 → value (width v) 0 v ≡ v
unfolding width
value-width v h = ground (
  arith,
  value_one v,
  value_two v,
  value_three v,
  value_four v,
  value_five v,
  value_six v,
  value_seven v,
  value_eight v h,
)

pub length-le_bytes : (k v : ℕ) → length (le_bytes k v) ≡ k
unfolding le_bytes
length-le_bytes zero v = refl
length-le_bytes (suc k) v = omega (arith, length-le_bytes k (v / 256))

pub le_value-le_bytes_four : (v : ℕ) → v < 2 ^ 32 → le_value (le_bytes 4 v) ≡ v
unfolding le_value le_bytes
le_value-le_bytes_four v h = omega arith

pub le_value-le_bytes_eight : (v : ℕ) → v < 2 ^ 64 → le_value (le_bytes 8 v) ≡ v
unfolding le_value le_bytes
le_value-le_bytes_eight v h = omega arith
