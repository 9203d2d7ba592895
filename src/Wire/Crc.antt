-- ===== src/Wire/Crc.antt =====
-- `crc32`, bit by bit, over `uint32_t`.
use minesweeper.Prelude.{ℕ, zero, suc, ◌-◌, ◌/◌, ◌%◌, ◌^◌, ◌≡◌, refl, bit_and, bit_xor, [], ◌∷◌}
use minesweeper.Parameter.{Bytes, text}

-- `mask = -(crc & 1u); crc = (crc >> 1) ^ (0xEDB88320u & mask)`
crc_bit : ℕ → ℕ
crc_bit crc =
    let mask = (2 ^ 32 - bit_and crc 1) % 2 ^ 32 in bit_xor (crc / 2) (bit_and 0xedb8_8320 mask)

crc_bits : ℕ → ℕ → ℕ
crc_bits zero crc = crc
crc_bits (suc left) crc = crc_bits left (crc_bit crc)

crc_bytes : ℕ → Bytes → ℕ
crc_bytes crc [] = crc
crc_bytes crc (b ∷ bs) = crc_bytes (crc_bits 8 (bit_xor crc b)) bs

unfoldable pub crc32 : Bytes → ℕ
unfolding crc_bytes crc_bits crc_bit
crc32 bs = 2 ^ 32 - 1 - crc_bytes (2 ^ 32 - 1) bs

-- The check value of the CRC-32 of zlib.
crc32_check : crc32 (text "123456789") ≡ 0xcbf4_3926
unfolding crc32
crc32_check = refl
