-- ===== src/Crc.antt =====
-- `link_crc32` of common/link_proto.c and `crc32_of` of core/settings.c: the bitwise, reflected
-- CRC-32, whose feedback is selected by a mask of the lowest bit.
pub mod Errors
use frank_test.Prelude.{ℕ, zero, suc, ◌+◌, ◌-◌, ◌/◌, ◌^◌, ◌<◌, bit_and, bit_xor, List, [], ◌∷◌}
use frank_test.Prelude.Bytes.{u32}

abbrev pub crc_poly : ℕ
crc_poly = 0xEDB88320

-- One turn of the inner loop: `mask = -(crc & 1u); crc = (crc >> 1) ^ (0xEDB88320u & mask);`.
pub crc_shift : ℕ → ℕ
crc_shift crc = let mask = u32 (2 ^ 32 - bit_and crc 1) in bit_xor (crc / 2) (bit_and crc_poly mask)

-- The inner loop, on the turns left.
pub crc_shifts : ℕ → ℕ → ℕ
crc_shifts zero crc = crc
crc_shifts (suc n) crc = crc_shifts n (crc_shift crc)

-- The loop over the bytes, from a register value.
pub crc_register : ℕ → List ℕ → ℕ
crc_register crc [] = crc
crc_register crc (b ∷ data_left) = crc_register (crc_shifts 8 (bit_xor crc b)) data_left

-- `~crc` of a 32-bit register.
unfoldable pub crc32 : List ℕ → ℕ
unfolding crc_register crc_shifts crc_shift
crc32 bytes = 0xFFFFFFFF - crc_register 0xFFFFFFFF bytes
