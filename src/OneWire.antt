-- ===== src/OneWire.antt =====
-- core/detect.c, `ow_*` and `ds2401_read`: the silicon serial number on the 1-Wire bus. A byte read
-- from the bus is the list of its bits in the order sent; the waits and the pin calls are left out.
pub mod Serial
use frank_test.Prelude.{
  ℕ, zero, suc, ◌+◌, ◌*◌, ◌/◌, ◌^◌, bit_and, bit_or, bit_xor, List, [], ◌∷◌, Bool, true, false, not,
  ◌==◌, if◌then◌else◌, map,
}
use frank_test.Prelude.Bytes.{byte_at}

-- `ow_read_byte`, from bit `i` on, into the byte so far.
unfoldable pub ow_read_bits : ℕ → List Bool → ℕ → ℕ
ow_read_bits i [] v = v
ow_read_bits i (b ∷ bs) v = ow_read_bits (i + 1) bs (if b then bit_or v (2 ^ i) else v)

unfoldable pub ow_read_byte : List Bool → ℕ
unfolding ow_read_bits
ow_read_byte bits = ow_read_bits 0 bits 0

-- `ow_write_byte`: the bits `(v >> i) & 1u` from bit `i` on, lowest first.
unfoldable pub ow_write_bits : ℕ → ℕ → ℕ → List Bool
ow_write_bits zero i v = []
ow_write_bits (suc n) i v = not (bit_and (v / 2 ^ i) 1 == 0) ∷ ow_write_bits n (i + 1) v

unfoldable pub ow_write_byte : ℕ → List Bool
unfolding ow_write_bits
ow_write_byte v = ow_write_bits 8 0 v

-- One turn of the inner loop of `ow_crc8`: the register and the byte both move down.
unfoldable pub crc8_bit : ℕ → ℕ → ℕ
crc8_bit crc b =
    let mix = bit_and (bit_xor crc b) 1 in if mix == 0 then crc / 2 else bit_xor (crc / 2) 0x8C

unfoldable pub crc8_bits : ℕ → ℕ → ℕ → ℕ
crc8_bits zero crc b = crc
crc8_bits (suc n) crc b = crc8_bits n (crc8_bit crc b) (b / 2)

unfoldable pub crc8_from : ℕ → List ℕ → ℕ
crc8_from crc [] = crc
crc8_from crc (b ∷ bs) = crc8_from (crc8_bits 8 crc b) bs

unfoldable pub ow_crc8 : List ℕ → ℕ
unfolding crc8_from
ow_crc8 d = crc8_from 0 d

-- What the bus answers to READ ROM: a presence pulse, and the eight bytes that follow.
pub record Bus : Type 0 where
  pub presence : Bool
  pub rom : List ℕ

-- The ROM is a DS2401's only with its family byte and a checksum that comes out as zero.
unfoldable pub ds2401_read : Bus → Bool
ds2401_read bus =
    if bus.presence then (if byte_at bus.rom 0 == 1 then ow_crc8 bus.rom == 0 else false) else false
