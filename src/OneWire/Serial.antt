-- ===== src/OneWire/Serial.antt =====
-- core/detect.c, `ow_crc8` and `ds2401_read`: the checksum of the silicon serial number.
use frank_test.Prelude.{
  ℕ, zero, suc, ◌/◌, ◌^◌, ◌<◌, ◌≡◌, ◌≢◌, refl, sym, ap, ◌∙◌, bit_xor, List, [], ◌∷◌, Bool, true,
  false, some, set, get_elem?, All, arith, ◌==◌, xor_half, xor_right_comm, if◌then◌else◌,
  Bool-cases, inl, inr, ==→eq,
}
use frank_test.Prelude.Bytes.{IsByte}
use frank_test.Register.{galois, and_one, xor_zero}
use frank_test.Register.Feed.{steps, feed, All-set, feed-set_injective}
use native.Mathlib.Nat.{div-one, pow-succ', div-div-eq-div-mul}
use frank_test.OneWire.{
  ow_read_byte, ow_write_byte, crc8_bit, crc8_bits, crc8_from, ow_crc8, Bus, ds2401_read,
}

-- The byte is mixed in bit by bit; that is a step of the register with the byte already mixed in.
crc8_bit-mix : (c b : ℕ) → bit_xor (crc8_bit c b) (b / 2) ≡ galois 0x8C (bit_xor c b)
unfolding crc8_bit galois
crc8_bit-mix c b =
    ground (arith, and_one (bit_xor c b), xor_half c b, xor_right_comm (c / 2) 0x8C (b / 2))

crc8_bits-mix : (n c b : ℕ) → bit_xor (crc8_bits n c b) (b / 2 ^ n) ≡ steps 0x8C n (bit_xor c b)
unfolding crc8_bits
crc8_bits-mix zero c b = ap (bit_xor c) (div-one b)
crc8_bits-mix (suc n) c b =
    let e : b / 2 ^ suc n ≡ b / 2 / 2 ^ n =
      ap (λ t. b / t) (pow-succ' 2 n) ∙ sym (div-div-eq-div-mul b 2 (2 ^ n)) in
    rw e (crc8_bits-mix n (crc8_bit c b) (b / 2) ∙ ap (steps 0x8C n) (crc8_bit-mix c b))

crc8_byte-eq-steps : (c b : ℕ) → IsByte b → crc8_bits 8 c b ≡ steps 0x8C 8 (bit_xor c b)
crc8_byte-eq-steps c b h =
    let e : b / 2 ^ 8 ≡ 0 = omega arith in
    sym (xor_zero (crc8_bits 8 c b)) ∙ ap (bit_xor (crc8_bits 8 c b)) (sym e) ∙ crc8_bits-mix 8 c b

crc8_from-eq-feed : (c : ℕ) (d : List ℕ) → All IsByte d → crc8_from c d ≡ feed 0x8C c d
unfolding crc8_from feed
crc8_from-eq-feed c [] h = refl
crc8_from-eq-feed c (b ∷ bs) h =
    crc8_from-eq-feed (crc8_bits 8 c b) bs h.1
    ∙ ap (λ t. feed 0x8C t bs) (crc8_byte-eq-steps c b h.0)

ow_crc8-set_ne :
    (d : List ℕ) (i v b : ℕ)
    → All IsByte d
    → IsByte v
    → get_elem? d i ≡ some b
    → v ≢ b
    → ow_crc8 (set d i v) ≢ ow_crc8 d
unfolding ow_crc8
ow_crc8-set_ne d i v b h hv g ne e = ne (
    feed-set_injective 7 0x8C (omega arith) (omega arith) (omega arith) d 0 i v b (omega arith) h hv
      g (sym (crc8_from-eq-feed 0 (set d i v) (All-set d i v h hv)) ∙ e ∙ crc8_from-eq-feed 0 d h))

-- A ROM that is accepted is refused with any one byte read wrong.
ds2401_read-set :
    (bus : Bus) (i v b : ℕ)
    → All IsByte bus.rom
    → ds2401_read bus ≡ true
    → get_elem? bus.rom i ≡ some b
    → IsByte v
    → v ≢ b
    → ds2401_read (record bus { rom = set bus.rom i v }) ≡ false
unfolding ds2401_read
ds2401_read-set bus i v b h ok g hv ne = ground (arith, ow_crc8-set_ne bus.rom i v b h hv g ne)

echoes : ℕ → Bool
echoes byte = ow_read_byte (ow_write_byte byte) == byte

-- Whether the bytes under a limit come back, and what that says of one of them.
echo_under : ℕ → Bool
unfolding echoes
echo_under zero = true
echo_under (suc top) = if echoes top then echo_under top else false

echo_under-echoes : (limit byte : ℕ) → byte < limit → echo_under limit ≡ true → echoes byte ≡ true
unfolding echo_under
echo_under-echoes zero byte below table = absurd (omega arith)
echo_under-echoes (suc top) byte below table = elim (Bool-cases (echoes top)) [
  | inr broken ↦ let contradiction = rw broken at table in cc
  | inl held ↦ elim (Bool-cases (byte == top)) [
    | inl last ↦ rw (==→eq byte top last) held
    | inr earlier ↦ echo_under-echoes top byte (ground arith) (rw held at table)
  ]
]

echo_table : echo_under 256 ≡ true
unfolding echo_under echoes ow_read_byte ow_write_byte
echo_table = refl

echoes-eq : (byte : ℕ) → echoes byte ≡ true → ow_read_byte (ow_write_byte byte) ≡ byte
unfolding echoes
echoes-eq byte h = ==→eq (ow_read_byte (ow_write_byte byte)) byte h

-- A byte that is written bit by bit is read back the same.
ow_read_byte-write_byte : (v : ℕ) → IsByte v → ow_read_byte (ow_write_byte v) ≡ v
ow_read_byte-write_byte v h = echoes-eq v (echo_under-echoes 256 v h echo_table)
