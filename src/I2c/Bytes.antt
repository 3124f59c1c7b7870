-- ===== src/I2c/Bytes.antt =====
-- core/i2c_bb.c, `bb_write_byte` and `bb_read_byte`: a byte on the wire.
use frank_test.Prelude.{
  ℕ, zero, suc, ◌+◌, ◌*◌, ◌/◌, ◌%◌, ◌^◌, ◌<◌, ◌≤◌, ◌≡◌, refl, ap, ◌∙◌, bit_and, bit_or, Bool, true,
  false, not, inl, inr, none, List, map, [], ◌∷◌, ◌++◌, and_step, mod_double, ◌==◌, if◌then◌else◌,
  Bool-cases, arith,
}
use frank_test.Prelude.Bytes.{u8}
use frank_test.Prelude.Masks.{has_bit, or_shifted, and_low}
use native.Mathlib.Nat.{pow-suc, pow-succ', one-le-pow, add-mul}
use frank_test.I2c.{
  sda, scl, next_level, later_levels, write_bit, write_bits, bb_write_byte, read_bits, bb_read_byte,
  pin_release, pin_drive_low, gpio_get,
}
use frank_test.I2c.Wire.{Watch, Symbol, sample, bit, Hears, Hears-append}

-- The lines between two bits: the clock is held low, the data line low or released.
abbrev pub between : Bool → Watch
between held = record {
  sda_out = held;
  sda_high = false;
  scl_out = true;
  scl_high = false;
  pending = none;
}

-- The `i` lowest bits of a number, the highest first.
abbrev pub bits_of : ℕ → ℕ → List Bool
bits_of zero v = []
bits_of (suc i) v = has_bit i v ∷ bits_of i v

abbrev pub as_bits : List Bool → List Symbol
as_bits bs = map bit bs

-- A byte that is written: its bits, and a released data line that is sampled while the clock is
-- high.
abbrev pub frame : ℕ → List Symbol
frame v = as_bits (bits_of 8 v) ++ (sample ∷ bit true ∷ [])

bit_test : (i v : ℕ) → not (bit_and v (2 ^ i) == 0) ≡ has_bit i v
bit_test zero v = ground (arith, and_low 1 v)
bit_test (suc i) v =
    let half : 2 ^ suc i / 2 ≡ 2 ^ i = omega (arith, pow-suc 2 i) in
    let even : 2 ^ suc i % 2 ≡ 0 = omega (arith, pow-suc 2 i) in
    let step : bit_and v (2 ^ suc i) ≡ bit_and (v / 2) (2 ^ i) * 2 =
      omega (arith, and_step v (2 ^ suc i), ap (bit_and (v / 2)) half, even) in
    ground (arith, step, bit_test i (v / 2))

write_bit-Hears :
    (held b : Bool) → Hears (between held) (write_bit b) (bit b ∷ []) (between (not b))
unfolding write_bit
write_bit-Hears true true = record { as_symbols = refl; then_at = refl }
write_bit-Hears true false = record { as_symbols = refl; then_at = refl }
write_bit-Hears false true = record { as_symbols = refl; then_at = refl }
write_bit-Hears false false = record { as_symbols = refl; then_at = refl }

-- How the data line is held after the last bit.
abbrev held_after : ℕ → ℕ → Bool → Bool
held_after zero v held = held
held_after (suc i) v held = held_after i v (not (has_bit i v))

write_bits-Hears :
    (i v : ℕ) (held : Bool)
    → Hears (between held) (write_bits i v) (as_bits (bits_of i v)) (between (held_after i v held))
unfolding write_bits
write_bits-Hears zero v held = record { as_symbols = refl; then_at = refl }
write_bits-Hears (suc i) v held =
    rw (bit_test i v)
      (Hears-append (write_bit-Hears held (has_bit i v)) (write_bits-Hears i v (not (has_bit i v))))

acknowledge-Hears :
    (held : Bool)
    → Hears
        (between held)
        (pin_release sda ++ pin_release scl ++ (gpio_get sda ∷ pin_drive_low scl))
        (sample ∷ bit true ∷ [])
        (between false)
acknowledge-Hears true = record { as_symbols = refl; then_at = refl }
acknowledge-Hears false = record { as_symbols = refl; then_at = refl }

pub bb_write_byte-Hears :
    (v : ℕ) (held : Bool) (reads : List Bool)
    → Hears (between held) (bb_write_byte v reads).calls (frame v) (between false)
unfolding bb_write_byte
bb_write_byte-Hears v held reads =
    Hears-append (write_bits-Hears 8 v held) (acknowledge-Hears (held_after 8 v held))

pub bb_write_byte-value :
    (v : ℕ) (reads : List Bool) → (bb_write_byte v reads).value ≡ not (next_level reads)
unfolding bb_write_byte
bb_write_byte-value v reads = refl

pub bb_write_byte-rest :
    (v : ℕ) (reads : List Bool) → (bb_write_byte v reads).rest ≡ later_levels reads
unfolding bb_write_byte
bb_write_byte-rest v reads = refl

-- A byte that is read: the data line is left to the device and sampled while the clock is high, and
-- the ninth bit is the master's.
abbrev pub sampled : ℕ → List Symbol
sampled zero = []
sampled (suc i) = sample ∷ bit true ∷ sampled i

abbrev pub read_frame : Bool → List Symbol
read_frame ack = sampled 8 ++ (bit (not ack) ∷ [])

pub bb_read_byte-Hears :
    (ack held : Bool) (reads : List Bool)
    → Hears (between held) (bb_read_byte ack reads).calls (read_frame ack) (between true)
unfolding bb_read_byte
bb_read_byte-Hears true true reads = record { as_symbols = refl; then_at = refl }
bb_read_byte-Hears true false reads = record { as_symbols = refl; then_at = refl }
bb_read_byte-Hears false true reads = record { as_symbols = refl; then_at = refl }
bb_read_byte-Hears false false reads = record { as_symbols = refl; then_at = refl }

-- A byte is its highest bit and what is below.
mod_high : (i b : ℕ) → b % 2 ^ suc i ≡ (if has_bit i b then 2 ^ i else 0) + b % 2 ^ i
mod_high zero b = ground arith
mod_high (suc i) b = ground (
  arith,
  pow-succ' 2 i,
  ap (λ t. b % t) (pow-succ' 2 (suc i)) ∙ mod_double b (2 ^ suc i),
  ap (λ t. b % t) (pow-succ' 2 i) ∙ mod_double b (2 ^ i),
  mod_high i (b / 2),
)

twice : (hi p q : ℕ) → q ≡ p * 2 → hi * q ≡ hi * 2 * p
twice hi p q e = rw e (grind arith)

twice_one : (hi p q : ℕ) → q ≡ p * 2 → hi * q + p ≡ (hi * 2 + 1) * p
twice_one hi p q e = omega (arith, twice hi p q e, add-mul (hi * 2) 1 p)

read_bits-bits_of :
    (i hi b : ℕ) (rest : List Bool)
    → 2 ^ i ≤ 256
    → let read = read_bits i (hi * 2 ^ i) (bits_of i b ++ rest) in
      (read.value ≡ hi * 2 ^ i + b % 2 ^ i) × (read.rest ≡ rest)
unfolding read_bits
read_bits-bits_of zero hi b rest h = (omega arith, refl)
read_bits-bits_of (suc i) hi b rest h =
    let double : 2 ^ suc i ≡ 2 ^ i * 2 = pow-suc 2 i in
    let cast : u8 (2 ^ i) ≡ 2 ^ i = omega arith in
    let below = one-le-pow i 2 in
    let high = mod_high i b in
    elim (Bool-cases (has_bit i b)) [
      | inl set_bit ↦
          let sum : bit_or (hi * 2 ^ suc i) (u8 (2 ^ i)) ≡ (hi * 2 + 1) * 2 ^ i =
            ap (bit_or (hi * 2 ^ suc i)) cast
            ∙ or_shifted (suc i) hi (2 ^ i) (omega arith)
            ∙ twice_one hi (2 ^ i) (2 ^ suc i) double in
          let others = read_bits-bits_of i (hi * 2 + 1) b rest (omega arith) in
          let top : b % 2 ^ suc i ≡ 2 ^ i + b % 2 ^ i = rw set_bit at high in
          rw (set_bit, sum)
            (others.0 ∙ omega (arith, top, twice_one hi (2 ^ i) (2 ^ suc i) double), others.1)
      | inr clear ↦
          let same = twice hi (2 ^ i) (2 ^ suc i) double in
          let others = read_bits-bits_of i (hi * 2) b rest (omega arith) in
          let top : b % 2 ^ suc i ≡ 0 + b % 2 ^ i = rw clear at high in
          rw (clear, same) (others.0 ∙ omega (arith, top), others.1)
    ]

-- A device that sends the bits of a byte is read as that byte.
pub bb_read_byte-bits_of :
    (ack : Bool) (b : ℕ) (rest : List Bool)
    → b < 256
    → let read = bb_read_byte ack (bits_of 8 b ++ rest) in (read.value ≡ b) × (read.rest ≡ rest)
unfolding bb_read_byte
bb_read_byte-bits_of ack b rest h =
    let bits = read_bits-bits_of 8 0 b rest (omega arith) in (bits.0 ∙ omega arith, bits.1)
