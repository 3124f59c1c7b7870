-- ===== src/I2c/Registers.antt =====
-- core/i2c_bb.c, `i2c_bb_read_regs`: reading registers of a device.
use frank_test.Prelude.{
  ℕ, zero, suc, ◌*◌, ◌≡◌, ◌≢◌, refl, ap, ◌∙◌, bit_or, Bool, true, false, not, ◌||◌, none, some,
  List, [], ◌∷◌, ◌++◌, length, All, ◌==◌, if◌then◌else◌, Bool-cases, inl, inr, arith,
}
use frank_test.Prelude.Bytes.{IsByte, u8}
use frank_test.I2c.{next_level, bb_write_byte, bb_read_byte, read_data, i2c_bb_read_regs}
use frank_test.I2c.Wire.{Symbol, start, stop, Hears, Hears-append}
use frank_test.I2c.Bytes.{
  between, bits_of, frame, read_frame, bb_write_byte-Hears, bb_write_byte-value, bb_write_byte-rest,
  bb_read_byte-Hears, bb_read_byte-bits_of,
}
use frank_test.I2c.Transfers.{
  idle, restart-Hears, stop-Hears, sent, acked, frames, answers_after, write_line, write_line-rest,
}

-- The bytes of a read, of which all but the last are acknowledged.
abbrev pub read_frames : ℕ → List Symbol
read_frames zero = []
read_frames (suc n) = read_frame (not (n == 0)) ++ read_frames n

read_data_lem :
    (n : ℕ) (held : Bool) (reads : List Bool)
    → (left : Bool) × Hears (between held) (read_data n reads).calls (read_frames n) (between left)
unfolding read_data
read_data_lem zero held reads = (held, record { as_symbols = refl; then_at = refl })
read_data_lem (suc n) held reads =
    let (left, others) = read_data_lem n true (bb_read_byte (not (n == 0)) reads).rest in
    (left, Hears-append (bb_read_byte-Hears (not (n == 0)) held reads) others)

-- What a device sends for these bytes.
abbrev pub sends : List ℕ → List Bool → List Bool
sends [] rest = rest
sends (b ∷ bs) rest = bits_of 8 b ++ sends bs rest

read_data-zero : (reads : List Bool) → (read_data 0 reads).value ≡ []
unfolding read_data
read_data-zero reads = refl

read_data-value :
    (n : ℕ) (reads : List Bool)
    → let byte = bb_read_byte (not (n == 0)) reads in
      (read_data (suc n) reads).value ≡ byte.value ∷ (read_data n byte.rest).value
unfolding read_data
read_data-value n reads = refl

read_data-sends :
    (n : ℕ) (bytes : List ℕ) (rest : List Bool)
    → All IsByte bytes
    → length bytes ≡ n
    → (read_data n (sends bytes rest)).value ≡ bytes
read_data-sends zero [] rest h l = read_data-zero rest
read_data-sends zero (b ∷ bs) rest h l = absurd (omega arith)
read_data-sends (suc n) [] rest h l = absurd (omega arith)
read_data-sends (suc n) (b ∷ bs) rest h l =
    let ack = not (n == 0) in
    let byte = bb_read_byte-bits_of ack b (sends bs rest) h.0 in
    read_data-value n (sends (b ∷ bs) rest)
    ∙ ap (λ t. t ∷ (read_data n (bb_read_byte ack (sends (b ∷ bs) rest)).rest).value) byte.0
    ∙ ap (λ r. b ∷ (read_data n r).value) byte.1
    ∙ ap (λ t. b ∷ t) (read_data-sends n bs rest h.1 (omega arith))

-- What is heard of a read of `n` registers with these answers.
abbrev pub registers_heard : ℕ → ℕ → ℕ → List Bool → List Symbol
registers_heard addr7 reg n reads =
    let line = u8 (addr7 * 2) ∷ reg ∷ [] in
    let named = start ∷ frames (sent line reads) in
    let again = named ++ (start ∷ []) ++ frame (u8 (bit_or (addr7 * 2) 1)) in
    if not (acked line reads)
    then named ++ (stop ∷ [])
    else if next_level (answers_after line reads)
    then again ++ (stop ∷ [])
    else again ++ read_frames n ++ (stop ∷ [])

-- A read of registers is heard as a write of the register's number to the device and, unless a byte
-- of it is refused, a second start, the address for reading and, unless that is refused, the bytes,
-- all but the last of them acknowledged; in each case with a stop at the end and both lines
-- released.
i2c_bb_read_regs_lem :
    (addr7 reg n : ℕ) (reads : List Bool)
    → Hears idle
        (i2c_bb_read_regs addr7 reg (suc n) reads).calls
        (registers_heard addr7 reg (suc n) reads)
        idle
unfolding i2c_bb_read_regs
i2c_bb_read_regs_lem addr7 reg n reads =
    let address = u8 (addr7 * 2) in
    let second = u8 (bit_or (addr7 * 2) 1) in
    let (left, named, value) = write_line address (reg ∷ []) reads in
    elim (Bool-cases (acked (address ∷ reg ∷ []) reads)) [
      | inr refused ↦
          let v = value ∙ refused in rw (v, refused) (Hears-append named (stop-Hears left))
      | inl taken ↦
          let v = value ∙ taken in
          let answers = answers_after (address ∷ reg ∷ []) reads in
          let r = write_line-rest address (reg ∷ []) reads taken in
          let w = bb_write_byte-value second answers in
          let again =
            Hears-append (Hears-append named (restart-Hears left))
              (bb_write_byte-Hears second true answers) in
          elim (Bool-cases (next_level answers)) [
            | inl off ↦ rw (v, r, w, off, taken) (Hears-append again (stop-Hears false))
            | inr on ↦
                let (late, bytes) =
                  read_data_lem (suc n) false (bb_write_byte second answers).rest in
                rw (v, r, w, on, taken) (Hears-append (Hears-append again bytes) (stop-Hears late))
          ]
    ]

-- What a device sends, after it took the address, the register's number and the address again, is
-- what is read; if it refuses any of them, the read fails.
pub i2c_bb_read_regs-sends :
    (addr7 reg : ℕ) (a b c : Bool) (bytes : List ℕ) (rest : List Bool)
    → All IsByte bytes
    → bytes ≢ []
    → (i2c_bb_read_regs addr7 reg (length bytes) (a ∷ b ∷ c ∷ sends bytes rest)).value
      ≡ (if a || b || c then none else some bytes)
unfolding i2c_bb_read_regs
i2c_bb_read_regs-sends addr7 reg a b c [] rest h ne = absurd (ne refl)
i2c_bb_read_regs-sends addr7 reg true b c (d ∷ ds) rest h ne =
    let reads = true ∷ b ∷ c ∷ sends (d ∷ ds) rest in
    let (left, named, value) = write_line (u8 (addr7 * 2)) (reg ∷ []) reads in rw value refl
i2c_bb_read_regs-sends addr7 reg false true c (d ∷ ds) rest h ne =
    let reads = false ∷ true ∷ c ∷ sends (d ∷ ds) rest in
    let (left, named, value) = write_line (u8 (addr7 * 2)) (reg ∷ []) reads in rw value refl
i2c_bb_read_regs-sends addr7 reg false false true (d ∷ ds) rest h ne =
    let reads = false ∷ false ∷ true ∷ sends (d ∷ ds) rest in
    let (left, named, value) = write_line (u8 (addr7 * 2)) (reg ∷ []) reads in
    let r = write_line-rest (u8 (addr7 * 2)) (reg ∷ []) reads refl in
    let w = bb_write_byte-value (u8 (bit_or (addr7 * 2) 1)) (true ∷ sends (d ∷ ds) rest) in
    rw (value, r, w) refl
i2c_bb_read_regs-sends addr7 reg false false false (d ∷ ds) rest h ne =
    let reads = false ∷ false ∷ false ∷ sends (d ∷ ds) rest in
    let (left, named, value) = write_line (u8 (addr7 * 2)) (reg ∷ []) reads in
    let r = write_line-rest (u8 (addr7 * 2)) (reg ∷ []) reads refl in
    let second = u8 (bit_or (addr7 * 2) 1) in
    let w = bb_write_byte-value second (false ∷ sends (d ∷ ds) rest) in
    let after = bb_write_byte-rest second (false ∷ sends (d ∷ ds) rest) in
    rw (value, r, w, after) (ap some (read_data-sends (suc (length ds)) (d ∷ ds) rest h refl))
