-- ===== src/I2c.antt =====
-- core/i2c_bb.c: the bit-banged I2C master. The calls on the SDK are a list in order, on the two
-- lines by name; what `gpio_get` answers is an input, and the waits are left out.
pub mod Wire
pub mod Bytes
pub mod Transfers
pub mod Registers
use frank_test.Prelude.{
  ℕ, zero, suc, ◌+◌, ◌*◌, ◌^◌, bit_and, bit_or, Bool, true, false, not, Option, none, some, List,
  [], ◌∷◌, ◌++◌, ◌==◌, if◌then◌else◌,
}
use frank_test.Prelude.Bytes.{u8}

pub data Line : Type 0 where
  sda scl : Line

-- The direction is out where `gpio_set_dir` has true.
pub data Call : Type 0 where
  gpio_init : Line → Call
  gpio_put : Line → Bool → Call
  gpio_set_dir : Line → Bool → Call
  gpio_pull_up : Line → Call
  gpio_disable_pulls : Line → Call
  gpio_get : Line → Call

-- Calls, a result, and the answers that are left.
pub record Exchange (A : Type 0) : Type 0 where
  pub calls : List Call
  pub value : A
  pub rest : List Bool

-- The next answer of `gpio_get`; with nobody left to pull, the line is high.
abbrev pub next_level : List Bool → Bool
next_level [] = true
next_level (b ∷ bs) = b

abbrev pub later_levels : List Bool → List Bool
later_levels [] = []
later_levels (b ∷ bs) = bs

abbrev pub pin_release : Line → List Call
pin_release l = gpio_set_dir l false ∷ []

abbrev pub pin_drive_low : Line → List Call
pin_drive_low l = gpio_put l false ∷ gpio_set_dir l true ∷ []

unfoldable pub i2c_bb_init : List Call
i2c_bb_init =
    gpio_init sda ∷ gpio_init scl ∷ gpio_put sda false ∷ gpio_put scl false ∷ pin_release sda
    ++ pin_release scl
    ++ (gpio_pull_up sda ∷ gpio_pull_up scl ∷ [])

unfoldable pub i2c_bb_release : List Call
i2c_bb_release =
    gpio_disable_pulls sda
    ∷ gpio_disable_pulls scl
    ∷ gpio_set_dir sda false
    ∷ gpio_set_dir scl false
    ∷ []

unfoldable pub bb_start : List Call
bb_start = pin_release sda ++ pin_release scl ++ pin_drive_low sda ++ pin_drive_low scl

unfoldable pub bb_restart : List Call
bb_restart = pin_release sda ++ pin_release scl ++ pin_drive_low sda ++ pin_drive_low scl

unfoldable pub bb_stop : List Call
bb_stop = pin_drive_low sda ++ pin_release scl ++ pin_release sda

-- One turn of the loop of `bb_write_byte`.
unfoldable pub write_bit : Bool → List Call
write_bit b =
    (if b then pin_release sda else pin_drive_low sda) ++ pin_release scl ++ pin_drive_low scl

-- The loop, on the bits left.
unfoldable pub write_bits : ℕ → ℕ → List Call
unfolding write_bit
write_bits zero v = []
write_bits (suc i) v = write_bit (not (bit_and v (2 ^ i) == 0)) ++ write_bits i v

unfoldable pub bb_write_byte : ℕ → List Bool → Exchange Bool
unfolding write_bits
bb_write_byte v reads = record {
  calls =
      write_bits 8 v ++ (pin_release sda ++ pin_release scl ++ (gpio_get sda ∷ pin_drive_low scl));
  value = not (next_level reads);
  rest = later_levels reads;
}

-- The loop of `bb_read_byte`, on the bits left and the byte so far.
unfoldable pub read_bits : ℕ → ℕ → List Bool → Exchange ℕ
read_bits zero v reads = record { calls = []; value = v; rest = reads }
read_bits (suc i) v reads =
    let others =
      read_bits i (if next_level reads then bit_or v (u8 (2 ^ i)) else v) (later_levels reads) in
    record others { calls = pin_release scl ++ (gpio_get sda ∷ pin_drive_low scl) ++ others.calls }

unfoldable pub bb_read_byte : Bool → List Bool → Exchange ℕ
unfolding read_bits
bb_read_byte ack reads =
    let bits = read_bits 8 0 reads in
    record bits {
      calls =
          pin_release sda
          ++ bits.calls
          ++ (if ack then pin_drive_low sda else pin_release sda)
          ++ pin_release scl
          ++ pin_drive_low scl
          ++ pin_drive_low sda;
    }

unfoldable pub i2c_bb_probe : ℕ → List Bool → Exchange Bool
unfolding bb_start bb_write_byte bb_stop
i2c_bb_probe addr7 reads =
    let address = bb_write_byte (u8 (addr7 * 2)) reads in
    record address { calls = bb_start ++ address.calls ++ bb_stop }

-- The loop of `i2c_bb_write`, on what is left of the data; it ends at the first refusal.
unfoldable pub write_data : Bool → List ℕ → List Bool → Exchange Bool
unfolding bb_write_byte
write_data false ds reads = record { calls = []; value = false; rest = reads }
write_data true [] reads = record { calls = []; value = true; rest = reads }
write_data true (d ∷ ds) reads =
    let byte = bb_write_byte d reads in
    let others = write_data byte.value ds byte.rest in
    record others { calls = byte.calls ++ others.calls }

unfoldable pub i2c_bb_write : ℕ → List ℕ → List Bool → Exchange Bool
unfolding bb_start bb_write_byte write_data bb_stop
i2c_bb_write addr7 bytes reads =
    let address = bb_write_byte (u8 (addr7 * 2)) reads in
    let others = write_data address.value bytes address.rest in
    record others { calls = bb_start ++ address.calls ++ others.calls ++ bb_stop }

-- The loop of `i2c_bb_read_regs`, on the bytes left: every byte but the last is acknowledged.
unfoldable pub read_data : ℕ → List Bool → Exchange (List ℕ)
read_data zero reads = record { calls = []; value = []; rest = reads }
read_data (suc n) reads =
    let byte = bb_read_byte (not (n == 0)) reads in
    let others = read_data n byte.rest in
    record {
      calls = byte.calls ++ others.calls;
      value = byte.value ∷ others.value;
      rest = others.rest;
    }

-- `none` is a return of false, with `out` as it was; there is a buffer to read into.
unfoldable pub i2c_bb_read_regs : ℕ → ℕ → ℕ → List Bool → Exchange (Option (List ℕ))
i2c_bb_read_regs addr7 reg zero reads = record { calls = []; value = none; rest = reads }
i2c_bb_read_regs addr7 reg (suc n) reads =
    let address = bb_write_byte (u8 (addr7 * 2)) reads in
    let named = write_data address.value (reg ∷ []) address.rest in
    let opened = bb_start ++ address.calls ++ named.calls in
    let again = bb_write_byte (u8 (bit_or (addr7 * 2) 1)) named.rest in
    let bytes = read_data (suc n) again.rest in
    if not named.value
    then record { calls = opened ++ bb_stop; value = none; rest = named.rest }
    else if not again.value
    then record {
      calls = opened ++ bb_restart ++ again.calls ++ bb_stop;
      value = none;
      rest = again.rest;
    }
    else record {
      calls = opened ++ bb_restart ++ again.calls ++ bytes.calls ++ bb_stop;
      value = some bytes.value;
      rest = bytes.rest;
    }
