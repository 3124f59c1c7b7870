-- ===== src/Detect.antt =====
-- core/detect.c and core/detect.h: which board this is. The tiers are the children: `Probes` is the
-- silicon and the active probes, `Fingerprint` the pin signatures, `Run` the verdict.
pub mod Probes
pub mod Fingerprint
pub mod Run
use frank_test.Prelude.{ℕ, Bool, true, false, List, [], Option, none, some, ◌==◌, replicate}
use frank_test.Board.{Board, McuClass, Pin, PinSig, rp2350a}
use frank_test.OneWire.{Bus}

abbrev pub detect_max_candidates : ℕ
detect_max_candidates = 6

abbrev pub detect_max_mismatch : ℕ
detect_max_mismatch = 8

-- `detect_source_t`.
pub data Source : Type 0 where
  src_none src_compiled src_flash_record src_sd_config src_auto src_operator : Source

-- What the hardware answers during one detection: the registers, the probes at a pin, and what
-- `pinsig_classify` returns for a pin in the k-th call of `pinsig_score`.
pub record Bench : Type 0 where
  pub chip_id_reg : ℕ
  pub package_sel : ℕ
  pub jedec : ℕ
  pub unique_id : List ℕ
  pub psram_probe : ℕ → ℕ
  pub i2c_probe : ℕ → ℕ → ℕ → Bool
  pub onewire : ℕ → Bus
  pub link_answers : ℕ → ℕ → Bool
  pub pads : ℕ → ℕ → PinSig

-- `detect_result_t`, less the throughput figures, which only `detect_benchmark` writes, and
-- `psram_softspi`, which detection leaves at zero.
pub record Result : Type 0 where
  pub mcu : McuClass
  pub chip_rev : ℕ
  pub chip_id : List ℕ
  pub flash_jedec : ℕ
  pub flash_bytes : ℕ
  pub psram_cs_found : Pin
  pub psram_bytes : ℕ
  pub i2c_ds3231 : Bool
  pub i2c_tlv320 : Bool
  pub onewire_found : Bool
  pub onewire_rom : List ℕ
  pub onewire_pin : Pin
  pub link_peer : Bool
  pub candidates : List Board
  pub best_score : ℕ
  pub best_of : ℕ
  pub margin : ℕ
  pub mismatch : List ℕ
  pub ambiguous : Bool
  pub board : Option Board
  pub source : Source
  pub auto_guess : Option Board
  pub disagrees : Bool

-- The result after the `memset` and the two pins set to PIN_NC.
abbrev pub cleared : Result
cleared = record {
  mcu = rp2350a;
  chip_rev = 0;
  chip_id = replicate 8 0;
  flash_jedec = 0;
  flash_bytes = 0;
  psram_cs_found = none;
  psram_bytes = 0;
  i2c_ds3231 = false;
  i2c_tlv320 = false;
  onewire_found = false;
  onewire_rom = replicate 8 0;
  onewire_pin = none;
  link_peer = false;
  candidates = [];
  best_score = 0;
  best_of = 0;
  margin = 0;
  mismatch = [];
  ambiguous = false;
  board = none;
  source = src_none;
  auto_guess = none;
  disagrees = false;
}

-- `a == b` of two pins, PIN_NC included.
abbrev pub pin_eq : Pin → Pin → Bool
pin_eq none none = true
pin_eq none (some q) = false
pin_eq (some p) none = false
pin_eq (some p) (some q) = p == q

abbrev pub is_nc : Pin → Bool
is_nc none = true
is_nc (some p) = false
