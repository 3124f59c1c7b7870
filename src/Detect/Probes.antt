-- ===== src/Detect/Probes.antt =====
-- core/detect.c, `tier0_silicon`, `tier1_probes` and `tier1_consistent`; common/mem_test.c,
-- `mem_test_flash_capacity`.
pub mod Evidence
use frank_test.Prelude.{
  ℕ, ◌/◌, ◌%◌, ◌^◌, bit_and, Bool, true, false, not, ◌&&◌, ◌||◌, List, [], ◌∷◌, Option, none, some,
  ◌==◌, ltb, if◌then◌else◌,
}
use frank_test.Board.{Board, Pin, Pins, rp2350a, rp2350b}
use frank_test.Board.Caps.{
  any_cap, cap_psram_softspi, cap_rtc_ds3231, cap_audio_codec_i2c, cap_onewire_ds2401, cap_link,
}
use frank_test.OneWire.{Bus, ds2401_read}
use frank_test.Detect.{Bench, Result, pin_eq, is_nc}

-- The capacity byte is the logarithm of the size; what is not between 64 KB and 64 MB is junk.
unfoldable pub mem_test_flash_capacity : ℕ → ℕ
mem_test_flash_capacity jedec_id =
    let cap = bit_and jedec_id 0xFF in if ltb cap 16 || ltb 26 cap then 0 else 2 ^ cap

unfoldable pub tier0_silicon : Bench → Result → Result
unfolding mem_test_flash_capacity
tier0_silicon bench r = record r {
  chip_rev = bit_and (bench.chip_id_reg / 2 ^ 28) 0xF;
  mcu = if bit_and bench.package_sel 1 == 0 then rp2350b else rp2350a;
  flash_jedec = bench.jedec;
  chip_id = bench.unique_id;
  flash_bytes = mem_test_flash_capacity bench.jedec;
}

-- Some candidate uses this chip select.
unfoldable pub plausible : List Board → ℕ → Bool
plausible [] cs = false
plausible (d ∷ ds) cs = pin_eq d.pins.psram_cs (some cs) || plausible ds cs

-- The sweep over the chip selects left: the first plausible one that answers ends it.
unfoldable pub psram_sweep : Bench → List Board → List ℕ → Result → Result
psram_sweep bench cands [] r = r
psram_sweep bench cands (cs ∷ css) r =
    let rest = psram_sweep bench cands css r in
    let bytes = bench.psram_probe cs in
    if not (plausible cands cs)
    then rest
    else if bytes == 0
    then rest
    else record r { psram_cs_found = some cs; psram_bytes = bytes }

-- The first candidate with an I2C bus is asked for both parts.
unfoldable pub i2c_scan : Bench → List Board → Result → Result
i2c_scan bench [] r = r
i2c_scan bench (d ∷ ds) r = elim d.pins.i2c_sda [
  | none ↦ i2c_scan bench ds r
  | some sda ↦ elim d.pins.i2c_scl [
    | none ↦ i2c_scan bench ds r
    | some scl ↦ record r {
      i2c_ds3231 = r.i2c_ds3231 || bench.i2c_probe sda scl 0x68;
      i2c_tlv320 = r.i2c_tlv320 || bench.i2c_probe sda scl 0x18;
    }
  ]
]

-- One pin of the 1-Wire scan. A part that is present leaves its bytes also if they are refused.
unfoldable pub onewire_try : Bench → ℕ → Result → Result
onewire_try bench pin r =
    let bus = bench.onewire pin in
    let seen = if bus.presence then record r { onewire_rom = bus.rom } else r in
    if ds2401_read bus then record seen { onewire_found = true; onewire_pin = some pin } else seen

-- `if (pin == PIN_NC) continue`.
abbrev pub onewire_at : Bench → Pin → Result → Result
onewire_at bench none r = r
onewire_at bench (some pin) r = onewire_try bench pin r

unfoldable pub onewire_scan : Bench → List Board → Result → Result
onewire_scan bench [] r = r
onewire_scan bench (d ∷ ds) r =
    let rest = onewire_scan bench ds (onewire_at bench d.pins.onewire r) in
    if r.onewire_found then r else rest

-- The first candidate with both doorbells rings its own and listens for the other.
unfoldable pub link_scan : Bench → List Board → Result → Result
link_scan bench [] r = r
link_scan bench (d ∷ ds) r = elim d.pins.link_db_out [
  | none ↦ link_scan bench ds r
  | some db_out ↦ elim d.pins.link_db_in [
    | none ↦ link_scan bench ds r
    | some db_in ↦ if bench.link_answers db_out db_in then record r { link_peer = true } else r
  ]
]

abbrev pub psram_cs_candidates : List ℕ
psram_cs_candidates = 8 ∷ 47 ∷ 0 ∷ []

unfoldable pub tier1_probes : Bench → List Board → Result → Result
tier1_probes bench cands r =
    let start = record r { psram_cs_found = none; onewire_pin = none } in
    link_scan bench cands (
      onewire_scan bench cands
        (i2c_scan bench cands (psram_sweep bench cands psram_cs_candidates start)))

-- `p->psram_cs != PIN_NC && !(d->caps & CAP_PSRAM_SOFTSPI)`.
abbrev pub wants_qmi_psram : Board → Bool
wants_qmi_psram d = not (is_nc d.pins.psram_cs) && not (any_cap d.caps cap_psram_softspi)

abbrev pub bool_eq : Bool → Bool → Bool
bool_eq true b = b
bool_eq false b = not b

-- The vetoes, in the order of the code.
unfoldable pub tier1_consistent : Result → Board → Bool
tier1_consistent r d =
    if wants_qmi_psram d && not (pin_eq r.psram_cs_found d.pins.psram_cs)
    then false
    else if not (wants_qmi_psram d)
        && not (is_nc r.psram_cs_found)
        && not (any_cap d.caps cap_psram_softspi)
    then false
    else if not (bool_eq (any_cap d.caps cap_rtc_ds3231) r.i2c_ds3231)
    then false
    else if not (bool_eq (any_cap d.caps cap_audio_codec_i2c) r.i2c_tlv320)
    then false
    else if r.onewire_found && not (any_cap d.caps cap_onewire_ds2401)
    then false
    else if r.onewire_found && not (pin_eq d.pins.onewire r.onewire_pin)
    then false
    else if r.link_peer && not (any_cap d.caps cap_link)
    then false
    else true
