-- ===== src/MemTest.antt =====
-- common/mem_test.c: the flash checks, and the probe and the sweep of the PSRAM. The PSRAM is a
-- parameter, read and written in words; the flash is what its reads give. The cached window and its
-- write-backs are not told apart from the part, and how long a pass took is an input.
pub mod Part
pub mod Probe
pub mod Sweep
pub mod RunAll
use frank_test.Prelude.{
  ℕ, zero, suc, ◌+◌, ◌-◌, ◌*◌, ◌/◌, ◌^◌, bit_or, bit_xor, Bool, true, false, not, ◌&&◌, ◌||◌, List,
  [], ◌∷◌, ◌==◌, ltb, if◌then◌else◌,
}
use frank_test.Prelude.Bytes.{byte_at, u32}
use frank_test.Crc.{crc32}
use frank_test.Link.Pattern.{lfsr_next, count_bytes}

-- A part that is addressed by word, as the QMI window shows it.
pub record Psram (M : Type 0) : Type 0 where
  pub read : M → ℕ → ℕ
  pub write : M → ℕ → ℕ → M

abbrev pub canary : ℕ
canary = 0x5A3CC35A

-- `~canary`.
abbrev pub canary_inverse : ℕ
canary_inverse = 0xA5C33CA5

-- `mem_test_flash_identify`: the JEDEC id in the four bytes that came back.
unfoldable pub jedec_of : List ℕ → ℕ
jedec_of rx =
    bit_or (bit_or (u32 (byte_at rx 1 * 2 ^ 16)) (u32 (byte_at rx 2 * 2 ^ 8))) (byte_at rx 3)

-- KiB/s, as each of the timed passes works it out; a time that is not positive gives 0.
unfoldable pub kbps : ℕ → ℕ → ℕ
kbps bytes us = if ltb 0 us then u32 (bytes * 1000000 / 1024 / us) else 0

module _ {M : Type 0} (part : Psram M) where
  -- The loop over the sizes, on the turns left.
  unfoldable pub probe_sizes : ℕ → ℕ → M → ℕ × M
  probe_sizes zero mb m = (32 * 1024 * 1024, m)
  probe_sizes (suc n) mb m =
      let word_off = mb * 1024 * 1024 / 4 in
      let m' = part.write (part.write m 0 canary) word_off mb in
      let rest = probe_sizes n (mb * 2) m' in
      if not (part.read m' 0 == canary) || not (part.read m' word_off == mb)
      then (mb * 1024 * 1024, m')
      else rest

  -- The size in bytes, 0 where nothing holds the patterns; an RP2040 has no window.
  unfoldable pub mem_test_psram_probe : Bool → M → ℕ × M
  mem_test_psram_probe rp2040 m =
      let m' = part.write (part.write m 0 canary) 1 canary_inverse in
      if rp2040
      then (0, m)
      else if not (part.read m' 0 == canary) || not (part.read m' 1 == canary_inverse)
      then (0, m')
      else probe_sizes 6 1 m'

  -- The write pass from word `i` on, on the words left.
  unfoldable pub sweep_write : ℕ → ℕ → ℕ → M → M
  unfolding lfsr_next
  sweep_write zero i s m = m
  sweep_write (suc n) i s m = sweep_write n (i + 1) (lfsr_next s) (part.write m i (lfsr_next s))

  -- The read-back pass.
  unfoldable pub sweep_read : ℕ → ℕ → ℕ → M → ℕ → ℕ
  unfolding lfsr_next count_bytes
  sweep_read zero i s m errors = errors
  sweep_read (suc n) i s m errors =
      let want = lfsr_next s in
      let got = part.read m i in
      sweep_read n (i + 1) want m
        (if not (got == want) then count_bytes 4 0 (bit_xor got want) errors else errors)

-- What `mem_test_psram_sweep` returns and sets.
pub record Swept : Type 0 where
  pub ok : Bool
  pub write_kbps : ℕ
  pub read_kbps : ℕ
  pub byte_errors : ℕ

-- `link_mem_result_t`.
pub record MemResult : Type 0 where
  pub flash_ok : ℕ
  pub psram_ok : ℕ
  pub flash_bytes : ℕ
  pub flash_read_kbps : ℕ
  pub flash_crc : ℕ
  pub psram_bytes : ℕ
  pub psram_write_kbps : ℕ
  pub psram_read_kbps : ℕ
  pub psram_bit_errors : ℕ

abbrev pub sweep_seed : ℕ
sweep_seed = 0xC0FFEE

module _ {M : Type 0} (part : Psram M) (wus rus : ℕ) where
  unfoldable pub mem_test_psram_sweep : ℕ → M → Swept × M
  unfolding sweep_write sweep_read kbps
  mem_test_psram_sweep psram_bytes m =
      let words = psram_bytes / 4 in
      let m' = sweep_write part words 0 sweep_seed m in
      let errors = sweep_read part words 0 sweep_seed m' 0 in
      (
        record {
          ok = errors == 0;
          write_kbps = kbps psram_bytes wus;
          read_kbps = kbps psram_bytes rus;
          byte_errors = errors;
        },
        m',
      )

  -- From the time of the flash pass and what the two reads of its first 64 KiB gave.
  unfoldable pub mem_test_run_all : ℕ → List ℕ → List ℕ → ℕ → ℕ → M → MemResult × M
  unfolding mem_test_psram_sweep kbps
  mem_test_run_all fus first second flash_bytes psram_bytes m =
      let blank : MemResult = record {
        flash_ok = if not (flash_bytes == 0) && crc32 first == crc32 second then 1 else 0;
        psram_ok = 0;
        flash_bytes = flash_bytes;
        flash_read_kbps = kbps (1024 * 1024) fus;
        flash_crc = crc32 first;
        psram_bytes = psram_bytes;
        psram_write_kbps = 0;
        psram_read_kbps = 0;
        psram_bit_errors = 0;
      } in
      if psram_bytes == 0
      then (blank, m)
      else let swept = mem_test_psram_sweep psram_bytes m in
        (
          record blank {
            psram_ok = if swept.0.ok then 1 else 0;
            psram_write_kbps = swept.0.write_kbps;
            psram_read_kbps = swept.0.read_kbps;
            psram_bit_errors = swept.0.byte_errors;
          },
          swept.1,
        )
