-- ===== src/MemTest/RunAll.antt =====
-- common/mem_test.c, `mem_test_run_all`, after `mem_test_psram_probe`: the results of a self-test.
use frank_test.Prelude.{
  ℕ, ◌*◌, ◌^◌, ◌≤◌, ◌≡◌, ◌≢◌, refl, sym, ◌∙◌, inl, inr, false, not, ◌&&◌, ◌==◌, if◌then◌else◌,
  Bool-cases, List, some, set, get_elem?, All, ==_of_ne, ==_refl, arith,
}
use frank_test.Prelude.Bytes.{IsByte}
use frank_test.Crc.{crc32}
use frank_test.Crc.Errors.{crc32-set_ne}
use frank_test.MemTest.{Psram, mem_test_psram_probe, mem_test_run_all}
use frank_test.MemTest.Part.{IsPsram}
use frank_test.MemTest.Probe.{probe-size, pow_bounds}
use frank_test.MemTest.Sweep.{psram_sweep_sound}

-- A sound PSRAM of 1, 2, 4, ..., 32 MB that is probed and then tested at the size found is reported
-- as good, at its size and without a wrong byte, and so is a flash of known size that reads twice
-- the same.
pub run_all_sound :
    {M : Type 0} (part : Psram M) (wus rus fus flash_bytes k : ℕ) (first : List ℕ) (m : M)
    → k ≤ 5
    → IsPsram part (2 ^ k * 2 ^ 18)
    → flash_bytes ≢ 0
    → let found = mem_test_psram_probe part false m in
      let out = (mem_test_run_all part wus rus fus first first flash_bytes found.0 found.1).0 in
      (out.psram_ok ≡ 1)
      × (out.psram_bytes ≡ 2 ^ k * 2 ^ 20)
      × (out.psram_bit_errors ≡ 0)
      × (out.flash_ok ≡ 1)
unfolding mem_test_run_all
run_all_sound part wus rus fus flash_bytes k first m h is nonzero =
    let found = mem_test_psram_probe part false m in
    let size : found.0 ≡ 2 ^ k * 2 ^ 20 = probe-size part m k h is in
    let b = pow_bounds k h in
    let good =
      psram_sweep_sound part wus rus (2 ^ k * 2 ^ 18) found.0 found.1 is (omega arith)
        (omega arith) in
    let there : found.0 ≢ 0 = omega arith in
    rw (==_of_ne found.0 0 there, ==_of_ne flash_bytes 0 nonzero, ==_refl (crc32 first), good.0)
      (refl, size, good.1, refl)

run_all-flash_ok :
    {M : Type 0} (part : Psram M) (wus rus fus flash_bytes psram_bytes : ℕ) (first second : List ℕ)
    (m : M)
    → (mem_test_run_all part wus rus fus first second flash_bytes psram_bytes m).0.flash_ok
      ≡ (if not (flash_bytes == 0) && crc32 first == crc32 second then 1 else 0)
unfolding mem_test_run_all
run_all-flash_ok part wus rus fus flash_bytes psram_bytes first second m =
    elim (Bool-cases (psram_bytes == 0)) [ inl e ↦ rw e refl | inr e ↦ rw e refl ]

-- A flash that reads with one byte wrong the second time is reported as bad, and so is one whose
-- size is not known; without a PSRAM none is reported as good, and the memory is not touched.
flash_ok-set :
    {M : Type 0} (part : Psram M) (wus rus fus flash_bytes psram_bytes i v b : ℕ)
    (first second : List ℕ) (m : M)
    → All IsByte first
    → IsByte v
    → get_elem? first i ≡ some b
    → v ≢ b
    → let damaged =
        (mem_test_run_all part wus rus fus first (set first i v) flash_bytes psram_bytes m).0 in
      let unknown = (mem_test_run_all part wus rus fus first second 0 psram_bytes m).0 in
      let bare = mem_test_run_all part wus rus fus first second flash_bytes 0 m in
      (damaged.flash_ok ≡ 0) × (unknown.flash_ok ≡ 0) × (bare.0.psram_ok ≡ 0) × (bare.1 ≡ m)
unfolding mem_test_run_all
flash_ok-set part wus rus fus flash_bytes psram_bytes i v b first second m bytes hv at ne =
    let differ =
      ==_of_ne (crc32 first) (crc32 (set first i v))
        (λ e. crc32-set_ne first i v b bytes hv at ne (sym e)) in
    (
      run_all-flash_ok part wus rus fus flash_bytes psram_bytes first (set first i v) m
          ∙ rw differ (ground arith),
      run_all-flash_ok part wus rus fus 0 psram_bytes first second m,
      refl,
      refl,
    )
