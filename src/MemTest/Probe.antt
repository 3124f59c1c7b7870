-- ===== src/MemTest/Probe.antt =====
-- common/mem_test.c, `mem_test_psram_probe`: the size that is found.
use frank_test.Prelude.{
  ℕ, zero, suc, ◌*◌, ◌/◌, ◌^◌, ◌<◌, ◌≤◌, ◌≡◌, ◌≢◌, refl, sym, ap, ◌∙◌, ◌⊎◌, inl, inr, true, false,
  ==_refl, arith,
}
use frank_test.MemTest.{Psram, canary, canary_inverse, probe_sizes, mem_test_psram_probe}
use frank_test.MemTest.Part.{IsPsram, read-write_below}
use native.Mathlib.Nat.{mod-eq_of_lt, mod_self, pow-succ', mul_assoc}

-- Nobody drives the bus: all reads give one value.
pub record IsAbsent {M : Type 0} (part : Psram M) : Type 0 where
  pub stuck : ℕ
  pub read_stuck : (m : M) (i : ℕ) → part.read m i ≡ stuck

le-mul_pow : (a d : ℕ) → a ≤ a * 2 ^ d
le-mul_pow a zero = omega arith
le-mul_pow a (suc d) = rw (pow-succ' 2 d) (grind (arith, le-mul_pow a d))

module _ {M : Type 0} (part : Psram M) where
  -- Two words below the end are told apart.
  kept_below :
      (size : ℕ) (m : M) (i j v w : ℕ)
      → IsPsram part size
      → v < 2 ^ 32
      → w < 2 ^ 32
      → i < size
      → j < size
      → i ≢ j
      → (part.read (part.write (part.write m i v) j w) i ≡ v)
        × (part.read (part.write (part.write m i v) j w) j ≡ w)
  kept_below size m i j v w is hv hw hi hj ne = ground (
    arith,
    read-write_below part size m i i v is,
    read-write_below part size (part.write m i v) i j w is,
    read-write_below part size (part.write m i v) j j w is,
  )

  -- At the end of the part the write is on word 0, or it did not stick.
  caught_at_end :
      (size : ℕ) (m : M) (mb : ℕ)
      → IsPsram part size
      → 0 < size
      → 0 < mb
      → mb ≤ 32
      → let m' = part.write (part.write m 0 canary) size mb in
        (part.read m' 0 ≢ canary) ⊎ (part.read m' size ≢ mb)
  caught_at_end size m mb (inl wraps) h low high = inl (
      ground
        (arith, mod_self size, mod-eq_of_lt h, wraps.read-write (part.write m 0 canary) 0 size mb))
  caught_at_end size m mb (inr ends) h low high =
      inr (
        ground
          (arith, ends.idle, ends.read_above (part.write (part.write m 0 canary) size mb) size))

  -- From a size that is not above the true one the loop ends at the true one.
  probe_sizes_lem :
      (n d mb : ℕ) (m : M)
      → IsPsram part (mb * 2 ^ d * 2 ^ 18)
      → d < n
      → 0 < mb
      → mb * 2 ^ d ≤ 32
      → (probe_sizes part n mb m).0 ≡ mb * 2 ^ d * 2 ^ 20
  unfolding probe_sizes
  probe_sizes_lem zero d mb m is lt low high = absurd (omega arith)
  probe_sizes_lem (suc n) zero mb m is lt low high =
      let size = mb * 2 ^ 0 * 2 ^ 18 in
      let off : mb * 1024 * 1024 / 4 ≡ size = omega arith in
      rw off (ground (arith, caught_at_end size m mb is (omega arith) low (omega arith)))
  probe_sizes_lem (suc n) (suc d) mb m is lt low high =
      let size = mb * 2 ^ suc d * 2 ^ 18 in
      let off = mb * 1024 * 1024 / 4 in
      let doubled : mb * 2 ^ suc d ≡ mb * 2 * 2 ^ d =
        ap (λ t. mb * t) (pow-succ' 2 d) ∙ sym (mul_assoc mb 2 (2 ^ d)) in
      let below : mb * 2 ≤ mb * 2 * 2 ^ d = le-mul_pow (mb * 2) d in
      let m' = part.write (part.write m 0 canary) off mb in
      let kept : (part.read m' 0 ≡ canary) × (part.read m' off ≡ mb) =
        kept_below size m 0 off canary mb is (omega arith) (omega arith) (omega arith) (omega arith)
          (omega arith) in
      let is' : IsPsram part (mb * 2 * 2 ^ d * 2 ^ 18) = rw doubled at is in
      let rest = probe_sizes_lem n d (mb * 2) m' is' (omega arith) (omega arith) (omega arith) in
      rw (kept.0, kept.1, ==_refl mb) (rest ∙ ap (λ t. t * 2 ^ 20) (sym doubled))

pub pow_bounds : (k : ℕ) → k ≤ 5 → (0 < 2 ^ k) × (2 ^ k ≤ 32)
pow_bounds zero h = omega arith
pow_bounds (suc zero) h = omega arith
pow_bounds (suc (suc zero)) h = omega arith
pow_bounds (suc (suc (suc zero))) h = omega arith
pow_bounds (suc (suc (suc (suc zero)))) h = omega arith
pow_bounds (suc (suc (suc (suc (suc zero))))) h = omega arith
pow_bounds (suc (suc (suc (suc (suc (suc k)))))) h = absurd (omega arith)

pub probe-size :
    {M : Type 0} (part : Psram M) (m : M) (k : ℕ)
    → k ≤ 5
    → IsPsram part (2 ^ k * 2 ^ 18)
    → (mem_test_psram_probe part false m).0 ≡ 2 ^ k * 2 ^ 20
unfolding mem_test_psram_probe
probe-size part m k h is =
    let b = pow_bounds k h in
    let m' = part.write (part.write m 0 canary) 1 canary_inverse in
    let there : (part.read m' 0 ≡ canary) × (part.read m' 1 ≡ canary_inverse) =
      kept_below part (2 ^ k * 2 ^ 18) m 0 1 canary canary_inverse is (omega arith) (omega arith)
        (omega arith) (omega arith) (omega arith) in
    let one : 1 * 2 ^ k ≡ 2 ^ k = omega arith in
    let is' : IsPsram part (1 * 2 ^ k * 2 ^ 18) = rw one is in
    rw (there.0, there.1)
      (probe_sizes_lem part 6 k 1 m' is' (omega arith) (omega arith) (omega arith)
        ∙ ap (λ t. t * 2 ^ 20) one)

-- A sound part of 1, 2, 4, 8, 16 or 32 MB is found at its size, whether its upper address bits fall
-- off or its upper addresses are left open; where nothing answers, and on an RP2040, none is found.
psram_probe-size :
    {M : Type 0} (part gone : Psram M) (m : M) (k : ℕ)
    → k ≤ 5
    → IsPsram part (2 ^ k * 2 ^ 18)
    → IsAbsent gone
    → ((mem_test_psram_probe part false m).0 ≡ 2 ^ k * 2 ^ 20)
      × ((mem_test_psram_probe gone false m).0 ≡ 0)
      × ((mem_test_psram_probe part true m).0 ≡ 0)
unfolding mem_test_psram_probe
psram_probe-size part gone m k h is silent =
    let m' = gone.write (gone.write m 0 canary) 1 canary_inverse in
    (probe-size part m k h is, ground (arith, silent.read_stuck m' 0, silent.read_stuck m' 1), refl)
