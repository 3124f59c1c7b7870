-- ===== src/Tests/Memory.antt =====
-- Instances for the memory tests, on a PSRAM of 8 MB that wraps round.
use frank_test.Prelude.{
  ℕ, ◌*◌, ◌/◌, ◌%◌, ◌^◌, ◌<◌, ◌≡◌, ◌↔◌, refl, inl, inr, Bool-cases, true, false, List, [], ◌∷◌,
  ◌==◌, if◌then◌else◌, arith,
}
use frank_test.Link.Pattern.{link_bulk_pattern}
use frank_test.Link.Pattern.Tally.{buffer_diffs}
use frank_test.MemTest.{
  Psram, sweep_seed, mem_test_psram_probe, mem_test_psram_sweep, mem_test_run_all,
}
use frank_test.MemTest.Part.{IsPsram}
use frank_test.MemTest.Sweep.{read_words, psram_sweep-exact}
use frank_test.MemTest.RunAll.{run_all_sound}

abbrev words_8mb : ℕ
words_8mb = 2 ^ 3 * 2 ^ 18

ram : Psram (ℕ → ℕ)
ram = record {
  read = λ f i. f (i % words_8mb) % 2 ^ 32;
  write = λ f j v x. if x == j % words_8mb then v else f x;
}

kept_narrow :
    (a b v w : ℕ)
    → v < 2 ^ 32
    → (if a == b then v else w) % 2 ^ 32 ≡ (if a == b then v else w % 2 ^ 32)
kept_narrow a b v w h = elim (Bool-cases (a == b)) [
  | inl same ↦ rw same (omega arith)
  | inr other ↦ rw other refl
]

ram-IsPsram : IsPsram ram words_8mb
unfolding ram
ram-IsPsram = inl (record {
  read-write = λ m i j v h. kept_narrow (i % words_8mb) (j % words_8mb) v (m (i % words_8mb)) h;
})

ram_narrow : (m : ℕ → ℕ) (i : ℕ) → ram.read m i < 2 ^ 32
unfolding ram
ram_narrow m i = omega arith

abbrev blank : ℕ → ℕ
blank x = 0

psram_sweep-exact_example :
    let swept = mem_test_psram_sweep ram 5000 4000 4096 blank in
    let got = read_words ram (4096 / 4) 0 swept.1 in
    let pattern_sent = link_bulk_pattern 4096 sweep_seed in
    (swept.0.byte_errors ≡ buffer_diffs got pattern_sent)
    × ((swept.0.ok ≡ true) ↔ (got ≡ pattern_sent))
psram_sweep-exact_example = psram_sweep-exact ram 5000 4000 4096 blank ram_narrow (omega arith)

abbrev flash_start : List ℕ
flash_start = 0x00 ∷ 0xB5 ∷ 0x32 ∷ 0x4B ∷ []

run_all_sound_example :
    let found = mem_test_psram_probe ram false blank in
    let out =
      (mem_test_run_all ram 5000 4000 800 flash_start flash_start 16777216 found.0 found.1).0 in
    (out.psram_ok ≡ 1)
    × (out.psram_bytes ≡ 2 ^ 3 * 2 ^ 20)
    × (out.psram_bit_errors ≡ 0)
    × (out.flash_ok ≡ 1)
run_all_sound_example =
    run_all_sound ram 5000 4000 800 16777216 3 flash_start blank (omega arith) ram-IsPsram
      (omega arith)
