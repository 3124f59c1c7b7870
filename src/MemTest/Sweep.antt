-- ===== src/MemTest/Sweep.antt =====
-- common/mem_test.c, `mem_test_psram_sweep`: what the read-back counts.
use frank_test.Prelude.{
  ℕ, zero, suc, ◌+◌, ◌*◌, ◌/◌, ◌^◌, ◌<◌, ◌≤◌, ◌≡◌, ◌↔◌, refl, sym, ap, ◌∙◌, inl, inr, true, List,
  [], ◌∷◌, bit_xor, xor_self, ◌==◌, ==→eq, Bool-cases, length, All, arith,
}
use frank_test.Link.Pattern.{lfsr_next, pattern_words, link_bulk_pattern}
use frank_test.Link.Pattern.Tally.{
  word_byte, differs, word_diffs, buffer_diffs, count_bytes_lem, diffs_from-le, word_diffs_self,
}
use frank_test.Link.Pattern.Generator.{
  IsPatternWord, lfsr_next-IsPatternWord, link_bulk_pattern-All,
}
use frank_test.MemTest.{Psram, sweep_write, sweep_read, sweep_seed, mem_test_psram_sweep}
use frank_test.MemTest.Part.{IsPsram, read-write_below}

buffer_diffs_self : (xs : List ℕ) → buffer_diffs xs xs ≡ 0
buffer_diffs_self [] = refl
buffer_diffs_self (x ∷ xs) = omega (arith, word_diffs_self x x (xor_self x), buffer_diffs_self xs)

differs-zero : (x y : ℕ) → differs x y ≡ 0 → x ≡ y
differs-zero x y h = ground arith

word_of_diffs : (x y : ℕ) → x < 2 ^ 32 → y < 2 ^ 32 → word_diffs x y ≡ 0 → x ≡ y
word_of_diffs x y hx hy h =
    let b0 : word_byte 0 x ≡ word_byte 0 y = differs-zero _ _ (omega arith) in
    let b1 : word_byte 1 x ≡ word_byte 1 y = differs-zero _ _ (omega arith) in
    let b2 : word_byte 2 x ≡ word_byte 2 y = differs-zero _ _ (omega arith) in
    let b3 : word_byte 3 x ≡ word_byte 3 y = differs-zero _ _ (omega arith) in omega arith

words_of_diffs :
    (xs ys : List ℕ)
    → length xs ≡ length ys
    → All (λ x. x < 2 ^ 32) xs
    → All IsPatternWord ys
    → buffer_diffs xs ys ≡ 0
    → xs ≡ ys
words_of_diffs [] [] l hx hy h = refl
words_of_diffs [] (y ∷ ys) l hx hy h = absurd (omega arith)
words_of_diffs (x ∷ xs) [] l hx hy h = absurd (omega arith)
words_of_diffs (x ∷ xs) (y ∷ ys) l hx hy h =
    let first = word_of_diffs x y hx.0 hy.0.1 (omega arith) in
    let others = words_of_diffs xs ys (omega arith) hx.1 hy.1 (omega arith) in cc

module _ {M : Type 0} (part : Psram M) where
  -- What reading `n` words from word `i` on gives.
  abbrev pub read_words : ℕ → ℕ → M → List ℕ
  read_words zero i m = []
  read_words (suc n) i m = part.read m i ∷ read_words n (i + 1) m

  sweep_read_lem :
      (n i s errors : ℕ) (m : M)
      → errors + 4 * n < 2 ^ 32
      → sweep_read part n i s m errors
        ≡ errors + buffer_diffs (read_words n i m) (pattern_words n s)
  unfolding sweep_read pattern_words
  sweep_read_lem zero i s errors m h = omega arith
  sweep_read_lem (suc n) i s errors m h =
      let want = lfsr_next s in
      let got = part.read m i in
      let few = diffs_from-le 4 0 got want in
      elim (Bool-cases (got == want)) [
        | inl same ↦
            let none_wrong : word_diffs got want ≡ 0 =
              word_diffs_self got want
                (ap (λ t. bit_xor t want) (==→eq got want same) ∙ xor_self want) in
            rw same (omega (arith, none_wrong, sweep_read_lem n (i + 1) want errors m))
        | inr other ↦
            rw (other, count_bytes_lem 4 0 got want errors (omega arith))
              (omega (
                arith,
                sweep_read_lem n (i + 1) want (errors + word_diffs got want) m (omega arith),
              ))
      ]

  module _ (size : ℕ) (is : IsPsram part size) where
    -- The write pass leaves alone what lies before it.
    read-sweep_write :
        (n i s j : ℕ) (m : M)
        → IsPatternWord s
        → i + n ≤ size
        → j < i
        → part.read (sweep_write part n i s m) j ≡ part.read m j
    unfolding sweep_write
    read-sweep_write zero i s j m w h lt = refl
    read-sweep_write (suc n) i s j m w h lt =
        let next = lfsr_next-IsPatternWord s w in
        read-sweep_write n (i + 1) (lfsr_next s) j (part.write m i (lfsr_next s)) next (omega arith)
          (omega arith)
        ∙ ground (arith, read-write_below part size m j i (lfsr_next s) is)

    -- The read-back finds what the write pass wrote.
    read_words-sweep_write :
        (n i s : ℕ) (m : M)
        → IsPatternWord s
        → i + n ≤ size
        → read_words n i (sweep_write part n i s m) ≡ pattern_words n s
    unfolding sweep_write pattern_words
    read_words-sweep_write zero i s m w h = refl
    read_words-sweep_write (suc n) i s m w h =
        let next = lfsr_next-IsPatternWord s w in
        let m' = part.write m i (lfsr_next s) in
        let first : part.read (sweep_write part n (i + 1) (lfsr_next s) m') i ≡ lfsr_next s =
          read-sweep_write n (i + 1) (lfsr_next s) i m' next (omega arith) (omega arith)
          ∙ ground (arith, read-write_below part size m i i (lfsr_next s) is) in
        rw (first, read_words-sweep_write n (i + 1) (lfsr_next s) m' next (omega arith)) refl

  length-read_words : (n i : ℕ) (m : M) → length (read_words n i m) ≡ n
  length-read_words zero i m = refl
  length-read_words (suc n) i m = omega (arith, length-read_words n (i + 1) m)

  read_words-All :
      ((m : M) (i : ℕ) → part.read m i < 2 ^ 32)
      → (n i : ℕ) (m : M) → All (λ x. x < 2 ^ 32) (read_words n i m)
  read_words-All narrow zero i m = tt
  read_words-All narrow (suc n) i m = (narrow m i, read_words-All narrow n (i + 1) m)

-- The sweep counts exactly the bytes in which what it reads back differs from the pattern of the
-- bulk transfers, seeded with 0xC0FFEE; it passes if all words read back are those of the pattern,
-- and only then.
pub psram_sweep-exact :
    {M : Type 0} (part : Psram M) (wus rus bytes : ℕ) (m : M)
    → ((m : M) (i : ℕ) → part.read m i < 2 ^ 32)
    → bytes < 2 ^ 32
    → let swept = mem_test_psram_sweep part wus rus bytes m in
      let got = read_words part (bytes / 4) 0 swept.1 in
      let pattern_sent = link_bulk_pattern bytes sweep_seed in
      (swept.0.byte_errors ≡ buffer_diffs got pattern_sent)
      × ((swept.0.ok ≡ true) ↔ (got ≡ pattern_sent))
unfolding mem_test_psram_sweep link_bulk_pattern
psram_sweep-exact part wus rus bytes m narrow h =
    let m' = sweep_write part (bytes / 4) 0 sweep_seed m in
    let got = read_words part (bytes / 4) 0 m' in
    let sent = pattern_words (bytes / 4) sweep_seed in
    let count : sweep_read part (bytes / 4) 0 sweep_seed m' 0 ≡ buffer_diffs got sent =
      sweep_read_lem part (bytes / 4) 0 sweep_seed 0 m' (omega arith) ∙ omega arith in
    let known = link_bulk_pattern-All bytes sweep_seed (omega arith) in
    let right : (got ≡ sent) → (buffer_diffs got sent == 0) ≡ true =
      λ same. rw same (rw (buffer_diffs_self sent) refl) in
    let only : (buffer_diffs got sent == 0) ≡ true → got ≡ sent = λ passed.
      words_of_diffs got sent (length-read_words part (bytes / 4) 0 m' ∙ sym known.0)
        (read_words-All part narrow (bytes / 4) 0 m') known.1
        (==→eq (buffer_diffs got sent) 0 passed) in
    rw count (refl, (only, right))

-- On a sound part that is large enough no byte is wrong.
pub psram_sweep_sound :
    {M : Type 0} (part : Psram M) (wus rus size bytes : ℕ) (m : M)
    → IsPsram part size
    → bytes < 2 ^ 32
    → bytes / 4 ≤ size
    → let swept = mem_test_psram_sweep part wus rus bytes m in
      (swept.0.ok ≡ true) × (swept.0.byte_errors ≡ 0)
unfolding mem_test_psram_sweep
psram_sweep_sound part wus rus size bytes m is h fits =
    let m' = sweep_write part (bytes / 4) 0 sweep_seed m in
    let sent = pattern_words (bytes / 4) sweep_seed in
    let none_wrong : sweep_read part (bytes / 4) 0 sweep_seed m' 0 ≡ 0 =
      sweep_read_lem part (bytes / 4) 0 sweep_seed 0 m' (omega arith)
      ∙ omega (
        arith,
        ap (λ t. buffer_diffs t sent)
            (read_words-sweep_write part size is (bytes / 4) 0 sweep_seed m (omega arith)
              (omega arith)),
        buffer_diffs_self sent,
      ) in
    rw none_wrong (refl, refl)
