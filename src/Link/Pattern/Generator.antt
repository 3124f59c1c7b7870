-- ===== src/Link/Pattern/Generator.antt =====
-- common/link_proto.c, `lfsr_next` and `link_bulk_pattern`: the words of the pattern.
use frank_test.Prelude.{ℕ, zero, suc, ◌/◌, ◌^◌, ◌<◌, ◌≡◌, refl, ap, sym, ◌∙◌, All, length, arith}
use frank_test.Register.{galois, galois-lt, galois-pos, galois_injective, and_one}
use frank_test.Link.Pattern.{lfsr_next, pattern_words, link_bulk_pattern}

lfsr_next-eq-galois : (s : ℕ) → lfsr_next s ≡ galois 0xA3000000 s
unfolding lfsr_next galois
lfsr_next-eq-galois s = ground (arith, and_one s)

-- A pattern word is a nonzero 32-bit word.
abbrev pub IsPatternWord : ℕ → Type 0
IsPatternWord s = (0 < s) × (s < 2 ^ 32)

pub lfsr_next-IsPatternWord : (s : ℕ) → IsPatternWord s → IsPatternWord (lfsr_next s)
lfsr_next-IsPatternWord s h = rw (lfsr_next-eq-galois s) (
  galois-pos 31 0xA3000000 (omega arith) (omega arith) s h.0 h.1,
  galois-lt 31 0xA3000000 (omega arith) (omega arith) s h.1,
)

pattern_words-IsPatternWord : (n s : ℕ) → IsPatternWord s → All IsPatternWord (pattern_words n s)
unfolding pattern_words
pattern_words-IsPatternWord zero s h = tt
pattern_words-IsPatternWord (suc n) s h =
    let next = lfsr_next-IsPatternWord s h in
    (next, pattern_words-IsPatternWord n (lfsr_next s) next)

pattern_words-length : (n s : ℕ) → length (pattern_words n s) ≡ n
unfolding pattern_words
pattern_words-length zero s = refl
pattern_words-length (suc n) s = ap suc (pattern_words-length n (lfsr_next s))

-- The pattern fills the buffer with nonzero 32-bit words, whatever the seed, zero included.
pub link_bulk_pattern-All :
    (bytes seed : ℕ)
    → seed < 2 ^ 32
    → (length (link_bulk_pattern bytes seed) ≡ bytes / 4)
      × All IsPatternWord (link_bulk_pattern bytes seed)
unfolding link_bulk_pattern
link_bulk_pattern-All bytes seed h =
    (pattern_words-length (bytes / 4) _, pattern_words-IsPatternWord (bytes / 4) _ (ground arith))

-- Two states of the generator with the same successor are the same.
pub lfsr_next_injective : (s t : ℕ) → s < 2 ^ 32 → t < 2 ^ 32 → lfsr_next s ≡ lfsr_next t → s ≡ t
lfsr_next_injective s t hs ht e =
    galois_injective 31 0xA3000000 (omega arith) (omega arith) s t hs ht
      (sym (lfsr_next-eq-galois s) ∙ e ∙ lfsr_next-eq-galois t)
