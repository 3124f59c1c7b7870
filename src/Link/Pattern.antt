-- ===== src/Link/Pattern.antt =====
-- `lfsr_next`, `link_bulk_pattern`, `link_bulk_result_t` and `link_bulk_verify` of
-- common/link_proto.c and .h: the pattern that the bulk transfers carry, and its comparison.
-- A buffer is its list of 32-bit words.
pub mod Generator
pub mod Popcount
pub mod Tally
use frank_test.Prelude.{
  ℕ, zero, suc, ◌+◌, ◌*◌, ◌/◌, ◌%◌, ◌^◌, bit_and, bit_xor, List, [], ◌∷◌, ◌==◌, if◌then◌else◌,
}
use frank_test.Prelude.Bytes.{u32}

-- Taps 0xA3000000.
unfoldable pub lfsr_next : ℕ → ℕ
lfsr_next s = let lsb = bit_and s 1 in let t = s / 2 in if lsb == 0 then t else bit_xor t 0xA3000000

-- The loop of `link_bulk_pattern`, on the words left.
unfoldable pub pattern_words : ℕ → ℕ → List ℕ
unfolding lfsr_next
pattern_words zero s = []
pattern_words (suc n) s = lfsr_next s ∷ pattern_words n (lfsr_next s)

unfoldable pub link_bulk_pattern : ℕ → ℕ → List ℕ
unfolding pattern_words
link_bulk_pattern bytes seed = pattern_words (bytes / 4) (if seed == 0 then 0xACE1 else seed)

pub record BulkResult : Type 0 where
  pub blocks : ℕ
  pub bytes : ℕ
  pub byte_errors : ℕ
  pub bit_errors : ℕ
  pub timeouts : ℕ
  pub elapsed_us : ℕ

-- `__builtin_popcount`: the ones among the `n` lowest digits.
unfoldable pub popcount : ℕ → ℕ → ℕ
popcount zero d = 0
popcount (suc n) d = d % 2 + popcount n (d / 2)

-- The inner loop over the four bytes of a difference, on the bytes left.
unfoldable pub count_bytes : ℕ → ℕ → ℕ → ℕ → ℕ
count_bytes zero b diff errors = errors
count_bytes (suc n) b diff errors =
    count_bytes n (b + 1) diff
      (if bit_and (diff / 2 ^ (b * 8)) 0xFF == 0 then errors else u32 (errors + 1))

-- One word: nothing is counted where there is no difference.
unfoldable pub verify_word : ℕ → ℕ → BulkResult → BulkResult
verify_word r e acc =
    let diff = bit_xor r e in
    if diff == 0 then acc else record acc {
      bit_errors = u32 (acc.bit_errors + popcount 32 diff);
      byte_errors = count_bytes 4 0 diff acc.byte_errors;
    }

-- The loop over the words, on the words left; both buffers hold that many.
unfoldable pub verify_words : ℕ → List ℕ → List ℕ → BulkResult → BulkResult
verify_words zero rs es acc = acc
verify_words (suc n) [] es acc = acc
verify_words (suc n) (r ∷ rs) [] acc = acc
verify_words (suc n) (r ∷ rs) (e ∷ es) acc = verify_words n rs es (verify_word r e acc)

unfoldable pub link_bulk_verify : BulkResult → List ℕ → List ℕ → ℕ → BulkResult
link_bulk_verify acc received expected bytes =
    verify_words (bytes / 4) received expected
      (record acc { blocks = u32 (acc.blocks + 1); bytes = u32 (acc.bytes + bytes) })
