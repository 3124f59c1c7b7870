-- ===== src/Link/Pattern/Tally.antt =====
-- common/link_proto.c, `link_bulk_verify`: what the comparison counts.
use frank_test.Prelude.{
  ℕ, zero, suc, ◌+◌, ◌*◌, ◌/◌, ◌%◌, ◌^◌, ◌<◌, ◌≤◌, ◌≡◌, refl, ap, sym, ◌∙◌, inl, inr, List, [], ◌∷◌,
  length, arith, ◌==◌, if◌then◌else◌, Bool, true, false, Bool-cases, bit_and, ==→eq, bit_xor,
  xor-div, xor-mod, xor_cancel, xor_self,
}
use frank_test.Prelude.Bytes.{u32}
use frank_test.Prelude.Masks.{and_low}
use frank_test.Link.Pattern.{
  BulkResult, popcount, count_bytes, verify_word, verify_words, link_bulk_verify,
}
use frank_test.Link.Pattern.Popcount.{popcount-zero, popcount-pos, popcount-le, popcount-add}
use Prim.Native.Nat.{bit_xor-bitwise}
use native.Mathlib.Nat.{div-one, div-div-eq-div-mul}

-- Byte `b` of a word, and how many of its four bytes two words differ in.
abbrev pub word_byte : ℕ → ℕ → ℕ
word_byte b w = w / 2 ^ (b * 8) % 256

abbrev pub differs : ℕ → ℕ → ℕ
differs x y = if x == y then 0 else 1

abbrev pub diffs_from : ℕ → ℕ → ℕ → ℕ → ℕ
diffs_from zero b r e = 0
diffs_from (suc n) b r e = differs (word_byte b r) (word_byte b e) + diffs_from n (b + 1) r e

abbrev pub word_diffs : ℕ → ℕ → ℕ
word_diffs = diffs_from 4 0

-- In how many bytes two buffers of one length differ.
abbrev pub buffer_diffs : List ℕ → List ℕ → ℕ
buffer_diffs [] es = 0
buffer_diffs (r ∷ rs) [] = 0
buffer_diffs (r ∷ rs) (e ∷ es) = word_diffs r e + buffer_diffs rs es

eq_of_xor : (x y : ℕ) → bit_xor x y ≡ 0 → x ≡ y
eq_of_xor x y h = sym (xor_cancel x y) ∙ ap (λ t. bit_xor t y) h ∙ bit_xor-bitwise 0 y

diff_byte :
    (r e b : ℕ) → bit_and (bit_xor r e / 2 ^ (b * 8)) 0xFF ≡ bit_xor (word_byte b r) (word_byte b e)
diff_byte r e b =
    and_low 8 (bit_xor r e / 2 ^ (b * 8))
    ∙ ap (λ t. t % 256) (xor-div (b * 8) r e)
    ∙ xor-mod 8 (r / 2 ^ (b * 8)) (e / 2 ^ (b * 8))

xor_test : (x y : ℕ) → (bit_xor x y == 0) ≡ (x == y)
xor_test x y = ground (arith, eq_of_xor x y, xor_self x)

-- The test of the code is a comparison of the two bytes.
byte_test :
    (r e b : ℕ) → (bit_and (bit_xor r e / 2 ^ (b * 8)) 0xFF == 0) ≡ (word_byte b r == word_byte b e)
byte_test r e b = rw (diff_byte r e b) (xor_test (word_byte b r) (word_byte b e))

counted :
    (same : Bool) (errors : ℕ)
    → errors + 1 < 2 ^ 32
    → (if same then errors else u32 (errors + 1)) ≡ errors + (if same then 0 else 1)
counted true errors h = omega arith
counted false errors h = omega arith

differs-le : (x y : ℕ) → differs x y ≤ 1
differs-le x y = ground arith

pub diffs_from-le : (n b r e : ℕ) → diffs_from n b r e ≤ n
diffs_from-le zero b r e = omega arith
diffs_from-le (suc n) b r e =
    omega (arith, differs-le (word_byte b r) (word_byte b e), diffs_from-le n (b + 1) r e)

pub count_bytes_lem :
    (n b r e errors : ℕ)
    → errors + n < 2 ^ 32
    → count_bytes n b (bit_xor r e) errors ≡ errors + diffs_from n b r e
unfolding count_bytes
count_bytes_lem zero b r e errors h = omega arith
count_bytes_lem (suc n) b r e errors h =
    let d = differs (word_byte b r) (word_byte b e) in
    let small : d ≤ 1 = differs-le (word_byte b r) (word_byte b e) in
    rw (byte_test r e b) (
      rw (counted (word_byte b r == word_byte b e) errors (omega arith))
        (omega (arith, count_bytes_lem n (b + 1) r e (errors + d) (omega arith))))

byte_bits :
    (r e b : ℕ)
    → let bits = popcount 8 (bit_xor r e / 2 ^ (b * 8)) in
      let d = differs (word_byte b r) (word_byte b e) in (d ≤ bits) × (bits ≤ 8 * d)
byte_bits r e b =
    let x = bit_xor r e / 2 ^ (b * 8) in
    let t : x % 256 ≡ bit_xor (word_byte b r) (word_byte b e) =
      ap (λ u. u % 256) (xor-div (b * 8) r e) ∙ xor-mod 8 (r / 2 ^ (b * 8)) (e / 2 ^ (b * 8)) in
    ground (
      arith,
      t,
      popcount-zero 8 x,
      popcount-pos 8 x,
      popcount-le 8 x,
      eq_of_xor (word_byte b r) (word_byte b e),
      ap (bit_xor (word_byte b r)) {x = word_byte b e} {y = word_byte b r},
      xor_self (word_byte b r),
    )

word_bits :
    (r e : ℕ)
    → let bits = popcount 32 (bit_xor r e) in (word_diffs r e ≤ bits) × (bits ≤ 8 * word_diffs r e)
word_bits r e =
    let x = bit_xor r e in
    omega (
      arith,
      popcount-add 8 24 32 x refl,
      popcount-add 8 16 24 (x / 2 ^ 8) refl,
      popcount-add 8 8 16 (x / 2 ^ 8 / 2 ^ 8) refl,
      ap (popcount 8) (div-one x),
      ap (popcount 8) (div-div-eq-div-mul x 256 256),
      ap (λ t. popcount 8 (t / 2 ^ 8)) (div-div-eq-div-mul x 256 256),
      ap (popcount 8) (div-div-eq-div-mul x 65536 256),
      byte_bits r e 0,
      byte_bits r e 1,
      byte_bits r e 2,
      byte_bits r e 3,
    )

-- What a comparison adds to the counters: `d` differing bytes, and between one and eight bits for
-- each; the other counters stay.
pub record Counted (acc out : BulkResult) (d : ℕ) : Type 0 where
  pub byte_count : out.byte_errors ≡ acc.byte_errors + d
  pub bits_from : acc.bit_errors + d ≤ out.bit_errors
  pub bits_to : out.bit_errors ≤ acc.bit_errors + 8 * d
  pub same_blocks : out.blocks ≡ acc.blocks
  pub same_bytes : out.bytes ≡ acc.bytes
  pub same_timeouts : out.timeouts ≡ acc.timeouts

pub word_diffs_self : (r e : ℕ) → bit_xor r e ≡ 0 → word_diffs r e ≡ 0
word_diffs_self r e h = ground (arith, eq_of_xor r e h)

verify_word-Counted :
    (r e : ℕ) (acc : BulkResult)
    → acc.byte_errors + 4 < 2 ^ 32
    → acc.bit_errors + 32 < 2 ^ 32
    → Counted acc (verify_word r e acc) (word_diffs r e)
unfolding verify_word
verify_word-Counted r e acc hb hw = elim (Bool-cases (bit_xor r e == 0)) [
  | inl same ↦
      let none_differ = word_diffs_self r e (==→eq _ 0 same) in
      rw same (record {
        byte_count = omega arith;
        bits_from = omega arith;
        bits_to = omega arith;
        same_blocks = refl;
        same_bytes = refl;
        same_timeouts = refl;
      })
  | inr other ↦ rw other (record {
    byte_count = count_bytes_lem 4 0 r e acc.byte_errors hb;
    bits_from = omega (arith, word_bits r e, popcount-le 32 (bit_xor r e));
    bits_to = omega (arith, word_bits r e, popcount-le 32 (bit_xor r e));
    same_blocks = refl;
    same_bytes = refl;
    same_timeouts = refl;
  })
]

verify_words-Counted :
    (n : ℕ) (rs es : List ℕ) (acc : BulkResult)
    → length rs ≡ n
    → length es ≡ n
    → acc.byte_errors + 4 * n < 2 ^ 32
    → acc.bit_errors + 32 * n < 2 ^ 32
    → Counted acc (verify_words n rs es acc) (buffer_diffs rs es)
unfolding verify_words
verify_words-Counted zero [] es acc lr le hb hw = record {
  byte_count = omega arith;
  bits_from = omega arith;
  bits_to = omega arith;
  same_blocks = refl;
  same_bytes = refl;
  same_timeouts = refl;
}
verify_words-Counted zero (r ∷ rs) es acc lr le hb hw = absurd (omega arith)
verify_words-Counted (suc n) [] es acc lr le hb hw = absurd (omega arith)
verify_words-Counted (suc n) (r ∷ rs) [] acc lr le hb hw = absurd (omega arith)
verify_words-Counted (suc n) (r ∷ rs) (e ∷ es) acc lr le hb hw =
    let first = verify_word-Counted r e acc (omega arith) (omega arith) in
    let few = diffs_from-le 4 0 r e in
    let others =
      verify_words-Counted n rs es (verify_word r e acc) (omega arith) (omega arith)
        (omega (arith, first.byte_count, few)) (omega (arith, first.bits_to, few)) in
    record {
      byte_count = omega (arith, first.byte_count, others.byte_count);
      bits_from = omega (arith, first.bits_from, others.bits_from);
      bits_to = omega (arith, first.bits_to, others.bits_to);
      same_blocks = others.same_blocks ∙ first.same_blocks;
      same_bytes = others.same_bytes ∙ first.same_bytes;
      same_timeouts = others.same_timeouts ∙ first.same_timeouts;
    }

-- Over buffers of one length, and while the counters have room, a comparison adds to the byte
-- errors exactly the number of bytes in which the buffers differ, to the bit errors at least that
-- and at most eight times that, one to the blocks and the size to the bytes.
pub link_bulk_verify-counts :
    (acc : BulkResult) (received expected : List ℕ) (size : ℕ)
    → length received ≡ size / 4
    → length expected ≡ size / 4
    → acc.byte_errors + size < 2 ^ 32
    → acc.bit_errors + 8 * size < 2 ^ 32
    → let out = link_bulk_verify acc received expected size in
      let d = buffer_diffs received expected in
      (out.byte_errors ≡ acc.byte_errors + d)
      × (acc.bit_errors + d ≤ out.bit_errors)
      × (out.bit_errors ≤ acc.bit_errors + 8 * d)
      × (out.blocks ≡ u32 (acc.blocks + 1))
      × (out.bytes ≡ u32 (acc.bytes + size))
unfolding link_bulk_verify
link_bulk_verify-counts acc received expected size lr le hb hw =
    let start = record acc { blocks = u32 (acc.blocks + 1); bytes = u32 (acc.bytes + size) } in
    let c =
      verify_words-Counted (size / 4) received expected start lr le (omega arith) (omega arith) in
    (c.byte_count, c.bits_from, c.bits_to, c.same_blocks, c.same_bytes)
