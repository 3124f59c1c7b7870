-- ===== src/Crc/Errors.antt =====
-- common/link_proto.c, `link_crc32`: the checksums of messages that differ in one byte.
use frank_test.Prelude.{
  ℕ, zero, suc, ◌/◌, ◌%◌, ◌^◌, ◌<◌, ◌≡◌, ◌≢◌, refl, ap, ◌∙◌, ◌⊎◌, inl, inr, bit_xor, List, [], ◌∷◌,
  some, get_elem?, set, All, arith,
}
use frank_test.Prelude.Bytes.{IsByte}
use frank_test.Register.{galois, and_one, xor_zero}
use frank_test.Register.Feed.{steps, feed, All-set, feed-lt, feed-set_injective}
use frank_test.Crc.{crc_poly, crc_shift, crc_shifts, crc_register, crc32}

Low-cases : (n : ℕ) → (n % 2 ≡ 0) ⊎ (n % 2 ≡ 1)
Low-cases n = omega arith

-- The masked feedback is the register of the module `Register`.
crc_shift-eq-galois : (crc : ℕ) → crc_shift crc ≡ galois crc_poly crc
unfolding crc_shift galois
crc_shift-eq-galois crc = elim (Low-cases crc) [
  | inl even ↦ rw (and_one crc) (rw even (xor_zero (crc / 2)))
  | inr odd ↦ rw (and_one crc) (rw odd refl)
]

crc_shifts-eq-steps : (n crc : ℕ) → crc_shifts n crc ≡ steps crc_poly n crc
unfolding crc_shifts
crc_shifts-eq-steps zero crc = refl
crc_shifts-eq-steps (suc n) crc =
    crc_shifts-eq-steps n (crc_shift crc) ∙ ap (steps crc_poly n) (crc_shift-eq-galois crc)

pub crc_register-eq-feed :
    (crc : ℕ) (bytes : List ℕ) → crc_register crc bytes ≡ feed crc_poly crc bytes
unfolding crc_register feed
crc_register-eq-feed crc [] = refl
crc_register-eq-feed crc (b ∷ bs) =
    crc_register-eq-feed (crc_shifts 8 (bit_xor crc b)) bs
    ∙ ap (λ t. feed crc_poly t bs) (crc_shifts-eq-steps 8 (bit_xor crc b))

pub crc32-lt : (bytes : List ℕ) → crc32 bytes < 2 ^ 32
unfolding crc32
crc32-lt bytes = omega arith

register-lt : (bytes : List ℕ) → All IsByte bytes → feed crc_poly 0xFFFFFFFF bytes < 2 ^ 32
register-lt bytes h =
    feed-lt 31 crc_poly (omega arith) (omega arith) (omega arith) 0xFFFFFFFF bytes (omega arith) h

-- A message with one byte changed, at any place and to any other byte, has another CRC-32.
pub crc32-set_ne :
    (bytes : List ℕ) (i v b : ℕ)
    → All IsByte bytes
    → IsByte v
    → get_elem? bytes i ≡ some b
    → v ≢ b
    → crc32 (set bytes i v) ≢ crc32 bytes
unfolding crc32
crc32-set_ne bytes i v b hb hv g ne e =
    let same : feed crc_poly 0xFFFFFFFF (set bytes i v) ≡ feed crc_poly 0xFFFFFFFF bytes = omega (
      arith,
      register-lt bytes hb,
      register-lt (set bytes i v) (All-set bytes i v hb hv),
      crc_register-eq-feed 0xFFFFFFFF bytes,
      crc_register-eq-feed 0xFFFFFFFF (set bytes i v),
    ) in
    ne (
      feed-set_injective 31 crc_poly (omega arith) (omega arith) (omega arith) bytes 0xFFFFFFFF i v
        b (omega arith) hb hv g same)
