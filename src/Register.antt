-- ===== src/Register.antt =====
-- A right-shifting register with feedback word `p`: the common core of the CRC-32, the CRC-8 and
-- the pattern generator. With the top bit of the word in `p`, a step can be undone.
pub mod Feed
use frank_test.Prelude.{
  ℕ, zero, suc, ◌+◌, ◌-◌, ◌*◌, ◌/◌, ◌%◌, ◌^◌, ◌≤◌, ◌<◌, ◌≡◌, ◌≢◌, refl, ap, sym, ◌∙◌, inl, inr,
  bit_and, bit_xor, arith, ◌==◌, if◌then◌else◌, Bool-cases, xor_lt, xor_high, xor_injective,
  xor_comm, and_step, ==→eq,
}
use Prim.Native.Nat.{bit_xor-bitwise}
use native.Mathlib.Nat.{pow-suc}

unfoldable pub galois : ℕ → ℕ → ℕ
galois p s = if s % 2 == 1 then bit_xor (s / 2) p else s / 2

module _ (w p : ℕ) (top : 2 ^ w ≤ p) (fits : p < 2 ^ suc w) where
  half_lt : (s : ℕ) → s < 2 ^ suc w → s / 2 < 2 ^ w
  half_lt s h = omega (arith, pow-suc 2 w)

  pub galois-lt : (s : ℕ) → s < 2 ^ suc w → galois p s < 2 ^ suc w
  unfolding galois
  galois-lt s h =
      let small : s / 2 < 2 ^ suc w = omega (arith, pow-suc 2 w) in
      ground (arith, xor_lt (suc w) (s / 2) p small fits)

  -- No two words step to the same word: an odd one lands in the upper half, an even one below.
  pub galois_injective : (s t : ℕ) → s < 2 ^ suc w → t < 2 ^ suc w → galois p s ≡ galois p t → s ≡ t
  unfolding galois
  galois_injective s t hs ht e = ground (
    arith,
    half_lt s hs,
    half_lt t ht,
    xor_high w (s / 2) p (half_lt s hs) top fits,
    xor_high w (t / 2) p (half_lt t ht) top fits,
    xor_injective (s / 2) (t / 2) p,
  )

  pub galois-pos : (s : ℕ) → 0 < s → s < 2 ^ suc w → 0 < galois p s
  unfolding galois
  galois-pos s h hs = ground (arith, xor_high w (s / 2) p (half_lt s hs) top fits)

pub and_zero_below : (n a : ℕ) → a ≤ n → bit_and a 0 ≡ 0
and_zero_below n zero h = refl
and_zero_below zero (suc a) h = absurd (omega arith)
and_zero_below (suc n) (suc a) h =
    omega (arith, and_step (suc a) 0, and_zero_below n (suc a / 2) (omega arith))

-- The lowest bit as the firmware reads it.
pub and_one : (a : ℕ) → bit_and a 1 ≡ a % 2
and_one a = omega (arith, and_step a 1, and_zero_below (a / 2) (a / 2) (omega arith))

pub xor_zero : (a : ℕ) → bit_xor a 0 ≡ a
xor_zero a = xor_comm a 0 ∙ bit_xor-bitwise 0 a
