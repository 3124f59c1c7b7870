-- ===== src/Prelude/Masks.antt =====
-- Bit masks by their bits.
use Prim.Native.Nat.{ℕ, zero, suc, ◌+◌, ◌/◌, ◌%◌, ◌-◌, ◌^◌, ◌≤◌, ◌<◌, ◌*◌, bit_and, bit_or}
use mathlib.Core.Path.{◌≡◌, refl, sym, ap, ◌∙◌}
use mathlib.Core.Logic.{◌↔◌, ◌≢◌, inl, inr}
use mathlib.Core.Bool.{Bool, true, false, ◌&&◌, ◌||◌}
use native.Mathlib.Nat.{pow-suc, pow-succ', one-le-pow, mul_assoc}
use native.Mathlib.Omega.{arith}
use frank_test.Prelude.Tests.{◌==◌, Bool-cases}
use frank_test.Prelude.Bits.{and_step, or_step, mod_double}

-- Bit `k` of a mask.
abbrev pub has_bit : ℕ → ℕ → Bool
has_bit zero a = a % 2 == 1
has_bit (suc k) a = has_bit k (a / 2)

pub has_bit-and : (k a b : ℕ) → has_bit k (bit_and a b) ≡ (has_bit k a && has_bit k b)
has_bit-and zero a b = ground (arith, and_step a b)
has_bit-and (suc k) a b =
    let e : bit_and a b / 2 ≡ bit_and (a / 2) (b / 2) = omega (arith, and_step a b) in
    rw e (has_bit-and k (a / 2) (b / 2))

pub has_bit-or : (k a b : ℕ) → has_bit k (bit_or a b) ≡ (has_bit k a || has_bit k b)
has_bit-or zero a b = ground (arith, or_step a b)
has_bit-or (suc k) a b =
    let e : bit_or a b / 2 ≡ bit_or (a / 2) (b / 2) = omega (arith, or_step a b) in
    rw e (has_bit-or k (a / 2) (b / 2))

-- Every bit of `r` is set in `c`.
abbrev pub Covers : ℕ → ℕ → Type 0
Covers c r = (k : ℕ) → has_bit k r ≡ true → has_bit k c ≡ true

Covers-of_and : (c r : ℕ) → bit_and c r ≡ r → Covers c r
Covers-of_and c r e k h = ground (arith, has_bit-and k c r, ap (has_bit k) e)

and_below : (n c r : ℕ) → r ≤ n → c ≤ n → Covers c r → bit_and c r ≡ r
and_below zero zero zero p q h = refl
and_below zero zero (suc r) p q h = absurd (omega arith)
and_below zero (suc c) r p q h = absurd (omega arith)
and_below (suc n) c r p q h = ground (
  arith,
  and_step c r,
  h 0,
  and_below n (c / 2) (r / 2) (omega arith) (omega arith) (λ k. h (suc k)),
)

-- The all-bits test of a mask is what it says bit by bit.
pub and_eq_iff : (c r : ℕ) → (bit_and c r ≡ r) ↔ Covers c r
and_eq_iff c r = (Covers-of_and c r, and_below (c + r) c r (omega arith) (omega arith))

and_zero_below : (n a : ℕ) → a ≤ n → bit_and a 0 ≡ 0
and_zero_below n zero h = refl
and_zero_below zero (suc a) h = absurd (omega arith)
and_zero_below (suc n) (suc a) h =
    omega (arith, and_step (suc a) 0, and_zero_below n (suc a / 2) (omega arith))

pub and_zero : (a : ℕ) → bit_and a 0 ≡ 0
and_zero a = and_zero_below a a (omega arith)

-- A mask of the `k` lowest bits is the remainder by 2 ^ k.
pub and_low : (k a : ℕ) → bit_and a (2 ^ k - 1) ≡ a % 2 ^ k
and_low zero a = omega (arith, and_zero a)
and_low (suc k) a =
    let half : (2 ^ suc k - 1) / 2 ≡ 2 ^ k - 1 = omega (arith, pow-suc 2 k, one-le-pow k 2) in
    rw (and_step a (2 ^ suc k - 1), half, and_low k (a / 2))
      (omega
        (arith, pow-suc 2 k, one-le-pow k 2, mod_double a (2 ^ k), ap (λ t. a % t) (pow-succ' 2 k)))

-- Some bit is set in both masks.
abbrev pub Meets : ℕ → ℕ → Type 0
Meets c r = (k : ℕ) × (has_bit k c ≡ true) × (has_bit k r ≡ true)

has_bit-zero : (k : ℕ) → has_bit k 0 ≡ false
has_bit-zero zero = refl
has_bit-zero (suc k) = has_bit-zero k

some_bit : (n a : ℕ) → a ≤ n → a ≢ 0 → (k : ℕ) × (has_bit k a ≡ true)
some_bit n zero h z = absurd (z refl)
some_bit zero (suc a) h z = absurd (omega arith)
some_bit (suc n) (suc a) h z = elim (Bool-cases (suc a % 2 == 1)) [
  | inl odd ↦ (0, odd)
  | inr even ↦
      let half : suc a / 2 ≢ 0 = ground arith in
      let (k, e) = some_bit n (suc a / 2) (omega arith) half in (suc k, e)
]

both : (b c : Bool) → (b && c) ≡ true → (b ≡ true) × (c ≡ true)
both b c h = ground arith

Meets-nonzero : (c r : ℕ) → Meets c r → bit_and c r ≢ 0
Meets-nonzero c r (k, h, g) z = ground (arith, has_bit-and k c r, ap (has_bit k) z, has_bit-zero k)

-- The any-bit test of a mask is what it says bit by bit.
pub and_nonzero_iff : (c r : ℕ) → (bit_and c r ≢ 0) ↔ Meets c r
and_nonzero_iff c r = (
  λ z.
      let (k, e) = some_bit (bit_and c r) (bit_and c r) (omega arith) z in
      let (h, g) = both (has_bit k c) (has_bit k r) (sym (has_bit-and k c r) ∙ e) in (k, h, g),
  Meets-nonzero c r,
)

or_zero_below : (n a : ℕ) → a ≤ n → bit_or a 0 ≡ a
or_zero_below n zero h = refl
or_zero_below zero (suc a) h = absurd (omega arith)
or_zero_below (suc n) (suc a) h =
    omega (arith, or_step (suc a) 0, or_zero_below n (suc a / 2) (omega arith))

-- Joining a number below 2 ^ k to a multiple of it is addition.
pub or_shifted : (k a b : ℕ) → b < 2 ^ k → bit_or (a * 2 ^ k) b ≡ a * 2 ^ k + b
or_shifted zero a zero h =
    let one : a * 2 ^ 0 ≡ a = omega arith in rw one (or_zero_below a a (omega arith) ∙ omega arith)
or_shifted zero a (suc b) h = absurd (omega arith)
or_shifted (suc k) a b h =
    let twice : a * 2 ^ suc k ≡ a * 2 ^ k * 2 =
      ap (λ t. a * t) (pow-suc 2 k) ∙ sym (mul_assoc a (2 ^ k) 2) in
    let half : a * 2 ^ k * 2 / 2 ≡ a * 2 ^ k = omega arith in
    let below : b / 2 < 2 ^ k = omega (arith, pow-suc 2 k) in
    rw twice (
      omega (
        arith,
        or_step (a * 2 ^ k * 2) b,
        ap (λ t. bit_or t (b / 2)) half,
        or_shifted k a (b / 2) below,
      ))
