-- ===== src/Prelude/Bits.antt =====
-- Laws of the binary operations at variables: one equation for the lowest digit, and what follows
-- from it by induction on the digits.
use Prim.Native.Nat.{
  ℕ, zero, suc, ◌+◌, ◌*◌, ◌/◌, ◌%◌, ◌^◌, ◌≤◌, ◌<◌, min, max, bit_and, bit_or, bit_xor, digits,
  differ, bit_and-bitwise, bit_or-bitwise, bit_xor-bitwise,
}
use mathlib.Core.Path.{◌≡◌, refl, sym, ap, ◌∙◌}
use native.Mathlib.Nat.{
  pow-suc, le_refl, pow-succ', div-one, mod-one, div-div-eq-div-mul, mod-eq-sub-mul-div,
  div-mul-le_self,
}
use native.Mathlib.Omega.{arith}

module _ (z : ℕ → ℕ) (f : ℕ → ℕ → ℕ) where
  digits_enough : (n m a b : ℕ) → a ≤ n → a ≤ m → digits z f n a b ≡ digits z f m a b
  digits_enough zero zero a b p q = refl
  digits_enough zero (suc m) zero b p q = refl
  digits_enough zero (suc m) (suc a) b p q = absurd (omega arith)
  digits_enough (suc n) zero zero b p q = refl
  digits_enough (suc n) zero (suc a) b p q = absurd (omega arith)
  digits_enough (suc n) (suc m) zero b p q = refl
  digits_enough (suc n) (suc m) (suc a) b p q =
      rw (digits_enough n m (suc a / 2) (b / 2) (omega arith) (omega arith))

  digits-suc :
      (a b : ℕ)
      → digits z f (suc a) (suc a) b
        ≡ digits z f (suc a / 2) (suc a / 2) (b / 2) * 2 + f (suc a % 2) (b % 2)
  digits-suc a b =
      omega (arith, digits_enough a (suc a / 2) (suc a / 2) (b / 2) (omega arith) (le_refl _))

differ_digits : (x y : ℕ) → x < 2 → y < 2 → differ x y ≡ (x + y) % 2
differ_digits zero y hx hy = omega arith
differ_digits (suc zero) zero hx hy = refl
differ_digits (suc zero) (suc zero) hx hy = refl
differ_digits (suc zero) (suc (suc y)) hx hy = absurd (omega arith)
differ_digits (suc (suc x)) y hx hy = absurd (omega arith)

pub xor_step : (a b : ℕ) → bit_xor a b ≡ bit_xor (a / 2) (b / 2) * 2 + (a + b) % 2
xor_step zero b = simp bit_xor-bitwise (omega arith)
xor_step (suc a) b = simp bit_xor-bitwise (
    omega (
      arith,
      digits-suc (λ y. y) differ a b,
      differ_digits (suc a % 2) (b % 2) (omega arith) (omega arith),
    ))

pub or_step : (a b : ℕ) → bit_or a b ≡ bit_or (a / 2) (b / 2) * 2 + max (a % 2) (b % 2)
or_step zero b = simp bit_or-bitwise (omega arith)
or_step (suc a) b = simp bit_or-bitwise (digits-suc (λ y. y) max a b)

pub and_step : (a b : ℕ) → bit_and a b ≡ bit_and (a / 2) (b / 2) * 2 + min (a % 2) (b % 2)
and_step zero b = simp bit_and-bitwise (omega arith)
and_step (suc a) b = simp bit_and-bitwise (digits-suc (λ y. 0) min a b)

xor_cancel_below : (n a b : ℕ) → a ≤ n → b ≤ n → bit_xor (bit_xor a b) b ≡ a
xor_cancel_below zero zero zero p q = refl
xor_cancel_below zero zero (suc b) p q = absurd (omega arith)
xor_cancel_below zero (suc a) b p q = absurd (omega arith)
xor_cancel_below (suc n) a b p q =
    let e : bit_xor a b / 2 ≡ bit_xor (a / 2) (b / 2) = omega (arith, xor_step a b) in
    omega (
      arith,
      xor_step a b,
      xor_step (bit_xor a b) b,
      ap (λ t. bit_xor t (b / 2)) e,
      xor_cancel_below n (a / 2) (b / 2) (omega arith) (omega arith),
    )

-- Exclusive or with one number is undone by doing it again.
pub xor_cancel : (a b : ℕ) → bit_xor (bit_xor a b) b ≡ a
xor_cancel a b = xor_cancel_below (a + b) a b (omega arith) (omega arith)

pub xor_injective : (a b c : ℕ) → bit_xor a c ≡ bit_xor b c → a ≡ b
xor_injective a b c h = sym (xor_cancel a c) ∙ ap (λ t. bit_xor t c) h ∙ xor_cancel b c

pub xor_self_below : (n a : ℕ) → a ≤ n → bit_xor a a ≡ 0
xor_self_below zero zero h = refl
xor_self_below zero (suc a) h = absurd (omega arith)
xor_self_below (suc n) a h = omega (arith, xor_step a a, xor_self_below n (a / 2) (omega arith))

pub xor_self : (a : ℕ) → bit_xor a a ≡ 0
xor_self a = xor_self_below a a (le_refl a)

xor_comm_below : (n a b : ℕ) → a ≤ n → b ≤ n → bit_xor a b ≡ bit_xor b a
xor_comm_below zero zero zero p q = refl
xor_comm_below zero zero (suc b) p q = absurd (omega arith)
xor_comm_below zero (suc a) b p q = absurd (omega arith)
xor_comm_below (suc n) a b p q = omega (
  arith,
  xor_step a b,
  xor_step b a,
  xor_comm_below n (a / 2) (b / 2) (omega arith) (omega arith),
)

pub xor_comm : (a b : ℕ) → bit_xor a b ≡ bit_xor b a
xor_comm a b = xor_comm_below (a + b) a b (omega arith) (omega arith)

xor_right_comm_below :
    (n a b c : ℕ) → a ≤ n → b ≤ n → c ≤ n → bit_xor (bit_xor a b) c ≡ bit_xor (bit_xor a c) b
xor_right_comm_below zero zero zero zero p q r = refl
xor_right_comm_below zero zero zero (suc c) p q r = absurd (omega arith)
xor_right_comm_below zero zero (suc b) c p q r = absurd (omega arith)
xor_right_comm_below zero (suc a) b c p q r = absurd (omega arith)
xor_right_comm_below (suc n) a b c p q r =
    let e : bit_xor a b / 2 ≡ bit_xor (a / 2) (b / 2) = omega (arith, xor_step a b) in
    let f : bit_xor a c / 2 ≡ bit_xor (a / 2) (c / 2) = omega (arith, xor_step a c) in
    omega (
      arith,
      xor_step a b,
      xor_step a c,
      xor_step (bit_xor a b) c,
      xor_step (bit_xor a c) b,
      ap (λ t. bit_xor t (c / 2)) e,
      ap (λ t. bit_xor t (b / 2)) f,
      xor_right_comm_below n (a / 2) (b / 2) (c / 2) (omega arith) (omega arith) (omega arith),
    )

pub xor_right_comm : (a b c : ℕ) → bit_xor (bit_xor a b) c ≡ bit_xor (bit_xor a c) b
xor_right_comm a b c =
    xor_right_comm_below (a + b + c) a b c (omega arith) (omega arith) (omega arith)

-- Two words below 2 ^ w give a word below 2 ^ w.
pub xor_lt : (w a b : ℕ) → a < 2 ^ w → b < 2 ^ w → bit_xor a b < 2 ^ w
xor_lt zero zero zero p q = omega arith
xor_lt zero zero (suc b) p q = absurd (omega arith)
xor_lt zero (suc a) b p q = absurd (omega arith)
xor_lt (suc w) a b p q = omega (
  arith,
  pow-suc 2 w,
  xor_step a b,
  xor_lt w (a / 2) (b / 2) (omega (arith, pow-suc 2 w)) (omega (arith, pow-suc 2 w)),
)

-- The top bit of the second word survives where the first has none.
pub xor_high : (w a b : ℕ) → a < 2 ^ w → 2 ^ w ≤ b → b < 2 ^ suc w → 2 ^ w ≤ bit_xor a b
xor_high zero zero b p q r = omega (arith, xor_step 0 b)
xor_high zero (suc a) b p q r = absurd (omega arith)
xor_high (suc w) a b p q r = omega (
  arith,
  pow-suc 2 w,
  xor_step a b,
  xor_high w (a / 2) (b / 2) (omega (arith, pow-suc 2 w)) (omega (arith, pow-suc 2 w))
      (omega (arith, pow-suc 2 w, pow-suc 2 (suc w))),
)

-- Halving first, and then dividing by `p`.
pub div_double : (a p : ℕ) → a / (2 * p) ≡ a / 2 / p
div_double a p = sym (div-div-eq-div-mul a 2 p)

pub mod_double : (a p : ℕ) → a % (2 * p) ≡ a / 2 % p * 2 + a % 2
mod_double a p = omega (
  arith,
  mod-eq-sub-mul-div a (2 * p),
  mod-eq-sub-mul-div (a / 2) p,
  ap (λ t. p * t) (div_double a p),
  div-mul-le_self (a / 2) p,
)

pub xor_half : (a b : ℕ) → bit_xor a b / 2 ≡ bit_xor (a / 2) (b / 2)
xor_half a b = omega (arith, xor_step a b)

xor_digits :
    (q r x y : ℕ) → x < 2 → y < 2 → bit_xor (q * 2 + x) (r * 2 + y) ≡ bit_xor q r * 2 + (x + y) % 2
xor_digits q r x y hx hy =
    let eq : (q * 2 + x) / 2 ≡ q = omega arith in
    let er : (r * 2 + y) / 2 ≡ r = omega arith in
    xor_step (q * 2 + x) (r * 2 + y) ∙ rw (eq, er) (omega arith)

pub xor-div : (k a b : ℕ) → bit_xor a b / 2 ^ k ≡ bit_xor (a / 2 ^ k) (b / 2 ^ k)
xor-div zero a b = cc (div-one (bit_xor a b), div-one a, div-one b)
xor-div (suc k) a b = rw (pow-succ' 2 k) (
    rw (div_double (bit_xor a b) (2 ^ k), div_double a (2 ^ k), div_double b (2 ^ k), xor_half a b)
      (xor-div k (a / 2) (b / 2)))

pub xor-mod : (k a b : ℕ) → bit_xor a b % 2 ^ k ≡ bit_xor (a % 2 ^ k) (b % 2 ^ k)
xor-mod zero a b = cc (mod-one (bit_xor a b), mod-one a, mod-one b)
xor-mod (suc k) a b = rw (pow-succ' 2 k) (
    rw
      (
        mod_double (bit_xor a b) (2 ^ k),
        mod_double a (2 ^ k),
        mod_double b (2 ^ k),
        xor_half a b,
        xor-mod k (a / 2) (b / 2),
      )
      (omega (
        arith,
        xor_step a b,
        xor_digits (a / 2 % 2 ^ k) (b / 2 % 2 ^ k) (a % 2) (b % 2) (omega arith) (omega arith),
      )))
