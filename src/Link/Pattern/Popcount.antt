-- ===== src/Link/Pattern/Popcount.antt =====
-- The count of the ones in a word, `__builtin_popcount` in `link_bulk_verify` of common/link_proto.c.
use frank_test.Prelude.{
  ℕ, zero, suc, ◌+◌, ◌*◌, ◌/◌, ◌%◌, ◌^◌, ◌<◌, ◌≤◌, ◌≡◌, ◌≢◌, refl, ap, sym, ◌∙◌, arith, mod_double,
}
use frank_test.Link.Pattern.{popcount}
use native.Mathlib.Nat.{pow-succ', mod-one, div-one, div-div-eq-div-mul}

pub popcount-zero : (n d : ℕ) → d % 2 ^ n ≡ 0 → popcount n d ≡ 0
unfolding popcount
popcount-zero zero d h = refl
popcount-zero (suc n) d h =
    let e : d % 2 ^ suc n ≡ d / 2 % 2 ^ n * 2 + d % 2 =
      ap (λ t. d % t) (pow-succ' 2 n) ∙ mod_double d (2 ^ n) in
    omega (arith, e, popcount-zero n (d / 2) (omega arith))

pub popcount-pos : (n d : ℕ) → d % 2 ^ n ≢ 0 → 0 < popcount n d
unfolding popcount
popcount-pos zero d h = absurd (h (mod-one d))
popcount-pos (suc n) d h =
    let e : d % 2 ^ suc n ≡ d / 2 % 2 ^ n * 2 + d % 2 =
      ap (λ t. d % t) (pow-succ' 2 n) ∙ mod_double d (2 ^ n) in
    ground (arith, e, popcount-pos n (d / 2))

pub popcount-le : (n d : ℕ) → popcount n d ≤ n
unfolding popcount
popcount-le zero d = omega arith
popcount-le (suc n) d = omega (arith, popcount-le n (d / 2))

pub popcount-add : (n m k d : ℕ) → k ≡ n + m → popcount k d ≡ popcount n d + popcount m (d / 2 ^ n)
unfolding popcount
popcount-add zero m k d h = let e : k ≡ m = omega arith in rw (e, div-one d) (omega arith)
popcount-add (suc n) m zero d h = absurd (omega arith)
popcount-add (suc n) m (suc k) d h =
    let e : d / 2 ^ suc n ≡ d / 2 / 2 ^ n =
      ap (λ t. d / t) (pow-succ' 2 n) ∙ sym (div-div-eq-div-mul d 2 (2 ^ n)) in
    rw e (omega (arith, popcount-add n m k (d / 2) (omega arith)))
