-- ===== src/Register/Feed.antt =====
-- A register fed with bytes: eight steps for each byte, which is added to the low end first. Two
-- messages that differ in one byte alone leave it in different states.
use frank_test.Prelude.{
  ℕ, zero, suc, ◌^◌, ◌≤◌, ◌<◌, ◌≡◌, ◌∙◌, bit_xor, List, [], ◌∷◌, some, get_elem?, set, All, arith,
  xor_lt, xor_injective, xor_comm,
}
use frank_test.Prelude.Bytes.{IsByte}
use frank_test.Register.{galois, galois-lt, galois_injective}

-- `n` steps.
abbrev pub steps : ℕ → ℕ → ℕ → ℕ
steps p zero s = s
steps p (suc n) s = steps p n (galois p s)

unfoldable pub feed : ℕ → ℕ → List ℕ → ℕ
feed p s [] = s
feed p s (b ∷ bs) = feed p (steps p 8 (bit_xor s b)) bs

pub All-set : (bytes : List ℕ) (i v : ℕ) → All IsByte bytes → IsByte v → All IsByte (set bytes i v)
All-set [] i v h hv = h
All-set (x ∷ xs) zero v h hv = (hv, h.1)
All-set (x ∷ xs) (suc i) v h hv = (h.0, All-set xs i v h.1 hv)

module _ (w p : ℕ) (top : 2 ^ w ≤ p) (fits : p < 2 ^ suc w) (wide : 256 ≤ 2 ^ suc w) where
  steps-lt : (n s : ℕ) → s < 2 ^ suc w → steps p n s < 2 ^ suc w
  steps-lt zero s h = h
  steps-lt (suc n) s h = steps-lt n (galois p s) (galois-lt w p top fits s h)

  steps_injective : (n s t : ℕ) → s < 2 ^ suc w → t < 2 ^ suc w → steps p n s ≡ steps p n t → s ≡ t
  steps_injective zero s t hs ht e = e
  steps_injective (suc n) s t hs ht e = galois_injective w p top fits s t hs ht (
      steps_injective n (galois p s) (galois p t) (galois-lt w p top fits s hs)
        (galois-lt w p top fits t ht) e)

  mix-lt : (s b : ℕ) → s < 2 ^ suc w → IsByte b → bit_xor s b < 2 ^ suc w
  mix-lt s b h hb = xor_lt (suc w) s b h (omega arith)

  turn-lt : (s b : ℕ) → s < 2 ^ suc w → IsByte b → steps p 8 (bit_xor s b) < 2 ^ suc w
  turn-lt s b h hb = steps-lt 8 (bit_xor s b) (mix-lt s b h hb)

  pub feed-lt :
      (s : ℕ) (bytes : List ℕ) → s < 2 ^ suc w → All IsByte bytes → feed p s bytes < 2 ^ suc w
  unfolding feed
  feed-lt s [] h hs = h
  feed-lt s (b ∷ bs) h hs = feed-lt (steps p 8 (bit_xor s b)) bs (turn-lt s b h hs.0) hs.1

  -- Different states stay different over the same bytes.
  feed_injective :
      (bytes : List ℕ) (s t : ℕ)
      → s < 2 ^ suc w
      → t < 2 ^ suc w
      → All IsByte bytes
      → feed p s bytes ≡ feed p t bytes
      → s ≡ t
  unfolding feed
  feed_injective [] s t hs ht hb e = e
  feed_injective (b ∷ bs) s t hs ht hb e =
      let same =
        feed_injective bs (steps p 8 (bit_xor s b)) (steps p 8 (bit_xor t b)) (turn-lt s b hs hb.0)
          (turn-lt t b ht hb.0) hb.1 e in
      xor_injective s t b (
        steps_injective 8 (bit_xor s b) (bit_xor t b) (mix-lt s b hs hb.0) (mix-lt t b ht hb.0)
          same)

  -- From one state, two different bytes lead to different states.
  turn_injective :
      (s b c : ℕ)
      → s < 2 ^ suc w
      → IsByte b
      → IsByte c
      → steps p 8 (bit_xor s b) ≡ steps p 8 (bit_xor s c)
      → b ≡ c
  turn_injective s b c hs hb hc e =
      let mixed =
        steps_injective 8 (bit_xor s b) (bit_xor s c) (mix-lt s b hs hb) (mix-lt s c hs hc) e in
      xor_injective b c s (xor_comm b s ∙ mixed ∙ xor_comm s c)

  pub feed-set_injective :
      (bytes : List ℕ) (s i v b : ℕ)
      → s < 2 ^ suc w
      → All IsByte bytes
      → IsByte v
      → get_elem? bytes i ≡ some b
      → feed p s (set bytes i v) ≡ feed p s bytes
      → v ≡ b
  unfolding feed
  feed-set_injective [] s i v b hs hb hv g e = cc
  feed-set_injective (x ∷ xs) s zero v b hs hb hv g e =
      let same =
        feed_injective xs (steps p 8 (bit_xor s v)) (steps p 8 (bit_xor s x)) (turn-lt s v hs hv)
          (turn-lt s x hs hb.0) hb.1 e in
      turn_injective s v x hs hv hb.0 same ∙ cc
  feed-set_injective (x ∷ xs) s (suc i) v b hs hb hv g e =
      feed-set_injective xs (steps p 8 (bit_xor s x)) i v b (turn-lt s x hs hb.0) hb.1 hv g e
