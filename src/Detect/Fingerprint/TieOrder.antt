-- ===== src/Detect/Fingerprint/TieOrder.antt =====
-- core/detect.c, `tier2_fingerprint`: two boards that explain the pins equally well.
use frank_test.Prelude.{ℕ, ◌<◌, ◌≡◌, true, false, [], ◌∷◌, some, length, arith}
use frank_test.Board.{Board}
use frank_test.Detect.{Bench, Result}
use frank_test.Detect.Fingerprint.{rank_one, rank_all, tier2_fingerprint}
use frank_test.Detect.Fingerprint.Ranking.{share}

-- Two boards with equal, nonzero shares and signatures of different lengths: the longer one is
-- guessed in either order, but the verdict is ambiguous exactly if it comes first.
pub tier2-tie_order :
    (bench : Bench) (a b : Board) (r : Result) (p : ℕ)
    → length a.sig < length b.sig
    → 0 < p
    → share bench.pads 0 a ≡ p
    → share bench.pads 1 b ≡ p
    → share bench.pads 0 b ≡ p
    → share bench.pads 1 a ≡ p
    → let short_first = tier2_fingerprint bench (a ∷ b ∷ []) r in
      let long_first = tier2_fingerprint bench (b ∷ a ∷ []) r in
      (short_first.auto_guess ≡ some b)
      × (short_first.ambiguous ≡ false)
      × (long_first.auto_guess ≡ some b)
      × (long_first.ambiguous ≡ true)
unfolding tier2_fingerprint rank_all rank_one
tier2-tie_order bench a b r p shorter pos a0 b1 b0 a1 = ground arith
