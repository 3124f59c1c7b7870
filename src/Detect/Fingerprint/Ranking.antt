-- ===== src/Detect/Fingerprint/Ranking.antt =====
-- core/detect.c, `tier2_fingerprint`: the shares of the candidates, and the margin.
use frank_test.Prelude.{
  ℕ, ◌+◌, ◌≤◌, ◌<◌, ◌≡◌, true, List, [], ◌∷◌, ◌==◌, if◌then◌else◌, length, All, arith,
}
use frank_test.Board.{Board, PinSig}
use frank_test.PinSig.{Score, pinsig_score}
use frank_test.Detect.{Bench, Result, detect_max_mismatch}
use frank_test.Detect.Fingerprint.{
  Rank, rank_start, permille, rank_one, rank_all, tier2_fingerprint,
}

-- The share that a board gets in one call.
abbrev pub share : (ℕ → ℕ → PinSig) → ℕ → Board → ℕ
share pads call d = permille (pinsig_score (pads call) detect_max_mismatch d).matched (length d.sig)

-- The shares of the candidates, pushed onto those before: the last one stands first.
abbrev pub shares_onto : (ℕ → ℕ → PinSig) → ℕ → List Board → List ℕ → List ℕ
shares_onto pads call [] seen = seen
shares_onto pads call (d ∷ ds) seen = shares_onto pads (call + 1) ds (share pads call d ∷ seen)

abbrev pub count : ℕ → List ℕ → ℕ
count n [] = 0
count n (x ∷ xs) = (if x == n then 1 else 0) + count n xs

abbrev pub AtMost : ℕ → List ℕ → Type 0
AtMost n xs = All (λ x. x ≤ n) xs

-- The ranking after the shares `seen`: none is above the best, the best is one of them, and it is
-- two of them if the runner-up equals it.
pub record IsRanked (seen : List ℕ) (k : Rank) : Type 0 where
  pub highest : AtMost k.best seen
  pub runner_up : k.second ≤ k.best
  pub all_zero : k.best ≡ 0 → count 0 seen ≡ length seen
  pub reached : 0 < k.best → 0 < count k.best seen
  pub tie : 0 < k.best → k.second ≡ k.best → 1 < count k.best seen

AtMost-mono : (m n : ℕ) (xs : List ℕ) → m ≤ n → AtMost m xs → AtMost n xs
AtMost-mono m n [] h a = tt
AtMost-mono m n (x ∷ xs) h a = (omega arith, AtMost-mono m n xs h a.1)

module _ (d : Board) (s : Score) (seen : List ℕ) (k : Rank) (ranked : IsRanked seen k) where
  abbrev got : ℕ
  got = permille s.matched (length d.sig)

  rank_one-IsRanked : IsRanked (got ∷ seen) (rank_one d s k)
  unfolding rank_one
  rank_one-IsRanked = record {
    highest =
        (ground arith, AtMost-mono k.best (rank_one d s k).best seen (ground arith) ranked.highest);
    runner_up = ground (arith, ranked.runner_up);
    all_zero = ground (arith, ranked.all_zero);
    reached = ground (arith, ranked.reached);
    tie = ground (arith, ranked.tie, ranked.reached);
  }

pub rank_all-IsRanked :
    (pads : ℕ → ℕ → PinSig) (call : ℕ) (ds : List Board) (seen : List ℕ) (k : Rank)
    → IsRanked seen k
    → IsRanked (shares_onto pads call ds seen) (rank_all pads call ds k)
unfolding rank_all
rank_all-IsRanked pads call [] seen k h = h
rank_all-IsRanked pads call (d ∷ ds) seen k h =
    let s = pinsig_score (pads call) detect_max_mismatch d in
    rank_all-IsRanked pads (call + 1) ds (share pads call d ∷ seen) (rank_one d s k)
      (rank_one-IsRanked d s seen k h)

pub rank_start-IsRanked : (r : Result) → IsRanked [] (rank_start r)
rank_start-IsRanked r = ground arith

shares_onto-length :
    (pads : ℕ → ℕ → PinSig) (call : ℕ) (ds : List Board) (seen : List ℕ)
    → length (shares_onto pads call ds seen) ≡ length ds + length seen
shares_onto-length pads call [] seen = omega arith
shares_onto-length pads call (d ∷ ds) seen =
    omega (arith, shares_onto-length pads (call + 1) ds (share pads call d ∷ seen))

module _ (bench : Bench) (cands : List Board) (r : Result) where
  abbrev shares : List ℕ
  shares = shares_onto bench.pads 0 cands []

  abbrev ranking : Rank
  ranking = rank_all bench.pads 0 cands (rank_start r)

  -- A fingerprint that calls itself ambiguous has two candidates at least with the best share of
  -- their signature, and none with a better one.
  tier2-ambiguous :
      (tier2_fingerprint bench cands r).ambiguous ≡ true
      → (best : ℕ) × AtMost best (shares_onto bench.pads 0 cands [])
        × (1 < count best (shares_onto bench.pads 0 cands []))
  unfolding tier2_fingerprint
  tier2-ambiguous h =
      let k = rank_all-IsRanked bench.pads 0 cands [] (rank_start r) (rank_start-IsRanked r) in
      (
        ranking.best,
        k.highest,
        ground (arith, k.runner_up, k.all_zero, k.tie, shares_onto-length bench.pads 0 cands []),
      )
