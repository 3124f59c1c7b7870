-- ===== src/Detect/Fingerprint/Winner.antt =====
-- core/detect.c, `tier2_fingerprint`: whom the ranking names.
use mathlib.Core.List.{Memᴰ}
use frank_test.Prelude.{
  ℕ, ◌+◌, ◌≡◌, refl, sym, ◌∙◌, inl, inr, Bool, true, false, List, [], ◌∷◌, none, some, length, All,
  arith, Bool-cases, ltb, ◌==◌, ◌&&◌, ◌||◌,
}
use frank_test.Board.{Board, PinSig}
use frank_test.PinSig.{Score, pinsig_score}
use frank_test.Detect.{Bench, Result, detect_max_mismatch}
use frank_test.Detect.Fingerprint.{
  Rank, rank_start, permille, rank_one, rank_all, tier2_fingerprint,
}
use frank_test.Detect.Fingerprint.Ranking.{
  share, shares_onto, AtMost, rank_all-IsRanked, rank_start-IsRanked,
}

-- The candidates with their shares, the last one first.
abbrev pub scored_onto : (ℕ → ℕ → PinSig) → ℕ → List Board → List (Board × ℕ) → List (Board × ℕ)
scored_onto pads call [] seen = seen
scored_onto pads call (d ∷ ds) seen = scored_onto pads (call + 1) ds ((d, share pads call d) ∷ seen)

pub record IsWon (seen : List (Board × ℕ)) (k : Rank) : Type 0 where
  pub nobody :
      k.winner ≡ none → (k.best ≡ 0) × (k.best_len ≡ 0) × All (λ p. length p.0.sig ≡ 0) seen
  pub somebody : (w : Board) → k.winner ≡ some w → Memᴰ (w, k.best) seen

module _ (d : Board) (s : Score) (seen : List (Board × ℕ)) (k : Rank) (won : IsWon seen k) where
  abbrev better : Bool
  better =
      let score = permille s.matched (length d.sig) in
      ltb k.best score || (score == k.best && ltb k.best_len (length d.sig))

  abbrev next : Rank
  next = rank_one d s k

  rank_one_better :
      better ≡ true → (next.winner ≡ some d) × (next.best ≡ permille s.matched (length d.sig))
  unfolding rank_one
  rank_one_better h = ground arith

  rank_one_kept :
      better ≡ false
      → (next.winner ≡ k.winner) × (next.best ≡ k.best) × (next.best_len ≡ k.best_len)
  unfolding rank_one
  rank_one_kept h = ground arith

  unscored : better ≡ false → k.best ≡ 0 → k.best_len ≡ 0 → length d.sig ≡ 0
  unscored h e f = ground arith

  rank_one-IsWon : IsWon ((d, permille s.matched (length d.sig)) ∷ seen) (rank_one d s k)
  rank_one-IsWon = elim (Bool-cases better) [
    | inl wins ↦
        let h = rank_one_better wins in
        record { nobody = λ e. cc h.0; somebody = λ w e. Memᴰ.head (cc (h.0, h.1)) }
    | inr loses ↦
        let h = rank_one_kept loses in
        record {
          nobody = λ e.
              let n = won.nobody (sym h.0 ∙ e) in
              (h.1 ∙ n.0, h.2 ∙ n.1, (unscored loses n.0 n.1, n.2));
          somebody = λ w e. rw (h.1) (Memᴰ.tail (won.somebody w (sym h.0 ∙ e)));
        }
  ]

rank_all-IsWon :
    (pads : ℕ → ℕ → PinSig) (call : ℕ) (ds : List Board) (seen : List (Board × ℕ)) (k : Rank)
    → IsWon seen k
    → IsWon (scored_onto pads call ds seen) (rank_all pads call ds k)
unfolding rank_all
rank_all-IsWon pads call [] seen k h = h
rank_all-IsWon pads call (d ∷ ds) seen k h =
    let s = pinsig_score (pads call) detect_max_mismatch d in
    rank_all-IsWon pads (call + 1) ds ((d, share pads call d) ∷ seen) (rank_one d s k)
      (rank_one-IsWon d s seen k h)

rank_start-IsWon : (r : Result) → IsWon [] (rank_start r)
rank_start-IsWon r = record { nobody = λ e. (refl, refl, tt); somebody = λ w e. cc }

-- A board that the fingerprint names has the best share among the candidates; it names one unless
-- all signatures are empty.
pub tier2-guess :
    (bench : Bench) (cands : List Board) (r : Result)
    → let out = tier2_fingerprint bench cands r in
      let scored = scored_onto bench.pads 0 cands [] in
      ((w : Board)
        → out.auto_guess ≡ some w
        → (best : ℕ) × Memᴰ (w, best) scored × AtMost best (shares_onto bench.pads 0 cands []))
      × (out.auto_guess ≡ none → All (λ p. length p.0.sig ≡ 0) scored)
unfolding tier2_fingerprint
tier2-guess bench cands r =
    let k = rank_all bench.pads 0 cands (rank_start r) in
    let won = rank_all-IsWon bench.pads 0 cands [] (rank_start r) (rank_start-IsWon r) in
    let ranked = rank_all-IsRanked bench.pads 0 cands [] (rank_start r) (rank_start-IsRanked r) in
    (λ w e. (k.best, won.somebody w e, ranked.highest), λ e. (won.nobody e).2)
