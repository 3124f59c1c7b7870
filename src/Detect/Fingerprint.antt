-- ===== src/Detect/Fingerprint.antt =====
-- core/detect.c, `tier2_fingerprint`: the candidates are ranked by the share of their signature that
-- the pins bear out.
pub mod Ranking
pub mod Winner
pub mod TieOrder
use frank_test.Prelude.{
  ℕ, zero, suc, ◌+◌, ◌-◌, ◌*◌, ◌/◌, Bool, true, false, not, ◌&&◌, ◌||◌, List, [], ◌∷◌, Option, none,
  some, ◌==◌, ltb, if◌then◌else◌, length,
}
use frank_test.Board.{Board, PinSig}
use frank_test.PinSig.{Score, pinsig_score}
use frank_test.Detect.{Bench, Result, detect_max_candidates, detect_max_mismatch}

-- The variables of the first loop, with the fields of the result that it sets on the way.
pub record Rank : Type 0 where
  pub best : ℕ
  pub second : ℕ
  pub best_len : ℕ
  pub winner : Option Board
  pub best_score : ℕ
  pub best_of : ℕ
  pub mismatch : List ℕ

-- The variables before the first loop, with the fields as they are.
abbrev pub rank_start : Result → Rank
rank_start r = record {
  best = 0;
  second = 0;
  best_len = 0;
  winner = none;
  best_score = r.best_score;
  best_of = r.best_of;
  mismatch = r.mismatch;
}

-- `len ? (matched * 1000u) / len : 0u`.
abbrev pub permille : ℕ → ℕ → ℕ
permille matched len = if len == 0 then 0 else matched * 1000 / len

-- The body of the first loop, for a board and its score.
unfoldable pub rank_one : Board → Score → Rank → Rank
rank_one d s k =
    let len = length d.sig in
    let score = permille s.matched len in
    if ltb k.best score || (score == k.best && ltb k.best_len len)
    then record {
      best = score;
      second = if ltb k.best score then k.best else k.second;
      best_len = len;
      winner = some d;
      best_score = s.matched;
      best_of = len;
      mismatch = s.mismatches;
    }
    else if ltb k.second score
    then record k { second = score }
    else k

-- The first loop; `call` numbers the calls of `pinsig_score`.
unfoldable pub rank_all : (ℕ → ℕ → PinSig) → ℕ → List Board → Rank → Rank
rank_all pads call [] k = k
rank_all pads call (d ∷ ds) k =
    rank_all pads (call + 1) ds (rank_one d (pinsig_score (pads call) detect_max_mismatch d) k)

-- The second loop: those that tied for best, while there is room.
unfoldable pub tied : (ℕ → ℕ → PinSig) → ℕ → ℕ → List Board → ℕ → List Board
tied pads call best [] room = []
tied pads call best (d ∷ ds) zero = []
tied pads call best (d ∷ ds) (suc room) =
    let len = length d.sig in
    let matched = (pinsig_score (pads call) detect_max_mismatch d).matched in
    let with_d = d ∷ tied pads (call + 1) best ds room in
    let without = tied pads (call + 1) best ds (suc room) in
    let unscored = tied pads call best ds (suc room) in
    if len == 0 then unscored else if matched * 1000 / len == best then with_d else without

abbrev pub is_some {ℓ} : {A : Type ℓ} → Option A → Bool
is_some none = false
is_some (some a) = true

unfoldable pub tier2_fingerprint : Bench → List Board → Result → Result
tier2_fingerprint bench cands r =
    let n = length cands in
    let k = rank_all bench.pads 0 cands (rank_start r) in
    record r {
      best_score = k.best_score;
      best_of = k.best_of;
      mismatch = k.mismatch;
      margin = k.best - k.second;
      auto_guess = k.winner;
      candidates = tied bench.pads n k.best cands detect_max_candidates;
      ambiguous = is_some k.winner && k.best - k.second == 0 && ltb 1 n;
    }
