-- ===== src/Detect/Run/Verdict.antt =====
-- core/detect.c, `detect_run`: the board that is reported, and on what ground.
use Prim.Native.String.{String}
use frank_test.Prelude.{
  ◌≡◌, refl, sym, ap, ◌∙◌, ◌⊎◌, inl, inr, true, false, List, Option, none, some, ◌==◌, arith,
  Bool-cases, Option-cases,
}
use frank_test.Board.{Board, board_num}
use frank_test.Board.Other.{fallback_desc}
use frank_test.Board.Table.{frank_board_desc, frank_board_from_slug, frank_boards_for_mcu}
use frank_test.Detect.{Bench, Result, Source, cleared, src_none, src_compiled, src_auto}
use frank_test.Detect.Probes.{tier0_silicon, tier1_probes}
use frank_test.Detect.Probes.Evidence.{tier1_probes-evidence}
use frank_test.Detect.Fingerprint.{tier2_fingerprint}
use frank_test.Detect.Run.{
  declare_board, guess_role, adopt_guess, fall_back, judge, detect_run, viable_boards,
}

-- The verdict as a statement of its own: which board is reported, and on what ground.
pub data Verdict (compiled : Option String) (r : Result) : Type 0 where
  declared :
      (slug : String) (b : Board)
      → compiled ≡ some slug
      → frank_board_desc (frank_board_from_slug slug) (guess_role r.auto_guess) ≡ some b
      → r.board ≡ some b
      → r.source ≡ src_compiled
      → Verdict compiled r
  guessed :
      (b : Board)
      → r.ambiguous ≡ false
      → r.auto_guess ≡ some b
      → r.board ≡ some b
      → r.source ≡ src_auto
      → r.disagrees ≡ false
      → Verdict compiled r
  undecided :
      (r.ambiguous ≡ true) ⊎ (r.auto_guess ≡ none)
      → r.board ≡ some fallback_desc
      → r.source ≡ src_none
      → r.disagrees ≡ false
      → Verdict compiled r

fallback_num : board_num fallback_desc.id ≡ 0
unfolding fallback_desc
fallback_num = refl

-- The last three steps.
settle : Result → Result
settle r = judge (fall_back (adopt_guess r))

module _ (r : Result) where
  settle_same : ((settle r).ambiguous ≡ r.ambiguous) × ((settle r).auto_guess ≡ r.auto_guess)
  unfolding settle judge fall_back adopt_guess
  settle_same = ground arith

  settle_declared :
      (b : Board) → r.board ≡ some b → ((settle r).board ≡ some b) × ((settle r).source ≡ r.source)
  unfolding settle judge fall_back adopt_guess
  settle_declared b h = ground arith

  settle_guessed :
      (b : Board)
      → r.board ≡ none
      → r.ambiguous ≡ false
      → r.auto_guess ≡ some b
      → ((settle r).board ≡ some b)
        × ((settle r).source ≡ src_auto)
        × ((settle r).disagrees ≡ false)
  unfolding settle judge fall_back adopt_guess
  settle_guessed b h f g = ground arith

  settle_undecided :
      r.board ≡ none
      → (r.ambiguous ≡ true) ⊎ (r.auto_guess ≡ none)
      → ((settle r).board ≡ some fallback_desc)
        × ((settle r).source ≡ src_none)
        × ((settle r).disagrees ≡ false)
  unfolding settle judge fall_back adopt_guess
  settle_undecided h u = ground (arith, fallback_num)

  -- Without a board, the ground noted so far is overwritten.
  settle_source : (s : Source) → r.board ≡ none → settle (record r { source = s }) ≡ settle r
  unfolding settle judge fall_back adopt_guess
  settle_source s h = ground arith

settle-Verdict :
    (compiled : Option String) (r : Result) → r.board ≡ none → Verdict compiled (settle r)
settle-Verdict compiled r h =
    let (amb, guess) = settle_same r in
    elim (Bool-cases r.ambiguous) [
      | inl a ↦ let (b, s, d) = settle_undecided r h (inl a) in undecided (inl (amb ∙ a)) b s d
      | inr a ↦ elim (Option-cases r.auto_guess) [
        | inl n ↦ let (b, s, d) = settle_undecided r h (inr n) in undecided (inr (guess ∙ n)) b s d
        | inr (g, e) ↦
            let (b, s, d) = settle_guessed r g h a e in guessed g (amb ∙ a) (guess ∙ e) b s d
      ]
    ]

-- The board that a slug declares, in the role of the guess.
declared_as : String → Result → Option Board
declared_as slug r = frank_board_desc (frank_board_from_slug slug) (guess_role r.auto_guess)

module _ (slug : String) (r : Result) (undeclared : r.board ≡ none) where
  settle-declare_board-none :
      declared_as slug r ≡ none → settle (declare_board (some slug) r) ≡ settle r
  unfolding declare_board declared_as
  settle-declare_board-none n = elim (Bool-cases (board_num (frank_board_from_slug slug) == 0)) [
    | inl z ↦ rw z refl
    | inr z ↦ rw (z, n, sym undeclared) (settle_source r src_compiled undeclared)
  ]

  declared_as-Verdict :
      (b : Board)
      → declared_as slug r ≡ some b
      → Verdict (some slug) (settle (declare_board (some slug) r))
  unfolding declare_board declared_as
  declared_as-Verdict b e = elim (Bool-cases (board_num (frank_board_from_slug slug) == 0)) [
    | inl z ↦ rw z (settle-Verdict (some slug) r undeclared)
    | inr z ↦
        let s = record r { board = some b; source = src_compiled } in
        let (amb, guess) = settle_same s in
        let (board_is, source_is) = settle_declared s b refl in
        rw (z, e)
          (declared slug b refl
            (ap (λ g. frank_board_desc (frank_board_from_slug slug) (guess_role g)) guess ∙ e)
            board_is source_is)
  ]

  declare_board-Verdict : Verdict (some slug) (settle (declare_board (some slug) r))
  declare_board-Verdict = elim (Option-cases (declared_as slug r)) [
    | inl n ↦ rw (settle-declare_board-none n) (settle-Verdict (some slug) r undeclared)
    | inr (b, e) ↦ declared_as-Verdict b e
  ]

-- The result that the last three steps start from, less what was compiled in.
before_verdict : Bench → Result
before_verdict bench =
    let r0 = tier0_silicon bench cleared in
    let all_boards = frank_boards_for_mcu r0.mcu 24 in
    let r1 = tier1_probes bench all_boards r0 in
    tier2_fingerprint bench (viable_boards r1 all_boards) r1

tier2_fingerprint-board :
    (bench : Bench) (cands : List Board) (r : Result)
    → (tier2_fingerprint bench cands r).board ≡ r.board
unfolding tier2_fingerprint
tier2_fingerprint-board bench cands r = refl

tier0_silicon-board : (bench : Bench) (r : Result) → (tier0_silicon bench r).board ≡ r.board
unfolding tier0_silicon
tier0_silicon-board bench r = refl

before_verdict-board : (bench : Bench) → (before_verdict bench).board ≡ none
unfolding before_verdict
before_verdict-board bench =
    let r0 = tier0_silicon bench cleared in
    let all_boards = frank_boards_for_mcu r0.mcu 24 in
    let r1 = tier1_probes bench all_boards r0 in
    tier2_fingerprint-board bench (viable_boards r1 all_boards) r1
    ∙ (tier1_probes-evidence bench all_boards r0).1.same_board
    ∙ tier0_silicon-board bench cleared

detect_run-settle :
    (bench : Bench) (compiled : Option String)
    → detect_run bench compiled ≡ settle (declare_board compiled (before_verdict bench))
unfolding detect_run settle before_verdict
detect_run-settle bench compiled = refl

undeclared-settle : (r : Result) → settle (declare_board none r) ≡ settle r
unfolding declare_board
undeclared-settle r = refl

-- A detection ends in one of three ways. The compiled-in board is reported, in the role of the
-- fingerprint's guess. Or the fingerprint is not ambiguous, its guess is reported, and no
-- disagreement is. Or it is ambiguous or has no guess, and the fallback is reported as undecided,
-- without a disagreement.
pub detect_run-Verdict :
    (bench : Bench) (compiled : Option String) → Verdict compiled (detect_run bench compiled)
detect_run-Verdict bench none =
    rw (detect_run-settle bench none, undeclared-settle (before_verdict bench))
      (settle-Verdict none (before_verdict bench) (before_verdict-board bench))
detect_run-Verdict bench (some slug) =
    rw (detect_run-settle bench (some slug))
      (declare_board-Verdict slug (before_verdict bench) (before_verdict-board bench))

unmatched_as :
    (slug : String) (r : Result)
    → frank_board_desc (frank_board_from_slug slug) (guess_role r.auto_guess) ≡ none
    → declared_as slug r ≡ none
unfolding declared_as
unmatched_as slug r h = h

undeclared-agrees : (r : Result) → Verdict none r → r.disagrees ≡ false
undeclared-agrees r (declared slug b e f g h) = cc
undeclared-agrees r (guessed b a g f s d) = d
undeclared-agrees r (undecided u b s d) = d

-- If the table has no descriptor of the compiled-in board in the role of the fingerprint's guess,
-- the result is the one that a build without a compiled-in board gives: the declaration is dropped,
-- and no disagreement is reported.
pub detect_run-dropped :
    (bench : Bench) (slug : String)
    → frank_board_desc (frank_board_from_slug slug) (guess_role (detect_run bench none).auto_guess)
      ≡ none
    → (detect_run bench (some slug) ≡ detect_run bench none)
      × ((detect_run bench (some slug)).disagrees ≡ false)
detect_run-dropped bench slug h =
    let r = before_verdict bench in
    let board = before_verdict-board bench in
    let none_run = detect_run-settle bench none ∙ undeclared-settle r in
    let guess = ap (λ s. s.auto_guess) none_run ∙ (settle_same r).1 in
    let unmatched =
      ap (λ g. frank_board_desc (frank_board_from_slug slug) (guess_role g)) (sym guess) ∙ h in
    let same =
      detect_run-settle bench (some slug)
      ∙ settle-declare_board-none slug r board (unmatched_as slug r unmatched)
      ∙ sym none_run in
    (
      same,
      ap (λ s. s.disagrees) same
          ∙ undeclared-agrees (detect_run bench none) (detect_run-Verdict bench none),
    )
