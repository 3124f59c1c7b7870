-- ===== src/Detect/Run.antt =====
-- core/detect.c, `detect_run`. The build's FRANK_BOARD_COMPILED is `compiled`: `none` where the macro
-- is not defined.
pub mod Verdict
pub mod Fleet
use Prim.Native.String.{String}
use frank_test.Prelude.{
  ℕ, Bool, true, false, not, ◌&&◌, ◌||◌, List, [], ◌∷◌, Option, none, some, ◌==◌, if◌then◌else◌,
}
use frank_test.Board.{Board, BoardId, Role, single, board_num}
use frank_test.Board.Other.{fallback_desc}
use frank_test.Board.Table.{frank_board_desc, frank_board_from_slug, frank_boards_for_mcu}
use frank_test.Detect.{Bench, Result, Source, cleared, src_none, src_compiled, src_auto}
use frank_test.Detect.Probes.{tier0_silicon, tier1_probes, tier1_consistent}
use frank_test.Detect.Fingerprint.{tier2_fingerprint, is_some}

-- What Tier 1 does not rule out.
unfoldable pub keep_consistent : Result → List Board → List Board
keep_consistent r [] = []
keep_consistent r (d ∷ ds) =
    if tier1_consistent r d then d ∷ keep_consistent r ds else keep_consistent r ds

abbrev pub or_all : List Board → List Board → List Board
or_all [] all_boards = all_boards
or_all (v ∷ vs) all_boards = v ∷ vs

unfoldable pub viable_boards : Result → List Board → List Board
viable_boards r all_boards = or_all (keep_consistent r all_boards) all_boards

-- Tier 3: a declared board, if the slug is known.
abbrev pub guess_role : Option Board → Role
guess_role none = single
guess_role (some g) = g.role

unfoldable pub declare_board : Option String → Result → Result
declare_board none r = r
declare_board (some slug) r =
    let id = frank_board_from_slug slug in
    if board_num id == 0
    then r
    else record r { board = frank_board_desc id (guess_role r.auto_guess); source = src_compiled }

-- `if (!out->board && !out->ambiguous)`: the guess of the fingerprint.
unfoldable pub adopt_guess : Result → Result
adopt_guess r =
    if not (is_some r.board) && not r.ambiguous
    then record r {
      board = r.auto_guess;
      source = if is_some r.auto_guess then src_auto else src_none;
    }
    else r

unfoldable pub fall_back : Result → Result
fall_back r =
    if is_some r.board then r else record r { board = some fallback_desc; source = src_none }

unfoldable pub among : BoardId → List Board → Bool
among id [] = false
among id (c ∷ cs) = (board_num c.id == board_num id) || among id cs

abbrev pub disagreement : Result → Option Board → Option Board → Bool
disagreement r none guess = false
disagreement r (some b) none = false
disagreement r (some b) (some g) =
    not (board_num b.id == 0)
    && not (board_num b.id == board_num g.id)
    && not (r.ambiguous && among b.id r.candidates)

unfoldable pub judge : Result → Result
judge r = record r { disagrees = disagreement r r.board r.auto_guess }

unfoldable pub detect_run : Bench → Option String → Result
detect_run bench compiled =
    let r0 = tier0_silicon bench cleared in
    let all_boards = frank_boards_for_mcu r0.mcu 24 in
    let r1 = tier1_probes bench all_boards r0 in
    let r2 = tier2_fingerprint bench (viable_boards r1 all_boards) r1 in
    judge (fall_back (adopt_guess (declare_board compiled r2)))
