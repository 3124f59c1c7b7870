-- ===== src/Board/Table.antt =====
-- core/board_table.c: the table and the lookups over it.
pub mod Lookup
pub mod Consistency
use Prim.Native.String.{String}
use text.Mathlib.Text.{◌==◌ as str_eq}
use frank_test.Prelude.{
  ℕ, zero, suc, List, [], ◌∷◌, Option, none, some, Bool, true, false, ◌&&◌, ◌||◌, ◌==◌,
  if◌then◌else◌, take,
}
use frank_test.Board.{Board, BoardId, McuClass, Role, unknown, any, board_num, mcu_num, role_num}
use frank_test.Board.Single.{
  desc_frank, desc_frank_pga, desc_megafrank, desc_microfrank, desc_minifrank, desc_zerofrank,
  desc_oldskoolfrank,
}
use frank_test.Board.Linked.{desc_core2, desc_core2_slave, desc_core2u, desc_core2u_slave}
use frank_test.Board.Other.{desc_next, desc_z0pa}

abbrev pub frank_board_table : List Board
frank_board_table =
    desc_frank ∷ desc_frank_pga ∷ desc_megafrank ∷ desc_microfrank ∷ desc_minifrank ∷ desc_zerofrank
    ∷ desc_oldskoolfrank ∷ desc_core2 ∷ desc_core2_slave ∷ desc_core2u ∷ desc_core2u_slave
    ∷ desc_next ∷ desc_z0pa ∷ []

-- `frank_board_desc` over the entries left: the first one of this id and role.
unfoldable pub find_desc : List Board → BoardId → Role → Option Board
find_desc [] i r = none
find_desc (b ∷ bs) i r =
    if (board_num b.id == board_num i) && (role_num b.role == role_num r)
    then some b
    else find_desc bs i r

unfoldable pub frank_board_desc : BoardId → Role → Option Board
unfolding find_desc
frank_board_desc i r = find_desc frank_board_table i r

-- `d->mcu == mcu || d->mcu == FRANK_MCU_ANY`.
abbrev pub runs_on : McuClass → Board → Bool
runs_on m d = (mcu_num d.mcu == mcu_num m) || (mcu_num d.mcu == mcu_num any)

-- `frank_boards_for_mcu` over the entries left, with `room` places left in `out`.
unfoldable pub boards_for : List Board → McuClass → ℕ → List Board
boards_for [] m room = []
boards_for (d ∷ ds) m zero = []
boards_for (d ∷ ds) m (suc room) =
    if runs_on m d then d ∷ boards_for ds m room else boards_for ds m (suc room)

unfoldable pub frank_boards_for_mcu : McuClass → ℕ → List Board
unfolding boards_for
frank_boards_for_mcu m max_boards = boards_for frank_board_table m max_boards

-- `frank_board_from_slug` over the entries left.
unfoldable pub from_slug : List Board → String → BoardId
from_slug [] s = unknown
from_slug (b ∷ bs) s = if str_eq b.slug s then b.id else from_slug bs s

unfoldable pub frank_board_from_slug : String → BoardId
unfolding from_slug
frank_board_from_slug s = from_slug frank_board_table s

-- `frank_board_slug` over the entries left.
unfoldable pub slug_of : List Board → BoardId → String
slug_of [] i = "unknown"
slug_of (b ∷ bs) i = if board_num b.id == board_num i then b.slug else slug_of bs i

unfoldable pub frank_board_slug : BoardId → String
unfolding slug_of
frank_board_slug i = slug_of frank_board_table i

-- `frank_board_name` over the entries left.
unfoldable pub name_of : List Board → BoardId → String
name_of [] i = "unknown"
name_of (b ∷ bs) i = if board_num b.id == board_num i then b.name else name_of bs i

unfoldable pub frank_board_name : BoardId → String
unfolding name_of
frank_board_name i = name_of frank_board_table i
