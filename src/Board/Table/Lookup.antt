-- ===== src/Board/Table/Lookup.antt =====
-- core/board_table.c: the lookups by id and role, by slug and by MCU.
use frank_test.Prelude.{
  ℕ, zero, suc, ◌≡◌, refl, List, [], ◌∷◌, some, Bool, All, take, arith, if◌then◌else◌,
}
use frank_test.Board.{Board, McuClass}
use frank_test.Board.Single.{
  desc_frank, desc_frank_pga, desc_megafrank, desc_microfrank, desc_minifrank, desc_zerofrank,
  desc_oldskoolfrank,
}
use frank_test.Board.Linked.{desc_core2, desc_core2_slave, desc_core2u, desc_core2u_slave}
use frank_test.Board.Other.{desc_next, desc_z0pa}
use frank_test.Board.Table.{
  frank_board_table, frank_board_desc, runs_on, boards_for, frank_boards_for_mcu,
  frank_board_from_slug, frank_board_slug,
}

-- The entries of a list that pass a test, in order.
abbrev pub keep_if : (Board → Bool) → List Board → List Board
keep_if p [] = []
keep_if p (d ∷ ds) = if p d then d ∷ keep_if p ds else keep_if p ds

boards_for-eq-take :
    (ds : List Board) (m : McuClass) (room : ℕ)
    → boards_for ds m room ≡ take room (keep_if (runs_on m) ds)
unfolding boards_for
boards_for-eq-take [] m zero = refl
boards_for-eq-take [] m (suc room) = refl
boards_for-eq-take (d ∷ ds) m zero = refl
boards_for-eq-take (d ∷ ds) m (suc room) =
    ground (arith, boards_for-eq-take ds m room, boards_for-eq-take ds m (suc room))

-- The boards for an MCU are the table's entries that run on it, in its order, cut at `max_boards`.
frank_boards_for_mcu-eq-take :
    (m : McuClass) (max_boards : ℕ)
    → frank_boards_for_mcu m max_boards ≡ take max_boards (keep_if (runs_on m) frank_board_table)
unfolding frank_boards_for_mcu
frank_boards_for_mcu-eq-take m max_boards = boards_for-eq-take frank_board_table m max_boards

-- Every entry of the table is found again by its own id and role, and its slug leads to its id; an
-- id's own slug leads back to the id.
table_lookups :
    All
      (λ d.
        (frank_board_desc d.id d.role ≡ some d)
        × (frank_board_from_slug d.slug ≡ d.id)
        × (frank_board_from_slug (frank_board_slug d.id) ≡ d.id))
      frank_board_table
unfolding frank_board_desc frank_board_from_slug frank_board_slug desc_frank desc_frank_pga
    desc_megafrank desc_microfrank desc_minifrank desc_zerofrank desc_oldskoolfrank desc_core2
    desc_core2_slave desc_core2u desc_core2u_slave desc_next desc_z0pa
table_lookups = (
  (refl, refl, refl),
  (
    (refl, refl, refl),
    (
      (refl, refl, refl),
      (
        (refl, refl, refl),
        (
          (refl, refl, refl),
          (
            (refl, refl, refl),
            (
              (refl, refl, refl),
              (
                (refl, refl, refl),
                (
                  (refl, refl, refl),
                  (
                    (refl, refl, refl),
                    ((refl, refl, refl), ((refl, refl, refl), ((refl, refl, refl), tt))),
                  ),
                ),
              ),
            ),
          ),
        ),
      ),
    ),
  ),
)
