-- ===== src/Tests/Menus.antt =====
-- Instances for the menu bar: one menu, of an item, a separator, a grey item and another item.
use frank_test.Prelude.{◌≡◌, ◌⊎◌, List, refl, true, false, none, some, [], ◌∷◌, arith}
use frank_test.UiMenu.{Item, Menu, MenuBar, open_menu, ui_menubar_move, ui_menubar_current_cmd}
use frank_test.UiMenu.Selection.{Action, IsSound, Runs, move, alt, point, act_all, act_all-IsSound}
use frank_test.UiMenu.Round.{Lands, ui_menubar_move-Lands}

abbrev run_item : Item
run_item = record {
  label = some (0x52 ∷ 0x75 ∷ []);
  key = 0x52;
  enabled = true;
  checked = false;
  cmd = 3;
}

abbrev separator : Item
separator = record { label = none; key = 0; enabled = false; checked = false; cmd = 0 }

abbrev grey_item : Item
grey_item = record run_item { enabled = false }

abbrev tests_menu : Menu
tests_menu = record {
  title = 0x54 ∷ 0x65 ∷ [];
  items = run_item ∷ separator ∷ grey_item ∷ run_item ∷ [];
  is_mark = false;
  alt_key = 0x54;
}

abbrev closed_bar : MenuBar
closed_bar = record { menus = tests_menu ∷ []; opened = none; highlight = none }

abbrev lit_bar : MenuBar
lit_bar = record closed_bar { opened = some 0; highlight = some 0 }

abbrev tried : List Action
tried = alt 0x74 ∷ move true ∷ point 30 50 ∷ move false ∷ []

act_all-IsSound_example :
    let after = act_all tried closed_bar in
    let cmd = ui_menubar_current_cmd after in
    IsSound after
    × ((((open_menu after ≡ none) ⊎ (after.highlight ≡ none)) × (cmd ≡ 0))
        ⊎ Runs (open_menu after) after.highlight cmd)
    × ((ui_menubar_current_cmd lit_bar ≡ 0)
        ⊎ Runs (open_menu lit_bar) lit_bar.highlight (ui_menubar_current_cmd lit_bar))
act_all-IsSound_example = act_all-IsSound tried closed_bar lit_bar refl

ui_menubar_move-Lands_example : Lands tests_menu (ui_menubar_move true lit_bar).highlight
ui_menubar_move-Lands_example =
    ui_menubar_move-Lands true lit_bar tests_menu 3 run_item refl (omega arith) refl refl
