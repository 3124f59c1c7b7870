-- ===== src/UiMenu.antt =====
-- ui/ui_menu.c: the menu bar, less its drawing. -1 is `none`, and a string is the list of its
-- characters; the coordinates of a pointer are never negative.
pub mod Selection
pub mod Round
use frank_test.Prelude.{
  ℕ, zero, suc, ◌+◌, ◌-◌, ◌*◌, Bool, true, false, not, ◌&&◌, ◌||◌, Option, none, some, List, [],
  ◌∷◌, length, get_elem?, ◌==◌, ltb, leb, if◌then◌else◌,
}

-- `ui_menu_item_t`; a separator has no label.
pub record Item : Type 0 where
  pub label : Option (List ℕ)
  pub key : ℕ
  pub enabled : Bool
  pub checked : Bool
  pub cmd : ℕ

pub record Menu : Type 0 where
  pub title : List ℕ
  pub items : List Item
  pub is_mark : Bool
  pub alt_key : ℕ

-- `ui_menubar_t`; `opened` is its `open`.
pub record MenuBar : Type 0 where
  pub menus : List Menu
  pub opened : Option ℕ
  pub highlight : Option ℕ

abbrev pub ui_char_w : ℕ
ui_char_w = 6

abbrev pub ui_menubar_h : ℕ
ui_menubar_h = 20

abbrev pub ui_shadow_menu : ℕ
ui_shadow_menu = 2

abbrev pub ui_text_width : List ℕ → ℕ
ui_text_width s = length s * ui_char_w

unfoldable pub menu_w : Menu → ℕ
menu_w m = if m.is_mark then 24 else ui_text_width m.title + 20

-- The sum over the menus before the `i`th.
unfoldable pub menu_x : List Menu → ℕ → ℕ
menu_x ms zero = 0
menu_x [] (suc i) = 0
menu_x (m ∷ ms) (suc i) = menu_w m + menu_x ms i

-- The widest label, and whether an item has a key.
abbrev pub widest : List Item → ℕ → Bool → ℕ × Bool
widest [] w any_key = (w, any_key)
widest (it ∷ is) w any_key = elim it.label [
  | none ↦ widest is w any_key
  | some s ↦
      widest is (if ltb w (ui_text_width s) then ui_text_width s else w)
        (any_key || not (it.key == 0))
]

unfoldable pub dropdown_width : Menu → ℕ
dropdown_width m =
    let (w, any_key) = widest m.items 0 false in 22 + w + (if any_key then 26 else 0) + 14

abbrev pub item_h : Item → ℕ
item_h it = elim it.label [ none ↦ 6 | some s ↦ 13 ]

abbrev pub heights : List Item → ℕ
heights [] = 0
heights (it ∷ is) = item_h it + heights is

unfoldable pub dropdown_height : Menu → ℕ
dropdown_height m = 2 + heights m.items + 2

-- The open menu, if there is one and it is on the bar.
abbrev pub menu_at : List Menu → Option ℕ → Option Menu
menu_at ms none = none
menu_at ms (some i) = get_elem? ms i

abbrev pub open_menu : MenuBar → Option Menu
open_menu mb = menu_at mb.menus mb.opened

-- x, y, w and h.
unfoldable pub ui_menubar_dropdown_rect : MenuBar → Option (ℕ × ℕ × ℕ × ℕ)
ui_menubar_dropdown_rect mb = elim mb.opened [
  | none ↦ none
  | some i ↦ elim (get_elem? mb.menus i) [
    | none ↦ none
    | some m ↦ some (
      menu_x mb.menus i,
      ui_menubar_h - 1,
      dropdown_width m + ui_shadow_menu,
      dropdown_height m + ui_shadow_menu,
    )
  ]
]

-- The loop of `ui_menubar_hit`, from the `i`th menu on, which starts at `mx`.
unfoldable pub hit_from : ℕ → ℕ → List Menu → ℕ → Option ℕ
hit_from i mx [] x = none
hit_from i mx (m ∷ ms) x =
    if leb mx x && ltb x (mx + menu_w m) then some i else hit_from (i + 1) (mx + menu_w m) ms x

unfoldable pub ui_menubar_hit : MenuBar → ℕ → ℕ → Option ℕ
ui_menubar_hit mb x y = if leb ui_menubar_h y then none else hit_from 0 0 mb.menus x

abbrev pub is_selectable : Item → Bool
is_selectable it = elim it.label [ none ↦ false | some s ↦ it.enabled ]

-- The loop of `ui_menubar_hit_item`, from the `i`th item on, which starts at `iy`.
unfoldable pub hit_item_from : ℕ → ℕ → List Item → ℕ → Option ℕ
hit_item_from i iy [] y = none
hit_item_from i iy (it ∷ is) y =
    if leb iy y && ltb y (iy + item_h it)
    then if is_selectable it then some i else none
    else hit_item_from (i + 1) (iy + item_h it) is y

-- In the `i`th menu, if it is one of the bar's.
unfoldable pub hit_item_of : List Menu → ℕ → Option Menu → ℕ → ℕ → Option ℕ
hit_item_of ms i none x y = none
hit_item_of ms i (some m) x y =
    if ltb x (menu_x ms i) || leb (menu_x ms i + dropdown_width m) x
    then none
    else hit_item_from 0 (ui_menubar_h - 1 + 2) m.items y

abbrev pub hit_item_in : List Menu → Option ℕ → ℕ → ℕ → Option ℕ
hit_item_in ms none x y = none
hit_item_in ms (some i) x y = hit_item_of ms i (get_elem? ms i) x y

-- An open menu is one of the bar's.
unfoldable pub ui_menubar_hit_item : MenuBar → ℕ → ℕ → Option ℕ
ui_menubar_hit_item mb x y = hit_item_in mb.menus mb.opened x y

unfoldable pub selectable : Menu → ℕ → Bool
selectable m i = elim (get_elem? m.items i) [ none ↦ false | some it ↦ is_selectable it ]

abbrev pub upper : ℕ → ℕ
upper c = if leb 0x61 c && leb c 0x7A then c - 0x61 + 0x41 else c

abbrev pub find_from : ℕ → List Menu → ℕ → Option ℕ
find_from i [] c = none
find_from i (m ∷ ms) c =
    if not (upper m.alt_key == 0) && (upper m.alt_key == upper c)
    then some i
    else find_from (i + 1) ms c

unfoldable pub ui_menubar_find_alt : MenuBar → ℕ → Option ℕ
ui_menubar_find_alt mb c = find_from 0 mb.menus c

-- The loop from the `i`th item on, on the items left.
abbrev pub first_from : ℕ → List Item → Option ℕ
first_from i [] = none
first_from i (it ∷ is) = if is_selectable it then some i else first_from (i + 1) is

unfoldable pub first_selectable : Menu → Option ℕ
first_selectable m = first_from 0 m.items

-- `+= dir` with the two wraps, of `n` places; `down` is a `dir` of 1, and otherwise it is -1.
unfoldable pub next_place : Bool → ℕ → ℕ → ℕ
next_place true n i = if leb n (i + 1) then 0 else i + 1
next_place false n zero = n - 1
next_place false n (suc i) = if leb n i then 0 else i

-- The loop of `ui_menubar_move`, on the steps left.
unfoldable pub move_from : Bool → Menu → ℕ → ℕ → Option ℕ
move_from down m zero i = none
move_from down m (suc steps) i =
    let j = next_place down (length m.items) i in
    let rest = move_from down m steps j in if selectable m j then some j else rest

-- With the open menu, if there is one, and the highlight.
abbrev pub moved : Bool → MenuBar → Option Menu → Option ℕ → MenuBar
moved down mb none h = mb
moved down mb (some m) none = record mb { highlight = first_selectable m }
moved down mb (some m) (some i) = record mb { highlight = move_from down m (length m.items) i }

unfoldable pub ui_menubar_move : Bool → MenuBar → MenuBar
ui_menubar_move down mb = moved down mb (open_menu mb) mb.highlight

-- The place of the next menu.
abbrev pub cycled : Bool → MenuBar → ℕ
cycled right mb = elim mb.opened [ none ↦ 0 | some i ↦ next_place right (length mb.menus) i ]

unfoldable pub ui_menubar_cycle : Bool → MenuBar → MenuBar
ui_menubar_cycle right mb =
    let i = cycled right mb in
    if length mb.menus == 0 then mb else record mb {
      opened = some i;
      highlight = elim (get_elem? mb.menus i) [ none ↦ none | some m ↦ first_selectable m ];
    }

-- What `main` does with a title that is clicked or named by its Alt key, `i` being its place: the
-- open menu closes, another one opens on its first item.
unfoldable pub open_on : ℕ → MenuBar → MenuBar
open_on i mb =
    let same : Bool = elim mb.opened [ none ↦ false | some j ↦ i == j ] in
    if same
    then record mb { opened = none; highlight = none }
    else ui_menubar_move true (record mb { opened = some i; highlight = none })

-- What `main` does when the pointer moves over an open menu, with the item under it.
abbrev pub highlit : Option ℕ → MenuBar → MenuBar
highlit none mb = mb
highlit (some i) mb = record mb { highlight = some i }

unfoldable pub hover : ℕ → ℕ → MenuBar → MenuBar
hover x y mb = highlit (ui_menubar_hit_item mb x y) mb

-- The command of an item, if there is one.
abbrev pub cmd_of : Option Item → ℕ
cmd_of none = 0
cmd_of (some it) = it.cmd

-- With the open menu, if there is one, and the highlight; CMD_NONE is 0.
unfoldable pub cmd_at : Option Menu → Option ℕ → ℕ
cmd_at none h = 0
cmd_at (some m) none = 0
cmd_at (some m) (some i) = if not (selectable m i) then 0 else cmd_of (get_elem? m.items i)

unfoldable pub ui_menubar_current_cmd : MenuBar → ℕ
ui_menubar_current_cmd mb = cmd_at (open_menu mb) mb.highlight
