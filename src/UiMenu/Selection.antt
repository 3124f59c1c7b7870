-- ===== src/UiMenu/Selection.antt =====
-- ui/ui_menu.c: what the keys and the pointer can highlight, and so run.
use frank_test.Prelude.{
  ap, ◌⊎◌, ℕ, zero, suc, ◌+◌, ◌-◌, ◌≤◌, ◌≡◌, refl, sym, ◌∙◌, Bool, true, false, ◌&&◌, ◌||◌, Option,
  none, some, List, [], ◌∷◌, length, get_elem?, ◌==◌, ltb, leb, Bool-cases, inl, inr, arith,
}
use mathlib.Core.Path.{subst}
use frank_test.UiMenu.{
  Item, Menu, MenuBar, cmd_of, cmd_at, ui_menubar_current_cmd, is_selectable, selectable,
  first_from, first_selectable, next_place, move_from, menu_at, moved, highlit, hit_item_of,
  hit_item_in, open_menu, ui_menubar_move, ui_menubar_cycle, ui_menubar_find_alt, ui_menubar_hit,
  ui_menubar_hit_item, hit_item_from, item_h, menu_x, dropdown_width, open_on, hover, ui_menubar_h,
}

abbrev pub IsSelected : Menu → Option ℕ → Type 0
IsSelected m none = Unit {0}
IsSelected m (some i) = selectable m i ≡ true

-- What is highlighted in the open menu can be run.
abbrev pub IsSound : MenuBar → Type 0
IsSound mb = (m : Menu) → open_menu mb ≡ some m → IsSelected m mb.highlight

abbrev at_place : List Item → ℕ → Bool
at_place is k = elim (get_elem? is k) [ none ↦ false | some it ↦ is_selectable it ]

-- A place that is found counts from where the search began.
abbrev Found : ℕ → List Item → Option ℕ → Type 0
Found i is none = Unit {0}
Found i is (some j) = (i ≤ j) × (at_place is (j - i) ≡ true)

Found-later :
    (i : ℕ) (it : Item) (is : List Item) (o : Option ℕ) → Found (i + 1) is o → Found i (it ∷ is) o
Found-later i it is none h = tt
Found-later i it is (some j) h =
    let next : j - i ≡ suc (j - (i + 1)) = omega (arith, h.0) in (omega (arith, h.0), rw next h.1)

first_from-Found : (i : ℕ) (is : List Item) → Found i is (first_from i is)
first_from-Found i [] = tt
first_from-Found i (it ∷ is) = elim (Bool-cases (is_selectable it)) [
  | inl here ↦ let zeroth : i - i ≡ 0 = omega arith in rw (here, zeroth) (omega arith, here)
  | inr no_more ↦
      rw no_more (Found-later i it is (first_from (i + 1) is) (first_from-Found (i + 1) is))
]

hit_item_from-Found : (i iy : ℕ) (is : List Item) (y : ℕ) → Found i is (hit_item_from i iy is y)
unfolding hit_item_from
hit_item_from-Found i iy [] y = tt
hit_item_from-Found i iy (it ∷ is) y = elim (Bool-cases (leb iy y && ltb y (iy + item_h it))) [
  | inl inside ↦ elim (Bool-cases (is_selectable it)) [
    | inl here ↦
        let zeroth : i - i ≡ 0 = omega arith in rw (inside, here, zeroth) (omega arith, here)
    | inr grey ↦ rw (inside, grey) tt
  ]
  | inr below ↦ rw below (
      Found-later i it is (hit_item_from (i + 1) (iy + item_h it) is y)
        (hit_item_from-Found (i + 1) (iy + item_h it) is y))
]

Found-IsSelected : (m : Menu) (o : Option ℕ) → Found 0 m.items o → IsSelected m o
unfolding selectable
Found-IsSelected m none h = tt
Found-IsSelected m (some j) h = let from_start : j - 0 ≡ j = omega arith in rw from_start at h.1

pub first_selectable-IsSelected : (m : Menu) → IsSelected m (first_selectable m)
unfolding first_selectable
first_selectable-IsSelected m =
    Found-IsSelected m (first_from 0 m.items) (first_from-Found 0 m.items)

move_from-IsSelected :
    (down : Bool) (m : Menu) (steps i : ℕ) → IsSelected m (move_from down m steps i)
unfolding move_from
move_from-IsSelected down m zero i = tt
move_from-IsSelected down m (suc steps) i =
    let j = next_place down (length m.items) i in
    elim (Bool-cases (selectable m j)) [
      | inl here ↦ rw here here
      | inr grey ↦ rw grey (move_from-IsSelected down m steps j)
    ]

cycle-IsSound : (right : Bool) (mb : MenuBar) → IsSound mb → IsSound (ui_menubar_cycle right mb)
unfolding ui_menubar_cycle
cycle-IsSound right mb h = elim (Bool-cases (length mb.menus == 0)) [
  | inl bare ↦ rw bare h
  | inr some_menus ↦ rw some_menus (λ m at. rw at (first_selectable-IsSelected m))
]

-- A move leaves the menu open that is.
moved-open :
    (down : Bool) (mb : MenuBar) (o : Option Menu) (h : Option ℕ)
    → open_menu (moved down mb o h) ≡ open_menu mb
moved-open down mb none h = refl
moved-open down mb (some m) none = refl
moved-open down mb (some m) (some i) = refl

moved-IsSelected :
    (down : Bool) (mb : MenuBar) (m : Menu) (h : Option ℕ)
    → IsSelected m (moved down mb (some m) h).highlight
moved-IsSelected down mb m none = first_selectable-IsSelected m
moved-IsSelected down mb m (some i) = move_from-IsSelected down m (length m.items) i

move-IsSound : (down : Bool) (mb : MenuBar) → IsSound (ui_menubar_move down mb)
unfolding ui_menubar_move
move-IsSound down mb m after =
    let at : open_menu mb ≡ some m = sym (moved-open down mb (open_menu mb) mb.highlight) ∙ after in
    subst (λ o. IsSelected m (moved down mb o mb.highlight).highlight) (sym at)
      (moved-IsSelected down mb m mb.highlight)

open_on-IsSound : (i : ℕ) (mb : MenuBar) → IsSound (open_on i mb)
unfolding open_on
open_on-IsSound i mb =
    let same : Bool = elim mb.opened [ none ↦ false | some j ↦ i == j ] in
    elim (Bool-cases same) [
      | inl again ↦ rw again (λ m at. tt)
      | inr other ↦ rw other (move-IsSound true (record mb { opened = some i; highlight = none }))
    ]

hit_item_of-IsSelected :
    (ms : List Menu) (i : ℕ) (m : Menu) (x y : ℕ) → IsSelected m (hit_item_of ms i (some m) x y)
unfolding hit_item_of
hit_item_of-IsSelected ms i m x y =
    elim (Bool-cases (ltb x (menu_x ms i) || leb (menu_x ms i + dropdown_width m) x)) [
      | inl outside ↦ rw outside tt
      | inr inside ↦ rw inside (
          Found-IsSelected m (hit_item_from 0 (ui_menubar_h - 1 + 2) m.items y)
            (hit_item_from-Found 0 (ui_menubar_h - 1 + 2) m.items y))
    ]

hit_item_in-IsSelected :
    (ms : List Menu) (o : Option ℕ) (m : Menu) (x y : ℕ)
    → menu_at ms o ≡ some m
    → IsSelected m (hit_item_in ms o x y)
hit_item_in-IsSelected ms none m x y at = tt
hit_item_in-IsSelected ms (some i) m x y at =
    subst (λ o. IsSelected m (hit_item_of ms i o x y)) (sym at) (hit_item_of-IsSelected ms i m x y)

highlit-IsSound :
    (o : Option ℕ) (mb : MenuBar)
    → ((m : Menu) → open_menu mb ≡ some m → IsSelected m o)
    → IsSound mb
    → IsSound (highlit o mb)
highlit-IsSound none mb picked h = h
highlit-IsSound (some i) mb picked h = picked

hover-IsSound : (x y : ℕ) (mb : MenuBar) → IsSound mb → IsSound (hover x y mb)
unfolding hover ui_menubar_hit_item
hover-IsSound x y mb h =
    highlit-IsSound (hit_item_in mb.menus mb.opened x y) mb
      (λ m at. hit_item_in-IsSelected mb.menus mb.opened m x y at) h

-- What the operator can do to the bar; `down` and `right` are a direction of 1.
pub data Action : Type 0 where
  move cycle : (forward : Bool) → Action
  alt : (c : ℕ) → Action
  click_title point : (x y : ℕ) → Action

abbrev pub open_at : Option ℕ → MenuBar → MenuBar
open_at none mb = mb
open_at (some i) mb = open_on i mb

abbrev pub act : Action → MenuBar → MenuBar
act (move down) mb = ui_menubar_move down mb
act (cycle right) mb = ui_menubar_cycle right mb
act (alt c) mb = open_at (ui_menubar_find_alt mb c) mb
act (click_title x y) mb = open_at (ui_menubar_hit mb x y) mb
act (point x y) mb = hover x y mb

abbrev pub act_all : List Action → MenuBar → MenuBar
act_all [] mb = mb
act_all (a ∷ more) mb = act_all more (act a mb)

open_at-IsSound : (o : Option ℕ) (mb : MenuBar) → IsSound mb → IsSound (open_at o mb)
open_at-IsSound none mb h = h
open_at-IsSound (some i) mb h = open_on-IsSound i mb

act-IsSound : (a : Action) (mb : MenuBar) → IsSound mb → IsSound (act a mb)
act-IsSound (move down) mb h = move-IsSound down mb
act-IsSound (cycle right) mb h = cycle-IsSound right mb h
act-IsSound (alt c) mb h = open_at-IsSound (ui_menubar_find_alt mb c) mb h
act-IsSound (click_title x y) mb h = open_at-IsSound (ui_menubar_hit mb x y) mb h
act-IsSound (point x y) mb h = hover-IsSound x y mb h

act_all-keeps : (more : List Action) (mb : MenuBar) → IsSound mb → IsSound (act_all more mb)
act_all-keeps [] mb h = h
act_all-keeps (a ∷ more) mb h = act_all-keeps more (act a mb) (act-IsSound a mb h)

-- The highlighted item of the open menu has a label and is enabled, and `cmd` is its command.
abbrev pub Runs : Option Menu → Option ℕ → ℕ → Type 0
Runs o h cmd =
    (m : Menu) × (i : ℕ) × (it : Item) × (o ≡ some m)
    × (h ≡ some i)
    × (get_elem? m.items i ≡ some it)
    × (is_selectable it ≡ true)
    × (cmd ≡ it.cmd)

none_or : {A : Type 0} (o : Option A) → (o ≡ none) ⊎ ((a : A) × (o ≡ some a))
none_or none = inl refl
none_or (some a) = inr (a, refl)

cmd_at-Runs :
    (m : Menu) (i : ℕ) → selectable m i ≡ true → Runs (some m) (some i) (cmd_at (some m) (some i))
unfolding cmd_at selectable
cmd_at-Runs m i can = elim (none_or (get_elem? m.items i)) [
  | inl gone ↦
      let grey : false ≡ true =
        subst (λ o. elim o [ none ↦ false | some it ↦ is_selectable it ] ≡ true) gone can in
      absurd (cc)
  | inr (it, has) ↦
      let able : is_selectable it ≡ true =
        subst (λ o. elim o [ none ↦ false | some it ↦ is_selectable it ] ≡ true) has can in
      (m, i, it, refl, refl, has, able, rw can (ap cmd_of has))
]

-- In any bar, nothing that is a separator, grey or beyond the menu is run.
cmd_at_cases : (o : Option Menu) (h : Option ℕ) → (cmd_at o h ≡ 0) ⊎ Runs o h (cmd_at o h)
unfolding cmd_at
cmd_at_cases none h = inl refl
cmd_at_cases (some m) none = inl refl
cmd_at_cases (some m) (some i) = elim (Bool-cases (selectable m i)) [
  | inl can ↦ inr (cmd_at-Runs m i can)
  | inr grey ↦ inl (rw grey refl)
]

-- Nothing is highlighted, or the highlighted item of an open menu is run.
cmd_at_selected :
    (o : Option Menu) (h : Option ℕ)
    → ((m : Menu) → o ≡ some m → IsSelected m h)
    → (((o ≡ none) ⊎ (h ≡ none)) × (cmd_at o h ≡ 0)) ⊎ Runs o h (cmd_at o h)
unfolding cmd_at
cmd_at_selected none h sound = inl (inl refl, refl)
cmd_at_selected (some m) none sound = inl (inr refl, refl)
cmd_at_selected (some m) (some i) sound = inr (cmd_at-Runs m i (sound m refl))

-- From a closed bar, whatever the keys and the pointer do, what is highlighted in the open menu is
-- an item with a label that is enabled. The command that the return key runs then is that of the
-- highlighted item, and none if no menu is open or nothing is highlighted. In a bar in any state it
-- is none, or that of a highlighted item with a label that is enabled.
pub act_all-IsSound :
    (more : List Action) (mb any : MenuBar)
    → mb.opened ≡ none
    → let after = act_all more mb in
      let cmd = ui_menubar_current_cmd after in
      IsSound after
      × ((((open_menu after ≡ none) ⊎ (after.highlight ≡ none)) × (cmd ≡ 0))
          ⊎ Runs (open_menu after) after.highlight cmd)
      × ((ui_menubar_current_cmd any ≡ 0)
          ⊎ Runs (open_menu any) any.highlight (ui_menubar_current_cmd any))
unfolding ui_menubar_current_cmd
act_all-IsSound more mb any closed =
    let after = act_all more mb in
    let sound : IsSound after =
      act_all-keeps more mb (λ m at. let shut : open_menu mb ≡ none = rw closed refl in cc) in
    (
      sound,
      cmd_at_selected (open_menu after) after.highlight sound,
      cmd_at_cases (open_menu any) any.highlight,
    )
