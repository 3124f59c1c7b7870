-- ===== src/UiMenu/Round.antt =====
-- ui/ui_menu.c, `ui_menubar_move`: the way round the items.
use frank_test.Prelude.{
  ℕ, zero, suc, ◌+◌, ◌-◌, ◌≤◌, ◌<◌, ◌≡◌, refl, sym, ap, ◌∙◌, Bool, true, false, Option, none, some,
  List, [], ◌∷◌, length, get_elem?, ltb, Bool-cases, inl, inr, arith,
}
use mathlib.Core.Path.{subst}
use frank_test.UiMenu.Selection.{IsSelected, first_selectable-IsSelected}
use frank_test.UiMenu.{
  Item, Menu, MenuBar, is_selectable, selectable, first_from, first_selectable, next_place,
  move_from, moved, open_menu, ui_menubar_move,
}

abbrev walk : Bool → ℕ → ℕ → ℕ → ℕ
walk down n zero i = i
walk down n (suc d) i = walk down n d (next_place down n i)

walk-add : (down : Bool) (n a b i : ℕ) → walk down n (a + b) i ≡ walk down n b (walk down n a i)
walk-add down n zero b i = let e : zero + b ≡ b = omega arith in ap (λ d. walk down n d i) e
walk-add down n (suc a) b i =
    let e : suc a + b ≡ suc (a + b) = omega arith in
    ap (λ d. walk down n d i) e ∙ walk-add down n a b (next_place down n i)

walk_down : (n d i : ℕ) → i + d < n → walk true n d i ≡ i + d
unfolding next_place
walk_down n zero i h = omega arith
walk_down n (suc d) i h =
    let on : next_place true n i ≡ i + 1 = ground arith in
    ap (λ k. walk true n d k) on ∙ walk_down n d (i + 1) (omega arith) ∙ omega arith

walk_up : (n d i : ℕ) → i < n → d ≤ i → walk false n d i ≡ i - d
unfolding next_place
walk_up n zero i h le = omega arith
walk_up n (suc d) zero h le = absurd (omega arith)
walk_up n (suc d) (suc i) h le =
    let on : next_place false n (suc i) ≡ i = ground arith in
    ap (λ k. walk false n d k) on ∙ walk_up n d i (omega arith) (omega arith) ∙ omega arith

-- From any place any place is reached in one round.
walk_round :
    (down : Bool) (n i j : ℕ) → i < n → j < n → (d : ℕ) × (d < n) × (walk down n (suc d) i ≡ j)
unfolding next_place
walk_round true n i j hi hj = elim (Bool-cases (ltb i j)) [
  | inl before ↦
      let gap : suc (j - i - 1) ≡ j - i = ground arith in
      (
        j - i - 1,
        ground arith,
        ap (λ d. walk true n d i) gap ∙ walk_down n (j - i) i (ground arith) ∙ ground arith,
      )
  | inr behind ↦
      let a = n - 1 - i in
      let total : suc (a + j) ≡ a + suc j = omega arith in
      let last : walk true n a i ≡ n - 1 = walk_down n a i (omega arith) ∙ omega arith in
      let wraps : next_place true n (n - 1) ≡ 0 = ground arith in
      (
        a + j,
        ground arith,
        ap (λ d. walk true n d i) total
            ∙ walk-add true n a (suc j) i
            ∙ ap (λ k. walk true n (suc j) k) last
            ∙ ap (λ k. walk true n j k) wraps
            ∙ walk_down n j 0 (omega arith)
            ∙ omega arith,
      )
]
walk_round false n i j hi hj = elim (Bool-cases (ltb j i)) [
  | inl after ↦
      let gap : suc (i - j - 1) ≡ i - j = ground arith in
      (
        i - j - 1,
        ground arith,
        ap (λ d. walk false n d i) gap ∙ walk_up n (i - j) i hi (omega arith) ∙ ground arith,
      )
  | inr ahead ↦
      let b = n - 1 - j in
      let total : suc (i + b) ≡ i + suc b = omega arith in
      let first : walk false n i i ≡ 0 = walk_up n i i hi (omega arith) ∙ omega arith in
      (
        i + b,
        ground arith,
        ap (λ d. walk false n d i) total
            ∙ walk-add false n i (suc b) i
            ∙ ap (λ k. walk false n (suc b) k) first
            ∙ walk_up n b (n - 1) (omega arith) (omega arith)
            ∙ omega arith,
      )
]

abbrev pub Lands : Menu → Option ℕ → Type 0
Lands m o = (k : ℕ) × (o ≡ some k) × (selectable m k ≡ true)

move_from-Lands :
    (down : Bool) (m : Menu) (steps d i : ℕ)
    → d < steps
    → selectable m (walk down (length m.items) (suc d) i) ≡ true
    → Lands m (move_from down m steps i)
unfolding move_from
move_from-Lands down m zero d i h there = absurd (omega arith)
move_from-Lands down m (suc steps) zero i h there =
    let j = next_place down (length m.items) i in rw there (j, refl, there)
move_from-Lands down m (suc steps) (suc d) i h there =
    let j = next_place down (length m.items) i in
    elim (Bool-cases (selectable m j)) [
      | inl here ↦ rw here (j, refl, here)
      | inr grey ↦ rw grey (move_from-Lands down m steps d j (omega arith) there)
    ]

get_elem?-lt : (is : List Item) (j : ℕ) (it : Item) → get_elem? is j ≡ some it → j < length is
get_elem?-lt [] j it h = cc
get_elem?-lt (x ∷ is) zero it h = omega arith
get_elem?-lt (x ∷ is) (suc j) it h = omega (arith, get_elem?-lt is j it h)

-- A highlight that is not beyond the menu.
abbrev pub IsWithin : Menu → Option ℕ → Type 0
IsWithin m none = Unit {0}
IsWithin m (some i) = i < length m.items

first_from_lands :
    (i j : ℕ) (is : List Item) (it : Item)
    → get_elem? is j ≡ some it
    → is_selectable it ≡ true
    → (k : ℕ) × (first_from i is ≡ some k)
first_from_lands i j [] it has can = cc
first_from_lands i zero (x ∷ is) it has can =
    let same : is_selectable x ≡ true = let e : x ≡ it = cc in ap is_selectable e ∙ can in
    (i, rw same refl)
first_from_lands i (suc j) (x ∷ is) it has can = elim (Bool-cases (is_selectable x)) [
  | inl here ↦ (i, rw here refl)
  | inr no_more ↦ rw no_more (first_from_lands (i + 1) j is it has can)
]

moved-Lands :
    (down : Bool) (mb : MenuBar) (m : Menu) (h : Option ℕ) (j : ℕ) (it : Item)
    → IsWithin m h
    → get_elem? m.items j ≡ some it
    → is_selectable it ≡ true
    → Lands m (moved down mb (some m) h).highlight
unfolding selectable first_selectable
moved-Lands down mb m none j it within has can =
    let (k, first) = first_from_lands 0 j m.items it has can in
    let picked = subst (IsSelected m) first (first_selectable-IsSelected m) in (k, first, picked)
moved-Lands down mb m (some i) j it within has can =
    let (d, close, arrives) =
      walk_round down (length m.items) i j within (get_elem?-lt m.items j it has) in
    let target : selectable m j ≡ true =
      subst (λ o. elim o [ none ↦ false | some it ↦ is_selectable it ] ≡ true) (sym has) can in
    move_from-Lands down m (length m.items) d i close (ap (λ k. selectable m k) arrives ∙ target)

-- In an open menu that has an item with a label that is enabled, the arrow keys highlight such an
-- item, if nothing is highlighted before, and from any highlight that is not beyond the menu.
pub ui_menubar_move-Lands :
    (down : Bool) (mb : MenuBar) (m : Menu) (j : ℕ) (it : Item)
    → open_menu mb ≡ some m
    → IsWithin m mb.highlight
    → get_elem? m.items j ≡ some it
    → is_selectable it ≡ true
    → Lands m (ui_menubar_move down mb).highlight
unfolding ui_menubar_move
ui_menubar_move-Lands down mb m j it at within has can =
    subst (λ o. Lands m (moved down mb o mb.highlight).highlight) (sym at)
      (moved-Lands down mb m mb.highlight j it within has can)
