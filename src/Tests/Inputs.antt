-- ===== src/Tests/Inputs.antt =====
-- Instances for the input: a terminal, a USB keyboard whose keys are held, and two mice.
use frank_test.Prelude.{◌≡◌, ◌⊎◌, refl, true, false, none, some, [], ◌∷◌, ◌++◌, map}
use frank_test.UiInput.{KeyReport, Answers, key_esc, console_getkey, hid_getkey}
use frank_test.UiInput.Mouse.{pos, negsuc, MouseReport, centred, ui_input_pointer}
use frank_test.UiInput.Screen.{IsOnScreen, poll_all, poll_all-IsOnScreen, ui_input_pointer-two_mice}
use frank_test.UiInput.Terminal.{page_down, typed, meant, console_getkey-typed}
use frank_test.UiInput.Repeat.{unpressed, type_all, is_worth, hid_getkey-held}

abbrev waiting : Answers
waiting = some 0x71 ∷ none ∷ []

console_getkey-typed_example :
    (console_getkey (map some (typed page_down) ++ waiting) ≡ (some (meant page_down), waiting))
    × (console_getkey (some 0x1B ∷ none ∷ waiting) ≡ (some key_esc, waiting))
console_getkey-typed_example = console_getkey-typed page_down waiting tt

-- The down arrow.
abbrev arrow : KeyReport
arrow = record { keycodes = 0x51 ∷ 0 ∷ 0 ∷ 0 ∷ 0 ∷ 0 ∷ []; modifier = 0; due = true }

arrow_kept : arrow.keycodes ≡ (type_all (arrow ∷ []) unpressed).prev_keys
unfolding hid_getkey
arrow_kept = refl

hid_getkey-held_example :
    let s = type_all (arrow ∷ []) unpressed in
    let out = (hid_getkey arrow s).0 in
    (out ≡ none) ⊎ ((out ≡ s.rep_key) × (arrow.due ≡ true) × (is_worth s.rep_key ≡ true))
hid_getkey-held_example = hid_getkey-held (arrow ∷ []) arrow arrow_kept

abbrev dragged : MouseReport
dragged = record { dx = pos 400; dy = negsuc 9; wheel = pos 0; buttons = 1 }

abbrev at_rest : MouseReport
at_rest = record { dx = pos 0; dy = pos 0; wheel = pos 0; buttons = 0 }

poll_all-IsOnScreen_example :
    IsOnScreen (poll_all (record { ps2 = some (some dragged); usb = none } ∷ []) centred)
poll_all-IsOnScreen_example =
    poll_all-IsOnScreen (record { ps2 = some (some dragged); usb = none } ∷ [])

ui_input_pointer-two_mice_example :
    let q = ui_input_pointer (record { ps2 = some (some dragged); usb = some at_rest }) centred in
    (q.pressed ≡ false) × (q.button ≡ false) × (q.released ≡ true)
ui_input_pointer-two_mice_example = ui_input_pointer-two_mice dragged at_rest centred refl refl
