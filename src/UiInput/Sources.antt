-- ===== src/UiInput/Sources.antt =====
-- ui/ui_input.c: the keyboards and the console together.
use frank_test.Prelude.{
  ℕ, zero, suc, ◌+◌, ◌^◌, bit_and, Bool, false, not, ◌&&◌, ◌||◌, Option, none, some, ◌==◌, ltb,
  if◌then◌else◌,
}
use frank_test.UiInput.{Answers, KeyReport, Keyboard, was_down, console_getkey, hid_getkey, key_alt}

-- What the sources have: a report of the USB keyboard, what `ui_ps2_getkey` answers if it is called,
-- and the console's characters.
pub record Sources : Type 0 where
  pub report : KeyReport
  pub ps2 : Option ℕ
  pub console : Answers

-- The PS/2 keyboard is asked only if USB has nothing, and the console only if neither has.
unfoldable pub ui_input_getkey : Sources → Keyboard → Option ℕ × Answers × Keyboard
ui_input_getkey src s =
    let usb = hid_getkey src.report s in
    let typed = console_getkey src.console in
    elim usb.0 [
      | some k ↦ (some k, src.console, usb.1)
      | none ↦ elim src.ps2 [
        | some k ↦ (some k, src.console, usb.1)
        | none ↦ (typed.0, typed.1, usb.1)
      ]
    ]

-- -1 is `none`.
abbrev pub as_char : Option ℕ → Option ℕ
as_char none = none
as_char (some k) =
    if not (bit_and k key_alt == 0) then none else if ltb 0xFF k then none else some k

unfoldable pub ui_input_getchar : Sources → Keyboard → Option ℕ × Answers × Keyboard
ui_input_getchar src s = let k = ui_input_getkey src s in (as_char k.0, k.1, k.2)

-- The loop over the modifiers' usages, from bit `i` on.
abbrev pub modifier_held : ℕ → ℕ → ℕ → ℕ → Bool
modifier_held zero i usage modifier = false
modifier_held (suc n) i usage modifier =
    (0xE0 + i == usage && not (bit_and modifier (2 ^ i) == 0))
    || modifier_held n (i + 1) usage modifier

-- `ps2_down` is what `ui_ps2_key_down` answers.
unfoldable pub ui_key_held : ℕ → ℕ → KeyReport → Bool → Bool
ui_key_held usage ps2 r ps2_down =
    (not (usage == 0) && (modifier_held 8 0 usage r.modifier || was_down r.keycodes usage))
    || (not (ps2 == 0) && ps2_down)
