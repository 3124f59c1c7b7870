-- ===== src/UiInput/Screen.antt =====
-- ui/ui_input.c, `ui_input_pointer`: where the pointer can be, and what two mice do to its button.
use frank_test.Prelude.{
  ℕ, ◌<◌, ◌≡◌, refl, ◌∙◌, bit_and, true, false, not, ◌||◌, Option, none, some, List, [], ◌∷◌, ◌==◌,
  Bool-cases, inl, inr, arith,
}
use frank_test.UiInput.Mouse.{
  ℤ, pos, negsuc, ◌+ℤ◌, neg_ℤ, is_zero, MouseReport, Pointer, Mice, centred, clamp, pointer_apply,
  usb_apply, ps2_part, usb_part, ui_input_pointer, ui_screen_w, ui_screen_h,
}

clamp-lt : (n : ℕ) (k : ℤ) → 0 < n → clamp n k < n
unfolding clamp
clamp-lt n (negsuc k) h = h
clamp-lt n (pos k) h = ground arith

abbrev pub IsOnScreen : Pointer → Type 0
IsOnScreen p = (p.x < ui_screen_w) × (p.y < ui_screen_h)

pointer_apply-IsOnScreen :
    (m : MouseReport) (p : Pointer) → IsOnScreen p → IsOnScreen (pointer_apply m p)
unfolding pointer_apply
pointer_apply-IsOnScreen m p h = elim (Bool-cases (not (is_zero m.dx) || not (is_zero m.dy))) [
  | inl shifts ↦ rw shifts (
    clamp-lt ui_screen_w (pos p.x +ℤ m.dx) (omega arith),
    clamp-lt ui_screen_h (pos p.y +ℤ m.dy) (omega arith),
  )
  | inr rests ↦ rw rests h
]

usb_apply-IsOnScreen : (m : MouseReport) (p : Pointer) → IsOnScreen p → IsOnScreen (usb_apply m p)
unfolding usb_apply
usb_apply-IsOnScreen m p h = elim (Bool-cases (not (is_zero m.dx) || not (is_zero m.dy))) [
  | inl shifts ↦ rw shifts (
    clamp-lt ui_screen_w (pos p.x +ℤ m.dx) (omega arith),
    clamp-lt ui_screen_h (pos p.y +ℤ neg_ℤ m.dy) (omega arith),
  )
  | inr rests ↦ rw rests h
]

ps2_part-IsOnScreen :
    (r : Option (Option MouseReport)) (p : Pointer) → IsOnScreen p → IsOnScreen (ps2_part r p)
unfolding ps2_part
ps2_part-IsOnScreen none p h = h
ps2_part-IsOnScreen (some none) p h = h
ps2_part-IsOnScreen (some (some m)) p h = pointer_apply-IsOnScreen m (record p { present = true }) h

usb_part-IsOnScreen :
    (r : Option MouseReport) (p : Pointer) → IsOnScreen p → IsOnScreen (usb_part r p)
unfolding usb_part
usb_part-IsOnScreen none p h = h
usb_part-IsOnScreen (some m) p h = usb_apply-IsOnScreen m p h

abbrev pub poll_all : List Mice → Pointer → Pointer
poll_all [] p = p
poll_all (m ∷ ms) p = poll_all ms (ui_input_pointer m p)

poll_all-keeps : (ms : List Mice) (p : Pointer) → IsOnScreen p → IsOnScreen (poll_all ms p)
unfolding ui_input_pointer
poll_all-keeps [] p h = h
poll_all-keeps (m ∷ ms) p h =
    poll_all-keeps ms (ui_input_pointer m p)
      (usb_part-IsOnScreen m.usb _ (ps2_part-IsOnScreen m.ps2 _ h))

-- Whatever the mice report, in any number of polls, the pointer stays on the screen.
pub poll_all-IsOnScreen : (ms : List Mice) → IsOnScreen (poll_all ms centred)
poll_all-IsOnScreen ms = poll_all-keeps ms centred (omega arith, omega arith)

ps2_part-level :
    (m : MouseReport) (p : Pointer)
    → (ps2_part (some (some m)) p).last_button ≡ not (bit_and m.buttons 1 == 0)
unfolding ps2_part pointer_apply
ps2_part-level m p = refl

usb_apply-buttons :
    (m : MouseReport) (p : Pointer)
    → m.buttons ≡ 0
    → let q = usb_apply m p in
      (q.pressed ≡ false) × (q.button ≡ false) × (q.released ≡ p.last_button)
unfolding usb_apply
usb_apply-buttons m p h = rw h (refl, refl, refl)

-- With a USB mouse whose button is up, the button of a PS/2 mouse is never seen to go down or to be
-- down: a report of it held down is seen as a release.
pub ui_input_pointer-two_mice :
    (held idle : MouseReport) (p : Pointer)
    → bit_and held.buttons 1 ≡ 1
    → idle.buttons ≡ 0
    → let q = ui_input_pointer (record { ps2 = some (some held); usb = some idle }) p in
      (q.pressed ≡ false) × (q.button ≡ false) × (q.released ≡ true)
unfolding ui_input_pointer usb_part
ui_input_pointer-two_mice held idle p down up =
    let cleared = record p { pressed = false; released = false; moved = false; wheel = pos 0 } in
    let after_ps2 = ps2_part (some (some held)) cleared in
    let b = usb_apply-buttons idle after_ps2 up in
    let level = ps2_part-level held cleared in (b.0, b.1, b.2 ∙ level ∙ rw down refl)
