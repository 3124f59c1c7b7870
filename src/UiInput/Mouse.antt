-- ===== src/UiInput/Mouse.antt =====
-- ui/ui_input.c: the pointer, which the PS/2 and the USB mouse share. An `int` is a ℤ; the sums stay
-- far from its ends. A coordinate is never negative between two calls, so it is a ℕ.
use frank_test.Prelude.{
  ℕ, zero, suc, ◌+◌, ◌-◌, ◌/◌, bit_and, Bool, true, false, not, ◌&&◌, ◌||◌, Option, none, some,
  ◌==◌, ltb, if◌then◌else◌,
}

pub data ℤ : Type 0 where
  pos negsuc : ℕ → ℤ

infixl 65 ◌+ℤ◌
-- The difference of two numbers.
abbrev minus : ℕ → ℕ → ℤ
minus a b = if ltb a b then negsuc (b - a - 1) else pos (a - b)

abbrev pub ◌+ℤ◌ : ℤ → ℤ → ℤ
pos a +ℤ pos b = pos (a + b)
pos a +ℤ negsuc b = minus a (suc b)
negsuc a +ℤ pos b = minus b (suc a)
negsuc a +ℤ negsuc b = negsuc (a + b + 1)

abbrev pub neg_ℤ : ℤ → ℤ
neg_ℤ (pos zero) = pos zero
neg_ℤ (pos (suc n)) = negsuc n
neg_ℤ (negsuc n) = pos (suc n)

abbrev pub is_zero : ℤ → Bool
is_zero (pos n) = n == 0
is_zero (negsuc n) = false

abbrev pub ui_screen_w : ℕ
ui_screen_w = 640

abbrev pub ui_screen_h : ℕ
ui_screen_h = 480

-- A report of a mouse.
pub record MouseReport : Type 0 where
  pub dx : ℤ
  pub dy : ℤ
  pub wheel : ℤ
  pub buttons : ℕ

-- `ui_pointer_t`, with `s_last_button`.
pub record Pointer : Type 0 where
  pub x : ℕ
  pub y : ℕ
  pub present : Bool
  pub button : Bool
  pub pressed : Bool
  pub released : Bool
  pub wheel : ℤ
  pub moved : Bool
  pub last_button : Bool

-- Where `ui_input_init` puts it.
abbrev pub centred : Pointer
centred = record {
  x = ui_screen_w / 2;
  y = ui_screen_h / 2;
  present = false;
  button = false;
  pressed = false;
  released = false;
  wheel = pos 0;
  moved = false;
  last_button = false;
}

-- The two tests of a coordinate, below the size `n`.
unfoldable pub clamp : ℕ → ℤ → ℕ
clamp n (negsuc k) = 0
clamp n (pos k) = if ltb k n then k else n - 1

unfoldable pub pointer_apply : MouseReport → Pointer → Pointer
unfolding clamp
pointer_apply m p =
    let x = clamp ui_screen_w (pos p.x +ℤ m.dx) in
    let y = clamp ui_screen_h (pos p.y +ℤ m.dy) in
    let shifted =
      if not (is_zero m.dx) || not (is_zero m.dy)
      then record p { x = x; y = y; moved = p.moved || not (x == p.x) || not (y == p.y) }
      else p in
    let down = not (bit_and m.buttons 1 == 0) in
    record shifted {
      pressed = p.pressed || (down && not p.last_button);
      released = p.released || (not down && p.last_button);
      last_button = down;
      button = down;
      wheel = p.wheel +ℤ m.wheel;
    }

-- The USB block of `ui_input_pointer`, for a mouse that is there.
unfoldable pub usb_apply : MouseReport → Pointer → Pointer
unfolding clamp
usb_apply m p =
    let x = clamp ui_screen_w (pos p.x +ℤ m.dx) in
    let y = clamp ui_screen_h (pos p.y +ℤ neg_ℤ m.dy) in
    let shifted =
      if not (is_zero m.dx) || not (is_zero m.dy)
      then record p { x = x; y = y; moved = not (x == p.x) || not (y == p.y) }
      else p in
    let now = not (bit_and m.buttons 1 == 0) in
    record shifted {
      present = true;
      wheel = p.wheel +ℤ m.wheel;
      pressed = now && not p.last_button;
      released = not now && p.last_button;
      button = now;
      last_button = now;
    }

-- What is there: a PS/2 mouse with or without a report, and a USB mouse.
pub record Mice : Type 0 where
  pub ps2 : Option (Option MouseReport)
  pub usb : Option MouseReport

unfoldable pub ps2_part : Option (Option MouseReport) → Pointer → Pointer
unfolding pointer_apply
ps2_part none p = p
ps2_part (some none) p = record p { present = true }
ps2_part (some (some m)) p = pointer_apply m (record p { present = true })

unfoldable pub usb_part : Option MouseReport → Pointer → Pointer
unfolding usb_apply
usb_part none p = p
usb_part (some m) p = usb_apply m p

unfoldable pub ui_input_pointer : Mice → Pointer → Pointer
unfolding ps2_part usb_part
ui_input_pointer mice p = usb_part mice.usb (
    ps2_part mice.ps2
      (record p { pressed = false; released = false; moved = false; wheel = pos 0 }))
