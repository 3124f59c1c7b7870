-- ===== src/UiInput.antt =====
-- ui/ui_input.c, built with both a USB host and PS/2, as by default. What the console, the reports
-- and the drivers answer is an input. A key is a number, and UI_KEY_NONE is `none`.
pub mod Mouse
pub mod Sources
pub mod Terminal
pub mod Repeat
pub mod Screen
use frank_test.Prelude.{
  ℕ, zero, suc, ◌+◌, ◌-◌, ◌*◌, ◌^◌, bit_and, bit_or, Bool, true, false, not, ◌&&◌, ◌||◌, Option,
  none, some, List, [], ◌∷◌, ◌==◌, ltb, leb, if◌then◌else◌,
}
use frank_test.Prelude.Bytes.{u32}

abbrev pub key_up : ℕ
key_up = 0x100

abbrev pub key_down : ℕ
key_down = 0x101

abbrev pub key_left : ℕ
key_left = 0x102

abbrev pub key_right : ℕ
key_right = 0x103

abbrev pub key_enter : ℕ
key_enter = 0x104

abbrev pub key_esc : ℕ
key_esc = 0x105

abbrev pub key_tab : ℕ
key_tab = 0x106

abbrev pub key_home : ℕ
key_home = 0x107

abbrev pub key_end : ℕ
key_end = 0x108

abbrev pub key_pgup : ℕ
key_pgup = 0x109

abbrev pub key_pgdn : ℕ
key_pgdn = 0x10A

abbrev pub key_f1 : ℕ
key_f1 = 0x10B

abbrev pub key_alt : ℕ
key_alt = 0x200

-- The answers of `getchar_timeout_us`, one for each call; `none` is PICO_ERROR_TIMEOUT.
abbrev pub Answers : Type 0
Answers = List (Option ℕ)

abbrev pub later : Answers → Answers
later [] = []
later (c ∷ cs) = cs

unfoldable pub plain_key : ℕ → ℕ
plain_key c = if (c == 0x0D) || (c == 0x0A) then key_enter else if c == 0x09 then key_tab else c

-- ESC and a letter.
unfoldable pub alt_key : ℕ → ℕ
alt_key n =
    let upper = if leb 0x61 n && leb n 0x7A then n - 0x61 + 0x41 else n in
    if leb 0x41 upper && leb upper 0x5A then bit_or key_alt upper else key_esc

-- `case '1'`.
abbrev pub after_one : Answers → Option ℕ × Answers
after_one [] = (none, [])
after_one (none ∷ cs) = (none, cs)
after_one (some b ∷ cs) =
    if b == 0x31
    then (some key_f1, later cs)
    else if b == 0x7E
    then (some key_home, cs)
    else (none, cs)

-- After ESC and `[` or `O`.
unfoldable pub after_bracket : Answers → Option ℕ × Answers
after_bracket [] = (none, [])
after_bracket (none ∷ cs) = (none, cs)
after_bracket (some a ∷ cs) =
    if a == 0x41
    then (some key_up, cs)
    else if a == 0x42
    then (some key_down, cs)
    else if a == 0x43
    then (some key_right, cs)
    else if a == 0x44
    then (some key_left, cs)
    else if a == 0x48
    then (some key_home, cs)
    else if a == 0x46
    then (some key_end, cs)
    else if a == 0x50
    then (some key_f1, cs)
    else if a == 0x31
    then after_one cs
    else if a == 0x35
    then (some key_pgup, later cs)
    else if a == 0x36
    then (some key_pgdn, later cs)
    else (none, cs)

unfoldable pub after_escape : Answers → Option ℕ × Answers
after_escape [] = (some key_esc, [])
after_escape (none ∷ cs) = (some key_esc, cs)
after_escape (some n ∷ cs) =
    if (n == 0x5B) || (n == 0x4F) then after_bracket cs else (some (alt_key n), cs)

unfoldable pub console_getkey : Answers → Option ℕ × Answers
console_getkey [] = (none, [])
console_getkey (none ∷ cs) = (none, cs)
console_getkey (some c ∷ cs) = if not (c == 0x1B) then (some (plain_key c), cs) else after_escape cs

-- A report of the keyboard, and whether the repeat's time has come.
pub record KeyReport : Type 0 where
  pub keycodes : List ℕ
  pub modifier : ℕ
  pub due : Bool

-- The statics of the USB keyboard; `rep_after_ms` is what `s_rep_next` was last set to.
pub record Keyboard : Type 0 where
  pub prev_keys : List ℕ
  pub rep_kc : ℕ
  pub rep_key : Option ℕ
  pub rep_after_ms : ℕ
  pub events : ℕ
  pub last : ℕ

-- `was_down`, and the loop that looks for the repeated key.
abbrev pub was_down : List ℕ → ℕ → Bool
was_down [] kc = false
was_down (k ∷ ks) kc = (k == kc) || was_down ks kc

unfoldable pub repeatable : ℕ → Bool
repeatable k =
    (k == key_up)
    || (k == key_down)
    || (k == key_left)
    || (k == key_right)
    || (k == key_pgup)
    || (k == key_pgdn)

-- The letters, digits and the space of the `default` case.
unfoldable pub decode_plain : ℕ → ℕ → Option ℕ
decode_plain modifier kc =
    let letter = 0x41 + (kc - 0x04) in
    if leb 0x04 kc && leb kc 0x1D
    then if not (bit_and modifier 0x44 == 0)
      then some (bit_or key_alt letter)
      else some (if not (bit_and modifier 0x22 == 0) then letter else letter - 0x41 + 0x61)
    else if leb 0x1E kc && leb kc 0x27
    then some (if kc == 0x27 then 0x30 else 0x31 + (kc - 0x1E))
    else if kc == 0x2C
    then some 0x20
    else none

-- The `switch` of `hid_getkey`.
unfoldable pub decode : ℕ → ℕ → Option ℕ
decode modifier kc =
    if kc == 0x52
    then some key_up
    else if kc == 0x51
    then some key_down
    else if kc == 0x50
    then some key_left
    else if kc == 0x4F
    then some key_right
    else if kc == 0x28
    then some key_enter
    else if kc == 0x29
    then some key_esc
    else if kc == 0x2B
    then some key_tab
    else if kc == 0x4A
    then some key_home
    else if kc == 0x4D
    then some key_end
    else if kc == 0x4B
    then some key_pgup
    else if kc == 0x4E
    then some key_pgdn
    else if kc == 0x3A
    then some key_f1
    else decode_plain modifier kc

abbrev pub is_fresh : List ℕ → ℕ → Bool
is_fresh prev kc = not (kc == 0) && not (was_down prev kc)

-- `ui_kbd_note_usb` for each fresh key.
abbrev pub note_all : List ℕ → List ℕ → ℕ → ℕ → ℕ × ℕ
note_all prev [] events last = (events, last)
note_all prev (kc ∷ kcs) events last =
    if is_fresh prev kc
    then note_all prev kcs (u32 (events + 1)) kc
    else note_all prev kcs events last

-- The scan, which ends at the first fresh key that means something.
unfoldable pub scan_keys : List ℕ → ℕ → List ℕ → Option ℕ
scan_keys prev modifier [] = none
scan_keys prev modifier (kc ∷ kcs) =
    let others = scan_keys prev modifier kcs in
    if not (is_fresh prev kc)
    then others
    else elim (decode modifier kc) [ none ↦ others | some k ↦ some k ]

-- The first fresh key, or what was repeated before.
abbrev pub first_fresh : List ℕ → ℕ → List ℕ → ℕ
first_fresh prev before [] = before
first_fresh prev before (kc ∷ kcs) = if is_fresh prev kc then kc else first_fresh prev before kcs

-- Arming the repeat.
unfoldable pub arm_repeat : Option ℕ → KeyReport → Keyboard → Keyboard
arm_repeat none r s = s
arm_repeat (some k) r s =
    if repeatable k
    then record s {
      rep_kc = first_fresh s.prev_keys s.rep_kc r.keycodes;
      rep_key = some k;
      rep_after_ms = 420;
    }
    else s

unfoldable pub hid_getkey : KeyReport → Keyboard → Option ℕ × Keyboard
hid_getkey r s =
    let (events, last) = note_all s.prev_keys r.keycodes s.events s.last in
    let noted = record s { events = events; last = last } in
    let repeating = not (s.rep_kc == 0) in
    let still = was_down r.keycodes s.rep_kc in
    let settled =
      if repeating && not still then record noted { rep_kc = 0; rep_key = none } else noted in
    let out = scan_keys s.prev_keys r.modifier r.keycodes in
    if repeating && still && r.due
    then (s.rep_key, record noted { rep_after_ms = 55; prev_keys = r.keycodes })
    else (out, record (arm_repeat out r settled) { prev_keys = r.keycodes })
