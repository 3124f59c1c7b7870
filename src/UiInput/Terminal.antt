-- ===== src/UiInput/Terminal.antt =====
-- ui/ui_input.c, `console_getkey`: what a terminal sends for a key is read as that key.
use frank_test.Prelude.{
  ℕ, ◌+◌, ◌<◌, ◌≡◌, ◌≢◌, refl, bit_or, none, some, List, [], ◌∷◌, ◌++◌, map, arith,
}
use frank_test.UiInput.{
  Answers, plain_key, alt_key, after_bracket, after_escape, console_getkey, key_up, key_down,
  key_left, key_right, key_enter, key_tab, key_esc, key_home, key_end, key_pgup, key_pgdn, key_f1,
  key_alt,
}

-- What is pressed on a terminal. The number of `alt_letter` counts from the letter a.
pub data Pressed : Type 0 where
  up down left right home end page_up page_down f1 vt_home vt_f1 enter new_line tab : Pressed
  char alt_letter : ℕ → Pressed

-- What xterm and the VT220 lineage send.
abbrev pub typed : Pressed → List ℕ
typed up = 0x1B ∷ 0x5B ∷ 0x41 ∷ []
typed down = 0x1B ∷ 0x5B ∷ 0x42 ∷ []
typed right = 0x1B ∷ 0x5B ∷ 0x43 ∷ []
typed left = 0x1B ∷ 0x5B ∷ 0x44 ∷ []
typed home = 0x1B ∷ 0x5B ∷ 0x48 ∷ []
typed end = 0x1B ∷ 0x5B ∷ 0x46 ∷ []
typed page_up = 0x1B ∷ 0x5B ∷ 0x35 ∷ 0x7E ∷ []
typed page_down = 0x1B ∷ 0x5B ∷ 0x36 ∷ 0x7E ∷ []
typed f1 = 0x1B ∷ 0x4F ∷ 0x50 ∷ []
typed vt_home = 0x1B ∷ 0x5B ∷ 0x31 ∷ 0x7E ∷ []
typed vt_f1 = 0x1B ∷ 0x5B ∷ 0x31 ∷ 0x31 ∷ 0x7E ∷ []
typed enter = 0x0D ∷ []
typed new_line = 0x0A ∷ []
typed tab = 0x09 ∷ []
typed (char c) = c ∷ []
typed (alt_letter n) = 0x1B ∷ (0x61 + n) ∷ []

abbrev pub meant : Pressed → ℕ
meant up = key_up
meant down = key_down
meant right = key_right
meant left = key_left
meant home = key_home
meant end = key_end
meant page_up = key_pgup
meant page_down = key_pgdn
meant f1 = key_f1
meant vt_home = key_home
meant vt_f1 = key_f1
meant enter = key_enter
meant new_line = key_enter
meant tab = key_tab
meant (char c) = c
meant (alt_letter n) = bit_or key_alt (0x41 + n)

-- The characters that are themselves, and the letters.
abbrev pub IsTyped : Pressed → Type 0
IsTyped (char c) = (c ≢ 0x1B) × (c ≢ 0x0D) × (c ≢ 0x0A) × (c ≢ 0x09)
IsTyped (alt_letter n) = n < 26
IsTyped p = Unit {0}

-- The sequences that a terminal sends for the arrows, Home, End, the page keys and F1 (ESC [ A to D,
-- H, F, 5 ~ and 6 ~, ESC O P, and the VT220's ESC [ 1 ~ and ESC [ 1 1 ~), and for Alt with a small
-- letter (ESC and the letter), are read as these keys if they arrive whole, and so are CR and LF as
-- Enter, a tab as Tab, and any other single byte but ESC as itself; in each case exactly these bytes
-- are taken, whatever follows. An ESC that nothing follows in time is the key ESC.
pub console_getkey-typed :
    (p : Pressed) (others : Answers)
    → IsTyped p
    → (console_getkey (map some (typed p) ++ others) ≡ (some (meant p), others))
      × (console_getkey (some 0x1B ∷ none ∷ others) ≡ (some key_esc, others))
unfolding console_getkey after_escape after_bracket plain_key alt_key
console_getkey-typed up others h = (refl, refl)
console_getkey-typed down others h = (refl, refl)
console_getkey-typed right others h = (refl, refl)
console_getkey-typed left others h = (refl, refl)
console_getkey-typed home others h = (refl, refl)
console_getkey-typed end others h = (refl, refl)
console_getkey-typed page_up others h = (refl, refl)
console_getkey-typed page_down others h = (refl, refl)
console_getkey-typed f1 others h = (refl, refl)
console_getkey-typed vt_home others h = (refl, refl)
console_getkey-typed vt_f1 others h = (refl, refl)
console_getkey-typed enter others h = (refl, refl)
console_getkey-typed new_line others h = (refl, refl)
console_getkey-typed tab others h = (refl, refl)
console_getkey-typed (char c) others h = (ground arith, refl)
console_getkey-typed (alt_letter n) others h = (ground arith, refl)
