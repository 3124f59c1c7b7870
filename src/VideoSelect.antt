-- ===== src/VideoSelect.antt =====
-- core/video_select.c and core/video_mode.h: the boot window and the choice of a video mode. What
-- the key sources answer, turn by turn until the time is up, is an input; the console's prints are
-- left out.
pub mod Window
pub mod Choices
pub mod Pending
use Prim.Native.String.{String}
use frank_test.Prelude.{
  ℕ, zero, suc, Bool, true, false, not, ◌&&◌, ◌||◌, List, [], ◌∷◌, ◌++◌, Option, none, some, ◌==◌,
  ltb, if◌then◌else◌, length,
}
use frank_test.Board.{Board}
use frank_test.Board.Caps.{
  any_cap, cap_video_any, cap_video_hdmi, cap_video_vga, cap_video_composite,
}
use frank_test.Request.{
  VideoMode, video_auto, video_hdmi, video_vga, video_composite, video_none, mode_num, Scratch,
  video_request_take, video_request_set,
}

-- The characters 'h', 'H', 'v', 'V', 'c' and 'C'; all else is automatic.
unfoldable pub frank_video_mode_from_key : ℕ → VideoMode
frank_video_mode_from_key c =
    if (c == 0x68) || (c == 0x48)
    then video_hdmi
    else if (c == 0x76) || (c == 0x56)
    then video_vga
    else if (c == 0x63) || (c == 0x43)
    then video_composite
    else video_auto

abbrev pub is_auto_key : ℕ → Bool
is_auto_key c = (c == 0x61) || (c == 0x41)

abbrev pub is_keep_key : ℕ → Bool
is_keep_key c = (c == 0x75) || (c == 0x55)

-- The keys that close the window.
unfoldable pub is_choice : ℕ → Bool
is_choice c =
    (c == 0x68)
    || (c == 0x48)
    || (c == 0x76)
    || (c == 0x56)
    || (c == 0x63)
    || (c == 0x43)
    || is_auto_key c

-- An entry of `g_sources`; its function may be NULL.
pub record KeySource : Type 0 where
  pub has_fn : Bool
  pub name : String

abbrev pub max_sources : ℕ
max_sources = 4

-- The globals of the file, and the scratch registers.
pub record Selector : Type 0 where
  pub sources : List KeySource
  pub console_is_real : Bool
  pub console_registered : Bool
  pub keep_console : Bool
  pub scratch : Scratch

unfoldable pub video_select_no_console : Selector → Selector
video_select_no_console s = record s { console_is_real = false }

unfoldable pub video_select_add_source : KeySource → Selector → Selector
video_select_add_source k s =
    if ltb (length s.sources) max_sources then record s { sources = s.sources ++ (k ∷ []) } else s

unfoldable pub register_console : Selector → Selector
register_console s =
    if not s.console_registered && s.console_is_real
    then record (video_select_add_source (record { has_fn = true; name = "console" }) s) {
      console_registered = true;
    }
    else s

-- `video_choice_source_t` and `video_choice_t`.
pub data ChoiceSource : Type 0 where
  choice_boot_key choice_sticky choice_compiled choice_auto choice_default : ChoiceSource

pub record Choice : Type 0 where
  pub mode : VideoMode
  pub source : ChoiceSource
  pub key_source_name : Option String

unfoldable pub mode_supported : Board → VideoMode → Bool
mode_supported b video_hdmi = any_cap b.caps cap_video_hdmi
mode_supported b video_vga = any_cap b.caps cap_video_vga
mode_supported b video_composite = any_cap b.caps cap_video_composite
mode_supported b video_auto = true
mode_supported b video_none = true

-- `key` with `from`, and `g_keep_console`.
pub record Poll : Type 0 where
  pub key : Option (ℕ × String)
  pub keep : Bool

-- One character of a source.
unfoldable pub hear : String → ℕ → Poll → Poll
hear name c p =
    if is_keep_key c
    then record p { keep = true }
    else if is_choice c
    then record p { key = some (c, name) }
    else p

-- The body of the inner loop: a NULL function or an answer below zero, `none`, is passed over.
abbrev pub poll_source : KeySource → Option ℕ → Poll → Poll
poll_source k none p = p
poll_source k (some c) p = if k.has_fn then hear k.name c p else p

abbrev pub key_open : Poll → Bool
key_open p = elim p.key [ none ↦ true | some k ↦ false ]

-- The inner loop, over the sources left and what they would answer.
unfoldable pub poll_sources : List KeySource → List (Option ℕ) → Poll → Poll
poll_sources [] answers p = p
poll_sources (k ∷ ks) [] p = p
poll_sources (k ∷ ks) (a ∷ answers) p =
    let rest = poll_sources ks answers (poll_source k a p) in if key_open p then rest else p

-- The outer loop, over the turns until the deadline.
unfoldable pub poll_window : List KeySource → List (List (Option ℕ)) → Poll → Poll
poll_window ks [] p = p
poll_window ks (turn ∷ turns) p =
    let q = poll_sources ks turn p in
    let rest = poll_window ks turns q in if key_open q then rest else q

abbrev pub chosen : VideoMode → ChoiceSource → Option String → Choice
chosen m s from = record { mode = m; source = s; key_source_name = from }

-- The five steps; `none` falls through to the next.
abbrev pub by_key : Board → Option (ℕ × String) → Option Choice
by_key b none = none
by_key b (some k) =
    let m = frank_video_mode_from_key k.0 in
    if is_auto_key k.0
    then none
    else if mode_supported b m
    then some (chosen m choice_boot_key (some k.1))
    else none

unfoldable pub by_request : Board → VideoMode → ChoiceSource → Option Choice
by_request b req s =
    if not (mode_num req == mode_num video_auto) && mode_supported b req
    then some (chosen req s none)
    else none

-- FRANK_VIDEO_COMPILED[0], if the macro is defined.
abbrev pub by_compiled : Board → Option ℕ → Option Choice
by_compiled b none = none
by_compiled b (some c) = by_request b (frank_video_mode_from_key c) choice_compiled

abbrev pub by_detected : Board → Option VideoMode → Option Choice
by_detected b none = none
by_detected b (some m) =
    if not (mode_num m == mode_num video_none) && mode_supported b m
    then some (chosen m choice_auto none)
    else none

unfoldable pub by_default : Board → Choice
by_default b =
    chosen (if any_cap b.caps cap_video_hdmi then video_hdmi else video_none) choice_default none

abbrev pub or_else : Option Choice → Choice → Choice
or_else none c = c
or_else (some d) c = d

-- The steps from the request on.
unfoldable pub after_keys : Board → VideoMode → Option ℕ → Option VideoMode → Choice
after_keys b req compiled detected =
    or_else (by_request b req choice_sticky)
      (or_else (by_compiled b compiled) (or_else (by_detected b detected) (by_default b)))

abbrev pub settle_choice :
    Option Choice → Board → Option ℕ → Option VideoMode → Selector → Choice × Selector
settle_choice (some c) b compiled detected s = (c, s)
settle_choice none b compiled detected s =
    let (req, left) = video_request_take s.scratch in
    (after_keys b req compiled detected, record s { scratch = left })

-- A board with video: the window, and then the steps.
unfoldable pub select_on :
    Board → Option VideoMode → Option ℕ → List (List (Option ℕ)) → Selector → Choice × Selector
select_on b detected compiled turns s =
    let p = poll_window s.sources turns (record { key = none; keep = s.keep_console }) in
    settle_choice (by_key b p.key) b compiled detected (record s { keep_console = p.keep })

abbrev pub no_video : Choice
no_video = chosen video_none choice_default none

abbrev pub select_for :
    Option Board
    → Option VideoMode
    → Option ℕ
    → List (List (Option ℕ))
    → Selector
    → Choice × Selector
select_for none detected compiled turns s = (no_video, s)
select_for (some b) detected compiled turns s =
    if any_cap b.caps cap_video_any then select_on b detected compiled turns s else (no_video, s)

unfoldable pub video_select_boot_window :
    Option Board
    → Option VideoMode
    → Option ℕ
    → List (List (Option ℕ))
    → Selector
    → Choice × Selector
video_select_boot_window board detected compiled turns s =
    select_for board detected compiled turns (register_console s)

-- The result is always that the caller should reboot.
unfoldable pub video_select_set : VideoMode → Bool → Selector → Bool × Selector
video_select_set mode persist s =
    (true, if persist then record s { scratch = video_request_set mode s.scratch } else s)
