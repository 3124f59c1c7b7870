-- ===== src/VideoSelect/Choices.antt =====
-- core/video_select.c: the mode that the boot window settles on.
use Prim.Native.String.{String}
use frank_test.Prelude.{
  ℕ, ◌≡◌, ◌≢◌, refl, sym, ap, ◌∙◌, ◌⊎◌, inl, inr, Bool, true, false, not, ◌&&◌, List, [], ◌∷◌,
  Option, none, some, ◌==◌, if◌then◌else◌, arith, Bool-cases, Option-cases,
}
use frank_test.Board.{Board}
use frank_test.Board.Caps.{any_cap, cap_video_any, cap_video_hdmi}
use frank_test.Request.{VideoMode, video_auto, video_none, mode_num, video_request_take}
use frank_test.VideoSelect.{
  Selector, Choice, ChoiceSource, choice_boot_key, choice_sticky, choice_compiled, choice_auto,
  chosen, is_choice, is_auto_key, frank_video_mode_from_key, mode_supported, poll_window,
  register_console, by_key, by_request, by_compiled, by_detected, by_default, or_else, after_keys,
  settle_choice, select_on, video_select_boot_window,
}
use frank_test.VideoSelect.Window.{heard_all, first_choice, poll_window_lem}

-- The board has an output for the mode.
abbrev pub Drives : Board → VideoMode → Type 0
Drives b m = (mode_supported b m ≡ true) × (m ≢ video_auto)

if_some : (t : Bool) (d c : Choice) → (if t then some d else none) ≡ some c → (t ≡ true) × (d ≡ c)
if_some t d c h = ground arith

both_hold : (a b : Bool) → (a && b) ≡ true → (a ≡ true) × (b ≡ true)
both_hold a b h = ground arith

not_auto : (m : VideoMode) → not (mode_num m == mode_num video_auto) ≡ true → m ≢ video_auto
not_auto m h e = ground arith

by_request-Drives :
    (b : Board) (req : VideoMode) (s : ChoiceSource) (c : Choice)
    → by_request b req s ≡ some c
    → Drives b c.mode
unfolding by_request
by_request-Drives b req s c h =
    let asked = not (mode_num req == mode_num video_auto) in
    let (t, same) = if_some (asked && mode_supported b req) (chosen req s none) c h in
    let (named, wired) = both_hold asked (mode_supported b req) t in
    rw (sym same) (wired, not_auto req named)

key_not_auto :
    (c : ℕ) → is_choice c ≡ true → is_auto_key c ≡ false → frank_video_mode_from_key c ≢ video_auto
unfolding is_choice frank_video_mode_from_key
key_not_auto c h g e = ground arith

by_key-Drives :
    (b : Board) (k : ℕ × String) (c : Choice)
    → is_choice k.0 ≡ true
    → by_key b (some k) ≡ some c
    → Drives b c.mode
by_key-Drives b k c choice h = elim (Bool-cases (is_auto_key k.0)) [
  | inl auto_key ↦ let nothing = rw auto_key at h in cc
  | inr mode_key ↦
      let m = frank_video_mode_from_key k.0 in
      let (wired, same) =
        if_some (mode_supported b m) (chosen m choice_boot_key (some k.1)) c (rw mode_key at h) in
      rw (sym same) (wired, key_not_auto k.0 choice mode_key)
]

by_detected-Drives :
    (b : Board) (m : VideoMode) (c : Choice)
    → m ≢ video_auto
    → by_detected b (some m) ≡ some c
    → Drives b c.mode
by_detected-Drives b m c h g =
    let found = not (mode_num m == mode_num video_none) in
    let (t, same) = if_some (found && mode_supported b m) (chosen m choice_auto none) c g in
    let (some_mode, wired) = both_hold found (mode_supported b m) t in rw (sym same) (wired, h)

by_default-Drives : (b : Board) → ((by_default b).mode ≡ video_none) ⊎ Drives b (by_default b).mode
unfolding by_default mode_supported
by_default-Drives b = elim (Bool-cases (any_cap b.caps cap_video_hdmi)) [
  | inl wired ↦ inr (rw wired (wired, λ e. cc))
  | inr unwired ↦ inl (rw unwired refl)
]

first_choice-is_choice :
    (es : List (ℕ × String)) (k : ℕ × String) → first_choice es ≡ some k → is_choice k.0 ≡ true
first_choice-is_choice [] k h = cc
first_choice-is_choice (e ∷ es) k h = elim (Bool-cases (is_choice e.0)) [
  | inl choice ↦
      let same = rw choice at h in let eq : e ≡ k = cc in ap (λ x. is_choice x.0) (sym eq) ∙ choice
  | inr other ↦ first_choice-is_choice es k (rw other at h)
]

-- Where a chain of steps ends.
or_else-Drives :
    (b : Board) (o : Option Choice) (d : Choice)
    → ((c : Choice) → o ≡ some c → Drives b c.mode)
    → (d.mode ≡ video_none) ⊎ Drives b d.mode
    → ((or_else o d).mode ≡ video_none) ⊎ Drives b (or_else o d).mode
or_else-Drives b none d h g = g
or_else-Drives b (some c) d h g = inr (h c refl)

by_compiled-Drives :
    (b : Board) (compiled : Option ℕ) (c : Choice)
    → by_compiled b compiled ≡ some c
    → Drives b c.mode
by_compiled-Drives b none c h = cc
by_compiled-Drives b (some k) c h =
    by_request-Drives b (frank_video_mode_from_key k) choice_compiled c h

detected-Drives :
    (b : Board) (detected : Option VideoMode)
    → detected ≢ some video_auto
    → (c : Choice) → by_detected b detected ≡ some c
    → Drives b c.mode
detected-Drives b none h c e = cc
detected-Drives b (some m) h c e = by_detected-Drives b m c (λ same. h (ap some same)) e

after_keys-Drives :
    (b : Board) (req : VideoMode) (compiled : Option ℕ) (detected : Option VideoMode)
    → detected ≢ some video_auto
    → let c = after_keys b req compiled detected in (c.mode ≡ video_none) ⊎ Drives b c.mode
unfolding after_keys
after_keys-Drives b req compiled detected h =
    let found = or_else (by_detected b detected) (by_default b) in
    let built = or_else (by_compiled b compiled) found in
    or_else-Drives b (by_request b req choice_sticky) built
      (λ c e. by_request-Drives b req choice_sticky c e)
      (or_else-Drives b (by_compiled b compiled) found (by_compiled-Drives b compiled) (
        or_else-Drives b (by_detected b detected) (by_default b) (detected-Drives b detected h)
          (by_default-Drives b)))

key-Drives :
    (b : Board) (key : Option (ℕ × String)) (c : Choice)
    → ((k : ℕ × String) → key ≡ some k → is_choice k.0 ≡ true)
    → by_key b key ≡ some c
    → Drives b c.mode
key-Drives b none c closes e = cc
key-Drives b (some k) c closes e = by_key-Drives b k c (closes k refl) e

settled-Drives :
    (b : Board) (key : Option (ℕ × String)) (compiled : Option ℕ) (detected : Option VideoMode)
    (s : Selector)
    → detected ≢ some video_auto
    → ((k : ℕ × String) → key ≡ some k → is_choice k.0 ≡ true)
    → let c = (settle_choice (by_key b key) b compiled detected s).0 in
      (c.mode ≡ video_none) ⊎ Drives b c.mode
settled-Drives b key compiled detected s h closes = elim (Option-cases (by_key b key)) [
  | inl open_still ↦
      rw open_still (after_keys-Drives b (video_request_take s.scratch).0 compiled detected h)
  | inr (c, e) ↦ rw e (inr (key-Drives b key c closes e))
]

select_on-Drives :
    (b : Board) (detected : Option VideoMode) (compiled : Option ℕ) (turns : List (List (Option ℕ)))
    (s : Selector)
    → detected ≢ some video_auto
    → let c = (select_on b detected compiled turns s).0 in (c.mode ≡ video_none) ⊎ Drives b c.mode
unfolding select_on
select_on-Drives b detected compiled turns s h =
    let p = poll_window s.sources turns (record { key = none; keep = s.keep_console }) in
    let (key, keep) = poll_window_lem s.sources turns s.keep_console in
    settled-Drives b p.key compiled detected (record s { keep_console = p.keep }) h
      (λ k e. first_choice-is_choice (heard_all s.sources turns) k (sym key ∙ e))

-- The mode that the boot window settles on is none, or one that the board has an output for, and
-- never the automatic one, provided that the detector does not answer with that.
pub boot_window-Drives :
    (board : Option Board) (detected : Option VideoMode) (compiled : Option ℕ)
    (turns : List (List (Option ℕ))) (s : Selector)
    → detected ≢ some video_auto
    → let c = (video_select_boot_window board detected compiled turns s).0 in
      (c.mode ≡ video_none) ⊎ ((b : Board) × (board ≡ some b) × Drives b c.mode)
unfolding video_select_boot_window
boot_window-Drives none detected compiled turns s h = inl refl
boot_window-Drives (some b) detected compiled turns s h =
    elim (Bool-cases (any_cap b.caps cap_video_any)) [
      | inl video ↦
          rw video (elim (select_on-Drives b detected compiled turns (register_console s) h) [
            | inl dark ↦ inl dark
            | inr drives ↦ inr (b, refl, drives)
          ])
      | inr bare ↦ inl (rw bare refl)
    ]
