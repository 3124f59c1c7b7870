-- ===== src/VideoSelect/Pending.antt =====
-- core/video_select.c, core/video_request.c: the request that the last boot left.
use Prim.Native.String.{String}
use frank_test.Prelude.{
  ℕ, ◌≡◌, ◌≢◌, refl, ap, ◌∙◌, true, false, not, List, Option, none, some, ◌==◌, arith,
}
use frank_test.Board.{Board}
use frank_test.Board.Caps.{any_cap, cap_video_any}
use frank_test.Request.{VideoMode, video_auto, mode_num, video_request_take}
use frank_test.VideoSelect.{
  Selector, choice_boot_key, choice_sticky, chosen, is_auto_key, frank_video_mode_from_key,
  mode_supported, poll_window, register_console, video_select_add_source, by_key, by_request,
  after_keys, select_on, video_select_boot_window,
}
use frank_test.Request.Once.{video_request_of_zero}
use frank_test.VideoSelect.Window.{heard_all, first_choice, poll_window_lem}

register_console-scratch : (s : Selector) → (register_console s).scratch ≡ s.scratch
unfolding register_console video_select_add_source
register_console-scratch s = ground arith

by_request_taken :
    (b : Board) (req : VideoMode)
    → req ≢ video_auto
    → mode_supported b req ≡ true
    → by_request b req choice_sticky ≡ some (chosen req choice_sticky none)
unfolding by_request
by_request_taken b req h wired =
    let named : not (mode_num req == mode_num video_auto) ≡ true = ground arith in
    rw (named, wired) refl

after_keys_requested :
    (b : Board) (req : VideoMode) (compiled : Option ℕ) (detected : Option VideoMode)
    → req ≢ video_auto
    → mode_supported b req ≡ true
    → after_keys b req compiled detected ≡ chosen req choice_sticky none
unfolding after_keys
after_keys_requested b req compiled detected h wired = rw (by_request_taken b req h wired) refl

-- The window of a board with video, by the key that closed it.
abbrev pub closing_key : Selector → List (List (Option ℕ)) → Option (ℕ × String)
closing_key s turns = first_choice (heard_all (register_console s).sources turns)

module _ (b : Board) (detected : Option VideoMode) (compiled : Option ℕ)
    (turns : List (List (Option ℕ))) (s : Selector)
    (video : any_cap b.caps cap_video_any ≡ true) where
  -- A key for a mode that the board has an output for decides, and the request that the last boot
  -- left stays pending: the registers are as before, for a later boot to take.
  pub boot_window-key :
      (k : ℕ × String)
      → closing_key s turns ≡ some k
      → is_auto_key k.0 ≡ false
      → mode_supported b (frank_video_mode_from_key k.0) ≡ true
      → let out = video_select_boot_window (some b) detected compiled turns s in
        (out.0 ≡ chosen (frank_video_mode_from_key k.0) choice_boot_key (some k.1))
        × (out.1.scratch ≡ s.scratch)
  unfolding video_select_boot_window select_on
  boot_window-key k closed mode_key wired =
      let t = register_console s in
      let p = poll_window t.sources turns (record { key = none; keep = t.keep_console }) in
      let key : p.key ≡ some k = (poll_window_lem t.sources turns t.keep_console).0 ∙ closed in
      rw (video, key, mode_key, wired) (refl, register_console-scratch s)

  -- Where no key decides, and A is such a key, the request is taken: a pending one for a mode that
  -- the board has an output for is what is chosen, before anything that was detected, and it is gone
  -- afterwards.
  pub boot_window-request :
      by_key b (closing_key s turns) ≡ none
      → let out = video_select_boot_window (some b) detected compiled turns s in
        let req = (video_request_take s.scratch).0 in
        (req ≢ video_auto → mode_supported b req ≡ true → out.0 ≡ chosen req choice_sticky none)
        × ((video_request_take out.1.scratch).0 ≡ video_auto)
  unfolding video_select_boot_window select_on video_request_take
  boot_window-request nothing =
      let t = register_console s in
      let p = poll_window t.sources turns (record { key = none; keep = t.keep_console }) in
      let open_still : by_key b p.key ≡ none =
        ap (by_key b) (poll_window_lem t.sources turns t.keep_console).0 ∙ nothing in
      rw (video, open_still, register_console-scratch s)
        (
          λ named wired.
              after_keys_requested b (video_request_take s.scratch).0 compiled detected named wired,
          video_request_of_zero,
        )
