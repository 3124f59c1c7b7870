-- ===== src/Tests/Requests.antt =====
-- Instances for the requests across a reboot and the choice of a video mode.
use frank_test.Prelude.{
  ℕ, ◌≡◌, ◌≢◌, refl, ◌⊎◌, ◌||◌, List, [], ◌∷◌, true, false, Option, none, some,
}
use frank_test.Board.{Board}
use frank_test.Board.Caps.{any_cap, cap_video_any}
use frank_test.Board.Single.{desc_minifrank}
use frank_test.Request.{
  video_auto, video_hdmi, video_vga, video_none, Scratch, OcRequest, video_request_take,
}
use frank_test.VideoSelect.{
  KeySource, Selector, choice_boot_key, choice_sticky, chosen, is_choice, frank_video_mode_from_key,
  mode_supported, by_key, poll_window, register_console, video_select_boot_window,
}
use frank_test.VideoSelect.Window.{heard_all, first_choice, keep_before, poll_window_lem}
use frank_test.VideoSelect.Choices.{Drives, boot_window-Drives}
use frank_test.VideoSelect.Pending.{closing_key, boot_window-key, boot_window-request}

abbrev cold : Scratch
cold = record { oc_a = 17; oc_b = 4; req = 99 }

abbrev overclock : OcRequest
overclock = record { cpu_mhz = 378; vreg_sel = 15; psram_mhz = 133; flash_mhz = 88 }

-- A console and a keyboard; the console sends a line feed and then U, the keyboard holds V.
abbrev console : KeySource
console = record { has_fn = true; name = "console" }

abbrev keyboard : KeySource
keyboard = record { has_fn = true; name = "PS/2" }

abbrev held : List (List (Option ℕ))
held = (some 10 ∷ none ∷ []) ∷ (some 0x75 ∷ some 0x76 ∷ []) ∷ []

poll_window_lem_example :
    let p = poll_window (console ∷ keyboard ∷ []) held (record { key = none; keep = false }) in
    (p.key ≡ first_choice (heard_all (console ∷ keyboard ∷ []) held))
    × (p.keep ≡ (keep_before (heard_all (console ∷ keyboard ∷ []) held) || false))
poll_window_lem_example = poll_window_lem (console ∷ keyboard ∷ []) held false

abbrev wants_hdmi : Scratch
wants_hdmi = record { oc_a = 0; oc_b = 0; req = 1447297025 }

abbrev booted : Selector
booted = record {
  sources = console ∷ keyboard ∷ [];
  console_is_real = true;
  console_registered = true;
  keep_console = false;
  scratch = wants_hdmi;
}

boot_window-Drives_example :
    let c = (video_select_boot_window (some desc_minifrank) (some video_hdmi) none held booted).0 in
    (c.mode ≡ video_none) ⊎ ((b : Board) × (some desc_minifrank ≡ some b) × Drives b c.mode)
boot_window-Drives_example =
    boot_window-Drives (some desc_minifrank) (some video_hdmi) none held booted (λ e. cc)

holds_v : closing_key booted held ≡ some (0x76, "PS/2")
unfolding register_console is_choice
holds_v = refl

minifrank_video : any_cap desc_minifrank.caps cap_video_any ≡ true
unfolding desc_minifrank
minifrank_video = refl

minifrank_vga : mode_supported desc_minifrank (frank_video_mode_from_key 0x76) ≡ true
unfolding desc_minifrank mode_supported frank_video_mode_from_key
minifrank_vga = refl

boot_window-key_example :
    let out = video_select_boot_window (some desc_minifrank) (some video_hdmi) none held booted in
    (out.0 ≡ chosen (frank_video_mode_from_key 0x76) choice_boot_key (some "PS/2"))
    × (out.1.scratch ≡ wants_hdmi)
boot_window-key_example =
    boot_window-key desc_minifrank (some video_hdmi) none held booted minifrank_video (0x76, "PS/2")
      holds_v refl minifrank_vga

abbrev nothing_held : List (List (Option ℕ))
nothing_held = (none ∷ none ∷ []) ∷ []

holds_none : by_key desc_minifrank (closing_key booted nothing_held) ≡ none
unfolding register_console
holds_none = refl

boot_window-request_example :
    let out =
      video_select_boot_window (some desc_minifrank) (some video_vga) none nothing_held booted in
    let req = (video_request_take wants_hdmi).0 in
    (req ≢ video_auto
      → mode_supported desc_minifrank req ≡ true
      → out.0 ≡ chosen req choice_sticky none)
    × ((video_request_take out.1.scratch).0 ≡ video_auto)
boot_window-request_example =
    boot_window-request desc_minifrank (some video_vga) none nothing_held booted minifrank_video
      holds_none
