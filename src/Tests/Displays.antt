-- ===== src/Tests/Displays.antt =====
-- Instances for the video detection: a pair bridged by an adapter, on MiniFRANK.
use frank_test.Prelude.{◌≡◌, refl, ◌&&◌, ◌||◌, not, [], ◌∷◌, true, false, some, if◌then◌else◌}
use frank_test.Board.Caps.{any_cap, cap_video_any, cap_video_hdmi, cap_video_vga}
use frank_test.Board.Single.{desc_minifrank}
use frank_test.PinSig.{func_sio, func_of}
use frank_test.Request.{video_hdmi, video_vga, video_none}
use frank_test.VideoDetect.{Levels, video_test_pins, video_detect_run}
use frank_test.VideoDetect.Pair.{
  Pads, pad0, pad1, after_all, one_driver, drives, owner, video_test_pins-restores,
}
use frank_test.VideoDetect.Verdict.{
  pair_code, shows_adapter, video_test_pins-code, video_detect_run_lem,
}

-- Both pads read high, and the second follows the first.
abbrev bridged : Levels
bridged = record {
  p0_pd = true;
  p1_pd = true;
  p0_pu = true;
  p1_pu = true;
  driven_high = true;
  driven_low = false;
}

abbrev console_pads : Pads
console_pads = record {
  first = record { out = false; pull_up = false; pull_down = false; func = func_of 2 };
  second = record { out = false; pull_up = true; pull_down = false; func = func_of 2 };
}

video_test_pins-restores_example :
    let calls = (video_test_pins pad0 pad1 false (func_of 2) func_sio bridged).calls in
    let w = after_all calls console_pads in
    (one_driver calls console_pads ≡ true)
    × (drives w.first ≡ false)
    × (drives w.second ≡ false)
    × (w.first.func ≡ owner (func_of 2))
    × (w.second.func ≡ owner func_sio)
    × (w.first.pull_up ≡ true)
    × ((w.second.pull_up || w.second.pull_down) ≡ true)
video_test_pins-restores_example =
    video_test_pins-restores (func_of 2) func_sio bridged console_pads refl

video_test_pins-code_example :
    (video_test_pins pad0 pad1 false func_sio func_sio bridged).value ≡ pair_code bridged
video_test_pins-code_example = video_test_pins-code pad0 pad1 func_sio func_sio bridged

minifrank_base : desc_minifrank.pins.video_base ≡ some 12
unfolding desc_minifrank
minifrank_base = refl

minifrank_outputs : any_cap desc_minifrank.caps cap_video_any ≡ true
unfolding desc_minifrank
minifrank_outputs = refl

video_detect_run_lem_example :
    let reads = false ∷ false ∷ true ∷ false ∷ false ∷ false ∷ [] in
    let out = (video_detect_run (some desc_minifrank) reads false func_sio func_sio bridged).0 in
    let loaded =
      any_cap desc_minifrank.caps cap_video_vga
      && not (false || false || true || false || false || false) in
    (out.vga_monitor ≡ loaded)
    × (out.vga_adapter ≡ shows_adapter bridged)
    × (out.any_sink ≡ false)
    × (out.verdict ≡ (
        if any_cap desc_minifrank.caps cap_video_hdmi
        then video_hdmi
        else if loaded || shows_adapter bridged
        then video_vga
        else video_none))
video_detect_run_lem_example =
    video_detect_run_lem desc_minifrank 12 false false true false false false func_sio func_sio
      bridged minifrank_base minifrank_outputs
