-- ===== src/VideoDetect/Verdict.antt =====
-- core/video_detect.c, `video_test_pins` and `video_detect_run`: what the code of the pair and the
-- verdict mean.
use frank_test.Prelude.{
  ℕ, ◌+◌, ◌*◌, ◌≡◌, refl, [], ◌∷◌, Bool, true, false, not, ◌&&◌, ◌||◌, ◌==◌, some, Bool-cases, inl,
  inr, if◌then◌else◌, arith,
}
use frank_test.Board.{Board}
use frank_test.Board.Caps.{any_cap, cap_video_any, cap_video_hdmi, cap_video_vga}
use frank_test.PinSig.{PadFunc}
use frank_test.Request.{video_hdmi, video_vga, video_none}
use frank_test.VideoDetect.{
  Levels, bit_of, video_test_pins, test_drive_case, drive_and_watch, rgb_pullup_read, rgb_mask,
  detect_on, video_detect_run,
}

-- The second pad follows the first both ways.
abbrev pub follows : Levels → Bool
follows l = l.driven_high && not l.driven_low

abbrev pub same : Bool → Bool → Bool
same a b = if a then b else not b

-- Both pads read the same, neither low with a pull-up and high with a pull-down, and one follows
-- the other.
abbrev pub connected : Levels → Bool
connected l =
    same l.p0_pd l.p1_pd && same l.p0_pu l.p1_pu && not (l.p0_pd && not l.p0_pu) && follows l

abbrev pub pair_code : Levels → ℕ
pair_code l =
    bit_of l.p0_pd * 16
    + bit_of l.p0_pu * 8
    + bit_of l.p1_pd * 4
    + bit_of l.p1_pu * 2
    + (if connected l then if l.p0_pd then 1 else 33 else 0)

-- The code has what the two pads read in bits 1 to 4. Bit 0 is set if both read the same, neither
-- low with a pull-up and high with a pull-down, and one follows the other both ways, and then bit 5
-- too unless both are high whatever the pull; a pair that reads low with a pull-up and high with a
-- pull-down on both pads is never called connected.
pub video_test_pins-code :
    {P : Type 0} (pin0 pin1 : P) (f0 f1 : PadFunc) (l : Levels)
    → (video_test_pins pin0 pin1 false f0 f1 l).value ≡ pair_code l
unfolding video_test_pins test_drive_case drive_and_watch
video_test_pins-code pin0 pin1 f0 f1 l = ground arith

-- What counts as an adapter: both pads low whatever the pull and unconnected, or both high and
-- connected.
abbrev pub shows_adapter : Levels → Bool
shows_adapter l =
    (not l.p0_pd && not l.p0_pu && not l.p1_pd && not l.p1_pu && not (follows l))
    || (l.p0_pd && l.p0_pu && l.p1_pd && l.p1_pu && follows l)

adapter_code : (l : Levels) → ((pair_code l == 0x00) || (pair_code l == 0x1F)) ≡ shows_adapter l
adapter_code l = ground arith

rgb_mask-zero :
    (a b c d e f : Bool)
    → (rgb_mask 0 (a ∷ b ∷ c ∷ d ∷ e ∷ f ∷ []) == 0) ≡ not (a || b || c || d || e || f)
unfolding rgb_mask
rgb_mask-zero a b c d e f = ground arith

hdmi_first :
    (seen hdmi : Bool)
    → (if seen && not hdmi then video_vga else if hdmi then video_hdmi else video_none)
      ≡ (if hdmi then video_hdmi else if seen then video_vga else video_none)
hdmi_first true true = refl
hdmi_first true false = refl
hdmi_first false true = refl
hdmi_first false false = refl

-- On a board with video outputs the verdict is HDMI if there is an HDMI socket, whatever is
-- measured; else it is VGA if the six RGB pads of a VGA socket all read low, or if the pair looks
-- like an adapter, and none otherwise. No sink is ever confirmed.
pub video_detect_run_lem :
    (board : Board) (base : ℕ) (a b c d e f : Bool) (f0 f1 : PadFunc) (l : Levels)
    → board.pins.video_base ≡ some base
    → any_cap board.caps cap_video_any ≡ true
    → let reads = a ∷ b ∷ c ∷ d ∷ e ∷ f ∷ [] in
      let out = (video_detect_run (some board) reads false f0 f1 l).0 in
      let loaded = any_cap board.caps cap_video_vga && not (a || b || c || d || e || f) in
      (out.vga_monitor ≡ loaded)
      × (out.vga_adapter ≡ shows_adapter l)
      × (out.any_sink ≡ false)
      × (out.verdict ≡ (
          if any_cap board.caps cap_video_hdmi
          then video_hdmi
          else if loaded || shows_adapter l
          then video_vga
          else video_none))
unfolding video_detect_run detect_on rgb_pullup_read
video_detect_run_lem board base a b c d e f f0 f1 l at any =
    let code = video_test_pins-code base (base + 1) f0 f1 l in
    let adapter = adapter_code l in
    let mask = rgb_mask-zero a b c d e f in
    elim (Bool-cases (any_cap board.caps cap_video_vga)) [
      | inl vga ↦
          rw (at, any, code, adapter, vga, mask)
            (refl, refl, refl, hdmi_first _ (any_cap board.caps cap_video_hdmi))
      | inr other ↦
          rw (at, any, code, adapter, other)
            (refl, refl, refl, hdmi_first _ (any_cap board.caps cap_video_hdmi))
    ]
