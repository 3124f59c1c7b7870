-- ===== src/VideoDetect.antt =====
-- core/video_detect.c: the two detectors of a display and the verdict. The SDK's calls are a list in
-- order, on pads by name; what `gpio_get` reads is an input, and the waits are left out.
pub mod Pair
pub mod Verdict
use frank_test.Prelude.{
  ℕ, zero, suc, ◌+◌, ◌*◌, ◌^◌, bit_or, Bool, true, false, not, ◌&&◌, ◌||◌, List, [], ◌∷◌, ◌++◌,
  Option, none, some, ◌==◌, if◌then◌else◌,
}
use frank_test.Prelude.Bytes.{u8}
use frank_test.Board.{Board}
use frank_test.Board.Caps.{any_cap, cap_video_any, cap_video_hdmi, cap_video_vga}
use frank_test.PinSig.{PadFunc, func_sio, func_null, func_of}
use frank_test.Request.{VideoMode, video_auto, video_hdmi, video_vga, video_none}

-- The calls for a pad; `gpio_dir` is GPIO_OUT where it has true.
pub data Call (P : Type 0) : Type 0 where
  stdio_flush : Call P
  gpio_init gpio_deinit gpio_pull_up gpio_pull_down gpio_disable_pulls gpio_get : P → Call P
  gpio_dir gpio_put : P → Bool → Call P
  gpio_set_function : P → PadFunc → Call P

-- What the six RGB pads read, from bit `i` on.
unfoldable pub rgb_mask : ℕ → List Bool → ℕ
rgb_mask i [] = 0
rgb_mask i (b ∷ bs) = bit_or (if b then u8 (2 ^ i) else 0) (rgb_mask (i + 1) bs)

-- The three loops of `rgb_pullup_read`, from a pad on and on the pads left.
abbrev pub as_inputs : ℕ → ℕ → List (Call ℕ)
as_inputs zero pin = []
as_inputs (suc n) pin =
    gpio_init pin ∷ gpio_dir pin false ∷ gpio_pull_up pin ∷ as_inputs n (pin + 1)

abbrev pub read_each : ℕ → ℕ → List (Call ℕ)
read_each zero pin = []
read_each (suc n) pin = gpio_get pin ∷ read_each n (pin + 1)

abbrev pub without_pulls : ℕ → ℕ → List (Call ℕ)
without_pulls zero pin = []
without_pulls (suc n) pin = gpio_disable_pulls pin ∷ without_pulls n (pin + 1)

unfoldable pub rgb_pullup_read : ℕ → List Bool → ℕ × List (Call ℕ)
unfolding rgb_mask
rgb_pullup_read base reads =
    (rgb_mask 0 reads, as_inputs 6 base ++ (read_each 6 base ++ without_pulls 6 base))

-- What the two pads of a pair read: with pull-downs, with pull-ups, and the second one while the
-- first is driven high and low.
pub record Levels : Type 0 where
  pub p0_pd : Bool
  pub p1_pd : Bool
  pub p0_pu : Bool
  pub p1_pu : Bool
  pub driven_high : Bool
  pub driven_low : Bool

pub record Probed (A P : Type 0) : Type 0 where
  pub value : A
  pub calls : List (Call P)

abbrev pub bit_of : Bool → ℕ
bit_of b = if b then 1 else 0

abbrev pub restore_pad : {P : Type 0} → P → PadFunc → List (Call P)
restore_pad pin func_sio = []
restore_pad pin func_null = []
restore_pad pin (func_of n) = gpio_set_function pin (func_of n) ∷ []

module _ {P : Type 0} (pin0 pin1 : P) where
  -- `level` is what `gpio_get` gives.
  unfoldable pub drive_and_watch : Bool → Bool → Probed Bool P
  drive_and_watch drive_high level = record {
    value = if drive_high then level else not level;
    calls =
        gpio_init pin0
        ∷ gpio_dir pin0 true
        ∷ gpio_put pin0 drive_high
        ∷ gpio_init pin1
        ∷ gpio_dir pin1 false
        ∷ (if drive_high then gpio_pull_down pin1 else gpio_pull_up pin1)
        ∷ gpio_get pin1
        ∷ gpio_deinit pin0
        ∷ gpio_deinit pin1
        ∷ [];
  }

  unfoldable pub test_drive_case : ℕ → Bool → Levels → Probed ℕ P
  unfolding drive_and_watch
  test_drive_case res drive_high l =
      let up = drive_and_watch true l.driven_high in
      let down = drive_and_watch false l.driven_low in
      if not up.value
      then record { value = res; calls = up.calls }
      else if not down.value
      then record { value = res; calls = up.calls ++ down.calls }
      else record {
        value = bit_or res (if drive_high then bit_or (2 ^ 5) 1 else 1);
        calls = up.calls ++ down.calls;
      }

  -- One half of the passive pass.
  abbrev pub read_both : (P → Call P) → List (Call P)
  read_both pull =
      gpio_init pin0
      ∷ gpio_dir pin0 false
      ∷ pull pin0
      ∷ gpio_init pin1
      ∷ gpio_dir pin1 false
      ∷ pull pin1
      ∷ gpio_get pin0
      ∷ gpio_get pin1
      ∷ gpio_deinit pin0
      ∷ gpio_deinit pin1
      ∷ []

  -- `led` is whether a pad is the LED's; `f0` and `f1` are the pads' functions before.
  unfoldable pub video_test_pins : Bool → PadFunc → PadFunc → Levels → Probed ℕ P
  unfolding test_drive_case
  video_test_pins led f0 f1 l =
      let passive =
        stdio_flush ∷ read_both (λ p. gpio_pull_down p) ++ read_both (λ p. gpio_pull_up p) in
      let res =
        bit_or
          (bit_or (bit_or (bit_of l.p0_pd * 2 ^ 4) (bit_of l.p0_pu * 2 ^ 3))
            (bit_of l.p1_pd * 2 ^ 2))
          (bit_of l.p1_pu * 2 ^ 1) in
      let undriven : Probed ℕ P = record { value = res; calls = [] } in
      let same_picture = bit_of l.p0_pd == bit_of l.p1_pd && bit_of l.p0_pu == bit_of l.p1_pu in
      let tested =
        if same_picture
        then if l.p0_pd && l.p0_pu
          then test_drive_case res false l
          else if not l.p0_pd && l.p0_pu
          then test_drive_case res true l
          else if not l.p0_pd && not l.p0_pu
          then test_drive_case res true l
          else undriven
        else if l.p0_pd && not l.p0_pu && l.p1_pd && not l.p1_pu
        then record { value = bit_or res (bit_or (2 ^ 5) 1); calls = [] }
        else undriven in
      if led then record { value = 0; calls = [] } else record {
        value = tested.value;
        calls = passive ++ (tested.calls ++ (restore_pad pin0 f0 ++ restore_pad pin1 f1));
      }

-- `video_detect_t`.
pub record VideoDetect : Type 0 where
  pub rgb_pullup_mask : ℕ
  pub vga_monitor : Bool
  pub clock_pair_code : ℕ
  pub vga_adapter : Bool
  pub ran_rgb : Bool
  pub ran_pair : Bool
  pub verdict : VideoMode
  pub any_sink : Bool

-- What `memset` leaves; VIDEO_AUTO is 0.
abbrev pub undetected : VideoDetect
undetected = record {
  rgb_pullup_mask = 0;
  vga_monitor = false;
  clock_pair_code = 0;
  vga_adapter = false;
  ran_rgb = false;
  ran_pair = false;
  verdict = video_auto;
  any_sink = false;
}

-- The three steps on a board with video outputs at `base`.
unfoldable pub detect_on :
    Board → ℕ → List Bool → Bool → PadFunc → PadFunc → Levels → VideoDetect × List (Call ℕ)
unfolding rgb_pullup_read video_test_pins
detect_on b base reads led f0 f1 l =
    let rgb = rgb_pullup_read base reads in
    let with_rgb =
      if any_cap b.caps cap_video_vga
      then record undetected { rgb_pullup_mask = rgb.0; vga_monitor = rgb.0 == 0; ran_rgb = true }
      else record undetected { rgb_pullup_mask = 0x3F } in
    let pair = video_test_pins base (base + 1) led f0 f1 l in
    let with_pair = record with_rgb {
      clock_pair_code = pair.value;
      ran_pair = true;
      vga_adapter = (pair.value == 0x00) || (pair.value == 0x1F);
    } in
    let hdmi = any_cap b.caps cap_video_hdmi in
    (
      record with_pair {
        verdict =
            if (with_pair.vga_monitor || with_pair.vga_adapter) && not hdmi
            then video_vga
            else if hdmi
            then video_hdmi
            else video_none;
        any_sink = false;
      },
      (if any_cap b.caps cap_video_vga then rgb.1 else []) ++ pair.calls,
    )

-- With no board, `none`.
unfoldable pub video_detect_run :
    Option Board → List Bool → Bool → PadFunc → PadFunc → Levels → VideoDetect × List (Call ℕ)
unfolding detect_on
video_detect_run none reads led f0 f1 l = (record undetected { verdict = video_none }, [])
video_detect_run (some b) reads led f0 f1 l = elim b.pins.video_base [
  | none ↦ (record undetected { verdict = video_none }, [])
  | some base ↦
      if not (any_cap b.caps cap_video_any)
      then (record undetected { verdict = video_none }, [])
      else detect_on b base reads led f0 f1 l
]
