-- ===== src/VideoDetect/Pair.antt =====
-- core/video_detect.c, `video_test_pins`: what the test does to the two pads, as the SDK documents
-- the calls, and what its code means.
use frank_test.Prelude.{◌≡◌, List, [], ◌∷◌, Bool, true, false, not, ◌&&◌, ◌||◌, arith}
use frank_test.PinSig.{PadFunc, func_sio, func_null, func_of}
use frank_test.VideoDetect.{
  Call, Levels, stdio_flush, gpio_init, gpio_deinit, gpio_pull_up, gpio_pull_down,
  gpio_disable_pulls, gpio_get, gpio_dir, gpio_put, gpio_set_function, video_test_pins,
  test_drive_case, drive_and_watch,
}

pub data Pad : Type 0 where
  pad0 pad1 : Pad

pub record PadView : Type 0 where
  pub out : Bool
  pub pull_up : Bool
  pub pull_down : Bool
  pub func : PadFunc

pub record Pads : Type 0 where
  pub first : PadView
  pub second : PadView

abbrev pub changed : Pad → (PadView → PadView) → Pads → Pads
changed pad0 f v = record v { first = f v.first }
changed pad1 f v = record v { second = f v.second }

-- The documented effect of a call: only `gpio_pull_up`, `gpio_pull_down` and `gpio_disable_pulls`
-- touch the pulls.
abbrev pub after : Call Pad → Pads → Pads
after stdio_flush v = v
after (gpio_init p) v = changed p (λ w. record w { out = false; func = func_sio }) v
after (gpio_deinit p) v = changed p (λ w. record w { func = func_null }) v
after (gpio_pull_up p) v = changed p (λ w. record w { pull_up = true; pull_down = false }) v
after (gpio_pull_down p) v = changed p (λ w. record w { pull_up = false; pull_down = true }) v
after (gpio_disable_pulls p) v = changed p (λ w. record w { pull_up = false; pull_down = false }) v
after (gpio_get p) v = v
after (gpio_dir p b) v = changed p (λ w. record w { out = b }) v
after (gpio_put p b) v = v
after (gpio_set_function p f) v = changed p (λ w. record w { func = f }) v

abbrev pub is_sio : PadFunc → Bool
is_sio func_sio = true
is_sio func_null = false
is_sio (func_of n) = false

-- The chip drives a pad by its output bit only while the pad belongs to SIO.
abbrev pub drives : PadView → Bool
drives w = w.out && is_sio w.func

abbrev pub after_all : List (Call Pad) → Pads → Pads
after_all [] v = v
after_all (c ∷ cs) v = after_all cs (after c v)

-- At no call is the second pad driven.
abbrev pub one_driver : List (Call Pad) → Pads → Bool
one_driver [] v = not (drives v.second)
one_driver (c ∷ cs) v = not (drives v.second) && one_driver cs (after c v)

-- Whom a pad belongs to after the test.
abbrev pub owner : PadFunc → PadFunc
owner func_sio = func_null
owner func_null = func_null
owner (func_of n) = func_of n

-- Whatever the pads read, the two are never driven against each other: the second is not driven at
-- all. In the end neither is, and a peripheral that owned one has it back; but the first keeps its
-- pull-up, and the second a pull.
pub video_test_pins-restores :
    (f0 f1 : PadFunc) (l : Levels) (v : Pads)
    → drives v.second ≡ false
    → let calls = (video_test_pins pad0 pad1 false f0 f1 l).calls in
      let w = after_all calls v in
      (one_driver calls v ≡ true)
      × (drives w.first ≡ false)
      × (drives w.second ≡ false)
      × (w.first.func ≡ owner f0)
      × (w.second.func ≡ owner f1)
      × (w.first.pull_up ≡ true)
      × ((w.second.pull_up || w.second.pull_down) ≡ true)
unfolding video_test_pins test_drive_case drive_and_watch
video_test_pins-restores f0 f1 l v h = ground arith
