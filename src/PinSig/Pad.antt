-- ===== src/PinSig/Pad.antt =====
-- core/pinsig.c, `pinsig_classify`: what the probe does to the pad, as the SDK documents the calls.
use frank_test.Prelude.{ℕ, ◌<◌, ◌≡◌, List, [], ◌∷◌, Bool, true, false, not, ◌&&◌, ◌||◌, ◌==◌, arith}
use frank_test.PinSig.{
  Call, PadFunc, Reading, stdio_flush, gpio_init, gpio_dir, gpio_pull_up, gpio_pull_down,
  gpio_disable_pulls, gpio_drive_ma, gpio_put, gpio_get, busy_wait_us, gpio_set_function, func_sio,
  func_null, func_of, pinsig_classify,
}

pub record PadView : Type 0 where
  pub driven : Bool
  pub level : Bool
  pub pull_up : Bool
  pub pull_down : Bool
  pub drive_ma : ℕ
  pub func : PadFunc

-- The documented effect of a call on the pad.
abbrev pub after : Call → PadView → PadView
after stdio_flush v = v
after gpio_init v = record v { driven = false; level = false; func = func_sio }
after (gpio_dir out) v = record v { driven = out }
after gpio_pull_up v = record v { pull_up = true; pull_down = false }
after gpio_pull_down v = record v { pull_up = false; pull_down = true }
after gpio_disable_pulls v = record v { pull_up = false; pull_down = false }
after (gpio_drive_ma n) v = record v { drive_ma = n }
after (gpio_put high) v = record v { level = high }
after gpio_get v = v
after (busy_wait_us n) v = v
after (gpio_set_function f) v = record v { func = f }

abbrev pub is_gentle : PadView → Bool
is_gentle v = not v.pull_down && (not v.driven || (not v.level && not v.pull_up && v.drive_ma == 2))

-- The pad stays gentle through every call.
abbrev pub stays_gentle : List Call → PadView → Bool
stays_gentle [] v = is_gentle v
stays_gentle (c ∷ cs) v = is_gentle v && stays_gentle cs (after c v)

abbrev pub after_all : List Call → PadView → PadView
after_all [] v = v
after_all (c ∷ cs) v = after_all cs (after c v)

-- Whom the pad belongs to after the probe: a peripheral keeps it, and else SIO has it.
abbrev pub owner : PadFunc → PadFunc
owner func_sio = func_sio
owner func_null = func_sio
owner (func_of n) = func_of n

-- Whatever the pad reads, a probe that starts on a gentle pad keeps it gentle at every call, and
-- leaves it an input with no pull, with the peripheral that owned it, if one did, in charge.
pub pinsig_classify-restores :
    (gpios pin : ℕ) (was : PadFunc) (r1 r2 r3 : Reading) (v : PadView)
    → v.func ≡ was
    → v.driven ≡ false
    → v.pull_down ≡ false
    → pin < gpios
    → let calls = (pinsig_classify gpios pin was r1 r2 r3).calls in
      let w = after_all calls v in
      (stays_gentle calls v ≡ true)
      × (w.driven ≡ false)
      × (w.pull_up ≡ false)
      × (w.pull_down ≡ false)
      × (w.func ≡ owner was)
unfolding pinsig_classify
pinsig_classify-restores gpios pin was r1 r2 r3 v hf hd hp h = ground arith
