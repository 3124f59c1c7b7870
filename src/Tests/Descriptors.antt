-- ===== src/Tests/Descriptors.antt =====
-- Instances for the board table and the passive probe of a pad.
use frank_test.Prelude.{◌≡◌, refl, true, false, arith}
use frank_test.PinSig.{Reading, func_of, pinsig_classify}
use frank_test.PinSig.Pad.{PadView, after_all, stays_gentle, owner, pinsig_classify-restores}

abbrev pulled_up : Reading
pulled_up = record { with_pullup = true; recovered = true }

abbrev floating : Reading
floating = record { with_pullup = true; recovered = false }

abbrev uart_pad : PadView
uart_pad = record {
  driven = false;
  level = false;
  pull_up = true;
  pull_down = false;
  drive_ma = 4;
  func = func_of 2;
}

pinsig_classify-restores_example :
    let calls = (pinsig_classify 30 0 (func_of 2) pulled_up floating pulled_up).calls in
    let w = after_all calls uart_pad in
    (stays_gentle calls uart_pad ≡ true)
    × (w.driven ≡ false)
    × (w.pull_up ≡ false)
    × (w.pull_down ≡ false)
    × (w.func ≡ owner (func_of 2))
pinsig_classify-restores_example =
    pinsig_classify-restores 30 0 (func_of 2) pulled_up floating pulled_up uart_pad refl refl refl
      (omega arith)
