-- ===== src/PinSig/Vote.antt =====
-- core/pinsig.c, `pinsig_classify`: the majority of the three attempts.
use frank_test.Prelude.{ℕ, ◌<◌, ◌≤◌, ◌≡◌, ◌≢◌, arith, if◌then◌else◌}
use frank_test.Board.{PinSig, float, high, low}
use frank_test.PinSig.{PadFunc, Reading, pinsig_classify}

-- What one attempt means: something pulls the pad down, something pulls it up, or nothing does.
abbrev pub meaning : Reading → PinSig
meaning r = if r.with_pullup then (if r.recovered then high else float) else low

-- On a pin of the package, two attempts that agree decide the outcome, and three that all differ
-- give `float`; a pin outside the package is `float`.
pinsig_classify-majority :
    (gpios pin : ℕ) (was : PadFunc) (r1 r2 r3 : Reading)
    → let s = (pinsig_classify gpios pin was r1 r2 r3).outcome in
      (pin < gpios → meaning r1 ≡ meaning r2 → s ≡ meaning r1)
      × (pin < gpios → meaning r1 ≡ meaning r3 → s ≡ meaning r1)
      × (pin < gpios → meaning r2 ≡ meaning r3 → s ≡ meaning r2)
      × (meaning r1 ≢ meaning r2 → meaning r1 ≢ meaning r3 → meaning r2 ≢ meaning r3 → s ≡ float)
      × (gpios ≤ pin → s ≡ float)
unfolding pinsig_classify
pinsig_classify-majority gpios pin was r1 r2 r3 = ground arith
