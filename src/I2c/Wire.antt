-- ===== src/I2c/Wire.antt =====
-- core/i2c_bb.c: what a receiver on the two lines makes of the calls, as the I2C bus defines it.
use frank_test.Prelude.{
  ◌≡◌, refl, sym, ap, ◌∙◌, Bool, true, false, not, ◌&&◌, ◌||◌, Option, none, some, List, [], ◌∷◌,
  ◌++◌, if◌then◌else◌,
}
use frank_test.I2c.{
  sda, scl, Call, gpio_init, gpio_put, gpio_set_dir, gpio_pull_up, gpio_disable_pulls, gpio_get,
}
use mathlib.Core.List.{append_assoc}

-- The two pads of the master: `out` is the direction, `high` the output value. A line that is not
-- driven is high, by its pull-up. `pending` is the level at the last rise of the clock, as long as
-- the data line has not moved since.
pub record Watch : Type 0 where
  pub sda_out : Bool
  pub sda_high : Bool
  pub scl_out : Bool
  pub scl_high : Bool
  pub pending : Option Bool

-- What a receiver hears; a driven high, which open-drain lines forbid, and a read that the master
-- itself spoils are symbols of their own.
pub data Symbol : Type 0 where
  start stop sample clash misread : Symbol
  bit : Bool → Symbol

abbrev pub sda_level : Watch → Bool
sda_level w = not w.sda_out || w.sda_high

abbrev pub scl_level : Watch → Bool
scl_level w = not w.scl_out || w.scl_high

-- The effect of a call on the pads.
abbrev pub act : Call → Watch → Watch
act (gpio_init sda) w = record w { sda_out = false; sda_high = false }
act (gpio_init scl) w = record w { scl_out = false; scl_high = false }
act (gpio_put sda b) w = record w { sda_high = b }
act (gpio_put scl b) w = record w { scl_high = b }
act (gpio_set_dir sda b) w = record w { sda_out = b }
act (gpio_set_dir scl b) w = record w { scl_out = b }
act (gpio_pull_up l) w = w
act (gpio_disable_pulls l) w = w
act (gpio_get l) w = w

-- From the levels before and after a call: the clock's edges, and the data line's while it is high.
abbrev pub edge : Bool → Bool → Bool → Bool → Option Bool → List Symbol × Option Bool
edge data_before true true true pending = if data_before then ([], pending) else (stop ∷ [], none)
edge data_before true false true pending = if data_before then (start ∷ [], none) else ([], pending)
edge data_before false data_after true pending = ([], some data_after)
edge data_before true data_after false none = ([], none)
edge data_before true data_after false (some b) = (bit b ∷ [], none)
edge data_before false data_after false pending = ([], pending)

abbrev pub read_symbols : Call → Watch → List Symbol
read_symbols (gpio_get sda) w = (if scl_level w && not w.sda_out then sample else misread) ∷ []
read_symbols c w = []

abbrev pub clash_symbols : Watch → List Symbol
clash_symbols w = if (w.sda_out && w.sda_high) || (w.scl_out && w.scl_high) then clash ∷ [] else []

abbrev pub hear_call : Call → Watch → List Symbol × Watch
hear_call c w =
    let w' = act c w in
    let heard = edge (sda_level w) (scl_level w) (sda_level w') (scl_level w') w.pending in
    (clash_symbols w' ++ read_symbols c w ++ heard.0, record w' { pending = heard.1 })

abbrev pub heard : Watch → List Call → List Symbol
heard w [] = []
heard w (c ∷ cs) = (hear_call c w).0 ++ heard (hear_call c w).1 cs

abbrev pub after : Watch → List Call → Watch
after w [] = w
after w (c ∷ cs) = after (hear_call c w).1 cs

-- The calls are heard as these symbols, and leave the lines so.
pub record Hears (w : Watch) (calls : List Call) (symbols : List Symbol) (w' : Watch) : Type 0 where
  pub as_symbols : heard w calls ≡ symbols
  pub then_at : after w calls ≡ w'

after-append : (w : Watch) (xs ys : List Call) → after w (xs ++ ys) ≡ after (after w xs) ys
after-append w [] ys = refl
after-append w (x ∷ xs) ys = after-append (hear_call x w).1 xs ys

heard-append :
    (w : Watch) (xs ys : List Call) → heard w (xs ++ ys) ≡ heard w xs ++ heard (after w xs) ys
heard-append w [] ys = refl
heard-append w (x ∷ xs) ys =
    ap (λ t. (hear_call x w).0 ++ t) (heard-append (hear_call x w).1 xs ys)
    ∙ sym (append_assoc (hear_call x w).0 (heard (hear_call x w).1 xs) _)

pub Hears-append :
    {u v w : Watch} {xs ys : List Call} {ss ts : List Symbol}
    → Hears u xs ss v
    → Hears v ys ts w
    → Hears u (xs ++ ys) (ss ++ ts) w
Hears-append {u} {v} {w} {xs} {ys} h k = record {
  as_symbols = heard-append u xs ys ∙ rw (h.as_symbols, h.then_at, k.as_symbols) refl;
  then_at = after-append u xs ys ∙ rw (h.then_at, k.then_at) refl;
}
