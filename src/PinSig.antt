-- ===== src/PinSig.antt =====
-- core/pinsig.c: the passive classification of a pad, and the score of a board's signature. The SDK
-- is not modelled: the model logs its calls in order, and takes what `gpio_get` reads as inputs.
pub mod Vote
pub mod Pad
pub mod Scoring
use frank_test.Prelude.{
  ℕ, zero, suc, ◌+◌, List, [], ◌∷◌, ◌++◌, Bool, true, false, not, ◌&&◌, ◌||◌, ltb, ◌==◌,
  if◌then◌else◌, get_elem?, set, Option, none, some,
}
use frank_test.Board.{PinSig, SigEntry, Board, dontcare, float, high, low, pinsig_num}

-- What `gpio_get_function` answers: GPIO_FUNC_SIO, GPIO_FUNC_NULL, or a peripheral.
pub data PadFunc : Type 0 where
  func_sio : PadFunc
  func_null : PadFunc
  func_of : ℕ → PadFunc

-- The calls that `classify_once` and `pinsig_classify` make for one pin.
pub data Call : Type 0 where
  stdio_flush : Call
  gpio_init : Call
  gpio_dir : Bool → Call
  gpio_pull_up : Call
  gpio_pull_down : Call
  gpio_disable_pulls : Call
  gpio_drive_ma : ℕ → Call
  gpio_put : Bool → Call
  gpio_get : Call
  busy_wait_us : ℕ → Call
  gpio_set_function : PadFunc → Call

abbrev pub settle_us : ℕ
settle_us = 500

abbrev pub discharge_us : ℕ
discharge_us = 10

abbrev pub recharge_us : ℕ
recharge_us = 20

-- What the pad reads in the two phases of one attempt; the second is read only if the first is high.
pub record Reading : Type 0 where
  pub with_pullup : Bool
  pub recovered : Bool

pub record Attempt : Type 0 where
  pub outcome : PinSig
  pub calls : List Call

-- `gpio_dir true` is GPIO_OUT.
unfoldable pub classify_once : Reading → Attempt
classify_once r =
    let phase_a =
      gpio_init ∷ gpio_dir false ∷ gpio_pull_up ∷ busy_wait_us settle_us ∷ gpio_get ∷ [] in
    let phase_b =
      gpio_disable_pulls
      ∷ gpio_drive_ma 2
      ∷ gpio_dir true
      ∷ gpio_put false
      ∷ busy_wait_us discharge_us
      ∷ gpio_dir false
      ∷ busy_wait_us recharge_us
      ∷ gpio_get
      ∷ [] in
    if not r.with_pullup
    then record { outcome = low; calls = phase_a ++ (gpio_disable_pulls ∷ []) }
    else record { outcome = if r.recovered then high else float; calls = phase_a ++ phase_b }

-- `votes[s]++` and `votes[s]`.
abbrev pub votes_of : List ℕ → PinSig → ℕ
votes_of votes s = elim (get_elem? votes (pinsig_num s)) [ none ↦ 0 | some n ↦ n ]

abbrev pub vote : List ℕ → PinSig → List ℕ
vote votes s = set votes (pinsig_num s) (votes_of votes s + 1)

-- The last loop: a later outcome wins only with more votes.
unfoldable pub best_vote : List ℕ → List PinSig → PinSig → ℕ → PinSig
best_vote votes [] best best_n = best
best_vote votes (s ∷ ss) best best_n =
    let wins = ltb best_n (votes_of votes s) in
    best_vote votes ss (if wins then s else best) (if wins then votes_of votes s else best_n)

-- `if (was != GPIO_FUNC_SIO && was != GPIO_FUNC_NULL) gpio_set_function(pin, was)`.
abbrev pub give_back : PadFunc → List Call
give_back func_sio = []
give_back func_null = []
give_back (func_of n) = gpio_set_function (func_of n) ∷ []

-- The number of GPIOs of the build, NUM_BANK0_GPIOS, is `gpios`; `was` is the pad's function before.
-- SAMPLES is 3.
unfoldable pub pinsig_classify : ℕ → ℕ → PadFunc → Reading → Reading → Reading → Attempt
unfolding classify_once best_vote
pinsig_classify gpios pin was r1 r2 r3 =
    let a1 = classify_once r1 in
    let a2 = classify_once r2 in
    let a3 = classify_once r3 in
    let votes = vote (vote (vote (0 ∷ 0 ∷ 0 ∷ 0 ∷ []) a1.outcome) a2.outcome) a3.outcome in
    if not (ltb pin gpios) then record { outcome = float; calls = [] } else record {
      outcome = best_vote votes (float ∷ high ∷ low ∷ []) float 0;
      calls =
          (stdio_flush ∷ a1.calls)
          ++ (a2.calls
              ++ (a3.calls
                  ++ (gpio_drive_ma 4 ∷ gpio_dir false ∷ gpio_disable_pulls ∷ give_back was)));
    }

pub record Score : Type 0 where
  pub matched : ℕ
  pub bad : ℕ
  pub mismatches : List ℕ

-- `e->expect == PINSIG_DONTCARE`, or the reading is as expected.
abbrev pub agrees : (ℕ → PinSig) → SigEntry → Bool
agrees read e =
    (pinsig_num e.expect == pinsig_num dontcare) || (pinsig_num (read e.pin) == pinsig_num e.expect)

-- One turn of the loop of `pinsig_score`; `read` is what `pinsig_classify` answers.
unfoldable pub score_entry : (ℕ → PinSig) → ℕ → SigEntry → Score → Score
score_entry read max_mismatch e s =
    if agrees read e then record s { matched = s.matched + 1 } else record s {
      bad = s.bad + 1;
      mismatches = if ltb s.bad max_mismatch then s.mismatches ++ (e.pin ∷ []) else s.mismatches;
    }

-- The loop over the entries left.
unfoldable pub score_entries : (ℕ → PinSig) → ℕ → List SigEntry → Score → Score
score_entries read max_mismatch [] s = s
score_entries read max_mismatch (e ∷ es) s =
    score_entries read max_mismatch es (score_entry read max_mismatch e s)

unfoldable pub pinsig_score : (ℕ → PinSig) → ℕ → Board → Score
unfolding score_entries score_entry
pinsig_score read max_mismatch d =
    score_entries read max_mismatch d.sig (record { matched = 0; bad = 0; mismatches = [] })
