-- ===== src/Registry/Sequence.antt =====
-- core/registry.c, `registry_run_one`: what running a test changes.
use frank_test.Prelude.{
  ℕ, zero, suc, ◌+◌, ◌≤◌, ◌<◌, ◌≡◌, ◌≢◌, refl, sym, ap, ◌∙◌, inl, inr, true, false, List, [], ◌∷◌,
  Option, none, some, ◌==◌, ltb, length, get_elem?, set, take, arith, Bool-cases, length-take,
  length-set, get_elem?-set_self, get_elem?-set_ne,
}
use frank_test.Detect.{Result}
use frank_test.Registry.{
  Test, Row, Results, TestState, state_num, test_na, registry_tally, tally_rows, tally_one, run_row,
  run_gated, registry_run_one,
}
use frank_test.Registry.Gate.{registry_tally-rows}

-- The sum of the five counters.
abbrev pub total : Results → ℕ
total r = r.passed + r.failed + r.na + r.norun + r.pending

tally_one-total : (s : TestState) (r : Results) → total (tally_one s r) ≡ total r + 1
unfolding tally_one
tally_one-total s r = ground arith

tally_rows-total : (ws : List Row) (r : Results) → total (tally_rows ws r) ≡ total r + length ws
unfolding tally_rows
tally_rows-total [] r = omega arith
tally_rows-total (w ∷ ws) r =
    omega (arith, tally_rows-total ws (tally_one w.state r), tally_one-total w.state r)

pub registry_tally-total :
    (r : Results) → r.count ≤ length r.rows → total (registry_tally r) ≡ r.count
unfolding registry_tally
registry_tally-total r h = omega (
  arith,
  tally_rows-total (take r.count r.rows)
      (record r { passed = 0; failed = 0; na = 0; norun = 0; pending = 0 }),
  length-take r.count r.rows,
)

pub get_elem?-lt {ℓ} :
    {A : Type ℓ} (xs : List A) (i : ℕ) (a : A) → get_elem? xs i ≡ some a → i < length xs
get_elem?-lt [] i a h = cc
get_elem?-lt (x ∷ xs) zero a h = omega arith
get_elem?-lt (x ∷ xs) (suc i) a h = omega (arith, get_elem?-lt xs i a h)

-- The table and the rows have the same length, and every row is counted once.
pub record IsFilled (all_tests : List Test) (r : Results) : Type 0 where
  pub listed : r.count ≡ length all_tests
  pub row_each : length r.rows ≡ r.count
  pub counted : total r ≡ r.count

-- A write to one row of a filled table, followed by a count, leaves it filled.
tally_set-IsFilled :
    (all_tests : List Test) (r : Results) (i : ℕ) (w : Row)
    → IsFilled all_tests r
    → IsFilled all_tests (registry_tally (record r { rows = set r.rows i w }))
tally_set-IsFilled all_tests r i w f =
    let s = record r { rows = set r.rows i w } in
    let (rows_same, count_same) = registry_tally-rows s in
    let len : length s.rows ≡ s.count = length-set r.rows i w ∙ f.row_each in
    record {
      listed = count_same ∙ f.listed;
      row_each = ap length rows_same ∙ len ∙ sym count_same;
      counted = registry_tally-total s (omega arith) ∙ sym count_same;
    }

run_gated-IsFilled :
    (all_tests : List Test) (i : ℕ) (d : Result) (r : Results) (t : Option Test) (w : Option Row)
    → IsFilled all_tests r
    → IsFilled all_tests (run_gated i d r t w)
run_gated-IsFilled all_tests i d r none w f = f
run_gated-IsFilled all_tests i d r (some t) none f = f
run_gated-IsFilled all_tests i d r (some t) (some w) f =
    elim (Bool-cases (state_num w.state == state_num test_na)) [
      | inl gated ↦ rw gated f
      | inr runs ↦ rw runs (tally_set-IsFilled all_tests r i (run_row t d w) f)
    ]

pub registry_run_one-IsFilled :
    (all_tests : List Test) (r : Results) (i : ℕ) (d : Result)
    → IsFilled all_tests r
    → IsFilled all_tests (registry_run_one all_tests r i d)
unfolding registry_run_one
registry_run_one-IsFilled all_tests r i d f = elim (Bool-cases (ltb i r.count)) [
  | inl listed ↦
      rw listed (run_gated-IsFilled all_tests i d r (get_elem? all_tests i) (get_elem? r.rows i) f)
  | inr off ↦ rw off f
]

-- Rows other than the one that is run keep what they hold.
run_gated-others :
    (i j : ℕ) (d : Result) (r : Results) (t : Option Test) (w : Option Row)
    → i ≢ j
    → get_elem? (run_gated i d r t w).rows j ≡ get_elem? r.rows j
run_gated-others i j d r none w h = refl
run_gated-others i j d r (some t) none h = refl
run_gated-others i j d r (some t) (some w) h =
    elim (Bool-cases (state_num w.state == state_num test_na)) [
      | inl gated ↦ rw gated refl
      | inr runs ↦
          let s = record r { rows = set r.rows i (run_row t d w) } in
          rw (runs, (registry_tally-rows s).0) (get_elem?-set_ne r.rows i j (run_row t d w) h)
    ]

run_gated_self :
    (i : ℕ) (d : Result) (r : Results) (t : Test) (w : Row)
    → i < length r.rows
    → (state_num w.state == state_num test_na) ≡ false
    → get_elem? (run_gated i d r (some t) (some w)).rows i ≡ some (run_row t d w)
run_gated_self i d r t w h runs =
    let s = record r { rows = set r.rows i (run_row t d w) } in
    rw (runs, (registry_tally-rows s).0) (get_elem?-set_self r.rows i (run_row t d w) h)

pub is_na_of : (s : TestState) → s ≡ test_na → (state_num s == state_num test_na) ≡ true
is_na_of s h = ground arith

pub not_na : (s : TestState) → s ≢ test_na → (state_num s == state_num test_na) ≡ false
not_na s h = ground arith

-- Running the test of one row: the row gets the verdict and the text of its test, unless the board
-- lacks the hardware, when nothing changes; the other rows keep what they hold; and the counters
-- still add up to the rows.
pub registry_run_one_lem :
    (all_tests : List Test) (r : Results) (i : ℕ) (d : Result) (t : Test) (w : Row)
    → IsFilled all_tests r
    → get_elem? all_tests i ≡ some t
    → get_elem? r.rows i ≡ some w
    → let out = registry_run_one all_tests r i d in
      (w.state ≢ test_na → get_elem? out.rows i ≡ some (run_row t d w))
      × (w.state ≡ test_na → out ≡ r)
      × ((j : ℕ) → i ≢ j → get_elem? out.rows j ≡ get_elem? r.rows j)
      × IsFilled all_tests out
unfolding registry_run_one
registry_run_one_lem all_tests r i d t w f at_t at_w =
    let inside = get_elem?-lt r.rows i w at_w in
    let listed : ltb i r.count ≡ true = let e = f.row_each in ground arith in
    (
      λ runs. rw (listed, at_t, at_w) (run_gated_self i d r t w inside (not_na w.state runs)),
      λ gated. rw (listed, at_t, at_w, is_na_of w.state gated) refl,
      λ j h. rw (listed, at_t, at_w) (run_gated-others i j d r (some t) (some w) h),
      registry_run_one-IsFilled all_tests r i d f,
    )
