-- ===== src/Registry/RunAll.antt =====
-- A whole run, `run_all` of app/main.c: what every row holds at its end.
use frank_test.Prelude.{
  ℕ, suc, ◌+◌, ◌<◌, ◌≡◌, ◌≢◌, refl, sym, ap, ◌∙◌, inl, inr, Bool, true, false, List, [], ◌∷◌, some,
  length, get_elem?, map, arith, Bool-cases,
}
use frank_test.Detect.{Result}
use frank_test.Registry.{
  Test, Row, Results, TestState, test_pending, test_na, test_norun, registry_run_one,
  registry_prepare, identified, run_row, run_from, run_all, prepare_row,
}
use frank_test.Registry.Gate.{
  Gated, Suits, offered, unknown_board, fitted, not_fitted, registry_prepare-Gated,
  registry_tally-rows,
}
use frank_test.Registry.Sequence.{
  IsFilled, registry_run_one_lem, registry_tally-total, not_na, is_na_of, get_elem?-lt,
}
use frank_test.Registry.Turns.{ran, ran_na, ran_other, run_from-IsRun}

length-map {ℓ ℓ'} :
    {A : Type ℓ} {B : Type ℓ'} (f : A → B) (xs : List A) → length (map f xs) ≡ length xs
length-map f [] = refl
length-map f (x ∷ xs) = ap suc (length-map f xs)

registry_prepare-IsFilled :
    (all_tests : List Test) (d : Result) → IsFilled all_tests (registry_prepare all_tests d)
unfolding registry_prepare
registry_prepare-IsFilled all_tests d =
    let rows = map (prepare_row (offered d) (identified d.board)) all_tests in
    let blank : Results = record {
      rows = rows;
      count = length all_tests;
      passed = 0;
      failed = 0;
      na = 0;
      norun = 0;
      pending = 0;
    } in
    let (rows_same, count_same) = registry_tally-rows blank in
    let len : length rows ≡ length all_tests =
      length-map (prepare_row (offered d) (identified d.board)) all_tests in
    record {
      listed = count_same;
      row_each = ap length rows_same ∙ len ∙ sym count_same;
      counted = registry_tally-total blank (omega arith) ∙ sym count_same;
    }

-- What a row holds after a whole run.
pub data Ended (known : Bool) (d : Result) (t : Test) (w : Row) : Type 0 where
  not_tried : known ≡ false → w.state ≡ test_norun → Ended known d t w
  absent : known ≡ true → (Suits (offered d) t → ⊥) → w.state ≡ test_na → Ended known d t w
  tried :
      known ≡ true
      → Suits (offered d) t
      → w.state ≡ (t.run d).verdict
      → w.detail ≡ (t.run d).said
      → Ended known d t w

run_row-outcome :
    (t : Test) (d : Result) (w : Row)
    → ((run_row t d w).state ≡ (t.run d).verdict) × ((run_row t d w).detail ≡ (t.run d).said)
unfolding run_row
run_row-outcome t d w = (refl, refl)

module _ (all_tests : List Test) (d : Result) where
  run_all_known :
      identified d.board ≡ true
      → run_all all_tests d
        ≡ run_from all_tests (registry_prepare all_tests d).count 0 d (registry_prepare all_tests d)
  unfolding run_all
  run_all_known h = rw h refl

  run_all_unknown : identified d.board ≡ false → run_all all_tests d ≡ registry_prepare all_tests d
  unfolding run_all
  run_all_unknown h = rw h refl

pending_not_na : (s : TestState) → s ≡ test_pending → s ≢ test_na
pending_not_na s h e = cc

Gated-Ended :
    (d : Result) (t : Test) (w : Row)
    → identified d.board ≡ true
    → Gated (identified d.board) (offered d) t w.state
    → Ended (identified d.board) d t (ran d t w)
Gated-Ended d t w known (unknown_board h e) = cc
Gated-Ended d t w known (fitted h suits e) =
    let (verdict, said) = run_row-outcome t d w in
    let same = ran_other d t w (not_na w.state (pending_not_na w.state e)) in
    tried h suits (ap (λ v. v.state) same ∙ verdict) (ap (λ v. v.detail) same ∙ said)
Gated-Ended d t w known (not_fitted h lacks e) =
    absent h lacks (ap (λ v. v.state) (ran_na d t w (is_na_of w.state e)) ∙ e)

Gated-not_tried :
    (d : Result) (t : Test) (w : Row)
    → identified d.board ≡ false
    → Gated (identified d.board) (offered d) t w.state
    → Ended (identified d.board) d t w
Gated-not_tried d t w unknown (unknown_board h e) = not_tried h e
Gated-not_tried d t w unknown (fitted h suits e) = cc
Gated-not_tried d t w unknown (not_fitted h lacks e) = cc

-- At the end of a run on an unidentified board no test has run. On an identified one every test that
-- the board suits has run, and its row holds its verdict and its text; the others are not
-- applicable. The five counters add up to the number of tests.
pub run_all-Ended :
    (all_tests : List Test) (d : Result)
    → ((i : ℕ) (t : Test)
        → get_elem? all_tests i ≡ some t
        → (w : Row) × (get_elem? (run_all all_tests d).rows i ≡ some w)
          × Ended (identified d.board) d t w)
      × IsFilled all_tests (run_all all_tests d)
run_all-Ended all_tests d =
    let r = registry_prepare all_tests d in
    let f = registry_prepare-IsFilled all_tests d in
    elim (Bool-cases (identified d.board)) [
      | inl known ↦
          let run = run_from-IsRun all_tests r.count 0 d r f (omega arith) in
          rw (run_all_known all_tests d known) (
            λ i t at_t.
                let (w, at_w, name, gated) = registry_prepare-Gated all_tests d i t at_t in
                let inside : i < 0 + r.count =
                  let l = f.listed in omega (arith, get_elem?-lt all_tests i t at_t) in
                (
                  ran d t w,
                  run.rows_done i t w (omega arith) inside at_t at_w,
                  Gated-Ended d t w known gated,
                ),
            run.still_filled,
          )
      | inr unknown ↦ rw (run_all_unknown all_tests d unknown) (
        λ i t at_t.
            let (w, at_w, name, gated) = registry_prepare-Gated all_tests d i t at_t in
            (w, at_w, Gated-not_tried d t w unknown gated),
        f,
      )
    ]

unidentified_row :
    (d : Result) (t : Test) (w : Row)
    → identified d.board ≡ false
    → Gated (identified d.board) (offered d) t w.state
    → w.state ≡ test_norun
unidentified_row d t w unknown (unknown_board h e) = e
unidentified_row d t w unknown (fitted h suits e) = cc
unidentified_row d t w unknown (not_fitted h lacks e) = cc

norun_not_na : (s : TestState) → s ≡ test_norun → s ≢ test_na
norun_not_na s h e = cc

-- On an unidentified board every row is prepared as not run, and yet running a single row runs its
-- test: the row gets the verdict of a test that was to be kept from unknown pins.
pub registry_run_one-unidentified :
    (all_tests : List Test) (d : Result) (i : ℕ) (t : Test)
    → identified d.board ≡ false
    → get_elem? all_tests i ≡ some t
    → let r = registry_prepare all_tests d in
      (w : Row) × (get_elem? r.rows i ≡ some w)
      × (w.state ≡ test_norun)
      × (get_elem? (registry_run_one all_tests r i d).rows i ≡ some (run_row t d w))
registry_run_one-unidentified all_tests d i t unknown at_t =
    let r = registry_prepare all_tests d in
    let (w, at_w, name, gated) = registry_prepare-Gated all_tests d i t at_t in
    let norun = unidentified_row d t w unknown gated in
    let run =
      registry_run_one_lem all_tests r i d t w (registry_prepare-IsFilled all_tests d) at_t at_w in
    (w, at_w, norun, run.0 (norun_not_na w.state norun))
