-- ===== src/Registry/Turns.antt =====
-- app/main.c, `run_all`: the turns of the loop.
use frank_test.Prelude.{
  ℕ, zero, suc, ◌+◌, ◌≤◌, ◌<◌, ◌≡◌, ◌≢◌, refl, sym, ap, ◌∙◌, inl, inr, true, false, List, [], ◌∷◌,
  some, ◌==◌, ==→eq, if◌then◌else◌, length, get_elem?, set, arith, Bool-cases, length-set,
  get_elem?-set_self, get_elem?-set_ne,
}
use frank_test.Detect.{Result}
use frank_test.Registry.{
  Test, Row, Results, state_num, test_na, test_running, run_row, run_turn, run_from,
}
use frank_test.Registry.Sequence.{IsFilled, registry_run_one_lem, get_elem?-lt}

-- What a turn makes of its row.
pub ran : Result → Test → Row → Row
ran d t w = if state_num w.state == state_num test_na then w else run_row t d w

module _ (d : Result) (t : Test) (w : Row) where
  pub ran_na : (state_num w.state == state_num test_na) ≡ true → ran d t w ≡ w
  unfolding ran
  ran_na h = rw h refl

  pub ran_other : (state_num w.state == state_num test_na) ≡ false → ran d t w ≡ run_row t d w
  unfolding ran
  ran_other h = rw h refl

marked : Row → Row
marked w = record w { state = test_running }

run_row-marked : (t : Test) (d : Result) (w : Row) → run_row t d (marked w) ≡ run_row t d w
unfolding run_row marked
run_row-marked t d w = refl

running_not_na : (w : Row) → (marked w).state ≢ test_na
unfolding marked
running_not_na w e = cc

-- Marking a row as running leaves the table filled.
set-IsFilled :
    (all_tests : List Test) (r : Results) (i : ℕ) (w : Row)
    → IsFilled all_tests r
    → IsFilled all_tests (record r { rows = set r.rows i w })
set-IsFilled all_tests r i w f = record {
  listed = f.listed;
  row_each = length-set r.rows i w ∙ f.row_each;
  counted = f.counted;
}

-- One turn of the loop.
record IsTurn (all_tests : List Test) (i : ℕ) (d : Result) (r out : Results) (t : Test) (w : Row)
    : Type 0 where
  row_done : get_elem? out.rows i ≡ some (ran d t w)
  others : (j : ℕ) → i ≢ j → get_elem? out.rows j ≡ get_elem? r.rows j
  still_filled : IsFilled all_tests out

run_turn-IsTurn :
    (all_tests : List Test) (i : ℕ) (d : Result) (r : Results) (t : Test) (w : Row)
    → IsFilled all_tests r
    → get_elem? all_tests i ≡ some t
    → get_elem? r.rows i ≡ some w
    → IsTurn all_tests i d r (run_turn all_tests i d r) t w
unfolding run_turn marked
run_turn-IsTurn all_tests i d r t w f at_t at_w =
    elim (Bool-cases (state_num w.state == state_num test_na)) [
      | inl gated ↦
          rw (at_w, gated)
            (record {
              row_done = at_w ∙ ap some (sym (ran_na d t w gated));
              others = λ j h. refl;
              still_filled = f;
            })
      | inr runs ↦
          let m : Results = record r { rows = set r.rows i (marked w) } in
          let g = set-IsFilled all_tests r i (marked w) f in
          let at_m : get_elem? m.rows i ≡ some (marked w) =
            get_elem?-set_self r.rows i (marked w) (get_elem?-lt r.rows i w at_w) in
          let (done, same, others, filled) =
            registry_run_one_lem all_tests m i d t (marked w) g at_t at_m in
          rw (at_w, runs)
            (record {
              row_done =
                  done (running_not_na w)
                  ∙ ap some (run_row-marked t d w ∙ sym (ran_other d t w runs));
              others = λ j h. others j h ∙ get_elem?-set_ne r.rows i j (marked w) h;
              still_filled = filled;
            })
    ]

-- The loop from row `i` on, with `n` rows to go.
pub record IsRun (all_tests : List Test) (n i : ℕ) (d : Result) (r out : Results) : Type 0 where
  pub rows_done :
      (j : ℕ) (t : Test) (w : Row)
      → i ≤ j
      → j < i + n
      → get_elem? all_tests j ≡ some t
      → get_elem? r.rows j ≡ some w
      → get_elem? out.rows j ≡ some (ran d t w)
  pub before : (j : ℕ) → j < i → get_elem? out.rows j ≡ get_elem? r.rows j
  pub still_filled : IsFilled all_tests out

get_elem?-some {ℓ} :
    {A : Type ℓ} (xs : List A) (i : ℕ) → i < length xs → (a : A) × (get_elem? xs i ≡ some a)
get_elem?-some [] i h = absurd (omega arith)
get_elem?-some (x ∷ xs) zero h = (x, refl)
get_elem?-some (x ∷ xs) (suc i) h = get_elem?-some xs i (omega arith)

pub run_from-IsRun :
    (all_tests : List Test) (n i : ℕ) (d : Result) (r : Results)
    → IsFilled all_tests r
    → i + n ≤ r.count
    → IsRun all_tests n i d r (run_from all_tests n i d r)
unfolding run_from
run_from-IsRun all_tests zero i d r f h = record {
  rows_done = λ j t w p q. absurd (omega arith);
  before = λ j h. refl;
  still_filled = f;
}
run_from-IsRun all_tests (suc n) i d r f h =
    let (t, at_t) = get_elem?-some all_tests i (let e = f.listed in omega arith) in
    let (w, at_w) = get_elem?-some r.rows i (let e = f.row_each in omega arith) in
    let r1 = run_turn all_tests i d r in
    let turn = run_turn-IsTurn all_tests i d r t w f at_t at_w in
    let rest =
      run_from-IsRun all_tests n (i + 1) d r1 turn.still_filled
        (let a = f.listed in let b = turn.still_filled.listed in omega arith) in
    record {
      rows_done = λ j t' w' p q at_t' at_w'. elim (Bool-cases (j == i)) [
        | inl here ↦
            let e : j ≡ i = ==→eq j i here in
            let again =
              run_turn-IsTurn all_tests i d r t' w' f
                (ap (λ k. get_elem? all_tests k) (sym e) ∙ at_t')
                (ap (λ k. get_elem? r.rows k) (sym e) ∙ at_w') in
            rest.before j (omega arith) ∙ ap (λ k. get_elem? r1.rows k) e ∙ again.row_done
        | inr later ↦
            let ne : i ≢ j = λ e. ground arith in
            rest.rows_done j t' w' (ground arith) (omega arith) at_t' (turn.others j ne ∙ at_w')
      ];
      before = λ j h. rest.before j (omega arith) ∙ turn.others j (omega arith);
      still_filled = rest.still_filled;
    }
