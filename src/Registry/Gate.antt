-- ===== src/Registry/Gate.antt =====
-- core/registry.c, `registry_prepare`: which tests the board lets run.
use mathlib.Core.Logic.{◌↔◌}
use frank_test.Prelude.{
  ℕ, zero, suc, ◌≡◌, refl, sym, ap, ◌∙◌, ◌⊎◌, inl, inr, bit_and, bit_or, Bool, true, false, not,
  ◌&&◌, List, [], ◌∷◌, some, ◌==◌, ==→eq, length, get_elem?, take, map, arith, Bool-cases,
}
use frank_test.Prelude.Masks.{Covers, and_eq_iff, Meets, and_nonzero_iff, and_zero}
use frank_test.Detect.{Result}
use frank_test.Registry.{
  Test, Row, Results, TestState, test_pending, test_na, test_norun, registry_prepare,
  registry_detected_caps, prepare_row, lacks_all, lacks_any, identified, board_caps, registry_tally,
  tally_rows, tally_one,
}

tally_one-rows :
    (s : TestState) (r : Results)
    → ((tally_one s r).rows ≡ r.rows) × ((tally_one s r).count ≡ r.count)
unfolding tally_one
tally_one-rows s r = ground arith

tally_rows-rows :
    (ws : List Row) (r : Results)
    → ((tally_rows ws r).rows ≡ r.rows) × ((tally_rows ws r).count ≡ r.count)
unfolding tally_rows
tally_rows-rows [] r = (refl, refl)
tally_rows-rows (w ∷ ws) r =
    let s = tally_one w.state r in
    let (h, g) = tally_rows-rows ws s in let (p, q) = tally_one-rows w.state r in (h ∙ p, g ∙ q)

-- Counting changes neither the rows nor how many there are.
pub registry_tally-rows :
    (r : Results) → ((registry_tally r).rows ≡ r.rows) × ((registry_tally r).count ≡ r.count)
unfolding registry_tally
registry_tally-rows r =
    tally_rows-rows (take r.count r.rows)
      (record r { passed = 0; failed = 0; na = 0; norun = 0; pending = 0 })

get_elem?-map {ℓ ℓ'} :
    {A : Type ℓ} {B : Type ℓ'} (f : A → B) (xs : List A) (i : ℕ) (a : A)
    → get_elem? xs i ≡ some a
    → get_elem? (map f xs) i ≡ some (f a)
get_elem?-map f [] i a h = cc
get_elem?-map f (x ∷ xs) zero a h = cc
get_elem?-map f (x ∷ xs) (suc i) a h = get_elem?-map f xs i a h

-- What the board offers: its descriptor's capabilities and those that the probes proved.
abbrev pub offered : Result → ℕ
offered d = bit_or (board_caps d.board) (registry_detected_caps d)

-- The hardware that a test asks for is there: every bit of the one mask, some bit of the other.
pub record Suits (caps : ℕ) (t : Test) : Type 0 where
  pub every_bit : Covers caps t.requires
  pub some_bit : (t.requires_any ≡ 0) ⊎ Meets caps t.requires_any

lacks_none : (caps q : ℕ) → (not (q == 0) && not (bit_and caps q == q)) ≡ false → bit_and caps q ≡ q
lacks_none caps q h = elim (Bool-cases (q == 0)) [
  | inl none_asked ↦
      let z : q ≡ 0 = ==→eq q 0 none_asked in ap (λ n. bit_and caps n) z ∙ and_zero caps ∙ sym z
  | inr some_asked ↦ ground arith
]

lacks_all_iff : (caps : ℕ) (t : Test) → (lacks_all caps t ≡ false) ↔ Covers caps t.requires
unfolding lacks_all
lacks_all_iff caps t =
    let (there, back) = and_eq_iff caps t.requires in
    (λ h. there (lacks_none caps t.requires h), λ c. let e = back c in ground arith)

lacks_any_iff :
    (caps : ℕ) (t : Test)
    → (lacks_any caps t ≡ false) ↔ ((t.requires_any ≡ 0) ⊎ Meets caps t.requires_any)
unfolding lacks_any
lacks_any_iff caps t =
    let (there, back) = and_nonzero_iff caps t.requires_any in
    (
      λ h. elim (Bool-cases (t.requires_any == 0)) [
        | inl none_asked ↦ inl (==→eq t.requires_any 0 none_asked)
        | inr asked ↦ inr (there (ground arith))
      ],
      λ c. elim c [ inl z ↦ ground arith | inr m ↦ let e = back m in ground arith ],
    )

prepare_row-name : (caps : ℕ) (known : Bool) (t : Test) → (prepare_row caps known t).name ≡ t.name
unfolding prepare_row
prepare_row-name caps known t = ground arith

-- Which of the three states a row starts in.
prepare_row-cases :
    (caps : ℕ) (known : Bool) (t : Test)
    → let s = (prepare_row caps known t).state in
      (known ≡ false → s ≡ test_norun)
      × (known ≡ true → lacks_all caps t ≡ false → lacks_any caps t ≡ false → s ≡ test_pending)
      × (known ≡ true → lacks_all caps t ≡ true → s ≡ test_na)
      × (known ≡ true → lacks_any caps t ≡ true → s ≡ test_na)
unfolding prepare_row
prepare_row-cases caps known t = ground arith

-- The row of a test on an unidentified board is not run; on an identified one it is pending if the
-- board offers what the test asks for, and not applicable otherwise.
pub data Gated (known : Bool) (caps : ℕ) (t : Test) (s : TestState) : Type 0 where
  unknown_board : known ≡ false → s ≡ test_norun → Gated known caps t s
  fitted : known ≡ true → Suits caps t → s ≡ test_pending → Gated known caps t s
  not_fitted : known ≡ true → (Suits caps t → ⊥) → s ≡ test_na → Gated known caps t s

prepare_row-Gated :
    (caps : ℕ) (known : Bool) (t : Test) → Gated known caps t (prepare_row caps known t).state
prepare_row-Gated caps false t = unknown_board refl ((prepare_row-cases caps false t).0 refl)
prepare_row-Gated caps true t =
    let (p, q, r, s) = prepare_row-cases caps true t in
    elim (Bool-cases (lacks_all caps t)) [
      | inl lacks ↦
          not_fitted refl (λ suits. let e = (lacks_all_iff caps t).1 suits.every_bit in cc)
            (r refl lacks)
      | inr has_all ↦ elim (Bool-cases (lacks_any caps t)) [
        | inl lacks ↦
            not_fitted refl (λ suits. let e = (lacks_any_iff caps t).1 suits.some_bit in cc)
              (s refl lacks)
        | inr has_any ↦
            fitted refl
              (record {
                every_bit = (lacks_all_iff caps t).0 has_all;
                some_bit = (lacks_any_iff caps t).0 has_any;
              })
              (q refl has_all has_any)
      ]
    ]

-- Every test of the list has its row, at its place and under its name, and on the board's evidence:
-- not run on an unidentified board; otherwise pending if the board offers what the test asks for,
-- and not applicable if it does not.
pub registry_prepare-Gated :
    (all_tests : List Test) (d : Result) (i : ℕ) (t : Test)
    → get_elem? all_tests i ≡ some t
    → (w : Row) × (get_elem? (registry_prepare all_tests d).rows i ≡ some w)
      × (w.name ≡ t.name)
      × Gated (identified d.board) (offered d) t w.state
unfolding registry_prepare
registry_prepare-Gated all_tests d i t h =
    let f = prepare_row (offered d) (identified d.board) in
    let blank : Results = record {
      rows = map f all_tests;
      count = length all_tests;
      passed = 0;
      failed = 0;
      na = 0;
      norun = 0;
      pending = 0;
    } in
    (
      f t,
      ap (λ ws. get_elem? ws i) (registry_tally-rows blank).0 ∙ get_elem?-map f all_tests i t h,
      prepare_row-name (offered d) (identified d.board) t,
      prepare_row-Gated (offered d) (identified d.board) t,
    )
