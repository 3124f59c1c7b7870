-- ===== src/Registry/Gathering.antt =====
-- core/registry.c, `gather`: which tests are on the list.
use frank_test.Prelude.{
  ℕ, zero, suc, ◌-◌, ◌≤◌, ◌<◌, ◌≡◌, refl, sym, ap, ◌∙◌, inl, inr, Bool, true, false, List, [], ◌∷◌,
  ◌++◌, ◌==◌, ltb, if◌then◌else◌, length, take, arith, Bool-cases, length-append, length-take,
}
use frank_test.Registry.{Test, max_tests, gather_suite, gather_suites, gather}

append_assoc {ℓ} : {A : Type ℓ} (xs ys zs : List A) → (xs ++ ys) ++ zs ≡ xs ++ (ys ++ zs)
append_assoc [] ys zs = refl
append_assoc (x ∷ xs) ys zs = ap (λ t. x ∷ t) (append_assoc xs ys zs)

append_nil {ℓ} : {A : Type ℓ} (xs : List A) → xs ++ [] ≡ xs
append_nil [] = refl
append_nil (x ∷ xs) = ap (λ t. x ∷ t) (append_nil xs)

take_nil {ℓ} : {A : Type ℓ} (n : ℕ) → take n (let e : List A = [] in e) ≡ []
take_nil zero = refl
take_nil (suc n) = refl

-- One step: while there is room, the next test is the next of the list.
take_next :
    (n : ℕ) (g : List Test) (t : Test) (ts : List Test)
    → length g < n
    → (g ++ (t ∷ [])) ++ take (n - length (g ++ (t ∷ []))) ts ≡ g ++ take (n - length g) (t ∷ ts)
take_next n g t ts h =
    let room : n - length g ≡ suc (n - length (g ++ (t ∷ []))) =
      omega (arith, length-append g (t ∷ [])) in
    rw room (append_assoc g (t ∷ []) (take (n - length (g ++ (t ∷ []))) ts))

gather_suite-eq :
    (g s : List Test) → length g ≤ max_tests → gather_suite g s ≡ g ++ take (max_tests - length g) s
unfolding gather_suite
gather_suite-eq g [] h = rw (take_nil (max_tests - length g)) (sym (append_nil g))
gather_suite-eq g (t ∷ ts) h = elim (Bool-cases (ltb (length g) max_tests)) [
  | inl room ↦
      let below : length g < max_tests = ground arith in
      rw room (
        gather_suite-eq (g ++ (t ∷ [])) ts (omega (arith, length-append g (t ∷ [])))
        ∙ take_next max_tests g t ts below)
  | inr full ↦
      let no_room : max_tests - length g ≡ 0 = ground arith in
      rw (full, no_room) (sym (append_nil g))
]

-- The suites one after another.
abbrev pub joined : List (List Test) → List Test
joined [] = []
joined (s ∷ ss) = s ++ joined ss

take_over {ℓ} :
    {A : Type ℓ} (n : ℕ) (xs ys : List A)
    → take n xs ++ take (n - length (take n xs)) ys ≡ take n (xs ++ ys)
take_over zero xs ys = refl
take_over (suc n) [] ys = let whole : suc n - 0 ≡ suc n = omega arith in rw whole refl
take_over (suc n) (x ∷ xs) ys =
    let same : suc n - suc (length (take n xs)) ≡ n - length (take n xs) = omega arith in
    rw same (ap (λ t. x ∷ t) (take_over n xs ys))

gather_suites-eq :
    (g : List Test) (ss : List (List Test))
    → length g ≤ max_tests
    → gather_suites g ss ≡ g ++ take (max_tests - length g) (joined ss)
unfolding gather_suites
gather_suites-eq g [] h = rw (take_nil (max_tests - length g)) (sym (append_nil g))
gather_suites-eq g (s ∷ ss) h =
    let room = max_tests - length g in
    let first = take room s in
    let rest = take (room - length first) (joined ss) in
    let fits : length (g ++ first) ≤ max_tests =
      omega (arith, length-append g first, length-take room s) in
    let left : max_tests - length (g ++ first) ≡ room - length first =
      omega (arith, length-append g first) in
    rw (gather_suite-eq g s h) (
      gather_suites-eq (g ++ first) ss fits
      ∙ ap (λ n. (g ++ first) ++ take n (joined ss)) left
      ∙ append_assoc g first rest
      ∙ ap (λ t. g ++ t) (take_over room s (joined ss)))

same_either {ℓ} : {A : Type ℓ} (b : Bool) (a : A) → (if b then a else a) ≡ a
same_either true a = refl
same_either false a = refl

-- The list is the suites in their order, cut at forty tests, and gathering again leaves it as it is.
gather_lem :
    (suites : List (List Test))
    → (gather suites [] ≡ take max_tests (joined suites))
      × (gather suites (gather suites []) ≡ gather suites [])
unfolding gather
gather_lem suites =
    let all_tests = gather_suites [] suites in
    (gather_suites-eq [] suites (omega arith), same_either (length all_tests == 0) all_tests)
