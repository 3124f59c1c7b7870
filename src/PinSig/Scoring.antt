-- ===== src/PinSig/Scoring.antt =====
-- core/pinsig.c, `pinsig_score`: what a score says of the readings.
use frank_test.Prelude.{
  ℕ, zero, suc, ◌+◌, ◌-◌, ◌≡◌, refl, sym, ap, ◌∙◌, List, [], ◌∷◌, ◌++◌, arith, if◌then◌else◌,
  length, take, Bool-cases, inl, inr, ltb,
}
use mathlib.Core.List.{append-nil, append_assoc}
use frank_test.Board.{PinSig, SigEntry, Board}
use frank_test.PinSig.{Score, agrees, score_entry, score_entries, pinsig_score}

-- The pins of the entries that a reading contradicts.
abbrev pub contradicted : (ℕ → PinSig) → List SigEntry → List ℕ
contradicted read [] = []
contradicted read (e ∷ es) =
    if agrees read e then contradicted read es else e.pin ∷ contradicted read es

take_nil : (n : ℕ) → take n (let e : List ℕ = [] in e) ≡ []
take_nil zero = refl
take_nil (suc n) = refl

-- Room for one more mismatch, or none.
take_room :
    (m b x : ℕ) (xs ys : List ℕ)
    → (if ltb b m then ys ++ (x ∷ []) else ys) ++ take (m - (b + 1)) xs
      ≡ ys ++ take (m - b) (x ∷ xs)
take_room m b x xs ys = elim (Bool-cases (ltb b m)) [
  | inl room ↦
      let e : m - b ≡ suc (m - (b + 1)) = ground arith in
      rw (room, e) (append_assoc ys (x ∷ []) (take (m - (b + 1)) xs))
  | inr full ↦
      let e : m - b ≡ 0 = ground arith in
      let e' : m - (b + 1) ≡ 0 = ground arith in rw (full, e, e')
]

module _ (read : ℕ → PinSig) (max_mismatch : ℕ) where
  score_entry_lem :
      (e : SigEntry) (s : Score) (wrong : List ℕ)
      → let out = score_entry read max_mismatch e s in
        let more = if agrees read e then wrong else e.pin ∷ wrong in
        (out.matched + length more ≡ s.matched + suc (length wrong))
        × (out.bad + length wrong ≡ s.bad + length more)
        × (out.mismatches ++ take (max_mismatch - out.bad) wrong
            ≡ s.mismatches ++ take (max_mismatch - s.bad) more)
  unfolding score_entry
  score_entry_lem e s wrong = elim (Bool-cases (agrees read e)) [
    | inl fits ↦ rw fits (omega arith, refl, refl)
    | inr other ↦
        rw other (omega arith, omega arith, take_room max_mismatch s.bad e.pin wrong s.mismatches)
  ]

  score_entries_lem :
      (es : List SigEntry) (s : Score)
      → let out = score_entries read max_mismatch es s in
        let wrong = contradicted read es in
        (out.matched + length wrong ≡ s.matched + length es)
        × (out.bad ≡ s.bad + length wrong)
        × (out.mismatches ≡ s.mismatches ++ take (max_mismatch - s.bad) wrong)
  unfolding score_entries
  score_entries_lem [] s = (
    omega arith,
    omega arith,
    sym (append-nil s.mismatches)
        ∙ ap (λ t. s.mismatches ++ t) (sym (take_nil (max_mismatch - s.bad))),
  )
  score_entries_lem (e ∷ es) s =
      let ih = score_entries_lem es (score_entry read max_mismatch e s) in
      let one = score_entry_lem e s (contradicted read es) in
      (omega (arith, ih.0, one.0), omega (arith, ih.1, one.1), ih.2 ∙ one.2)

-- The score of a board counts the entries that the readings do not contradict, counts the others
-- as bad, and lists their pins in order, as many as there is room for.
pinsig_score_lem :
    (read : ℕ → PinSig) (max_mismatch : ℕ) (d : Board)
    → let out = pinsig_score read max_mismatch d in
      let wrong = contradicted read d.sig in
      (out.matched + length wrong ≡ length d.sig)
      × (out.bad ≡ length wrong)
      × (out.mismatches ≡ take max_mismatch wrong)
unfolding pinsig_score
pinsig_score_lem read max_mismatch d =
    let s0 : Score = record { matched = 0; bad = 0; mismatches = [] } in
    let h = score_entries_lem read max_mismatch d.sig s0 in
    (
      omega (arith, h.0),
      omega (arith, h.1),
      h.2
          ∙ ap (λ t. take t (contradicted read d.sig))
              (let e : max_mismatch - 0 ≡ max_mismatch = omega arith in e),
    )
