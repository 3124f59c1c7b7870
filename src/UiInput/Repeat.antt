-- ===== src/UiInput/Repeat.antt =====
-- ui/ui_input.c, `hid_getkey`: what a USB keyboard gives while its keys are held.
use frank_test.Prelude.{
  ℕ, ◌≡◌, ◌⊎◌, inl, inr, refl, sym, ap, ◌∙◌, Bool, true, false, not, ◌&&◌, ◌||◌, Option, none, some,
  List, [], ◌∷◌, ◌++◌, ◌==◌, ==_refl, Bool-cases, arith,
}
use mathlib.Core.List.{append_assoc}
use frank_test.UiInput.{
  KeyReport, Keyboard, was_down, is_fresh, note_all, scan_keys, arm_repeat, repeatable, hid_getkey,
}

or_true : (b : Bool) → (b || true) ≡ true
or_true true = refl
or_true false = refl

and_false : (b : Bool) → (b && false) ≡ false
and_false true = refl
and_false false = refl

-- A key repeats only if it is worth it.
abbrev pub is_worth : Option ℕ → Bool
is_worth none = false
is_worth (some k) = repeatable k

abbrev pub IsArmed : Keyboard → Type 0
IsArmed s = (s.rep_kc ≡ 0) ⊎ (is_worth s.rep_key ≡ true)

-- Where the statics start.
abbrev pub unpressed : Keyboard
unpressed = record {
  prev_keys = 0 ∷ 0 ∷ 0 ∷ 0 ∷ 0 ∷ 0 ∷ [];
  rep_kc = 0;
  rep_key = some 0;
  rep_after_ms = 0;
  events = 0;
  last = 0;
}

abbrev pub type_all : List KeyReport → Keyboard → Keyboard
type_all [] s = s
type_all (r ∷ rs) s = type_all rs (hid_getkey r s).1

arm_repeat-IsArmed :
    (out : Option ℕ) (r : KeyReport) (s : Keyboard) → IsArmed s → IsArmed (arm_repeat out r s)
unfolding arm_repeat
arm_repeat-IsArmed none r s h = h
arm_repeat-IsArmed (some k) r s h = elim (Bool-cases (repeatable k)) [
  | inl worth ↦ rw worth (inr worth)
  | inr other ↦ rw other h
]

hid_getkey-IsArmed : (r : KeyReport) (s : Keyboard) → IsArmed s → IsArmed (hid_getkey r s).1
unfolding hid_getkey
hid_getkey-IsArmed r s h =
    let (events, last) = note_all s.prev_keys r.keycodes s.events s.last in
    let noted = record s { events = events; last = last } in
    let out = scan_keys s.prev_keys r.modifier r.keycodes in
    elim (Bool-cases (not (s.rep_kc == 0) && not (was_down r.keycodes s.rep_kc))) [
      | inl let_go ↦
          let stays : (not (s.rep_kc == 0) && was_down r.keycodes s.rep_kc && r.due) ≡ false =
            ground arith in
          rw (let_go, stays)
            (arm_repeat-IsArmed out r (record noted { rep_kc = 0; rep_key = none }) (inl refl))
      | inr stays ↦
          elim (Bool-cases (not (s.rep_kc == 0) && was_down r.keycodes s.rep_kc && r.due)) [
            | inl again ↦ rw (stays, again) h
            | inr later ↦ rw (stays, later) (arm_repeat-IsArmed out r noted h)
          ]
    ]

type_all-IsArmed : (rs : List KeyReport) (s : Keyboard) → IsArmed s → IsArmed (type_all rs s)
type_all-IsArmed [] s h = h
type_all-IsArmed (r ∷ rs) s h = type_all-IsArmed rs (hid_getkey r s).1 (hid_getkey-IsArmed r s h)

was_down_self : (before ks : List ℕ) (k : ℕ) → was_down (before ++ (k ∷ ks)) k ≡ true
was_down_self [] ks k = rw (==_refl k) refl
was_down_self (b ∷ before) ks k = rw (was_down_self before ks k) (or_true (b == k))

not_fresh : (prev : List ℕ) (kc : ℕ) → was_down prev kc ≡ true → is_fresh prev kc ≡ false
not_fresh prev kc h = rw h (and_false (not (kc == 0)))

-- No key of a report is fresh that was in the report before.
scan_keys-held :
    (before kcs : List ℕ) (modifier : ℕ) → scan_keys (before ++ kcs) modifier kcs ≡ none
unfolding scan_keys
scan_keys-held before [] modifier = refl
scan_keys-held before (kc ∷ kcs) modifier =
    let held = not_fresh (before ++ (kc ∷ kcs)) kc (was_down_self before kcs kc) in
    let moved = append_assoc before (kc ∷ []) kcs in
    rw held (
      ap (λ prev. scan_keys prev modifier kcs) (sym moved)
      ∙ scan_keys-held (before ++ (kc ∷ [])) kcs modifier)

-- Whatever was typed before, keys that are only held give no key, unless the repeat's time has come;
-- and what repeats then is an arrow or a page key, never Enter or ESC.
pub hid_getkey-held :
    (rs : List KeyReport) (r : KeyReport)
    → r.keycodes ≡ (type_all rs unpressed).prev_keys
    → let s = type_all rs unpressed in
      let out = (hid_getkey r s).0 in
      (out ≡ none) ⊎ ((out ≡ s.rep_key) × (r.due ≡ true) × (is_worth s.rep_key ≡ true))
unfolding hid_getkey
hid_getkey-held rs r same =
    let s = type_all rs unpressed in
    let armed = type_all-IsArmed rs unpressed (inl refl) in
    let silent : scan_keys s.prev_keys r.modifier r.keycodes ≡ none =
      ap (λ kcs. scan_keys s.prev_keys r.modifier kcs) same
      ∙ scan_keys-held [] s.prev_keys r.modifier in
    elim (Bool-cases (not (s.rep_kc == 0) && was_down r.keycodes s.rep_kc && r.due)) [
      | inr waits ↦ rw waits (inl silent)
      | inl again ↦
          let due : r.due ≡ true = ground arith in
          elim armed [
            | inl stopped ↦ absurd (ground arith)
            | inr worth ↦ rw again (inr (refl, due, worth))
          ]
    ]
