-- ===== src/VideoSelect/Window.antt =====
-- core/video_select.c: the turns of the boot window.
use Prim.Native.String.{String}
use frank_test.Prelude.{
  ℕ, ◌≡◌, refl, sym, ap, ◌∙◌, inl, inr, Bool, true, false, ◌||◌, List, [], ◌∷◌, ◌++◌, Option, none,
  some, if◌then◌else◌, arith, Bool-cases,
}
use frank_test.VideoSelect.{
  KeySource, Poll, hear, is_choice, is_keep_key, poll_sources, poll_window, key_open,
}

-- The characters of a turn, in the order of the sources; a source without a function is not heard.
abbrev pub heard : List KeySource → List (Option ℕ) → List (ℕ × String)
heard [] answers = []
heard (k ∷ ks) [] = []
heard (k ∷ ks) (none ∷ answers) = heard ks answers
heard (k ∷ ks) (some c ∷ answers) =
    if k.has_fn then (c, k.name) ∷ heard ks answers else heard ks answers

abbrev pub heard_all : List KeySource → List (List (Option ℕ)) → List (ℕ × String)
heard_all ks [] = []
heard_all ks (turn ∷ turns) = heard ks turn ++ heard_all ks turns

-- The first character that is a choice, and whether a U came before it.
abbrev pub first_choice : List (ℕ × String) → Option (ℕ × String)
first_choice [] = none
first_choice (e ∷ es) = if is_choice e.0 then some e else first_choice es

abbrev pub keep_before : List (ℕ × String) → Bool
keep_before [] = false
keep_before (e ∷ es) = if is_choice e.0 then false else is_keep_key e.0 || keep_before es

listen : List (ℕ × String) → Poll → Poll
listen [] p = p
listen (e ∷ es) p = if key_open p then listen es (hear e.1 e.0 p) else p

listen_closed : (es : List (ℕ × String)) (p : Poll) → key_open p ≡ false → listen es p ≡ p
unfolding listen
listen_closed [] p h = refl
listen_closed (e ∷ es) p h = rw h refl

listen-append :
    (xs ys : List (ℕ × String)) (p : Poll) → listen (xs ++ ys) p ≡ listen ys (listen xs p)
unfolding listen
listen-append [] ys p = refl
listen-append (x ∷ xs) ys p = elim (Bool-cases (key_open p)) [
  | inl open_still ↦ rw open_still (listen-append xs ys (hear x.1 x.0 p))
  | inr closed ↦ rw closed (sym (listen_closed ys p closed))
]

poll_sources-listen :
    (ks : List KeySource) (answers : List (Option ℕ)) (p : Poll)
    → poll_sources ks answers p ≡ listen (heard ks answers) p
unfolding poll_sources listen
poll_sources-listen [] answers p = refl
poll_sources-listen (k ∷ ks) [] p = refl
poll_sources-listen (k ∷ ks) (none ∷ answers) p = elim (Bool-cases (key_open p)) [
  | inl open_still ↦ rw open_still (poll_sources-listen ks answers p)
  | inr closed ↦ rw closed (sym (listen_closed (heard ks answers) p closed))
]
poll_sources-listen (k ∷ ks) (some c ∷ answers) p = elim (Bool-cases k.has_fn) [
  | inl present ↦ elim (Bool-cases (key_open p)) [
    | inl open_still ↦ rw (present, open_still) (poll_sources-listen ks answers (hear k.name c p))
    | inr closed ↦ rw (present, closed) refl
  ]
  | inr absent ↦ elim (Bool-cases (key_open p)) [
    | inl open_still ↦ rw (absent, open_still) (poll_sources-listen ks answers p)
    | inr closed ↦ rw (absent, closed) (sym (listen_closed (heard ks answers) p closed))
  ]
]

window_step :
    (ks : List KeySource) (turns : List (List (Option ℕ))) (q : Poll)
    → poll_window ks turns q ≡ listen (heard_all ks turns) q
    → (if key_open q then poll_window ks turns q else q) ≡ listen (heard_all ks turns) q
window_step ks turns q h = elim (Bool-cases (key_open q)) [
  | inl open_still ↦ rw open_still h
  | inr closed ↦ rw closed (sym (listen_closed (heard_all ks turns) q closed))
]

poll_window-listen :
    (ks : List KeySource) (turns : List (List (Option ℕ))) (p : Poll)
    → poll_window ks turns p ≡ listen (heard_all ks turns) p
unfolding poll_window listen
poll_window-listen ks [] p = refl
poll_window-listen ks (turn ∷ turns) p =
    rw (poll_sources-listen ks turn p, listen-append (heard ks turn) (heard_all ks turns) p)
      (window_step ks turns (listen (heard ks turn) p)
        (poll_window-listen ks turns (listen (heard ks turn) p)))

choice_not_keep : (c : ℕ) → is_choice c ≡ true → is_keep_key c ≡ false
unfolding is_choice
choice_not_keep c h = ground arith

hear-cases :
    (name : String) (c : ℕ) (p : Poll)
    → (is_choice c ≡ true → hear name c p ≡ record p { key = some (c, name) })
      × (is_choice c ≡ false → hear name c p ≡ record p { keep = is_keep_key c || p.keep })
unfolding hear
hear-cases name c p = (
  λ h. rw (choice_not_keep c h, h) refl,
  λ h. elim (Bool-cases (is_keep_key c)) [
    | inl keeps ↦ rw keeps refl
    | inr other ↦ rw (other, h) refl
  ],
)

-- What is heard while the window is open.
record IsHeard (es : List (ℕ × String)) (p q : Poll) : Type 0 where
  same_key : q.key ≡ first_choice es
  kept : q.keep ≡ (keep_before es || p.keep)

module _ (e : ℕ × String) (es : List (ℕ × String)) where
  first_choice_here : is_choice e.0 ≡ true → first_choice (e ∷ es) ≡ some e
  first_choice_here h = rw h refl

  first_choice_later : is_choice e.0 ≡ false → first_choice (e ∷ es) ≡ first_choice es
  first_choice_later h = rw h refl

  keep_before_here : is_choice e.0 ≡ true → keep_before (e ∷ es) ≡ false
  keep_before_here h = rw h refl

  keep_before_later :
      is_choice e.0 ≡ false → keep_before (e ∷ es) ≡ (is_keep_key e.0 || keep_before es)
  keep_before_later h = rw h refl

or_swap : (a b c : Bool) → (b || (a || c)) ≡ ((a || b) || c)
or_swap a b c = ground arith

listen_open :
    (e : ℕ × String) (es : List (ℕ × String)) (p : Poll)
    → p.key ≡ none
    → listen (e ∷ es) p ≡ listen es (hear e.1 e.0 p)
unfolding listen
listen_open e es p h = let open_still : key_open p ≡ true = ground arith in rw open_still refl

listen-IsHeard : (es : List (ℕ × String)) (p : Poll) → p.key ≡ none → IsHeard es p (listen es p)
unfolding listen
listen-IsHeard [] p h = record { same_key = h; kept = refl }
listen-IsHeard (e ∷ es) p h = elim (Bool-cases (is_choice e.0)) [
  | inl choice ↦
      let q : Poll = record p { key = some e } in
      let eq =
        listen_open e es p h
        ∙ ap (listen es) ((hear-cases e.1 e.0 p).0 choice)
        ∙ listen_closed es q refl in
      record {
        same_key = ap (λ r. r.key) eq ∙ sym (first_choice_here e es choice);
        kept = ap (λ r. r.keep) eq ∙ ap (λ b. b || p.keep) (sym (keep_before_here e es choice));
      }
  | inr other ↦
      let q : Poll = record p { keep = is_keep_key e.0 || p.keep } in
      let eq = listen_open e es p h ∙ ap (listen es) ((hear-cases e.1 e.0 p).1 other) in
      let rest = listen-IsHeard es q h in
      record {
        same_key = ap (λ r. r.key) eq ∙ rest.same_key ∙ sym (first_choice_later e es other);
        kept =
            ap (λ r. r.keep) eq
            ∙ rest.kept
            ∙ or_swap (is_keep_key e.0) (keep_before es) p.keep
            ∙ ap (λ b. b || p.keep) (sym (keep_before_later e es other));
      }
]

-- The window closes at the first of the keys H, V, C and A that a source answers, in the order of
-- the turns and of the sources within a turn, and remembers whose key it was; other characters are
-- passed over. A U before it keeps the console and leaves the window open.
pub poll_window_lem :
    (ks : List KeySource) (turns : List (List (Option ℕ))) (keep : Bool)
    → let p = poll_window ks turns (record { key = none; keep = keep }) in
      (p.key ≡ first_choice (heard_all ks turns))
      × (p.keep ≡ (keep_before (heard_all ks turns) || keep))
poll_window_lem ks turns keep =
    let start : Poll = record { key = none; keep = keep } in
    let e = poll_window-listen ks turns start in
    let h = listen-IsHeard (heard_all ks turns) start refl in
    (ap (λ p. p.key) e ∙ h.same_key, ap (λ p. p.keep) e ∙ h.kept)
