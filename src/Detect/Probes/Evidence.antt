-- ===== src/Detect/Probes/Evidence.antt =====
-- core/detect.c, `tier1_probes`: what the probes record.
use mathlib.Core.List.{Memᴰ}
use frank_test.Prelude.{
  ℕ, ◌≡◌, ◌≢◌, refl, sym, ap, ◌∙◌, ◌⊎◌, inl, inr, true, false, List, [], ◌∷◌, none, some, ◌==◌,
  arith, Bool-cases, ==→eq,
}
use frank_test.Board.{Board, Pin}
use frank_test.Detect.{Bench, Result, pin_eq}
use frank_test.Detect.Probes.{
  plausible, psram_sweep, i2c_scan, onewire_try, onewire_at, onewire_scan, link_scan,
  psram_cs_candidates, tier1_probes,
}

-- The fields that the verdict is made of.
pub record SameVerdict (r s : Result) : Type 0 where
  pub same_board : s.board ≡ r.board
  pub same_source : s.source ≡ r.source

-- The PSRAM fields after the sweep are the old ones, or a chip select of the sweep that some
-- candidate uses and that answered with a size.
pub record Swept (bench : Bench) (cands : List Board) (r s : Result) : Type 0 where
  pub verdict : SameVerdict r s
  pub evidence :
      (cs : ℕ)
      → s.psram_cs_found ≡ some cs
      → (r.psram_cs_found ≡ some cs)
        ⊎ ((plausible cands cs ≡ true)
            × (bench.psram_probe cs ≡ s.psram_bytes)
            × (s.psram_bytes ≢ 0))

==_ne : (n : ℕ) → (n == 0) ≡ false → n ≢ 0
==_ne n h e = ground arith

pin_eq→eq : (p : Pin) (n : ℕ) → pin_eq p (some n) ≡ true → p ≡ some n
pin_eq→eq none n h = cc
pin_eq→eq (some m) n h = ap some (==→eq m n h)

psram_sweep-Swept :
    (bench : Bench) (cands : List Board) (css : List ℕ) (r : Result)
    → Swept bench cands r (psram_sweep bench cands css r)
unfolding psram_sweep
psram_sweep-Swept bench cands [] r = record {
  verdict = record { same_board = refl; same_source = refl };
  evidence = λ cs e. inl e;
}
psram_sweep-Swept bench cands (c ∷ css) r = elim (Bool-cases (plausible cands c)) [
  | inr unused ↦ rw unused (psram_sweep-Swept bench cands css r)
  | inl used ↦ elim (Bool-cases (bench.psram_probe c == 0)) [
    | inl silent ↦ rw (used, silent) (psram_sweep-Swept bench cands css r)
    | inr answers ↦
        rw (used, answers)
          (record {
            verdict = record { same_board = refl; same_source = refl };
            evidence = λ cs e. inr (cc, cc, ==_ne (bench.psram_probe c) answers);
          })
  ]
]

-- What the later scans leave alone.
record Untouched (r s : Result) : Type 0 where
  verdict : SameVerdict r s
  same_cs : s.psram_cs_found ≡ r.psram_cs_found
  same_bytes : s.psram_bytes ≡ r.psram_bytes

i2c_scan-Untouched :
    (bench : Bench) (cands : List Board) (r : Result) → Untouched r (i2c_scan bench cands r)
unfolding i2c_scan
i2c_scan-Untouched bench [] r = ground arith
i2c_scan-Untouched bench (d ∷ ds) r = ground (arith, i2c_scan-Untouched bench ds r)

onewire_scan-Untouched :
    (bench : Bench) (cands : List Board) (r : Result) → Untouched r (onewire_scan bench cands r)
unfolding onewire_scan onewire_try
onewire_scan-Untouched bench [] r = ground arith
onewire_scan-Untouched bench (d ∷ ds) r =
    ground (arith, onewire_scan-Untouched bench ds (onewire_at bench d.pins.onewire r))

link_scan-Untouched :
    (bench : Bench) (cands : List Board) (r : Result) → Untouched r (link_scan bench cands r)
unfolding link_scan
link_scan-Untouched bench [] r = ground arith
link_scan-Untouched bench (d ∷ ds) r = ground (arith, link_scan-Untouched bench ds r)

plausible-Memᴰ :
    (cands : List Board) (cs : ℕ)
    → plausible cands cs ≡ true
    → (d : Board) × Memᴰ d cands × (d.pins.psram_cs ≡ some cs)
unfolding plausible
plausible-Memᴰ [] cs h = cc
plausible-Memᴰ (d ∷ ds) cs h = elim (Bool-cases (pin_eq d.pins.psram_cs (some cs))) [
  | inl here ↦ (d, Memᴰ.head refl, pin_eq→eq d.pins.psram_cs cs here)
  | inr there ↦ let (b, m, e) = plausible-Memᴰ ds cs (rw there at h) in (b, Memᴰ.tail m, e)
]

-- A chip select that the probes report is one that some candidate uses, it answered, and the size
-- reported is what it answered; and the probes leave the verdict alone.
pub tier1_probes-evidence :
    (bench : Bench) (cands : List Board) (r : Result)
    → let out = tier1_probes bench cands r in
      ((cs : ℕ)
        → out.psram_cs_found ≡ some cs
        → ((d : Board) × Memᴰ d cands × (d.pins.psram_cs ≡ some cs))
          × (bench.psram_probe cs ≡ out.psram_bytes)
          × (out.psram_bytes ≢ 0))
      × SameVerdict r out
unfolding tier1_probes
tier1_probes-evidence bench cands r =
    let start = record r { psram_cs_found = none; onewire_pin = none } in
    let r1 = psram_sweep bench cands psram_cs_candidates start in
    let r2 = i2c_scan bench cands r1 in
    let r3 = onewire_scan bench cands r2 in
    let h1 = psram_sweep-Swept bench cands psram_cs_candidates start in
    let h2 = i2c_scan-Untouched bench cands r1 in
    let h3 = onewire_scan-Untouched bench cands r2 in
    let h4 = link_scan-Untouched bench cands r3 in
    let cs_path = h4.same_cs ∙ h3.same_cs ∙ h2.same_cs in
    let bytes_path = h4.same_bytes ∙ h3.same_bytes ∙ h2.same_bytes in
    (
      λ cs e. elim (h1.evidence cs (sym cs_path ∙ e)) [
        | inl before ↦ cc
        | inr (used, answer, size) ↦
            (plausible-Memᴰ cands cs used, answer ∙ sym bytes_path, λ z. size (sym bytes_path ∙ z))
      ],
      record {
        same_board =
            h4.verdict.same_board ∙ h3.verdict.same_board ∙ h2.verdict.same_board
            ∙ h1.verdict.same_board;
        same_source =
            h4.verdict.same_source ∙ h3.verdict.same_source ∙ h2.verdict.same_source
            ∙ h1.verdict.same_source;
      },
    )
