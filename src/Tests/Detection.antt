-- ===== src/Tests/Detection.antt =====
-- Instances for the detection: a bench with a Core 2 master, and one where two signatures tie.
use mathlib.Core.List.{Memᴰ}
use frank_test.Prelude.{
  ℕ, ◌≡◌, ◌≢◌, refl, List, [], ◌∷◌, true, false, none, some, All, length, arith,
}
use frank_test.Board.{Board, high, rp2350b}
use frank_test.Detect.Run.{
  guess_role, judge, fall_back, adopt_guess, declare_board, among, keep_consistent, viable_boards,
  detect_run,
}
use frank_test.Detect.Fingerprint.{tier2_fingerprint, rank_all, rank_one, tied}
use frank_test.Detect.Probes.{
  tier1_probes, link_scan, tier0_silicon, i2c_scan, mem_test_flash_capacity, onewire_scan,
  onewire_try, plausible, psram_sweep, tier1_consistent,
}
use frank_test.Board.Table.{
  frank_boards_for_mcu, boards_for, find_desc, frank_board_desc, frank_board_from_slug, from_slug,
}
use frank_test.Board.Single.{
  desc_frank, desc_frank_pga, desc_megafrank, desc_microfrank, desc_minifrank, desc_zerofrank,
  desc_oldskoolfrank,
}
use frank_test.Board.Linked.{desc_core2, desc_core2_slave, desc_core2u, desc_core2u_slave}
use frank_test.Board.Other.{desc_next, desc_z0pa, fallback_desc}
use frank_test.OneWire.{crc8_bit, crc8_bits, crc8_from, ds2401_read, ow_crc8}
use frank_test.PinSig.{pinsig_score, score_entries, score_entry}
use frank_test.Detect.{Bench, cleared}
use frank_test.Detect.Probes.Evidence.{SameVerdict, tier1_probes-evidence}
use frank_test.Detect.Fingerprint.Ranking.{AtMost, share, shares_onto}
use frank_test.Detect.Fingerprint.Winner.{scored_onto, tier2-guess}
use frank_test.Detect.Fingerprint.TieOrder.{tier2-tie_order}
use frank_test.Detect.Run.Fleet.{bench_of, expected, ds2401_of_zeros}
use frank_test.Detect.Run.Verdict.{Verdict, detect_run-Verdict, detect_run-dropped}

abbrev core2_bench : Bench
core2_bench = bench_of rp2350b 8388608 desc_core2

abbrev two : List Board
two = desc_core2 ∷ desc_core2u ∷ []

tier1_probes-evidence_example :
    let out = tier1_probes core2_bench two cleared in
    ((cs : ℕ)
      → out.psram_cs_found ≡ some cs
      → ((d : Board) × Memᴰ d two × (d.pins.psram_cs ≡ some cs))
        × (core2_bench.psram_probe cs ≡ out.psram_bytes)
        × (out.psram_bytes ≢ 0))
    × SameVerdict cleared out
tier1_probes-evidence_example = tier1_probes-evidence core2_bench two cleared

tier2-guess_example :
    let out = tier2_fingerprint core2_bench two cleared in
    let scored = scored_onto core2_bench.pads 0 two [] in
    ((w : Board)
      → out.auto_guess ≡ some w
      → (best : ℕ) × Memᴰ (w, best) scored × AtMost best (shares_onto core2_bench.pads 0 two []))
    × (out.auto_guess ≡ none → All (λ p. length p.0.sig ≡ 0) scored)
tier2-guess_example = tier2-guess core2_bench two cleared

detect_run-Verdict_example : Verdict (some "core2") (detect_run core2_bench (some "core2"))
detect_run-Verdict_example = detect_run-Verdict core2_bench (some "core2")

frank_not_master :
    frank_board_desc
      (frank_board_from_slug "frank")
      (guess_role (detect_run core2_bench none).auto_guess)
    ≡ none
unfolding detect_run bench_of judge fall_back adopt_guess declare_board tier2_fingerprint
    tier1_probes link_scan frank_boards_for_mcu tier0_silicon desc_frank desc_frank_pga
    desc_megafrank desc_microfrank desc_minifrank desc_zerofrank desc_oldskoolfrank desc_core2
    desc_core2_slave desc_core2u desc_core2u_slave desc_next desc_z0pa fallback_desc boards_for
    find_desc frank_board_desc frank_board_from_slug from_slug rank_all rank_one tied i2c_scan
    mem_test_flash_capacity onewire_scan onewire_try plausible psram_sweep tier1_consistent
    ds2401_of_zeros expected among keep_consistent viable_boards crc8_bit crc8_bits crc8_from
    ds2401_read ow_crc8 pinsig_score score_entries score_entry
frank_not_master = refl

detect_run-dropped_example :
    (detect_run core2_bench (some "frank") ≡ detect_run core2_bench none)
    × ((detect_run core2_bench (some "frank")).disagrees ≡ false)
detect_run-dropped_example = detect_run-dropped core2_bench "frank" frank_not_master

-- Two boards whose entries all match, one of them with one more.
abbrev short_board : Board
short_board = record desc_frank { sig = record { pin = 2; expect = high } ∷ [] }

abbrev long_board : Board
long_board = record desc_minifrank {
  sig = record { pin = 2; expect = high } ∷ record { pin = 3; expect = high } ∷ [];
}

abbrev pulled_bench : Bench
pulled_bench = record core2_bench { pads = λ call pin. high }

same_share :
    (call : ℕ)
    → (share pulled_bench.pads call short_board ≡ 1000)
      × (share pulled_bench.pads call long_board ≡ 1000)
unfolding pinsig_score score_entries score_entry
same_share call = (refl, refl)

tier2-tie_order_example :
    let short_first = tier2_fingerprint pulled_bench (short_board ∷ long_board ∷ []) cleared in
    let long_first = tier2_fingerprint pulled_bench (long_board ∷ short_board ∷ []) cleared in
    (short_first.auto_guess ≡ some long_board)
    × (short_first.ambiguous ≡ false)
    × (long_first.auto_guess ≡ some long_board)
    × (long_first.ambiguous ≡ true)
tier2-tie_order_example =
    tier2-tie_order pulled_bench short_board long_board cleared 1000 (omega arith) (omega arith)
      (same_share 0).0 (same_share 1).1 (same_share 0).1 (same_share 1).0
