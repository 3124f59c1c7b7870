-- ===== src/Registry.antt =====
-- core/registry.h and core/registry.c: the test list, and what gates it; `run_all` of app/main.c.
-- The suites of tests/ are a parameter, lists of tests.
pub mod Gathering
pub mod Gate
pub mod Sequence
pub mod Turns
pub mod RunAll
use Prim.Native.String.{String}
use frank_test.Prelude.{
  ℕ, zero, suc, ◌+◌, bit_and, bit_or, Bool, true, false, not, ◌&&◌, ◌||◌, List, [], ◌∷◌, ◌++◌,
  Option, none, some, ◌==◌, ltb, if◌then◌else◌, length, get_elem?, set, take, map,
}
use frank_test.Board.{Board, Pin, board_num}
use frank_test.Board.Caps.{
  cap_psram_qmi, cap_rtc_ds3231, cap_i2c, cap_audio_codec_i2c, cap_onewire_ds2401, cap_link,
  caps_of,
}
use frank_test.Detect.{Result, is_nc}

-- `ui_test_state_t`.
pub data TestState : Type 0 where
  test_pending test_running test_pass test_fail test_na test_norun : TestState

abbrev pub state_num : TestState → ℕ
state_num test_pending = 0
state_num test_running = 1
state_num test_pass = 2
state_num test_fail = 3
state_num test_na = 4
state_num test_norun = 5

-- What a test's `run` leaves: its verdict and the text of the detail.
pub record Outcome : Type 0 where
  pub verdict : TestState
  pub said : String

-- `frank_test_t`.
pub record Test : Type 0 where
  pub name : String
  pub icon : ℕ
  pub requires : ℕ
  pub requires_any : ℕ
  pub run : Result → Outcome

-- `ui_test_row_t`, with the buffer that `detail` points to.
pub record Row : Type 0 where
  pub icon : ℕ
  pub name : String
  pub detail : String
  pub state : TestState
  pub progress : ℕ

-- `registry_results_t`; `rows` holds the rows below `count`.
pub record Results : Type 0 where
  pub rows : List Row
  pub count : ℕ
  pub passed : ℕ
  pub failed : ℕ
  pub na : ℕ
  pub norun : ℕ
  pub pending : ℕ

-- The size of `all` and of `rows`.
abbrev pub max_tests : ℕ
max_tests = 40

-- One loop of `gather`, into what is gathered so far.
unfoldable pub gather_suite : List Test → List Test → List Test
gather_suite gathered [] = gathered
gather_suite gathered (t ∷ ts) =
    let rest = gather_suite (gathered ++ (t ∷ [])) ts in
    if ltb (length gathered) max_tests then rest else gathered

-- The seven loops, one per suite.
unfoldable pub gather_suites : List Test → List (List Test) → List Test
gather_suites gathered [] = gathered
gather_suites gathered (s ∷ ss) = gather_suites (gather_suite gathered s) ss

-- `if (all_len) return;` comes first.
unfoldable pub gather : List (List Test) → List Test → List Test
gather suites all_tests = if length all_tests == 0 then gather_suites [] suites else all_tests

abbrev pub link_wired : Option Board → Bool
link_wired none = false
link_wired (some b) = not (is_nc b.pins.link_a_data)

unfoldable pub registry_detected_caps : Result → ℕ
registry_detected_caps d =
    let c0 : ℕ = 0 in
    let c1 =
      if not (is_nc d.psram_cs_found) && not (d.psram_bytes == 0)
      then bit_or c0 cap_psram_qmi
      else c0 in
    let c2 = if d.i2c_ds3231 then bit_or c1 (bit_or cap_rtc_ds3231 cap_i2c) else c1 in
    let c3 = if d.i2c_tlv320 then bit_or c2 (bit_or cap_audio_codec_i2c cap_i2c) else c2 in
    let c4 = if d.onewire_found then bit_or c3 cap_onewire_ds2401 else c3 in
    if d.link_peer && link_wired d.board then bit_or c4 cap_link else c4

abbrev pub board_caps : Option Board → ℕ
board_caps none = 0
board_caps (some b) = b.caps

-- `d->board && d->board->id != FRANK_BOARD_UNKNOWN`.
abbrev pub identified : Option Board → Bool
identified none = false
identified (some b) = not (board_num b.id == 0)

unfoldable pub lacks_all : ℕ → Test → Bool
lacks_all caps t = not (t.requires == 0) && not (bit_and caps t.requires == t.requires)

unfoldable pub lacks_any : ℕ → Test → Bool
lacks_any caps t = not (t.requires_any == 0) && (bit_and caps t.requires_any == 0)

-- One turn of the loop of `registry_prepare`. Its inner else, a board that lacks the hardware and is
-- not identified, follows the outer test and is never reached.
unfoldable pub prepare_row : ℕ → Bool → Test → Row
prepare_row caps known t =
    let fresh : TestState → String → Row =
      λ s text. record { icon = t.icon; name = t.name; detail = text; state = s; progress = 0 } in
    if not known
    then fresh test_norun "select a board first"
    else if lacks_all caps t || lacks_any caps t
    then if known then fresh test_na "not fitted" else fresh test_norun "board not identified"
    else fresh test_pending ""

-- `r->passed++`, by the state.
unfoldable pub tally_one : TestState → Results → Results
tally_one test_pass r = record r { passed = r.passed + 1 }
tally_one test_fail r = record r { failed = r.failed + 1 }
tally_one test_na r = record r { na = r.na + 1 }
tally_one test_norun r = record r { norun = r.norun + 1 }
tally_one test_pending r = record r { pending = r.pending + 1 }
tally_one test_running r = record r { pending = r.pending + 1 }

unfoldable pub tally_rows : List Row → Results → Results
tally_rows [] r = r
tally_rows (w ∷ ws) r = tally_rows ws (tally_one w.state r)

unfoldable pub registry_tally : Results → Results
registry_tally r =
    tally_rows (take r.count r.rows)
      (record r { passed = 0; failed = 0; na = 0; norun = 0; pending = 0 })

unfoldable pub registry_prepare : List Test → Result → Results
registry_prepare all_tests d =
    let caps = bit_or (board_caps d.board) (registry_detected_caps d) in
    registry_tally (record {
      rows = map (prepare_row caps (identified d.board)) all_tests;
      count = length all_tests;
      passed = 0;
      failed = 0;
      na = 0;
      norun = 0;
      pending = 0;
    })

-- A row once its test has run: the running state that it passes through is overwritten.
unfoldable pub run_row : Test → Result → Row → Row
run_row t d w =
    let started = record w { state = test_running; progress = 0 } in
    let out = t.run d in record started { state = out.verdict; detail = out.said }

abbrev pub run_gated : ℕ → Result → Results → Option Test → Option Row → Results
run_gated i d r none w = r
run_gated i d r (some t) none = r
run_gated i d r (some t) (some w) =
    if state_num w.state == state_num test_na
    then r
    else registry_tally (record r { rows = set r.rows i (run_row t d w) })

unfoldable pub registry_run_one : List Test → Results → ℕ → Result → Results
registry_run_one all_tests r i d =
    if ltb i r.count then run_gated i d r (get_elem? all_tests i) (get_elem? r.rows i) else r

-- `run_all` of app/main.c: the loop over the rows left. It marks a row as running before it hands
-- it over.
abbrev pub mark_running : ℕ → Results → Option Row → Results
mark_running i r none = r
mark_running i r (some w) = record r { rows = set r.rows i (record w { state = test_running }) }

abbrev pub is_na : Option Row → Bool
is_na none = false
is_na (some w) = state_num w.state == state_num test_na

unfoldable pub run_turn : List Test → ℕ → Result → Results → Results
run_turn all_tests i d r =
    if is_na (get_elem? r.rows i)
    then r
    else registry_run_one all_tests (mark_running i r (get_elem? r.rows i)) i d

unfoldable pub run_from : List Test → ℕ → ℕ → Result → Results → Results
run_from all_tests zero i d r = r
run_from all_tests (suc n) i d r = run_from all_tests n (i + 1) d (run_turn all_tests i d r)

unfoldable pub run_all : List Test → Result → Results
run_all all_tests d =
    let r = registry_prepare all_tests d in
    if identified d.board then run_from all_tests r.count 0 d r else r
