-- ===== src/Tests/Listing.antt =====
-- Instances for the test list: three tests, on an identified board and on an unknown one.
use frank_test.Prelude.{ℕ, ◌≡◌, refl, List, [], ◌∷◌, some, get_elem?}
use frank_test.Board.Caps.{cap_link}
use frank_test.Board.Single.{desc_minifrank}
use frank_test.Detect.{Result, cleared}
use frank_test.Registry.{
  Test, Row, test_pass, test_fail, test_norun, registry_prepare, registry_run_one, run_row, run_all,
  identified,
}
use frank_test.Registry.Gate.{Gated, offered, registry_prepare-Gated}
use frank_test.Registry.Sequence.{IsFilled}
use frank_test.Registry.RunAll.{Ended, run_all-Ended, registry_run_one-unidentified}

abbrev sd_test : Test
sd_test = record {
  name = "SD card";
  icon = 1;
  requires = 4;
  requires_any = 0;
  run = λ d. record { verdict = test_pass; said = "8 GB" };
}

abbrev link_test : Test
link_test = record {
  name = "Link";
  icon = 2;
  requires = cap_link;
  requires_any = 0;
  run = λ d. record { verdict = test_fail; said = "no answer" };
}

abbrev listed : List Test
listed = sd_test ∷ link_test ∷ []

abbrev on_minifrank : Result
on_minifrank = record cleared { board = some desc_minifrank }

registry_prepare-Gated_example :
    (w : Row) × (get_elem? (registry_prepare listed on_minifrank).rows 1 ≡ some w)
    × (w.name ≡ link_test.name)
    × Gated (identified on_minifrank.board) (offered on_minifrank) link_test w.state
registry_prepare-Gated_example = registry_prepare-Gated listed on_minifrank 1 link_test refl

run_all-Ended_example :
    ((i : ℕ) (t : Test)
      → get_elem? listed i ≡ some t
      → (w : Row) × (get_elem? (run_all listed on_minifrank).rows i ≡ some w)
        × Ended (identified on_minifrank.board) on_minifrank t w)
    × IsFilled listed (run_all listed on_minifrank)
run_all-Ended_example = run_all-Ended listed on_minifrank

registry_run_one-unidentified_example :
    let r = registry_prepare listed cleared in
    (w : Row) × (get_elem? r.rows 0 ≡ some w)
    × (w.state ≡ test_norun)
    × (get_elem? (registry_run_one listed r 0 cleared).rows 0 ≡ some (run_row sd_test cleared w))
registry_run_one-unidentified_example =
    registry_run_one-unidentified listed cleared 0 sd_test refl refl
