-- ===== src/Detect/Run/Fleet.antt =====
-- core/detect.c against core/board_table.c: each descriptor is put on the bench that it describes.
use frank_test.Prelude.{
  ℕ, ◌≡◌, refl, Bool, true, false, not, ◌&&◌, ◌||◌, List, [], ◌∷◌, Option, none, some, ◌==◌,
  if◌then◌else◌, map, length,
}
use frank_test.Board.{
  Board, PinSig, pinsig_num, SigEntry, McuClass, float, rp2350a, rp2350b, board_num, role_num,
  mcu_num,
}
use frank_test.Board.Caps.{
  any_cap, cap_psram_qmi, cap_rtc_ds3231, cap_audio_codec_i2c, cap_onewire_ds2401, cap_link,
}
use frank_test.Detect.Run.{
  judge, fall_back, adopt_guess, declare_board, among, keep_consistent, viable_boards, detect_run,
}
use frank_test.Detect.Fingerprint.{tier2_fingerprint, rank_all, rank_one, tied}
use frank_test.Detect.Probes.{
  tier1_probes, link_scan, tier0_silicon, i2c_scan, mem_test_flash_capacity, onewire_scan,
  onewire_try, plausible, psram_sweep, tier1_consistent, wants_qmi_psram,
}
use frank_test.Board.Table.{
  frank_boards_for_mcu, boards_for, find_desc, frank_board_desc, frank_board_from_slug, from_slug,
  frank_board_table,
}
use frank_test.Board.Single.{
  desc_frank, desc_frank_pga, desc_megafrank, desc_microfrank, desc_minifrank, desc_zerofrank,
  desc_oldskoolfrank,
}
use frank_test.Board.Linked.{desc_core2, desc_core2_slave, desc_core2u, desc_core2u_slave}
use frank_test.Board.Other.{desc_next, desc_z0pa, fallback_desc}
use frank_test.OneWire.{crc8_bit, crc8_bits, crc8_from, ds2401_read, ow_crc8}
use frank_test.PinSig.{pinsig_score, score_entries, score_entry}
use frank_test.Detect.{Bench, pin_eq, cleared}

-- The pad of a pin, by the first entry of the signature that names it.
unfoldable pub expected : List SigEntry → ℕ → PinSig
expected [] pin = float
expected (e ∷ es) pin = if e.pin == pin then e.expect else expected es pin

-- A DS2401 whose serial number is zero.
unfoldable pub ds2401_of_zeros : List ℕ
ds2401_of_zeros = 0x01 ∷ 0 ∷ 0 ∷ 0 ∷ 0 ∷ 0 ∷ 0 ∷ 0x3D ∷ []

-- The bench of a board that is what its descriptor says, in a package, with `fitted` bytes of PSRAM.
unfoldable pub bench_of : McuClass → ℕ → Board → Bench
unfolding expected ds2401_of_zeros
bench_of mcu fitted d = record {
  chip_id_reg = 0x20004927;
  package_sel = if mcu_num mcu == mcu_num rp2350b then 0 else 1;
  jedec = 0xEF4018;
  unique_id = 1 ∷ 2 ∷ 3 ∷ 4 ∷ 5 ∷ 6 ∷ 7 ∷ 8 ∷ [];
  psram_probe =
      λ cs. if pin_eq d.pins.psram_cs (some cs) && any_cap d.caps cap_psram_qmi then fitted else 0;
  i2c_probe = λ sda scl addr.
      pin_eq d.pins.i2c_sda (some sda)
      && pin_eq d.pins.i2c_scl (some scl)
      && ((addr == 0x68 && any_cap d.caps cap_rtc_ds3231)
          || (addr == 0x18 && any_cap d.caps cap_audio_codec_i2c));
  onewire = λ pin. record {
    presence = pin_eq d.pins.onewire (some pin) && any_cap d.caps cap_onewire_ds2401;
    rom = ds2401_of_zeros;
  };
  link_answers = λ db_out db_in.
      pin_eq d.pins.link_db_out (some db_out)
      && pin_eq d.pins.link_db_in (some db_in)
      && any_cap d.caps cap_link;
  pads = λ call pin. expected d.sig pin;
}

-- What a detection answers: the board that it reports, or the candidates of an ambiguous
-- fingerprint, by their ids and roles.
reported : Option Board → List Board
reported none = []
reported (some b) = b ∷ []

pub named : Board → ℕ × ℕ
named b = (board_num b.id, role_num b.role)

package_of : Board → McuClass
package_of d = if mcu_num d.mcu == mcu_num rp2350b then rp2350b else rp2350a

pub answer : ℕ → Board → List (ℕ × ℕ)
unfolding reported named package_of
answer fitted d =
    let r = detect_run (bench_of (package_of d) fitted d) none in
    map named (if r.ambiguous then r.candidates else reported r.board)

-- The boards that nothing tells apart: the role, the chip select and the signature are the same.
same_sig : List SigEntry → List SigEntry → Bool
same_sig [] [] = true
same_sig [] (f ∷ fs) = false
same_sig (e ∷ es) [] = false
same_sig (e ∷ es) (f ∷ fs) =
    (e.pin == f.pin) && (pinsig_num e.expect == pinsig_num f.expect) && same_sig es fs

pub look_alikes : Board → List Board → List (ℕ × ℕ)
unfolding same_sig named
look_alikes d [] = []
look_alikes d (b ∷ bs) =
    let rest = look_alikes d bs in
    if (role_num d.role == role_num b.role)
      && pin_eq d.pins.psram_cs b.pins.psram_cs
      && same_sig d.sig b.sig
    then named b ∷ rest
    else rest

-- Every board of the table, on the bench that its descriptor says and with 8 MB where it has a PSRAM,
-- is reported by a build without a compiled-in board; the boards that share its role, PSRAM chip
-- select and signature are the candidates, if there is another.
pub detect_run-fleet :
    map (answer 8388608) frank_board_table
    ≡ map (λ d. look_alikes d frank_board_table) frank_board_table
unfolding answer look_alikes same_sig named detect_run bench_of judge fall_back adopt_guess
    declare_board tier2_fingerprint tier1_probes link_scan frank_boards_for_mcu tier0_silicon
    desc_frank desc_frank_pga desc_megafrank desc_microfrank desc_minifrank desc_zerofrank
    desc_oldskoolfrank desc_core2 desc_core2_slave desc_core2u desc_core2u_slave desc_next desc_z0pa
    fallback_desc boards_for find_desc frank_board_desc frank_board_from_slug from_slug rank_all
    rank_one tied i2c_scan mem_test_flash_capacity onewire_scan onewire_try plausible psram_sweep
    tier1_consistent ds2401_of_zeros expected package_of reported among keep_consistent
    viable_boards crc8_bit crc8_bits crc8_from ds2401_read ow_crc8 pinsig_score score_entries
    score_entry
detect_run-fleet = refl

pub is_named : ℕ × ℕ → List (ℕ × ℕ) → Bool
is_named p [] = false
is_named p (q ∷ qs) = ((p.0 == q.0) && (p.1 == q.1)) || is_named p qs

-- Whether the probes rule out every board of the package, so that the fingerprint is taken of all.
pub all_vetoed : ℕ → Board → Bool
all_vetoed fitted d =
    let bench = bench_of (package_of d) fitted d in
    let boards = frank_boards_for_mcu (package_of d) 24 in
    length (keep_consistent (tier1_probes bench boards cleared) boards) == 0

-- Where no PSRAM answers, exactly those boards of the table are still found whose descriptor has no
-- chip select for one or drives it by SPI, and those where the probes rule out every board.
pub detect_run-unpopulated :
    map (λ d. is_named (named d) (answer 0 d)) frank_board_table
    ≡ map (λ d. not (wants_qmi_psram d) || all_vetoed 0 d) frank_board_table
unfolding answer is_named all_vetoed named detect_run bench_of judge fall_back adopt_guess
    declare_board tier2_fingerprint tier1_probes link_scan frank_boards_for_mcu tier0_silicon
    desc_frank desc_frank_pga desc_megafrank desc_microfrank desc_minifrank desc_zerofrank
    desc_oldskoolfrank desc_core2 desc_core2_slave desc_core2u desc_core2u_slave desc_next desc_z0pa
    fallback_desc boards_for find_desc frank_board_desc frank_board_from_slug from_slug rank_all
    rank_one tied i2c_scan mem_test_flash_capacity onewire_scan onewire_try plausible psram_sweep
    tier1_consistent ds2401_of_zeros expected package_of reported among keep_consistent
    viable_boards crc8_bit crc8_bits crc8_from ds2401_read ow_crc8 pinsig_score score_entries
    score_entry
detect_run-unpopulated = refl
