-- ===== src/Settings/Checks.antt =====
-- core/settings.c: the checks on a record, and what fills in the fields that they read.
use frank_test.Prelude.{
  ℕ, ◌+◌, ◌-◌, ◌^◌, ◌<◌, ◌≤◌, ◌≡◌, ◌≢◌, refl, true, false, not, ◌||◌, bit_and, List, [], ◌∷◌,
  length, length-take, drop, All, arith, ◌==◌, ==→eq, ==_refl, ltb, if◌then◌else◌, Bool-cases, ◌⊎◌,
  inl, inr,
}
use frank_test.Prelude.Bytes.{IsByte, u16, byte_at}
use frank_test.Board.{BoardId, Role, board_num, role_num, frank_board_count}
use native.Mathlib.Nat.{pow-le-pow_right}
use frank_test.Crc.Errors.{crc32-lt}
use frank_test.Detect.Probes.{mem_test_flash_capacity}
use frank_test.Settings.{
  Settings, settings_size, flash_sector_size, default_settings, load_checked, bytes_eq, sealed,
  record_crc, settings_of, summed_bytes, settings_offset, frankid_magic, frankid_version,
}
use frank_test.Settings.Layout.{IsSettings, read16-lt, read32-lt, All-drop, All-take, length-drop}

pub bytes_eq→eq : (xs ys : List ℕ) → bytes_eq xs ys ≡ true → xs ≡ ys
unfolding bytes_eq
bytes_eq→eq [] [] h = refl
bytes_eq→eq [] (y ∷ ys) h = cc
bytes_eq→eq (x ∷ xs) [] h = cc
bytes_eq→eq (x ∷ xs) (y ∷ ys) h = elim (Bool-cases (x == y)) [
  | inl same ↦ let rest = bytes_eq→eq xs ys (rw same at h) in let e = ==→eq x y same in cc
  | inr other ↦ let bad = rw other at h in cc
]

pub bytes_eq_refl : (xs : List ℕ) → bytes_eq xs xs ≡ true
unfolding bytes_eq
bytes_eq_refl [] = refl
bytes_eq_refl (x ∷ xs) = rw (==_refl x) (bytes_eq_refl xs)

pub sealed-IsSettings : (s : Settings) → IsSettings s → IsSettings (sealed s)
unfolding sealed record_crc
sealed-IsSettings s w = record {
  magic_fits = omega arith;
  version_fits = omega arith;
  board_fits = w.board_fits;
  role_fits = w.role_fits;
  video_fits = w.video_fits;
  board_rev_fits = w.board_rev_fits;
  console_fits = w.console_fits;
  serial_length = w.serial_length;
  serial_bytes = w.serial_bytes;
  crc_fits = crc32-lt _;
}

load_checked-accepts :
    (t : Settings)
    → t.magic ≡ frankid_magic
    → t.version ≡ frankid_version
    → t.crc ≡ record_crc t
    → t.board < frank_board_count
    → load_checked t ≡ record { valid = true; out = t }
unfolding load_checked
load_checked-accepts t m v c h =
    let m' : (t.magic == frankid_magic) ≡ true = ground arith in
    let v' : (t.version == frankid_version) ≡ true = ground arith in
    let c' : (t.crc == record_crc t) ≡ true = ground arith in
    let h' : ltb t.board frank_board_count ≡ true = ground arith in rw (m', v', c', h') refl

sealed-crc : (s : Settings) → (sealed s).crc ≡ record_crc (sealed s)
unfolding sealed record_crc summed_bytes
sealed-crc s = refl

pub sealed-kept :
    (s : Settings)
    → ((sealed s).magic ≡ frankid_magic)
      × ((sealed s).version ≡ frankid_version)
      × ((sealed s).board ≡ s.board)
      × ((sealed s).role ≡ s.role)
      × ((sealed s).video ≡ s.video)
      × ((sealed s).board_rev ≡ s.board_rev)
      × ((sealed s).console ≡ s.console)
      × ((sealed s).unit_serial ≡ s.unit_serial)
unfolding sealed
sealed-kept s = (refl, refl, refl, refl, refl, refl, refl, refl)

pub load_checked-sealed :
    (s : Settings)
    → s.board < frank_board_count
    → load_checked (sealed s) ≡ record { valid = true; out = sealed s }
load_checked-sealed s h =
    let (magic, version, board, r, video, rev, c, u) = sealed-kept s in
    load_checked-accepts (sealed s) magic version (sealed-crc s) (rw board h)

-- The two outcomes of a load.
pub load_checked-cases :
    (s : Settings)
    → let r = load_checked s in
      (r.valid ≡ false → r.out ≡ default_settings)
      × (r.valid ≡ true
          → (r.out ≡ s)
            × (s.magic ≡ frankid_magic)
            × (s.version ≡ frankid_version)
            × (s.crc ≡ record_crc s)
            × (s.board < frank_board_count))
unfolding load_checked
load_checked-cases s = ground arith

pub settings_of-IsSettings :
    (f : List ℕ) → length f ≡ settings_size → All IsByte f → IsSettings (settings_of f)
unfolding settings_of
settings_of-IsSettings f h b = record {
  magic_fits = read32-lt f 0 b;
  version_fits = read16-lt f 4 b;
  board_fits = read16-lt f 6 b;
  role_fits = read16-lt f 8 b;
  video_fits = read16-lt f 10 b;
  board_rev_fits = read16-lt f 12 b;
  console_fits = read16-lt f 14 b;
  serial_length = omega (arith, length-take 8 (drop 16 f), length-drop 16 f);
  serial_bytes = All-take 8 (drop 16 f) (All-drop 16 f b);
  crc_fits = read32-lt f 24 b;
}

default_settings-IsSettings : IsSettings default_settings
default_settings-IsSettings = ground arith

pub load_checked-IsSettings : (s : Settings) → IsSettings s → IsSettings (load_checked s).out
load_checked-IsSettings s w = elim (Bool-cases (load_checked s).valid) [
  | inl ok ↦ rw ((load_checked-cases s).1 ok).0 w
  | inr bad ↦ rw ((load_checked-cases s).0 bad) default_settings-IsSettings
]

pub board_num-lt : (id : BoardId) → board_num id < frank_board_count
board_num-lt id = ground arith

pub role_num-lt : (r : Role) → role_num r < 3
role_num-lt r = ground arith

pub with_board-IsSettings :
    (id : BoardId) (r : Role) (s : Settings)
    → IsSettings s
    → IsSettings (record s { board = u16 (board_num id); role = u16 (role_num r) })
with_board-IsSettings id r s w = record {
  magic_fits = w.magic_fits;
  version_fits = w.version_fits;
  board_fits = omega arith;
  role_fits = omega arith;
  video_fits = w.video_fits;
  board_rev_fits = w.board_rev_fits;
  console_fits = w.console_fits;
  serial_length = w.serial_length;
  serial_bytes = w.serial_bytes;
  crc_fits = w.crc_fits;
}

pub load_checked-refuses : (s : Settings) → s.magic ≢ frankid_magic → (load_checked s).valid ≡ false
load_checked-refuses s h = elim (Bool-cases (load_checked s).valid) [
  | inl ok ↦ absurd (h ((load_checked-cases s).1 ok).1)
  | inr bad ↦ bad
]

pub read32_blank :
    (f : List ℕ)
    → byte_at f 0 ≡ 255
    → byte_at f 1 ≡ 255
    → byte_at f 2 ≡ 255
    → byte_at f 3 ≡ 255
    → (settings_of f).magic ≢ frankid_magic
unfolding settings_of
read32_blank f a b c d e = omega arith

-- A part that identifies itself is larger than its last sector.
capacity_cases :
    (jedec : ℕ) → (mem_test_flash_capacity jedec ≡ 0) ⊎ (2 ^ 16 ≤ mem_test_flash_capacity jedec)
unfolding mem_test_flash_capacity
capacity_cases jedec =
    let cap = bit_and jedec 0xFF in
    elim (Bool-cases (ltb cap 16 || ltb 26 cap)) [
      | inl junk ↦ inl (rw junk refl)
      | inr known ↦
          let enough : 16 ≤ cap = ground arith in
          let big : 2 ^ 16 ≤ 2 ^ cap = pow-le-pow_right (omega arith) enough in inr (rw known big)
    ]

offset_of : (bytes built_for : ℕ) → ℕ
offset_of bytes built_for = (if not (bytes == 0) then bytes else built_for) - flash_sector_size

offset_of_lem :
    (bytes built_for : ℕ)
    → (bytes ≡ 0) ⊎ (2 ^ 16 ≤ bytes)
    → flash_sector_size < built_for
    → (bytes ≢ 0 → offset_of bytes built_for + flash_sector_size ≡ bytes)
      × (bytes ≡ 0 → offset_of bytes built_for + flash_sector_size ≡ built_for)
      × (offset_of bytes built_for ≢ 0)
unfolding offset_of
offset_of_lem bytes built_for h g = ground arith

settings_offset_again :
    (built_for offset later : ℕ) → offset ≢ 0 → settings_offset built_for offset later ≡ offset
unfolding settings_offset
settings_offset_again built_for offset later h = ground arith

settings_offset_first :
    (built_for jedec : ℕ)
    → settings_offset built_for 0 jedec ≡ offset_of (mem_test_flash_capacity jedec) built_for
unfolding settings_offset offset_of
settings_offset_first built_for jedec = refl

-- The first call finds the last sector of the part that answered, or of the size that the build
-- names where none did, and the later calls give what the first gave, whatever the part answers.
settings_offset-last_sector :
    (built_for jedec later : ℕ)
    → flash_sector_size < built_for
    → let bytes = mem_test_flash_capacity jedec in
      let offset = settings_offset built_for 0 jedec in
      (bytes ≢ 0 → offset + flash_sector_size ≡ bytes)
      × (bytes ≡ 0 → offset + flash_sector_size ≡ built_for)
      × (settings_offset built_for offset later ≡ offset)
settings_offset-last_sector built_for jedec later h =
    let bytes = mem_test_flash_capacity jedec in
    let first = settings_offset_first built_for jedec in
    let (of_part, of_build, nonzero) = offset_of_lem bytes built_for (capacity_cases jedec) h in
    rw first
      (of_part, of_build, settings_offset_again built_for (offset_of bytes built_for) later nonzero)
