-- ===== src/Settings.antt =====
-- core/settings.c and core/settings.h: the identity record in the last sector of the flash. The flash
-- part and the SDK's calls on it are a parameter.
pub mod Layout
pub mod Checks
pub mod Stored
pub mod Damage
use frank_test.Prelude.{
  ℕ, zero, suc, ◌+◌, ◌-◌, Bool, true, false, not, ◌&&◌, List, [], ◌∷◌, ◌++◌, ◌==◌, ltb,
  if◌then◌else◌, length, take, drop, replicate,
}
use frank_test.Prelude.Bytes.{u16, le16, le32, byte_at, read16, read32}
use frank_test.Crc.{crc32}
use frank_test.Board.{BoardId, Role, board_num, role_num, unknown, single, frank_board_count}
use frank_test.Detect.Probes.{mem_test_flash_capacity}

abbrev pub frankid_magic : ℕ
frankid_magic = 0x4B4E5246

abbrev pub frankid_version : ℕ
frankid_version = 2

abbrev pub flash_sector_size : ℕ
flash_sector_size = 4096

abbrev pub flash_page_size : ℕ
flash_page_size = 256

-- `frank_settings_t`; it has no padding.
pub record Settings : Type 0 where
  pub magic : ℕ
  pub version : ℕ
  pub board : ℕ
  pub role : ℕ
  pub video : ℕ
  pub board_rev : ℕ
  pub console : ℕ
  pub unit_serial : List ℕ
  pub crc : ℕ

-- `sizeof(frank_settings_t)`.
abbrev pub settings_size : ℕ
settings_size = 28

-- The record in memory, up to the checksum and whole.
unfoldable pub summed_bytes : Settings → List ℕ
summed_bytes s =
    le32 s.magic
    ++ (le16 s.version
        ++ (le16 s.board
            ++ (le16 s.role
                ++ (le16 s.video
                    ++ (le16 s.board_rev ++ (le16 s.console ++ take 8 s.unit_serial))))))

unfoldable pub settings_bytes : Settings → List ℕ
settings_bytes s = summed_bytes s ++ le32 s.crc

-- The record that a copy of the bytes is.
unfoldable pub settings_of : List ℕ → Settings
settings_of f = record {
  magic = read32 f 0;
  version = read16 f 4;
  board = read16 f 6;
  role = read16 f 8;
  video = read16 f 10;
  board_rev = read16 f 12;
  console = read16 f 14;
  unit_serial = take 8 (drop 16 f);
  crc = read32 f 24;
}

unfoldable pub record_crc : Settings → ℕ
record_crc s = crc32 (summed_bytes s)

-- The flash: what is read at an address, and the two calls that change it.
pub record Part (Flash : Type 0) : Type 0 where
  pub read : Flash → ℕ → ℕ → List ℕ
  pub erase : ℕ → ℕ → Flash → Flash
  pub program : ℕ → List ℕ → Flash → Flash

-- `settings_offset`, with its `cached` value, 0 before the first call, and what the part answers to
-- the JEDEC command. The result is the offset and the cached value from then on.
unfoldable pub settings_offset : ℕ → ℕ → ℕ → ℕ
settings_offset pico_flash_size_bytes cached jedec =
    let bytes = mem_test_flash_capacity jedec in
    if not (cached == 0)
    then cached
    else (if not (bytes == 0) then bytes else pico_flash_size_bytes) - flash_sector_size

pub record Loaded : Type 0 where
  pub valid : Bool
  pub out : Settings

-- What `out` holds after a refusal.
abbrev pub default_settings : Settings
default_settings = record {
  magic = frankid_magic;
  version = frankid_version;
  board = board_num unknown;
  role = role_num single;
  video = 0;
  board_rev = 0;
  console = 0;
  unit_serial = replicate 8 0;
  crc = 0;
}

-- The checks of `settings_load` on the record it copied.
unfoldable pub load_checked : Settings → Loaded
load_checked stored =
    let refused : Loaded = record { valid = false; out = default_settings } in
    if not (stored.magic == frankid_magic)
    then refused
    else if not (stored.version == frankid_version)
    then refused
    else if not (stored.crc == record_crc stored)
    then refused
    else if not (ltb stored.board frank_board_count)
    then refused
    else record { valid = true; out = stored }

-- `memcmp(a, b, n) == 0` of two buffers of one length.
unfoldable pub bytes_eq : List ℕ → List ℕ → Bool
bytes_eq [] [] = true
bytes_eq [] (b ∷ bs) = false
bytes_eq (a ∷ as_left) [] = false
bytes_eq (a ∷ as_left) (b ∷ bs) = (a == b) && bytes_eq as_left bs

-- The record that is written: the magic, the version and the checksum are filled in.
unfoldable pub sealed : Settings → Settings
sealed s =
    let t = record s { magic = frankid_magic; version = frankid_version } in
    record t { crc = record_crc t }

-- The page that is programmed: the record, and 0xFF after it.
unfoldable pub page_of : Settings → List ℕ
page_of s = settings_bytes s ++ replicate (flash_page_size - settings_size) 0xFF

module _ {Flash : Type 0} (part : Part Flash) (offset : ℕ) where
  unfoldable pub settings_load : Flash → Loaded
  settings_load flash = load_checked (settings_of (part.read flash offset settings_size))

  unfoldable pub settings_save : Settings → Flash → Bool × Flash
  settings_save s flash =
      let erased = part.erase offset flash_sector_size flash in
      let written = part.program offset (page_of (sealed s)) erased in
      (bytes_eq (part.read written offset settings_size) (settings_bytes (sealed s)), written)

  unfoldable pub settings_set_console : Bool → Flash → Bool × Flash
  settings_set_console keep flash =
      settings_save (record (settings_load flash).out { console = if keep then 1 else 0 }) flash

  unfoldable pub settings_set_board : BoardId → Role → Flash → Bool × Flash
  settings_set_board id r flash =
      settings_save
        (record (settings_load flash).out { board = u16 (board_num id); role = u16 (role_num r) })
        flash

  unfoldable pub settings_clear : Flash → Bool × Flash
  settings_clear flash =
      let erased = part.erase offset flash_sector_size flash in
      (not (settings_load erased).valid, erased)
