-- ===== src/Settings/Stored.antt =====
-- core/settings.c: a save, a load and a clear one after the other.
use frank_test.Prelude.{
  ℕ, ◌<◌, ◌≤◌, ◌≡◌, ◌≢◌, ap, ◌∙◌, true, false, not, List, ◌++◌, length, length-append,
  length-replicate, take, replicate, All, arith,
}
use frank_test.Prelude.Bytes.{IsByte, u16, byte_at}
use frank_test.Board.{BoardId, Role, board_num, role_num, frank_board_count}
use frank_test.Settings.{
  Settings, Part, settings_size, flash_sector_size, default_settings, load_checked, bytes_eq,
  sealed, page_of, settings_of, settings_bytes, settings_load, settings_save, settings_set_board,
  settings_clear, frankid_magic,
}
use frank_test.Settings.Layout.{
  IsSettings, settings_of-settings_bytes, settings_bytes-length, take_prefix, All-append,
  All-replicate, settings_bytes-All,
}
use frank_test.Settings.Checks.{
  bytes_eq→eq, bytes_eq_refl, sealed-IsSettings, sealed-kept, load_checked-sealed,
  load_checked-cases, settings_of-IsSettings, load_checked-IsSettings, board_num-lt, role_num-lt,
  with_board-IsSettings, load_checked-refuses, read32_blank,
}

-- A flash part as the SDK documents it: a read gives as many bytes as it is asked for, a page of
-- bytes programmed into an erased sector reads back, and an erased byte reads as 0xFF.
pub record IsPart {Flash : Type 0} (part : Part Flash) : Type 0 where
  pub read_length : (f : Flash) (a n : ℕ) → length (part.read f a n) ≡ n
  pub read_bytes : (f : Flash) (a n : ℕ) → All IsByte (part.read f a n)
  pub programmed :
      (f : Flash) (a n size : ℕ) (page : List ℕ)
      → All IsByte page
      → n ≤ length page
      → length page ≤ size
      → part.read (part.program a page (part.erase a size f)) a n ≡ take n page
  pub erased :
      (f : Flash) (a n size k : ℕ)
      → n ≤ size
      → k < n
      → byte_at (part.read (part.erase a size f) a n) k ≡ 255

module _ {Flash : Type 0} (part : Part Flash) (offset : ℕ) where
  -- A save that reports success, of a record that names a board of the table, is loaded again as it
  -- was, with the magic, the version and the checksum filled in; the part need not work for this.
  settings_save-load :
      (s : Settings) (flash : Flash)
      → IsSettings s
      → s.board < frank_board_count
      → (settings_save part offset s flash).0 ≡ true
      → settings_load part offset (settings_save part offset s flash).1
        ≡ record { valid = true; out = sealed s }
  unfolding settings_save settings_load
  settings_save-load s flash w h ok =
      let written = (settings_save part offset s flash).1 in
      let same =
        bytes_eq→eq (part.read written offset settings_size) (settings_bytes (sealed s)) ok in
      ap (λ f. load_checked (settings_of f)) same
      ∙ ap load_checked (settings_of-settings_bytes (sealed s) (sealed-IsSettings s w))
      ∙ load_checked-sealed s h

  module _ (works : IsPart part) where
    -- On a part that works, a save reports success.
    pub settings_save-succeeds :
        (s : Settings) (flash : Flash) → IsSettings s → (settings_save part offset s flash).0 ≡ true
    unfolding settings_save page_of
    settings_save-succeeds s flash w =
        let bytes = settings_bytes (sealed s) in
        let len = settings_bytes-length (sealed s) (sealed-IsSettings s w) in
        let pad : List ℕ = replicate 228 255 in
        let pad_length : length pad ≡ 228 = length-replicate 228 (let b : ℕ = 255 in b) in
        let fits : settings_size ≤ length (bytes ++ pad) = omega (arith, length-append bytes pad) in
        let room : length (bytes ++ pad) ≤ flash_sector_size =
          omega (arith, length-append bytes pad) in
        let all_bytes =
          All-append bytes pad (settings_bytes-All (sealed s) (sealed-IsSettings s w))
            (All-replicate 228 255 (omega arith)) in
        let back =
          works.programmed flash offset settings_size flash_sector_size (bytes ++ pad) all_bytes
            fits room
          ∙ take_prefix bytes pad settings_size len in
        ap (λ f. bytes_eq f bytes) back ∙ bytes_eq_refl bytes

    -- The record that a load gives is within its widths, read from the flash or by default.
    settings_load-IsSettings : (flash : Flash) → IsSettings (settings_load part offset flash).out
    unfolding settings_load
    settings_load-IsSettings flash =
        let f = part.read flash offset settings_size in
        load_checked-IsSettings (settings_of f) (
          settings_of-IsSettings f (works.read_length flash offset settings_size)
            (works.read_bytes flash offset settings_size))

    -- On a part that works, storing a board succeeds, and the next load gives this board and role;
    -- the video mode, the board revision, the console choice and the serial number that the record
    -- held before are kept.
    pub settings_set_board-load :
        (id : BoardId) (r : Role) (flash : Flash)
        → let before = (settings_load part offset flash).out in
          let saved = settings_set_board part offset id r flash in
          let after = settings_load part offset saved.1 in
          (saved.0 ≡ true)
          × (after.valid ≡ true)
          × (after.out.board ≡ board_num id)
          × (after.out.role ≡ role_num r)
          × (after.out.video ≡ before.video)
          × (after.out.board_rev ≡ before.board_rev)
          × (after.out.console ≡ before.console)
          × (after.out.unit_serial ≡ before.unit_serial)
    unfolding settings_set_board
    settings_set_board-load id r flash =
        let before = (settings_load part offset flash).out in
        let s = record before { board = u16 (board_num id); role = u16 (role_num r) } in
        let w = with_board-IsSettings id r before (settings_load-IsSettings flash) in
        let ok = settings_save-succeeds s flash w in
        let board_same : u16 (board_num id) ≡ board_num id = omega (arith, board_num-lt id) in
        let role_same : u16 (role_num r) ≡ role_num r = omega (arith, role_num-lt r) in
        let e = settings_save-load s flash w (omega (arith, board_num-lt id)) ok in
        let (m, v, b, l, video, rev, c, u) = sealed-kept s in
        (
          ok,
          ap (λ x. x.valid) e,
          ap (λ x. x.out.board) e ∙ b ∙ board_same,
          ap (λ x. x.out.role) e ∙ l ∙ role_same,
          ap (λ x. x.out.video) e ∙ video,
          ap (λ x. x.out.board_rev) e ∙ rev,
          ap (λ x. x.out.console) e ∙ c,
          ap (λ x. x.out.unit_serial) e ∙ u,
        )

    -- On a part that works, a clear succeeds, and the next load refuses and gives the defaults.
    settings_clear-load :
        (flash : Flash)
        → let cleared = settings_clear part offset flash in
          (cleared.0 ≡ true)
          × ((settings_load part offset cleared.1).valid ≡ false)
          × ((settings_load part offset cleared.1).out ≡ default_settings)
    unfolding settings_clear settings_load
    settings_clear-load flash =
        let f = part.read (part.erase offset flash_sector_size flash) offset settings_size in
        let blank : (k : ℕ) → k < settings_size → byte_at f k ≡ 255 =
          λ k h. works.erased flash offset settings_size flash_sector_size k (omega arith) h in
        let not_magic : (settings_of f).magic ≢ frankid_magic =
          read32_blank f (blank 0 (omega arith)) (blank 1 (omega arith)) (blank 2 (omega arith))
            (blank 3 (omega arith)) in
        let refused = load_checked-refuses (settings_of f) not_magic in
        (ap not refused, refused, (load_checked-cases (settings_of f)).0 refused)
