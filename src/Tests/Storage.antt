-- ===== src/Tests/Storage.antt =====
-- Instances for the settings, on a flash that is a function from addresses to bytes.
use frank_test.Prelude.{
  ℕ, zero, suc, set, ◌+◌, ◌-◌, ◌%◌, ◌<◌, ◌≤◌, ◌≡◌, ◌≢◌, refl, sym, ap, ◌∙◌, bit_and, List, [], ◌∷◌,
  true, false, ◌&&◌, Option, none, some, length, get_elem?, take, All, arith, ltb, leb,
  if◌then◌else◌,
}
use frank_test.Prelude.Bytes.{IsByte, byte_at}
use frank_test.Prelude.Masks.{and_low}
use frank_test.Board.{core2, master, board_num, role_num}
use frank_test.Settings.{
  Settings, Part, default_settings, sealed, settings_load, settings_save, settings_set_board,
  settings_size, settings_of, settings_bytes, summed_bytes, load_checked,
}
use frank_test.Settings.Layout.{
  IsSettings, settings_bytes-All, settings_bytes-length, settings_of-settings_bytes,
}
use frank_test.Settings.Checks.{sealed-IsSettings, load_checked-sealed}
use frank_test.Settings.Damage.{load_checked-set}
use frank_test.Settings.Stored.{IsPart, settings_save-succeeds, settings_set_board-load}

read_from : (ℕ → ℕ) → ℕ → ℕ → List ℕ
read_from f a zero = []
read_from f a (suc n) = f a % 256 ∷ read_from f (a + 1) n

erase_sector : ℕ → ℕ → (ℕ → ℕ) → ℕ → ℕ
erase_sector a size f x = if leb a x && ltb x (a + size) then 255 else f x

-- A program can only clear bits.
and_into : ℕ → Option ℕ → ℕ
and_into was none = was
and_into was (some b) = bit_and b was

program_page : ℕ → List ℕ → (ℕ → ℕ) → ℕ → ℕ
unfolding and_into
program_page a page f x = if leb a x then and_into (f x) (get_elem? page (x - a)) else f x

flash_part : Part (ℕ → ℕ)
flash_part = record { read = read_from; erase = erase_sector; program = program_page }

read_from-length : (f : ℕ → ℕ) (a n : ℕ) → length (read_from f a n) ≡ n
unfolding read_from
read_from-length f a zero = refl
read_from-length f a (suc n) = ap suc (read_from-length f (a + 1) n)

read_from-All : (f : ℕ → ℕ) (a n : ℕ) → All IsByte (read_from f a n)
unfolding read_from
read_from-All f a zero = tt
read_from-All f a (suc n) = (omega arith, read_from-All f (a + 1) n)

-- A read of what a list says byte by byte gives the front of the list.
read_from-take :
    (f : ℕ → ℕ) (a n : ℕ) (page : List ℕ)
    → All IsByte page
    → n ≤ length page
    → ((k b : ℕ) → get_elem? page k ≡ some b → k < length page → f (a + k) ≡ b)
    → read_from f a n ≡ take n page
unfolding read_from
read_from-take f a zero page h g same = refl
read_from-take f a (suc n) [] h g same = absurd (omega arith)
read_from-take f a (suc n) (b ∷ page) h g same =
    let at : a + 0 ≡ a = omega arith in
    let first : f a ≡ b = ap f (sym at) ∙ same 0 b refl (omega arith) in
    let byte = h.0 in
    let low : f a % 256 ≡ b = rw first (omega arith) in
    let rest = read_from-take f (a + 1) n page h.1 (omega arith) (λ k c e l.
      let next : a + 1 + k ≡ a + suc k = omega arith in
      ap f next ∙ same (suc k) c e (omega arith)) in
    cc

and_erased : (b : ℕ) → IsByte b → bit_and b 255 ≡ b
and_erased b h = omega (arith, and_low 8 b)

All-get_elem? : (xs : List ℕ) (k b : ℕ) → All IsByte xs → get_elem? xs k ≡ some b → IsByte b
All-get_elem? [] k b h e = cc
All-get_elem? (x ∷ xs) zero b h e = let same : x ≡ b = cc in rw (sym same) h.0
All-get_elem? (x ∷ xs) (suc k) b h e = All-get_elem? xs k b h.1 e

byte_at-read_from : (f : ℕ → ℕ) (a n k : ℕ) → k < n → byte_at (read_from f a n) k ≡ f (a + k) % 256
unfolding read_from
byte_at-read_from f a zero k h = absurd (omega arith)
byte_at-read_from f a (suc n) zero h = let at : a + 0 ≡ a = omega arith in rw at refl
byte_at-read_from f a (suc n) (suc k) h =
    let next : a + 1 + k ≡ a + suc k = omega arith in
    byte_at-read_from f (a + 1) n k (omega arith) ∙ ap (λ x. f x % 256) next

erase_sector-inside : (f : ℕ → ℕ) (a size k : ℕ) → k < size → erase_sector a size f (a + k) ≡ 255
unfolding erase_sector
erase_sector-inside f a size k h = ground arith

program_page-inside :
    (f : ℕ → ℕ) (a size k b : ℕ) (page : List ℕ)
    → All IsByte page
    → k < size
    → get_elem? page k ≡ some b
    → program_page a page (erase_sector a size f) (a + k) ≡ b
unfolding program_page and_into
program_page-inside f a size k b page h l e =
    let below : leb a (a + k) ≡ true = ground arith in
    let back : a + k - a ≡ k = omega arith in
    rw (below, back, e, erase_sector-inside f a size k l)
      (and_erased b (All-get_elem? page k b h e))

flash_part-IsPart : IsPart flash_part
unfolding flash_part
flash_part-IsPart = record {
  read_length = read_from-length;
  read_bytes = read_from-All;
  programmed = λ f a n size page h g room.
      read_from-take (program_page a page (erase_sector a size f)) a n page h g
        (λ k b e l. program_page-inside f a size k b page h (omega arith) e);
  erased = λ f a n size k g h.
      byte_at-read_from (erase_sector a size f) a n k h
      ∙ ap (λ x. x % 256) (erase_sector-inside f a size k (omega arith));
}

abbrev blank_flash : ℕ → ℕ
blank_flash x = 255

abbrev chosen : Settings
chosen = record default_settings { board = 8; role = 1 }

chosen-IsSettings : IsSettings chosen
chosen-IsSettings = ground arith

settings_save-succeeds_example : (settings_save flash_part 4190208 chosen blank_flash).0 ≡ true
settings_save-succeeds_example =
    settings_save-succeeds flash_part 4190208 flash_part-IsPart chosen blank_flash chosen-IsSettings

settings_set_board-load_example :
    let before = (settings_load flash_part 4190208 blank_flash).out in
    let saved = settings_set_board flash_part 4190208 core2 master blank_flash in
    let after = settings_load flash_part 4190208 saved.1 in
    (saved.0 ≡ true)
    × (after.valid ≡ true)
    × (after.out.board ≡ board_num core2)
    × (after.out.role ≡ role_num master)
    × (after.out.video ≡ before.video)
    × (after.out.board_rev ≡ before.board_rev)
    × (after.out.console ≡ before.console)
    × (after.out.unit_serial ≡ before.unit_serial)
settings_set_board-load_example =
    settings_set_board-load flash_part 4190208 flash_part-IsPart core2 master blank_flash

chosen_bytes : List ℕ
unfolding settings_bytes
chosen_bytes = settings_bytes (sealed chosen)

chosen_bytes-All : All IsByte chosen_bytes
unfolding chosen_bytes
chosen_bytes-All = settings_bytes-All (sealed chosen) (sealed-IsSettings chosen chosen-IsSettings)

chosen_bytes-length : length chosen_bytes ≡ settings_size
unfolding chosen_bytes
chosen_bytes-length =
    settings_bytes-length (sealed chosen) (sealed-IsSettings chosen chosen-IsSettings)

chosen_bytes-valid : (load_checked (settings_of chosen_bytes)).valid ≡ true
unfolding chosen_bytes
chosen_bytes-valid =
    ap (λ s. (load_checked s).valid)
      (settings_of-settings_bytes (sealed chosen) (sealed-IsSettings chosen chosen-IsSettings))
    ∙ ap (λ r. r.valid) (load_checked-sealed chosen (omega arith))

board_byte : 9 ≢ byte_at chosen_bytes 6
unfolding chosen_bytes settings_bytes summed_bytes sealed
board_byte = omega arith

load_checked-set_example : (load_checked (settings_of (set chosen_bytes 6 9))).valid ≡ false
load_checked-set_example =
    load_checked-set chosen_bytes 6 9 chosen_bytes-All chosen_bytes-length chosen_bytes-valid
      (omega arith) (omega arith) board_byte
