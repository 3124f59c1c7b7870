-- ===== src/Settings/Layout.antt =====
-- core/settings.h: the record and its bytes.
use frank_test.Prelude.{
  ℕ, zero, suc, ◌+◌, ◌-◌, ◌%◌, ◌/◌, ◌^◌, ◌<◌, ◌≡◌, refl, sym, ap, ◌∙◌, List, [], ◌∷◌, ◌++◌, length,
  length-append, take, drop, replicate, take_append, All, arith,
}
use frank_test.Prelude.Bytes.{IsByte, le16, le32, word16, word32, byte_at, read16, read32}
use frank_test.Settings.{Settings, settings_size, summed_bytes, settings_bytes, settings_of}

-- The fields are within their widths.
pub record IsSettings (s : Settings) : Type 0 where
  pub magic_fits : s.magic < 2 ^ 32
  pub version_fits : s.version < 2 ^ 16
  pub board_fits : s.board < 2 ^ 16
  pub role_fits : s.role < 2 ^ 16
  pub video_fits : s.video < 2 ^ 16
  pub board_rev_fits : s.board_rev < 2 ^ 16
  pub console_fits : s.console < 2 ^ 16
  pub serial_length : length s.unit_serial ≡ 8
  pub serial_bytes : All IsByte s.unit_serial
  pub crc_fits : s.crc < 2 ^ 32

le16-word : (n : ℕ) → n < 2 ^ 16 → word16 (n % 256) (n / 256 % 256) ≡ n
le16-word n h = omega arith

le32-word :
    (n : ℕ)
    → n < 2 ^ 32
    → word32 (n % 256) (n / 256 % 256) (n / 65536 % 256) (n / 16777216 % 256) ≡ n
le32-word n h = omega arith

byte_at_after : (xs ys : List ℕ) (k : ℕ) → byte_at (xs ++ ys) (length xs + k) ≡ byte_at ys k
byte_at_after [] ys k = let e : 0 + k ≡ k = omega arith in ap (λ i. byte_at ys i) e
byte_at_after (x ∷ xs) ys k =
    let e : suc (length xs) + k ≡ suc (length xs + k) = omega arith in rw e (byte_at_after xs ys k)

take_all {ℓ} : {A : Type ℓ} (n : ℕ) (xs : List A) → length xs ≡ n → take n xs ≡ xs
take_all zero [] h = refl
take_all zero (x ∷ xs) h = absurd (omega arith)
take_all (suc n) [] h = absurd (omega arith)
take_all (suc n) (x ∷ xs) h = ap (λ t. x ∷ t) (take_all n xs (omega arith))

pub settings_bytes-length :
    (s : Settings) → IsSettings s → length (settings_bytes s) ≡ settings_size
unfolding settings_bytes summed_bytes
settings_bytes-length s w =
    let e = take_all 8 s.unit_serial w.serial_length in
    rw e (omega (arith, length-append s.unit_serial (le32 s.crc), w.serial_length))

same_settings :
    (s t : Settings)
    → s.magic ≡ t.magic
    → s.version ≡ t.version
    → s.board ≡ t.board
    → s.role ≡ t.role
    → s.video ≡ t.video
    → s.board_rev ≡ t.board_rev
    → s.console ≡ t.console
    → s.unit_serial ≡ t.unit_serial
    → s.crc ≡ t.crc
    → s ≡ t
same_settings s t a b c d e f g h i = cc

-- A byte of what follows the serial number.
after_serial :
    (us rest : List ℕ) → length us ≡ 8 → (k : ℕ) → byte_at (us ++ rest) (8 + k) ≡ byte_at rest k
after_serial us rest h k = ap (λ n. byte_at (us ++ rest) (n + k)) (sym h) ∙ byte_at_after us rest k

pub take_prefix {ℓ} : {A : Type ℓ} (xs ys : List A) (n : ℕ) → length xs ≡ n → take n (xs ++ ys) ≡ xs
take_prefix xs ys n h = ap (λ k. take k (xs ++ ys)) (sym h) ∙ take_append xs ys

word32_cong :
    (a b c d a' b' c' d' : ℕ)
    → a ≡ a'
    → b ≡ b'
    → c ≡ c'
    → d ≡ d'
    → word32 a b c d ≡ word32 a' b' c' d'
word32_cong a b c d a' b' c' d' e f g h = cc

-- A record that is laid out in bytes and read back is the same.
pub settings_of-settings_bytes : (s : Settings) → IsSettings s → settings_of (settings_bytes s) ≡ s
unfolding settings_of settings_bytes summed_bytes
settings_of-settings_bytes s w =
    let us = take 8 s.unit_serial in
    let tail = le32 s.crc in
    let whole = take_all 8 s.unit_serial w.serial_length in
    let len : length us ≡ 8 = ap length whole ∙ w.serial_length in
    let b = after_serial us tail len in
    let f = us ++ tail in
    same_settings (settings_of (settings_bytes s)) s (le32-word s.magic w.magic_fits)
      (le16-word s.version w.version_fits) (le16-word s.board w.board_fits)
      (le16-word s.role w.role_fits) (le16-word s.video w.video_fits)
      (le16-word s.board_rev w.board_rev_fits) (le16-word s.console w.console_fits)
      (take_prefix us tail 8 len ∙ whole)
      (word32_cong (byte_at f 8) (byte_at f 9) (byte_at f 10) (byte_at f 11) (byte_at tail 0)
          (byte_at tail 1) (byte_at tail 2) (byte_at tail 3) (b 0) (b 1) (b 2) (b 3)
        ∙ le32-word s.crc w.crc_fits)

byte_at-lt : (f : List ℕ) (i : ℕ) → All IsByte f → byte_at f i < 256
byte_at-lt [] i h = omega arith
byte_at-lt (x ∷ f) zero h = h.0
byte_at-lt (x ∷ f) (suc i) h = byte_at-lt f i h.1

pub read16-lt : (f : List ℕ) (i : ℕ) → All IsByte f → read16 f i < 2 ^ 16
read16-lt f i h = omega (arith, byte_at-lt f i h, byte_at-lt f (i + 1) h)

pub read32-lt : (f : List ℕ) (i : ℕ) → All IsByte f → read32 f i < 2 ^ 32
read32-lt f i h = omega (
  arith,
  byte_at-lt f i h,
  byte_at-lt f (i + 1) h,
  byte_at-lt f (i + 2) h,
  byte_at-lt f (i + 3) h,
)

pub All-drop : (n : ℕ) (f : List ℕ) → All IsByte f → All IsByte (drop n f)
All-drop zero f h = h
All-drop (suc n) [] h = h
All-drop (suc n) (x ∷ f) h = All-drop n f h.1

pub All-take : (n : ℕ) (f : List ℕ) → All IsByte f → All IsByte (take n f)
All-take zero f h = tt
All-take (suc n) [] h = h
All-take (suc n) (x ∷ f) h = (h.0, All-take n f h.1)

pub length-drop : (n : ℕ) (f : List ℕ) → length (drop n f) ≡ length f - n
length-drop zero f = omega arith
length-drop (suc n) [] = omega arith
length-drop (suc n) (x ∷ f) = omega (arith, length-drop n f)

pub All-append : (xs ys : List ℕ) → All IsByte xs → All IsByte ys → All IsByte (xs ++ ys)
All-append [] ys h g = g
All-append (x ∷ xs) ys h g = (h.0, All-append xs ys h.1 g)

pub All-replicate : (n b : ℕ) → IsByte b → All IsByte (replicate n b)
All-replicate zero b h = tt
All-replicate (suc n) b h = (h, All-replicate n b h)

le16-All : (n : ℕ) → All IsByte (le16 n)
le16-All n = (omega arith, (omega arith, tt))

le32-All : (n : ℕ) → All IsByte (le32 n)
le32-All n = (omega arith, (omega arith, (omega arith, (omega arith, tt))))

pub settings_bytes-All : (s : Settings) → IsSettings s → All IsByte (settings_bytes s)
unfolding settings_bytes summed_bytes
settings_bytes-All s w =
    let t0 = take 8 s.unit_serial in
    let t1 = le16 s.console ++ t0 in
    let t2 = le16 s.board_rev ++ t1 in
    let t3 = le16 s.video ++ t2 in
    let t4 = le16 s.role ++ t3 in
    let t5 = le16 s.board ++ t4 in
    let t6 = le16 s.version ++ t5 in
    let h0 = All-take 8 s.unit_serial w.serial_bytes in
    let h1 = All-append (le16 s.console) t0 (le16-All s.console) h0 in
    let h2 = All-append (le16 s.board_rev) t1 (le16-All s.board_rev) h1 in
    let h3 = All-append (le16 s.video) t2 (le16-All s.video) h2 in
    let h4 = All-append (le16 s.role) t3 (le16-All s.role) h3 in
    let h5 = All-append (le16 s.board) t4 (le16-All s.board) h4 in
    let h6 = All-append (le16 s.version) t5 (le16-All s.version) h5 in
    let summed = All-append (le32 s.magic) t6 (le32-All s.magic) h6 in
    All-append (summed_bytes s) (le32 s.crc) summed (le32-All s.crc)
