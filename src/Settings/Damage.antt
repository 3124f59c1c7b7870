-- ===== src/Settings/Damage.antt =====
-- core/settings.c: the stored record under the change of one byte.
use frank_test.Prelude.{
  ℕ, zero, suc, ◌+◌, ◌<◌, ◌≤◌, ◌≡◌, ◌≢◌, refl, sym, ap, ◌∙◌, ◌⊎◌, inl, inr, true, false, List, [],
  ◌∷◌, ◌++◌, some, length, length-set, set, take, drop, get_elem?, All, arith, Bool-cases,
}
use frank_test.Prelude.Bytes.{
  IsByte, byte_at, read16, read32, le16, le32, byte_at-set_ne, byte_at-set_self, byte_at-IsByte,
  get_elem?-eq-byte_at, word32_injective, le16-read16, le32-read32,
}
use frank_test.Register.Feed.{All-set}
use frank_test.Crc.{crc32}
use frank_test.Crc.Errors.{crc32-set_ne}
use frank_test.Settings.{settings_size, summed_bytes, settings_of, record_crc, load_checked}
use frank_test.Settings.Layout.{All-take}
use frank_test.Settings.Checks.{load_checked-cases}

module _ {ℓ} {A : Type ℓ} where
  drop-drop : (i n : ℕ) (f : List A) → drop n (drop i f) ≡ drop (i + n) f
  drop-drop zero n f = let e : 0 + n ≡ n = omega arith in rw e refl
  drop-drop (suc i) zero [] = let e : suc i + 0 ≡ suc (i + 0) = omega arith in rw e refl
  drop-drop (suc i) (suc n) [] = let e : suc i + suc n ≡ suc (i + suc n) = omega arith in rw e refl
  drop-drop (suc i) n (x ∷ f) =
      let e : suc i + n ≡ suc (i + n) = omega arith in rw e (drop-drop i n f)

  take_split : (n m : ℕ) (f : List A) → take n f ++ take m (drop n f) ≡ take (n + m) f
  take_split zero m f = let e : 0 + m ≡ m = omega arith in rw e refl
  take_split (suc n) zero [] = let e : suc n + 0 ≡ suc (n + 0) = omega arith in rw e refl
  take_split (suc n) (suc m) [] = let e : suc n + suc m ≡ suc (n + suc m) = omega arith in rw e refl
  take_split (suc n) m (x ∷ f) =
      let e : suc n + m ≡ suc (n + m) = omega arith in rw e (ap (λ t. x ∷ t) (take_split n m f))

  take_twice : (n : ℕ) (f : List A) → take n (take n f) ≡ take n f
  take_twice zero f = refl
  take_twice (suc n) [] = refl
  take_twice (suc n) (x ∷ f) = ap (λ t. x ∷ t) (take_twice n f)

  take-set_inside : (n i : ℕ) (f : List A) (v : A) → i < n → take n (set f i v) ≡ set (take n f) i v
  take-set_inside zero i f v h = absurd (omega arith)
  take-set_inside (suc n) i [] v h = refl
  take-set_inside (suc n) zero (x ∷ f) v h = refl
  take-set_inside (suc n) (suc i) (x ∷ f) v h =
      ap (λ t. x ∷ t) (take-set_inside n i f v (omega arith))

  get_elem?-take : (n i : ℕ) (f : List A) → i < n → get_elem? (take n f) i ≡ get_elem? f i
  get_elem?-take zero i f h = absurd (omega arith)
  get_elem?-take (suc n) i [] h = refl
  get_elem?-take (suc n) zero (x ∷ f) h = refl
  get_elem?-take (suc n) (suc i) (x ∷ f) h = get_elem?-take n i f (omega arith)

  take-set_outside : (n i : ℕ) (f : List A) (v : A) → n ≤ i → take n (set f i v) ≡ take n f
  take-set_outside zero i f v h = refl
  take-set_outside (suc n) i [] v h = refl
  take-set_outside (suc n) zero (x ∷ f) v h = absurd (omega arith)
  take-set_outside (suc n) (suc i) (x ∷ f) v h =
      ap (λ t. x ∷ t) (take-set_outside n i f v (omega arith))

-- A field before the bytes that follow it.
field_before :
    (f : List ℕ) (i m : ℕ) (rest : List ℕ)
    → All IsByte f
    → i + 2 ≤ length f
    → rest ≡ take m (drop (i + 2) f)
    → le16 (read16 f i) ++ rest ≡ take (2 + m) (drop i f)
field_before f i m rest h g e =
    let here = le16-read16 f i h g in
    let split = take_split 2 m (drop i f) in
    let after = ap (take m) (drop-drop i 2 f) in
    ap (λ t. t ++ rest) here ∙ ap (λ t. take 2 (drop i f) ++ t) (e ∙ sym after) ∙ split

-- The summed part of a record that was read is what was read.
summed_bytes-settings_of :
    (f : List ℕ)
    → All IsByte f
    → length f ≡ settings_size
    → summed_bytes (settings_of f) ≡ take 24 f
unfolding summed_bytes settings_of
summed_bytes-settings_of f h g =
    let serial = take_twice 8 (drop 16 f) in
    let r14 = field_before f 14 8 _ h (omega arith) serial in
    let r12 = field_before f 12 10 _ h (omega arith) r14 in
    let r10 = field_before f 10 12 _ h (omega arith) r12 in
    let r8 = field_before f 8 14 _ h (omega arith) r10 in
    let r6 = field_before f 6 16 _ h (omega arith) r8 in
    let r4 = field_before f 4 18 _ h (omega arith) r6 in
    let magic = le32-read32 f h (omega arith) in
    ap (λ t. le32 (read32 f 0) ++ t) r4
    ∙ ap (λ t. t ++ take 20 (drop 4 f)) magic
    ∙ take_split 4 20 f

settings_of-crc : (f : List ℕ) → (settings_of f).crc ≡ read32 f 24
unfolding settings_of
settings_of-crc f = refl

-- An accepted record carries the checksum of its summed part.
accepted_sum :
    (f : List ℕ)
    → All IsByte f
    → length f ≡ settings_size
    → (load_checked (settings_of f)).valid ≡ true
    → read32 f 24 ≡ crc32 (take 24 f)
unfolding record_crc
accepted_sum f h g ok =
    let (same, magic, version, sum, board) = (load_checked-cases (settings_of f)).1 ok in
    sym (settings_of-crc f) ∙ sum ∙ ap crc32 (summed_bytes-settings_of f h g)

read32-set_below : (f : List ℕ) (i v : ℕ) → i < 24 → read32 (set f i v) 24 ≡ read32 f 24
read32-set_below f i v h =
    let a = byte_at-set_ne f i 24 v (omega arith) in
    let b = byte_at-set_ne f i 25 v (omega arith) in
    let c = byte_at-set_ne f i 26 v (omega arith) in
    let d = byte_at-set_ne f i 27 v (omega arith) in cc

Crc_byte-cases : (i : ℕ) → 24 ≤ i → i < 28 → (i ≡ 24) ⊎ ((i ≡ 25) ⊎ ((i ≡ 26) ⊎ (i ≡ 27)))
Crc_byte-cases i h g = ground arith

read32-set_crc :
    (f : List ℕ) (i v : ℕ)
    → All IsByte f
    → IsByte v
    → 24 ≤ i
    → i < 28
    → i < length f
    → read32 (set f i v) 24 ≡ read32 f 24
    → v ≡ byte_at f i
read32-set_crc f i v h hv lo hi at e =
    let g = set f i v in
    let hg : All IsByte g = All-set f i v h hv in
    let same =
      word32_injective (byte_at g 24) (byte_at g 25) (byte_at g 26) (byte_at g 27) (byte_at f 24)
        (byte_at f 25) (byte_at f 26) (byte_at f 27) (byte_at-IsByte g 24 hg)
        (byte_at-IsByte g 25 hg) (byte_at-IsByte g 26 hg) (byte_at-IsByte g 27 hg)
        (byte_at-IsByte f 24 h) (byte_at-IsByte f 25 h) (byte_at-IsByte f 26 h)
        (byte_at-IsByte f 27 h) e in
    elim (Crc_byte-cases i lo hi) [
      | inl p ↦ cc (same.0, byte_at-set_self f i v at)
      | inr (inl p) ↦ cc (same.1, byte_at-set_self f i v at)
      | inr (inr (inl p)) ↦ cc (same.2, byte_at-set_self f i v at)
      | inr (inr (inr p)) ↦ cc (same.3, byte_at-set_self f i v at)
    ]

module _ (f : List ℕ) (i v : ℕ) (bytes : All IsByte f) (len : length f ≡ settings_size)
    (good : (load_checked (settings_of f)).valid ≡ true) (hv : IsByte v)
    (ne : v ≢ byte_at f i) where
  damaged_sum :
      i < settings_size
      → (load_checked (settings_of (set f i v))).valid ≡ true
      → read32 (set f i v) 24 ≡ crc32 (take 24 (set f i v))
  damaged_sum at ok = accepted_sum (set f i v) (All-set f i v bytes hv) (length-set f i v ∙ len) ok

  not_in_fields : i < 24 → (load_checked (settings_of (set f i v))).valid ≢ true
  not_in_fields at ok =
      let front = take 24 f in
      let there : get_elem? front i ≡ some (byte_at f i) =
        get_elem?-take 24 i f at ∙ get_elem?-eq-byte_at f i (omega arith) in
      crc32-set_ne front i v (byte_at f i) (All-take 24 f bytes) hv there ne (
        ap crc32 (sym (take-set_inside 24 i f v at))
        ∙ sym (damaged_sum (omega arith) ok)
        ∙ read32-set_below f i v at
        ∙ accepted_sum f bytes len good)

  not_in_crc : 24 ≤ i → i < settings_size → (load_checked (settings_of (set f i v))).valid ≢ true
  not_in_crc lo hi ok = ne (
      read32-set_crc f i v bytes hv lo hi (omega arith) (
        damaged_sum hi ok
        ∙ ap crc32 (take-set_outside 24 i f v lo)
        ∙ sym (accepted_sum f bytes len good)))

Half-cases : (i : ℕ) → (i < 24) ⊎ (24 ≤ i)
Half-cases i = ground arith

-- A stored record that is accepted no longer is with any one of its bytes changed.
pub load_checked-set :
    (f : List ℕ) (i v : ℕ)
    → All IsByte f
    → length f ≡ settings_size
    → (load_checked (settings_of f)).valid ≡ true
    → i < settings_size
    → IsByte v
    → v ≢ byte_at f i
    → (load_checked (settings_of (set f i v))).valid ≡ false
load_checked-set f i v bytes len good at hv ne =
    elim (Bool-cases (load_checked (settings_of (set f i v))).valid) [
      | inr refused ↦ refused
      | inl ok ↦ elim (Half-cases i) [
        | inl low ↦ absurd (not_in_fields f i v bytes len good hv ne low ok)
        | inr high ↦ absurd (not_in_crc f i v bytes len good hv ne high at ok)
      ]
    ]
