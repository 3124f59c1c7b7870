-- ===== src/Prelude/Bytes.antt =====
-- Little-endian words in byte lists, as the packed structs of the firmware lay them out.
use Prim.Native.Nat.{ℕ, zero, suc, ◌+◌, ◌*◌, ◌/◌, ◌%◌, ◌^◌, ◌<◌, ◌≤◌}
use mathlib.Core.Path.{◌≡◌, refl, ap}
use mathlib.Core.Logic.{◌≢◌}
use mathlib.Core.Option.{some}
use mathlib.Core.List.{List, [], ◌∷◌}
use frank_test.Prelude.Lists.{All, length, set, get_elem?, take, drop}
use native.Mathlib.Omega.{arith}

abbrev pub u8 : ℕ → ℕ
u8 n = n % 2 ^ 8

abbrev pub u16 : ℕ → ℕ
u16 n = n % 2 ^ 16

abbrev pub u32 : ℕ → ℕ
u32 n = n % 2 ^ 32

abbrev pub IsByte : ℕ → Type 0
IsByte b = b < 256

-- A word of two and of four bytes, lowest byte first.
abbrev pub le16 : ℕ → List ℕ
le16 n = n % 256 ∷ n / 256 % 256 ∷ []

abbrev pub le32 : ℕ → List ℕ
le32 n = n % 256 ∷ n / 256 % 256 ∷ n / 65536 % 256 ∷ n / 16777216 % 256 ∷ []

abbrev pub word16 : ℕ → ℕ → ℕ
word16 a b = a + b * 256

abbrev pub word32 : ℕ → ℕ → ℕ → ℕ → ℕ
word32 a b c d = a + b * 256 + c * 65536 + d * 16777216

-- A byte of a buffer; the models read within the buffer only.
abbrev pub byte_at : List ℕ → ℕ → ℕ
byte_at [] i = 0
byte_at (b ∷ bs) zero = b
byte_at (b ∷ bs) (suc i) = byte_at bs i

abbrev pub read16 : List ℕ → ℕ → ℕ
read16 f i = word16 (byte_at f i) (byte_at f (i + 1))

abbrev pub read32 : List ℕ → ℕ → ℕ
read32 f i = word32 (byte_at f i) (byte_at f (i + 1)) (byte_at f (i + 2)) (byte_at f (i + 3))

pub word32_of_le32 :
    (n : ℕ) → word32 (n % 256) (n / 256 % 256) (n / 65536 % 256) (n / 16777216 % 256) ≡ u32 n
word32_of_le32 n = omega arith

pub word16_of_le16 : (n : ℕ) → word16 (n % 256) (n / 256 % 256) ≡ u16 n
word16_of_le16 n = omega arith

-- A byte of a buffer after a write to it.
pub byte_at-set_ne : (f : List ℕ) (i j v : ℕ) → i ≢ j → byte_at (set f i v) j ≡ byte_at f j
byte_at-set_ne [] i j v h = refl
byte_at-set_ne (x ∷ f) zero zero v h = absurd (h refl)
byte_at-set_ne (x ∷ f) zero (suc j) v h = refl
byte_at-set_ne (x ∷ f) (suc i) zero v h = refl
byte_at-set_ne (x ∷ f) (suc i) (suc j) v h = byte_at-set_ne f i j v (λ e. h (ap suc e))

pub byte_at-set_self : (f : List ℕ) (i v : ℕ) → i < length f → byte_at (set f i v) i ≡ v
byte_at-set_self [] i v h = absurd (omega arith)
byte_at-set_self (x ∷ f) zero v h = refl
byte_at-set_self (x ∷ f) (suc i) v h = byte_at-set_self f i v (omega arith)

pub byte_at-IsByte : (f : List ℕ) (i : ℕ) → All IsByte f → IsByte (byte_at f i)
byte_at-IsByte [] i h = omega arith
byte_at-IsByte (x ∷ f) zero h = h.0
byte_at-IsByte (x ∷ f) (suc i) h = byte_at-IsByte f i h.1

pub get_elem?-eq-byte_at : (f : List ℕ) (i : ℕ) → i < length f → get_elem? f i ≡ some (byte_at f i)
get_elem?-eq-byte_at [] i h = absurd (omega arith)
get_elem?-eq-byte_at (x ∷ f) zero h = refl
get_elem?-eq-byte_at (x ∷ f) (suc i) h = get_elem?-eq-byte_at f i (omega arith)

pub word32_injective :
    (a b c d a' b' c' d' : ℕ)
    → IsByte a
    → IsByte b
    → IsByte c
    → IsByte d
    → IsByte a'
    → IsByte b'
    → IsByte c'
    → IsByte d'
    → word32 a b c d ≡ word32 a' b' c' d'
    → (a ≡ a') × (b ≡ b') × (c ≡ c') × (d ≡ d')
word32_injective a b c d a' b' c' d' h1 h2 h3 h4 h5 h6 h7 h8 e = omega arith

-- The bytes of a word that was read, within the buffer.
pub le16-read16 :
    (f : List ℕ) (i : ℕ) → All IsByte f → i + 2 ≤ length f → le16 (read16 f i) ≡ take 2 (drop i f)
le16-read16 [] i h g = absurd (omega arith)
le16-read16 (a ∷ []) zero h g = absurd (omega arith)
le16-read16 (a ∷ b ∷ f) zero h g =
    let low : word16 a b % 256 ≡ a = let p = h.0 in omega arith in
    let high : word16 a b / 256 % 256 ≡ b = let p = h.0 in let q = h.1.0 in omega arith in cc
le16-read16 (a ∷ f) (suc i) h g =
    let next : suc i + 1 ≡ suc (i + 1) = omega arith in rw next (le16-read16 f i h.1 (omega arith))

pub le32-read32 : (f : List ℕ) → All IsByte f → 4 ≤ length f → le32 (read32 f 0) ≡ take 4 f
le32-read32 [] h g = absurd (omega arith)
le32-read32 (a ∷ []) h g = absurd (omega arith)
le32-read32 (a ∷ b ∷ []) h g = absurd (omega arith)
le32-read32 (a ∷ b ∷ c ∷ []) h g = absurd (omega arith)
le32-read32 (a ∷ b ∷ c ∷ d ∷ f) h g =
    let pa = h.0 in
    let pb = h.1.0 in
    let pc = h.1.1.0 in
    let pd = h.1.1.1.0 in
    let w = word32 a b c d in
    let ea : w % 256 ≡ a = omega arith in
    let eb : w / 256 % 256 ≡ b = omega arith in
    let ec : w / 65536 % 256 ≡ c = omega arith in
    let ed : w / 16777216 % 256 ≡ d = omega arith in cc
