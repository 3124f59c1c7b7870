-- ===== src/Link/Frame/Corruption.antt =====
-- common/link_proto.c, `link_frame_check`: a frame with one byte changed.
use frank_test.Prelude.{
  ℕ, zero, suc, ◌<◌, ◌≤◌, ◌≡◌, ◌≢◌, refl, sym, ap, ◌∙◌, ◌⊎◌, inl, inr, true, false, List, [], ◌∷◌,
  some, length, length-set, set, All, arith,
}
use frank_test.Prelude.Bytes.{
  IsByte, byte_at, read32, byte_at-set_ne, byte_at-set_self, byte_at-IsByte, get_elem?-eq-byte_at,
  word32_injective,
}
use frank_test.Crc.{crc32}
use frank_test.Crc.Errors.{crc32-set_ne}
use frank_test.Register.Feed.{All-set}
use frank_test.Link.Frame.{link_ctrl_bytes, link_frame_check, zero_crc}

module _ {ℓ} {A : Type ℓ} where
  set_comm : (xs : List A) (i j : ℕ) (v w : A) → i ≢ j → set (set xs i v) j w ≡ set (set xs j w) i v
  set_comm [] i j v w h = refl
  set_comm (x ∷ xs) zero zero v w h = absurd (h refl)
  set_comm (x ∷ xs) zero (suc j) v w h = refl
  set_comm (x ∷ xs) (suc i) zero v w h = refl
  set_comm (x ∷ xs) (suc i) (suc j) v w h =
      ap (λ t. x ∷ t) (set_comm xs i j v w (λ e. h (ap suc e)))

  set_twice : (xs : List A) (i : ℕ) (v w : A) → set (set xs i v) i w ≡ set xs i w
  set_twice [] i v w = refl
  set_twice (x ∷ xs) zero v w = refl
  set_twice (x ∷ xs) (suc i) v w = ap (λ t. x ∷ t) (set_twice xs i v w)

-- A change outside the checksum field is still there in the copy that is summed.
zero_crc-set :
    (f : List ℕ) (i v : ℕ) → (i < 20) ⊎ (23 < i) → zero_crc (set f i v) ≡ set (zero_crc f) i v
unfolding zero_crc
zero_crc-set f i v far =
    rw
      (
        set_comm f i 20 v 0 (omega arith),
        set_comm (set f 20 0) i 21 v 0 (omega arith),
        set_comm (set (set f 20 0) 21 0) i 22 v 0 (omega arith),
        set_comm (set (set (set f 20 0) 21 0) 22 0) i 23 v 0 (omega arith),
      )
      refl

Field-cases : (i : ℕ) → 20 ≤ i → i ≤ 23 → (i ≡ 20) ⊎ ((i ≡ 21) ⊎ ((i ≡ 22) ⊎ (i ≡ 23)))
Field-cases i lo hi = omega arith

-- The field is one of four bytes; a change there is wiped from the copy.
zero_crc-set_inside : (f : List ℕ) (i v : ℕ) → 20 ≤ i → i ≤ 23 → zero_crc (set f i v) ≡ zero_crc f
unfolding zero_crc
zero_crc-set_inside f i v lo hi = elim (Field-cases i lo hi) [
  | inl a ↦ rw a (rw (set_twice f 20 v 0))
  | inr (inl b) ↦ rw b (rw (set_comm f 21 20 v 0 (omega arith), set_twice (set f 20 0) 21 v 0))
  | inr (inr (inl c)) ↦ rw c (
      rw (
        set_comm f 22 20 v 0 (omega arith),
        set_comm (set f 20 0) 22 21 v 0 (omega arith),
        set_twice (set (set f 20 0) 21 0) 22 v 0,
      ))
  | inr (inr (inr d)) ↦ rw d (
      rw (
        set_comm f 23 20 v 0 (omega arith),
        set_comm (set f 20 0) 23 21 v 0 (omega arith),
        set_comm (set (set f 20 0) 21 0) 23 22 v 0 (omega arith),
        set_twice (set (set (set f 20 0) 21 0) 22 0) 23 v 0,
      ))
]

check_needs_sum : (f : List ℕ) → crc32 (zero_crc f) ≢ read32 f 20 → link_frame_check f ≡ false
unfolding link_frame_check
check_needs_sum f h = ground arith

check_gives_sum : (f : List ℕ) → link_frame_check f ≡ true → crc32 (zero_crc f) ≡ read32 f 20
unfolding link_frame_check
check_gives_sum f h = ground arith

zero_crc-byte_at : (f : List ℕ) (i : ℕ) → (i < 20) ⊎ (23 < i) → byte_at (zero_crc f) i ≡ byte_at f i
unfolding zero_crc
zero_crc-byte_at f i far = rw (
  byte_at-set_ne (set (set (set f 20 0) 21 0) 22 0) 23 i 0 (omega arith),
  byte_at-set_ne (set (set f 20 0) 21 0) 22 i 0 (omega arith),
  byte_at-set_ne (set f 20 0) 21 i 0 (omega arith),
  byte_at-set_ne f 20 i 0 (omega arith),
)

zero_crc-length : (f : List ℕ) → length (zero_crc f) ≡ length f
unfolding zero_crc
zero_crc-length f =
    length-set (set (set (set f 20 0) 21 0) 22 0) 23 0
    ∙ length-set (set (set f 20 0) 21 0) 22 0
    ∙ length-set (set f 20 0) 21 0
    ∙ length-set f 20 0

zero_crc-IsByte : (f : List ℕ) → All IsByte f → All IsByte (zero_crc f)
unfolding zero_crc
zero_crc-IsByte f h =
    let z : IsByte 0 = omega arith in
    All-set _ 23 0 (All-set _ 22 0 (All-set _ 21 0 (All-set f 20 0 h z) z) z) z

read32-set_ne : (f : List ℕ) (i v : ℕ) → (i < 20) ⊎ (23 < i) → read32 (set f i v) 20 ≡ read32 f 20
read32-set_ne f i v far = omega (
  arith,
  byte_at-set_ne f i 20 v (omega arith),
  byte_at-set_ne f i 21 v (omega arith),
  byte_at-set_ne f i 22 v (omega arith),
  byte_at-set_ne f i 23 v (omega arith),
)

read32-set_injective :
    (f : List ℕ) (i v : ℕ)
    → All IsByte f
    → IsByte v
    → 20 ≤ i
    → i ≤ 23
    → i < length f
    → read32 (set f i v) 20 ≡ read32 f 20
    → v ≡ byte_at f i
read32-set_injective f i v h hv lo hi at e =
    let g = set f i v in
    let hg : All IsByte g = All-set f i v h hv in
    let same =
      word32_injective (byte_at g 20) (byte_at g 21) (byte_at g 22) (byte_at g 23) (byte_at f 20)
        (byte_at f 21) (byte_at f 22) (byte_at f 23) (byte_at-IsByte g 20 hg)
        (byte_at-IsByte g 21 hg) (byte_at-IsByte g 22 hg) (byte_at-IsByte g 23 hg)
        (byte_at-IsByte f 20 h) (byte_at-IsByte f 21 h) (byte_at-IsByte f 22 h)
        (byte_at-IsByte f 23 h) e in
    elim (Field-cases i lo hi) [
      | inl p ↦ cc (same.0, byte_at-set_self f i v at)
      | inr (inl p) ↦ cc (same.1, byte_at-set_self f i v at)
      | inr (inr (inl p)) ↦ cc (same.2, byte_at-set_self f i v at)
      | inr (inr (inr p)) ↦ cc (same.3, byte_at-set_self f i v at)
    ]

module _ (f : List ℕ) (i v : ℕ) (bytes : All IsByte f) (len : length f ≡ link_ctrl_bytes)
    (good : link_frame_check f ≡ true) (at : i < link_ctrl_bytes) (hv : IsByte v)
    (ne : v ≢ byte_at f i) where
  refused_outside : (i < 20) ⊎ (23 < i) → link_frame_check (set f i v) ≡ false
  refused_outside far = check_needs_sum (set f i v) (λ e.
      crc32-set_ne (zero_crc f) i v (byte_at f i) (zero_crc-IsByte f bytes) hv
        (get_elem?-eq-byte_at (zero_crc f) i (omega (arith, zero_crc-length f))
          ∙ ap some (zero_crc-byte_at f i far))
        ne
        (ap crc32 (sym (zero_crc-set f i v far))
          ∙ e
          ∙ read32-set_ne f i v far
          ∙ sym (check_gives_sum f good)))

  refused_inside : 20 ≤ i → i ≤ 23 → link_frame_check (set f i v) ≡ false
  refused_inside lo hi = check_needs_sum (set f i v) (λ e. ne (
      read32-set_injective f i v bytes hv lo hi (omega arith)
        (sym e ∙ ap crc32 (zero_crc-set_inside f i v lo hi) ∙ check_gives_sum f good)))

Place-cases : (i : ℕ) → ((i < 20) ⊎ (23 < i)) ⊎ ((20 ≤ i) × (i ≤ 23))
Place-cases i = ground arith

-- A frame with one byte changed, at any place and to any other byte, is refused.
pub link_frame_check-set :
    (f : List ℕ) (i v : ℕ)
    → All IsByte f
    → length f ≡ link_ctrl_bytes
    → link_frame_check f ≡ true
    → i < link_ctrl_bytes
    → IsByte v
    → v ≢ byte_at f i
    → link_frame_check (set f i v) ≡ false
link_frame_check-set f i v bytes len good at hv ne = elim (Place-cases i) [
  | inl far ↦ refused_outside f i v bytes len good at hv ne far
  | inr near ↦ refused_inside f i v bytes len good at hv ne near.0 near.1
]
