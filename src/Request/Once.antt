-- ===== src/Request/Once.antt =====
-- core/video_request.c, core/oc_request.c: making a request and taking it.
use frank_test.Prelude.{
  ℕ, ◌+◌, ◌*◌, ◌/◌, ◌^◌, ◌≤◌, ◌<◌, ◌≡◌, refl, sym, ◌∙◌, bit_and, bit_or, true, false, ◌||◌, none,
  some, ◌==◌, ==→eq, ltb, arith, Bool-cases, inl, inr,
}
use frank_test.Prelude.Bytes.{u8, u16, u32}
use frank_test.Prelude.Masks.{or_shifted, and_low}
use frank_test.Request.{
  VideoMode, video_auto, video_hdmi, video_vga, video_composite, video_none, mode_num, mode_of,
  Scratch, req_magic, oc_magic, video_request_set, video_request_of, video_request_take, OcRequest,
  oc_request_set, oc_request_of, oc_request_take,
}

mode_num-lt : (m : VideoMode) → mode_num m < 5
mode_num-lt m = ground arith

mode_of-mode_num : (m : VideoMode) → mode_of (mode_num m) ≡ m
mode_of-mode_num m = ground arith

video_request_of-packed :
    (m : VideoMode) → video_request_of (bit_or (u32 (req_magic * 2 ^ 16)) (mode_num m)) ≡ m
unfolding video_request_of
video_request_of-packed video_auto = refl
video_request_of-packed video_hdmi = refl
video_request_of-packed video_vga = refl
video_request_of-packed video_composite = refl
video_request_of-packed video_none = refl

pub video_request_of_zero : video_request_of 0 ≡ video_auto
unfolding video_request_of
video_request_of_zero = refl

-- A request for a mode is taken once: it comes back as it was made, and the second time there is
-- none. The overclock request beside it is as before.
video_request-once :
    (m : VideoMode) (s : Scratch)
    → let asked = video_request_set m s in
      let taken = video_request_take asked in
      (taken.0 ≡ m)
      × ((video_request_take taken.1).0 ≡ video_auto)
      × ((oc_request_take asked).0 ≡ (oc_request_take s).0)
      × ((oc_request_take taken.1).0 ≡ (oc_request_take s).0)
unfolding video_request_set video_request_take oc_request_take
video_request-once m s = (video_request_of-packed m, video_request_of_zero, refl, refl)

-- The fields are within their widths, and the clock is one that a request may ask for.
pub record IsOcRequest (r : OcRequest) : Type 0 where
  pub cpu_low : 48 ≤ r.cpu_mhz
  pub cpu_high : r.cpu_mhz ≤ 600
  pub vreg_fits : r.vreg_sel < 2 ^ 8
  pub psram_fits : r.psram_mhz < 2 ^ 8
  pub flash_fits : r.flash_mhz < 2 ^ 8

same_request :
    (r t : OcRequest)
    → r.cpu_mhz ≡ t.cpu_mhz
    → r.vreg_sel ≡ t.vreg_sel
    → r.psram_mhz ≡ t.psram_mhz
    → r.flash_mhz ≡ t.flash_mhz
    → r ≡ t
same_request r t a b c d = cc

pack_a : (cpu : ℕ) → cpu < 2 ^ 16 → bit_or (u32 (oc_magic * 2 ^ 16)) cpu ≡ oc_magic * 2 ^ 16 + cpu
pack_a cpu h = or_shifted 16 oc_magic cpu h

pack_b :
    (v p f : ℕ)
    → v < 2 ^ 8
    → p < 2 ^ 8
    → f < 2 ^ 8
    → bit_or (bit_or (u32 (v * 2 ^ 16)) (u32 (p * 2 ^ 8))) f ≡ v * 65536 + p * 256 + f
pack_b v p f hv hp hf =
    let ev : u32 (v * 2 ^ 16) ≡ v * 2 ^ 16 = omega arith in
    let ep : u32 (p * 2 ^ 8) ≡ p * 2 ^ 8 = omega arith in
    let joined : v * 2 ^ 16 + p * 2 ^ 8 ≡ (v * 256 + p) * 2 ^ 8 = omega arith in
    rw (ev, ep, or_shifted 16 v (p * 2 ^ 8) (omega arith), joined)
      (or_shifted 8 (v * 256 + p) f hf ∙ omega arith)

oc_request_of-packed :
    (r : OcRequest)
    → IsOcRequest r
    → oc_request_of
        (oc_magic * 2 ^ 16 + r.cpu_mhz)
        (r.vreg_sel * 65536 + r.psram_mhz * 256 + r.flash_mhz)
      ≡ some r
unfolding oc_request_of
oc_request_of-packed r w =
    let a = oc_magic * 2 ^ 16 + r.cpu_mhz in
    let b = r.vreg_sel * 65536 + r.psram_mhz * 256 + r.flash_mhz in
    let magic : (a / 2 ^ 16 == oc_magic) ≡ true = ground arith in
    let cpu : u16 (bit_and a 0xFFFF) ≡ r.cpu_mhz = omega (arith, and_low 16 a) in
    let low : ltb r.cpu_mhz 48 ≡ false = ground arith in
    let high : ltb 600 r.cpu_mhz ≡ false = ground arith in
    let vreg : u8 (bit_and (b / 2 ^ 16) 0xFF) ≡ r.vreg_sel =
      omega (arith, and_low 8 (b / 2 ^ 16)) in
    let psram : u8 (bit_and (b / 2 ^ 8) 0xFF) ≡ r.psram_mhz =
      omega (arith, and_low 8 (b / 2 ^ 8)) in
    let flash : u8 (bit_and b 0xFF) ≡ r.flash_mhz = omega (arith, and_low 8 b) in
    rw (magic, cpu, low, high, vreg, psram, flash) refl

oc_request_of_zero : oc_request_of 0 0 ≡ none
unfolding oc_request_of
oc_request_of_zero = refl

-- An overclock request.
module _ (r : OcRequest) (s : Scratch) where
  oc_request_take-set : IsOcRequest r → (oc_request_take (oc_request_set r s)).0 ≡ some r
  unfolding oc_request_take oc_request_set
  oc_request_take-set w =
      rw
        (
          pack_a r.cpu_mhz (let h = w.cpu_high in omega arith),
          pack_b r.vreg_sel r.psram_mhz r.flash_mhz w.vreg_fits w.psram_fits w.flash_fits,
        )
        (oc_request_of-packed r w)

  -- An overclock request within the widths is taken once: it comes back as it was made, and the
  -- second time there is none. The video request beside it is as before.
  oc_request-once :
      IsOcRequest r
      → let asked = oc_request_set r s in
        let taken = oc_request_take asked in
        (taken.0 ≡ some r)
        × ((oc_request_take taken.1).0 ≡ none)
        × ((video_request_take asked).0 ≡ (video_request_take s).0)
        × ((video_request_take taken.1).0 ≡ (video_request_take s).0)
  unfolding oc_request_set oc_request_take video_request_take
  oc_request-once w = (oc_request_take-set w, oc_request_of_zero, refl, refl)

-- Whatever the registers hold after a cold boot, a request that is taken has the magic in its first
-- register, asks for a clock of 48 to 600 MHz, and has its other fields within a byte.
oc_request_take-sane :
    (s : Scratch) (r : OcRequest)
    → (oc_request_take s).0 ≡ some r
    → (s.oc_a / 2 ^ 16 ≡ oc_magic) × IsOcRequest r
unfolding oc_request_take oc_request_of
oc_request_take-sane s r h =
    let cpu = u16 (bit_and s.oc_a 0xFFFF) in
    elim (Bool-cases (s.oc_a / 2 ^ 16 == oc_magic)) [
      | inr other ↦ let none_taken = rw other at h in cc
      | inl magic ↦ elim (Bool-cases (ltb cpu 48 || ltb 600 cpu)) [
        | inl outside ↦ let none_taken = rw (magic, outside) at h in cc
        | inr inside ↦
            let taken = rw (magic, inside) at h in
            let out : OcRequest = record {
              cpu_mhz = cpu;
              vreg_sel = u8 (bit_and (s.oc_b / 2 ^ 16) 0xFF);
              psram_mhz = u8 (bit_and (s.oc_b / 2 ^ 8) 0xFF);
              flash_mhz = u8 (bit_and s.oc_b 0xFF);
            } in
            let same : out ≡ r = cc in
            let sane : IsOcRequest out = record {
              cpu_low = ground arith;
              cpu_high = ground arith;
              vreg_fits = omega arith;
              psram_fits = omega arith;
              flash_fits = omega arith;
            } in
            (==→eq (s.oc_a / 2 ^ 16) oc_magic magic, rw (sym same) sane)
      ]
    ]
