-- ===== src/Request.antt =====
-- core/video_request.c, core/oc_request.c, and `main` of app/main.c: what one boot asks of the next,
-- in the watchdog's scratch registers.
pub mod Once
use frank_test.Prelude.{
  ℕ, ◌+◌, ◌*◌, ◌/◌, ◌%◌, ◌^◌, bit_and, bit_or, Bool, true, false, not, ◌&&◌, ◌||◌, Option, none,
  some, ◌==◌, ltb, if◌then◌else◌,
}
use frank_test.Prelude.Bytes.{u8, u16, u32}

-- `frank_video_mode_t`.
pub data VideoMode : Type 0 where
  video_auto video_hdmi video_vga video_composite video_none : VideoMode

abbrev pub mode_num : VideoMode → ℕ
mode_num video_auto = 0
mode_num video_hdmi = 1
mode_num video_vga = 2
mode_num video_composite = 3
mode_num video_none = 4

-- The cast `(frank_video_mode_t)mode` of a number that was checked.
abbrev pub mode_of : ℕ → VideoMode
mode_of n =
    if n == 1
    then video_hdmi
    else if n == 2
    then video_vga
    else if n == 3
    then video_composite
    else if n == 4
    then video_none
    else video_auto

-- The scratch registers that the firmware uses: 1 and 2, and 3.
pub record Scratch : Type 0 where
  pub oc_a : ℕ
  pub oc_b : ℕ
  pub req : ℕ

abbrev pub req_magic : ℕ
req_magic = 0x5644

abbrev pub oc_magic : ℕ
oc_magic = 0x4F43

unfoldable pub video_request_set : VideoMode → Scratch → Scratch
video_request_set mode s = record s { req = bit_or (u32 (req_magic * 2 ^ 16)) (mode_num mode) }

unfoldable pub video_request_of : ℕ → VideoMode
video_request_of v =
    let mode = bit_and v 0xFFFF in
    if not (v / 2 ^ 16 == req_magic)
    then video_auto
    else if ltb (mode_num video_none) mode
    then video_auto
    else mode_of mode

unfoldable pub video_request_take : Scratch → VideoMode × Scratch
video_request_take s = (video_request_of s.req, record s { req = 0 })

-- `oc_request_t`.
pub record OcRequest : Type 0 where
  pub cpu_mhz : ℕ
  pub vreg_sel : ℕ
  pub psram_mhz : ℕ
  pub flash_mhz : ℕ

unfoldable pub oc_request_set : OcRequest → Scratch → Scratch
oc_request_set r s = record s {
  oc_a = bit_or (u32 (oc_magic * 2 ^ 16)) r.cpu_mhz;
  oc_b = bit_or (bit_or (u32 (r.vreg_sel * 2 ^ 16)) (u32 (r.psram_mhz * 2 ^ 8))) r.flash_mhz;
}

unfoldable pub oc_request_of : ℕ → ℕ → Option OcRequest
oc_request_of a b =
    let cpu = u16 (bit_and a 0xFFFF) in
    if not (a / 2 ^ 16 == oc_magic)
    then none
    else if ltb cpu 48 || ltb 600 cpu
    then none
    else some (record {
      cpu_mhz = cpu;
      vreg_sel = u8 (bit_and (b / 2 ^ 16) 0xFF);
      psram_mhz = u8 (bit_and (b / 2 ^ 8) 0xFF);
      flash_mhz = u8 (bit_and b 0xFF);
    })

-- `none` is a return of false.
unfoldable pub oc_request_take : Scratch → Option OcRequest × Scratch
oc_request_take s = (oc_request_of s.oc_a s.oc_b, record s { oc_a = 0; oc_b = 0 })

-- `s_live` as the image starts, and the values that `main` starts from: the stock ones.
abbrev pub s_live : OcRequest
s_live = record { cpu_mhz = 252; vreg_sel = 0; psram_mhz = 133; flash_mhz = 88 }

unfoldable pub oc_request_note_applied : OcRequest → OcRequest → OcRequest
oc_request_note_applied r live = r

-- From what is noted, the frequency of the system clock in Hz and the regulator's setting.
unfoldable pub oc_request_current : OcRequest → ℕ → ℕ → OcRequest
oc_request_current live hz voltage = record live {
  cpu_mhz = u16 (hz / 1000000);
  vreg_sel = u8 voltage;
}

abbrev pub taken_or_stock : Option OcRequest → OcRequest
taken_or_stock none = record { cpu_mhz = 252; vreg_sel = 0; psram_mhz = 133; flash_mhz = 88 }
taken_or_stock (some r) = r

-- What `main` of app/main.c takes and, once it has set the regulator, the flash and the clock by it,
-- notes; and the registers afterwards.
unfoldable pub boot_overclock : OcRequest → Scratch → OcRequest × Scratch
unfolding oc_request_take oc_request_note_applied
boot_overclock live s =
    let taken = oc_request_take s in
    (oc_request_note_applied (taken_or_stock taken.0) live, taken.1)
