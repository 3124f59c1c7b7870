-- ===== src/Board/Caps.antt =====
-- core/frank_caps.h: the capability bits.
use frank_test.Prelude.{
  List, [], ◌∷◌, ℕ, ◌^◌, bit_or, bit_and, Bool, ◌==◌, if◌then◌else◌, true, false,
}

abbrev pub cap_psram_qmi : ℕ
cap_psram_qmi = 2 ^ 0

abbrev pub cap_psram_softspi : ℕ
cap_psram_softspi = 2 ^ 1

abbrev pub cap_sd : ℕ
cap_sd = 2 ^ 2

abbrev pub cap_sd_4bit : ℕ
cap_sd_4bit = 2 ^ 3

abbrev pub cap_video_hdmi : ℕ
cap_video_hdmi = 2 ^ 4

abbrev pub cap_video_vga : ℕ
cap_video_vga = 2 ^ 5

abbrev pub cap_video_composite : ℕ
cap_video_composite = 2 ^ 6

abbrev pub cap_audio_i2s : ℕ
cap_audio_i2s = 2 ^ 7

abbrev pub cap_audio_codec_i2c : ℕ
cap_audio_codec_i2c = 2 ^ 8

abbrev pub cap_audio_amp : ℕ
cap_audio_amp = 2 ^ 9

abbrev pub cap_audio_mux : ℕ
cap_audio_mux = 2 ^ 10

abbrev pub cap_turbosound : ℕ
cap_turbosound = 2 ^ 11

abbrev pub cap_usb_device : ℕ
cap_usb_device = 2 ^ 12

abbrev pub cap_usb_host : ℕ
cap_usb_host = 2 ^ 13

abbrev pub cap_usb_hub : ℕ
cap_usb_hub = 2 ^ 14

abbrev pub cap_usb_mux : ℕ
cap_usb_mux = 2 ^ 15

abbrev pub cap_pio_usb : ℕ
cap_pio_usb = 2 ^ 16

abbrev pub cap_ps2 : ℕ
cap_ps2 = 2 ^ 17

abbrev pub cap_gamepad_nes : ℕ
cap_gamepad_nes = 2 ^ 18

abbrev pub cap_gamepad_db9 : ℕ
cap_gamepad_db9 = 2 ^ 19

abbrev pub cap_tape_in : ℕ
cap_tape_in = 2 ^ 20

abbrev pub cap_tape_dip_gated : ℕ
cap_tape_dip_gated = 2 ^ 21

abbrev pub cap_rtc_ds3231 : ℕ
cap_rtc_ds3231 = 2 ^ 22

abbrev pub cap_onewire_ds2401 : ℕ
cap_onewire_ds2401 = 2 ^ 23

abbrev pub cap_i2c : ℕ
cap_i2c = 2 ^ 24

abbrev pub cap_esp01 : ℕ
cap_esp01 = 2 ^ 25

abbrev pub cap_esp32_spi : ℕ
cap_esp32_spi = 2 ^ 26

abbrev pub cap_link : ℕ
cap_link = 2 ^ 27

abbrev pub cap_led_ws2812 : ℕ
cap_led_ws2812 = 2 ^ 28

abbrev pub cap_led_plain : ℕ
cap_led_plain = 2 ^ 29

abbrev pub cap_dipswitch : ℕ
cap_dipswitch = 2 ^ 30

abbrev pub cap_audio_pcm5122 : ℕ
cap_audio_pcm5122 = 2 ^ 31

-- The bits of a mask, joined by `|`.
abbrev pub caps_of : List ℕ → ℕ
caps_of [] = 0
caps_of (c ∷ cs) = bit_or c (caps_of cs)

abbrev pub cap_video_any : ℕ
cap_video_any = caps_of (cap_video_hdmi ∷ cap_video_vga ∷ cap_video_composite ∷ [])

-- `(bool)(caps & mask)`: some bit of the mask is set.
abbrev pub any_cap : ℕ → ℕ → Bool
any_cap caps mask = if bit_and caps mask == 0 then false else true
