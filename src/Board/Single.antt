-- ===== src/Board/Single.antt =====
-- core/board_table.c: the descriptors of the boards with one processor, up to OldSkoolFRANK.
use frank_test.Prelude.{◌*◌, some, [], false, true, ◌∷◌}
use frank_test.Board.{
  Board, any, frank, frank_pga, megafrank, microfrank, minifrank, oldskoolfrank, rp2350a, rp2350b,
  single, zerofrank,
}
use frank_test.Board.Caps.{
  caps_of, cap_audio_amp, cap_audio_i2s, cap_audio_mux, cap_dipswitch, cap_esp01, cap_gamepad_db9,
  cap_gamepad_nes, cap_i2c, cap_led_plain, cap_onewire_ds2401, cap_pio_usb, cap_ps2, cap_psram_qmi,
  cap_psram_softspi, cap_rtc_ds3231, cap_sd, cap_tape_dip_gated, cap_tape_in, cap_turbosound,
  cap_usb_device, cap_usb_host, cap_usb_hub, cap_usb_mux, cap_video_composite, cap_video_hdmi,
  cap_video_vga,
}
use frank_test.Board.Signatures.{
  sig_frank_a, sig_frank_pga, sig_megafrank, sig_microfrank, sig_minifrank, sig_oldskoolfrank,
  sig_zerofrank,
}
use frank_test.Board.Shorthands.{
  pins_i2s_tda, pins_none, pins_pad_nes, pins_ps2_txs, pins_sd_spi, pins_uart01,
}

unfoldable pub desc_frank : Board
desc_frank = record {
  id = frank;
  name = "FRANK";
  slug = "frank";
  mcu = any;
  role = single;
  caps = caps_of (
      cap_video_hdmi ∷ cap_video_vga ∷ cap_video_composite ∷ cap_audio_i2s ∷ cap_audio_amp
      ∷ cap_audio_mux ∷ cap_sd ∷ cap_ps2 ∷ cap_gamepad_nes ∷ cap_tape_in ∷ cap_tape_dip_gated
      ∷ cap_dipswitch ∷ cap_usb_device ∷ cap_usb_host ∷ cap_usb_hub ∷ cap_esp01 ∷ cap_led_plain
      ∷ []);
  pico_socket = true;
  pins = record (pins_pad_nes (pins_i2s_tda (pins_sd_spi (pins_ps2_txs (pins_uart01 pins_none))))) {
    video_base = some 12;
    led_plain = some 25;
    esp_uart_tx = some 20;
    esp_uart_rx = some 21;
    tape_in = some 22;
    dip = some 22;
  };
  sig = sig_frank_a;
  flash_bytes = 0;
  psram_bytes = 0;
}

unfoldable pub desc_frank_pga : Board
desc_frank_pga = record {
  id = frank_pga;
  name = "FRANK PGA";
  slug = "pga";
  mcu = rp2350b;
  role = single;
  caps = caps_of (
      cap_video_hdmi ∷ cap_video_vga ∷ cap_video_composite ∷ cap_audio_i2s ∷ cap_audio_amp
      ∷ cap_audio_mux ∷ cap_sd ∷ cap_ps2 ∷ cap_gamepad_nes ∷ cap_tape_in ∷ cap_usb_device
      ∷ cap_usb_host ∷ cap_usb_hub ∷ cap_usb_mux ∷ cap_esp01 ∷ cap_led_plain ∷ []);
  pico_socket = false;
  pins = record (pins_pad_nes (pins_i2s_tda (pins_sd_spi (pins_ps2_txs (pins_uart01 pins_none))))) {
    video_base = some 12;
    led_plain = some 25;
    esp_uart_tx = some 38;
    esp_uart_rx = some 39;
    tape_in = some 22;
  };
  sig = sig_frank_pga;
  flash_bytes = 0;
  psram_bytes = 0;
}

unfoldable pub desc_megafrank : Board
desc_megafrank = record {
  id = megafrank;
  name = "MegaFRANK";
  slug = "mega";
  mcu = rp2350b;
  role = single;
  caps = caps_of (
      cap_video_hdmi ∷ cap_video_vga ∷ cap_video_composite ∷ cap_audio_i2s ∷ cap_audio_amp
      ∷ cap_audio_mux ∷ cap_turbosound ∷ cap_sd ∷ cap_ps2 ∷ cap_gamepad_nes ∷ cap_tape_in
      ∷ cap_tape_dip_gated ∷ cap_dipswitch ∷ cap_usb_device ∷ cap_usb_host ∷ cap_usb_hub
      ∷ cap_usb_mux ∷ cap_esp01 ∷ cap_led_plain ∷ cap_psram_softspi ∷ cap_i2c ∷ cap_rtc_ds3231
      ∷ cap_onewire_ds2401 ∷ []);
  pico_socket = false;
  pins = record (pins_pad_nes (pins_i2s_tda (pins_sd_spi (pins_ps2_txs (pins_uart01 pins_none))))) {
    video_base = some 12;
    led_plain = some 25;
    esp_uart_tx = some 38;
    esp_uart_rx = some 39;
    tape_in = some 22;
    dip = some 22;
    psram_soft_sclk = some 32;
    psram_soft_mosi = some 33;
    psram_soft_miso = some 34;
    psram_cs = some 31;
    i2c_sda = some 28;
    i2c_scl = some 29;
    onewire = some 30;
    ay_rclk = some 9;
    ay_srclk = some 10;
    ay_ser = some 11;
  };
  sig = sig_megafrank;
  flash_bytes = 0;
  psram_bytes = 8 * 1024 * 1024;
}

unfoldable pub desc_microfrank : Board
desc_microfrank = record {
  id = microfrank;
  name = "microFRANK";
  slug = "micro";
  mcu = rp2350a;
  role = single;
  caps = caps_of (
      cap_video_hdmi ∷ cap_audio_i2s ∷ cap_sd ∷ cap_psram_qmi ∷ cap_usb_device ∷ cap_usb_host
      ∷ cap_usb_hub ∷ cap_usb_mux ∷ cap_led_plain ∷ []);
  pico_socket = false;
  pins = record (pins_i2s_tda (pins_sd_spi (pins_uart01 pins_none))) {
    video_base = some 12;
    led_plain = some 25;
    psram_cs = some 8;
  };
  sig = sig_microfrank;
  flash_bytes = 16 * 1024 * 1024;
  psram_bytes = 8 * 1024 * 1024;
}

unfoldable pub desc_minifrank : Board
desc_minifrank = record {
  id = minifrank;
  name = "miniFRANK";
  slug = "mini";
  mcu = rp2350a;
  role = single;
  caps = caps_of (
      cap_video_hdmi ∷ cap_video_vga ∷ cap_audio_i2s ∷ cap_audio_mux ∷ cap_sd ∷ cap_psram_qmi
      ∷ cap_ps2 ∷ cap_gamepad_nes ∷ cap_tape_in ∷ cap_tape_dip_gated ∷ cap_dipswitch
      ∷ cap_usb_device ∷ cap_usb_host ∷ cap_usb_hub ∷ cap_usb_mux ∷ cap_esp01 ∷ cap_led_plain ∷ []);
  pico_socket = false;
  pins = record (pins_pad_nes (pins_i2s_tda (pins_sd_spi (pins_ps2_txs (pins_uart01 pins_none))))) {
    video_base = some 12;
    led_plain = some 25;
    psram_cs = some 8;
    esp_uart_tx = some 20;
    esp_uart_rx = some 21;
    tape_in = some 22;
    dip = some 22;
  };
  sig = sig_minifrank;
  flash_bytes = 16 * 1024 * 1024;
  psram_bytes = 8 * 1024 * 1024;
}

unfoldable pub desc_zerofrank : Board
desc_zerofrank = record {
  id = zerofrank;
  name = "zeroFRANK";
  slug = "zero";
  mcu = rp2350a;
  role = single;
  caps = caps_of (
      cap_video_hdmi ∷ cap_audio_i2s ∷ cap_sd ∷ cap_psram_qmi ∷ cap_usb_device ∷ cap_pio_usb
      ∷ cap_led_plain ∷ []);
  pico_socket = false;
  pins = record (pins_i2s_tda (pins_sd_spi (pins_uart01 pins_none))) {
    video_base = some 12;
    led_plain = some 25;
    psram_cs = some 8;
    pio_usb_dp = some 20;
  };
  sig = sig_zerofrank;
  flash_bytes = 16 * 1024 * 1024;
  psram_bytes = 8 * 1024 * 1024;
}

unfoldable pub desc_oldskoolfrank : Board
desc_oldskoolfrank = record {
  id = oldskoolfrank;
  name = "OldSkoolFRANK";
  slug = "oldskool";
  mcu = rp2350b;
  role = single;
  caps = caps_of (
      cap_video_hdmi ∷ cap_video_vga ∷ cap_audio_i2s ∷ cap_audio_amp ∷ cap_sd ∷ cap_ps2
      ∷ cap_gamepad_db9 ∷ cap_tape_in ∷ cap_usb_device ∷ cap_usb_host ∷ cap_usb_hub ∷ cap_usb_mux
      ∷ cap_esp01 ∷ cap_led_plain ∷ []);
  pico_socket = false;
  pins = record (pins_pad_nes (pins_i2s_tda (pins_sd_spi (pins_ps2_txs (pins_uart01 pins_none))))) {
    video_base = some 12;
    led_plain = some 25;
    esp_uart_tx = some 38;
    esp_uart_rx = some 39;
    tape_in = some 22;
  };
  sig = sig_oldskoolfrank;
  flash_bytes = 0;
  psram_bytes = 0;
}
