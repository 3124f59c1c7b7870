-- ===== src/Board/Other.antt =====
-- core/board_table.c: the descriptors of FRANK Next, Z0pa and the fallback.
use frank_test.Prelude.{◌*◌, some, none, [], false, ◌∷◌}
use frank_test.Board.{Board, any, next, rp2350b, single, unknown, z0pa}
use frank_test.Board.Caps.{
  caps_of, cap_audio_codec_i2c, cap_audio_i2s, cap_audio_pcm5122, cap_esp32_spi, cap_gamepad_nes,
  cap_i2c, cap_led_plain, cap_onewire_ds2401, cap_ps2, cap_psram_qmi, cap_rtc_ds3231, cap_sd,
  cap_sd_4bit, cap_tape_in, cap_usb_device, cap_usb_host, cap_usb_hub, cap_usb_mux,
  cap_video_composite, cap_video_hdmi, cap_video_vga,
}
use frank_test.Board.Signatures.{sig_next, sig_z0pa}
use frank_test.Board.Shorthands.{
  pins_i2s_tda, pins_none, pins_pad_nes, pins_ps2_txs, pins_sd_spi, pins_uart01,
}

unfoldable pub desc_next : Board
desc_next = record {
  id = next;
  name = "FRANK Next";
  slug = "next";
  mcu = rp2350b;
  role = single;
  caps = caps_of (
      cap_video_hdmi ∷ cap_audio_i2s ∷ cap_audio_codec_i2c ∷ cap_sd ∷ cap_sd_4bit ∷ cap_psram_qmi
      ∷ cap_i2c ∷ cap_rtc_ds3231 ∷ cap_onewire_ds2401 ∷ cap_gamepad_nes ∷ cap_tape_in
      ∷ cap_usb_device ∷ cap_usb_host ∷ cap_usb_hub ∷ cap_usb_mux ∷ cap_esp32_spi ∷ cap_led_plain
      ∷ []);
  pico_socket = false;
  pins = record (pins_pad_nes pins_none) {
    uart_tx = some 40;
    uart_rx = some 41;
    sd_clk = some 2;
    sd_cmd = some 3;
    sd_dat0 = some 4;
    sd_dat1 = some 5;
    sd_dat2 = some 6;
    sd_cs = some 7;
    i2s_clk_base = some 9;
    i2s_data = some 11;
    i2s_mclk = some 24;
    video_base = some 12;
    led_plain = some 25;
    psram_cs = some 47;
    i2c_sda = some 28;
    i2c_scl = some 29;
    onewire = some 23;
    tape_in = some 22;
    esp_uart_tx = some 1;
    esp_uart_rx = some 0;
    esp_mux_sel = some 30;
    esp_spi_miso = some 32;
    esp_spi_cs = some 33;
    esp_spi_sck = some 34;
    esp_spi_mosi = some 35;
    esp_hs = some 36;
    esp_ready = some 37;
    esp_chip_pu = some 38;
    esp_gpio0 = some 39;
  };
  sig = sig_next;
  flash_bytes = 16 * 1024 * 1024;
  psram_bytes = 8 * 1024 * 1024;
}

unfoldable pub desc_z0pa : Board
desc_z0pa = record {
  id = z0pa;
  name = "Z0pa";
  slug = "z0pa";
  mcu = rp2350b;
  role = single;
  caps = caps_of (
      cap_video_hdmi ∷ cap_psram_qmi ∷ cap_sd ∷ cap_ps2 ∷ cap_gamepad_nes ∷ cap_audio_i2s
      ∷ cap_audio_pcm5122 ∷ cap_i2c ∷ cap_usb_device ∷ cap_usb_host ∷ cap_led_plain ∷ []);
  pico_socket = false;
  pins = record (pins_uart01 pins_none) {
    sd_clk = some 30;
    sd_cmd = some 31;
    sd_dat0 = some 40;
    sd_cs = some 43;
    ps2_kb_clk = some 14;
    ps2_kb_dat = some 15;
    pad_clk = some 4;
    pad_latch = some 5;
    pad_d1 = some 7;
    pad_d2 = some 8;
    i2s_data = some 10;
    i2s_clk_base = some 11;
    i2s_mclk = none;
    pcm_i2s_data = some 21;
    pcm_i2s_clk_base = some 18;
    i2c_sda = some 2;
    i2c_scl = some 3;
    video_base = some 32;
    psram_cs = some 47;
    led_plain = some 25;
  };
  sig = sig_z0pa;
  flash_bytes = 0;
  psram_bytes = 0;
}

unfoldable pub fallback_desc : Board
fallback_desc = record {
  id = unknown;
  name = "Unidentified board";
  slug = "unknown";
  mcu = any;
  role = single;
  caps = caps_of (
      cap_video_hdmi ∷ cap_video_vga ∷ cap_video_composite ∷ cap_sd ∷ cap_audio_i2s ∷ cap_ps2
      ∷ cap_usb_device ∷ []);
  pico_socket = false;
  pins = record (pins_i2s_tda (pins_sd_spi (pins_ps2_txs (pins_uart01 pins_none)))) {
    video_base = some 12;
  };
  sig = [];
  flash_bytes = 0;
  psram_bytes = 0;
}
