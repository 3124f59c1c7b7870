-- ===== src/Board/Linked.antt =====
-- core/board_table.c: the descriptors of the two halves of Core 2 and Core 2U.
use frank_test.Prelude.{◌*◌, some, [], false, ◌∷◌}
use frank_test.Board.{Board, core2, core2u, master, rp2350a, rp2350b, slave}
use frank_test.Board.Caps.{
  caps_of, cap_audio_i2s, cap_led_plain, cap_led_ws2812, cap_link, cap_psram_qmi, cap_sd,
  cap_tape_in, cap_usb_device, cap_usb_host, cap_usb_hub, cap_usb_mux, cap_video_hdmi,
}
use frank_test.Board.Signatures.{sig_core2_master, sig_core2_slave}
use frank_test.Board.Shorthands.{pins_i2s_tda, pins_none, pins_sd_spi, pins_uart01}

unfoldable pub desc_core2 : Board
desc_core2 = record {
  id = core2;
  name = "FRANK Core 2";
  slug = "core2";
  mcu = rp2350b;
  role = master;
  caps = caps_of (
      cap_video_hdmi ∷ cap_audio_i2s ∷ cap_sd ∷ cap_psram_qmi ∷ cap_link ∷ cap_usb_device
      ∷ cap_usb_host ∷ cap_led_ws2812 ∷ []);
  pico_socket = false;
  pins = record (pins_i2s_tda (pins_sd_spi (pins_uart01 pins_none))) {
    video_base = some 12;
    led_ws2812 = some 46;
    psram_cs = some 47;
    link_a_data = some 20;
    link_b_data = some 30;
    link_fs = some 40;
    link_db_out = some 41;
    link_db_in = some 42;
  };
  sig = sig_core2_master;
  flash_bytes = 16 * 1024 * 1024;
  psram_bytes = 8 * 1024 * 1024;
}

unfoldable pub desc_core2_slave : Board
desc_core2_slave = record {
  id = core2;
  name = "FRANK Core 2 (slave)";
  slug = "core2-slave";
  mcu = rp2350a;
  role = slave;
  caps = caps_of (cap_psram_qmi ∷ cap_link ∷ cap_usb_device ∷ cap_led_plain ∷ []);
  pico_socket = false;
  pins = record pins_none {
    uart_tx = some 24;
    uart_rx = some 25;
    led_plain = some 26;
    psram_cs = some 0;
    link_a_data = some 1;
    link_b_data = some 11;
    link_fs = some 21;
    link_db_in = some 22;
    link_db_out = some 23;
  };
  sig = sig_core2_slave;
  flash_bytes = 16 * 1024 * 1024;
  psram_bytes = 8 * 1024 * 1024;
}

unfoldable pub desc_core2u : Board
desc_core2u = record {
  id = core2u;
  name = "FRANK Core 2U";
  slug = "core2u";
  mcu = rp2350b;
  role = master;
  caps = caps_of (
      cap_video_hdmi ∷ cap_audio_i2s ∷ cap_sd ∷ cap_psram_qmi ∷ cap_link ∷ cap_tape_in
      ∷ cap_usb_device ∷ cap_usb_host ∷ cap_usb_hub ∷ cap_usb_mux ∷ cap_led_ws2812 ∷ []);
  pico_socket = false;
  pins = record (pins_i2s_tda (pins_sd_spi (pins_uart01 pins_none))) {
    video_base = some 12;
    led_ws2812 = some 46;
    psram_cs = some 47;
    tape_in = some 45;
    link_a_data = some 20;
    link_b_data = some 30;
    link_fs = some 40;
    link_db_out = some 41;
    link_db_in = some 42;
  };
  sig = sig_core2_master;
  flash_bytes = 16 * 1024 * 1024;
  psram_bytes = 8 * 1024 * 1024;
}

unfoldable pub desc_core2u_slave : Board
desc_core2u_slave = record {
  id = core2u;
  name = "FRANK Core 2U (slave)";
  slug = "core2u-slave";
  mcu = rp2350a;
  role = slave;
  caps = caps_of (cap_psram_qmi ∷ cap_link ∷ cap_usb_device ∷ cap_led_plain ∷ []);
  pico_socket = false;
  pins = record pins_none {
    uart_tx = some 24;
    uart_rx = some 25;
    led_plain = some 26;
    psram_cs = some 0;
    link_a_data = some 1;
    link_b_data = some 11;
    link_fs = some 21;
    link_db_in = some 22;
    link_db_out = some 23;
  };
  sig = sig_core2_slave;
  flash_bytes = 16 * 1024 * 1024;
  psram_bytes = 8 * 1024 * 1024;
}
