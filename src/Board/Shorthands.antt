-- ===== src/Board/Shorthands.antt =====
-- core/board_table.c: PINS_NONE and the shorthands for the conventions of the fleet. Each sets its
-- fields over the pins so far, as a later initialiser does.
use frank_test.Prelude.{some, none}
use frank_test.Board.{Pins}

abbrev pub pins_none : Pins
pins_none = record {
  uart_tx = none;
  uart_rx = none;
  ps2_kb_clk = none;
  ps2_kb_dat = none;
  ps2_ms_clk = none;
  ps2_ms_dat = none;
  sd_dat0 = none;
  sd_cs = none;
  sd_clk = none;
  sd_cmd = none;
  sd_dat1 = none;
  sd_dat2 = none;
  i2s_data = none;
  i2s_clk_base = none;
  i2s_mclk = none;
  pcm_i2s_data = none;
  pcm_i2s_clk_base = none;
  video_base = none;
  psram_cs = none;
  psram_soft_sclk = none;
  psram_soft_mosi = none;
  psram_soft_miso = none;
  led_ws2812 = none;
  led_plain = none;
  esp_uart_tx = none;
  esp_uart_rx = none;
  esp_chip_pu = none;
  esp_gpio0 = none;
  esp_spi_miso = none;
  esp_spi_cs = none;
  esp_spi_sck = none;
  esp_spi_mosi = none;
  esp_hs = none;
  esp_ready = none;
  esp_mux_sel = none;
  pad_latch = none;
  pad_clk = none;
  pad_d1 = none;
  pad_d2 = none;
  tape_in = none;
  i2c_sda = none;
  i2c_scl = none;
  onewire = none;
  pio_usb_dp = none;
  ay_rclk = none;
  ay_srclk = none;
  ay_ser = none;
  dip = none;
  link_a_data = none;
  link_b_data = none;
  link_fs = none;
  link_db_out = none;
  link_db_in = none;
}

abbrev pub pins_sd_spi : Pins → Pins
pins_sd_spi p = record p {
  sd_dat0 = some 4;
  sd_cs = some 5;
  sd_clk = some 6;
  sd_cmd = some 7;
  sd_dat1 = none;
  sd_dat2 = none;
}

abbrev pub pins_i2s_tda : Pins → Pins
pins_i2s_tda p = record p { i2s_data = some 9; i2s_clk_base = some 10; i2s_mclk = none }

abbrev pub pins_ps2_txs : Pins → Pins
pins_ps2_txs p = record p {
  ps2_ms_clk = some 0;
  ps2_ms_dat = some 1;
  ps2_kb_clk = some 2;
  ps2_kb_dat = some 3;
}

abbrev pub pins_pad_nes : Pins → Pins
pins_pad_nes p = record p {
  pad_clk = some 20;
  pad_latch = some 21;
  pad_d1 = some 26;
  pad_d2 = some 27;
}

abbrev pub pins_uart01 : Pins → Pins
pins_uart01 p = record p { uart_tx = some 0; uart_rx = some 1 }
