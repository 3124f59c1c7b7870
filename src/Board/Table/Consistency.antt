-- ===== src/Board/Table/Consistency.antt =====
-- core/board_table.c: pins, capabilities, status LED and signature of the descriptors.
use frank_test.Prelude.{
  ℕ, ◌+◌, ◌≡◌, refl, List, [], ◌∷◌, none, some, Bool, true, false, not, ◌&&◌, ◌||◌, ltb, leb, ◌==◌,
  every, length, map,
}
use frank_test.Board.{Board, McuClass, Pin, Pins, SigEntry, rp2350a, rp2350b, any}
use frank_test.Board.Caps.{
  any_cap, cap_psram_qmi, cap_psram_softspi, cap_sd, cap_sd_4bit, cap_video_any, cap_audio_i2s,
  cap_audio_pcm5122, cap_turbosound, cap_pio_usb, cap_ps2, cap_gamepad_nes, cap_gamepad_db9,
  cap_tape_in, cap_onewire_ds2401, cap_i2c, cap_esp01, cap_esp32_spi, cap_link, cap_led_ws2812,
  cap_led_plain, cap_dipswitch,
}
use frank_test.Board.Single.{
  desc_frank, desc_frank_pga, desc_megafrank, desc_microfrank, desc_minifrank, desc_zerofrank,
  desc_oldskoolfrank,
}
use frank_test.Board.Linked.{desc_core2, desc_core2_slave, desc_core2u, desc_core2u_slave}
use frank_test.Board.Other.{desc_next, desc_z0pa}
use frank_test.Board.Table.{frank_board_table}

-- How many GPIOs the package brings out; a board for any package has those of the smaller.
gpio_count : McuClass → ℕ
gpio_count rp2350a = 30
gpio_count rp2350b = 48
gpio_count any = 30

pin_below : ℕ → ℕ → Pin → Bool
pin_below n extra none = true
pin_below n extra (some p) = ltb (p + extra) n

-- Every pin, with the last pin of the groups that are given by their first: two I2S clocks, eight
-- video pins, two PIO-USB lines, and the ten lines of each link bus.
pins_fit : ℕ → Pins → Bool
unfolding pin_below
pins_fit n p =
    every (pin_below n 0) (
      p.uart_tx ∷ p.uart_rx ∷ p.ps2_kb_clk ∷ p.ps2_kb_dat ∷ p.ps2_ms_clk ∷ p.ps2_ms_dat ∷ p.sd_dat0
      ∷ p.sd_cs ∷ p.sd_clk ∷ p.sd_cmd ∷ p.sd_dat1 ∷ p.sd_dat2 ∷ p.i2s_data ∷ p.i2s_mclk
      ∷ p.pcm_i2s_data ∷ p.psram_cs ∷ p.psram_soft_sclk ∷ p.psram_soft_mosi ∷ p.psram_soft_miso
      ∷ p.led_ws2812 ∷ p.led_plain ∷ p.esp_uart_tx ∷ p.esp_uart_rx ∷ p.esp_chip_pu ∷ p.esp_gpio0
      ∷ p.esp_spi_miso ∷ p.esp_spi_cs ∷ p.esp_spi_sck ∷ p.esp_spi_mosi ∷ p.esp_hs ∷ p.esp_ready
      ∷ p.esp_mux_sel ∷ p.pad_latch ∷ p.pad_clk ∷ p.pad_d1 ∷ p.pad_d2 ∷ p.tape_in ∷ p.i2c_sda
      ∷ p.i2c_scl ∷ p.onewire ∷ p.ay_rclk ∷ p.ay_srclk ∷ p.ay_ser ∷ p.dip ∷ p.link_fs
      ∷ p.link_db_out ∷ p.link_db_in ∷ [])
    && every (pin_below n 1) (p.i2s_clk_base ∷ p.pcm_i2s_clk_base ∷ p.pio_usb_dp ∷ [])
    && pin_below n 7 p.video_base
    && every (pin_below n 9) (p.link_a_data ∷ p.link_b_data ∷ [])

is_set : Pin → Bool
is_set none = false
is_set (some p) = true

wired : List Pin → Bool
unfolding is_set
wired = every is_set

same : Bool → Bool → Bool
same true b = b
same false b = not b

implies : Bool → Bool → Bool
implies true b = b
implies false b = true

-- A capability that is the presence of its pins, and one that needs them.
caps_match_pins : Board → Bool
unfolding wired same implies
caps_match_pins d =
    let p = d.pins in
    let has = any_cap d.caps in
    every (λ b. b)
      (same (has cap_i2c) (wired (p.i2c_sda ∷ p.i2c_scl ∷ []))
        ∷ same (has cap_onewire_ds2401) (wired (p.onewire ∷ []))
        ∷ same (has cap_link)
            (wired (p.link_a_data ∷ p.link_b_data ∷ p.link_fs ∷ p.link_db_out ∷ p.link_db_in ∷ []))
        ∷ same (has cap_psram_softspi)
            (wired (p.psram_soft_sclk ∷ p.psram_soft_mosi ∷ p.psram_soft_miso ∷ []))
        ∷ same (has cap_sd_4bit) (wired (p.sd_dat1 ∷ p.sd_dat2 ∷ []))
        ∷ same (has cap_turbosound) (wired (p.ay_rclk ∷ p.ay_srclk ∷ p.ay_ser ∷ []))
        ∷ same (has cap_pio_usb) (wired (p.pio_usb_dp ∷ []))
        ∷ same (has cap_tape_in) (wired (p.tape_in ∷ []))
        ∷ same (has cap_dipswitch) (wired (p.dip ∷ []))
        ∷ same (has cap_audio_pcm5122) (wired (p.pcm_i2s_data ∷ p.pcm_i2s_clk_base ∷ []))
        ∷ same (has cap_video_any) (wired (p.video_base ∷ []))
        ∷ same (has cap_audio_i2s) (wired (p.i2s_data ∷ p.i2s_clk_base ∷ []))
        ∷ same (has cap_sd) (wired (p.sd_dat0 ∷ p.sd_cs ∷ p.sd_clk ∷ p.sd_cmd ∷ []))
        ∷ same (has cap_led_ws2812) (wired (p.led_ws2812 ∷ []))
        ∷ same (has cap_led_plain) (wired (p.led_plain ∷ []))
        ∷ same (has cap_led_plain) (not (has cap_led_ws2812))
        ∷ same (has cap_esp32_spi)
            (wired (p.esp_spi_miso ∷ p.esp_spi_cs ∷ p.esp_spi_sck ∷ p.esp_spi_mosi ∷ []))
        ∷ implies (has cap_psram_qmi) (wired (p.psram_cs ∷ []))
        ∷ implies (has cap_ps2) (wired (p.ps2_kb_clk ∷ p.ps2_kb_dat ∷ []))
        ∷ implies (has cap_gamepad_nes || has cap_gamepad_db9)
            (wired (p.pad_latch ∷ p.pad_clk ∷ p.pad_d1 ∷ p.pad_d2 ∷ []))
        ∷ implies (has cap_esp01) (wired (p.esp_uart_tx ∷ p.esp_uart_rx ∷ []))
        ∷ [])

distinct : List ℕ → Bool
distinct [] = true
distinct (x ∷ xs) = every (λ y. not (x == y)) xs && distinct xs

sig_well_formed : Board → Bool
unfolding distinct gpio_count
sig_well_formed d =
    let sig_pins = map (λ (e : SigEntry). e.pin) d.sig in
    ltb 0 (length d.sig)
    && leb (length d.sig) 48
    && distinct sig_pins
    && every (λ p. ltb p (gpio_count d.mcu)) sig_pins

-- In every descriptor of the table the pins, groups included, are on the package, the capability
-- bits agree with the pins that are wired, exactly one kind of status LED is fitted, and the
-- signature is nonempty, at most 48 entries long and over distinct pins of the package.
frank_board_table_consistent :
    every
      (λ d. pins_fit (gpio_count d.mcu) d.pins && caps_match_pins d && sig_well_formed d)
      frank_board_table
    ≡ true
unfolding gpio_count pins_fit caps_match_pins sig_well_formed desc_frank desc_frank_pga
    desc_megafrank desc_microfrank desc_minifrank desc_zerofrank desc_oldskoolfrank desc_core2
    desc_core2_slave desc_core2u desc_core2u_slave desc_next desc_z0pa
frank_board_table_consistent = refl
