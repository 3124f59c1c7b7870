-- ===== src/Board.antt =====
-- core/frank_caps.h, core/board_desc.h: what a board descriptor is made of. A pin is `none` where the
-- source has PIN_NC (-1). The free text `manual_note` of a descriptor, which is only printed, is left
-- out.
pub mod Caps
pub mod Signatures
pub mod Shorthands
pub mod Single
pub mod Linked
pub mod Other
pub mod Table
use Prim.Native.String.{String}
use frank_test.Prelude.{ℕ, Bool, Option, List}

pub data BoardId : Type 0 where
  unknown frank frank_pga megafrank microfrank minifrank zerofrank oldskoolfrank : BoardId
  core2 core2u next z0pa : BoardId

-- The value of the enumerator.
abbrev pub board_num : BoardId → ℕ
board_num unknown = 0
board_num frank = 1
board_num frank_pga = 2
board_num megafrank = 3
board_num microfrank = 4
board_num minifrank = 5
board_num zerofrank = 6
board_num oldskoolfrank = 7
board_num core2 = 8
board_num core2u = 9
board_num next = 10
board_num z0pa = 11

abbrev pub frank_board_count : ℕ
frank_board_count = 12

pub data McuClass : Type 0 where
  rp2350a rp2350b any : McuClass

abbrev pub mcu_num : McuClass → ℕ
mcu_num rp2350a = 0
mcu_num rp2350b = 1
mcu_num any = 2

pub data Role : Type 0 where
  single master slave : Role

abbrev pub role_num : Role → ℕ
role_num single = 0
role_num master = 1
role_num slave = 2

abbrev pub Pin : Type 0
Pin = Option ℕ

-- `frank_pins_t`.
pub record Pins : Type 0 where
  pub uart_tx : Pin
  pub uart_rx : Pin
  pub ps2_kb_clk : Pin
  pub ps2_kb_dat : Pin
  pub ps2_ms_clk : Pin
  pub ps2_ms_dat : Pin
  pub sd_dat0 : Pin
  pub sd_cs : Pin
  pub sd_clk : Pin
  pub sd_cmd : Pin
  pub sd_dat1 : Pin
  pub sd_dat2 : Pin
  pub i2s_data : Pin
  pub i2s_clk_base : Pin
  pub i2s_mclk : Pin
  pub pcm_i2s_data : Pin
  pub pcm_i2s_clk_base : Pin
  pub video_base : Pin
  pub psram_cs : Pin
  pub psram_soft_sclk : Pin
  pub psram_soft_mosi : Pin
  pub psram_soft_miso : Pin
  pub led_ws2812 : Pin
  pub led_plain : Pin
  pub esp_uart_tx : Pin
  pub esp_uart_rx : Pin
  pub esp_chip_pu : Pin
  pub esp_gpio0 : Pin
  pub esp_spi_miso : Pin
  pub esp_spi_cs : Pin
  pub esp_spi_sck : Pin
  pub esp_spi_mosi : Pin
  pub esp_hs : Pin
  pub esp_ready : Pin
  pub esp_mux_sel : Pin
  pub pad_latch : Pin
  pub pad_clk : Pin
  pub pad_d1 : Pin
  pub pad_d2 : Pin
  pub tape_in : Pin
  pub i2c_sda : Pin
  pub i2c_scl : Pin
  pub onewire : Pin
  pub pio_usb_dp : Pin
  pub ay_rclk : Pin
  pub ay_srclk : Pin
  pub ay_ser : Pin
  pub dip : Pin
  pub link_a_data : Pin
  pub link_b_data : Pin
  pub link_fs : Pin
  pub link_db_out : Pin
  pub link_db_in : Pin

-- `pinsig_t`: what a pad looks like with nothing driving it.
pub data PinSig : Type 0 where
  dontcare float high low : PinSig

abbrev pub pinsig_num : PinSig → ℕ
pinsig_num dontcare = 0
pinsig_num float = 1
pinsig_num high = 2
pinsig_num low = 3

-- `pinsig_entry_t`.
pub record SigEntry : Type 0 where
  pub pin : ℕ
  pub expect : PinSig

-- `frank_board_desc_t`. The signature is the list of its entries, and its length is `sig_len`.
pub record Board : Type 0 where
  pub id : BoardId
  pub name : String
  pub slug : String
  pub mcu : McuClass
  pub role : Role
  pub caps : ℕ
  pub pico_socket : Bool
  pub pins : Pins
  pub sig : List SigEntry
  pub flash_bytes : ℕ
  pub psram_bytes : ℕ
