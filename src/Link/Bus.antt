-- ===== src/Link/Bus.antt =====
-- common/link_bus.c and link_bus.h: the two buses and the doorbells. The PIO and the DMA are not
-- modelled: what they answer while the code polls them is an input, one list of readings for each
-- loop, as long as its time allows. Dividers are counted in 1/256, as the hardware does; the source
-- holds them as floats, which is exact below 2^24 / 256.
pub mod Patience
pub mod Rules
use frank_test.Prelude.{
  ℕ, ◌+◌, ◌*◌, ◌/◌, ◌%◌, ◌^◌, Bool, true, false, not, List, [], ◌∷◌, ◌==◌, ltb, if◌then◌else◌,
}
use frank_test.Prelude.Bytes.{u32}

-- `LINK_CTRL_CLKDIV`, 2.0.
abbrev pub link_ctrl_clkdiv : ℕ
link_ctrl_clkdiv = 512

abbrev pub link_handshake_timeout_us : ℕ
link_handshake_timeout_us = 2000000

abbrev pub link_ctrl_timeout_us : ℕ
link_ctrl_timeout_us = 1000000

-- How long the master keeps silent in `link_m_resync`.
abbrev pub resync_pause_us : ℕ
resync_pause_us = (link_handshake_timeout_us / 1000 + 500) * 1000

-- `LINK_RESET_PULSE_MS`.
abbrev pub link_reset_pulse_us : ℕ
link_reset_pulse_us = 250 * 1000

-- The readings while `link_tx_finish` waits: is the DMA busy, and is the FIFO empty.
pub record TxReadings : Type 0 where
  pub busy : List Bool
  pub empty : List Bool

-- The readings while `link_rx_wait` waits, the last look after the deadline, the bytes left then,
-- and what has arrived in the buffer.
pub record RxReadings : Type 0 where
  pub busy : List Bool
  pub still_busy : Bool
  pub remaining : ℕ
  pub arrived : List ℕ

-- A transmission, at the divider that it went out with.
pub record Sent : Type 0 where
  pub content : List ℕ
  pub bytes : ℕ
  pub clkdiv : ℕ

-- `link_t`, less the pin numbers, with the levels that it drives, whether a reception is under way,
-- what has landed in the buffer of the last one, the transmissions and the time limits of the
-- waits and the pauses so far, the last one first, and what the pins and the hardware will answer.
pub record Link : Type 0 where
  pub db_out : Bool
  pub tx_valid : Bool
  pub fs : Bool
  pub fs_is_output : Bool
  pub bulk_clkdiv : ℕ
  pub applied_clkdiv : ℕ
  pub rx_pending : Bool
  pub landed : List ℕ
  pub transmissions : List Sent
  pub doorbells : List (List Bool)
  pub tx_readings : List TxReadings
  pub rx_readings : List RxReadings
  pub waits : List ℕ

-- The state that `link_init` leaves; both dividers are set before a byte moves.
unfoldable pub link_init : Bool → List (List Bool) → List TxReadings → List RxReadings → Link
link_init fs_is_output doorbells tx_readings rx_readings = record {
  db_out = false;
  tx_valid = false;
  fs = false;
  fs_is_output = fs_is_output;
  bulk_clkdiv = 256;
  applied_clkdiv = link_ctrl_clkdiv;
  rx_pending = false;
  landed = [];
  transmissions = [];
  doorbells = doorbells;
  tx_readings = tx_readings;
  rx_readings = rx_readings;
  waits = [];
}

module _ {A : Type 0} where
  -- The next answer, with what is answered once there is none.
  abbrev pub head_or : A → List A → A
  head_or a [] = a
  head_or a (x ∷ xs) = x

  abbrev pub tail : List A → List A
  tail [] = []
  tail (x ∷ xs) = xs

-- `while (reading != level) if (late) return false;`, with the readings until it is late.
abbrev pub poll_until : Bool → List Bool → Bool
poll_until level [] = false
poll_until true (b ∷ bs) = if b then true else poll_until true bs
poll_until false (b ∷ bs) = if b then poll_until false bs else true

unfoldable pub link_set_bulk_clkdiv : ℕ → Link → Link
link_set_bulk_clkdiv clkdiv l = record l { bulk_clkdiv = if ltb clkdiv 256 then 256 else clkdiv }

unfoldable pub apply_clkdiv : ℕ → Link → Link
apply_clkdiv clkdiv l =
    if clkdiv == l.applied_clkdiv then l else record l { applied_clkdiv = clkdiv }

unfoldable pub link_use_ctrl_rate : Link → Link
link_use_ctrl_rate l = apply_clkdiv link_ctrl_clkdiv l

unfoldable pub link_use_bulk_rate : Link → Link
link_use_bulk_rate l = apply_clkdiv l.bulk_clkdiv l

-- At a system clock of `hz`; five cycles for each byte.
unfoldable pub link_byte_rate : ℕ → Link → ℕ
link_byte_rate hz l = u32 (hz * 256 / l.bulk_clkdiv / 5)

-- `link_tx_start` and `link_tx_start_ring`, which differ in the address wrap of the DMA.
unfoldable pub link_tx_start : List ℕ → ℕ → Link → Link
link_tx_start content bytes l = record l {
  tx_valid = true;
  transmissions =
      record { content = content; bytes = bytes; clkdiv = l.applied_clkdiv } ∷ l.transmissions;
}

-- VALID drops whatever became of the transmission.
unfoldable pub link_tx_finish : ℕ → Link → Bool × Link
link_tx_finish timeout_us l =
    let readings = head_or (record { busy = []; empty = [] }) l.tx_readings in
    let l' = record l {
      tx_readings = tail l.tx_readings;
      tx_valid = false;
      waits = timeout_us ∷ l.waits;
    } in
    if not (poll_until false readings.busy)
    then (false, l')
    else if not (poll_until true readings.empty)
    then (false, l')
    else (true, l')

-- `link_rx_arm` and `link_rx_arm_ring`.
unfoldable pub link_rx_arm : Link → Link
link_rx_arm l = record l { rx_pending = true }

unfoldable pub link_rx_abort : Link → Link
link_rx_abort l = record l { rx_pending = false }

-- The bytes that did not come; 0 is success.
unfoldable pub link_rx_wait : ℕ → Link → ℕ × Link
unfolding link_rx_abort
link_rx_wait timeout_us l =
    let quiet : RxReadings = record { busy = []; still_busy = true; remaining = 0; arrived = [] } in
    let readings = head_or quiet l.rx_readings in
    let l' = record l {
      rx_readings = tail l.rx_readings;
      landed = readings.arrived;
      waits = timeout_us ∷ l.waits;
    } in
    let whole = record l' { rx_pending = false } in
    if poll_until false readings.busy
    then (0, whole)
    else if not readings.still_busy
    then (0, whole)
    else (if readings.remaining == 0 then 4 else readings.remaining, link_rx_abort l')

unfoldable pub link_db_set : Bool → Link → Link
link_db_set level l = record l { db_out = level }

unfoldable pub link_db_wait : Bool → ℕ → Link → Bool × Link
link_db_wait level timeout_us l = (
  poll_until level (head_or [] l.doorbells),
  record l { doorbells = tail l.doorbells; waits = timeout_us ∷ l.waits },
)

unfoldable pub link_fs_set : Bool → Link → Link
link_fs_set level l = if l.fs_is_output then record l { fs = level } else l

-- `sleep_ms` and `busy_wait_us`: a pause is one of the waits.
unfoldable pub sleep_us : ℕ → Link → Link
sleep_us us l = record l { waits = us ∷ l.waits }

-- The time that a bulk phase gets.
unfoldable pub bulk_timeout_us : ℕ → Link → ℕ → ℕ
bulk_timeout_us hz l blocks =
    let bytes = blocks * 32768 in
    let rate = link_byte_rate hz l in
    let us = (bytes * 1000000 % 2 ^ 64 / rate * 4 + 100000) % 2 ^ 64 in
    if rate == 0 then link_handshake_timeout_us else if ltb 30000000 us then 30000000 else us
