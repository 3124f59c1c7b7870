-- ===== src/I2c/Transfers.antt =====
-- core/i2c_bb.c: whole transfers, from idle lines to idle lines.
use frank_test.Prelude.{
  ℕ, ◌*◌, ◌≡◌, refl, Bool, true, false, not, ◌&&◌, none, List, [], ◌∷◌, ◌++◌, if◌then◌else◌,
}
use frank_test.Prelude.Bytes.{u8}
use frank_test.I2c.{
  next_level, later_levels, bb_start, bb_restart, bb_stop, bb_write_byte, write_data, i2c_bb_probe,
  i2c_bb_write,
}
use frank_test.I2c.Wire.{Watch, Symbol, start, stop, Hears, Hears-append}
use frank_test.I2c.Bytes.{between, frame, bb_write_byte-Hears}

-- Both lines released.
abbrev pub idle : Watch
idle = record {
  sda_out = false;
  sda_high = false;
  scl_out = false;
  scl_high = false;
  pending = none;
}

pub start-Hears : Hears idle bb_start (start ∷ []) (between true)
unfolding bb_start
start-Hears = record { as_symbols = refl; then_at = refl }

pub restart-Hears : (held : Bool) → Hears (between held) bb_restart (start ∷ []) (between true)
unfolding bb_restart
restart-Hears true = record { as_symbols = refl; then_at = refl }
restart-Hears false = record { as_symbols = refl; then_at = refl }

pub stop-Hears : (held : Bool) → Hears (between held) bb_stop (stop ∷ []) idle
unfolding bb_stop
stop-Hears true = record { as_symbols = refl; then_at = refl }
stop-Hears false = record { as_symbols = refl; then_at = refl }

-- The bytes that go out until one is refused, and whether none is.
abbrev pub sent : List ℕ → List Bool → List ℕ
sent [] reads = []
sent (d ∷ ds) reads = d ∷ (if next_level reads then [] else sent ds (later_levels reads))

abbrev pub acked : List ℕ → List Bool → Bool
acked [] reads = true
acked (d ∷ ds) reads = not (next_level reads) && acked ds (later_levels reads)

abbrev pub frames : List ℕ → List Symbol
frames [] = []
frames (v ∷ vs) = frame v ++ frames vs

-- The answers that are left after a write that nobody refused.
abbrev pub answers_after : List ℕ → List Bool → List Bool
answers_after [] reads = reads
answers_after (d ∷ ds) reads = answers_after ds (later_levels reads)

pub write_data_lem :
    (ds : List ℕ) (held : Bool) (reads : List Bool)
    → (left : Bool) × Hears
        (between held)
        (write_data true ds reads).calls
        (frames (sent ds reads))
        (between left)
      × ((write_data true ds reads).value ≡ acked ds reads)
unfolding write_data bb_write_byte
write_data_lem [] held reads = (held, record { as_symbols = refl; then_at = refl }, refl)
write_data_lem (d ∷ ds) held [] = (
  false,
  Hears-append (bb_write_byte-Hears d held []) (record { as_symbols = refl; then_at = refl }),
  refl,
)
write_data_lem (d ∷ ds) held (true ∷ reads) = (
  false,
  Hears-append (bb_write_byte-Hears d held (true ∷ reads))
      (record { as_symbols = refl; then_at = refl }),
  refl,
)
write_data_lem (d ∷ ds) held (false ∷ reads) =
    let (left, heard_rest, value_rest) = write_data_lem ds false reads in
    (left, Hears-append (bb_write_byte-Hears d held (false ∷ reads)) heard_rest, value_rest)

-- The answers that a write leaves, if nobody refused.
pub write_data-rest :
    (ds : List ℕ) (reads : List Bool)
    → acked ds reads ≡ true
    → (write_data true ds reads).rest ≡ answers_after ds reads
unfolding write_data
write_data-rest [] reads h = refl
write_data-rest (d ∷ ds) [] h = cc
write_data-rest (d ∷ ds) (true ∷ reads) h = cc
write_data-rest (d ∷ ds) (false ∷ reads) h = write_data-rest ds reads h

-- The start and a line of bytes, of which the address is the first.
pub write_line :
    (address : ℕ) (bytes : List ℕ) (reads : List Bool)
    → (left : Bool) × Hears idle
        (bb_start
          ++ (bb_write_byte address reads).calls
          ++ (write_data
              (bb_write_byte address reads).value
              bytes
              (bb_write_byte address reads).rest).calls)
        (start ∷ frames (sent (address ∷ bytes) reads))
        (between left)
      × ((write_data
            (bb_write_byte address reads).value
            bytes
            (bb_write_byte address reads).rest).value
          ≡ acked (address ∷ bytes) reads)
unfolding write_data bb_start
write_line address bytes reads =
    let (left, line_heard, line_value) = write_data_lem (address ∷ bytes) true reads in
    (left, Hears-append start-Hears line_heard, line_value)

pub write_line-rest :
    (address : ℕ) (bytes : List ℕ) (reads : List Bool)
    → acked (address ∷ bytes) reads ≡ true
    → (write_data (bb_write_byte address reads).value bytes (bb_write_byte address reads).rest).rest
      ≡ answers_after (address ∷ bytes) reads
unfolding write_data
write_line-rest address bytes reads h = write_data-rest (address ∷ bytes) reads h

-- A write is heard as a start, the address and as many bytes of the data as go out until one is
-- refused, and a stop, and leaves both lines released; it succeeds if none is refused. A probe is a
-- write of no data.
pub i2c_bb_write_lem :
    (addr7 : ℕ) (bytes : List ℕ) (reads : List Bool)
    → let line = u8 (addr7 * 2) ∷ bytes in
      let write = i2c_bb_write addr7 bytes reads in
      let probe = i2c_bb_probe addr7 reads in
      Hears idle write.calls (start ∷ frames (sent line reads) ++ (stop ∷ [])) idle
      × (write.value ≡ acked line reads)
      × Hears idle probe.calls (start ∷ frame (u8 (addr7 * 2)) ++ (stop ∷ [])) idle
      × (probe.value ≡ not (next_level reads))
unfolding i2c_bb_write i2c_bb_probe
i2c_bb_write_lem addr7 bytes reads =
    let address = u8 (addr7 * 2) in
    let probe_heard =
      Hears-append (Hears-append start-Hears (bb_write_byte-Hears address true reads))
        (stop-Hears false) in
    let (left, line_heard, line_value) = write_line address bytes reads in
    (Hears-append line_heard (stop-Hears left), line_value, probe_heard, refl)
