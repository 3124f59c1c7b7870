-- ===== src/Tests/Registers.antt =====
-- Instances for the bit-banged I2C: a PCM5122 at 0x4C that takes its address.
use frank_test.Prelude.{
  ℕ, ◌*◌, ◌≡◌, ◌≢◌, not, Bool, true, false, some, List, [], ◌∷◌, ◌++◌, All, arith,
}
use frank_test.Prelude.Bytes.{IsByte, u8}
use frank_test.I2c.{next_level, i2c_bb_probe, i2c_bb_write, i2c_bb_read_regs}
use frank_test.I2c.Wire.{start, stop, Hears}
use frank_test.I2c.Bytes.{frame}
use frank_test.I2c.Transfers.{idle, sent, acked, frames, i2c_bb_write_lem}
use frank_test.I2c.Registers.{sends, i2c_bb_read_regs-sends}

-- The device takes the address and the first byte, and refuses the second.
abbrev answers : List Bool
answers = false ∷ false ∷ true ∷ []

i2c_bb_write_lem_example :
    let line = u8 (0x4C * 2) ∷ 1 ∷ 2 ∷ 3 ∷ [] in
    let write = i2c_bb_write 0x4C (1 ∷ 2 ∷ 3 ∷ []) answers in
    let probe = i2c_bb_probe 0x4C answers in
    Hears idle write.calls (start ∷ frames (sent line answers) ++ (stop ∷ [])) idle
    × (write.value ≡ acked line answers)
    × Hears idle probe.calls (start ∷ frame (u8 (0x4C * 2)) ++ (stop ∷ [])) idle
    × (probe.value ≡ not (next_level answers))
i2c_bb_write_lem_example = i2c_bb_write_lem 0x4C (1 ∷ 2 ∷ 3 ∷ []) answers

abbrev stored : List ℕ
stored = 0x5A ∷ 0x01 ∷ []

stored-All : All IsByte stored
stored-All = ground arith

stored-filled : stored ≢ []
stored-filled e = cc

i2c_bb_read_regs-sends_example :
    (i2c_bb_read_regs 0x4C 37 2 (false ∷ false ∷ false ∷ sends stored [])).value ≡ some stored
i2c_bb_read_regs-sends_example =
    i2c_bb_read_regs-sends 0x4C 37 false false false stored [] stored-All stored-filled
