-- ===== src/Board/Signatures.antt =====
-- core/board_table.c: the passive signatures, pin by pin.
use frank_test.Prelude.{ℕ, List, [], ◌∷◌}
use frank_test.Board.{PinSig, SigEntry, dontcare, float, high}

abbrev entry : ℕ → PinSig → SigEntry
entry pin expect = record { pin = pin; expect = expect }

abbrev pub sig_microfrank : List SigEntry
sig_microfrank =
    entry 0 float
    ∷ entry 2 float
    ∷ entry 3 float
    ∷ entry 8 high
    ∷ entry 20 float
    ∷ entry 26 float
    ∷ []

abbrev pub sig_minifrank : List SigEntry
sig_minifrank = entry 2 high ∷ entry 3 high ∷ entry 8 high ∷ entry 20 high ∷ []

abbrev pub sig_zerofrank : List SigEntry
sig_zerofrank = entry 2 float ∷ entry 3 float ∷ entry 8 high ∷ entry 20 high ∷ []

abbrev pub sig_frank_a : List SigEntry
sig_frank_a = entry 2 high ∷ entry 3 high ∷ entry 8 float ∷ entry 22 dontcare ∷ []

abbrev pub sig_core2_slave : List SigEntry
sig_core2_slave =
    entry 0 high
    ∷ entry 4 float
    ∷ entry 5 float
    ∷ entry 6 float
    ∷ entry 7 float
    ∷ entry 8 float
    ∷ []

abbrev pub sig_z0pa : List SigEntry
sig_z0pa =
    entry 47 high
    ∷ entry 43 high
    ∷ entry 28 high
    ∷ entry 30 high
    ∷ entry 31 high
    ∷ entry 32 high
    ∷ entry 35 high
    ∷ entry 39 high
    ∷ entry 12 float
    ∷ entry 46 float
    ∷ []

abbrev pub sig_frank_pga : List SigEntry
sig_frank_pga =
    entry 0 high
    ∷ entry 1 high
    ∷ entry 2 high
    ∷ entry 3 high
    ∷ entry 28 float
    ∷ entry 29 float
    ∷ entry 30 float
    ∷ entry 47 float
    ∷ []

abbrev pub sig_megafrank : List SigEntry
sig_megafrank =
    entry 0 high
    ∷ entry 2 high
    ∷ entry 28 high
    ∷ entry 29 high
    ∷ entry 30 high
    ∷ entry 47 float
    ∷ []

abbrev pub sig_oldskoolfrank : List SigEntry
sig_oldskoolfrank =
    entry 0 float
    ∷ entry 1 float
    ∷ entry 2 float
    ∷ entry 3 float
    ∷ entry 28 float
    ∷ entry 30 float
    ∷ entry 47 float
    ∷ []

abbrev pub sig_core2_master : List SigEntry
sig_core2_master =
    entry 47 high
    ∷ entry 43 high
    ∷ entry 2 float
    ∷ entry 3 float
    ∷ entry 23 float
    ∷ entry 28 float
    ∷ []

abbrev pub sig_next : List SigEntry
sig_next =
    entry 47 high
    ∷ entry 3 high
    ∷ entry 4 high
    ∷ entry 5 high
    ∷ entry 6 high
    ∷ entry 7 high
    ∷ entry 23 high
    ∷ entry 28 high
    ∷ entry 29 high
    ∷ entry 38 high
    ∷ entry 39 high
    ∷ []
