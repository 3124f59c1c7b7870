-- ===== src/MemTest/Part.antt =====
-- common/mem_test.c: what is relied on of a PSRAM that answers in the QMI window.
use frank_test.Prelude.{ℕ, ◌%◌, ◌^◌, ◌<◌, ◌≤◌, ◌≡◌, ◌⊎◌, inl, inr, ◌==◌, if◌then◌else◌, arith}
use frank_test.MemTest.{Psram}
use native.Mathlib.Nat.{mod-eq_of_lt}

-- A part of `size` words whose upper address bits fall off the end.
pub record Wraps {M : Type 0} (part : Psram M) (size : ℕ) : Type 0 where
  pub read-write :
      (m : M) (i j v : ℕ)
      → v < 2 ^ 32
      → part.read (part.write m j v) i ≡ (if i % size == j % size then v else part.read m i)

-- A part of `size` words above which a write is lost, and a read gives one value.
pub record EndsOpen {M : Type 0} (part : Psram M) (size : ℕ) : Type 0 where
  pub floating : ℕ
  pub idle : (floating ≡ 0) ⊎ (floating ≡ 0xFFFFFFFF)
  pub read_above : (m : M) (i : ℕ) → size ≤ i → part.read m i ≡ floating
  pub lost : (m : M) (i j v : ℕ) → size ≤ j → part.read (part.write m j v) i ≡ part.read m i
  pub read-write :
      (m : M) (i j v : ℕ)
      → v < 2 ^ 32
      → i < size
      → j < size
      → part.read (part.write m j v) i ≡ (if i == j then v else part.read m i)

abbrev pub IsPsram : {M : Type 0} → Psram M → ℕ → Type 0
IsPsram part size = Wraps part size ⊎ EndsOpen part size

-- Below its end, one as the other is a memory.
pub read-write_below :
    {M : Type 0} (part : Psram M) (size : ℕ) (m : M) (i j v : ℕ)
    → IsPsram part size
    → v < 2 ^ 32
    → i < size
    → j < size
    → part.read (part.write m j v) i ≡ (if i == j then v else part.read m i)
read-write_below part size m i j v (inl wraps) hv hi hj =
    ground (arith, mod-eq_of_lt hi, mod-eq_of_lt hj, wraps.read-write m i j v)
read-write_below part size m i j v (inr ends) hv hi hj = ends.read-write m i j v hv hi hj
