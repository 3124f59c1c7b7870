-- ===== src/Link/Bus/Rules.antt =====
-- common/link_bus.c: what each operation of the bus does to the lines, one rule for each.
use frank_test.Prelude.{
  ℕ, ◌*◌, ◌≤◌, ◌≡◌, refl, Bool, true, false, List, [], ◌∷◌, All, ◌==◌, Bool-cases, inl, inr,
  if◌then◌else◌, arith,
}
use frank_test.Prelude.Bytes.{u32}
use frank_test.Link.Bus.{
  Link, Sent, RxReadings, apply_clkdiv, link_use_ctrl_rate, link_use_bulk_rate,
  link_set_bulk_clkdiv, link_tx_start, link_tx_finish, link_rx_arm, link_rx_abort, link_rx_wait,
  link_db_set, link_db_wait, link_fs_set, sleep_us, head_or, tail, poll_until, link_ctrl_clkdiv,
}

-- A control frame goes out at the control divider, and nothing faster than the clock allows.
abbrev pub IsPaced : Sent → Type 0
IsPaced t = (t.bytes ≡ 128 → t.clkdiv ≡ link_ctrl_clkdiv) × (256 ≤ t.clkdiv)

abbrev pub longest_wait_us : ℕ
longest_wait_us = 30000000

-- The levels that are driven, whether a reception is under way, and what holds of the log.
pub record Lines (db valid pending : Bool) (l : Link) : Type 0 where
  pub db_is : l.db_out ≡ db
  pub valid_is : l.tx_valid ≡ valid
  pub pending_is : l.rx_pending ≡ pending
  pub bulk_slow : 256 ≤ l.bulk_clkdiv
  pub applied_slow : 256 ≤ l.applied_clkdiv
  pub paced : All IsPaced l.transmissions
  pub bounded : All (λ t. t ≤ longest_wait_us) l.waits

pub holds_if {ℓ} :
    {A : Type 0} (P : A → Type ℓ) (b : Bool) {x y : A} → P x → P y → P (if b then x else y)
holds_if P true hx hy = hx
holds_if P false hx hy = hy

module _ {d v p : Bool} {l : Link} (h : Lines d v p l) where
  pub db_set_rule : (level : Bool) → Lines level v p (link_db_set level l)
  unfolding link_db_set
  db_set_rule level = record {
    db_is = refl;
    valid_is = h.valid_is;
    pending_is = h.pending_is;
    bulk_slow = h.bulk_slow;
    applied_slow = h.applied_slow;
    paced = h.paced;
    bounded = h.bounded;
  }

  pub db_wait_rule :
      (level : Bool) (t : ℕ) → t ≤ longest_wait_us → Lines d v p (link_db_wait level t l).1
  unfolding link_db_wait
  db_wait_rule level t small = record {
    db_is = h.db_is;
    valid_is = h.valid_is;
    pending_is = h.pending_is;
    bulk_slow = h.bulk_slow;
    applied_slow = h.applied_slow;
    paced = h.paced;
    bounded = (small, h.bounded);
  }

  pub sleep_rule : (t : ℕ) → t ≤ longest_wait_us → Lines d v p (sleep_us t l)
  unfolding sleep_us
  sleep_rule t small = record {
    db_is = h.db_is;
    valid_is = h.valid_is;
    pending_is = h.pending_is;
    bulk_slow = h.bulk_slow;
    applied_slow = h.applied_slow;
    paced = h.paced;
    bounded = (small, h.bounded);
  }

  pub fs_set_rule : (level : Bool) → Lines d v p (link_fs_set level l)
  unfolding link_fs_set
  fs_set_rule level =
      holds_if (Lines d v p) l.fs_is_output
        (record {
          db_is = h.db_is;
          valid_is = h.valid_is;
          pending_is = h.pending_is;
          bulk_slow = h.bulk_slow;
          applied_slow = h.applied_slow;
          paced = h.paced;
          bounded = h.bounded;
        })
        h

  pub apply_rule : (c : ℕ) → 256 ≤ c → Lines d v p (apply_clkdiv c l)
  unfolding apply_clkdiv
  apply_rule c slow = holds_if (Lines d v p) (c == l.applied_clkdiv) h (record {
    db_is = h.db_is;
    valid_is = h.valid_is;
    pending_is = h.pending_is;
    bulk_slow = h.bulk_slow;
    applied_slow = slow;
    paced = h.paced;
    bounded = h.bounded;
  })

  applied-apply : (c : ℕ) → (apply_clkdiv c l).applied_clkdiv ≡ c
  unfolding apply_clkdiv
  applied-apply c = ground arith

  pub ctrl_rate_rule : Lines d v p (link_use_ctrl_rate l)
  unfolding link_use_ctrl_rate
  ctrl_rate_rule = apply_rule link_ctrl_clkdiv (omega arith)

  start_rule :
      (content : List ℕ) (bytes : ℕ)
      → (bytes ≡ 128 → l.applied_clkdiv ≡ link_ctrl_clkdiv)
      → Lines d true p (link_tx_start content bytes l)
  unfolding link_tx_start
  start_rule content bytes at_ctrl = record {
    db_is = h.db_is;
    valid_is = refl;
    pending_is = h.pending_is;
    bulk_slow = h.bulk_slow;
    applied_slow = h.applied_slow;
    paced = ((at_ctrl, h.applied_slow), h.paced);
    bounded = h.bounded;
  }

  pub set_bulk_rule : (clkdiv : ℕ) → Lines d v p (link_set_bulk_clkdiv clkdiv l)
  unfolding link_set_bulk_clkdiv
  set_bulk_rule clkdiv = record {
    db_is = h.db_is;
    valid_is = h.valid_is;
    pending_is = h.pending_is;
    bulk_slow = ground arith;
    applied_slow = h.applied_slow;
    paced = h.paced;
    bounded = h.bounded;
  }

  pub rx_arm_rule : Lines d v true (link_rx_arm l)
  unfolding link_rx_arm
  rx_arm_rule = record {
    db_is = h.db_is;
    valid_is = h.valid_is;
    pending_is = refl;
    bulk_slow = h.bulk_slow;
    applied_slow = h.applied_slow;
    paced = h.paced;
    bounded = h.bounded;
  }

  pub rx_abort_rule : Lines d v false (link_rx_abort l)
  unfolding link_rx_abort
  rx_abort_rule = record {
    db_is = h.db_is;
    valid_is = h.valid_is;
    pending_is = refl;
    bulk_slow = h.bulk_slow;
    applied_slow = h.applied_slow;
    paced = h.paced;
    bounded = h.bounded;
  }

  pub tx_finish_rule : (t : ℕ) → t ≤ longest_wait_us → Lines d false p (link_tx_finish t l).1
  unfolding link_tx_finish
  tx_finish_rule t small =
      let over : Lines d false p
          (record l { tx_readings = tail l.tx_readings; tx_valid = false; waits = t ∷ l.waits }) =
        record {
          db_is = h.db_is;
          valid_is = refl;
          pending_is = h.pending_is;
          bulk_slow = h.bulk_slow;
          applied_slow = h.applied_slow;
          paced = h.paced;
          bounded = (small, h.bounded);
        } in
      let readings = head_or (record { busy = []; empty = [] }) l.tx_readings in
      elim (Bool-cases (poll_until false readings.busy)) [
        | inr late ↦ rw late over
        | inl fed ↦ elim (Bool-cases (poll_until true readings.empty)) [
          | inl drained ↦ rw (fed, drained) over
          | inr late ↦ rw (fed, late) over
        ]
      ]

  pub rx_wait_rule : (t : ℕ) → t ≤ longest_wait_us → Lines d v false (link_rx_wait t l).1
  unfolding link_rx_wait link_rx_abort
  rx_wait_rule t small =
      let quiet : RxReadings = record {
        busy = [];
        still_busy = true;
        remaining = 0;
        arrived = [];
      } in
      let readings = head_or quiet l.rx_readings in
      let over : Lines d v false (record l {
        rx_readings = tail l.rx_readings;
        landed = readings.arrived;
        waits = t ∷ l.waits;
        rx_pending = false;
      }) =
        record {
          db_is = h.db_is;
          valid_is = h.valid_is;
          pending_is = refl;
          bulk_slow = h.bulk_slow;
          applied_slow = h.applied_slow;
          paced = h.paced;
          bounded = (small, h.bounded);
        } in
      elim (Bool-cases (poll_until false readings.busy)) [
        | inl whole ↦ rw whole over
        | inr late ↦ elim (Bool-cases readings.still_busy) [
          | inr whole ↦ rw (late, whole) over
          | inl cut ↦ rw (late, cut) over
        ]
      ]

module _ {d v p : Bool} {l : Link} (h : Lines d v p l) where
  pub ctrl_start_rule :
      (content : List ℕ) → Lines d true p (link_tx_start content 128 (link_use_ctrl_rate l))
  unfolding link_use_ctrl_rate
  ctrl_start_rule content =
      start_rule (apply_rule h link_ctrl_clkdiv (omega arith)) content 128
        (λ _. applied-apply h link_ctrl_clkdiv)

  pub bulk_start_rule :
      (content : List ℕ) (blocks : ℕ)
      → Lines d true p (link_tx_start content (u32 (blocks * 32768)) (link_use_bulk_rate l))
  unfolding link_use_bulk_rate
  bulk_start_rule content blocks =
      start_rule (apply_rule h l.bulk_clkdiv h.bulk_slow) content (u32 (blocks * 32768))
        (λ e. absurd (ground arith))
