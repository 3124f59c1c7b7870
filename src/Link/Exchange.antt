-- ===== src/Link/Exchange.antt =====
-- common/link_session.c and the protocol in common/link_proto.h: a request and its reply between a
-- master and a slave, call by call. The master runs `link_m_send_ctrl` and, if that succeeds,
-- `link_m_recv_ctrl`; the slave runs `link_s_serve`, `slave_take_ctrl` and, if that succeeds,
-- `slave_put_ctrl`. Either may be ahead, as far as the doorbells let it, and any time limit may run
-- out while what it waits for has not come; a transmission whose time runs out leaves nothing at the
-- other side. The request and the reply pass their checks.
pub mod Ends
pub mod Orderly
pub mod Paired
pub mod Progress
use frank_test.Prelude.{
  ℕ, zero, suc, ◌≡◌, Bool, true, false, not, ◌||◌, List, Option, none, some, if◌then◌else◌,
}

-- Where each side is in its calls, the doorbells, the armed receivers, what has landed, what the two
-- sides would return so far, whether a frame went out to a receiver that was not armed, and whether
-- a time limit has run out. A side is at its end at 11; 12, 13 and 14 are on the ways out after a
-- doorbell that was not answered.
pub record Pair : Type 0 where
  pub master : ℕ
  pub slave : ℕ
  pub db_ms : Bool
  pub db_sm : Bool
  pub master_armed : Bool
  pub slave_armed : Bool
  pub request_landed : Option (List ℕ)
  pub reply_landed : Option (List ℕ)
  pub master_ok : Bool
  pub slave_ok : Bool
  pub lost : Bool
  pub expired : Bool

abbrev pub started : Pair
started = record {
  master = 0;
  slave = 0;
  db_ms = false;
  db_sm = false;
  master_armed = false;
  slave_armed = false;
  request_landed = none;
  reply_landed = none;
  master_ok = true;
  slave_ok = true;
  lost = false;
  expired = false;
}

-- The calls on the bus, one step for each, with the ways that a wait can end.
module _ (request : List ℕ) where
  pub data MasterStep (x : Pair) : Pair → Type 0 where
    -- `link_m_send_ctrl`
    m_ring : x.master ≡ 0 → MasterStep x (record x { master = 1; db_ms = true })
    m_answered : x.master ≡ 1 → x.db_sm ≡ true → MasterStep x (record x { master = 2 })
    m_unanswered :
        x.master ≡ 1
        → x.db_sm ≡ false
        → MasterStep x (record x { master = 12; master_ok = false; expired = true })
    m_abandon : x.master ≡ 12 → MasterStep x (record x { master = 11; db_ms = false })
    m_transmit :
        x.master ≡ 2
        → MasterStep x (record x {
          master = 3;
          request_landed = if x.slave_armed then some request else x.request_landed;
          lost = x.lost || not x.slave_armed;
        })
    m_stall :
        x.master ≡ 2 → MasterStep x (record x { master = 3; master_ok = false; expired = true })
    m_lower : x.master ≡ 3 → MasterStep x (record x { master = 4; db_ms = false })
    m_over :
        x.master ≡ 4
        → x.db_sm ≡ false
        → MasterStep x (record x { master = if x.master_ok then 5 else 11 })
    m_stuck :
        x.master ≡ 4
        → x.db_sm ≡ true
        → MasterStep x (record x { master = 11; master_ok = false; expired = true })
    -- `link_m_recv_ctrl`
    m_arm : x.master ≡ 5 → MasterStep x (record x { master = 6; master_armed = true })
    m_ask : x.master ≡ 6 → MasterStep x (record x { master = 7; db_ms = true })
    m_sent : x.master ≡ 7 → x.db_sm ≡ true → MasterStep x (record x { master = 8 })
    m_unsent :
        x.master ≡ 7
        → x.db_sm ≡ false
        → MasterStep x (record x { master = 13; master_ok = false; expired = true })
    m_give_up : x.master ≡ 13 → MasterStep x (record x { master = 14; db_ms = false })
    m_disarm : x.master ≡ 14 → MasterStep x (record x { master = 11; master_armed = false })
    m_receive :
        (f : List ℕ)
        → x.master ≡ 8
        → x.reply_landed ≡ some f
        → MasterStep x (record x { master = 9; master_armed = false })
    m_miss :
        x.master ≡ 8
        → x.reply_landed ≡ none
        → MasterStep x
            (record x { master = 9; master_armed = false; master_ok = false; expired = true })
    m_done : x.master ≡ 9 → MasterStep x (record x { master = 10; db_ms = false })
    m_end : x.master ≡ 10 → x.db_sm ≡ false → MasterStep x (record x { master = 11 })
    m_leave :
        x.master ≡ 10 → x.db_sm ≡ true → MasterStep x (record x { master = 11; expired = true })

module _ (reply : List ℕ) where
  pub data SlaveStep (x : Pair) : Pair → Type 0 where
    -- `link_s_serve` and `slave_take_ctrl`
    s_wake : x.slave ≡ 0 → x.db_ms ≡ true → SlaveStep x (record x { slave = 1 })
    s_asleep :
        x.slave ≡ 0
        → x.db_ms ≡ false
        → SlaveStep x (record x { slave = 11; slave_ok = false; expired = true })
    s_arm : x.slave ≡ 1 → SlaveStep x (record x { slave = 2; slave_armed = true })
    s_answer : x.slave ≡ 2 → SlaveStep x (record x { slave = 3; db_sm = true })
    s_receive :
        (f : List ℕ)
        → x.slave ≡ 3
        → x.request_landed ≡ some f
        → SlaveStep x (record x { slave = 4; slave_armed = false })
    s_miss :
        x.slave ≡ 3
        → x.request_landed ≡ none
        → SlaveStep x
            (record x { slave = 4; slave_armed = false; slave_ok = false; expired = true })
    s_over : x.slave ≡ 4 → x.db_ms ≡ false → SlaveStep x (record x { slave = 5 })
    s_stuck : x.slave ≡ 4 → x.db_ms ≡ true → SlaveStep x (record x { slave = 5; expired = true })
    s_lower :
        x.slave ≡ 5 → SlaveStep x (record x { slave = if x.slave_ok then 6 else 11; db_sm = false })
    -- `slave_put_ctrl`
    s_asked : x.slave ≡ 6 → x.db_ms ≡ true → SlaveStep x (record x { slave = 7 })
    s_unasked :
        x.slave ≡ 6
        → x.db_ms ≡ false
        → SlaveStep x (record x { slave = 11; slave_ok = false; expired = true })
    s_transmit :
        x.slave ≡ 7
        → SlaveStep x (record x {
          slave = 8;
          reply_landed = if x.master_armed then some reply else x.reply_landed;
          lost = x.lost || not x.master_armed;
        })
    s_stall : x.slave ≡ 7 → SlaveStep x (record x { slave = 8; slave_ok = false; expired = true })
    s_sent : x.slave ≡ 8 → SlaveStep x (record x { slave = 9; db_sm = true })
    s_done : x.slave ≡ 9 → x.db_ms ≡ false → SlaveStep x (record x { slave = 10 })
    s_leave : x.slave ≡ 9 → x.db_ms ≡ true → SlaveStep x (record x { slave = 10; expired = true })
    s_end : x.slave ≡ 10 → SlaveStep x (record x { slave = 11; db_sm = false })

module _ (request reply : List ℕ) where
  -- Either side makes its next call.
  pub data Step (x y : Pair) : Type 0 where
    by_master : MasterStep request x y → Step x y
    by_slave : SlaveStep reply x y → Step x y

  -- What is reached from the start in so many steps.
  pub data Reach : ℕ → Pair → Type 0 where
    start : Reach 0 started
    later : {n : ℕ} {x y : Pair} → Reach n x → Step x y → Reach (suc n) y
