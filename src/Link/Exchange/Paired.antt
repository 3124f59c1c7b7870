-- ===== src/Link/Exchange/Paired.antt =====
-- common/link_session.c: where the two sides can be.
use frank_test.Prelude.{
  ℕ, ◌≤◌, ◌≡◌, Bool, true, false, ◌&&◌, ◌||◌, List, none, some, leb, if◌then◌else◌, arith,
}
use frank_test.Link.Exchange.{Pair, MasterStep, SlaveStep, Step, Reach, start, later}

abbrev pub between : ℕ → ℕ → ℕ → Bool
between lo hi n = leb lo n && leb n hi

-- The doorbells, the receivers and the frames follow from how far each side is, and neither is far
-- ahead.
pub record IsPaired (request reply : List ℕ) (x : Pair) : Type 0 where
  pub master_rings : x.db_ms ≡ (between 1 3 x.master || between 7 9 x.master)
  pub slave_rings : x.db_sm ≡ (between 3 5 x.slave || between 9 10 x.slave)
  pub master_ready : x.master_armed ≡ between 6 8 x.master
  pub slave_ready : x.slave_armed ≡ between 2 3 x.slave
  pub request_at : x.request_landed ≡ (if leb 3 x.master then some request else none)
  pub reply_at : x.reply_landed ≡ (if leb 8 x.slave then some reply else none)
  pub none_lost : x.lost ≡ false
  pub oks : (x.master_ok ≡ true) × (x.slave_ok ≡ true)
  pub in_time : x.expired ≡ false
  pub ends : (x.master ≤ 11) × (x.slave ≤ 11)
  pub wakes : 1 ≤ x.slave → 1 ≤ x.master
  pub answers : 2 ≤ x.master → 3 ≤ x.slave
  pub receives : 4 ≤ x.slave → 3 ≤ x.master
  pub lowers : 5 ≤ x.slave → 4 ≤ x.master
  pub overs : 5 ≤ x.master → 6 ≤ x.slave
  pub asks : 7 ≤ x.slave → 7 ≤ x.master
  pub sends : 8 ≤ x.master → 9 ≤ x.slave
  pub finishes : 10 ≤ x.slave → 10 ≤ x.master
  pub stops : 11 ≤ x.master → 11 ≤ x.slave

module _ {request reply : List ℕ} where
  -- As long as no time limit runs out.
  pub Step-IsPaired :
      {x y : Pair}
      → Step request reply x y
      → IsPaired request reply x
      → y.expired ≡ false
      → IsPaired request reply y
  Step-IsPaired (Step.by_master (MasterStep.m_ring e)) p t = ground arith
  Step-IsPaired (Step.by_master (MasterStep.m_answered e d)) p t = ground arith
  Step-IsPaired (Step.by_master (MasterStep.m_transmit e)) p t = ground arith
  Step-IsPaired (Step.by_master (MasterStep.m_lower e)) p t = ground arith
  Step-IsPaired (Step.by_master (MasterStep.m_over e d)) p t = ground arith
  Step-IsPaired (Step.by_master (MasterStep.m_arm e)) p t = ground arith
  Step-IsPaired (Step.by_master (MasterStep.m_ask e)) p t = ground arith
  Step-IsPaired (Step.by_master (MasterStep.m_sent e d)) p t = ground arith
  Step-IsPaired (Step.by_master (MasterStep.m_receive f e d)) p t = ground arith
  Step-IsPaired (Step.by_master (MasterStep.m_done e)) p t = ground arith
  Step-IsPaired (Step.by_master (MasterStep.m_end e d)) p t = ground arith
  Step-IsPaired (Step.by_slave (SlaveStep.s_wake e d)) p t = ground arith
  Step-IsPaired (Step.by_slave (SlaveStep.s_arm e)) p t = ground arith
  Step-IsPaired (Step.by_slave (SlaveStep.s_answer e)) p t = ground arith
  Step-IsPaired (Step.by_slave (SlaveStep.s_receive f e d)) p t = ground arith
  Step-IsPaired (Step.by_slave (SlaveStep.s_over e d)) p t = ground arith
  Step-IsPaired (Step.by_slave (SlaveStep.s_lower e)) p t = ground arith
  Step-IsPaired (Step.by_slave (SlaveStep.s_asked e d)) p t = ground arith
  Step-IsPaired (Step.by_slave (SlaveStep.s_transmit e)) p t = ground arith
  Step-IsPaired (Step.by_slave (SlaveStep.s_sent e)) p t = ground arith
  Step-IsPaired (Step.by_slave (SlaveStep.s_done e d)) p t = ground arith
  Step-IsPaired (Step.by_slave (SlaveStep.s_end e)) p t = ground arith
  Step-IsPaired (Step.by_master (MasterStep.m_unanswered e d)) p t = ground arith
  Step-IsPaired (Step.by_master (MasterStep.m_abandon e)) p t = ground arith
  Step-IsPaired (Step.by_master (MasterStep.m_stall e)) p t = ground arith
  Step-IsPaired (Step.by_master (MasterStep.m_stuck e d)) p t = ground arith
  Step-IsPaired (Step.by_master (MasterStep.m_unsent e d)) p t = ground arith
  Step-IsPaired (Step.by_master (MasterStep.m_give_up e)) p t = ground arith
  Step-IsPaired (Step.by_master (MasterStep.m_disarm e)) p t = ground arith
  Step-IsPaired (Step.by_master (MasterStep.m_miss e d)) p t = ground arith
  Step-IsPaired (Step.by_master (MasterStep.m_leave e d)) p t = ground arith
  Step-IsPaired (Step.by_slave (SlaveStep.s_asleep e d)) p t = ground arith
  Step-IsPaired (Step.by_slave (SlaveStep.s_miss e d)) p t = ground arith
  Step-IsPaired (Step.by_slave (SlaveStep.s_stuck e d)) p t = ground arith
  Step-IsPaired (Step.by_slave (SlaveStep.s_unasked e d)) p t = ground arith
  Step-IsPaired (Step.by_slave (SlaveStep.s_stall e)) p t = ground arith
  Step-IsPaired (Step.by_slave (SlaveStep.s_leave e d)) p t = ground arith

module _ {request reply : List ℕ} where
  -- A time limit that has run out stays so.
  pub Step-expired : {x y : Pair} → Step request reply x y → y.expired ≡ false → x.expired ≡ false
  Step-expired (Step.by_master (MasterStep.m_ring e)) t = t
  Step-expired (Step.by_master (MasterStep.m_answered e d)) t = t
  Step-expired (Step.by_master (MasterStep.m_transmit e)) t = t
  Step-expired (Step.by_master (MasterStep.m_lower e)) t = t
  Step-expired (Step.by_master (MasterStep.m_over e d)) t = t
  Step-expired (Step.by_master (MasterStep.m_arm e)) t = t
  Step-expired (Step.by_master (MasterStep.m_ask e)) t = t
  Step-expired (Step.by_master (MasterStep.m_sent e d)) t = t
  Step-expired (Step.by_master (MasterStep.m_receive f e d)) t = t
  Step-expired (Step.by_master (MasterStep.m_done e)) t = t
  Step-expired (Step.by_master (MasterStep.m_end e d)) t = t
  Step-expired (Step.by_slave (SlaveStep.s_wake e d)) t = t
  Step-expired (Step.by_slave (SlaveStep.s_arm e)) t = t
  Step-expired (Step.by_slave (SlaveStep.s_answer e)) t = t
  Step-expired (Step.by_slave (SlaveStep.s_receive f e d)) t = t
  Step-expired (Step.by_slave (SlaveStep.s_over e d)) t = t
  Step-expired (Step.by_slave (SlaveStep.s_lower e)) t = t
  Step-expired (Step.by_slave (SlaveStep.s_asked e d)) t = t
  Step-expired (Step.by_slave (SlaveStep.s_transmit e)) t = t
  Step-expired (Step.by_slave (SlaveStep.s_sent e)) t = t
  Step-expired (Step.by_slave (SlaveStep.s_done e d)) t = t
  Step-expired (Step.by_slave (SlaveStep.s_end e)) t = t
  Step-expired (Step.by_master (MasterStep.m_unanswered e d)) t = cc
  Step-expired (Step.by_master (MasterStep.m_abandon e)) t = t
  Step-expired (Step.by_master (MasterStep.m_stall e)) t = cc
  Step-expired (Step.by_master (MasterStep.m_stuck e d)) t = cc
  Step-expired (Step.by_master (MasterStep.m_unsent e d)) t = cc
  Step-expired (Step.by_master (MasterStep.m_give_up e)) t = t
  Step-expired (Step.by_master (MasterStep.m_disarm e)) t = t
  Step-expired (Step.by_master (MasterStep.m_miss e d)) t = cc
  Step-expired (Step.by_master (MasterStep.m_leave e d)) t = cc
  Step-expired (Step.by_slave (SlaveStep.s_asleep e d)) t = cc
  Step-expired (Step.by_slave (SlaveStep.s_miss e d)) t = cc
  Step-expired (Step.by_slave (SlaveStep.s_stuck e d)) t = cc
  Step-expired (Step.by_slave (SlaveStep.s_unasked e d)) t = cc
  Step-expired (Step.by_slave (SlaveStep.s_stall e)) t = cc
  Step-expired (Step.by_slave (SlaveStep.s_leave e d)) t = cc

  pub Reach-IsPaired :
      {n : ℕ} {x : Pair} → Reach request reply n x → x.expired ≡ false → IsPaired request reply x
  Reach-IsPaired start t = ground arith
  Reach-IsPaired (later r st) t = Step-IsPaired st (Reach-IsPaired r (Step-expired st t)) t
