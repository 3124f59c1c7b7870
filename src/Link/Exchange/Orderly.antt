-- ===== src/Link/Exchange/Orderly.antt =====
-- common/link_session.c: what holds of the two sides whatever time limit runs out.
use frank_test.Prelude.{
  ℕ, ◌+◌, ◌≤◌, ◌<◌, ◌≡◌, ◌⊎◌, true, false, ◌||◌, ◌==◌, List, none, some, if◌then◌else◌, arith,
}
use frank_test.Link.Exchange.{Pair, MasterStep, SlaveStep, Step, Reach, start, later}
use frank_test.Link.Exchange.Paired.{between}

-- The doorbell and the receiver of a side follow from how far it is; nothing else lands than the
-- two frames, the reply not before the request, and a side that is well has what it waited for.
pub record IsOrderly (request reply : List ℕ) (x : Pair) : Type 0 where
  pub master_rings :
      x.db_ms ≡ (between 1 3 x.master || between 7 9 x.master || between 12 13 x.master)
  pub slave_rings : x.db_sm ≡ (between 3 5 x.slave || between 9 10 x.slave)
  pub master_ready : x.master_armed ≡ (between 6 8 x.master || between 13 14 x.master)
  pub slave_ready : x.slave_armed ≡ between 2 3 x.slave
  pub request_at : (x.request_landed ≡ none) ⊎ (x.request_landed ≡ some request)
  pub reply_at :
      (x.reply_landed ≡ none) ⊎ ((x.reply_landed ≡ some reply) × (x.request_landed ≡ some request))
  pub taken : 4 ≤ x.slave → x.slave_ok ≡ true → x.request_landed ≡ some request
  pub heard : 6 ≤ x.slave → x.slave ≤ 10 → x.request_landed ≡ some request
  pub got : 9 ≤ x.master → x.master_ok ≡ true → x.reply_landed ≡ some reply
  pub failed : 12 ≤ x.master → x.master_ok ≡ false
  pub ends : (x.master ≤ 14) × (x.slave ≤ 11)

-- How far the master is, with the ways out put before the end.
abbrev pub rank : ℕ → ℕ
rank m = if m == 12 then 10 else if m == 13 then 9 else if m == 14 then 10 else m

module _ {request reply : List ℕ} where
  Step-IsOrderly :
      {x y : Pair} → Step request reply x y → IsOrderly request reply x → IsOrderly request reply y
  Step-IsOrderly (Step.by_master (MasterStep.m_ring e)) o = ground arith
  Step-IsOrderly (Step.by_master (MasterStep.m_answered e d)) o = ground arith
  Step-IsOrderly (Step.by_master (MasterStep.m_unanswered e d)) o = ground arith
  Step-IsOrderly (Step.by_master (MasterStep.m_abandon e)) o = ground arith
  Step-IsOrderly (Step.by_master (MasterStep.m_transmit e)) o = ground arith
  Step-IsOrderly (Step.by_master (MasterStep.m_stall e)) o = ground arith
  Step-IsOrderly (Step.by_master (MasterStep.m_lower e)) o = ground arith
  Step-IsOrderly (Step.by_master (MasterStep.m_over e d)) o = ground arith
  Step-IsOrderly (Step.by_master (MasterStep.m_stuck e d)) o = ground arith
  Step-IsOrderly (Step.by_master (MasterStep.m_arm e)) o = ground arith
  Step-IsOrderly (Step.by_master (MasterStep.m_ask e)) o = ground arith
  Step-IsOrderly (Step.by_master (MasterStep.m_sent e d)) o = ground arith
  Step-IsOrderly (Step.by_master (MasterStep.m_unsent e d)) o = ground arith
  Step-IsOrderly (Step.by_master (MasterStep.m_give_up e)) o = ground arith
  Step-IsOrderly (Step.by_master (MasterStep.m_disarm e)) o = ground arith
  Step-IsOrderly (Step.by_master (MasterStep.m_receive f e d)) o = ground arith
  Step-IsOrderly (Step.by_master (MasterStep.m_miss e d)) o = ground arith
  Step-IsOrderly (Step.by_master (MasterStep.m_done e)) o = ground arith
  Step-IsOrderly (Step.by_master (MasterStep.m_end e d)) o = ground arith
  Step-IsOrderly (Step.by_master (MasterStep.m_leave e d)) o = ground arith
  Step-IsOrderly (Step.by_slave (SlaveStep.s_wake e d)) o = ground arith
  Step-IsOrderly (Step.by_slave (SlaveStep.s_asleep e d)) o = ground arith
  Step-IsOrderly (Step.by_slave (SlaveStep.s_arm e)) o = ground arith
  Step-IsOrderly (Step.by_slave (SlaveStep.s_answer e)) o = ground arith
  Step-IsOrderly (Step.by_slave (SlaveStep.s_receive f e d)) o = ground arith
  Step-IsOrderly (Step.by_slave (SlaveStep.s_miss e d)) o = ground arith
  Step-IsOrderly (Step.by_slave (SlaveStep.s_over e d)) o = ground arith
  Step-IsOrderly (Step.by_slave (SlaveStep.s_stuck e d)) o = ground arith
  Step-IsOrderly (Step.by_slave (SlaveStep.s_lower e)) o = ground arith
  Step-IsOrderly (Step.by_slave (SlaveStep.s_asked e d)) o = ground arith
  Step-IsOrderly (Step.by_slave (SlaveStep.s_unasked e d)) o = ground arith
  Step-IsOrderly (Step.by_slave (SlaveStep.s_transmit e)) o = ground arith
  Step-IsOrderly (Step.by_slave (SlaveStep.s_stall e)) o = ground arith
  Step-IsOrderly (Step.by_slave (SlaveStep.s_sent e)) o = ground arith
  Step-IsOrderly (Step.by_slave (SlaveStep.s_done e d)) o = ground arith
  Step-IsOrderly (Step.by_slave (SlaveStep.s_leave e d)) o = ground arith
  Step-IsOrderly (Step.by_slave (SlaveStep.s_end e)) o = ground arith

  Step-rank :
      {x y : Pair}
      → Step request reply x y
      → IsOrderly request reply x
      → rank x.master + x.slave < rank y.master + y.slave
  Step-rank (Step.by_master (MasterStep.m_ring e)) o = ground arith
  Step-rank (Step.by_master (MasterStep.m_answered e d)) o = ground arith
  Step-rank (Step.by_master (MasterStep.m_unanswered e d)) o = ground arith
  Step-rank (Step.by_master (MasterStep.m_abandon e)) o = ground arith
  Step-rank (Step.by_master (MasterStep.m_transmit e)) o = ground arith
  Step-rank (Step.by_master (MasterStep.m_stall e)) o = ground arith
  Step-rank (Step.by_master (MasterStep.m_lower e)) o = ground arith
  Step-rank (Step.by_master (MasterStep.m_over e d)) o = ground arith
  Step-rank (Step.by_master (MasterStep.m_stuck e d)) o = ground arith
  Step-rank (Step.by_master (MasterStep.m_arm e)) o = ground arith
  Step-rank (Step.by_master (MasterStep.m_ask e)) o = ground arith
  Step-rank (Step.by_master (MasterStep.m_sent e d)) o = ground arith
  Step-rank (Step.by_master (MasterStep.m_unsent e d)) o = ground arith
  Step-rank (Step.by_master (MasterStep.m_give_up e)) o = ground arith
  Step-rank (Step.by_master (MasterStep.m_disarm e)) o = ground arith
  Step-rank (Step.by_master (MasterStep.m_receive f e d)) o = ground arith
  Step-rank (Step.by_master (MasterStep.m_miss e d)) o = ground arith
  Step-rank (Step.by_master (MasterStep.m_done e)) o = ground arith
  Step-rank (Step.by_master (MasterStep.m_end e d)) o = ground arith
  Step-rank (Step.by_master (MasterStep.m_leave e d)) o = ground arith
  Step-rank (Step.by_slave (SlaveStep.s_wake e d)) o = ground arith
  Step-rank (Step.by_slave (SlaveStep.s_asleep e d)) o = ground arith
  Step-rank (Step.by_slave (SlaveStep.s_arm e)) o = ground arith
  Step-rank (Step.by_slave (SlaveStep.s_answer e)) o = ground arith
  Step-rank (Step.by_slave (SlaveStep.s_receive f e d)) o = ground arith
  Step-rank (Step.by_slave (SlaveStep.s_miss e d)) o = ground arith
  Step-rank (Step.by_slave (SlaveStep.s_over e d)) o = ground arith
  Step-rank (Step.by_slave (SlaveStep.s_stuck e d)) o = ground arith
  Step-rank (Step.by_slave (SlaveStep.s_lower e)) o = ground arith
  Step-rank (Step.by_slave (SlaveStep.s_asked e d)) o = ground arith
  Step-rank (Step.by_slave (SlaveStep.s_unasked e d)) o = ground arith
  Step-rank (Step.by_slave (SlaveStep.s_transmit e)) o = ground arith
  Step-rank (Step.by_slave (SlaveStep.s_stall e)) o = ground arith
  Step-rank (Step.by_slave (SlaveStep.s_sent e)) o = ground arith
  Step-rank (Step.by_slave (SlaveStep.s_done e d)) o = ground arith
  Step-rank (Step.by_slave (SlaveStep.s_leave e d)) o = ground arith
  Step-rank (Step.by_slave (SlaveStep.s_end e)) o = ground arith

  pub Reach-IsOrderly : {n : ℕ} {x : Pair} → Reach request reply n x → IsOrderly request reply x
  Reach-IsOrderly start = ground arith
  Reach-IsOrderly (later r st) = Step-IsOrderly st (Reach-IsOrderly r)

  pub Reach-rank : {n : ℕ} {x : Pair} → Reach request reply n x → n ≤ rank x.master + x.slave
  Reach-rank start = omega arith
  Reach-rank (later r st) = omega (arith, Reach-rank r, Step-rank st (Reach-IsOrderly r))
