-- ===== src/Link/Exchange/Progress.antt =====
-- common/link_session.c: that the two sides of an exchange get to the end.
use frank_test.Prelude.{
  Bool-cases, ℕ, zero, suc, ◌+◌, ◌≤◌, ◌<◌, ◌≡◌, ◌⊎◌, inl, inr, refl, true, false, List, none, some,
  leb, if◌then◌else◌, arith,
}
use frank_test.Link.Exchange.{Pair, MasterStep, SlaveStep, Step, Reach, start, later}
use frank_test.Link.Exchange.Paired.{IsPaired, Step-expired, Reach-IsPaired}

module _ {request reply : List ℕ} where
  Step-counts :
      {x y : Pair}
      → Step request reply x y
      → IsPaired request reply x
      → y.expired ≡ false
      → y.master + y.slave ≡ suc (x.master + x.slave)
  Step-counts (Step.by_master (MasterStep.m_ring e)) p t = ground arith
  Step-counts (Step.by_master (MasterStep.m_answered e d)) p t = ground arith
  Step-counts (Step.by_master (MasterStep.m_transmit e)) p t = ground arith
  Step-counts (Step.by_master (MasterStep.m_lower e)) p t = ground arith
  Step-counts (Step.by_master (MasterStep.m_over e d)) p t = ground arith
  Step-counts (Step.by_master (MasterStep.m_arm e)) p t = ground arith
  Step-counts (Step.by_master (MasterStep.m_ask e)) p t = ground arith
  Step-counts (Step.by_master (MasterStep.m_sent e d)) p t = ground arith
  Step-counts (Step.by_master (MasterStep.m_receive f e d)) p t = ground arith
  Step-counts (Step.by_master (MasterStep.m_done e)) p t = ground arith
  Step-counts (Step.by_master (MasterStep.m_end e d)) p t = ground arith
  Step-counts (Step.by_slave (SlaveStep.s_wake e d)) p t = ground arith
  Step-counts (Step.by_slave (SlaveStep.s_arm e)) p t = ground arith
  Step-counts (Step.by_slave (SlaveStep.s_answer e)) p t = ground arith
  Step-counts (Step.by_slave (SlaveStep.s_receive f e d)) p t = ground arith
  Step-counts (Step.by_slave (SlaveStep.s_over e d)) p t = ground arith
  Step-counts (Step.by_slave (SlaveStep.s_lower e)) p t = ground arith
  Step-counts (Step.by_slave (SlaveStep.s_asked e d)) p t = ground arith
  Step-counts (Step.by_slave (SlaveStep.s_transmit e)) p t = ground arith
  Step-counts (Step.by_slave (SlaveStep.s_sent e)) p t = ground arith
  Step-counts (Step.by_slave (SlaveStep.s_done e d)) p t = ground arith
  Step-counts (Step.by_slave (SlaveStep.s_end e)) p t = ground arith
  Step-counts (Step.by_master (MasterStep.m_unanswered e d)) p t = ground arith
  Step-counts (Step.by_master (MasterStep.m_abandon e)) p t = ground arith
  Step-counts (Step.by_master (MasterStep.m_stall e)) p t = ground arith
  Step-counts (Step.by_master (MasterStep.m_stuck e d)) p t = ground arith
  Step-counts (Step.by_master (MasterStep.m_unsent e d)) p t = ground arith
  Step-counts (Step.by_master (MasterStep.m_give_up e)) p t = ground arith
  Step-counts (Step.by_master (MasterStep.m_disarm e)) p t = ground arith
  Step-counts (Step.by_master (MasterStep.m_miss e d)) p t = ground arith
  Step-counts (Step.by_master (MasterStep.m_leave e d)) p t = ground arith
  Step-counts (Step.by_slave (SlaveStep.s_asleep e d)) p t = ground arith
  Step-counts (Step.by_slave (SlaveStep.s_miss e d)) p t = ground arith
  Step-counts (Step.by_slave (SlaveStep.s_stuck e d)) p t = ground arith
  Step-counts (Step.by_slave (SlaveStep.s_unasked e d)) p t = ground arith
  Step-counts (Step.by_slave (SlaveStep.s_stall e)) p t = ground arith
  Step-counts (Step.by_slave (SlaveStep.s_leave e d)) p t = ground arith

  -- As many steps as the two sides have made calls.
  Reach-counts :
      {n : ℕ} {x : Pair} → Reach request reply n x → x.expired ≡ false → x.master + x.slave ≡ n
  Reach-counts start t = refl
  Reach-counts (later r st) t =
      let before = Step-expired st t in
      omega (arith, Reach-counts r before, Step-counts st (Reach-IsPaired r before) t)

-- The slave is waiting for nothing that has not happened.
record IsFree (x : Pair) : Type 0 where
  rung : x.slave ≡ 0 → x.db_ms ≡ true
  landed : x.slave ≡ 3 → 3 ≤ x.master
  lowered : x.slave ≡ 4 → x.db_ms ≡ false
  asked : x.slave ≡ 6 → x.db_ms ≡ true
  released : x.slave ≡ 9 → x.db_ms ≡ false
  unfinished : x.slave < 11

module _ (request reply : List ℕ) where
  abbrev Moves : Pair → Type 0
  Moves x = (y : Pair) × Step request reply x y × (y.expired ≡ false)

  slave-Moves : (x : Pair) (s : ℕ) → IsPaired request reply x → IsFree x → x.slave ≡ s → Moves x
  slave-Moves x zero p f e = (_, Step.by_slave (SlaveStep.s_wake e (f.rung e)), p.in_time)
  slave-Moves x (suc zero) p f e = (_, Step.by_slave (SlaveStep.s_arm e), p.in_time)
  slave-Moves x (suc (suc zero)) p f e = (_, Step.by_slave (SlaveStep.s_answer e), p.in_time)
  slave-Moves x (suc (suc (suc zero))) p f e = (
    _,
    Step.by_slave (SlaveStep.s_receive request e (let far = f.landed e in ground arith)),
    p.in_time,
  )
  slave-Moves x (suc (suc (suc (suc zero)))) p f e =
      (_, Step.by_slave (SlaveStep.s_over e (f.lowered e)), p.in_time)
  slave-Moves x (suc (suc (suc (suc (suc zero))))) p f e =
      (_, Step.by_slave (SlaveStep.s_lower e), p.in_time)
  slave-Moves x (suc (suc (suc (suc (suc (suc zero)))))) p f e =
      (_, Step.by_slave (SlaveStep.s_asked e (f.asked e)), p.in_time)
  slave-Moves x (suc (suc (suc (suc (suc (suc (suc zero))))))) p f e =
      (_, Step.by_slave (SlaveStep.s_transmit e), p.in_time)
  slave-Moves x (suc (suc (suc (suc (suc (suc (suc (suc zero)))))))) p f e =
      (_, Step.by_slave (SlaveStep.s_sent e), p.in_time)
  slave-Moves x (suc (suc (suc (suc (suc (suc (suc (suc (suc zero))))))))) p f e =
      (_, Step.by_slave (SlaveStep.s_done e (f.released e)), p.in_time)
  slave-Moves x (suc (suc (suc (suc (suc (suc (suc (suc (suc (suc zero)))))))))) p f e =
      (_, Step.by_slave (SlaveStep.s_end e), p.in_time)
  slave-Moves x (suc (suc (suc (suc (suc (suc (suc (suc (suc (suc (suc k))))))))))) p f e =
      absurd (let u = f.unfinished in omega arith)

  slave_next : (x : Pair) → IsPaired request reply x → IsFree x → Moves x
  slave_next x p f = slave-Moves x x.slave p f refl

  master-Moves :
      (x : Pair) (m : ℕ)
      → IsPaired request reply x
      → x.master ≡ m
      → ((x.master ≡ 11) × (x.slave ≡ 11)) ⊎ Moves x
  master-Moves x zero p e = inr (_, Step.by_master (MasterStep.m_ring e), p.in_time)
  master-Moves x (suc zero) p e = elim (Bool-cases x.db_sm) [
    | inl up ↦ inr (_, Step.by_master (MasterStep.m_answered e up), p.in_time)
    | inr down ↦ inr (
        slave_next x p (record {
          rung = λ h. ground arith;
          landed = λ h. ground arith;
          lowered = λ h. ground arith;
          asked = λ h. ground arith;
          released = λ h. ground arith;
          unfinished = ground arith;
        }))
  ]
  master-Moves x (suc (suc zero)) p e = inr (_, Step.by_master (MasterStep.m_transmit e), p.in_time)
  master-Moves x (suc (suc (suc zero))) p e =
      inr (_, Step.by_master (MasterStep.m_lower e), p.in_time)
  master-Moves x (suc (suc (suc (suc zero)))) p e = elim (Bool-cases x.db_sm) [
    | inl up ↦ inr (
        slave_next x p (record {
          rung = λ h. ground arith;
          landed = λ h. ground arith;
          lowered = λ h. ground arith;
          asked = λ h. ground arith;
          released = λ h. ground arith;
          unfinished = ground arith;
        }))
    | inr down ↦ inr (_, Step.by_master (MasterStep.m_over e down), p.in_time)
  ]
  master-Moves x (suc (suc (suc (suc (suc zero))))) p e =
      inr (_, Step.by_master (MasterStep.m_arm e), p.in_time)
  master-Moves x (suc (suc (suc (suc (suc (suc zero)))))) p e =
      inr (_, Step.by_master (MasterStep.m_ask e), p.in_time)
  master-Moves x (suc (suc (suc (suc (suc (suc (suc zero))))))) p e = elim (Bool-cases x.db_sm) [
    | inl up ↦ inr (_, Step.by_master (MasterStep.m_sent e up), p.in_time)
    | inr down ↦ inr (
        slave_next x p (record {
          rung = λ h. ground arith;
          landed = λ h. ground arith;
          lowered = λ h. ground arith;
          asked = λ h. ground arith;
          released = λ h. ground arith;
          unfinished = ground arith;
        }))
  ]
  master-Moves x (suc (suc (suc (suc (suc (suc (suc (suc zero)))))))) p e =
      inr (_, Step.by_master (MasterStep.m_receive reply e (ground arith)), p.in_time)
  master-Moves x (suc (suc (suc (suc (suc (suc (suc (suc (suc zero))))))))) p e =
      inr (_, Step.by_master (MasterStep.m_done e), p.in_time)
  master-Moves x (suc (suc (suc (suc (suc (suc (suc (suc (suc (suc zero)))))))))) p e =
      elim (Bool-cases x.db_sm) [
        | inl up ↦ inr (
            slave_next x p (record {
              rung = λ h. ground arith;
              landed = λ h. ground arith;
              lowered = λ h. ground arith;
              asked = λ h. ground arith;
              released = λ h. ground arith;
              unfinished = ground arith;
            }))
        | inr down ↦ inr (_, Step.by_master (MasterStep.m_end e down), p.in_time)
      ]
  master-Moves x (suc (suc (suc (suc (suc (suc (suc (suc (suc (suc (suc zero))))))))))) p e =
      inl (e, ground arith)
  master-Moves x (suc (suc (suc (suc (suc (suc (suc (suc (suc (suc (suc (suc k)))))))))))) p e =
      absurd (omega (arith, p.ends.0))

-- As long as no time limit runs out, and however the two sides interleave, no frame goes out to a
-- receiver that is not armed: what has landed at the slave is the request, once the master has sent
-- it, and at the master the reply. And they do not wait for each other: before 22 steps one of them
-- can go on in time, and with the 22nd both are at their ends.
pub exchange_completes :
    (request reply : List ℕ) (n : ℕ) (x : Pair)
    → Reach request reply n x
    → x.expired ≡ false
    → (x.lost ≡ false)
      × (x.request_landed ≡ (if leb 3 x.master then some request else none))
      × (x.reply_landed ≡ (if leb 8 x.slave then some reply else none))
      × (((n < 22) × (y : Pair) × Step request reply x y × (y.expired ≡ false))
          ⊎ ((n ≡ 22) × (x.master ≡ 11) × (x.slave ≡ 11)))
exchange_completes request reply n x r t =
    let p = Reach-IsPaired r t in
    let count = Reach-counts r t in
    (
      p.none_lost,
      p.request_at,
      p.reply_at,
      elim (master-Moves request reply x x.master p refl) [
        | inl end ↦ inr (omega (arith, end.0, end.1), end.0, end.1)
        | inr move ↦
            let next = Reach-IsPaired (later r move.1) move.2 in
            inl (
              omega (arith, Reach-counts (later r move.1) move.2, next.ends.0, next.ends.1),
              move.0,
              move.1,
              move.2,
            )
      ],
    )
