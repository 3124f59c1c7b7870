-- ===== src/Link/Exchange/Ends.antt =====
-- common/link_session.c: that an exchange ends, whatever time limit runs out.
use frank_test.Prelude.{
  Bool-cases, ℕ, zero, suc, ◌≤◌, ◌≡◌, ◌⊎◌, inl, inr, refl, false, List, some, arith,
}
use frank_test.Link.Exchange.{Pair, MasterStep, SlaveStep, Step, Reach}
use frank_test.Link.Exchange.Orderly.{IsOrderly, Reach-IsOrderly, Reach-rank}

module _ (request reply : List ℕ) where
  abbrev Moves : Pair → Type 0
  Moves x = (y : Pair) × Step request reply x y

  slave-Moves :
      (x : Pair) (s : ℕ) → IsOrderly request reply x → x.slave ≡ s → (x.slave ≡ 11) ⊎ Moves x
  slave-Moves x zero o e = elim (Bool-cases x.db_ms) [
    | inl up ↦ inr (_, Step.by_slave (SlaveStep.s_wake e up))
    | inr down ↦ inr (_, Step.by_slave (SlaveStep.s_asleep e down))
  ]
  slave-Moves x (suc zero) o e = inr (_, Step.by_slave (SlaveStep.s_arm e))
  slave-Moves x (suc (suc zero)) o e = inr (_, Step.by_slave (SlaveStep.s_answer e))
  slave-Moves x (suc (suc (suc zero))) o e = elim (o.request_at) [
    | inl nothing ↦ inr (_, Step.by_slave (SlaveStep.s_miss e nothing))
    | inr whole ↦ inr (_, Step.by_slave (SlaveStep.s_receive request e whole))
  ]
  slave-Moves x (suc (suc (suc (suc zero)))) o e = elim (Bool-cases x.db_ms) [
    | inl up ↦ inr (_, Step.by_slave (SlaveStep.s_stuck e up))
    | inr down ↦ inr (_, Step.by_slave (SlaveStep.s_over e down))
  ]
  slave-Moves x (suc (suc (suc (suc (suc zero))))) o e =
      inr (_, Step.by_slave (SlaveStep.s_lower e))
  slave-Moves x (suc (suc (suc (suc (suc (suc zero)))))) o e = elim (Bool-cases x.db_ms) [
    | inl up ↦ inr (_, Step.by_slave (SlaveStep.s_asked e up))
    | inr down ↦ inr (_, Step.by_slave (SlaveStep.s_unasked e down))
  ]
  slave-Moves x (suc (suc (suc (suc (suc (suc (suc zero))))))) o e =
      inr (_, Step.by_slave (SlaveStep.s_transmit e))
  slave-Moves x (suc (suc (suc (suc (suc (suc (suc (suc zero)))))))) o e =
      inr (_, Step.by_slave (SlaveStep.s_sent e))
  slave-Moves x (suc (suc (suc (suc (suc (suc (suc (suc (suc zero))))))))) o e =
      elim (Bool-cases x.db_ms) [
        | inl up ↦ inr (_, Step.by_slave (SlaveStep.s_leave e up))
        | inr down ↦ inr (_, Step.by_slave (SlaveStep.s_done e down))
      ]
  slave-Moves x (suc (suc (suc (suc (suc (suc (suc (suc (suc (suc zero)))))))))) o e =
      inr (_, Step.by_slave (SlaveStep.s_end e))
  slave-Moves x (suc (suc (suc (suc (suc (suc (suc (suc (suc (suc (suc zero))))))))))) o e = inl e
  slave-Moves x (suc (suc (suc (suc (suc (suc (suc (suc (suc (suc (suc (suc k)))))))))))) o e =
      absurd (omega (arith, o.ends.1))

  master-Moves :
      (x : Pair) (m : ℕ) → IsOrderly request reply x → x.master ≡ m → (x.master ≡ 11) ⊎ Moves x
  master-Moves x zero o e = inr (_, Step.by_master (MasterStep.m_ring e))
  master-Moves x (suc zero) o e = elim (Bool-cases x.db_sm) [
    | inl up ↦ inr (_, Step.by_master (MasterStep.m_answered e up))
    | inr down ↦ inr (_, Step.by_master (MasterStep.m_unanswered e down))
  ]
  master-Moves x (suc (suc zero)) o e = inr (_, Step.by_master (MasterStep.m_transmit e))
  master-Moves x (suc (suc (suc zero))) o e = inr (_, Step.by_master (MasterStep.m_lower e))
  master-Moves x (suc (suc (suc (suc zero)))) o e = elim (Bool-cases x.db_sm) [
    | inl up ↦ inr (_, Step.by_master (MasterStep.m_stuck e up))
    | inr down ↦ inr (_, Step.by_master (MasterStep.m_over e down))
  ]
  master-Moves x (suc (suc (suc (suc (suc zero))))) o e =
      inr (_, Step.by_master (MasterStep.m_arm e))
  master-Moves x (suc (suc (suc (suc (suc (suc zero)))))) o e =
      inr (_, Step.by_master (MasterStep.m_ask e))
  master-Moves x (suc (suc (suc (suc (suc (suc (suc zero))))))) o e = elim (Bool-cases x.db_sm) [
    | inl up ↦ inr (_, Step.by_master (MasterStep.m_sent e up))
    | inr down ↦ inr (_, Step.by_master (MasterStep.m_unsent e down))
  ]
  master-Moves x (suc (suc (suc (suc (suc (suc (suc (suc zero)))))))) o e = elim (o.reply_at) [
    | inl nothing ↦ inr (_, Step.by_master (MasterStep.m_miss e nothing))
    | inr whole ↦ inr (_, Step.by_master (MasterStep.m_receive reply e whole.0))
  ]
  master-Moves x (suc (suc (suc (suc (suc (suc (suc (suc (suc zero))))))))) o e =
      inr (_, Step.by_master (MasterStep.m_done e))
  master-Moves x (suc (suc (suc (suc (suc (suc (suc (suc (suc (suc zero)))))))))) o e =
      elim (Bool-cases x.db_sm) [
        | inl up ↦ inr (_, Step.by_master (MasterStep.m_leave e up))
        | inr down ↦ inr (_, Step.by_master (MasterStep.m_end e down))
      ]
  master-Moves x (suc (suc (suc (suc (suc (suc (suc (suc (suc (suc (suc zero))))))))))) o e = inl e
  master-Moves x (suc (suc (suc (suc (suc (suc (suc (suc (suc (suc (suc (suc zero)))))))))))) o e =
      inr (_, Step.by_master (MasterStep.m_abandon e))
  master-Moves x (suc (suc (suc (suc (suc (suc (suc (suc (suc (suc (suc (suc (suc zero)))))))))))))
        o e =
      inr (_, Step.by_master (MasterStep.m_give_up e))
  master-Moves x
        (suc (suc (suc (suc (suc (suc (suc (suc (suc (suc (suc (suc (suc (suc zero)))))))))))))) o
        e =
      inr (_, Step.by_master (MasterStep.m_disarm e))
  master-Moves x
        (suc (suc (suc (suc (suc (suc (suc (suc (suc (suc (suc (suc (suc (suc (suc k)))))))))))))))
        o e =
      absurd (omega (arith, o.ends.0))

-- However the two sides interleave, and whatever time limits run out, an exchange takes at most 22
-- steps; either one of the two sides can go on, or both are at their ends with both doorbells low
-- and both receivers disarmed. If the slave succeeds, the request has landed there, and if the
-- master does, so have the request and the reply.
pub exchange_ends :
    (request reply : List ℕ) (n : ℕ) (x : Pair)
    → Reach request reply n x
    → (n ≤ 22)
      × (((y : Pair) × Step request reply x y)
          ⊎ ((x.master ≡ 11)
              × (x.slave ≡ 11)
              × (x.db_ms ≡ false)
              × (x.db_sm ≡ false)
              × (x.master_armed ≡ false)
              × (x.slave_armed ≡ false)
              × ((x.slave_ok ≡ false) ⊎ (x.request_landed ≡ some request))
              × ((x.master_ok ≡ false)
                  ⊎ ((x.reply_landed ≡ some reply) × (x.request_landed ≡ some request)))))
exchange_ends request reply n x r =
    let o = Reach-IsOrderly r in
    let far = Reach-rank r in
    (
      ground arith,
      elim (master-Moves request reply x x.master o refl) [
        | inr move ↦ inl move
        | inl here ↦ elim (slave-Moves request reply x x.slave o refl) [
          | inr move ↦ inl move
          | inl there ↦ inr (
            here,
            there,
            ground arith,
            ground arith,
            ground arith,
            ground arith,
            elim (Bool-cases x.slave_ok) [
              | inl fine ↦ inr (o.taken (omega arith) fine)
              | inr ill ↦ inl ill
            ],
            elim (Bool-cases x.master_ok) [
              | inl fine ↦ inr (let came = o.got (omega arith) fine in ground arith)
              | inr ill ↦ inl ill
            ],
          )
        ]
      ],
    )
