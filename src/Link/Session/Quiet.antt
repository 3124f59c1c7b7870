-- ===== src/Link/Session/Quiet.antt =====
-- common/link_session.c, the master's half: how each operation leaves the bus, whatever the slave
-- does.
use frank_test.Prelude.{
  ℕ, zero, suc, ◌+◌, ◌≤◌, true, false, Bool-cases, inl, inr, List, [], ◌==◌, arith,
}
use frank_test.Prelude.Bytes.{u32}
use frank_test.Link.Frame.{link_frame_build}
use frank_test.Link.Pattern.{BulkResult}
use frank_test.Link.Bus.{
  link_rx_arm, link_rx_wait, link_db_set, resync_pause_us, link_reset_pulse_us,
  link_ctrl_timeout_us, link_handshake_timeout_us,
}
use frank_test.Link.Bus.Patience.{bulk_timeout_us-le}
use frank_test.Link.Bus.Rules.{
  Lines, longest_wait_us, db_set_rule, db_wait_rule, fs_set_rule, ctrl_rate_rule, ctrl_start_rule,
  bulk_start_rule, rx_arm_rule, rx_abort_rule, rx_wait_rule, tx_finish_rule, sleep_rule,
}
use frank_test.Link.Session.{
  Session, hs_timeout, tmo_of, link_m_send_ctrl, link_m_recv_ctrl, link_m_bulk_send,
  link_m_bulk_recv, link_m_duplex, send_block, link_m_integrity_send, recv_block, recv_blocks,
  link_m_integrity_recv, no_result, link_m_resync, link_m_request_slave_reset, ping_rounds,
  link_m_ping, link_op_ping,
}

-- Doorbell and VALID low, no reception under way, every control frame at the control divider, and
-- every wait limited to half a minute.
pub record IsQuiet (s : Session) : Type 0 where
  pub lines : Lines false false false s.link
  pub patient : s.handshake_timeout_us ≤ longest_wait_us

pub hs_timeout-le :
    (s : Session) → s.handshake_timeout_us ≤ longest_wait_us → hs_timeout s ≤ longest_wait_us
unfolding hs_timeout
hs_timeout-le s h = ground arith

module _ (s : Session) (q : IsQuiet s) where
  pub send_ctrl-IsQuiet :
      (op arg0 arg1 : ℕ) (payload : List ℕ) → IsQuiet (link_m_send_ctrl op arg0 arg1 payload s).1
  unfolding link_m_send_ctrl
  send_ctrl-IsQuiet op arg0 arg1 payload =
      let hs = hs_timeout-le s q.patient in
      let answered = db_wait_rule (db_set_rule q.lines true) true (hs_timeout s) hs in
      let started =
        ctrl_start_rule answered (link_frame_build op (u32 (s.seq + 1)) arg0 arg1 payload) in
      let sent = tx_finish_rule started link_ctrl_timeout_us (omega arith) in
      let over = db_wait_rule (db_set_rule sent false) false (hs_timeout s) hs in
      let unanswered = db_set_rule answered false in let patient = q.patient in ground arith

  pub recv_ctrl-IsQuiet : IsQuiet (link_m_recv_ctrl s).1
  unfolding link_m_recv_ctrl
  recv_ctrl-IsQuiet =
      let hs = hs_timeout-le s q.patient in
      let armed = rx_arm_rule q.lines in
      let answered = db_wait_rule (db_set_rule armed true) true (hs_timeout s) hs in
      let came = rx_wait_rule answered link_ctrl_timeout_us (omega arith) in
      let over = db_wait_rule (db_set_rule came false) false (hs_timeout s) hs in
      let unanswered = rx_abort_rule (db_set_rule answered false) in
      let patient = q.patient in ground arith

  pub bulk_send-IsQuiet : (us blocks : ℕ) → IsQuiet (link_m_bulk_send us blocks s).2
  unfolding link_m_bulk_send
  bulk_send-IsQuiet us blocks =
      let tmo = bulk_timeout_us-le s.clk_sys blocks s.link in
      let answered =
        db_wait_rule (db_set_rule q.lines true) true link_handshake_timeout_us (omega arith) in
      let sent = tx_finish_rule (bulk_start_rule answered s.bulk_tx blocks) (tmo_of s blocks) tmo in
      let over = db_wait_rule (db_set_rule sent false) false (tmo_of s blocks) tmo in
      let unanswered = db_set_rule answered false in let patient = q.patient in ground arith

  pub bulk_recv-IsQuiet : (us blocks : ℕ) → IsQuiet (link_m_bulk_recv us blocks s).2
  unfolding link_m_bulk_recv
  bulk_recv-IsQuiet us blocks =
      let tmo = bulk_timeout_us-le s.clk_sys blocks s.link in
      let rung = db_set_rule (rx_arm_rule q.lines) true in
      let came = rx_wait_rule rung (tmo_of s blocks) tmo in
      let drained = db_wait_rule came true link_handshake_timeout_us (omega arith) in
      let late =
        db_wait_rule (db_set_rule came false) false link_handshake_timeout_us (omega arith) in
      let over =
        db_wait_rule (db_set_rule drained false) false link_handshake_timeout_us (omega arith) in
      elim (Bool-cases
        ((link_rx_wait (tmo_of s blocks) (link_db_set true (link_rx_arm s.link))).0 == 0)) [
          | inl whole ↦ rw whole (record { lines = over; patient = q.patient })
          | inr cut ↦ rw cut (record { lines = late; patient = q.patient })
        ]

  pub duplex-IsQuiet : (us blocks : ℕ) → IsQuiet (link_m_duplex us blocks s).2
  unfolding link_m_duplex
  duplex-IsQuiet us blocks =
      let tmo = bulk_timeout_us-le s.clk_sys blocks s.link in
      let rung = db_set_rule (rx_arm_rule q.lines) true in
      let answered = db_wait_rule rung true link_handshake_timeout_us (omega arith) in
      let sent = tx_finish_rule (bulk_start_rule answered s.bulk_tx blocks) (tmo_of s blocks) tmo in
      let came = rx_wait_rule sent (tmo_of s blocks) tmo in
      let over = db_wait_rule (db_set_rule came false) false (tmo_of s blocks) tmo in
      let unanswered = rx_abort_rule (db_set_rule answered false) in
      let patient = q.patient in ground arith

  send_block-IsQuiet : IsQuiet (send_block s).1
  unfolding send_block
  send_block-IsQuiet =
      let tmo = bulk_timeout_us-le s.clk_sys 1 s.link in
      let answered =
        db_wait_rule (db_set_rule q.lines true) true link_handshake_timeout_us (omega arith) in
      let sent = tx_finish_rule (bulk_start_rule answered s.bulk_tx 1) (tmo_of s 1) tmo in
      let over = db_wait_rule (db_set_rule sent false) false (tmo_of s 1) tmo in
      let unanswered = db_set_rule answered false in let patient = q.patient in ground arith

  recv_block-IsQuiet : (out : BulkResult) → IsQuiet (recv_block out s).2
  unfolding recv_block
  recv_block-IsQuiet out =
      let tmo = bulk_timeout_us-le s.clk_sys 1 s.link in
      let rung = db_set_rule (rx_arm_rule q.lines) true in
      let answered = db_wait_rule rung true link_handshake_timeout_us (omega arith) in
      let came = rx_wait_rule answered (tmo_of s 1) tmo in
      let over = db_wait_rule (db_set_rule came false) false (tmo_of s 1) tmo in
      let unanswered = rx_abort_rule (db_set_rule answered false) in
      let patient = q.patient in ground arith

  pub resync-IsQuiet : IsQuiet (link_m_resync s)
  unfolding link_m_resync
  resync-IsQuiet = record {
    lines =
        let quiet = ctrl_rate_rule (rx_abort_rule (db_set_rule q.lines false)) in
        db_wait_rule (sleep_rule quiet resync_pause_us (omega arith)) false
          link_handshake_timeout_us (omega arith);
    patient = q.patient;
  }

  pub request_slave_reset-IsQuiet : IsQuiet (link_m_request_slave_reset s)
  unfolding link_m_request_slave_reset
  request_slave_reset-IsQuiet = record {
    lines =
        fs_set_rule (sleep_rule (fs_set_rule q.lines true) link_reset_pulse_us (omega arith)) false;
    patient = q.patient;
  }

pub integrity_send-IsQuiet :
    (n : ℕ) (s : Session) → IsQuiet s → IsQuiet (link_m_integrity_send n s).1
unfolding link_m_integrity_send
integrity_send-IsQuiet zero s q = q
integrity_send-IsQuiet (suc n) s q =
    let block = send_block-IsQuiet s q in
    let others = integrity_send-IsQuiet n (send_block s).1 block in
    elim (Bool-cases (send_block s).0) [ inl e ↦ rw e others | inr e ↦ rw e block ]

recv_blocks-IsQuiet :
    (n : ℕ) (out : BulkResult) (s : Session) → IsQuiet s → IsQuiet (recv_blocks n out s).2
unfolding recv_blocks
recv_blocks-IsQuiet zero out s q = q
recv_blocks-IsQuiet (suc n) out s q =
    let block = recv_block-IsQuiet s q out in
    let others = recv_blocks-IsQuiet n (recv_block out s).1 (recv_block out s).2 block in
    elim (Bool-cases (recv_block out s).0) [ inl e ↦ rw e others | inr e ↦ rw e block ]

pub integrity_recv-IsQuiet :
    (us n : ℕ) (s : Session) → IsQuiet s → IsQuiet (link_m_integrity_recv us n s).2
unfolding link_m_integrity_recv
integrity_recv-IsQuiet us n s q =
    let blocks = recv_blocks-IsQuiet n no_result s q in
    elim (Bool-cases (recv_blocks n no_result s).0) [ inl e ↦ rw e blocks | inr e ↦ rw e blocks ]

ping_rounds-IsQuiet : (n i : ℕ) (s : Session) → IsQuiet s → IsQuiet (ping_rounds n i s).1
unfolding ping_rounds
ping_rounds-IsQuiet zero i s q = q
ping_rounds-IsQuiet (suc n) i s q =
    let sent = send_ctrl-IsQuiet s q link_op_ping i 0 [] in
    let s' = (link_m_send_ctrl link_op_ping i 0 [] s).1 in
    let came = recv_ctrl-IsQuiet s' sent in
    let others = ping_rounds-IsQuiet n (i + 1) (link_m_recv_ctrl s').1 came in ground arith

pub ping-IsQuiet : (us n : ℕ) (s : Session) → IsQuiet s → IsQuiet (link_m_ping us n s).2
unfolding link_m_ping
ping-IsQuiet us n s q = let rounds = ping_rounds-IsQuiet n 0 s q in ground arith
