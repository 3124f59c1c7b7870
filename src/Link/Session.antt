-- ===== src/Link/Session.antt =====
-- common/link_session.c, the master's half, over the bus of common/link_bus.c.
pub mod Quiet
use frank_test.Prelude.{
  ℕ, zero, suc, ◌+◌, ◌*◌, ◌/◌, ◌^◌, Bool, true, false, not, ◌&&◌, List, [], ◌∷◌, ◌==◌,
  if◌then◌else◌,
}
use frank_test.Prelude.Bytes.{u16, u32}
use frank_test.Link.Frame.{link_ctrl_bytes, link_frame_build, link_frame_check, frame_op}
use frank_test.Link.Pattern.{BulkResult, link_bulk_verify}
use frank_test.Link.Bus.{
  Link, link_use_ctrl_rate, link_use_bulk_rate, link_tx_start, link_tx_finish, link_rx_arm,
  link_rx_abort, link_rx_wait, link_db_set, link_db_wait, link_fs_set, sleep_us, resync_pause_us,
  link_reset_pulse_us, bulk_timeout_us, link_handshake_timeout_us, link_ctrl_timeout_us,
}

-- `link_session_t`, with the system clock that the time limits are derived from.
pub record Session : Type 0 where
  pub link : Link
  pub ctrl_rx : List ℕ
  pub bulk_tx : List ℕ
  pub bulk_rx : List ℕ
  pub seq : ℕ
  pub handshake_timeout_us : ℕ
  pub clk_sys : ℕ

abbrev pub link_bulk_bytes : ℕ
link_bulk_bytes = 32768

abbrev pub link_op_ping : ℕ
link_op_ping = 0x40

abbrev pub link_op_pong : ℕ
link_op_pong = 0x41

unfoldable pub hs_timeout : Session → ℕ
hs_timeout s =
    if s.handshake_timeout_us == 0 then link_handshake_timeout_us else s.handshake_timeout_us

abbrev pub tmo_of : Session → ℕ → ℕ
tmo_of s blocks = bulk_timeout_us s.clk_sys s.link blocks

-- Sequence number, opcode, arguments and payload of the frame that goes out.
unfoldable pub link_m_send_ctrl : ℕ → ℕ → ℕ → List ℕ → Session → Bool × Session
link_m_send_ctrl op arg0 arg1 payload s =
    let seq = u32 (s.seq + 1) in
    let frame = link_frame_build op seq arg0 arg1 payload in
    let s' = record s { seq = seq } in
    let answered = link_db_wait true (hs_timeout s) (link_db_set true s.link) in
    let sent =
      link_tx_finish link_ctrl_timeout_us
        (link_tx_start frame link_ctrl_bytes (link_use_ctrl_rate answered.1)) in
    let over = link_db_wait false (hs_timeout s) (link_db_set false sent.1) in
    if not answered.0
    then (false, record s' { link = link_db_set false answered.1 })
    else if not over.0
    then (false, record s' { link = over.1 })
    else (sent.0, record s' { link = over.1 })

unfoldable pub link_m_recv_ctrl : Session → Bool × Session
link_m_recv_ctrl s =
    let answered = link_db_wait true (hs_timeout s) (link_db_set true (link_rx_arm s.link)) in
    let came = link_rx_wait link_ctrl_timeout_us answered.1 in
    let over = link_db_wait false (hs_timeout s) (link_db_set false came.1) in
    if not answered.0
    then (false, record s { link = link_rx_abort (link_db_set false answered.1) })
    else (
      came.0 == 0 && link_frame_check came.1.landed,
      record s { link = over.1; ctrl_rx = came.1.landed },
    )

-- The time that a bulk phase took is an input, `us`; not positive counts as 0.
unfoldable pub link_m_bulk_send : ℕ → ℕ → Session → Bool × ℕ × Session
link_m_bulk_send us blocks s =
    let tmo = tmo_of s blocks in
    let answered = link_db_wait true link_handshake_timeout_us (link_db_set true s.link) in
    let sent =
      link_tx_finish tmo (
        link_tx_start s.bulk_tx (u32 (blocks * link_bulk_bytes)) (link_use_bulk_rate answered.1)) in
    let over = link_db_wait false tmo (link_db_set false sent.1) in
    if not answered.0
    then (false, 0, record s { link = link_db_set false answered.1 })
    else (sent.0, us, record s { link = over.1 })

unfoldable pub link_m_bulk_recv : ℕ → ℕ → Session → Bool × ℕ × Session
link_m_bulk_recv us blocks s =
    let tmo = tmo_of s blocks in
    let came = link_rx_wait tmo (link_db_set true (link_rx_arm s.link)) in
    let drained = link_db_wait true link_handshake_timeout_us came.1 in
    let after_it = if came.0 == 0 then drained.1 else came.1 in
    let over = link_db_wait false link_handshake_timeout_us (link_db_set false after_it) in
    (
      if came.0 == 0 then drained.0 else false,
      us,
      record s { link = over.1; bulk_rx = came.1.landed },
    )

unfoldable pub link_m_duplex : ℕ → ℕ → Session → Bool × ℕ × Session
link_m_duplex us blocks s =
    let tmo = tmo_of s blocks in
    let answered =
      link_db_wait true link_handshake_timeout_us (link_db_set true (link_rx_arm s.link)) in
    let sent =
      link_tx_finish tmo (
        link_tx_start s.bulk_tx (u32 (blocks * link_bulk_bytes)) (link_use_bulk_rate answered.1)) in
    let came = link_rx_wait tmo sent.1 in
    let over = link_db_wait false tmo (link_db_set false came.1) in
    if not answered.0
    then (false, 0, record s { link = link_rx_abort (link_db_set false answered.1) })
    else (came.0 == 0 && sent.0, us, record s { link = over.1; bulk_rx = came.1.landed })

-- One block of `link_m_integrity_send`.
unfoldable pub send_block : Session → Bool × Session
send_block s =
    let tmo = tmo_of s 1 in
    let answered = link_db_wait true link_handshake_timeout_us (link_db_set true s.link) in
    let sent =
      link_tx_finish tmo
        (link_tx_start s.bulk_tx link_bulk_bytes (link_use_bulk_rate answered.1)) in
    let over = link_db_wait false tmo (link_db_set false sent.1) in
    if not answered.0
    then (false, record s { link = link_db_set false answered.1 })
    else if not over.0
    then (false, record s { link = over.1 })
    else (sent.0, record s { link = over.1 })

-- The loop, on the blocks left. A block leaves the bulk divider, and so the time limit, as it was.
unfoldable pub link_m_integrity_send : ℕ → Session → Bool × Session
link_m_integrity_send zero s = (true, s)
link_m_integrity_send (suc n) s =
    let block = send_block s in
    let others = link_m_integrity_send n block.1 in if not block.0 then block else others

-- One block of `link_m_integrity_recv`: one that did not come counts as a timeout, its bytes too.
unfoldable pub recv_block : BulkResult → Session → Bool × BulkResult × Session
recv_block out s =
    let tmo = tmo_of s 1 in
    let answered =
      link_db_wait true link_handshake_timeout_us (link_db_set true (link_rx_arm s.link)) in
    let came = link_rx_wait tmo answered.1 in
    let lost = record out {
      timeouts = u32 (out.timeouts + 1);
      blocks = u32 (out.blocks + 1);
      bytes = u32 (out.bytes + link_bulk_bytes);
    } in
    let out' =
      if not (came.0 == 0)
      then lost
      else link_bulk_verify out came.1.landed s.bulk_tx link_bulk_bytes in
    let over = link_db_wait false tmo (link_db_set false came.1) in
    if not answered.0
    then (false, out, record s { link = link_rx_abort (link_db_set false answered.1) })
    else (over.0, out', record s { link = over.1; bulk_rx = came.1.landed })

-- The loop, on the blocks left.
unfoldable pub recv_blocks : ℕ → BulkResult → Session → Bool × BulkResult × Session
recv_blocks zero out s = (true, out, s)
recv_blocks (suc n) out s =
    let block = recv_block out s in
    let others = recv_blocks n block.1 block.2 in if not block.0 then block else others

abbrev pub no_result : BulkResult
no_result = record {
  blocks = 0;
  bytes = 0;
  byte_errors = 0;
  bit_errors = 0;
  timeouts = 0;
  elapsed_us = 0;
}

-- A failure leaves `elapsed_us` at zero.
unfoldable pub link_m_integrity_recv : ℕ → ℕ → Session → Bool × BulkResult × Session
link_m_integrity_recv us blocks s =
    let all_blocks = recv_blocks blocks no_result s in
    if not all_blocks.0
    then all_blocks
    else (true, record all_blocks.1 { elapsed_us = us }, all_blocks.2)

unfoldable pub link_m_resync : Session → Session
link_m_resync s =
    let quiet = link_use_ctrl_rate (link_rx_abort (link_db_set false s.link)) in
    let paused = sleep_us resync_pause_us quiet in
    record s { link = (link_db_wait false link_handshake_timeout_us paused).1 }

unfoldable pub link_m_request_slave_reset : Session → Session
link_m_request_slave_reset s = record s {
  link = link_fs_set false (sleep_us link_reset_pulse_us (link_fs_set true s.link));
}

-- The rounds left, and the one that is next.
unfoldable pub ping_rounds : ℕ → ℕ → Session → Bool × Session
ping_rounds zero i s = (true, s)
ping_rounds (suc n) i s =
    let sent = link_m_send_ctrl link_op_ping i 0 [] s in
    let came = link_m_recv_ctrl sent.1 in
    let others = ping_rounds n (i + 1) came.1 in
    if not sent.0
    then (false, sent.1)
    else if not came.0
    then (false, came.1)
    else if not (frame_op came.1.ctrl_rx == link_op_pong)
    then (false, came.1)
    else others

-- With the average in nanoseconds, which is only set where all rounds succeed.
unfoldable pub link_m_ping : ℕ → ℕ → Session → Bool × ℕ × Session
link_m_ping us rounds s =
    let all_rounds = ping_rounds rounds 0 s in
    if rounds == 0
    then (false, 0, s)
    else if not all_rounds.0
    then (false, 0, all_rounds.1)
    else (true, u32 (us * 1000 / rounds), all_rounds.1)
