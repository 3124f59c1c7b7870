-- ===== src/Link/Serve.antt =====
-- common/link_session.c, the slave's half: taking a control frame, answering, and the phases that
-- the master asks for. The payloads of the answers `info` and `mem` are bytes, and the time that a
-- phase took is an input.
pub mod Quiet
pub mod Refused
use frank_test.Prelude.{
  ℕ, zero, suc, ◌+◌, ◌*◌, ◌^◌, Bool, true, false, not, ◌&&◌, List, [], ◌∷◌, ◌++◌, ◌==◌,
  if◌then◌else◌,
}
use frank_test.Prelude.Bytes.{u32, le32}
use frank_test.Link.Frame.{
  link_ctrl_bytes, link_frame_build, link_frame_check, frame_op, frame_arg0,
}
use frank_test.Link.Pattern.{BulkResult, link_bulk_verify}
use frank_test.Link.Bus.{
  Link, link_use_ctrl_rate, link_use_bulk_rate, link_set_bulk_clkdiv, link_tx_start, link_tx_finish,
  link_rx_arm, link_rx_wait, link_db_set, link_db_wait, bulk_timeout_us, link_handshake_timeout_us,
  link_ctrl_timeout_us,
}
use frank_test.Link.Session.{Session, link_bulk_bytes, no_result}

unfoldable pub slave_take_ctrl : Session → Bool × Session
slave_take_ctrl s =
    let came = link_rx_wait link_ctrl_timeout_us (link_db_set true (link_rx_arm s.link)) in
    let over = link_db_wait false link_handshake_timeout_us came.1 in
    (
      came.0 == 0 && link_frame_check came.1.landed,
      record s { link = link_db_set false over.1; ctrl_rx = came.1.landed },
    )

unfoldable pub slave_put_ctrl : ℕ → ℕ → ℕ → List ℕ → Session → Bool × Session
slave_put_ctrl op arg0 arg1 payload s =
    let seq = u32 (s.seq + 1) in
    let frame = link_frame_build op seq arg0 arg1 payload in
    let asked = link_db_wait true link_handshake_timeout_us s.link in
    let sent =
      link_tx_finish link_ctrl_timeout_us
        (link_tx_start frame link_ctrl_bytes (link_use_ctrl_rate asked.1)) in
    let over = link_db_wait false link_handshake_timeout_us (link_db_set true sent.1) in
    if not asked.0
    then (false, record s { link = asked.1; seq = seq })
    else (sent.0, record s { link = link_db_set false over.1; seq = seq })

-- The fields of `link_bulk_result_t` in the order of the packed struct.
abbrev pub result_bytes : BulkResult → List ℕ
result_bytes r =
    le32 r.blocks
    ++ (le32 r.bytes
        ++ (le32 r.byte_errors ++ (le32 r.bit_errors ++ (le32 r.timeouts ++ le32 r.elapsed_us))))

-- The result of a phase that is not verified.
abbrev pub phase_result : Bool → ℕ → ℕ → BulkResult
phase_result ok us blocks = record no_result {
  blocks = blocks;
  bytes = u32 (blocks * link_bulk_bytes);
  timeouts = if ok then 0 else 1;
  elapsed_us = us;
}

-- `case LINK_OP_BULK_M2S`, with the time limit of the phase.
unfoldable pub serve_bulk_m2s : ℕ → ℕ → ℕ → Session → Session
serve_bulk_m2s tmo us blocks s =
    let asked = link_db_wait true link_handshake_timeout_us (link_rx_arm s.link) in
    let came = link_rx_wait tmo (link_db_set true asked.1) in
    let over = link_db_wait false tmo came.1 in
    let s' = record s { link = link_db_set false over.1; bulk_rx = came.1.landed } in
    (slave_put_ctrl 0x31 0 0 (result_bytes (phase_result (came.0 == 0) us blocks)) s').1

-- `case LINK_OP_BULK_S2M`.
unfoldable pub serve_bulk_s2m : ℕ → ℕ → Session → Session
serve_bulk_s2m tmo blocks s =
    let asked = link_db_wait true link_handshake_timeout_us s.link in
    let sent =
      link_tx_finish tmo
        (link_tx_start s.bulk_tx (u32 (blocks * link_bulk_bytes)) (link_use_bulk_rate asked.1)) in
    let over = link_db_wait false tmo (link_db_set true sent.1) in
    if not asked.0
    then record s { link = asked.1 }
    else record s { link = link_db_set false over.1 }

-- `case LINK_OP_DUPLEX`.
unfoldable pub serve_duplex : ℕ → ℕ → ℕ → Session → Session
serve_duplex tmo us blocks s =
    let asked = link_db_wait true link_handshake_timeout_us s.link in
    let armed = link_db_set true (link_rx_arm asked.1) in
    let sent =
      link_tx_finish tmo
        (link_tx_start s.bulk_tx (u32 (blocks * link_bulk_bytes)) (link_use_bulk_rate armed)) in
    let came = link_rx_wait tmo sent.1 in
    let over = link_db_wait false tmo came.1 in
    let ok = came.0 == 0 && sent.0 in
    let s' = record s { link = link_db_set false over.1; bulk_rx = came.1.landed } in
    let reply = slave_put_ctrl 0x35 0 0 (result_bytes (phase_result ok us blocks)) s' in
    if not asked.0 then record s { link = asked.1 } else reply.1

-- The loop of `case LINK_OP_VERIFY_M2S`, on the blocks left; it ends where the master stays away.
unfoldable pub verify_blocks : ℕ → ℕ → BulkResult → Session → BulkResult × Session
verify_blocks tmo zero r s = (r, s)
verify_blocks tmo (suc n) r s =
    let asked = link_db_wait true link_handshake_timeout_us s.link in
    let came = link_rx_wait tmo (link_db_set true (link_rx_arm asked.1)) in
    let over = link_db_wait false tmo came.1 in
    let lost = record r {
      blocks = u32 (r.blocks + 1);
      bytes = u32 (r.bytes + link_bulk_bytes);
      timeouts = u32 (r.timeouts + 1);
    } in
    let r' =
      if came.0 == 0 then link_bulk_verify r came.1.landed s.bulk_tx link_bulk_bytes else lost in
    let s' = record s { link = link_db_set false over.1; bulk_rx = came.1.landed } in
    let others = verify_blocks tmo n r' s' in
    if not asked.0 then (r, record s { link = asked.1 }) else others

unfoldable pub serve_verify_m2s : ℕ → ℕ → Session → Session
serve_verify_m2s tmo blocks s =
    let verified = verify_blocks tmo blocks no_result s in
    (slave_put_ctrl 0x37 0 0 (result_bytes verified.0) verified.1).1

-- The loop of `case LINK_OP_VERIFY_S2M`, on the blocks left.
unfoldable pub send_blocks : ℕ → ℕ → Session → Session
send_blocks tmo zero s = s
send_blocks tmo (suc n) s =
    let asked = link_db_wait true link_handshake_timeout_us s.link in
    let sent =
      link_tx_finish tmo (link_tx_start s.bulk_tx link_bulk_bytes (link_use_bulk_rate asked.1)) in
    let over = link_db_wait false tmo (link_db_set true sent.1) in
    let others = send_blocks tmo n (record s { link = link_db_set false over.1 }) in
    if not asked.0 then record s { link = asked.1 } else others

unfoldable pub serve_verify_s2m : ℕ → ℕ → Session → Session
serve_verify_s2m tmo blocks s = (slave_put_ctrl 0x39 blocks 0 [] (send_blocks tmo blocks s)).1

-- `case LINK_OP_RATE`: the divider changes after the answer.
unfoldable pub serve_rate : ℕ → Session → Session
serve_rate q88 s =
    let s' = (slave_put_ctrl 0x21 q88 0 [] s).1 in
    record s' { link = link_set_bulk_clkdiv q88 s'.link }

-- The `switch` over the opcodes of link_proto.h.
unfoldable pub dispatch : ℕ → ℕ → ℕ → ℕ → List ℕ → List ℕ → Session → Session
dispatch op blocks tmo us info mem s =
    if op == 0x01
    then (slave_put_ctrl 0x02 0 0 info s).1
    else if op == 0x10
    then (slave_put_ctrl 0x11 0 0 mem s).1
    else if op == 0x40
    then (slave_put_ctrl 0x41 blocks 0 [] s).1
    else if op == 0x20
    then serve_rate blocks s
    else if op == 0x30
    then serve_bulk_m2s tmo us blocks s
    else if op == 0x32
    then serve_bulk_s2m tmo blocks s
    else if op == 0x34
    then serve_duplex tmo us blocks s
    else if op == 0x36
    then serve_verify_m2s tmo blocks s
    else if op == 0x38
    then serve_verify_s2m tmo blocks s
    else s

-- 0 where no valid frame came.
unfoldable pub link_s_serve : ℕ → ℕ → List ℕ → List ℕ → Session → ℕ × Session
link_s_serve timeout_us us info mem s =
    let asked = link_db_wait true timeout_us s.link in
    let s' = record s { link = asked.1 } in
    let taken = slave_take_ctrl s' in
    let op = frame_op taken.1.ctrl_rx in
    let blocks = frame_arg0 taken.1.ctrl_rx in
    let tmo = bulk_timeout_us s.clk_sys taken.1.link (if blocks == 0 then 1 else blocks) in
    let served = dispatch op blocks tmo us info mem taken.1 in
    if not asked.0 then (0, s') else if not taken.0 then (0, taken.1) else (op, served)
