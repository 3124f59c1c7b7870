-- ===== src/Link/Serve/Quiet.antt =====
-- common/link_session.c, the slave's half: how a request leaves the bus, whatever the master does.
use frank_test.Prelude.{
  ℕ, zero, suc, ◌+◌, ◌≤◌, Bool, true, false, Bool-cases, inl, inr, List, [], ◌==◌, if◌then◌else◌,
  arith,
}
use frank_test.Prelude.Bytes.{u32}
use frank_test.Link.Frame.{link_frame_build, frame_op, frame_arg0}
use frank_test.Link.Pattern.{BulkResult}
use frank_test.Link.Bus.{link_db_wait, link_ctrl_timeout_us, link_handshake_timeout_us}
use frank_test.Link.Bus.Patience.{bulk_timeout_us-le}
use frank_test.Link.Bus.Rules.{
  longest_wait_us, db_set_rule, db_wait_rule, ctrl_start_rule, bulk_start_rule, rx_arm_rule,
  rx_wait_rule, tx_finish_rule, set_bulk_rule,
}
use frank_test.Link.Session.{Session, no_result}
use frank_test.Link.Session.Quiet.{IsQuiet}
use frank_test.Link.Serve.{
  slave_take_ctrl, slave_put_ctrl, serve_bulk_m2s, serve_bulk_s2m, serve_duplex, verify_blocks,
  serve_verify_m2s, send_blocks, serve_verify_s2m, serve_rate, dispatch, link_s_serve,
}

module _ (s : Session) (q : IsQuiet s) where
  take_ctrl-IsQuiet : IsQuiet (slave_take_ctrl s).1
  unfolding slave_take_ctrl
  take_ctrl-IsQuiet =
      let rung = db_set_rule (rx_arm_rule q.lines) true in
      let came = rx_wait_rule rung link_ctrl_timeout_us (omega arith) in
      let over = db_wait_rule came false link_handshake_timeout_us (omega arith) in
      record { lines = db_set_rule over false; patient = q.patient }

  put_ctrl-IsQuiet :
      (op arg0 arg1 : ℕ) (payload : List ℕ) → IsQuiet (slave_put_ctrl op arg0 arg1 payload s).1
  unfolding slave_put_ctrl
  put_ctrl-IsQuiet op arg0 arg1 payload =
      let frame = link_frame_build op (u32 (s.seq + 1)) arg0 arg1 payload in
      let asked = db_wait_rule q.lines true link_handshake_timeout_us (omega arith) in
      let sent = tx_finish_rule (ctrl_start_rule asked frame) link_ctrl_timeout_us (omega arith) in
      let rung = db_set_rule sent true in
      let over = db_wait_rule rung false link_handshake_timeout_us (omega arith) in
      let low = db_set_rule over false in let patient = q.patient in ground arith

either : (b : Bool) {x y : Session} → IsQuiet x → IsQuiet y → IsQuiet (if b then x else y)
either true hx hy = hx
either false hx hy = hy

rate-IsQuiet : (q88 : ℕ) (s : Session) → IsQuiet s → IsQuiet (serve_rate q88 s)
unfolding serve_rate
rate-IsQuiet q88 s q =
    let answered = put_ctrl-IsQuiet s q 0x21 q88 0 [] in
    record { lines = set_bulk_rule answered.lines q88; patient = answered.patient }

module _ (tmo : ℕ) (limited : tmo ≤ longest_wait_us) where
  bulk_m2s-IsQuiet :
      (us blocks : ℕ) (s : Session) → IsQuiet s → IsQuiet (serve_bulk_m2s tmo us blocks s)
  unfolding serve_bulk_m2s
  bulk_m2s-IsQuiet us blocks s q =
      let asked = db_wait_rule (rx_arm_rule q.lines) true link_handshake_timeout_us (omega arith) in
      let came = rx_wait_rule (db_set_rule asked true) tmo limited in
      let over = db_set_rule (db_wait_rule came false tmo limited) false in
      put_ctrl-IsQuiet _ (record { lines = over; patient = q.patient }) 0x31 0 0 _

  bulk_s2m-IsQuiet : (blocks : ℕ) (s : Session) → IsQuiet s → IsQuiet (serve_bulk_s2m tmo blocks s)
  unfolding serve_bulk_s2m
  bulk_s2m-IsQuiet blocks s q =
      let asked = db_wait_rule q.lines true link_handshake_timeout_us (omega arith) in
      let sent = tx_finish_rule (bulk_start_rule asked s.bulk_tx blocks) tmo limited in
      let over = db_set_rule (db_wait_rule (db_set_rule sent true) false tmo limited) false in
      let patient = q.patient in ground arith

  duplex-IsQuiet :
      (us blocks : ℕ) (s : Session) → IsQuiet s → IsQuiet (serve_duplex tmo us blocks s)
  unfolding serve_duplex
  duplex-IsQuiet us blocks s q =
      let asked = db_wait_rule q.lines true link_handshake_timeout_us (omega arith) in
      let armed = db_set_rule (rx_arm_rule asked) true in
      let sent = tx_finish_rule (bulk_start_rule armed s.bulk_tx blocks) tmo limited in
      let came = rx_wait_rule sent tmo limited in
      let over = db_set_rule (db_wait_rule came false tmo limited) false in
      elim (Bool-cases (link_db_wait true link_handshake_timeout_us s.link).0) [
        | inr away ↦ rw away (record { lines = asked; patient = q.patient })
        | inl there ↦
            rw there (put_ctrl-IsQuiet _ (record { lines = over; patient = q.patient }) 0x35 0 0 _)
      ]

  verify_blocks-IsQuiet :
      (n : ℕ) (r : BulkResult) (s : Session) → IsQuiet s → IsQuiet (verify_blocks tmo n r s).1
  unfolding verify_blocks
  verify_blocks-IsQuiet zero r s q = q
  verify_blocks-IsQuiet (suc n) r s q =
      let asked = db_wait_rule q.lines true link_handshake_timeout_us (omega arith) in
      let came = rx_wait_rule (db_set_rule (rx_arm_rule asked) true) tmo limited in
      let over = db_set_rule (db_wait_rule came false tmo limited) false in
      elim (Bool-cases (link_db_wait true link_handshake_timeout_us s.link).0) [
        | inr away ↦ rw away (record { lines = asked; patient = q.patient })
        | inl there ↦
            rw there (verify_blocks-IsQuiet n _ _ (record { lines = over; patient = q.patient }))
      ]

  send_blocks-IsQuiet : (n : ℕ) (s : Session) → IsQuiet s → IsQuiet (send_blocks tmo n s)
  unfolding send_blocks
  send_blocks-IsQuiet zero s q = q
  send_blocks-IsQuiet (suc n) s q =
      let asked = db_wait_rule q.lines true link_handshake_timeout_us (omega arith) in
      let sent = tx_finish_rule (bulk_start_rule asked s.bulk_tx 1) tmo limited in
      let over = db_set_rule (db_wait_rule (db_set_rule sent true) false tmo limited) false in
      elim (Bool-cases (link_db_wait true link_handshake_timeout_us s.link).0) [
        | inr away ↦ rw away (record { lines = asked; patient = q.patient })
        | inl there ↦
            rw there (send_blocks-IsQuiet n _ (record { lines = over; patient = q.patient }))
      ]

  verify_m2s-IsQuiet :
      (blocks : ℕ) (s : Session) → IsQuiet s → IsQuiet (serve_verify_m2s tmo blocks s)
  unfolding serve_verify_m2s
  verify_m2s-IsQuiet blocks s q =
      put_ctrl-IsQuiet _ (verify_blocks-IsQuiet blocks no_result s q) 0x37 0 0 _

  verify_s2m-IsQuiet :
      (blocks : ℕ) (s : Session) → IsQuiet s → IsQuiet (serve_verify_s2m tmo blocks s)
  unfolding serve_verify_s2m
  verify_s2m-IsQuiet blocks s q =
      put_ctrl-IsQuiet _ (send_blocks-IsQuiet blocks s q) 0x39 blocks 0 []

  dispatch-IsQuiet :
      (op blocks us : ℕ) (info mem : List ℕ) (s : Session)
      → IsQuiet s
      → IsQuiet (dispatch op blocks tmo us info mem s)
  unfolding dispatch
  dispatch-IsQuiet op blocks us info mem s q =
      either (op == 0x01) (put_ctrl-IsQuiet s q 0x02 0 0 info) (
        either (op == 0x10) (put_ctrl-IsQuiet s q 0x11 0 0 mem) (
          either (op == 0x40) (put_ctrl-IsQuiet s q 0x41 blocks 0 []) (
            either (op == 0x20) (rate-IsQuiet blocks s q) (
              either (op == 0x30) (bulk_m2s-IsQuiet us blocks s q) (
                either (op == 0x32) (bulk_s2m-IsQuiet blocks s q) (
                  either (op == 0x34) (duplex-IsQuiet us blocks s q) (
                    either (op == 0x36) (verify_m2s-IsQuiet blocks s q)
                      (either (op == 0x38) (verify_s2m-IsQuiet blocks s q) q))))))))

-- A request that the slave serves leaves its bus quiet.
pub serve-IsQuiet :
    (timeout_us us : ℕ) (info mem : List ℕ) (s : Session)
    → timeout_us ≤ longest_wait_us
    → IsQuiet s
    → IsQuiet (link_s_serve timeout_us us info mem s).1
unfolding link_s_serve
serve-IsQuiet timeout_us us info mem s limited q =
    let s' = record s { link = (link_db_wait true timeout_us s.link).1 } in
    let woken : IsQuiet s' = record {
      lines = db_wait_rule q.lines true timeout_us limited;
      patient = q.patient;
    } in
    let taken = take_ctrl-IsQuiet s' woken in
    let t = slave_take_ctrl s' in
    let blocks = frame_arg0 t.1.ctrl_rx in
    let served =
      dispatch-IsQuiet _ (bulk_timeout_us-le s.clk_sys (if blocks == 0 then 1 else blocks) t.1.link)
        (frame_op t.1.ctrl_rx) blocks us info mem t.1 taken in
    elim (Bool-cases (link_db_wait true timeout_us s.link).0) [
      | inr asleep ↦ rw asleep woken
      | inl awake ↦ elim (Bool-cases t.0) [
        | inr refused ↦ rw (awake, refused) taken
        | inl good ↦ rw (awake, good) served
      ]
    ]
