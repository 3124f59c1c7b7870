-- ===== src/Link/Operations.antt =====
-- common/link_session.h: any sequence of the operations that the session offers, on either side.
use frank_test.Prelude.{ℕ, ◌≤◌, ◌≡◌, refl, Bool, false, List, [], ◌∷◌, All, arith}
use frank_test.Link.Bus.{TxReadings, RxReadings, link_init}
use frank_test.Link.Bus.Rules.{Lines, longest_wait_us}
use frank_test.Link.Session.{
  Session, link_m_send_ctrl, link_m_recv_ctrl, link_m_bulk_send, link_m_bulk_recv, link_m_duplex,
  link_m_integrity_send, link_m_integrity_recv, link_m_resync, link_m_request_slave_reset,
  link_m_ping,
}
use frank_test.Link.Session.Quiet.{
  IsQuiet, send_ctrl-IsQuiet, recv_ctrl-IsQuiet, bulk_send-IsQuiet, bulk_recv-IsQuiet,
  duplex-IsQuiet, integrity_send-IsQuiet, integrity_recv-IsQuiet, resync-IsQuiet,
  request_slave_reset-IsQuiet, ping-IsQuiet,
}
use frank_test.Link.Serve.{link_s_serve}
use frank_test.Link.Serve.Quiet.{serve-IsQuiet}

-- The functions of link_session.h; `us` is the time that the phase takes.
pub data Operation : Type 0 where
  send_ctrl : (op arg0 arg1 : ℕ) (payload : List ℕ) → Operation
  recv_ctrl resync request_slave_reset : Operation
  bulk_send bulk_recv duplex integrity_recv ping : (us count : ℕ) → Operation
  integrity_send : (blocks : ℕ) → Operation
  serve : (timeout_us us : ℕ) (info mem : List ℕ) → Operation

unfoldable pub perform : Operation → Session → Session
perform (send_ctrl op arg0 arg1 payload) s = (link_m_send_ctrl op arg0 arg1 payload s).1
perform recv_ctrl s = (link_m_recv_ctrl s).1
perform resync s = link_m_resync s
perform request_slave_reset s = link_m_request_slave_reset s
perform (bulk_send us n) s = (link_m_bulk_send us n s).2
perform (bulk_recv us n) s = (link_m_bulk_recv us n s).2
perform (duplex us n) s = (link_m_duplex us n s).2
perform (integrity_recv us n) s = (link_m_integrity_recv us n s).2
perform (ping us n) s = (link_m_ping us n s).2
perform (integrity_send n) s = (link_m_integrity_send n s).1
perform (serve timeout_us us info mem) s = (link_s_serve timeout_us us info mem s).1

unfoldable pub perform_all : List Operation → Session → Session
perform_all [] s = s
perform_all (o ∷ os) s = perform_all os (perform o s)

-- Only `link_s_serve` takes a time limit from its caller.
abbrev pub IsLimited : Operation → Type 0
IsLimited (serve timeout_us us info mem) = timeout_us ≤ longest_wait_us
IsLimited o = Unit {0}

perform-IsQuiet : (o : Operation) (s : Session) → IsLimited o → IsQuiet s → IsQuiet (perform o s)
unfolding perform
perform-IsQuiet (send_ctrl op arg0 arg1 payload) s h q = send_ctrl-IsQuiet s q op arg0 arg1 payload
perform-IsQuiet recv_ctrl s h q = recv_ctrl-IsQuiet s q
perform-IsQuiet resync s h q = resync-IsQuiet s q
perform-IsQuiet request_slave_reset s h q = request_slave_reset-IsQuiet s q
perform-IsQuiet (bulk_send us n) s h q = bulk_send-IsQuiet s q us n
perform-IsQuiet (bulk_recv us n) s h q = bulk_recv-IsQuiet s q us n
perform-IsQuiet (duplex us n) s h q = duplex-IsQuiet s q us n
perform-IsQuiet (integrity_recv us n) s h q = integrity_recv-IsQuiet us n s q
perform-IsQuiet (ping us n) s h q = ping-IsQuiet us n s q
perform-IsQuiet (integrity_send n) s h q = integrity_send-IsQuiet n s q
perform-IsQuiet (serve timeout_us us info mem) s h q = serve-IsQuiet timeout_us us info mem s h q

keep-IsQuiet :
    (os : List Operation) (s : Session) → All IsLimited os → IsQuiet s → IsQuiet (perform_all os s)
unfolding perform_all
keep-IsQuiet [] s h q = q
keep-IsQuiet (o ∷ os) s h q = keep-IsQuiet os (perform o s) h.1 (perform-IsQuiet o s h.0 q)

init-Lines :
    (fs_is_output : Bool) (doorbells : List (List Bool)) (tx_readings : List TxReadings)
    (rx_readings : List RxReadings)
    → Lines false false false (link_init fs_is_output doorbells tx_readings rx_readings)
unfolding link_init
init-Lines fs_is_output doorbells tx_readings rx_readings = record {
  db_is = refl;
  valid_is = refl;
  pending_is = refl;
  bulk_slow = omega arith;
  applied_slow = omega arith;
  paced = tt;
  bounded = tt;
}

-- Whatever the other side does, and in any order, the operations of a session that starts on a link
-- fresh from `link_init`, with time limits of half a minute at most, leave the doorbell and VALID
-- low and no reception under way; every control frame goes out at the control divider, nothing at a
-- divider below 1, and no wait has a limit above half a minute.
pub perform_all-IsQuiet :
    (os : List Operation) (s : Session) (fs_is_output : Bool) (doorbells : List (List Bool))
    (tx_readings : List TxReadings) (rx_readings : List RxReadings)
    → All IsLimited os
    → s.handshake_timeout_us ≤ longest_wait_us
    → s.link ≡ link_init fs_is_output doorbells tx_readings rx_readings
    → IsQuiet (perform_all os s)
perform_all-IsQuiet os s fs_is_output doorbells tx_readings rx_readings h patient fresh =
    keep-IsQuiet os s h (record {
      lines = rw fresh (init-Lines fs_is_output doorbells tx_readings rx_readings);
      patient = patient;
    })
