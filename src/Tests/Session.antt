-- ===== src/Tests/Session.antt =====
-- Instances for the link session: a link on which the other side answers at once.
use frank_test.Prelude.{
  ℕ, ◌<◌, ◌≤◌, ◌≡◌, ◌≢◌, ◌⊎◌, refl, true, false, none, some, List, [], ◌∷◌, set, All, leb,
  if◌then◌else◌, arith,
}
use frank_test.Prelude.Bytes.{IsByte, byte_at}
use frank_test.Crc.{crc32}
use frank_test.Link.Frame.{link_frame_build, header_bytes, payload_area}
use frank_test.Link.Frame.Laws.{link_frame_build_lem}
use frank_test.Link.Bus.{Link, link_init}
use frank_test.Link.Session.{Session, link_m_recv_ctrl}
use frank_test.Link.Session.Quiet.{IsQuiet}
use frank_test.Link.Serve.{link_s_serve}
use frank_test.Link.Serve.Refused.{arriving, link_s_serve-set}
use frank_test.Link.Operations.{Operation, perform_all, perform_all-IsQuiet}
use frank_test.Link.Exchange.{Pair, started, MasterStep, SlaveStep, Step, Reach, start, later}
use frank_test.Link.Exchange.Ends.{exchange_ends}
use frank_test.Link.Exchange.Progress.{exchange_completes}

abbrev request : List ℕ
request = link_frame_build 0x40 1 0 0 []

abbrev damaged : List ℕ
damaged = set request 30 1

-- One reception, of the damaged frame.
abbrev fresh : Link
fresh =
    link_init true ((true ∷ []) ∷ (false ∷ []) ∷ [])
      (record { busy = false ∷ []; empty = true ∷ [] } ∷ [])
      (record { busy = false ∷ []; still_busy = false; remaining = 0; arrived = damaged } ∷ [])

abbrev session : Session
session = record {
  link = fresh;
  ctrl_rx = [];
  bulk_tx = [];
  bulk_rx = [];
  seq = 0;
  handshake_timeout_us = 0;
  clk_sys = 252000000;
}

abbrev operations : List Operation
operations =
    Operation.send_ctrl 0x40 0 0 []
    ∷ Operation.recv_ctrl
    ∷ Operation.duplex 900 32
    ∷ Operation.serve 1000000 5 [] []
    ∷ []

perform_all-IsQuiet_example : IsQuiet (perform_all operations session)
perform_all-IsQuiet_example =
    perform_all-IsQuiet operations session true ((true ∷ []) ∷ (false ∷ []) ∷ [])
      (record { busy = false ∷ []; empty = true ∷ [] } ∷ [])
      (record { busy = false ∷ []; still_busy = false; remaining = 0; arrived = damaged } ∷ [])
      (tt, (tt, (tt, (omega arith, tt)))) (omega arith) refl

request-All : All IsByte request
unfolding link_frame_build header_bytes payload_area crc32
request-All = ground arith

request-30 : 1 ≢ byte_at request 30
unfolding link_frame_build header_bytes payload_area crc32
request-30 = omega arith

fresh_arriving : arriving session.link ≡ damaged
unfolding link_init
fresh_arriving = refl

link_s_serve-set_example :
    let served = link_s_serve 1000000 5 [] [] session in
    ((link_m_recv_ctrl session).0 ≡ false)
    × (served.0 ≡ 0)
    × (served.1.link.transmissions ≡ fresh.transmissions)
    × (served.1.link.bulk_clkdiv ≡ fresh.bulk_clkdiv)
link_s_serve-set_example =
    let built = link_frame_build_lem 0x40 1 0 0 [] (omega arith) in
    link_s_serve-set session 1000000 5 30 1 [] [] request request-All built.0 built.1 (omega arith)
      (omega arith) request-30 fresh_arriving

abbrev after_two : Pair
after_two = record started { master = 1; db_ms = true; slave = 1 }

abbrev calls_made : ℕ
calls_made = 2

two_steps : Reach request [] calls_made after_two
two_steps =
    later (later start (Step.by_master (MasterStep.m_ring refl)))
      (Step.by_slave (SlaveStep.s_wake refl refl))

exchange_completes_example :
    (after_two.lost ≡ false)
    × (after_two.request_landed ≡ (if leb 3 after_two.master then some request else none))
    × (after_two.reply_landed ≡ (if leb 8 after_two.slave then some [] else none))
    × (((calls_made < 22) × (y : Pair) × Step request [] after_two y × (y.expired ≡ false))
        ⊎ ((calls_made ≡ 22) × (after_two.master ≡ 11) × (after_two.slave ≡ 11)))
exchange_completes_example = exchange_completes request [] calls_made after_two two_steps refl

-- The slave is away.
abbrev unanswered : Pair
unanswered = record started { master = 12; db_ms = true; master_ok = false; expired = true }

unanswered_steps : Reach request [] calls_made unanswered
unanswered_steps =
    later (later start (Step.by_master (MasterStep.m_ring refl)))
      (Step.by_master (MasterStep.m_unanswered refl refl))

exchange_ends_example :
    (calls_made ≤ 22)
    × (((y : Pair) × Step request [] unanswered y)
        ⊎ ((unanswered.master ≡ 11)
            × (unanswered.slave ≡ 11)
            × (unanswered.db_ms ≡ false)
            × (unanswered.db_sm ≡ false)
            × (unanswered.master_armed ≡ false)
            × (unanswered.slave_armed ≡ false)
            × ((unanswered.slave_ok ≡ false) ⊎ (unanswered.request_landed ≡ some request))
            × ((unanswered.master_ok ≡ false)
                ⊎ ((unanswered.reply_landed ≡ some [])
                    × (unanswered.request_landed ≡ some request)))))
exchange_ends_example = exchange_ends request [] calls_made unanswered unanswered_steps
