-- ===== src/Link/Serve/Refused.antt =====
-- common/link_session.c, `link_m_recv_ctrl` and `link_s_serve`: a control frame that was damaged on
-- the bus.
use frank_test.Prelude.{
  ℕ, ◌<◌, ◌≡◌, ◌≢◌, refl, ap, ◌∙◌, Bool, true, false, ◌&&◌, Bool-cases, inl, inr, List, [], length,
  set, All,
}
use frank_test.Prelude.Bytes.{IsByte, byte_at}
use frank_test.Link.Frame.{link_ctrl_bytes, link_frame_check}
use frank_test.Link.Frame.Corruption.{link_frame_check-set}
use frank_test.Link.Bus.{
  Link, RxReadings, head_or, poll_until, link_rx_wait, link_rx_arm, link_rx_abort, link_db_set,
  link_db_wait, link_ctrl_timeout_us,
}
use frank_test.Link.Session.{Session, hs_timeout, link_m_recv_ctrl}
use frank_test.Link.Serve.{slave_take_ctrl, link_s_serve}

-- What the buffer of the next reception will hold.
abbrev pub arriving : Link → List ℕ
arriving l =
    (head_or (record { busy = []; still_busy = true; remaining = 0; arrived = [] })
      l.rx_readings).arrived

-- A reception fills the buffer and sends nothing.
record Receives (l l' : Link) : Type 0 where
  pub filled : l'.landed ≡ arriving l
  pub sent_as_before : l'.transmissions ≡ l.transmissions
  pub rate_as_before : l'.bulk_clkdiv ≡ l.bulk_clkdiv

rx_wait-Receives : (t : ℕ) (l : Link) → Receives l (link_rx_wait t l).1
unfolding link_rx_wait link_rx_abort
rx_wait-Receives t l =
    let quiet : RxReadings = record { busy = []; still_busy = true; remaining = 0; arrived = [] } in
    let readings = head_or quiet l.rx_readings in
    elim (Bool-cases (poll_until false readings.busy)) [
      | inl whole ↦
          rw whole (record { filled = refl; sent_as_before = refl; rate_as_before = refl })
      | inr late ↦ elim (Bool-cases readings.still_busy) [
        | inr whole ↦
            rw (late, whole)
              (record { filled = refl; sent_as_before = refl; rate_as_before = refl })
        | inl cut ↦
            rw (late, cut) (record { filled = refl; sent_as_before = refl; rate_as_before = refl })
      ]
    ]

db_wait_same :
    (level : Bool) (t : ℕ) (l : Link)
    → let l' = (link_db_wait level t l).1 in
      (arriving l' ≡ arriving l)
      × (l'.transmissions ≡ l.transmissions)
      × (l'.bulk_clkdiv ≡ l.bulk_clkdiv)
unfolding link_db_wait
db_wait_same level t l = (refl, refl, refl)

arriving_rung :
    (t : ℕ) (l : Link)
    → arriving (link_db_wait true t (link_db_set true (link_rx_arm l))).1 ≡ arriving l
unfolding link_db_wait link_db_set link_rx_arm
arriving_rung t l = refl

and_false : (b : Bool) → (b && false) ≡ false
and_false true = refl
and_false false = refl

slave_take_ctrl_refused :
    (s : Session)
    → link_frame_check (arriving s.link) ≡ false
    → let taken = slave_take_ctrl s in
      (taken.0 ≡ false)
      × (taken.1.link.transmissions ≡ s.link.transmissions)
      × (taken.1.link.bulk_clkdiv ≡ s.link.bulk_clkdiv)
unfolding slave_take_ctrl link_db_set link_rx_arm link_db_wait
slave_take_ctrl_refused s bad =
    let armed = link_db_set true (link_rx_arm s.link) in
    let came = rx_wait-Receives link_ctrl_timeout_us armed in
    rw (came.filled, bad) (and_false _, came.sent_as_before, came.rate_as_before)

link_m_recv_ctrl_refused :
    (s : Session) → link_frame_check (arriving s.link) ≡ false → (link_m_recv_ctrl s).0 ≡ false
unfolding link_m_recv_ctrl
link_m_recv_ctrl_refused s bad =
    let answered = link_db_wait true (hs_timeout s) (link_db_set true (link_rx_arm s.link)) in
    let came = rx_wait-Receives link_ctrl_timeout_us answered.1 in
    let refused = ap link_frame_check (came.filled ∙ arriving_rung (hs_timeout s) s.link) ∙ bad in
    elim (Bool-cases answered.0) [
      | inr away ↦ rw away refl
      | inl there ↦ rw (there, refused) (and_false _)
    ]

link_s_serve_refused :
    (s : Session) (timeout_us us : ℕ) (info mem : List ℕ)
    → link_frame_check (arriving s.link) ≡ false
    → let served = link_s_serve timeout_us us info mem s in
      (served.0 ≡ 0)
      × (served.1.link.transmissions ≡ s.link.transmissions)
      × (served.1.link.bulk_clkdiv ≡ s.link.bulk_clkdiv)
unfolding link_s_serve
link_s_serve_refused s timeout_us us info mem bad =
    let asked = link_db_wait true timeout_us s.link in
    let same = db_wait_same true timeout_us s.link in
    let s' = record s { link = asked.1 } in
    let taken = slave_take_ctrl_refused s' (ap link_frame_check same.0 ∙ bad) in
    elim (Bool-cases asked.0) [
      | inr asleep ↦ rw asleep (refl, same.1, same.2)
      | inl awake ↦ rw (awake, taken.0) (refl, taken.1 ∙ same.1, taken.2 ∙ same.2)
    ]

-- A control frame that arrives with one byte changed is not taken by the master. Nor is it by the
-- slave: nothing is served, nothing sent, and the divider stays.
pub link_s_serve-set :
    (s : Session) (timeout_us us i v : ℕ) (info mem f : List ℕ)
    → All IsByte f
    → length f ≡ link_ctrl_bytes
    → link_frame_check f ≡ true
    → i < link_ctrl_bytes
    → IsByte v
    → v ≢ byte_at f i
    → arriving s.link ≡ set f i v
    → let served = link_s_serve timeout_us us info mem s in
      ((link_m_recv_ctrl s).0 ≡ false)
      × (served.0 ≡ 0)
      × (served.1.link.transmissions ≡ s.link.transmissions)
      × (served.1.link.bulk_clkdiv ≡ s.link.bulk_clkdiv)
link_s_serve-set s timeout_us us i v info mem f bytes len good at hv ne arrives =
    let bad : link_frame_check (arriving s.link) ≡ false =
      ap link_frame_check arrives ∙ link_frame_check-set f i v bytes len good at hv ne in
    let served = link_s_serve_refused s timeout_us us info mem bad in
    (link_m_recv_ctrl_refused s bad, served.0, served.1, served.2)
