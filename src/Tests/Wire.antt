-- ===== src/Tests/Wire.antt =====
-- Instances for the checksum, the control frame, the bulk pattern and the 1-Wire serial number.
use frank_test.Prelude.{
  ℕ, ◌*◌, ◌≤◌, ◌≡◌, ◌≢◌, refl, List, [], ◌∷◌, true, false, set, All, length, take, arith,
}
use frank_test.Prelude.Bytes.{IsByte, u16, u32, byte_at}
use frank_test.Crc.{crc32}
use frank_test.Link.Frame.{
  link_frame_build, link_frame_check, link_ctrl_bytes, header_bytes, payload_area, frame_op,
  frame_seq, frame_arg0, frame_arg1, frame_payload,
}
use frank_test.Link.Frame.Laws.{link_frame_build_lem}
use frank_test.Link.Frame.Corruption.{link_frame_check-set}
use frank_test.Link.Pattern.{link_bulk_verify, BulkResult}
use frank_test.Link.Pattern.Tally.{buffer_diffs, link_bulk_verify-counts}

abbrev check_digits : List ℕ
check_digits = 0x31 ∷ 0x32 ∷ 0x33 ∷ []

check_digits-All : All IsByte check_digits
check_digits-All = ground arith

link_frame_build_lem_example :
    let f = link_frame_build 3 7 0x10000 5 (1 ∷ 2 ∷ []) in
    (length f ≡ link_ctrl_bytes)
    × (link_frame_check f ≡ true)
    × (frame_op f ≡ u16 3)
    × (frame_seq f ≡ u32 7)
    × (frame_arg0 f ≡ u32 0x10000)
    × (frame_arg1 f ≡ u32 5)
    × (take 2 (frame_payload f) ≡ 1 ∷ 2 ∷ [])
link_frame_build_lem_example = link_frame_build_lem 3 7 0x10000 5 (1 ∷ 2 ∷ []) (omega arith)

abbrev ping : List ℕ
ping = link_frame_build 1 0 0 0 []

abbrev no_errors : BulkResult
no_errors = record {
  blocks = 0;
  bytes = 0;
  byte_errors = 0;
  bit_errors = 0;
  timeouts = 0;
  elapsed_us = 0;
}

link_bulk_verify-counts_example :
    let out = link_bulk_verify no_errors (5 ∷ 6 ∷ []) (5 ∷ 0x106 ∷ []) 8 in
    let d = buffer_diffs (5 ∷ 6 ∷ []) (5 ∷ 0x106 ∷ []) in
    (out.byte_errors ≡ d)
    × (d ≤ out.bit_errors)
    × (out.bit_errors ≤ 8 * d)
    × (out.blocks ≡ u32 1)
    × (out.bytes ≡ u32 8)
link_bulk_verify-counts_example =
    link_bulk_verify-counts no_errors (5 ∷ 6 ∷ []) (5 ∷ 0x106 ∷ []) 8 refl refl (omega arith)
      (omega arith)

ping-All : All IsByte ping
unfolding link_frame_build header_bytes payload_area crc32
ping-All = ground arith

ping-30 : 1 ≢ byte_at ping 30
unfolding link_frame_build header_bytes payload_area crc32
ping-30 = omega arith

link_frame_check-set_example : link_frame_check (set ping 30 1) ≡ false
link_frame_check-set_example =
    let built = link_frame_build_lem 1 0 0 0 [] (omega arith) in
    link_frame_check-set ping 30 1 ping-All built.0 built.1 (omega arith) (omega arith) ping-30
