-- ===== src/Link/Frame/Laws.antt =====
-- common/link_proto.c, `link_frame_build` and `link_frame_check`: a frame that arrives as it was sent.
use frank_test.Prelude.{
  ℕ, zero, suc, ◌-◌, ◌≤◌, ◌≡◌, refl, ap, true, List, [], ◌∷◌, ◌++◌, length, take, replicate, arith,
  length-append, length-take, length-replicate, take_append,
}
use frank_test.Prelude.Bytes.{u16, u32, word32_of_le32, word16_of_le16}
use frank_test.Crc.Errors.{crc32-lt}
use frank_test.Link.Frame.{
  link_ctrl_bytes, link_payload_bytes, header_bytes, payload_area, link_frame_build,
  link_frame_check, frame_op, frame_seq, frame_arg0, frame_arg1, frame_payload,
}

payload_area-length : (payload : List ℕ) → length (payload_area payload) ≡ link_payload_bytes
unfolding payload_area
payload_area-length payload =
    let kept = take link_payload_bytes payload in
    let room = link_payload_bytes - length kept in
    omega (
      arith,
      length-append kept (replicate room 0),
      length-replicate room (let z : ℕ = 0 in z),
      length-take link_payload_bytes payload,
    )

take_short {ℓ} : {A : Type ℓ} (n : ℕ) (xs : List A) → length xs ≤ n → take n xs ≡ xs
take_short zero [] h = refl
take_short zero (x ∷ xs) h = absurd (omega arith)
take_short (suc n) [] h = refl
take_short (suc n) (x ∷ xs) h = ap (λ t. x ∷ t) (take_short n xs (omega arith))

payload_area-keeps :
    (payload : List ℕ)
    → length payload ≤ link_payload_bytes
    → take (length payload) (payload_area payload) ≡ payload
unfolding payload_area
payload_area-keeps payload fits =
    rw (take_short link_payload_bytes payload fits) (take_append payload _)

-- A frame that is built for a payload of at most 104 bytes, which is what fits, has the fixed length,
-- passes the check, and carries its fields, cut to their widths, and the whole payload.
pub link_frame_build_lem :
    (op seq arg0 arg1 : ℕ) (payload : List ℕ)
    → length payload ≤ link_payload_bytes
    → let f = link_frame_build op seq arg0 arg1 payload in
      (length f ≡ link_ctrl_bytes)
      × (link_frame_check f ≡ true)
      × (frame_op f ≡ u16 op)
      × (frame_seq f ≡ u32 seq)
      × (frame_arg0 f ≡ u32 arg0)
      × (frame_arg1 f ≡ u32 arg1)
      × (take (length payload) (frame_payload f) ≡ payload)
unfolding link_frame_build link_frame_check
link_frame_build_lem op seq arg0 arg1 payload fits = (
  omega (arith, payload_area-length payload),
  ground (arith, crc32-lt (header_bytes op seq arg0 arg1 0 ++ payload_area payload)),
  word16_of_le16 op,
  word32_of_le32 seq,
  word32_of_le32 arg0,
  word32_of_le32 arg1,
  payload_area-keeps payload fits,
)
