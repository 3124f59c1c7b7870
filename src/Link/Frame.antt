-- ===== src/Link/Frame.antt =====
-- `link_hdr_t`, `link_frame_build` and `link_frame_check` of common/link_proto.h and .c: the fixed
-- control frame of 128 bytes, a packed header of 24 and a zero-padded payload.
pub mod Laws
pub mod Corruption
use frank_test.Prelude.{
  ℕ, ◌+◌, ◌-◌, ◌/◌, ◌%◌, ◌≡◌, Bool, true, false, List, [], ◌∷◌, ◌++◌, length, take, drop, replicate,
  set, ◌==◌, if◌then◌else◌,
}
use frank_test.Prelude.Bytes.{le16, le32, byte_at, read16, read32}
use frank_test.Crc.{crc32}

abbrev pub link_magic : ℕ
link_magic = 0x324B5246

abbrev pub link_proto_ver : ℕ
link_proto_ver = 1

abbrev pub link_ctrl_bytes : ℕ
link_ctrl_bytes = 128

-- `LINK_CTRL_BYTES - sizeof(link_hdr_t)`.
abbrev pub link_payload_bytes : ℕ
link_payload_bytes = 104

-- The fields of `link_hdr_t` in the order of the packed struct.
unfoldable pub header_bytes : ℕ → ℕ → ℕ → ℕ → ℕ → List ℕ
header_bytes op seq arg0 arg1 crc =
    le32 link_magic
    ++ (le16 op ++ (le16 link_proto_ver ++ (le32 seq ++ (le32 arg0 ++ (le32 arg1 ++ le32 crc)))))

-- The payload area: a payload that is too long is cut, and the rest stays zero from the `memset`.
unfoldable pub payload_area : List ℕ → List ℕ
payload_area payload =
    let kept = take link_payload_bytes payload in
    kept ++ replicate (link_payload_bytes - length kept) 0

-- The checksum is taken with its own field at zero, and then stored in it. A NULL payload is `[]`.
unfoldable pub link_frame_build : ℕ → ℕ → ℕ → ℕ → List ℕ → List ℕ
unfolding header_bytes payload_area
link_frame_build op seq arg0 arg1 payload =
    let area = payload_area payload in
    header_bytes op seq arg0 arg1 (crc32 (header_bytes op seq arg0 arg1 0 ++ area)) ++ area

-- The copy of the frame with its `crc` field, bytes 20 to 23, at zero.
unfoldable pub zero_crc : List ℕ → List ℕ
zero_crc f = set (set (set (set f 20 0) 21 0) 22 0) 23 0

unfoldable pub link_frame_check : List ℕ → Bool
unfolding zero_crc
link_frame_check f =
    if read32 f 0 == link_magic
    then if read16 f 6 == link_proto_ver then crc32 (zero_crc f) == read32 f 20 else false
    else false

-- The header fields that a receiver reads.
abbrev pub frame_op : List ℕ → ℕ
frame_op f = read16 f 4

abbrev pub frame_seq : List ℕ → ℕ
frame_seq f = read32 f 8

abbrev pub frame_arg0 : List ℕ → ℕ
frame_arg0 f = read32 f 12

abbrev pub frame_arg1 : List ℕ → ℕ
frame_arg1 f = read32 f 16

abbrev pub frame_payload : List ℕ → List ℕ
frame_payload f = drop 24 f
