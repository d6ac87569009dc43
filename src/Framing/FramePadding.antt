-- ===== src/Framing/FramePadding.antt =====
-- pad_frame and unpad_frame of rvpn/crates/rvpn-core/src/frame_padding.rs. The padding that the
-- generator makes is an argument.
use r_vpn_core.Common.{
  ℕ, ◌+◌, ◌%◌, ◌^◌, List, ◌++◌, ltb, if◌then◌else◌, length, take, drop, Result, ok, err,
}
use r_vpn_core.Common.Bytes.{to_be, from_be}

abbrev pub max_pad : ℕ
max_pad = 64

pub data FrameError : Type 0 where
  too_short truncated : FrameError

-- `data.len() as u16` drops the high bits of the length.
unfoldable pub pad_frame : List ℕ → List ℕ → List ℕ
pad_frame padding bytes = to_be 2 (length bytes % 2 ^ 16) ++ (bytes ++ padding)

unfoldable pub unpad_frame : List ℕ → Result FrameError (List ℕ)
unpad_frame bytes =
    let real_len = from_be (take 2 bytes) in
    if ltb (length bytes) 2
    then err too_short
    else if ltb (length bytes) (2 + real_len)
    then err truncated
    else ok (take real_len (drop 2 bytes))
