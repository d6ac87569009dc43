-- ===== src/Framing/PacketPadding.antt =====
-- pad_packet, unpad_packet and padded_size of rvpn/crates/rvpn-core/src/protocol/padding.rs. The
-- random bytes are an argument: `noise n` are the `n` bytes that `fill_bytes` writes.
use r_vpn_core.Common.{
  ℕ, ◌+◌, ◌-◌, ◌*◌, ◌/◌, ◌%◌, ◌^◌, List, [], ◌∷◌, ◌++◌, min, ltb, ◌==◌, if◌then◌else◌, length, take,
  drop, replicate, Result, ok, err,
}
use r_vpn_core.Common.Bytes.{to_be, from_be}

abbrev pub padding_block_size : ℕ
padding_block_size = 1024

abbrev pub max_padded_size : ℕ
max_padded_size = 16 * 1024

pub data PaddingError : Type 0 where
  data_too_short invalid_padding_length : PaddingError
  data_too_large : (data_len : ℕ) (max_len : ℕ) → PaddingError

unfoldable pub div_ceil : ℕ → ℕ → ℕ
div_ceil a b = (a + (b - 1)) / b

-- The size for data that are not empty.
unfoldable pub target_size : ℕ → ℕ
target_size data_len =
    min (div_ceil (data_len + 2) padding_block_size * padding_block_size) max_padded_size

unfoldable pub padded_size : ℕ → ℕ
padded_size data_len = if data_len == 0 then padding_block_size else target_size data_len

unfoldable pub pad_packet : (noise : ℕ → List ℕ) → List ℕ → Result PaddingError (List ℕ)
pad_packet noise [] = ok (replicate (padding_block_size - 2) 0 ++ to_be 2 (padding_block_size - 2))
pad_packet noise (b ∷ bs) =
    let data_len = length (b ∷ bs) in
    let max_data_len = target_size data_len - 2 in
    let padding_len = max_data_len - data_len in
    if ltb max_data_len data_len
    then err (data_too_large data_len max_data_len)
    else ok ((b ∷ bs) ++ (noise padding_len ++ to_be 2 (padding_len % 2 ^ 16)))

-- `unpad_packet` and `unpad_packet_slice`, which returns the same bytes without a copy.
unfoldable pub unpad_packet : List ℕ → Result PaddingError (List ℕ)
unpad_packet bytes =
    let padding_len = from_be (drop (length bytes - 2) bytes) in
    if ltb (length bytes) 2
    then err data_too_short
    else if ltb (length bytes - 2) padding_len
    then err invalid_padding_length
    else ok (take (length bytes - 2 - padding_len) bytes)
