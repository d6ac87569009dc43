-- ===== src/Codec/Wire.antt =====
-- encode_ratchet_message, decode_ratchet_message and the length-prefixed framing of
-- rvpn/crates/rvpn-core/src/protocol/codec.rs.
use r_vpn_core.Common.{
  ℕ, ◌+◌, ◌%◌, ◌^◌, List, [], ◌∷◌, ◌++◌, Option, none, some, ltb, leb, if◌then◌else◌, length, take,
  drop, Result,
}
use r_vpn_core.Common.Bytes.{to_be, from_be}
use r_vpn_core.Codec.Messages.{
  MessageHeader, RatchetMessage, Field, DecodeError, ciphertext_too_long, type_ratchet_message,
  nonce_size, max_ciphertext_len,
}
use r_vpn_core.Codec.Reader.{
  Reader, ◌>>=◌, ◌>>◌, pure, require, expect_type, read_byte, read_bytes, read_be, read_flag, run,
}

-- The presence byte and the key, if there is one.
unfoldable pub encode_dh_public : Option (List ℕ) → List ℕ
encode_dh_public none = 0 ∷ []
encode_dh_public (some dh) = 1 ∷ dh

unfoldable pub encode_header : MessageHeader → List ℕ
encode_header h =
    encode_dh_public h.dh_public
    ++ (to_be 4 h.message_number ++ (to_be 4 h.previous_chain_length ++ (h.payload_type ∷ [])))

unfoldable pub encode_ratchet_message : RatchetMessage → List ℕ
encode_ratchet_message msg =
    type_ratchet_message
    ∷ (encode_header msg.header
        ++ (msg.nonce ++ (to_be 4 (length msg.ciphertext % 2 ^ 32) ++ msg.ciphertext)))

unfoldable pub read_dh_public : Reader (Option (List ℕ))
read_dh_public = do
  has_dh_public ← read_flag Field.header_flags
  if has_dh_public then read_bytes 32 Field.dh_public_key >>= (λ dh. pure (some dh)) else pure none

unfoldable pub read_header : Reader MessageHeader
read_header = do
  dh_public ← read_dh_public
  message_number ← read_be 4 Field.message_number
  previous_chain_length ← read_be 4 Field.previous_chain_length
  payload_type ← read_byte Field.payload_type
  pure (record {
    dh_public = dh_public;
    message_number = message_number;
    previous_chain_length = previous_chain_length;
    payload_type = payload_type;
  })

unfoldable pub read_ratchet_message : Reader RatchetMessage
read_ratchet_message = do
  expect_type type_ratchet_message
  header ← read_header
  nonce ← read_bytes nonce_size Field.nonce
  ciphertext_len ← read_be 4 Field.ciphertext_length
  require (leb ciphertext_len max_ciphertext_len) ciphertext_too_long
  ciphertext ← read_bytes ciphertext_len Field.ciphertext
  pure (record { header = header; nonce = nonce; ciphertext = ciphertext })

unfoldable pub decode_ratchet_message : List ℕ → Result DecodeError RatchetMessage
decode_ratchet_message = run read_ratchet_message

unfoldable pub encode_with_length_prefix : List ℕ → List ℕ
encode_with_length_prefix bs = to_be 4 (length bs % 2 ^ 32) ++ bs

-- The payload and the number of bytes that it takes up with its prefix.
unfoldable pub decode_from_length_prefix : List ℕ → Option (List ℕ × ℕ)
decode_from_length_prefix bytes =
    let len = from_be (take 4 bytes) in
    if ltb (length bytes) 4
    then none
    else if ltb (length bytes) (4 + len)
    then none
    else some (take len (drop 4 bytes), 4 + len)
