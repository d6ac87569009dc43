-- ===== src/Codec/Proxy.antt =====
-- encode_/decode_ of ProxyConnect, ProxyResponse and ProxyData in
-- rvpn/crates/rvpn-core/src/protocol/codec.rs. `is_utf8` stands for the check of
-- `String::from_utf8` of the standard library.
use r_vpn_core.Common.{
  ℕ, ◌%◌, ◌^◌, Bool, List, [], ◌∷◌, ◌++◌, Option, none, some, ltb, if◌then◌else◌, bit, length,
  Result,
}
use r_vpn_core.Common.Bytes.{to_be}
use r_vpn_core.Codec.Messages.{
  ProxyConnect, ProxyResponse, ProxyData, Field, DecodeError, invalid_utf8, type_proxy_connect,
  type_proxy_response, type_proxy_data,
}
use r_vpn_core.Codec.Reader.{
  Reader, ◌>>=◌, ◌>>◌, pure, require, expect_type, read_byte, read_bytes, read_be, read_flag, run,
}

-- `host_bytes.len() as u8` drops the high bits of the length.
unfoldable pub encode_proxy_connect : ProxyConnect → List ℕ
encode_proxy_connect msg =
    type_proxy_connect
    ∷ (to_be 8 msg.connection_id ++ (length msg.host % 2 ^ 8 ∷ (msg.host ++ to_be 2 msg.port)))

-- `msg.error.as_ref().map(|e| e.as_bytes()).unwrap_or(&[])`
unfoldable pub error_bytes : Option (List ℕ) → List ℕ
error_bytes none = []
error_bytes (some e) = e

unfoldable pub encode_error : Option (List ℕ) → List ℕ
encode_error e = to_be 2 (length (error_bytes e) % 2 ^ 16) ++ error_bytes e

unfoldable pub encode_proxy_response : ProxyResponse → List ℕ
encode_proxy_response msg =
    type_proxy_response ∷ (to_be 8 msg.connection_id ++ (bit msg.success ∷ encode_error msg.error))

unfoldable pub encode_proxy_data : ProxyData → List ℕ
encode_proxy_data msg =
    type_proxy_data
    ∷ (to_be 8 msg.connection_id
        ++ (bit msg.close ∷ (to_be 4 (length msg.payload % 2 ^ 32) ++ msg.payload)))

unfoldable pub read_proxy_data : Reader ProxyData
read_proxy_data = do
  expect_type type_proxy_data
  connection_id ← read_be 8 Field.connection_id
  close ← read_flag Field.close_flag
  data_len ← read_be 4 Field.data_length
  payload ← read_bytes data_len Field.data_payload
  pure (record { connection_id = connection_id; payload = payload; close = close })

unfoldable pub decode_proxy_data : List ℕ → Result DecodeError ProxyData
decode_proxy_data = run read_proxy_data

module _ (is_utf8 : List ℕ → Bool) where
  -- `String::from_utf8(bytes).map_err(...)?`
  unfoldable pub to_string : Field → List ℕ → Reader (List ℕ)
  to_string f bs = do require (is_utf8 bs) (invalid_utf8 f); pure bs

  unfoldable pub read_proxy_connect : Reader ProxyConnect
  read_proxy_connect = do
    expect_type type_proxy_connect
    connection_id ← read_be 8 Field.connection_id
    host_len ← read_byte Field.host_length
    host_bytes ← read_bytes host_len Field.host
    host ← to_string Field.host host_bytes
    port ← read_be 2 Field.port
    pure (record { connection_id = connection_id; host = host; port = port })

  unfoldable pub decode_proxy_connect : List ℕ → Result DecodeError ProxyConnect
  decode_proxy_connect = run read_proxy_connect

  -- The error text with its length, at the end of a response. An empty text is read as no error.
  unfoldable pub read_error : Reader (Option (List ℕ))
  read_error = do
    error_len ← read_be 2 Field.error_length
    bs ← read_bytes error_len Field.error_message
    if ltb 0 error_len then to_string Field.error_message bs >>= (λ e. pure (some e)) else pure none

  unfoldable pub read_proxy_response : Reader ProxyResponse
  read_proxy_response = do
    expect_type type_proxy_response
    connection_id ← read_be 8 Field.connection_id
    success ← read_flag Field.success_flag
    error ← read_error
    pure (record { connection_id = connection_id; success = success; error = error })

  unfoldable pub decode_proxy_response : List ℕ → Result DecodeError ProxyResponse
  decode_proxy_response = run read_proxy_response
