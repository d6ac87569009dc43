-- ===== src/Codec/Batch.antt =====
-- encode_proxy_data_batch and decode_proxy_data_batch of
-- rvpn/crates/rvpn-core/src/protocol/codec.rs.
use r_vpn_core.Common.{ℕ, zero, suc, ◌%◌, ◌^◌, List, [], ◌∷◌, ◌++◌, bit, length, Result}
use r_vpn_core.Common.Bytes.{to_be}
use r_vpn_core.Codec.Messages.{
  ProxyDataBatchItem, ProxyDataBatch, Field, DecodeError, type_proxy_data_batch,
}
use r_vpn_core.Codec.Reader.{
  Reader, ◌>>=◌, ◌>>◌, pure, expect_type, read_bytes, read_be, read_flag, run,
}

unfoldable pub encode_item : ProxyDataBatchItem → List ℕ
encode_item item =
    to_be 8 item.connection_id
    ++ (bit item.close ∷ (to_be 4 (length item.payload % 2 ^ 32) ++ item.payload))

unfoldable pub encode_items : List ProxyDataBatchItem → List ℕ
encode_items [] = []
encode_items (item ∷ items) = encode_item item ++ encode_items items

-- `batch.items.len() as u16` drops the high bits of the count.
unfoldable pub encode_proxy_data_batch : ProxyDataBatch → List ℕ
encode_proxy_data_batch batch =
    type_proxy_data_batch ∷ (to_be 2 (length batch.items % 2 ^ 16) ++ encode_items batch.items)

unfoldable pub read_item : Reader ProxyDataBatchItem
read_item = do
  connection_id ← read_be 8 Field.connection_id
  close ← read_flag Field.close_flag
  data_len ← read_be 4 Field.data_length
  payload ← read_bytes data_len Field.data_payload
  pure (record { connection_id = connection_id; payload = payload; close = close })

-- `for _ in 0..item_count { ... items.push(...) }`
unfoldable pub read_items : ℕ → Reader (List ProxyDataBatchItem)
read_items zero = pure []
read_items (suc n) = do item ← read_item; items ← read_items n; pure (item ∷ items)

unfoldable pub read_proxy_data_batch : Reader ProxyDataBatch
read_proxy_data_batch = do
  expect_type type_proxy_data_batch
  item_count ← read_be 2 Field.item_count
  items ← read_items item_count
  pure (record { items = items })

unfoldable pub decode_proxy_data_batch : List ℕ → Result DecodeError ProxyDataBatch
decode_proxy_data_batch = run read_proxy_data_batch
