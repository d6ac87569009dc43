-- ===== src/Codec/Laws/Batch.antt =====
-- ProxyDataBatch: decoding what was encoded (rvpn/crates/rvpn-core/src/protocol/codec.rs).
use r_vpn_core.Common.{ℕ, ◌^◌, ◌%◌, ◌<◌, ◌≡◌, List, [], ◌∷◌, ◌++◌, All, arith, length, ok}
use r_vpn_core.Codec.Messages.{ProxyDataBatchItem, ProxyDataBatch}
use r_vpn_core.Codec.Batch.{
  encode_item, encode_items, encode_proxy_data_batch, read_item, read_items, read_proxy_data_batch,
  decode_proxy_data_batch,
}
use r_vpn_core.Codec.Laws.Reads.{
  Reads, Reads-bind, Reads-first, Reads-last, Reads-type, Reads-flag, Reads-bytes, Reads-be,
  Reads-pure, run-Reads,
}

pub record FitsItem (item : ProxyDataBatchItem) : Type 0 where
  pub id : item.connection_id < 2 ^ 64
  pub fits : length item.payload < 2 ^ 32

item-Reads : (item : ProxyDataBatchItem) → FitsItem item → Reads read_item (encode_item item) item
unfolding read_item encode_item
item-Reads item h = Reads-bind _ _ (Reads-be 8 _ _ h.id) (
    Reads-first _ _ (Reads-flag _ item.close) (
      Reads-bind _ _ (Reads-be 4 _ _ (omega arith))
        (Reads-last _ _ (Reads-bytes _ _ item.payload (omega arith)))))

items-Reads :
    (items : List ProxyDataBatchItem)
    → All FitsItem items
    → Reads (read_items (length items)) (encode_items items) items
unfolding read_items encode_items
items-Reads [] h = Reads-pure []
items-Reads (item ∷ items) h =
    Reads-bind _ _ (item-Reads item h.0) (Reads-last _ _ (items-Reads items h.1))

pub record FitsBatch (batch : ProxyDataBatch) : Type 0 where
  pub count : length batch.items < 2 ^ 16
  pub items : All FitsItem batch.items

pub batch-Reads :
    (batch : ProxyDataBatch)
    → FitsBatch batch
    → Reads read_proxy_data_batch (encode_proxy_data_batch batch) batch
unfolding read_proxy_data_batch encode_proxy_data_batch
batch-Reads batch h =
    let count : length batch.items % 2 ^ 16 ≡ length batch.items = omega arith in
    Reads-first _ _ (Reads-type _) (
      Reads-bind _ _ (Reads-be 2 _ _ (omega arith))
        (rw count (Reads-last _ _ (items-Reads batch.items h.items))))

-- A batch of fewer than 2 ^ 16 items, each with a 64-bit id and fewer than 2 ^ 32 bytes, is
-- decoded from its encoding, whatever follows it.
pub decode-encode_proxy_data_batch :
    (batch : ProxyDataBatch) (rest : List ℕ)
    → FitsBatch batch
    → decode_proxy_data_batch (encode_proxy_data_batch batch ++ rest) ≡ ok batch
unfolding decode_proxy_data_batch
decode-encode_proxy_data_batch batch rest h =
    run-Reads _ (encode_proxy_data_batch batch) rest (batch-Reads batch h)
