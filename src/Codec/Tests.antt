-- ===== src/Codec/Tests.antt =====
-- The codec on concrete messages: a request, a response that refuses, data, a batch of two, DNS, and
-- a ratchet message (rvpn/crates/rvpn-core/src/protocol/codec.rs).
use r_vpn_core.Common.{
  ℕ, ◌≡◌, refl, Bool, true, false, List, [], ◌∷◌, ◌++◌, none, some, arith, ltb, ◌&&◌, replicate, ok,
  err, take, All,
}
use r_vpn_core.Common.Bytes.{IsByte, to_be, from_be, from_be_acc}
use r_vpn_core.Codec.Messages.{
  ProxyConnect, ProxyResponse, ProxyData, ProxyDataBatchItem, ProxyDataBatch, DnsQuery, DnsResponse,
  RatchetMessage, DecodeError,
}
use r_vpn_core.Codec.Proxy.{encode_proxy_connect, decode_proxy_connect}
use r_vpn_core.Codec.Batch.{
  encode_proxy_data_batch, decode_proxy_data_batch, encode_items, encode_item,
}
use r_vpn_core.Codec.Wire.{encode_ratchet_message, decode_ratchet_message}
use r_vpn_core.Codec.Laws.Proxy.{FitsProxyConnect}
use r_vpn_core.Codec.Laws.Batch.{FitsBatch, decode-encode_proxy_data_batch}
use r_vpn_core.Codec.Laws.Dns.{FitsDnsQuery, FitsDnsResponse}
use r_vpn_core.Codec.Laws.Wire.{FitsRatchetMessage, decode-encode_ratchet_message}
use r_vpn_core.Codec.Laws.Truncated.{decode-truncated_proxy_data_batch}
use r_vpn_core.Codec.Laws.Sound.{decode_proxy_connect-long_host}

-- Text of seven-bit bytes stands in for UTF-8.
abbrev is_ascii : List ℕ → Bool
is_ascii [] = true
is_ascii (b ∷ bs) = ltb b 128 && is_ascii bs

abbrev a_connect : ProxyConnect
a_connect = record { connection_id = 258; host = 97 ∷ 46 ∷ 98 ∷ []; port = 443 }

abbrev a_refusal : ProxyResponse
a_refusal = record { connection_id = 258; success = false; error = some (110 ∷ 111 ∷ []) }

abbrev some_data : ProxyData
some_data = record { connection_id = 258; payload = 1 ∷ 2 ∷ 255 ∷ []; close = true }

abbrev an_item : ProxyDataBatchItem
an_item = record { connection_id = 7; payload = 9 ∷ 8 ∷ []; close = false }

abbrev last_item : ProxyDataBatchItem
last_item = record { connection_id = 8; payload = 6 ∷ []; close = true }

abbrev a_batch : ProxyDataBatch
a_batch = record { items = an_item ∷ last_item ∷ [] }

abbrev a_query : DnsQuery
a_query = record { query_id = 77; domain = 97 ∷ 46 ∷ 98 ∷ []; query_type = 28 }

abbrev an_answer : DnsResponse
an_answer = record {
  query_id = 77;
  success = true;
  ipv4_addrs = (10 ∷ 0 ∷ 0 ∷ 1 ∷ []) ∷ (10 ∷ 0 ∷ 0 ∷ 2 ∷ []) ∷ [];
  ipv6_addrs = [];
  ttl = 300;
  error = none;
}

abbrev a_message : RatchetMessage
a_message = record {
  header = record {
    dh_public = some (replicate 32 5);
    message_number = 3;
    previous_chain_length = 0;
    payload_type = 4;
  };
  nonce = replicate 12 1;
  ciphertext = 200 ∷ 201 ∷ 202 ∷ [];
}

all_bytes : List ℕ → Bool
all_bytes [] = true
all_bytes (b ∷ bs) = ltb b 256 && all_bytes bs

all_bytes-IsByte : (bs : List ℕ) → all_bytes bs ≡ true → All IsByte bs
unfolding all_bytes
all_bytes-IsByte [] h = tt
all_bytes-IsByte (b ∷ bs) h = ground (arith, all_bytes-IsByte bs)

a_connect-Fits : FitsProxyConnect is_ascii a_connect
a_connect-Fits = record { id = omega arith; utf8 = refl; fits = omega arith; port = omega arith }

a_query-Fits : FitsDnsQuery is_ascii a_query
a_query-Fits = record {
  id = omega arith;
  query_type = omega arith;
  utf8 = refl;
  fits = omega arith;
}

a_batch-Fits : FitsBatch a_batch
a_batch-Fits = record {
  count = omega arith;
  items = (
    record { id = omega arith; fits = omega arith },
    (record { id = omega arith; fits = omega arith }, tt),
  );
}

an_answer-Fits : FitsDnsResponse is_ascii an_answer
an_answer-Fits = record {
  id = omega arith;
  ttl = omega arith;
  ipv4 = (refl, (refl, tt));
  ipv6 = tt;
  ipv4_count = omega arith;
  ipv6_count = omega arith;
  error = tt;
}

a_message-Fits : FitsRatchetMessage a_message
a_message-Fits = record {
  header = record {
    dh_public = refl;
    message_number = omega arith;
    previous_chain_length = omega arith;
  };
  nonce = refl;
  ciphertext = omega arith;
}

decode-encode_proxy_data_batch_example :
    decode_proxy_data_batch (encode_proxy_data_batch a_batch ++ (0 ∷ [])) ≡ ok a_batch
decode-encode_proxy_data_batch_example =
    decode-encode_proxy_data_batch a_batch (0 ∷ []) a_batch-Fits

decode-encode_ratchet_message_example :
    decode_ratchet_message (encode_ratchet_message a_message ++ []) ≡ ok a_message
decode-encode_ratchet_message_example = decode-encode_ratchet_message a_message [] a_message-Fits

decode-truncated_proxy_data_batch_example :
    (e : DecodeError) × (decode_proxy_data_batch (take 31 (encode_proxy_data_batch a_batch))
      ≡ err e)
unfolding encode_proxy_data_batch encode_items encode_item to_be
decode-truncated_proxy_data_batch_example =
    decode-truncated_proxy_data_batch a_batch (take 31 (encode_proxy_data_batch a_batch)) 6 []
      a_batch-Fits refl

abbrev long_host : ProxyConnect
long_host = record { connection_id = 1; host = replicate 258 97; port = 80 }

-- The host `aa` at port 24929, which is `aa` again.
decode_proxy_connect-long_host_example :
    decode_proxy_connect is_ascii (encode_proxy_connect long_host ++ [])
    ≡ ok (record { connection_id = 1; host = 97 ∷ 97 ∷ []; port = 24929 })
unfolding all_bytes from_be from_be_acc
decode_proxy_connect-long_host_example =
    decode_proxy_connect-long_host is_ascii long_host [] (omega arith)
      (all_bytes-IsByte long_host.host refl) (omega arith) refl
