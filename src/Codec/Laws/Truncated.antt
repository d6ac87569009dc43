-- ===== src/Codec/Laws/Truncated.antt =====
-- A message of rvpn/crates/rvpn-core/src/protocol/codec.rs that is cut short anywhere is refused: no
-- decoder answers with a message on a proper prefix of an encoding.
use r_vpn_core.Common.{ℕ, zero, suc, ◌≡◌, Bool, List, ◌∷◌, ◌++◌, err}
use r_vpn_core.Codec.Messages.{
  ProxyConnect, ProxyDataBatch, DnsResponse, RatchetMessage, Field, DecodeError,
}
use r_vpn_core.Codec.Proxy.{
  to_string, read_error, read_proxy_connect, encode_proxy_connect, decode_proxy_connect,
}
use r_vpn_core.Codec.Batch.{
  read_item, read_items, read_proxy_data_batch, encode_proxy_data_batch, decode_proxy_data_batch,
}
use r_vpn_core.Codec.Dns.{read_addrs, read_dns_response, encode_dns_response, decode_dns_response}
use r_vpn_core.Codec.Wire.{
  read_dh_public, read_header, read_ratchet_message, encode_ratchet_message, decode_ratchet_message,
}
use r_vpn_core.Codec.Laws.Proxy.{FitsProxyConnect, proxy_connect-Reads}
use r_vpn_core.Codec.Laws.Batch.{FitsBatch, batch-Reads}
use r_vpn_core.Codec.Laws.Dns.{FitsDnsResponse, dns_response-Reads}
use r_vpn_core.Codec.Laws.Wire.{FitsRatchetMessage, ratchet_message-Reads}
use r_vpn_core.Codec.Laws.Extends.{Extends, Extends-bind, Extends-pure, extends, run-truncated}

item-Extends : Extends read_item
unfolding read_item
item-Extends = search extends depth 12

items-Extends : (n : ℕ) → Extends (read_items n)
unfolding read_items
items-Extends zero = search extends
items-Extends (suc n) =
    Extends-bind item-Extends (λ _. Extends-bind (items-Extends n) (λ _. Extends-pure _))

batch-Extends : Extends read_proxy_data_batch
unfolding read_proxy_data_batch
batch-Extends = search (extends, items-Extends) depth 8

-- A proper prefix of the encoding of a batch within its ranges is refused with an error: no
-- shorter batch is returned.
pub decode-truncated_proxy_data_batch :
    (m : ProxyDataBatch) (front : List ℕ) (x : ℕ) (back : List ℕ)
    → FitsBatch m
    → encode_proxy_data_batch m ≡ front ++ (x ∷ back)
    → (e : DecodeError) × (decode_proxy_data_batch front ≡ err e)
unfolding decode_proxy_data_batch
decode-truncated_proxy_data_batch m front x back h e =
    run-truncated front x back batch-Extends (rw e at (batch-Reads m h))

dh_public-Extends : Extends read_dh_public
unfolding read_dh_public
dh_public-Extends = search extends depth 8

header-Extends : Extends read_header
unfolding read_header
header-Extends = search (extends, dh_public-Extends) depth 10

ratchet_message-Extends : Extends read_ratchet_message
unfolding read_ratchet_message
ratchet_message-Extends = search (extends, header-Extends) depth 12

-- A proper prefix of the encoding of a ratchet message within its ranges is refused with an error.
pub decode-truncated_ratchet_message :
    (m : RatchetMessage) (front : List ℕ) (x : ℕ) (back : List ℕ)
    → FitsRatchetMessage m
    → encode_ratchet_message m ≡ front ++ (x ∷ back)
    → (e : DecodeError) × (decode_ratchet_message front ≡ err e)
unfolding decode_ratchet_message
decode-truncated_ratchet_message m front x back h e =
    run-truncated front x back ratchet_message-Extends (rw e at (ratchet_message-Reads m h))

addrs-Extends : (size count : ℕ) (f : Field) → Extends (read_addrs size count f)
unfolding read_addrs
addrs-Extends size count f = search extends

module _ (is_utf8 : List ℕ → Bool) where
  to_string-Extends : (f : Field) (bs : List ℕ) → Extends (to_string is_utf8 f bs)
  unfolding to_string
  to_string-Extends f bs = search extends

  error-Extends : Extends (read_error is_utf8)
  unfolding read_error
  error-Extends = search (extends, to_string-Extends) depth 8

  proxy_connect-Extends : Extends (read_proxy_connect is_utf8)
  unfolding read_proxy_connect
  proxy_connect-Extends = search (extends, to_string-Extends) depth 14

  -- A proper prefix of the encoding of a connect request within its ranges is refused with an
  -- error.
  pub decode-truncated_proxy_connect :
      (m : ProxyConnect) (front : List ℕ) (x : ℕ) (back : List ℕ)
      → FitsProxyConnect is_utf8 m
      → encode_proxy_connect m ≡ front ++ (x ∷ back)
      → (e : DecodeError) × (decode_proxy_connect is_utf8 front ≡ err e)
  unfolding decode_proxy_connect
  decode-truncated_proxy_connect m front x back h e =
      run-truncated front x back proxy_connect-Extends (rw e at (proxy_connect-Reads is_utf8 m h))

  dns_response-Extends : Extends (read_dns_response is_utf8)
  unfolding read_dns_response
  dns_response-Extends = search (extends, error-Extends, addrs-Extends) depth 20

  -- A proper prefix of the encoding of a DNS response within its ranges is refused with an error.
  pub decode-truncated_dns_response :
      (m : DnsResponse) (front : List ℕ) (x : ℕ) (back : List ℕ)
      → FitsDnsResponse is_utf8 m
      → encode_dns_response m ≡ front ++ (x ∷ back)
      → (e : DecodeError) × (decode_dns_response is_utf8 front ≡ err e)
  unfolding decode_dns_response
  decode-truncated_dns_response m front x back h e =
      run-truncated front x back dns_response-Extends (rw e at (dns_response-Reads is_utf8 m h))
