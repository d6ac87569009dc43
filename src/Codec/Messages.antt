-- ===== src/Codec/Messages.antt =====
-- The message types of rvpn/crates/rvpn-core/src/protocol/message.rs and the header and message of
-- crypto/ratchet.rs that the codec writes, its type bytes and its errors. A `String` is its bytes,
-- an `Ipv4Addr` or `Ipv6Addr` its octets, and an integer a number with its range stated.
use r_vpn_core.Common.{ℕ, ◌*◌, Bool, List, Option}

pub record ProxyConnect : Type 0 where
  pub connection_id : ℕ
  pub host : List ℕ
  pub port : ℕ

pub record ProxyResponse : Type 0 where
  pub connection_id : ℕ
  pub success : Bool
  pub error : Option (List ℕ)

pub record ProxyData : Type 0 where
  pub connection_id : ℕ
  pub payload : List ℕ
  pub close : Bool

pub record ProxyDataBatchItem : Type 0 where
  pub connection_id : ℕ
  pub payload : List ℕ
  pub close : Bool

pub record ProxyDataBatch : Type 0 where
  pub items : List ProxyDataBatchItem

pub record DnsQuery : Type 0 where
  pub query_id : ℕ
  pub domain : List ℕ
  pub query_type : ℕ

pub record DnsResponse : Type 0 where
  pub query_id : ℕ
  pub success : Bool
  pub ipv4_addrs : List (List ℕ)
  pub ipv6_addrs : List (List ℕ)
  pub ttl : ℕ
  pub error : Option (List ℕ)

pub record MessageHeader : Type 0 where
  pub dh_public : Option (List ℕ)
  pub message_number : ℕ
  pub previous_chain_length : ℕ
  pub payload_type : ℕ

pub record RatchetMessage : Type 0 where
  pub header : MessageHeader
  pub nonce : List ℕ
  pub ciphertext : List ℕ

-- The part of a message that a decoder was reading.
pub data Field : Type 0 where
  connection_id host_length host port success_flag error_length error_message : Field
  close_flag data_length data_payload item_count : Field
  header_flags dh_public_key message_number previous_chain_length payload_type nonce : Field
  ciphertext_length ciphertext : Field
  query_id query_type domain_length domain time_to_live : Field
  ipv4_count ipv4_addresses ipv6_count ipv6_addresses : Field

-- The `&'static str` errors: "Invalid message type", "Insufficient data for ...", "Invalid UTF-8 in
-- ..." and "Ciphertext length exceeds maximum allowed size".
pub data DecodeError : Type 0 where
  invalid_type : DecodeError
  insufficient : Field → DecodeError
  invalid_utf8 : Field → DecodeError
  ciphertext_too_long : DecodeError

abbrev pub type_proxy_connect : ℕ
type_proxy_connect = 0x01

abbrev pub type_proxy_response : ℕ
type_proxy_response = 0x02

abbrev pub type_proxy_data : ℕ
type_proxy_data = 0x03

abbrev pub type_ratchet_message : ℕ
type_ratchet_message = 0x04

abbrev pub type_dns_query : ℕ
type_dns_query = 0x05

abbrev pub type_dns_response : ℕ
type_dns_response = 0x06

abbrev pub type_proxy_data_batch : ℕ
type_proxy_data_batch = 0x0a

abbrev pub nonce_size : ℕ
nonce_size = 12

abbrev pub max_ciphertext_len : ℕ
max_ciphertext_len = 10 * 1024 * 1024
