-- ===== src/Codec/Dns.antt =====
-- encode_/decode_ of DnsQuery and DnsResponse in rvpn/crates/rvpn-core/src/protocol/codec.rs.
use r_vpn_core.Common.{
  ℕ, zero, suc, ◌*◌, ◌%◌, ◌^◌, Bool, List, [], ◌∷◌, ◌++◌, bit, length, take, drop, Result,
}
use r_vpn_core.Common.Bytes.{to_be}
use r_vpn_core.Codec.Messages.{
  DnsQuery, DnsResponse, Field, DecodeError, type_dns_query, type_dns_response,
}
use r_vpn_core.Codec.Reader.{
  Reader, ◌>>=◌, ◌>>◌, pure, expect_type, read_byte, read_bytes, read_be, read_flag, run,
}
use r_vpn_core.Codec.Proxy.{encode_error, to_string, read_error}

unfoldable pub encode_dns_query : DnsQuery → List ℕ
encode_dns_query msg =
    type_dns_query
    ∷ (to_be 8 msg.query_id ++ (to_be 2 msg.query_type ++ (length msg.domain % 2 ^ 8 ∷ msg.domain)))

-- `for addr in addrs { result.extend_from_slice(&addr.octets()); }`
unfoldable pub encode_addrs : List (List ℕ) → List ℕ
encode_addrs [] = []
encode_addrs (addr ∷ addrs) = addr ++ encode_addrs addrs

unfoldable pub encode_dns_response : DnsResponse → List ℕ
encode_dns_response msg =
    type_dns_response
    ∷ (to_be 8 msg.query_id
        ++ (bit msg.success
            ∷ (to_be 4 msg.ttl
                ++ (length msg.ipv4_addrs % 2 ^ 8
                    ∷ (encode_addrs msg.ipv4_addrs
                        ++ (length msg.ipv6_addrs % 2 ^ 8
                            ∷ (encode_addrs msg.ipv6_addrs ++ encode_error msg.error)))))))

-- The loop that cuts `count` addresses of `size` octets out of a slice that was measured before.
unfoldable pub split_addrs : ℕ → ℕ → List ℕ → List (List ℕ)
split_addrs size zero bs = []
split_addrs size (suc count) bs = take size bs ∷ split_addrs size count (drop size bs)

-- One check for all the addresses, then the loop.
unfoldable pub read_addrs : ℕ → ℕ → Field → Reader (List (List ℕ))
read_addrs size count f = do bs ← read_bytes (count * size) f; pure (split_addrs size count bs)

module _ (is_utf8 : List ℕ → Bool) where
  unfoldable pub read_dns_query : Reader DnsQuery
  read_dns_query = do
    expect_type type_dns_query
    query_id ← read_be 8 Field.query_id
    query_type ← read_be 2 Field.query_type
    domain_len ← read_byte Field.domain_length
    domain_bytes ← read_bytes domain_len Field.domain
    domain ← to_string is_utf8 Field.domain domain_bytes
    pure (record { query_id = query_id; domain = domain; query_type = query_type })

  unfoldable pub decode_dns_query : List ℕ → Result DecodeError DnsQuery
  decode_dns_query = run read_dns_query

  unfoldable pub read_dns_response : Reader DnsResponse
  read_dns_response = do
    expect_type type_dns_response
    query_id ← read_be 8 Field.query_id
    success ← read_flag Field.success_flag
    ttl ← read_be 4 Field.time_to_live
    ipv4_count ← read_byte Field.ipv4_count
    ipv4_addrs ← read_addrs 4 ipv4_count Field.ipv4_addresses
    ipv6_count ← read_byte Field.ipv6_count
    ipv6_addrs ← read_addrs 16 ipv6_count Field.ipv6_addresses
    error ← read_error is_utf8
    pure (record {
      query_id = query_id;
      success = success;
      ipv4_addrs = ipv4_addrs;
      ipv6_addrs = ipv6_addrs;
      ttl = ttl;
      error = error;
    })

  unfoldable pub decode_dns_response : List ℕ → Result DecodeError DnsResponse
  decode_dns_response = run read_dns_response
