-- ===== src/Codec/Laws/Dns.antt =====
-- DnsQuery and DnsResponse: decoding what was encoded
-- (rvpn/crates/rvpn-core/src/protocol/codec.rs).
use r_vpn_core.Common.{
  ℕ, ◌*◌, ◌^◌, ◌<◌, ◌≡◌, refl, Bool, true, List, [], ◌∷◌, ◌++◌, All, arith, length, length-append,
  take-append, drop-append, ok,
}
use r_vpn_core.Codec.Messages.{DnsQuery, DnsResponse, Field}
use r_vpn_core.Codec.Dns.{
  encode_dns_query, encode_addrs, encode_dns_response, split_addrs, read_addrs, read_dns_query,
  read_dns_response, decode_dns_query, decode_dns_response,
}
use r_vpn_core.Codec.Laws.Reads.{
  Reads, Reads-bind, Reads-check, Reads-first, Reads-last, Reads-end, Reads-type, Reads-byte,
  Reads-flag, Reads-bytes, Reads-be, Reads-pure, run-Reads,
}
use r_vpn_core.Codec.Reader.{read_bytes}
use r_vpn_core.Codec.Laws.Proxy.{some_text, FitsError, to_string-Reads, error-Reads}

abbrev pub IsAddr : ℕ → List ℕ → Type 0
IsAddr size addr = length addr ≡ size

length-encode_addrs :
    (size : ℕ) (addrs : List (List ℕ))
    → All (IsAddr size) addrs
    → length (encode_addrs addrs) ≡ length addrs * size
unfolding encode_addrs
length-encode_addrs size [] h = omega arith
length-encode_addrs size (addr ∷ addrs) h =
    omega (arith, h.0, length-append addr (encode_addrs addrs), length-encode_addrs size addrs h.1)

split_addrs-encode_addrs :
    (size : ℕ) (addrs : List (List ℕ))
    → All (IsAddr size) addrs
    → split_addrs size (length addrs) (encode_addrs addrs) ≡ addrs
unfolding split_addrs encode_addrs
split_addrs-encode_addrs size [] h = refl
split_addrs-encode_addrs size (addr ∷ addrs) h = rw (
  take-append size addr (encode_addrs addrs) h.0,
  drop-append size addr (encode_addrs addrs) h.0,
  split_addrs-encode_addrs size addrs h.1,
)

addrs-Reads :
    (size count : ℕ) (f : Field) (addrs : List (List ℕ))
    → All (IsAddr size) addrs
    → count ≡ length addrs
    → Reads (read_addrs size count f) (encode_addrs addrs) addrs
unfolding read_addrs
addrs-Reads size count f addrs h e = rw e (
    rw (split_addrs-encode_addrs size addrs h) at (
      Reads-last (read_bytes (length addrs * size) f) (split_addrs size (length addrs))
        (Reads-bytes _ _ (encode_addrs addrs) (length-encode_addrs size addrs h))))

module _ (is_utf8 : List ℕ → Bool) where
  pub record FitsDnsQuery (m : DnsQuery) : Type 0 where
    pub id : m.query_id < 2 ^ 64
    pub query_type : m.query_type < 2 ^ 16
    pub utf8 : is_utf8 m.domain ≡ true
    pub fits : length m.domain < 2 ^ 8

  dns_query-Reads :
      (m : DnsQuery) → FitsDnsQuery m → Reads (read_dns_query is_utf8) (encode_dns_query m) m
  unfolding read_dns_query encode_dns_query
  dns_query-Reads m h = Reads-first _ _ (Reads-type _) (
      Reads-bind _ _ (Reads-be 8 _ _ h.id) (
        Reads-bind _ _ (Reads-be 2 _ _ h.query_type) (
          Reads-first _ _ (Reads-byte _ _) (
            Reads-end _ _ (Reads-bytes _ _ m.domain (omega arith))
              (Reads-check _ _ (to_string-Reads is_utf8 _ m.domain h.utf8) (Reads-pure m))))))

  -- A DNS query with a 64-bit id, a 16-bit type and a UTF-8 domain of fewer than 256 bytes is
  -- decoded from its encoding, whatever follows it.
  pub decode-encode_dns_query :
      (m : DnsQuery) (rest : List ℕ)
      → FitsDnsQuery m
      → decode_dns_query is_utf8 (encode_dns_query m ++ rest) ≡ ok m
  unfolding decode_dns_query
  decode-encode_dns_query m rest h = run-Reads _ (encode_dns_query m) rest (dns_query-Reads m h)

  pub record FitsDnsResponse (m : DnsResponse) : Type 0 where
    pub id : m.query_id < 2 ^ 64
    pub ttl : m.ttl < 2 ^ 32
    pub ipv4 : All (IsAddr 4) m.ipv4_addrs
    pub ipv6 : All (IsAddr 16) m.ipv6_addrs
    pub ipv4_count : length m.ipv4_addrs < 2 ^ 8
    pub ipv6_count : length m.ipv6_addrs < 2 ^ 8
    pub error : FitsError is_utf8 m.error

  pub dns_response-Reads :
      (m : DnsResponse)
      → FitsDnsResponse m
      → Reads
          (read_dns_response is_utf8)
          (encode_dns_response m)
          (record m { error = some_text m.error })
  unfolding read_dns_response encode_dns_response
  dns_response-Reads m h = Reads-first _ _ (Reads-type _) (
      Reads-bind _ _ (Reads-be 8 _ _ h.id) (
        Reads-first _ _ (Reads-flag _ m.success) (
          Reads-bind _ _ (Reads-be 4 _ _ h.ttl) (
            Reads-first _ _ (Reads-byte _ _) (
              Reads-bind _ _ (addrs-Reads 4 _ _ m.ipv4_addrs h.ipv4 (omega arith)) (
                Reads-first _ _ (Reads-byte _ _) (
                  Reads-bind _ _ (addrs-Reads 16 _ _ m.ipv6_addrs h.ipv6 (omega arith))
                    (Reads-last _ _ (error-Reads is_utf8 m.error h.error)))))))))

  -- A DNS response with fields in their ranges, fewer than 256 addresses of either kind, and an
  -- error text that is UTF-8 and fits is decoded from its encoding, whatever follows it, with an
  -- empty error text read back as none.
  pub decode-encode_dns_response :
      (m : DnsResponse) (rest : List ℕ)
      → FitsDnsResponse m
      → decode_dns_response is_utf8 (encode_dns_response m ++ rest)
        ≡ ok (record m { error = some_text m.error })
  unfolding decode_dns_response
  decode-encode_dns_response m rest h =
      run-Reads _ (encode_dns_response m) rest (dns_response-Reads m h)
