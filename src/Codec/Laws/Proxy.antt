-- ===== src/Codec/Laws/Proxy.antt =====
-- ProxyConnect, ProxyResponse and ProxyData: decoding what was encoded gives the message back, whatever bytes follow it
-- (rvpn/crates/rvpn-core/src/protocol/codec.rs). The ranges of the integers and the UTF-8 of the
-- texts are what the Rust types promise; the bounds on lengths are what the length fields can hold.
use r_vpn_core.Common.{
  ℕ, ◌^◌, ◌%◌, ◌<◌, ◌≡◌, refl, Bool, true, List, [], ◌∷◌, ◌++◌, Option, none, some, arith, length,
  lt→ltb, ok,
}
use r_vpn_core.Codec.Messages.{ProxyConnect, ProxyResponse, ProxyData, Field}
use r_vpn_core.Codec.Proxy.{
  encode_proxy_connect, encode_proxy_response, encode_proxy_data, encode_error, error_bytes,
  to_string, read_proxy_connect, read_proxy_response, read_proxy_data, read_error,
  decode_proxy_connect, decode_proxy_response, decode_proxy_data,
}
use r_vpn_core.Codec.Laws.Reads.{
  Reads, Reads-bind, Reads-check, Reads-first, Reads-last, Reads-require, Reads-type, Reads-byte,
  Reads-flag, Reads-bytes, Reads-be, Reads-pure, Reads-end, run-Reads,
}

pub record FitsProxyData (m : ProxyData) : Type 0 where
  pub id : m.connection_id < 2 ^ 64
  pub fits : length m.payload < 2 ^ 32

proxy_data-Reads : (m : ProxyData) → FitsProxyData m → Reads read_proxy_data (encode_proxy_data m) m
unfolding read_proxy_data encode_proxy_data
proxy_data-Reads m h = Reads-first _ _ (Reads-type _) (
    Reads-bind _ _ (Reads-be 8 _ _ h.id) (
      Reads-first _ _ (Reads-flag _ m.close) (
        Reads-bind _ _ (Reads-be 4 _ _ (omega arith))
          (Reads-last _ _ (Reads-bytes _ _ m.payload (omega arith))))))

-- Proxied data with a 64-bit id and fewer than 2 ^ 32 bytes are decoded from their encoding,
-- whatever follows it.
pub decode-encode_proxy_data :
    (m : ProxyData) (rest : List ℕ)
    → FitsProxyData m
    → decode_proxy_data (encode_proxy_data m ++ rest) ≡ ok m
unfolding decode_proxy_data
decode-encode_proxy_data m rest h = run-Reads _ (encode_proxy_data m) rest (proxy_data-Reads m h)

-- What survives of an error text: an empty one is read back as none.
abbrev pub some_text : Option (List ℕ) → Option (List ℕ)
some_text none = none
some_text (some []) = none
some_text (some (x ∷ xs)) = some (x ∷ xs)

module _ (is_utf8 : List ℕ → Bool) where
  pub to_string-Reads :
      (f : Field) (bs : List ℕ) → is_utf8 bs ≡ true → Reads (to_string is_utf8 f bs) [] bs
  unfolding to_string
  to_string-Reads f bs h = Reads-check _ _ (Reads-require _ _ h) (Reads-pure bs)

  pub record FitsProxyConnect (m : ProxyConnect) : Type 0 where
    pub id : m.connection_id < 2 ^ 64
    pub utf8 : is_utf8 m.host ≡ true
    pub fits : length m.host < 2 ^ 8
    pub port : m.port < 2 ^ 16

  pub proxy_connect-Reads :
      (m : ProxyConnect)
      → FitsProxyConnect m
      → Reads (read_proxy_connect is_utf8) (encode_proxy_connect m) m
  unfolding read_proxy_connect encode_proxy_connect
  proxy_connect-Reads m h = Reads-first _ _ (Reads-type _) (
      Reads-bind _ _ (Reads-be 8 _ _ h.id) (
        Reads-first _ _ (Reads-byte _ _) (
          Reads-bind _ _ (Reads-bytes _ _ m.host (omega arith)) (
            Reads-check _ _ (to_string-Reads _ m.host h.utf8)
              (Reads-last _ _ (Reads-be 2 _ _ h.port))))))

  -- A connect request with a 64-bit id, a UTF-8 host of fewer than 256 bytes and a 16-bit port is
  -- decoded from its encoding, whatever follows it.
  pub decode-encode_proxy_connect :
      (m : ProxyConnect) (rest : List ℕ)
      → FitsProxyConnect m
      → decode_proxy_connect is_utf8 (encode_proxy_connect m ++ rest) ≡ ok m
  unfolding decode_proxy_connect
  decode-encode_proxy_connect m rest h =
      run-Reads _ (encode_proxy_connect m) rest (proxy_connect-Reads m h)

  -- A text fits if it is UTF-8 and its length fits two bytes.
  abbrev pub FitsError : Option (List ℕ) → Type 0
  FitsError none = Unit {0}
  FitsError (some e) = (is_utf8 e ≡ true) × (length e < 2 ^ 16)

  pub error-Reads :
      (e : Option (List ℕ))
      → FitsError e
      → Reads (read_error is_utf8) (encode_error e) (some_text e)
  unfolding read_error encode_error error_bytes
  error-Reads none h =
      Reads-bind _ _ (Reads-be 2 _ 0 (omega arith))
        (Reads-check _ _ (Reads-bytes 0 _ [] refl) (Reads-pure none))
  error-Reads (some []) h =
      Reads-bind _ _ (Reads-be 2 _ 0 (omega arith))
        (Reads-check _ _ (Reads-bytes 0 _ [] refl) (Reads-pure none))
  error-Reads (some (x ∷ xs)) h =
      let n : ℕ = length (x ∷ xs) % 2 ^ 16 in
      Reads-bind _ _ (Reads-be 2 _ n (omega arith)) (
        Reads-end _ _ (Reads-bytes n _ (x ∷ xs) (omega arith)) (
          rw (lt→ltb 0 n (omega arith))
            (Reads-check _ _ (to_string-Reads _ (x ∷ xs) h.0) (Reads-pure _))))

  pub record FitsProxyResponse (m : ProxyResponse) : Type 0 where
    pub id : m.connection_id < 2 ^ 64
    pub error : FitsError m.error

  proxy_response-Reads :
      (m : ProxyResponse)
      → FitsProxyResponse m
      → Reads
          (read_proxy_response is_utf8)
          (encode_proxy_response m)
          (record m { error = some_text m.error })
  unfolding read_proxy_response encode_proxy_response
  proxy_response-Reads m h = Reads-first _ _ (Reads-type _) (
      Reads-bind _ _ (Reads-be 8 _ _ h.id)
        (Reads-first _ _ (Reads-flag _ m.success) (Reads-last _ _ (error-Reads m.error h.error))))

  -- A proxy response with a 64-bit id and an error text that, if there is one, is UTF-8 and has
  -- fewer than 2 ^ 16 bytes is decoded from its encoding, whatever follows it, with an empty error
  -- text read back as none.
  pub decode-encode_proxy_response :
      (m : ProxyResponse) (rest : List ℕ)
      → FitsProxyResponse m
      → decode_proxy_response is_utf8 (encode_proxy_response m ++ rest)
        ≡ ok (record m { error = some_text m.error })
  unfolding decode_proxy_response
  decode-encode_proxy_response m rest h =
      run-Reads _ (encode_proxy_response m) rest (proxy_response-Reads m h)
