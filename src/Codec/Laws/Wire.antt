-- ===== src/Codec/Laws/Wire.antt =====
-- RatchetMessage and the length prefix: decoding what was encoded
-- (rvpn/crates/rvpn-core/src/protocol/codec.rs).
use r_vpn_core.Common.{
  ℕ, ◌^◌, ◌≤◌, ◌<◌, ◌≡◌, true, false, List, ◌++◌, Option, none, some, arith, length, le→leb, ok,
  ◌%◌, refl, take-append, drop-append, length-append, append_assoc, take,
}
use r_vpn_core.Codec.Messages.{MessageHeader, RatchetMessage, nonce_size, max_ciphertext_len}
use r_vpn_core.Common.Bytes.{to_be, from_be, length-to_be, from_be-to_be}
use r_vpn_core.Codec.Wire.{
  decode_from_length_prefix, encode_with_length_prefix, encode_dh_public, encode_header,
  encode_ratchet_message, read_dh_public, read_header, read_ratchet_message, decode_ratchet_message,
}
use r_vpn_core.Codec.Laws.Reads.{
  Reads, Reads-bind, Reads-check, Reads-first, Reads-last, Reads-require, Reads-type, Reads-byte,
  Reads-flag, Reads-bytes, Reads-be, Reads-pure, run-Reads,
}

abbrev pub FitsDhPublic : Option (List ℕ) → Type 0
FitsDhPublic none = Unit {0}
FitsDhPublic (some dh) = length dh ≡ 32

dh_public-Reads :
    (dh : Option (List ℕ)) → FitsDhPublic dh → Reads read_dh_public (encode_dh_public dh) dh
unfolding read_dh_public encode_dh_public
dh_public-Reads none h = Reads-first _ _ (Reads-flag _ false) (Reads-pure none)
dh_public-Reads (some dh) h =
    Reads-first _ _ (Reads-flag _ true) (Reads-last _ _ (Reads-bytes 32 _ dh h))

pub record FitsHeader (h : MessageHeader) : Type 0 where
  pub dh_public : FitsDhPublic h.dh_public
  pub message_number : h.message_number < 2 ^ 32
  pub previous_chain_length : h.previous_chain_length < 2 ^ 32

header-Reads : (m : MessageHeader) → FitsHeader m → Reads read_header (encode_header m) m
unfolding read_header encode_header
header-Reads m h = Reads-bind _ _ (dh_public-Reads m.dh_public h.dh_public) (
    Reads-bind _ _ (Reads-be 4 _ _ h.message_number)
      (Reads-bind _ _ (Reads-be 4 _ _ h.previous_chain_length) (Reads-last _ _ (Reads-byte _ _))))

pub record FitsRatchetMessage (m : RatchetMessage) : Type 0 where
  pub header : FitsHeader m.header
  pub nonce : length m.nonce ≡ nonce_size
  pub ciphertext : length m.ciphertext ≤ max_ciphertext_len

pub ratchet_message-Reads :
    (m : RatchetMessage)
    → FitsRatchetMessage m
    → Reads read_ratchet_message (encode_ratchet_message m) m
unfolding read_ratchet_message encode_ratchet_message
ratchet_message-Reads m h = Reads-first _ _ (Reads-type _) (
    Reads-bind _ _ (header-Reads m.header h.header) (
      Reads-bind _ _ (Reads-bytes nonce_size _ m.nonce h.nonce) (
        Reads-bind _ _ (Reads-be 4 _ _ (omega arith)) (
          Reads-check _ _ (Reads-require _ _ (le→leb _ _ (omega arith)))
            (Reads-last _ _ (Reads-bytes _ _ m.ciphertext (omega arith)))))))

-- A ratchet message whose key, if it has one, has 32 bytes, whose counters fit 32 bits, whose
-- nonce has 12 bytes and whose ciphertext has at most 10 MiB is decoded from its encoding,
-- whatever follows it.
pub decode-encode_ratchet_message :
    (m : RatchetMessage) (rest : List ℕ)
    → FitsRatchetMessage m
    → decode_ratchet_message (encode_ratchet_message m ++ rest) ≡ ok m
unfolding decode_ratchet_message
decode-encode_ratchet_message m rest h =
    run-Reads _ (encode_ratchet_message m) rest (ratchet_message-Reads m h)

-- A message of fewer than 2 ^ 32 bytes behind its length prefix is taken off a buffer whole,
-- whatever follows it, with the number of bytes that it takes up.
pub decode_from_length_prefix-encode :
    (bytes rest : List ℕ)
    → length bytes < 2 ^ 32
    → decode_from_length_prefix (encode_with_length_prefix bytes ++ rest)
      ≡ some (bytes, length (encode_with_length_prefix bytes))
unfolding decode_from_length_prefix encode_with_length_prefix
decode_from_length_prefix-encode bytes rest h =
    let n = length bytes in
    let prefix = to_be 4 n in
    let small : n % 2 ^ 32 ≡ n = omega arith in
    let cut : take 4 (prefix ++ (bytes ++ rest)) ≡ prefix =
      take-append 4 prefix (bytes ++ rest) (length-to_be 4 n) in
    let read : from_be (take 4 (prefix ++ (bytes ++ rest))) ≡ n = rw cut (from_be-to_be 4 n h) in
    rw (small, append_assoc)
      (ground (
        arith,
        read,
        length-append prefix (bytes ++ rest),
        length-append prefix bytes,
        length-append bytes rest,
        length-to_be 4 n,
        drop-append 4 prefix (bytes ++ rest) (length-to_be 4 n),
        take-append n bytes rest refl,
      ))
