-- ===== src/Resolver/Wire.antt =====
-- Queries and answers of the resolver, rvpn/crates/rvpn-split-tunnel/src/dns_cache.rs. A reader's
-- state is the rest of the packet, which is empty when the source's position is past the end.
use r_vpn_core.Common.{
  ℕ, zero, suc, ◌-◌, ◌/◌, ◌%◌, ◌^◌, min, Bool, true, false, ◌&&◌, List, [], ◌∷◌, ◌++◌, ltb, leb,
  ◌==◌, if◌then◌else◌, length, drop, Result, ok, err, guard, ◌>>=◌, ◌>>◌,
}
use r_vpn_core.Common.Bytes.{to_be, from_be}
use r_vpn_core.Common.Texts.{Text}
use r_vpn_core.Packet.Ip.{Ipv4Addr, byte, word}

pub data AnswerError : Type 0 where
  too_short txid_mismatch not_response error_code truncated_name no_records : AnswerError

abbrev pub push_front : ℕ → List Text → List Text
push_front x [] = (x ∷ []) ∷ []
push_front x (label ∷ labels) = (x ∷ label) ∷ labels

-- `split('.')`
unfoldable pub split_dots : Text → List Text
split_dots [] = [] ∷ []
split_dots (x ∷ xs) = if x == 46 then [] ∷ split_dots xs else push_front x (split_dots xs)

unfoldable pub encode_labels : List Text → List ℕ
encode_labels [] = []
encode_labels (label ∷ labels) = length label % 256 ∷ (label ++ encode_labels labels)

unfoldable pub build_dns_query_packet : Text → ℕ → List ℕ
build_dns_query_packet domain txid =
    to_be 2 txid
    ++ (1
        ∷ 0
        ∷ 0
        ∷ 1
        ∷ 0
        ∷ 0
        ∷ 0
        ∷ 0
        ∷ 0
        ∷ 0
        ∷ (encode_labels (split_dots domain) ++ (0 ∷ 0 ∷ 1 ∷ 0 ∷ 1 ∷ [])))

-- A round takes a byte at least, so that as many rounds as there are bytes are enough.
unfoldable pub skip_labels : ℕ → List ℕ → Result AnswerError (List ℕ)
skip_labels fuel [] = err truncated_name
skip_labels zero (len ∷ rest) = err truncated_name
skip_labels (suc fuel) (len ∷ rest) =
    let later = skip_labels fuel (drop len rest) in
    if len == 0 then ok rest else if leb 192 len then ok (drop 1 rest) else later

unfoldable pub skip_dns_name : List ℕ → Result AnswerError (List ℕ)
skip_dns_name rest = skip_labels (length rest) rest

unfoldable pub skip_questions : ℕ → List ℕ → Result AnswerError (List ℕ)
skip_questions zero rest = ok rest
skip_questions (suc n) rest = skip_dns_name rest >>= λ after. skip_questions n (drop 4 after)

abbrev pub address_at : List ℕ → Ipv4Addr
address_at data' = record { a = byte data' 0; b = byte data' 1; c = byte data' 2; d = byte data' 3 }

abbrev pub is_a_record : List ℕ → Bool
is_a_record r = word r 0 == 1 && (word r 8 == 4 && leb 4 (length (drop 10 r)))

abbrev pub ttl_of : List ℕ → ℕ
ttl_of r = from_be (byte r 4 ∷ byte r 5 ∷ byte r 6 ∷ byte r 7 ∷ [])

unfoldable pub read_answers :
    ℕ → List ℕ → List Ipv4Addr → ℕ → Result AnswerError (List Ipv4Addr × ℕ)
read_answers zero rest ips min_ttl = ok (ips, min_ttl)
read_answers (suc n) rest ips min_ttl = skip_dns_name rest >>= λ r.
    let ips' = if is_a_record r then ips ++ (address_at (drop 10 r) ∷ []) else ips in
    let min_ttl' = if is_a_record r then min min_ttl (ttl_of r) else min_ttl in
    let later = read_answers n (drop (word r 8) (drop 10 r)) ips' min_ttl' in
    if ltb (length r) 10 then ok (ips, min_ttl) else later

abbrev pub is_nonempty : List Ipv4Addr → Bool
is_nonempty [] = false
is_nonempty (ip ∷ ips) = true

-- `u32::MAX` and the four hours of the cap.
abbrev pub u32_max : ℕ
u32_max = 2 ^ 32 - 1

abbrev pub max_ttl : ℕ
max_ttl = 14400

unfoldable pub parse_dns_a_response : List ℕ → ℕ → Result AnswerError (List Ipv4Addr × ℕ)
parse_dns_a_response packet txid = do
  guard (leb 12 (length packet)) too_short
  guard (word packet 0 == txid) txid_mismatch
  guard (word packet 2 / 32768 % 2 == 1) not_response
  guard (word packet 2 % 16 == 0) error_code
  rest ← skip_questions (word packet 4) (drop 12 packet)
  found ← read_answers (word packet 6) rest [] u32_max
  guard (is_nonempty (found.0)) no_records
  ok (found.0, min (found.1) max_ttl)
