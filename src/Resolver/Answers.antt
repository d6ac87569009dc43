-- ===== src/Resolver/Answers.antt =====
-- Answers to the resolver's queries (rvpn/crates/rvpn-split-tunnel/src/dns_cache.rs).
use r_vpn_core.Common.{
  ℕ, zero, suc, ◌+◌, ◌*◌, ◌/◌, ◌%◌, ◌^◌, ◌<◌, ◌≡◌, refl, ap, ◌∙◌, min, true, false, List, [], ◌∷◌,
  ◌++◌, map, append_assoc, append-nil, arith, ltb, leb, ◌==◌, length, length-append, drop,
  drop-append, All, ok,
}
use r_vpn_core.Common.Bytes.{to_be, from_be, from_be_acc}
use r_vpn_core.Common.Texts.{Text}
use r_vpn_core.Packet.Ip.{Ipv4Addr}
use r_vpn_core.Resolver.Wire.{
  split_dots, encode_labels, build_dns_query_packet, skip_labels, skip_dns_name, skip_questions,
  read_answers, u32_max, max_ttl, parse_dns_a_response,
}

-- A label that a name can hold; from 64 on a length means something else.
abbrev pub IsLabel : Text → Type 0
IsLabel label = (0 < length label) × (length label < 64)

skip_labels-encode_labels :
    (labels : List Text) (rest : List ℕ) (fuel : ℕ)
    → All IsLabel labels
    → length (encode_labels labels) < fuel
    → skip_labels fuel (encode_labels labels ++ (0 ∷ rest)) ≡ ok rest
unfolding skip_labels encode_labels
skip_labels-encode_labels labels rest zero h f = absurd (omega arith)
skip_labels-encode_labels [] rest (suc fuel) h f = refl
skip_labels-encode_labels (label ∷ labels) rest (suc fuel) h f =
    let small : length label % 256 ≡ length label = omega (arith, h.0) in
    let some_byte : (length label == 0) ≡ false = ground (arith, h.0) in
    let no_pointer : leb 192 (length label) ≡ false = ground (arith, h.0) in
    let next = drop-append (length label) label (encode_labels labels ++ (0 ∷ rest)) refl in
    let shorter = length-append label (encode_labels labels) in
    rw (small, some_byte, no_pointer, append_assoc label (encode_labels labels) (0 ∷ rest), next)
      (skip_labels-encode_labels labels rest fuel h.1 (omega arith))

skip_dns_name-encode_labels :
    (labels : List Text) (rest : List ℕ)
    → All IsLabel labels
    → skip_dns_name (encode_labels labels ++ (0 ∷ rest)) ≡ ok rest
unfolding skip_dns_name
skip_dns_name-encode_labels labels rest h =
    skip_labels-encode_labels labels rest _ h
      (omega (arith, length-append (encode_labels labels) (0 ∷ rest)))

-- A record of type A, with the name of the question by a pointer.
pub record Answer : Type 0 where
  pub ttl : ℕ
  pub addr : Ipv4Addr

abbrev pub encode_answer : Answer → List ℕ → List ℕ
encode_answer a rest =
    192
    ∷ 12
    ∷ 0
    ∷ 1
    ∷ 0
    ∷ 1
    ∷ a.ttl / 2 ^ 24 % 256
    ∷ a.ttl / 2 ^ 16 % 256
    ∷ a.ttl / 2 ^ 8 % 256
    ∷ a.ttl % 256
    ∷ 0
    ∷ 4
    ∷ a.addr.a
    ∷ a.addr.b
    ∷ a.addr.c
    ∷ a.addr.d
    ∷ rest

abbrev pub encode_answers : List Answer → List ℕ
encode_answers [] = []
encode_answers (a ∷ answers) = encode_answer a (encode_answers answers)

abbrev pub least_ttl : ℕ → List Answer → ℕ
least_ttl t [] = t
least_ttl t (a ∷ answers) = least_ttl (min t a.ttl) answers

read_answers-encode_answers :
    (answers : List Answer) (ips : List Ipv4Addr) (t : ℕ)
    → All (λ a. a.ttl < 2 ^ 32) answers
    → read_answers (length answers) (encode_answers answers) ips t
      ≡ ok (ips ++ map (λ a. a.addr) answers, least_ttl t answers)
unfolding read_answers skip_dns_name skip_labels from_be from_be_acc
read_answers-encode_answers [] ips t h = rw (append-nil ips) refl
read_answers-encode_answers (a ∷ answers) ips t h =
    let L = length (encode_answers answers) in
    let whole : (((0 + a.ttl / 2 ^ 24 % 256) * 256 + a.ttl / 2 ^ 16 % 256) * 256
              + a.ttl / 2 ^ 8 % 256)
            * 256
          + a.ttl % 256
        ≡ a.ttl =
      omega (arith, h.0) in
    let enough : ltb
          (suc (suc (suc (suc (suc (suc (suc (suc (suc (suc (suc (suc (suc (suc L)))))))))))))) 10
        ≡ false =
      ground arith in
    let four : leb 4 (suc (suc (suc (suc L)))) ≡ true = ground arith in
    rw (enough, four, whole)
      (read_answers-encode_answers answers (ips ++ (a.addr ∷ [])) (min t a.ttl) h.1
        ∙ ap (λ xs. ok (xs, least_ttl (min t a.ttl) answers))
            (append_assoc ips (a.addr ∷ []) (map (λ x. x.addr) answers)))

-- The answer of a server to the question for a name: no error, one question, and the records.
abbrev pub response : ℕ → List Text → List Answer → List ℕ
response txid labels answers =
    txid / 256 % 256
    ∷ txid % 256
    ∷ 129
    ∷ 128
    ∷ 0
    ∷ 1
    ∷ length answers / 256 % 256
    ∷ length answers % 256
    ∷ 0
    ∷ 0
    ∷ 0
    ∷ 0
    ∷ (encode_labels labels ++ (0 ∷ 0 ∷ 1 ∷ 0 ∷ 1 ∷ encode_answers answers))

-- A response with the number that was asked with, for labels of 1 to 63 bytes, with at least one and
-- fewer than 2 ^ 16 records of type A, is parsed to the addresses in their order and to the least of
-- their times to live, at most four hours.
pub parse_dns_a_response-response :
    (txid : ℕ) (labels : List Text) (a : Answer) (answers : List Answer)
    → txid < 2 ^ 16
    → All IsLabel labels
    → length (a ∷ answers) < 2 ^ 16
    → All (λ x. x.ttl < 2 ^ 32) (a ∷ answers)
    → parse_dns_a_response (response txid labels (a ∷ answers)) txid
      ≡ ok (map (λ x. x.addr) (a ∷ answers), min (least_ttl u32_max (a ∷ answers)) max_ttl)
unfolding parse_dns_a_response skip_questions from_be from_be_acc
parse_dns_a_response-response txid labels a answers ht hl hn h =
    let n = suc (length answers) in
    let id : ((0 + txid / 256 % 256) * 256 + txid % 256 == txid) ≡ true = ground arith in
    let count : (0 + n / 256 % 256) * 256 + n % 256 ≡ n = omega arith in
    let skipped =
      skip_dns_name-encode_labels labels (0 ∷ 1 ∷ 0 ∷ 1 ∷ encode_answers (a ∷ answers)) hl in
    let tail =
      length (encode_labels labels ++ (0 ∷ 0 ∷ 1 ∷ 0 ∷ 1 ∷ encode_answers (a ∷ answers))) in
    let long : leb 12 (suc (suc (suc (suc (suc (suc (suc (suc (suc (suc (suc (suc tail))))))))))))
        ≡ true =
      ground arith in
    rw (id, skipped, count, read_answers-encode_answers (a ∷ answers) [] u32_max h, long) refl

-- The name in a query, when the labels of the domain are of 1 to 63 bytes, is read to its end: what
-- is left are the type A and the class IN.
pub skip_dns_name-build_dns_query_packet :
    (domain : Text) (txid : ℕ)
    → All IsLabel (split_dots domain)
    → skip_dns_name (drop 12 (build_dns_query_packet domain txid)) ≡ ok (0 ∷ 1 ∷ 0 ∷ 1 ∷ [])
unfolding build_dns_query_packet to_be
skip_dns_name-build_dns_query_packet domain txid h =
    skip_dns_name-encode_labels (split_dots domain) (0 ∷ 1 ∷ 0 ∷ 1 ∷ []) h
