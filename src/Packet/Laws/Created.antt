-- ===== src/Packet/Laws/Created.antt =====
-- Parsing a created packet (rvpn/crates/rvpn-core/src/protocol/packet.rs).
use r_vpn_core.Common.{
  ℕ, ◌+◌, ◌*◌, ◌%◌, ◌^◌, ◌≡◌, refl, ◌∙◌, false, Option, none, some, List, [], ◌∷◌, arith, ltb,
  le→ltb, if◌then◌else◌, length,
}
use r_vpn_core.Common.Bytes.{to_be, from_be, from_be_acc, from_be-to_be}
use r_vpn_core.Packet.Ip.{
  Protocol, icmp, tcp, udp, icmpv6, other, protocol_from, protocol_number, Ipv4Addr, v4, word,
  ports, parse_ipv4, parse_packet, blank_header, create_ipv4_packet,
}

protocol_from-protocol_number : (p : Protocol) → protocol_from (protocol_number p) ≡ p
protocol_from-protocol_number icmp = refl
protocol_from-protocol_number tcp = refl
protocol_from-protocol_number udp = refl
protocol_from-protocol_number icmpv6 = refl
protocol_from-protocol_number other = refl

same_test : (n m : ℕ) → n ≡ 20 + m → ltb n (20 + 4) ≡ ltb m (0 + 4)
same_test n m e = ground arith

-- The ports of a created packet are those of the payload.
ports-create_ipv4_packet :
    (src dst : Ipv4Addr) (p : Protocol) (payload : List ℕ)
    → ports p (create_ipv4_packet src dst p payload) 20 ≡ ports p payload 0
unfolding ports create_ipv4_packet blank_header to_be
ports-create_ipv4_packet src dst tcp payload =
    rw (same_test (length (create_ipv4_packet src dst tcp payload)) (length payload) (omega arith))
      refl
ports-create_ipv4_packet src dst udp payload =
    rw (same_test (length (create_ipv4_packet src dst udp payload)) (length payload) (omega arith))
      refl
ports-create_ipv4_packet src dst icmp payload = refl
ports-create_ipv4_packet src dst icmpv6 payload = refl
ports-create_ipv4_packet src dst other payload = refl

-- The first two words of a segment of TCP or UDP: the source and the destination port.
abbrev pub first_words : List ℕ → Option ℕ × Option ℕ
first_words (a ∷ b ∷ c ∷ d ∷ rest) = (some (a * 256 + b), some (c * 256 + d))
first_words _ = (none, none)

abbrev pub ports_of : Protocol → List ℕ → Option ℕ × Option ℕ
ports_of tcp payload = first_words payload
ports_of udp payload = first_words payload
ports_of _ payload = (none, none)

read_words :
    (payload : List ℕ)
    → (if ltb (length payload) (0 + 4)
        then (none, none)
        else (some (word payload 0), some (word payload (0 + 2))))
      ≡ first_words payload
unfolding from_be from_be_acc
read_words [] = refl
read_words (a ∷ []) = refl
read_words (a ∷ b ∷ []) = refl
read_words (a ∷ b ∷ c ∷ []) = refl
read_words (a ∷ b ∷ c ∷ d ∷ rest) =
    let long : ltb (length (a ∷ b ∷ c ∷ d ∷ rest)) (0 + 4) ≡ false = ground arith in
    let first : (0 + a) * 256 + b ≡ a * 256 + b = omega arith in
    let second : (0 + c) * 256 + d ≡ c * 256 + d = omega arith in rw (long, first, second) refl

ports-first_words : (p : Protocol) (payload : List ℕ) → ports p payload 0 ≡ ports_of p payload
unfolding ports
ports-first_words tcp payload = read_words payload
ports-first_words udp payload = read_words payload
ports-first_words icmp payload = refl
ports-first_words icmpv6 payload = refl
ports-first_words other payload = refl

-- Parsing a created packet gives the addresses and the protocol that it was made with, the payload's
-- first word as the source port and its second one as the destination port if it is a TCP or UDP
-- packet with four bytes of payload or more, no ports otherwise, and the length of header and payload
-- in 16 bits.
pub parse_packet-create_ipv4_packet :
    (src dst : Ipv4Addr) (p : Protocol) (payload : List ℕ)
    → parse_packet (create_ipv4_packet src dst p payload)
      ≡ some (record {
        src_ip = v4 src;
        dst_ip = v4 dst;
        src_port = (ports_of p payload).0;
        dst_port = (ports_of p payload).1;
        protocol = p;
        total_len = (20 + length payload) % 2 ^ 16;
      })
unfolding parse_packet parse_ipv4 create_ipv4_packet blank_header to_be
parse_packet-create_ipv4_packet src dst p payload =
    let n = length (create_ipv4_packet src dst p payload) in
    let size : n ≡ 20 + length payload = omega arith in
    let long = le→ltb n 20 (omega arith) in
    let total = from_be-to_be 2 ((20 + length payload) % 2 ^ 16) (omega arith) in
    let read = ports-create_ipv4_packet src dst p payload ∙ ports-first_words p payload in
    rw (long, protocol_from-protocol_number p, read, total) refl
