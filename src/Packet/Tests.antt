-- ===== src/Packet/Tests.antt =====
-- IP packets on concrete input (rvpn/crates/rvpn-core/src/protocol/packet.rs).
use r_vpn_core.Common.{ℕ, ◌+◌, ◌%◌, ◌^◌, ◌≡◌, refl, List, [], ◌∷◌, none, some, arith, length, take}
use r_vpn_core.Common.Bytes.{from_be, from_be_acc}
use r_vpn_core.Packet.Ip.{
  tcp, Ipv4Addr, v4, ports, parse_packet, calculate_ip_checksum, sum_words, fold_carry,
  create_ipv4_packet,
}
use r_vpn_core.Packet.Laws.Checksum.{calculate_ip_checksum-create_ipv4_packet}
use r_vpn_core.Packet.Laws.Created.{ports_of, parse_packet-create_ipv4_packet}

abbrev here : Ipv4Addr
here = record { a = 10; b = 0; c = 0; d = 2 }

abbrev there : Ipv4Addr
there = record { a = 93; b = 184; c = 216; d = 34 }

-- From port 1025 to port 443.
abbrev segment : List ℕ
segment = 4 ∷ 1 ∷ 1 ∷ 187 ∷ 0 ∷ []

parse_packet-create_ipv4_packet_example :
    parse_packet (create_ipv4_packet here there tcp segment)
    ≡ some (record {
      src_ip = v4 here;
      dst_ip = v4 there;
      src_port = (ports_of tcp segment).0;
      dst_port = (ports_of tcp segment).1;
      protocol = tcp;
      total_len = (20 + length segment) % 2 ^ 16;
    })
parse_packet-create_ipv4_packet_example = parse_packet-create_ipv4_packet here there tcp segment

ports-segment : ports tcp segment 0 ≡ (some 1025, some 443)
unfolding ports from_be from_be_acc
ports-segment = refl

calculate_ip_checksum-create_ipv4_packet_example :
    calculate_ip_checksum (take 20 (create_ipv4_packet here there tcp segment)) ≡ 0
calculate_ip_checksum-create_ipv4_packet_example =
    calculate_ip_checksum-create_ipv4_packet here there tcp segment
      (omega arith, omega arith, omega arith, omega arith)
      (omega arith, omega arith, omega arith, omega arith)

-- A header that is known, 4500 0073 0000 4000 4011 0000 c0a8 0001 c0a8 00c7: its checksum is b861.
known_checksum :
    calculate_ip_checksum (
      0x45 ∷ 0 ∷ 0 ∷ 0x73 ∷ 0 ∷ 0 ∷ 0x40 ∷ 0 ∷ 0x40 ∷ 0x11 ∷ 0 ∷ 0 ∷ 0xc0 ∷ 0xa8 ∷ 0 ∷ 1 ∷ 0xc0
      ∷ 0xa8 ∷ 0 ∷ 0xc7 ∷ [])
    ≡ 0xb861
unfolding calculate_ip_checksum fold_carry sum_words from_be from_be_acc
known_checksum = refl

unknown_version : parse_packet (0x55 ∷ []) ≡ none
unfolding parse_packet
unknown_version = refl
