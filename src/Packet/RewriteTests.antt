-- ===== src/Packet/RewriteTests.antt =====
-- Rewriting addresses on a concrete packet (rvpn/crates/rvpn-mobile/src/nat_rewrite.rs).
use r_vpn_core.Common.{ℕ, ◌%◌, ◌≡◌, ◌≢◌, ◌⊎◌, inr, refl, true, List, [], ◌∷◌, arith, take}
use r_vpn_core.Common.Bytes.{from_be, from_be_acc, to_be}
use r_vpn_core.Packet.Ip.{Ipv4Addr, octets, byte, word, fold_carry, calculate_ip_checksum}
use r_vpn_core.Packet.Rewrite.{
  source, addr_at, is_usable, rewrite_addr, rewrite_src_ip, rewrite_header, rewrite_transport,
  rewrite_transport_at, rfc1624_update,
}
use r_vpn_core.Packet.Laws.Adjusted.{calculate_ip_checksum-rewrite_addr}
use r_vpn_core.Packet.Laws.Segments.{transport_sum, fold_carry-rewrite_addr}

-- From 192.168.0.1 to 192.168.0.199, with a UDP header.
abbrev datagram : List ℕ
datagram =
    0x45 ∷ 0 ∷ 0 ∷ 0x73 ∷ 0 ∷ 0 ∷ 0x40 ∷ 0 ∷ 0x40 ∷ 0x11 ∷ 0xb8 ∷ 0x61 ∷ 0xc0 ∷ 0xa8 ∷ 0 ∷ 1 ∷ 0xc0
    ∷ 0xa8 ∷ 0 ∷ 0xc7 ∷ 0 ∷ 53 ∷ 0 ∷ 53 ∷ 0 ∷ 8 ∷ 0x12 ∷ 0x34 ∷ []

abbrev virtual : Ipv4Addr
virtual = record { a = 10; b = 8; c = 0; d = 7 }

datagram_usable : is_usable datagram ≡ true
unfolding is_usable
datagram_usable = refl

calculate_ip_checksum-rewrite_addr_example :
    ((rewrite_addr datagram virtual source).0 ≡ true)
    × (addr_at (rewrite_addr datagram virtual source).1 12 ≡ from_be (octets virtual))
    × (calculate_ip_checksum (take 20 (rewrite_addr datagram virtual source).1)
        ≡ calculate_ip_checksum (take 20 datagram))
calculate_ip_checksum-rewrite_addr_example =
    calculate_ip_checksum-rewrite_addr datagram virtual source (omega arith)
      (omega arith, omega arith, omega arith, omega arith) datagram_usable

datagram_sent : word datagram 26 ≢ 0
unfolding from_be from_be_acc
datagram_sent = omega arith

datagram_first : word datagram 6 % 8192 ≡ 0
unfolding from_be from_be_acc
datagram_first = refl

fold_carry-rewrite_addr_example :
    let rewritten = (rewrite_addr datagram virtual source).1 in
    (fold_carry 2 (transport_sum 20 rewritten) ≡ fold_carry 2 (transport_sum 20 datagram))
    × ((byte datagram 9 ≡ 6) ⊎ (word rewritten 26 ≢ 0))
fold_carry-rewrite_addr_example =
    fold_carry-rewrite_addr datagram virtual source 3 (omega arith)
      (omega arith, omega arith, omega arith, omega arith) datagram_usable (omega arith)
      datagram_first (inr (refl, refl, datagram_sent)) (omega arith)

-- There and back.
datagram_restored :
    (rewrite_src_ip
      (rewrite_src_ip datagram virtual).1
      (record { a = 192; b = 168; c = 0; d = 1 })).1
    ≡ datagram
unfolding rewrite_src_ip rewrite_addr is_usable rewrite_header rewrite_transport
    rewrite_transport_at rfc1624_update fold_carry to_be from_be from_be_acc
datagram_restored = refl
