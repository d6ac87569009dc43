-- ===== src/Packet/Ip.antt =====
-- Parsing and creating IP packets, rvpn/crates/rvpn-core/src/protocol/packet.rs. Bytes are numbers
-- below 256. An index that a test of the length has put in range is read with `byte`.
use r_vpn_core.Common.{
  ℕ, zero, suc, ◌+◌, ◌-◌, ◌*◌, ◌/◌, ◌%◌, ◌^◌, List, [], ◌∷◌, ◌++◌, Option, none, some, ltb, ◌==◌,
  if◌then◌else◌, length, take, drop, get_or,
}
use r_vpn_core.Common.Bytes.{to_be, from_be}

pub data Protocol : Type 0 where
  icmp tcp udp icmpv6 other : Protocol

-- `Protocol::from`
abbrev pub protocol_from : ℕ → Protocol
protocol_from p =
    if p == 1
    then icmp
    else if p == 6
    then tcp
    else if p == 17
    then udp
    else if p == 58
    then icmpv6
    else other

-- The number that `create_ipv4_packet` writes.
abbrev pub protocol_number : Protocol → ℕ
protocol_number icmp = 1
protocol_number tcp = 6
protocol_number udp = 17
protocol_number icmpv6 = 58
protocol_number other = 0

pub record Ipv4Addr : Type 0 where
  pub a : ℕ
  pub b : ℕ
  pub c : ℕ
  pub d : ℕ

abbrev pub octets : Ipv4Addr → List ℕ
octets ip = ip.a ∷ ip.b ∷ ip.c ∷ ip.d ∷ []

-- An IPv6 address is its eight segments.
pub data IpAddr : Type 0 where
  v4 : Ipv4Addr → IpAddr
  v6 : List ℕ → IpAddr

pub record PacketInfo : Type 0 where
  pub src_ip : IpAddr
  pub dst_ip : IpAddr
  pub src_port : Option ℕ
  pub dst_port : Option ℕ
  pub protocol : Protocol
  pub total_len : ℕ

abbrev pub byte : List ℕ → ℕ → ℕ
byte packet i = get_or packet i 0

-- `u16::from_be_bytes([packet[i], packet[i + 1]])`
abbrev pub word : List ℕ → ℕ → ℕ
word packet i = from_be (byte packet i ∷ byte packet (i + 1) ∷ [])

-- The ports, which stand at the index `start`, of a packet with at least `start + 4` bytes.
unfoldable pub ports : Protocol → List ℕ → ℕ → Option ℕ × Option ℕ
ports protocol packet start =
    let read =
      if ltb (length packet) (start + 4)
      then (none, none)
      else (some (word packet start), some (word packet (start + 2))) in
    elim protocol [
      | tcp ↦ read
      | udp ↦ read
      | icmp ↦ (none, none)
      | icmpv6 ↦ (none, none)
      | other ↦ (none, none)
    ]

unfoldable pub parse_ipv4 : List ℕ → Option PacketInfo
parse_ipv4 packet =
    if ltb (length packet) 20
    then none
    else let header_len = (byte packet 0 % 16) * 4 in
      let protocol = protocol_from (byte packet 9) in
      let (src_port, dst_port) = ports protocol packet header_len in
      some (record {
        src_ip = v4 (record {
          a = byte packet 12;
          b = byte packet 13;
          c = byte packet 14;
          d = byte packet 15;
        });
        dst_ip = v4 (record {
          a = byte packet 16;
          b = byte packet 17;
          c = byte packet 18;
          d = byte packet 19;
        });
        src_port = src_port;
        dst_port = dst_port;
        protocol = protocol;
        total_len = word packet 2;
      })

-- The loop over the segments, with the number of rounds that are left and the index.
unfoldable pub segments_from : ℕ → ℕ → List ℕ → List ℕ
segments_from zero i bytes = []
segments_from (suc n) i bytes = word bytes (i * 2) ∷ segments_from n (i + 1) bytes

unfoldable pub parse_ipv6_addr : List ℕ → List ℕ
parse_ipv6_addr bytes = segments_from 8 0 bytes

unfoldable pub parse_ipv6 : List ℕ → Option PacketInfo
parse_ipv6 packet =
    if ltb (length packet) 40
    then none
    else let protocol = protocol_from (byte packet 6) in
      let (src_port, dst_port) = ports protocol packet 40 in
      some (record {
        src_ip = v6 (parse_ipv6_addr (take 16 (drop 8 packet)));
        dst_ip = v6 (parse_ipv6_addr (take 16 (drop 24 packet)));
        src_port = src_port;
        dst_port = dst_port;
        protocol = protocol;
        total_len = 40 + word packet 4;
      })

unfoldable pub parse_packet : List ℕ → Option PacketInfo
parse_packet [] = none
parse_packet (first ∷ rest) =
    let version = (first / 16) % 16 in
    if version == 4
    then parse_ipv4 (first ∷ rest)
    else if version == 6
    then parse_ipv6 (first ∷ rest)
    else none

-- The sum of the 16-bit words, onto what has been summed; a last single byte does not count.
unfoldable pub sum_words : ℕ → List ℕ → ℕ
sum_words sum [] = sum
sum_words sum (x ∷ []) = sum
sum_words sum (x ∷ y ∷ rest) = sum_words ((sum + from_be (x ∷ y ∷ [])) % 2 ^ 32) rest

-- The folding loop, on fuel.
unfoldable pub fold_carry : ℕ → ℕ → ℕ
fold_carry zero sum = sum
fold_carry (suc fuel) sum =
    let rest = fold_carry fuel (sum % 65536 + sum / 65536) in if sum / 65536 == 0 then sum else rest

-- `sum` has 32 bits, so that two rounds are enough.
abbrev pub fold_fuel : ℕ
fold_fuel = 2

unfoldable pub calculate_ip_checksum : List ℕ → ℕ
calculate_ip_checksum header = (2 ^ 32 - 1 - fold_carry fold_fuel (sum_words 0 header)) % 2 ^ 16

-- The header while its checksum is zero.
unfoldable pub blank_header : Ipv4Addr → Ipv4Addr → Protocol → ℕ → List ℕ
blank_header src dst protocol total_len =
    0x45 ∷ 0 ∷ to_be 2 (total_len % 2 ^ 16)
    ++ (0 ∷ 0 ∷ 0 ∷ 0 ∷ 64 ∷ protocol_number protocol ∷ 0 ∷ 0 ∷ octets src ++ octets dst)

unfoldable pub create_ipv4_packet : Ipv4Addr → Ipv4Addr → Protocol → List ℕ → List ℕ
create_ipv4_packet src dst protocol payload =
    let header = blank_header src dst protocol (20 + length payload) in
    take 10 header ++ (to_be 2 (calculate_ip_checksum header) ++ (drop 12 header ++ payload))
