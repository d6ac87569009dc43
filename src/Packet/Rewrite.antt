-- ===== src/Packet/Rewrite.antt =====
-- Rewriting an address of an IPv4 packet, rvpn/crates/rvpn-mobile/src/nat_rewrite.rs. A function that
-- changes the packet in place gives what it returns and the packet.
use r_vpn_core.Common.{
  ℕ, suc, ◌+◌, ◌-◌, ◌*◌, ◌/◌, ◌%◌, Bool, true, false, not, ◌&&◌, ◌||◌, List, [], ◌∷◌, ltb, ◌==◌,
  if◌then◌else◌, length, set,
}
use r_vpn_core.Common.Bytes.{to_be, from_be}
use r_vpn_core.Packet.Ip.{Ipv4Addr, octets, byte, word, fold_carry, fold_fuel}

pub data AddrSlot : Type 0 where
  source destination : AddrSlot

-- `AddrSlot::offset`
abbrev pub offset : AddrSlot → ℕ
offset source = 12
offset destination = 16

-- `packet[start..start + n].copy_from_slice(bytes)` of `n` bytes.
abbrev pub copy_from_slice : ℕ → List ℕ → List ℕ → List ℕ
copy_from_slice start [] packet = packet
copy_from_slice start (b ∷ bs) packet = copy_from_slice (suc start) bs (set packet start b)

-- Of a word of 16 bits.
abbrev pub complement : ℕ → ℕ
complement w = 65535 - w

unfoldable pub rfc1624_update : (old_csum old_word new_word : ℕ) → ℕ
rfc1624_update old_csum old_word new_word =
    let sum =
      complement old_csum
      + complement (old_word / 65536)
      + complement (old_word % 65536)
      + new_word / 65536
      + new_word % 65536 in
    complement (fold_carry fold_fuel sum)

abbrev pub addr_at : List ℕ → ℕ → ℕ
addr_at packet off =
    from_be
      (byte packet off ∷ byte packet (off + 1) ∷ byte packet (off + 2) ∷ byte packet (off + 3) ∷ [])

-- The new address and the header's checksum.
unfoldable pub rewrite_header : List ℕ → (off old new : ℕ) → List ℕ
rewrite_header packet off old new =
    let written = copy_from_slice off (to_be 4 new) packet in
    copy_from_slice 10 (to_be 2 (rfc1624_update (word written 10) old new)) written

-- The checksum of TCP (protocol 6) or UDP (17) at `csum_off`.
unfoldable pub rewrite_transport_at : List ℕ → (proto csum_off old new : ℕ) → List ℕ
rewrite_transport_at packet proto csum_off old new =
    let t_csum = word packet csum_off in
    let updated = rfc1624_update t_csum old new in
    let sent = if proto == 17 && updated == 0 then 65535 else updated in
    if ltb (length packet) (csum_off + 2)
    then packet
    else if proto == 17 && t_csum == 0
    then packet
    else copy_from_slice csum_off (to_be 2 sent) packet

-- Nothing is done for a later fragment or another protocol.
unfoldable pub rewrite_transport : List ℕ → (ihl old new : ℕ) → List ℕ
rewrite_transport packet ihl old new =
    let proto = byte packet 9 in
    if not (word packet 6 % 8192 == 0)
    then packet
    else if proto == 6
    then rewrite_transport_at packet 6 (ihl + 16) old new
    else if proto == 17
    then rewrite_transport_at packet 17 (ihl + 6) old new
    else packet

-- The tests before anything is written.
unfoldable pub is_usable : List ℕ → Bool
is_usable packet =
    let ihl = byte packet 0 % 16 * 4 in
    not (ltb (length packet) 20 || not (byte packet 0 / 16 == 4))
    && not (ltb ihl 20 || ltb (length packet) ihl)

unfoldable pub rewrite_addr : List ℕ → Ipv4Addr → AddrSlot → Bool × List ℕ
rewrite_addr packet new_addr slot =
    let ihl = byte packet 0 % 16 * 4 in
    let off = offset slot in
    let old = addr_at packet off in
    let new = from_be (octets new_addr) in
    if not (is_usable packet)
    then (false, packet)
    else if old == new
    then (true, packet)
    else (true, rewrite_transport (rewrite_header packet off old new) ihl old new)

unfoldable pub rewrite_src_ip : List ℕ → Ipv4Addr → Bool × List ℕ
rewrite_src_ip packet new_src = rewrite_addr packet new_src source

unfoldable pub rewrite_dst_ip : List ℕ → Ipv4Addr → Bool × List ℕ
rewrite_dst_ip packet new_dst = rewrite_addr packet new_dst destination
