-- ===== src/Packet/Laws/Adjusted.antt =====
-- A packet whose address is rewritten (rvpn/crates/rvpn-mobile/src/nat_rewrite.rs): its header.
use r_vpn_core.Common.{
  ℕ, zero, suc, ◌+◌, ◌*◌, ◌%◌, ◌^◌, ◌<◌, ◌≤◌, ◌≡◌, refl, sym, ap, ◌∙◌, inl, inr, List, [], ◌∷◌,
  arith, ◌==◌, ◌&&◌, true, Bool-cases, if◌then◌else◌, length, take, set, All, All-take, length-take,
}
use r_vpn_core.Common.Bytes.{to_be, from_be, from_be_acc, IsByte}
use r_vpn_core.Packet.Ip.{Ipv4Addr, octets, word, byte, calculate_ip_checksum}
use r_vpn_core.Packet.Rewrite.{
  rfc1624_update, AddrSlot, source, destination, offset, addr_at, rewrite_header, copy_from_slice,
  rewrite_transport_at, rewrite_transport, is_usable, rewrite_addr,
}
use r_vpn_core.Packet.Laws.Checksum.{calculate_ip_checksum-total, IsAddr}
use r_vpn_core.Packet.Laws.Updated.{fold_carry-rfc1624_update, total-lt, rfc1624_update-lt}
use r_vpn_core.Packet.Laws.Rewritten.{usable-HeaderSum}

take-set : (n : ℕ) (xs : List ℕ) (i v : ℕ) → n ≤ i → take n (set xs i v) ≡ take n xs
take-set zero xs i v h = refl
take-set (suc n) [] i v h = refl
take-set (suc n) (x ∷ xs) zero v h = absurd (omega arith)
take-set (suc n) (x ∷ xs) (suc i) v h = ap (◌∷◌ x) (take-set n xs i v (omega arith))

take-copy_from_slice :
    (n i : ℕ) (bs packet : List ℕ) → n ≤ i → take n (copy_from_slice i bs packet) ≡ take n packet
take-copy_from_slice n i [] packet h = refl
take-copy_from_slice n i (b ∷ bs) packet h =
    take-copy_from_slice n (suc i) bs (set packet i b) (omega arith) ∙ take-set n packet i b h

take-rewrite_transport_at :
    (packet : List ℕ) (proto csum_off old new n : ℕ)
    → n ≤ csum_off
    → take n (rewrite_transport_at packet proto csum_off old new) ≡ take n packet
unfolding rewrite_transport_at
take-rewrite_transport_at packet proto csum_off old new n h =
    let t_csum = word packet csum_off in
    let updated = rfc1624_update t_csum old new in
    let sent = if proto == 17 && updated == 0 then 65535 else updated in
    ground (arith, take-copy_from_slice n csum_off (to_be 2 sent) packet h)

pub take-rewrite_transport :
    (packet : List ℕ) (ihl old new : ℕ)
    → take ihl (rewrite_transport packet ihl old new) ≡ take ihl packet
unfolding rewrite_transport
take-rewrite_transport packet ihl old new = ground (
  arith,
  take-rewrite_transport_at packet 6 (ihl + 16) old new ihl (omega arith),
  take-rewrite_transport_at packet 17 (ihl + 6) old new ihl (omega arith),
)

pub byte-take : (n : ℕ) (xs : List ℕ) (i : ℕ) → i < n → byte (take n xs) i ≡ byte xs i
byte-take zero xs i h = absurd (omega arith)
byte-take (suc n) [] i h = refl
byte-take (suc n) (x ∷ xs) zero h = refl
byte-take (suc n) (x ∷ xs) (suc i) h = byte-take n xs i (omega arith)

pub addr_at-take :
    (n : ℕ) (xs ys : List ℕ) (off : ℕ)
    → off + 4 ≤ n
    → take n xs ≡ take n ys
    → addr_at xs off ≡ addr_at ys off
addr_at-take n xs ys off h e =
    let f : (i : ℕ) → i < n → byte xs i ≡ byte ys i =
      λ i l. sym (byte-take n xs i l) ∙ (ap (λ zs. byte zs i) e ∙ byte-take n ys i l) in
    let a = f off (omega arith) in
    let b = f (off + 1) (omega arith) in
    let c = f (off + 2) (omega arith) in let d = f (off + 3) (omega arith) in rw (a, b, c, d) refl

byte-IsByte : (xs : List ℕ) (i : ℕ) → All IsByte xs → IsByte (byte xs i)
byte-IsByte [] i h = omega arith
byte-IsByte (x ∷ xs) zero h = h.0
byte-IsByte (x ∷ xs) (suc i) h = byte-IsByte xs i h.1

pub word-lt : (xs : List ℕ) (i : ℕ) → All IsByte xs → word xs i < 65536
unfolding from_be from_be_acc
word-lt xs i h = omega (arith, byte-IsByte xs i h, byte-IsByte xs (i + 1) h)

pub addr_at-lt : (xs : List ℕ) (off : ℕ) → All IsByte xs → addr_at xs off < 2 ^ 32
unfolding from_be from_be_acc
addr_at-lt xs off h = omega (
  arith,
  byte-IsByte xs off h,
  byte-IsByte xs (off + 1) h,
  byte-IsByte xs (off + 2) h,
  byte-IsByte xs (off + 3) h,
)

calculate_ip_checksum-rewrite_header :
    (packet : List ℕ) (slot : AddrSlot) (ihl new : ℕ)
    → 20 ≤ ihl
    → ihl ≤ 60
    → ihl ≤ length packet
    → new < 2 ^ 32
    → All IsByte packet
    → 64 ≤ byte packet 0
    → let off = offset slot in
      calculate_ip_checksum (take ihl (rewrite_header packet off (addr_at packet off) new))
      ≡ calculate_ip_checksum (take ihl packet)
calculate_ip_checksum-rewrite_header packet slot ihl new h20 h60 hl hn hb version =
    let s = usable-HeaderSum packet slot ihl new h20 hl hn hb in
    let t = total-lt (take ihl packet) (All-take IsByte ihl packet hb) in
    let old = addr_at packet (offset slot) in
    let c = word packet 10 in
    let hc = word-lt packet 10 hb in
    let ho = addr_at-lt packet (offset slot) hb in
    let left_lt : s.left < 2 ^ 31 = omega (arith, s.before, t, length-take ihl packet) in
    let same =
      fold_carry-rfc1624_update s.left c old new (omega (arith, s.first)) (omega (arith, left_lt))
        hc ho hn in
    let before =
      calculate_ip_checksum-total (take ihl packet) (omega (arith, t, length-take ihl packet)) in
    let after =
      calculate_ip_checksum-total (take ihl (rewrite_header packet (offset slot) old new))
        (omega (arith, s.after, rfc1624_update-lt c old new)) in
    rw (before, after, s.before, s.after, same) refl

pub offset-le : (slot : AddrSlot) → offset slot ≤ 16
offset-le source = omega arith
offset-le destination = omega arith

pub usable_facts :
    (packet : List ℕ)
    → is_usable packet ≡ true
    → let ihl = byte packet 0 % 16 * 4 in (20 ≤ ihl) × (ihl ≤ length packet) × (64 ≤ byte packet 0)
unfolding is_usable
usable_facts packet h = (ground arith, ground arith, ground arith)

pub from_be-octets-lt : (ip : Ipv4Addr) → IsAddr ip → from_be (octets ip) < 2 ^ 32
unfolding from_be from_be_acc
from_be-octets-lt ip h = let (a, b, c, d) = h in omega arith

-- Rewriting an address of a usable packet of bytes to an address of bytes succeeds, leaves the new
-- address in the slot, and leaves what the checksum over the header comes to as it was, so that a
-- header that verified does so again.
pub calculate_ip_checksum-rewrite_addr :
    (packet : List ℕ) (new_addr : Ipv4Addr) (slot : AddrSlot)
    → All IsByte packet
    → IsAddr new_addr
    → is_usable packet ≡ true
    → let ihl = byte packet 0 % 16 * 4 in
      let (done, rewritten) = rewrite_addr packet new_addr slot in
      (done ≡ true)
      × (addr_at rewritten (offset slot) ≡ from_be (octets new_addr))
      × (calculate_ip_checksum (take ihl rewritten) ≡ calculate_ip_checksum (take ihl packet))
unfolding rewrite_addr
calculate_ip_checksum-rewrite_addr packet new_addr slot hb ha usable =
    let ihl = byte packet 0 % 16 * 4 in
    let (h20, hl, version) = usable_facts packet usable in
    let old = addr_at packet (offset slot) in
    let new = from_be (octets new_addr) in
    let fits = from_be-octets-lt new_addr ha in
    rw usable (elim (Bool-cases (old == new)) [
      | inl e ↦ rw e (refl, ground arith, refl)
      | inr e ↦
          let header = rewrite_header packet (offset slot) old new in
          let kept = take-rewrite_transport header ihl old new in
          let again =
            calculate_ip_checksum-rewrite_header packet slot ihl new h20 (omega arith) hl fits hb
              version in
          let s = usable-HeaderSum packet slot ihl new h20 hl fits hb in
          let inside : offset slot + 4 ≤ ihl = omega (arith, offset-le slot) in
          rw e
            (refl, addr_at-take ihl _ header (offset slot) inside kept ∙ s.written, rw kept again)
    ])
