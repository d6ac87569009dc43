-- ===== src/Packet/Laws/Segments.antt =====
-- The checksum of TCP or UDP when an address is rewritten
-- (rvpn/crates/rvpn-mobile/src/nat_rewrite.rs): the whole sum that it covers.
use r_vpn_core.Common.{
  ℕ, ◌+◌, ◌*◌, ◌/◌, ◌%◌, ◌^◌, ◌<◌, ◌≤◌, ◌≡◌, ◌≢◌, ◌⊎◌, refl, ap, sym, ◌∙◌, inl, inr, true, false,
  List, arith, ◌==◌, ltb, ◌&&◌, Bool-cases, if◌then◌else◌, length, length-drop, drop, All, All-drop,
}
use r_vpn_core.Common.Bytes.{to_be, from_be, IsByte}
use r_vpn_core.Packet.Ip.{Ipv4Addr, octets, word, byte, fold_carry}
use r_vpn_core.Packet.Rewrite.{
  AddrSlot, source, destination, offset, addr_at, copy_from_slice, rfc1624_update, rewrite_header,
  rewrite_transport_at, rewrite_transport, is_usable, rewrite_addr,
}
use r_vpn_core.Packet.Laws.Checksum.{IsAddr}
use r_vpn_core.Packet.Laws.Updated.{fold_carry-rfc1624_update, fold_carry-ones, rfc1624_update-lt}
use r_vpn_core.Packet.Laws.Rewritten.{usable-HeaderSum, other_slot}
use r_vpn_core.Packet.Laws.Adjusted.{
  word-lt, addr_at-lt, addr_at-take, byte-take, take-rewrite_transport, offset-le, usable_facts,
  from_be-octets-lt,
}
use r_vpn_core.Packet.Laws.Transport.{
  total_padded, total_padded-le, total_padded-copy_from_slice, drop-copy_from_slice, word-drop,
  length-copy_from_slice, word-copy_from_slice,
}

-- The sum that the checksum of TCP and UDP covers, itself among it: the words of both addresses, the
-- protocol, the length of the segment, and the segment.
abbrev pub transport_sum : ℕ → List ℕ → ℕ
transport_sum ihl packet =
    addr_at packet 12 / 65536
    + addr_at packet 12 % 65536
    + (addr_at packet 16 / 65536 + addr_at packet 16 % 65536)
    + byte packet 9
    + length (drop ihl packet)
    + total_padded (drop ihl packet)

-- The checksum's index in the segment, halved: of TCP, or of UDP when it is in use.
abbrev pub HasChecksum : List ℕ → (ihl half : ℕ) → Type 0
HasChecksum packet ihl half =
    ((byte packet 9 ≡ 6) × (half ≡ 8))
    ⊎ ((byte packet 9 ≡ 17) × (half ≡ 3) × (word packet (ihl + (half + half)) ≢ 0))

-- What is written for the updated checksum.
abbrev sent_of : ℕ → ℕ → ℕ
sent_of proto updated = if proto == 17 && updated == 0 then 65535 else updated

sent_cases :
    (proto u : ℕ)
    → u < 65536
    → ((sent_of proto u ≡ u) ⊎ ((u ≡ 0) × (sent_of proto u ≡ 65535)))
      × (sent_of proto u < 65536)
      × ((proto ≡ 17) → sent_of proto u ≢ 0)
sent_cases proto u h = elim (Bool-cases (proto == 17 && u == 0)) [
  | inl e ↦ rw e (inr (ground (arith, e), refl), omega arith, λ p z. omega arith)
  | inr e ↦ rw e (inl refl, h, λ p z. ground (arith, e, p, z))
]

-- With `rest` for what neither changes: the whole sum folds to what it folded to.
sums_lem :
    (rest c old new proto : ℕ)
    → 0 < rest
    → rest < 2 ^ 31 + 2 ^ 24
    → c < 65536
    → old < 2 ^ 32
    → new < 2 ^ 32
    → fold_carry 2 (rest + sent_of proto (rfc1624_update c old new) + new / 65536 + new % 65536)
      ≡ fold_carry 2 (rest + c + old / 65536 + old % 65536)
sums_lem rest c old new proto pos hr hc ho hn =
    let u = rfc1624_update c old new in
    let same = fold_carry-rfc1624_update rest c old new pos hr hc ho hn in
    elim ((sent_cases proto u (rfc1624_update-lt c old new)).0) [
      | inl e ↦ rw e same
      | inr z ↦
          let t = rest + new / 65536 + new % 65536 in
          let a : rest + u + new / 65536 + new % 65536 ≡ t = omega (arith, z.0) in
          let b : rest + 65535 + new / 65536 + new % 65536 ≡ t + 65535 = omega arith in
          let ones = fold_carry-ones t (omega arith) (omega arith) in
          rw (z.1, b) (ones ∙ (sym (ap (fold_carry 2) a) ∙ same))
    ]

-- The sum of a packet with one address and the checksum taken out.
sum_parts :
    (slot : AddrSlot) (packet : List ℕ) (ihl rest c : ℕ)
    → rest + c ≡ total_padded (drop ihl packet)
    → let old = addr_at packet (offset slot) in
      let other = addr_at packet (offset (other_slot slot)) in
      transport_sum ihl packet
      ≡ (other / 65536 + other % 65536 + byte packet 9 + length (drop ihl packet) + rest)
        + c
        + old / 65536
        + old % 65536
sum_parts source packet ihl rest c e = omega (arith, e)
sum_parts destination packet ihl rest c e = omega (arith, e)

rewrite_transport_lem :
    (packet : List ℕ) (ihl half old new : ℕ)
    → word packet 6 % 8192 ≡ 0
    → HasChecksum packet ihl half
    → ihl + (half + half) + 2 ≤ length packet
    → let k = ihl + (half + half) in
      rewrite_transport packet ihl old new
      ≡ copy_from_slice k
          (to_be 2 (sent_of (byte packet 9) (rfc1624_update (word packet k) old new)))
          packet
unfolding rewrite_transport rewrite_transport_at
rewrite_transport_lem packet ihl half old new first (inl h) long =
    let a : (word packet 6 % 8192 == 0) ≡ true = ground (arith, first) in
    let b : ltb (length packet) (ihl + 16 + 2) ≡ false = ground (arith, h.1, long) in
    let i : ihl + (half + half) ≡ ihl + 16 = omega (arith, h.1) in rw (a, h.0, b, i) refl
rewrite_transport_lem packet ihl half old new first (inr h) long =
    let a : (word packet 6 % 8192 == 0) ≡ true = ground (arith, first) in
    let b : ltb (length packet) (ihl + 6 + 2) ≡ false = ground (arith, h.1, long) in
    let i : ihl + (half + half) ≡ ihl + 6 = omega (arith, h.1) in
    let on : (word packet (ihl + 6) == 0) ≡ false = ground (arith, rw i at h.2) in
    rw (a, h.0, b, i, on) refl

length-rewrite_header :
    (packet : List ℕ) (off old new : ℕ) → length (rewrite_header packet off old new) ≡ length packet
unfolding rewrite_header
length-rewrite_header packet off old new =
    length-copy_from_slice 10
      (to_be 2 (rfc1624_update (word (copy_from_slice off (to_be 4 new) packet) 10) old new))
      (copy_from_slice off (to_be 4 new) packet)
    ∙ length-copy_from_slice off (to_be 4 new) packet

-- A sum whose parts are known.
sum_known :
    (slot : AddrSlot) (packet : List ℕ) (ihl rest c old other proto len : ℕ)
    → rest + c ≡ total_padded (drop ihl packet)
    → addr_at packet (offset slot) ≡ old
    → addr_at packet (offset (other_slot slot)) ≡ other
    → byte packet 9 ≡ proto
    → length (drop ihl packet) ≡ len
    → transport_sum ihl packet
      ≡ (other / 65536 + other % 65536 + proto + len + rest) + c + old / 65536 + old % 65536
sum_known slot packet ihl rest c old other proto len e a b p l =
    sum_parts slot packet ihl rest c e ∙ (rw (a, b, p, l) refl)

-- The packet after its header is rewritten, which has the new address, and the old segment.
segments_lem :
    (packet q : List ℕ) (slot : AddrSlot) (ihl half new : ℕ)
    → All IsByte packet
    → 20 ≤ ihl
    → ihl ≤ 60
    → length packet < 2 ^ 16
    → ihl + (half + half) + 2 ≤ length packet
    → new < 2 ^ 32
    → word packet 6 % 8192 ≡ 0
    → HasChecksum packet ihl half
    → length q ≡ length packet
    → drop ihl q ≡ drop ihl packet
    → byte q 9 ≡ byte packet 9
    → word q 6 ≡ word packet 6
    → addr_at q (offset slot) ≡ new
    → addr_at q (offset (other_slot slot)) ≡ addr_at packet (offset (other_slot slot))
    → let r = rewrite_transport q ihl (addr_at packet (offset slot)) new in
      (fold_carry 2 (transport_sum ihl r) ≡ fold_carry 2 (transport_sum ihl packet))
      × ((byte packet 9 ≡ 6) ⊎ (word r (ihl + (half + half)) ≢ 0))
segments_lem packet q slot ihl half new hb h20 h60 fits long hn first has lenq seg prot frag
      slot_new other =
    let kk = half + half in
    let sg = drop ihl packet in
    let old = addr_at packet (offset slot) in
    let c = word packet (ihl + kk) in
    let cq : word q (ihl + kk) ≡ c =
      sym (word-drop ihl kk q) ∙ (ap (λ x. word x kk) seg ∙ word-drop ihl kk packet) in
    let has' : HasChecksum q ihl half = elim has [
      | inl h ↦ inl (prot ∙ h.0, h.1)
      | inr h ↦ inr (prot ∙ h.0, h.1, λ z. h.2 (sym cq ∙ z))
    ] in
    let r = rewrite_transport q ihl old new in
    let sent = sent_of (byte packet 9) (rfc1624_update c old new) in
    let written : r ≡ copy_from_slice (ihl + kk) (to_be 2 sent) q =
      rw (prot, cq) at
        (rewrite_transport_lem q ihl half old new (rw frag first) has' (omega (arith, lenq))) in
    let tail : drop ihl r ≡ copy_from_slice kk (to_be 2 sent) sg =
      ap (drop ihl) written
      ∙ (drop-copy_from_slice ihl kk (to_be 2 sent) q
          ∙ ap (copy_from_slice kk (to_be 2 sent)) seg) in
    let len = length-drop ihl packet in
    let (which, small, nonzero) =
      sent_cases (byte packet 9) (rfc1624_update c old new) (rfc1624_update-lt c old new) in
    let csg : word sg kk ≡ c = word-drop ihl kk packet in
    let rest = total_padded (copy_from_slice kk (to_be 2 0) sg) in
    let taken = total_padded-copy_from_slice half 0 sg (omega (arith, len)) (omega arith) in
    let put = total_padded-copy_from_slice half sent sg (omega (arith, len)) small in
    let t_before : rest + c ≡ total_padded sg = omega (arith, taken, csg) in
    let t_after : rest + sent ≡ total_padded (drop ihl r) =
      omega (arith, ap total_padded tail, taken, put) in
    let kept = take-rewrite_transport q ihl old new in
    let in_slot = offset-le slot in
    let in_other = offset-le (other_slot slot) in
    let slot_r = addr_at-take ihl r q (offset slot) (omega arith) kept ∙ slot_new in
    let other_r = addr_at-take ihl r q (offset (other_slot slot)) (omega arith) kept ∙ other in
    let prot_r : byte r 9 ≡ byte packet 9 =
      sym (byte-take ihl r 9 (omega arith))
      ∙ (ap (λ x. byte x 9) kept ∙ (byte-take ihl q 9 (omega arith) ∙ prot)) in
    let len_r = ap length tail ∙ length-copy_from_slice kk (to_be 2 sent) sg in
    let oth = addr_at packet (offset (other_slot slot)) in
    let before =
      sum_known slot packet ihl rest c old oth (byte packet 9) (length sg) t_before refl refl refl
        refl in
    let after =
      sum_known slot r ihl rest sent new oth (byte packet 9) (length sg) t_after slot_r other_r
        prot_r len_r in
    let proto : (0 < byte packet 9) × (byte packet 9 < 256) = elim has [
      | inl h ↦ omega (arith, h.0)
      | inr h ↦ omega (arith, h.0)
    ] in
    let bound = total_padded-le sg (All-drop IsByte ihl packet hb) in
    let oth_lt = addr_at-lt packet (offset (other_slot slot)) hb in
    let folded =
      sums_lem (oth / 65536 + oth % 65536 + byte packet 9 + length sg + rest) c old new
        (byte packet 9) (omega (arith, proto)) (omega (arith, proto, bound, oth_lt, len, t_before))
        (word-lt packet (ihl + kk) hb) (addr_at-lt packet (offset slot) hb) hn in
    let read : word r (ihl + kk) ≡ sent =
      ap (λ x. word x (ihl + kk)) written
      ∙ word-copy_from_slice q (ihl + kk) sent (omega (arith, lenq)) small in
    (
      ap (fold_carry 2) after ∙ (folded ∙ sym (ap (fold_carry 2) before)),
      elim has [ inl h ↦ inl h.0 | inr h ↦ inr (λ z. nonzero h.0 (sym read ∙ z)) ],
    )

-- For a usable packet of bytes, of fewer than 2 ^ 16 of them, that is no later fragment and holds the
-- checksum of TCP, or one of UDP that is in use: after an address is rewritten to an address of bytes,
-- the sum that the checksum covers, with it, folds to what it folded to, so that a segment that
-- verified does so again; and the checksum of UDP does not become zero.
pub fold_carry-rewrite_addr :
    (packet : List ℕ) (new_addr : Ipv4Addr) (slot : AddrSlot) (half : ℕ)
    → All IsByte packet
    → IsAddr new_addr
    → is_usable packet ≡ true
    → length packet < 2 ^ 16
    → word packet 6 % 8192 ≡ 0
    → let ihl = byte packet 0 % 16 * 4 in
      HasChecksum packet ihl half
      → ihl + (half + half) + 2 ≤ length packet
      → let rewritten = (rewrite_addr packet new_addr slot).1 in
        (fold_carry 2 (transport_sum ihl rewritten) ≡ fold_carry 2 (transport_sum ihl packet))
        × ((byte packet 9 ≡ 6) ⊎ (word rewritten (ihl + (half + half)) ≢ 0))
unfolding rewrite_addr
fold_carry-rewrite_addr packet new_addr slot half hb ha usable fits first has long =
    let ihl = byte packet 0 % 16 * 4 in
    let (h20, hl, version) = usable_facts packet usable in
    let old = addr_at packet (offset slot) in
    let new = from_be (octets new_addr) in
    let small = from_be-octets-lt new_addr ha in
    rw usable (elim (Bool-cases (old == new)) [
      | inl e ↦ rw e (refl, elim has [ inl h ↦ inl h.0 | inr h ↦ inr h.2 ])
      | inr e ↦
          let q = rewrite_header packet (offset slot) old new in
          let s = usable-HeaderSum packet slot ihl new h20 hl small hb in
          rw e (
            segments_lem packet q slot ihl half new hb h20 (omega arith) fits long small first has
              (length-rewrite_header packet (offset slot) old new) s.segment s.protocol s.fragment
              s.written s.other)
    ])
