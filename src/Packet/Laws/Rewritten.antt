-- ===== src/Packet/Laws/Rewritten.antt =====
-- Rewriting an address keeps the header's checksum right
-- (rvpn/crates/rvpn-mobile/src/nat_rewrite.rs).
use r_vpn_core.Common.{
  ℕ, suc, ◌+◌, ◌-◌, ◌*◌, ◌/◌, ◌%◌, ◌^◌, ◌<◌, ◌≤◌, ◌≡◌, refl, List, [], ◌∷◌, arith, length, take,
  drop, All, All-drop,
}
use r_vpn_core.Common.Bytes.{to_be, from_be, from_be_acc, IsByte}
use r_vpn_core.Packet.Ip.{word, byte}
use r_vpn_core.Packet.Rewrite.{
  rfc1624_update, AddrSlot, source, destination, offset, addr_at, rewrite_header,
}
use r_vpn_core.Packet.Laws.Checksum.{total}
use r_vpn_core.Packet.Laws.Updated.{rfc1624_update-lt}

abbrev pub other_slot : AddrSlot → AddrSlot
other_slot source = destination
other_slot destination = source

-- A header's sum is its checksum, an address, and a rest that a rewrite leaves.
pub record HeaderSum (packet : List ℕ) (slot : AddrSlot) (n new : ℕ) : Type 0 where
  pub left : ℕ
  pub first : byte packet 0 ≤ left
  pub before :
      let old = addr_at packet (offset slot) in
      total (take n packet) ≡ left + word packet 10 + old / 65536 + old % 65536
  pub after :
      let old = addr_at packet (offset slot) in
      total (take n (rewrite_header packet (offset slot) old new))
      ≡ left + rfc1624_update (word packet 10) old new + new / 65536 + new % 65536
  pub written :
      addr_at (rewrite_header packet (offset slot) (addr_at packet (offset slot)) new) (offset slot)
      ≡ new
  pub other :
      let off = offset (other_slot slot) in
      addr_at (rewrite_header packet (offset slot) (addr_at packet (offset slot)) new) off
      ≡ addr_at packet off
  pub protocol :
      byte (rewrite_header packet (offset slot) (addr_at packet (offset slot)) new) 9
      ≡ byte packet 9
  pub fragment :
      word (rewrite_header packet (offset slot) (addr_at packet (offset slot)) new) 6
      ≡ word packet 6
  pub segment :
      drop n (rewrite_header packet (offset slot) (addr_at packet (offset slot)) new)
      ≡ drop n packet

-- A number of 32 bits as two words, from its bytes and to its bytes.
from_bytes_lem :
    (a b c d : ℕ)
    → IsByte a
    → IsByte b
    → IsByte c
    → IsByte d
    → let v = (((0 + a) * 256 + b) * 256 + c) * 256 + d in
      (v / 65536 ≡ a * 256 + b) × (v % 65536 ≡ c * 256 + d)
from_bytes_lem a b c d ha hb hc hd = (omega arith, omega arith)

to_bytes_lem :
    (v : ℕ)
    → v < 2 ^ 32
    → (v / 256 / 256 / 256 % 256 * 256 + v / 256 / 256 % 256 ≡ v / 65536)
      × (v / 256 % 256 * 256 + v % 256 ≡ v % 65536)
to_bytes_lem v h = (omega arith, omega arith)

word_bytes_lem : (v : ℕ) → v < 65536 → v / 256 % 256 * 256 + v % 256 ≡ v
word_bytes_lem v h = omega arith

explicit-HeaderSum :
    (b0 b1 b2 b3 b4 b5 b6 b7 b8 b9 b10 b11 b12 b13 b14 b15 b16 b17 b18 b19 : ℕ) (rest : List ℕ)
    (slot : AddrSlot) (m new : ℕ)
    → All IsByte (
        b0 ∷ b1 ∷ b2 ∷ b3 ∷ b4 ∷ b5 ∷ b6 ∷ b7 ∷ b8 ∷ b9 ∷ b10 ∷ b11 ∷ b12 ∷ b13 ∷ b14 ∷ b15 ∷ b16
        ∷ b17 ∷ b18 ∷ b19 ∷ rest)
    → new < 2 ^ 32
    → HeaderSum
        (b0 ∷ b1 ∷ b2 ∷ b3 ∷ b4 ∷ b5 ∷ b6 ∷ b7 ∷ b8 ∷ b9 ∷ b10 ∷ b11 ∷ b12 ∷ b13 ∷ b14 ∷ b15 ∷ b16
          ∷ b17 ∷ b18 ∷ b19 ∷ rest)
        slot
        (suc (
          suc (
            suc (
              suc (
                suc (
                  suc (
                    suc (
                      suc (
                        suc (
                          suc
                            (suc (suc (suc (suc (suc (suc (suc (suc (suc (suc m))))))))))))))))))))
        new
unfolding rewrite_header from_be from_be_acc to_be
explicit-HeaderSum b0 b1 b2 b3 b4 b5 b6 b7 b8 b9 b10 b11 b12 b13 b14 b15 b16 b17 b18 b19 rest source
      m new h hn =
    let k =
      All-drop IsByte 12
        (b0 ∷ b1 ∷ b2 ∷ b3 ∷ b4 ∷ b5 ∷ b6 ∷ b7 ∷ b8 ∷ b9 ∷ b10 ∷ b11 ∷ b12 ∷ b13 ∷ b14 ∷ b15 ∷ b16
          ∷ b17 ∷ b18 ∷ b19 ∷ rest)
        h in
    let old = from_bytes_lem b12 b13 b14 b15 k.0 k.1.0 k.1.1.0 k.1.1.1.0 in
    record {
      left =
          (b0 * 256 + b1)
          + (b2 * 256 + b3)
          + (b4 * 256 + b5)
          + (b6 * 256 + b7)
          + (b8 * 256 + b9)
          + (b16 * 256 + b17)
          + (b18 * 256 + b19)
          + total (take m rest);
      first = omega arith;
      before = omega (arith, old);
      after = omega (
        arith,
        old,
        to_bytes_lem new hn,
        word_bytes_lem _ (
            rfc1624_update-lt ((0 + b10) * 256 + b11)
              ((((0 + b12) * 256 + b13) * 256 + b14) * 256 + b15) new),
      );
      written = omega arith;
      other = refl;
      protocol = refl;
      fragment = refl;
      segment = refl;
    }
explicit-HeaderSum b0 b1 b2 b3 b4 b5 b6 b7 b8 b9 b10 b11 b12 b13 b14 b15 b16 b17 b18 b19 rest
      destination m new h hn =
    let k =
      All-drop IsByte 16
        (b0 ∷ b1 ∷ b2 ∷ b3 ∷ b4 ∷ b5 ∷ b6 ∷ b7 ∷ b8 ∷ b9 ∷ b10 ∷ b11 ∷ b12 ∷ b13 ∷ b14 ∷ b15 ∷ b16
          ∷ b17 ∷ b18 ∷ b19 ∷ rest)
        h in
    let old = from_bytes_lem b16 b17 b18 b19 k.0 k.1.0 k.1.1.0 k.1.1.1.0 in
    record {
      left =
          (b0 * 256 + b1)
          + (b2 * 256 + b3)
          + (b4 * 256 + b5)
          + (b6 * 256 + b7)
          + (b8 * 256 + b9)
          + (b12 * 256 + b13)
          + (b14 * 256 + b15)
          + total (take m rest);
      first = omega arith;
      before = omega (arith, old);
      after = omega (
        arith,
        old,
        to_bytes_lem new hn,
        word_bytes_lem _ (
            rfc1624_update-lt ((0 + b10) * 256 + b11)
              ((((0 + b16) * 256 + b17) * 256 + b18) * 256 + b19) new),
      );
      written = omega arith;
      other = refl;
      protocol = refl;
      fragment = refl;
      segment = refl;
    }

-- A list of at least four elements is looked at four at a time.
four_first :
    (P : List ℕ → Type 0) (xs : List ℕ)
    → 4 ≤ length xs
    → ((a b c d : ℕ) (rest : List ℕ) → length xs ≡ 4 + length rest → P (a ∷ b ∷ c ∷ d ∷ rest))
    → P xs
four_first P [] h f = absurd (omega arith)
four_first P (a ∷ []) h f = absurd (omega arith)
four_first P (a ∷ b ∷ []) h f = absurd (omega arith)
four_first P (a ∷ b ∷ c ∷ []) h f = absurd (omega arith)
four_first P (a ∷ b ∷ c ∷ d ∷ rest) h f = f a b c d rest (omega arith)

pub usable-HeaderSum :
    (packet : List ℕ) (slot : AddrSlot) (n new : ℕ)
    → 20 ≤ n
    → n ≤ length packet
    → new < 2 ^ 32
    → All IsByte packet
    → HeaderSum packet slot n new
usable-HeaderSum packet slot n new hn hl hv =
    let e : n
        ≡ suc (
            suc (
              suc (
                suc (
                  suc (
                    suc (
                      suc (
                        suc (
                          suc (
                            suc (
                              suc (
                                suc (
                                  suc
                                    (suc (suc (suc (suc (suc (suc (suc (n - 20)))))))))))))))))))) =
      omega arith in
    four_first (λ x. All IsByte x → HeaderSum x slot n new) packet (omega arith)
      (λ b0 b1 b2 b3 r1 l1.
        four_first
          (λ x. All IsByte (b0 ∷ b1 ∷ b2 ∷ b3 ∷ x) → HeaderSum (b0 ∷ b1 ∷ b2 ∷ b3 ∷ x) slot n new)
          r1 (omega arith)
          (λ b4 b5 b6 b7 r2 l2.
            four_first
              (λ x.
                All IsByte (b0 ∷ b1 ∷ b2 ∷ b3 ∷ b4 ∷ b5 ∷ b6 ∷ b7 ∷ x)
                → HeaderSum (b0 ∷ b1 ∷ b2 ∷ b3 ∷ b4 ∷ b5 ∷ b6 ∷ b7 ∷ x) slot n new)
              r2 (omega arith)
              (λ b8 b9 b10 b11 r3 l3.
                four_first
                  (λ x.
                    All IsByte (b0 ∷ b1 ∷ b2 ∷ b3 ∷ b4 ∷ b5 ∷ b6 ∷ b7 ∷ b8 ∷ b9 ∷ b10 ∷ b11 ∷ x)
                    → HeaderSum (b0 ∷ b1 ∷ b2 ∷ b3 ∷ b4 ∷ b5 ∷ b6 ∷ b7 ∷ b8 ∷ b9 ∷ b10 ∷ b11 ∷ x)
                        slot n new)
                  r3 (omega arith)
                  (λ b12 b13 b14 b15 r4 l4.
                    four_first
                      (λ x.
                        All IsByte (
                          b0 ∷ b1 ∷ b2 ∷ b3 ∷ b4 ∷ b5 ∷ b6 ∷ b7 ∷ b8 ∷ b9 ∷ b10 ∷ b11 ∷ b12 ∷ b13
                          ∷ b14 ∷ b15 ∷ x)
                        → HeaderSum
                            (b0 ∷ b1 ∷ b2 ∷ b3 ∷ b4 ∷ b5 ∷ b6 ∷ b7 ∷ b8 ∷ b9 ∷ b10 ∷ b11 ∷ b12 ∷ b13
                              ∷ b14 ∷ b15 ∷ x)
                            slot n new)
                      r4 (omega arith)
                      (λ b16 b17 b18 b19 r5 l5. λ h. rw e (
                        explicit-HeaderSum b0 b1 b2 b3 b4 b5 b6 b7 b8 b9 b10 b11 b12 b13 b14 b15 b16
                          b17 b18 b19 r5 slot (n - 20) new h hv))))))
