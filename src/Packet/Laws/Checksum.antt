-- ===== src/Packet/Laws/Checksum.antt =====
-- The checksum of a header (rvpn/crates/rvpn-core/src/protocol/packet.rs) in one's complement
-- arithmetic: modulo 65535, with 65535 for a zero that is not zero.
use r_vpn_core.Common.{
  ℕ, ◌+◌, ◌-◌, ◌*◌, ◌/◌, ◌%◌, ◌^◌, ◌<◌, ◌≡◌, refl, ◌∙◌, inl, inr, List, [], ◌∷◌, ◌++◌, arith, ◌==◌,
  Bool-cases, length, take, drop,
}
use r_vpn_core.Common.Bytes.{to_be, from_be, from_be_acc, IsByte}
use r_vpn_core.Packet.Ip.{
  Protocol, icmp, Ipv4Addr, protocol_number, sum_words, fold_carry, calculate_ip_checksum,
  blank_header, create_ipv4_packet,
}

-- The sum folded: what is left has 16 bits, is the same modulo 65535, and is positive if the sum is.
pub record Folded (sum r : ℕ) : Type 0 where
  pub small : r < 65536
  pub carries : ℕ
  pub same : sum ≡ 65535 * carries + r
  pub positive : 0 < sum → 0 < r

pub fold_carry-Folded : (sum : ℕ) → sum < 2 ^ 32 → Folded sum (fold_carry 2 sum)
unfolding fold_carry
fold_carry-Folded sum fits =
    let once = sum % 65536 + sum / 65536 in
    elim (Bool-cases (sum / 65536 == 0)) [
      | inl e ↦
          rw e (record { small = ground arith; carries = 0; same = omega arith; positive = λ z. z })
      | inr e ↦ elim (Bool-cases (once / 65536 == 0)) [
        | inl f ↦
            rw (e, f)
              (record {
                small = ground arith;
                carries = sum / 65536;
                same = omega arith;
                positive = λ z. omega arith;
              })
        | inr f ↦
            rw (e, f)
              (record {
                small = omega arith;
                carries = sum / 65536 + once / 65536;
                same = omega arith;
                positive = λ z. omega arith;
              })
      ]
    ]

-- A sum with the complement of what it folds to folds to 65535.
fold_carry-complement :
    (sum : ℕ) → sum < 2 ^ 31 → 0 < sum → fold_carry 2 (sum + (65535 - fold_carry 2 sum)) ≡ 65535
fold_carry-complement sum fits positive =
    let f = fold_carry-Folded sum (omega arith) in
    let g = fold_carry-Folded (sum + (65535 - fold_carry 2 sum)) (omega arith) in
    omega (arith, f.small, f.same, g.small, g.same, g.positive (omega arith))

-- The sum of the words with no bound.
abbrev pub total : List ℕ → ℕ
total [] = 0
total (x ∷ []) = 0
total (x ∷ y ∷ rest) = x * 256 + y + total rest

pub sum_words-total :
    (sum : ℕ) (xs : List ℕ) → sum + total xs < 2 ^ 32 → sum_words sum xs ≡ sum + total xs
unfolding sum_words from_be from_be_acc
sum_words-total sum [] fits = omega arith
sum_words-total sum (x ∷ []) fits = omega arith
sum_words-total sum (x ∷ y ∷ rest) fits =
    let same : (sum + ((0 * 256 + x) * 256 + y)) % 2 ^ 32 ≡ sum + (x * 256 + y) = omega arith in
    rw same (omega (arith, sum_words-total (sum + (x * 256 + y)) rest (omega arith)))

pub calculate_ip_checksum-total :
    (xs : List ℕ) → total xs < 2 ^ 32 → calculate_ip_checksum xs ≡ 65535 - fold_carry 2 (total xs)
unfolding calculate_ip_checksum
calculate_ip_checksum-total xs fits =
    let f = fold_carry-Folded (total xs) fits in
    rw (sum_words-total 0 xs (omega arith) ∙ (let e : 0 + total xs ≡ total xs = omega arith in e))
      (omega (arith, f.small))

abbrev pub IsAddr : Ipv4Addr → Type 0
IsAddr ip = IsByte ip.a × IsByte ip.b × IsByte ip.c × IsByte ip.d

protocol_number-IsByte : (p : Protocol) → IsByte (protocol_number p)
protocol_number-IsByte icmp = omega arith
protocol_number-IsByte _ = omega arith

total-blank_header :
    (src dst : Ipv4Addr) (p : Protocol) (n : ℕ)
    → IsAddr src
    → IsAddr dst
    → let sum = total (blank_header src dst p n) in (0 < sum) × (sum < 2 ^ 30)
unfolding blank_header to_be
total-blank_header src dst p n hs hd =
    let (a, b, c, d) = hs in
    let (e, f, g, h) = hd in (omega arith, omega (arith, protocol_number-IsByte p))

total-checksum :
    (src dst : Ipv4Addr) (p : Protocol) (n c : ℕ) (payload : List ℕ)
    → c < 65536
    → let header = blank_header src dst p n in
      total (take 20 (take 10 header ++ (to_be 2 c ++ (drop 12 header ++ payload))))
      ≡ total header + c
unfolding blank_header to_be
total-checksum src dst p n c payload small = omega arith

-- For addresses of bytes: the checksum over the first twenty bytes of a created packet, its own
-- checksum among them, is zero, which is how a receiver verifies it.
pub calculate_ip_checksum-create_ipv4_packet :
    (src dst : Ipv4Addr) (p : Protocol) (payload : List ℕ)
    → IsAddr src
    → IsAddr dst
    → calculate_ip_checksum (take 20 (create_ipv4_packet src dst p payload)) ≡ 0
unfolding create_ipv4_packet
calculate_ip_checksum-create_ipv4_packet src dst p payload hs hd =
    let n = 20 + length payload in
    let header = blank_header src dst p n in
    let (positive, fits) = total-blank_header src dst p n hs hd in
    let written = calculate_ip_checksum-total header (omega arith) in
    let sum = total-checksum src dst p n (calculate_ip_checksum header) payload (omega arith) in
    let again =
      calculate_ip_checksum-total (take 20 (create_ipv4_packet src dst p payload)) (omega arith) in
    let whole = fold_carry-complement (total header) (omega arith) positive in
    again ∙ (rw (sum, written, whole) refl)
