-- ===== src/Packet/Laws/Transport.antt =====
-- The checksum of TCP or UDP when an address is rewritten
-- (rvpn/crates/rvpn-mobile/src/nat_rewrite.rs): sums over the segment.
use r_vpn_core.Common.{
  ℕ, zero, suc, ◌+◌, ◌*◌, ◌/◌, ◌%◌, ◌<◌, ◌≤◌, ◌≡◌, refl, ap, ◌∙◌, List, [], ◌∷◌, arith, length,
  drop, set, length-set, All,
}
use r_vpn_core.Common.Bytes.{to_be, from_be, from_be_acc, IsByte}
use r_vpn_core.Packet.Ip.{word, byte}
use r_vpn_core.Packet.Rewrite.{copy_from_slice}

-- The sum of the words of a segment, the last one of which may be padded with a zero (RFC 793, 768).
abbrev pub total_padded : List ℕ → ℕ
total_padded [] = 0
total_padded (x ∷ []) = x * 256
total_padded (x ∷ y ∷ rest) = x * 256 + y + total_padded rest

pub total_padded-le : (xs : List ℕ) → All IsByte xs → 2 * total_padded xs ≤ 65535 * (length xs + 1)
total_padded-le [] h = omega arith
total_padded-le (x ∷ []) h = omega (arith, h.0)
total_padded-le (x ∷ y ∷ rest) h = omega (arith, h.0, h.1.0, total_padded-le rest h.1.1)

-- Writing a word at an even index.
pub total_padded-copy_from_slice :
    (i v : ℕ) (xs : List ℕ)
    → i + i + 2 ≤ length xs
    → v < 65536
    → total_padded (copy_from_slice (i + i) (to_be 2 v) xs) + word xs (i + i) ≡ total_padded xs + v
unfolding to_be from_be from_be_acc
total_padded-copy_from_slice i v [] h small = absurd (omega arith)
total_padded-copy_from_slice i v (x ∷ []) h small = absurd (omega arith)
total_padded-copy_from_slice zero v (x ∷ y ∷ rest) h small = omega arith
total_padded-copy_from_slice (suc i) v (x ∷ y ∷ rest) h small =
    let e : suc i + suc i ≡ suc (suc (i + i)) = omega arith in
    let f : suc (suc (i + i)) + 1 ≡ suc (suc (i + i + 1)) = omega arith in
    let rest' = total_padded-copy_from_slice i v rest (omega arith) small in
    rw (e, f) (omega (arith, rest'))

drop-set : (n k v : ℕ) (xs : List ℕ) → drop n (set xs (n + k) v) ≡ set (drop n xs) k v
drop-set zero k v xs = let e : zero + k ≡ k = omega arith in rw e refl
drop-set (suc n) k v [] = refl
drop-set (suc n) k v (x ∷ xs) =
    let e : suc n + k ≡ suc (n + k) = omega arith in rw e (drop-set n k v xs)

pub drop-copy_from_slice :
    (n k : ℕ) (bs xs : List ℕ)
    → drop n (copy_from_slice (n + k) bs xs) ≡ copy_from_slice k bs (drop n xs)
drop-copy_from_slice n k [] xs = refl
drop-copy_from_slice n k (b ∷ bs) xs =
    let e : suc (n + k) ≡ n + suc k = omega arith in
    rw e (
      drop-copy_from_slice n (suc k) bs (set xs (n + k) b)
      ∙ ap (copy_from_slice (suc k) bs) (drop-set n k b xs))

byte-drop : (n k : ℕ) (xs : List ℕ) → byte (drop n xs) k ≡ byte xs (n + k)
byte-drop zero k xs = let e : zero + k ≡ k = omega arith in rw e refl
byte-drop (suc n) k [] = refl
byte-drop (suc n) k (x ∷ xs) =
    let e : suc n + k ≡ suc (n + k) = omega arith in rw e (byte-drop n k xs)

pub word-drop : (n k : ℕ) (xs : List ℕ) → word (drop n xs) k ≡ word xs (n + k)
word-drop n k xs =
    let e : n + (k + 1) ≡ n + k + 1 = omega arith in
    rw (byte-drop n k xs, byte-drop n (k + 1) xs, e) refl

pub length-copy_from_slice : (i : ℕ) (bs xs : List ℕ) → length (copy_from_slice i bs xs) ≡ length xs
length-copy_from_slice i [] xs = refl
length-copy_from_slice i (b ∷ bs) xs =
    length-copy_from_slice (suc i) bs (set xs i b) ∙ length-set xs i b

byte-set_same : (xs : List ℕ) (i v : ℕ) → i < length xs → byte (set xs i v) i ≡ v
byte-set_same [] i v h = absurd (omega arith)
byte-set_same (x ∷ xs) zero v h = refl
byte-set_same (x ∷ xs) (suc i) v h = byte-set_same xs i v (omega arith)

byte-set_other : (xs : List ℕ) (i j v : ℕ) → i < j → byte (set xs j v) i ≡ byte xs i
byte-set_other [] i j v h = refl
byte-set_other (x ∷ xs) i zero v h = absurd (omega arith)
byte-set_other (x ∷ xs) zero (suc j) v h = refl
byte-set_other (x ∷ xs) (suc i) (suc j) v h = byte-set_other xs i j v (omega arith)

-- A word that was written is read back.
pub word-copy_from_slice :
    (xs : List ℕ) (i v : ℕ)
    → i + 2 ≤ length xs
    → v < 65536
    → word (copy_from_slice i (to_be 2 v) xs) i ≡ v
unfolding to_be from_be from_be_acc
word-copy_from_slice xs i v h small =
    let ys = set xs i (v / 256 % 256) in
    let e : suc i ≡ i + 1 = omega arith in
    let low = byte-set_same ys (i + 1) (v % 256) (omega (arith, length-set xs i (v / 256 % 256))) in
    let high = byte-set_other ys i (i + 1) (v % 256) (omega arith) in
    let high' = byte-set_same xs i (v / 256 % 256) (omega arith) in
    rw (e, low, high, high') (omega arith)
