-- ===== src/Packet/Laws/Updated.antt =====
-- The incremental update of a checksum (rvpn/crates/rvpn-mobile/src/nat_rewrite.rs).
use r_vpn_core.Common.{
  ℕ, ◌+◌, ◌-◌, ◌*◌, ◌/◌, ◌%◌, ◌^◌, ◌<◌, ◌≤◌, ◌≡◌, refl, List, [], ◌∷◌, arith, length, All,
}
use r_vpn_core.Common.Bytes.{IsByte}
use r_vpn_core.Packet.Ip.{fold_carry}
use r_vpn_core.Packet.Rewrite.{rfc1624_update, complement}
use r_vpn_core.Packet.Laws.Checksum.{Folded, fold_carry-Folded, total}

pub total-lt : (xs : List ℕ) → All IsByte xs → total xs ≤ 65536 * length xs
total-lt [] h = omega arith
total-lt (x ∷ []) h = omega arith
total-lt (x ∷ y ∷ rest) h = omega (arith, total-lt rest h.1.1, h.0, h.1.0)

-- The arithmetic of the update, from what the three sums fold to.
update_lem :
    (t c c' old new f g u : ℕ)
    → c < 65536
    → old < 2 ^ 32
    → 0 < t
    → Folded
        (complement c
          + complement (old / 65536)
          + complement (old % 65536)
          + new / 65536
          + new % 65536)
        f
    → c' ≡ 65535 - f
    → Folded (t + c + old / 65536 + old % 65536) g
    → Folded (t + c' + new / 65536 + new % 65536) u
    → u ≡ g
update_lem t c c' old new f g u hc ho ht ff ec gg uu = omega (
  arith,
  ec,
  ff.small,
  ff.same,
  gg.small,
  gg.same,
  gg.positive (omega arith),
  uu.small,
  uu.same,
  uu.positive (omega arith),
)

-- A sum with its checksum and an address folds to the same after the update of both.
pub fold_carry-rfc1624_update :
    (t c old new : ℕ)
    → 0 < t
    → t < 2 ^ 31 + 2 ^ 24
    → c < 65536
    → old < 2 ^ 32
    → new < 2 ^ 32
    → fold_carry 2 (t + rfc1624_update c old new + new / 65536 + new % 65536)
      ≡ fold_carry 2 (t + c + old / 65536 + old % 65536)
unfolding rfc1624_update
fold_carry-rfc1624_update t c old new pos ht hc ho hn =
    let s =
      complement c
      + complement (old / 65536)
      + complement (old % 65536)
      + new / 65536
      + new % 65536 in
    let f = fold_carry-Folded s (omega arith) in
    let g = fold_carry-Folded (t + c + old / 65536 + old % 65536) (omega arith) in
    let u =
      fold_carry-Folded (t + (65535 - fold_carry 2 s) + new / 65536 + new % 65536)
        (omega (arith, f.small)) in
    update_lem t c (65535 - fold_carry 2 s) old new (fold_carry 2 s) _ _ hc ho pos f refl g u

-- A zero may be sent as 65535, the other zero.
pub fold_carry-ones :
    (t : ℕ) → 0 < t → t < 2 ^ 31 + 2 ^ 25 → fold_carry 2 (t + 65535) ≡ fold_carry 2 t
fold_carry-ones t pos h =
    let f = fold_carry-Folded t (omega arith) in
    let g = fold_carry-Folded (t + 65535) (omega arith) in
    omega (arith, f.same, f.small, f.positive pos, g.same, g.small, g.positive (omega arith))

-- rfc1624_update gives a word of 16 bits.
pub rfc1624_update-lt : (c old new : ℕ) → rfc1624_update c old new < 65536
unfolding rfc1624_update
rfc1624_update-lt c old new = omega arith
