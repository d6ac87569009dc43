-- ===== src/Framing/Laws/Counter.antt =====
-- The nonce is a big-endian counter
-- (rvpn/crates/rvpn-core/src/protocol/length_framing.rs).
use r_vpn_core.Common.{
  ℕ, zero, suc, ◌+◌, ◌*◌, ◌%◌, ◌/◌, ◌^◌, ◌<◌, ◌≡◌, ◌≢◌, refl, ap, Bool, true, false, List, [], ◌∷◌,
  arith, bit, ◌==◌, length, All, Bool-cases, inl, inr, ◌&&◌,
}
use r_vpn_core.Common.Bytes.{IsByte, from_be, from_be_acc, from_be-lt, from_be-cons}
use r_vpn_core.Framing.Nonce.{
  increment_from, increment_nonce, modify_last, derive_client_nonce, derive_server_nonce,
}
use native.Mathlib.Nat.{pow-suc}
use Prim.Native.Nat.{bit_and, bit_or}

-- Two functions that agree on every number below a bound.
module _ (f g : ℕ → ℕ) where
  agree_below : ℕ → Bool
  agree_below zero = true
  agree_below (suc n) = (f n == g n) && agree_below n

  agree_below→eq : (n : ℕ) → agree_below n ≡ true → (i : ℕ) → i < n → f i ≡ g i
  unfolding agree_below
  agree_below→eq zero e i h = absurd (omega arith)
  agree_below→eq (suc n) e i h = ground (arith, agree_below→eq n (ground arith) i)

length-increment_from : (bs : List ℕ) → length (increment_from bs).0 ≡ length bs
unfolding increment_from
length-increment_from [] = refl
length-increment_from (b ∷ bs) = ground (arith, length-increment_from bs)

increment_from-IsByte : (bs : List ℕ) → All IsByte bs → All IsByte (increment_from bs).0
unfolding increment_from
increment_from-IsByte [] h = tt
increment_from-IsByte (b ∷ bs) h = ground (arith, increment_from-IsByte bs h.1)

-- What the loop leaves is the value plus one, the carry out counted.
increment_from_value :
    (bs : List ℕ)
    → All IsByte bs
    → from_be (increment_from bs).0 + bit (increment_from bs).1 * 256 ^ length bs ≡ from_be bs + 1
unfolding increment_from
increment_from_value [] h = unfold from_be from_be_acc in refl
increment_from_value (b ∷ bs) h =
    let (after, carry) = increment_from bs in
    ground (
      arith,
      increment_from_value bs h.1,
      length-increment_from bs,
      pow-suc 256 (length bs),
      from_be-cons b bs,
      from_be-cons 0 after,
      from_be-cons b after,
      from_be-cons (b + 1) after,
    )

-- Incrementing a nonce of twelve bytes adds one to its big-endian value modulo 2 ^ 96.
pub increment_nonce_lem :
    (nonce : List ℕ)
    → length nonce ≡ 12
    → All IsByte nonce
    → from_be (increment_nonce nonce) ≡ (from_be nonce + 1) % 2 ^ 96
unfolding increment_nonce
increment_nonce_lem nonce l h =
    let after = (increment_from nonce).0 in
    let same : length after ≡ 12 = omega (arith, length-increment_from nonce) in
    let width : 256 ^ length nonce ≡ 2 ^ 96 = rw l refl in
    let below = from_be-lt 12 after same (increment_from-IsByte nonce h) in
    let value = increment_from_value nonce h in
    elim (Bool-cases (increment_from nonce).1) [
      | inl c ↦ omega (arith, rw (c, l) at value, from_be-lt 12 nonce l h)
      | inr c ↦ omega (arith, rw (c, l) at value)
    ]

unfoldable pub increments : ℕ → List ℕ → List ℕ
increments zero nonce = nonce
increments (suc k) nonce = increment_nonce (increments k nonce)

length-increment_nonce : (nonce : List ℕ) → length (increment_nonce nonce) ≡ length nonce
unfolding increment_nonce
length-increment_nonce = length-increment_from

increment_nonce-IsByte : (nonce : List ℕ) → All IsByte nonce → All IsByte (increment_nonce nonce)
unfolding increment_nonce
increment_nonce-IsByte = increment_from-IsByte

increments_lem :
    (k : ℕ) (nonce : List ℕ)
    → length nonce ≡ 12
    → All IsByte nonce
    → (length (increments k nonce) ≡ 12)
      × All IsByte (increments k nonce)
      × (from_be (increments k nonce) ≡ (from_be nonce + k) % 2 ^ 96)
unfolding increments
increments_lem zero nonce l h = (l, h, omega (arith, from_be-lt 12 nonce l h))
increments_lem (suc k) nonce l h =
    let (l', h', e) = increments_lem k nonce l h in
    (
      omega (arith, length-increment_nonce (increments k nonce)),
      increment_nonce-IsByte (increments k nonce) h',
      omega (arith, increment_nonce_lem (increments k nonce) l' h'),
    )

-- Two different numbers of increments, less than 2 ^ 96 apart, of a nonce of twelve bytes give
-- different nonces.
pub increments_distinct :
    (i j : ℕ) (nonce : List ℕ)
    → length nonce ≡ 12
    → All IsByte nonce
    → i < j
    → j < i + 2 ^ 96
    → increments i nonce ≢ increments j nonce
increments_distinct i j nonce l h lt near e =
    let (_, _, a) = increments_lem i nonce l h in
    let (_, _, b) = increments_lem j nonce l h in omega (arith, ap from_be e)

-- The client's and the server's first nonces differ in the last bit.
set_low : (b : ℕ) → b < 256 → bit_or b 1 ≡ b / 2 * 2 + 1
unfolding agree_below
set_low = agree_below→eq _ _ 256 refl

clear_low : (b : ℕ) → b < 256 → bit_and b 0xfe ≡ b / 2 * 2
unfolding agree_below
clear_low = agree_below→eq _ _ 256 refl

increment_from-server :
    (b : ℕ) (bs : List ℕ)
    → All IsByte (b ∷ bs)
    → increment_from (derive_server_nonce (b ∷ bs)) ≡ (derive_client_nonce (b ∷ bs), false)
unfolding increment_from derive_server_nonce derive_client_nonce modify_last
increment_from-server b [] h = ground (arith, set_low b h.0, clear_low b h.0)
increment_from-server b (c ∷ bs) h = rw (increment_from-server c bs h.1, increment_from)

-- For every base nonce that is not empty, the server's nonce after one increment is the client's
-- first nonce.
pub increment_nonce-derive_server_nonce :
    (b : ℕ) (bs : List ℕ)
    → All IsByte (b ∷ bs)
    → increment_nonce (derive_server_nonce (b ∷ bs)) ≡ derive_client_nonce (b ∷ bs)
unfolding increment_nonce
increment_nonce-derive_server_nonce b bs h = ap (λ p. p.0) (increment_from-server b bs h)
