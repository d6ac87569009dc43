-- ===== src/Ratchet/Laws/Steps.antt =====
-- The cases of the ratchet's steps, and what the steps leave alone
-- (rvpn/crates/rvpn-core/src/crypto/ratchet.rs).
use r_vpn_core.Common.{
  ℕ, ◌+◌, ◌-◌, ◌%◌, ◌^◌, ◌≤◌, ◌≡◌, ◌≢◌, ◌⊎◌, inl, inr, refl, ap, List, [], ◌∷◌, ◌++◌, Option, none,
  some, arith, length, length-append, ltb, ltb→le, ok, err, Option-cases, Bool-cases, Result-cases,
}
use r_vpn_core.Common.Bytes.{to_be, length-to_be}
use r_vpn_core.Codec.Messages.{MessageHeader, RatchetMessage}
use r_vpn_core.Codec.Laws.Wire.{FitsDhPublic}
use r_vpn_core.Ratchet.Primitives.{Primitives, SkippedKey}
use r_vpn_core.Ratchet.State.{
  DoubleRatchet, RatchetError, encrypt, dh_ratchet_step, header_bytes, dh_bytes, max_skip,
  unwrap_or, too_many_skipped, no_receiving_chain,
}
use r_vpn_core.Ratchet.Receive.{
  same_key, skip_loop, skip_message_keys, follow_remote, decrypt_current,
}

length-dh_bytes :
    (dh : Option (List ℕ))
    → FitsDhPublic dh
    → (xs : List ℕ) → length xs ≡ 9
    → (length (dh_bytes dh ++ xs) ≡ 10) ⊎ (length (dh_bytes dh ++ xs) ≡ 42)
unfolding dh_bytes
length-dh_bytes none fits xs l = inl (omega arith)
length-dh_bytes (some dh) fits xs l = inr (omega (arith, length-append dh xs))

length-header_bytes :
    (h : MessageHeader)
    → FitsDhPublic h.dh_public
    → (length (header_bytes h) ≡ 10) ⊎ (length (header_bytes h) ≡ 42)
unfolding header_bytes
length-header_bytes h fits =
    let rest = to_be 4 h.previous_chain_length ++ (h.payload_type ∷ []) in
    let tail : length (to_be 4 h.message_number ++ rest) ≡ 9 = omega (
      arith,
      length-append (to_be 4 h.message_number) rest,
      length-append (to_be 4 h.previous_chain_length) (h.payload_type ∷ []),
      length-to_be 4 h.message_number,
      length-to_be 4 h.previous_chain_length,
    ) in
    length-dh_bytes h.dh_public fits (to_be 4 h.message_number ++ rest) tail

stored-length :
    (remote : Option (List ℕ))
    → FitsDhPublic remote
    → (length (unwrap_or remote []) ≡ 0) ⊎ (length (unwrap_or remote []) ≡ 32)
unfolding unwrap_or
stored-length none fits = inl refl
stored-length (some dh) fits = inr fits

pub lookup≢stored :
    (h : MessageHeader) (remote : Option (List ℕ)) (n k : ℕ)
    → FitsDhPublic h.dh_public
    → FitsDhPublic remote
    → ◌≢◌ {A = SkippedKey} (header_bytes h, n) (unwrap_or remote [], k)
lookup≢stored h remote n k fh fr e =
    let same : length (header_bytes h) ≡ length (unwrap_or remote []) = ap (λ p. length p.0) e in
    omega (arith, same, length-header_bytes h fh, stored-length remote fr)

pub skip_message_keys_cases :
    (P : Primitives) (r : DoubleRatchet P) (until : ℕ)
    → ((ck : List ℕ) × (r.receiving_chain_key ≡ some ck)
        × (until ≤ (r.recv_message_number + max_skip) % 2 ^ 32)
        × (skip_message_keys P r until ≡ ok (skip_loop P (until - r.recv_message_number) r ck)))
      ⊎ ((e : RatchetError) × (skip_message_keys P r until ≡ err e))
unfolding skip_message_keys
skip_message_keys_cases P r until =
    elim (Bool-cases (ltb ((r.recv_message_number + max_skip) % 2 ^ 32) until)) [
      | inl c ↦ inr (too_many_skipped, ground (arith, c))
      | inr c ↦ elim (Option-cases r.receiving_chain_key) [
        | inl k ↦ inr (no_receiving_chain, ground (arith, c, k))
        | inr (ck, k) ↦ inl (ck, k, ltb→le _ _ c, ground (arith, c, k))
      ]
    ]

pub dh_ratchet_step-keeps :
    (P : Primitives) (r after : DoubleRatchet P) (dh new : List ℕ)
    → dh_ratchet_step P r dh new ≡ ok after
    → (after.remote_dh_key ≡ some dh) × (after.skipped_keys ≡ r.skipped_keys)
unfolding dh_ratchet_step
dh_ratchet_step-keeps P r after dh new e = elim (Option-cases r.dh_pair) [
  | inl no_pair ↦ absurd (ground (arith, no_pair, e))
  | inr (pair, some_pair) ↦ ground (arith, some_pair, e)
]

pub follow_remote_cases :
    (P : Primitives) (r after : DoubleRatchet P) (h : MessageHeader) (new : List ℕ)
    → follow_remote P r h new ≡ ok after
    → (after ≡ r)
      ⊎ ((dh : List ℕ) × (h.dh_public ≡ some dh)
          × ((after ≡ record r { remote_dh_key = some dh })
              ⊎ ((skipped : DoubleRatchet P) × (skip_message_keys P r h.previous_chain_length
                    ≡ ok skipped)
                  × (dh_ratchet_step P skipped dh new ≡ ok after))))
unfolding follow_remote
follow_remote_cases P r after h new e = elim (Option-cases h.dh_public) [
  | inl a ↦ inl (ground (arith, a, e))
  | inr (dh, a) ↦ elim (Option-cases r.remote_dh_key) [
    | inl b ↦ inr (dh, a, inl (ground (arith, a, b, e)))
    | inr (current, b) ↦ elim (Bool-cases (same_key current dh)) [
      | inl c ↦ inl (ground (arith, a, b, c, e))
      | inr c ↦ elim (Result-cases (skip_message_keys P r h.previous_chain_length)) [
        | inl (skipped, d) ↦ inr (dh, a, inr (skipped, d, ground (arith, a, b, c, d, e)))
        | inr (x, d) ↦ absurd (ground (arith, a, b, c, d, e))
      ]
    ]
  ]
]

pub decrypt_current-keeps :
    (P : Primitives) (r : DoubleRatchet P) (m : RatchetMessage)
    → let after = (decrypt_current P r m).1 in
      (after.remote_dh_key ≡ r.remote_dh_key) × (after.skipped_keys ≡ r.skipped_keys)
unfolding decrypt_current
decrypt_current-keeps P r m = ground arith

pub encrypt-keeps :
    (P : Primitives) (r : DoubleRatchet P) (text associated nonce : List ℕ)
    → let after = (encrypt P r text associated nonce).1 in
      (after.remote_dh_key ≡ r.remote_dh_key) × (after.skipped_keys ≡ r.skipped_keys)
unfolding encrypt
encrypt-keeps P r text associated nonce = ground arith
