-- ===== src/Ratchet/Laws/InPlace.antt =====
-- Decrypting into a buffer and decrypting are one function
-- (rvpn/crates/rvpn-core/src/crypto/ratchet.rs).
use r_vpn_core.Common.{
  ℕ, ◌≡◌, refl, inl, inr, true, List, [], ◌∷◌, none, arith, Bool-cases, Option-cases, Result-cases,
}
use r_vpn_core.Codec.Messages.{RatchetMessage, MessageHeader}
use r_vpn_core.Ratchet.Primitives.{
  SkippedKey, Primitives, cipher_decrypt, cipher_decrypt_in_place, kdf_ck,
}
use r_vpn_core.Ratchet.State.{DoubleRatchet, header_bytes}
use r_vpn_core.Ratchet.Receive.{
  decrypt_skipped, decrypt_current, skip_ahead, decrypt, follow_remote, skip_message_keys,
}
use r_vpn_core.Ratchet.InPlace.{
  find_skipped, decrypt_skipped_to, decrypt_current_to, skip_ahead_to, decrypt_to_ref,
}

-- What the code relies on: opening in place gives what opening gives, and an empty cache holds
-- nothing.
pub record InPlaceLaws (P : Primitives) : Type 0 where
  pub in_place :
      (key nonce aad text : List ℕ)
      → P.open_in_place key nonce aad text ≡ P.open_sealed key nonce aad text
  pub pop-is_empty : (c : P.Cache) (k : SkippedKey) → P.is_empty c ≡ true → P.pop c k ≡ none

module _ (P : Primitives) (laws : InPlaceLaws P) where
  cipher_decrypt_in_place_lem :
      (key nonce aad text : List ℕ)
      → cipher_decrypt_in_place P key nonce aad text ≡ cipher_decrypt P key nonce aad text
  unfolding cipher_decrypt_in_place cipher_decrypt
  cipher_decrypt_in_place_lem key nonce aad text = rw (laws.in_place key nonce aad text)

  find_skipped_lem :
      (r : DoubleRatchet P) (h : MessageHeader)
      → find_skipped P r h ≡ P.pop r.skipped_keys (header_bytes h, h.message_number)
  unfolding find_skipped
  find_skipped_lem r h = elim (Bool-cases (P.is_empty r.skipped_keys)) [
    | inl e ↦ rw (e, laws.pop-is_empty r.skipped_keys (header_bytes h, h.message_number) e)
    | inr e ↦ rw e
  ]

  decrypt_skipped_to_lem :
      (r : DoubleRatchet P) (key : List ℕ) (left : P.Cache) (m : RatchetMessage)
      → decrypt_skipped_to P r key left m ≡ decrypt_skipped P r key left m
  unfolding decrypt_skipped_to decrypt_skipped
  decrypt_skipped_to_lem r key left m =
      ground
        (arith, cipher_decrypt_in_place_lem key m.nonce (m.header.payload_type ∷ []) m.ciphertext)

  decrypt_current_to_lem :
      (r : DoubleRatchet P) (m : RatchetMessage) → decrypt_current_to P r m ≡ decrypt_current P r m
  unfolding decrypt_current_to decrypt_current
  decrypt_current_to_lem r m = elim (Option-cases r.receiving_chain_key) [
    | inl e ↦ rw (e, decrypt_current_to, decrypt_current) refl
    | inr (ck, e) ↦ ground (
      arith,
      e,
      cipher_decrypt_in_place_lem (kdf_ck P ck).0 m.nonce (m.header.payload_type ∷ []) m.ciphertext,
    )
  ]

  skip_ahead_to_lem :
      (r : DoubleRatchet P) (n : ℕ) (m : RatchetMessage)
      → skip_ahead_to P r n m ≡ skip_ahead P r n m
  unfolding skip_ahead_to skip_ahead
  skip_ahead_to_lem r n m = elim (Result-cases (skip_message_keys P r m.header.message_number)) [
    | inl (skipped, e) ↦
        ground (arith, e, decrypt_current_to_lem r m, decrypt_current_to_lem skipped m)
    | inr (x, e) ↦ ground (arith, e, decrypt_current_to_lem r m)
  ]

  -- For a cipher whose two ways of opening agree and a cache that holds nothing when it says that it
  -- is empty: `decrypt_to_ref` gives the answer and leaves the state that `decrypt` does, on every
  -- state and message, errors included.
  pub decrypt_to_ref-decrypt :
      (r : DoubleRatchet P) (m : RatchetMessage) (new : List ℕ)
      → decrypt_to_ref P r m new ≡ decrypt P r m new
  unfolding decrypt_to_ref decrypt
  decrypt_to_ref-decrypt r m new =
      elim (Option-cases (P.pop r.skipped_keys (header_bytes m.header, m.header.message_number))) [
        | inr ((key, left), e) ↦
            ground (arith, e, find_skipped_lem r m.header, decrypt_skipped_to_lem r key left m)
        | inl e ↦ elim (Result-cases (follow_remote P r m.header new)) [
          | inl (followed, f) ↦ ground (
            arith,
            e,
            f,
            find_skipped_lem r m.header,
            skip_ahead_to_lem followed r.recv_message_number m,
          )
          | inr (x, f) ↦ ground (arith, e, f, find_skipped_lem r m.header)
        ]
      ]
