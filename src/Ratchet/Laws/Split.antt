-- ===== src/Ratchet/Laws/Split.antt =====
-- `SplitRatchet` run by one task against `DoubleRatchet`
-- (rvpn/crates/rvpn-core/src/crypto/ratchet.rs).
use r_vpn_core.Common.{
  ℕ, ◌≤◌, ◌≡◌, ◌⊎◌, refl, inl, inr, ◌∙◌, false, List, [], ◌∷◌, none, some, arith, ltb, le→ltb,
  length, Bool-cases, Option-cases, Result, ok,
}
use r_vpn_core.Codec.Messages.{MessageHeader, RatchetMessage}
use r_vpn_core.Ratchet.Primitives.{Primitives}
use r_vpn_core.Ratchet.State.{
  DoubleRatchet, RatchetError, max_message_size, encrypt, next_header, payload_type_of,
  header_bytes,
}
use r_vpn_core.Ratchet.Receive.{
  decrypt, follow_remote, decrypt_skipped, skip_ahead, decrypt_current,
}
use r_vpn_core.Ratchet.Split.{
  SplitRatchet, ReceivingChain, from_double_ratchet, split_encrypt, split_decrypt,
  split_follow_remote, chain_decrypt, chain_decrypt_current,
}
use r_vpn_core.Ratchet.Laws.Channel.{same_key_refl}

module _ (P : Primitives) where
  -- Whenever a double ratchet encrypts a text with one byte of associated data, the split ratchet
  -- made from it gives the same message and is left as the split ratchet made from what is left.
  pub split_encrypt-encrypt :
      (r after : DoubleRatchet P) (m : RatchetMessage) (text nonce : List ℕ) (b : ℕ)
      → encrypt P r text (b ∷ []) nonce ≡ (ok m, after)
      → split_encrypt P (from_double_ratchet P r) text (b ∷ []) nonce
        ≡ (ok m, from_double_ratchet P after)
  unfolding encrypt split_encrypt from_double_ratchet next_header payload_type_of
  split_encrypt-encrypt r after m text nonce b e = elim (Option-cases r.sending_chain_key) [
    | inl a ↦ absurd (ground (arith, a, e))
    | inr (ck, a) ↦ ground (arith, a, e)
  ]

  abbrev pub Known : DoubleRatchet P → MessageHeader → Type 0
  Known r h =
      (h.dh_public ≡ none) ⊎ ((dh : List ℕ) × (h.dh_public ≡ some dh) × (r.remote_dh_key ≡ some dh))

  split_follow_remote-Known :
      (r : DoubleRatchet P) (h : MessageHeader) (new : List ℕ)
      → Known r h
      → (split_follow_remote P (from_double_ratchet P r) h new ≡ (ok tt, from_double_ratchet P r))
        × (follow_remote P r h new ≡ ok r)
  unfolding split_follow_remote follow_remote from_double_ratchet
  split_follow_remote-Known r h new (inl a) =
      (rw (a, split_follow_remote) refl, rw (a, follow_remote) refl)
  split_follow_remote-Known r h new (inr (dh, a, b)) =
      (ground (arith, a, b, same_key_refl dh), ground (arith, a, b, same_key_refl dh))

  -- What the receiving chain does, seen in the whole.
  abbrev Seen :
      DoubleRatchet P
      → RatchetMessage
      → Result RatchetError (List ℕ) × ReceivingChain P
      → Result RatchetError (List ℕ) × SplitRatchet P
  Seen r m (answer, chain) = (answer, record (from_double_ratchet P r) { receiving_chain = chain })

  current_lem :
      (r : DoubleRatchet P) (m : RatchetMessage)
      → Seen r m (
          chain_decrypt_current P
            (from_double_ratchet P r).receiving_chain
            m
            (m.header.payload_type ∷ []))
        ≡ ((decrypt_current P r m).0, from_double_ratchet P (decrypt_current P r m).1)
  unfolding chain_decrypt_current decrypt_current from_double_ratchet
  current_lem r m = ground arith

  chain_lem :
      (r : DoubleRatchet P) (m : RatchetMessage) (new : List ℕ)
      → m.header.message_number ≤ r.recv_message_number
      → follow_remote P r m.header new ≡ ok r
      → (ltb max_message_size (length m.ciphertext)) ≡ false
      → Seen r m
          (chain_decrypt P (from_double_ratchet P r).receiving_chain m (m.header.payload_type ∷ []))
        ≡ ((decrypt P r m new).0, from_double_ratchet P (decrypt P r m new).1)
  unfolding chain_decrypt decrypt decrypt_skipped skip_ahead from_double_ratchet
  chain_lem r m new number followed small =
      elim (Option-cases (P.pop r.skipped_keys (header_bytes m.header, m.header.message_number))) [
        | inr ((key, left), e) ↦ ground (arith, e, small)
        | inl e ↦ elim (Bool-cases (ltb m.header.message_number r.recv_message_number)) [
          | inl old ↦ ground (arith, e, small, old)
          | inr new_number ↦ ground (
            arith,
            e,
            small,
            new_number,
            followed,
            le→ltb r.recv_message_number m.header.message_number number,
            current_lem r m,
          )
        ]
      ]

  split_decrypt_small :
      (r : DoubleRatchet P) (m : RatchetMessage) (new : List ℕ)
      → ltb max_message_size (length m.ciphertext) ≡ false
      → split_follow_remote P (from_double_ratchet P r) m.header new
        ≡ (ok tt, from_double_ratchet P r)
      → split_decrypt P (from_double_ratchet P r) m (m.header.payload_type ∷ []) new
        ≡ Seen r m (
            chain_decrypt P
              (from_double_ratchet P r).receiving_chain
              m
              (m.header.payload_type ∷ []))
  unfolding split_decrypt
  split_decrypt_small r m new small split = ground (arith, small, split)

  -- For a message whose number is not ahead and whose key, if it has one, is the one that is known:
  -- the split ratchet made from a double ratchet, given the header's payload type as associated data,
  -- answers as the double ratchet does and is left as the split ratchet made from what that leaves,
  -- on errors too.
  pub split_decrypt-decrypt :
      (r : DoubleRatchet P) (m : RatchetMessage) (new : List ℕ)
      → m.header.message_number ≤ r.recv_message_number
      → Known r m.header
      → let (answer, after) = decrypt P r m new in
        split_decrypt P (from_double_ratchet P r) m (m.header.payload_type ∷ []) new
        ≡ (answer, from_double_ratchet P after)
  unfolding decrypt split_decrypt
  split_decrypt-decrypt r m new number remote =
      let (split, followed) = split_follow_remote-Known r m.header new remote in
      elim (Bool-cases (ltb max_message_size (length m.ciphertext))) [
        | inl large ↦ rw large refl
        | inr small ↦
            split_decrypt_small r m new small split ∙ chain_lem r m new number followed small
      ]
