-- ===== src/Ratchet/Receive.antt =====
-- The receiving side of `DoubleRatchet` of rvpn/crates/rvpn-core/src/crypto/ratchet.rs: `decrypt`, whose
-- three stages are functions of their own, and `skip_message_keys`.
use r_vpn_core.Common.{
  ℕ, ◌+◌, ◌-◌, ◌%◌, ◌^◌, Bool, true, false, ◌&&◌, List, [], ◌∷◌, none, some, ltb, ◌==◌,
  if◌then◌else◌, length, Result, ok, err, zero, suc,
}
use r_vpn_core.Codec.Messages.{MessageHeader, RatchetMessage}
use r_vpn_core.Ratchet.Primitives.{Primitives, kdf_ck, cipher_decrypt}
use r_vpn_core.Ratchet.State.{
  DoubleRatchet, RatchetError, dh_ratchet_step, header_bytes, unwrap_or, max_skip, max_message_size,
  no_receiving_chain, decryption_failed, message_too_large, message_too_old, too_many_skipped,
}

-- `==` of two keys.
unfoldable pub same_key : List ℕ → List ℕ → Bool
same_key [] [] = true
same_key [] (y ∷ ys) = false
same_key (x ∷ xs) [] = false
same_key (x ∷ xs) (y ∷ ys) = (x == y) && same_key xs ys

module _ (P : Primitives) where
  -- One round: the message key is stored under the remote key's bytes and the chain's number.
  unfoldable pub skip_one : DoubleRatchet P → List ℕ → DoubleRatchet P
  skip_one r current_ck = record r {
    skipped_keys =
        P.put r.skipped_keys (unwrap_or r.remote_dh_key [], r.recv_message_number)
          (kdf_ck P current_ck).0;
    recv_message_number = r.recv_message_number + 1;
  }

  -- The loop of `skip_message_keys`, with the number of rounds that are left.
  unfoldable pub skip_loop : ℕ → DoubleRatchet P → List ℕ → DoubleRatchet P
  skip_loop zero r current_ck = record r { receiving_chain_key = some current_ck }
  skip_loop (suc n) r current_ck = skip_loop n (skip_one r current_ck) (kdf_ck P current_ck).1

  -- On an error the state is as it was. The loop runs while the number is below `until`.
  unfoldable pub skip_message_keys : DoubleRatchet P → ℕ → Result RatchetError (DoubleRatchet P)
  skip_message_keys r until =
      if ltb ((r.recv_message_number + max_skip) % 2 ^ 32) until
      then err too_many_skipped
      else elim r.receiving_chain_key [
        | none ↦ err no_receiving_chain
        | some chain_key ↦ ok (skip_loop (until - r.recv_message_number) r chain_key)
      ]

  -- The DH step, if the message has a new remote key.
  unfoldable pub follow_remote :
      DoubleRatchet P → MessageHeader → List ℕ → Result RatchetError (DoubleRatchet P)
  follow_remote r h new_dh_pair = elim h.dh_public [
    | none ↦ ok r
    | some remote_dh ↦ elim r.remote_dh_key [
      | none ↦ ok (record r { remote_dh_key = some remote_dh })
      | some current_remote ↦
          if same_key current_remote remote_dh
          then ok r
          else elim (skip_message_keys r h.previous_chain_length) [
            | err e ↦ err e
            | ok skipped ↦ dh_ratchet_step P skipped remote_dh new_dh_pair
          ]
    ]
  ]

  -- Decrypting with the chain key; the chain advances if that succeeds.
  unfoldable pub decrypt_current :
      DoubleRatchet P → RatchetMessage → Result RatchetError (List ℕ) × DoubleRatchet P
  decrypt_current r m = elim r.receiving_chain_key [
    | none ↦ (err no_receiving_chain, r)
    | some chain_key ↦
        let (message_key, next_chain_key) = kdf_ck P chain_key in
        elim (cipher_decrypt P message_key m.nonce (m.header.payload_type ∷ []) m.ciphertext) [
          | none ↦ (err decryption_failed, r)
          | some plaintext ↦ (
            ok plaintext,
            record r {
              receiving_chain_key = some next_chain_key;
              recv_message_number = (m.header.message_number + 1) % 2 ^ 32;
            },
          )
        ]
  ]

  -- `current_number` was read before the DH step, which resets the number.
  unfoldable pub skip_ahead :
      DoubleRatchet P → ℕ → RatchetMessage → Result RatchetError (List ℕ) × DoubleRatchet P
  skip_ahead r current_number m =
      if ltb current_number m.header.message_number
      then elim (skip_message_keys r m.header.message_number) [
        | err e ↦ (err e, r)
        | ok skipped ↦ decrypt_current skipped m
      ]
      else decrypt_current r m

  -- The message with a key that was kept for it.
  unfoldable pub decrypt_skipped :
      DoubleRatchet P
      → List ℕ
      → P.Cache
      → RatchetMessage
      → Result RatchetError (List ℕ) × DoubleRatchet P
  decrypt_skipped r message_key left m =
      let after = record r { skipped_keys = left } in
      elim (cipher_decrypt P message_key m.nonce (m.header.payload_type ∷ []) m.ciphertext) [
        | none ↦ (err decryption_failed, after)
        | some plaintext ↦ (ok plaintext, after)
      ]

  unfoldable pub decrypt :
      DoubleRatchet P → RatchetMessage → List ℕ → Result RatchetError (List ℕ) × DoubleRatchet P
  decrypt r m new_dh_pair =
      if ltb max_message_size (length m.ciphertext)
      then (err message_too_large, r)
      else elim (P.pop r.skipped_keys (header_bytes m.header, m.header.message_number)) [
        | some (message_key, left) ↦ decrypt_skipped r message_key left m
        | none ↦
            if ltb m.header.message_number r.recv_message_number
            then (err message_too_old, r)
            else elim (follow_remote r m.header new_dh_pair) [
              | err e ↦ (err e, r)
              | ok followed ↦ skip_ahead followed r.recv_message_number m
            ]
      ]
