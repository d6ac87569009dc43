-- ===== src/Ratchet/InPlace.antt =====
-- `DoubleRatchet::decrypt_to_ref` of rvpn/crates/rvpn-core/src/crypto/ratchet.rs, which decrypts a
-- borrowed message into the caller's buffer and looks skipped keys up only if there are any. The
-- answer is the text that the buffer holds; the code returns its length. A borrowed message has the
-- fields of an owned one, and a slice is the list of its bytes.
use r_vpn_core.Common.{
  ℕ, ◌+◌, ◌%◌, ◌^◌, List, [], ◌∷◌, Option, none, some, ltb, if◌then◌else◌, length, Result, ok, err,
}
use r_vpn_core.Codec.Messages.{RatchetMessage, MessageHeader}
use r_vpn_core.Ratchet.Primitives.{Primitives, kdf_ck, cipher_decrypt_in_place}
use r_vpn_core.Ratchet.State.{
  DoubleRatchet, RatchetError, header_bytes, max_message_size, no_receiving_chain,
  decryption_failed, message_too_large, message_too_old,
}
use r_vpn_core.Ratchet.Receive.{follow_remote, skip_message_keys}

module _ (P : Primitives) where
  -- The key that was kept for the message, and the cache without it.
  unfoldable pub find_skipped : DoubleRatchet P → MessageHeader → Option (List ℕ × P.Cache)
  find_skipped r h =
      if P.is_empty r.skipped_keys
      then none
      else P.pop r.skipped_keys (header_bytes h, h.message_number)

  unfoldable pub decrypt_skipped_to :
      DoubleRatchet P
      → List ℕ
      → P.Cache
      → RatchetMessage
      → Result RatchetError (List ℕ) × DoubleRatchet P
  decrypt_skipped_to r message_key left m =
      let after = record r { skipped_keys = left } in
      elim (cipher_decrypt_in_place P message_key m.nonce (m.header.payload_type ∷ [])
        m.ciphertext) [
          | none ↦ (err decryption_failed, after)
          | some plaintext ↦ (ok plaintext, after)
        ]

  unfoldable pub decrypt_current_to :
      DoubleRatchet P → RatchetMessage → Result RatchetError (List ℕ) × DoubleRatchet P
  decrypt_current_to r m = elim r.receiving_chain_key [
    | none ↦ (err no_receiving_chain, r)
    | some chain_key ↦
        let (message_key, next_chain_key) = kdf_ck P chain_key in
        elim (cipher_decrypt_in_place P message_key m.nonce (m.header.payload_type ∷ [])
          m.ciphertext) [
            | none ↦ (err decryption_failed, r)
            | some plaintext ↦ (
              ok plaintext,
              record r {
                receiving_chain_key = some next_chain_key;
                recv_message_number = (m.header.message_number + 1) % 2 ^ 32;
              },
            )
          ]
  ]

  unfoldable pub skip_ahead_to :
      DoubleRatchet P → ℕ → RatchetMessage → Result RatchetError (List ℕ) × DoubleRatchet P
  skip_ahead_to r current_number m =
      if ltb current_number m.header.message_number
      then elim (skip_message_keys P r m.header.message_number) [
        | err e ↦ (err e, r)
        | ok skipped ↦ decrypt_current_to skipped m
      ]
      else decrypt_current_to r m

  unfoldable pub decrypt_to_ref :
      DoubleRatchet P → RatchetMessage → List ℕ → Result RatchetError (List ℕ) × DoubleRatchet P
  decrypt_to_ref r m new_dh_pair =
      if ltb max_message_size (length m.ciphertext)
      then (err message_too_large, r)
      else elim (find_skipped r m.header) [
        | some (message_key, left) ↦ decrypt_skipped_to r message_key left m
        | none ↦
            if ltb m.header.message_number r.recv_message_number
            then (err message_too_old, r)
            else elim (follow_remote P r m.header new_dh_pair) [
              | err e ↦ (err e, r)
              | ok followed ↦ skip_ahead_to followed r.recv_message_number m
            ]
      ]
