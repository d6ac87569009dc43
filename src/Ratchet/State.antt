-- ===== src/Ratchet/State.antt =====
-- The state, the initialisation and the sending side of `DoubleRatchet` of
-- rvpn/crates/rvpn-core/src/crypto/ratchet.rs, and its DH step. The random nonce and the new key pair
-- are arguments. A u32 counter wraps, as it does in a release build.
use r_vpn_core.Common.{
  ℕ, ◌*◌, ◌+◌, ◌%◌, ◌^◌, List, [], ◌∷◌, ◌++◌, Option, none, some, Result, ok, err,
}
use r_vpn_core.Common.Bytes.{to_be}
use r_vpn_core.Codec.Messages.{MessageHeader, RatchetMessage}
use r_vpn_core.Ratchet.Primitives.{Primitives, kdf_ck, kdf_init, kdf_rk_2, cipher_encrypt}

abbrev pub max_skip : ℕ
max_skip = 1000

abbrev pub max_message_size : ℕ
max_message_size = 1024 * 1024

-- The messages of `Error::EncryptionFailed` and `Error::DecryptionFailed`; `panicked` is the `expect`
-- of `dh_ratchet_step`, and `no_dh_pair` the error of the one of `SplitRatchet` there.
pub data RatchetError : Type 0 where
  no_sending_chain no_receiving_chain encryption_failed decryption_failed : RatchetError
  message_too_large message_too_old too_many_skipped panicked no_dh_pair : RatchetError

pub record DoubleRatchet (P : Primitives) : Type 0 where
  pub dh_pair : Option (List ℕ)
  pub remote_dh_key : Option (List ℕ)
  pub previous_remote_dh_key : Option (List ℕ)
  pub root_key : List ℕ
  pub sending_chain_key : Option (List ℕ)
  pub receiving_chain_key : Option (List ℕ)
  pub send_message_number : ℕ
  pub recv_message_number : ℕ
  pub previous_chain_length : ℕ
  pub skipped_keys : P.Cache

unfoldable pub dh_bytes : Option (List ℕ) → List ℕ
dh_bytes none = 0 ∷ []
dh_bytes (some dh) = 1 ∷ dh

-- `MessageHeader::to_bytes`
unfoldable pub header_bytes : MessageHeader → List ℕ
header_bytes h =
    dh_bytes h.dh_public
    ++ (to_be 4 h.message_number ++ (to_be 4 h.previous_chain_length ++ (h.payload_type ∷ [])))

-- `associated_data.first().copied().unwrap_or(0)`
unfoldable pub payload_type_of : List ℕ → ℕ
payload_type_of [] = 0
payload_type_of (b ∷ bs) = b

unfoldable pub or_else : Option (List ℕ) → Option (List ℕ) → Option (List ℕ)
or_else none o = o
or_else (some k) o = some k

unfoldable pub unwrap_or : Option (List ℕ) → List ℕ → List ℕ
unwrap_or none k = k
unwrap_or (some k) _ = k

module _ (P : Primitives) where
  unfoldable pub init_alice : (shared_secret dh_pair : List ℕ) → DoubleRatchet P
  init_alice shared_secret dh_pair = record {
    dh_pair = some dh_pair;
    remote_dh_key = none;
    previous_remote_dh_key = none;
    root_key = shared_secret;
    sending_chain_key = some (kdf_init P shared_secret).0;
    receiving_chain_key = some (kdf_init P shared_secret).1;
    send_message_number = 0;
    recv_message_number = 0;
    previous_chain_length = 0;
    skipped_keys = P.empty_cache;
  }

  unfoldable pub init_bob : (shared_secret dh_pair : List ℕ) → DoubleRatchet P
  init_bob shared_secret dh_pair = record {
    dh_pair = some dh_pair;
    remote_dh_key = none;
    previous_remote_dh_key = none;
    root_key = shared_secret;
    sending_chain_key = some (kdf_init P shared_secret).1;
    receiving_chain_key = some (kdf_init P shared_secret).0;
    send_message_number = 0;
    recv_message_number = 0;
    previous_chain_length = 0;
    skipped_keys = P.empty_cache;
  }

  -- The header of the next message, before the chain advances.
  unfoldable pub next_header : DoubleRatchet P → ℕ → MessageHeader
  next_header r payload_type = record {
    dh_public = elim r.dh_pair [ none ↦ none | some secret ↦ some (P.public_key secret) ];
    message_number = r.send_message_number;
    previous_chain_length = r.previous_chain_length;
    payload_type = payload_type;
  }

  unfoldable pub encrypt :
      DoubleRatchet P
      → (plaintext associated_data nonce : List ℕ)
      → Result RatchetError RatchetMessage × DoubleRatchet P
  encrypt r plaintext associated_data nonce = elim r.sending_chain_key [
    | none ↦ (err no_sending_chain, r)
    | some chain_key ↦
        let (message_key, next_chain_key) = kdf_ck P chain_key in
        let payload_type = payload_type_of associated_data in
        elim (cipher_encrypt P message_key nonce (payload_type ∷ []) plaintext) [
          | none ↦ (err encryption_failed, r)
          | some ciphertext ↦ (
            ok (record {
              header = next_header r payload_type;
              nonce = nonce;
              ciphertext = ciphertext;
            }),
            record r {
              sending_chain_key = some next_chain_key;
              send_message_number = (r.send_message_number + 1) % 2 ^ 32;
            },
          )
        ]
  ]

  -- `dh_ratchet_step` with the key pair that it generates.
  unfoldable pub dh_ratchet_step :
      DoubleRatchet P → (remote_dh new_dh_pair : List ℕ) → Result RatchetError (DoubleRatchet P)
  dh_ratchet_step r remote_dh new_dh_pair = elim r.dh_pair [
    | none ↦ err panicked
    | some current_dh_pair ↦
        let old_remote_key =
          unwrap_or (or_else r.previous_remote_dh_key r.remote_dh_key) remote_dh in
        let recv_dh_secret = P.diffie_hellman current_dh_pair old_remote_key in
        let (recv_root_key, recv_chain_key) = kdf_rk_2 P r.root_key recv_dh_secret in
        let send_dh_secret = P.diffie_hellman new_dh_pair remote_dh in
        let (send_root_key, send_chain_key) = kdf_rk_2 P recv_root_key send_dh_secret in
        ok (record {
          dh_pair = some new_dh_pair;
          remote_dh_key = some remote_dh;
          previous_remote_dh_key = or_else r.remote_dh_key r.previous_remote_dh_key;
          root_key = send_root_key;
          sending_chain_key = some send_chain_key;
          receiving_chain_key = some recv_chain_key;
          send_message_number = 0;
          recv_message_number = 0;
          previous_chain_length = r.send_message_number;
          skipped_keys = r.skipped_keys;
        })
  ]

  unfoldable pub ratchet_for_next_message :
      DoubleRatchet P → List ℕ → Result RatchetError (DoubleRatchet P)
  ratchet_for_next_message r new_dh_pair = elim r.remote_dh_key [
    | none ↦ ok r
    | some remote_dh ↦ dh_ratchet_step r remote_dh new_dh_pair
  ]
