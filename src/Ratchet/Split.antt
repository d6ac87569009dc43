-- ===== src/Ratchet/Split.antt =====
-- `SplitRatchet` of rvpn/crates/rvpn-core/src/crypto/ratchet.rs, whose chains stand behind locks of
-- their own: its operations run by one task. Locks gives the order in which the locks are taken.
use r_vpn_core.Common.{
  ℕ, zero, suc, ◌+◌, ◌-◌, ◌%◌, ◌^◌, List, [], Option, none, some, ltb, if◌then◌else◌, length,
  Result, ok, err,
}
use r_vpn_core.Codec.Messages.{MessageHeader, RatchetMessage}
use r_vpn_core.Ratchet.Primitives.{
  Primitives, kdf_ck, kdf_init, kdf_rk_2, cipher_encrypt, cipher_decrypt,
}
use r_vpn_core.Ratchet.State.{
  DoubleRatchet, RatchetError, header_bytes, payload_type_of, or_else, unwrap_or, max_skip,
  max_message_size, no_sending_chain, no_receiving_chain, encryption_failed, decryption_failed,
  message_too_large, message_too_old, too_many_skipped, no_dh_pair,
}
use r_vpn_core.Ratchet.Receive.{same_key}

pub record SendingChain : Type 0 where
  pub chain_key : Option (List ℕ)
  pub message_number : ℕ

pub record ReceivingChain (P : Primitives) : Type 0 where
  pub chain_key : Option (List ℕ)
  pub message_number : ℕ
  pub skipped_keys : P.Cache

pub record SplitRatchet (P : Primitives) : Type 0 where
  pub root_key : List ℕ
  pub dh_pair : Option (List ℕ)
  pub remote_dh_key : Option (List ℕ)
  pub previous_remote_dh_key : Option (List ℕ)
  pub sending_chain : SendingChain
  pub receiving_chain : ReceivingChain P
  pub previous_chain_length : ℕ

module _ (P : Primitives) where
  -- `from_double_ratchet`, with the fields of a `DoubleRatchet` as the arguments.
  unfoldable pub from_double_ratchet : DoubleRatchet P → SplitRatchet P
  from_double_ratchet r = record {
    root_key = r.root_key;
    dh_pair = r.dh_pair;
    remote_dh_key = r.remote_dh_key;
    previous_remote_dh_key = r.previous_remote_dh_key;
    sending_chain = record {
      chain_key = r.sending_chain_key;
      message_number = r.send_message_number;
    };
    receiving_chain = record {
      chain_key = r.receiving_chain_key;
      message_number = r.recv_message_number;
      skipped_keys = r.skipped_keys;
    };
    previous_chain_length = r.previous_chain_length;
  }

  -- The fields that `SplitRatchet::init_alice` and `init_bob` share.
  unfoldable pub split_with : (shared_secret dh_pair sending receiving : List ℕ) → SplitRatchet P
  split_with shared_secret dh_pair sending receiving = record {
    root_key = shared_secret;
    dh_pair = some dh_pair;
    remote_dh_key = none;
    previous_remote_dh_key = none;
    sending_chain = record { chain_key = some sending; message_number = 0 };
    receiving_chain = record {
      chain_key = some receiving;
      message_number = 0;
      skipped_keys = P.empty_cache;
    };
    previous_chain_length = 0;
  }

  unfoldable pub split_alice : (shared_secret dh_pair : List ℕ) → SplitRatchet P
  unfolding split_with
  split_alice shared_secret dh_pair =
      let (ck1, ck2) = kdf_init P shared_secret in split_with shared_secret dh_pair ck1 ck2

  unfoldable pub split_bob : (shared_secret dh_pair : List ℕ) → SplitRatchet P
  unfolding split_with
  split_bob shared_secret dh_pair =
      let (ck1, ck2) = kdf_init P shared_secret in split_with shared_secret dh_pair ck2 ck1

  -- The chain advances before the text is encrypted, which is with all the associated data.
  unfoldable pub split_encrypt :
      SplitRatchet P
      → (plaintext associated_data nonce : List ℕ)
      → Result RatchetError RatchetMessage × SplitRatchet P
  split_encrypt r plaintext associated_data nonce = elim r.sending_chain.chain_key [
    | none ↦ (err no_sending_chain, r)
    | some chain_key ↦
        let (message_key, next_chain_key) = kdf_ck P chain_key in
        let header : MessageHeader = record {
          dh_public = elim r.dh_pair [ none ↦ none | some secret ↦ some (P.public_key secret) ];
          message_number = r.sending_chain.message_number;
          previous_chain_length = r.previous_chain_length;
          payload_type = payload_type_of associated_data;
        } in
        let advanced = record r {
          sending_chain = record {
            chain_key = some next_chain_key;
            message_number = (r.sending_chain.message_number + 1) % 2 ^ 32;
          };
        } in
        elim (cipher_encrypt P message_key nonce associated_data plaintext) [
          | none ↦ (err encryption_failed, advanced)
          | some ciphertext ↦
              (ok (record { header = header; nonce = nonce; ciphertext = ciphertext }), advanced)
        ]
  ]

  -- The loop of `SplitRatchet::skip_message_keys`, with the number of rounds that are left. A key is
  -- stored under no bytes and the number.
  unfoldable pub split_skip_loop : ℕ → ReceivingChain P → List ℕ → ReceivingChain P
  split_skip_loop zero c current_ck = record c { chain_key = some current_ck }
  split_skip_loop (suc n) c current_ck =
      split_skip_loop n
        (record c {
          skipped_keys = P.put c.skipped_keys ([], c.message_number) (kdf_ck P current_ck).0;
          message_number = c.message_number + 1;
        })
        (kdf_ck P current_ck).1

  unfoldable pub split_skip_message_keys :
      ReceivingChain P → ℕ → Result RatchetError (ReceivingChain P)
  split_skip_message_keys c until =
      if ltb ((c.message_number + max_skip) % 2 ^ 32) until
      then err too_many_skipped
      else elim c.chain_key [
        | none ↦ err no_receiving_chain
        | some chain_key ↦ ok (split_skip_loop (until - c.message_number) c chain_key)
      ]

  -- The numbers are reset before it is seen whether there is a key pair.
  unfoldable pub split_dh_ratchet_step :
      SplitRatchet P
      → (remote_dh new_dh_pair : List ℕ) → Result RatchetError (Unit {0}) × SplitRatchet P
  split_dh_ratchet_step r remote_dh new_dh_pair =
      let reset = record r {
        previous_chain_length = r.sending_chain.message_number;
        sending_chain = record (r.sending_chain) { message_number = 0 };
        receiving_chain = record (r.receiving_chain) { message_number = 0 };
      } in
      elim r.dh_pair [
        | none ↦ (err no_dh_pair, reset)
        | some current_dh_pair ↦
            let old_remote_key =
              unwrap_or (or_else r.previous_remote_dh_key r.remote_dh_key) remote_dh in
            let recv_dh_secret = P.diffie_hellman current_dh_pair old_remote_key in
            let (recv_root_key, recv_chain_key) = kdf_rk_2 P r.root_key recv_dh_secret in
            let send_dh_secret = P.diffie_hellman new_dh_pair remote_dh in
            let (send_root_key, send_chain_key) = kdf_rk_2 P recv_root_key send_dh_secret in
            (
              ok tt,
              record {
                root_key = send_root_key;
                dh_pair = some new_dh_pair;
                remote_dh_key = some remote_dh;
                previous_remote_dh_key = or_else r.remote_dh_key r.previous_remote_dh_key;
                sending_chain = record { chain_key = some send_chain_key; message_number = 0 };
                receiving_chain = record {
                  chain_key = some recv_chain_key;
                  message_number = 0;
                  skipped_keys = r.receiving_chain.skipped_keys;
                };
                previous_chain_length = r.sending_chain.message_number;
              },
            )
      ]

  -- The DH step, if the message has a new remote key; nothing is skipped for the old chain.
  unfoldable pub split_follow_remote :
      SplitRatchet P → MessageHeader → List ℕ → Result RatchetError (Unit {0}) × SplitRatchet P
  split_follow_remote r h new_dh_pair = elim h.dh_public [
    | none ↦ (ok tt, r)
    | some remote_dh ↦ elim r.remote_dh_key [
      | none ↦ (ok tt, record r { remote_dh_key = some remote_dh })
      | some current ↦
          if same_key current remote_dh
          then (ok tt, r)
          else split_dh_ratchet_step r remote_dh new_dh_pair
    ]
  ]

  unfoldable pub chain_decrypt_current :
      ReceivingChain P → RatchetMessage → List ℕ → Result RatchetError (List ℕ) × ReceivingChain P
  chain_decrypt_current c m associated_data = elim c.chain_key [
    | none ↦ (err no_receiving_chain, c)
    | some chain_key ↦
        let (message_key, next_chain_key) = kdf_ck P chain_key in
        elim (cipher_decrypt P message_key m.nonce associated_data m.ciphertext) [
          | none ↦ (err decryption_failed, c)
          | some plaintext ↦ (
            ok plaintext,
            record c {
              chain_key = some next_chain_key;
              message_number = (m.header.message_number + 1) % 2 ^ 32;
            },
          )
        ]
  ]

  -- What `decrypt` does while it holds the receiving chain.
  unfoldable pub chain_decrypt :
      ReceivingChain P → RatchetMessage → List ℕ → Result RatchetError (List ℕ) × ReceivingChain P
  chain_decrypt c m associated_data =
      elim (P.pop c.skipped_keys (header_bytes m.header, m.header.message_number)) [
        | some (message_key, left) ↦
            let after = record c { skipped_keys = left } in
            elim (cipher_decrypt P message_key m.nonce associated_data m.ciphertext) [
              | none ↦ (err decryption_failed, after)
              | some plaintext ↦ (ok plaintext, after)
            ]
        | none ↦
            if ltb m.header.message_number c.message_number
            then (err message_too_old, c)
            else if ltb c.message_number m.header.message_number
            then elim (split_skip_message_keys c m.header.message_number) [
              | err e ↦ (err e, c)
              | ok skipped ↦ chain_decrypt_current skipped m associated_data
            ]
            else chain_decrypt_current c m associated_data
      ]

  unfoldable pub split_decrypt :
      SplitRatchet P
      → RatchetMessage
      → (associated_data new_dh_pair : List ℕ) → Result RatchetError (List ℕ) × SplitRatchet P
  split_decrypt r m associated_data new_dh_pair =
      if ltb max_message_size (length m.ciphertext)
      then (err message_too_large, r)
      else let (step, followed) = split_follow_remote r m.header new_dh_pair in
        let (answer, chain) = chain_decrypt followed.receiving_chain m associated_data in
        elim step [
          | err e ↦ (err e, followed)
          | ok _ ↦ (answer, record followed { receiving_chain = chain })
        ]
