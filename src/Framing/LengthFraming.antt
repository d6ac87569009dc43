-- ===== src/Framing/LengthFraming.antt =====
-- encode_frame, decode_frame and validate_frame of
-- rvpn/crates/rvpn-core/src/protocol/length_framing.rs. AES-256-GCM of the aes_gcm crate is a
-- parameter: `seal` and `open_sealed` take the nonce and the text.
use r_vpn_core.Common.{
  ℕ, ◌+◌, List, ◌++◌, Option, none, some, ltb, if◌then◌else◌, length, take, drop, Result, ok, err,
}
use r_vpn_core.Common.Bytes.{to_be, from_be}
use r_vpn_core.Framing.Nonce.{increment_nonce}

abbrev pub len_ciphertext_size : ℕ
len_ciphertext_size = 18

abbrev pub tag_size : ℕ
tag_size = 16

abbrev pub nonce_size : ℕ
nonce_size = 12

abbrev pub max_frame_size : ℕ
max_frame_size = 65535 + len_ciphertext_size + tag_size

pub data FramingError : Type 0 where
  frame_too_small frame_too_large invalid_length decryption_failed encryption_failed : FramingError

unfoldable pub validate_frame : List ℕ → Result FramingError (Unit {0})
validate_frame frame =
    if ltb (length frame) len_ciphertext_size
    then err frame_too_small
    else if ltb max_frame_size (length frame)
    then err frame_too_large
    else ok tt

-- An AEAD with the key in it: `none` is its error.
abbrev pub Aead : Type 0
Aead = (nonce : List ℕ) → (text : List ℕ) → Option (List ℕ)

-- The result and the nonce that the caller is left with, on errors too.
unfoldable pub encode_frame : Aead → List ℕ → List ℕ → Result FramingError (List ℕ) × List ℕ
encode_frame seal bytes nonce =
    if ltb 65535 (length bytes)
    then (err encryption_failed, nonce)
    else elim (seal nonce (to_be 2 (length bytes))) [
      | none ↦ (err encryption_failed, nonce)
      | some len_ciphertext ↦
          let second = increment_nonce nonce in
          elim (seal second bytes) [
            | none ↦ (err encryption_failed, second)
            | some data_ciphertext ↦
                (ok (len_ciphertext ++ data_ciphertext), increment_nonce second)
          ]
    ]

-- The second half of `decode_frame`, when the length has been decrypted and the nonce incremented.
unfoldable pub decode_data : Aead → List ℕ → ℕ → List ℕ → Result FramingError (List ℕ) × List ℕ
decode_data open_sealed frame data_len second =
    if ltb (length frame) (len_ciphertext_size + data_len + tag_size)
    then (err frame_too_small, second)
    else elim (open_sealed second (take (data_len + tag_size) (drop len_ciphertext_size frame))) [
      | none ↦ (err decryption_failed, second)
      | some bytes ↦ (ok bytes, increment_nonce second)
    ]

unfoldable pub decode_frame : Aead → List ℕ → List ℕ → Result FramingError (List ℕ) × List ℕ
decode_frame open_sealed frame nonce =
    if ltb (length frame) len_ciphertext_size
    then (err frame_too_small, nonce)
    else if ltb max_frame_size (length frame)
    then (err frame_too_large, nonce)
    else elim (open_sealed nonce (take len_ciphertext_size frame)) [
      | none ↦ (err decryption_failed, nonce)
      | some len_plaintext ↦
          decode_data open_sealed frame (from_be (take 2 len_plaintext)) (increment_nonce nonce)
    ]
