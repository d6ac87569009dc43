-- ===== src/Ratchet/Primitives.antt =====
-- What rvpn/crates/rvpn-core/src/crypto takes from other crates, as one record, with the `Cipher` of
-- crypto/cipher.rs, and the key derivations of crypto/ratchet.rs. HMAC-SHA256 is of the hmac and sha2
-- crates, HKDF of hkdf, X25519 of x25519_dalek, ChaCha20-Poly1305 of chacha20poly1305, and the cache
-- of lru. Keys, secrets and texts are lists of bytes.
use r_vpn_core.Common.{
  ℕ, ◌≡◌, ◌≢◌, List, [], ◌∷◌, Bool, Option, none, length, ltb, if◌then◌else◌, take, drop,
}

-- The key of a skipped message key: some bytes and the message number.
abbrev pub SkippedKey : Type 0
SkippedKey = List ℕ × ℕ

pub record Primitives : Type 1 where
  pub hmac : (key text : List ℕ) → List ℕ
  pub hkdf : (salt ikm info : List ℕ) → (length : ℕ) → List ℕ
  pub public_key : (secret : List ℕ) → List ℕ
  pub diffie_hellman : (secret public : List ℕ) → List ℕ
  pub seal : (key nonce aad text : List ℕ) → Option (List ℕ)
  pub open_sealed : (key nonce aad text : List ℕ) → Option (List ℕ)
  -- The same on a buffer in place: what the buffer holds after it.
  pub open_in_place : (key nonce aad buffer : List ℕ) → Option (List ℕ)
  pub Cache : Type 0
  pub empty_cache : Cache
  pub is_empty : Cache → Bool
  pub put : Cache → SkippedKey → List ℕ → Cache
  -- `contains`, and `pop` if it does.
  pub pop : Cache → SkippedKey → Option (List ℕ × Cache)

-- What the code relies on: a new cache is empty, and putting a value in under one key puts none in
-- under another.
pub record CacheLaws (P : Primitives) : Type 0 where
  pub pop-empty : (k : SkippedKey) → P.pop P.empty_cache k ≡ none
  pub pop-put :
      (c : P.Cache) (k l : SkippedKey) (v : List ℕ)
      → k ≢ l
      → P.pop c k ≡ none
      → P.pop (P.put c l v) k ≡ none

abbrev pub tag_size : ℕ
tag_size = 16

module _ (P : Primitives) where
  -- `Cipher::encrypt`
  unfoldable pub cipher_encrypt : (key nonce aad text : List ℕ) → Option (List ℕ)
  cipher_encrypt key nonce aad text = P.seal key nonce aad text

  -- `Cipher::decrypt`
  unfoldable pub cipher_decrypt : (key nonce aad ciphertext : List ℕ) → Option (List ℕ)
  cipher_decrypt key nonce aad ciphertext =
      if ltb (length ciphertext) tag_size then none else P.open_sealed key nonce aad ciphertext

  -- `Cipher::decrypt_in_place`: the text that a buffer with the ciphertext holds afterwards.
  unfoldable pub cipher_decrypt_in_place : (key nonce aad buffer : List ℕ) → Option (List ℕ)
  cipher_decrypt_in_place key nonce aad buffer =
      if ltb (length buffer) tag_size then none else P.open_in_place key nonce aad buffer

  -- The message key and the next chain key.
  unfoldable pub kdf_ck : List ℕ → List ℕ × List ℕ
  kdf_ck ck = (P.hmac ck (0x01 ∷ []), P.hmac ck (0x02 ∷ []))

  -- The info is "R-VPN-v1 DoubleRatchet Init".
  unfoldable pub kdf_init : List ℕ → List ℕ × List ℕ
  kdf_init shared_secret =
      let derived = P.hkdf [] shared_secret init_info 64 in (take 32 derived, drop 32 derived)
    where
      init_info : List ℕ
      init_info =
          82 ∷ 45 ∷ 86 ∷ 80 ∷ 78 ∷ 45 ∷ 118 ∷ 49 ∷ 32 ∷ 68 ∷ 111 ∷ 117 ∷ 98 ∷ 108 ∷ 101 ∷ 82 ∷ 97
          ∷ 116 ∷ 99 ∷ 104 ∷ 101 ∷ 116 ∷ 32 ∷ 73 ∷ 110 ∷ 105 ∷ 116 ∷ []

  -- The root key and the chain key; the info is "R-VPN-v1 Ratchet".
  unfoldable pub kdf_rk_2 : (rk dh_out : List ℕ) → List ℕ × List ℕ
  kdf_rk_2 rk dh_out =
      let derived = P.hkdf rk dh_out ratchet_info 64 in (take 32 derived, drop 32 derived)
    where
      ratchet_info : List ℕ
      ratchet_info =
          82 ∷ 45 ∷ 86 ∷ 80 ∷ 78 ∷ 45 ∷ 118 ∷ 49 ∷ 32 ∷ 82 ∷ 97 ∷ 116 ∷ 99 ∷ 104 ∷ 101 ∷ 116 ∷ []
