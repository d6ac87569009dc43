-- ===== src/Ratchet/Laws/Channel.antt =====
-- One message from the ratchet that encrypts it to the one that decrypts it at once
-- (rvpn/crates/rvpn-core/src/crypto/ratchet.rs).
use r_vpn_core.Common.{
  ℕ, ◌+◌, ◌%◌, ◌^◌, ◌≤◌, ◌<◌, ◌≡◌, ◌⊎◌, inl, inr, refl, ◌∙◌, Bool, true, false, List, [], ◌∷◌, none,
  some, arith, length, ltb, le→ltb, Result, ok, err,
}
use r_vpn_core.Codec.Messages.{MessageHeader, RatchetMessage}
use r_vpn_core.Ratchet.Primitives.{Primitives, CacheLaws, kdf_ck, cipher_encrypt, cipher_decrypt}
use r_vpn_core.Ratchet.State.{
  DoubleRatchet, RatchetError, encrypt, next_header, payload_type_of, max_message_size,
}
use r_vpn_core.Ratchet.Receive.{same_key, follow_remote, decrypt_current, skip_ahead, decrypt}
use r_vpn_core.Ratchet.Laws.Skipped.{Unmatched}

pub same_key_refl : (k : List ℕ) → same_key k k ≡ true
unfolding same_key
same_key_refl [] = refl
same_key_refl (x ∷ xs) = ground (arith, same_key_refl xs)

-- A text on its way, with what the operating system's generator gives both sides.
pub record Turn : Type 0 where
  pub by_alice : Bool
  pub text : List ℕ
  pub associated_data : List ℕ
  pub nonce : List ℕ
  pub new_dh_pair : List ℕ

-- What the code relies on: a sealed text is opened to the same text, sealing a text whose sealed form
-- is within the limit works and adds the tag of 16 bytes, and a public key has 32 bytes.
pub record CipherLaws (P : Primitives) : Type 0 where
  pub open-seal :
      (key nonce aad text sealed : List ℕ)
      → P.seal key nonce aad text ≡ some sealed
      → P.open_sealed key nonce aad sealed ≡ some text
  pub seal-total :
      (key nonce aad text : List ℕ)
      → length text + 16 ≤ max_message_size
      → (sealed : List ℕ) × (P.seal key nonce aad text ≡ some sealed)
        × (length sealed ≡ length text + 16)
  pub length-public_key : (secret : List ℕ) → length (P.public_key secret) ≡ 32

-- A text whose sealed form is within the limit.
abbrev pub Short : Turn → Type 0
Short t = length t.text + 16 ≤ max_message_size

-- `Cipher` opens what it sealed: a sealed text is never shorter than its tag.
cipher_decrypt-cipher_encrypt :
    (P : Primitives) (cipher : CipherLaws P) (key nonce aad text sealed : List ℕ)
    → cipher_encrypt P key nonce aad text ≡ some sealed
    → length sealed ≡ length text + 16
    → cipher_decrypt P key nonce aad sealed ≡ some text
unfolding cipher_encrypt cipher_decrypt
cipher_decrypt-cipher_encrypt P cipher key nonce aad text sealed e size =
    rw (le→ltb (length sealed) 16 (omega arith)) (cipher.open-seal key nonce aad text sealed e)

module _ (P : Primitives) where
  -- One side encrypts and the other decrypts at once: the answer and both states, the sender's first.
  unfoldable pub transmit :
      DoubleRatchet P
      → DoubleRatchet P
      → Turn
      → Result RatchetError (List ℕ) × (DoubleRatchet P × DoubleRatchet P)
  unfolding encrypt
  transmit sender receiver t =
      let (message, sender') = encrypt P sender t.text t.associated_data t.nonce in
      elim message [
        | err e ↦ (err e, (sender', receiver))
        | ok m ↦
            let (answer, receiver') = decrypt P receiver m t.new_dh_pair in
            (answer, (sender', receiver'))
      ]

  -- What a side is left with when it sent one message, and when it received one.
  abbrev pub after_send : DoubleRatchet P → List ℕ → DoubleRatchet P
  after_send r ck = record r {
    sending_chain_key = some (kdf_ck P ck).1;
    send_message_number = r.send_message_number + 1;
  }

  abbrev pub after_receive : DoubleRatchet P → (dh ck : List ℕ) → DoubleRatchet P
  after_receive r dh ck = record r {
    remote_dh_key = some dh;
    receiving_chain_key = some (kdf_ck P ck).1;
    recv_message_number = r.recv_message_number + 1;
  }

  -- The receiver is where the sender is.
  pub record Synced (s r : DoubleRatchet P) : Type 0 where
    pub chain_key : List ℕ
    pub secret : List ℕ
    pub sending : s.sending_chain_key ≡ some chain_key
    pub receiving : r.receiving_chain_key ≡ some chain_key
    pub numbers : s.send_message_number ≡ r.recv_message_number
    pub pair : s.dh_pair ≡ some secret
    pub known : (r.remote_dh_key ≡ none) ⊎ (r.remote_dh_key ≡ some (P.public_key secret))

  follow_known :
      (r : DoubleRatchet P) (h : MessageHeader) (new dh : List ℕ)
      → h.dh_public ≡ some dh
      → (r.remote_dh_key ≡ none) ⊎ (r.remote_dh_key ≡ some dh)
      → follow_remote P r h new ≡ ok (record r { remote_dh_key = some dh })
  unfolding follow_remote
  follow_known r h new dh a (inl b) = rw (a, b) refl
  follow_known r h new dh a (inr b) = rw (a, b, same_key_refl dh) refl

  decrypt_current_lem :
      (r : DoubleRatchet P) (m : RatchetMessage) (ck text : List ℕ)
      → r.receiving_chain_key ≡ some ck
      → cipher_decrypt P (kdf_ck P ck).0 m.nonce (m.header.payload_type ∷ []) m.ciphertext
        ≡ some text
      → decrypt_current P r m ≡ (
        ok text,
        record r {
          receiving_chain_key = some (kdf_ck P ck).1;
          recv_message_number = (m.header.message_number + 1) % 2 ^ 32;
        },
      )
  unfolding decrypt_current
  decrypt_current_lem r m ck text a b = ground (arith, a, b)

  -- A message of the right number, with the peer's key and a ciphertext that opens.
  decrypt_next :
      (r : DoubleRatchet P) (m : RatchetMessage) (new dh ck text : List ℕ) (laws : CacheLaws P)
      → Unmatched P laws r
      → length dh ≡ 32
      → length m.ciphertext ≤ max_message_size
      → r.recv_message_number + 1 < 2 ^ 32
      → m.header.message_number ≡ r.recv_message_number
      → m.header.dh_public ≡ some dh
      → (r.remote_dh_key ≡ none) ⊎ (r.remote_dh_key ≡ some dh)
      → r.receiving_chain_key ≡ some ck
      → cipher_decrypt P (kdf_ck P ck).0 m.nonce (m.header.payload_type ∷ []) m.ciphertext
        ≡ some text
      → decrypt P r m new ≡ (ok text, after_receive r dh ck)
  unfolding decrypt skip_ahead
  decrypt_next r m new dh ck text laws u size small room number key known chain opens =
      let missing = u.missing m.header m.header.message_number (rw key size) in
      let large : ltb max_message_size (length m.ciphertext) ≡ false = le→ltb _ _ small in
      let old : ltb m.header.message_number r.recv_message_number ≡ false =
        le→ltb _ _ (omega arith) in
      let new_number : ltb r.recv_message_number m.header.message_number ≡ false =
        le→ltb _ _ (omega arith) in
      let counted : (m.header.message_number + 1) % 2 ^ 32 ≡ r.recv_message_number + 1 =
        omega arith in
      let followed = record r { remote_dh_key = some dh } in
      ground (
        arith,
        large,
        missing,
        old,
        new_number,
        counted,
        follow_known r m.header new dh key known,
        decrypt_current_lem followed m ck text chain opens,
      )

  encrypt_next :
      (r : DoubleRatchet P) (text associated nonce ck sealed : List ℕ)
      → r.send_message_number + 1 < 2 ^ 32
      → r.sending_chain_key ≡ some ck
      → cipher_encrypt P (kdf_ck P ck).0 nonce (payload_type_of associated ∷ []) text ≡ some sealed
      → encrypt P r text associated nonce ≡ (
        ok (record {
          header = next_header P r (payload_type_of associated);
          nonce = nonce;
          ciphertext = sealed;
        }),
        after_send r ck,
      )
  unfolding encrypt
  encrypt_next r text associated nonce ck sealed room chain seals =
      let counted : (r.send_message_number + 1) % 2 ^ 32 ≡ r.send_message_number + 1 =
        omega arith in
      ground (arith, counted, chain, seals)

  next_header-key :
      (r : DoubleRatchet P) (payload_type : ℕ) (secret : List ℕ)
      → r.dh_pair ≡ some secret
      → (next_header P r payload_type).dh_public ≡ some (P.public_key secret)
  unfolding next_header
  next_header-key r payload_type secret e = rw e refl

  next_header-number :
      (r : DoubleRatchet P) (payload_type : ℕ)
      → ((next_header P r payload_type).message_number ≡ r.send_message_number)
        × ((next_header P r payload_type).payload_type ≡ payload_type)
  unfolding next_header
  next_header-number r payload_type = (refl, refl)

  pub transmit_lem :
      (s r : DoubleRatchet P) (t : Turn) (cache : CacheLaws P) (cipher : CipherLaws P)
      → (y : Synced s r) → Unmatched P cache r
      → Short t
      → s.send_message_number + 1 < 2 ^ 32
      → transmit s r t ≡ (
        ok t.text,
        (after_send s y.chain_key, after_receive r (P.public_key y.secret) y.chain_key),
      )
  unfolding transmit cipher_encrypt
  transmit_lem s r t cache cipher y u short room =
      let payload_type = payload_type_of t.associated_data in
      let message_key = (kdf_ck P y.chain_key).0 in
      let (sealed, seals, size) =
        cipher.seal-total message_key t.nonce (payload_type ∷ []) t.text short in
      let m : RatchetMessage = record {
        header = next_header P s payload_type;
        nonce = t.nonce;
        ciphertext = sealed;
      } in
      let encrypted =
        encrypt_next s t.text t.associated_data t.nonce y.chain_key sealed room y.sending seals in
      let (number, kind) = next_header-number s payload_type in
      let opens : cipher_decrypt P message_key m.nonce (m.header.payload_type ∷ []) m.ciphertext
          ≡ some t.text =
        rw kind (
          cipher_decrypt-cipher_encrypt P cipher message_key t.nonce (payload_type ∷ []) t.text
            sealed seals size) in
      let decrypted =
        decrypt_next r m t.new_dh_pair (P.public_key y.secret) y.chain_key t.text cache u
          (cipher.length-public_key y.secret) (omega arith) (omega (arith, y.numbers))
          (number ∙ y.numbers) (next_header-key s payload_type y.secret y.pair) y.known y.receiving
          opens in
      ground (arith, encrypted, decrypted)
