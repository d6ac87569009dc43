-- ===== src/Ratchet/Laws/Forged.antt =====
-- Messages that come twice, that were tampered with, or that somebody else made
-- (rvpn/crates/rvpn-core/src/crypto/ratchet.rs).
use r_vpn_core.Common.{
  ℕ, ◌+◌, ◌-◌, ◌%◌, ◌^◌, ◌≤◌, ◌<◌, ◌≡◌, ◌⊎◌, inl, inr, refl, ap, ◌∙◌, false, List, [], ◌∷◌, none,
  some, arith, length, ltb, ltb→le, lt→ltb, le→ltb, ok, err, zero, suc, Bool-cases, Result-cases,
}
use r_vpn_core.Codec.Messages.{RatchetMessage}
use r_vpn_core.Codec.Laws.Wire.{FitsDhPublic}
use r_vpn_core.Ratchet.Primitives.{Primitives, CacheLaws, kdf_ck, cipher_decrypt}
use r_vpn_core.Ratchet.State.{
  DoubleRatchet, max_message_size, max_skip, message_too_old, decryption_failed,
}
use r_vpn_core.Ratchet.Receive.{
  skip_one, skip_loop, skip_message_keys, follow_remote, decrypt_current, skip_ahead, decrypt,
}
use r_vpn_core.Ratchet.Laws.Skipped.{Run, received, Run-Unmatched, Unmatched, decrypt-late}
use r_vpn_core.Ratchet.Laws.Channel.{same_key_refl}

module _ (P : Primitives) where
  decrypt_current-number :
      (r after : DoubleRatchet P) (m : RatchetMessage) (text : List ℕ)
      → decrypt_current P r m ≡ (ok text, after)
      → after.recv_message_number ≡ (m.header.message_number + 1) % 2 ^ 32
  unfolding decrypt_current
  decrypt_current-number r after m text e = ground (arith, e)

  skip_ahead-number :
      (r after : DoubleRatchet P) (n : ℕ) (m : RatchetMessage) (text : List ℕ)
      → skip_ahead P r n m ≡ (ok text, after)
      → after.recv_message_number ≡ (m.header.message_number + 1) % 2 ^ 32
  unfolding skip_ahead
  skip_ahead-number r after n m text e = elim (Bool-cases (ltb n m.header.message_number)) [
    | inr c ↦ decrypt_current-number r after m text (rw c at e)
    | inl c ↦ elim (Result-cases (skip_message_keys P r m.header.message_number)) [
      | inl (skipped, d) ↦ decrypt_current-number skipped after m text (rw (c, d) at e)
      | inr (x, d) ↦ absurd (ground (arith, c, d, e))
    ]
  ]

  decrypt-number :
      (laws : CacheLaws P) (r after : DoubleRatchet P) (m : RatchetMessage) (new text : List ℕ)
      → Unmatched P laws r
      → FitsDhPublic m.header.dh_public
      → decrypt P r m new ≡ (ok text, after)
      → (after.recv_message_number ≡ (m.header.message_number + 1) % 2 ^ 32)
        × (length m.ciphertext ≤ max_message_size)
  unfolding decrypt
  decrypt-number laws r after m new text u fits e =
      let missing = u.missing m.header m.header.message_number fits in
      elim (Bool-cases (ltb max_message_size (length m.ciphertext))) [
        | inl a ↦ absurd (ground (arith, a, e))
        | inr a ↦ elim (Bool-cases (ltb m.header.message_number r.recv_message_number)) [
          | inl b ↦ absurd (ground (arith, a, missing, b, e))
          | inr b ↦ elim (Result-cases (follow_remote P r m.header new)) [
            | inl (followed, c) ↦ (
              skip_ahead-number followed after r.recv_message_number m text
                  (ground (arith, a, missing, b, c, e)),
              ltb→le _ _ a,
            )
            | inr (x, c) ↦ absurd (ground (arith, a, missing, b, c, e))
          ]
        ]
      ]

  -- The loop counts its rounds and touches nothing else that decrypting looks at.
  skip_loop-number :
      (n : ℕ) (r : DoubleRatchet P) (ck : List ℕ)
      → ((skip_loop P n r ck).recv_message_number ≡ r.recv_message_number + n)
        × ((last : List ℕ) × ((skip_loop P n r ck).receiving_chain_key ≡ some last))
  unfolding skip_loop skip_one
  skip_loop-number zero r ck = (omega arith, (ck, refl))
  skip_loop-number (suc n) r ck =
      let (counted, last) = skip_loop-number n (skip_one P r ck) (kdf_ck P ck).1 in
      (omega (arith, counted), last)

  decrypt_current-refused :
      (r : DoubleRatchet P) (m : RatchetMessage) (ck : List ℕ)
      → r.receiving_chain_key ≡ some ck
      → ((key : List ℕ)
          → cipher_decrypt P key m.nonce (m.header.payload_type ∷ []) m.ciphertext ≡ none)
      → decrypt_current P r m ≡ (err decryption_failed, r)
  unfolding decrypt_current
  decrypt_current-refused r m ck a b = ground (arith, a, b (kdf_ck P ck).0)

  -- A message that is not refused at once and does not come with a new key goes to the next stage.
  decrypt_same_remote :
      (laws : CacheLaws P) (r : DoubleRatchet P) (m : RatchetMessage) (new : List ℕ)
      → Unmatched P laws r
      → length m.ciphertext ≤ max_message_size
      → r.recv_message_number ≤ m.header.message_number
      → (m.header.dh_public ≡ none)
        ⊎ ((dh : List ℕ) × (m.header.dh_public ≡ some dh) × (r.remote_dh_key ≡ some dh))
      → decrypt P r m new ≡ skip_ahead P r r.recv_message_number m
  unfolding decrypt follow_remote
  decrypt_same_remote laws r m new u small late (inl a) =
      let missing = u.missing m.header m.header.message_number (rw a tt) in
      ground (arith, le→ltb _ _ small, missing, le→ltb _ _ late, a)
  decrypt_same_remote laws r m new u small late (inr (dh, a, b)) =
      let missing = u.missing m.header m.header.message_number (rw a (rw b at u.remote)) in
      ground (arith, le→ltb _ _ small, missing, le→ltb _ _ late, a, b, same_key_refl dh)

  -- A message that a ratchet decrypted is refused as too old, with no change, when it comes again, unless
  -- its number is the last of 32 bits.
  pub decrypt-replayed :
      (laws : CacheLaws P) (r after : DoubleRatchet P) (m : RatchetMessage) (new new' text : List ℕ)
      → Run P laws r
      → FitsDhPublic m.header.dh_public
      → m.header.message_number + 1 < 2 ^ 32
      → decrypt P r m new ≡ (ok text, after)
      → decrypt P after m new' ≡ (err message_too_old, after)
  decrypt-replayed laws r after m new new' text run fits room e =
      let (number, small) =
        decrypt-number laws r after m new text (Run-Unmatched P laws run) fits e in
      let run' : Run P laws after = rw (← ap (λ p. p.1) e) (received m new fits run) in
      decrypt-late P laws after m new' run' fits small (omega (arith, number))

  -- A message with the expected number and a key that is not new, whose ciphertext no key opens, is
  -- refused, and the ratchet is left exactly as it was.
  pub decrypt-tampered :
      (laws : CacheLaws P) (r : DoubleRatchet P) (m : RatchetMessage) (new ck : List ℕ)
      → Run P laws r
      → length m.ciphertext ≤ max_message_size
      → m.header.message_number ≡ r.recv_message_number
      → (m.header.dh_public ≡ none)
        ⊎ ((dh : List ℕ) × (m.header.dh_public ≡ some dh) × (r.remote_dh_key ≡ some dh))
      → r.receiving_chain_key ≡ some ck
      → ((key : List ℕ)
          → cipher_decrypt P key m.nonce (m.header.payload_type ∷ []) m.ciphertext ≡ none)
      → decrypt P r m new ≡ (err decryption_failed, r)
  unfolding skip_ahead
  decrypt-tampered laws r m new ck run small number remote chain refused =
      let stage =
        decrypt_same_remote laws r m new (Run-Unmatched P laws run) small (omega (arith, number))
          remote in
      let here : ltb r.recv_message_number m.header.message_number ≡ false =
        le→ltb _ _ (omega arith) in
      ground (arith, stage, here, decrypt_current-refused r m ck chain refused)

  -- Skipping ahead to a message that does not open moves the chain all the same.
  skip_ahead-forged :
      (r : DoubleRatchet P) (m : RatchetMessage) (ck : List ℕ)
      → r.recv_message_number < m.header.message_number
      → m.header.message_number ≤ r.recv_message_number + max_skip
      → r.recv_message_number + max_skip < 2 ^ 32
      → r.receiving_chain_key ≡ some ck
      → ((key : List ℕ)
          → cipher_decrypt P key m.nonce (m.header.payload_type ∷ []) m.ciphertext ≡ none)
      → let (answer, after) = skip_ahead P r r.recv_message_number m in
        (answer ≡ err decryption_failed) × (after.recv_message_number ≡ m.header.message_number)
  unfolding skip_ahead skip_message_keys
  skip_ahead-forged r m ck ahead near room chain refused =
      let n = m.header.message_number - r.recv_message_number in
      let skipped = skip_loop P n r ck in
      let (counted, (last, chain')) = skip_loop-number n r ck in
      let wide : ltb ((r.recv_message_number + max_skip) % 2 ^ 32) m.header.message_number ≡ false =
        le→ltb _ _ (omega arith) in
      ground (
        arith,
        wide,
        lt→ltb _ _ ahead,
        chain,
        counted,
        decrypt_current-refused skipped m last chain' refused,
      )

  -- For a cache that starts empty and in which putting a value under one key puts none under another,
  -- and a ratchet that ran from its initialisation, has a receiving chain, and expects a number that
  -- stays below 2 ^ 32 when 1000 is added: a message of legal size without a key, with a number ahead of the expected one by
  -- at most 1000 and a ciphertext that no key opens, is refused, but the ratchet has moved to its
  -- number all the same, and every message of legal size with a smaller number, whose key, if it has
  -- one, has 32 bytes, is then refused as too old.
  pub decrypt-forged :
      (laws : CacheLaws P) (r : DoubleRatchet P) (forged genuine : RatchetMessage)
      (new new' ck : List ℕ)
      → Run P laws r
      → length forged.ciphertext ≤ max_message_size
      → forged.header.dh_public ≡ none
      → r.recv_message_number < forged.header.message_number
      → forged.header.message_number ≤ r.recv_message_number + max_skip
      → r.recv_message_number + max_skip < 2 ^ 32
      → r.receiving_chain_key ≡ some ck
      → ((key : List ℕ)
          → cipher_decrypt P key forged.nonce (forged.header.payload_type ∷ []) forged.ciphertext
            ≡ none)
      → FitsDhPublic genuine.header.dh_public
      → length genuine.ciphertext ≤ max_message_size
      → genuine.header.message_number < forged.header.message_number
      → let (answer, after) = decrypt P r forged new in
        (answer ≡ err decryption_failed)
        × (after.recv_message_number ≡ forged.header.message_number)
        × ((decrypt P after genuine new').0 ≡ err message_too_old)
  decrypt-forged laws r forged genuine new new' ck run small bare ahead near room chain refused fits
        genuine_small older =
      let stage =
        decrypt_same_remote laws r forged new (Run-Unmatched P laws run) small (omega arith)
          (inl bare) in
      let (failed, number) = skip_ahead-forged r forged ck ahead near room chain refused in
      let after = (decrypt P r forged new).1 in
      let number' : after.recv_message_number ≡ forged.header.message_number =
        ap (λ p. p.1.recv_message_number) stage ∙ number in
      let late =
        decrypt-late P laws after genuine new' (received forged new (rw bare tt) run) fits
          genuine_small (omega (arith, number')) in
      (ap (λ p. p.0) stage ∙ failed, number', ap (λ p. p.0) late)
