-- ===== src/Ratchet/Laws/Skipped.antt =====
-- The message keys that `skip_message_keys` stores are stored under the remote key's bytes, and looked
-- up under the whole header's (rvpn/crates/rvpn-core/src/crypto/ratchet.rs).
use r_vpn_core.Common.{
  ℕ, ◌-◌, ◌≤◌, ◌<◌, ◌≡◌, inl, inr, refl, sym, ◌∙◌, List, none, arith, length, ltb, lt→ltb, le→ltb,
  ok, err, zero, suc, Option-cases, Bool-cases, Result-cases,
}
use r_vpn_core.Codec.Messages.{MessageHeader, RatchetMessage}
use r_vpn_core.Codec.Laws.Wire.{FitsDhPublic}
use r_vpn_core.Ratchet.Primitives.{Primitives, CacheLaws, kdf_ck}
use r_vpn_core.Ratchet.State.{
  DoubleRatchet, init_alice, init_bob, encrypt, dh_ratchet_step, header_bytes,
  ratchet_for_next_message, max_message_size, message_too_old,
}
use r_vpn_core.Ratchet.Receive.{
  skip_one, skip_loop, skip_message_keys, follow_remote, decrypt_current, skip_ahead, decrypt,
}
use r_vpn_core.Ratchet.Laws.Steps.{
  lookup≢stored, skip_message_keys_cases, dh_ratchet_step-keeps, follow_remote_cases,
  decrypt_current-keeps, encrypt-keeps,
}

module _ (P : Primitives) (laws : CacheLaws P) where
  -- The remote key is a key, and no header finds a stored message key.
  pub record Unmatched (r : DoubleRatchet P) : Type 0 where
    pub remote : FitsDhPublic r.remote_dh_key
    pub missing :
        (h : MessageHeader) (n : ℕ)
        → FitsDhPublic h.dh_public
        → P.pop r.skipped_keys (header_bytes h, n) ≡ none

  skip_loop-Unmatched :
      (n : ℕ) (r : DoubleRatchet P) (ck : List ℕ) → Unmatched r → Unmatched (skip_loop P n r ck)
  unfolding skip_loop skip_one
  skip_loop-Unmatched zero r ck u = record { remote = u.remote; missing = u.missing }
  skip_loop-Unmatched (suc n) r ck u =
      skip_loop-Unmatched n (skip_one P r ck) (kdf_ck P ck).1 (record {
        remote = u.remote;
        missing = λ h k fits.
            laws.pop-put r.skipped_keys (header_bytes h, k) _ _
              (lookup≢stored h r.remote_dh_key k r.recv_message_number fits u.remote)
              (u.missing h k fits);
      })

  skip_message_keys-Unmatched :
      (r after : DoubleRatchet P) (until : ℕ)
      → Unmatched r
      → skip_message_keys P r until ≡ ok after
      → Unmatched after
  skip_message_keys-Unmatched r after until u e = elim (skip_message_keys_cases P r until) [
    | inl (ck, _, _, f) ↦
        let same : skip_loop P (until - r.recv_message_number) r ck ≡ after = cc (sym f ∙ e) in
        rw (← same) (skip_loop-Unmatched (until - r.recv_message_number) r ck u)
    | inr (x, f) ↦ absurd (cc (f, e))
  ]

  dh_ratchet_step-Unmatched :
      (r after : DoubleRatchet P) (dh new : List ℕ)
      → length dh ≡ 32
      → Unmatched r
      → dh_ratchet_step P r dh new ≡ ok after
      → Unmatched after
  dh_ratchet_step-Unmatched r after dh new l u e =
      let (same, kept) = dh_ratchet_step-keeps P r after dh new e in
      record { remote = rw same l; missing = λ h k fits. rw kept (u.missing h k fits) }

  follow_remote-Unmatched :
      (r after : DoubleRatchet P) (h : MessageHeader) (new : List ℕ)
      → FitsDhPublic h.dh_public
      → Unmatched r
      → follow_remote P r h new ≡ ok after
      → Unmatched after
  follow_remote-Unmatched r after h new fits u e = elim (follow_remote_cases P r after h new e) [
    | inl same ↦ rw same u
    | inr (dh, a, inl same) ↦ rw same (record { remote = rw a at fits; missing = u.missing })
    | inr (dh, a, inr (skipped, b, c)) ↦
        dh_ratchet_step-Unmatched skipped after dh new (rw a at fits)
          (skip_message_keys-Unmatched r skipped h.previous_chain_length u b) c
  ]

  decrypt_current-Unmatched :
      (r : DoubleRatchet P) (m : RatchetMessage) → Unmatched r → Unmatched (decrypt_current P r m).1
  decrypt_current-Unmatched r m u =
      let (same, kept) = decrypt_current-keeps P r m in
      record { remote = rw same u.remote; missing = λ h k fits. rw kept (u.missing h k fits) }

  skip_ahead-Unmatched :
      (r : DoubleRatchet P) (n : ℕ) (m : RatchetMessage)
      → Unmatched r
      → Unmatched (skip_ahead P r n m).1
  unfolding skip_ahead
  skip_ahead-Unmatched r n m u = elim (Bool-cases (ltb n m.header.message_number)) [
    | inr c ↦ rw c (decrypt_current-Unmatched r m u)
    | inl c ↦ elim (Result-cases (skip_message_keys P r m.header.message_number)) [
      | inl (skipped, d) ↦
          rw (c, d)
            (decrypt_current-Unmatched skipped m
              (skip_message_keys-Unmatched r skipped m.header.message_number u d))
      | inr (x, d) ↦ rw (c, d) u
    ]
  ]

  pub decrypt-Unmatched :
      (r : DoubleRatchet P) (m : RatchetMessage) (new : List ℕ)
      → FitsDhPublic m.header.dh_public
      → Unmatched r
      → Unmatched (decrypt P r m new).1
  unfolding decrypt
  decrypt-Unmatched r m new fits u =
      let missing = u.missing m.header m.header.message_number fits in
      elim (Bool-cases (ltb max_message_size (length m.ciphertext))) [
        | inl a ↦ rw a u
        | inr a ↦ elim (Bool-cases (ltb m.header.message_number r.recv_message_number)) [
          | inl b ↦ rw (a, missing, b) u
          | inr b ↦ elim (Result-cases (follow_remote P r m.header new)) [
            | inl (followed, c) ↦
                rw (a, missing, b, c)
                  (skip_ahead-Unmatched followed r.recv_message_number m
                    (follow_remote-Unmatched r followed m.header new fits u c))
            | inr (x, c) ↦ rw (a, missing, b, c) u
          ]
        ]
      ]

  -- What a ratchet goes through: a peer's key always has 32 bytes, as its type says.
  pub data Run : DoubleRatchet P → Type 0 where
    as_alice : (shared_secret dh_pair : List ℕ) → Run (init_alice P shared_secret dh_pair)
    as_bob : (shared_secret dh_pair : List ℕ) → Run (init_bob P shared_secret dh_pair)
    sent :
        {r : DoubleRatchet P} (plaintext associated_data nonce : List ℕ)
        → Run r
        → Run (encrypt P r plaintext associated_data nonce).1
    received :
        {r : DoubleRatchet P} (m : RatchetMessage) (new : List ℕ)
        → FitsDhPublic m.header.dh_public
        → Run r
        → Run (decrypt P r m new).1
    ratcheted :
        {r after : DoubleRatchet P} (new : List ℕ)
        → ratchet_for_next_message P r new ≡ ok after
        → Run r
        → Run after

  encrypt-Unmatched :
      (r : DoubleRatchet P) (text associated nonce : List ℕ)
      → Unmatched r
      → Unmatched (encrypt P r text associated nonce).1
  encrypt-Unmatched r text associated nonce u =
      let (same, kept) = encrypt-keeps P r text associated nonce in
      record { remote = rw same u.remote; missing = λ h k fits. rw kept (u.missing h k fits) }

  ratchet_for_next_message-Unmatched :
      (r after : DoubleRatchet P) (new : List ℕ)
      → Unmatched r
      → ratchet_for_next_message P r new ≡ ok after
      → Unmatched after
  unfolding ratchet_for_next_message
  ratchet_for_next_message-Unmatched r after new u e = elim (Option-cases r.remote_dh_key) [
    | inl a ↦ let same : r ≡ after = ground (arith, a, e) in rw (← same) u
    | inr (dh, a) ↦
        dh_ratchet_step-Unmatched r after dh new (rw a at u.remote) u (ground (arith, a, e))
  ]

  pub Run-Unmatched : {r : DoubleRatchet P} → Run r → Unmatched r
  unfolding init_alice init_bob
  Run-Unmatched (as_alice secret pair) = record { remote = tt; missing = λ h n _. laws.pop-empty _ }
  Run-Unmatched (as_bob secret pair) = record { remote = tt; missing = λ h n _. laws.pop-empty _ }
  Run-Unmatched (sent text associated nonce run) =
      encrypt-Unmatched _ text associated nonce (Run-Unmatched run)
  Run-Unmatched (received m new fits run) = decrypt-Unmatched _ m new fits (Run-Unmatched run)
  Run-Unmatched (ratcheted new e run) =
      ratchet_for_next_message-Unmatched _ _ new (Run-Unmatched run) e

  -- On every ratchet that ran from its initialisation, for a cache in which putting a value under one
  -- key puts none under another, a message of legal size whose number is below the next expected one
  -- is refused as too old and changes nothing.
  pub decrypt-late :
      (r : DoubleRatchet P) (m : RatchetMessage) (new : List ℕ)
      → Run r
      → FitsDhPublic m.header.dh_public
      → length m.ciphertext ≤ max_message_size
      → m.header.message_number < r.recv_message_number
      → decrypt P r m new ≡ (err message_too_old, r)
  unfolding decrypt
  decrypt-late r m new run fits small late =
      let missing = (Run-Unmatched run).missing m.header m.header.message_number fits in
      rw (le→ltb _ _ small, missing, lt→ltb _ _ late) refl
