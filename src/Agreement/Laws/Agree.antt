-- ===== src/Agreement/Laws/Agree.antt =====
-- Both sides of the key agreement (rvpn/crates/rvpn-core/src/crypto/x3dh.rs) get one secret.
use r_vpn_core.Common.{◌≡◌, refl, inl, inr, List, ℕ, Option-cases}
use r_vpn_core.Ratchet.Primitives.{Primitives}
use r_vpn_core.Agreement.X3dh.{
  Ed25519, X3dhPrivateBundle, X3dhInitiator, is_some, ed25519_signing_key_to_x25519_private_key,
  initiator_agree, responder_agree, get_public_bundle,
}

-- What the code relies on: two private keys and the other's public key give one secret.
pub record DhLaws (P : Primitives) : Type 0 where
  pub commutes :
      (a b : List ℕ) → P.diffie_hellman a (P.public_key b) ≡ P.diffie_hellman b (P.public_key a)

module _ (P : Primitives) (laws : DhLaws P) (E : Ed25519) where
  -- For a Diffie-Hellman exchange that gives both sides one secret: whatever the keys are, and with a
  -- one-time prekey or without, the responder that is given the initiator's two public keys and told
  -- whether a one-time prekey was used derives the secret that the initiator derived from the
  -- responder's public bundle.
  pub responder_agree-initiator_agree :
      (i : X3dhInitiator) (r : X3dhPrivateBundle)
      → let (secret, material) = initiator_agree P E i (get_public_bundle P E r) in
        responder_agree P r material.identity_x25519_public material.ephemeral_public
          (is_some material.one_time_prekey)
        ≡ secret
  unfolding initiator_agree responder_agree get_public_bundle
  responder_agree-initiator_agree i r =
      let client = ed25519_signing_key_to_x25519_private_key i.identity_key in
      let dh1 = laws.commutes client r.signed_prekey in
      let dh2 = laws.commutes i.ephemeral_key r.identity_x25519_key in
      let dh3 = laws.commutes i.ephemeral_key r.signed_prekey in
      elim (Option-cases r.one_time_prekey) [
        | inl e ↦ rw (e, dh1, dh2, dh3) refl
        | inr (opk, e) ↦ rw (e, dh1, dh2, dh3, laws.commutes i.ephemeral_key opk) refl
      ]
