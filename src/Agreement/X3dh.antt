-- ===== src/Agreement/X3dh.antt =====
-- X3DHInitiator and X3DHResponder of rvpn/crates/rvpn-core/src/crypto/x3dh.rs. X25519 and HKDF are
-- those of Ratchet/Primitives, Ed25519 of the ed25519_dalek crate is a record. Random keys are
-- arguments. `agree` has no error path and gives its result itself.
use r_vpn_core.Common.{
  ℕ, ◌+◌, ◌*◌, ◌/◌, ◌%◌, Bool, true, false, List, [], ◌∷◌, ◌++◌, Option, none, some, ltb,
  if◌then◌else◌, get_or, set,
}
use r_vpn_core.Ratchet.Primitives.{Primitives}

-- A signing key is its seed.
pub record Ed25519 : Type 0 where
  pub verifying_key : List ℕ → List ℕ
  pub sign : (key text : List ℕ) → List ℕ

-- `ed25519_signing_key_to_x25519_private_key`: the seed, clamped.
unfoldable pub ed25519_signing_key_to_x25519_private_key : List ℕ → List ℕ
ed25519_signing_key_to_x25519_private_key seed =
    let low = get_or seed 31 0 % 128 in
    let first = set seed 0 (get_or seed 0 0 / 8 * 8) in
    set first 31 (if ltb low 64 then low + 64 else low)

pub record X3dhPublicBundle : Type 0 where
  pub identity_key : List ℕ
  pub identity_x25519_key : List ℕ
  pub signed_prekey : List ℕ
  pub prekey_signature : List ℕ
  pub one_time_prekey : Option (List ℕ)
  pub identity_key_version : ℕ
  pub rotation_signature : Option (List ℕ)

pub record X3dhPrivateBundle : Type 0 where
  pub identity_key : List ℕ
  pub identity_x25519_key : List ℕ
  pub signed_prekey : List ℕ
  pub one_time_prekey : Option (List ℕ)

-- The signing key of the identity, and the private part of the ephemeral key.
pub record X3dhInitiator : Type 0 where
  pub identity_key : List ℕ
  pub ephemeral_key : List ℕ

pub record X3dhMaterial : Type 0 where
  pub ephemeral_public : List ℕ
  pub identity_public : List ℕ
  pub identity_x25519_public : List ℕ
  pub one_time_prekey : Option (List ℕ)

abbrev pub is_some : Option (List ℕ) → Bool
is_some none = false
is_some (some x) = true

abbrev pub map_key : (List ℕ → List ℕ) → Option (List ℕ) → Option (List ℕ)
map_key f none = none
map_key f (some x) = some (f x)

module _ (P : Primitives) where
  -- The info is "R-VPN-v1 X3DH".
  unfoldable pub derive_shared_secret : List ℕ → List ℕ
  derive_shared_secret dh_results = P.hkdf [] dh_results x3dh_info 32
    where
      x3dh_info : List ℕ
      x3dh_info = 82 ∷ 45 ∷ 86 ∷ 80 ∷ 78 ∷ 45 ∷ 118 ∷ 49 ∷ 32 ∷ 88 ∷ 51 ∷ 68 ∷ 72 ∷ []

  -- The results of the exchanges one after the other; the fourth if there is one.
  abbrev pub dh_concat : (dh1 dh2 dh3 : List ℕ) → Option (List ℕ) → List ℕ
  dh_concat dh1 dh2 dh3 none = dh1 ++ (dh2 ++ dh3)
  dh_concat dh1 dh2 dh3 (some dh4) = dh1 ++ (dh2 ++ (dh3 ++ dh4))

  -- `X3DHInitiator::agree`
  unfoldable pub initiator_agree :
      Ed25519 → X3dhInitiator → X3dhPublicBundle → List ℕ × X3dhMaterial
  initiator_agree E i bundle =
      let ik_client = ed25519_signing_key_to_x25519_private_key i.identity_key in
      let dh1 = P.diffie_hellman ik_client bundle.signed_prekey in
      let dh2 = P.diffie_hellman i.ephemeral_key bundle.identity_x25519_key in
      let dh3 = P.diffie_hellman i.ephemeral_key bundle.signed_prekey in
      let dh4 = map_key (P.diffie_hellman i.ephemeral_key) bundle.one_time_prekey in
      (
        derive_shared_secret (dh_concat dh1 dh2 dh3 dh4),
        record {
          ephemeral_public = P.public_key i.ephemeral_key;
          identity_public = E.verifying_key i.identity_key;
          identity_x25519_public = P.public_key ik_client;
          one_time_prekey = bundle.one_time_prekey;
        },
      )

  -- `X3DHResponder::agree`
  unfoldable pub responder_agree :
      X3dhPrivateBundle → (client_identity_x25519 client_ephemeral : List ℕ) → Bool → List ℕ
  responder_agree r client_identity_x25519 client_ephemeral used_one_time_prekey =
      let dh1 = P.diffie_hellman r.signed_prekey client_identity_x25519 in
      let dh2 = P.diffie_hellman r.identity_x25519_key client_ephemeral in
      let dh3 = P.diffie_hellman r.signed_prekey client_ephemeral in
      let dh4 =
        if used_one_time_prekey
        then map_key (λ opk. P.diffie_hellman opk client_ephemeral) r.one_time_prekey
        else none in
      derive_shared_secret (dh_concat dh1 dh2 dh3 dh4)

  -- `from_identity_with_bundle`; `new` and `from_identity` do the same with random keys.
  unfoldable pub from_identity_with_bundle :
      (signing_key signed_prekey : List ℕ) → X3dhPrivateBundle
  from_identity_with_bundle signing_key signed_prekey = record {
    identity_key = signing_key;
    identity_x25519_key = ed25519_signing_key_to_x25519_private_key signing_key;
    signed_prekey = signed_prekey;
    one_time_prekey = none;
  }

  -- The public key, and the responder that keeps the private one.
  unfoldable pub generate_one_time_prekey : X3dhPrivateBundle → List ℕ → List ℕ × X3dhPrivateBundle
  generate_one_time_prekey r key = (P.public_key key, record r { one_time_prekey = some key })

  unfoldable pub get_public_bundle : Ed25519 → X3dhPrivateBundle → X3dhPublicBundle
  get_public_bundle E r =
      let signed_prekey_public = P.public_key r.signed_prekey in
      record {
        identity_key = E.verifying_key r.identity_key;
        identity_x25519_key = P.public_key r.identity_x25519_key;
        signed_prekey = signed_prekey_public;
        prekey_signature = E.sign r.identity_key signed_prekey_public;
        one_time_prekey = map_key P.public_key r.one_time_prekey;
        identity_key_version = 1;
        rotation_signature = none;
      }
