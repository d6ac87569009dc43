-- ===== src/Agreement/Tests.antt =====
-- The key agreement and a session on concrete keys (rvpn/crates/rvpn-core/src/crypto/x3dh.rs).
use r_vpn_core.Common.{◌≡◌, refl, true, List, [], ◌∷◌, ◌++◌, arith, ok, replicate}
use r_vpn_core.Ratchet.State.{init_alice, init_bob}
use r_vpn_core.Ratchet.Laws.Channel.{Turn}
use r_vpn_core.Ratchet.Laws.InOrder.{converse}
use r_vpn_core.Ratchet.Toy.{toy, toy-CacheLaws, toy-CipherLaws, to_public, add_comm}
use r_vpn_core.Agreement.X3dh.{
  Ed25519, X3dhPrivateBundle, X3dhInitiator, is_some, from_identity_with_bundle,
  generate_one_time_prekey, get_public_bundle, initiator_agree, responder_agree,
  ed25519_signing_key_to_x25519_private_key,
}
use r_vpn_core.Agreement.Laws.Agree.{DhLaws}
use r_vpn_core.Agreement.Laws.Session.{session-in_order}

toy-DhLaws : DhLaws toy
toy-DhLaws = record { commutes = λ a b. add_comm (to_public a) (to_public b) }

abbrev toy_signatures : Ed25519
toy_signatures = record { verifying_key = λ key. 0 ∷ key; sign = λ key text. key ++ text }

abbrev client : X3dhInitiator
client = record { identity_key = replicate 32 201; ephemeral_key = replicate 32 11 }

-- With a one-time prekey.
abbrev server : X3dhPrivateBundle
server =
    (generate_one_time_prekey toy
      (from_identity_with_bundle toy (replicate 32 17) (replicate 32 13)) (replicate 32 19)).1

clamped :
    ed25519_signing_key_to_x25519_private_key (replicate 32 201)
    ≡ 200 ∷ replicate 30 201 ++ (73 ∷ [])
unfolding ed25519_signing_key_to_x25519_private_key
clamped = refl

abbrev turns : List Turn
turns =
    record {
      by_alice = true;
      text = 7 ∷ 8 ∷ [];
      associated_data = 4 ∷ [];
      nonce = replicate 12 1;
      new_dh_pair = [];
    }
    ∷ []

session-in_order_example :
    let (secret, material) =
      initiator_agree toy toy_signatures client (get_public_bundle toy toy_signatures server) in
    let derived =
      responder_agree toy server material.identity_x25519_public material.ephemeral_public
        (is_some material.one_time_prekey) in
    (converse toy (init_alice toy secret (4 ∷ [])) (init_bob toy derived (5 ∷ [])) turns).0
    ≡ ok (7 ∷ 8 ∷ []) ∷ []
session-in_order_example =
    session-in_order toy toy-DhLaws toy-CacheLaws toy-CipherLaws toy_signatures client server
      (4 ∷ []) (5 ∷ []) turns (omega arith, tt) (omega arith)
