-- ===== src/Agreement/Laws/Session.antt =====
-- A session: the key agreement of rvpn/crates/rvpn-core/src/crypto/x3dh.rs and the ratchet of
-- crypto/ratchet.rs beside it.
use r_vpn_core.Common.{◌≡◌, ◌^◌, ◌<◌, List, map, ℕ, length, All}
use r_vpn_core.Ratchet.Primitives.{Primitives, CacheLaws}
use r_vpn_core.Ratchet.State.{init_alice, init_bob}
use r_vpn_core.Ratchet.Laws.Channel.{Turn, Short, CipherLaws}
use r_vpn_core.Ratchet.Laws.InOrder.{converse, answer, converse-in_order}
use r_vpn_core.Agreement.X3dh.{
  Ed25519, X3dhPrivateBundle, X3dhInitiator, is_some, initiator_agree, responder_agree,
  get_public_bundle,
}
use r_vpn_core.Agreement.Laws.Agree.{DhLaws, responder_agree-initiator_agree}

module _ (P : Primitives) (dh : DhLaws P) (cache : CacheLaws P) (cipher : CipherLaws P)
    (E : Ed25519) where
  -- For primitives with the laws of the exchange, the cache and the cipher: a client that agrees with
  -- a server's public bundle and starts its ratchet with the secret, and the server that starts its
  -- ratchet with the secret that it derives from the client's material, then send fewer than 2 ^ 32
  -- messages within the size limit in any alternation, each decrypted before the next is sent, and
  -- read exactly the texts that were sent, in order.
  pub session-in_order :
      (client : X3dhInitiator) (server : X3dhPrivateBundle) (client_pair server_pair : List ℕ)
      (ts : List Turn)
      → All Short ts
      → length ts < 2 ^ 32
      → let (secret, material) = initiator_agree P E client (get_public_bundle P E server) in
        let derived =
          responder_agree P server material.identity_x25519_public material.ephemeral_public
            (is_some material.one_time_prekey) in
        (converse P (init_alice P secret client_pair) (init_bob P derived server_pair) ts).0
        ≡ map (answer P) ts
  session-in_order client server client_pair server_pair ts short few =
      let (secret, material) = initiator_agree P E client (get_public_bundle P E server) in
      rw (responder_agree-initiator_agree P dh E client server)
        (converse-in_order P cache cipher secret client_pair server_pair ts short few)
