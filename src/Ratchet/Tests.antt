-- ===== src/Ratchet/Tests.antt =====
-- The ratchet on concrete input (rvpn/crates/rvpn-core/src/crypto/ratchet.rs).
use r_vpn_core.Common.{
  ℕ, ◌≡◌, refl, true, false, List, [], ◌∷◌, none, some, arith, replicate, ok, err,
}
use r_vpn_core.Codec.Messages.{RatchetMessage}
use r_vpn_core.Ratchet.Primitives.{cipher_decrypt, kdf_ck, kdf_init}
use r_vpn_core.Ratchet.State.{
  DoubleRatchet, init_alice, init_bob, message_too_old, decryption_failed, dh_bytes, header_bytes,
}
use r_vpn_core.Ratchet.Receive.{same_key, decrypt, follow_remote, skip_ahead, decrypt_current}
use r_vpn_core.Ratchet.Laws.Skipped.{Run, as_bob, received, decrypt-late}
use r_vpn_core.Ratchet.Laws.Channel.{Turn}
use r_vpn_core.Ratchet.Laws.InOrder.{
  answer, converse, Unratcheted, converse-in_order, converse-Unratcheted,
}
use r_vpn_core.Ratchet.Laws.Forged.{decrypt-replayed, decrypt-forged}
use r_vpn_core.Ratchet.Toy.{
  toy, toy-CacheLaws, toy-CipherLaws, message, alice_key, first, second, bob, a_secret,
}

-- The second message with a tag that does not fit.
abbrev spoiled : RatchetMessage
spoiled = message 1 (some alice_key) (9 ∷ replicate 16 1)

-- Anybody can make this one: a number ahead, no key, and nothing that opens.
abbrev forged : RatchetMessage
forged = message 5 none (replicate 16 1)

abbrev after_first : DoubleRatchet toy
after_first = (decrypt toy bob first []).1

abbrev after_second : DoubleRatchet toy
after_second = (decrypt toy after_first second []).1

-- The receiving chain's key after the first message.
abbrev next_chain : List ℕ
next_chain = (kdf_ck toy (kdf_init toy (1 ∷ 2 ∷ 3 ∷ [])).0).1

bob-Run : Run toy toy-CacheLaws bob
bob-Run = as_bob (1 ∷ 2 ∷ 3 ∷ []) (4 ∷ 4 ∷ [])

after_first-Run : Run toy toy-CacheLaws after_first
after_first-Run = received first [] refl bob-Run

after_second-Run : Run toy toy-CacheLaws after_second
after_second-Run = received second [] refl after_first-Run

-- Unfolded where a test runs the ratchet.
decrypt_first : decrypt toy bob first [] ≡ (ok (7 ∷ 8 ∷ []), after_first)
unfolding decrypt init_bob kdf_init kdf_ck cipher_decrypt same_key header_bytes dh_bytes
    follow_remote skip_ahead decrypt_current
decrypt_first = refl

decrypt_second : decrypt toy after_first second [] ≡ (ok (9 ∷ []), after_second)
unfolding decrypt_first
decrypt_second = refl

decrypt-replayed_example : decrypt toy after_first first [] ≡ (err message_too_old, after_first)
decrypt-replayed_example =
    decrypt-replayed toy toy-CacheLaws bob after_first first [] [] (7 ∷ 8 ∷ []) bob-Run refl
      (omega arith) decrypt_first

decrypt-late_example : decrypt toy after_second first [] ≡ (err message_too_old, after_second)
unfolding decrypt_second
decrypt-late_example =
    decrypt-late toy toy-CacheLaws after_second first [] after_second-Run refl (omega arith)
      (omega arith)

decrypt-forged_example :
    let (answer, after) = decrypt toy after_first forged [] in
    (answer ≡ err decryption_failed)
    × (after.recv_message_number ≡ 5)
    × ((decrypt toy after second []).0 ≡ err message_too_old)
unfolding decrypt_first
decrypt-forged_example =
    decrypt-forged toy toy-CacheLaws after_first forged second [] [] next_chain after_first-Run
      (omega arith) refl (omega arith) (omega arith) (omega arith) refl (λ key. refl) refl
      (omega arith) (omega arith)

abbrev turns : List Turn
turns =
    record {
      by_alice = true;
      text = 7 ∷ 8 ∷ [];
      associated_data = 4 ∷ [];
      nonce = replicate 12 1;
      new_dh_pair = [];
    }
    ∷ record {
      by_alice = false;
      text = 9 ∷ [];
      associated_data = [];
      nonce = replicate 12 2;
      new_dh_pair = [];
    }
    ∷ []

converse-in_order_example :
    (converse toy (init_alice toy a_secret (4 ∷ [])) (init_bob toy a_secret (5 ∷ [])) turns).0
    ≡ ok (7 ∷ 8 ∷ []) ∷ ok (9 ∷ []) ∷ []
converse-in_order_example =
    converse-in_order toy toy-CacheLaws toy-CipherLaws a_secret (4 ∷ []) (5 ∷ []) turns
      (omega arith, (omega arith, tt)) (omega arith)

converse-Unratcheted_example :
    let alice = init_alice toy a_secret (4 ∷ []) in
    let bob = init_bob toy a_secret (5 ∷ []) in
    let (alice', bob') = (converse toy alice bob turns).1 in
    Unratcheted toy alice alice' × Unratcheted toy bob bob'
converse-Unratcheted_example =
    converse-Unratcheted toy toy-CacheLaws toy-CipherLaws a_secret (4 ∷ []) (5 ∷ []) turns
      (omega arith, (omega arith, tt)) (omega arith)
