-- ===== src/Ratchet/SplitTests.antt =====
-- The borrowed message, decrypting in place and `SplitRatchet` on concrete input
-- (rvpn/crates/rvpn-core/src/crypto/ratchet.rs).
use r_vpn_core.Common.{
  ℕ, ◌≡◌, ◌≢◌, inr, refl, List, [], ◌∷◌, ◌++◌, some, arith, replicate, take, ok,
}
use r_vpn_core.Codec.Messages.{RatchetMessage}
use r_vpn_core.Ratchet.State.{DoubleRatchet, init_alice, encrypt, next_header, payload_type_of}
use r_vpn_core.Ratchet.Primitives.{cipher_encrypt, kdf_ck, kdf_init}
use r_vpn_core.Ratchet.Receive.{decrypt}
use r_vpn_core.Ratchet.InPlace.{decrypt_to_ref}
use r_vpn_core.Ratchet.Split.{from_double_ratchet, split_decrypt}
use r_vpn_core.Ratchet.Locks.{
  Action, encrypt_locks, decrypt_new_key_locks, Tasks, set_todo, start_tasks, Turns,
}
use r_vpn_core.Ratchet.Laws.InPlace.{decrypt_to_ref-decrypt}
use r_vpn_core.Ratchet.Laws.Borrowed.{layout_prefix}
use r_vpn_core.Ratchet.Laws.Split.{split_decrypt-decrypt}
use r_vpn_core.Ratchet.Laws.Locks.{deadlock}
use r_vpn_core.Ratchet.Toy.{
  toy, toy-InPlaceLaws, tag, message, alice_key, first, second, bob, a_secret,
}

decrypt_to_ref-decrypt_example : decrypt_to_ref toy bob first [] ≡ decrypt toy bob first []
decrypt_to_ref-decrypt_example = decrypt_to_ref-decrypt toy toy-InPlaceLaws bob first []

abbrev serialize : RatchetMessage → List ℕ
serialize m = layout_prefix m ++ m.ciphertext

abbrev alice : DoubleRatchet toy
alice = init_alice toy a_secret (4 ∷ [])

abbrev sent : RatchetMessage
sent = message 0 (some (take 32 (4 ∷ replicate 32 0))) (7 ∷ 8 ∷ tag)

abbrev after_sent : DoubleRatchet toy
after_sent = (encrypt toy alice (7 ∷ 8 ∷ []) (4 ∷ []) (replicate 12 1)).1

alice_sends : encrypt toy alice (7 ∷ 8 ∷ []) (4 ∷ []) (replicate 12 1) ≡ (ok sent, after_sent)
unfolding encrypt init_alice next_header payload_type_of cipher_encrypt kdf_ck kdf_init
alice_sends = refl

-- Bob when the peer's key is known and one message has been received.
abbrev bob_later : DoubleRatchet toy
bob_later = record bob { remote_dh_key = some alice_key; recv_message_number = 1 }

split_decrypt-decrypt_example :
    let (answer, after) = decrypt toy bob_later second [] in
    split_decrypt toy (from_double_ratchet toy bob_later) second (4 ∷ []) []
    ≡ (answer, from_double_ratchet toy after)
split_decrypt-decrypt_example =
    split_decrypt-decrypt toy bob_later second [] (omega arith) (inr (alice_key, refl, refl))

abbrev two_tasks : ℕ → List Action
two_tasks = set_todo (set_todo (λ i. []) 0 encrypt_locks) 1 decrypt_new_key_locks

deadlock_example :
    (s : Tasks) × Turns (start_tasks two_tasks) s
    × (s.todo 0 ≢ [])
    × (s.todo 1 ≢ [])
    × ((t : Tasks) → Turns s t → (t.todo 0 ≡ s.todo 0) × (t.todo 1 ≡ s.todo 1))
deadlock_example = deadlock two_tasks 0 1 (λ e. omega arith) refl refl
