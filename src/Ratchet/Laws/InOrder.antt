-- ===== src/Ratchet/Laws/InOrder.antt =====
-- A conversation in which every message arrives, in the order in which its sender sent it
-- (rvpn/crates/rvpn-core/src/crypto/ratchet.rs).
use r_vpn_core.Common.{
  ℕ, ◌+◌, ◌^◌, ◌<◌, ◌≡◌, inl, inr, refl, ap, ◌∙◌, true, false, List, [], ◌∷◌, arith, length, map,
  All, Result, ok, Bool-cases,
}
use r_vpn_core.Ratchet.Primitives.{Primitives, CacheLaws, kdf_ck, kdf_init}
use r_vpn_core.Ratchet.State.{DoubleRatchet, RatchetError, init_alice, init_bob}
use r_vpn_core.Ratchet.Laws.Skipped.{as_alice, as_bob, Run-Unmatched, Unmatched}
use r_vpn_core.Ratchet.Laws.Channel.{
  Turn, CipherLaws, Short, transmit, after_send, after_receive, Synced, transmit_lem,
}

module _ (P : Primitives) where
  -- The answers, and Alice's and Bob's states at the end.
  unfoldable pub converse :
      DoubleRatchet P
      → DoubleRatchet P
      → List Turn
      → List (Result RatchetError (List ℕ)) × (DoubleRatchet P × DoubleRatchet P)
  converse alice bob [] = ([], (alice, bob))
  converse alice bob (t ∷ ts) = elim t.by_alice [
    | true ↦
        let (answer, (alice', bob')) = transmit P alice bob t in
        let (answers, ends) = converse alice' bob' ts in (answer ∷ answers, ends)
    | false ↦
        let (answer, (bob', alice')) = transmit P bob alice t in
        let (answers, ends) = converse alice' bob' ts in (answer ∷ answers, ends)
  ]

  -- Both directions are in step, and no header finds a stored key.
  pub record Paired (cache : CacheLaws P) (a b : DoubleRatchet P) : Type 0 where
    pub forward : Synced P a b
    pub backward : Synced P b a
    pub alice : Unmatched P cache a
    pub bob : Unmatched P cache b

  abbrev Paired-swap :
      {cache : CacheLaws P} {a b : DoubleRatchet P} → Paired cache a b → Paired cache b a
  Paired-swap p = record {
    forward = p.backward;
    backward = p.forward;
    alice = p.bob;
    bob = p.alice;
  }

  Paired-step :
      (cache : CacheLaws P) (cipher : CipherLaws P) (a b : DoubleRatchet P)
      → (p : Paired cache a b)
      → Paired cache
          (after_send P a p.forward.chain_key)
          (after_receive P b (P.public_key p.forward.secret) p.forward.chain_key)
  Paired-step cache cipher a b p =
      let y = p.forward in
      record {
        forward = record {
          chain_key = (kdf_ck P y.chain_key).1;
          secret = y.secret;
          sending = refl;
          receiving = refl;
          numbers = ap (λ n. n + 1) y.numbers;
          pair = y.pair;
          known = inr refl;
        };
        backward = record {
          chain_key = p.backward.chain_key;
          secret = p.backward.secret;
          sending = p.backward.sending;
          receiving = p.backward.receiving;
          numbers = p.backward.numbers;
          pair = p.backward.pair;
          known = p.backward.known;
        };
        alice = record { remote = p.alice.remote; missing = p.alice.missing };
        bob = record { remote = cipher.length-public_key y.secret; missing = p.bob.missing };
      }

  abbrev pub answer : Turn → Result RatchetError (List ℕ)
  answer t = ok t.text

  -- What a conversation leaves alone.
  pub record Unratcheted (a a' : DoubleRatchet P) : Type 0 where
    pub same_pair : a'.dh_pair ≡ a.dh_pair
    pub same_root : a'.root_key ≡ a.root_key

  Unratcheted-refl : (a : DoubleRatchet P) → Unratcheted a a
  Unratcheted-refl a = record { same_pair = refl; same_root = refl }

  converse-nil : (a b : DoubleRatchet P) → converse a b [] ≡ ([], (a, b))
  unfolding converse
  converse-nil a b = refl

  converse-alice :
      (a b a' b' : DoubleRatchet P) (t : Turn) (ts : List Turn)
      → t.by_alice ≡ true
      → transmit P a b t ≡ (answer t, (a', b'))
      → converse a b (t ∷ ts) ≡ (answer t ∷ (converse a' b' ts).0, (converse a' b' ts).1)
  unfolding converse
  converse-alice a b a' b' t ts c e = ground (arith, c, e)

  converse-bob :
      (a b a' b' : DoubleRatchet P) (t : Turn) (ts : List Turn)
      → t.by_alice ≡ false
      → transmit P b a t ≡ (answer t, (b', a'))
      → converse a b (t ∷ ts) ≡ (answer t ∷ (converse a' b' ts).0, (converse a' b' ts).1)
  unfolding converse
  converse-bob a b a' b' t ts c e = ground (arith, c, e)

  -- What is shown of a conversation of `ts` between `a` and `b`.
  abbrev Conversed : DoubleRatchet P → DoubleRatchet P → List Turn → Type 0
  Conversed a b ts =
      let (answers, (a', b')) = converse a b ts in
      (answers ≡ map answer ts) × (Unratcheted a a' × Unratcheted b b')

  Conversed-next :
      (a b a' b' : DoubleRatchet P) (t : Turn) (ts : List Turn)
      → converse a b (t ∷ ts) ≡ (answer t ∷ (converse a' b' ts).0, (converse a' b' ts).1)
      → Unratcheted a a'
      → Unratcheted b b'
      → Conversed a' b' ts
      → Conversed a b (t ∷ ts)
  Conversed-next a b a' b' t ts e x y (same, (ends_a, ends_b)) = rw e (
    ap (◌∷◌ (answer t)) same,
    (
      record {
        same_pair = ends_a.same_pair ∙ x.same_pair;
        same_root = ends_a.same_root ∙ x.same_root;
      },
      record {
        same_pair = ends_b.same_pair ∙ y.same_pair;
        same_root = ends_b.same_root ∙ y.same_root;
      },
    ),
  )

  converse_lem :
      (cache : CacheLaws P) (cipher : CipherLaws P) (ts : List Turn) (a b : DoubleRatchet P)
      → Paired cache a b
      → All Short ts
      → a.send_message_number + length ts < 2 ^ 32
      → b.send_message_number + length ts < 2 ^ 32
      → Conversed a b ts
  converse_lem cache cipher [] a b p short la lb =
      rw (converse-nil a b) (refl, (Unratcheted-refl a, Unratcheted-refl b))
  converse_lem cache cipher (t ∷ ts) a b p short la lb = elim (Bool-cases t.by_alice) [
    | inl alice ↦
        let y = p.forward in
        let a' = after_send P a y.chain_key in
        let b' = after_receive P b (P.public_key y.secret) y.chain_key in
        let e = transmit_lem P a b t cache cipher y p.bob short.0 (omega arith) in
        let rest =
          converse_lem cache cipher ts a' b' (Paired-step cache cipher a b p) short.1 (omega arith)
            (omega arith) in
        Conversed-next a b a' b' t ts (converse-alice a b a' b' t ts alice e)
          (record { same_pair = refl; same_root = refl })
          (record { same_pair = refl; same_root = refl }) rest
    | inr bob ↦
        let y = p.backward in
        let b' = after_send P b y.chain_key in
        let a' = after_receive P a (P.public_key y.secret) y.chain_key in
        let e = transmit_lem P b a t cache cipher y p.alice short.0 (omega arith) in
        let rest =
          converse_lem cache cipher ts a' b'
            (Paired-swap (Paired-step cache cipher b a (Paired-swap p))) short.1 (omega arith)
            (omega arith) in
        Conversed-next a b a' b' t ts (converse-bob a b a' b' t ts bob e)
          (record { same_pair = refl; same_root = refl })
          (record { same_pair = refl; same_root = refl }) rest
  ]

  init-Paired :
      (cache : CacheLaws P) (shared_secret alice_pair bob_pair : List ℕ)
      → Paired cache (init_alice P shared_secret alice_pair) (init_bob P shared_secret bob_pair)
  unfolding init_alice init_bob
  init-Paired cache shared_secret alice_pair bob_pair = record {
    forward = record {
      chain_key = (kdf_init P shared_secret).0;
      secret = alice_pair;
      sending = refl;
      receiving = refl;
      numbers = refl;
      pair = refl;
      known = inl refl;
    };
    backward = record {
      chain_key = (kdf_init P shared_secret).1;
      secret = bob_pair;
      sending = refl;
      receiving = refl;
      numbers = refl;
      pair = refl;
      known = inl refl;
    };
    alice = Run-Unmatched P cache (as_alice shared_secret alice_pair);
    bob = Run-Unmatched P cache (as_bob shared_secret bob_pair);
  }

  -- For a cipher that opens what it sealed and a cache that mixes no keys up: Alice and Bob, initialised
  -- with one shared secret, who send fewer than 2 ^ 32 messages within the size limit in any
  -- alternation, each decrypted before the next is sent, read exactly the texts that were sent, in
  -- order.
  pub converse-in_order :
      (cache : CacheLaws P) (cipher : CipherLaws P) (shared_secret alice_pair bob_pair : List ℕ)
      (ts : List Turn)
      → All Short ts
      → length ts < 2 ^ 32
      → (converse (init_alice P shared_secret alice_pair) (init_bob P shared_secret bob_pair) ts).0
        ≡ map answer ts
  unfolding init_alice init_bob
  converse-in_order cache cipher shared_secret alice_pair bob_pair ts short few =
      (converse_lem cache cipher ts (init_alice P shared_secret alice_pair)
        (init_bob P shared_secret bob_pair) (init-Paired cache shared_secret alice_pair bob_pair)
        short (omega arith) (omega arith)).0

  -- Under the same conditions no such conversation ever takes a DH step: both sides end with the key
  -- pair and the root key that they began with.
  pub converse-Unratcheted :
      (cache : CacheLaws P) (cipher : CipherLaws P) (shared_secret alice_pair bob_pair : List ℕ)
      (ts : List Turn)
      → All Short ts
      → length ts < 2 ^ 32
      → let alice = init_alice P shared_secret alice_pair in
        let bob = init_bob P shared_secret bob_pair in
        let (alice', bob') = (converse alice bob ts).1 in
        Unratcheted alice alice' × Unratcheted bob bob'
  unfolding init_alice init_bob
  converse-Unratcheted cache cipher shared_secret alice_pair bob_pair ts short few =
      (converse_lem cache cipher ts (init_alice P shared_secret alice_pair)
        (init_bob P shared_secret bob_pair) (init-Paired cache shared_secret alice_pair bob_pair)
        short (omega arith) (omega arith)).1
