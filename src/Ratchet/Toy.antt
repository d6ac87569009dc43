-- ===== src/Ratchet/Toy.antt =====
-- Primitives for the tests of rvpn/crates/rvpn-core/src/crypto/ratchet.rs: a cipher whose tag is
-- sixteen zeros, and a cache that is an association list. They keep apart only what has to be kept
-- apart.
use r_vpn_core.Common.{
  ℕ, ◌+◌, ◌-◌, ◌≡◌, ◌≢◌, inl, inr, refl, Bool, true, false, ◌&&◌, List, [], ◌∷◌, ◌++◌, Option, none,
  some, arith, ◌==◌, if◌then◌else◌, length, take, drop, replicate, length-append, length-take,
  take-append, drop-append, Bool-cases,
}
use r_vpn_core.Codec.Messages.{RatchetMessage}
use r_vpn_core.Ratchet.Primitives.{SkippedKey, Primitives, CacheLaws}
use r_vpn_core.Ratchet.State.{DoubleRatchet, init_bob}
use r_vpn_core.Ratchet.Receive.{same_key}
use r_vpn_core.Ratchet.Laws.Channel.{CipherLaws, same_key_refl}
use r_vpn_core.Ratchet.Laws.InPlace.{InPlaceLaws}

abbrev pub tag : List ℕ
tag = replicate 16 0

abbrev find : List (SkippedKey × List ℕ) → SkippedKey → Option (List ℕ × List (SkippedKey × List ℕ))
find [] k = none
find ((l, v) ∷ c) k =
    let later = find c k in
    if same_key l.0 k.0 && l.1 == k.1
    then some (v, c)
    else elim later [ none ↦ none | some (w, d) ↦ some (w, (l, v) ∷ d) ]

abbrev strip_tag : List ℕ → Option (List ℕ)
strip_tag sealed =
    if same_key (drop (length sealed - 16) sealed) tag
    then some (take (length sealed - 16) sealed)
    else none

abbrev is_nil : List (SkippedKey × List ℕ) → Bool
is_nil [] = true
is_nil (e ∷ c) = false

-- Position by position.
abbrev pub add : List ℕ → List ℕ → List ℕ
add [] ys = []
add (x ∷ xs) [] = []
add (x ∷ xs) (y ∷ ys) = (x + y) ∷ add xs ys

pub add_comm : (xs ys : List ℕ) → add xs ys ≡ add ys xs
add_comm [] [] = refl
add_comm [] (y ∷ ys) = refl
add_comm (x ∷ xs) [] = refl
add_comm (x ∷ xs) (y ∷ ys) = let e : x + y ≡ y + x = omega arith in rw (e, add_comm xs ys)

abbrev pub to_public : List ℕ → List ℕ
to_public secret = take 32 (secret ++ replicate 32 0)

abbrev pub toy : Primitives
toy = record {
  hmac = λ key text. text ++ key;
  hkdf = λ salt ikm info n. take n (ikm ++ (salt ++ replicate n 0));
  public_key = to_public;
  diffie_hellman = λ secret public. add (to_public secret) public;
  seal = λ key nonce aad text. some (text ++ tag);
  open_sealed = λ key nonce aad sealed. strip_tag sealed;
  open_in_place = λ key nonce aad sealed. strip_tag sealed;
  Cache = List (SkippedKey × List ℕ);
  empty_cache = [];
  is_empty = is_nil;
  put = λ c k v. (k, v) ∷ c;
  pop = find;
}

same_key→eq : (k l : List ℕ) → same_key k l ≡ true → k ≡ l
unfolding same_key
same_key→eq [] [] e = refl
same_key→eq [] (y ∷ ys) e = cc
same_key→eq (x ∷ xs) [] e = cc
same_key→eq (x ∷ xs) (y ∷ ys) e = ground (arith, same_key→eq xs ys)

find-put :
    (c : List (SkippedKey × List ℕ)) (k l : SkippedKey) (v : List ℕ)
    → k ≢ l
    → find c k ≡ none
    → find ((l, v) ∷ c) k ≡ none
find-put c k l v different missing = elim (Bool-cases (same_key l.0 k.0 && l.1 == k.1)) [
  | inl e ↦ absurd (different (ground (arith, same_key→eq l.0 k.0)))
  | inr e ↦ rw (e, missing)
]

pub toy-CacheLaws : CacheLaws toy
toy-CacheLaws = record { pop-empty = λ k. refl; pop-put = find-put }

length-tagged : (text : List ℕ) → length (text ++ tag) ≡ length text + 16
length-tagged text = length-append text tag

strip_tag-tagged : (text : List ℕ) → strip_tag (text ++ tag) ≡ some text
strip_tag-tagged text =
    let size : length (text ++ tag) - 16 ≡ length text = omega (arith, length-tagged text) in
    rw (
      size,
      drop-append (length text) text tag refl,
      take-append (length text) text tag refl,
      same_key_refl tag,
    )

length-public : (secret : List ℕ) → length (take 32 (secret ++ replicate {A = ℕ} 32 0)) ≡ 32
length-public secret = omega (
  arith,
  length-take 32 (secret ++ replicate {A = ℕ} 32 0),
  length-append secret (replicate {A = ℕ} 32 0),
)

pub toy-CipherLaws : CipherLaws toy
toy-CipherLaws = record {
  open-seal = λ key nonce aad text sealed e.
      let same : text ++ tag ≡ sealed = cc e in rw (← same) (strip_tag-tagged text);
  seal-total = λ key nonce aad text short. (text ++ tag, refl, length-tagged text);
  length-public_key = length-public;
}

find-is_nil : (c : List (SkippedKey × List ℕ)) (k : SkippedKey) → is_nil c ≡ true → find c k ≡ none
find-is_nil [] k e = refl
find-is_nil (l ∷ c) k e = cc e

pub toy-InPlaceLaws : InPlaceLaws toy
toy-InPlaceLaws = record { in_place = λ key nonce aad text. refl; pop-is_empty = find-is_nil }

abbrev pub message : ℕ → Option (List ℕ) → List ℕ → RatchetMessage
message n dh ciphertext = record {
  header = record {
    dh_public = dh;
    message_number = n;
    previous_chain_length = 0;
    payload_type = 4;
  };
  nonce = replicate 12 1;
  ciphertext = ciphertext;
}

abbrev pub alice_key : List ℕ
alice_key = replicate 32 5

abbrev pub first : RatchetMessage
first = message 0 (some alice_key) (7 ∷ 8 ∷ tag)

abbrev pub second : RatchetMessage
second = message 1 (some alice_key) (9 ∷ tag)

abbrev pub bob : DoubleRatchet toy
bob = init_bob toy (1 ∷ 2 ∷ 3 ∷ []) (4 ∷ 4 ∷ [])

abbrev pub a_secret : List ℕ
a_secret = replicate 32 3
