-- ===== src/Ratchet/Laws/Borrowed.antt =====
-- The hand-written parser reads what `bincode` writes
-- (rvpn/crates/rvpn-core/src/crypto/ratchet.rs).
use r_vpn_core.Common.{
  ℕ, ◌+◌, ◌-◌, ◌^◌, ◌≤◌, ◌<◌, ◌≡◌, refl, ap, ◌∙◌, List, [], ◌∷◌, ◌++◌, append_assoc, Option, none,
  some, arith, le→ltb, length, length-append, take-append, drop-append, ok,
}
use r_vpn_core.Common.Bytes.{to_le, from_le, length-to_le, from_le-to_le}
use r_vpn_core.Codec.Messages.{RatchetMessage, nonce_size}
use r_vpn_core.Codec.Laws.Wire.{FitsDhPublic, FitsHeader}
use r_vpn_core.Ratchet.State.{dh_bytes}
use r_vpn_core.Ratchet.Borrowed.{
  Cursor, ◌>>=◌, return, read_exact, read_le, read_u8, read_key, read_prefix, slice_at, from_bytes,
}

-- A step takes exactly `xs` off the input and gives `a`.
pub record Takes {ℓ} {A : Type ℓ} (m : Cursor A) (xs : List ℕ) (a : A) : Type ℓ where
  pub apply : (rest : List ℕ) → m (xs ++ rest) ≡ ok (a, rest)

module _ {ℓ κ} {A : Type ℓ} {B : Type κ} (m : Cursor A) (f : A → Cursor B) where
  Takes-bind :
      {xs ys : List ℕ} {a : A} {b : B}
      → Takes m xs a
      → Takes (f a) ys b
      → Takes (m >>= f) (xs ++ ys) b
  unfolding ◌>>=◌
  Takes-bind {xs} {ys} first second = record {
    apply = λ rest. rw (append_assoc, first.apply (ys ++ rest), ◌>>=◌) (second.apply rest);
  }

  Takes-cons :
      {x : ℕ} {ys : List ℕ} {a : A} {b : B}
      → Takes m (x ∷ []) a
      → Takes (f a) ys b
      → Takes (m >>= f) (x ∷ ys) b
  Takes-cons first second = Takes-bind first second

Takes-return {ℓ} : {A : Type ℓ} (a : A) → Takes (return a) [] a
unfolding return
Takes-return a = record { apply = λ rest. refl }

Takes-last {ℓ κ} :
    {A : Type ℓ} {B : Type κ} (m : Cursor A) (g : A → B) {xs : List ℕ} {a : A}
    → Takes m xs a
    → Takes (m >>= λ v. return (g v)) xs (g a)
unfolding ◌>>=◌ return
Takes-last m g step = record { apply = λ rest. rw (step.apply rest, ◌>>=◌) }

Takes-exact : (n : ℕ) (xs : List ℕ) → length xs ≡ n → Takes (read_exact n) xs xs
unfolding read_exact
Takes-exact n xs e = record {
  apply = λ rest.
      rw
        (
          le→ltb (length (xs ++ rest)) n (omega (arith, length-append xs rest)),
          take-append n xs rest e,
          drop-append n xs rest e,
        )
        refl;
}

Takes-u8 : (b : ℕ) → Takes read_u8 (b ∷ []) b
unfolding read_u8
Takes-u8 b = Takes-last (read_exact 1) _ (Takes-exact 1 (b ∷ []) refl)

Takes-le : (width v : ℕ) → v < 256 ^ width → Takes (read_le width) (to_le width v) v
unfolding read_le
Takes-le width v fits = rw (from_le-to_le width v fits) at (
    Takes-last (read_exact width) from_le
      (Takes-exact width (to_le width v) (length-to_le width v)))

Takes-key : (dh : Option (List ℕ)) → FitsDhPublic dh → Takes read_key (dh_bytes dh) dh
unfolding read_key dh_bytes
Takes-key none fits = Takes-cons _ _ (Takes-u8 0) (Takes-return none)
Takes-key (some dh) fits = Takes-cons _ _ (Takes-u8 1) (Takes-last _ _ (Takes-exact 32 dh fits))

-- How bincode writes a message in front of the ciphertext's bytes.
abbrev pub layout_prefix : RatchetMessage → List ℕ
layout_prefix m =
    dh_bytes m.header.dh_public
    ++ (to_le 4 m.header.message_number
        ++ (to_le 4 m.header.previous_chain_length
            ++ (m.header.payload_type ∷ (m.nonce ++ to_le 8 (length m.ciphertext)))))

prefix-Takes :
    (m : RatchetMessage)
    → FitsHeader m.header
    → length m.nonce ≡ nonce_size
    → length m.ciphertext < 2 ^ 64
    → Takes read_prefix (layout_prefix m) (m.header, m.nonce, length m.ciphertext)
unfolding read_prefix
prefix-Takes m fits nonce size = Takes-bind _ _ (Takes-key m.header.dh_public fits.dh_public) (
    Takes-bind _ _ (Takes-le 4 _ fits.message_number) (
      Takes-bind _ _ (Takes-le 4 _ fits.previous_chain_length) (
        Takes-cons _ _ (Takes-u8 _) (
          Takes-bind _ _ (Takes-exact nonce_size m.nonce nonce)
            (Takes-last _ _ (Takes-le 8 _ size))))))

slice_at_lem :
    (total : ℕ) (ciphertext rest : List ℕ)
    → length (ciphertext ++ rest) ≤ total
    → total < 2 ^ 64
    → slice_at total (length ciphertext) (ciphertext ++ rest) ≡ ok ciphertext
unfolding slice_at
slice_at_lem total ciphertext rest inside small =
    let size = length-append ciphertext rest in
    let end = total - length (ciphertext ++ rest) + length ciphertext in
    rw
      (
        le→ltb (2 ^ 64 - 1) end (omega (arith, size)),
        le→ltb total end (omega (arith, size)),
        take-append (length ciphertext) ciphertext rest refl,
      )
      refl

-- For a serializer that writes bincode's documented layout: a message whose key, if it has one, has
-- 32 bytes, whose counters fit 32 bits and whose nonce has 12 bytes is read back from its
-- serialisation by `RatchetMessageRef::from_bytes`, whatever follows it, as long as the input is
-- shorter than 2 ^ 64 bytes.
pub from_bytes-serialize :
    (serialize : RatchetMessage → List ℕ)
    → ((m : RatchetMessage) → serialize m ≡ layout_prefix m ++ m.ciphertext)
    → (m : RatchetMessage) (rest : List ℕ) → FitsHeader m.header
    → length m.nonce ≡ nonce_size
    → length (serialize m ++ rest) < 2 ^ 64
    → from_bytes (serialize m ++ rest) ≡ ok m
unfolding from_bytes
from_bytes-serialize serialize documented m rest fits nonce small =
    let joined : serialize m ++ rest ≡ layout_prefix m ++ (m.ciphertext ++ rest) =
      ap (λ s. s ++ rest) (documented m) ∙ append_assoc (layout_prefix m) m.ciphertext rest in
    let total = length (serialize m ++ rest) in
    let sizes : total ≡ length (layout_prefix m) + length (m.ciphertext ++ rest) =
      ap length joined ∙ length-append (layout_prefix m) (m.ciphertext ++ rest) in
    let payload : length (m.ciphertext ++ rest) ≡ length m.ciphertext + length rest =
      length-append m.ciphertext rest in
    let prefix : read_prefix (serialize m ++ rest)
        ≡ ok ((m.header, m.nonce, length m.ciphertext), m.ciphertext ++ rest) =
      rw joined ((prefix-Takes m fits nonce (omega arith)).apply (m.ciphertext ++ rest)) in
    let slice = slice_at_lem total m.ciphertext rest (omega arith) small in
    ground (arith, prefix, slice)
