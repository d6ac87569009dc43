-- ===== src/Codec/Laws/Reads.antt =====
-- `Reads m xs a`: the reader `m` takes exactly `xs` off the front of any input and returns `a`. One
-- rule for each step of a decoder.
use r_vpn_core.Common.{
  ℕ, ◌^◌, ◌<◌, ◌≡◌, refl, Bool, true, false, List, [], ◌∷◌, ◌++◌, append-nil, append_assoc, arith,
  bit, length, length-append, take-append, drop-append, le→ltb, ok,
}
use r_vpn_core.Common.Bytes.{to_be, from_be, length-to_be, from_be-to_be}
use r_vpn_core.Codec.Messages.{Field, DecodeError}
use r_vpn_core.Codec.Reader.{
  Reader, ◌>>=◌, pure, require, expect_type, read_byte, read_bytes, read_be, read_flag, run,
}

pub record Reads {ℓ} {A : Type ℓ} (m : Reader A) (xs : List ℕ) (a : A) : Type ℓ where
  pub apply : (rest : List ℕ) → m (xs ++ rest) ≡ ok (a, rest)

module _ {ℓ κ} {A : Type ℓ} {B : Type κ} (m : Reader A) (f : A → Reader B) where
  pub Reads-bind :
      {xs ys : List ℕ} {a : A} {b : B}
      → Reads m xs a
      → Reads (f a) ys b
      → Reads (m >>= f) (xs ++ ys) b
  unfolding ◌>>=◌
  Reads-bind {xs} {ys} {a} {b} h k = record {
    apply = λ rest. rw (append_assoc, h.apply (ys ++ rest), ◌>>=◌) (k.apply rest);
  }

  -- The first step takes nothing.
  pub Reads-check :
      {ys : List ℕ} {a : A} {b : B} → Reads m [] a → Reads (f a) ys b → Reads (m >>= f) ys b
  unfolding ◌>>=◌
  Reads-check {ys} h k = record { apply = λ rest. rw (h.apply (ys ++ rest), ◌>>=◌) (k.apply rest) }

  -- The first step takes one byte.
  pub Reads-first :
      {x : ℕ} {ys : List ℕ} {a : A} {b : B}
      → Reads m (x ∷ []) a
      → Reads (f a) ys b
      → Reads (m >>= f) (x ∷ ys) b
  unfolding ◌>>=◌
  Reads-first {x} {ys} h k = record {
    apply = λ rest. rw (h.apply (ys ++ rest), ◌>>=◌) (k.apply rest);
  }

-- The steps after this one take nothing.
pub Reads-end {ℓ κ} :
    {A : Type ℓ} {B : Type κ} (m : Reader A) (f : A → Reader B) {xs : List ℕ} {a : A} {b : B}
    → Reads m xs a
    → Reads (f a) [] b
    → Reads (m >>= f) xs b
Reads-end m f {xs} h k = rw append-nil at (Reads-bind m f h k)

-- The last step before `Ok(...)`.
pub Reads-last {ℓ κ} :
    {A : Type ℓ} {B : Type κ} (m : Reader A) (g : A → B) {xs : List ℕ} {a : A}
    → Reads m xs a
    → Reads (m >>= λ v. pure (g v)) xs (g a)
unfolding ◌>>=◌ pure
Reads-last m g h = record { apply = λ rest. rw (h.apply rest, ◌>>=◌) }

pub Reads-pure {ℓ} : {A : Type ℓ} (a : A) → Reads (pure a) [] a
unfolding pure
Reads-pure a = record { apply = λ rest. refl }

pub Reads-require : (b : Bool) (e : DecodeError) → b ≡ true → Reads (require b e) [] tt
unfolding require
Reads-require b e h = record { apply = λ rest. rw h }

pub Reads-type : (t : ℕ) → Reads (expect_type t) (t ∷ []) tt
unfolding expect_type
Reads-type t = record { apply = λ rest. ground arith }

pub Reads-byte : (f : Field) (b : ℕ) → Reads (read_byte f) (b ∷ []) b
unfolding read_byte
Reads-byte f b = record { apply = λ rest. refl }

pub Reads-flag : (f : Field) (b : Bool) → Reads (read_flag f) (bit b ∷ []) b
unfolding read_flag read_byte ◌>>=◌ pure
Reads-flag f true = record { apply = λ rest. refl }
Reads-flag f false = record { apply = λ rest. refl }

pub Reads-bytes : (n : ℕ) (f : Field) (xs : List ℕ) → length xs ≡ n → Reads (read_bytes n f) xs xs
unfolding read_bytes
Reads-bytes n f xs h = record {
  apply = λ rest.
      rw (le→ltb (length (xs ++ rest)) n (omega (arith, length-append xs rest)))
        (rw (take-append n xs rest h, drop-append n xs rest h));
}

pub Reads-be :
    (width : ℕ) (f : Field) (v : ℕ) → v < 256 ^ width → Reads (read_be width f) (to_be width v) v
unfolding read_be
Reads-be width f v h = rw (from_be-to_be width v h) at (
    Reads-last (read_bytes width f) from_be
      (Reads-bytes width f (to_be width v) (length-to_be width v)))

-- A decoder that reads `xs` returns the message, whatever follows.
pub run-Reads {ℓ} :
    {A : Type ℓ} (m : Reader A) (xs rest : List ℕ) {a : A}
    → Reads m xs a
    → run m (xs ++ rest) ≡ ok a
unfolding run
run-Reads m xs rest h = rw (h.apply rest, run)
