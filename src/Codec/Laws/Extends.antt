-- ===== src/Codec/Laws/Extends.antt =====
-- The decoders do not look past the message, so a message that is cut short is refused.
use r_vpn_core.Common.{
  ℕ, ◌≡◌, inl, inr, Bool, true, false, List, [], ◌∷◌, ◌++◌, append-nil, arith, if◌then◌else◌,
  length-append, ok, err, Result-cases, take-append_le, drop-append_le,
}
use r_vpn_core.Codec.Messages.{Field, DecodeError}
use r_vpn_core.Codec.Reader.{
  Reader, ◌>>=◌, pure, require, expect_type, read_byte, read_bytes, read_be, read_flag, run,
}
use r_vpn_core.Codec.Laws.Reads.{Reads}

pub record Extends {ℓ} {A : Type ℓ} (m : Reader A) : Type ℓ where
  pub apply :
      (s more : List ℕ) (a : A) (t : List ℕ) → m s ≡ ok (a, t) → m (s ++ more) ≡ ok (a, t ++ more)

-- A bind that succeeds is two steps that succeed.
pub >>=-eq-ok {ℓ κ} :
    {A : Type ℓ} {B : Type κ} (m : Reader A) (f : A → Reader B) (s t : List ℕ) {b : B}
    → (m >>= f) s ≡ ok (b, t)
    → (a : A) × (u : List ℕ) × (m s ≡ ok (a, u)) × (f a u ≡ ok (b, t))
unfolding ◌>>=◌
>>=-eq-ok m f s t h = elim (Result-cases (m s)) [
  | inl ((a, u), e) ↦ (a, u, e, rw (e, ◌>>=◌) at h)
  | inr (x, e) ↦ absurd (cc (rw (e, ◌>>=◌) at h))
]

pub Extends-bind {ℓ κ} :
    {A : Type ℓ} {B : Type κ} {m : Reader A} {f : A → Reader B}
    → Extends m
    → ((a : A) → Extends (f a))
    → Extends (m >>= f)
unfolding ◌>>=◌
Extends-bind {m} {f} hm hf = record {
  apply = λ s more b t e.
      let (a, u, first, second) = >>=-eq-ok m f s t e in
      rw (hm.apply s more a u first, ◌>>=◌) ((hf a).apply u more b t second);
}

pub Extends-pure {ℓ} : {A : Type ℓ} (a : A) → Extends (pure a)
unfolding pure
Extends-pure v = record { apply = λ s more a t e. ground arith }

pub Extends-require : (b : Bool) (e : DecodeError) → Extends (require b e)
unfolding require
Extends-require c x = record { apply = λ s more a t e. ground arith }

pub Extends-type : (t : ℕ) → Extends (expect_type t)
unfolding expect_type
Extends-type n = record { apply = λ s more a t e. ground arith }

pub Extends-byte : (f : Field) → Extends (read_byte f)
unfolding read_byte
Extends-byte f = record { apply = λ s more a t e. ground arith }

pub Extends-bytes : (n : ℕ) (f : Field) → Extends (read_bytes n f)
unfolding read_bytes
Extends-bytes n f = record {
  apply = λ s more a t e.
      ground (arith, take-append_le n s more, drop-append_le n s more, length-append s more);
}

pub Extends-be : (width : ℕ) (f : Field) → Extends (read_be width f)
unfolding read_be
Extends-be width f = Extends-bind (Extends-bytes width f) (λ a. Extends-pure _)

pub Extends-flag : (f : Field) → Extends (read_flag f)
unfolding read_flag
Extends-flag f = Extends-bind (Extends-byte f) (λ a. Extends-pure _)

pub Extends-if {ℓ} :
    {A : Type ℓ} (b : Bool) {m n : Reader A} → Extends m → Extends n → Extends (if b then m else n)
Extends-if true hm hn = hm
Extends-if false hm hn = hn

pub ruleset extends = (
  Extends-bind, Extends-pure, Extends-require, Extends-type, Extends-byte, Extends-bytes,
  Extends-be, Extends-flag, Extends-if,
)

-- A decoder that reads exactly `front ++ x ∷ back` refuses `front`.
pub run-truncated {ℓ} :
    {A : Type ℓ} {m : Reader A} {a : A} (front : List ℕ) (x : ℕ) (back : List ℕ)
    → Extends m
    → Reads m (front ++ (x ∷ back)) a
    → (e : DecodeError) × (run m front ≡ err e)
unfolding run
run-truncated {m} {a} front x back hm hr = elim (Result-cases (m front)) [
  | inl ((b, t), e) ↦
      absurd (no_rest t (cc (hm.apply front (x ∷ back) b t e, rw append-nil at (hr.apply []))))
  | inr (e, h) ↦ (e, rw (h, run))
]
  where
    no_rest : (t : List ℕ) → t ++ (x ∷ back) ≡ [] → ⊥
    no_rest [] h = cc
    no_rest (y ∷ t) h = cc
