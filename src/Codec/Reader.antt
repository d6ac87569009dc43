-- ===== src/Codec/Reader.antt =====
-- How the decoders of rvpn/crates/rvpn-core/src/protocol/codec.rs walk their input. The source keeps
-- an index `pos` into `bytes`; here the state is the rest `bytes[pos..]`, so the source's check
-- `bytes.len() < pos + n` is `length rest < n`, and `pos += n` drops the bytes that were read.
use r_vpn_core.Common.{
  ℕ, Bool, true, false, List, [], ◌∷◌, ltb, ◌==◌, not, if◌then◌else◌, length, take, drop, Result,
  ok, err,
}
use r_vpn_core.Common.Bytes.{from_be}
use r_vpn_core.Codec.Messages.{DecodeError, Field, invalid_type, insufficient}

abbrev pub Reader {ℓ} : Type ℓ → Type ℓ
Reader A = List ℕ → Result DecodeError (A × List ℕ)

infixl 5 ◌>>=◌ ◌>>◌
unfoldable pub ◌>>=◌ {ℓ κ} : {A : Type ℓ} {B : Type κ} → Reader A → (A → Reader B) → Reader B
◌>>=◌ m f s = elim (m s) [ ok (a, s') ↦ f a s' | err e ↦ err e ]

abbrev pub ◌>>◌ {ℓ} : {B : Type ℓ} → Reader (Unit {0}) → Reader B → Reader B
m >> k = m >>= λ _. k

unfoldable pub pure {ℓ} : {A : Type ℓ} → A → Reader A
pure a s = ok (a, s)

-- `if !condition { return Err(e); }`
unfoldable pub require : Bool → DecodeError → Reader (Unit {0})
require true e s = ok (tt, s)
require false e s = err e

-- `if bytes.is_empty() || bytes[0] != t { return Err("Invalid message type"); }`
unfoldable pub expect_type : ℕ → Reader (Unit {0})
expect_type t [] = err invalid_type
expect_type t (b ∷ s) = if b == t then ok (tt, s) else err invalid_type

-- One byte, `bytes[pos]`.
unfoldable pub read_byte : Field → Reader ℕ
read_byte f [] = err (insufficient f)
read_byte f (b ∷ s) = ok (b, s)

-- The slice `bytes[pos..pos + n]`.
unfoldable pub read_bytes : ℕ → Field → Reader (List ℕ)
read_bytes n f s = if ltb (length s) n then err (insufficient f) else ok (take n s, drop n s)

-- A big-endian integer of `width` bytes.
unfoldable pub read_be : ℕ → Field → Reader ℕ
read_be width f = do bs ← read_bytes width f; pure (from_be bs)

-- A flag, `bytes[pos] != 0`.
unfoldable pub read_flag : Field → Reader Bool
read_flag f = do b ← read_byte f; pure (not (b == 0))

-- What a decoder returns: bytes after the message are ignored.
unfoldable pub run {ℓ} : {A : Type ℓ} → Reader A → List ℕ → Result DecodeError A
run m bytes = elim (m bytes) [ ok (a, _) ↦ ok a | err e ↦ err e ]
