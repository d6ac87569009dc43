-- ===== src/Ratchet/Borrowed.antt =====
-- `RatchetMessageRef::from_bytes` of rvpn/crates/rvpn-core/src/crypto/ratchet.rs, the hand-written
-- parser of what `bincode` wrote. The cursor is the bytes from its position on, so the position is
-- the difference of the lengths. `usize` has 64 bits.
use r_vpn_core.Common.{
  ℕ, ◌+◌, ◌-◌, ◌^◌, List, Option, none, some, ltb, ◌==◌, if◌then◌else◌, length, take, drop, get_or,
  Result, ok, err,
}
use r_vpn_core.Common.Bytes.{from_le}
use r_vpn_core.Codec.Messages.{MessageHeader, RatchetMessage, nonce_size}

-- The error of `read_exact`, and the two of the ciphertext's length.
pub data ParseError : Type 0 where
  unexpected_eof length_overflow truncated_ciphertext : ParseError

abbrev pub Cursor {ℓ} : Type ℓ → Type ℓ
Cursor A = List ℕ → Result ParseError (A × List ℕ)

infixl 5 ◌>>=◌
unfoldable pub ◌>>=◌ {ℓ κ} : {A : Type ℓ} {B : Type κ} → Cursor A → (A → Cursor B) → Cursor B
◌>>=◌ m f s = elim (m s) [ ok (a, s') ↦ f a s' | err e ↦ err e ]

unfoldable pub return {ℓ} : {A : Type ℓ} → A → Cursor A
return a s = ok (a, s)

-- `cursor.read_exact(&mut buf)` with a buffer of `n` bytes.
unfoldable pub read_exact : ℕ → Cursor (List ℕ)
read_exact n s = if ltb (length s) n then err unexpected_eof else ok (take n s, drop n s)

unfoldable pub read_le : ℕ → Cursor ℕ
read_le width = do buf ← read_exact width; return (from_le buf)

unfoldable pub read_u8 : Cursor ℕ
read_u8 = do b ← read_exact 1; return (get_or b 0 0)

unfoldable pub read_key : Cursor (Option (List ℕ))
read_key = do
  has_dh ← read_u8
  if has_dh == 1 then read_exact 32 >>= (λ key. return (some key)) else return none

unfoldable pub read_prefix : Cursor (MessageHeader × List ℕ × ℕ)
read_prefix = do
  dh_public ← read_key
  message_number ← read_le 4
  previous_chain_length ← read_le 4
  payload_type ← read_u8
  nonce ← read_exact nonce_size
  ct_len ← read_le 8
  return (
    record {
      dh_public = dh_public;
      message_number = message_number;
      previous_chain_length = previous_chain_length;
      payload_type = payload_type;
    },
    nonce,
    ct_len,
  )

-- The slice of `ct_len` bytes at the position, in input of `total` bytes.
unfoldable pub slice_at : ℕ → ℕ → List ℕ → Result ParseError (List ℕ)
slice_at total ct_len s =
    let end = total - length s + ct_len in
    if ltb (2 ^ 64 - 1) end
    then err length_overflow
    else if ltb total end
    then err truncated_ciphertext
    else ok (take ct_len s)

unfoldable pub from_bytes : List ℕ → Result ParseError RatchetMessage
from_bytes bytes = elim (read_prefix bytes) [
  | err e ↦ err e
  | ok ((header, nonce, ct_len), rest) ↦ elim (slice_at (length bytes) ct_len rest) [
    | err e ↦ err e
    | ok ciphertext ↦ ok (record { header = header; nonce = nonce; ciphertext = ciphertext })
  ]
]
