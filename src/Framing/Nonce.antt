-- ===== src/Framing/Nonce.antt =====
-- The nonce operations of rvpn/crates/rvpn-core/src/protocol/length_framing.rs. A nonce is its twelve
-- bytes, first byte first.
use Prim.Native.Nat.{bit_and, bit_or}
use r_vpn_core.Common.{ℕ, ◌+◌, Bool, true, false, List, [], ◌∷◌, ◌==◌, if◌then◌else◌}

-- The loop runs from the last byte to the first and stops at the first that is not 255: the bytes
-- after this one, incremented, and whether the carry goes on.
unfoldable pub increment_from : List ℕ → List ℕ × Bool
increment_from [] = ([], true)
increment_from (b ∷ bs) =
    let (after, carry) = increment_from bs in
    if carry
    then (if b == 255 then (0 ∷ after, true) else ((b + 1) ∷ after, false))
    else (b ∷ after, false)

unfoldable pub increment_nonce : List ℕ → List ℕ
increment_nonce nonce = (increment_from nonce).0

-- `nonce[NONCE_SIZE - 1]` is the last byte.
unfoldable pub modify_last : (ℕ → ℕ) → List ℕ → List ℕ
modify_last f [] = []
modify_last f (b ∷ []) = f b ∷ []
modify_last f (b ∷ c ∷ bs) = b ∷ modify_last f (c ∷ bs)

unfoldable pub derive_client_nonce : List ℕ → List ℕ
derive_client_nonce base = modify_last (λ b. bit_or b 0x01) base

unfoldable pub derive_server_nonce : List ℕ → List ℕ
derive_server_nonce base = modify_last (λ b. bit_and b 0xfe) base
