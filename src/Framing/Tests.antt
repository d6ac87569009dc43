-- ===== src/Framing/Tests.antt =====
-- The framings on concrete input, with a cipher that only appends a tag of sixteen zeros.
use r_vpn_core.Common.{
  ℕ, ◌+◌, ◌-◌, ◌≤◌, ◌<◌, ◌≡◌, ◌⊎◌, refl, ap, List, [], ◌∷◌, ◌++◌, some, arith, length, take,
  replicate, length-append, length-replicate, take-append, All, ok, err,
}
use r_vpn_core.Common.Bytes.{IsByte, to_be}
use r_vpn_core.Framing.Nonce.{increment_nonce, derive_client_nonce, derive_server_nonce}
use r_vpn_core.Framing.LengthFraming.{Aead, encode_frame, decode_frame}
use r_vpn_core.Framing.PacketPadding.{pad_packet, data_too_large}
use r_vpn_core.Framing.Laws.Counter.{increment_nonce-derive_server_nonce}
use r_vpn_core.Framing.Laws.Encrypted.{decode_frame-encode_frame}
use r_vpn_core.Framing.Laws.Padding.{pad_packet_lem, Padded}

abbrev tag_on : Aead
tag_on nonce text = some (text ++ replicate 16 0)

abbrev tag_off : Aead
tag_off nonce sealed = some (take (length sealed - 16) sealed)

tag_off-tag_on :
    (nonce text sealed : List ℕ)
    → tag_on nonce text ≡ some sealed
    → tag_off nonce sealed ≡ some text
tag_off-tag_on nonce text sealed e =
    let same : text ++ replicate 16 0 ≡ sealed = cc e in
    let size : length sealed - 16 ≡ length text =
      rw (← same) (omega (arith, length-append text (replicate 16 0))) in
    rw (size, ← same) (ap some (take-append (length text) text (replicate 16 0) refl))

length-tag_on :
    (nonce text sealed : List ℕ)
    → tag_on nonce text ≡ some sealed
    → length sealed ≡ length text + 16
length-tag_on nonce text sealed e =
    let same : text ++ replicate 16 0 ≡ sealed = cc e in
    rw (← same) (omega (arith, length-append text (replicate 16 0)))

abbrev twelve : List ℕ
twelve = 1 ∷ 2 ∷ 3 ∷ 4 ∷ 5 ∷ 6 ∷ 7 ∷ 8 ∷ 9 ∷ 10 ∷ 255 ∷ 255 ∷ []

twelve-IsByte : All IsByte twelve
twelve-IsByte = (
  omega arith,
  (
    omega arith,
    (
      omega arith,
      (
        omega arith,
        (
          omega arith,
          (
            omega arith,
            (
              omega arith,
              (omega arith, (omega arith, (omega arith, (omega arith, (omega arith, tt))))),
            ),
          ),
        ),
      ),
    ),
  ),
)

abbrev a_frame_of_three : List ℕ
a_frame_of_three = 0 ∷ 3 ∷ (replicate 16 0 ++ (7 ∷ 8 ∷ 9 ∷ replicate 16 0))

decode_frame-encode_frame_example :
    decode_frame tag_off (a_frame_of_three ++ (1 ∷ 1 ∷ [])) twelve
    ≡ (ok (7 ∷ 8 ∷ 9 ∷ []), increment_nonce (increment_nonce twelve))
unfolding encode_frame to_be
decode_frame-encode_frame_example =
    decode_frame-encode_frame tag_on tag_off tag_off-tag_on length-tag_on (7 ∷ 8 ∷ 9 ∷ []) twelve
      a_frame_of_three (1 ∷ 1 ∷ []) (increment_nonce (increment_nonce twelve)) refl (omega arith)

abbrev one_byte : List ℕ
one_byte = 7 ∷ []

abbrev two_bytes : List ℕ
two_bytes = 7 ∷ 8 ∷ []

increment_nonce-derive_server_nonce_example :
    increment_nonce (derive_server_nonce twelve) ≡ derive_client_nonce twelve
increment_nonce-derive_server_nonce_example =
    increment_nonce-derive_server_nonce 1 (2 ∷ 3 ∷ 4 ∷ 5 ∷ 6 ∷ 7 ∷ 8 ∷ 9 ∷ 10 ∷ 255 ∷ 255 ∷ [])
      twelve-IsByte

abbrev ones : ℕ → List ℕ
ones n = replicate n 1

pad_packet_lem_example :
    ((length two_bytes ≤ 16382) × Padded ones (λ n. length-replicate {A = ℕ} n 1) two_bytes)
    ⊎ ((16382 < length two_bytes)
        × (pad_packet ones two_bytes ≡ err (data_too_large (length two_bytes) 16382)))
pad_packet_lem_example = pad_packet_lem ones (λ n. length-replicate {A = ℕ} n 1) two_bytes
