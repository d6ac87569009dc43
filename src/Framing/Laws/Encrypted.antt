-- ===== src/Framing/Laws/Encrypted.antt =====
-- A sealed frame is opened to the same bytes, with the two nonces in step
-- (rvpn/crates/rvpn-core/src/protocol/length_framing.rs).
use r_vpn_core.Common.{
  ℕ, ◌+◌, ◌≤◌, ◌<◌, ◌≡◌, ◌⊎◌, ap, sym, ◌∙◌, inl, inr, List, ◌++◌, arith, length, take, drop,
  take-length, length-append, take-append, drop-append, append_assoc, none, some, Option-cases,
  Bool-cases, ltb, ltb→lt, ltb→le, ok, err,
}
use r_vpn_core.Common.Bytes.{to_be, from_be, length-to_be, from_be-to_be}
use r_vpn_core.Framing.Nonce.{increment_nonce}
use r_vpn_core.Framing.LengthFraming.{
  Aead, encode_frame, decode_frame, decode_data, encryption_failed, max_frame_size,
}

module _ (seal open_sealed : Aead)
    (open-seal : (nonce text sealed : List ℕ)
      → seal nonce text ≡ some sealed
      → open_sealed nonce sealed ≡ some text)
    (length-seal : (nonce text sealed : List ℕ)
      → seal nonce text ≡ some sealed
      → length sealed ≡ length text + 16) where
  -- The sealed bytes behind the sealed length, whatever follows them.
  decode_data_lem :
      (head body more bytes second : List ℕ)
      → length head ≡ 18
      → seal second bytes ≡ some body
      → decode_data open_sealed (head ++ (body ++ more)) (length bytes) second
        ≡ (ok bytes, increment_nonce second)
  unfolding decode_data
  decode_data_lem head body more bytes second l e =
      let size : length body ≡ length bytes + 16 = length-seal second bytes body e in
      let rest : drop 18 (head ++ (body ++ more)) ≡ body ++ more =
        drop-append 18 head (body ++ more) l in
      let cut : take (length bytes + 16) (drop 18 (head ++ (body ++ more))) ≡ body =
        rw rest (take-append (length bytes + 16) body more size) in
      ground (
        arith,
        size,
        l,
        cut,
        open-seal second bytes body e,
        length-append head (body ++ more),
        length-append body more,
      )

  decode_frame_lem :
      (head body more bytes nonce : List ℕ)
      → length bytes ≤ 65535
      → seal nonce (to_be 2 (length bytes)) ≡ some head
      → seal (increment_nonce nonce) bytes ≡ some body
      → length (head ++ (body ++ more)) ≤ max_frame_size
      → decode_frame open_sealed (head ++ (body ++ more)) nonce
        ≡ (ok bytes, increment_nonce (increment_nonce nonce))
  unfolding decode_frame
  decode_frame_lem head body more bytes nonce small a b fits =
      let prefix = to_be 2 (length bytes) in
      let l : length head ≡ 18 =
        omega (arith, length-seal nonce prefix head a, length-to_be 2 (length bytes)) in
      let cut : take 18 (head ++ (body ++ more)) ≡ head = take-append 18 head (body ++ more) l in
      let whole : take 2 prefix ≡ prefix = take-length 2 prefix (length-to_be 2 (length bytes)) in
      let read : from_be (take 2 prefix) ≡ length bytes =
        rw whole (from_be-to_be 2 (length bytes) (omega arith)) in
      ground (
        arith,
        cut,
        l,
        read,
        length-append head (body ++ more),
        open-seal nonce prefix head a,
        decode_data_lem head body more bytes (increment_nonce nonce) l b,
      )

  encode_frame_cases :
      (bytes nonce : List ℕ)
      → ((head : List ℕ) × (body : List ℕ) × (length bytes ≤ 65535)
          × (seal nonce (to_be 2 (length bytes)) ≡ some head)
          × (seal (increment_nonce nonce) bytes ≡ some body)
          × (encode_frame seal bytes nonce
              ≡ (ok (head ++ body), increment_nonce (increment_nonce nonce))))
        ⊎ (((encode_frame seal bytes nonce).0 ≡ err encryption_failed)
            × ((65535 < length bytes)
                ⊎ ((seal nonce (to_be 2 (length bytes)) ≡ none)
                    ⊎ (seal (increment_nonce nonce) bytes ≡ none))))
  unfolding encode_frame
  encode_frame_cases bytes nonce =
      let second = increment_nonce nonce in
      elim (Option-cases (seal nonce (to_be 2 (length bytes)))) [
        | inl a ↦ inr (ground (arith, a), inr (inl a))
        | inr (head, a) ↦ elim (Option-cases (seal second bytes)) [
          | inl b ↦ inr (ground (arith, a, b), inr (inr b))
          | inr (body, b) ↦ elim (Bool-cases (ltb 65535 (length bytes))) [
            | inl c ↦ inr (ground (arith, c), inl (ltb→lt 65535 (length bytes) c))
            | inr c ↦ inl (head, body, ltb→le 65535 (length bytes) c, a, b, ground (arith, a, b, c))
          ]
        ]
      ]

  -- For a cipher that opens what it sealed and adds 16 bytes: a frame that `encode_frame` made,
  -- with any bytes behind it that keep it within the largest frame, is decoded under the same
  -- nonce to the same bytes, and the decoder's nonce ends where the encoder's did.
  pub decode_frame-encode_frame :
      (bytes nonce frame more after : List ℕ)
      → encode_frame seal bytes nonce ≡ (ok frame, after)
      → length (frame ++ more) ≤ max_frame_size
      → decode_frame open_sealed (frame ++ more) nonce ≡ (ok bytes, after)
  decode_frame-encode_frame bytes nonce frame more after e fits =
      elim (encode_frame_cases bytes nonce) [
        | inl (head, body, short, a, b, f) ↦
            let same : (head ++ body) ≡ frame = cc (sym f ∙ e) in
            let last : increment_nonce (increment_nonce nonce) ≡ after = cc (sym f ∙ e) in
            let shape : frame ++ more ≡ head ++ (body ++ more) =
              ap (λ xs. xs ++ more) (sym same) ∙ append_assoc head body more in
            let opened =
              decode_frame_lem head body more bytes nonce short a b (rw (← shape) fits) in
            cc (shape, last, opened)
        | inr (failed, _) ↦ absurd (ground (arith, e, failed))
      ]

  -- For a cipher that opens what it sealed and adds 16 bytes: `encode_frame` gives a frame of 34
  -- bytes more than the data, within the largest frame, and leaves the nonce incremented twice, or
  -- it fails with an encryption error, and then the data are longer than 65535 bytes or the cipher
  -- refused the length or the data.
  pub encode_frame_lem :
      (bytes nonce : List ℕ)
      → ((frame : List ℕ) × (encode_frame seal bytes nonce
            ≡ (ok frame, increment_nonce (increment_nonce nonce)))
          × (length frame ≡ length bytes + 34)
          × (length frame ≤ max_frame_size))
        ⊎ (((encode_frame seal bytes nonce).0 ≡ err encryption_failed)
            × ((65535 < length bytes)
                ⊎ ((seal nonce (to_be 2 (length bytes)) ≡ none)
                    ⊎ (seal (increment_nonce nonce) bytes ≡ none))))
  encode_frame_lem bytes nonce = elim (encode_frame_cases bytes nonce) [
    | inl (head, body, short, a, b, e) ↦
        let size : length (head ++ body) ≡ length bytes + 34 = omega (
          arith,
          length-append head body,
          length-seal nonce (to_be 2 (length bytes)) head a,
          length-seal (increment_nonce nonce) bytes body b,
          length-to_be 2 (length bytes),
        ) in
        inl (head ++ body, e, size, omega (arith, size))
    | inr failed ↦ inr failed
  ]
