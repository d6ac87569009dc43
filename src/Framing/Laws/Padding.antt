-- ===== src/Framing/Laws/Padding.antt =====
-- What was padded is unpadded to the same bytes, and its size says little
-- (rvpn/crates/rvpn-core/src/protocol/padding.rs and frame_padding.rs).
use r_vpn_core.Common.{
  ℕ, ◌+◌, ◌-◌, ◌%◌, ◌^◌, ◌≤◌, ◌<◌, ◌≡◌, ◌≢◌, ◌⊎◌, refl, ap, sym, ◌∙◌, inl, inr, List, [], ◌∷◌, ◌++◌,
  append_assoc, arith, length, length-append, length-replicate, replicate, take, drop, take-append,
  drop-append, ok, err, length-take,
}
use r_vpn_core.Common.Bytes.{to_be, from_be, length-to_be, from_be-to_be}
use r_vpn_core.Framing.FramePadding.{pad_frame, unpad_frame}
use r_vpn_core.Framing.PacketPadding.{
  pad_packet, unpad_packet, padded_size, target_size, div_ceil, data_too_large, padding_block_size,
}

-- A frame of fewer than 2 ^ 16 bytes is unpadded to the same bytes, whatever the padding.
pub unpad_frame-pad_frame :
    (padding bytes : List ℕ)
    → length bytes < 2 ^ 16
    → unpad_frame (pad_frame padding bytes) ≡ ok bytes
unfolding unpad_frame pad_frame
unpad_frame-pad_frame padding bytes h =
    let size : length bytes % 2 ^ 16 ≡ length bytes = omega arith in
    let prefix = to_be 2 (length bytes) in
    let cut : take 2 (prefix ++ (bytes ++ padding)) ≡ prefix =
      take-append 2 prefix (bytes ++ padding) (length-to_be 2 (length bytes)) in
    let read : from_be (take 2 (prefix ++ (bytes ++ padding))) ≡ length bytes =
      rw cut (from_be-to_be 2 (length bytes) h) in
    rw size (
      ground (
        arith,
        read,
        length-append prefix (bytes ++ padding),
        length-append bytes padding,
        length-to_be 2 (length bytes),
        drop-append 2 prefix (bytes ++ padding) (length-to_be 2 (length bytes)),
        take-append (length bytes) bytes padding refl,
      ))

-- A frame of 2 ^ 16 bytes or more is not unpadded to the same bytes, whatever the padding.
pub unpad_frame-long :
    (padding bytes : List ℕ)
    → 2 ^ 16 ≤ length bytes
    → unpad_frame (pad_frame padding bytes) ≢ ok bytes
unfolding unpad_frame pad_frame
unpad_frame-long padding bytes h e =
    let n = length bytes % 2 ^ 16 in
    let prefix = to_be 2 n in
    let cut : take 2 (prefix ++ (bytes ++ padding)) ≡ prefix =
      take-append 2 prefix (bytes ++ padding) (length-to_be 2 n) in
    let read : from_be (take 2 (prefix ++ (bytes ++ padding))) ≡ n =
      rw cut (from_be-to_be 2 n (omega arith)) in
    ground (arith, read, length-take n (drop 2 (prefix ++ (bytes ++ padding))))

-- Two length bytes behind the padding tell how much to take off.
unpad_packet-append :
    (bytes padding : List ℕ)
    → length padding < 2 ^ 16
    → unpad_packet (bytes ++ (padding ++ to_be 2 (length padding))) ≡ ok bytes
unfolding unpad_packet
unpad_packet-append bytes padding h =
    let mark = to_be 2 (length padding) in
    let all = bytes ++ (padding ++ mark) in
    let size : length all ≡ length bytes + length padding + 2 = omega (
      arith,
      length-append bytes (padding ++ mark),
      length-append padding mark,
      length-to_be 2 (length padding),
    ) in
    let front : length (bytes ++ padding) ≡ length all - 2 =
      omega (arith, size, length-append bytes padding) in
    let cut : drop (length all - 2) all ≡ mark =
      ap (drop (length all - 2)) (sym (append_assoc bytes padding mark))
      ∙ drop-append (length all - 2) (bytes ++ padding) mark front in
    let read : from_be (drop (length all - 2) all) ≡ length padding =
      rw cut (from_be-to_be 2 (length padding) h) in
    let rest : length all - 2 - length padding ≡ length bytes = omega (arith, size) in
    ground (arith, size, read, rest, take-append (length bytes) bytes (padding ++ mark) refl)

-- The size of the padded data, whatever their length.
target_size_lem :
    (n : ℕ)
    → ((n ≤ 16382) × (n + 2 ≤ target_size n) × (target_size n ≤ 16384) × (target_size n % 1024 ≡ 0))
      ⊎ ((16382 < n) × (target_size n ≡ 16384))
unfolding target_size div_ceil
target_size_lem n = ground arith

module _ (noise : ℕ → List ℕ) (noise-length : (n : ℕ) → length (noise n) ≡ n) where
  abbrev pub Padded : List ℕ → Type 0
  Padded bytes =
      (padded : List ℕ) × (pad_packet noise bytes ≡ ok padded)
      × (length padded ≡ padded_size (length bytes))
      × (length padded % padding_block_size ≡ 0)
      × (unpad_packet padded ≡ ok bytes)

  pad_packet_empty : Padded []
  unfolding pad_packet padded_size
  pad_packet_empty =
      let zeros = replicate 1022 0 in
      let size : length (zeros ++ to_be 2 1022) ≡ 1024 = omega (
        arith,
        length-append zeros (to_be 2 1022),
        length-replicate {A = ℕ} 1022 0,
        length-to_be 2 1022,
      ) in
      let mark : length zeros ≡ 1022 = length-replicate {A = ℕ} 1022 0 in
      let back : unpad_packet (zeros ++ to_be 2 1022) ≡ ok [] =
        ap (λ n. unpad_packet (zeros ++ to_be 2 n)) (sym mark)
        ∙ unpad_packet-append [] zeros (omega (arith, mark)) in
      (zeros ++ to_be 2 1022, refl, size, rw size refl, back)

  pad_packet_short : (bytes : List ℕ) → 0 < length bytes → length bytes ≤ 16382 → Padded bytes
  unfolding pad_packet padded_size
  pad_packet_short [] pos h = absurd (omega arith)
  pad_packet_short (b ∷ bs) pos h =
      let n = length (b ∷ bs) in
      let k = target_size n - 2 - n in
      let mark = to_be 2 (k % 2 ^ 16) in
      let padded = (b ∷ bs) ++ (noise k ++ mark) in
      let bound : k % 2 ^ 16 ≡ k = omega (arith, target_size_lem n) in
      let size : length padded ≡ target_size n = omega (
        arith,
        target_size_lem n,
        length-append (b ∷ bs) (noise k ++ mark),
        length-append (noise k) mark,
        length-to_be 2 (k % 2 ^ 16),
        noise-length k,
      ) in
      let back : unpad_packet padded ≡ ok (b ∷ bs) =
        ap (λ m. unpad_packet ((b ∷ bs) ++ (noise k ++ to_be 2 m))) (bound ∙ sym (noise-length k))
        ∙ unpad_packet-append (b ∷ bs) (noise k)
            (omega (arith, target_size_lem n, noise-length k)) in
      (
        padded,
        ground (arith, target_size_lem n),
        ground (arith, size),
        omega (arith, size, target_size_lem n),
        back,
      )

  -- Given a source of random bytes of the length asked for: data of up to 16382 bytes are padded
  -- to the size that `padded_size` tells, which is a multiple of 1024, and unpadded to the same
  -- data; longer data are refused with their length and the limit.
  pub pad_packet_lem :
      (bytes : List ℕ)
      → ((length bytes ≤ 16382) × Padded bytes)
        ⊎ ((16382 < length bytes)
            × (pad_packet noise bytes ≡ err (data_too_large (length bytes) 16382)))
  unfolding pad_packet padded_size
  pad_packet_lem [] = inl (omega arith, pad_packet_empty)
  pad_packet_lem (b ∷ bs) = elim (target_size_lem (length (b ∷ bs))) [
    | inl (short, _, _, _) ↦ inl (short, pad_packet_short (b ∷ bs) (omega arith) short)
    | inr (long, size) ↦ inr (long, ground (arith, size))
  ]
