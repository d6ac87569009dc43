-- ===== src/Multiplex/Laws/Frames.antt =====
-- One frame of rvpn/crates/rvpn-core/src/protocol/multiplex.rs: encoding, decoding, and the buffer.
use r_vpn_core.Common.{
  ℕ, ◌+◌, ◌^◌, ◌≤◌, ◌<◌, ◌≡◌, ◌⊎◌, refl, ap, ◌∙◌, List, [], ◌∷◌, ◌++◌, none, some, append_assoc,
  arith, ltb, ltb→lt, ltb→le, Bool-cases, inl, inr, length, length-append, take, drop, take-append,
  drop-append, take-append-drop, length-take, ok, err, All, All-split, take-append_add,
  drop-append_add,
}
use r_vpn_core.Common.Bytes.{
  IsByte, to_be, from_be, length-to_be, from_be-to_be, to_be-from_be, from_be-lt,
}
use r_vpn_core.Multiplex.Frame.{
  MultiplexedFrame, frame_too_large, encode, encode_to, decode, decode_from_buffer, payload_len,
  frame_of, max_payload_size,
}

-- The bytes that `encode` writes for a frame of a legal size.
unfoldable pub wire : MultiplexedFrame → List ℕ
wire f = to_be 4 f.flow_id ++ (to_be 2 (length f.payload) ++ f.payload)

pub record IsFrame (f : MultiplexedFrame) : Type 0 where
  pub id : f.flow_id < 2 ^ 32
  pub size : length f.payload ≤ max_payload_size

pub length-wire : (f : MultiplexedFrame) → length (wire f) ≡ 6 + length f.payload
unfolding wire
length-wire f = omega (
  arith,
  length-append (to_be 4 f.flow_id) (to_be 2 (length f.payload) ++ f.payload),
  length-append (to_be 2 (length f.payload)) f.payload,
  length-to_be 4 f.flow_id,
  length-to_be 2 (length f.payload),
)

-- `encode` gives the wire form of a frame whose payload has at most 65535 bytes and refuses every
-- other frame with its size and the limit; `encode_to` appends the same bytes, and leaves the
-- buffer alone when it refuses.
pub encode_lem :
    (f : MultiplexedFrame) (dst : List ℕ)
    → ((length f.payload ≤ max_payload_size)
        × (encode f ≡ ok (wire f))
        × (encode_to f dst ≡ (ok tt, dst ++ wire f)))
      ⊎ ((max_payload_size < length f.payload)
          × (encode f ≡ err (frame_too_large (length f.payload) max_payload_size))
          × (encode_to f dst ≡ (err (frame_too_large (length f.payload) max_payload_size), dst)))
unfolding encode encode_to wire
encode_lem f dst = ground arith

pub payload_len-wire :
    (f : MultiplexedFrame) (rest : List ℕ)
    → IsFrame f
    → payload_len (wire f ++ rest) ≡ length f.payload
unfolding payload_len wire
payload_len-wire f rest h =
    rw
      (
        append_assoc,
        append_assoc,
        drop-append 4 (to_be 4 f.flow_id) _ (length-to_be 4 f.flow_id),
        take-append 2 (to_be 2 (length f.payload)) _ (length-to_be 2 (length f.payload)),
      )
      (from_be-to_be 2 (length f.payload) (omega arith))

length-header :
    (f : MultiplexedFrame) → length (to_be 4 f.flow_id ++ to_be 2 (length f.payload)) ≡ 6
length-header f = omega (
  arith,
  length-append (to_be 4 f.flow_id) (to_be 2 (length f.payload)),
  length-to_be 4 f.flow_id,
  length-to_be 2 (length f.payload),
)

frame_of-wire :
    (f : MultiplexedFrame) (rest : List ℕ)
    → IsFrame f
    → frame_of (wire f ++ rest) (6 + length f.payload) ≡ f
unfolding frame_of
frame_of-wire f rest h =
    let n = length f.payload in
    let head : take 4 (wire f ++ rest) ≡ to_be 4 f.flow_id =
      unfold wire in
      rw append_assoc (take-append 4 (to_be 4 f.flow_id) _ (length-to_be 4 f.flow_id)) in
    let tail : drop 6 (wire f) ≡ f.payload =
      unfold wire in rw (← append_assoc) (drop-append 6 _ f.payload (length-header f)) in
    rw (
      head,
      from_be-to_be 4 f.flow_id h.id,
      take-append (6 + n) (wire f) rest (length-wire f),
      tail,
    )

pub encode-ok :
    (f : MultiplexedFrame) (bytes : List ℕ)
    → f.flow_id < 2 ^ 32
    → encode f ≡ ok bytes
    → (bytes ≡ wire f) × IsFrame f
unfolding encode wire
encode-ok f bytes id e = ground arith

pub decode_from_buffer-wire :
    (f : MultiplexedFrame) (rest : List ℕ)
    → IsFrame f
    → decode_from_buffer (wire f ++ rest) ≡ (some f, rest)
unfolding decode_from_buffer
decode_from_buffer-wire f rest h = ground (
  arith,
  length-append (wire f) rest,
  length-wire f,
  payload_len-wire f rest h,
  frame_of-wire f rest h,
  drop-append (6 + length f.payload) (wire f) rest (length-wire f),
)

header_split :
    (buf : List ℕ)
    → 6 ≤ length buf
    → (head : List ℕ) × (size : List ℕ) × (back : List ℕ) × (buf ≡ head ++ (size ++ back))
      × (length head ≡ 4)
      × (length size ≡ 2)
header_split (a ∷ b ∷ c ∷ d ∷ m ∷ n ∷ back) h =
    (a ∷ b ∷ c ∷ d ∷ [], m ∷ n ∷ [], back, refl, refl, refl)
header_split [] h = absurd (omega arith)
header_split (_ ∷ []) h = absurd (omega arith)
header_split (_ ∷ _ ∷ []) h = absurd (omega arith)
header_split (_ ∷ _ ∷ _ ∷ []) h = absurd (omega arith)
header_split (_ ∷ _ ∷ _ ∷ _ ∷ []) h = absurd (omega arith)
header_split (_ ∷ _ ∷ _ ∷ _ ∷ _ ∷ []) h = absurd (omega arith)

-- A whole frame at the front of a buffer is the wire form of what is read there.
frame_of_inv :
    (buf : List ℕ)
    → All IsByte buf
    → 6 ≤ length buf
    → 6 + payload_len buf ≤ length buf
    → IsFrame (frame_of buf (6 + payload_len buf))
      × (buf ≡ wire (frame_of buf (6 + payload_len buf)) ++ drop (6 + payload_len buf) buf)
unfolding frame_of payload_len wire
frame_of_inv buf hb long whole =
    let (head, size, back, e, l4, l2) = header_split buf long in
    let (hh, hr) = All-split IsByte head (size ++ back) (rw e at hb) in
    let (hz, hk) = All-split IsByte size back hr in
    let n = from_be size in
    let h6 : length (head ++ size) ≡ 6 = omega (arith, length-append head size) in
    let id_at : take 4 buf ≡ head = rw e (take-append 4 head _ l4) in
    let size_at : take 2 (drop 4 buf) ≡ size =
      rw (e, drop-append 4 head (size ++ back) l4) (take-append 2 size back l2) in
    let whole_at : take (6 + n) buf ≡ (head ++ size) ++ take n back =
      rw (e, ← append_assoc) (take-append_add 6 n (head ++ size) back h6) in
    let rest_at : drop (6 + n) buf ≡ drop n back =
      rw (e, ← append_assoc) (drop-append_add 6 n (head ++ size) back h6) in
    let size_read : from_be (take 2 (drop 4 buf)) ≡ n = ap from_be size_at in
    let room : n ≤ length back =
      omega (
        arith,
        size_read,
        ap length e,
        length-append head (size ++ back),
        length-append size back,
      ) in
    let payload_size : length (take n back) ≡ n = omega (arith, length-take n back) in
    rw (id_at, size_at, whole_at, rest_at, drop-append 6 (head ++ size) (take n back) h6)
      (rw payload_size (
        record {
          id = from_be-lt 4 head l4 hh;
          size = omega (arith, payload_size, from_be-lt 2 size l2 hz);
        },
        rw (to_be-from_be 4 head l4 hh, to_be-from_be 2 size l2 hz)
            (e ∙ rw (append_assoc, append_assoc, take-append-drop n back)),
      ))

pub decode-wire :
    (f : MultiplexedFrame) (rest : List ℕ) → IsFrame f → decode (wire f ++ rest) ≡ ok f
unfolding decode
decode-wire f rest h = ground (
  arith,
  length-append (wire f) rest,
  length-wire f,
  payload_len-wire f rest h,
  frame_of-wire f rest h,
)

-- What `encode` gives for a frame with a 32-bit flow id, with anything behind it, is decoded to
-- the frame.
pub decode-encode :
    (f : MultiplexedFrame) (bytes rest : List ℕ)
    → f.flow_id < 2 ^ 32
    → encode f ≡ ok bytes
    → decode (bytes ++ rest) ≡ ok f
decode-encode f bytes rest id e =
    let (same, h) = encode-ok f bytes id e in rw same (decode-wire f rest h)

-- What `encode` gives for a frame with a 32-bit flow id is taken off the front of a buffer as the
-- frame, and what follows it is left.
pub decode_from_buffer-encode :
    (f : MultiplexedFrame) (bytes rest : List ℕ)
    → f.flow_id < 2 ^ 32
    → encode f ≡ ok bytes
    → decode_from_buffer (bytes ++ rest) ≡ (some f, rest)
unfolding decode_from_buffer
decode_from_buffer-encode f bytes rest id e =
    let (same, h) = encode-ok f bytes id e in rw same (decode_from_buffer-wire f rest h)

-- On a buffer of bytes `decode_from_buffer` either gives nothing and leaves the buffer as it is,
-- which then is shorter than the header or than the frame that the header tells, or gives a frame
-- within the limits such that its wire form and the buffer left are the old buffer.
pub decode_from_buffer_cases :
    (buf : List ℕ)
    → All IsByte buf
    → ((decode_from_buffer buf ≡ (none, buf))
        × ((length buf < 6) ⊎ (length buf < 6 + payload_len buf)))
      ⊎ ((f : MultiplexedFrame) × (rest : List ℕ) × (decode_from_buffer buf ≡ (some f, rest))
          × IsFrame f
          × (buf ≡ wire f ++ rest))
unfolding decode_from_buffer
decode_from_buffer_cases buf hb = elim (Bool-cases (ltb (length buf) 6)) [
  | inl short ↦ inl (rw short, inl (ltb→lt _ _ short))
  | inr long ↦ elim (Bool-cases (ltb (length buf) (6 + payload_len buf))) [
    | inl short ↦ inl (rw (long, short), inr (ltb→lt _ _ short))
    | inr whole ↦
        let fits = ltb→le _ _ whole in
        let (limits, exact) = frame_of_inv buf hb (ltb→le _ _ long) fits in
        inr (
          frame_of buf (6 + payload_len buf),
          drop (6 + payload_len buf) buf,
          rw (long, whole),
          limits,
          exact,
        )
  ]
]
