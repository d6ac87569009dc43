-- ===== src/Multiplex/Frame.antt =====
-- MultiplexedFrame, parse_frames and FrameCodec of rvpn/crates/rvpn-core/src/protocol/multiplex.rs.
-- A `BytesMut` is the list of its bytes. `bincode`, which the source calls for control messages, is a
-- parameter.
use r_vpn_core.Common.{
  ℕ, zero, suc, ◌+◌, Bool, true, false, List, [], ◌∷◌, ◌++◌, Option, none, some, ltb, leb, ◌==◌,
  if◌then◌else◌, length, take, drop, Result, ok, err,
}
use r_vpn_core.Common.Bytes.{to_be, from_be}

abbrev pub max_payload_size : ℕ
max_payload_size = 65535

abbrev pub control_flow_id : ℕ
control_flow_id = 0

pub record MultiplexedFrame : Type 0 where
  pub flow_id : ℕ
  pub payload : List ℕ

-- A `String` is its bytes.
pub data ControlMessage : Type 0 where
  create_flow : (flow_id : ℕ) (target : List ℕ) (port : ℕ) → ControlMessage
  close_flow : (flow_id : ℕ) → ControlMessage
  flow_created : (flow_id : ℕ) (local_port : Option ℕ) → ControlMessage
  flow_failed : (flow_id : ℕ) (error : List ℕ) → ControlMessage
  ping : (timestamp : ℕ) → ControlMessage
  pong : (timestamp : ℕ) → ControlMessage
  window_update : (flow_id : ℕ) (window_size : ℕ) → ControlMessage

pub data MultiplexError : Type 0 where
  frame_too_large : (size : ℕ) (limit : ℕ) → MultiplexError
  invalid_frame : MultiplexError
  incomplete_data : (expected : ℕ) (actual : ℕ) → MultiplexError
  serialization_error : MultiplexError

unfoldable pub encode : MultiplexedFrame → Result MultiplexError (List ℕ)
encode f =
    if ltb max_payload_size (length f.payload)
    then err (frame_too_large (length f.payload) max_payload_size)
    else ok (to_be 4 f.flow_id ++ (to_be 2 (length f.payload) ++ f.payload))

-- Appends to the buffer; on an error the buffer is as it was.
unfoldable pub encode_to : MultiplexedFrame → List ℕ → Result MultiplexError (Unit {0}) × List ℕ
encode_to f dst =
    if ltb max_payload_size (length f.payload)
    then (err (frame_too_large (length f.payload) max_payload_size), dst)
    else (ok tt, dst ++ (to_be 4 f.flow_id ++ (to_be 2 (length f.payload) ++ f.payload)))

-- Bytes 4 and 5: the length of the payload.
unfoldable pub payload_len : List ℕ → ℕ
payload_len bytes = from_be (take 2 (drop 4 bytes))

-- The frame in the first `total` bytes, `total` at most the length.
unfoldable pub frame_of : List ℕ → ℕ → MultiplexedFrame
frame_of bytes total = record {
  flow_id = from_be (take 4 bytes);
  payload = drop 6 (take total bytes);
}

unfoldable pub decode : List ℕ → Result MultiplexError MultiplexedFrame
decode bytes =
    let total = 6 + payload_len bytes in
    if ltb (length bytes) 6
    then err (incomplete_data 6 (length bytes))
    else if ltb (length bytes) total
    then err (incomplete_data total (length bytes))
    else ok (frame_of bytes total)

-- `decode_from_buffer` and `FrameCodec::decode_next`: the frame, if it is complete, and the buffer
-- that is left. They never return an error.
unfoldable pub decode_from_buffer : List ℕ → Option MultiplexedFrame × List ℕ
decode_from_buffer buf =
    let total = 6 + payload_len buf in
    if ltb (length buf) 6
    then (none, buf)
    else if ltb (length buf) total
    then (none, buf)
    else (some (frame_of buf total), drop total buf)

unfoldable pub is_control : MultiplexedFrame → Bool
is_control f = f.flow_id == control_flow_id

unfoldable pub frame_size : MultiplexedFrame → ℕ
frame_size f = 6 + length f.payload

-- The loop of `parse_frames`; `none` means that the fuel ran out.
unfoldable pub parse_loop :
    ℕ → List ℕ → ℕ → List MultiplexedFrame → Option (List MultiplexedFrame × ℕ)
parse_loop zero bytes pos frames = none
parse_loop (suc fuel) bytes pos frames = elim (leb (pos + 6) (length bytes)) [
  | true ↦
      let total = 6 + payload_len (drop pos bytes) in
      elim (ltb (length bytes) (pos + total)) [
        | true ↦ some (frames, pos)
        | false ↦ elim (decode (take total (drop pos bytes))) [
          | ok frame ↦ parse_loop fuel bytes (pos + total) (frames ++ (frame ∷ []))
          | err e ↦ some (frames, pos)
        ]
      ]
  | false ↦ some (frames, pos)
]

-- Every round takes at least six bytes, so one round more than there are bytes is enough.
unfoldable pub parse_frames : List ℕ → Option (List MultiplexedFrame × ℕ)
parse_frames bytes = parse_loop (suc (length bytes)) bytes 0 []

pub record FrameCodec : Type 0 where
  pub buffer : List ℕ

unfoldable pub new_codec : FrameCodec
new_codec = record { buffer = [] }

unfoldable pub feed : FrameCodec → List ℕ → FrameCodec
feed c bytes = record { buffer = c.buffer ++ bytes }

unfoldable pub decode_next : FrameCodec → Option MultiplexedFrame × FrameCodec
decode_next c = let (frame, rest) = decode_from_buffer c.buffer in (frame, record { buffer = rest })

unfoldable pub clear : FrameCodec → FrameCodec
clear c = record { buffer = [] }

unfoldable pub buffer_len : FrameCodec → ℕ
buffer_len c = length c.buffer

module _ (serialize : ControlMessage → Option (List ℕ))
    (deserialize : List ℕ → Option ControlMessage) where
  unfoldable pub new_control : ControlMessage → Result MultiplexError MultiplexedFrame
  new_control m = elim (serialize m) [
    | none ↦ err serialization_error
    | some payload ↦ ok (record { flow_id = control_flow_id; payload = payload })
  ]

  unfoldable pub parse_control : MultiplexedFrame → Result MultiplexError ControlMessage
  parse_control f =
      if is_control f
      then elim (deserialize f.payload) [ none ↦ err serialization_error | some m ↦ ok m ]
      else err invalid_frame
