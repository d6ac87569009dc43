-- ===== src/Multiplex/Laws/Reassembly.antt =====
-- The sender's frames come out of the receiver's codec, and out of `parse_frames`, whole and in order
-- (rvpn/crates/rvpn-core/src/protocol/multiplex.rs).
use r_vpn_core.Common.{
  ℕ, zero, suc, ◌+◌, ◌≤◌, ◌<◌, ◌≡◌, ◌⊎◌, refl, ap, ◌∙◌, inl, inr, List, [], ◌∷◌, ◌++◌, append_assoc,
  append-nil, none, some, arith, length, length-append, length-drop, take, drop, All, All-split, ok,
  take-append, drop-append, drop-drop, Option-cases,
}
use r_vpn_core.Common.Bytes.{IsByte}
use r_vpn_core.Multiplex.Frame.{
  MultiplexedFrame, FrameCodec, decode_from_buffer, decode_next, feed, new_codec, payload_len,
  decode, parse_loop, parse_frames,
}
use r_vpn_core.Multiplex.Laws.Frames.{
  wire, IsFrame, length-wire, decode_from_buffer-wire, decode_from_buffer_cases, decode-wire,
  payload_len-wire,
}
use r_vpn_core.Multiplex.Laws.Stream.{
  Drains, done, pull, Drains-unique, Feeds, stop, chunk, concat, Feeds-Drains,
}

abbrev pub codec : List ℕ → FrameCodec
codec bytes = record { buffer = bytes }

-- The bytes of a sequence of frames.
unfoldable pub wires : List MultiplexedFrame → List ℕ
wires [] = []
wires (f ∷ fs) = wire f ++ wires fs

decode_next-wire :
    (f : MultiplexedFrame) (rest : List ℕ)
    → IsFrame f
    → decode_next (codec (wire f ++ rest)) ≡ (some f, codec rest)
unfolding decode_next
decode_next-wire f rest h = rw (decode_from_buffer-wire f rest h)

Drains-wires :
    (fs : List MultiplexedFrame) (tail : List ℕ)
    → All IsFrame fs
    → decode_next (codec tail) ≡ (none, codec tail)
    → Drains (codec (wires fs ++ tail)) fs (codec tail)
unfolding wires
Drains-wires [] tail h e = done e
Drains-wires (f ∷ fs) tail h e =
    rw (append_assoc)
      (pull (decode_next-wire f (wires fs ++ tail) h.0) (Drains-wires fs tail h.1 e))

new_codec-none : decode_next new_codec ≡ (none, new_codec)
unfolding new_codec decode_next decode_from_buffer
new_codec-none = refl

-- However the bytes of the frames `fs`, with an unfinished frame `tail` behind them, are cut into
-- chunks, a new codec that is fed the chunks and drained after each gives exactly `fs`, in order,
-- and keeps exactly `tail`; the frames are within the wire format's limits.
pub Feeds-wires :
    (fs gs : List MultiplexedFrame) (chunks : List (List ℕ)) (tail : List ℕ) (d : FrameCodec)
    → All IsFrame fs
    → decode_next (codec tail) ≡ (none, codec tail)
    → concat chunks ≡ wires fs ++ tail
    → Feeds new_codec chunks gs d
    → (gs ≡ fs) × (d ≡ codec tail)
unfolding new_codec feed
Feeds-wires fs gs chunks tail d h e same r =
    Drains-unique (rw same at (Feeds-Drains new_codec-none r)) (Drains-wires fs tail h e)

-- A frame that is taken off leaves fewer bytes.
decode_next_shorter :
    (c d : FrameCodec) (f : MultiplexedFrame)
    → decode_next c ≡ (some f, d)
    → length d.buffer < length c.buffer
unfolding decode_next decode_from_buffer
decode_next_shorter c d f e = ground (arith, length-drop (6 + payload_len c.buffer) c.buffer)

next_none : (c : FrameCodec) → (decode_next c).0 ≡ none → decode_next c ≡ (none, c)
unfolding decode_next decode_from_buffer
next_none c e = ground arith

next_cases :
    (c : FrameCodec)
    → (decode_next c ≡ (none, c))
      ⊎ ((f : MultiplexedFrame) × (d : FrameCodec) × (decode_next c ≡ (some f, d)))
next_cases c = elim (Option-cases (decode_next c).0) [
  | inl e ↦ inl (next_none c e)
  | inr (f, e) ↦ inr (f, (decode_next c).1, ground arith)
]

Drains-total :
    (n : ℕ) (c : FrameCodec)
    → length c.buffer < n
    → (fs : List MultiplexedFrame) × (d : FrameCodec) × Drains c fs d
Drains-total zero c h = absurd (omega arith)
Drains-total (suc n) c h = elim (next_cases c) [
  | inl e ↦ ([], c, done e)
  | inr (f, d, e) ↦
      let (fs, left, a) = Drains-total n d (omega (arith, decode_next_shorter c d f e)) in
      (f ∷ fs, left, pull e a)
]

-- Draining always ends: for every codec and every sequence of chunks there are frames and a codec
-- at which feeding the chunks, each drained before the next, ends.
pub Feeds-total :
    (c : FrameCodec) (chunks : List (List ℕ))
    → (fs : List MultiplexedFrame) × (d : FrameCodec) × Feeds c chunks fs d
Feeds-total c [] = ([], c, stop)
Feeds-total c (bytes ∷ chunks) =
    let (fs, d, a) =
      Drains-total (suc (length (feed c bytes).buffer)) (feed c bytes) (omega arith) in
    let (gs, e, b) = Feeds-total d chunks in (fs ++ gs, e, chunk a b)

decode_next_stays :
    (bytes : List ℕ)
    → decode_from_buffer bytes ≡ (none, bytes)
    → decode_next (codec bytes) ≡ (none, codec bytes)
unfolding decode_next
decode_next_stays bytes e = rw e

decode_next_gives :
    (bytes rest : List ℕ) (f : MultiplexedFrame)
    → decode_from_buffer bytes ≡ (some f, rest)
    → decode_next (codec bytes) ≡ (some f, codec rest)
unfolding decode_next
decode_next_gives bytes rest f e = rw e

parse_stop :
    (fuel : ℕ) (bytes : List ℕ) (pos : ℕ) (acc : List MultiplexedFrame)
    → pos ≤ length bytes
    → (length (drop pos bytes) < 6) ⊎ (length (drop pos bytes) < 6 + payload_len (drop pos bytes))
    → parse_loop (suc fuel) bytes pos acc ≡ some (acc, pos)
unfolding parse_loop
parse_stop fuel bytes pos acc h short = ground (arith, length-drop pos bytes)

parse_step :
    (fuel : ℕ) (bytes rest : List ℕ) (pos : ℕ) (acc : List MultiplexedFrame) (f : MultiplexedFrame)
    → pos ≤ length bytes
    → IsFrame f
    → drop pos bytes ≡ wire f ++ rest
    → parse_loop (suc fuel) bytes pos acc
      ≡ parse_loop fuel bytes (pos + (6 + length f.payload)) (acc ++ (f ∷ []))
unfolding parse_loop
parse_step fuel bytes rest pos acc f h fits exact =
    let total : 6 + payload_len (drop pos bytes) ≡ 6 + length f.payload =
      omega (arith, ap payload_len exact, payload_len-wire f rest fits) in
    let room : pos + (6 + length f.payload) ≤ length bytes =
      omega (
        arith,
        length-drop pos bytes,
        ap length exact,
        length-append (wire f) rest,
        length-wire f,
      ) in
    let read : decode (take (6 + length f.payload) (drop pos bytes)) ≡ ok f =
      rw
        (
          exact,
          take-append (6 + length f.payload) (wire f) rest (length-wire f),
          ← append-nil (wire f),
        )
        (decode-wire f [] fits) in
    ground (arith, total, room, read)

parse_loop-Drains :
    (fuel : ℕ) (bytes : List ℕ) (pos : ℕ) (acc : List MultiplexedFrame)
    → All IsByte (drop pos bytes)
    → pos ≤ length bytes
    → length bytes < pos + fuel
    → (fs : List MultiplexedFrame) × (p : ℕ) × (parse_loop fuel bytes pos acc ≡ some (acc ++ fs, p))
      × Drains (codec (drop pos bytes)) fs (codec (drop p bytes))
      × (p ≤ length bytes)
parse_loop-Drains zero bytes pos acc hb hp hf = absurd (omega arith)
parse_loop-Drains (suc fuel) bytes pos acc hb hp hf =
    elim (decode_from_buffer_cases (drop pos bytes) hb) [
      | inl (e, short) ↦ (
        [],
        pos,
        rw append-nil (parse_stop fuel bytes pos acc hp short),
        done (decode_next_stays (drop pos bytes) e),
        hp,
      )
      | inr (f, rest, e, fits, exact) ↦
          let next = pos + (6 + length f.payload) in
          let behind : drop next bytes ≡ rest =
            rw (← drop-drop, exact) (drop-append _ (wire f) rest (length-wire f)) in
          let room : next ≤ length bytes = omega (
            arith,
            length-drop pos bytes,
            ap length exact,
            length-append (wire f) rest,
            length-wire f,
          ) in
          let (fs, p, run, drains, bound) =
            parse_loop-Drains fuel bytes next (acc ++ (f ∷ []))
              (rw behind (All-split IsByte (wire f) rest (rw exact at hb)).1) room (omega arith) in
          (
            f ∷ fs,
            p,
            parse_step fuel bytes rest pos acc f hp fits exact ∙ rw append_assoc at run,
            pull (decode_next_gives (drop pos bytes) (drop next bytes) f (rw behind e)) drains,
            bound,
          )
    ]

-- On bytes, `parse_frames` ends with enough fuel and gives the frames that draining a codec with
-- these bytes gives; the bytes from the returned position on, which is within the input, are the
-- ones that the codec keeps.
pub parse_frames-Drains :
    (bytes : List ℕ)
    → All IsByte bytes
    → (fs : List MultiplexedFrame) × (p : ℕ) × (parse_frames bytes ≡ some (fs, p))
      × Drains (codec bytes) fs (codec (drop p bytes))
      × (p ≤ length bytes)
unfolding parse_frames
parse_frames-Drains bytes hb =
    parse_loop-Drains (suc (length bytes)) bytes 0 [] hb (omega arith) (omega arith)
