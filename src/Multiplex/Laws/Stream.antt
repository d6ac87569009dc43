-- ===== src/Multiplex/Laws/Stream.antt =====
-- Many frames of rvpn/crates/rvpn-core/src/protocol/multiplex.rs: the streaming codec gives the same
-- frames however the bytes are cut into chunks, and `parse_frames` gives what the codec gives.
use r_vpn_core.Common.{
  ℕ, ◌+◌, ◌≤◌, ◌≡◌, refl, sym, ap, List, [], ◌∷◌, ◌++◌, append_assoc, append-nil, none, some, arith,
  length, length-append, drop, take-append_le, drop-append_le, length-drop,
}
use r_vpn_core.Multiplex.Frame.{
  MultiplexedFrame, FrameCodec, decode_from_buffer, decode_next, feed, payload_len, frame_of,
}
use mathlib.Core.Path.{ap₂}

-- `decode_next` is called until it answers `None`: the frames, and the codec that is left.
pub data Drains : FrameCodec → List MultiplexedFrame → FrameCodec → Type 0 where
  done : {c : FrameCodec} → decode_next c ≡ (none, c) → Drains c [] c
  pull :
      {c c' d : FrameCodec} {f : MultiplexedFrame} {fs : List MultiplexedFrame}
      → decode_next c ≡ (some f, c')
      → Drains c' fs d
      → Drains c (f ∷ fs) d

next_unique :
    (c : FrameCodec) {d e : FrameCodec} {f g : MultiplexedFrame}
    → decode_next c ≡ (some f, d)
    → decode_next c ≡ (some g, e)
    → (f ≡ g) × (d ≡ e)
next_unique c p q = ground arith

pub Drains-unique :
    {c d e : FrameCodec} {fs gs : List MultiplexedFrame}
    → Drains c fs d
    → Drains c gs e
    → (fs ≡ gs) × (d ≡ e)
Drains-unique (done p) (done q) = (refl, refl)
Drains-unique (done p) (pull q b) = absurd (cc)
Drains-unique (pull p a) (done q) = absurd (cc)
Drains-unique (pull p a) (pull q b) =
    let same_next = next_unique _ p q in
    let (same, left) = Drains-unique a (rw (← same_next.1) at b) in (ap₂ ◌∷◌ same_next.0 same, left)

payload_len-append :
    (buf more : List ℕ) → 6 ≤ length buf → payload_len (buf ++ more) ≡ payload_len buf
unfolding payload_len
payload_len-append buf more h = rw (
  drop-append_le 4 buf more (omega arith),
  take-append_le 2 (drop 4 buf) more (omega (arith, length-drop 4 buf)),
)

frame_of-append :
    (buf more : List ℕ) (total : ℕ)
    → 6 ≤ length buf
    → total ≤ length buf
    → frame_of (buf ++ more) total ≡ frame_of buf total
unfolding frame_of
frame_of-append buf more total h k =
    rw (take-append_le 4 buf more (omega arith), take-append_le total buf more k)

decode_from_buffer-append :
    (buf more rest : List ℕ) (f : MultiplexedFrame)
    → decode_from_buffer buf ≡ (some f, rest)
    → decode_from_buffer (buf ++ more) ≡ (some f, rest ++ more)
unfolding decode_from_buffer
decode_from_buffer-append buf more rest f e = ground (
  arith,
  length-append buf more,
  payload_len-append buf more,
  frame_of-append buf more (6 + payload_len buf),
  drop-append_le (6 + payload_len buf) buf more,
)

-- A frame that was there before more bytes came is there after.
pub decode_next-feed :
    (c c' : FrameCodec) (f : MultiplexedFrame) (bytes : List ℕ)
    → decode_next c ≡ (some f, c')
    → decode_next (feed c bytes) ≡ (some f, feed c' bytes)
unfolding decode_next feed
decode_next-feed c c' f bytes e =
    let (o, rest) = decode_from_buffer c.buffer in
    ground (arith, decode_from_buffer-append c.buffer bytes rest f)

Drains-feed :
    {c d e : FrameCodec} {fs gs : List MultiplexedFrame} (bytes : List ℕ)
    → Drains c fs d
    → Drains (feed d bytes) gs e
    → Drains (feed c bytes) (fs ++ gs) e
Drains-feed bytes (done p) b = b
Drains-feed bytes (pull p a) b = pull (decode_next-feed _ _ _ bytes p) (Drains-feed bytes a b)

pub Drains-end :
    {c d : FrameCodec} {fs : List MultiplexedFrame} → Drains c fs d → decode_next d ≡ (none, d)
Drains-end (done p) = p
Drains-end (pull p a) = Drains-end a

feed-nil : (c : FrameCodec) → feed c [] ≡ c
unfolding feed
feed-nil c = ap (λ b. record { buffer = b }) (append-nil c.buffer)

feed-feed : (c : FrameCodec) (xs ys : List ℕ) → feed c (xs ++ ys) ≡ feed (feed c xs) ys
unfolding feed
feed-feed c xs ys = ap (λ b. record { buffer = b }) (sym (append_assoc c.buffer xs ys))

-- The chunks of a connection as they arrive, each drained before the next.
pub data Feeds : FrameCodec → List (List ℕ) → List MultiplexedFrame → FrameCodec → Type 0 where
  stop : {c : FrameCodec} → Feeds c [] [] c
  chunk :
      {c d e : FrameCodec} {bytes : List ℕ} {chunks : List (List ℕ)} {fs gs : List MultiplexedFrame}
      → Drains (feed c bytes) fs d
      → Feeds d chunks gs e
      → Feeds c (bytes ∷ chunks) (fs ++ gs) e

abbrev pub concat : List (List ℕ) → List ℕ
concat [] = []
concat (bytes ∷ chunks) = bytes ++ concat chunks

-- A codec without a complete frame that is fed chunks and drained after each gives the frames, and
-- is left in the state, that draining once after all the bytes gives.
pub Feeds-Drains :
    {c d : FrameCodec} {chunks : List (List ℕ)} {fs : List MultiplexedFrame}
    → decode_next c ≡ (none, c)
    → Feeds c chunks fs d
    → Drains (feed c (concat chunks)) fs d
Feeds-Drains {c} e stop = rw (feed-nil c) (done e)
Feeds-Drains {c} e (chunk {bytes = bytes} {chunks = chunks} a r) =
    rw (feed-feed c bytes (concat chunks))
      (Drains-feed (concat chunks) a (Feeds-Drains (Drains-end a) r))
