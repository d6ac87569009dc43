-- ===== src/Multiplex/Tests.antt =====
-- The multiplexed frames and the credit gate on concrete input
-- (rvpn/crates/rvpn-core/src/protocol/multiplex.rs).
use r_vpn_core.Common.{
  ℕ, ◌+◌, ◌*◌, ◌≤◌, ◌≡◌, refl, true, false, List, [], ◌∷◌, some, arith, length, drop,
}
use r_vpn_core.Common.Bytes.{to_be, from_be, from_be_acc}
use r_vpn_core.Multiplex.Frame.{
  MultiplexedFrame, FrameCodec, decode_from_buffer, payload_len, frame_of, new_codec, feed,
  decode_next, parse_frames,
}
use r_vpn_core.Multiplex.Credits.{
  new_credits, try_consume, grant, apply_op, apply_ops, grant_ops, Session, start, swap, give, load,
  exchange, retry, grant_from_peer, Reach, here, next, initial_flow_window, u64_max, trying,
}
use r_vpn_core.Multiplex.Laws.Frames.{wire}
use r_vpn_core.Multiplex.Laws.Stream.{Drains, done, pull, Feeds, stop, chunk, concat, Feeds-Drains}
use r_vpn_core.Multiplex.Laws.Reassembly.{
  codec, wires, Feeds-wires, Feeds-total, parse_frames-Drains,
}
use r_vpn_core.Multiplex.Waiting.{Waiting, parked}
use r_vpn_core.Multiplex.Laws.Gate.{consumed-le-granted, consumed-exact, Reach-try_consume}

abbrev a_frame : MultiplexedFrame
a_frame = record { flow_id = 5; payload = 1 ∷ 2 ∷ [] }

abbrev empty_frame : MultiplexedFrame
empty_frame = record { flow_id = 0; payload = [] }

-- The first frame, and one byte of the second.
abbrev first_chunk : List ℕ
first_chunk = 0 ∷ 0 ∷ 0 ∷ 5 ∷ 0 ∷ 2 ∷ 1 ∷ 2 ∷ 0 ∷ []

-- The rest of the second frame, and three bytes of a third.
abbrev second_chunk : List ℕ
second_chunk = 0 ∷ 0 ∷ 0 ∷ 0 ∷ 0 ∷ 7 ∷ 7 ∷ 7 ∷ []

abbrev two_chunks : List (List ℕ)
two_chunks = first_chunk ∷ second_chunk ∷ []

two_chunks-Feeds : Feeds new_codec two_chunks (a_frame ∷ empty_frame ∷ []) (codec (7 ∷ 7 ∷ 7 ∷ []))
unfolding new_codec feed decode_next decode_from_buffer payload_len frame_of from_be from_be_acc
two_chunks-Feeds =
    chunk (pull refl (done {c = codec (0 ∷ [])} refl))
      (chunk (pull refl (done {c = codec (7 ∷ 7 ∷ 7 ∷ [])} refl)) stop)

Feeds-wires_example :
    (a_frame ∷ empty_frame ∷ [] ≡ a_frame ∷ empty_frame ∷ [])
    × (codec (7 ∷ 7 ∷ 7 ∷ []) ≡ codec (7 ∷ 7 ∷ 7 ∷ []))
unfolding wires wire to_be decode_next decode_from_buffer payload_len from_be from_be_acc
Feeds-wires_example =
    Feeds-wires (a_frame ∷ empty_frame ∷ []) (a_frame ∷ empty_frame ∷ []) two_chunks
      (7 ∷ 7 ∷ 7 ∷ []) (codec (7 ∷ 7 ∷ 7 ∷ []))
      (
        record { id = omega arith; size = omega arith },
        (record { id = omega arith; size = omega arith }, tt),
      )
      refl refl two_chunks-Feeds

Feeds-total_example :
    (fs : List MultiplexedFrame) × (d : FrameCodec) × Feeds new_codec two_chunks fs d
Feeds-total_example = Feeds-total new_codec two_chunks

Feeds-Drains_example :
    Drains
      (feed new_codec (concat two_chunks))
      (a_frame ∷ empty_frame ∷ [])
      (codec (7 ∷ 7 ∷ 7 ∷ []))
unfolding new_codec decode_next decode_from_buffer
Feeds-Drains_example = Feeds-Drains {c = new_codec} refl two_chunks-Feeds

parse_frames-Drains_example :
    (fs : List MultiplexedFrame) × (p : ℕ) × (parse_frames first_chunk ≡ some (fs, p))
    × Drains (codec first_chunk) fs (codec (drop p first_chunk))
    × (p ≤ length first_chunk)
parse_frames-Drains_example = parse_frames-Drains first_chunk (
  omega arith,
  (
    omega arith,
    (
      omega arith,
      (omega arith, (omega arith, (omega arith, (omega arith, (omega arith, (omega arith, tt)))))),
    ),
  ),
)

-- The consumer loads, the peer grants, the exchange fails, and 1000 bytes go out.
abbrev one_granted : Session
one_granted = give (record start { phase = trying (256 * 1024) 1000 }) 500

abbrev after_send : Session
after_send =
    swap (record one_granted { phase = trying (256 * 1024 + 500) 1000 }) (256 * 1024 + 500) 1000

after_send-Reach : Reach after_send
unfolding start new_credits give grant swap apply_op apply_ops grant_ops
after_send-Reach =
    let loaded = next here (load 1000 refl) in
    let retried =
      next (next loaded (grant_from_peer 500)) (retry (256 * 1024) 1000 refl (omega arith)) in
    next retried (exchange (256 * 1024 + 500) 1000 refl (omega arith) refl)

consumed-le-granted_example :
    (after_send.consumed ≤ initial_flow_window + after_send.total_granted)
    × (after_send.gate.credits ≤ u64_max)
consumed-le-granted_example = consumed-le-granted after_send-Reach

consumed-exact_example :
    after_send.consumed + after_send.gate.credits ≡ initial_flow_window + after_send.total_granted
unfolding give grant swap start new_credits apply_op apply_ops grant_ops
consumed-exact_example = consumed-exact after_send-Reach (omega arith)

Reach-try_consume_example :
    let (taken, gate) = try_consume start.gate 1500 in
    Reach (record start { gate = gate; consumed = start.consumed + taken })
unfolding start
Reach-try_consume_example = Reach-try_consume start 1500 here refl

-- The task used up the window and saw no credit; nine were granted before it parked, and the
-- `notify_one` of that call came after.
abbrev granted_late : Waiting
granted_late = record {
  gate = record { credits = 9; is_closed = false; notified = true };
  calls = [] ∷ [];
  waiter = parked;
}

-- Too short for a header.
abbrev two_bytes : List ℕ
two_bytes = 1 ∷ 2 ∷ []
