-- ===== src/Multiplex/Laws/Gate.antt =====
-- The credit gate of rvpn/crates/rvpn-core/src/protocol/multiplex.rs never lets a sender run ahead of
-- what its peer granted.
use r_vpn_core.Common.{ℕ, ap, inl, inr, ◌==◌, ==_iff, Bool-cases, ◌+◌, ◌≤◌, ◌≡◌, refl, arith}
use r_vpn_core.Multiplex.Credits.{
  try_consume, grant, close, apply_op, apply_ops, grant_ops, close_ops, Session, start, swap, give,
  Step, load, exhausted, exchange, retry, grant_from_peer, close_flow, Reach, here, next,
  initial_flow_window, u64_max, new_credits, trying, idle,
}

-- Whatever is loaded and whatever is exchanged, the books balance.
record Balanced (s : Session) : Type 0 where
  books : s.consumed + s.gate.credits ≤ initial_flow_window + s.total_granted
  bounded : s.gate.credits ≤ u64_max

Step-Balanced : {s t : Session} → Step s t → Balanced s → Balanced t
unfolding swap give grant close apply_op apply_ops grant_ops close_ops
Step-Balanced (load limit p) h = record { books = h.books; bounded = h.bounded }
Step-Balanced (exhausted limit p) h = record { books = h.books; bounded = h.bounded }
Step-Balanced (exchange current limit p nz e) h = omega arith
Step-Balanced (retry current limit p nz) h = record { books = h.books; bounded = h.bounded }
Step-Balanced (grant_from_peer n) h = omega arith
Step-Balanced close_flow h = record { books = h.books; bounded = h.bounded }

Reach-Balanced : {s : Session} → Reach s → Balanced s
unfolding start new_credits
Reach-Balanced here = omega arith
Reach-Balanced (next r st) = Step-Balanced st (Reach-Balanced r)

-- In every reachable state of the credit gate, however grants fall between a consumer's load and
-- its compare-exchange, the bytes that the consumer was allowed to send are at most the initial
-- window plus what the peer granted, and the counter fits 64 bits.
pub consumed-le-granted :
    {s : Session}
    → Reach s
    → (s.consumed ≤ initial_flow_window + s.total_granted) × (s.gate.credits ≤ u64_max)
consumed-le-granted r = omega (arith, Reach-Balanced r)

-- As long as the window and the grants fit 64 bits no credit is lost: what was sent and what is left
-- are the window and the grants.
record Exact (s : Session) : Type 0 where
  balanced : Balanced s
  exact :
      initial_flow_window + s.total_granted ≤ u64_max
      → s.consumed + s.gate.credits ≡ initial_flow_window + s.total_granted

Step-Exact : {s t : Session} → Step s t → Exact s → Exact t
unfolding swap give grant close apply_op apply_ops grant_ops close_ops
Step-Exact (load limit p) h = record {
  balanced = Step-Balanced (load limit p) h.balanced;
  exact = h.exact;
}
Step-Exact (exhausted limit p) h = record {
  balanced = Step-Balanced (exhausted limit p) h.balanced;
  exact = h.exact;
}
Step-Exact (exchange current limit p nz e) h = record {
  balanced = Step-Balanced (exchange current limit p nz e) h.balanced;
  exact = λ fits. omega (arith, h.exact fits);
}
Step-Exact (retry current limit p nz) h = record {
  balanced = Step-Balanced (retry current limit p nz) h.balanced;
  exact = h.exact;
}
Step-Exact (grant_from_peer n) h = record {
  balanced = Step-Balanced (grant_from_peer n) h.balanced;
  exact = λ fits. omega (arith, h.exact (omega arith));
}
Step-Exact close_flow h = record { balanced = Step-Balanced close_flow h.balanced; exact = h.exact }

Reach-Exact : {s : Session} → Reach s → Exact s
unfolding start new_credits
Reach-Exact here = record { balanced = Reach-Balanced here; exact = λ _. refl }
Reach-Exact (next r st) = Step-Exact st (Reach-Exact r)

-- In every reachable state of the credit gate, as long as the initial window plus the grants fit
-- 64 bits, what was sent and what is left are together exactly the initial window plus the grants.
pub consumed-exact :
    {s : Session}
    → Reach s
    → initial_flow_window + s.total_granted ≤ u64_max
    → s.consumed + s.gate.credits ≡ initial_flow_window + s.total_granted
consumed-exact r fits = (Reach-Exact r).exact fits

-- `try_consume` run by an idle consumer without interference is a sequence of the steps of the
-- gate: from a reachable state it leads to the reachable state with the gate that it leaves and
-- its answer added to what was consumed.
pub Reach-try_consume :
    (s : Session) (limit : ℕ)
    → Reach s
    → s.phase ≡ idle
    → let (taken, gate) = try_consume s.gate limit in
      Reach (record s { gate = gate; consumed = s.consumed + taken })
unfolding try_consume swap
Reach-try_consume s limit r p = elim (Bool-cases (s.gate.credits == 0)) [
  | inl empty ↦
      let e : s.gate.credits ≡ 0 = (==_iff _ 0).0 empty in
      let same : record s {
        gate = (try_consume s.gate limit).1;
        consumed = s.consumed + (try_consume s.gate limit).0;
      }
          ≡ record loaded { phase = idle } =
        ground arith in
      rw same (next (next r (load limit p)) (exhausted limit (ap (λ c. trying c limit) e)))
  | inr some_left ↦
      let same : record s {
        gate = (try_consume s.gate limit).1;
        consumed = s.consumed + (try_consume s.gate limit).0;
      }
          ≡ swap loaded s.gate.credits limit =
        ground arith in
      rw same (
        next (next r (load limit p))
          (exchange s.gate.credits limit refl (λ e. cc ((==_iff _ 0).1 e)) refl))
]
  where
    loaded : Session
    loaded = record s { phase = trying s.gate.credits limit }
