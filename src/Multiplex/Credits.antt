-- ===== src/Multiplex/Credits.antt =====
-- FlowSendCredits of rvpn/crates/rvpn-core/src/protocol/multiplex.rs: the operations as the code runs
-- them undisturbed, and as a step relation in which granters run between the load and the
-- compare-exchange of the one consumer. A u64 is a number with its maximum written out.
use r_vpn_core.Common.{
  ℕ, ◌+◌, ◌-◌, ◌*◌, ◌^◌, ◌≡◌, ◌≢◌, Bool, true, false, List, [], ◌∷◌, min, ◌==◌, if◌then◌else◌,
}

abbrev pub initial_flow_window : ℕ
initial_flow_window = 256 * 1024

abbrev pub u64_max : ℕ
u64_max = 2 ^ 64 - 1

-- `notified` is the permit that `tokio::sync::Notify` keeps for a wait that has not looked yet.
pub record FlowSendCredits : Type 0 where
  pub credits : ℕ
  pub is_closed : Bool
  pub notified : Bool

unfoldable pub new_credits : FlowSendCredits
new_credits = record { credits = initial_flow_window; is_closed = false; notified = false }

-- The amount taken, and the gate after it.
unfoldable pub try_consume : FlowSendCredits → ℕ → ℕ × FlowSendCredits
try_consume c limit =
    if c.credits == 0
    then (0, c)
    else (min c.credits limit, record c { credits = c.credits - min c.credits limit })

-- What `grant` and `close` do to the gate, one atomic action each: `fetch_update` with
-- `saturating_add`, the store of the flag, and `notify_one`, which leaves at most one permit.
pub data GateOp : Type 0 where
  add_credits : ℕ → GateOp
  set_closed notify_one : GateOp

unfoldable pub apply_op : GateOp → FlowSendCredits → FlowSendCredits
apply_op (add_credits n) c = record c { credits = min (c.credits + n) u64_max }
apply_op set_closed c = record c { is_closed = true }
apply_op notify_one c = record c { notified = true }

unfoldable pub apply_ops : List GateOp → FlowSendCredits → FlowSendCredits
apply_ops [] c = c
apply_ops (op ∷ ops) c = apply_ops ops (apply_op op c)

unfoldable pub grant_ops : ℕ → List GateOp
grant_ops n = add_credits n ∷ notify_one ∷ []

unfoldable pub close_ops : List GateOp
close_ops = set_closed ∷ notify_one ∷ []

unfoldable pub grant : FlowSendCredits → ℕ → FlowSendCredits
grant c n = apply_ops (grant_ops n) c

unfoldable pub close : FlowSendCredits → FlowSendCredits
close c = apply_ops close_ops c

-- Where the consumer stands in the loop of `try_consume`.
pub data Phase : Type 0 where
  idle : Phase
  trying : (current limit : ℕ) → Phase

-- The shared counter, the consumer's place, and two ghost totals: bytes that `try_consume` returned
-- and bytes that peers granted.
pub record Session : Type 0 where
  pub gate : FlowSendCredits
  pub phase : Phase
  pub consumed : ℕ
  pub total_granted : ℕ

unfoldable pub start : Session
unfolding new_credits
start = record { gate = new_credits; phase = idle; consumed = 0; total_granted = 0 }

unfoldable pub swap : Session → ℕ → ℕ → Session
swap s current limit = record s {
  gate = record (s.gate) { credits = current - min current limit };
  phase = idle;
  consumed = s.consumed + min current limit;
}

unfoldable pub give : Session → ℕ → Session
unfolding grant
give s n = record s { gate = grant s.gate n; total_granted = s.total_granted + n }

-- One atomic action of the consumer or of another thread.
pub data Step (s : Session) : Session → Type 0 where
  -- The load at the start of `try_consume`.
  load : (limit : ℕ) → s.phase ≡ idle → Step s (record s { phase = trying s.gate.credits limit })
  -- `return 0`
  exhausted : (limit : ℕ) → s.phase ≡ trying 0 limit → Step s (record s { phase = idle })
  -- The exchange succeeds, since the counter still has the value that was loaded.
  exchange :
      (current limit : ℕ)
      → s.phase ≡ trying current limit
      → current ≢ 0
      → s.gate.credits ≡ current
      → Step s (swap s current limit)
  -- The exchange fails, perhaps spuriously, and hands back the value that is there.
  retry :
      (current limit : ℕ)
      → s.phase ≡ trying current limit
      → current ≢ 0
      → Step s (record s { phase = trying s.gate.credits limit })
  grant_from_peer : (n : ℕ) → Step s (give s n)
  close_flow : Step s (record s { gate = close s.gate })

pub data Reach : Session → Type 0 where
  here : Reach start
  next : {s t : Session} → Reach s → Step s t → Reach t
