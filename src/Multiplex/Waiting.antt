-- ===== src/Multiplex/Waiting.antt =====
-- FlowSendCredits::wait_for_credit_or_stall of rvpn/crates/rvpn-core/src/protocol/multiplex.rs as a
-- machine that runs beside any number of grant and close calls, each of which may be stopped between
-- its change of the gate and its `notify_one`.
use r_vpn_core.Common.{
  ℕ, zero, suc, ◌≡◌, Bool, true, false, List, [], ◌∷◌, ltb, ◌&&◌, not, if◌then◌else◌,
}
use r_vpn_core.Multiplex.Credits.{
  FlowSendCredits, GateOp, apply_op, grant_ops, close_ops, new_credits, try_consume,
}

pub data CreditWait : Type 0 where
  granted closed stalled : CreditWait

-- Where the send task stands: outside of the wait, before one of the two tests of the loop, in
-- `notified().await`, or returned.
pub data Waiter : Type 0 where
  sending looks_credits looks_closed parked : Waiter
  answered : CreditWait → Waiter

-- The gate, what is left to do of the calls that other threads have begun, and the send task.
pub record Waiting : Type 0 where
  pub gate : FlowSendCredits
  pub calls : List (List GateOp)
  pub waiter : Waiter

unfoldable pub start_waiting : Waiting
start_waiting = record { gate = new_credits; calls = []; waiter = sending }

-- One action of the loop. A permit ends `notified().await` and is used up.
unfoldable pub wait_at : Waiter → Waiting → Waiting
wait_at looks_credits s = record s {
  waiter = if ltb 0 s.gate.credits then answered granted else looks_closed;
}
wait_at looks_closed s = record s { waiter = if s.gate.is_closed then answered closed else parked }
wait_at parked s =
    if s.gate.notified
    then record s { gate = record (s.gate) { notified = false }; waiter = looks_credits }
    else s
wait_at _ s = s

unfoldable pub wait_step : Waiting → Waiting
wait_step s = wait_at s.waiter s

unfoldable pub wait_steps : ℕ → Waiting → Waiting
wait_steps zero s = s
wait_steps (suc n) s = wait_steps n (wait_step s)

abbrev pub is_parked : Waiter → Bool
is_parked parked = true
is_parked _ = false

-- `timeout` polls the loop first, so it expires only if the loop is parked with no permit.
unfoldable pub can_expire : Waiting → Bool
can_expire s = is_parked s.waiter && not s.gate.notified

-- The arm `Err(_)`.
unfoldable pub expire : Waiting → Waiting
expire s = record s { waiter = answered (if s.gate.is_closed then closed else stalled) }

-- One action of the call at a position.
unfoldable pub advance :
    ℕ → FlowSendCredits → List (List GateOp) → FlowSendCredits × List (List GateOp)
advance i c [] = (c, [])
advance zero c ([] ∷ calls) = (c, [] ∷ calls)
advance zero c ((op ∷ ops) ∷ calls) = (apply_op op c, ops ∷ calls)
advance (suc i) c (ops ∷ calls) = let (d, rest) = advance i c calls in (d, ops ∷ rest)

unfoldable pub act : ℕ → Waiting → Waiting
act i s = let (gate, calls) = advance i s.gate s.calls in record s { gate = gate; calls = calls }

pub data WaitStep (s : Waiting) : Waiting → Type 0 where
  call_grant : (n : ℕ) → WaitStep s (record s { calls = grant_ops n ∷ s.calls })
  call_close : WaitStep s (record s { calls = close_ops ∷ s.calls })
  call_acts : (i : ℕ) → WaitStep s (act i s)
  consumes :
      (limit : ℕ)
      → s.waiter ≡ sending
      → WaitStep s (record s { gate = (try_consume s.gate limit).1 })
  enters : s.waiter ≡ sending → WaitStep s (record s { waiter = looks_credits })
  waits : WaitStep s (wait_step s)
  expires : can_expire s ≡ true → WaitStep s (expire s)
  leaves : (a : CreditWait) → s.waiter ≡ answered a → WaitStep s (record s { waiter = sending })

pub data WaitReach : Waiting → Type 0 where
  begin : WaitReach start_waiting
  after : {s t : Waiting} → WaitReach s → WaitStep s t → WaitReach t
