-- ===== src/Multiplex/Laws/Waiting.antt =====
-- No grant and no close is lost on a send task that waits for credit in
-- rvpn/crates/rvpn-core/src/protocol/multiplex.rs.
use r_vpn_core.Common.{◌<◌, ◌≡◌, ◌⊎◌, Bool, true, false, ◌||◌, List, [], ◌∷◌, All}
use r_vpn_core.Multiplex.Credits.{FlowSendCredits, GateOp, notify_one}
use r_vpn_core.Multiplex.Waiting.{
  Waiting, Waiter, looks_credits, looks_closed, parked, answered, granted, closed, wait_steps,
  can_expire,
}

-- Whether a call still has its `notify_one` to do.
abbrev has_notify : List GateOp → Bool
has_notify [] = false
has_notify (notify_one ∷ ops) = true
has_notify (op ∷ ops) = has_notify ops

abbrev any_notify : List (List GateOp) → Bool
any_notify [] = false
any_notify (ops ∷ calls) = has_notify ops || any_notify calls

-- The task has a permit or will be given one.
abbrev signal : FlowSendCredits → List (List GateOp) → Bool
signal c calls = c.notified || any_notify calls

-- A change of the gate is followed by a `notify_one` of the same call.
abbrev Announces : List GateOp → Type 0
Announces [] = Unit {0}
Announces (notify_one ∷ ops) = Announces ops
Announces (op ∷ ops) = (has_notify ops ≡ true) × Announces ops

abbrev Same : FlowSendCredits → FlowSendCredits → Type 0
Same c d = (d.credits ≡ c.credits) × (d.is_closed ≡ c.is_closed)

-- A task that has seen no credit, or is past both tests, will be told of what it did not see.
abbrev Safe : Waiter → FlowSendCredits → Bool → Type 0
Safe looks_closed c told = 0 < c.credits → (told ≡ true)
Safe parked c told = (0 < c.credits → (told ≡ true)) × ((c.is_closed ≡ true) → (told ≡ true))
Safe _ c told = Unit {0}

record Told (s : Waiting) : Type 0 where
  announces : All Announces s.calls
  safe : Safe s.waiter s.gate (signal s.gate s.calls)

-- The send task is in the wait and has not been answered.
abbrev pub in_wait : Waiter → Bool
in_wait looks_credits = true
in_wait looks_closed = true
in_wait parked = true
in_wait _ = false

abbrev Answers : Waiting → Type 0
Answers s =
    (can_expire s ≡ false)
    × (((wait_steps 4 s).waiter ≡ answered granted) ⊎ ((wait_steps 4 s).waiter ≡ answered closed))
