-- ===== src/Tls/Boring.antt =====
-- `BoringState` of rvpn/crates/rvpn-tls/src/resumption.rs: the latest session of each server. A session
-- is a value of the boring crate, of any type.
use r_vpn_core.Common.{
  ℕ, true, false, List, [], ◌∷◌, ◌++◌, Option, none, some, ltb, if◌then◌else◌, length,
}
use r_vpn_core.Common.Texts.{Text}
use r_vpn_core.Common.Maps.{get, remove, put, contains_key}
use r_vpn_core.Tls.Rustls.{retain_other}

pub record BoringState (S : Type 0) : Type 0 where
  pub order : List Text
  pub sessions : List (Text × S)

module _ {S : Type 0} where
  abbrev pub new_boring : BoringState S
  new_boring = record { order = []; sessions = [] }

  -- The loop of `boring_record_session`; `none` is the loop that never ends, when there are too many
  -- sessions and the queue is empty.
  unfoldable pub evict_sessions : ℕ → List Text → List (Text × S) → Option (BoringState S)
  evict_sessions capacity [] sessions =
      if ltb capacity (length sessions)
      then none
      else some (record { order = []; sessions = sessions })
  evict_sessions capacity (old ∷ rest) sessions = elim (ltb capacity (length sessions)) [
    | true ↦ evict_sessions capacity rest (remove old sessions)
    | false ↦ some (record { order = old ∷ rest; sessions = sessions })
  ]

  unfoldable pub record_session : ℕ → Text → S → BoringState S → Option (BoringState S)
  record_session capacity name session b =
      let order = if contains_key name b.sessions then b.order else b.order ++ (name ∷ []) in
      evict_sessions capacity order (put name session b.sessions)

  unfoldable pub take_session : Text → BoringState S → Option S × BoringState S
  take_session name b = elim (get name b.sessions) [
    | none ↦ (none, record b { sessions = remove name b.sessions })
    | some session ↦ (
      some session,
      record { order = retain_other name b.order; sessions = remove name b.sessions },
    )
  ]
