-- ===== src/Tls/Laws/Bounded.antt =====
-- The store for the boring backend keeps its bound
-- (rvpn/crates/rvpn-tls/src/resumption.rs).
use r_vpn_core.Common.{
  ℕ, ◌≤◌, ◌≡◌, refl, ap, sym, ◌∙◌, inl, inr, [], ◌∷◌, ◌++◌, some, arith, Bool-cases, Option-cases,
  length,
}
use mathlib.Core.Path.{subst}
use r_vpn_core.Common.Texts.{Text}
use r_vpn_core.Common.Maps.{get, put, contains_key, remove_absent}
use r_vpn_core.Tls.Rustls.{retain_other}
use r_vpn_core.Tls.Boring.{BoringState, new_boring, record_session, take_session}
use r_vpn_core.Tls.Laws.Queued.{
  count_name, length-retain_other, count_name-retain_other_self, count_name-retain_other_ne,
  same_cases, count_name-retain_other-le, keys, keys-remove, length-remove, evict_sessions_lem,
  known-IsQueued, unknown-IsQueued, IsQueued,
}

module _ {S : Type 0} where
  record_session_lem :
      (capacity : ℕ) (name : Text) (session : S) (b : BoringState S)
      → IsQueued b.order b.sessions
      → (after : BoringState S) × (record_session capacity name session b ≡ some after)
        × IsQueued after.order after.sessions
        × (length after.sessions ≤ capacity)
  unfolding record_session
  record_session_lem capacity name session b q = elim (Bool-cases (contains_key name b.sessions)) [
    | inl known ↦ rw known (
        evict_sessions_lem capacity b.order (put name session b.sessions)
          (known-IsQueued name session b known q))
    | inr unknown ↦ rw unknown (
        evict_sessions_lem capacity (b.order ++ (name ∷ [])) (put name session b.sessions)
          (unknown-IsQueued name session b unknown q))
  ]

  take_session-IsQueued :
      (name : Text) (b : BoringState S)
      → IsQueued b.order b.sessions
      → let after = (take_session name b).1 in IsQueued after.order after.sessions
  unfolding take_session
  take_session-IsQueued name b q = elim (Option-cases (get name b.sessions)) [
    | inl e ↦ rw (e, take_session, remove_absent name b.sessions e) q
    | inr (session, e) ↦
        rw (e, take_session)
          (record {
            same = λ k. rw (keys-remove name b.sessions) (elim (same_cases name k) [
              | inl (eq, _) ↦
                  subst
                    (λ j.
                      count_name j (retain_other name b.order)
                      ≡ count_name j (retain_other name (keys b.sessions)))
                    eq
                    (count_name-retain_other_self name b.order
                      ∙ sym (count_name-retain_other_self name (keys b.sessions)))
              | inr (ne, _) ↦
                  count_name-retain_other_ne name k b.order ne
                  ∙ q.same k
                  ∙ sym (count_name-retain_other_ne name k (keys b.sessions) ne)
            ]);
            once = λ k. omega (
              arith,
              ap (count_name k) (keys-remove name b.sessions),
              count_name-retain_other-le k name (keys b.sessions),
              q.once k,
            );
            sizes = omega (
              arith,
              q.sizes,
              q.same name,
              length-remove name b.sessions,
              length-retain_other name b.order,
            );
          })
  ]

-- What a new store becomes when sessions are recorded and taken.
pub data Uses {S : Type 0} (capacity : ℕ) : BoringState S → Type 0 where
  fresh : Uses capacity new_boring
  recorded :
      {b after : BoringState S} (name : Text) (session : S)
      → record_session capacity name session b ≡ some after
      → Uses capacity b
      → Uses capacity after
  taken :
      {b : BoringState S} (name : Text) → Uses capacity b → Uses capacity (take_session name b).1

Uses-IsQueued :
    {S : Type 0} {capacity : ℕ} {b : BoringState S} → Uses capacity b → IsQueued b.order b.sessions
Uses-IsQueued fresh = record { same = λ k. refl; once = λ k. omega arith; sizes = refl }
Uses-IsQueued {capacity = capacity} (recorded {b} {after} name session e u) =
    let (a, f, q, bound) = record_session_lem capacity name session b (Uses-IsQueued u) in
    let same : a ≡ after = ground (arith, e, f) in subst (λ c. IsQueued c.order c.sessions) same q
Uses-IsQueued (taken {b} name u) = take_session-IsQueued name b (Uses-IsQueued u)

-- In every state that a new store comes to: recording a session ends, whatever the server and the
-- session are, with no more sessions than the capacity and with as many servers in the queue.
pub record_session-bounded :
    {S : Type 0} (capacity : ℕ) {b : BoringState S} (name : Text) (session : S)
    → Uses capacity b
    → (after : BoringState S) × (record_session capacity name session b ≡ some after)
      × (length after.sessions ≤ capacity)
      × (length after.order ≡ length after.sessions)
record_session-bounded capacity {b} name session u =
    let (after, e, q, bound) = record_session_lem capacity name session b (Uses-IsQueued u) in
    (after, e, bound, q.sizes)
