-- ===== src/Tls/Tests.antt =====
-- The store of sessions on concrete input (rvpn/crates/rvpn-tls/src/resumption.rs).
use r_vpn_core.Common.{ℕ, ◌≤◌, ◌≡◌, ◌≢◌, refl, [], ◌∷◌, some, arith, length}
use r_vpn_core.Common.Texts.{Text, same_text}
use r_vpn_core.Common.Maps.{get, remove, contains_key}
use r_vpn_core.Tls.Rustls.{new_rustls, evict, note_server, insert_tls13_ticket}
use r_vpn_core.Tls.Boring.{BoringState, new_boring, evict_sessions, record_session}
use r_vpn_core.Tls.Laws.Leak.{renew_each, renew_each-unbounded}
use r_vpn_core.Tls.Laws.Bounded.{Uses, record_session-bounded}

abbrev one : Text
one = 49 ∷ []

abbrev two : Text
two = 50 ∷ []

two≢one : two ≢ one
two≢one e = ground arith

-- A store for one server holds two.
renew_each-unbounded_example :
    let after = renew_each {T = ℕ} 1 (one ∷ two ∷ []) 7 8 (new_rustls {G = ℕ} {S = ℕ} {T = ℕ}) in
    (after.order ≡ []) × (length after.tls13 ≡ 2)
renew_each-unbounded_example =
    renew_each-unbounded ℕ ℕ ℕ 1 (one ∷ two ∷ []) 7 8 (omega arith) ((two≢one, tt), (tt, tt))

-- With no tickets taken the older server goes.
evicted :
    (insert_tls13_ticket {T = ℕ} 1 two 8
      (insert_tls13_ticket {T = ℕ} 1 one 7 (new_rustls {G = ℕ} {S = ℕ} {T = ℕ}))).tls13
    ≡ (two, 8 ∷ []) ∷ []
unfolding insert_tls13_ticket note_server evict get remove contains_key same_text
evicted = refl

abbrev after_one : BoringState ℕ
after_one = record { order = one ∷ []; sessions = (one, 7) ∷ [] }

recorded_one : record_session 1 one 7 new_boring ≡ some after_one
unfolding record_session evict_sessions get remove contains_key
recorded_one = refl

record_session-bounded_example :
    (after : BoringState ℕ) × (record_session 1 two 8 after_one ≡ some after)
    × (length after.sessions ≤ 1)
    × (length after.order ≡ length after.sessions)
record_session-bounded_example =
    record_session-bounded 1 two 8 (Uses.recorded one 7 recorded_one Uses.fresh)
