-- ===== src/Tls/Rustls.antt =====
-- `RustlsState` and the `ClientSessionStore` of `ResumptionStore` in
-- rvpn/crates/rvpn-tls/src/resumption.rs. Groups, sessions and tickets are values of other crates, of
-- any types; server names are texts. The store's mutex makes each operation one step.
use r_vpn_core.Common.{
  ℕ, suc, Bool, true, false, not, ◌&&◌, ◌||◌, List, [], ◌∷◌, ◌++◌, Option, none, some, ltb, leb,
  if◌then◌else◌, length, drop,
}
use r_vpn_core.Common.Texts.{Text, same_text}
use r_vpn_core.Common.Maps.{get, remove, put, contains_key}

abbrev pub default_capacity : ℕ
default_capacity = 128

abbrev pub max_tickets_per_server : ℕ
max_tickets_per_server = 8

-- `ResumptionStore::with_capacity`
abbrev pub with_capacity : ℕ → ℕ
with_capacity capacity = if ltb capacity 1 then 1 else capacity

-- `order.retain(|n| n != name)`
unfoldable pub retain_other : Text → List Text → List Text
retain_other name [] = []
retain_other name (n ∷ ns) =
    if same_text n name then retain_other name ns else n ∷ retain_other name ns

module _ {T : Type 0} where
  -- `tls13.get(name).map_or(true, VecDeque::is_empty)`
  abbrev pub no_tickets : Option (List T) → Bool
  no_tickets none = true
  no_tickets (some []) = true
  no_tickets (some (t ∷ ts)) = false

  -- `entry(server_name).or_default()`
  abbrev pub or_default : Option (List T) → List T
  or_default none = []
  or_default (some ts) = ts

  abbrev pub push_ticket : T → List T → List T
  push_ticket value tickets =
      (if leb max_tickets_per_server (length tickets) then drop 1 tickets else tickets)
      ++ (value ∷ [])

pub record RustlsState (G S T : Type 0) : Type 0 where
  pub order : List Text
  pub kx_hints : List (Text × G)
  pub tls12 : List (Text × S)
  pub tls13 : List (Text × List T)

module _ {G S T : Type 0} where
  abbrev pub new_rustls : RustlsState G S T
  new_rustls = record { order = []; kx_hints = []; tls12 = []; tls13 = [] }

  abbrev pub drop_server : Text → RustlsState G S T → RustlsState G S T
  drop_server old s = record s {
    kx_hints = remove old s.kx_hints;
    tls12 = remove old s.tls12;
    tls13 = remove old s.tls13;
  }

  -- The loop of `note_server`, with the queue.
  unfoldable pub evict : ℕ → List Text → RustlsState G S T → RustlsState G S T
  evict capacity [] s = record s { order = [] }
  evict capacity (old ∷ rest) s = elim (ltb capacity (suc (length rest))) [
    | true ↦ evict capacity rest (drop_server old s)
    | false ↦ record s { order = old ∷ rest }
  ]

  unfoldable pub note_server : Text → ℕ → RustlsState G S T → RustlsState G S T
  note_server name capacity s =
      let known =
        contains_key name s.kx_hints || contains_key name s.tls12 || contains_key name s.tls13 in
      evict capacity (if known then s.order else s.order ++ (name ∷ [])) s

  unfoldable pub forget_if_empty : Text → RustlsState G S T → RustlsState G S T
  forget_if_empty name s =
      if not (contains_key name s.kx_hints)
        && (not (contains_key name s.tls12) && no_tickets (get name s.tls13))
      then record s { order = retain_other name s.order }
      else s

  unfoldable pub set_kx_hint : ℕ → Text → G → RustlsState G S T → RustlsState G S T
  set_kx_hint capacity name group s =
      let noted = note_server name capacity s in
      record noted { kx_hints = put name group noted.kx_hints }

  unfoldable pub set_tls12_session : ℕ → Text → S → RustlsState G S T → RustlsState G S T
  set_tls12_session capacity name value s =
      let noted = note_server name capacity s in record noted { tls12 = put name value noted.tls12 }

  unfoldable pub remove_tls12_session : Text → RustlsState G S T → RustlsState G S T
  remove_tls12_session name s = forget_if_empty name (record s { tls12 = remove name s.tls12 })

  unfoldable pub insert_tls13_ticket : ℕ → Text → T → RustlsState G S T → RustlsState G S T
  insert_tls13_ticket capacity name value s =
      let noted = note_server name capacity s in
      record noted {
        tls13 = put name (push_ticket value (or_default (get name noted.tls13))) noted.tls13;
      }

  abbrev pub pop_ticket : Text → Option (List T) → RustlsState G S T → Option T × RustlsState G S T
  pop_ticket name none s = (none, s)
  pop_ticket name (some []) s = (none, s)
  pop_ticket name (some (t ∷ ts)) s = (some t, record s { tls13 = put name ts s.tls13 })

  unfoldable pub take_tls13_ticket : Text → RustlsState G S T → Option T × RustlsState G S T
  take_tls13_ticket name s =
      let (ticket, popped) = pop_ticket name (get name s.tls13) s in
      (ticket, forget_if_empty name popped)
