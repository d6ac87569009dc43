-- ===== src/Server/TunServer.antt =====
-- The sessions of `TunServer` of rvpn/crates/rvpn-server/src/tun_server.rs. A channel is a number, and
-- `same_channel` compares the numbers. The device and its read loop are left out.
use r_vpn_core.Common.{ℕ, Bool, true, false, List, [], ◌∷◌, Option, none, some, ◌==◌, if◌then◌else◌}
use r_vpn_core.Common.Texts.{Text, same_text}
use r_vpn_core.Server.IpPool.{IpPool, allocate, release, reclaim_expired, find_ip}

pub record TunServer : Type 0 where
  pub client_senders : List (ℕ × ℕ)
  pub ip_pool : IpPool

unfoldable pub get_sender : ℕ → List (ℕ × ℕ) → Option ℕ
get_sender ip [] = none
get_sender ip ((k, s) ∷ m) = if k == ip then some s else get_sender ip m

unfoldable pub remove_sender : ℕ → List (ℕ × ℕ) → List (ℕ × ℕ)
remove_sender ip [] = []
remove_sender ip ((k, s) ∷ m) = if k == ip then m else (k, s) ∷ remove_sender ip m

unfoldable pub has_sender : List (ℕ × ℕ) → ℕ → Bool
has_sender m ip = elim (get_sender ip m) [ none ↦ false | some s ↦ true ]

unfoldable pub register_client : TunServer → (client_ip sender : ℕ) → TunServer
register_client t client_ip sender = record t {
  client_senders = (client_ip, sender) ∷ remove_sender client_ip t.client_senders;
}

-- The sender is removed only if it is this connection's.
unfoldable pub drop_sender : TunServer → (client_ip sender : ℕ) → TunServer
drop_sender t client_ip sender = elim (get_sender client_ip t.client_senders) [
  | none ↦ t
  | some existing ↦
      if existing == sender
      then record t { client_senders = remove_sender client_ip t.client_senders }
      else t
]

unfoldable pub unregister_client : TunServer → ℕ → Text → ℕ → TunServer
unregister_client t client_ip client_id sender = elim (find_ip client_ip t.ip_pool.allocated) [
  | some l ↦ if same_text l.client_id client_id then drop_sender t client_ip sender else t
  | none ↦ drop_sender t client_ip sender
]

unfoldable pub reclaim_expired_leases : TunServer → ℕ → ℕ × TunServer
reclaim_expired_leases t now =
    let (count, pool) = reclaim_expired (has_sender t.client_senders) now t.ip_pool in
    (count, record t { ip_pool = pool })

-- `none` is the error that the pool has no address.
unfoldable pub allocate_ip : TunServer → Text → ℕ → Option ℕ × TunServer
allocate_ip t client_id now =
    let (count, reclaimed) = reclaim_expired_leases t now in
    let (ip, pool) = allocate reclaimed.ip_pool client_id now in
    (ip, record reclaimed { ip_pool = pool })

unfoldable pub release_ip : TunServer → ℕ → Bool × TunServer
release_ip t ip =
    let (released, pool) = release t.ip_pool ip in (released, record t { ip_pool = pool })
