-- ===== src/Server/Tests.antt =====
-- The pool and its sessions on concrete input (rvpn/crates/rvpn-server/src/tun_server.rs).
use r_vpn_core.Common.{ℕ, ◌+◌, ◌≤◌, ◌≡◌, ◌≢◌, inl, refl, [], ◌∷◌, some, arith, length}
use r_vpn_core.Common.Texts.{Text, same_text}
use r_vpn_core.Server.IpPool.{
  IpPool, ips, addresses_from, usable_hosts, new_pool, find_client, erase_ip, lease_next, allocate,
  reclaimable, reclaim_expired, take_back,
}
use r_vpn_core.Server.TunServer.{TunServer, reclaim_expired_leases, allocate_ip}
use r_vpn_core.Server.Laws.Counts.{count, count_client}
use r_vpn_core.Server.Laws.Leases.{IsSound}
use r_vpn_core.Server.Laws.Sessions.{
  Sessions, Sessions-IsSound, addresses_from_unique, leases_exclusive,
}
use r_vpn_core.Server.Laws.Held.{Holds}
use r_vpn_core.Server.Laws.Sticky.{Spared, allocate_ip-sticky}

-- 10.200.0.1/29 with leases of an hour: .3, .4, .5 and .6.
abbrev pool : IpPool
pool = record {
  lease_duration = 3600;
  available = addresses_from 10 200 0 1 (usable_hosts 29) 2;
  allocated = [];
}

new_pool_29 : new_pool 10 200 0 1 29 3600 ≡ some pool
unfolding new_pool
new_pool_29 = refl

pool_size : length pool.available ≡ 4
unfolding addresses_from
pool_size = refl

-- The client of a name of one letter, "a" and "b".
abbrev anna : Text
anna = 97 ∷ []

abbrev bob : Text
bob = 98 ∷ []

abbrev server : TunServer
server = record { client_senders = []; ip_pool = pool }

abbrev with_anna : TunServer
with_anna = (allocate_ip server anna 1000).1

abbrev with_both : TunServer
with_both = (allocate_ip with_anna bob 2000).1

anna_first : (allocate_ip server anna 1000).0 ≡ some 180879363
unfolding allocate_ip reclaim_expired_leases reclaim_expired reclaimable take_back allocate
    find_client lease_next addresses_from
anna_first = refl

leases_exclusive_example :
    (count 180879363 with_both.ip_pool.available + count 180879363 (ips with_both.ip_pool.allocated)
      ≡ count 180879363 pool.available)
    × (count 180879363 pool.available ≤ 1)
    × (count_client anna with_both.ip_pool.allocated ≤ 1)
leases_exclusive_example =
    leases_exclusive 10 200 0 1 29 3600 pool new_pool_29 (omega arith)
      (Sessions.allocated bob 2000 (Sessions.allocated anna 1000 Sessions.opened)) 180879363 anna

unique : (a : ℕ) → count a pool.available ≤ 1
unique a = addresses_from_unique 10 200 0 1 4 2 a (omega arith)

pool-IsSound : IsSound pool.available pool
pool-IsSound = record { balance = λ a. omega arith; clients = λ c. omega arith }

with_anna-IsSound : IsSound pool.available with_anna.ip_pool
with_anna-IsSound =
    let s : Sessions server with_anna = Sessions.allocated anna 1000 Sessions.opened in
    Sessions-IsSound pool.available unique pool-IsSound s

anna-Holds : Holds anna 180879363 4600 with_anna.ip_pool.allocated
unfolding anna_first erase_ip same_text
anna-Holds = record {
  lease = record { ip = 180879363; client_id = anna; granted_at = 1000; expires_at = 4600 };
  found = refl;
  on = refl;
  until = omega arith;
}

anna≢bob : anna ≢ bob
anna≢bob e = ground arith

allocate_ip-sticky_example : (allocate_ip with_both anna 3000).0 ≡ some 180879363
allocate_ip-sticky_example =
    allocate_ip-sticky pool.available unique anna 180879363 4600 3000 with_anna with_anna-IsSound
      anna-Holds (Spared.allocated bob 2000 anna≢bob (inl (omega arith)) Spared.opened)
      (inl (omega arith))
