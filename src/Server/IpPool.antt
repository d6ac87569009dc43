-- ===== src/Server/IpPool.antt =====
-- `IpPool` of rvpn/crates/rvpn-server/src/tun_server.rs. An address is the number of its 32 bits, a
-- time a number, and the current time an argument. The end of the vector of available addresses is
-- the head of the list. The map of leases is a list with at most one lease for an address.
use r_vpn_core.Common.{
  ℕ, zero, suc, ◌+◌, ◌-◌, ◌*◌, ◌%◌, ◌^◌, Bool, true, false, not, ◌&&◌, List, [], ◌∷◌, map, Option,
  none, some, ltb, leb, ◌==◌, if◌then◌else◌, length,
}
use r_vpn_core.Common.Texts.{Text, same_text}

pub record LeaseEntry : Type 0 where
  pub ip : ℕ
  pub client_id : Text
  pub granted_at : ℕ
  pub expires_at : ℕ

pub record IpPool : Type 0 where
  pub lease_duration : ℕ
  pub available : List ℕ
  pub allocated : List LeaseEntry

abbrev pub ips : List LeaseEntry → List ℕ
ips ls = map (λ l. l.ip) ls

-- The address with `i` added to the last octet of the gateway, in eight bits.
abbrev pub address : (o0 o1 o2 o3 : ℕ) → ℕ → ℕ
address o0 o1 o2 o3 i = ((o0 * 256 + o1) * 256 + o2) * 256 + (o3 + i % 256) % 256

-- The loop of `new`, with the rounds that are left and the index.
unfoldable pub addresses_from : (o0 o1 o2 o3 : ℕ) → ℕ → ℕ → List ℕ
addresses_from o0 o1 o2 o3 zero i = []
addresses_from o0 o1 o2 o3 (suc n) i = address o0 o1 o2 o3 i ∷ addresses_from o0 o1 o2 o3 n (i + 1)

-- How often the loop of `new` runs: from 2 up to `total_hosts - 2`, which wraps in 64 bits.
abbrev pub usable_hosts : ℕ → ℕ
usable_hosts prefix = (2 ^ (32 - prefix) + 2 ^ 64 - 2) % 2 ^ 64 - 2

-- `new`, of the gateway's octets and the prefix that `parse_cidr` read; `none` is the error.
unfoldable pub new_pool : (o0 o1 o2 o3 prefix lease_duration : ℕ) → Option IpPool
new_pool o0 o1 o2 o3 prefix lease_duration =
    if ltb prefix 24
    then none
    else some (record {
      lease_duration = lease_duration;
      available = addresses_from o0 o1 o2 o3 (usable_hosts prefix) 2;
      allocated = [];
    })

unfoldable pub find_client : Text → List LeaseEntry → Option LeaseEntry
find_client c [] = none
find_client c (l ∷ ls) = if same_text l.client_id c then some l else find_client c ls

-- The lease that is found is extended.
unfoldable pub extend_client : Text → ℕ → List LeaseEntry → List LeaseEntry
extend_client c expires [] = []
extend_client c expires (l ∷ ls) =
    if same_text l.client_id c
    then record l { expires_at = expires } ∷ ls
    else l ∷ extend_client c expires ls

unfoldable pub find_ip : ℕ → List LeaseEntry → Option LeaseEntry
find_ip ip [] = none
find_ip ip (l ∷ ls) = if l.ip == ip then some l else find_ip ip ls

-- `allocated.remove(&ip)`
unfoldable pub erase_ip : ℕ → List LeaseEntry → List LeaseEntry
erase_ip ip [] = []
erase_ip ip (l ∷ ls) = if l.ip == ip then ls else l ∷ erase_ip ip ls

-- `allocated.insert(ip, …)`
abbrev pub insert_lease : LeaseEntry → List LeaseEntry → List LeaseEntry
insert_lease l ls = l ∷ erase_ip l.ip ls

-- A new lease of the next available address.
unfoldable pub lease_next : IpPool → Text → ℕ → List ℕ → Option ℕ × IpPool
lease_next p client_id now [] = (none, p)
lease_next p client_id now (ip ∷ rest) =
    let lease : LeaseEntry = record {
      ip = ip;
      client_id = client_id;
      granted_at = now;
      expires_at = now + p.lease_duration;
    } in
    (some ip, record p { available = rest; allocated = insert_lease lease p.allocated })

unfoldable pub allocate : IpPool → Text → ℕ → Option ℕ × IpPool
allocate p client_id now = elim (find_client client_id p.allocated) [
  | some l ↦ (
    some l.ip,
    record p { allocated = extend_client client_id (now + p.lease_duration) p.allocated },
  )
  | none ↦ lease_next p client_id now p.available
]

-- The address is removed from the leases and pushed; false if it was not leased.
unfoldable pub release : IpPool → ℕ → Bool × IpPool
release p ip = elim (find_ip ip p.allocated) [
  | some l ↦ (true, record p { available = ip ∷ p.available; allocated = erase_ip ip p.allocated })
  | none ↦ (false, p)
]

-- The second loop of `reclaim_expired`.
unfoldable pub take_back : List ℕ → IpPool → IpPool
take_back [] p = p
take_back (ip ∷ rest) p = take_back rest (release p ip).1

module _ (is_active : ℕ → Bool) (now : ℕ) where
  -- The loop's first branch.
  abbrev pub renewed : ℕ → LeaseEntry → LeaseEntry
  renewed duration l =
      if is_active l.ip && leb l.expires_at now then record l { expires_at = now + duration } else l

  -- The loop's second branch collects the addresses of these.
  unfoldable pub reclaimable : List LeaseEntry → List ℕ
  reclaimable [] = []
  reclaimable (l ∷ ls) =
      if not (is_active l.ip) && leb l.expires_at now then l.ip ∷ reclaimable ls else reclaimable ls

  -- `reclaim_expired`: the number of addresses, and the pool.
  unfoldable pub reclaim_expired : IpPool → ℕ × IpPool
  reclaim_expired p =
      let reclaimed = reclaimable p.allocated in
      let kept = record p { allocated = map (renewed p.lease_duration) p.allocated } in
      (length reclaimed, take_back reclaimed kept)
