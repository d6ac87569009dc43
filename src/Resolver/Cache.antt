-- ===== src/Resolver/Cache.antt =====
-- The cache of resolved names, rvpn/crates/rvpn-split-tunnel/src/dns_cache.rs. A moment and a duration
-- are milliseconds; the current moment is an argument, not before the moments in the cache.
use r_vpn_core.Common.{
  ℕ, ◌-◌, ◌/◌, ◌%◌, ◌^◌, Bool, true, false, Option, none, some, List, [], ◌∷◌, ltb, leb,
  if◌then◌else◌, length, take,
}
use r_vpn_core.Common.Texts.{Text}
use r_vpn_core.Common.Maps.{get, remove, put}
use r_vpn_core.Packet.Ip.{IpAddr}

pub record DnsEntry : Type 0 where
  pub ips : List IpAddr
  pub cached_at : ℕ
  pub ttl : ℕ
  pub failed : Bool

pub record DnsResolver : Type 0 where
  pub cache : List (Text × DnsEntry)
  pub cache_enabled : Bool
  pub cache_ttl : ℕ
  pub cache_size : ℕ

-- `cached_at.elapsed() < ttl`
abbrev pub is_fresh : ℕ → DnsEntry → Bool
is_fresh now entry = ltb (now - entry.cached_at) entry.ttl

unfoldable pub retain_fresh : ℕ → List (Text × DnsEntry) → List (Text × DnsEntry)
retain_fresh now [] = []
retain_fresh now (e ∷ cache) =
    if is_fresh now (e.1) then e ∷ retain_fresh now cache else retain_fresh now cache

-- The entries from the oldest to the newest.
unfoldable pub insert_by_age : Text × DnsEntry → List (Text × DnsEntry) → List (Text × DnsEntry)
insert_by_age e [] = e ∷ []
insert_by_age e (f ∷ rest) =
    if ltb (f.1.cached_at) (e.1.cached_at) then f ∷ insert_by_age e rest else e ∷ f ∷ rest

unfoldable pub sort_by_age : List (Text × DnsEntry) → List (Text × DnsEntry)
sort_by_age [] = []
sort_by_age (e ∷ cache) = insert_by_age e (sort_by_age cache)

unfoldable pub remove_entries :
    List (Text × DnsEntry) → List (Text × DnsEntry) → List (Text × DnsEntry)
remove_entries [] cache = cache
remove_entries (e ∷ entries) cache = remove_entries entries (remove (e.0) cache)

-- For a cache size that is not zero.
unfoldable pub evict_if_needed : ℕ → ℕ → List (Text × DnsEntry) → List (Text × DnsEntry)
evict_if_needed cache_size now cache =
    let fresh = retain_fresh now cache in
    let to_remove = length fresh - (cache_size - 1) in
    if ltb (length cache) cache_size
    then cache
    else if leb cache_size (length fresh)
    then remove_entries (take to_remove (sort_by_age fresh)) fresh
    else fresh

abbrev pub store : DnsResolver → ℕ → Text → DnsEntry → DnsResolver
store r now host entry =
    if r.cache_enabled
    then record r { cache = put host entry (evict_if_needed r.cache_size now r.cache) }
    else r

unfoldable pub store_ips : DnsResolver → ℕ → Text → List IpAddr → Option ℕ → DnsResolver
store_ips r now host ips ttl =
    let given : ℕ = elim ttl [ some t ↦ t | none ↦ r.cache_ttl ] in
    store r now host (record { ips = ips; cached_at = now; ttl = given; failed = false })

-- `FAILURE_TTL_SECS`
abbrev pub failure_ttl : ℕ
failure_ttl = 30000

unfoldable pub store_failure : DnsResolver → ℕ → Text → DnsResolver
store_failure r now host =
    store r now host (record { ips = []; cached_at = now; ttl = failure_ttl; failed = true })

abbrev pub some_ips : List IpAddr → Option (List IpAddr)
some_ips [] = none
some_ips (ip ∷ ips) = some (ip ∷ ips)

unfoldable pub lookup_cached : DnsResolver → ℕ → Text → Option (List IpAddr)
lookup_cached r now host =
    if r.cache_enabled
    then elim (get host r.cache) [
      | none ↦ none
      | some entry ↦
          if is_fresh now entry then if entry.failed then none else some_ips entry.ips else none
    ]
    else none

unfoldable pub cleanup_cache : DnsResolver → ℕ → DnsResolver
cleanup_cache r now = if r.cache_enabled then record r { cache = retain_fresh now r.cache } else r

unfoldable pub get_remaining_ttl : DnsResolver → ℕ → Text → Option ℕ
get_remaining_ttl r now host =
    if r.cache_enabled
    then elim (get host r.cache) [
      | none ↦ none
      | some entry ↦
          let secs : ℕ = (entry.ttl - (now - entry.cached_at)) / 1000 % 2 ^ 32 in
          if entry.failed then none else if ltb 0 secs then some secs else none
    ]
    else none
