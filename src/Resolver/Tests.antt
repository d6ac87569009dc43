-- ===== src/Resolver/Tests.antt =====
-- The cache of resolved names on a concrete state
-- (rvpn/crates/rvpn-split-tunnel/src/dns_cache.rs).
use r_vpn_core.Common.{
  ℕ, ◌-◌, ◌≤◌, ◌≡◌, refl, true, none, some, List, [], ◌∷◌, arith, ltb, if◌then◌else◌, length, drop,
  min, ok,
}
use r_vpn_core.Common.Texts.{Text, same_text}
use r_vpn_core.Common.Maps.{get, remove}
use r_vpn_core.Packet.Ip.{IpAddr, v4}
use r_vpn_core.Resolver.Cache.{
  DnsResolver, store_ips, store_failure, some_ips, lookup_cached, get_remaining_ttl,
  evict_if_needed, retain_fresh, sort_by_age, insert_by_age, remove_entries,
}
use r_vpn_core.Common.Bytes.{to_be}
use r_vpn_core.Resolver.Wire.{
  split_dots, encode_labels, build_dns_query_packet, skip_labels, skip_dns_name, u32_max, max_ttl,
  parse_dns_a_response,
}
use r_vpn_core.Resolver.Answers.{Answer, response, least_ttl, parse_dns_a_response-response}
use r_vpn_core.Resolver.Laws.{
  Action, resolved, not_resolved, cleaned, acts, acts-bounded, lookup_cached-store_ips,
}

abbrev empty : DnsResolver
empty = record { cache = []; cache_enabled = true; cache_ttl = 300000; cache_size = 1 }

-- "a" and "b"
abbrev first : Text
first = 97 ∷ []

abbrev second : Text
second = 98 ∷ []

abbrev here : IpAddr
here = v4 (record { a = 10; b = 0; c = 0; d = 2 })

abbrev busy : List (Action × ℕ)
busy =
    (resolved first (here ∷ []) none, 5)
    ∷ (resolved second (here ∷ []) (some 1000), 6)
    ∷ (not_resolved first, 7)
    ∷ (cleaned, 8)
    ∷ []

acts-bounded_example : (length (acts busy empty).cache ≤ 1) × ((acts busy empty).cache_size ≡ 1)
acts-bounded_example = acts-bounded busy empty (omega arith) (omega arith)

lookup_cached-store_ips_example :
    (lookup_cached (store_ips empty 5 first (here ∷ []) (some 1000)) 9 first
      ≡ (if ltb (9 - 5) 1000 then some_ips (here ∷ []) else none))
    × (lookup_cached (store_failure empty 5 first) 9 first ≡ none)
lookup_cached-store_ips_example = lookup_cached-store_ips empty 5 9 first (here ∷ []) 1000 refl

-- Of two names in a cache of one the newer one is kept.
oldest_evicted :
    let r = store_ips (store_ips empty 5 first (here ∷ []) none) 6 second (here ∷ []) (some 9000) in
    (lookup_cached r 7 first ≡ none) × (get_remaining_ttl r 1006 second ≡ some 8)
unfolding store_ips lookup_cached get_remaining_ttl evict_if_needed retain_fresh sort_by_age
    insert_by_age remove_entries get remove same_text
oldest_evicted = (refl, refl)

abbrev record_here : Answer
record_here = record { ttl = 20000; addr = record { a = 10; b = 0; c = 0; d = 2 } }

parse_dns_a_response-response_example :
    parse_dns_a_response (response 513 (first ∷ []) (record_here ∷ [])) 513
    ≡ ok (record_here.addr ∷ [], min (least_ttl u32_max (record_here ∷ [])) max_ttl)
parse_dns_a_response-response_example =
    parse_dns_a_response-response 513 (first ∷ []) record_here [] (omega arith)
      (omega arith, omega arith) (omega arith) (omega arith)

-- The name "a." has an empty label, which ends it early, so that the rest of the query is off by one.
early_end :
    skip_dns_name (drop 12 (build_dns_query_packet (97 ∷ 46 ∷ []) 1)) ≡ ok (0 ∷ 0 ∷ 1 ∷ 0 ∷ 1 ∷ [])
unfolding skip_dns_name skip_labels build_dns_query_packet encode_labels split_dots to_be
early_end = refl
