-- ===== src/Resolver/Laws.antt =====
-- What is proved of the cache of resolved names
-- (rvpn/crates/rvpn-split-tunnel/src/dns_cache.rs).
use r_vpn_core.Common.{
  ℕ, zero, suc, ◌-◌, ◌<◌, ◌≤◌, ◌≡◌, refl, sym, ap, ◌∙◌, inl, inr, Bool, true, false, ◌||◌, Option,
  none, some, List, [], ◌∷◌, arith, ltb, Bool-cases, if◌then◌else◌, length, take, All,
}
use r_vpn_core.Common.Texts.{Text, same_text, same_text_iff}
use r_vpn_core.Common.Maps.{remove, get-put_self}
use r_vpn_core.Packet.Ip.{IpAddr}
use r_vpn_core.Resolver.Cache.{
  DnsEntry, DnsResolver, retain_fresh, insert_by_age, sort_by_age, remove_entries, evict_if_needed,
  store, store_ips, store_failure, some_ips, lookup_cached, cleanup_cache, failure_ttl,
}

abbrev Cache : Type 0
Cache = List (Text × DnsEntry)

named : Text → Cache → Bool
named k [] = false
named k (g ∷ gone) = same_text k (g.0) || named k gone

-- How many entries of `cache` no key of `gone` removes.
left : Cache → Cache → ℕ
left gone [] = 0
left gone (e ∷ cache) = if named (e.0) gone then left gone cache else suc (left gone cache)

left_none : (cache : Cache) → left [] cache ≡ length cache
unfolding left named
left_none [] = refl
left_none (e ∷ cache) = ap suc (left_none cache)

left-remove :
    (g : Text × DnsEntry) (gone cache : Cache)
    → left (g ∷ gone) cache ≡ left gone (remove (g.0) cache)
unfolding left named remove
left-remove g gone [] = refl
left-remove g gone (e ∷ cache) = elim (Bool-cases (same_text (e.0) (g.0))) [
  | inl f ↦ rw f (left-remove g gone cache)
  | inr f ↦ rw (f, left, left-remove g gone cache) refl
]

length-remove_entries : (gone cache : Cache) → length (remove_entries gone cache) ≡ left gone cache
unfolding remove_entries
length-remove_entries [] cache = sym (left_none cache)
length-remove_entries (g ∷ gone) cache =
    length-remove_entries gone (remove (g.0) cache) ∙ sym (left-remove g gone cache)

left-insert_by_age :
    (gone : Cache) (e : Text × DnsEntry) (cache : Cache)
    → left gone (insert_by_age e cache) ≡ left gone (e ∷ cache)
unfolding insert_by_age left
left-insert_by_age gone e [] = refl
left-insert_by_age gone e (f ∷ cache) = ground (arith, left-insert_by_age gone e cache)

left-sort_by_age : (gone cache : Cache) → left gone (sort_by_age cache) ≡ left gone cache
unfolding sort_by_age left
left-sort_by_age gone [] = refl
left-sort_by_age gone (e ∷ cache) =
    left-insert_by_age gone e (sort_by_age cache) ∙ rw (left-sort_by_age gone cache) refl

-- What is named is gone.
left-named :
    (gone : Cache) (n : ℕ) (cache : Cache)
    → All (λ e. named (e.0) gone ≡ true) (take n cache)
    → left gone cache ≤ length cache - n
unfolding left
left-named gone n [] h = omega arith
left-named gone zero (e ∷ cache) h = ground (arith, left-named gone zero cache tt)
left-named gone (suc n) (e ∷ cache) h = rw (h.0) (omega (arith, left-named gone n cache h.1))

named-cons :
    (g : Text × DnsEntry) (gone xs : Cache)
    → All (λ e. named (e.0) gone ≡ true) xs
    → All (λ e. named (e.0) (g ∷ gone) ≡ true) xs
unfolding named
named-cons g gone [] h = tt
named-cons g gone (e ∷ xs) h = (ground (arith, h.0), named-cons g gone xs h.1)

All-named : (xs : Cache) → All (λ e. named (e.0) xs ≡ true) xs
unfolding named
All-named [] = tt
All-named (x ∷ xs) =
    (rw ((same_text_iff (x.0) (x.0)).1 refl) refl, named-cons x xs xs (All-named xs))

length-evict_if_needed :
    (size now : ℕ) (cache : Cache) → 1 ≤ size → length (evict_if_needed size now cache) < size
unfolding evict_if_needed
length-evict_if_needed size now cache h =
    let fresh = retain_fresh now cache in
    let n = length fresh - (size - 1) in
    let gone = take n (sort_by_age fresh) in
    let same = length-remove_entries gone fresh in
    let sorted = left-sort_by_age gone fresh in
    let bound = left-named gone n (sort_by_age fresh) (All-named gone) in
    let long =
      sym (left_none (sort_by_age fresh)) ∙ (left-sort_by_age [] fresh ∙ left_none fresh) in
    ground (arith, same, sorted, bound, long)

length-remove : (k : Text) (cache : Cache) → length (remove k cache) ≤ length cache
unfolding remove
length-remove k [] = omega arith
length-remove k (e ∷ cache) = ground (arith, length-remove k cache)

length-retain_fresh : (now : ℕ) (cache : Cache) → length (retain_fresh now cache) ≤ length cache
unfolding retain_fresh
length-retain_fresh now [] = omega arith
length-retain_fresh now (e ∷ cache) = ground (arith, length-retain_fresh now cache)

-- Any cache is within the size once an entry is put into it.
abbrev Within : DnsResolver → Type 0
Within r = length r.cache ≤ r.cache_size

store-Within :
    (r : DnsResolver) (now : ℕ) (host : Text) (entry : DnsEntry)
    → 1 ≤ r.cache_size
    → Within r
    → Within (store r now host entry)
store-Within r now host entry h w = elim (Bool-cases r.cache_enabled) [
  | inl e ↦
      let evicted = evict_if_needed r.cache_size now r.cache in
      rw e (
        omega
          (arith, length-remove host evicted, length-evict_if_needed r.cache_size now r.cache h))
  | inr e ↦ rw e w
]

-- What changes the cache.
pub data Action : Type 0 where
  resolved : Text → List IpAddr → Option ℕ → Action
  not_resolved : Text → Action
  cleaned : Action

abbrev pub act : Action → ℕ → DnsResolver → DnsResolver
act (resolved host ips ttl) now r = store_ips r now host ips ttl
act (not_resolved host) now r = store_failure r now host
act cleaned now r = cleanup_cache r now

-- Each at its moment.
unfoldable pub acts : List (Action × ℕ) → DnsResolver → DnsResolver
acts [] r = r
acts (u ∷ us) r = acts us (act (u.0) (u.1) r)

store-size :
    (r : DnsResolver) (now : ℕ) (host : Text) (entry : DnsEntry)
    → (store r now host entry).cache_size ≡ r.cache_size
store-size r now host entry = elim (Bool-cases r.cache_enabled) [
  | inl e ↦ rw e refl
  | inr e ↦ rw e refl
]

act-Within :
    (u : Action) (now : ℕ) (r : DnsResolver)
    → 1 ≤ r.cache_size
    → Within r
    → Within (act u now r) × ((act u now r).cache_size ≡ r.cache_size)
unfolding store_ips store_failure cleanup_cache
act-Within (resolved host ips ttl) now r h w =
    (store-Within r now host _ h w, store-size r now host _)
act-Within (not_resolved host) now r h w = (store-Within r now host _ h w, store-size r now host _)
act-Within cleaned now r h w = elim (Bool-cases r.cache_enabled) [
  | inl e ↦ rw e (omega (arith, length-retain_fresh now r.cache), refl)
  | inr e ↦ rw e (w, refl)
]

-- Whatever is resolved, fails to be resolved or is cleaned up, and whenever: a cache that holds at most
-- its size, which is not zero, never holds more, and its size stays what it is.
pub acts-bounded :
    (us : List (Action × ℕ)) (r : DnsResolver)
    → 1 ≤ r.cache_size
    → length r.cache ≤ r.cache_size
    → (length (acts us r).cache ≤ r.cache_size) × ((acts us r).cache_size ≡ r.cache_size)
unfolding acts
acts-bounded [] r h w = (w, refl)
acts-bounded (u ∷ us) r h w =
    let (w', e) = act-Within (u.0) (u.1) r h w in
    let (bound, same) = acts-bounded us (act (u.0) (u.1) r) (omega arith) w' in
    (omega arith, same ∙ e)

-- With an enabled cache, addresses that were stored at a moment are what a later look up of the host
-- gives, as long as their time to live has not passed and there is one of them, and it gives nothing
-- after that; what was stored as a failure gives nothing at any moment.
pub lookup_cached-store_ips :
    (r : DnsResolver) (now later : ℕ) (host : Text) (ips : List IpAddr) (ttl : ℕ)
    → r.cache_enabled ≡ true
    → (lookup_cached (store_ips r now host ips (some ttl)) later host
        ≡ (if ltb (later - now) ttl then some_ips ips else none))
      × (lookup_cached (store_failure r now host) later host ≡ none)
unfolding lookup_cached store_ips store_failure
lookup_cached-store_ips r now later host ips ttl e =
    let m = remove host (evict_if_needed r.cache_size now r.cache) in
    let found : DnsEntry = record { ips = ips; cached_at = now; ttl = ttl; failed = false } in
    let refused : DnsEntry = record {
      ips = [];
      cached_at = now;
      ttl = failure_ttl;
      failed = true;
    } in
    (
      rw (e, get-put_self host found m) refl,
      elim (Bool-cases (ltb (later - now) failure_ttl)) [
        | inl f ↦ rw (e, get-put_self host refused m, f) refl
        | inr f ↦ rw (e, get-put_self host refused m, f) refl
      ],
    )
