-- ===== src/Server/Laws/Leases.antt =====
-- No address is lost or given out twice (rvpn/crates/rvpn-server/src/tun_server.rs).
use r_vpn_core.Common.{
  ℕ, suc, ◌+◌, ◌-◌, ◌≤◌, ◌<◌, ◌≡◌, ◌≢◌, refl, sym, inl, inr, Bool, List, [], ◌∷◌, arith, ◌==◌,
  Bool-cases, Option-cases, if◌then◌else◌, ==_iff,
}
use r_vpn_core.Common.Texts.{Text, same_text, same_text_iff}
use r_vpn_core.Server.IpPool.{
  LeaseEntry, IpPool, ips, find_client, find_ip, erase_ip, lease_next, allocate, release, take_back,
  reclaimable, reclaim_expired,
}
use r_vpn_core.Server.Laws.Counts.{
  count, count_client, count-erase_ip_self, count-erase_ip_other, count_client-erase_ip,
  find_ip-count, ips-extend_client, count_client-extend_client, find_client-count, ips-renewed,
  count_client-renewed,
}

-- Each address is available or leased as often as it was available at the start, and a client has at
-- most one lease.
pub record IsSound (start : List ℕ) (p : IpPool) : Type 0 where
  pub balance : (a : ℕ) → count a p.available + count a (ips p.allocated) ≡ count a start
  pub clients : (c : Text) → count_client c p.allocated ≤ 1

moved :
    (ip a n : ℕ) (rest : List ℕ) (ls : List LeaseEntry)
    → count a (ip ∷ rest) + count a (ips ls) ≡ n
    → n ≤ 1
    → count a rest + count a (ip ∷ ips (erase_ip ip ls)) ≡ n
moved ip a n rest ls e unique = elim (Bool-cases (ip == a)) [
  | inl same ↦
      let eq : ip ≡ a = (==_iff ip a).0 same in
      let before : suc (count a rest) + count a (ips ls) ≡ n = rw same at e in
      let erased : count a (ips (erase_ip ip ls)) ≡ count a (ips ls) - 1 =
        rw eq (count-erase_ip_self a ls) in
      rw same (omega (arith, before, erased))
  | inr other ↦
      let ne : a ≢ ip = λ eq. cc ((==_iff ip a).1 (sym eq), other) in
      let before : count a rest + count a (ips ls) ≡ n = rw other at e in
      rw (other, count-erase_ip_other a ip ls ne) before
]

new_client :
    (c d : Text) (ip : ℕ) (ls : List LeaseEntry)
    → count_client c ls ≡ 0
    → count_client d ls ≤ 1
    → (if same_text c d
        then suc (count_client d (erase_ip ip ls))
        else count_client d (erase_ip ip ls))
      ≤ 1
new_client c d ip ls new old = elim (Bool-cases (same_text c d)) [
  | inl same ↦
      let none_of_d : count_client d ls ≡ 0 = rw ((same_text_iff c d).0 same) at new in
      rw same (omega (arith, none_of_d, count_client-erase_ip d ip ls))
  | inr other ↦ rw other (omega (arith, count_client-erase_ip d ip ls))
]

given_back :
    (ip a n : ℕ) (available : List ℕ) (ls : List LeaseEntry)
    → count a available + count a (ips ls) ≡ n
    → 0 < count ip (ips ls)
    → count a (ip ∷ available) + count a (ips (erase_ip ip ls)) ≡ n
given_back ip a n available ls e leased = elim (Bool-cases (ip == a)) [
  | inl same ↦
      let eq : ip ≡ a = (==_iff ip a).0 same in
      let erased : count a (ips (erase_ip ip ls)) ≡ count a (ips ls) - 1 =
        rw eq (count-erase_ip_self a ls) in
      let some_of_a : 0 < count a (ips ls) = rw eq at leased in
      rw same (omega (arith, e, erased, some_of_a))
  | inr other ↦
      let ne : a ≢ ip = λ eq. cc ((==_iff ip a).1 (sym eq), other) in
      rw (other, count-erase_ip_other a ip ls ne) e
]

module _ (start : List ℕ) where
  lease_next-IsSound :
      (p : IpPool) (c : Text) (now : ℕ) (available : List ℕ)
      → ((a : ℕ) → count a start ≤ 1)
      → p.available ≡ available
      → count_client c p.allocated ≡ 0
      → IsSound start p
      → IsSound start (lease_next p c now available).1
  unfolding lease_next
  lease_next-IsSound p c now [] unique e new s = s
  lease_next-IsSound p c now (ip ∷ rest) unique e new s = record {
    balance = λ a. moved ip a (count a start) rest p.allocated (rw e at (s.balance a)) (unique a);
    clients = λ d. new_client c d ip p.allocated new (s.clients d);
  }

  pub allocate-IsSound :
      (p : IpPool) (c : Text) (now : ℕ)
      → ((a : ℕ) → count a start ≤ 1)
      → IsSound start p
      → IsSound start (allocate p c now).1
  unfolding allocate
  allocate-IsSound p c now unique s = elim (Option-cases (find_client c p.allocated)) [
    | inl e ↦
        rw (e, allocate)
          (lease_next-IsSound p c now p.available unique refl (find_client-count c p.allocated e) s)
    | inr (l, e) ↦
        rw (e, allocate)
          (record {
            balance =
                λ a. rw (ips-extend_client c (now + p.lease_duration) p.allocated) (s.balance a);
            clients = λ d.
                rw (count_client-extend_client d c (now + p.lease_duration) p.allocated)
                  (s.clients d);
          })
  ]

  pub release-IsSound : (p : IpPool) (ip : ℕ) → IsSound start p → IsSound start (release p ip).1
  unfolding release
  release-IsSound p ip s = elim (Option-cases (find_ip ip p.allocated)) [
    | inl e ↦ rw (e, release) s
    | inr (l, e) ↦
        rw (e, release)
          (record {
            balance = λ a.
                given_back ip a (count a start) p.available p.allocated (s.balance a)
                  (find_ip-count ip p.allocated l e);
            clients = λ d. omega (arith, s.clients d, count_client-erase_ip d ip p.allocated);
          })
  ]

  take_back-IsSound :
      (reclaimed : List ℕ) (p : IpPool) → IsSound start p → IsSound start (take_back reclaimed p)
  unfolding take_back
  take_back-IsSound [] p s = s
  take_back-IsSound (ip ∷ rest) p s =
      take_back-IsSound rest (release p ip).1 (release-IsSound p ip s)

  pub reclaim_expired-IsSound :
      (is_active : ℕ → Bool) (now : ℕ) (p : IpPool)
      → IsSound start p
      → IsSound start (reclaim_expired is_active now p).1
  unfolding reclaim_expired
  reclaim_expired-IsSound is_active now p s =
      take_back-IsSound (reclaimable is_active now p.allocated) _ (record {
        balance = λ a. rw (ips-renewed is_active now p.lease_duration p.allocated) (s.balance a);
        clients = λ d.
            rw (count_client-renewed is_active now p.lease_duration d p.allocated) (s.clients d);
      })
