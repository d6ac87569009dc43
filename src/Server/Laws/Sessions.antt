-- ===== src/Server/Laws/Sessions.antt =====
-- Every address of the pool over any course of sessions
-- (rvpn/crates/rvpn-server/src/tun_server.rs).
use r_vpn_core.Common.{
  ℕ, zero, suc, ◌+◌, ◌-◌, ◌^◌, ◌≤◌, ◌<◌, ◌≡◌, refl, inl, inr, List, [], some, arith, ◌==◌, ltb,
  ltb→le, Bool-cases, Option-cases, ==_iff,
}
use native.Mathlib.Nat.{pow-le-pow_right}
use r_vpn_core.Common.Texts.{Text, same_text}
use r_vpn_core.Server.IpPool.{IpPool, ips, addresses_from, address, usable_hosts, new_pool, find_ip}
use r_vpn_core.Server.TunServer.{
  TunServer, has_sender, get_sender, register_client, drop_sender, unregister_client,
  reclaim_expired_leases, allocate_ip, release_ip,
}
use r_vpn_core.Server.Laws.Counts.{count, count_client}
use r_vpn_core.Server.Laws.Leases.{
  IsSound, allocate-IsSound, release-IsSound, reclaim_expired-IsSound,
}

-- What a server becomes by calls of its operations, in any order and at any times.
pub data Sessions (first : TunServer) : TunServer → Type 0 where
  opened : Sessions first first
  registered :
      {t : TunServer} (ip sender : ℕ)
      → Sessions first t
      → Sessions first (register_client t ip sender)
  unregistered :
      {t : TunServer} (ip : ℕ) (c : Text) (sender : ℕ)
      → Sessions first t
      → Sessions first (unregister_client t ip c sender)
  reclaimed :
      {t : TunServer} (now : ℕ) → Sessions first t → Sessions first (reclaim_expired_leases t now).1
  allocated :
      {t : TunServer} (c : Text) (now : ℕ)
      → Sessions first t
      → Sessions first (allocate_ip t c now).1
  released : {t : TunServer} (ip : ℕ) → Sessions first t → Sessions first (release_ip t ip).1

module _ (o0 o1 o2 o3 : ℕ) where
  address_inj :
      (i j : ℕ) → i < 256 → j < 256 → address o0 o1 o2 o3 i ≡ address o0 o1 o2 o3 j → i ≡ j
  address_inj i j hi hj e = omega arith

  addresses_from-absent :
      (n i j : ℕ)
      → j < i
      → i + n ≤ 256
      → count (address o0 o1 o2 o3 j) (addresses_from o0 o1 o2 o3 n i) ≡ 0
  unfolding addresses_from
  addresses_from-absent zero i j less fits = refl
  addresses_from-absent (suc n) i j less fits =
      elim (Bool-cases (address o0 o1 o2 o3 i == address o0 o1 o2 o3 j)) [
        | inl e ↦
            let same = address_inj i j (omega arith) (omega arith) ((==_iff _ _).0 e) in
            absurd (omega arith)
        | inr e ↦ rw e (addresses_from-absent n (i + 1) j (omega arith) (omega arith))
      ]

  pub addresses_from_unique :
      (n i a : ℕ) → i + n ≤ 256 → count a (addresses_from o0 o1 o2 o3 n i) ≤ 1
  unfolding addresses_from
  addresses_from_unique zero i a fits = omega arith
  addresses_from_unique (suc n) i a fits = elim (Bool-cases (address o0 o1 o2 o3 i == a)) [
    | inl e ↦
        let same = (==_iff (address o0 o1 o2 o3 i) a).0 e in
        let absent : count a (addresses_from o0 o1 o2 o3 n (i + 1)) ≡ 0 =
          rw same at (addresses_from-absent n (i + 1) i (omega arith) (omega arith)) in
        rw e (omega (arith, absent))
    | inr e ↦ rw e (addresses_from_unique n (i + 1) a (omega arith))
  ]

pow_bounds : (m : ℕ) → 1 ≤ m → m ≤ 8 → (2 ≤ 2 ^ m) × (2 ^ m ≤ 256)
pow_bounds m low high = (
  pow-le-pow_right {n = 2} (omega arith) {i = 1} {j = m} low,
  pow-le-pow_right {n = 2} (omega arith) {i = m} {j = 8} high,
)

usable_hosts-le : (prefix : ℕ) → 24 ≤ prefix → prefix < 32 → 2 + usable_hosts prefix ≤ 256
usable_hosts-le prefix low high =
    let (two, fits) = pow_bounds (32 - prefix) (omega arith) (omega arith) in omega arith

ip_pool-drop_sender :
    (t : TunServer) (ip sender : ℕ) → (drop_sender t ip sender).ip_pool ≡ t.ip_pool
unfolding drop_sender
ip_pool-drop_sender t ip sender = elim (Option-cases (get_sender ip t.client_senders)) [
  | inl e ↦ rw (e, drop_sender)
  | inr (s, e) ↦ rw (e, drop_sender) (ground arith)
]

pub ip_pool-unregister_client :
    (t : TunServer) (ip : ℕ) (c : Text) (sender : ℕ)
    → (unregister_client t ip c sender).ip_pool ≡ t.ip_pool
unfolding unregister_client
ip_pool-unregister_client t ip c sender = elim (Option-cases (find_ip ip t.ip_pool.allocated)) [
  | inl e ↦ rw (e, unregister_client) (ip_pool-drop_sender t ip sender)
  | inr (l, e) ↦
      rw (e, unregister_client)
        (elim (Bool-cases (same_text l.client_id c)) [
          | inl same ↦ rw same (ip_pool-drop_sender t ip sender)
          | inr other ↦ rw other
        ])
]

module _ (start : List ℕ) (unique : (a : ℕ) → count a start ≤ 1) where
  pub Sessions-IsSound :
      {first t : TunServer}
      → IsSound start first.ip_pool
      → Sessions first t
      → IsSound start t.ip_pool
  unfolding register_client reclaim_expired_leases allocate_ip release_ip
  Sessions-IsSound s opened = s
  Sessions-IsSound s (registered ip sender h) = Sessions-IsSound s h
  Sessions-IsSound s (unregistered {t} ip c sender h) =
      rw (ip_pool-unregister_client t ip c sender) (Sessions-IsSound s h)
  Sessions-IsSound s (reclaimed {t} now h) =
      reclaim_expired-IsSound start (has_sender t.client_senders) now t.ip_pool
        (Sessions-IsSound s h)
  Sessions-IsSound s (allocated {t} c now h) =
      allocate-IsSound start (reclaim_expired_leases t now).1.ip_pool c now unique (
        reclaim_expired-IsSound start (has_sender t.client_senders) now t.ip_pool
          (Sessions-IsSound s h))
  Sessions-IsSound s (released {t} ip h) = release-IsSound start t.ip_pool ip (Sessions-IsSound s h)

usable : (o0 o1 o2 o3 prefix : ℕ) → List ℕ
usable o0 o1 o2 o3 prefix = addresses_from o0 o1 o2 o3 (usable_hosts prefix) 2

new_pool-IsSound :
    (o0 o1 o2 o3 prefix duration : ℕ) (p : IpPool)
    → new_pool o0 o1 o2 o3 prefix duration ≡ some p
    → (24 ≤ prefix) × (p.available ≡ usable o0 o1 o2 o3 prefix) × IsSound p.available p
unfolding new_pool usable
new_pool-IsSound o0 o1 o2 o3 prefix duration p e = elim (Bool-cases (ltb prefix 24)) [
  | inl wide ↦ absurd (ground (arith, wide, e))
  | inr narrow ↦
      let available : p.available ≡ addresses_from o0 o1 o2 o3 (usable_hosts prefix) 2 =
        ground (arith, narrow, e) in
      let allocated : p.allocated ≡ [] = ground (arith, narrow, e) in
      (
        ltb→le prefix 24 narrow,
        available,
        record {
          balance = λ a. rw allocated (omega arith);
          clients = λ c. rw allocated (omega arith);
        },
      )
]

-- From a new pool with a prefix below 32 and no sessions, after any calls at any times: each address
-- is available or leased exactly as often as it was available at first, which is once at most, so no
-- address is lost, free and leased at once, or leased to two clients; and no client has two leases.
pub leases_exclusive :
    (o0 o1 o2 o3 prefix duration : ℕ) (p : IpPool)
    → new_pool o0 o1 o2 o3 prefix duration ≡ some p
    → prefix < 32
    → {t : TunServer} → Sessions (record { client_senders = []; ip_pool = p }) t
    → (a : ℕ) (c : Text)
    → (count a t.ip_pool.available + count a (ips t.ip_pool.allocated) ≡ count a p.available)
      × (count a p.available ≤ 1)
      × (count_client c t.ip_pool.allocated ≤ 1)
unfolding usable
leases_exclusive o0 o1 o2 o3 prefix duration p e small h a c =
    let (wide, available, sound) = new_pool-IsSound o0 o1 o2 o3 prefix duration p e in
    let fits = usable_hosts-le prefix wide small in
    let unique : (b : ℕ) → count b p.available ≤ 1 =
      λ b. rw available (addresses_from_unique o0 o1 o2 o3 (usable_hosts prefix) 2 b fits) in
    let s = Sessions-IsSound p.available unique sound h in (s.balance a, unique a, s.clients c)
