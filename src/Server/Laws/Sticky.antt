-- ===== src/Server/Laws/Sticky.antt =====
-- A client that comes back gets its address again (rvpn/crates/rvpn-server/src/tun_server.rs).
use r_vpn_core.Common.{
  ℕ, suc, ◌+◌, ◌≤◌, ◌<◌, ◌≡◌, ◌≢◌, refl, ap, sym, ◌∙◌, inl, inr, false, List, [], ◌∷◌, some, arith,
  Bool-cases, Option-cases, ==_iff,
}
use r_vpn_core.Common.Texts.{Text, same_text, same_text_iff}
use r_vpn_core.Server.IpPool.{
  LeaseEntry, IpPool, ips, find_client, lease_next, allocate, reclaim_expired,
}
use r_vpn_core.Server.TunServer.{
  TunServer, has_sender, register_client, unregister_client, reclaim_expired_leases, allocate_ip,
  release_ip,
}
use r_vpn_core.Server.Laws.Counts.{count}
use r_vpn_core.Server.Laws.Leases.{IsSound, reclaim_expired-IsSound}
use r_vpn_core.Server.Laws.Sessions.{Sessions, Sessions-IsSound, ip_pool-unregister_client}
use r_vpn_core.Server.Laws.Held.{
  Holds, IsSafeAt, find_client-count_ip, find_client-erase_ip, find_client-extend_client,
  reclaim_expired-Holds, release-Holds,
}

leased_once :
    (start : List ℕ) (p : IpPool) (a : ℕ)
    → ((b : ℕ) → count b start ≤ 1)
    → IsSound start p
    → count a (ips p.allocated) ≤ 1
leased_once start p a unique s = omega (arith, unique a, s.balance a)

lease_next-Holds :
    (c d : Text) (ip deadline now : ℕ) (p : IpPool) (available : List ℕ)
    → c ≢ d
    → ((b : ℕ) → count b available + count b (ips p.allocated) ≤ 1)
    → Holds c ip deadline p.allocated
    → Holds c ip deadline (lease_next p d now available).1.allocated
unfolding lease_next find_client
lease_next-Holds c d ip deadline now p [] other unique h = h
lease_next-Holds c d ip deadline now p (b ∷ rest) other unique h =
    let miss : same_text d c ≡ false = elim (Bool-cases (same_text d c)) [
      | inl e ↦ absurd (other (sym ((same_text_iff d c).0 e)))
      | inr e ↦ e
    ] in
    let fresh : h.lease.ip ≢ b = λ e.
      let once : suc (count b rest) + count b (ips p.allocated) ≤ 1 =
        rw ((==_iff b b).1 refl) at (unique b) in
      let leased : 0 < count b (ips p.allocated) =
        rw e at (find_client-count_ip c p.allocated h.lease h.found) in
      omega arith in
    record {
      lease = h.lease;
      found = rw (find_client, miss) (find_client-erase_ip c b p.allocated h.lease h.found fresh);
      on = h.on;
      until = h.until;
    }

allocate-found :
    (p : IpPool) (c : Text) (now : ℕ) (l : LeaseEntry)
    → find_client c p.allocated ≡ some l
    → (allocate p c now).0 ≡ some l.ip
unfolding allocate
allocate-found p c now l e = rw (e, allocate)

allocate-Holds :
    (c d : Text) (ip deadline now : ℕ) (p : IpPool)
    → c ≢ d
    → ((b : ℕ) → count b p.available + count b (ips p.allocated) ≤ 1)
    → Holds c ip deadline p.allocated
    → Holds c ip deadline (allocate p d now).1.allocated
unfolding allocate
allocate-Holds c d ip deadline now p other unique h =
    elim (Option-cases (find_client d p.allocated)) [
      | inl e ↦ rw (e, allocate) (lease_next-Holds c d ip deadline now p p.available other unique h)
      | inr (l, e) ↦
          rw (e, allocate)
            (record {
              lease = h.lease;
              found =
                  find_client-extend_client c d (now + p.lease_duration) p.allocated other
                  ∙ h.found;
              on = h.on;
              until = h.until;
            })
    ]

-- The client's address is in use: a sender is registered for it.
abbrev pub IsDue : TunServer → (now ip deadline : ℕ) → Type 0
IsDue t now ip deadline = IsSafeAt (has_sender t.client_senders) now ip deadline

-- Calls that leave the client's lease alone: leases are reclaimed only before the deadline or while
-- the address is in use, other clients are served, and the address is not released.
pub data Spared (c : Text) (ip deadline : ℕ) (first : TunServer) : TunServer → Type 0 where
  opened : Spared c ip deadline first first
  registered :
      {t : TunServer} (b sender : ℕ)
      → Spared c ip deadline first t
      → Spared c ip deadline first (register_client t b sender)
  unregistered :
      {t : TunServer} (b : ℕ) (d : Text) (sender : ℕ)
      → Spared c ip deadline first t
      → Spared c ip deadline first (unregister_client t b d sender)
  reclaimed :
      {t : TunServer} (now : ℕ)
      → IsDue t now ip deadline
      → Spared c ip deadline first t
      → Spared c ip deadline first (reclaim_expired_leases t now).1
  allocated :
      {t : TunServer} (d : Text) (now : ℕ)
      → c ≢ d
      → IsDue t now ip deadline
      → Spared c ip deadline first t
      → Spared c ip deadline first (allocate_ip t d now).1
  released :
      {t : TunServer} (b : ℕ)
      → b ≢ ip
      → Spared c ip deadline first t
      → Spared c ip deadline first (release_ip t b).1

Spared-Sessions :
    {c : Text} {ip deadline : ℕ} {first t : TunServer}
    → Spared c ip deadline first t
    → Sessions first t
Spared-Sessions Spared.opened = Sessions.opened
Spared-Sessions (Spared.registered b sender h) = Sessions.registered b sender (Spared-Sessions h)
Spared-Sessions (Spared.unregistered b d sender h) =
    Sessions.unregistered b d sender (Spared-Sessions h)
Spared-Sessions (Spared.reclaimed now due h) = Sessions.reclaimed now (Spared-Sessions h)
Spared-Sessions (Spared.allocated d now other due h) = Sessions.allocated d now (Spared-Sessions h)
Spared-Sessions (Spared.released b other h) = Sessions.released b (Spared-Sessions h)

module _ (start : List ℕ) (unique : (b : ℕ) → count b start ≤ 1) where
  reclaim-Holds :
      (c : Text) (ip deadline now : ℕ) (t : TunServer)
      → IsSound start t.ip_pool
      → IsDue t now ip deadline
      → Holds c ip deadline t.ip_pool.allocated
      → Holds c ip deadline (reclaim_expired_leases t now).1.ip_pool.allocated
  unfolding reclaim_expired_leases
  reclaim-Holds c ip deadline now t s due h =
      reclaim_expired-Holds (has_sender t.client_senders) now c ip deadline t.ip_pool due
        (leased_once start t.ip_pool ip unique s) h

  Spared-Holds :
      {c : Text} {ip deadline : ℕ} {first t : TunServer}
      → IsSound start first.ip_pool
      → Holds c ip deadline first.ip_pool.allocated
      → Spared c ip deadline first t
      → Holds c ip deadline t.ip_pool.allocated
  unfolding register_client allocate_ip release_ip reclaim_expired_leases
  Spared-Holds s h Spared.opened = h
  Spared-Holds s h (Spared.registered b sender k) = Spared-Holds s h k
  Spared-Holds s h (Spared.unregistered {t} b d sender k) =
      rw (ip_pool-unregister_client t b d sender) (Spared-Holds s h k)
  Spared-Holds {c} {ip} {deadline} s h (Spared.reclaimed {t} now due k) =
      let sound = Sessions-IsSound start unique s (Spared-Sessions k) in
      reclaim-Holds c ip deadline now t sound due (Spared-Holds s h k)
  Spared-Holds {c} {ip} {deadline} s h (Spared.allocated {t} d now other due k) =
      let sound = Sessions-IsSound start unique s (Spared-Sessions k) in
      let pool = (reclaim_expired (has_sender t.client_senders) now t.ip_pool).1 in
      let sound' =
        reclaim_expired-IsSound start (has_sender t.client_senders) now t.ip_pool sound in
      allocate-Holds c d ip deadline now pool other
        (λ b. let e = sound'.balance b in let u = unique b in omega arith)
        (reclaim-Holds c ip deadline now t sound due (Spared-Holds s h k))
  Spared-Holds {c} {ip} {deadline} s h (Spared.released {t} b other k) =
      release-Holds c ip deadline b t.ip_pool other (Spared-Holds s h k)

  -- On a sound pool without repeated addresses, with a lease for the client: after any calls that
  -- release other addresses, serve other clients, and reclaim leases only before the lease's deadline
  -- or while a sender is registered for its address, the client is given the same address again.
  pub allocate_ip-sticky :
      (c : Text) (ip deadline now : ℕ) (first : TunServer) {t : TunServer}
      → IsSound start first.ip_pool
      → Holds c ip deadline first.ip_pool.allocated
      → Spared c ip deadline first t
      → IsDue t now ip deadline
      → (allocate_ip t c now).0 ≡ some ip
  unfolding allocate_ip
  allocate_ip-sticky c ip deadline now first {t} s h k due =
      let sound = Sessions-IsSound start unique s (Spared-Sessions k) in
      let held = reclaim-Holds c ip deadline now t sound due (Spared-Holds s h k) in
      allocate-found (reclaim_expired_leases t now).1.ip_pool c now held.lease held.found
      ∙ ap some held.on
