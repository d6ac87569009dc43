-- ===== src/Server/Laws/Held.antt =====
-- What the operations leave of one client's lease (rvpn/crates/rvpn-server/src/tun_server.rs).
use r_vpn_core.Common.{
  ℕ, suc, ◌≤◌, ◌<◌, ◌≡◌, ◌≢◌, ◌⊎◌, refl, ap, sym, ◌∙◌, inl, inr, Bool, true, false, not, ◌&&◌, List,
  [], ◌∷◌, map, some, arith, ◌==◌, leb, Bool-cases, Option-cases, ==_iff,
}
use r_vpn_core.Common.Texts.{Text, same_text, same_text_iff}
use r_vpn_core.Server.IpPool.{
  LeaseEntry, IpPool, ips, find_client, extend_client, find_ip, erase_ip, release, take_back,
  reclaimable, renewed, reclaim_expired,
}
use r_vpn_core.Server.Laws.Counts.{count}

pub find_client-erase_ip :
    (c : Text) (b : ℕ) (ls : List LeaseEntry) (l : LeaseEntry)
    → find_client c ls ≡ some l
    → l.ip ≢ b
    → find_client c (erase_ip b ls) ≡ some l
unfolding find_client erase_ip
find_client-erase_ip c b [] l e other = e
find_client-erase_ip c b (x ∷ ls) l e other = elim (Bool-cases (same_text x.client_id c)) [
  | inl hit ↦
      let here : x ≡ l = ground (arith, hit, e) in
      let miss : (x.ip == b) ≡ false = ground (arith, here, other) in
      rw (miss, find_client, hit) (ap some here)
  | inr skip ↦
      let later : find_client c ls ≡ some l = ground (arith, skip, e) in
      elim (Bool-cases (x.ip == b)) [
        | inl gone ↦ rw gone later
        | inr kept ↦ rw (kept, find_client, skip) (find_client-erase_ip c b ls l later other)
      ]
]

pub find_client-extend_client :
    (c d : Text) (t : ℕ) (ls : List LeaseEntry)
    → c ≢ d
    → find_client c (extend_client d t ls) ≡ find_client c ls
unfolding find_client extend_client
find_client-extend_client c d t [] other = refl
find_client-extend_client c d t (x ∷ ls) other = elim (Bool-cases (same_text x.client_id d)) [
  | inl hit ↦
      let miss : same_text x.client_id c ≡ false = elim (Bool-cases (same_text x.client_id c)) [
        | inl e ↦
            absurd (
              other (sym ((same_text_iff x.client_id c).0 e) ∙ (same_text_iff x.client_id d).0 hit))
        | inr e ↦ e
      ] in
      rw (hit, find_client, miss)
  | inr skip ↦ rw (skip, find_client, find_client-extend_client c d t ls other)
]

pub find_client-count_ip :
    (c : Text) (ls : List LeaseEntry) (l : LeaseEntry)
    → find_client c ls ≡ some l
    → 0 < count l.ip (ips ls)
unfolding find_client
find_client-count_ip c [] l e = cc
find_client-count_ip c (x ∷ ls) l e = elim (Bool-cases (same_text x.client_id c)) [
  | inl hit ↦
      let here : x ≡ l = ground (arith, hit, e) in
      let same : (x.ip == l.ip) ≡ true = ground (arith, here) in rw same (omega arith)
  | inr skip ↦
      let rest = find_client-count_ip c ls l (ground (arith, skip, e)) in
      elim (Bool-cases (x.ip == l.ip)) [
        | inl same ↦ rw same (omega arith)
        | inr other ↦ rw other rest
      ]
]

-- The client's lease is on the address and runs until the deadline at least.
pub record Holds (c : Text) (ip deadline : ℕ) (ls : List LeaseEntry) : Type 0 where
  pub lease : LeaseEntry
  pub found : find_client c ls ≡ some lease
  pub on : lease.ip ≡ ip
  pub until : deadline ≤ lease.expires_at

module _ (is_active : ℕ → Bool) (now : ℕ) where
  count-reclaimable :
      (a : ℕ) (ls : List LeaseEntry) → count a (reclaimable is_active now ls) ≤ count a (ips ls)
  unfolding reclaimable
  count-reclaimable a [] = omega arith
  count-reclaimable a (l ∷ ls) = ground (arith, count-reclaimable a ls)

  reclaimable-Holds :
      (c : Text) (ls : List LeaseEntry) (l : LeaseEntry)
      → find_client c ls ≡ some l
      → count l.ip (ips ls) ≤ 1
      → (not (is_active l.ip) && leb l.expires_at now) ≡ false
      → count l.ip (reclaimable is_active now ls) ≡ 0
  unfolding find_client reclaimable
  reclaimable-Holds c [] l e once safe = refl
  reclaimable-Holds c (x ∷ ls) l e once safe =
      let test = not (is_active x.ip) && leb x.expires_at now in
      elim (Bool-cases (same_text x.client_id c)) [
        | inl hit ↦
            let here : x ≡ l = ground (arith, hit, e) in
            let kept : test ≡ false = rw here safe in
            let same : (x.ip == l.ip) ≡ true = ground (arith, here) in
            let twice : suc (count l.ip (ips ls)) ≤ 1 = rw same at once in
            rw kept (omega (arith, twice, count-reclaimable l.ip ls))
        | inr skip ↦
            let later : find_client c ls ≡ some l = ground (arith, skip, e) in
            elim (Bool-cases (x.ip == l.ip)) [
              | inl same ↦
                  let twice : suc (count l.ip (ips ls)) ≤ 1 = rw same at once in
                  absurd (omega (arith, twice, find_client-count_ip c ls l later))
              | inr other ↦
                  let fewer : count l.ip (ips ls) ≤ 1 = rw other at once in
                  let ih = reclaimable-Holds c ls l later fewer safe in
                  elim (Bool-cases test) [ inl gone ↦ rw (gone, other) ih | inr kept ↦ rw kept ih ]
            ]
      ]

  client_id-renewed :
      (duration : ℕ) (l : LeaseEntry) → (renewed is_active now duration l).client_id ≡ l.client_id
  client_id-renewed duration l = ground arith

  find_client-renewed :
      (c : Text) (duration : ℕ) (ls : List LeaseEntry) (l : LeaseEntry)
      → find_client c ls ≡ some l
      → find_client c (map (renewed is_active now duration) ls)
        ≡ some (renewed is_active now duration l)
  unfolding find_client
  find_client-renewed c duration [] l e = cc
  find_client-renewed c duration (x ∷ ls) l e = elim (Bool-cases (same_text x.client_id c)) [
    | inl hit ↦
        let here : x ≡ l = ground (arith, hit, e) in
        rw (client_id-renewed duration x, hit)
          (ap (λ v. some (renewed is_active now duration v)) here)
    | inr skip ↦
        rw (client_id-renewed duration x, skip)
          (find_client-renewed c duration ls l (ground (arith, skip, e)))
  ]

pub release-Holds :
    (c : Text) (ip deadline b : ℕ) (p : IpPool)
    → b ≢ ip
    → Holds c ip deadline p.allocated
    → Holds c ip deadline (release p b).1.allocated
unfolding release
release-Holds c ip deadline b p other h = elim (Option-cases (find_ip b p.allocated)) [
  | inl e ↦ rw (e, release) h
  | inr (l, e) ↦
      rw (e, release)
        (record {
          lease = h.lease;
          found =
              find_client-erase_ip c b p.allocated h.lease h.found
                (λ same. other (sym same ∙ h.on));
          on = h.on;
          until = h.until;
        })
]

take_back-Holds :
    (c : Text) (ip deadline : ℕ) (reclaimed : List ℕ) (p : IpPool)
    → count ip reclaimed ≡ 0
    → Holds c ip deadline p.allocated
    → Holds c ip deadline (take_back reclaimed p).allocated
unfolding take_back
take_back-Holds c ip deadline [] p absent h = h
take_back-Holds c ip deadline (b ∷ rest) p absent h = elim (Bool-cases (b == ip)) [
  | inl same ↦ let found : suc (count ip rest) ≡ 0 = rw same at absent in absurd (omega arith)
  | inr other ↦
      let absent' : count ip rest ≡ 0 = rw other at absent in
      let ne : b ≢ ip = λ e. cc ((==_iff b ip).1 e, other) in
      take_back-Holds c ip deadline rest (release p b).1 absent'
        (release-Holds c ip deadline b p ne h)
]

-- The lease is before its deadline, or its address is in use.
abbrev pub IsSafeAt : (ℕ → Bool) → (now ip deadline : ℕ) → Type 0
IsSafeAt is_active now ip deadline = (now < deadline) ⊎ (is_active ip ≡ true)

kept_at :
    (is_active : ℕ → Bool) (now ip deadline expires : ℕ)
    → IsSafeAt is_active now ip deadline
    → deadline ≤ expires
    → (not (is_active ip) && leb expires now) ≡ false
kept_at is_active now ip deadline expires (inl early) h = ground arith
kept_at is_active now ip deadline expires (inr active) h = rw active

until-renewed :
    (is_active : ℕ → Bool) (now duration deadline : ℕ) (l : LeaseEntry)
    → deadline ≤ l.expires_at
    → deadline ≤ (renewed is_active now duration l).expires_at
until-renewed is_active now duration deadline l h = ground arith

ip-renewed :
    (is_active : ℕ → Bool) (now duration : ℕ) (l : LeaseEntry)
    → (renewed is_active now duration l).ip ≡ l.ip
ip-renewed is_active now duration l = ground arith

pub reclaim_expired-Holds :
    (is_active : ℕ → Bool) (now : ℕ) (c : Text) (ip deadline : ℕ) (p : IpPool)
    → IsSafeAt is_active now ip deadline
    → count ip (ips p.allocated) ≤ 1
    → Holds c ip deadline p.allocated
    → Holds c ip deadline (reclaim_expired is_active now p).1.allocated
unfolding reclaim_expired
reclaim_expired-Holds is_active now c ip deadline p safe once h =
    let l = h.lease in
    let keep = kept_at is_active now ip deadline l.expires_at safe h.until in
    let absent =
      reclaimable-Holds is_active now c p.allocated l h.found (rw h.on once) (rw h.on keep) in
    take_back-Holds c ip deadline (reclaimable is_active now p.allocated) _ (rw h.on at absent)
      (record {
        lease = renewed is_active now p.lease_duration l;
        found = find_client-renewed is_active now c p.lease_duration p.allocated l h.found;
        on = ip-renewed is_active now p.lease_duration l ∙ h.on;
        until = until-renewed is_active now p.lease_duration deadline l h.until;
      })
