-- ===== src/Server/Laws/Counts.antt =====
-- How often addresses and clients stand in a pool
-- (rvpn/crates/rvpn-server/src/tun_server.rs).
use r_vpn_core.Common.{
  ℕ, suc, ◌-◌, ◌≤◌, ◌<◌, ◌≡◌, ◌≢◌, refl, inl, inr, Bool, false, List, [], ◌∷◌, map, none, some,
  arith, ◌==◌, Bool-cases, if◌then◌else◌,
}
use r_vpn_core.Common.Texts.{Text, same_text}
use r_vpn_core.Server.IpPool.{
  LeaseEntry, ips, find_client, extend_client, find_ip, erase_ip, renewed,
}

abbrev pub count : ℕ → List ℕ → ℕ
count a [] = 0
count a (x ∷ xs) = if x == a then suc (count a xs) else count a xs

abbrev pub count_client : Text → List LeaseEntry → ℕ
count_client c [] = 0
count_client c (l ∷ ls) =
    if same_text l.client_id c then suc (count_client c ls) else count_client c ls

pub count-erase_ip_self :
    (b : ℕ) (ls : List LeaseEntry) → count b (ips (erase_ip b ls)) ≡ count b (ips ls) - 1
unfolding erase_ip
count-erase_ip_self b [] = omega arith
count-erase_ip_self b (l ∷ ls) = elim (Bool-cases (l.ip == b)) [
  | inl e ↦ rw e (omega arith)
  | inr e ↦ rw (e, count-erase_ip_self b ls, e)
]

pub count-erase_ip_other :
    (a b : ℕ) (ls : List LeaseEntry) → a ≢ b → count a (ips (erase_ip b ls)) ≡ count a (ips ls)
unfolding erase_ip
count-erase_ip_other a b [] other = refl
count-erase_ip_other a b (l ∷ ls) other = elim (Bool-cases (l.ip == b)) [
  | inl e ↦ let miss : (l.ip == a) ≡ false = ground arith in rw (e, miss)
  | inr e ↦ rw (e, count-erase_ip_other a b ls other)
]

pub count_client-erase_ip :
    (c : Text) (b : ℕ) (ls : List LeaseEntry) → count_client c (erase_ip b ls) ≤ count_client c ls
unfolding erase_ip
count_client-erase_ip c b [] = omega arith
count_client-erase_ip c b (l ∷ ls) = ground (arith, count_client-erase_ip c b ls)

pub find_ip-count :
    (b : ℕ) (ls : List LeaseEntry) (l : LeaseEntry) → find_ip b ls ≡ some l → 0 < count b (ips ls)
unfolding find_ip
find_ip-count b [] l e = cc
find_ip-count b (x ∷ ls) l e = ground (arith, find_ip-count b ls l)

pub ips-extend_client :
    (c : Text) (t : ℕ) (ls : List LeaseEntry) → ips (extend_client c t ls) ≡ ips ls
unfolding extend_client
ips-extend_client c t [] = refl
ips-extend_client c t (l ∷ ls) = ground (arith, ips-extend_client c t ls)

pub count_client-extend_client :
    (d c : Text) (t : ℕ) (ls : List LeaseEntry)
    → count_client d (extend_client c t ls) ≡ count_client d ls
unfolding extend_client
count_client-extend_client d c t [] = refl
count_client-extend_client d c t (l ∷ ls) = ground (arith, count_client-extend_client d c t ls)

pub find_client-count :
    (c : Text) (ls : List LeaseEntry) → find_client c ls ≡ none → count_client c ls ≡ 0
unfolding find_client
find_client-count c [] e = refl
find_client-count c (l ∷ ls) e = ground (arith, find_client-count c ls)

module _ (is_active : ℕ → Bool) (now duration : ℕ) where
  pub ips-renewed : (ls : List LeaseEntry) → ips (map (renewed is_active now duration) ls) ≡ ips ls
  ips-renewed [] = refl
  ips-renewed (l ∷ ls) = ground (arith, ips-renewed ls)

  pub count_client-renewed :
      (c : Text) (ls : List LeaseEntry)
      → count_client c (map (renewed is_active now duration) ls) ≡ count_client c ls
  count_client-renewed c [] = refl
  count_client-renewed c (l ∷ ls) = ground (arith, count_client-renewed c ls)
