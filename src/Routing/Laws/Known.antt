-- ===== src/Routing/Laws/Known.antt =====
-- A flow is sent to a server that is known (rvpn/crates/rvpn-split-tunnel/src/router.rs).
use r_vpn_core.Common.{
  ℕ, ◌+◌, ◌≡◌, refl, ◌⊎◌, inl, inr, true, none, some, List, [], ◌∷◌, arith, All, All-append,
  Bool-cases, Option-cases, Result, ok, err, Result-cases,
}
use r_vpn_core.Common.Texts.{Text, same_text}
use r_vpn_core.Packet.Ip.{IpAddr}
use r_vpn_core.Routing.Patterns.{DomainRule, parse_domain_pattern, matches_rule}
use r_vpn_core.Routing.Router.{
  Networks, RoutingRule, Router, default_server_name, contains_text, first_match, add_domains,
  add_ips, build_rules, build, choose, choose_lower, choose_ip, parse_ip_or_cidr,
}
use r_vpn_core.Routing.Laws.Chosen.{All-sort_rules}

-- A match is with something that was inserted.
pub record IsLawful (net : Networks) : Type 0 where
  pub longest_match_empty : (ip : IpAddr) → net.longest_match net.empty_table ip ≡ none
  pub longest_match-insert :
      (network : net.IpNetwork) (name found : Text) (table : net.IpNetworkTable) (ip : IpAddr)
      → net.longest_match (net.insert network name table) ip ≡ some found
      → (found ≡ name) ⊎ (net.longest_match table ip ≡ some found)

abbrev pub IsKnown : List Text → Text → Type 0
IsKnown known name = contains_text known name ≡ true

-- What holds of a result that is not an error.
abbrev WhenOk {ℓ κ} : {E : Type ℓ} {A : Type κ} → (A → Type 0) → Result E A → Type 0
WhenOk P (ok a) = P a
WhenOk P (err e) = Unit {0}

module _ (net : Networks) (lawful : IsLawful net) (known : List Text) where
  abbrev RulesKnown : List DomainRule → Type 0
  RulesKnown rules = All (λ r. IsKnown known (r.server)) rules

  abbrev TableKnown : net.IpNetworkTable → Type 0
  TableKnown table =
      (ip : IpAddr) (name : Text) → net.longest_match table ip ≡ some name → IsKnown known name

  add_domains-RulesKnown :
      (server : Text) (patterns : List Text) (rules : List DomainRule)
      → IsKnown known server
      → RulesKnown rules
      → WhenOk RulesKnown (add_domains net server patterns rules)
  unfolding add_domains
  add_domains-RulesKnown server [] rules k h = h
  add_domains-RulesKnown server (p ∷ ps) rules k h = elim (Result-cases (parse_domain_pattern p)) [
    | inl (parsed, f) ↦
        rw (add_domains, f) (add_domains-RulesKnown server ps _ k (All-append _ rules _ h (k, tt)))
    | inr (x, f) ↦ rw (add_domains, f) tt
  ]

  add_ips-TableKnown :
      (server : Text) (patterns : List Text) (table : net.IpNetworkTable) (count : ℕ)
      → IsKnown known server
      → TableKnown table
      → WhenOk (λ built. TableKnown built.0) (add_ips net server patterns (table, count))
  unfolding add_ips
  add_ips-TableKnown server [] table count k h = h
  add_ips-TableKnown server (p ∷ ps) table count k h =
      elim (Option-cases (parse_ip_or_cidr net p)) [
        | inl f ↦ rw (add_ips, f) tt
        | inr (network, f) ↦
            rw (add_ips, f)
              (add_ips-TableKnown server ps (net.insert network server table) (count + 1) k
                (λ ip name m. elim (lawful.longest_match-insert network server name table ip m) [
                  | inl same ↦ rw same k
                  | inr old ↦ h ip name old
                ]))
      ]

  build_rules-Known :
      (routing : List (Text × RoutingRule)) (rules : List DomainRule)
      (table : net.IpNetworkTable × ℕ)
      → RulesKnown rules
      → TableKnown table.0
      → WhenOk
          (λ built. RulesKnown built.0 × TableKnown built.1.0)
          (build_rules net known routing rules table)
  unfolding build_rules
  build_rules-Known [] rules table h t = (h, t)
  build_rules-Known ((server, rule) ∷ routing) rules table h t =
      elim (Bool-cases (same_text server default_server_name)) [
        | inl e ↦ rw e tt
        | inr e ↦ elim (Bool-cases (contains_text known server)) [
          | inr k ↦ rw (e, k) tt
          | inl k ↦ elim (Result-cases (add_domains net server rule.domains rules)) [
            | inr (x, f) ↦ rw (e, k, f) tt
            | inl (rules', f) ↦ elim (Result-cases (add_ips net server rule.ips table)) [
              | inr (x, g) ↦ rw (e, k, f, g) tt
              | inl (table', g) ↦
                  let h' = add_domains-RulesKnown server rule.domains rules k h in
                  let t' = add_ips-TableKnown server rule.ips table.0 table.1 k t in
                  rw (e, k, f, g)
                    (build_rules-Known routing rules' table' (rw f at h') (rw g at t'))
            ]
          ]
        ]
      ]

  abbrev RouterKnown : Router net → Type 0
  RouterKnown router =
      RulesKnown router.domain_rules
      × TableKnown router.ip_rules
      × (router.default_name ≡ default_server_name)

  build-RouterKnown :
      (routing : List (Text × RoutingRule)) → WhenOk RouterKnown (build net known routing)
  unfolding build
  build-RouterKnown routing =
      let start : TableKnown net.empty_table =
        λ ip name m. absurd (ground (arith, m, lawful.longest_match_empty ip)) in
      let h = build_rules-Known routing [] (net.empty_table, 0) tt start in
      elim (Result-cases (build_rules net known routing [] (net.empty_table, 0))) [
        | inr (x, f) ↦ rw f tt
        | inl (built, f) ↦
            let (rules, table) = rw f at h in rw f ((All-sort_rules _ built.0).1 rules, table, refl)
      ]

  first_match-IsKnown :
      (rules : List DomainRule) (host server : Text)
      → RulesKnown rules
      → first_match rules host ≡ some server
      → IsKnown known server
  unfolding first_match
  first_match-IsKnown [] host server h e = absurd (ground (arith, e))
  first_match-IsKnown (r ∷ rules) host server h e = elim (Bool-cases (matches_rule r host)) [
    | inl f ↦ let same : r.server ≡ server = ground (arith, e, f) in rw same at (h.0)
    | inr f ↦ first_match-IsKnown rules host server h.1 (ground (arith, e, f))
  ]

  choose_ip-IsKnown :
      (router : Router net) (ip : IpAddr)
      → RouterKnown router
      → (choose_ip net router ip ≡ default_server_name) ⊎ IsKnown known (choose_ip net router ip)
  unfolding choose_ip
  choose_ip-IsKnown router ip h = elim (Option-cases (net.longest_match router.ip_rules ip)) [
    | inl e ↦ rw (choose_ip, e) (inl h.2)
    | inr (name, e) ↦ rw (choose_ip, e) (inr (h.1 ip name e))
  ]

  choose_lower-IsKnown :
      (router : Router net) (host_lc : Text)
      → RouterKnown router
      → (choose_lower net router host_lc ≡ default_server_name)
        ⊎ IsKnown known (choose_lower net router host_lc)
  unfolding choose_lower
  choose_lower-IsKnown router host_lc h =
      elim (Option-cases (first_match router.domain_rules host_lc)) [
        | inr (server, e) ↦ rw (choose_lower, e) (inr (first_match-IsKnown _ host_lc server h.0 e))
        | inl e ↦ elim (Option-cases (net.parse_addr host_lc)) [
          | inl f ↦ rw (choose_lower, e, f) (inl h.2)
          | inr (ip, f) ↦ elim (Option-cases (net.longest_match router.ip_rules ip)) [
            | inl g ↦ rw (choose_lower, e, f, g) (inl h.2)
            | inr (name, g) ↦ rw (choose_lower, e, f, g) (inr (h.1 ip name g))
          ]
        ]
      ]

-- Every server that a built router chooses, for a host or for an address, is the default server or one of
-- the known servers it was built with, when the table of networks is lawful.
pub choose-IsKnown :
    (net : Networks)
    → IsLawful net
    → (known : List Text) (routing : List (Text × RoutingRule)) (router : Router net)
    → build net known routing ≡ ok router
    → (host : Text) (ip : IpAddr)
    → ((choose net router host ≡ default_server_name) ⊎ IsKnown known (choose net router host))
      × ((choose_ip net router ip ≡ default_server_name) ⊎ IsKnown known (choose_ip net router ip))
unfolding choose
choose-IsKnown net lawful known routing router e host ip =
    let h = rw e at (build-RouterKnown net lawful known routing) in
    (
      choose_lower-IsKnown net lawful known router _ h,
      choose_ip-IsKnown net lawful known router ip h,
    )
