-- ===== src/Routing/Tests.antt =====
-- Routing on concrete rules (rvpn/crates/rvpn-split-tunnel/src/router.rs), with a table of networks
-- that are the first byte of an address.
use r_vpn_core.Common.{
  ℕ, ◌≡◌, refl, ◌⊎◌, inl, inr, ◌↔◌, true, Option, none, some, List, [], ◌∷◌, ◌++◌, arith, ◌==◌,
  if◌then◌else◌, Bool-cases, ok,
}
use r_vpn_core.Common.Texts.{Text, same_text}
use r_vpn_core.Packet.Ip.{IpAddr, v4, v6}
use r_vpn_core.Routing.Patterns.{
  DomainRule, wildcard, suffix, dot, matches_rule, specificity, kind_rank, is_subdomain, ends_with,
  parse_domain_pattern, trim, trim_start, trim_end, trim_end_matches, all_same, all_whitespace,
  contains, strip_wildcard, to_ascii_lowercase,
}
use r_vpn_core.Routing.Router.{
  Networks, RoutingRule, Router, default_server_name, contains_text, insert_rule, sort_rules,
  first_match, add_domains, add_ips, build_rules, build, choose, choose_ip, parse_ip_or_cidr,
}
use r_vpn_core.Routing.Laws.Subdomains.{Matches, matches_rule_iff}
use r_vpn_core.Routing.Laws.Chosen.{Decides, first_match-sort_rules}
use r_vpn_core.Routing.Laws.Known.{IsLawful, IsKnown, choose-IsKnown}
use r_vpn_core.Routing.Laws.Spelling.{choose-spelling}

abbrev find_network : List (ℕ × Text) → IpAddr → Option Text
find_network [] ip = none
find_network (entry ∷ table) (v4 a) =
    if a.a == entry.0 then some (entry.1) else find_network table (v4 a)
find_network (entry ∷ table) (v6 a) = none

abbrev addr_of : Text → Option IpAddr
addr_of [] = none
addr_of (x ∷ xs) = some (v4 (record { a = x; b = 0; c = 0; d = 0 }))

abbrev first_byte : IpAddr → ℕ → Option ℕ
first_byte (v4 a) n = some (a.a)
first_byte (v6 a) n = none

abbrev by_first_byte : Networks
by_first_byte = record {
  IpNetwork = ℕ;
  IpNetworkTable = List (ℕ × Text);
  parse_network = λ text. none;
  parse_addr = addr_of;
  network_of = first_byte;
  empty_table = [];
  insert = λ network name table. (network, name) ∷ table;
  longest_match = find_network;
}

find_network-insert :
    (network : ℕ) (name found : Text) (table : List (ℕ × Text)) (ip : IpAddr)
    → find_network ((network, name) ∷ table) ip ≡ some found
    → (found ≡ name) ⊎ (find_network table ip ≡ some found)
find_network-insert network name found table (v4 a) e = elim (Bool-cases (a.a == network)) [
  | inl f ↦ inl (ground (arith, e, f))
  | inr f ↦ inr (ground (arith, e, f))
]
find_network-insert network name found table (v6 a) e = absurd (ground (arith, e))

by_first_byte-IsLawful : IsLawful by_first_byte
by_first_byte-IsLawful = record {
  longest_match_empty = λ ip. refl;
  longest_match-insert = find_network-insert;
}

-- "jp" and "sg"
abbrev jp : Text
jp = 106 ∷ 112 ∷ []

abbrev sg : Text
sg = 115 ∷ 103 ∷ []

-- "a.b" and "x.a.b"
abbrev apex : Text
apex = 97 ∷ 46 ∷ 98 ∷ []

abbrev below : Text
below = 120 ∷ 46 ∷ apex

abbrev rules : List DomainRule
rules =
    record { kind = suffix; pattern = apex; server = sg }
    ∷ record { kind = wildcard; pattern = apex; server = jp }
    ∷ []

matches_rule_iff_example :
    (matches_rule (record { kind = wildcard; pattern = apex; server = jp }) below ≡ true)
    ↔ Matches wildcard apex below
matches_rule_iff_example =
    matches_rule_iff (record { kind = wildcard; pattern = apex; server = jp }) below

first_match-sort_rules_example : Decides rules below (first_match (sort_rules rules) below)
first_match-sort_rules_example = first_match-sort_rules rules below

-- The wildcard is more specific below its pattern, and does not match the pattern itself.
wildcard_first : first_match (sort_rules rules) below ≡ some jp
unfolding first_match sort_rules insert_rule matches_rule specificity kind_rank is_subdomain
    ends_with same_text
wildcard_first = refl

apex_suffix : first_match (sort_rules rules) apex ≡ some sg
unfolding first_match sort_rules insert_rule matches_rule specificity kind_rank is_subdomain
    ends_with same_text
apex_suffix = refl

-- " *.A.b" and the byte 7 for the server "jp".
abbrev routing : List (Text × RoutingRule)
routing =
    (jp, record { domains = (32 ∷ 42 ∷ 46 ∷ 65 ∷ 46 ∷ 98 ∷ []) ∷ []; ips = (7 ∷ []) ∷ [] }) ∷ []

abbrev router : Router by_first_byte
router = record {
  domain_rules = record { kind = wildcard; pattern = apex; server = jp } ∷ [];
  ip_rules = (7, jp) ∷ [];
  ip_rule_count = 1;
  default_name = default_server_name;
}

routing_built : build by_first_byte (jp ∷ default_server_name ∷ []) routing ≡ ok router
unfolding build build_rules add_domains add_ips parse_ip_or_cidr sort_rules insert_rule
    contains_text same_text parse_domain_pattern trim trim_start trim_end trim_end_matches all_same
    all_whitespace contains strip_wildcard to_ascii_lowercase ends_with
routing_built = refl

choose-IsKnown_example :
    let known = jp ∷ default_server_name ∷ [] in
    let seven : IpAddr = v4 (record { a = 7; b = 0; c = 0; d = 1 }) in
    ((choose by_first_byte router below ≡ default_server_name)
      ⊎ IsKnown known (choose by_first_byte router below))
    × ((choose_ip by_first_byte router seven ≡ default_server_name)
        ⊎ IsKnown known (choose_ip by_first_byte router seven))
choose-IsKnown_example =
    choose-IsKnown by_first_byte by_first_byte-IsLawful (jp ∷ default_server_name ∷ []) routing
      router routing_built below (v4 (record { a = 7; b = 0; c = 0; d = 1 }))

choose-spelling_example :
    (choose by_first_byte router (below ++ (dot ∷ [])) ≡ choose by_first_byte router below)
    × (choose by_first_byte router (to_ascii_lowercase below) ≡ choose by_first_byte router below)
choose-spelling_example = choose-spelling by_first_byte router below
