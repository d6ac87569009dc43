-- ===== src/Routing/Router.antt =====
-- The router, rvpn/crates/rvpn-split-tunnel/src/router.rs. The crates of IP networks and of the table
-- of longest matches, and the parser of addresses, are a parameter.
use r_vpn_core.Common.{
  ℕ, ◌+◌, Bool, false, ◌||◌, Option, none, some, List, [], ◌∷◌, ◌++◌, not, ◌&&◌, ltb, ◌==◌,
  if◌then◌else◌, length, Result, ok, err, guard, ◌>>=◌, ◌>>◌,
}
use r_vpn_core.Common.Texts.{Text, same_text}
use r_vpn_core.Packet.Ip.{IpAddr, v4, v6}
use r_vpn_core.Routing.Patterns.{
  DomainRule, PatternError, parse_domain_pattern, matches_rule, specificity, to_ascii_lowercase,
  trim, trim_end_matches, dot,
}

-- What is used of `std::net`, `ip_network` and `ip_network_table`.
pub record Networks : Type 1 where
  pub IpNetwork : Type 0
  pub IpNetworkTable : Type 0
  pub parse_network : Text → Option IpNetwork
  pub parse_addr : Text → Option IpAddr
  pub network_of : IpAddr → ℕ → Option IpNetwork
  pub empty_table : IpNetworkTable
  pub insert : IpNetwork → Text → IpNetworkTable → IpNetworkTable
  pub longest_match : IpNetworkTable → IpAddr → Option Text

-- "default"
abbrev pub default_server_name : Text
default_server_name = 100 ∷ 101 ∷ 102 ∷ 97 ∷ 117 ∷ 108 ∷ 116 ∷ []

pub record RoutingRule : Type 0 where
  pub domains : List Text
  pub ips : List Text

pub data BuildError : Type 0 where
  redundant_default : BuildError
  unknown_server : Text → BuildError
  invalid_pattern : Text → PatternError → BuildError
  invalid_ip : Text → BuildError

-- `known.contains(name)`
unfoldable pub contains_text : List Text → Text → Bool
contains_text [] name = false
contains_text (k ∷ known) name = same_text k name || contains_text known name

-- The order of pairs in which `sa` is before `sb`.
abbrev pub more_specific : ℕ × ℕ → ℕ × ℕ → Bool
more_specific (ka, la) (kb, lb) = ltb kb ka || (ka == kb && ltb lb la)

-- `sort_by` keeps the order of what compares as equal.
unfoldable pub insert_rule : DomainRule → List DomainRule → List DomainRule
insert_rule rule [] = rule ∷ []
insert_rule rule (r ∷ rules) =
    if more_specific (specificity r) (specificity rule)
    then r ∷ insert_rule rule rules
    else rule ∷ r ∷ rules

unfoldable pub sort_rules : List DomainRule → List DomainRule
sort_rules [] = []
sort_rules (rule ∷ rules) = insert_rule rule (sort_rules rules)

-- The loop of `choose` over the rules.
unfoldable pub first_match : List DomainRule → Text → Option Text
first_match [] host = none
first_match (rule ∷ rules) host =
    if matches_rule rule host then some (rule.server) else first_match rules host

-- The prefix length of a bare address.
abbrev pub full_prefix : IpAddr → ℕ
full_prefix (v4 a) = 32
full_prefix (v6 a) = 128

module _ (net : Networks) where
  pub record Router : Type 0 where
    pub domain_rules : List DomainRule
    pub ip_rules : net.IpNetworkTable
    pub ip_rule_count : ℕ
    pub default_name : Text

  unfoldable pub parse_ip_or_cidr : Text → Option net.IpNetwork
  parse_ip_or_cidr raw =
      let trimmed = trim raw in
      elim (net.parse_network trimmed) [
        | some network ↦ some network
        | none ↦ elim (net.parse_addr trimmed) [
          | none ↦ none
          | some ip ↦ net.network_of ip (full_prefix ip)
        ]
      ]

  -- The rules of a server, after those before it.
  unfoldable pub add_domains :
      Text → List Text → List DomainRule → Result BuildError (List DomainRule)
  add_domains server [] rules = ok rules
  add_domains server (pattern ∷ patterns) rules = elim (parse_domain_pattern pattern) [
    | err e ↦ err (invalid_pattern pattern e)
    | ok parsed ↦
        add_domains server patterns
          (rules ++ (record { kind = parsed.0; pattern = parsed.1; server = server } ∷ []))
  ]

  unfoldable pub add_ips :
      Text → List Text → net.IpNetworkTable × ℕ → Result BuildError (net.IpNetworkTable × ℕ)
  add_ips server [] table = ok table
  add_ips server (pattern ∷ patterns) (table, count) = elim (parse_ip_or_cidr pattern) [
    | none ↦ err (invalid_ip pattern)
    | some network ↦ add_ips server patterns (net.insert network server table, count + 1)
  ]

  -- The map of the rules is in the order in which it is iterated.
  unfoldable pub build_rules :
      List Text
      → List (Text × RoutingRule)
      → List DomainRule
      → net.IpNetworkTable × ℕ
      → Result BuildError (List DomainRule × (net.IpNetworkTable × ℕ))
  build_rules known [] rules table = ok (rules, table)
  build_rules known ((server, rule) ∷ routing) rules table = do
    guard (not (same_text server default_server_name)) redundant_default
    guard (contains_text known server) (unknown_server server)
    rules' ← add_domains server (rule.domains) rules
    table' ← add_ips server (rule.ips) table
    build_rules known routing rules' table'

  unfoldable pub build : List Text → List (Text × RoutingRule) → Result BuildError Router
  build known routing = do
    built ← build_rules known routing [] (net.empty_table, 0)
    ok (record {
      domain_rules = sort_rules (built.0);
      ip_rules = built.1.0;
      ip_rule_count = built.1.1;
      default_name = default_server_name;
    })

  unfoldable pub choose_ip : Router → IpAddr → Text
  choose_ip router ip = elim (net.longest_match (router.ip_rules) ip) [
    | some name ↦ name
    | none ↦ router.default_name
  ]

  -- For the host in lower case, without the dots at its end.
  unfoldable pub choose_lower : Router → Text → Text
  choose_lower router host_lc = elim (first_match (router.domain_rules) host_lc) [
    | some server ↦ server
    | none ↦ elim (net.parse_addr host_lc) [
      | none ↦ router.default_name
      | some ip ↦ elim (net.longest_match (router.ip_rules) ip) [
        | some name ↦ name
        | none ↦ router.default_name
      ]
    ]
  ]

  unfoldable pub choose : Router → Text → Text
  choose router host = choose_lower router (to_ascii_lowercase (trim_end_matches dot host))

  unfoldable pub rule_count : Router → ℕ × ℕ
  rule_count router = (length (router.domain_rules), router.ip_rule_count)
