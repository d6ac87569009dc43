-- ===== src/Routing/Engine.antt =====
-- The routing engine, rvpn/crates/rvpn-core/src/routing.rs. The crate of IP networks is a parameter;
-- the hash set of blocked domains is a list.
use r_vpn_core.Common.{
  Bool, true, false, ◌||◌, Option, none, some, List, [], ◌∷◌, ◌++◌, if◌then◌else◌,
}
use r_vpn_core.Common.Texts.{Text, same_text}
use r_vpn_core.Packet.Ip.{IpAddr}
use r_vpn_core.Routing.Patterns.{ends_with}
use r_vpn_core.Routing.Router.{contains_text}

pub data RouteAction : Type 0 where
  direct proxy block : RouteAction

-- The derived `PartialEq`.
abbrev pub same_action : RouteAction → RouteAction → Bool
same_action direct direct = true
same_action proxy proxy = true
same_action block block = true
same_action _ _ = false

-- `parse` and `contains` are those of `ip_network::IpNetwork`.
module _ (IpNetwork : Type 0) (parse : Text → Option IpNetwork)
    (network_contains : IpNetwork → IpAddr → Bool) where
  pub record RoutingEngine : Type 0 where
    pub china_ips : List IpNetwork
    pub china_domains : List Text
    pub blocked_domains : List Text
    pub default_action : RouteAction

  abbrev pub new_engine : RoutingEngine
  new_engine = record {
    china_ips = [];
    china_domains = [];
    blocked_domains = [];
    default_action = proxy;
  }

  -- Nothing is added for a text that is no network.
  unfoldable pub add_china_ip : Text → RoutingEngine → Option RoutingEngine
  add_china_ip cidr engine = elim (parse cidr) [
    | none ↦ none
    | some network ↦ some (record {
      china_ips = engine.china_ips ++ (network ∷ []);
      china_domains = engine.china_domains;
      blocked_domains = engine.blocked_domains;
      default_action = engine.default_action;
    })
  ]

  unfoldable pub add_china_domain : Text → RoutingEngine → RoutingEngine
  add_china_domain domain engine = record {
    china_ips = engine.china_ips;
    china_domains = engine.china_domains ++ (domain ∷ []);
    blocked_domains = engine.blocked_domains;
    default_action = engine.default_action;
  }

  unfoldable pub add_blocked_domain : Text → RoutingEngine → RoutingEngine
  add_blocked_domain domain engine =
      if contains_text engine.blocked_domains domain then engine else record {
        china_ips = engine.china_ips;
        china_domains = engine.china_domains;
        blocked_domains = domain ∷ engine.blocked_domains;
        default_action = engine.default_action;
      }

  unfoldable pub set_default_action : RouteAction → RoutingEngine → RoutingEngine
  set_default_action action engine = record {
    china_ips = engine.china_ips;
    china_domains = engine.china_domains;
    blocked_domains = engine.blocked_domains;
    default_action = action;
  }

  unfoldable pub in_networks : List IpNetwork → IpAddr → Bool
  in_networks [] ip = false
  in_networks (network ∷ networks) ip = network_contains network ip || in_networks networks ip

  unfoldable pub route_ip : RoutingEngine → IpAddr → RouteAction
  route_ip engine ip = if in_networks engine.china_ips ip then direct else engine.default_action

  unfoldable pub in_domains : List Text → Text → Bool
  in_domains [] domain = false
  in_domains (d ∷ domains) domain =
      (ends_with domain d || same_text domain d) || in_domains domains domain

  unfoldable pub route_domain : RoutingEngine → Text → RouteAction
  route_domain engine domain =
      if contains_text engine.blocked_domains domain
      then block
      else if in_domains engine.china_domains domain
      then direct
      else engine.default_action

  unfoldable pub route : RoutingEngine → Option IpAddr → Option Text → RouteAction
  route engine ip domain =
      let rest : RouteAction = elim ip [
        | some i ↦ route_ip engine i
        | none ↦ engine.default_action
      ] in
      elim domain [
        | some d ↦
            let result = route_domain engine d in
            if same_action result engine.default_action then rest else result
        | none ↦ rest
      ]
