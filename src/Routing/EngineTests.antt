-- ===== src/Routing/EngineTests.antt =====
-- The engine on a concrete state (rvpn/crates/rvpn-core/src/routing.rs), with a network that holds
-- every address.
use r_vpn_core.Common.{◌≡◌, refl, Bool, true, Option, none, some, if◌then◌else◌, [], ◌∷◌}
use r_vpn_core.Common.Texts.{Text, same_text}
use r_vpn_core.Packet.Ip.{IpAddr, v4}
use r_vpn_core.Routing.Router.{contains_text}
use r_vpn_core.Routing.Engine.{
  direct, block, same_action, RoutingEngine, new_engine, add_china_ip, add_blocked_domain,
  set_default_action, in_networks, route, route_domain, route_ip,
}
use r_vpn_core.Routing.Laws.Blocked.{china_ip, set_default, changed, route-blocked}

abbrev parse_any : Text → Option Bool
parse_any text = some true

abbrev holds : Bool → IpAddr → Bool
holds network ip = network

-- "a"
abbrev site : Text
site = 97 ∷ []

abbrev somewhere : IpAddr
somewhere = v4 (record { a = 220; b = 181; c = 38; d = 148 })

abbrev blocking : RoutingEngine Bool parse_any holds
blocking = record {
  china_ips = true ∷ [];
  china_domains = [];
  blocked_domains = site ∷ [];
  default_action = block;
}

blocking_reached :
    changed Bool parse_any holds
      (china_ip site ∷ set_default block ∷ [])
      (add_blocked_domain Bool parse_any holds site (new_engine Bool parse_any holds))
    ≡ some blocking
unfolding changed add_china_ip set_default_action add_blocked_domain contains_text
blocking_reached = refl

route-blocked_example : route Bool parse_any holds blocking (some somewhere) (some site) ≡ (
    if same_action block block
    then route Bool parse_any holds blocking (some somewhere) none
    else block)
route-blocked_example =
    route-blocked Bool parse_any holds (new_engine Bool parse_any holds) blocking
      (china_ip site ∷ set_default block ∷ []) (some somewhere) site blocking_reached

-- A blocked domain that is let through: to block is the default, and its address is in the list.
blocked_direct : route Bool parse_any holds blocking (some somewhere) (some site) ≡ direct
unfolding route route_domain route_ip in_networks contains_text same_text
blocked_direct = refl
