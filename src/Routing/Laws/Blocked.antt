-- ===== src/Routing/Laws/Blocked.antt =====
-- The engine's decisions (rvpn/crates/rvpn-core/src/routing.rs).
use r_vpn_core.Common.{
  ◌≡◌, refl, inl, inr, Bool, true, Option, none, some, List, [], ◌∷◌, Bool-cases, Option-cases,
  if◌then◌else◌,
}
use r_vpn_core.Common.Texts.{Text, same_text, same_text_iff}
use r_vpn_core.Packet.Ip.{IpAddr}
use r_vpn_core.Routing.Router.{contains_text}
use r_vpn_core.Routing.Engine.{
  RouteAction, block, same_action, RoutingEngine, add_china_ip, add_china_domain,
  add_blocked_domain, set_default_action, route, route_domain,
}

-- What may be done to an engine.
pub data Change : Type 0 where
  china_ip china_domain blocked_domain : Text → Change
  set_default : RouteAction → Change

module _ (IpNetwork : Type 0) (parse : Text → Option IpNetwork)
    (network_contains : IpNetwork → IpAddr → Bool) where
  abbrev Engine : Type 0
  Engine = RoutingEngine IpNetwork parse network_contains

  abbrev pub change :
      Change
      → RoutingEngine IpNetwork parse network_contains
      → Option (RoutingEngine IpNetwork parse network_contains)
  change (china_ip cidr) engine = add_china_ip IpNetwork parse network_contains cidr engine
  change (china_domain d) engine = some (add_china_domain IpNetwork parse network_contains d engine)
  change (blocked_domain d) engine =
      some (add_blocked_domain IpNetwork parse network_contains d engine)
  change (set_default a) engine =
      some (set_default_action IpNetwork parse network_contains a engine)

  -- The engine after changes that all succeed.
  unfoldable pub changed :
      List Change
      → RoutingEngine IpNetwork parse network_contains
      → Option (RoutingEngine IpNetwork parse network_contains)
  changed [] engine = some engine
  changed (c ∷ cs) engine = elim (change c engine) [ none ↦ none | some next ↦ changed cs next ]

  abbrev IsBlocked : Text → Engine → Type 0
  IsBlocked domain engine = contains_text engine.blocked_domains domain ≡ true

  add_blocked_domain-IsBlocked :
      (domain : Text) (engine : Engine)
      → IsBlocked domain (add_blocked_domain IpNetwork parse network_contains domain engine)
  unfolding add_blocked_domain contains_text
  add_blocked_domain-IsBlocked domain engine =
      elim (Bool-cases (contains_text engine.blocked_domains domain)) [
        | inl e ↦ rw e e
        | inr e ↦ rw (e, (same_text_iff domain domain).1 refl) refl
      ]

  abbrev StaysBlocked : Text → Option Engine → Type 0
  StaysBlocked domain none = Unit {0}
  StaysBlocked domain (some next) = IsBlocked domain next

  change-StaysBlocked :
      (domain : Text) (c : Change) (engine : Engine)
      → IsBlocked domain engine
      → StaysBlocked domain (change c engine)
  unfolding add_china_ip add_china_domain add_blocked_domain set_default_action contains_text
  change-StaysBlocked domain (china_ip cidr) engine h = elim (Option-cases (parse cidr)) [
    | inl f ↦ rw (add_china_ip, f) tt
    | inr (network, f) ↦ rw (add_china_ip, f) h
  ]
  change-StaysBlocked domain (china_domain d) engine h = h
  change-StaysBlocked domain (blocked_domain d) engine h =
      elim (Bool-cases (contains_text engine.blocked_domains d)) [
        | inl e ↦ rw e h
        | inr e ↦
            rw e (elim (Bool-cases (same_text d domain)) [ inl f ↦ rw f refl | inr f ↦ rw f h ])
      ]
  change-StaysBlocked domain (set_default a) engine h = h

  changed-StaysBlocked :
      (domain : Text) (cs : List Change) (engine : Engine)
      → IsBlocked domain engine
      → StaysBlocked domain (changed cs engine)
  unfolding changed
  changed-StaysBlocked domain [] engine h = h
  changed-StaysBlocked domain (c ∷ cs) engine h =
      let k = change-StaysBlocked domain c engine h in
      elim (Option-cases (change c engine)) [
        | inl e ↦ rw (changed, e) tt
        | inr (next, e) ↦ rw (changed, e) (changed-StaysBlocked domain cs next (rw e at k))
      ]

-- A domain that was added to the blocked ones stays blocked through all further changes of the engine,
-- whatever its address, unless to block is the default action by then: in that case its address alone
-- decides.
pub route-blocked :
    (IpNetwork : Type 0) (parse : Text → Option IpNetwork)
    (network_contains : IpNetwork → IpAddr → Bool)
    (engine later : RoutingEngine IpNetwork parse network_contains) (cs : List Change)
    (ip : Option IpAddr) (domain : Text)
    → changed IpNetwork parse network_contains cs
        (add_blocked_domain IpNetwork parse network_contains domain engine)
      ≡ some later
    → route IpNetwork parse network_contains later ip (some domain) ≡ (
        if same_action block later.default_action
        then route IpNetwork parse network_contains later ip none
        else block)
unfolding route route_domain
route-blocked IpNetwork parse network_contains engine later cs ip domain e =
    let start = add_blocked_domain-IsBlocked IpNetwork parse network_contains domain engine in
    let blocked = rw e at (
      changed-StaysBlocked IpNetwork parse network_contains domain cs
        (add_blocked_domain IpNetwork parse network_contains domain engine) start) in
    rw blocked refl
