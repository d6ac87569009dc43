-- ===== src/Routing/Laws/Chosen.antt =====
-- Which rule decides (rvpn/crates/rvpn-split-tunnel/src/router.rs).
use r_vpn_core.Common.{
  ℕ, ◌≡◌, refl, ◌↔◌, inl, inr, Bool, true, false, ◌&&◌, Option, none, some, List, [], ◌∷◌, arith,
  All, Bool-cases,
}
use r_vpn_core.Common.Texts.{Text}
use r_vpn_core.Routing.Patterns.{DomainRule, matches_rule, specificity}
use r_vpn_core.Routing.Router.{more_specific, insert_rule, sort_rules, first_match}
use mathlib.Core.List.{Memᴰ}

-- No rule of `rules` is more specific than `rule`.
abbrev pub NoneAbove : DomainRule → List DomainRule → Type 0
NoneAbove rule rules = All (λ r. more_specific (specificity r) (specificity rule) ≡ false) rules

abbrev pub IsDescending : List DomainRule → Type 0
IsDescending [] = Unit {0}
IsDescending (rule ∷ rules) = NoneAbove rule rules × IsDescending rules

more_specific_trans :
    (a b c : ℕ × ℕ)
    → more_specific a b ≡ false
    → more_specific b c ≡ false
    → more_specific a c ≡ false
more_specific_trans (ka, la) (kb, lb) (kc, lc) h k = ground arith

more_specific_asym : (a b : ℕ × ℕ) → more_specific a b ≡ true → more_specific b a ≡ false
more_specific_asym (ka, la) (kb, lb) h = ground arith

irreflexive : (a : ℕ × ℕ) → more_specific a a ≡ false
irreflexive (k, l) = ground arith

NoneAbove-trans :
    (a b : DomainRule) (rules : List DomainRule)
    → more_specific (specificity b) (specificity a) ≡ false
    → NoneAbove b rules
    → NoneAbove a rules
NoneAbove-trans a b [] h n = tt
NoneAbove-trans a b (r ∷ rules) h n = (
  more_specific_trans (specificity r) (specificity b) (specificity a) n.0 h,
  NoneAbove-trans a b rules h n.1,
)

NoneAbove-insert_rule :
    (a rule : DomainRule) (rules : List DomainRule)
    → more_specific (specificity rule) (specificity a) ≡ false
    → NoneAbove a rules
    → NoneAbove a (insert_rule rule rules)
unfolding insert_rule
NoneAbove-insert_rule a rule [] h n = (h, tt)
NoneAbove-insert_rule a rule (r ∷ rules) h n =
    elim (Bool-cases (more_specific (specificity r) (specificity rule))) [
      | inl e ↦ rw e (n.0, NoneAbove-insert_rule a rule rules h n.1)
      | inr e ↦ rw e (h, n)
    ]

insert_rule-IsDescending :
    (rule : DomainRule) (rules : List DomainRule)
    → IsDescending rules
    → IsDescending (insert_rule rule rules)
unfolding insert_rule
insert_rule-IsDescending rule [] d = (tt, tt)
insert_rule-IsDescending rule (r ∷ rules) d =
    elim (Bool-cases (more_specific (specificity r) (specificity rule))) [
      | inl e ↦ rw e (
        NoneAbove-insert_rule r rule rules (more_specific_asym (specificity r) (specificity rule) e)
            d.0,
        insert_rule-IsDescending rule rules d.1,
      )
      | inr e ↦ rw e ((e, NoneAbove-trans rule r rules e d.0), d)
    ]

sort_rules-IsDescending : (rules : List DomainRule) → IsDescending (sort_rules rules)
unfolding sort_rules
sort_rules-IsDescending [] = tt
sort_rules-IsDescending (rule ∷ rules) =
    insert_rule-IsDescending rule (sort_rules rules) (sort_rules-IsDescending rules)

module _ (P : DomainRule → Type 0) where
  All-insert_rule :
      (rule : DomainRule) (rules : List DomainRule)
      → All P (insert_rule rule rules) ↔ All P (rule ∷ rules)
  unfolding insert_rule
  All-insert_rule rule [] = (λ h. h, λ h. h)
  All-insert_rule rule (r ∷ rules) =
      let (to, from) = All-insert_rule rule rules in
      elim (Bool-cases (more_specific (specificity r) (specificity rule))) [
        | inl e ↦ rw e (λ h. let k = to h.1 in (k.0, (h.0, k.1)), λ h. (h.1.0, from (h.0, h.1.1)))
        | inr e ↦ rw e (λ h. h, λ h. h)
      ]

  pub All-sort_rules : (rules : List DomainRule) → All P (sort_rules rules) ↔ All P rules
  unfolding sort_rules
  All-sort_rules [] = (λ h. h, λ h. h)
  All-sort_rules (rule ∷ rules) =
      let (to, from) = All-insert_rule rule (sort_rules rules) in
      let (to', from') = All-sort_rules rules in
      (λ h. let k = to h in (k.0, to' k.1), λ h. from (h.0, from' h.1))

-- The server of a matching rule of `rules` such that no matching rule is more specific.
pub record Best (rules : List DomainRule) (host server : Text) : Type 0 where
  pub rule : DomainRule
  pub mem : Memᴰ rule rules
  pub matching : matches_rule rule host ≡ true
  pub named : server ≡ rule.server
  pub top :
      All
        (λ r. (matches_rule r host && more_specific (specificity r) (specificity rule)) ≡ false)
        rules

abbrev pub Decides : List DomainRule → Text → Option Text → Type 0
Decides rules host (some server) = Best rules host server
Decides rules host none = All (λ r. matches_rule r host ≡ false) rules

All-map :
    (P Q : DomainRule → Type 0) (rules : List DomainRule)
    → ((r : DomainRule) → P r → Q r)
    → All P rules
    → All Q rules
All-map P Q [] f h = tt
All-map P Q (r ∷ rules) f h = (f r h.0, All-map P Q rules f h.1)

All-mem : (rules : List DomainRule) → All (λ r. Memᴰ r rules) rules
All-mem [] = tt
All-mem (r ∷ rules) = (
  Memᴰ.head refl,
  All-map (λ x. Memᴰ x rules) (λ x. Memᴰ x (r ∷ rules)) rules (λ x m. Memᴰ.tail m) (All-mem rules),
)

pub All-lookup :
    (P : DomainRule → Type 0) (r : DomainRule) (rules : List DomainRule)
    → Memᴰ r rules
    → All P rules
    → P r
All-lookup P r [] m h = elim m [ ]
All-lookup P r (x ∷ rules) (Memᴰ.head e) h = rw e (h.0)
All-lookup P r (x ∷ rules) (Memᴰ.tail m) h = All-lookup P r rules m h.1

and_false : (a : Bool) {b : Bool} → b ≡ false → (a && b) ≡ false
and_false true e = e
and_false false e = refl

first_match-Decides :
    (rules : List DomainRule) (host : Text)
    → IsDescending rules
    → Decides rules host (first_match rules host)
unfolding first_match
first_match-Decides [] host d = tt
first_match-Decides (r ∷ rules) host d = elim (Bool-cases (matches_rule r host)) [
  | inl e ↦ rw e (record {
    rule = r;
    mem = Memᴰ.head refl;
    matching = e;
    named = refl;
    top = (
      rw (e, irreflexive (specificity r)) refl,
      All-map (λ x. more_specific (specificity x) (specificity r) ≡ false)
          (λ x. (matches_rule x host && more_specific (specificity x) (specificity r)) ≡ false)
          rules (λ x f. and_false (matches_rule x host) f) d.0,
    );
  })
  | inr e ↦
      rw e (later r rules host (first_match rules host) e (first_match-Decides rules host d.1))
]
  where
    later :
        (r : DomainRule) (rules : List DomainRule) (host : Text) (o : Option Text)
        → matches_rule r host ≡ false
        → Decides rules host o
        → Decides (r ∷ rules) host o
    later r rules host none e h = (e, h)
    later r rules host (some server) e h = record {
      rule = h.rule;
      mem = Memᴰ.tail (h.mem);
      matching = h.matching;
      named = h.named;
      top = (rw e refl, h.top);
    }

Decides-sort_rules :
    (rules : List DomainRule) (host : Text) (o : Option Text)
    → Decides (sort_rules rules) host o
    → Decides rules host o
Decides-sort_rules rules host none h = (All-sort_rules _ rules).0 h
Decides-sort_rules rules host (some server) h = record {
  rule = h.rule;
  mem =
      All-lookup (λ r. Memᴰ r rules) (h.rule) (sort_rules rules) (h.mem)
        ((All-sort_rules (λ r. Memᴰ r rules) rules).1 (All-mem rules));
  matching = h.matching;
  named = h.named;
  top = (All-sort_rules _ rules).0 (h.top);
}

-- Once the rules are sorted, the first rule that matches a host decides: the server it gives is that of
-- a matching rule of `rules` such that no matching rule is more specific, and it gives none only if no
-- rule matches.
pub first_match-sort_rules :
    (rules : List DomainRule) (host : Text)
    → Decides rules host (first_match (sort_rules rules) host)
first_match-sort_rules rules host =
    Decides-sort_rules rules host _
      (first_match-Decides (sort_rules rules) host (sort_rules-IsDescending rules))
