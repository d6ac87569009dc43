-- ===== src/Routing/Laws/Subdomains.antt =====
-- Which hosts a rule matches (rvpn/crates/rvpn-split-tunnel/src/router.rs).
use r_vpn_core.Common.{
  ℕ, zero, suc, ◌+◌, ◌-◌, ◌<◌, ◌≡◌, refl, sym, ap, ◌∙◌, ◌↔◌, ◌⊎◌, inl, inr, true, List, [], ◌∷◌,
  ◌++◌, arith, ltb, leb, length, take, drop, get_or, length-append, length-take, drop-append_add,
  take-append-drop, Bool-cases,
}
use r_vpn_core.Common.Texts.{Text, same_text, same_text_iff}
use r_vpn_core.Routing.Patterns.{
  DomainKind, exact, wildcard, suffix, DomainRule, dot, ends_with, is_subdomain, matches_rule,
}

-- A host below the pattern: a label that is not empty, a dot and the pattern.
abbrev pub IsBelow : Text → Text → Type 0
IsBelow pattern host = (label : Text) × (0 < length label) × (host ≡ label ++ (dot ∷ pattern))

abbrev pub Matches : DomainKind → Text → Text → Type 0
Matches exact pattern host = host ≡ pattern
Matches wildcard pattern host = IsBelow pattern host
Matches suffix pattern host = (host ≡ pattern) ⊎ IsBelow pattern host

drop-get_or : (xs : List ℕ) (k : ℕ) → k < length xs → drop k xs ≡ get_or xs k 0 ∷ drop (suc k) xs
drop-get_or [] k h = absurd (omega arith)
drop-get_or (x ∷ xs) zero h = refl
drop-get_or (x ∷ xs) (suc k) h = drop-get_or xs k (omega arith)

get_or-append : (xs : List ℕ) (y : ℕ) (ys : List ℕ) → get_or (xs ++ (y ∷ ys)) (length xs) 0 ≡ y
get_or-append [] y ys = refl
get_or-append (x ∷ xs) y ys = get_or-append xs y ys

is_subdomain→IsBelow :
    (pattern host : Text) → is_subdomain pattern host ≡ true → IsBelow pattern host
unfolding is_subdomain ends_with
is_subdomain→IsBelow pattern host h =
    let k = length host - length pattern - 1 in
    let long : length pattern + 1 < length host = ground arith in
    let tail : drop (length host - length pattern) host ≡ pattern =
      (same_text_iff _ _).0 (ground arith) in
    let here : get_or host k 0 ≡ dot = ground arith in
    let next : length host - length pattern ≡ suc k = omega arith in
    let parts = drop-get_or host k (omega arith) in
    (
      take k host,
      omega (arith, length-take k host),
      sym (take-append-drop k host)
          ∙ ap (λ t. take k host ++ t) (rw (parts, here, sym next, tail) refl),
    )

IsBelow→is_subdomain :
    (pattern label : Text)
    → 0 < length label
    → is_subdomain pattern (label ++ (dot ∷ pattern)) ≡ true
unfolding is_subdomain ends_with
IsBelow→is_subdomain pattern label h =
    let host = label ++ (dot ∷ pattern) in
    let n = length-append label (dot ∷ pattern) in
    let k : length host - length pattern - 1 ≡ length label = omega (arith, n) in
    let k' : length host - length pattern ≡ length label + 1 = omega (arith, n) in
    let long : ltb (length pattern + 1) (length host) ≡ true = ground (arith, n) in
    let fits : leb (length pattern) (length host) ≡ true = ground (arith, n) in
    let tail = drop-append_add (length label) 1 label (dot ∷ pattern) refl in
    rw
      (
        long,
        fits,
        k,
        k',
        tail,
        get_or-append label dot pattern,
        (same_text_iff pattern pattern).1 refl,
      )
      refl

is_subdomain_iff : (pattern host : Text) → (is_subdomain pattern host ≡ true) ↔ IsBelow pattern host
is_subdomain_iff pattern host = (
  is_subdomain→IsBelow pattern host,
  λ b. let (label, h, e) = b in rw e (IsBelow→is_subdomain pattern label h),
)

kind_iff :
    (kind : DomainKind) (pattern server host : Text)
    → (matches_rule (record { kind = kind; pattern = pattern; server = server }) host ≡ true)
      ↔ Matches kind pattern host
unfolding matches_rule
kind_iff exact pattern server host = same_text_iff host pattern
kind_iff wildcard pattern server host = is_subdomain_iff pattern host
kind_iff suffix pattern server host =
    let (to, from) = same_text_iff host pattern in
    let (to', from') = is_subdomain_iff pattern host in
    (
      λ h. elim (Bool-cases (same_text host pattern)) [
        | inl e ↦ inl (to e)
        | inr e ↦ inr (to' (rw e at h))
      ],
      λ m. elim m [ inl e ↦ rw (from e) refl | inr b ↦ ground (arith, from' b) ],
    )

-- A rule matches a host exactly when its kind says so: an exact rule its pattern, a wildcard rule
-- what is below its pattern, by a label that is not empty and a dot, and a suffix rule both.
pub matches_rule_iff :
    (rule : DomainRule) (host : Text)
    → (matches_rule rule host ≡ true) ↔ Matches rule.kind rule.pattern host
matches_rule_iff rule host = kind_iff rule.kind rule.pattern rule.server host
