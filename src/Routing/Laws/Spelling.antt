-- ===== src/Routing/Laws/Spelling.antt =====
-- Hosts that are spelled in several ways (rvpn/crates/rvpn-split-tunnel/src/router.rs).
use r_vpn_core.Common.{
  ℕ, ◌≡◌, refl, ap, ◌∙◌, Bool, true, false, ◌&&◌, [], ◌∷◌, ◌++◌, map, arith, ◌==◌, if◌then◌else◌,
}
use r_vpn_core.Common.Texts.{Text}
use r_vpn_core.Routing.Patterns.{lower, to_ascii_lowercase, all_same, trim_end_matches, dot}
use r_vpn_core.Routing.Router.{Networks, Router, choose, choose_lower}

all_same-snoc : (c : ℕ) (xs : Text) → all_same c (xs ++ (c ∷ [])) ≡ all_same c xs
unfolding all_same
all_same-snoc c [] = ground arith
all_same-snoc c (x ∷ xs) = rw (all_same-snoc c xs) refl

trim_end_matches-snoc :
    (c : ℕ) (xs : Text) → trim_end_matches c (xs ++ (c ∷ [])) ≡ trim_end_matches c xs
unfolding trim_end_matches all_same
trim_end_matches-snoc c [] = ground arith
trim_end_matches-snoc c (x ∷ xs) = rw (all_same-snoc c xs, trim_end_matches-snoc c xs) refl

lower_twice : (x : ℕ) → lower (lower x) ≡ lower x
lower_twice x = ground arith

lower-dot : (x : ℕ) → (lower x == dot) ≡ (x == dot)
lower-dot x = ground arith

all_same-map : (xs : Text) → all_same dot (map lower xs) ≡ all_same dot xs
unfolding all_same
all_same-map [] = refl
all_same-map (x ∷ xs) = rw (lower-dot x, all_same-map xs) refl

lower_end :
    (b : Bool) (x : ℕ) (ys : Text)
    → (if b then [] else (lower x ∷ map lower ys)) ≡ map lower (if b then [] else (x ∷ ys))
lower_end true x ys = refl
lower_end false x ys = refl

trim_end_matches-map :
    (xs : Text) → trim_end_matches dot (map lower xs) ≡ map lower (trim_end_matches dot xs)
unfolding trim_end_matches all_same
trim_end_matches-map [] = refl
trim_end_matches-map (x ∷ xs) =
    rw (lower-dot x, all_same-map xs, trim_end_matches-map xs)
      (lower_end (x == dot && all_same dot xs) x (trim_end_matches dot xs))

map-lower_twice : (xs : Text) → map lower (map lower xs) ≡ map lower xs
map-lower_twice [] = refl
map-lower_twice (x ∷ xs) = rw (lower_twice x, map-lower_twice xs) refl

lowercase-trim :
    (xs : Text)
    → to_ascii_lowercase (trim_end_matches dot (to_ascii_lowercase xs))
      ≡ to_ascii_lowercase (trim_end_matches dot xs)
unfolding to_ascii_lowercase
lowercase-trim xs =
    ap (map lower) (trim_end_matches-map xs) ∙ map-lower_twice (trim_end_matches dot xs)

-- A host is routed as it is with a dot at its end, and as it is in lower case.
pub choose-spelling :
    (net : Networks) (router : Router net) (host : Text)
    → (choose net router (host ++ (dot ∷ [])) ≡ choose net router host)
      × (choose net router (to_ascii_lowercase host) ≡ choose net router host)
unfolding choose
choose-spelling net router host = (
  ap (λ h. choose_lower net router (to_ascii_lowercase h)) (trim_end_matches-snoc dot host),
  ap (choose_lower net router) (lowercase-trim host),
)
