-- ===== src/Routing/Patterns.antt =====
-- Domain patterns, rvpn/crates/rvpn-split-tunnel/src/router.rs. A text is ASCII, as its bytes.
use r_vpn_core.Common.{
  ℕ, ◌+◌, ◌-◌, Bool, true, false, ◌&&◌, ◌||◌, Option, none, some, [], ◌∷◌, map, ltb, leb, ◌==◌,
  if◌then◌else◌, length, drop, get_or, Result, ok, err,
}
use r_vpn_core.Common.Texts.{Text, same_text}

abbrev pub dot : ℕ
dot = 46

abbrev pub star : ℕ
star = 42

pub data DomainKind : Type 0 where
  exact wildcard suffix : DomainKind

pub record DomainRule : Type 0 where
  pub kind : DomainKind
  pub pattern : Text
  pub server : Text

pub data PatternError : Type 0 where
  empty_pattern wildcard_not_leading unsupported_wildcard : PatternError

-- `u8::to_ascii_lowercase`
abbrev pub lower : ℕ → ℕ
lower c = if leb 65 c && leb c 90 then c + 32 else c

unfoldable pub to_ascii_lowercase : Text → Text
to_ascii_lowercase text = map lower text

unfoldable pub all_same : ℕ → Text → Bool
all_same c [] = true
all_same c (x ∷ xs) = (x == c) && all_same c xs

-- `trim_end_matches(c)`
unfoldable pub trim_end_matches : ℕ → Text → Text
trim_end_matches c [] = []
trim_end_matches c (x ∷ xs) = if all_same c (x ∷ xs) then [] else x ∷ trim_end_matches c xs

abbrev pub is_whitespace : ℕ → Bool
is_whitespace c = c == 32 || (leb 9 c && leb c 13)

unfoldable pub trim_start : Text → Text
trim_start [] = []
trim_start (x ∷ xs) = if is_whitespace x then trim_start xs else x ∷ xs

unfoldable pub all_whitespace : Text → Bool
all_whitespace [] = true
all_whitespace (x ∷ xs) = is_whitespace x && all_whitespace xs

unfoldable pub trim_end : Text → Text
trim_end [] = []
trim_end (x ∷ xs) = if all_whitespace (x ∷ xs) then [] else x ∷ trim_end xs

-- `str::trim`
unfoldable pub trim : Text → Text
trim text = trim_end (trim_start text)

unfoldable pub contains : ℕ → Text → Bool
contains c [] = false
contains c (x ∷ xs) = x == c || contains c xs

abbrev pub is_empty : Text → Bool
is_empty [] = true
is_empty (x ∷ xs) = false

-- `ends_with(needle)`
unfoldable pub ends_with : Text → Text → Bool
ends_with text needle =
    leb (length needle) (length text) && same_text (drop (length text - length needle) text) needle

-- `strip_prefix("*.")`
unfoldable pub strip_wildcard : Text → Option Text
strip_wildcard [] = none
strip_wildcard (x ∷ []) = none
strip_wildcard (x ∷ y ∷ rest) = if x == star && y == dot then some rest else none

unfoldable pub parse_domain_pattern : Text → Result PatternError (DomainKind × Text)
parse_domain_pattern raw =
    let trimmed = trim_end_matches dot (trim raw) in
    let kind = if ends_with (trim raw) (dot ∷ []) then exact else suffix in
    if is_empty trimmed then err empty_pattern else elim (strip_wildcard trimmed) [
      | some rest ↦
          if is_empty rest || contains star rest
          then err wildcard_not_leading
          else ok (wildcard, to_ascii_lowercase rest)
      | none ↦
          if contains star trimmed
          then err unsupported_wildcard
          else ok (kind, to_ascii_lowercase trimmed)
    ]

-- The test of a subdomain, which two kinds share.
unfoldable pub is_subdomain : (pattern host : Text) → Bool
is_subdomain pattern host =
    ltb (length pattern + 1) (length host)
    && ends_with host pattern
    && get_or host (length host - length pattern - 1) 0 == dot

unfoldable pub matches_rule : DomainRule → Text → Bool
matches_rule rule host = elim (rule.kind) [
  | exact ↦ same_text host rule.pattern
  | wildcard ↦ is_subdomain rule.pattern host
  | suffix ↦ same_text host rule.pattern || is_subdomain rule.pattern host
]

unfoldable pub kind_rank : DomainKind → ℕ
kind_rank exact = 2
kind_rank wildcard = 1
kind_rank suffix = 0

unfoldable pub specificity : DomainRule → ℕ × ℕ
specificity rule = (kind_rank rule.kind, length rule.pattern)
