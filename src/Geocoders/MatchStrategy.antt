-- ===== src/Geocoders/MatchStrategy.antt =====
-- src/geocoders/mod.rs: `MatchStrategy`, its printing and its parsing.
use geocode_csv.Base.{◌↔◌, ◌≡◌, if◌then◌else◌, arith}
use geocode_csv.Base.Text.{Text, codes, text_eq, text_eq_iff}
use geocode_csv.Base.Outcome.{Outcome, ok, err, unknown_name}

pub data MatchStrategy : Type 0 where
  strict range invalid enhanced : MatchStrategy

-- `Display::fmt`
unfoldable pub print_strategy : MatchStrategy → Text
print_strategy strict = codes "strict"
print_strategy range = codes "range"
print_strategy invalid = codes "invalid"
print_strategy enhanced = codes "enhanced"

-- `FromStr::from_str`
unfoldable pub parse_strategy : Text → Outcome MatchStrategy
parse_strategy s =
    if text_eq s (codes "strict")
    then ok strict
    else if text_eq s (codes "range")
    then ok range
    else if text_eq s (codes "invalid")
    then ok invalid
    else if text_eq s (codes "enhanced")
    then ok enhanced
    else err (unknown_name s)

-- `MatchStrategy::default`
unfoldable pub default_strategy : MatchStrategy
default_strategy = strict

-- A text parses to a strategy exactly when it is what that strategy prints: printing and parsing
-- are inverse to each other, and every other text is an error.
pub parse-print_iff :
    (s : Text) (m : MatchStrategy) → (parse_strategy s ≡ ok m) ↔ (s ≡ print_strategy m)
unfolding parse_strategy print_strategy
parse-print_iff s strict = ground (arith, text_eq_iff s (codes "strict"))
parse-print_iff s range =
    ground (arith, text_eq_iff s (codes "strict"), text_eq_iff s (codes "range"))
parse-print_iff s invalid = ground (
  arith,
  text_eq_iff s (codes "strict"),
  text_eq_iff s (codes "range"),
  text_eq_iff s (codes "invalid"),
)
parse-print_iff s enhanced = ground (
  arith,
  text_eq_iff s (codes "strict"),
  text_eq_iff s (codes "range"),
  text_eq_iff s (codes "invalid"),
  text_eq_iff s (codes "enhanced"),
)
