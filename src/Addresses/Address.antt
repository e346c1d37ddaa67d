-- ===== src/Addresses/Address.antt =====
-- src/addresses.rs: `Address`.
use geocode_csv.Base.{Bool, not, ◌&&◌, Option, none, some, []}
use geocode_csv.Base.Text.{Text, is_empty, trim, eq_ignore_ascii_case}

pub record Address : Type 0 where
  pub street : Text
  pub city : Option Text
  pub state : Option Text
  pub zipcode : Option Text

-- `as_ref().map(|s| &s[..]).unwrap_or("")`
abbrev pub or_empty : Option Text → Text
or_empty none = []
or_empty (some s) = s

unfoldable pub is_valid : Address → Bool
is_valid a = not (is_empty (trim a.street))

abbrev pub city_str : Address → Text
city_str a = or_empty a.city

abbrev pub state_str : Address → Text
state_str a = or_empty a.state

abbrev pub zipcode_str : Address → Text
zipcode_str a = or_empty a.zipcode

unfoldable pub address_eq_ignore_ascii_case : Address → Address → Bool
address_eq_ignore_ascii_case a b =
    eq_ignore_ascii_case a.street b.street
    && (eq_ignore_ascii_case (city_str a) (city_str b)
        && (eq_ignore_ascii_case (state_str a) (state_str b)
            && eq_ignore_ascii_case (zipcode_str a) (zipcode_str b)))
