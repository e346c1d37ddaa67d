-- ===== src/Geocoders/Smarty/New.antt =====
-- src/geocoders/smarty/mod.rs: `Smarty::new` gives a geocoder that implements the trait, or an error.
use geocode_csv.Base.{Option, Option-cases, inl, inr}
use geocode_csv.Base.Text.{Text}
use geocode_csv.Base.Outcome.{Outcome, Ensures, Ensures-bind, keep_ok}
use geocode_csv.Geocoders.{Implements}
use geocode_csv.Geocoders.MatchStrategy.{MatchStrategy}
use geocode_csv.Geocoders.Smarty.Fields.{Members, from_str}
use geocode_csv.Geocoders.Smarty.Fields.Complete.{complete, complete_json}
use geocode_csv.Geocoders.Smarty.Counts.{from_str-total, from_str-HasColumns}
use geocode_csv.Geocoders.Smarty.{Service, Credentials, variable_or, from_env, new_smarty}
use geocode_csv.Geocoders.Smarty.Laws.{ServiceSafe, smarty-Implements}

variable_or-total :
    (env : Text → Option Text) (name other : Text)
    → Ensures (λ v. Unit) (variable_or env name other)
unfolding variable_or
variable_or-total env name other = elim (Option-cases (env name)) [
  | inr (v, e) ↦ rw (variable_or, e) tt
  | inl e ↦ elim (Option-cases (env other)) [
    | inr (v, f) ↦ rw (variable_or, e, f) tt
    | inl f ↦ rw (variable_or, e, f) tt
  ]
]

from_env-total : (env : Text → Option Text) → Ensures (λ c. Unit) (from_env env)
unfolding from_env
from_env-total env =
    Ensures-bind _ _ (variable_or env _ _) _ (variable_or-total env _ _) λ auth_id u.
      Ensures-bind _ _ (variable_or env _ _) _ (variable_or-total env _ _) λ auth_token v. tt

module _ {W : Type 0} {Inv : W → Type 0} (service : Credentials → Service W) where
  -- A Smarty geocoder that is made implements the trait, if the parsing of the text of complete.json
  -- does not panic.
  pub new_smarty-Implements :
      (from_json : Text → Outcome Members) (env : Text → Option Text)
      (match_strategy : MatchStrategy) (license : Text)
      → ((s : Text) → Ensures (λ m. Unit) (from_json s))
      → ((credentials : Credentials) → ServiceSafe Inv (service credentials))
      → Ensures (Implements Inv) (new_smarty service from_json env match_strategy license)
  unfolding new_smarty complete
  new_smarty-Implements from_json env match_strategy license j s =
      Ensures-bind _ _ (from_str from_json complete_json) _
        (keep_ok (from_str from_json complete_json) (from_str-total from_json complete_json (j _)))
        λ structure e.
          let (names, h, l, v) = from_str-HasColumns from_json complete_json structure e in
          rw h (
            Ensures-bind _ _ (from_env env) _ (from_env-total env) λ credentials u'.
              smarty-Implements (service credentials) structure match_strategy license _ names h
                (s credentials))
