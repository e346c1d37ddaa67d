-- ===== src/Geocoders/Smarty/Fields.antt =====
-- src/geocoders/smarty/structure.rs: which fields of a response become columns.
pub mod Complete
use geocode_csv.Base.{
  ℕ, suc, Bool, true, false, Option, none, some, List, [], ◌∷◌, ◌++◌, if◌then◌else◌,
}
use geocode_csv.Base.Text.{Text, codes, text_eq}
use geocode_csv.Base.Outcome.{
  Outcome, ok, err, panicked, invalid_structure, unexpected_value, ◌>>=◌,
}

-- `serde_json::Value`. A number is what `Display` prints for it. An object keeps its order.
mutual
  pub data Value : Type 0 where
    null : Value
    bool : Bool → Value
    number : Text → Value
    string : Text → Value
    array : Values → Value
    object : Members → Value

  pub data Values : Type 0 where
    no_values : Values
    value_then : Value → Values → Values

  pub data Members : Type 0 where
    no_members : Members
    member_then : Text → Value → Members → Members

pub record Structure : Type 0 where
  pub column_count : ℕ
  pub fields : Members

abbrev pub Path' : Type 0
Path' = List Text

-- The inner loop of `traverse`. What `f` is called with, in order: `traverse` passes paths to a
-- closure that may fail, and stops at its first error.
module _ {S : Type 0} (f : Path' → S → Outcome S) where
  unfoldable pub traverse_map : Text → Members → S → Outcome S
  traverse_map outer no_members s = ok s
  traverse_map outer (member_then k (bool true) rest) s = do
    s' ← f (outer ∷ k ∷ []) s
    traverse_map outer rest s'
  traverse_map outer (member_then k (bool false) rest) s = traverse_map outer rest s
  traverse_map outer (member_then k value rest) s = err (invalid_structure (outer ∷ k ∷ []))

  unfoldable pub traverse : Members → S → Outcome S
  unfolding traverse_map
  traverse no_members s = ok s
  traverse (member_then k (bool true) rest) s = do s' ← f (k ∷ []) s; traverse rest s'
  traverse (member_then k (bool false) rest) s = traverse rest s
  traverse (member_then k (object m) rest) s = do s' ← traverse_map k m s; traverse rest s'
  traverse (member_then k value rest) s = err (invalid_structure (k ∷ []))

abbrev pub count_path : Path' → ℕ → Outcome ℕ
count_path path count = ok (suc count)

-- `Structure::from_str`; `from_json` is `serde_json::from_str`.
unfoldable pub from_str : (Text → Outcome Members) → Text → Outcome Structure
unfolding traverse
from_str from_json s = do
  fields ← from_json s
  count ← traverse count_path fields 0
  ok (record { column_count = count; fields = fields })

-- `path.last()`
unfoldable pub column_name : Path' → Outcome Text
column_name [] = panicked
column_name (k ∷ []) = ok k
column_name (k ∷ (j ∷ path)) = column_name (j ∷ path)

abbrev pub push_name : Path' → List Text → Outcome (List Text)
push_name path columns = do name ← column_name path; ok (columns ++ (name ∷ []))

unfoldable pub output_column_names : Structure → Outcome (List Text)
unfolding traverse column_name
output_column_names structure = traverse push_name structure.fields []

-- `Value::get` of a string
unfoldable pub get_member : Members → Text → Option Value
get_member no_members k = none
get_member (member_then j value rest) k = if text_eq j k then some value else get_member rest k

unfoldable pub get_field : Value → Text → Option Value
unfolding get_member
get_field (object m) k = get_member m k
get_field value k = none

-- The loop that follows a path.
unfoldable pub follow : Path' → Value → Option Value
unfolding get_field
follow [] focus = some focus
follow (k ∷ path) focus = elim (get_field focus k) [ none ↦ none | some value ↦ follow path value ]

unfoldable pub format_value : Path' → Value → Outcome Text
format_value path null = ok []
format_value path (bool b) = ok (if b then codes "T" else codes "F")
format_value path (number n) = ok n
format_value path (string s) = ok s
format_value path (array elements) = err (unexpected_value path)
format_value path (object m) = err (unexpected_value path)

unfoldable pub format_found : Path' → Option Value → Outcome Text
unfolding format_value
format_found path none = ok []
format_found path (some focus) = format_value path focus

abbrev pub push_value : Value → Path' → List Text → Outcome (List Text)
push_value data' path result = do
  formatted ← format_found path (follow path data')
  ok (result ++ (formatted ∷ []))

unfoldable pub value_columns_for : Structure → Value → Outcome (List Text)
unfolding traverse follow format_found
value_columns_for structure data' = traverse (push_value data') structure.fields []
