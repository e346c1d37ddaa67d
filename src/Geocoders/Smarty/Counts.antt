-- ===== src/Geocoders/Smarty/Counts.antt =====
-- src/geocoders/smarty/structure.rs: a structure that is read from JSON has as many column names as it
-- counts columns.
use geocode_csv.Base.{
  ℕ, suc, ◌≡◌, refl, true, false, List, [], ◌∷◌, ◌++◌, length, length-append, arith,
}
use geocode_csv.Base.Text.{Text}
use geocode_csv.Base.Outcome.{Outcome, ok, err, panicked, Ensures, Ensures-bind, both_ok}
use geocode_csv.Base.Outcome
use geocode_csv.Geocoders.Smarty.Fields.{
  Value, null, bool, number, string, array, object, Members, no_members, member_then, Structure,
  traverse, traverse_map, push_name, count_path, column_name, output_column_names,
  value_columns_for, from_str,
}
use geocode_csv.Geocoders.Smarty.Laws.{value_columns_for-SameLength}

-- As many names as were counted, or the same error.
abbrev SameCount : Outcome (List Text) → Outcome ℕ → Type 0
SameCount (ok names) (ok count) = length names ≡ count
SameCount (ok names) (err e) = ⊥
SameCount (ok names) panicked = ⊥
SameCount (err e) (ok count) = ⊥
SameCount (err e) (err x) = e ≡ x
SameCount (err e) panicked = ⊥
SameCount panicked r = ⊥

SameCount-bind :
    (r : Outcome (List Text)) (c : Outcome ℕ) (f : List Text → Outcome (List Text))
    (g : ℕ → Outcome ℕ)
    → SameCount r c
    → ((names : List Text) (count : ℕ) → length names ≡ count → SameCount (f names) (g count))
    → SameCount (Outcome.◌>>=◌ r f) (Outcome.◌>>=◌ c g)
SameCount-bind (ok names) (ok count) f g h next = next names count h
SameCount-bind (ok names) (err e) f g h next = absurd h
SameCount-bind (ok names) panicked f g h next = absurd h
SameCount-bind (err e) (ok count) f g h next = absurd h
SameCount-bind (err e) (err x) f g h next = h
SameCount-bind (err e) panicked f g h next = absurd h
SameCount-bind panicked c f g h next = absurd h

traverse_map-SameCount :
    (outer : Text) (m : Members) (names : List Text) (count : ℕ)
    → length names ≡ count
    → SameCount (traverse_map push_name outer m names) (traverse_map count_path outer m count)
unfolding traverse_map column_name
traverse_map-SameCount outer no_members names count l = l
traverse_map-SameCount outer (member_then k (bool true) rest) names count l =
    traverse_map-SameCount outer rest (names ++ (k ∷ [])) (suc count)
      (omega (arith, length-append names (k ∷ []), l))
traverse_map-SameCount outer (member_then k (bool false) rest) names count l =
    traverse_map-SameCount outer rest names count l
traverse_map-SameCount outer (member_then k null rest) names count l = refl
traverse_map-SameCount outer (member_then k (number n) rest) names count l = refl
traverse_map-SameCount outer (member_then k (string s) rest) names count l = refl
traverse_map-SameCount outer (member_then k (array vs) rest) names count l = refl
traverse_map-SameCount outer (member_then k (object m) rest) names count l = refl

traverse-SameCount :
    (m : Members) (names : List Text) (count : ℕ)
    → length names ≡ count
    → SameCount (traverse push_name m names) (traverse count_path m count)
unfolding traverse column_name
traverse-SameCount no_members names count l = l
traverse-SameCount (member_then k (bool true) rest) names count l =
    traverse-SameCount rest (names ++ (k ∷ [])) (suc count)
      (omega (arith, length-append names (k ∷ []), l))
traverse-SameCount (member_then k (bool false) rest) names count l =
    traverse-SameCount rest names count l
traverse-SameCount (member_then k (object m) rest) names count l =
    SameCount-bind (traverse_map push_name k m names) (traverse_map count_path k m count) _ _
      (traverse_map-SameCount k m names count l)
      λ names' count' l'. traverse-SameCount rest names' count' l'
traverse-SameCount (member_then k null rest) names count l = refl
traverse-SameCount (member_then k (number n) rest) names count l = refl
traverse-SameCount (member_then k (string s) rest) names count l = refl
traverse-SameCount (member_then k (array vs) rest) names count l = refl

counted_names :
    (r : Outcome (List Text)) (count : ℕ)
    → SameCount r (ok count)
    → (names : List Text) × (r ≡ ok names) × (length names ≡ count)
counted_names (ok names) count h = (names, refl, h)
counted_names (err e) count h = absurd h
counted_names panicked count h = absurd h

counts_return :
    (r : Outcome (List Text)) (c : Outcome ℕ) → SameCount r c → Ensures (λ count. Unit) c
counts_return r (ok count) h = tt
counts_return r (err e) h = tt
counts_return (ok names) panicked h = h
counts_return (err e) panicked h = h
counts_return panicked panicked h = h

pub from_str-total :
    (from_json : Text → Outcome Members) (s : Text)
    → Ensures (λ fields. Unit) (from_json s)
    → Ensures (λ structure. Unit) (from_str from_json s)
unfolding from_str
from_str-total from_json s j = Ensures-bind _ _ (from_json s) _ j λ fields u.
    Ensures-bind _ _ (traverse count_path fields 0) _
      (counts_return _ _ (traverse-SameCount fields [] 0 refl)) λ count u'. tt

-- The structure has that many names, and values.
abbrev pub HasColumns : ℕ → Structure → Type 0
HasColumns count structure =
    (names : List Text) × (output_column_names structure ≡ ok names)
    × (length names ≡ count)
    × ((data' : Value)
        → Ensures (λ values. length values ≡ count) (value_columns_for structure data'))

named-HasColumns :
    (structure : Structure) (count : ℕ) (names : List Text)
    → output_column_names structure ≡ ok names
    → length names ≡ count
    → HasColumns count structure
named-HasColumns structure count names n l =
    (names, n, l, λ data'. rw (← l) (value_columns_for-SameLength structure data' n))

fields-HasColumns :
    (fields : Members) (count : ℕ)
    → traverse count_path fields 0 ≡ ok count
    → HasColumns count (record { column_count = count; fields = fields })
unfolding output_column_names
fields-HasColumns fields count c =
    let (names, n, l) =
      counted_names (traverse push_name fields []) count
        (rw c at (traverse-SameCount fields [] 0 refl)) in
    named-HasColumns (record { column_count = count; fields = fields }) count names n l

-- A structure that is read from JSON has column names, as many as it counts columns, and whatever
-- the data, its values are as many, or it is an error; there is no panic.
pub from_str-HasColumns :
    (from_json : Text → Outcome Members) (s : Text) (structure : Structure)
    → from_str from_json s ≡ ok structure
    → HasColumns structure.column_count structure
unfolding from_str
from_str-HasColumns from_json s structure h =
    let (fields, e, h') = both_ok _ (from_json s) h in
    let (count, c, h'') = both_ok _ (traverse count_path fields 0) h' in
    let same : structure ≡ record { column_count = count; fields = fields } = cc in
    rw same (fields-HasColumns fields count c)
