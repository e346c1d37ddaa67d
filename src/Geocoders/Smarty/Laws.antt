-- ===== src/Geocoders/Smarty/Laws.antt =====
-- src/geocoders/smarty: a response has a value for each column, and Smarty implements the trait.
use geocode_csv.Base.{
  ℕ, ◌≡◌, refl, ◌∙◌, true, false, Option, none, some, List, [], ◌∷◌, ◌++◌, length, lt→ltb, arith,
  All, All-set, All-replicate, length-append, length-map, length-replicate, length-set, Bool-cases,
  inl, inr,
}
use geocode_csv.Base.Text.{Text, is_empty}
use geocode_csv.Base.Outcome.{ok, Ensures, Ensures-bind, both_ok}
use geocode_csv.Base.Effect.Safe.{Safe, Safe-bind, Safe-if, Safe-lift, Safe-pure}
use geocode_csv.UnpackVec.InRange.{InRange, unpack_vec-InRange}
use geocode_csv.Geocoders.{Geocoded, Implements, Fits, contains_null_bytes}
use geocode_csv.Geocoders.MatchStrategy.{MatchStrategy}
use geocode_csv.Geocoders.Smarty.Fields.{
  Value, null, bool, number, string, array, object, Members, no_members, member_then, Structure,
  Path', traverse, traverse_map, push_name, push_value, column_name, output_column_names,
  value_columns_for, follow, format_found, format_value,
}
use geocode_csv.Geocoders.Smarty.{
  AddressRequest, AddressResponse, Service, place_responses, street_addresses, acquire_permits,
  request_for, geocode_by_smarty, smarty, is_success, read_response, Response,
}

format_found-Ensures : (path : Path') (v : Option Value) → Ensures (λ s. Unit) (format_found path v)
unfolding format_found format_value
format_found-Ensures path none = tt
format_found-Ensures path (some null) = tt
format_found-Ensures path (some (bool b)) = tt
format_found-Ensures path (some (number n)) = tt
format_found-Ensures path (some (string s)) = tt
format_found-Ensures path (some (array elements)) = tt
format_found-Ensures path (some (object m)) = tt

module _ (data' : Value) where
  -- As many values as names.
  abbrev SameLength : List Text → List Text → Type 0
  SameLength names result = length result ≡ length names

  push_value-SameLength :
      (path : Path') (name : Text) (names result : List Text)
      → SameLength names result
      → Ensures (SameLength (names ++ (name ∷ []))) (push_value data' path result)
  push_value-SameLength path name names result l =
      Ensures-bind _ _ (format_found path (follow path data')) _ (format_found-Ensures path _)
        λ s u. omega (arith, length-append result (s ∷ []), length-append names (name ∷ []), l)

  traverse_map-SameLength :
      (outer : Text) (m : Members) (names result : List Text) {all : List Text}
      → traverse_map push_name outer m names ≡ ok all
      → SameLength names result
      → Ensures (SameLength all) (traverse_map (push_value data') outer m result)
  unfolding traverse_map column_name
  traverse_map-SameLength outer no_members names result {all} h l =
      let same : names ≡ all = cc in rw (← same) l
  traverse_map-SameLength outer (member_then k (bool true) rest) names result h l =
      Ensures-bind _ _ (push_value data' (outer ∷ k ∷ []) result) _
        (push_value-SameLength (outer ∷ k ∷ []) k names result l)
        λ r l'. traverse_map-SameLength outer rest (names ++ (k ∷ [])) r h l'
  traverse_map-SameLength outer (member_then k (bool false) rest) names result h l =
      traverse_map-SameLength outer rest names result h l
  traverse_map-SameLength outer (member_then k null rest) names result h l = tt
  traverse_map-SameLength outer (member_then k (number n) rest) names result h l = tt
  traverse_map-SameLength outer (member_then k (string s) rest) names result h l = tt
  traverse_map-SameLength outer (member_then k (array vs) rest) names result h l = tt
  traverse_map-SameLength outer (member_then k (object m) rest) names result h l = tt

  traverse-SameLength :
      (m : Members) (names result : List Text) {all : List Text}
      → traverse push_name m names ≡ ok all
      → SameLength names result
      → Ensures (SameLength all) (traverse (push_value data') m result)
  unfolding traverse column_name
  traverse-SameLength no_members names result {all} h l =
      let same : names ≡ all = cc in rw (← same) l
  traverse-SameLength (member_then k (bool true) rest) names result h l =
      Ensures-bind _ _ (push_value data' (k ∷ []) result) _
        (push_value-SameLength (k ∷ []) k names result l)
        λ r l'. traverse-SameLength rest (names ++ (k ∷ [])) r h l'
  traverse-SameLength (member_then k (bool false) rest) names result h l =
      traverse-SameLength rest names result h l
  traverse-SameLength (member_then k (object m) rest) names result h l =
      let (names', e, h') = both_ok _ (traverse_map push_name k m names) h in
      Ensures-bind _ _ (traverse_map (push_value data') k m result) _
        (traverse_map-SameLength k m names result e l)
        λ r l'. traverse-SameLength rest names' r h' l'
  traverse-SameLength (member_then k null rest) names result h l = tt
  traverse-SameLength (member_then k (number n) rest) names result h l = tt
  traverse-SameLength (member_then k (string s) rest) names result h l = tt
  traverse-SameLength (member_then k (array vs) rest) names result h l = tt

-- For a structure that has column names, whatever the data, its values are as many as the names, or
-- it is an error; there is no panic.
pub value_columns_for-SameLength :
    (structure : Structure) (data' : Value) {names : List Text}
    → output_column_names structure ≡ ok names
    → Ensures (λ values. length values ≡ length names) (value_columns_for structure data')
unfolding value_columns_for output_column_names
value_columns_for-SameLength structure data' h =
    traverse-SameLength data' structure.fields [] [] h refl

abbrev index_of : AddressResponse → ℕ
index_of resp = resp.input_index

place_responses-Fits :
    (structure : Structure) (n : ℕ) (responses : List (Option AddressResponse))
    (geocoded : List (Option Geocoded)) {names : List Text}
    → output_column_names structure ≡ ok names
    → All (InRange n index_of) responses
    → length geocoded ≡ n
    → All (Fits (length names)) geocoded
    → Ensures
        (λ (g : List (Option Geocoded)). (length g ≡ n) × All (Fits (length names)) g)
        (place_responses structure responses geocoded)
unfolding place_responses
place_responses-Fits structure n [] geocoded h r l f = (l, f)
place_responses-Fits structure n (none ∷ responses) geocoded h (r, rs) l f =
    place_responses-Fits structure n responses geocoded h rs l f
place_responses-Fits structure n (some output ∷ responses) geocoded {names} h (r, rs) l f =
    Ensures-bind _ _ (value_columns_for structure output.fields) _
      (value_columns_for-SameLength structure output.fields h)
      λ values len. elim (Bool-cases (contains_null_bytes (record { column_values = values }))) [
        | inl null' ↦ rw null' tt
        | inr fine ↦
            rw (fine, lt→ltb output.input_index (length geocoded) (omega (arith, l, r)))
              (place_responses-Fits structure n responses _ h rs (length-set geocoded _ _ ∙ l)
                (All-set (Fits (length names)) geocoded output.input_index _ f len))
      ]

-- The service: parsing does not panic, and requests and waiting for permits are safe.
pub record ServiceSafe {W : Type 0} (Inv : W → Type 0) (service : Service W) : Type 0 where
  pub requests :
      (license : Text) (rs : List AddressRequest)
      → Safe Inv (λ res. Unit) (service.request license rs)
  pub parses : (body : List ℕ) → Ensures (λ resps. Unit) (service.from_slice body)
  pub permits :
      (permits_needed : ℕ)
      → Safe Inv (λ done. Unit) (acquire_permits service.acquire permits_needed)

module _ {W : Type 0} {Inv : W → Type 0} (service : Service W) (structure : Structure)
    (match_strategy : MatchStrategy) (license : Text) where
  read_response-InRange :
      (n : ℕ) (res : Response)
      → ServiceSafe Inv service
      → Ensures
          (λ (out : List (Option AddressResponse)). (length out ≡ n) × All (InRange n index_of) out)
          (read_response service structure match_strategy license n res)
  unfolding read_response
  read_response-InRange n res s = elim (Bool-cases (is_success res.status)) [
    | inl good ↦ rw good (
        Ensures-bind _ _ (service.from_slice res.body) _ (s.parses res.body)
          λ resps u. unpack_vec-InRange n index_of resps)
    | inr bad ↦ rw bad tt
  ]

  -- Smarty implements the trait, whatever the service answers, if the structure has column names,
  -- requests and the rate limiter are safe, and the parsing of bodies does not panic. An answer in
  -- which an index is too large or appears twice is an error.
  pub smarty-Implements :
      (configuration_key : Text) (names : List Text)
      → output_column_names structure ≡ ok names
      → ServiceSafe Inv service
      → Implements Inv (smarty service structure match_strategy license configuration_key names)
  unfolding geocode_by_smarty street_addresses
  smarty-Implements configuration_key names h s = record {
    calls = λ xs.
        Safe-if (is_empty xs) _ _
          (λ nothing. Safe-pure _ (
            length-replicate (length xs) none,
            All-replicate (Fits (length names)) (length xs) none tt,
          ))
          (λ something.
            Safe-bind (acquire_permits service.acquire (length xs)) _ (s.permits (length xs)) λ a u.
              Safe-bind _ _
                (Safe-bind (service.request license _) _ (s.requests license _)
                  λ res u'. Safe-lift _ (read_response-InRange (length _) res s))
                λ responses p. Safe-lift _ (
                  place_responses-Fits structure (length xs) responses _ h
                    (rw (← length-map (request_for service structure match_strategy license) xs)
                      p.1)
                    (length-replicate (length xs) none)
                    (All-replicate (Fits (length names)) (length xs) none tt)));
  }
