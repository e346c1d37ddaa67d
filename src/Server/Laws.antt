-- ===== src/Server/Laws.antt =====
-- src/server.rs: what the handler replies.
use geocode_csv.Base.{
  ◌≡◌, ◌≢◌, refl, ◌∙◌, ap, ◌⊎◌, inl, inr, false, Option, none, some, List, [], ◌∷◌, map, length,
  arith, All, Bool-cases, Option-cases,
}
use geocode_csv.Base.Text.{Text, codes, text_eq, text_eq_refl, text_eq_iff}
use geocode_csv.Base.Dict.{Dict, lookup, insert, lookup-insert, contains}
use geocode_csv.Base.Outcome.{
  Outcome, ok, err, panicked, Ensures, Error, missing_header, unexpected_header,
}
use geocode_csv.Addresses.Address.{Address}
use geocode_csv.Geocoders.{Geocoder, Geocoded, Implements, Answers, Fits}
use geocode_csv.Server.{
  Reply, geocode_response, error_response, content_type, expect_header_value, insert_columns,
  hash_from_geocoded, result_for, reply_for, geocode_body, handle_post_geocode,
}

abbrev pub Distinct : List Text → Type 0
Distinct [] = Unit
Distinct (name ∷ names) = (contains names name ≡ false) × Distinct names

-- A name that is not inserted.
insert_columns-lookup_other :
    (names values : List Text) (m : Dict Text) (k : Text)
    → contains names k ≡ false
    → lookup k (insert_columns names values m) ≡ lookup k m
unfolding insert_columns
insert_columns-lookup_other [] values m k h = refl
insert_columns-lookup_other (name ∷ names) [] m k h = refl
insert_columns-lookup_other (name ∷ names) (v ∷ values) m k h = elim (Bool-cases (text_eq name k)) [
  | inl e ↦ absurd (ground (arith, h, e))
  | inr e ↦
      insert_columns-lookup_other names values (insert name v m) k (rw e at h)
      ∙ lookup-insert m name k v
      ∙ rw e refl
]

-- The names that are inserted, each with its own value.
insert_columns-lookup :
    (names values : List Text) (m : Dict Text)
    → Distinct names
    → length values ≡ length names
    → map (λ name. lookup name (insert_columns names values m)) names ≡ map some values
unfolding insert_columns
insert_columns-lookup [] [] m d l = refl
insert_columns-lookup [] (v ∷ values) m d l = absurd (omega (arith, l))
insert_columns-lookup (name ∷ names) [] m d l = absurd (omega (arith, l))
insert_columns-lookup (name ∷ names) (v ∷ values) m (h, d) l =
    let first : lookup name (insert_columns names values (insert name v m)) ≡ some v =
      insert_columns-lookup_other names values (insert name v m) name h
      ∙ lookup-insert m name name v
      ∙ rw (text_eq_refl name) refl in
    let rest = insert_columns-lookup names values (insert name v m) d (omega (arith, l)) in
    cc (first, rest)

-- The results of a reply, beside the geocoder's: no match, or each column's value under its name.
abbrev pub Labelled : List Text → List (Option Geocoded) → List (Option (Dict Text)) → Type 0
Labelled names [] [] = Unit
Labelled names [] (r ∷ results) = ⊥
Labelled names (g ∷ geocoded) [] = ⊥
Labelled names (none ∷ geocoded) (none ∷ results) = Labelled names geocoded results
Labelled names (none ∷ geocoded) (some columns ∷ results) = ⊥
Labelled names (some g ∷ geocoded) (none ∷ results) = ⊥
Labelled names (some g ∷ geocoded) (some columns ∷ results) =
    (map (λ name. lookup name columns) names ≡ map some g.column_values)
    × Labelled names geocoded results

result_for-Labelled :
    (names : List Text) (geocoded : List (Option Geocoded))
    → Distinct names
    → All (Fits (length names)) geocoded
    → Labelled names geocoded (map (result_for names) geocoded)
unfolding result_for hash_from_geocoded
result_for-Labelled names [] d h = tt
result_for-Labelled names (none ∷ geocoded) d (f, h) = result_for-Labelled names geocoded d h
result_for-Labelled names (some g ∷ geocoded) d (f, h) =
    (insert_columns-lookup names g.column_values [] d f, result_for-Labelled names geocoded d h)

-- The reply that an outcome of the geocoder calls for: to the geocoder's own results, status 200 and
-- one result for each address, no match as no match, and each match with the value of each column
-- under its name; to an error, status 500 and this error; there is none to a panic.
abbrev pub RepliesTo : List Text → List Address → Outcome (List (Option Geocoded)) → Reply → Type 0
RepliesTo names addresses (ok geocoded) (geocode_response status results) =
    (status ≡ 200) × Answers (length names) addresses geocoded × Labelled names geocoded results
RepliesTo names addresses (ok geocoded) (error_response status e) = ⊥
RepliesTo names addresses (err e) reply = reply ≡ error_response 500 e
RepliesTo names addresses panicked reply = ⊥

reply_for-RepliesTo :
    (names : List Text) (addresses : List Address) (r : Outcome (List (Option Geocoded)))
    → Distinct names
    → Ensures (Answers (length names) addresses) r
    → (reply : Reply) × (reply_for names r ≡ ok reply) × RepliesTo names addresses r reply
unfolding reply_for
reply_for-RepliesTo names addresses (ok geocoded) d a = (
  geocode_response 200 (map (result_for names) geocoded),
  refl,
  (refl, a, result_for-Labelled names geocoded d a.1),
)
reply_for-RepliesTo names addresses (err e) d a = (error_response 500 e, refl, refl)
reply_for-RepliesTo names addresses panicked d a = absurd a

abbrev json : Text
json = codes "application/json"

-- The check of the header: it succeeds for exactly this value, and never panics.
pub expect_header_value-cases :
    (headers : Dict Text) (name expected : Text)
    → ((lookup content_type headers ≡ some expected)
        × (expect_header_value headers name expected ≡ ok tt))
      ⊎ ((lookup content_type headers ≢ some expected)
          × ((e : Error) × (expect_header_value headers name expected ≡ err e)))
unfolding expect_header_value
expect_header_value-cases headers name expected =
    elim (Option-cases (lookup content_type headers)) [
      | inl e ↦ inr (λ h. cc, (missing_header name, rw (expect_header_value, e) refl))
      | inr (v, e) ↦ elim (Bool-cases (text_eq v expected)) [
        | inl same ↦ inl (
          e ∙ ap (λ t. some t) ((text_eq_iff v expected).0 same),
          rw (expect_header_value, e, same) refl,
        )
        | inr other ↦ inr (
          λ h.
              let same : v ≡ expected = cc in
              absurd (let t = (text_eq_iff v expected).1 same in cc),
          (unexpected_header name v, rw (expect_header_value, e, other) refl),
        )
      ]
    ]

module _ {W : Type 0} (geocoder : Geocoder W) where
  -- If the names of the columns are distinct and the geocoder implements the trait, the handler never
  -- panics, whatever the headers and addresses. If the content type is exactly "application/json",
  -- it calls the geocoder once, on the addresses, and changes nothing else: the reply to the results
  -- of that call has status 200 and one result for each address, in order, no match as no match and
  -- each match with the value of each column under its name, and the reply to an error of that call
  -- has status 500 and this error. With any other content type, or none, the reply is an error of
  -- status 400, and the geocoder is not called.
  pub handle_post_geocode-replies :
      {Inv : W → Type 0} (headers : Dict Text) (addresses : List Address) (w : W)
      → Implements Inv geocoder
      → Distinct geocoder.column_names
      → Inv w
      → let called = geocoder.geocode_addresses addresses w in
        ((lookup content_type headers ≡ some (codes "application/json"))
          × (reply : Reply) × (handle_post_geocode geocoder headers addresses w
              ≡ (ok reply, called.1))
          × RepliesTo geocoder.column_names addresses called.0 reply)
        ⊎ ((lookup content_type headers ≢ some (codes "application/json"))
            × (e : Error) × (handle_post_geocode geocoder headers addresses w
                ≡ (ok (error_response 400 e), w)))
  unfolding handle_post_geocode geocode_body
  handle_post_geocode-replies headers addresses w imp d i =
      let safe = (imp.calls addresses).at w i in
      let (reply, e, replies) =
        reply_for-RepliesTo geocoder.column_names addresses
          (geocoder.geocode_addresses addresses w).0 d safe.1 in
      elim (expect_header_value-cases headers content_type json) [
        | inl (found, checked) ↦
            inl (found, reply, rw (handle_post_geocode, checked, e) refl, replies)
        | inr (wrong, (x, checked)) ↦ inr (wrong, x, rw (handle_post_geocode, checked) refl)
      ]
