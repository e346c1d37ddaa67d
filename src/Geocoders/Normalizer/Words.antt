-- ===== src/Geocoders/Normalizer/Words.antt =====
-- src/geocoders/normalizer.rs: the address that is made of libpostal's components, word by word.
use geocode_csv.Base.{
  ℕ, suc, ◌≡◌, refl, Option, none, some, List, [], ◌∷◌, get_elem?, ◌++◌, append_assoc, sym, All,
  Bool-cases, inl, inr, ◌==◌, if◌then◌else◌,
}
use mathlib.Core.Option.{some-injective}
use geocode_csv.Base.Text.{Text, codes, trim, text_eq, ends_with}
use geocode_csv.Base.Dict.{Dict, lookup}
use geocode_csv.Base.Outcome.{ok}
use geocode_csv.Addresses.Address.{Address}
use geocode_csv.Geocoders.{Geocoded}
use geocode_csv.Geocoders.LibPostal.{column_names}
use geocode_csv.Geocoders.Normalizer.{
  component_indices, append_components, normalized_to_address, street_components, city_components,
  append_space_separated, append_value, non_empty,
}

-- The value that a result of libpostal has under the name of a component: that of the first column of
-- this name, if there is one.
abbrev pub value_named : List Text → List Text → Text → Option Text
value_named [] values name = none
value_named (n ∷ names) [] name = none
value_named (n ∷ names) (v ∷ values) name =
    if text_eq n name then some v else value_named names values name

-- The words that a part of an address is made of: the value of each component that has one that is
-- not empty, without the whitespace around it.
abbrev pub word_of : Option Text → List Text
word_of none = []
word_of (some []) = []
word_of (some (c ∷ s)) = trim (c ∷ s) ∷ []

abbrev pub words_of : Geocoded → List Text → List Text
words_of g [] = []
words_of g (component ∷ components) =
    word_of (value_named column_names g.column_values component) ++ words_of g components

-- What stands between a text and the next word: a space, but nothing after an empty text or a space.
abbrev pub separator : Text → Text
separator [] = []
separator (c ∷ []) = if c == b' ' then [] else b' ' ∷ []
separator (c ∷ d ∷ s) = separator (d ∷ s)

abbrev pub join_words : Text → List Text → Text
join_words before [] = before
join_words before (word ∷ words) = join_words (before ++ (separator before ++ word)) words

-- A part of an address, `None` if it is empty.
abbrev pub part : Text → Option Text
part [] = none
part (c ∷ s) = some (c ∷ s)

-- The address that the values of libpostal's components make.
abbrev pub address_of : Geocoded → Address
address_of g = record {
  street = join_words [] (
      words_of g
        (codes "po_box" ∷ codes "house_number" ∷ codes "house" ∷ codes "road" ∷ codes "unit" ∷ []));
  city =
      part
        (join_words [] (words_of g (codes "suburb" ∷ codes "city_district" ∷ codes "city" ∷ [])));
  state = part (join_words [] (words_of g (codes "state" ∷ [])));
  zipcode = part (join_words [] (words_of g (codes "postcode" ∷ [])));
}

separator-ends_with :
    (c : ℕ) (s : Text)
    → separator (c ∷ s) ≡ (if ends_with (c ∷ s) (b' ' ∷ []) then [] else b' ' ∷ [])
separator-ends_with c [] = elim (Bool-cases (c == b' ')) [ inl e ↦ rw e refl | inr e ↦ rw e refl ]
separator-ends_with c (d ∷ s) = elim (Bool-cases (c == b' ')) [
  | inl e ↦ rw e (separator-ends_with d s)
  | inr e ↦ rw e (separator-ends_with d s)
]

append_space_separated-separator :
    (base word : Text) → append_space_separated base word ≡ base ++ (separator base ++ trim word)
unfolding append_space_separated
append_space_separated-separator [] word = refl
append_space_separated-separator (c ∷ s) word = elim (Bool-cases (ends_with (c ∷ s) (b' ' ∷ []))) [
  | inl e ↦ rw (separator-ends_with c s, e) refl
  | inr e ↦ rw (separator-ends_with c s, e) (append_assoc (c ∷ s) (b' ' ∷ []) (trim word))
]

append_value-word :
    (base : Text) (value : Option Text) → append_value base value ≡ join_words base (word_of value)
unfolding append_value
append_value-word base none = refl
append_value-word base (some []) = refl
append_value-word base (some (c ∷ s)) = append_space_separated-separator base (c ∷ s)

join_words-append :
    (before : Text) (ws us : List Text)
    → join_words before (ws ++ us) ≡ join_words (join_words before ws) us
join_words-append before [] us = refl
join_words-append before (word ∷ ws) us =
    join_words-append (before ++ (separator before ++ word)) ws us

abbrev pub indices : Dict ℕ
indices = component_indices 0 column_names []

-- The index at which a name is first met.
abbrev next : Option ℕ → Option ℕ
next none = none
next (some i) = some (suc i)

abbrev position : List Text → Text → Option ℕ
position [] name = none
position (n ∷ names) name = if text_eq n name then some 0 else next (position names name)

next-some : (o : Option ℕ) {i : ℕ} → next o ≡ some i → (j : ℕ) × (o ≡ some j) × (i ≡ suc j)
next-some none h = absurd (cc h)
next-some (some j) h = (j, refl, sym (some-injective _ _ h))

value_named-position :
    (names values : List Text) (name : Text) (i : ℕ)
    → position names name ≡ some i
    → value_named names values name ≡ get_elem? values i
value_named-position [] values name i h = absurd (cc h)
value_named-position (n ∷ names) [] name i h = refl
value_named-position (n ∷ names) (v ∷ values) name i h = elim (Bool-cases (text_eq n name)) [
  | inl e ↦ let here : some 0 ≡ some i = rw e at h in rw (e, ← some-injective _ _ here) refl
  | inr e ↦
      let (j, found, same) = next-some (position names name) (rw e at h) in
      rw (e, same) (value_named-position names values name j found)
]

-- The map of `Normalizer::new` has the position of each component of a list.
abbrev AreIndexed : List Text → Type 0
AreIndexed = All λ c. (i : ℕ) × (lookup c indices ≡ some i) × (position column_names c ≡ some i)

append_components-words :
    (cs : List Text) (base : Text) (g : Geocoded)
    → AreIndexed cs
    → append_components indices base g cs ≡ ok (join_words base (words_of g cs))
unfolding append_components
append_components-words [] base g h = refl
append_components-words (c ∷ cs) base g ((i, e, p), hs) =
    let value = value_named-position column_names g.column_values c i p in
    rw (e, append_value-word, append_components-words cs _ g hs, join_words-append, value) refl

street_AreIndexed : AreIndexed street_components
unfolding component_indices
street_AreIndexed = (
  (25, refl, refl),
  ((7, refl, refl), ((8, refl, refl), ((15, refl, refl), ((28, refl, refl), tt)))),
)

city_AreIndexed : AreIndexed city_components
unfolding component_indices
city_AreIndexed = ((27, refl, refl), ((20, refl, refl), ((1, refl, refl), tt)))

state_AreIndexed : AreIndexed (codes "state" ∷ [])
unfolding component_indices
state_AreIndexed = ((17, refl, refl), tt)

postcode_AreIndexed : AreIndexed (codes "postcode" ∷ [])
unfolding component_indices
postcode_AreIndexed = ((13, refl, refl), tt)

non_empty-part : (s : Text) → non_empty s ≡ part s
non_empty-part [] = refl
non_empty-part (c ∷ s) = refl

-- With the component indices of `Normalizer::new` the conversion to an address never panics,
-- whatever columns a result of libpostal has. The street is made of the values of po_box,
-- house_number, house, road and unit, the city of those of suburb, city_district and city, the state
-- of that of state and the zipcode of that of postcode, in this order: a component without a value,
-- or with an empty one, is left out, the others are trimmed and joined, with a space after a text
-- that is not empty and does not end with one. The city, the state and the zipcode are `None` exactly
-- if they come out empty.
pub normalized_to_address-words :
    (g : Geocoded)
    → normalized_to_address (component_indices 0 column_names []) g ≡ ok (address_of g)
unfolding normalized_to_address
normalized_to_address-words g =
    rw
      (
        append_components-words street_components [] g street_AreIndexed,
        append_components-words city_components [] g city_AreIndexed,
        append_components-words (codes "state" ∷ []) [] g state_AreIndexed,
        append_components-words (codes "postcode" ∷ []) [] g postcode_AreIndexed,
        non_empty-part (join_words [] (words_of g city_components)),
        non_empty-part (join_words [] (words_of g (codes "state" ∷ []))),
        non_empty-part (join_words [] (words_of g (codes "postcode" ∷ []))),
      )
      refl
