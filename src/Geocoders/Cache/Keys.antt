-- ===== src/Geocoders/Cache/Keys.antt =====
-- src/geocoders/cache/mod.rs: the key under which the result for an address is cached.
use geocode_csv.Base.{
  ℕ, ◌≡◌, refl, sym, ap, ◌∙◌, ◌↔◌, Bool, true, false, ◌||◌, [], ◌∷◌, ◌++◌, ◌==◌, if◌then◌else◌,
  arith, Bool-cases, inl, inr,
}
use geocode_csv.Base.Text.{
  Text, codes, contains_char, to_ascii_lowercase, lowercase_char, text_eq_iff,
}
use geocode_csv.Addresses.Address.{
  Address, city_str, state_str, zipcode_str, address_eq_ignore_ascii_case,
}

abbrev is_special : ℕ → Bool
is_special c = (c == b'\\') || (c == b':')

-- The loop over `self.0.chars()`.
unfoldable pub escape_loop : Text → Text
escape_loop [] = []
escape_loop (c ∷ s) =
    let rest = escape_loop s in if is_special c then b'\\' ∷ (c ∷ rest) else c ∷ rest

-- `EscapeColons`
unfoldable pub escape_colons : Text → Text
unfolding escape_loop
escape_colons s = if contains_char b'\\' s || contains_char b':' s then escape_loop s else s

unfoldable pub cache_key : Text → Address → Text
unfolding escape_colons
cache_key cache_prefix addr = to_ascii_lowercase (
    codes "gcsv:"
    ++ (cache_prefix
        ++ (b':'
            ∷ (escape_colons (state_str addr)
                ++ (b':'
                    ∷ (escape_colons (city_str addr)
                        ++ (b':'
                            ∷ (escape_colons (zipcode_str addr)
                                ++ (b':' ∷ escape_colons addr.street)))))))))

-- A string without a colon or a backslash is its own escape.
escape_loop-plain :
    (s : Text) → (contains_char b'\\' s || contains_char b':' s) ≡ false → escape_loop s ≡ s
unfolding escape_loop
escape_loop-plain [] h = refl
escape_loop-plain (c ∷ s) h = ground (arith, escape_loop-plain s)

escape_colons-loop : (s : Text) → escape_colons s ≡ escape_loop s
unfolding escape_colons
escape_colons-loop s = elim (Bool-cases (contains_char b'\\' s || contains_char b':' s)) [
  | inl e ↦ rw e refl
  | inr e ↦ rw e (sym (escape_loop-plain s e))
]

-- Lower case and escapes commute.
lowercase-special : (c : ℕ) → is_special (lowercase_char c) ≡ is_special c
unfolding lowercase_char
lowercase-special c = ground arith

lowercase-escape_loop :
    (s : Text) → to_ascii_lowercase (escape_loop s) ≡ escape_loop (to_ascii_lowercase s)
unfolding escape_loop lowercase_char
lowercase-escape_loop [] = refl
lowercase-escape_loop (c ∷ s) = elim (Bool-cases (is_special c)) [
  | inl e ↦
      rw (lowercase-special c, e)
        (ap (λ l. b'\\' ∷ (lowercase_char c ∷ l)) (lowercase-escape_loop s))
  | inr e ↦ rw (lowercase-special c, e) (ap (λ l. lowercase_char c ∷ l) (lowercase-escape_loop s))
]

-- A colon that is not escaped ends a part.
escape_loop-split :
    (s t r q : Text) → escape_loop s ++ (b':' ∷ r) ≡ escape_loop t ++ (b':' ∷ q) → (s ≡ t) × (r ≡ q)
unfolding escape_loop
escape_loop-split [] [] r q h = ground arith
escape_loop-split [] (d ∷ t) r q h = ground arith
escape_loop-split (c ∷ s) [] r q h = ground arith
escape_loop-split (c ∷ s) (d ∷ t) r q h = ground (arith, escape_loop-split s t r q)

escape_loop-injective : (s t : Text) → escape_loop s ≡ escape_loop t → s ≡ t
escape_loop-injective s t h = (escape_loop-split s t [] [] (ap (λ l. l ++ (b':' ∷ [])) h)).0

append-cancel : (p s t : Text) → p ++ s ≡ p ++ t → s ≡ t
append-cancel [] s t h = h
append-cancel (c ∷ p) s t h = append-cancel p s t (cc)

lowercase-append :
    (s t : Text) → to_ascii_lowercase (s ++ t) ≡ to_ascii_lowercase s ++ to_ascii_lowercase t
lowercase-append [] t = refl
lowercase-append (c ∷ s) t = ap (λ l. lowercase_char c ∷ l) (lowercase-append s t)

-- A colon, and the parts of an address, escaped and separated by colons.
abbrev joined : Text → Text → Text → Text → Text
joined s c z a =
    b':'
    ∷ (escape_loop s
        ++ (b':' ∷ (escape_loop c ++ (b':' ∷ (escape_loop z ++ (b':' ∷ escape_loop a))))))

lowercase-joined :
    (s c z a : Text)
    → to_ascii_lowercase (joined s c z a)
      ≡ joined
          (to_ascii_lowercase s)
          (to_ascii_lowercase c)
          (to_ascii_lowercase z)
          (to_ascii_lowercase a)
unfolding lowercase_char
lowercase-joined s c z a =
    rw
      (
        lowercase-append, lowercase-append, lowercase-append, lowercase-escape_loop,
        lowercase-escape_loop, lowercase-escape_loop, lowercase-escape_loop,
      )
      refl

joined-injective :
    (s c z a s' c' z' a' : Text)
    → joined s c z a ≡ joined s' c' z' a'
    → (s ≡ s') × (c ≡ c') × (z ≡ z') × (a ≡ a')
joined-injective s c z a s' c' z' a' h =
    let (es, h1) = escape_loop-split s s' _ _ (cc) in
    let (ec, h2) = escape_loop-split c c' _ _ h1 in
    let (ez, h3) = escape_loop-split z z' _ _ h2 in (es, ec, ez, escape_loop-injective a a' h3)

cache_key-joined :
    (p : Text) (a : Address)
    → cache_key p a
      ≡ to_ascii_lowercase (codes "gcsv:")
        ++ (to_ascii_lowercase p
            ++ joined
                (to_ascii_lowercase (state_str a))
                (to_ascii_lowercase (city_str a))
                (to_ascii_lowercase (zipcode_str a))
                (to_ascii_lowercase a.street))
unfolding cache_key
cache_key-joined p a =
    rw
      (
        escape_colons-loop,
        escape_colons-loop,
        escape_colons-loop,
        escape_colons-loop,
        ← lowercase-joined,
        ← lowercase-append,
      )
      refl

address_eq_iff :
    (a b : Address)
    → (address_eq_ignore_ascii_case a b ≡ true) ↔ (
        (to_ascii_lowercase a.street ≡ to_ascii_lowercase b.street)
        × (to_ascii_lowercase (city_str a) ≡ to_ascii_lowercase (city_str b))
        × (to_ascii_lowercase (state_str a) ≡ to_ascii_lowercase (state_str b))
        × (to_ascii_lowercase (zipcode_str a) ≡ to_ascii_lowercase (zipcode_str b)))
unfolding address_eq_ignore_ascii_case
address_eq_iff a b = ground (
  arith,
  text_eq_iff (to_ascii_lowercase a.street) (to_ascii_lowercase b.street),
  text_eq_iff (to_ascii_lowercase (city_str a)) (to_ascii_lowercase (city_str b)),
  text_eq_iff (to_ascii_lowercase (state_str a)) (to_ascii_lowercase (state_str b)),
  text_eq_iff (to_ascii_lowercase (zipcode_str a)) (to_ascii_lowercase (zipcode_str b)),
)

-- For one geocoder, two addresses have the same cache key exactly when they are equal but for the
-- case of ASCII letters. No colon or backslash in an address makes two keys collide.
pub cache_key_iff :
    (cache_prefix : Text) (a b : Address)
    → (cache_key cache_prefix a ≡ cache_key cache_prefix b)
      ↔ (address_eq_ignore_ascii_case a b ≡ true)
cache_key_iff p a b = (
  λ h.
      let same = joined-injective _ _ _ _ _ _ _ _ (
        append-cancel (to_ascii_lowercase p) _ _ (
          append-cancel (to_ascii_lowercase (codes "gcsv:")) _ _
            (sym (cache_key-joined p a) ∙ (h ∙ cache_key-joined p b)))) in
      let (s, c, z, t) = same in (address_eq_iff a b).1 (t, c, s, z),
  λ h.
      let (t, c, s, z) = (address_eq_iff a b).0 h in
      cc (cache_key-joined p a, cache_key-joined p b, t, c, s, z),
)
