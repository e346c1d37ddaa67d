-- ===== src/Geocoders/CachePrefix.antt =====
-- src/geocoders/mod.rs: `Geocoder::cache_prefix`, the part of cache keys that names a geocoder.
use geocode_csv.Base.{ℕ, ◌+◌, ◌-◌, ◌/◌, ◌%◌, List, [], ◌∷◌, ◌++◌, ltb, if◌then◌else◌}
use geocode_csv.Base.Text.{Text, into_bytes}
use geocode_csv.Geocoders.{Geocoder}

-- The format `{:02x}` of a byte.
abbrev pub hex_digit : ℕ → ℕ
hex_digit n = if ltb n 10 then b'0' + n else b'a' + (n - 10)

unfoldable pub hex_byte : ℕ → Text
hex_byte n = hex_digit (n / 16) ∷ hex_digit (n % 16) ∷ []

-- What the hasher is updated with: the column names, each ended by a zero byte, then the key.
unfoldable pub hash_input : List Text → Text → List ℕ
unfolding into_bytes
hash_input [] configuration_key = into_bytes configuration_key
hash_input (column_name ∷ column_names) configuration_key =
    into_bytes column_name ++ (0 ∷ hash_input column_names configuration_key)

-- `sha256` gives the first two bytes of the hash.
unfoldable pub cache_prefix : {W : Type 0} → (List ℕ → ℕ × ℕ) → Geocoder W → Text
unfolding hash_input hex_byte
cache_prefix sha256 geocoder =
    let hash = sha256 (hash_input geocoder.column_names geocoder.configuration_key) in
    geocoder.tag ++ (b':' ∷ (hex_byte hash.0 ++ hex_byte hash.1))
