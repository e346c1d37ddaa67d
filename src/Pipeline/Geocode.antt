-- ===== src/Pipeline/Geocode.antt =====
-- src/pipeline.rs: `geocode_chunk`, from the rows of a chunk to its rows with the new columns.
pub mod Columns
pub mod Rows
pub mod Laws
pub mod Width
use geocode_csv.Base.{
  ℕ, zero, suc, Option, none, some, List, [], ◌∷◌, ◌++◌, length, take, drop, ◌==◌, if◌then◌else◌,
}
use geocode_csv.Base.Text.{Text}
use geocode_csv.Base.Outcome
use geocode_csv.Base.Outcome.{Outcome, ok, panicked, expect}
use geocode_csv.Base.Effect.{M, pure, lift, ◌>>=◌}
use geocode_csv.Addresses.Address.{Address}
use geocode_csv.Addresses.Columns.{StringRecord, AddressColumnKeys, extract_address_from_record}
use geocode_csv.Addresses.Spec.{AddressColumnSpec, prefixes, get}
use geocode_csv.Geocoders.{Geocoder, Geocoded, add_value_columns_to_row, add_empty_columns_to_row}
use geocode_csv.Pipeline.Retry.{Timed, geocode_with_retries}

pub record Shared : Type 0 where
  pub spec : AddressColumnSpec ℕ
  pub out_headers : StringRecord

pub record Chunk : Type 0 where
  pub shared : Shared
  pub rows : List StringRecord

-- The inner loop that builds the list of addresses, over the rows.
unfoldable pub row_addresses : AddressColumnKeys ℕ → List StringRecord → Outcome (List Address)
row_addresses column_keys [] = ok []
row_addresses column_keys (row ∷ rows) =
    Outcome.◌>>=◌ (extract_address_from_record column_keys row) λ address.
      Outcome.◌>>=◌ (row_addresses column_keys rows) λ addresses. ok (address ∷ addresses)

-- The outer loop, over the prefixes.
unfoldable pub prefix_addresses :
    AddressColumnSpec ℕ → List StringRecord → List Text → Outcome (List Address)
unfolding row_addresses
prefix_addresses spec rows [] = ok []
prefix_addresses spec rows (prefix ∷ prefixes') =
    Outcome.◌>>=◌ (expect (get spec prefix)) λ column_keys.
      Outcome.◌>>=◌ (row_addresses column_keys rows) λ addresses.
        Outcome.◌>>=◌ (prefix_addresses spec rows prefixes') λ more. ok (addresses ++ more)

-- `slice::chunks`, which panics if the size is 0. The fuel is the length of the slice: a chunk takes
-- at least one element.
unfoldable pub chunks_loop : {A : Type 0} → ℕ → ℕ → List A → List (List A)
chunks_loop zero size l = []
chunks_loop (suc fuel) size [] = []
chunks_loop (suc fuel) size (x ∷ l) = take size (x ∷ l) ∷ chunks_loop fuel size (drop size (x ∷ l))

unfoldable pub chunks : {A : Type 0} → ℕ → List A → Outcome (List (List A))
unfolding chunks_loop
chunks size l = if size == 0 then panicked else ok (chunks_loop (length l) size l)

unfoldable pub add_response : List Text → Option Geocoded → StringRecord → StringRecord
unfolding add_value_columns_to_row add_empty_columns_to_row
add_response column_names none row = add_empty_columns_to_row column_names row
add_response column_names (some response) row = add_value_columns_to_row response row

-- The loop over `geocoded_for_prefix.iter().zip(&mut chunk.rows)`.
unfoldable pub add_responses :
    List Text → List (Option Geocoded) → List StringRecord → List StringRecord
unfolding add_response
add_responses column_names [] rows = rows
add_responses column_names (response ∷ responses) [] = []
add_responses column_names (response ∷ responses) (row ∷ rows) =
    add_response column_names response row ∷ add_responses column_names responses rows

-- The loop over `geocoded.chunks(chunk.rows.len())`, with its assertion.
unfoldable pub add_all_responses :
    List Text → List (List (Option Geocoded)) → List StringRecord → Outcome (List StringRecord)
unfolding add_responses
add_all_responses column_names [] rows = ok rows
add_all_responses column_names (geocoded_for_prefix ∷ more) rows =
    let rest =
      add_all_responses column_names more (add_responses column_names geocoded_for_prefix rows) in
    if length geocoded_for_prefix == length rows then rest else panicked

module _ {W : Type 0} (geocoder : Geocoder W) where
  -- The part of `geocode_chunk` that follows the retry loop.
  unfoldable pub add_geocoded : List (Option Geocoded) → Chunk → Outcome Chunk
  unfolding chunks add_all_responses
  add_geocoded geocoded chunk =
      Outcome.◌>>=◌ (chunks (length chunk.rows) geocoded) λ geocoded_by_prefix.
        Outcome.◌>>=◌ (add_all_responses geocoder.column_names geocoded_by_prefix chunk.rows)
          λ rows. ok (record chunk { rows = rows })

  unfoldable pub geocode_chunk : ℕ → Chunk → M (Timed W) Chunk
  unfolding prefix_addresses geocode_with_retries add_geocoded
  geocode_chunk max_retries chunk = do
    addresses ← lift (prefix_addresses chunk.shared.spec chunk.rows (prefixes chunk.shared.spec))
    geocoded ← geocode_with_retries geocoder addresses max_retries
    lift (add_geocoded geocoded chunk)
