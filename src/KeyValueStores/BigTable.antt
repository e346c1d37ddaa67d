-- ===== src/KeyValueStores/BigTable.antt =====
-- src/key_value_stores/bigtable.rs: BigTable as a key/value store.
pub mod Response
pub mod Laws
use geocode_csv.Base.{
  ℕ, suc, Option, none, some, List, [], ◌∷◌, ◌++◌, length, replicate, set, map, ltb, if◌then◌else◌,
}
use geocode_csv.Base.Text.{Text, codes, text_eq, into_bytes}
use geocode_csv.Base.Dict.{Dict, lookup, insert}
use geocode_csv.Base.Outcome
use geocode_csv.Base.Outcome.{
  Outcome, ok, err, panicked, expect, unexpected_family, unexpected_qualifier, unexpected_url,
}
use geocode_csv.Base.Effect.{M, lift, ◌>>=◌}
use geocode_csv.KeyValueStores.{Bytes, KeyValueStore}

abbrev pub family_name : Text
family_name = codes "geocode_csv"

abbrev pub column_name : Bytes
column_name = codes "v"

pub record BigTableConfig : Type 0 where
  pub project_id : Text
  pub instance_id : Text
  pub table_name : Text

-- What the library url finds in a URL.
pub record Url : Type 0 where
  pub scheme : Text
  pub host_str : Option Text
  pub path_segments : Option (List Text)

-- From the host and the segments of the path; None goes on to the error at the end.
unfoldable pub config_of : Option Text → Option (List Text) → Option BigTableConfig
config_of (some domain) (some (instance ∷ table ∷ [])) =
    some (record { project_id = domain; instance_id = instance; table_name = table })
config_of domain segments = none

unfoldable pub from_url : Url → Outcome BigTableConfig
unfolding config_of
from_url url =
    if text_eq url.scheme (codes "bigtable")
    then Outcome.ok_or (config_of url.host_str url.path_segments) (unexpected_url url.scheme)
    else err (unexpected_url url.scheme)

-- `RowCell` of the library, without its time and its labels.
pub record RowCell : Type 0 where
  pub family : Text
  pub qualifier : Bytes
  pub value : Bytes

-- `MutateRowsRequest`'s entries: a cell to be set in a row.
pub record Entry : Type 0 where
  pub row_key : Bytes
  pub cell : RowCell

pub record BigTableServer (W : Type 0) : Type 0 where
  pub read_rows : List Bytes → M W (List (Bytes × List RowCell))
  pub mutate_rows : List Entry → M W Unit

-- `or_default`
abbrev pub or_default : Option (List ℕ) → List ℕ
or_default none = []
or_default (some indices) = indices

-- The loop over `self.row_keys.iter().enumerate()`, from index `idx`.
unfoldable pub index_row_keys : ℕ → List Bytes → Dict (List ℕ) → Dict (List ℕ)
index_row_keys idx [] row_key_indices = row_key_indices
index_row_keys idx (row_key ∷ row_keys) row_key_indices =
    index_row_keys (suc idx) row_keys
      (insert row_key (or_default (lookup row_key row_key_indices) ++ (idx ∷ [])) row_key_indices)

-- The loop over `indices`; the writes may panic.
unfoldable pub write_indices : List ℕ → Bytes → List (Option Bytes) → Outcome (List (Option Bytes))
write_indices [] value result = ok result
write_indices (idx ∷ indices) value result =
    let rest = write_indices indices value (set result idx (some value)) in
    if ltb idx (length result) then rest else panicked

module _ (row_key_indices : Dict (List ℕ)) where
  -- The loops over the cells of a row, and over the rows.
  unfoldable pub read_cells :
      Bytes → List RowCell → List (Option Bytes) → Outcome (List (Option Bytes))
  unfolding write_indices
  read_cells k [] result = ok result
  read_cells k (row_cell ∷ data') result =
      let rest = Outcome.◌>>=◌ (expect (lookup k row_key_indices)) λ indices.
        Outcome.◌>>=◌ (write_indices indices row_cell.value result)
          λ result'. read_cells k data' result' in
      if text_eq row_cell.family family_name
      then (if text_eq row_cell.qualifier column_name
          then rest
          else err (unexpected_qualifier row_cell.qualifier))
      else err (unexpected_family row_cell.family)

  unfoldable pub read_response :
      List (Bytes × List RowCell) → List (Option Bytes) → Outcome (List (Option Bytes))
  unfolding read_cells
  read_response [] result = ok result
  read_response ((k, data') ∷ response) result =
      Outcome.◌>>=◌ (read_cells k data' result) λ result'. read_response response result'

unfoldable pub unpack_response :
    List Bytes → List (Bytes × List RowCell) → Outcome (List (Option Bytes))
unfolding index_row_keys read_response
unpack_response row_keys response =
    read_response (index_row_keys 0 row_keys []) response (replicate (length row_keys) none)

-- `add_set`
unfoldable pub entry_for : Text × Bytes → Entry
unfolding into_bytes
entry_for (k, value) = record {
  row_key = into_bytes k;
  cell = record { family = family_name; qualifier = column_name; value = value };
}

module _ {W : Type 0} (server : BigTableServer W) (key_prefix : Text) where
  unfoldable pub bigtable_get : List Bytes → M W (List (Option Bytes))
  unfolding unpack_response
  bigtable_get row_keys = do
    response ← server.read_rows row_keys
    lift (unpack_response row_keys response)

  -- A request with all entries; the cause of an error is only counted.
  unfoldable pub bigtable_set : List Entry → M W Unit
  bigtable_set entries = server.mutate_rows entries

  -- `BigTable`. The key prefix is kept, and not used.
  unfoldable pub bigtable : KeyValueStore W
  unfolding bigtable_get bigtable_set into_bytes entry_for
  bigtable = record {
    key_prefix = key_prefix;
    execute_get = λ ks. bigtable_get (map into_bytes ks);
    execute_set = λ entries. bigtable_set (map entry_for entries);
  }
