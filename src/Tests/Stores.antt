-- ===== src/Tests/Stores.antt =====
-- Witnesses and runs for src/key_value_stores.
use geocode_csv.Base.{ℕ, ◌≡◌, refl, none, some, List, [], ◌∷◌, map}
use geocode_csv.Base.Text.{codes}
use geocode_csv.Base.Outcome.{ok, Ensures}
use geocode_csv.KeyValueStores.{Bytes, Stores}
use geocode_csv.KeyValueStores.Redis.{RedisServer}
use geocode_csv.KeyValueStores.BigTable.{
  RowCell, BigTableServer, Url, family_name, column_name, unpack_response,
}
use geocode_csv.KeyValueStores.BigTable.Response.{latest, unpack_response-latest}
use geocode_csv.KeyValueStores.Open.{Connections, Connects, new_from_url, new_from_url-Stores}
use geocode_csv.Tests.Cache.{nothing, nothing-Stores}
use geocode_csv.Tests.Data.{Any}

abbrev cell : ℕ → RowCell
cell n = record { family = family_name; qualifier = column_name; value = n ∷ [] }

-- The first key is asked for twice, and its row has two cells; the second key has no row.
abbrev asked : List Bytes
asked = codes "a" ∷ codes "b" ∷ codes "a" ∷ []

abbrev response : List (Bytes × List RowCell)
response = (codes "a", cell 1 ∷ cell 2 ∷ []) ∷ []

unpacked : map (latest response none) asked ≡ some (2 ∷ []) ∷ none ∷ some (2 ∷ []) ∷ []
unpacked = refl

unpack_response-latest_example :
    unpack_response asked response ≡ ok (map (latest response none) asked)
unpack_response-latest_example =
    unpack_response-latest asked response ((refl, ((refl, refl), ((refl, refl), tt))), tt)

-- Servers that hold nothing.
abbrev redis_server : RedisServer ℕ
redis_server = record {
  client = λ w. (ok tt, w);
  query_get = λ pipeline w. (ok (nothing pipeline), w);
  query_set = λ pipeline w. (ok tt, w);
}

abbrev bigtable_server : BigTableServer ℕ
bigtable_server = record {
  read_rows = λ row_keys w. (ok [], w);
  mutate_rows = λ entries w. (ok tt, w);
}

abbrev pub connections : Connections ℕ
connections = record {
  connect_redis = λ url. ok redis_server;
  connect_bigtable = λ config. ok bigtable_server;
}

pub connections-Connects : Connects Any connections
connections-Connects = record {
  redis_answers = λ url. record {
    connects = record { at = λ w i. (tt, tt) };
    queries_get = λ pipeline. record { at = λ w i. (tt, nothing-Stores pipeline) };
    queries_set = λ pipeline h. record { at = λ w i. (tt, tt) };
  };
  bigtable_serves = λ config. record {
    reads = λ row_keys. record { at = λ w i. (tt, (tt, tt)) };
    mutates = λ entries h. record { at = λ w i. (tt, tt) };
  };
}

abbrev pub url : Url
url = record {
  scheme = codes "bigtable";
  host_str = some (codes "project");
  path_segments = some (codes "instance" ∷ codes "table" ∷ []);
}

opened : Ensures (Stores Any) (new_from_url connections url (codes "p"))
opened = new_from_url-Stores connections url (codes "p") connections-Connects
