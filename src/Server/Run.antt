-- ===== src/Server/Run.antt =====
-- src/server.rs: `run_server`, over the library axum.
use geocode_csv.Base.{ℕ, List}
use geocode_csv.Base.Text.{Text, codes}
use geocode_csv.Base.Dict.{Dict}
use geocode_csv.Base.Outcome.{Outcome}
use geocode_csv.Base.Effect.{M, lift, ◌>>=◌}
use geocode_csv.Addresses.Address.{Address}
use geocode_csv.Geocoders.{Geocoder}
use geocode_csv.Server.{Reply, handle_post_geocode}

-- `Router` with its one route, for `POST`, and its layers. axum reads the addresses from a body of at
-- most this many bytes, and replies itself to all other requests.
pub record Router (W : Type 0) : Type 0 where
  pub path : Text
  pub post : Dict Text → List Address → M W Reply
  pub body_limit : ℕ

-- The parser of socket addresses, with the server of axum that is bound to the address that is
-- parsed and then serves a router. Binding panics if the address cannot be bound.
pub record Axum (W : Type 0) : Type 0 where
  pub bind_at : Text → Outcome (M W (Router W → M W Unit))

module _ {W : Type 0} (axum : Axum W) where
  unfoldable pub router_for : Geocoder W → Router W
  unfolding handle_post_geocode
  router_for geocoder = record {
    path = codes "/geocode";
    post = handle_post_geocode geocoder;
    body_limit = 16384;
  }

  unfoldable pub run_server : Text → Geocoder W → M W Unit
  unfolding router_for
  run_server listen_addr geocoder = do
    bind ← lift (axum.bind_at listen_addr)
    serve ← bind
    serve (router_for geocoder)
