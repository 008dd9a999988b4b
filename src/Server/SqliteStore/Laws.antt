-- ===== src/Server/SqliteStore/Laws.antt =====
-- The SQLite backend meets the specification of the two storage traits.
use istat.Prelude.{String}
use istat.Oatproxy.Store.Spec.{StoreLaws, AuthLaws}
use istat.Server.SqliteStore.{session_store, auth_store}
use istat.Server.SqliteStore.Externals.{Externals, RoundTrips}
use istat.Server.SqliteStore.View.{view}
use istat.Server.SqliteStore.View.Flow
use istat.Server.SqliteStore.View.Tokens
use istat.Server.SqliteStore.View.Sessions

module _ {J S R : Type 0} (x : Externals J S R) (rt : RoundTrips x) where
  -- Every method of the SQLite `OAuthSessionStore` that the specification names acts on the maps
  -- that its tables stand for as the trait demands, or fails and leaves the maps as they were,
  -- whatever statements fail, if the text forms round trip.
  pub session_store-StoreLaws : (now : String) → StoreLaws (session_store x now) (view x)
  session_store-StoreLaws now = record {
    store_pending_auth-Acts = Flow.store_pending_auth-Acts x rt;
    consume_pending_auth-Acts = Flow.consume_pending_auth-Acts x;
    store_client_acts = Flow.store_downstream_client_info-Acts x rt;
    consume_client_acts = Flow.consume_downstream_client_info-Acts x;
    store_par_acts = Flow.store_par_data-Acts x rt;
    consume_par_acts = Flow.consume_par_data-Acts x;
    store_refresh-Acts = Tokens.store_refresh-Acts x;
    get_refresh-Acts = Tokens.get_refresh-Acts x;
    store_active-Acts = Tokens.store_active-Acts x;
    get_active-Acts = Tokens.get_active-Acts x;
    store_dpop_key-Acts = Tokens.store_dpop_key-Acts x rt;
    get_dpop_key-Acts = Tokens.get_dpop_key-Acts x;
    update_nonce-Acts = Tokens.update_nonce-Acts x;
    get_nonce-Acts = Tokens.get_nonce-Acts x;
    check_nonce-Acts = Tokens.check_nonce-Acts x now;
  }

  -- Reading an upstream session of the SQLite store answers the map, and writing one sets it at
  -- its DID and session id, or the call fails and leaves the maps as they were, whatever
  -- statements fail, if the text forms round trip.
  pub auth_store-AuthLaws :
      AuthLaws (auth_store x) (view x) x.session_account_did x.session_session_id
  auth_store-AuthLaws = record {
    get_session-Acts = Sessions.get_session-Acts x;
    upsert_session-Acts = Sessions.upsert_session-Acts x rt;
  }
