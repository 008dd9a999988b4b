-- ===== src/Oatproxy/ClientAuthStore.antt =====
-- The trait `ClientAuthStore` of the `jacquard_oauth` crate, as server/src/oatproxy/store.rs
-- implements it: upstream sessions and authorization requests, of types that the crate defines.
use istat.Prelude.{String, Option}
use istat.Action.{Action}

pub data SessionStoreError : Type 0 where
  serde other : String → SessionStoreError

pub record ClientAuthStore (SessionData AuthRequest S : Type 0) : Type 0 where
  pub get_session : String → String → Action SessionStoreError S (Option SessionData)
  pub upsert_session : SessionData → Action SessionStoreError S (Unit {0})
  pub delete_session : String → String → Action SessionStoreError S (Unit {0})
  pub get_auth_req_info : String → Action SessionStoreError S (Option AuthRequest)
  pub save_auth_req_info : AuthRequest → Action SessionStoreError S (Unit {0})
  pub delete_auth_req_info : String → Action SessionStoreError S (Unit {0})
