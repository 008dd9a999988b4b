-- ===== src/Server/Startup.antt =====
-- server/src/main.rs: what `main` sets up before it serves. Environment variables and random values
-- are arguments.
pub mod ClientMetadata
pub mod Configured
pub mod Ready
pub mod Restart
pub mod Issuer
use istat.Prelude.{ℕ, String, Bool, Option, none, some, List, length, eqb, inl, inr}
use istat.Outcome.{Outcome, Result, ok, err, from_result, ensure}
use istat.Action
use istat.Action.{Action, pure, lift, ◌>>=◌, ◌>>◌}
use istat.Oatproxy.Error.{Error}
use istat.Oatproxy.Config
use istat.Oatproxy.Config.{
  ConfigExternals, ProxyConfig, with_dpop_nonce_secret, with_client_name, with_tos_uri,
  with_logo_uri, with_policy_uri,
}
use istat.Oatproxy.Builder.{KeyExternals, build}
use istat.Oatproxy.Server.{OAuthProxyServer}
use istat.Server.Db.{Db, ProxyTables}
use istat.Server.Sql.{Sql, SqlError, query, insert}
use istat.Server.SqliteStore
use istat.Server.SqliteStore.{session_store, auth_store, key_store}
use istat.Server.SqliteStore.Externals.{Externals}
use istat.Server.Moderation.{AppState}

-- what `main` fails with
pub data StartError : Type 0 where
  database : SqlError → StartError
  invalid_signing_key_length : StartError
  other_error : String → StartError
  not_built : Error → StartError

-- the variables that are read
pub record Environment : Type 0 where
  pub public_url : Option String
  pub client_name : Option String
  pub tos_uri : Option String
  pub logo_uri : Option String
  pub policy_uri : Option String
  pub admin_did : Option String
  pub foreign_keys : Bool

pub record Started (K J D Q : Type 0) : Type 0 where
  pub server : OAuthProxyServer K J D Q Db
  pub state : AppState K J

abbrev pub on_proxy : (ProxyTables → ProxyTables) → Db → Db
on_proxy f db = record db { proxy = f db.proxy }

abbrev pub start_sql : {A : Type 0} → Sql A → Action StartError Db A
start_sql m = Action.map_err database m

module _ {K : Type 0} (x : KeyExternals K) where
  abbrev pub key_of_row : K → Option (List ℕ) → Action StartError Db K
  key_of_row random none = do
    start_sql (
        insert (λ db. db.proxy.signing_key)
          (on_proxy λ t. record t { signing_key = some (x.to_bytes random) }))
    pure random
  key_of_row random (some bytes) = do
    lift (ensure (eqb (length bytes) 32) invalid_signing_key_length)
    lift (from_result other_error (x.from_bytes bytes))

  -- `random` is the key that is generated where none is stored
  unfoldable pub load_signing_key : K → Action StartError Db K
  load_signing_key random = do
    row ← start_sql (query λ db. db.proxy.signing_key)
    key_of_row random row

abbrev pub secret_of_row : List ℕ → Option (List ℕ) → Action StartError Db (List ℕ)
secret_of_row random none = do
  start_sql (
      insert (λ db. db.proxy.dpop_hmac_secret)
        (on_proxy λ t. record t { dpop_hmac_secret = some random }))
  pure random
secret_of_row random (some secret) = pure secret

unfoldable pub load_hmac_secret : List ℕ → Action StartError Db (List ℕ)
load_hmac_secret random = do
  row ← start_sql (query λ db. db.proxy.dpop_hmac_secret)
  secret_of_row random row

abbrev pub public_url_of : Environment → String
public_url_of env = istat.Prelude.unwrap_or env.public_url "http://localhost:3000"

abbrev pub if_set :
    {A : Type 0} → (A → ProxyConfig → ProxyConfig) → Option A → ProxyConfig → ProxyConfig
if_set f none config = config
if_set f (some a) config = f a config

abbrev pub set_url :
    (String → ProxyConfig → ProxyConfig) → Result String String → ProxyConfig → ProxyConfig
set_url f (inl message) config = config
set_url f (inr uri) config = f uri config

-- a variable that is no URL is passed over
abbrev pub if_url :
    (String → Result String String)
    → (String → ProxyConfig → ProxyConfig)
    → Option String
    → ProxyConfig
    → ProxyConfig
if_url parse f none config = config
if_url parse f (some text) config = set_url f (parse text) config

module _ {K J D Q : Type 0} (x : KeyExternals K) (urls : ConfigExternals) (rows : Externals J D Q)
    (now : String) where
  unfoldable pub configure : Environment → List ℕ → Outcome StartError ProxyConfig
  configure env secret =
      istat.Outcome.◌>>=◌ (from_result other_error (urls.parse_url (public_url_of env))) (λ host.
        istat.Outcome.◌>>=◌ (Config.new urls host) (λ config. ok (
          if_url urls.parse_url with_policy_uri env.policy_uri (
            if_url urls.parse_url with_logo_uri env.logo_uri (
              if_url urls.parse_url with_tos_uri env.tos_uri (
                if_set with_client_name env.client_name (with_dpop_nonce_secret secret config)))))))

  -- up to the state that the handlers share
  unfoldable pub start : Environment → K → K → List ℕ → Action StartError Db (Started K J D Q)
  start env random_key unused_key random_secret = do
    signing_key ← load_signing_key x random_key
    hmac_secret ← load_hmac_secret random_secret
    let keys = key_store (SqliteStore.build (some signing_key) unused_key)
    proxy_config ← lift (configure env hmac_secret)
    server ← Action.map_err not_built (
        build x (record {
          config = some proxy_config;
          session_store =
              some (record { sessions = session_store rows now; client_auth = auth_store rows });
          key_store = some keys;
        }))
    pure (record {
      server = server;
      state = record {
        key_store = keys;
        token_manager = record { issuer = public_url_of env };
        admin_did = env.admin_did;
        foreign_keys = env.foreign_keys;
      };
    })
