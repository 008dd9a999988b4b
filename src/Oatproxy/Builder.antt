-- ===== src/Oatproxy/Builder.antt =====
-- jacquard-oatproxy/src/server.rs: `OAuthProxyServerBuilder`.
use istat.Prelude.{◌≡◌, ℕ, String, Option, none, some, List}
use istat.Outcome.{Result, ok_or, from_result}
use istat.Action.{Action, pure, lift, ◌>>=◌}
use istat.Oatproxy.Config.{ProxyConfig}
use istat.Oatproxy.Error.{Error, invalid_request}
use istat.Oatproxy.Jwt.{invalid}
use istat.Oatproxy.Store.{OAuthSessionStore, KeyStore}
use istat.Oatproxy.ClientAuthStore.{ClientAuthStore}
use istat.Oatproxy.Server.{OAuthProxyServer}

-- The two storage traits of one backend.
pub record Backend (J D Q S : Type 0) : Type 0 where
  pub sessions : OAuthSessionStore J S
  pub client_auth : ClientAuthStore D Q S

pub record OAuthProxyServerBuilder (K J D Q S : Type 0) : Type 0 where
  pub config : Option ProxyConfig
  pub session_store : Option (Backend J D Q S)
  pub key_store : Option (KeyStore K J S)

-- the `Jwk` of the signing key, as far as it is filled
pub record SigningJwk : Type 0 where
  pub x : List ℕ
  pub y : List ℕ
  pub d : List ℕ
  pub kid : String

-- `p256` on signing keys, and `Keyset::try_from`
pub record KeyExternals (K : Type 0) : Type 0 where
  pub x_coordinate : K → Option (List ℕ)
  pub y_coordinate : K → Option (List ℕ)
  pub to_bytes : K → List ℕ
  pub from_bytes : List ℕ → Result String K
  pub keyset : SigningJwk → Result String (Unit {0})

-- Documented of `p256`: the 32 bytes of a key are read back as the key.
pub record KeyLaws {K : Type 0} (x : KeyExternals K) : Type 0 where
  pub from-to : (k : K) → x.from_bytes (x.to_bytes k) ≡ istat.Prelude.inr k
  pub to_length : (k : K) → istat.Prelude.length (x.to_bytes k) ≡ 32

module _ {K J D Q S : Type 0} (x : KeyExternals K) where
  abbrev pub builder : OAuthProxyServerBuilder K J D Q S
  builder = record { config = none; session_store = none; key_store = none }

  -- the OAuth client, which is made from the key and the metadata, is not kept
  unfoldable pub build :
      OAuthProxyServerBuilder K J D Q S → Action Error S (OAuthProxyServer K J D Q S)
  build b = do
    config ← lift (ok_or b.config (invalid_request "config required"))
    session_store ← lift (ok_or b.session_store (invalid_request "session_store required"))
    key_store ← lift (ok_or b.key_store (invalid_request "key_store required"))
    signing_key ← key_store.get_signing_key
    px ← lift (ok_or (x.x_coordinate signing_key) (invalid_request "missing x coordinate"))
    py ← lift (ok_or (x.y_coordinate signing_key) (invalid_request "missing y coordinate"))
    let jwk : SigningJwk = record {
      x = px;
      y = py;
      d = x.to_bytes signing_key;
      kid = "proxy-signing-key";
    }
    keyset ← lift (from_result (invalid "failed to create keyset: ") (x.keyset jwk))
    pure (record {
      config = config;
      session_store = session_store.sessions;
      client_auth_store = session_store.client_auth;
      key_store = key_store;
      token_manager = record { issuer = config.host };
    })
