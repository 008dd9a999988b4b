-- ===== src/Oatproxy/Config.antt =====
-- jacquard-oatproxy/src/config.rs: the configuration of the proxy. A URL and a scope stand for their
-- texts; `url` and the client metadata of `jacquard_oauth` are parameters.
use istat.Prelude.{ℕ, String, Bool, ◌||◌, Option, none, some, List, [], ◌∷◌, if◌then◌else◌}
use istat.Text.{◌<>◌, contains, trim_end_matches}
use istat.Outcome.{Outcome, Result, ok, panic, ◌>>=◌}

pub data GrantType : Type 0 where
  authorization_code refresh_token other_grant : GrantType

-- `AtprotoClientMetadata`
pub record ClientMetadata : Type 0 where
  pub client_id : String
  pub client_uri : Option String
  pub redirect_uris : List String
  pub grant_types : List GrantType
  pub scopes : List String
  pub jwks_uri : Option String
  pub client_name : Option String
  pub tos_uri : Option String
  pub logo_uri : Option String
  pub privacy_policy_uri : Option String

-- The text of a parsed URL, and the two constructors of the metadata, with their arguments.
pub record ConfigExternals : Type 0 where
  pub parse_url : String → Result String String
  pub new_localhost : Option (List String) → Option (List String) → ClientMetadata
  pub new_metadata :
      String
      → Option String
      → List String
      → List GrantType
      → List String
      → Option String
      → ClientMetadata

pub record ProxyConfig : Type 0 where
  pub host : String
  pub scope : List String
  pub client_metadata : ClientMetadata
  pub default_pds : String
  pub dpop_nonce_hmac_secret : List ℕ
  pub downstream_token_expiry_seconds : ℕ

abbrev pub default_scopes : List String
default_scopes = "atproto" ∷ "transition:generic" ∷ []

-- `b"insecure-default-dpop-nonce-secret"`
abbrev pub default_secret : List ℕ
default_secret =
    105 ∷ 110 ∷ 115 ∷ 101 ∷ 99 ∷ 117 ∷ 114 ∷ 101 ∷ 45 ∷ 100 ∷ 101 ∷ 102 ∷ 97 ∷ 117 ∷ 108 ∷ 116 ∷ 45
    ∷ 100 ∷ 112 ∷ 111 ∷ 112 ∷ 45 ∷ 110 ∷ 111 ∷ 110 ∷ 99 ∷ 101 ∷ 45 ∷ 115 ∷ 101 ∷ 99 ∷ 114 ∷ 101
    ∷ 116 ∷ []

-- `.expect(…)`
abbrev pub expect : {E M A : Type 0} → Result M A → Outcome E A
expect (istat.Prelude.inl message) = panic
expect (istat.Prelude.inr a) = ok a

module _ {E : Type 0} (x : ConfigExternals) where
  unfoldable pub local_metadata : String → Outcome E ClientMetadata
  local_metadata host_str = expect (x.parse_url (host_str <> "/oauth/return")) >>= λ callback.
      ok (x.new_localhost (some (callback ∷ [])) (some default_scopes))

  unfoldable pub public_metadata : String → String → Outcome E ClientMetadata
  public_metadata host host_str =
      expect (x.parse_url (host_str <> "/oauth-client-metadata.json")) >>= λ client_id.
      expect (x.parse_url (host_str <> "/oauth/return")) >>= λ callback.
      expect (x.parse_url (host_str <> "/oauth/jwks.json")) >>= λ jwks_uri.
      expect (x.parse_url (host_str <> "/tos")) >>= λ tos_uri.
      expect (x.parse_url (host_str <> "/logo.png")) >>= λ logo_uri.
      ok
        (record (x.new_metadata client_id (some host) (callback ∷ [])
          (authorization_code ∷ refresh_token ∷ []) default_scopes (some jwks_uri)) {
            client_name = some "istat OAuth Proxy";
            tos_uri = some tos_uri;
            logo_uri = some logo_uri;
            scopes = default_scopes;
          })

  -- `ProxyConfig::new`, with the text of the host's URL
  unfoldable pub new : String → Outcome E ProxyConfig
  new host =
      let host_str = trim_end_matches b'/' host in
      let is_local = contains "localhost" host_str || contains "127.0.0.1" host_str in
      (if is_local then local_metadata host_str else public_metadata host host_str)
      >>= λ client_metadata. expect (x.parse_url "https://public.api.bsky.app") >>= λ default_pds.
          ok (record {
            host = host;
            scope = default_scopes;
            client_metadata = client_metadata;
            default_pds = default_pds;
            dpop_nonce_hmac_secret = default_secret;
            downstream_token_expiry_seconds = 3600;
          })

abbrev pub with_dpop_nonce_secret : List ℕ → ProxyConfig → ProxyConfig
with_dpop_nonce_secret secret config = record config { dpop_nonce_hmac_secret = secret }

abbrev pub with_metadata : (ClientMetadata → ClientMetadata) → ProxyConfig → ProxyConfig
with_metadata f config = record config { client_metadata = f config.client_metadata }

abbrev pub with_client_name : String → ProxyConfig → ProxyConfig
with_client_name name = with_metadata λ m. record m { client_name = some name }

abbrev pub with_tos_uri : String → ProxyConfig → ProxyConfig
with_tos_uri uri = with_metadata λ m. record m { tos_uri = some uri }

abbrev pub with_logo_uri : String → ProxyConfig → ProxyConfig
with_logo_uri uri = with_metadata λ m. record m { logo_uri = some uri }

abbrev pub with_policy_uri : String → ProxyConfig → ProxyConfig
with_policy_uri uri = with_metadata λ m. record m { privacy_policy_uri = some uri }

abbrev pub with_scopes : List String → ProxyConfig → ProxyConfig
with_scopes scopes config = record config { scope = scopes }

abbrev pub with_default_pds : String → ProxyConfig → ProxyConfig
with_default_pds pds config = record config { default_pds = pds }

abbrev pub with_downstream_token_expiry : ℕ → ProxyConfig → ProxyConfig
with_downstream_token_expiry seconds config = record config {
  downstream_token_expiry_seconds = seconds;
}

abbrev pub with_client_uri : String → ProxyConfig → ProxyConfig
with_client_uri uri = with_metadata λ m. record m { client_uri = some uri }

abbrev pub with_redirect_uris : List String → ProxyConfig → ProxyConfig
with_redirect_uris uris = with_metadata λ m. record m { redirect_uris = uris }
