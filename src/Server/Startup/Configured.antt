-- ===== src/Server/Startup/Configured.antt =====
-- What the configuration of a start and the server that is built of it hold.
use istat.Prelude.{
  ℕ, String, ◌≡◌, refl, sym, ap, ◌∙◌, Option, none, some, List, inl, inr, ◌||◌, if◌then◌else◌,
}
use istat.Text.{trim_end_matches, contains}
use istat.Outcome.{Outcome, Result, ok}
use istat.Outcome.Inversion.{step-ok}
use istat.Action.Inversion.{bind-ok, lift-ok, from_result-ok}
use istat.Oatproxy.Config
use istat.Oatproxy.Config.{
  with_dpop_nonce_secret, with_client_name, with_tos_uri, with_logo_uri, with_policy_uri,
  ConfigExternals, ProxyConfig, ClientMetadata, local_metadata, public_metadata, expect,
}
use istat.Oatproxy.Builder.{KeyExternals, Backend, build}
use istat.Oatproxy.Error.{Error}
use istat.Oatproxy.Store.{KeyStore}
use istat.Oatproxy.Server.{OAuthProxyServer}
use istat.Oatproxy.Token.RoundTrip.{Holds}
use istat.Server.SqliteStore.Externals.{Externals}
use istat.Server.Startup.{
  StartError, Environment, public_url_of, configure, if_set, if_url, set_url, other_error,
}

out_of : {E A : Type 0} {a b : A} → ◌≡◌ {A = Outcome E A} (ok a) (ok b) → a ≡ b
out_of h = cc (h)

-- settings that leave a part of the configuration leave it under their conditions
module _ {A : Type 0} (part : ProxyConfig → A) where
  if_set-keeps :
      {B : Type 0} (f : B → ProxyConfig → ProxyConfig)
      → ((b : B) (c : ProxyConfig) → part (f b c) ≡ part c)
      → (o : Option B) (c : ProxyConfig) → part (if_set f o c) ≡ part c
  if_set-keeps f h none c = refl
  if_set-keeps f h (some b) c = h b c

  if_url-keeps :
      (parse : String → Result String String) (f : String → ProxyConfig → ProxyConfig)
      → ((b : String) (c : ProxyConfig) → part (f b c) ≡ part c)
      → (o : Option String) (c : ProxyConfig) → part (if_url parse f o c) ≡ part c
  if_url-keeps parse f h none c = refl
  if_url-keeps parse f h (some t) c = set_url-keeps f h (parse t) c
    where
      set_url-keeps :
          (f : String → ProxyConfig → ProxyConfig)
          → ((b : String) (c : ProxyConfig) → part (f b c) ≡ part c)
          → (r : Result String String) (c : ProxyConfig) → part (set_url f r c) ≡ part c
      set_url-keeps f h (inl m) c = refl
      set_url-keeps f h (inr u) c = h u c

new-host :
    (urls : ConfigExternals) (host : String) (config : ProxyConfig)
    → Config.new {E = StartError} urls host ≡ ok config
    → config.host ≡ host
unfolding Config.new
new-host urls host config h =
    step-ok
      (if contains "localhost" (trim_end_matches b'/' host)
          || contains "127.0.0.1" (trim_end_matches b'/' host)
        then local_metadata urls (trim_end_matches b'/' host)
        else public_metadata urls host (trim_end_matches b'/' host))
      _ config h
      λ metadata e1 h1.
        step-ok (expect (urls.parse_url "https://public.api.bsky.app")) _ config h1
          λ pds e2 h2. sym (ap (λ (c : ProxyConfig). c.host) (out_of h2))

module _ {K J D Q : Type 0} (x : KeyExternals K) (urls : ConfigExternals) (rows : Externals J D Q)
    (now : String) where
  set_all :
      {A : Type 0} (part : ProxyConfig → A) (env : Environment) (config : ProxyConfig)
      → ((s : String) (c : ProxyConfig) → part (with_policy_uri s c) ≡ part c)
      → ((s : String) (c : ProxyConfig) → part (with_logo_uri s c) ≡ part c)
      → ((s : String) (c : ProxyConfig) → part (with_tos_uri s c) ≡ part c)
      → ((s : String) (c : ProxyConfig) → part (with_client_name s c) ≡ part c)
      → part (
          if_url urls.parse_url with_policy_uri env.policy_uri (
            if_url urls.parse_url with_logo_uri env.logo_uri (
              if_url urls.parse_url with_tos_uri env.tos_uri
                (if_set with_client_name env.client_name config))))
        ≡ part config
  set_all part env config p l t n =
      if_url-keeps part urls.parse_url with_policy_uri p env.policy_uri _
      ∙ if_url-keeps part urls.parse_url with_logo_uri l env.logo_uri _
      ∙ if_url-keeps part urls.parse_url with_tos_uri t env.tos_uri _
      ∙ if_set-keeps part with_client_name n env.client_name config

  pub configure-ok :
      (env : Environment) (secret : List ℕ) (config : ProxyConfig)
      → configure x urls rows now env secret ≡ ok config
      → (urls.parse_url (public_url_of env) ≡ inr config.host)
        × (config.dpop_nonce_hmac_secret ≡ secret)
  unfolding configure
  configure-ok env secret config h = step-ok _ _ config h λ host e1 h1.
      step-ok (Config.new urls host) _ config h1 λ fresh e2 h2.
        let made = out_of h2 in
        let same : config.host ≡ host =
          sym (ap (λ (c : ProxyConfig). c.host) made)
          ∙ set_all (λ c. c.host) env (with_dpop_nonce_secret secret fresh) (λ s c. refl)
              (λ s c. refl) (λ s c. refl) (λ s c. refl)
          ∙ new-host urls host fresh e2 in
        (
          from_result-ok other_error _ _ e1 ∙ ap inr (sym same),
          sym (ap (λ (c : ProxyConfig). c.dpop_nonce_hmac_secret) made)
              ∙ set_all (λ c. c.dpop_nonce_hmac_secret) env (with_dpop_nonce_secret secret fresh)
                  (λ s c. refl) (λ s c. refl) (λ s c. refl) (λ s c. refl),
        )

-- the server that is built has the parts that it was given
pub record Built {K J D Q S : Type 0} (config : ProxyConfig) (backend : Backend J D Q S)
    (keys : KeyStore K J S) (server : OAuthProxyServer K J D Q S) : Type 0 where
  pub config_is : server.config ≡ config
  pub keys_are : server.key_store ≡ keys
  pub issuer : server.token_manager.issuer ≡ config.host

module _ {K J D Q S : Type 0} (x : KeyExternals K) where
  pub build-Built :
      (config : ProxyConfig) (backend : Backend J D Q S) (keys : KeyStore K J S) (key : K)
      (server : OAuthProxyServer K J D Q S) (s s' : S)
      → Holds keys key
      → build x
          (record { config = some config; session_store = some backend; key_store = some keys })
          s
        ≡ (ok server, s')
      → Built config backend keys server × (s' ≡ s)
  unfolding build
  build-Built config backend keys key server s s' holds h = lift-ok _ _ s server s' h λ u1 e1 h1.
      lift-ok _ _ s server s' h1 λ u2 e2 h2. lift-ok _ _ s server s' h2 λ u3 e3 h3.
        bind-ok _ _ s server s' h3 λ k t e4 h4. lift-ok _ _ t server s' h4 λ px e5 h5.
          lift-ok _ _ t server s' h5 λ py e6 h6. lift-ok _ _ t server s' h6 λ u7 e7 h7.
            let is = out_of (ap (λ (q : Outcome Error (OAuthProxyServer K J D Q S) × S). q.0) h7) in
            let same_config : config ≡ u1 = out_of e1 in
            let same_keys : keys ≡ u3 = out_of e3 in
            (
              record {
                config_is =
                    ap (λ (v : OAuthProxyServer K J D Q S). v.config) (sym is) ∙ sym same_config;
                keys_are =
                    ap (λ (v : OAuthProxyServer K J D Q S). v.key_store) (sym is) ∙ sym same_keys;
                issuer =
                    ap (λ (v : OAuthProxyServer K J D Q S). v.token_manager.issuer) (sym is)
                    ∙ ap (λ (v : ProxyConfig). v.host) (sym same_config);
              },
              sym (ap (λ (q : Outcome Error (OAuthProxyServer K J D Q S) × S). q.1) h7)
                  ∙ ap (λ (q : Outcome Error K × S). q.1)
                      (sym e4
                        ∙ ap (λ (v : KeyStore K J S). v.get_signing_key s) (sym same_keys)
                        ∙ holds s),
            )
