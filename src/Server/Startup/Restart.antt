-- ===== src/Server/Startup/Restart.antt =====
-- What a restart keeps.
use istat.Prelude.{ℕ, ◌+◌, ◌≤◌, String, ◌≡◌, refl, sym, ap, subst, ◌∙◌, List, inr, eq_iff, arith}
use istat.Outcome.{Result, ok}
use istat.Time.{DateTime, timestamp}
use istat.Oatproxy.Crypto.{Crypto, IsSound}
use istat.Oatproxy.Config.{ConfigExternals}
use istat.Oatproxy.Builder.{KeyExternals, KeyLaws}
use istat.Oatproxy.Jwt.{DownstreamTokenClaims}
use istat.Oatproxy.Jwt.Laws.{claims, verdict}
use istat.Oatproxy.Token.{issue_downstream_jwt, validate_downstream_jwt}
use istat.Oatproxy.Token.RoundTrip.{validate-issue}
use istat.Server.Db.{Db}
use istat.Server.SqliteStore.{key_store}
use istat.Server.SqliteStore.Externals.{Externals}
use istat.Server.Startup.{Environment, Started, public_url_of, start}
use istat.Server.Startup.Ready.{Kept, start-Ready}

value_of : {E A : Type 0} {a b : A} → ◌≡◌ {A = Result E A} (inr a) (inr b) → a ≡ b
value_of h = cc (h)

in_time :
    {K V G : Type 0} (c : Crypto K V G) (sound : IsSound c) (issuer : String) (later : DateTime)
    (cl : DownstreamTokenClaims)
    → cl.iss ≡ issuer
    → timestamp later ≤ cl.exp
    → verdict c sound issuer later cl ≡ ok cl
in_time c sound issuer later cl same time = ground (arith, same, time, eq_iff cl.iss issuer)

module _ {K V G J D Q : Type 0} (c : Crypto K V G) (sound : IsSound c) (x : KeyExternals K)
    (laws : KeyLaws x) (urls : ConfigExternals) (rows : Externals J D Q) (now : String) where
  -- When the backend starts with success, issues a token, and starts again with success over a
  -- database with the signing key and secret that were left and with the same public URL, the
  -- new proxy accepts the token with the issued claims until it expires, whatever random key and
  -- secret the second start was offered, and has the same DPoP secret, for a sound encoding of
  -- keys.
  pub restart-token :
      (env env' : Environment) (random unused random' unused' : K) (secret secret' : List ℕ)
      (a b : Started K J D Q) (s s' t t' u u' w : Db) (sub jkt scope jwt : String) (lifetime : ℕ)
      (issued later : DateTime)
      → start x urls rows now env random unused secret s ≡ (ok a, s')
      → issue_downstream_jwt c a.server.token_manager a.server.key_store sub jkt scope lifetime
          issued u
        ≡ (ok jwt, u')
      → t.proxy.signing_key ≡ s'.proxy.signing_key
      → t.proxy.dpop_hmac_secret ≡ s'.proxy.dpop_hmac_secret
      → public_url_of env ≡ public_url_of env'
      → start x urls rows now env' random' unused' secret' t ≡ (ok b, t')
      → timestamp later ≤ timestamp issued + lifetime
      → (validate_downstream_jwt c b.server.token_manager b.server.key_store jwt later w ≡ (
        ok (
            claims a.server.token_manager.issuer sub jkt scope
              (timestamp issued + lifetime)
              (timestamp issued)),
        w,
      ))
        × (b.server.config.dpop_nonce_hmac_secret ≡ a.server.config.dpop_nonce_hmac_secret)
  restart-token env env' random unused random' unused' secret secret' a b s s' t t' u u' w sub jkt
        scope jwt lifetime issued later first issue keys secrets url second time =
      let ra = start-Ready x laws urls rows now env random unused secret a s s' first in
      let rb = start-Ready x laws urls rows now env' random' unused' secret' b t t' second in
      let bytes : ra.bytes ≡ rb.bytes =
        subst (λ r. Kept r rb.bytes) (keys ∙ ra.stored_key) rb.kept_key in
      let key : ra.key ≡ rb.key = value_of (sym ra.read ∙ ap x.from_bytes bytes ∙ rb.read) in
      let hidden : ra.secret ≡ rb.secret =
        subst (λ r. Kept r rb.secret) (secrets ∙ ra.stored_secret) rb.kept_secret in
      let issuer = value_of (sym ra.host_read ∙ ap urls.parse_url url ∙ rb.host_read) in
      let store : key_store ra.key ≡ b.server.key_store =
        ap (λ k. key_store k) key ∙ sym rb.server_keys in
      let judged =
        validate-issue c (key_store ra.key) ra.key sound (λ v. refl) a.server.token_manager
          b.server.token_manager sub jkt scope lifetime issued later u u' w jwt
          (subst
            (λ ks.
              issue_downstream_jwt c a.server.token_manager ks sub jkt scope lifetime issued u
              ≡ (ok jwt, u'))
            ra.server_keys issue) in
      (
        subst
            (λ ks. validate_downstream_jwt c b.server.token_manager ks jwt later w ≡ (
              ok (
                  claims a.server.token_manager.issuer sub jkt scope (timestamp issued + lifetime)
                    (timestamp issued)),
              w,
            ))
            store (judged ∙ ap (λ o. (o, w)) (in_time c sound _ later _ issuer time)),
        rb.secret_is ∙ sym hidden ∙ sym ra.secret_is,
      )
