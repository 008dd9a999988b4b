-- ===== src/Server/Startup/Ready.antt =====
-- What a successful start has set up.
use istat.Prelude.{ℕ, String, ◌≡◌, refl, sym, ap, subst, ◌∙◌, Option, none, some, List, inr}
use istat.Outcome.{Outcome, ok}
use istat.Action.Inversion.{bind-ok, lift-ok, map_err-ok, from_result-ok}
use istat.Oatproxy.Config.{ConfigExternals, ProxyConfig}
use istat.Oatproxy.Builder.{KeyExternals, KeyLaws}
use istat.Server.Db.{Db, ProxyTables}
use istat.Server.Sql.Steps.{with_faults, query_step, insert_step}
use istat.Server.SqliteStore
use istat.Server.SqliteStore.{key_store}
use istat.Server.SqliteStore.Externals.{Externals}
use istat.Server.Startup.Configured.{configure-ok, build-Built}
use istat.Server.Startup.{
  StartError, Environment, Started, load_signing_key, load_hmac_secret, public_url_of, start,
  key_of_row, secret_of_row, other_error,
}

-- a row that is there stays
abbrev pub Kept : {A : Type 0} → Option A → A → Type 0
Kept none a = Unit
Kept (some b) a = b ≡ a

out_of : {E A : Type 0} {a b : A} → ◌≡◌ {A = Outcome E A} (ok a) (ok b) → a ≡ b
out_of h = cc (h)

module _ {K : Type 0} (x : KeyExternals K) (laws : KeyLaws x) where
  pub record LoadedKey (k : K) (before after : ProxyTables) : Type 0 where
    pub bytes : List ℕ
    pub tables : after ≡ record before { signing_key = some bytes }
    pub read : x.from_bytes bytes ≡ inr k
    pub kept : Kept before.signing_key bytes

  key_of_row-ok :
      (random k : K) (row : Option (List ℕ)) (s s' : Db)
      → s.proxy.signing_key ≡ row
      → key_of_row x random row s ≡ (ok k, s')
      → LoadedKey k s.proxy s'.proxy
  key_of_row-ok random k none s s' e h = insert_step _ _ k s s' _ _ h λ gs rest. record {
    bytes = x.to_bytes random;
    tables = ap (λ (q : Outcome StartError K × Db). q.1.proxy) (sym rest);
    read = laws.from-to random ∙ ap inr (out_of (ap (λ (q : Outcome StartError K × Db). q.0) rest));
    kept = subst (λ r. Kept r (x.to_bytes random)) (sym e) tt;
  }
  key_of_row-ok random k (some bytes) s s' e h = lift-ok _ _ s k s' h λ u e1 h1. record {
    bytes = bytes;
    tables =
        ap (λ (q : Outcome StartError K × Db). q.1.proxy) (sym h1)
        ∙ ap (λ r. record (s.proxy) { signing_key = r }) e;
    read = from_result-ok other_error _ _ (ap (λ (q : Outcome StartError K × Db). q.0) h1);
    kept = subst (λ r. Kept r bytes) (sym e) refl;
  }

  load_signing_key-ok :
      (random k : K) (s s' : Db)
      → load_signing_key x random s ≡ (ok k, s')
      → LoadedKey k s.proxy s'.proxy
  unfolding load_signing_key
  load_signing_key-ok random k s s' h =
      query_step _ _ k s s' _ h
        λ gs h1. key_of_row-ok random k s.proxy.signing_key (with_faults s gs) s' refl h1

pub record LoadedSecret (secret : List ℕ) (before after : ProxyTables) : Type 0 where
  pub tables : after ≡ record before { dpop_hmac_secret = some secret }
  pub kept : Kept before.dpop_hmac_secret secret

secret_of_row-ok :
    (random secret : List ℕ) (row : Option (List ℕ)) (s s' : Db)
    → s.proxy.dpop_hmac_secret ≡ row
    → secret_of_row random row s ≡ (ok secret, s')
    → LoadedSecret secret s.proxy s'.proxy
secret_of_row-ok random secret none s s' e h = insert_step _ _ secret s s' _ _ h λ gs rest.
    let same : random ≡ secret = out_of (ap (λ (q : Outcome StartError (List ℕ) × Db). q.0) rest) in
    record {
      tables =
          ap (λ (q : Outcome StartError (List ℕ) × Db). q.1.proxy) (sym rest)
          ∙ ap (λ r. record (s.proxy) { dpop_hmac_secret = some r }) same;
      kept = subst (λ r. Kept r secret) (sym e) tt;
    }
secret_of_row-ok random secret (some stored) s s' e h =
    let same : stored ≡ secret = out_of (ap (λ (q : Outcome StartError (List ℕ) × Db). q.0) h) in
    record {
      tables =
          ap (λ (q : Outcome StartError (List ℕ) × Db). q.1.proxy) (sym h)
          ∙ ap (λ r. record (s.proxy) { dpop_hmac_secret = r }) (e ∙ ap some same);
      kept = subst (λ r. Kept r secret) (sym e) same;
    }

load_hmac_secret-ok :
    (random secret : List ℕ) (s s' : Db)
    → load_hmac_secret random s ≡ (ok secret, s')
    → LoadedSecret secret s.proxy s'.proxy
unfolding load_hmac_secret
load_hmac_secret-ok random secret s s' h =
    query_step _ _ secret s s' _ h
      λ gs h1. secret_of_row-ok random secret s.proxy.dpop_hmac_secret (with_faults s gs) s' refl h1

module _ {K J D Q : Type 0} (x : KeyExternals K) (laws : KeyLaws x) (urls : ConfigExternals)
    (rows : Externals J D Q) (now : String) where
  -- Both stores hand out the key whose bytes are stored, the configuration has the stored secret, the
  -- proxy's tokens are issued in the name of the URL's text, and the state's manager expects the
  -- variable's.
  pub record Ready (env : Environment) (before after : ProxyTables) (a : Started K J D Q)
      : Type 0 where
    pub key : K
    pub bytes : List ℕ
    pub secret : List ℕ
    pub server_keys : a.server.key_store ≡ key_store key
    pub state_keys : a.state.key_store ≡ key_store key
    pub read : x.from_bytes bytes ≡ inr key
    pub secret_is : a.server.config.dpop_nonce_hmac_secret ≡ secret
    pub stored_key : after.signing_key ≡ some bytes
    pub stored_secret : after.dpop_hmac_secret ≡ some secret
    pub kept_key : Kept before.signing_key bytes
    pub kept_secret : Kept before.dpop_hmac_secret secret
    pub host_read : urls.parse_url (public_url_of env) ≡ inr a.server.token_manager.issuer
    pub state_issuer : a.state.token_manager.issuer ≡ public_url_of env

  pub start-Ready :
      (env : Environment) (random unused : K) (random_secret : List ℕ) (a : Started K J D Q)
      (s s' : Db)
      → start x urls rows now env random unused random_secret s ≡ (ok a, s')
      → Ready env s.proxy s'.proxy a
  unfolding start SqliteStore.build
  start-Ready env random unused random_secret a s s' h = bind-ok _ _ s a s' h λ key t1 e1 h1.
      bind-ok _ _ t1 a s' h1 λ secret t2 e2 h2. lift-ok _ _ t2 a s' h2 λ config e3 h3.
        bind-ok _ _ t2 a s' h3 λ server t4 e4 h4.
          let loaded = load_signing_key-ok x laws random key s t1 e1 in
          let hidden = load_hmac_secret-ok random_secret secret t1 t2 e2 in
          let (host, secret_set) = configure-ok x urls rows now env secret config e3 in
          let (built, same) =
            build-Built x config _ (key_store key) key server t2 t4 (λ u. refl)
              (map_err-ok _ _ t2 server t4 e4) in
          let is = out_of (ap (λ (q : Outcome StartError (Started K J D Q) × Db). q.0) h4) in
          let end : s'.proxy ≡ t2.proxy =
            ap (λ (d : Db). d.proxy)
              (sym (ap (λ (q : Outcome StartError (Started K J D Q) × Db). q.1) h4) ∙ same) in
          subst (Ready env s.proxy s'.proxy) is (record {
            key = key;
            bytes = loaded.bytes;
            secret = secret;
            server_keys = built.keys_are;
            state_keys = refl;
            read = loaded.read;
            secret_is =
                ap (λ (v : ProxyConfig). v.dpop_nonce_hmac_secret) built.config_is ∙ secret_set;
            stored_key =
                ap (λ (v : ProxyTables). v.signing_key) (end ∙ hidden.tables)
                ∙ ap (λ (v : ProxyTables). v.signing_key) loaded.tables;
            stored_secret = ap (λ (v : ProxyTables). v.dpop_hmac_secret) (end ∙ hidden.tables);
            kept_key = loaded.kept;
            kept_secret =
                subst (λ (v : ProxyTables). Kept v.dpop_hmac_secret secret) loaded.tables
                  hidden.kept;
            host_read = host ∙ ap inr (sym built.issuer);
            state_issuer = refl;
          })
