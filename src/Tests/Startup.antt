-- ===== src/Tests/Startup.antt =====
-- Two starts over one database, and a token between them.
use native.Mathlib.Decide.{ℕ_discrete}
use istat.Prelude.{
  ℕ, String, true, ◌==◌, ◌≡◌, ◌≢◌, refl, none, some, inl, inr, List, [], ◌∷◌, if◌then◌else◌, arith,
}
use istat.Text.{◌<>◌, contains, strip_prefix, trim_end_matches}
use istat.Outcome.{Outcome, Result, ok}
use istat.Action
use istat.Http
use istat.Http.{HeaderMap}
use istat.Json.{Json}
use istat.Oatproxy.Auth.{extract_bearer_token}
use istat.Oatproxy.Builder
use istat.Oatproxy.Builder.{KeyExternals, KeyLaws}
use istat.Oatproxy.Config
use istat.Oatproxy.Config.{ConfigExternals}
use istat.Oatproxy.Crypto.{Crypto, IsSound}
use istat.Oatproxy.Error.{Error}
use istat.Oatproxy.Jwt.{sign_jwt, claims_json}
use istat.Oatproxy.Jwt.Laws.{claims}
use istat.Oatproxy.Token.{issue_downstream_jwt, validate_downstream_jwt}
use istat.Server.Db.{Db}
use istat.Server.Sql.{statement, query, insert}
use istat.Server.SqliteStore
use istat.Server.Moderation.{token_of}
use istat.Server.Startup.{
  StartError, Environment, Started, public_url_of, load_signing_key, load_hmac_secret, configure,
  start,
}
use istat.Server.Startup.Restart.{restart-token}
use istat.Server.Startup.Issuer.{Refuses, moderation-refuses}
use istat.Tests.World.{
  crypto, crypto-IsSound, digits, scan, encode, bytes_of, read_json, print_json, Json-discrete,
  String_discrete,
}
use istat.Tests.Proxy.{sqlite, server, documents, before, noon, jkt}
use istat.Tests.Moderators

abbrev zeros : List ℕ
zeros =
    0 ∷ 0 ∷ 0 ∷ 0 ∷ 0 ∷ 0 ∷ 0 ∷ 0 ∷ 0 ∷ 0 ∷ 0 ∷ 0 ∷ 0 ∷ 0 ∷ 0 ∷ 0 ∷ 0 ∷ 0 ∷ 0 ∷ 0 ∷ 0 ∷ 0 ∷ 0 ∷ 0
    ∷ 0 ∷ 0 ∷ 0 ∷ 0 ∷ 0 ∷ 0 ∷ 0 ∷ []

abbrev first_byte : List ℕ → Result String ℕ
first_byte [] = inl "no bytes"
first_byte (n ∷ rest) = inr n

abbrev keys : KeyExternals ℕ
keys = record {
  x_coordinate = λ k. some (k ∷ []);
  y_coordinate = λ k. some (k ∷ []);
  to_bytes = λ k. k ∷ zeros;
  from_bytes = first_byte;
  keyset = λ jwk. inr tt;
}

keys-KeyLaws : KeyLaws keys
keys-KeyLaws = record { from-to = λ k. refl; to_length = λ k. refl }

-- a URL without a path is written with a slash
abbrev urls : ConfigExternals
urls = record {
  parse_url = λ s. if s == "https://p" then inr "https://p/" else inr s;
  new_localhost = λ redirects scopes. server.config.client_metadata;
  new_metadata = λ id uri redirects grants scopes jwks. server.config.client_metadata;
}

abbrev env : Environment
env = record {
  public_url = some "https://p";
  client_name = some "iStat";
  tos_uri = none;
  logo_uri = none;
  policy_uri = some "https://p/privacy";
  admin_did = none;
  foreign_keys = true;
}

abbrev docs : List Json
docs = claims_json "https://p/" "did:plc:ann" jkt "atproto" 3700 100 ∷ documents

abbrev cr : Crypto ℕ ℕ ℕ
cr = crypto docs

abbrev sound : IsSound cr
sound = crypto-IsSound docs

abbrev started :
    Outcome StartError (Started ℕ String String String) → Started ℕ String String String
started (ok a) = a
started _ = record { server = server; state = Moderators.state }

abbrev first_start : Outcome StartError (Started ℕ String String String) × Db
first_start = start keys urls sqlite "now" env 7 0 (1 ∷ 2 ∷ []) before

abbrev second_start : Outcome StartError (Started ℕ String String String) × Db
second_start = start keys urls sqlite "now" env 9 0 (3 ∷ []) first_start.1

abbrev first : Started ℕ String String String
first = started first_start.0

abbrev second : Started ℕ String String String
second = started second_start.0

abbrev issue : Outcome Error String × Db
issue =
    issue_downstream_jwt cr first.server.token_manager first.server.key_store "did:plc:ann" jkt
      "atproto" 3600 noon before

abbrev text_of : Outcome Error String → String
text_of (ok t) = t
text_of _ = ""

abbrev jwt : String
jwt = text_of issue.0

abbrev headers : HeaderMap
headers = ("authorization", some ("Bearer " <> jwt)) ∷ []

is_first : first_start ≡ (ok first, first_start.1)
unfolding start configure load_signing_key load_hmac_secret Config.new Config.public_metadata
    Config.local_metadata Builder.build SqliteStore.build contains strip_prefix trim_end_matches
    Action.◌>>=◌ Action.map_err statement query insert
is_first = refl

is_second : second_start ≡ (ok second, second_start.1)
unfolding start configure load_signing_key load_hmac_secret Config.new Config.public_metadata
    Config.local_metadata Builder.build SqliteStore.build contains strip_prefix trim_end_matches
    Action.◌>>=◌ Action.map_err statement query insert
is_second = refl

is_issued : issue ≡ (ok jwt, before)
unfolding start configure load_signing_key load_hmac_secret Config.new Config.public_metadata
    Config.local_metadata Builder.build SqliteStore.build contains strip_prefix trim_end_matches
    Action.◌>>=◌ Action.map_err statement query insert issue_downstream_jwt sign_jwt claims_json
    crypto digits scan encode bytes_of read_json print_json Json-discrete String_discrete ℕ_discrete
is_issued = refl

carried : token_of headers ≡ ok jwt
unfolding start configure load_signing_key load_hmac_secret Config.new Config.public_metadata
    Config.local_metadata Builder.build SqliteStore.build contains strip_prefix trim_end_matches
    Action.◌>>=◌ Action.map_err statement query insert issue_downstream_jwt sign_jwt claims_json
    crypto digits scan encode bytes_of read_json print_json Json-discrete String_discrete ℕ_discrete
    token_of extract_bearer_token Http.header
carried = refl

other_text : urls.parse_url (public_url_of env) ≢ inr (public_url_of env)
other_text p = absurd (cc (p))

restart-token_example :
    (validate_downstream_jwt cr second.server.token_manager second.server.key_store jwt noon before
      ≡ (
        ok (claims first.server.token_manager.issuer "did:plc:ann" jkt "atproto" 3700 100),
        before,
      ))
    × (second.server.config.dpop_nonce_hmac_secret ≡ first.server.config.dpop_nonce_hmac_secret)
restart-token_example =
    restart-token cr sound keys keys-KeyLaws urls sqlite "now" env env 7 0 9 0 (1 ∷ 2 ∷ []) (3 ∷ [])
      first second before first_start.1 first_start.1 second_start.1 before before before
      "did:plc:ann" jkt "atproto" jwt 3600 noon noon is_first is_issued refl refl refl is_second
      (omega arith)

moderation-refuses_example : Refuses cr first.state headers noon before
moderation-refuses_example =
    moderation-refuses cr sound keys keys-KeyLaws urls sqlite "now" env 7 0 (1 ∷ 2 ∷ []) first
      before first_start.1 before before before headers "did:plc:ann" jkt "atproto" jwt 3600 noon
      noon is_first other_text is_issued carried
