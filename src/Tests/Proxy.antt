-- ===== src/Tests/Proxy.antt =====
-- A proxy over SQLite with one account, and runs of its endpoints.
use istat.Prelude.{ℕ, String, ◌==◌, ◌≡◌, refl, none, some, inr, List, [], ◌∷◌, if◌then◌else◌, arith}
use istat.Text.{◌<>◌}
use istat.Outcome.{Result}
use istat.Action.{pure}
use istat.Time.{DateTime, Chrono, ReadsBack, seconds}
use istat.Http.{HeaderMap}
use istat.Json.{Json, text, object, field, end}
use istat.Oatproxy.Crypto.{Crypto, IsSound}
use istat.Oatproxy.Jwt.{claims_json}
use istat.Oatproxy.Store.Spec.{StoreLaws, AuthLaws}
use istat.Oatproxy.Token.RoundTrip.{Holds}
use istat.Oatproxy.Server
use istat.Oatproxy.Server.{OAuthProxyServer}
use istat.Oatproxy.Server.Requests.{TokenRequest, CallbackParams}
use istat.Server.Db.{Db, AppTables}
use istat.Server.SqliteStore.{session_store, auth_store, key_store}
use istat.Server.SqliteStore.Externals.{Externals, RoundTrips}
use istat.Server.SqliteStore.View.{view}
use istat.Server.SqliteStore.Laws.{session_store-StoreLaws, auth_store-AuthLaws}
use istat.Tests.World.{crypto, crypto-IsSound, digits, scan, scan-digits}

abbrev pub chrono : Chrono
chrono = record { to_rfc3339 = λ t. digits t t ""; parse_from_rfc3339 = λ t. inr (scan t).0 }

chrono-ReadsBack : ReadsBack chrono
unfolding scan
chrono-ReadsBack = record {
  parse-print = λ t. λ i. inr (scan-digits t t "" [] (omega arith) refl i).0;
}

-- a session is its account's name
abbrev pub sqlite : Externals String String String
sqlite = record {
  chrono = chrono;
  sql_message = λ e. "database error";
  jwk_to_string = λ k. inr k;
  jwk_from_str = λ t. inr t;
  session_to_string = λ d. inr d;
  session_from_str = λ t. inr t;
  session_account_did = λ d. "did:plc:" <> d;
  session_session_id = λ d. "sid-" <> d;
  auth_request_to_string = λ r. inr r;
  auth_request_from_str = λ t. inr t;
  auth_request_state = λ r. r;
}

unwrap :
    {u t : String}
    → ◌≡◌ {A = Result String String} (inr u) (inr t)
    → ◌≡◌ {A = Result String String} (inr t) (inr u)
unwrap h = cc (h)

pub sqlite-RoundTrips : RoundTrips sqlite
sqlite-RoundTrips = record {
  instants = chrono-ReadsBack;
  jwk_read = λ k t h. unwrap h;
  session_read = λ d t h. unwrap h;
  auth_request_read = λ r t h. unwrap h;
}

abbrev pub ec_key : Json
ec_key = object (
    field "kty" (text "EC")
      (field "crv" (text "P-256") (field "x" (text "1") (field "y" (text "2") end))))

abbrev canonical_key : Json
canonical_key = object (
    field "crv" (text "P-256")
      (field "kty" (text "EC") (field "x" (text "1") (field "y" (text "2") end))))

abbrev pub jkt : String
jkt = "x1000011"

abbrev pub noon : DateTime
noon = seconds 100

abbrev pub documents : List Json
documents =
    object (field "jwk" ec_key end)
    ∷ canonical_key
    ∷ object (field "alg" (text "ES256") (field "typ" (text "JWT") end))
    ∷ claims_json "https://p" "did:plc:ann" jkt "atproto" 3700 100
    ∷ []

abbrev pub cr : Crypto ℕ ℕ ℕ
cr = crypto documents

abbrev pub sound : IsSound cr
sound = crypto-IsSound documents

abbrev pub exchange : TokenRequest
exchange = record {
  grant_type = "authorization_code";
  code = some "c1";
  refresh_token = none;
  client_id = none;
  redirect_uri = none;
}

abbrev pub renewal : TokenRequest
renewal = record {
  grant_type = "refresh_token";
  code = none;
  refresh_token = some "r1";
  client_id = none;
  redirect_uri = none;
}

abbrev request_of : String → Result String TokenRequest
request_of body = if body == "exchange" then inr exchange else inr renewal

abbrev pub ext : Server.Externals String String String Db
ext = record {
  start_auth = λ hint o. pure ("https://pds/authorize");
  callback = λ p. pure "ann";
  account_did = λ d. "did:plc:" <> d;
  session_id = λ d. "sid-" <> d;
  dpop_key = λ d. d;
  token_scope = λ d. some "atproto";
  parse_scope = λ s. some s;
  parse_did = λ s. inr s;
  key_to_value = λ u. inr ec_key;
  jwk_to_value = λ k. inr ec_key;
  jwk_from_value = λ j. inr "key";
  store_error_text = λ e. "database error";
  url_encode = λ s. s;
  token_request_of_json = request_of;
  token_request_of_form = request_of;
}

abbrev pub server : OAuthProxyServer ℕ String String String Db
server = record {
  config = record {
    host = "https://p/";
    scope = "atproto" ∷ [];
    client_metadata = record {
      client_id = "https://p/oauth-client-metadata.json";
      client_uri = some "https://p/";
      redirect_uris = "https://p/oauth/return" ∷ [];
      grant_types = [];
      scopes = "atproto" ∷ [];
      jwks_uri = none;
      client_name = none;
      tos_uri = none;
      logo_uri = none;
      privacy_policy_uri = none;
    };
    default_pds = "https://pds/";
    downstream_token_expiry_seconds = 3600;
    dpop_nonce_hmac_secret = 1 ∷ [];
  };
  session_store = session_store sqlite "now";
  client_auth_store = auth_store sqlite;
  key_store = key_store 7;
  token_manager = record { issuer = "https://p" };
}

pub holds : Holds server.key_store 7
holds s = refl

pub laws : StoreLaws server.session_store (view sqlite)
laws = session_store-StoreLaws sqlite sqlite-RoundTrips "now"

pub auth : AuthLaws server.client_auth_store (view sqlite) ext.account_did ext.session_id
auth = auth_store-AuthLaws sqlite sqlite-RoundTrips

abbrev pub no_rows : AppTables
no_rows = record {
  emojis = [];
  statuses = [];
  profiles = [];
  admins = [];
  blacklisted_cids = [];
  audit_log = [];
}

-- a client waits under the state `st`, and a request was pushed
abbrev pub before : Db
before = record {
  proxy = record {
    pending_auths = [];
    downstream_clients =
        (
          "st",
          record {
            redirect_uri = "app://back";
            state = some "s";
            response_type = "code";
            scope = some "atproto";
            expires_at = digits 5 5 "";
          },
        )
        ∷ [];
    par_data =
        (
          "urn:1",
          record {
            client_id = "app";
            redirect_uri = "app://back";
            response_type = "code";
            state = some "s";
            scope = some "atproto";
            code_challenge = some "ch";
            code_challenge_method = some "S256";
            login_hint = some "ann.example";
            downstream_dpop_jkt = jkt;
            expires_at = digits (seconds 190) (seconds 190) "";
          },
        )
        ∷ [];
    refresh_tokens = [];
    active_sessions = [];
    session_dpop_keys = [];
    session_dpop_nonces = [];
    used_nonces = [];
    oauth_sessions = (("did:plc:ann", "sid-ann"), "ann") ∷ [];
    auth_requests = [];
    signing_key = none;
    dpop_hmac_secret = none;
  };
  app = no_rows;
  faults = [];
}

abbrev pub callback : CallbackParams
callback = record { code = some "up"; state = some "st"; iss = none; error = none }

abbrev pub headers : HeaderMap
headers = ("dpop", some ".x.x") ∷ []

session_store-StoreLaws_example : StoreLaws (session_store sqlite "later") (view sqlite)
session_store-StoreLaws_example = session_store-StoreLaws sqlite sqlite-RoundTrips "later"

auth_store-AuthLaws_example :
    AuthLaws (auth_store sqlite) (view sqlite) sqlite.session_account_did sqlite.session_session_id
auth_store-AuthLaws_example = auth_store-AuthLaws sqlite sqlite-RoundTrips
