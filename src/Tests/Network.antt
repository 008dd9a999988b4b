-- ===== src/Tests/Network.antt =====
-- A request through the proxy, beside a log of what was sent.
use native.Mathlib.Decide.{ℕ_discrete}
use istat.Prelude.{
  inl, ◌&&◌, ℕ, String, ◌==◌, ◌≡◌, refl, Option, none, some, inr, List, [], ◌∷◌, if◌then◌else◌,
}
use istat.Text.{◌<>◌, strip_prefix, split, trim_end_matches, trim_start_matches}
use istat.Outcome.{Outcome, Result, ok}
use istat.Action
use istat.Action.{Action, pure, Keeps}
use istat.Json
use istat.Json.{find_field, as_str}
use istat.Table
use istat.Http
use istat.Http.{HeaderMap}
use istat.Oatproxy.Error.{Error}
use istat.Oatproxy.ClientAuthStore.{ClientAuthStore}
use istat.Oatproxy.Jwt.{
  claims_json, claims_of_json, check_header, check_signed, claims_of, signature_of,
}
use istat.Oatproxy.Dpop.{
  member, ec_canonical, canonical, compute_jwk_thumbprint_from_json, extract_dpop_jkt,
  extract_dpop_jkt_and_key,
}
use istat.Oatproxy.Store.{OAuthSessionStore, KeyStore}
use istat.Oatproxy.Token.{validate_downstream_jwt, validate_parts}
use istat.Oatproxy.Token.Upstream.{
  DpopKey, ec, ProofExternals, create_upstream_dpop_proof, proof_claims, public_key,
}
use istat.Oatproxy.Server
use istat.Oatproxy.Server.{OAuthProxyServer}
use istat.Oatproxy.Server.Xrpc.{
  XrpcRequest, UpstreamRequest, UpstreamResponse, ProxiedResponse, XrpcExternals, bearer, copied,
  returned, upstream_url, demanded, admit, forward, finish, rounds, handle_xrpc_proxy,
}
use istat.Server.Db.{Db}
use istat.Server.Sql.{statement, query, execute}
use istat.Server.SqliteStore.Sessions
use istat.Server.SqliteStore.Tokens
use istat.Tests.World.{
  crypto, digits, scan, encode, bytes_of, read_json, print_json, Json-discrete, String_discrete,
}
use istat.Server.SqliteStore.{session_store, auth_store, key_store}
use istat.Server.SqliteStore.Externals.{Externals}
use istat.Tests.Proxy.{chrono, sqlite, server, ext, cr, noon, before, jkt, ec_key}
use istat.Tests.Moderators

-- the keys that can be stored have one text for all of their parts
abbrev key_text : DpopKey → Result String String
key_text (ec crv x y (some d)) =
    if (crv == d) && (x == d) && (y == d) then inr d else inl "another key"
key_text _ = inl "another key"

abbrev rows : Externals DpopKey String String
rows = record {
  chrono = chrono;
  sql_message = sqlite.sql_message;
  jwk_to_string = key_text;
  jwk_from_str = λ t. inr (ec t t t (some t));
  session_to_string = sqlite.session_to_string;
  session_from_str = sqlite.session_from_str;
  session_account_did = sqlite.session_account_did;
  session_session_id = sqlite.session_session_id;
  auth_request_to_string = sqlite.auth_request_to_string;
  auth_request_from_str = sqlite.auth_request_from_str;
  auth_request_state = sqlite.auth_request_state;
}

abbrev keys_of : KeyStore ℕ DpopKey Db
keys_of = key_store 7

abbrev Logged : Type 0
Logged = Db × List UpstreamRequest

abbrev beside : {E A : Type 0} → Action E Db A → Action E Logged A
beside m s = ((m s.0).0, ((m s.0).1, s.1))

abbrev store : OAuthSessionStore DpopKey Logged
store = record {
  update_session = λ a. beside ((session_store rows "now").update_session a);
  delete_session = λ a. beside ((session_store rows "now").delete_session a);
  get_by_dpop_jkt = λ a. beside ((session_store rows "now").get_by_dpop_jkt a);
  store_pending_auth = λ a b. beside ((session_store rows "now").store_pending_auth a b);
  consume_pending_auth = λ a. beside ((session_store rows "now").consume_pending_auth a);
  store_downstream_client_info =
      λ a b. beside ((session_store rows "now").store_downstream_client_info a b);
  consume_downstream_client_info =
      λ a. beside ((session_store rows "now").consume_downstream_client_info a);
  store_par_data = λ a b. beside ((session_store rows "now").store_par_data a b);
  consume_par_data = λ a. beside ((session_store rows "now").consume_par_data a);
  store_refresh_token_mapping =
      λ a b c. beside ((session_store rows "now").store_refresh_token_mapping a b c);
  get_refresh_token_mapping = λ a. beside ((session_store rows "now").get_refresh_token_mapping a);
  store_active_session = λ a b. beside ((session_store rows "now").store_active_session a b);
  get_active_session = λ a. beside ((session_store rows "now").get_active_session a);
  store_session_dpop_key =
      λ a b c. beside ((session_store rows "now").store_session_dpop_key a b c);
  get_session_dpop_key = λ a. beside ((session_store rows "now").get_session_dpop_key a);
  update_session_dpop_nonce =
      λ a b. beside ((session_store rows "now").update_session_dpop_nonce a b);
  get_session_dpop_nonce = λ a. beside ((session_store rows "now").get_session_dpop_nonce a);
  check_and_consume_nonce = λ a. beside ((session_store rows "now").check_and_consume_nonce a);
}

abbrev auths : ClientAuthStore String String Logged
auths = record {
  get_session = λ a b. beside ((auth_store rows).get_session a b);
  upsert_session = λ a. beside ((auth_store rows).upsert_session a);
  delete_session = λ a b. beside ((auth_store rows).delete_session a b);
  get_auth_req_info = λ a. beside ((auth_store rows).get_auth_req_info a);
  save_auth_req_info = λ a. beside ((auth_store rows).save_auth_req_info a);
  delete_auth_req_info = λ a. beside ((auth_store rows).delete_auth_req_info a);
}

abbrev keys : KeyStore ℕ DpopKey Logged
keys = record {
  get_signing_key = beside keys_of.get_signing_key;
  get_dpop_key = λ a. beside (keys_of.get_dpop_key a);
}

abbrev proxy : OAuthProxyServer ℕ DpopKey String String Logged
proxy = record {
  config = server.config;
  session_store = store;
  client_auth_store = auths;
  key_store = keys;
  token_manager = server.token_manager;
}

abbrev world : Server.Externals DpopKey String String Logged
world = record {
  start_auth = λ a b. beside (ext.start_auth a b);
  callback = λ a. beside (ext.callback a);
  account_did = ext.account_did;
  session_id = ext.session_id;
  dpop_key = ext.dpop_key;
  token_scope = ext.token_scope;
  parse_scope = ext.parse_scope;
  parse_did = ext.parse_did;
  key_to_value = ext.key_to_value;
  jwk_to_value = λ k. inr ec_key;
  jwk_from_value = λ j. inr (ec "k" "k" "k" (some "k"));
  store_error_text = ext.store_error_text;
  url_encode = ext.url_encode;
  token_request_of_json = ext.token_request_of_json;
  token_request_of_form = ext.token_request_of_form;
}

-- a proof shows its key and its nonce
abbrev shown_key : DpopKey → String
shown_key (ec crv x y none) = "public"
shown_key _ = "private"

abbrev shown_nonce : Option String → String
shown_nonce none = "none"
shown_nonce (some nonce) = nonce

abbrev pub proofs : ProofExternals DpopKey String
proofs = record {
  key = λ j. j;
  with_key = λ k j. k;
  secret = λ k. inr (some "secret");
  create_signed_jwt =
      λ secret typ jwk claims. inr (shown_key jwk <> "." <> shown_nonce claims.nonce);
}

-- the server wants the nonce `n2`
abbrev pub reply : UpstreamRequest → UpstreamResponse
reply r =
    if r.dpop == "public.n2"
    then record { status = 200; headers = ("etag", some "1") ∷ []; bytes = inr (7 ∷ []) }
    else record { status = 401; headers = ("dpop-nonce", some "n2") ∷ []; bytes = inr [] }

abbrev net : XrpcExternals String Logged
net = record {
  send = λ r s. (ok (reply r), (s.0, r ∷ s.1));
  host_url = λ d. "https://pds/";
  access_token = λ d. "up-" <> d;
}

abbrev start : Logged
start = (
  record before {
    proxy = record before.proxy {
      active_sessions = ("did:plc:ann", "sid-ann") ∷ [];
      session_dpop_keys = ("sid-ann", (jkt, "k")) ∷ [];
    };
  },
  [],
)

abbrev pub request : XrpcRequest
request = record {
  method = "GET";
  path_and_query = some "/xrpc/a.b";
  headers = ("dpop", some ".x.x") ∷ ("accept", some "*") ∷ Moderators.headers;
  body = [];
}

abbrev pub stamps : ℕ → String × ℕ
stamps n = ("jti", noon)

abbrev run : Outcome Error ProxiedResponse × Logged
run = handle_xrpc_proxy cr proxy world proofs net request noon stamps start

abbrev pub body_of : Outcome Error ProxiedResponse → List ℕ
body_of (ok r) = r.body
body_of _ = []

-- the second request has the nonce
retried : body_of run.0 ≡ 7 ∷ []
unfolding handle_xrpc_proxy admit forward finish rounds bearer copied returned upstream_url demanded
    create_upstream_dpop_proof proof_claims public_key strip_prefix split trim_end_matches
    trim_start_matches Http.header Http.get validate_downstream_jwt validate_parts check_header
    check_signed claims_of signature_of claims_of_json claims_json Json.get find_field as_str
    extract_dpop_jkt extract_dpop_jkt_and_key compute_jwk_thumbprint_from_json canonical
    ec_canonical member Action.◌>>=◌ Action.map_err Action.ignore statement query execute Table.find
    Table.upsert Table.append Sessions.get_session Tokens.get_active_session
    Tokens.get_session_dpop_key Tokens.get_session_dpop_nonce Tokens.update_session_dpop_nonce
    crypto digits scan encode bytes_of read_json print_json Json-discrete String_discrete ℕ_discrete
retried = refl
