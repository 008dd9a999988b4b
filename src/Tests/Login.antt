-- ===== src/Tests/Login.antt =====
-- One login, from the upstream callback to the client's token.
use native.Mathlib.Decide.{ℕ_discrete}
use istat.Prelude.{String, ◌≡◌, refl, none, some}
use istat.Text.{trim_end_matches, split, contains}
use istat.Outcome.{Outcome, ok}
use istat.Action
use istat.Table
use istat.Json.{find_field, as_str}
use istat.Json
use istat.Http
use istat.Http.{Response}
use istat.Oatproxy.Jwt.{sign_jwt, claims_json}
use istat.Oatproxy.Token.{issue_downstream_jwt}
use istat.Oatproxy.Dpop.{
  member, ec_canonical, canonical, compute_jwk_thumbprint, compute_jwk_thumbprint_from_json,
  extract_dpop_jkt, extract_dpop_jkt_and_key,
}
use istat.Oatproxy.Server.Requests.{redirect, TokenResponse}
use istat.Oatproxy.Server.Return.{handle_return, store_dpop_key, issue_code}
use istat.Oatproxy.Server.Token.{
  handle_token, grant, authorization_code_grant, refresh_token_grant, issue_tokens,
}
use istat.Server.Db.{Db}
use istat.Server.Sql.{statement, query, execute, insert}
use istat.Server.SqliteStore.Flow
use istat.Server.SqliteStore.Tokens
use istat.Server.SqliteStore.Sessions
use istat.Tests.World.{
  crypto, digits, scan, encode, bytes_of, read_json, print_json, Json-discrete, String_discrete,
}
use istat.Oatproxy.Error.{Error}
use istat.Oatproxy.Server.Requests.{token_response}
use istat.Oatproxy.Server.Return.Codes.{KeepsFlow, login-token}
use istat.Oatproxy.Server.Token.Grants.{Granted, Exchanged}
use istat.Oatproxy.Server.Token.Codes.{
  AsksCode, AsksRefresh, handle_token-exchange, handle_token-refresh, code_used_once,
}
use istat.Server.SqliteStore.View.{view}
use istat.Tests.Proxy.{
  sqlite, sound, holds, laws, auth, exchange, server, ext, cr, before, callback, headers, noon, jkt,
}

abbrev response : Outcome Error Response → Response
response (ok r) = r
response _ = redirect "nowhere"

abbrev after_return : Db
after_return = (handle_return cr server ext callback "c1" noon before).1

abbrev back_to_client : Response
back_to_client = redirect "app://back#code=c1&state=s&iss=https://p"

returned : handle_return cr server ext callback "c1" noon before ≡ (ok back_to_client, after_return)
unfolding handle_return store_dpop_key issue_code compute_jwk_thumbprint
    compute_jwk_thumbprint_from_json canonical ec_canonical member Json.get find_field as_str
    Action.◌>>=◌ Action.map_err Flow.consume_downstream_client_info Flow.take_row Flow.consume_row
    Flow.store_pending_auth Tokens.store_session_dpop_key statement query execute insert Table.find
    Table.upsert Table.delete Table.append crypto digits scan encode bytes_of read_json print_json
    Json-discrete String_discrete trim_end_matches
returned = refl

abbrev first_exchange : Outcome Error Response × Db
first_exchange = handle_token cr server ext headers "exchange" "r1" noon after_return

exchanged : first_exchange ≡ (ok (response first_exchange.0), first_exchange.1)
unfolding handle_return store_dpop_key issue_code compute_jwk_thumbprint
    compute_jwk_thumbprint_from_json canonical ec_canonical member Json.get find_field as_str
    Action.◌>>=◌ Action.map_err Flow.consume_downstream_client_info Flow.take_row Flow.consume_row
    Flow.store_pending_auth Tokens.store_session_dpop_key statement query execute insert Table.find
    Table.upsert Table.delete Table.append crypto digits scan encode bytes_of read_json print_json
    Json-discrete String_discrete trim_end_matches handle_token grant authorization_code_grant
    refresh_token_grant issue_tokens extract_dpop_jkt extract_dpop_jkt_and_key split Http.header
    Http.get issue_downstream_jwt sign_jwt claims_json Sessions.get_session Sessions.upsert_session
    Tokens.store_refresh_token_mapping Tokens.get_refresh_token_mapping Tokens.store_active_session
    contains Flow.consume_pending_auth ℕ_discrete
exchanged = refl

abbrev renewal : Outcome Error Response × Db
renewal = handle_token cr server ext headers "refresh" "r2" noon first_exchange.1

renewed : renewal ≡ (ok (response renewal.0), renewal.1)
unfolding handle_return store_dpop_key issue_code compute_jwk_thumbprint
    compute_jwk_thumbprint_from_json canonical ec_canonical member Json.get find_field as_str
    Action.◌>>=◌ Action.map_err Flow.consume_downstream_client_info Flow.take_row Flow.consume_row
    Flow.store_pending_auth Tokens.store_session_dpop_key statement query execute insert Table.find
    Table.upsert Table.delete Table.append crypto digits scan encode bytes_of read_json print_json
    Json-discrete String_discrete trim_end_matches handle_token grant authorization_code_grant
    refresh_token_grant issue_tokens extract_dpop_jkt extract_dpop_jkt_and_key split Http.header
    Http.get issue_downstream_jwt sign_jwt claims_json Sessions.get_session Sessions.upsert_session
    Tokens.store_refresh_token_mapping Tokens.get_refresh_token_mapping Tokens.store_active_session
    contains Flow.consume_pending_auth ℕ_discrete
renewed = refl

asks : AsksCode cr server ext headers "exchange" "c1"
unfolding Http.get
asks = (exchange, refl, refl, refl)

asks_refresh : AsksRefresh cr server ext headers "refresh" "r1"
unfolding Http.get
asks_refresh = (istat.Tests.Proxy.renewal, refl, refl, refl)

flow : KeepsFlow ext (view sqlite)
flow p s = refl

login-token_example :
    (d : String) × (r : TokenResponse) × ((ext.callback
        (record { code = "up"; state = some "st"; iss = none })
        before).0
      ≡ ok d)
    × (response first_exchange.0 ≡ token_response r)
    × (r.sub ≡ ext.account_did d)
    × ((view sqlite first_exchange.1).refresh "r1" ≡ some (ext.account_did d, ext.session_id d))
    × ((view sqlite first_exchange.1).active (ext.account_did d) ≡ some (ext.session_id d))
login-token_example =
    login-token cr server ext (view sqlite) sound 7 holds laws auth flow callback "up" "st" "c1"
      noon noon before after_return after_return first_exchange.1 back_to_client
      (response first_exchange.0) headers "exchange" "r1" refl refl asks returned refl exchanged

code_used_once_example : ¬ (
    handle_token cr server ext headers "exchange" "r9" noon first_exchange.1
    ≡ (ok (response first_exchange.0), first_exchange.1))
code_used_once_example =
    code_used_once cr server ext (view sqlite) sound 7 holds laws auth headers headers "exchange"
      "exchange" "c1" "r1" "r9" noon noon after_return first_exchange.1 first_exchange.1
      first_exchange.1 (response first_exchange.0) (response first_exchange.0) asks asks exchanged
      refl

handle_token-exchange_example :
    (r : TokenResponse) × (jkt' : String) × (response first_exchange.0 ≡ token_response r)
    × (extract_dpop_jkt cr ext.jwk_from_value headers ≡ ok jkt')
    × Exchanged cr server ext
        (view sqlite)
        sound
        jkt'
        "c1"
        "r1"
        noon
        (view sqlite after_return)
        (view sqlite first_exchange.1)
        r
handle_token-exchange_example =
    handle_token-exchange cr server ext (view sqlite) sound 7 holds laws auth headers "exchange"
      "c1" "r1" noon after_return first_exchange.1 (response first_exchange.0) asks exchanged

handle_token-refresh_example :
    (r : TokenResponse) × (jkt' : String) × (did : String) × (sid : String) × (response renewal.0
      ≡ token_response r)
    × (extract_dpop_jkt cr ext.jwk_from_value headers ≡ ok jkt')
    × ((view sqlite first_exchange.1).refresh "r1" ≡ some (did, sid))
    × ((view sqlite renewal.1).refresh "r1" ≡ some (did, sid))
    × ((view sqlite renewal.1).refresh "r2" ≡ some (did, sid))
    × Granted cr server ext
        (view sqlite)
        sound
        jkt'
        did
        sid
        "r2"
        noon
        (view sqlite first_exchange.1)
        (view sqlite renewal.1)
        r
handle_token-refresh_example =
    handle_token-refresh cr server ext (view sqlite) sound 7 holds laws auth headers "refresh" "r1"
      "r2" noon first_exchange.1 renewal.1 (response renewal.0) asks_refresh renewed
