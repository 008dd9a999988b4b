-- ===== src/Tests/Pushes.antt =====
-- A request, pushed and used.
use istat.Prelude.{String, Bool, true, false, ◌≡◌, refl, ap, none, some, inr, [], ◌∷◌}
use istat.Text.{split_whitespace}
use istat.Outcome.{Outcome, ok, err, panic}
use istat.Action
use istat.Table
use istat.Http
use istat.Http.{HeaderMap, Response}
use istat.Oatproxy.Error.{Error}
use istat.Oatproxy.Store.{ParData, PendingAuth}
use istat.Oatproxy.Server.Requests.{AuthorizeParams}
use istat.Oatproxy.Server.Push.{
  PushExternals, DpopError, replayed, ParRequest, validate_params, insert_once, pushed_response,
  par_data_of,
}
use istat.Oatproxy.Server.Par.{handle_par, verify_proof, store_push, request_uri_of, client_info_of}
use istat.Oatproxy.Server.Par.Pushed.{ChecksReplay, Pushed, handle_par-ok}
use istat.Oatproxy.Server.Par.Flow.{Authorized, proof_used_once, push-authorize}
use istat.Oatproxy.Server.Authorize.{handle_authorize, authorization, of_request_uri, start}
use istat.Server.Db.{Db}
use istat.Server.Sql.{statement, query, execute, insert}
use istat.Server.SqliteStore.Flow
use istat.Server.SqliteStore.Tokens
use istat.Oatproxy.Server.Token.{handle_revoke}
use istat.Server.SqliteStore.Once.{Once, calm, stored-Once}
use istat.Server.SqliteStore.Revoke.{Refused, over_sqlite, handle_revoke-Refused}
use istat.Server.SqliteStore.View.{view}
use istat.Tests.World.{digits, scan}
use istat.Tests.Proxy.{cr, server, ext, sqlite, laws, sqlite-RoundTrips, before, noon, headers}
use istat.Tests.Requests.{keeps, to_pds}

abbrev request : ParRequest
request = record {
  client_id = "app";
  redirect_uri = "app://back";
  response_type = "code";
  state = some "s";
  scope = some "atproto";
  code_challenge = some "ch";
  code_challenge_method = some "S256";
  login_hint = some "ann.example";
}

-- a verifier that asks the replay store and no more
abbrev decide : Outcome DpopError Bool × Db → Outcome DpopError String × Db
decide (ok true, s) = (ok "jkt-1", s)
decide (ok false, s) = (err replayed, s)
decide (err e, s) = (err e, s)
decide (panic, s) = (panic, s)

abbrev push_ext : PushExternals Db
push_ext = record {
  verify = λ insert v proof uri verb s. decide (insert (1 ∷ []) s);
  dpop_error_text = λ e. "replayed";
  hex_encode = λ bytes. "01";
  par_request_of_json = λ body. inr request;
  par_request_of_form = λ body. inr request;
}

decide-ok :
    (r : Outcome DpopError Bool × Db) (jkt : String) (s' : Db)
    → decide r ≡ (ok jkt, s')
    → r ≡ (ok true, s')
decide-ok (ok true, s) jkt s' h = ap (λ (q : Outcome DpopError String × Db). (ok true, q.1)) h
decide-ok (ok false, s) jkt s' h = absurd (cc h)
decide-ok (err e, s) jkt s' h = absurd (cc h)
decide-ok (panic, s) jkt s' h = absurd (cc h)

checks : ChecksReplay push_ext
checks = record {
  jti_hash = λ proof. 1 ∷ [];
  inserts = λ insert v proof uri verb jkt s s' h. decide-ok _ jkt s' h;
}

looks :
    (jkt : String) (s : Db)
    → view sqlite (server.session_store.get_by_dpop_jkt jkt s).1 ≡ view sqlite s
unfolding Tokens.get_by_dpop_jkt
looks jkt s = refl

abbrev pushed : Outcome Error Response × Db
pushed = handle_par server push_ext headers "" "r" noon before

abbrev answer : Response
answer = pushed_response (request_uri_of "r")

accepted : pushed ≡ (ok answer, pushed.1)
unfolding handle_par verify_proof store_push validate_params insert_once Action.◌>>=◌ Action.map_err
    Tokens.check_and_consume_nonce Tokens.nonce_result Tokens.get_by_dpop_jkt Flow.store_par_data
    Flow.store_downstream_client_info statement query execute insert Table.find Table.upsert
    Table.append digits scan Http.header Http.get
accepted = refl

handle_par-ok_example :
    Pushed server push_ext
      (view sqlite)
      checks
      headers
      ""
      "r"
      noon
      before
      (view sqlite pushed.1)
      answer
handle_par-ok_example =
    handle_par-ok server push_ext (view sqlite) checks laws looks headers "" "r" noon before
      pushed.1 answer accepted

proof_used_once_example :
    ¬ (handle_par server push_ext headers "" "q" noon pushed.1 ≡ (ok answer, pushed.1))
unfolding Http.header
proof_used_once_example =
    proof_used_once server push_ext ext (view sqlite) checks laws looks headers headers "" "" "r"
      "q" ".x.x" noon noon before pushed.1 pushed.1 pushed.1 answer answer refl refl accepted refl

abbrev params : AuthorizeParams
params = record {
  client_id = none;
  redirect_uri = none;
  response_type = none;
  state = none;
  scope = none;
  request_uri = some (request_uri_of "r");
}

abbrev run : Outcome Error Response × Db
run = handle_authorize server ext params "p1" noon noon pushed.1

redirected : run ≡ (ok to_pds, run.1)
unfolding handle_authorize authorization of_request_uri start handle_par verify_proof store_push
    validate_params insert_once Action.◌>>=◌ Action.map_err Tokens.check_and_consume_nonce
    Tokens.nonce_result Tokens.get_by_dpop_jkt Flow.store_par_data Flow.consume_par_data
    Flow.take_row Flow.consume_row Flow.store_downstream_client_info statement query execute insert
    Table.find Table.upsert Table.delete Table.append digits scan split_whitespace Http.header
    Http.get
redirected = refl

push-authorize_example :
    Authorized server push_ext ext
      (view sqlite)
      checks
      headers
      ""
      "r"
      "p1"
      noon
      noon
      noon
      before
      (view sqlite pushed.1)
      answer
      pushed.1
      (view sqlite run.1)
      to_pds
push-authorize_example =
    push-authorize server push_ext ext (view sqlite) checks laws looks keeps headers "" "r" "p1"
      params noon noon noon before pushed.1 pushed.1 run.1 answer to_pds accepted refl refl
      redirected

handle_revoke-Refused_example :
    Refused (handle_revoke cr (over_sqlite cr server ext sqlite "now") ext headers "" before) before
handle_revoke-Refused_example = handle_revoke-Refused cr server ext sqlite "now" headers "" before

abbrev par : ParData
par = par_data_of request "jkt-1" noon

abbrev auth : PendingAuth
auth = record {
  account_did = "did:plc:ann";
  upstream_session_id = "sid-ann";
  redirect_uri = "app://back";
  state = none;
  expires_at = noon;
}

stored-Once_example :
    Once
      (Flow.store_pending_auth sqlite "k" auth)
      (Flow.consume_pending_auth sqlite "k")
      auth
      (calm before)
    × Once
        (Flow.store_downstream_client_info sqlite "k" (client_info_of par))
        (Flow.consume_downstream_client_info sqlite "k")
        (client_info_of par)
        (calm before)
    × Once (Flow.store_par_data sqlite "k" par) (Flow.consume_par_data sqlite "k") par (calm before)
unfolding Table.find
stored-Once_example =
    stored-Once sqlite sqlite-RoundTrips "k" auth (client_info_of par) par before refl refl
