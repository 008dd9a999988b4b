-- ===== src/Tests/Requests.antt =====
-- A pushed request, used.
use istat.Prelude.{◌≡◌, refl, none, some}
use istat.Outcome.{Outcome, ok}
use istat.Action
use istat.Table
use istat.Text.{split_whitespace}
use istat.Http.{Response}
use istat.Oatproxy.Error.{Error}
use istat.Oatproxy.Server.Requests.{AuthorizeParams, redirect}
use istat.Oatproxy.Server.Authorize.{handle_authorize, authorization, of_request_uri, start}
use istat.Oatproxy.Server.Authorize.RequestUri.{
  Started, KeepsView, handle_authorize-ok, request_uri_used_once,
}
use istat.Server.Db.{Db}
use istat.Server.Sql.{statement, query, execute, insert}
use istat.Server.SqliteStore.Flow
use istat.Server.SqliteStore.View.{view}
use istat.Tests.World.{digits, scan}
use istat.Tests.Proxy.{server, ext, sqlite, laws, before, noon}

abbrev params : AuthorizeParams
params = record {
  client_id = none;
  redirect_uri = none;
  response_type = none;
  state = none;
  scope = none;
  request_uri = some "urn:1";
}

abbrev run : Outcome Error Response × Db
run = handle_authorize server ext params "p1" noon noon before

abbrev pub to_pds : Response
to_pds = redirect "https://pds/authorize"

redirected : run ≡ (ok to_pds, run.1)
unfolding handle_authorize authorization of_request_uri start Action.◌>>=◌ Action.map_err
    Flow.consume_par_data Flow.take_row Flow.consume_row Flow.store_downstream_client_info statement
    query execute insert Table.find Table.upsert Table.delete digits scan split_whitespace
redirected = refl

pub keeps : KeepsView ext (view sqlite)
keeps hint o s = refl

handle_authorize-ok_example :
    Started server ext (view sqlite) "urn:1" "p1" noon noon before (view sqlite run.1) to_pds
handle_authorize-ok_example =
    handle_authorize-ok server ext (view sqlite) laws keeps params "urn:1" "p1" noon noon before
      run.1 to_pds refl redirected

request_uri_used_once_example :
    ¬ (handle_authorize server ext params "p2" noon noon run.1 ≡ (ok to_pds, run.1))
request_uri_used_once_example =
    request_uri_used_once server ext (view sqlite) laws keeps params params "urn:1" "p1" "p2" noon
      noon noon noon before run.1 run.1 run.1 to_pds to_pds refl refl redirected refl
