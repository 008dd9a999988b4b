-- ===== src/Tests/Listings.antt =====
-- The listings after a moderator's request.
use native.Mathlib.Decide.{ℕ_discrete}
use istat.Prelude.{◌≢◌, [], ◌≤◌, ℕ, String, Bool, true, ◌≡◌, refl, none, List, In, length, arith}
use istat.Outcome.{Outcome, ok}
use istat.Action
use istat.Json
use istat.Json.{find_field, as_str}
use istat.Table
use istat.Text.{contains_char, split, strip_prefix, trim_start, trim_end}
use istat.Text.Order.{leq}
use istat.Http
use istat.Oatproxy.Auth.{extract_bearer_token}
use istat.Oatproxy.Jwt.{
  claims_json, claims_of_json, check_header, check_signed, claims_of, signature_of,
}
use istat.Oatproxy.Token.{validate_downstream_jwt, validate_parts}
use istat.Server.Db.{Db}
use istat.Server.Sql.{statement, query, execute, insert_checked}
use istat.Server.Select.{order_by_desc, take, filter_map}
use istat.Server.Moderation.{
  token_of, admin_dids, add_admin, extract_authenticated_did, is_admin, require_admin,
  log_audit_action,
}
use istat.Server.Moderation.Rights.{Authenticated}
use istat.Server.Moderation.Blacklist.{BlacklistCidRequest, blacklist_cid, handle_blacklist_cid}
use istat.Server.Moderation.Listing.{
  BlacklistedCidView, handle_list_blacklisted, handle_list_audit_log,
}
use istat.Server.Moderation.Listing.Reported.{blacklist-listed, blacklist-unlists_log}
use istat.Tests.World.{
  crypto, digits, scan, encode, bytes_of, read_json, print_json, Json-discrete, String_discrete,
}
use istat.Tests.Proxy.{cr, noon, before}
use istat.Tests.Moderators.{state, headers, keeps_key}
use istat.Tests.Queries.{x, views}

abbrev request : BlacklistCidRequest
request = record { cid = "bafy1"; reason = "spam"; reason_details = none; content_type = "avatar" }

abbrev admitted : Outcome ℕ String × Db
admitted = require_admin cr state headers noon "2025-11-26 12:00:00" before

abbrev done : Outcome ℕ Bool × Db
done = handle_blacklist_cid cr state headers request noon "t1" before

abbrev stamped : Outcome ℕ Bool × Db
stamped = handle_blacklist_cid cr state headers request noon "2025-11-26 12:00:00" before

abbrev shown : Outcome ℕ (List BlacklistedCidView) × Db
shown = handle_list_blacklisted cr state headers noon "t2" done.1

is_admitted : admitted ≡ (ok "did:plc:ann", admitted.1)
unfolding require_admin extract_authenticated_did is_admin admin_dids add_admin log_audit_action
    token_of extract_bearer_token strip_prefix split trim_start trim_end Http.header
    validate_downstream_jwt validate_parts check_header check_signed claims_of signature_of
    claims_of_json claims_json Json.get find_field as_str Action.◌>>=◌ Action.map_err statement
    query execute insert_checked Table.find Table.append crypto digits scan encode bytes_of
    read_json print_json Json-discrete String_discrete ℕ_discrete
is_admitted = refl

is_done : done ≡ (ok true, done.1)
unfolding handle_blacklist_cid blacklist_cid require_admin extract_authenticated_did is_admin
    admin_dids add_admin log_audit_action token_of extract_bearer_token strip_prefix split
    trim_start trim_end Http.header validate_downstream_jwt validate_parts check_header check_signed
    claims_of signature_of claims_of_json claims_json Json.get find_field as_str Action.◌>>=◌
    Action.map_err statement query execute insert_checked Table.find Table.append crypto digits scan
    encode bytes_of read_json print_json Json-discrete String_discrete ℕ_discrete
is_done = refl

is_shown : shown ≡ (ok (views shown.0), shown.1)
unfolding handle_blacklist_cid blacklist_cid require_admin extract_authenticated_did is_admin
    handle_list_blacklisted order_by_desc take filter_map leq admin_dids add_admin log_audit_action
    token_of extract_bearer_token strip_prefix split trim_start trim_end Http.header
    validate_downstream_jwt validate_parts check_header check_signed claims_of signature_of
    claims_of_json claims_json Json.get find_field as_str Action.◌>>=◌ Action.map_err statement
    query execute insert_checked Table.find Table.append crypto digits scan encode bytes_of
    read_json print_json Json-discrete String_discrete ℕ_discrete
is_shown = refl

is_stamped : stamped ≡ (ok true, stamped.1)
unfolding handle_blacklist_cid blacklist_cid require_admin extract_authenticated_did is_admin
    admin_dids add_admin log_audit_action token_of extract_bearer_token strip_prefix split
    trim_start trim_end Http.header validate_downstream_jwt validate_parts check_header check_signed
    claims_of signature_of claims_of_json claims_json Json.get find_field as_str Action.◌>>=◌
    Action.map_err statement query execute insert_checked Table.find Table.append crypto digits scan
    encode bytes_of read_json print_json Json-discrete String_discrete ℕ_discrete
is_stamped = refl

few : length stamped.1.app.audit_log ≤ 100
unfolding handle_blacklist_cid blacklist_cid require_admin extract_authenticated_did is_admin
    admin_dids add_admin log_audit_action token_of extract_bearer_token strip_prefix split
    trim_start trim_end Http.header validate_downstream_jwt validate_parts check_header check_signed
    claims_of signature_of claims_of_json claims_json Json.get find_field as_str Action.◌>>=◌
    Action.map_err statement query execute insert_checked Table.find Table.append crypto digits scan
    encode bytes_of read_json print_json Json-discrete String_discrete ℕ_discrete
few = omega arith

blacklist-listed_example :
    (m : String) × Authenticated cr state 7 keeps_key headers noon m
    × In
        (record {
          cid = "bafy1";
          reason = "spam";
          reason_details = none;
          content_type = "avatar";
          moderator_did = m;
          blacklisted_at = "t1";
        })
        (views shown.0)
unfolding handle_blacklist_cid blacklist_cid require_admin extract_authenticated_did is_admin
    admin_dids add_admin log_audit_action token_of extract_bearer_token strip_prefix split
    trim_start trim_end Http.header validate_downstream_jwt validate_parts check_header check_signed
    claims_of signature_of claims_of_json claims_json Json.get find_field as_str Action.◌>>=◌
    Action.map_err statement query execute insert_checked Table.find Table.append crypto digits scan
    encode bytes_of read_json print_json Json-discrete String_discrete ℕ_discrete
blacklist-listed_example =
    blacklist-listed cr state 7 keeps_key headers headers request noon noon "t1" "t2" before done.1
      shown.1 (views shown.0) is_done is_shown (omega arith)

blacklist-unlists_log_example :
    handle_list_audit_log cr state x headers noon "2025-11-26 12:00:01" stamped.1
    ≢ (ok [], stamped.1)
unfolding contains_char
blacklist-unlists_log_example =
    blacklist-unlists_log cr state 7 keeps_key x headers headers request noon noon
      "2025-11-26 12:00:00" "2025-11-26 12:00:01" "did:plc:ann" "did:plc:ann" before admitted.1
      stamped.1 stamped.1 [] is_admitted refl is_stamped few refl
