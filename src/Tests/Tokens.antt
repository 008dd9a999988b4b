-- ===== src/Tests/Tokens.antt =====
-- A token, issued and checked.
use native.Mathlib.Decide.{ℕ_discrete}
use istat.Prelude.{some, String, ◌≡◌, refl, inr}
use istat.Text.{split}
use istat.Outcome.{Outcome, Result, ok}
use istat.Oatproxy.Crypto.{Bytes}
use istat.Oatproxy.Auth.{ProxyJwtClaims, check_proxy_jwt, validate_proxy_jwt}
use istat.Oatproxy.Auth.Soundness.{AcceptedHere, validate_proxy_jwt-Accepted}
use istat.Action
use istat.Json
use istat.Json.{find_field, as_str, text, object, field, end, Json}
use istat.Oatproxy.Error.{Error}
use istat.Oatproxy.Jwt.{DownstreamTokenClaims, sign_jwt, claims_json, ◌>>?◌}
use istat.Oatproxy.Jwt.Laws.{claims, verdict}
use istat.Oatproxy.Token.{issue_downstream_jwt, validate_downstream_jwt}
use istat.Oatproxy.Token.RoundTrip.{validate-issue}
use istat.Oatproxy.Token.Soundness.{Accepted, validate-Accepted}
use istat.Oatproxy.Dpop.{compute_jwk_thumbprint_from_json, canonical, ec_canonical, member}
use istat.Oatproxy.Dpop.Thumbprint.{Required, thumbprint-Required}
use istat.Server.Db.{Db}
use istat.Tests.World.{
  crypto, digits, scan, encode, bytes_of, read_json, print_json, Json-discrete, String_discrete,
}
use istat.Tests.Proxy.{server, cr, sound, holds, before, noon, jkt}

abbrev text_of : Outcome Error String → String
text_of (ok t) = t
text_of _ = ""

abbrev issue : Outcome Error String × Db
issue =
    issue_downstream_jwt cr server.token_manager server.key_store "did:plc:ann" jkt "atproto" 3600
      noon before

abbrev jwt : String
jwt =
    "x1000011x1000011.x1000011x1000011x1000011.x001101001001xxxxxxxxxxxxxxxxxxxxxxxxxxxxxxxxxxxxxxxxxxxxxxxxxxxxxxxxxxxxxxx"

abbrev pub the_claims : DownstreamTokenClaims
the_claims = claims "https://p" "did:plc:ann" jkt "atproto" 3700 100

issued : issue ≡ (ok jwt, before)
unfolding issue_downstream_jwt sign_jwt claims_json Action.◌>>=◌ crypto digits scan encode bytes_of
    read_json print_json Json-discrete String_discrete ℕ_discrete
issued = refl

validate-issue_example :
    validate_downstream_jwt cr server.token_manager server.key_store jwt noon before
    ≡ (verdict cr sound "https://p" noon the_claims, before)
validate-issue_example =
    validate-issue cr server.key_store 7 sound holds server.token_manager server.token_manager
      "did:plc:ann" jkt "atproto" 3600 noon noon before before before jwt issued

validate-Accepted_example :
    Accepted cr server.key_store 7 holds server.token_manager jwt noon the_claims
    × (before ≡ before)
validate-Accepted_example =
    validate-Accepted cr server.key_store 7 holds server.token_manager jwt noon the_claims before
      before validate-issue_example

-- the private member is not in the text
abbrev private_key : Json
private_key = object (
    field "kty" (text "EC") (
      field "d" (text "secret")
        (field "crv" (text "P-256") (field "x" (text "1") (field "y" (text "2") end)))))

abbrev key_jkt : String
key_jkt = text_of (compute_jwk_thumbprint_from_json cr private_key)

has_jkt : compute_jwk_thumbprint_from_json cr private_key ≡ ok key_jkt
unfolding compute_jwk_thumbprint_from_json canonical ec_canonical member Json.get find_field as_str
    crypto digits encode bytes_of print_json Json-discrete String_discrete ℕ_discrete
has_jkt = refl

thumbprint-Required_example :
    (kty : String) × (form : Json) × (canonical_json : String) × ((Json.get "kty" private_key
        >>? Json.as_str)
      ≡ some kty)
    × Required private_key kty form
    × (cr.json_to_string form ≡ inr canonical_json)
    × (key_jkt ≡ cr.encode (cr.sha256 (cr.as_bytes canonical_json)))
thumbprint-Required_example = thumbprint-Required cr private_key key_jkt has_jkt

abbrev proxy_claims : ProxyJwtClaims
proxy_claims = record {
  sub = "did:plc:ann";
  iss = "https://p";
  aud = "app";
  iat = 100;
  exp = 3700;
  session_id = "sid-ann";
}

abbrev read_claims : Bytes → Result String ProxyJwtClaims
read_claims bytes = inr proxy_claims

proxy_accepted :
    validate_proxy_jwt cr read_claims jwt server.key_store "https://p" noon before
    ≡ (ok proxy_claims, before)
unfolding validate_proxy_jwt check_proxy_jwt Action.◌>>=◌ split crypto encode bytes_of scan
proxy_accepted = refl

validate_proxy_jwt-Accepted_example :
    AcceptedHere cr read_claims server.key_store jwt "https://p" noon proxy_claims before before
validate_proxy_jwt-Accepted_example =
    validate_proxy_jwt-Accepted cr read_claims server.key_store jwt "https://p" noon proxy_claims
      before before proxy_accepted
