-- ===== src/Oatproxy/Server/Metadata.antt =====
-- jacquard-oatproxy/src/server.rs: the documents that describe the proxy, and its routes.
use istat.Prelude.{String, true, Option, none, some, unwrap_or, List, [], ◌∷◌, map}
use istat.Text.{◌<>◌, trim_end_matches, join_space}
use istat.Outcome.{ok_or}
use istat.Action.{Action, pure, lift, ◌>>=◌}
use istat.Http.{Response, Body}
use istat.Http.StatusCode
use istat.Json.{Json, Items, Fields, text, boolean, array, object, nil, cons, end, field}
use istat.Oatproxy.Error.{Error, invalid_request}
use istat.Oatproxy.Config.{
  GrantType, authorization_code, refresh_token, other_grant, ClientMetadata, ProxyConfig,
}
use istat.Oatproxy.Crypto.{Crypto, Bytes}
use istat.Oatproxy.Store.{KeyStore}

abbrev pub json_response : Json → Response
json_response document = record { status = StatusCode.ok; headers = []; body = Body.json document }

abbrev items : List String → Items
items [] = nil
items (s ∷ ss) = cons (text s) (items ss)

abbrev signing_algs : Json
signing_algs =
    (array (
      cons (text "RS256") (
        cons (text "RS384") (
          cons (text "RS512") (
            cons (text "PS256") (
              cons (text "PS384") (
                cons (text "PS512") (
                  cons (text "ES256")
                    (cons (text "ES256K") (cons (text "ES384") (cons (text "ES512") nil)))))))))))

abbrev base_of : ProxyConfig → String
base_of config = trim_end_matches b'/' config.host

unfoldable pub oauth_metadata : String → Json
oauth_metadata base_url = object (
    field "issuer" (text base_url) (
      field "request_parameter_supported" (boolean true) (
        field "request_uri_parameter_supported" (boolean true) (
          field "require_request_uri_registration" (boolean true) (
            field "scopes_supported"
              (array (
                cons (text "atproto")
                  (cons (text "transition:generic") (cons (text "transition:chat.bsky") nil))))
              (field "subject_types_supported" (array (cons (text "public") nil)) (
                field "response_types_supported" (array (cons (text "code") nil)) (
                  field "response_modes_supported"
                    (array
                      (cons (text "query") (cons (text "fragment") (cons (text "form_post") nil))))
                    (field "grant_types_supported"
                      (array (cons (text "authorization_code") (cons (text "refresh_token") nil)))
                      (field "code_challenge_methods_supported" (array (cons (text "S256") nil)) (
                        field "ui_locales_supported" (array (cons (text "en-US") nil)) (
                          field "display_values_supported"
                            (array
                              (cons (text "page") (cons (text "popup") (cons (text "touch") nil))))
                            (field "authorization_response_iss_parameter_supported" (boolean true) (
                              field "request_object_encryption_alg_values_supported" (array nil) (
                                field "request_object_encryption_enc_values_supported" (array nil) (
                                  field "jwks_uri" (text (base_url <> "/oauth/jwks")) (
                                    field "authorization_endpoint"
                                      (text (base_url <> "/oauth/authorize"))
                                      (field "token_endpoint" (text (base_url <> "/oauth/token")) (
                                        field "token_endpoint_auth_methods_supported"
                                          (array (
                                            cons (text "none") (cons (text "private_key_jwt") nil)))
                                          (field "revocation_endpoint"
                                            (text (base_url <> "/oauth/revoke"))
                                            (field "introspection_endpoint"
                                              (text (base_url <> "/oauth/introspect"))
                                              (field "pushed_authorization_request_endpoint"
                                                (text (base_url <> "/oauth/par"))
                                                (field "require_pushed_authorization_requests"
                                                  (boolean true)
                                                  (field "client_id_metadata_document_supported"
                                                    (boolean true)
                                                    (field
                                                      "request_object_signing_alg_values_supported"
                                                      (array (
                                                        cons (text "RS256") (
                                                          cons (text "RS384") (
                                                            cons (text "RS512") (
                                                            cons (text "PS256") (
                                                            cons (text "PS384") (
                                                            cons (text "PS512") (
                                                            cons (text "ES256") (
                                                            cons (text "ES256K") (
                                                            cons (text "ES384") (
                                                            cons (text "ES512")
                                                            (cons (text "none") nil))))))))))))
                                                      (field
                                                        "token_endpoint_auth_signing_alg_values_supported"
                                                        signing_algs
                                                        (field "dpop_signing_alg_values_supported"
                                                          signing_algs
                                                          end)))))))))))))))))))))))))))

abbrev pub handle_oauth_metadata : ProxyConfig → Response
handle_oauth_metadata config = json_response (oauth_metadata (base_of config))

unfoldable pub protected_resource_metadata : String → Json
protected_resource_metadata base_url = object (
    field "resource" (text base_url) (
      field "authorization_servers" (array (cons (text base_url) nil)) (
        field "scopes_supported" (array nil) (
          field "bearer_methods_supported" (array (cons (text "header") nil))
            (field "resource_documentation" (text (base_url <> "/xrpc")) end)))))

abbrev pub handle_protected_resource_metadata : ProxyConfig → Response
handle_protected_resource_metadata config =
    json_response (protected_resource_metadata (base_of config))

abbrev grant_text : GrantType → String
grant_text authorization_code = "authorization_code"
grant_text refresh_token = "refresh_token"
grant_text other_grant = "unknown"

-- a field that is left out where the option is empty
abbrev optional_field : String → Option String → Fields → Fields
optional_field key none rest = rest
optional_field key (some s) rest = field key (text s) rest

unfoldable pub client_metadata_document : ClientMetadata → Json
client_metadata_document metadata = object (
    field "client_id" (text metadata.client_id) (
      field "application_type" (text "web") (
        field "grant_types" (array (items (map grant_text metadata.grant_types))) (
          field "scope" (text (join_space metadata.scopes)) (
            field "response_types" (array (cons (text "code") nil)) (
              field "redirect_uris" (array (items metadata.redirect_uris)) (
                field "token_endpoint_auth_method" (text "private_key_jwt") (
                  field "token_endpoint_auth_signing_alg" (text "ES256") (
                    field "dpop_bound_access_tokens" (boolean true) (
                      field "jwks_uri" (text (unwrap_or metadata.jwks_uri "")) (
                        field "client_name" (text (unwrap_or metadata.client_name "")) (
                          field "client_uri" (text (unwrap_or metadata.client_uri "")) (
                            optional_field "logo_uri" metadata.logo_uri
                              (optional_field "tos_uri" metadata.tos_uri end))))))))))))))

abbrev pub handle_client_metadata : ProxyConfig → Response
handle_client_metadata config = json_response (client_metadata_document config.client_metadata)

module _ {K V G : Type 0} (c : Crypto K V G) where
  unfoldable pub jwks : Bytes → Bytes → Json
  jwks x y = object (
      field "keys"
        (array (
          cons
            (object (
              field "kty" (text "EC") (
                field "crv" (text "P-256") (
                  field "x" (text (c.encode x)) (
                    field "y" (text (c.encode y)) (
                      field "use" (text "sig") (
                        field "alg" (text "ES256")
                          (field "kid" (text "proxy-signing-key") end))))))))
            nil))
        end)

module _ {K V G J S : Type 0} (c : Crypto K V G)
    (x_coordinate y_coordinate : V → Option Bytes) where
  unfoldable pub handle_jwks : KeyStore K J S → Action Error S Response
  handle_jwks key_store = do
    signing_key ← key_store.get_signing_key
    let verifying_key = c.verifying_key signing_key
    px ← lift (ok_or (x_coordinate verifying_key) (invalid_request "missing x coordinate"))
    py ← lift (ok_or (y_coordinate verifying_key) (invalid_request "missing y coordinate"))
    pure (json_response (jwks c px py))
