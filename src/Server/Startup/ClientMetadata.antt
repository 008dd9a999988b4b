-- ===== src/Server/Startup/ClientMetadata.antt =====
-- server/src/main.rs: the metadata document of the web client, from the public URL.
use istat.Prelude.{String, true}
use istat.Text.{◌<>◌}
use istat.Json.{Json, text, boolean, array, object, nil, cons, end, field}

unfoldable pub handle_client_metadata : String → Json
handle_client_metadata public_url = object (
    field "client_id" (text (public_url <> "/client-metadata.json")) (
      field "client_name" (text "iStat Web Client") (
        field "client_uri" (text public_url) (
          field "redirect_uris" (array (cons (text (public_url <> "/oauth/callback")) nil)) (
            field "scope" (text "atproto transition:generic") (
              field "grant_types"
                (array (cons (text "authorization_code") (cons (text "refresh_token") nil)))
                (field "response_types" (array (cons (text "code") nil)) (
                  field "application_type" (text "web") (
                    field "token_endpoint_auth_method" (text "none")
                      (field "dpop_bound_access_tokens" (boolean true) end))))))))))
