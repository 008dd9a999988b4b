-- ===== src/Server/Jetstream/Hydrate.antt =====
-- server/src/jetstream.rs, `hydrate_profile`. The time that the row is stamped with is an argument.
use istat.Prelude.{String, Option, none, some}
use istat.Text.{◌<>◌, strip_prefix}
use istat.Json
use istat.Json.{Json, text, object, field, end, nullable}
use istat.Action
use istat.Action.{Action, pure, ◌>>=◌, ◌>>◌}
use istat.Table.{string_key, find, append}
use istat.Oatproxy.Jwt.{◌>>?◌}
use istat.Server.Db.{Db, ProfileRow}
use istat.Server.Sql.{query, insert}
use istat.Server.Moderation.{on_app}
use istat.Server.Jetstream.{Externals, IngestError, sqlx}

unfoldable pub profile_json : String → ProfileRow → Json
profile_json did row = object (
    field "did" (text did) (
      field "handle" (nullable row.handle) (
        field "display_name" (nullable row.display_name) (
          field "description" (nullable row.description) (
            field "avatar_cid" (nullable row.avatar_cid) (
              field "banner_cid" (nullable row.banner_cid) (
                field "pronouns" (nullable row.pronouns) (
                  field "website" (nullable row.website)
                    (field "created_at" (nullable row.created_at) end)))))))))

-- `record.get(name).and_then(|v| v.as_str())`
abbrev pub text_at : String → Json → Option String
text_at name record_json = Json.get name record_json >>? Json.as_str

-- the link of the blob that stands there
abbrev pub link_at : String → Json → Option String
link_at name record_json =
    Json.get name record_json >>? Json.get "ref" >>? Json.get "$link" >>? Json.as_str

-- the handle that a DID document names first
unfoldable pub handle_of : Json → Option String
handle_of did_doc =
    Json.get "alsoKnownAs" did_doc >>? Json.first >>? Json.as_str >>? strip_prefix "at://"

unfoldable pub profile_row : Option String → Json → String → ProfileRow
profile_row handle record_json now = record {
  handle = handle;
  display_name = text_at "displayName" record_json;
  description = text_at "description" record_json;
  avatar_cid = link_at "avatar" record_json;
  banner_cid = link_at "banner" record_json;
  pronouns = text_at "pronouns" record_json;
  website = text_at "website" record_json;
  created_at = text_at "createdAt" record_json;
  updated_at = now;
  account_status = "active";
  account_status_updated_at = none;
  last_seen_at = some now;
}

module _ (x : Externals) where
  -- the handle and the record that the network has
  unfoldable pub fetched : String → String → Option ProfileRow
  fetched did now =
      x.fetch (
        "https://public.api.bsky.app/xrpc/com.atproto.repo.getRecord?repo=" <> did
        <> "&collection=app.bsky.actor.profile&rkey=self")
      >>? Json.get "value"
      >>? λ record_json.
          some
            (profile_row (x.fetch ("https://plc.directory/" <> did) >>? handle_of) record_json now)

  unfoldable pub store_fetched : String → Option ProfileRow → Action IngestError Db (Option Json)
  store_fetched did none = pure none
  store_fetched did (some row) = do
    Action.map_err sqlx (
        insert (λ db. find did db.app.profiles)
          (on_app (λ app. record app { profiles = append did row app.profiles })))
    pure (some (profile_json did row))

  unfoldable pub hydrate_missing :
      String → String → Option ProfileRow → Action IngestError Db (Option Json)
  hydrate_missing did now none = store_fetched did (fetched did now)
  hydrate_missing did now (some row) = pure (some (profile_json did row))

  unfoldable pub hydrate_profile : String → String → Action IngestError Db (Option Json)
  hydrate_profile did now = do
    existing ← Action.map_err sqlx (query (λ db. find did db.app.profiles))
    hydrate_missing did now existing
