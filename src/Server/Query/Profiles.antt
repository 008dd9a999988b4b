-- ===== src/Server/Query/Profiles.antt =====
-- server/src/xrpc/mod.rs: the DID of a handle, and profiles.
use istat.Prelude.{ℕ, String, Option, is_some, if◌then◌else◌}
use istat.Text.{strip_prefix}
use istat.Outcome.{Outcome, ok, ok_or}
use istat.Outcome
use istat.Action.{Action, lift, ◌>>=◌}
use istat.Http.StatusCode
use istat.Table.{string_key, find}
use istat.Server.Db.{Db, ProfileRow}
use istat.Server.Sql.{query}
use istat.Server.Moderation.{sql}
use istat.Server.Query.{QueryExternals, resolve, raw_option, has_time, keep_if}
use istat.Server.Query.Statuses.{avatar_url}

pub record GetProfileOutput : Type 0 where
  pub did : String
  pub handle : String
  pub display_name : Option String
  pub description : Option String
  pub avatar : Option String
  pub banner : Option String
  pub pronouns : Option String
  pub website : Option String
  pub created_at : Option String

module _ (x : QueryExternals) where
  unfoldable pub handle_resolve : String → Outcome ℕ String
  handle_resolve handle =
      Outcome.◌>>=◌ (resolve x handle)
        (λ did. ok_or (x.parse_did did) StatusCode.internal_server_error)

  unfoldable pub did_of_actor : String → Outcome ℕ String
  did_of_actor actor = if is_some (strip_prefix "did:" actor) then ok actor else resolve x actor

  unfoldable pub profile_output : String → ProfileRow → Outcome ℕ GetProfileOutput
  profile_output did row =
      Outcome.◌>>=◌ (ok_or row.handle StatusCode.internal_server_error) (λ stored_handle.
        Outcome.◌>>=◌ (ok_or (x.parse_did did) StatusCode.internal_server_error) (λ parsed_did.
          Outcome.◌>>=◌ (ok_or (x.parse_handle stored_handle) StatusCode.internal_server_error)
            (λ handle. Outcome.◌>>=◌ (raw_option x (keep_if has_time row.created_at)) (λ created_at.
              ok (record {
                did = parsed_did;
                handle = handle;
                display_name = row.display_name;
                description = row.description;
                avatar = avatar_url did row.avatar_cid;
                banner = avatar_url did row.banner_cid;
                pronouns = row.pronouns;
                website = row.website;
                created_at = created_at;
              })))))

  unfoldable pub handle_get_profile : String → Action ℕ Db GetProfileOutput
  handle_get_profile actor = do
    did ← lift (did_of_actor actor)
    found ← sql (query λ db. find did db.app.profiles)
    row ← lift (ok_or found StatusCode.not_found)
    lift (profile_output did row)
