-- ===== src/Server/Invariant/Events.antt =====
-- Each ingestor keeps the tables valid, however it ends.
use istat.Prelude.{String, refl, Option, none, some}
use istat.Action.{Keeps, Keeps-pure, Keeps-lift, Keeps-bind, Keeps-map_err, Keeps-ignore}
use istat.Table.{string_key}
use istat.Table.Unique.{append-IsKeyed}
use istat.Server.Db.{Db, AppTables, EmojiRow, StatusRow, AuditRow}
use istat.Server.Sql.Keeps.{query-Keeps, execute-Keeps, insert-Keeps}
use istat.Server.Moderation.{AppState}
use istat.Server.Jetstream.{Event, Operation, Externals}
use istat.Server.Jetstream.Hydrate.{hydrate_profile, store_fetched, hydrate_missing, fetched}
use istat.Server.Jetstream.Ingest.{
  Ingest, or_return, on_operation, run, ingest_emoji, ingest_status, ingest_profile,
  ingest_identity, ingest_account,
}
use istat.Server.Invariant.{IsValid}
use istat.Server.Invariant.Runs.{Valid}
use istat.Server.Invariant.Writes.{
  remove_emoji-IsValid, remove_status-IsValid, profiles-IsValid, replace_emoji-IsValid,
  replace_status-IsValid, set_profile-IsValid,
}

module _ {K J : Type 0} (fk : AppState K J) where
  or_return-Keeps :
      {A : Type 0} (o : Option A) (f : A → Ingest)
      → ((a : A) → Keeps (Valid fk) (f a))
      → Keeps (Valid fk) (or_return o f)
  or_return-Keeps none f k = Keeps-pure _
  or_return-Keeps (some a) f k = k a

  on_operation-Keeps :
      (o : Operation) (write remove : Ingest)
      → Keeps (Valid fk) write
      → Keeps (Valid fk) remove
      → Keeps (Valid fk) (on_operation o write remove)
  on_operation-Keeps Operation.create write remove w r = w
  on_operation-Keeps Operation.update write remove w r = w
  on_operation-Keeps Operation.delete write remove w r = r

  run-Keeps :
      (write : AppTables → AppTables)
      → ((app : AppTables) → IsValid fk app → IsValid fk (write app))
      → Keeps (Valid fk) (run write)
  run-Keeps write k = Keeps-map_err _ _ (execute-Keeps (IsValid fk) _ (λ d h. k d.app h))

  module _ (x : Externals) where
    store_fetched-Keeps :
        (did : String) (row : Option istat.Server.Db.ProfileRow)
        → Keeps (Valid fk) (store_fetched x did row)
    unfolding store_fetched
    store_fetched-Keeps did none = Keeps-pure _
    store_fetched-Keeps did (some row) =
        Keeps-bind _ _
          (Keeps-map_err _ _ (
            insert-Keeps (IsValid fk) _ _ (λ d free h.
              profiles-IsValid fk d.app h _
                (append-IsKeyed did row d.app.profiles free h.profiles_keyed))))
          λ _. Keeps-pure _

    missing-Keeps :
        (did now : String) (row : Option istat.Server.Db.ProfileRow)
        → Keeps (Valid fk) (hydrate_missing x did now row)
    unfolding hydrate_missing
    missing-Keeps did now none = store_fetched-Keeps did (fetched x did now)
    missing-Keeps did now (some row) = Keeps-pure _

    hydrate_profile-Keeps : (did now : String) → Keeps (Valid fk) (hydrate_profile x did now)
    unfolding hydrate_profile
    hydrate_profile-Keeps did now =
        Keeps-bind _ _ (Keeps-map_err _ _ (query-Keeps (IsValid fk) _))
          λ row. missing-Keeps did now row

    pub ingest_emoji-Keeps :
        (event : Event) (now hydrated : String)
        → Keeps (Valid fk) (ingest_emoji x event now hydrated)
    unfolding ingest_emoji
    ingest_emoji-Keeps event now hydrated = or_return-Keeps event.commit _ λ commit.
        or_return-Keeps commit.record_json _ λ r. Keeps-bind _ _ (Keeps-lift _) λ e.
          on_operation-Keeps commit.operation _ _
            (Keeps-bind _ _ (Keeps-ignore _ _ (hydrate_profile-Keeps event.did hydrated))
              λ _. run-Keeps _ (λ app h. replace_emoji-IsValid fk app h _ _ refl))
            (run-Keeps _ (λ app h. remove_emoji-IsValid fk app h _))

    pub ingest_status-Keeps :
        (event : Event) (hydrated : String) → Keeps (Valid fk) (ingest_status x event hydrated)
    unfolding ingest_status
    ingest_status-Keeps event hydrated = or_return-Keeps event.commit _ λ commit.
        on_operation-Keeps commit.operation _ _
          (Keeps-bind _ _ (Keeps-lift _) λ r. Keeps-bind _ _ (Keeps-lift _) λ s.
            Keeps-bind _ _ (Keeps-ignore _ _ (hydrate_profile-Keeps event.did hydrated)) λ _.
              Keeps-bind _ _ (Keeps-lift _)
                λ ref. run-Keeps _ (λ app h. replace_status-IsValid fk app h _ _ refl))
          (run-Keeps _ (λ app h. remove_status-IsValid fk app h _))

    pub ingest_profile-Keeps :
        (event : Event) (now : String) → Keeps (Valid fk) (ingest_profile x event now)
    unfolding ingest_profile
    ingest_profile-Keeps event now = or_return-Keeps event.commit _ λ commit.
        on_operation-Keeps commit.operation _ _
          (Keeps-bind _ _ (Keeps-lift _) λ r.
            Keeps-bind _ _ (Keeps-lift _)
              λ p. run-Keeps _ (λ app h. set_profile-IsValid fk app h _ _))
          (run-Keeps _ (λ app h. set_profile-IsValid fk app h _ _))

  pub ingest_identity-Keeps :
      (event : Event) (now : String) → Keeps (Valid fk) (ingest_identity event now)
  unfolding ingest_identity
  ingest_identity-Keeps event now = or_return-Keeps event.identity _ λ identity.
      or_return-Keeps identity.handle _
        λ handle. run-Keeps _ (λ app h. set_profile-IsValid fk app h _ _)

  pub ingest_account-Keeps :
      (event : Event) (now : String) → Keeps (Valid fk) (ingest_account event now)
  unfolding ingest_account
  ingest_account-Keeps event now =
      or_return-Keeps event.account _
        λ account. run-Keeps _ (λ app h. set_profile-IsValid fk app h _ _)
