-- ===== src/Server/Moderation/Deletion/Owners.antt =====
-- Who deleted what.
use istat.Prelude.{
  String, not, is_some, ◌≡◌, sym, ap, subst, ◌∙◌, Bool, true, ◌||◌, ◌==◌, eq_iff, ◌⊎◌, inl, inr,
  refl, Option, List, unwrap_or, eq_refl, none, some, [], ◌∷◌, ◌++◌, arith,
}
use istat.Text.{◌<>◌, split, strip_prefix}
use istat.Outcome.{ok}
use istat.Outcome.Inversion.{ensure-ok}
use istat.Action.Inversion.{bind-ok, lift-ok, ok_or-ok}
use istat.Time.{DateTime}
use istat.Http.{HeaderMap}
use istat.Table.Laws.{find-update}
use istat.Table.{string_key, find, update}
use istat.Oatproxy.Crypto.{Crypto}
use istat.Oatproxy.Token.RoundTrip.{Holds}
use istat.Server.Db.{Db, AppTables, EmojiRow}
use istat.Server.Sql.Steps.{execute_with_step}
use istat.Server.Moderation.{AppState, add_admin}
use istat.Server.Moderation.Audit.{audit_entry, log_step}
use istat.Server.Moderation.Rights.{
  Authenticated, known_admin, noted, extract_authenticated_did-ok, is_admin_step,
}
use istat.Server.Moderation.Deletion.{
  parse_uri, mark_emoji, mark_status, live_emoji, live_status, handle_delete_emoji,
  handle_delete_status,
}

either : (s t : String) (b : Bool) → (s == t || b) ≡ true → (s ≡ t) ⊎ (b ≡ true)
either s t b h = ground (arith, h, eq_iff s t)

logged : (enforced there : Bool) → enforced ≡ true → (not enforced || there) ≡ true → there ≡ true
logged enforced there e h = ground (arith, e, h)

module _ {K J : Type 0} (state : AppState K J) (did stamp : String) (app : AppTables) where
  noted_emojis : (noted state did stamp app).emojis ≡ app.emojis
  unfolding add_admin
  noted_emojis = ground arith

  noted_statuses : (noted state did stamp app).statuses ≡ app.statuses
  unfolding add_admin
  noted_statuses = ground arith

  -- whoever has a row after asking was an administrator before
  noted-known_admin :
      is_some (find did (noted state did stamp app).admins) ≡ true
      → known_admin state did app ≡ true
  noted-known_admin h = ground (arith, h)

-- the pieces of the URI after its scheme: the repository, the collection, which nothing reads, the
-- record key, and what else there is
pub record UriOf (uri owner rkey : String) : Type 0 where
  pub collection : String
  pub rest : List String
  pub pieces :
      split b'/' (unwrap_or (strip_prefix "at://" uri) uri) ≡ owner ∷ collection ∷ rkey ∷ rest

out_of : {a b : String × String} → ◌≡◌ {A = Option (String × String)} (some a) (some b) → a ≡ b
out_of h = cc (h)

pub parse_uri-UriOf :
    (uri owner rkey : String) → parse_uri uri ≡ some (owner, rkey) → UriOf uri owner rkey
unfolding parse_uri
parse_uri-UriOf uri owner rkey h = read (split b'/' (unwrap_or (strip_prefix "at://" uri) uri)) refl
  where
    read :
        (ps : List String)
        → split b'/' (unwrap_or (strip_prefix "at://" uri) uri) ≡ ps
        → UriOf uri owner rkey
    read [] e = absurd (ground (arith, e, h))
    read (a ∷ []) e = absurd (ground (arith, e, h))
    read (a ∷ b ∷ []) e = absurd (ground (arith, e, h))
    read (a ∷ b ∷ d ∷ rest) e =
        let same : ◌≡◌ {A = Option (String × String)} (some (a, d)) (some (owner, rkey)) =
          ground (arith, e, h) in
        record {
          collection = b;
          rest = rest;
          pieces = e ∙ ap (λ (o : String × String). o.0 ∷ b ∷ o.1 ∷ rest) (out_of same);
        }

-- a row that was live is marked, and its other columns are as before
pub record Marked (at_uri did stamp : String) (before after : AppTables) : Type 0 where
  pub row : EmojiRow
  pub was_there : find at_uri before.emojis ≡ some row
  pub was_live : row.deleted_at ≡ none
  pub is_marked :
      find at_uri after.emojis
      ≡ some (record row { deleted_at = some stamp; deleted_by = some did })

mark :
    (at_uri did stamp : String) (before after : AppTables)
    → live_emoji (find at_uri before.emojis) ≡ true
    → after.emojis ≡ update at_uri (mark_emoji did stamp) before.emojis
    → Marked at_uri did stamp before after
mark at_uri did stamp before after h e = from (find at_uri before.emojis) refl h
  where
    from :
        (o : Option EmojiRow)
        → find at_uri before.emojis ≡ o
        → live_emoji o ≡ true
        → Marked at_uri did stamp before after
    from none q h = absurd (cc (h))
    from (some row) q h = record {
      row = row;
      was_there = q;
      was_live = dead row.deleted_at h;
      is_marked =
          ap (find at_uri) e
          ∙ find-update at_uri at_uri (mark_emoji did stamp) before.emojis
          ∙ rw (eq_refl at_uri, q, dead row.deleted_at h) refl;
    }
      where
        dead : (o : Option String) → not (is_some o) ≡ true → o ≡ none
        dead none h = refl
        dead (some s) h = absurd (cc (h))

module _ {K V G J : Type 0} (c : Crypto K V G) (state : AppState K J) (key : K)
    (holds : Holds state.key_store key) where
  -- A success: the owner of the record or an administrator asked, the row was live, it is marked,
  -- and the log has the entry, for which the account had to have a row among the administrators
  -- where foreign keys are enforced.
  pub record EmojiDeleted (headers : HeaderMap) (uri : String) (now : DateTime) (stamp : String)
      (before after : AppTables) : Type 0 where
    pub did : String
    pub owner : String
    pub rkey : String
    pub authenticated : Authenticated c state key holds headers now did
    pub parsed : UriOf uri owner rkey
    pub entitled : (did ≡ owner) ⊎ (known_admin state did before ≡ true)
    pub marked : Marked (owner <> "/vg.nat.istat.moji.emoji/" <> rkey) did stamp before after
    pub may_log :
        (not state.foreign_keys || is_some (find did (noted state did stamp before).admins)) ≡ true
    pub tables : after ≡ record (noted state did stamp before) {
      emojis =
          update
            (owner <> "/vg.nat.istat.moji.emoji/" <> rkey)
            (mark_emoji did stamp)
            (noted state did stamp before).emojis;
      audit_log =
          (noted state did stamp before).audit_log
          ++ audit_entry did "delete_emoji" "emoji" uri none none stamp ∷ [];
    }

  -- When `handle_delete_emoji` succeeds, the request carried a token of the proxy for an account
  -- that is the repository of the URI or an administrator, and the repository's emoji with the
  -- URI's record key was not deleted; it is marked as deleted at that time by that account, the
  -- log gains the entry, and where foreign keys are enforced the account had a row among the
  -- administrators.
  pub handle_delete_emoji-ok :
      (headers : HeaderMap) (uri : String) (now : DateTime) (stamp : String) (db db' : Db)
      → handle_delete_emoji c state headers uri now stamp db ≡ (ok true, db')
      → EmojiDeleted headers uri now stamp db.app db'.app
  unfolding handle_delete_emoji
  handle_delete_emoji-ok headers uri now stamp db db' h = bind-ok _ _ db true db' h λ did t e1 h1.
      is_admin_step _ true did stamp t db' state h1 λ t2 app2 proxy2 h2.
        lift-ok _ _ t2 true db' h2 λ parts e3 h3. lift-ok _ _ t2 true db' h3 λ u4 e4 h4.
          execute_with_step _ _ true t2 db' _ _ h4 λ gs h5. lift-ok _ _ _ true db' h5 λ u6 e6 h6.
            let (tables, proxy, admin) = log_step state did _ _ _ stamp _ _ _ db' h6 in
            let (authenticated, same) =
              extract_authenticated_did-ok c state key holds headers now did db t e1 in
            let at_uri = parts.0 <> "/vg.nat.istat.moji.emoji/" <> parts.1 in
            let kept = ap (λ (a : AppTables). a.emojis) app2 ∙ noted_emojis state did stamp t.app in
            let deletes : AppTables → AppTables = λ a. record a {
              emojis = update at_uri (mark_emoji did stamp) a.emojis;
              audit_log =
                  a.audit_log ++ audit_entry did "delete_emoji" "emoji" uri none none stamp ∷ [];
            } in
            let written : db'.app ≡ deletes (noted state did stamp t.app) =
              tables ∙ ap deletes app2 in
            subst (λ (d : Db). EmojiDeleted headers uri now stamp d.app db'.app) (sym same)
              (record {
                did = did;
                owner = parts.0;
                rkey = parts.1;
                authenticated = authenticated;
                parsed = parse_uri-UriOf uri parts.0 parts.1 (ok_or-ok _ _ _ e3);
                entitled = either did parts.0 _ (ensure-ok _ _ e4);
                marked =
                    mark at_uri did stamp t.app db'.app
                      (subst (λ rows. live_emoji (find at_uri rows) ≡ true) kept (ensure-ok _ _ e6))
                      (ap (λ (a : AppTables). a.emojis) written
                        ∙ ap (update at_uri (mark_emoji did stamp))
                            (noted_emojis state did stamp t.app));
                may_log =
                    subst
                      (λ (a : AppTables).
                        (not state.foreign_keys || is_some (find did a.admins)) ≡ true)
                      app2 admin;
                tables = written;
              })

  -- The same for a status.
  pub record StatusDeleted (headers : HeaderMap) (uri : String) (now : DateTime) (stamp : String)
      (before after : AppTables) : Type 0 where
    pub did : String
    pub owner : String
    pub rkey : String
    pub authenticated : Authenticated c state key holds headers now did
    pub parsed : parse_uri uri ≡ some (owner, rkey)
    pub entitled : (did ≡ owner) ⊎ (known_admin state did before ≡ true)
    pub was_live :
        live_status (find (owner <> "/vg.nat.istat.status.record/" <> rkey) before.statuses) ≡ true
    pub may_log :
        (not state.foreign_keys || is_some (find did (noted state did stamp before).admins)) ≡ true
    pub tables : after ≡ record (noted state did stamp before) {
      statuses =
          update
            (owner <> "/vg.nat.istat.status.record/" <> rkey)
            (mark_status did stamp)
            (noted state did stamp before).statuses;
      audit_log =
          (noted state did stamp before).audit_log
          ++ audit_entry did "delete_status" "status" uri none none stamp ∷ [];
    }

  pub handle_delete_status-ok :
      (headers : HeaderMap) (uri : String) (now : DateTime) (stamp : String) (db db' : Db)
      → handle_delete_status c state headers uri now stamp db ≡ (ok true, db')
      → StatusDeleted headers uri now stamp db.app db'.app
  unfolding handle_delete_status
  handle_delete_status-ok headers uri now stamp db db' h = bind-ok _ _ db true db' h λ did t e1 h1.
      is_admin_step _ true did stamp t db' state h1 λ t2 app2 proxy2 h2.
        lift-ok _ _ t2 true db' h2 λ parts e3 h3. lift-ok _ _ t2 true db' h3 λ u4 e4 h4.
          execute_with_step _ _ true t2 db' _ _ h4 λ gs h5. lift-ok _ _ _ true db' h5 λ u6 e6 h6.
            let (tables, proxy, admin) = log_step state did _ _ _ stamp _ _ _ db' h6 in
            let (authenticated, same) =
              extract_authenticated_did-ok c state key holds headers now did db t e1 in
            let at_uri = parts.0 <> "/vg.nat.istat.status.record/" <> parts.1 in
            subst (λ (d : Db). StatusDeleted headers uri now stamp d.app db'.app) (sym same)
              (record {
                did = did;
                owner = parts.0;
                rkey = parts.1;
                authenticated = authenticated;
                parsed = ok_or-ok _ _ _ e3;
                entitled = either did parts.0 _ (ensure-ok _ _ e4);
                was_live =
                    subst (λ rows. live_status (find at_uri rows) ≡ true)
                      (ap (λ (a : AppTables). a.statuses) app2
                        ∙ noted_statuses state did stamp t.app)
                      (ensure-ok _ _ e6);
                may_log =
                    subst
                      (λ (a : AppTables).
                        (not state.foreign_keys || is_some (find did a.admins)) ≡ true)
                      app2 admin;
                tables =
                    tables
                    ∙ ap
                        (λ (a : AppTables). record a {
                          statuses = update at_uri (mark_status did stamp) a.statuses;
                          audit_log =
                              a.audit_log
                              ++ audit_entry did "delete_status" "status" uri none none stamp ∷ [];
                        })
                        app2;
              })

  -- Where foreign keys are enforced, a deletion of an emoji or a status succeeds only for an
  -- administrator: another owner's is never answered with success.
  pub delete-known_admin :
      (headers : HeaderMap) (uri : String) (now : DateTime) (stamp : String) (db db' : Db)
      → state.foreign_keys ≡ true
      → (handle_delete_emoji c state headers uri now stamp db ≡ (ok true, db'))
        ⊎ (handle_delete_status c state headers uri now stamp db ≡ (ok true, db'))
      → (did : String) × Authenticated c state key holds headers now did
        × (known_admin state did db.app ≡ true)
  delete-known_admin headers uri now stamp db db' enforced (inl h) =
      let done = handle_delete_emoji-ok headers uri now stamp db db' h in
      (
        done.did,
        done.authenticated,
        noted-known_admin state done.did stamp db.app
            (logged state.foreign_keys _ enforced done.may_log),
      )
  delete-known_admin headers uri now stamp db db' enforced (inr h) =
      let done = handle_delete_status-ok headers uri now stamp db db' h in
      (
        done.did,
        done.authenticated,
        noted-known_admin state done.did stamp db.app
            (logged state.foreign_keys _ enforced done.may_log),
      )
