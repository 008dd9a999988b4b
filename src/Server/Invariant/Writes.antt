-- ===== src/Server/Invariant/Writes.antt =====
-- Each write of the handlers and of the ingestors keeps the tables valid.
use istat.Prelude.{
  inl, inr, true, String, ◌≡◌, refl, Bool, Option, none, some, [], ◌∷◌, ◌++◌, eq_refl, arith, All,
  All-append, All-map, is_some, if◌then◌else◌,
}
use istat.Table.{Table, string_key, find, append, delete, update}
use istat.Table.Laws.{find-append, find-delete}
use istat.Table.Unique.{IsKeyed, append-IsKeyed, delete-IsKeyed, update-IsKeyed}
use istat.Server.Db.{AppTables, BlacklistRow, AuditRow, EmojiRow, StatusRow, ProfileRow, AdminRow}
use istat.Server.Moderation.{AppState, add_admin}
use istat.Server.Jetstream.Ingest.{
  remove_emoji, remove_status, replace_emoji, replace_status, drop_same, set_profile,
}
use istat.Server.Moderation.Rights.{known_admin}
use istat.Server.Invariant.{
  ValidRow, ValidEntry, IsValid, MarkedEmoji, MarkedStatus, ByAdmin, EntitledEntry,
}

module _ {V : Type 0} (P : String × V → Type 0) where
  -- deleting rows leaves rows with the property
  delete-All : (k : String) (t : Table String V) → All P t → All P (delete k t)
  unfolding delete
  delete-All k [] h = tt
  delete-All k ((j, row) ∷ t) h = ground (arith, delete-All k t h.1)

  append-All : (k : String) (v : V) (t : Table String V) → All P t → P (k, v) → All P (append k v t)
  unfolding append
  append-All k v t h p = All-append P t _ h (p, tt)

  pub update-All :
      (k : String) (change : V → V) (t : Table String V)
      → ((j : String) (v : V) → P (j, v) → P (j, change v))
      → All P t
      → All P (update k change t)
  unfolding update
  update-All k change [] keeps h = tt
  update-All k change ((j, row) ∷ t) keeps h =
      ground (arith, update-All k change t keeps h.1, keeps j row h.0)

drop_same-All :
    (P : String × StatusRow → Type 0) (did rkey : String) (t : Table String StatusRow)
    → All P t
    → All P (drop_same did rkey t)
unfolding drop_same
drop_same-All P did rkey [] h = tt
drop_same-All P did rkey ((j, row) ∷ t) h = ground (arith, drop_same-All P did rkey t h.1)

pub find-drop_same :
    (did rkey k : String) (t : Table String StatusRow)
    → find k t ≡ none
    → find k (drop_same did rkey t) ≡ none
unfolding find drop_same
find-drop_same did rkey k [] h = refl
find-drop_same did rkey k ((j, row) ∷ t) h = ground (arith, find-drop_same did rkey k t, h)

drop_same-IsKeyed :
    (did rkey : String) (t : Table String StatusRow) → IsKeyed t → IsKeyed (drop_same did rkey t)
unfolding drop_same find
drop_same-IsKeyed did rkey [] h = tt
drop_same-IsKeyed did rkey ((j, row) ∷ t) h =
    ground (arith, drop_same-IsKeyed did rkey t h.1, find-drop_same did rkey j t h.0)

module _ {V : Type 0} where
  deleted : (k : String) (t : Table String V) → find k (delete k t) ≡ none
  deleted k t = ground (arith, find-delete k k t, eq_refl k)

  pub replaced-IsKeyed :
      (k : String) (v : V) (t : Table String V) → IsKeyed t → IsKeyed (append k v (delete k t))
  replaced-IsKeyed k v t h = append-IsKeyed k v (delete k t) (deleted k t) (delete-IsKeyed k t h)

more_admins :
    (fk : Bool) (app : AppTables) (did : String) (row : AdminRow) (e : AuditRow)
    → ValidEntry fk app e
    → ValidEntry fk (record app { admins = append did row app.admins }) e
more_admins fk app did row e h = ground (arith, h, find-append did e.moderator_did row app.admins)

-- an administrator stays one
pub more_known :
    {K J : Type 0} (state : AppState K J) (app : AppTables) (did who : String) (row : AdminRow)
    → known_admin state who app ≡ true
    → known_admin state who (record app { admins = append did row app.admins }) ≡ true
more_known state app did who row h = ground (arith, h, find-append did who row app.admins)

more_entitled :
    {K J : Type 0} (state : AppState K J) (app : AppTables) (did : String) (row : AdminRow)
    (e : AuditRow)
    → EntitledEntry state app e
    → EntitledEntry state (record app { admins = append did row app.admins }) e
more_entitled state app did row e (inl h) = inl (more_known state app did e.moderator_did row h)
more_entitled state app did row e (inr own) = inr own

module _ {K J : Type 0} (fk : AppState K J) (app : AppTables) (h : IsValid fk app) where
  -- the tables that the audit log does not read
  pub emojis-IsValid :
      (t : Table String EmojiRow)
      → IsKeyed t
      → All MarkedEmoji t
      → IsValid fk (record app { emojis = t })
  emojis-IsValid t k m = record {
    emojis_marked = m;
    statuses_marked = h.statuses_marked;
    blacklist_moderated = h.blacklist_moderated;
    emojis_keyed = k;
    statuses_keyed = h.statuses_keyed;
    profiles_keyed = h.profiles_keyed;
    admins_keyed = h.admins_keyed;
    blacklist_keyed = h.blacklist_keyed;
    blacklist_valid = h.blacklist_valid;
    audit_entitled = h.audit_entitled;
    audit_valid = h.audit_valid;
  }

  pub statuses-IsValid :
      (t : Table String StatusRow)
      → IsKeyed t
      → All MarkedStatus t
      → IsValid fk (record app { statuses = t })
  statuses-IsValid t k m = record {
    statuses_marked = m;
    emojis_marked = h.emojis_marked;
    blacklist_moderated = h.blacklist_moderated;
    emojis_keyed = h.emojis_keyed;
    statuses_keyed = k;
    profiles_keyed = h.profiles_keyed;
    admins_keyed = h.admins_keyed;
    blacklist_keyed = h.blacklist_keyed;
    blacklist_valid = h.blacklist_valid;
    audit_entitled = h.audit_entitled;
    audit_valid = h.audit_valid;
  }

  pub profiles-IsValid :
      (t : Table String ProfileRow) → IsKeyed t → IsValid fk (record app { profiles = t })
  profiles-IsValid t k = record {
    emojis_marked = h.emojis_marked;
    statuses_marked = h.statuses_marked;
    blacklist_moderated = h.blacklist_moderated;
    emojis_keyed = h.emojis_keyed;
    statuses_keyed = h.statuses_keyed;
    profiles_keyed = k;
    admins_keyed = h.admins_keyed;
    blacklist_keyed = h.blacklist_keyed;
    blacklist_valid = h.blacklist_valid;
    audit_entitled = h.audit_entitled;
    audit_valid = h.audit_valid;
  }

  admins-IsValid :
      (did : String) (row : AdminRow)
      → find did app.admins ≡ none
      → IsValid fk (record app { admins = append did row app.admins })
  admins-IsValid did row free = record {
    emojis_marked = h.emojis_marked;
    statuses_marked = h.statuses_marked;
    blacklist_moderated =
        All-map _ _ (λ r. more_known fk app did r.1.moderator_did row) app.blacklisted_cids
          h.blacklist_moderated;
    emojis_keyed = h.emojis_keyed;
    statuses_keyed = h.statuses_keyed;
    profiles_keyed = h.profiles_keyed;
    admins_keyed = append-IsKeyed did row app.admins free h.admins_keyed;
    blacklist_keyed = h.blacklist_keyed;
    blacklist_valid = h.blacklist_valid;
    audit_entitled =
        All-map _ _ (λ e. more_entitled fk app did row e) app.audit_log h.audit_entitled;
    audit_valid = All-map _ _ (more_admins fk.foreign_keys app did row) app.audit_log h.audit_valid;
  }

  pub blacklisted-IsValid :
      (cid : String) (row : BlacklistRow)
      → ValidRow (cid, row)
      → ByAdmin fk app (cid, row)
      → find cid app.blacklisted_cids ≡ none
      → IsValid fk (record app { blacklisted_cids = append cid row app.blacklisted_cids })
  blacklisted-IsValid cid row valid by free = record {
    emojis_marked = h.emojis_marked;
    statuses_marked = h.statuses_marked;
    blacklist_moderated =
        append-All (ByAdmin fk app) cid row app.blacklisted_cids h.blacklist_moderated by;
    emojis_keyed = h.emojis_keyed;
    statuses_keyed = h.statuses_keyed;
    profiles_keyed = h.profiles_keyed;
    admins_keyed = h.admins_keyed;
    blacklist_keyed = append-IsKeyed cid row app.blacklisted_cids free h.blacklist_keyed;
    blacklist_valid = append-All ValidRow cid row app.blacklisted_cids h.blacklist_valid valid;
    audit_entitled = h.audit_entitled;
    audit_valid = h.audit_valid;
  }

  pub unlisted-IsValid :
      (cid : String)
      → IsValid fk (record app { blacklisted_cids = delete cid app.blacklisted_cids })
  unlisted-IsValid cid = record {
    emojis_marked = h.emojis_marked;
    statuses_marked = h.statuses_marked;
    blacklist_moderated =
        delete-All (ByAdmin fk app) cid app.blacklisted_cids h.blacklist_moderated;
    emojis_keyed = h.emojis_keyed;
    statuses_keyed = h.statuses_keyed;
    profiles_keyed = h.profiles_keyed;
    admins_keyed = h.admins_keyed;
    blacklist_keyed = delete-IsKeyed cid app.blacklisted_cids h.blacklist_keyed;
    blacklist_valid = delete-All ValidRow cid app.blacklisted_cids h.blacklist_valid;
    audit_entitled = h.audit_entitled;
    audit_valid = h.audit_valid;
  }

  pub logged-IsValid :
      (e : AuditRow)
      → ValidEntry fk.foreign_keys app e
      → EntitledEntry fk app e
      → IsValid fk (record app { audit_log = app.audit_log ++ e ∷ [] })
  logged-IsValid e valid may = record {
    emojis_marked = h.emojis_marked;
    statuses_marked = h.statuses_marked;
    blacklist_moderated = h.blacklist_moderated;
    emojis_keyed = h.emojis_keyed;
    statuses_keyed = h.statuses_keyed;
    profiles_keyed = h.profiles_keyed;
    admins_keyed = h.admins_keyed;
    blacklist_keyed = h.blacklist_keyed;
    blacklist_valid = h.blacklist_valid;
    audit_entitled =
        All-append (EntitledEntry fk app) app.audit_log (e ∷ []) h.audit_entitled (may, tt);
    audit_valid =
        All-append (ValidEntry fk.foreign_keys app) app.audit_log (e ∷ []) h.audit_valid
          (valid, tt);
  }

  noted-IsValid :
      (did : String) (row : AdminRow) (found : Option AdminRow)
      → find did app.admins ≡ found
      → IsValid fk
          (record app { admins = if is_some found then app.admins else append did row app.admins })
  noted-IsValid did row none e = admins-IsValid did row e
  noted-IsValid did row (some r) e = h

  pub add_admin-IsValid : (did stamp : String) → IsValid fk (add_admin did stamp app)
  unfolding add_admin
  add_admin-IsValid did stamp = noted-IsValid did _ (find did app.admins) refl

  pub replace_emoji-IsValid :
      (k : String) (row : EmojiRow) → MarkedEmoji (k, row) → IsValid fk (replace_emoji k row app)
  unfolding replace_emoji
  replace_emoji-IsValid k row m =
      emojis-IsValid _ (replaced-IsKeyed k row app.emojis h.emojis_keyed)
        (append-All MarkedEmoji k row _ (delete-All MarkedEmoji k app.emojis h.emojis_marked) m)

  pub replace_status-IsValid :
      (k : String) (row : StatusRow) → MarkedStatus (k, row) → IsValid fk (replace_status k row app)
  unfolding replace_status
  replace_status-IsValid k row m =
      statuses-IsValid _
        (append-IsKeyed k row _ (find-drop_same row.did row.rkey k _ (deleted k app.statuses))
          (drop_same-IsKeyed row.did row.rkey _ (delete-IsKeyed k app.statuses h.statuses_keyed)))
        (append-All MarkedStatus k row _
          (drop_same-All MarkedStatus row.did row.rkey _
            (delete-All MarkedStatus k app.statuses h.statuses_marked))
          m)

  pub set_profile-IsValid :
      (did : String) (change : ProfileRow → ProfileRow) → IsValid fk (set_profile did change app)
  unfolding set_profile
  set_profile-IsValid did change =
      profiles-IsValid _ (update-IsKeyed did change app.profiles h.profiles_keyed)

  pub remove_emoji-IsValid : (k : String) → IsValid fk (remove_emoji k app)
  unfolding remove_emoji
  remove_emoji-IsValid k =
      emojis-IsValid _ (delete-IsKeyed k app.emojis h.emojis_keyed)
        (delete-All MarkedEmoji k app.emojis h.emojis_marked)

  pub remove_status-IsValid : (k : String) → IsValid fk (remove_status k app)
  unfolding remove_status
  remove_status-IsValid k =
      statuses-IsValid _ (delete-IsKeyed k app.statuses h.statuses_keyed)
        (delete-All MarkedStatus k app.statuses h.statuses_marked)
