-- ===== src/Server/Startup/Issuer.antt =====
-- The issuer that the moderation endpoints expect.
use istat.Prelude.{
  false, Bool-cases, inl, ℕ, String, ◌≡◌, ◌≢◌, refl, sym, ap, subst, ◌∙◌, List, inr, ◌==◌, eq_iff,
  arith,
}
use istat.Outcome.{ok, err}
use istat.Action.{Action, resume, relabel}
use istat.Action
use istat.Http.{HeaderMap}
use istat.Http.StatusCode
use istat.Oatproxy.Error.{Error, invalid_request}
use istat.Server.Moderation.{
  AppState, token_of, extract_authenticated_did, require_admin, handle_is_admin,
}
use istat.Server.Moderation.Blacklist.{
  BlacklistCidRequest, handle_blacklist_cid, handle_remove_blacklist,
}
use istat.Server.Moderation.Deletion.{handle_delete_emoji, handle_delete_status}
use istat.Server.Moderation.Listing.{handle_list_blacklisted, handle_list_audit_log}
use istat.Server.Query.{QueryExternals}
use istat.Time.{DateTime}
use istat.Oatproxy.Crypto.{Crypto, IsSound}
use istat.Oatproxy.Config.{ConfigExternals}
use istat.Oatproxy.Builder.{KeyExternals, KeyLaws}
use istat.Oatproxy.Jwt.{DownstreamTokenClaims}
use istat.Oatproxy.Jwt.Laws.{verdict}
use istat.Oatproxy.Token.{issue_downstream_jwt, validate_downstream_jwt}
use istat.Oatproxy.Token.RoundTrip.{validate-issue}
use istat.Server.Db.{Db}
use istat.Server.SqliteStore.{key_store}
use istat.Server.SqliteStore.Externals.{Externals}
use istat.Server.Startup.{Environment, Started, public_url_of, start}
use istat.Server.Startup.Ready.{start-Ready}

wrong_issuer :
    {K V G : Type 0} (c : Crypto K V G) (sound : IsSound c) (issuer : String) (later : DateTime)
    (cl : DownstreamTokenClaims)
    → cl.iss ≢ issuer
    → verdict c sound issuer later cl ≡ err (invalid_request "wrong issuer")
wrong_issuer c sound issuer later cl other = elim (Bool-cases (cl.iss == issuer)) [
  | inl e ↦ absurd (other ((eq_iff cl.iss issuer).0 e))
  | inr e ↦ ground (arith, e)
]

module _ {K V G J : Type 0} (c : Crypto K V G) (state : AppState K J) where
  refused :
      (headers : HeaderMap) (later : DateTime) (w : Db) (jwt : String) (e : Error)
      → token_of headers ≡ ok jwt
      → validate_downstream_jwt c state.token_manager state.key_store jwt later w ≡ (err e, w)
      → extract_authenticated_did c state headers later w ≡ (err StatusCode.unauthorized, w)
  unfolding extract_authenticated_did Action.◌>>=◌ Action.map_err
  refused headers later w jwt e carried h = rw (carried, h) refl

module _ {K V G J : Type 0} (c : Crypto K V G) (state : AppState K J) (headers : HeaderMap)
    (later : DateTime) (w : Db) where
  -- What a caller with these headers gets of every moderation endpoint: nothing is written, the
  -- question whether he is an administrator is answered with no, and the others refuse him.
  pub record Refuses : Type 0 where
    pub is_admin : (stamp : String) → handle_is_admin c state headers later stamp w ≡ (ok false, w)
    pub blacklist :
        (req : BlacklistCidRequest) (stamp : String)
        → handle_blacklist_cid c state headers req later stamp w ≡ (err 401, w)
    pub unlist :
        (cid stamp : String)
        → handle_remove_blacklist c state headers cid later stamp w ≡ (err 401, w)
    pub delete_emoji :
        (uri stamp : String) → handle_delete_emoji c state headers uri later stamp w ≡ (err 401, w)
    pub delete_status :
        (uri stamp : String) → handle_delete_status c state headers uri later stamp w ≡ (err 401, w)
    pub list_blacklisted :
        (stamp : String) → handle_list_blacklisted c state headers later stamp w ≡ (err 401, w)
    pub list_audit_log :
        (q : QueryExternals) (stamp : String)
        → handle_list_audit_log c state q headers later stamp w ≡ (err 401, w)

  refuses :
      extract_authenticated_did c state headers later w ≡ (err StatusCode.unauthorized, w) → Refuses
  unfolding handle_is_admin handle_blacklist_cid handle_remove_blacklist handle_delete_emoji
      handle_delete_status handle_list_blacklisted handle_list_audit_log require_admin Action.◌>>=◌
      Action.attempt
  refuses h = record {
    is_admin = λ stamp. rw h refl;
    blacklist = λ req stamp. rw h refl;
    unlist = λ cid stamp. rw h refl;
    delete_emoji = λ uri stamp. rw h refl;
    delete_status = λ uri stamp. rw h refl;
    list_blacklisted = λ stamp. rw h refl;
    list_audit_log = λ q stamp. rw h refl;
  }

module _ {K V G J D Q : Type 0} (c : Crypto K V G) (sound : IsSound c) (x : KeyExternals K)
    (laws : KeyLaws x) (urls : ConfigExternals) (rows : Externals J D Q) (now : String) where
  -- When the public URL is not the text of its own parse, a caller with a token that the started
  -- proxy issued gets nothing of the moderation endpoints of the same start: `handle_is_admin`
  -- answers false, all others answer 401, whoever the account is, and nothing is written.
  pub moderation-refuses :
      (env : Environment) (random unused : K) (secret : List ℕ) (a : Started K J D Q)
      (s s' u u' w : Db) (headers : HeaderMap) (sub jkt scope jwt : String) (lifetime : ℕ)
      (issued later : DateTime)
      → start x urls rows now env random unused secret s ≡ (ok a, s')
      → urls.parse_url (public_url_of env) ≢ inr (public_url_of env)
      → issue_downstream_jwt c a.server.token_manager a.server.key_store sub jkt scope lifetime
          issued u
        ≡ (ok jwt, u')
      → token_of headers ≡ ok jwt
      → Refuses c a.state headers later w
  moderation-refuses env random unused secret a s s' u u' w headers sub jkt scope jwt lifetime
        issued later first other issue carried =
      let r = start-Ready x laws urls rows now env random unused secret a s s' first in
      let differ : a.server.token_manager.issuer ≢ a.state.token_manager.issuer =
        λ p. other (r.host_read ∙ ap inr (p ∙ r.state_issuer)) in
      let judged =
        validate-issue c (key_store r.key) r.key sound (λ v. refl) a.server.token_manager
          a.state.token_manager sub jkt scope lifetime issued later u u' w jwt
          (subst
            (λ ks.
              issue_downstream_jwt c a.server.token_manager ks sub jkt scope lifetime issued u
              ≡ (ok jwt, u'))
            r.server_keys issue) in
      refuses c a.state headers later w (
        refused c a.state headers later w jwt (invalid_request "wrong issuer") carried (
          subst
            (λ ks.
              validate_downstream_jwt c a.state.token_manager ks jwt later w
              ≡ (err (invalid_request "wrong issuer"), w))
            (sym r.state_keys) (judged ∙ ap (λ o. (o, w)) (wrong_issuer c sound _ later _ differ))))
