-- ===== src/Server/Invariant/Listings.antt =====
-- The endpoints of moderation that only read keep the tables valid too, though they may note an
-- administrator.
use istat.Prelude.{ℕ, String, Bool, false, none, some}
use istat.Action.{
  Action, pure, Keeps, Keeps-pure, Keeps-lift, Keeps-bind, Keeps-map_err, Keeps-attempt,
}
use istat.Time.{DateTime}
use istat.Http.{HeaderMap}
use istat.Oatproxy.Crypto.{Crypto}
use istat.Oatproxy.Token.RoundTrip.{Holds}
use istat.Server.Db.{Db}
use istat.Server.Sql.Keeps.{query-Keeps}
use istat.Server.Moderation.{AppState, is_admin, handle_is_admin}
use istat.Server.Moderation.Listing.{handle_list_blacklisted, handle_list_audit_log}
use istat.Server.Query.{QueryExternals}
use istat.Server.Invariant.{IsValid}
use istat.Server.Invariant.Runs.{Valid, authenticated-Keeps, is_admin-Keeps, require_admin-Keeps}

module _ {K V G J : Type 0} (c : Crypto K V G) (state : AppState K J) (key : K)
    (holds : Holds state.key_store key) where
  pub handle_is_admin-Keeps :
      (headers : HeaderMap) (now : DateTime) (stamp : String)
      → Keeps (Valid state) (handle_is_admin c state headers now stamp)
  unfolding handle_is_admin
  handle_is_admin-Keeps headers now stamp =
      Keeps-bind _ _ (Keeps-attempt _ (authenticated-Keeps c state key holds headers now)) λ who.
        elim who
          as (λ w. Keeps (Valid state) (elim w as (λ _. Action ℕ Db Bool) [
            | none ↦ pure false
            | some did ↦ is_admin state did stamp
          ])) [ none ↦ Keeps-pure _ | some did ↦ is_admin-Keeps state did stamp ]

  pub handle_list_blacklisted-Keeps :
      (headers : HeaderMap) (now : DateTime) (stamp : String)
      → Keeps (Valid state) (handle_list_blacklisted c state headers now stamp)
  unfolding handle_list_blacklisted
  handle_list_blacklisted-Keeps headers now stamp =
      Keeps-bind _ _ (require_admin-Keeps c state key holds headers now stamp) λ did.
        Keeps-bind _ _ (Keeps-map_err _ _ (query-Keeps (IsValid state) _)) λ rows. Keeps-pure _

  pub handle_list_audit_log-Keeps :
      (x : QueryExternals) (headers : HeaderMap) (now : DateTime) (stamp : String)
      → Keeps (Valid state) (handle_list_audit_log c state x headers now stamp)
  unfolding handle_list_audit_log
  handle_list_audit_log-Keeps x headers now stamp =
      Keeps-bind _ _ (require_admin-Keeps c state key holds headers now stamp) λ did.
        Keeps-bind _ _ (Keeps-map_err _ _ (query-Keeps (IsValid state) _)) λ rows. Keeps-lift _
