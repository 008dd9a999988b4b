-- ===== src/Server/SqliteStore/View.antt =====
-- The maps that the SQLite tables stand for. A row whose columns cannot be read back is in no map.
pub mod Flow
pub mod Tokens
pub mod Sessions
use istat.Prelude.{String, Bool, true, false, Option, none, some, inl, inr}
use istat.Outcome.{Result}
use istat.Time.{DateTime}
use istat.Table.{string_key, pair_key, find}
use istat.Oatproxy.Store.{PendingAuth, DownstreamClientInfo, ParData}
use istat.Oatproxy.Store.Spec.{View}
use istat.Server.Db.{Db, ProxyTables}
use istat.Server.SqliteStore.Externals.{Externals}
use istat.Server.SqliteStore.Flow.{
  pending_auth_of_row, downstream_client_info_of_row, par_data_of_row,
}

-- a value read from a column, if it can be read
abbrev pub decode : {A B : Type 0} → (A → B) → Result String A → Option B
decode f (inl m) = none
decode f (inr a) = some (f a)

abbrev pub read_row : {Row A : Type 0} → (Row → Option A) → Option Row → Option A
read_row f none = none
read_row f (some row) = f row

abbrev pub is_some : {A : Type 0} → Option A → Bool
is_some none = false
is_some (some a) = true

module _ {J S R : Type 0} (x : Externals J S R) where
  abbrev pub expiring : {Row A : Type 0} → (Row → String) → (Row → DateTime → A) → Row → Option A
  expiring expiry build row = decode (build row) (x.chrono.parse_from_rfc3339 (expiry row))

  abbrev pub key_of_row : String × String → Option (String × J)
  key_of_row (jkt, json) = decode (λ k. (jkt, k)) (x.jwk_from_str json)

  abbrev pub session_of_row : String → Option S
  session_of_row json = decode (λ d. d) (x.session_from_str json)

  abbrev pub view_of : ProxyTables → View J S
  view_of t = record {
    pending =
        λ k. read_row (expiring (λ r. r.expires_at) pending_auth_of_row) (find k t.pending_auths);
    clients = λ k.
        read_row (expiring (λ r. r.expires_at) downstream_client_info_of_row)
          (find k t.downstream_clients);
    par = λ k. read_row (expiring (λ r. r.expires_at) par_data_of_row) (find k t.par_data);
    refresh = λ k. find k t.refresh_tokens;
    active = λ k. find k t.active_sessions;
    dpop_keys = λ k. read_row key_of_row (find k t.session_dpop_keys);
    dpop_nonces = λ k. find k t.session_dpop_nonces;
    used = λ k. is_some (find k t.used_nonces);
    sessions = λ did sid. read_row session_of_row (find (did, sid) t.oauth_sessions);
  }

  abbrev pub view : Db → View J S
  view db = view_of db.proxy
