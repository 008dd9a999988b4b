-- ===== src/Example/MemoryStore.antt =====
-- jacquard-oatproxy/examples/simple_server/memory_store.rs: a backend in memory. A `HashMap` is a
-- table in order of insertion; `values()` has no documented order, and the two methods that search
-- the values take the first of the table. Calls run one after the other, so no lock is poisoned.
pub mod Laws
use istat.Prelude.{
  String, Bool, true, false, Option, none, some, is_some, [], ◌∷◌, ◌==◌, if◌then◌else◌, inl, inr,
}
use istat.Outcome.{Outcome, Result, ok, err, from_result}
use istat.Action.{Action, pure, lift, ◌>>=◌}
use istat.Time.{DateTime}
use istat.Table.{Table, string_key, pair_key, find, upsert, delete}
use istat.Oatproxy.Error.{Error}
use istat.Oatproxy.Session.{OAuthSession}
use istat.Oatproxy.Store.{PendingAuth, DownstreamClientInfo, ParData, OAuthSessionStore, KeyStore}
use istat.Oatproxy.ClientAuthStore.{SessionStoreError, serde, ClientAuthStore}

pub record MemoryStore (J : Type 0) : Type 0 where
  pub sessions : Table String OAuthSession
  pub pending_auths : Table String PendingAuth
  pub downstream_clients : Table String DownstreamClientInfo
  pub par_data : Table String ParData
  pub refresh_tokens : Table String (String × String)
  pub active_sessions : Table String String
  pub session_dpop_keys : Table String (String × J)
  pub session_dpop_nonces : Table String String
  pub used_nonces : Table String DateTime
  pub auth_requests : Table String String
  pub oauth_sessions : Table (String × String) String

abbrev pub new : {J : Type 0} → MemoryStore J
new = record {
  sessions = [];
  pending_auths = [];
  downstream_clients = [];
  par_data = [];
  refresh_tokens = [];
  active_sessions = [];
  session_dpop_keys = [];
  session_dpop_nonces = [];
  used_nonces = [];
  auth_requests = [];
  oauth_sessions = [];
}

-- The JSON forms of the `jacquard_oauth` crate's types.
pub record MemoryExternals (D R : Type 0) : Type 0 where
  pub session_to_string : D → Result String String
  pub session_from_str : String → Result String D
  pub session_account_did : D → String
  pub session_session_id : D → String
  pub auth_request_to_string : R → Result String String
  pub auth_request_from_str : String → Result String R
  pub auth_request_state : R → String

-- `values().find(p)`
unfoldable pub find_value : {K V : Type 0} → (V → Bool) → Table K V → Option V
find_value p [] = none
find_value p ((k, v) ∷ t) = let rest = find_value p t in if p v then some v else rest

abbrev key_of : {J : Type 0} → Option (String × J) → Option J
key_of none = none
key_of (some (jkt, key)) = some key

module _ {E S : Type 0} where
  -- a write under the lock, and a read
  abbrev pub write : (S → S) → Action E S (Unit {0})
  write f s = (ok tt, f s)

  abbrev pub read : {A : Type 0} → (S → A) → Action E S A
  read f s = (ok (f s), s)

-- `remove`: what was there
abbrev pub take : {E S A : Type 0} → (S → A) → (S → S) → Action E S A
take f g s = (ok (f s), g s)

module _ {J : Type 0} where
  abbrev mark_nonce : Bool → String → DateTime → MemoryStore J → Outcome Error Bool × MemoryStore J
  mark_nonce true jti now m = (ok false, m)
  mark_nonce false jti now m = (ok true, record m { used_nonces = upsert jti now m.used_nonces })

  -- `now` is the clock's reading when a nonce is marked
  abbrev pub check_and_consume_nonce : DateTime → String → Action Error (MemoryStore J) Bool
  check_and_consume_nonce now jti m = mark_nonce (is_some (find jti m.used_nonces)) jti now m

module _ {J : Type 0} (now : DateTime) where
  abbrev pub session_store : OAuthSessionStore J (MemoryStore J)
  session_store = record {
    update_session =
        λ session. write (λ m. record m { sessions = upsert session.id session m.sessions });
    delete_session = λ id. write (λ m. record m { sessions = delete id m.sessions });
    get_by_dpop_jkt =
        λ jkt. read (λ m. find_value (λ s. s.downstream_dpop_key_thumbprint == jkt) m.sessions);
    store_pending_auth =
        λ code auth. write (λ m. record m { pending_auths = upsert code auth m.pending_auths });
    consume_pending_auth = λ code.
        take (λ m. find code m.pending_auths)
          (λ m. record m { pending_auths = delete code m.pending_auths });
    store_downstream_client_info = λ did info.
        write (λ m. record m { downstream_clients = upsert did info m.downstream_clients });
    consume_downstream_client_info = λ did.
        take (λ m. find did m.downstream_clients)
          (λ m. record m { downstream_clients = delete did m.downstream_clients });
    store_par_data =
        λ request_uri p. write (λ m. record m { par_data = upsert request_uri p m.par_data });
    consume_par_data = λ request_uri.
        take (λ m. find request_uri m.par_data)
          (λ m. record m { par_data = delete request_uri m.par_data });
    store_refresh_token_mapping = λ refresh_token account_did session_id. write (λ m. record m {
      refresh_tokens = upsert refresh_token (account_did, session_id) m.refresh_tokens;
    });
    get_refresh_token_mapping = λ refresh_token. read (λ m. find refresh_token m.refresh_tokens);
    store_active_session = λ did session_id.
        write (λ m. record m { active_sessions = upsert did session_id m.active_sessions });
    get_active_session = λ did. read (λ m. find did m.active_sessions);
    store_session_dpop_key = λ session_id dpop_jkt key. write (λ m. record m {
      session_dpop_keys = upsert session_id (dpop_jkt, key) m.session_dpop_keys;
    });
    get_session_dpop_key = λ session_id. read (λ m. find session_id m.session_dpop_keys);
    update_session_dpop_nonce = λ session_id nonce.
        write
          (λ m. record m { session_dpop_nonces = upsert session_id nonce m.session_dpop_nonces });
    get_session_dpop_nonce = λ session_id. read (λ m. find session_id m.session_dpop_nonces);
    check_and_consume_nonce = check_and_consume_nonce now;
  }

abbrev pub key_store : {K J : Type 0} → K → KeyStore K J (MemoryStore J)
key_store signing_key = record {
  get_signing_key = pure signing_key;
  get_dpop_key = λ thumbprint.
      read (λ m. key_of (find_value (λ entry. entry.0 == thumbprint) m.session_dpop_keys));
}

abbrev parsed : {A : Type 0} → Result String A → Outcome SessionStoreError (Option A)
parsed (inl m) = err (serde m)
parsed (inr a) = ok (some a)

-- a document that a map holds, read by `serde_json::from_str`
abbrev pub parse :
    {A : Type 0} → (String → Result String A) → Option String → Outcome SessionStoreError (Option A)
parse from_str none = ok none
parse from_str (some text) = parsed (from_str text)

module _ {J D R : Type 0} (x : MemoryExternals D R) where
  unfoldable pub get_session : String → String → Action SessionStoreError (MemoryStore J) (Option D)
  get_session did session_id m =
      (parse x.session_from_str (find (did, session_id) m.oauth_sessions), m)

  abbrev pub insert_session : D → String → MemoryStore J → MemoryStore J
  insert_session d serialized m = record m {
    oauth_sessions =
        upsert (x.session_account_did d, x.session_session_id d) serialized m.oauth_sessions;
  }

  unfoldable pub upsert_session : D → Action SessionStoreError (MemoryStore J) (Unit {0})
  upsert_session d = do
    serialized ← lift (from_result serde (x.session_to_string d))
    write (insert_session d serialized)

  unfoldable pub save_auth_req_info : R → Action SessionStoreError (MemoryStore J) (Unit {0})
  save_auth_req_info r = do
    serialized ← lift (from_result serde (x.auth_request_to_string r))
    write (λ m. record m {
      auth_requests = upsert (x.auth_request_state r) serialized m.auth_requests;
    })

  abbrev pub auth_store : ClientAuthStore D R (MemoryStore J)
  auth_store = record {
    get_session = get_session;
    upsert_session = upsert_session;
    delete_session = λ did session_id.
        write (λ m. record m { oauth_sessions = delete (did, session_id) m.oauth_sessions });
    get_auth_req_info = λ state m. (parse x.auth_request_from_str (find state m.auth_requests), m);
    save_auth_req_info = save_auth_req_info;
    delete_auth_req_info =
        λ state. write (λ m. record m { auth_requests = delete state m.auth_requests });
  }
