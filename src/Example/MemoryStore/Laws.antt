-- ===== src/Example/MemoryStore/Laws.antt =====
-- The store in memory against the specification of a backend.
use istat.Prelude.{
  String, Bool, true, false, not, ◌≡◌, refl, fun_ext, Option, none, some, is_some, arith, inl, inr,
  eq_iff,
}
use istat.Outcome.{Result, ok, from_result}
use istat.Action.{lift, ◌>>=◌}
use istat.Time.{DateTime}
use istat.Table.{string_key, pair_key, find, upsert}
use istat.Table.Laws.{find-upsert, find-delete}
use istat.Oatproxy.ClientAuthStore.{serde}
use istat.Oatproxy.Store.Spec.{View, Acts, mark, put_pair, StoreLaws, AlwaysAnswers, AuthLaws}
use istat.Example.MemoryStore.{
  MemoryStore, MemoryExternals, session_store, auth_store, mark_nonce, get_session, upsert_session,
  insert_session, parse, parsed, write,
}

abbrev value : {A : Type 0} → Result String A → Option A
value (inl m) = none
value (inr a) = some a

abbrev value_of : {A : Type 0} → (String → Result String A) → Option String → Option A
value_of from_str none = none
value_of from_str (some text) = value (from_str text)

module _ {J D R : Type 0} (x : MemoryExternals D R) where
  abbrev pub view : MemoryStore J → View J D
  view m = record {
    pending = λ k. find k m.pending_auths;
    clients = λ k. find k m.downstream_clients;
    par = λ k. find k m.par_data;
    refresh = λ k. find k m.refresh_tokens;
    active = λ k. find k m.active_sessions;
    dpop_keys = λ k. find k m.session_dpop_keys;
    dpop_nonces = λ k. find k m.session_dpop_nonces;
    used = λ k. is_some (find k m.used_nonces);
    sessions = λ did sid. value_of x.session_from_str (find (did, sid) m.oauth_sessions);
  }

  used-upsert :
      (jti j : String) (now : DateTime) (m : MemoryStore J)
      → is_some (find j (upsert jti now m.used_nonces))
        ≡ mark jti (λ k. is_some (find k m.used_nonces)) j
  used-upsert jti j now m = ground (arith, find-upsert jti j now m.used_nonces)

  used-again :
      (jti j : String) (m : MemoryStore J)
      → is_some (find jti m.used_nonces) ≡ true
      → is_some (find j m.used_nonces) ≡ mark jti (λ k. is_some (find k m.used_nonces)) j
  used-again jti j m h = ground (arith, h, eq_iff jti j)

  check-Acts :
      (now : DateTime) (jti : String) (m : MemoryStore J) (b : Bool)
      → is_some (find jti m.used_nonces) ≡ b
      → Acts view
          (mark_nonce b jti now m)
          (not b)
          (record (view m) { used = mark jti (view m).used })
          (view m)
  check-Acts now jti m true h =
      inl (refl, λ i. record (view m) { used = fun_ext (λ j. used-again jti j m h) i })
  check-Acts now jti m false h =
      inl (refl, λ i. record (view m) { used = λ j. used-upsert jti j now m i })

  memory-StoreLaws : (now : DateTime) → StoreLaws (session_store {J = J} now) view
  memory-StoreLaws now = record {
    store_pending_auth-Acts = λ k a m.
        inl (refl, λ i. record (view m) { pending = λ j. find-upsert k j a m.pending_auths i });
    consume_pending_auth-Acts = λ k m.
        inl (refl, λ i. record (view m) { pending = λ j. find-delete k j m.pending_auths i });
    store_client_acts = λ k a m.
        inl
          (refl, λ i. record (view m) { clients = λ j. find-upsert k j a m.downstream_clients i });
    consume_client_acts = λ k m.
        inl (refl, λ i. record (view m) { clients = λ j. find-delete k j m.downstream_clients i });
    store_par_acts =
        λ k a m. inl (refl, λ i. record (view m) { par = λ j. find-upsert k j a m.par_data i });
    consume_par_acts =
        λ k m. inl (refl, λ i. record (view m) { par = λ j. find-delete k j m.par_data i });
    store_refresh-Acts = λ k did sid m. inl (
      refl,
      λ i. record (view m) { refresh = λ j. find-upsert k j (did, sid) m.refresh_tokens i },
    );
    get_refresh-Acts = λ k m. inl (refl, refl);
    store_active-Acts = λ did sid m.
        inl
          (refl, λ i. record (view m) { active = λ j. find-upsert did j sid m.active_sessions i });
    get_active-Acts = λ did m. inl (refl, refl);
    store_dpop_key-Acts = λ sid jkt key m. inl (
      refl,
      λ i. record (view m) { dpop_keys = λ j. find-upsert sid j (jkt, key) m.session_dpop_keys i },
    );
    get_dpop_key-Acts = λ sid m. inl (refl, refl);
    update_nonce-Acts = λ sid nonce m. inl (
      refl,
      λ i. record (view m) { dpop_nonces = λ j. find-upsert sid j nonce m.session_dpop_nonces i },
    );
    get_nonce-Acts = λ sid m. inl (refl, refl);
    check_nonce-Acts = λ jti m. check-Acts now jti m (is_some (find jti m.used_nonces)) refl;
  }

  nonce-Answers :
      (now : DateTime) (jti : String) (m : MemoryStore J) (b : Bool)
      → (a : Bool) × ((mark_nonce b jti now m).0 ≡ ok a)
  nonce-Answers now jti m true = (false, refl)
  nonce-Answers now jti m false = (true, refl)

  memory-AlwaysAnswers : (now : DateTime) → AlwaysAnswers (session_store {J = J} now)
  memory-AlwaysAnswers now = record {
    pending_stored = λ k a m. (tt, refl);
    pending_consumed = λ k m. (find k m.pending_auths, refl);
    client_stored = λ k a m. (tt, refl);
    client_consumed = λ k m. (find k m.downstream_clients, refl);
    par_stored = λ k a m. (tt, refl);
    par_consumed = λ k m. (find k m.par_data, refl);
    refresh_stored = λ k did sid m. (tt, refl);
    refresh_read = λ k m. (find k m.refresh_tokens, refl);
    active_stored = λ did sid m. (tt, refl);
    active_read = λ did m. (find did m.active_sessions, refl);
    key_stored = λ sid jkt key m. (tt, refl);
    key_read = λ sid m. (find sid m.session_dpop_keys, refl);
    nonce_stored = λ sid nonce m. (tt, refl);
    nonce_read = λ sid m. (find sid m.session_dpop_nonces, refl);
    nonce_checked = λ jti m. nonce-Answers now jti m (is_some (find jti m.used_nonces));
  }

  -- Every method of the in-memory `OAuthSessionStore` that the specification names answers in
  -- every state and acts on the maps that the hash maps stand for as the trait demands.
  pub memory_store-StoreLaws :
      (now : DateTime)
      → StoreLaws (session_store {J = J} now) view × AlwaysAnswers (session_store {J = J} now)
  memory_store-StoreLaws now = (memory-StoreLaws now, memory-AlwaysAnswers now)

  parse-Acts :
      (m : MemoryStore J) (text : Option String) (r : Result String D)
      → Acts view (parsed r, m) (value r) (view m) (view m)
  parse-Acts m text (inl e) = inr (serde e, refl, refl)
  parse-Acts m text (inr d) = inl (refl, refl)

  found-Acts :
      (m : MemoryStore J) (text : Option String)
      → Acts view
          (parse x.session_from_str text, m)
          (value_of x.session_from_str text)
          (view m)
          (view m)
  found-Acts m none = inl (refl, refl)
  found-Acts m (some t) = parse-Acts m (some t) (x.session_from_str t)

  pub get_session-Acts :
      (did sid : String) (m : MemoryStore J)
      → Acts view (get_session x did sid m) ((view m).sessions did sid) (view m) (view m)
  unfolding get_session
  get_session-Acts did sid m = found-Acts m (find (did, sid) m.oauth_sessions)

  stored-session :
      (d : D) (text did sid : String) (m : MemoryStore J)
      → x.session_from_str text ≡ inr d
      → value_of x.session_from_str (find (did, sid) (insert_session x d text m).oauth_sessions)
        ≡ put_pair (x.session_account_did d) (x.session_session_id d) d (view m).sessions did sid
  stored-session d text did sid m back = ground (
    arith,
    find-upsert (x.session_account_did d, x.session_session_id d) (did, sid) text m.oauth_sessions,
    back,
  )

  insert-Acts :
      (d : D) (m : MemoryStore J) (r : Result String String)
      → ((text : String) → r ≡ inr text → x.session_from_str text ≡ inr d)
      → Acts view
          ((lift (from_result serde r) >>= λ text. write (insert_session x d text)) m)
          tt
          (record (view m) {
            sessions =
                put_pair (x.session_account_did d) (x.session_session_id d) d (view m).sessions;
          })
          (view m)
  unfolding ◌>>=◌
  insert-Acts d m (inl e) back = inr (serde e, refl, refl)
  insert-Acts d m (inr text) back = inl (
    refl,
    λ i. record (view m) {
      sessions = λ did sid. stored-session d text did sid m (back text refl) i;
    },
  )

  module _
      (session_read : (d : D) (text : String)
        → x.session_to_string d ≡ inr text
        → x.session_from_str text ≡ inr d) where
    upsert_session-Acts :
        (d : D) (m : MemoryStore J)
        → Acts view
            (upsert_session x d m)
            tt
            (record (view m) {
              sessions =
                  put_pair (x.session_account_did d) (x.session_session_id d) d (view m).sessions;
            })
            (view m)
    unfolding upsert_session
    upsert_session-Acts d m = insert-Acts d m (x.session_to_string d) (session_read d)

    -- Reading an upstream session of the in-memory store answers the map, and writing one sets
    -- it at its DID and session id, or the call fails and leaves the maps as they were, if the
    -- JSON form of a session reads back.
    pub memory_auth-AuthLaws :
        AuthLaws (auth_store {J = J} x) view x.session_account_did x.session_session_id
    memory_auth-AuthLaws = record {
      get_session-Acts = get_session-Acts;
      upsert_session-Acts = upsert_session-Acts;
    }
