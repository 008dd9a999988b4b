-- ===== src/Oatproxy/Server/Token/Grants.antt =====
-- What the token endpoint hands out, for any storage backend that keeps the laws of the store.
use istat.Prelude.{◌+◌, String, ◌≡◌, refl, sym, ap, subst, ◌∙◌, some, inr, unwrap_or}
use istat.Text.{join_space}
use istat.Outcome.{Outcome, ok}
use istat.Action.Inversion.{bind-ok, lift-ok, ok_or-ok, from_result-ok}
use istat.Time.{DateTime, timestamp}
use istat.Http.{HeaderMap}
use istat.Oatproxy.Dpop.{extract_dpop_jkt}
use istat.Oatproxy.Store.{PendingAuth}
use istat.Oatproxy.Error.{Error}
use istat.Oatproxy.Crypto.{Crypto, IsSound}
use istat.Oatproxy.Jwt.Laws.{claims, verdict}
use istat.Oatproxy.Token.{validate_downstream_jwt, TokenManager}
use istat.Oatproxy.Token.RoundTrip.{Holds, validate-issue, issue-same}
use istat.Oatproxy.Store.Spec.{
  View, put, clear, put_pair, StoreLaws, AuthLaws, act-ok, mapped_act-ok,
}
use istat.Oatproxy.Server.{OAuthProxyServer, Externals}
use istat.Oatproxy.Server.Requests.{TokenResponse, TokenRequest}
use istat.Oatproxy.Server.Token.{issue_tokens, authorization_code_grant, refresh_token_grant}

-- the value of a run that succeeds, or a given one
abbrev value_or {ℓ} : {E A : Type ℓ} → A → Outcome E A → A
value_or a (ok b) = b
value_or a _ = a

module _ {J D : Type 0} where
  -- the maps once a session has been granted
  abbrev pub granted :
      (D → String) → (D → String) → String → String → String → D → View J D → View J D
  granted did_of sid_of refresh did sid d v = record v {
    refresh = put refresh (did, sid) v.refresh;
    sessions = put_pair (did_of d) (sid_of d) d v.sessions;
    active = put did sid v.active;
  }

module _ {K V G J D Q U S : Type 0} (c : Crypto K V G) (server : OAuthProxyServer K J D Q S)
    (x : Externals J D U S) (view : S → View J D) (sound : IsSound c) where
  -- A response that grants account `did` its session `sid`, with a token bound to `jkt`.
  pub record Granted (jkt did sid refresh : String) (now : DateTime) (before after : View J D)
      (r : TokenResponse) : Type 0 where
    pub parsed : String
    pub session : D
    pub did_parsed : x.parse_did did ≡ inr parsed
    pub session_found : before.sessions parsed sid ≡ some session
    pub sub_is : r.sub ≡ did
    pub refresh_is : r.refresh_token ≡ some refresh
    pub scope_is : r.scope ≡ unwrap_or (x.token_scope session) (join_space server.config.scope)
    pub token_valid :
        (b : TokenManager) (later : DateTime) (s : S)
        → validate_downstream_jwt c b server.key_store r.access_token later s ≡ (
          verdict c sound b.issuer later (
              claims server.token_manager.issuer did jkt r.scope
                (timestamp now + server.config.downstream_token_expiry_seconds)
                (timestamp now)),
          s,
        )
    pub maps : after ≡ granted x.account_did x.session_id refresh did sid session before

  -- A code that was exchanged: the pending authorization it stood for, which is gone.
  pub record Exchanged (jkt code refresh : String) (now : DateTime) (before after : View J D)
      (r : TokenResponse) : Type 0 where
    pub auth_of : PendingAuth
    pub was_pending : before.pending code ≡ some auth_of
    pub grants :
        Granted jkt auth_of.account_did auth_of.upstream_session_id refresh now
          (record before { pending = clear code before.pending })
          after
          r

module _ {K V G J D Q U S : Type 0} (c : Crypto K V G) (server : OAuthProxyServer K J D Q S)
    (x : Externals J D U S) (view : S → View J D) (sound : IsSound c) (key : K)
    (holds : Holds server.key_store key) (laws : StoreLaws server.session_store view)
    (auth : AuthLaws server.client_auth_store view x.account_did x.session_id) where
  pub issue_tokens-ok :
      (jkt did sid refresh : String) (now : DateTime) (s s' : S) (r : TokenResponse)
      → issue_tokens c server x jkt did sid refresh now s ≡ (ok r, s')
      → Granted c server x view sound jkt did sid refresh now (view s) (view s') r
  unfolding issue_tokens
  issue_tokens-ok jkt did sid refresh now s s' r h = lift-ok _ _ s r s' h λ parsed e1 h1.
      mapped_act-ok view _ _ _ s r s' (auth.get_session-Acts parsed sid s) h1 λ s2 v2 h2.
        lift-ok _ _ s2 r s' h2 λ session e3 h3. bind-ok _ _ s2 r s' h3 λ token s4 e4 h4.
          act-ok view _ _ s4 r s' (laws.store_refresh-Acts refresh did sid s4) h4 λ s5 v5 h5.
            mapped_act-ok view _ _ _ s5 r s' (auth.upsert_session-Acts session s5) h5 λ s6 v6 h6.
              act-ok view _ _ s6 r s' (laws.store_active-Acts did sid s6) h6 λ s7 v7 h7.
                let maps : view s7
                    ≡ granted x.account_did x.session_id refresh did sid session (view s) =
                  v7
                  ∙ ap (λ (v : View J D). record v { active = put did sid v.active })
                      (v6
                        ∙ ap
                            (λ (v : View J D). record v {
                              sessions =
                                  put_pair (x.account_did session) (x.session_id session) session
                                    v.sessions;
                            })
                            (v5
                              ∙ ap
                                  (λ (v : View J D). record v {
                                    refresh = put refresh (did, sid) v.refresh;
                                  })
                                  (ap view (
                                      sym (
                                        issue-same c server.key_store key sound holds _ _ _ _ _ _ s2
                                          s4 token e4))
                                    ∙ v2))) in
                subst
                  (λ (p : TokenResponse × S).
                    Granted c server x view sound jkt did sid refresh now (view s) (view p.1) p.0)
                  (ap (λ (p : Outcome Error TokenResponse × S). (value_or r p.0, p.1)) h7)
                  (record {
                    parsed = parsed;
                    session = session;
                    did_parsed = from_result-ok _ _ _ e1;
                    session_found = ok_or-ok _ _ _ e3;
                    sub_is = refl;
                    refresh_is = refl;
                    scope_is = refl;
                    token_valid = λ b later t.
                        validate-issue c server.key_store key sound holds server.token_manager b did
                          jkt _ _ now later s2 s4 t token e4;
                    maps = maps;
                  })

  pub authorization_code_grant-ok :
      (headers : HeaderMap) (params : TokenRequest) (code refresh : String) (now : DateTime)
      (s s' : S) (r : TokenResponse)
      → params.code ≡ some code
      → authorization_code_grant c server x headers params refresh now s ≡ (ok r, s')
      → (jkt : String) × (extract_dpop_jkt c x.jwk_from_value headers ≡ ok jkt)
        × Exchanged c server x view sound jkt code refresh now (view s) (view s') r
  unfolding authorization_code_grant
  authorization_code_grant-ok headers params code refresh now s s' r has h =
      lift-ok _ _ s r s' h λ code' e1 h1. lift-ok _ _ s r s' h1 λ jkt e2 h2.
        act-ok view _ _ s r s' (laws.consume_pending_auth-Acts code' s) h2 λ s3 v3 h3.
          lift-ok _ _ s3 r s' h3 λ a e4 h4.
            let the_code : code ≡ code' = cc (has, ok_or-ok _ _ _ e1) in
            (
              jkt,
              e2,
              subst (λ k. Exchanged c server x view sound jkt k refresh now (view s) (view s') r)
                  (sym the_code)
                  (record {
                    auth_of = a;
                    was_pending = ok_or-ok _ _ _ e4;
                    grants =
                        subst
                          (λ v.
                            Granted c server x view sound jkt a.account_did a.upstream_session_id
                              refresh now v (view s') r)
                          v3
                          (issue_tokens-ok jkt a.account_did a.upstream_session_id refresh now s3 s'
                            r h4);
                  }),
            )

  pub refresh_token_grant-ok :
      (headers : HeaderMap) (params : TokenRequest) (token refresh : String) (now : DateTime)
      (s s' : S) (r : TokenResponse)
      → params.refresh_token ≡ some token
      → refresh_token_grant c server x headers params refresh now s ≡ (ok r, s')
      → (jkt : String) × (mapped : String × String) × (extract_dpop_jkt c x.jwk_from_value headers
          ≡ ok jkt)
        × ((view s).refresh token ≡ some mapped)
        × Granted c server x view sound jkt mapped.0 mapped.1 refresh now (view s) (view s') r
  unfolding refresh_token_grant
  refresh_token_grant-ok headers params token refresh now s s' r has h =
      lift-ok _ _ s r s' h λ token' e1 h1. lift-ok _ _ s r s' h1 λ jkt e2 h2.
        act-ok view _ _ s r s' (laws.get_refresh-Acts token' s) h2 λ s3 v3 h3.
          lift-ok _ _ s3 r s' h3 λ mapped e4 h4.
            let the_token : token' ≡ token = cc (has, ok_or-ok _ _ _ e1) in
            (
              jkt,
              mapped,
              e2,
              subst (λ t. (view s).refresh t ≡ some mapped) the_token (ok_or-ok _ _ _ e4),
              subst
                  (λ v.
                    Granted c server x view sound jkt mapped.0 mapped.1 refresh now v (view s') r)
                  v3 (issue_tokens-ok jkt mapped.0 mapped.1 refresh now s3 s' r h4),
            )
