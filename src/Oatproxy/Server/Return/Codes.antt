-- ===== src/Oatproxy/Server/Return/Codes.antt =====
-- The code that the proxy hands out after an upstream login, for any storage backend that keeps the
-- laws of the store. `callback` writes only to the tables of upstream sessions and requests.
use istat.Prelude.{String, ◌≡◌, sym, ap, subst, ◌∙◌, Option, some, ◌+◌}
use istat.Outcome.{Outcome, ok}
use istat.Action.Inversion.{bind-ok, lift-ok, ok_or-ok, map_err-ok}
use istat.Time.{DateTime, minutes}
use istat.Http.{Response, HeaderMap}
use istat.Oatproxy.Error.{Error}
use istat.Oatproxy.Crypto.{Crypto, IsSound}
use istat.Oatproxy.Store.{PendingAuth, DownstreamClientInfo}
use istat.Oatproxy.Store.Spec.{View, put, clear, StoreLaws, AuthLaws, act-ok, Acts-ok, put-same}
use istat.Oatproxy.Token.RoundTrip.{Holds}
use istat.Oatproxy.Server.{OAuthProxyServer, Externals, UpstreamCallback}
use istat.Oatproxy.Server.Requests.{CallbackParams, TokenResponse, token_response, redirect}
use istat.Oatproxy.Server.Return.{store_dpop_key, issue_code, handle_return, return_url}
use istat.Oatproxy.Server.Token.{handle_token}
use istat.Oatproxy.Server.Token.Codes.{AsksCode, handle_token-exchange}

-- All maps but those of upstream sessions are as before.
abbrev pub KeepsFlow : {J D U S : Type 0} → Externals J D U S → (S → View J D) → Type 0
KeepsFlow {S = S} x view =
    (p : UpstreamCallback) (s : S)
    → view (x.callback p s).1 ≡ record (view s) { sessions = (view (x.callback p s).1).sessions }

abbrev pub pending_for :
    {J D U S : Type 0} → Externals J D U S → D → DownstreamClientInfo → DateTime → PendingAuth
pending_for x d info now = record {
  account_did = x.account_did d;
  upstream_session_id = x.session_id d;
  redirect_uri = info.redirect_uri;
  state = info.state;
  expires_at = now + minutes 10;
}

module _ {K V G J D Q U S : Type 0} (c : Crypto K V G) (server : OAuthProxyServer K J D Q S)
    (x : Externals J D U S) (view : S → View J D) where
  -- What a successful callback did: the upstream server confirmed a session, the client's
  -- information was there under the state and is gone, and the code stands for the session.
  pub record Returned (params : CallbackParams) (upstream_code state code : String) (now : DateTime)
      (s : S) (after : View J D) (resp : Response) : Type 0 where
    pub session_data : D
    pub info : DownstreamClientInfo
    pub confirmed :
        (x.callback (record { code = upstream_code; state = some state; iss = params.iss }) s).0
        ≡ ok session_data
    pub client_known : (view s).clients state ≡ some info
    pub redirects :
        resp ≡ redirect (return_url c server x code (pending_for x session_data info now))
    pub client_gone : after.clients ≡ clear state (view s).clients
    pub code_stored :
        after.pending ≡ put code (pending_for x session_data info now) (view s).pending
    pub refresh_same : after.refresh ≡ (view s).refresh

  module _ (laws : StoreLaws server.session_store view) (flow : KeepsFlow x view) where
    -- the maps of codes and clients after the key is stored
    abbrev SameFlow : S → S → Type 0
    SameFlow s t =
        ((view t).clients ≡ (view s).clients)
        × ((view t).pending ≡ (view s).pending)
        × ((view t).refresh ≡ (view s).refresh)

    issue_code-ok :
        (params : CallbackParams) (upstream_code state code : String) (now : DateTime) (s t s' : S)
        (resp : Response) (d : D)
        → (x.callback (record { code = upstream_code; state = some state; iss = params.iss }) s).0
          ≡ ok d
        → SameFlow s t
        → issue_code c server x state code now d t ≡ (ok resp, s')
        → Returned params upstream_code state code now s (view s') resp
    unfolding issue_code
    issue_code-ok params upstream_code state code now s t s' resp d confirmed (cs, ps, rs) h =
        act-ok view _ _ t resp s' (laws.consume_client_acts state t) h λ t1 v1 h1.
          lift-ok _ _ t1 resp s' h1 λ info e2 h2.
            act-ok view _ _ t1 resp s' (laws.store_pending_auth-Acts code _ t1) h2 λ t2 v2 h3.
              let ends : view s' ≡ view t2 =
                ap view (sym (ap (λ (q : Outcome Error Response × S). q.1) h3)) in
              record {
                session_data = d;
                info = info;
                confirmed = confirmed;
                client_known =
                    sym (ap (λ (m : String → Option DownstreamClientInfo). m state) cs)
                    ∙ ok_or-ok _ _ _ e2;
                redirects = cc (ap (λ (q : Outcome Error Response × S). q.0) h3);
                client_gone =
                    ap (λ (v : View J D). v.clients) (ends ∙ v2)
                    ∙ ap (λ (v : View J D). v.clients) v1
                    ∙ ap (clear state) cs;
                code_stored =
                    ap (λ (v : View J D). v.pending) (ends ∙ v2)
                    ∙ ap (put code (pending_for x d info now))
                        (ap (λ (v : View J D). v.pending) v1 ∙ ps);
                refresh_same =
                    ap (λ (v : View J D). v.refresh) (ends ∙ v2)
                    ∙ ap (λ (v : View J D). v.refresh) v1
                    ∙ rs;
              }

    store_dpop_key-ok :
        (d : D) (s t : S) → store_dpop_key c server x d s ≡ (ok tt, t) → SameFlow s t
    unfolding store_dpop_key
    store_dpop_key-ok d s t h = lift-ok _ _ s tt t h λ j f1 g1. lift-ok _ _ s tt t g1 λ jwk f2 g2.
        lift-ok _ _ s tt t g2 λ jkt f3 g3.
          let (unit, v) = Acts-ok view (laws.store_dpop_key-Acts (x.session_id d) jkt jwk s) g3 in
          (
            ap (λ (v : View J D). v.clients) v,
            ap (λ (v : View J D). v.pending) v,
            ap (λ (v : View J D). v.refresh) v,
          )

    callback-flow :
        (p : UpstreamCallback) (s t : S) (d : D) → x.callback p s ≡ (ok d, t) → SameFlow s t
    callback-flow p s t d h =
        let v = ap view (sym (ap (λ (q : Outcome String D × S). q.1) h)) ∙ flow p s in
        (
          ap (λ (v : View J D). v.clients) v,
          ap (λ (v : View J D). v.pending) v,
          ap (λ (v : View J D). v.refresh) v,
        )

    pub handle_return-ok :
        (params : CallbackParams) (upstream_code state code : String) (now : DateTime) (s s' : S)
        (resp : Response)
        → params.code ≡ some upstream_code
        → params.state ≡ some state
        → handle_return c server x params code now s ≡ (ok resp, s')
        → Returned params upstream_code state code now s (view s') resp
    unfolding handle_return
    handle_return-ok params upstream_code state code now s s' resp has_code has_state h =
        lift-ok _ _ s resp s' h λ unit e1 h1. lift-ok _ _ s resp s' h1 λ upstream_code' e2 h2.
          lift-ok _ _ s resp s' h2 λ state' e3 h3. bind-ok _ _ s resp s' h3 λ d s1 e4 h4.
            bind-ok _ _ s1 resp s' h4 λ unit' s2 e5 h5.
              let called = map_err-ok _ _ s d s1 e4 in
              let the_code : upstream_code' ≡ upstream_code = cc (has_code, ok_or-ok _ _ _ e2) in
              let the_state : state' ≡ state = cc (has_state, ok_or-ok _ _ _ e3) in
              let (cs, ps, rs) = callback-flow _ s s1 d called in
              let (cs', ps', rs') = store_dpop_key-ok d s1 s2 e5 in
              subst (λ k. Returned params k state code now s (view s') resp) the_code
                (subst (λ k. Returned params upstream_code' k code now s (view s') resp) the_state
                  (issue_code-ok params upstream_code' state' code now s s2 s' resp d
                    (ap (λ (q : Outcome String D × S). q.0) called) (cs' ∙ cs, ps' ∙ ps, rs' ∙ rs)
                    h5))

module _ {K V G J D Q U S : Type 0} (c : Crypto K V G) (server : OAuthProxyServer K J D Q S)
    (x : Externals J D U S) (view : S → View J D) (sound : IsSound c) (key : K)
    (holds : Holds server.key_store key) (laws : StoreLaws server.session_store view)
    (auth : AuthLaws server.client_auth_store view x.account_did x.session_id)
    (flow : KeepsFlow x view) where
  -- For a storage backend that keeps the laws of the store, when `handle_return` succeeds with a
  -- code and the token endpoint later accepts that code from a state where the code's pending
  -- authorization is the one that was left, the upstream callback had answered a session; the
  -- token's subject is that session's account, and the refresh token and the active session
  -- stand for that account and session.
  pub login-token :
      (params : CallbackParams) (upstream_code state code : String) (t t' : DateTime)
      (s s' u u' : S) (resp resp' : Response) (headers : HeaderMap) (body refresh : String)
      → params.code ≡ some upstream_code
      → params.state ≡ some state
      → AsksCode c server x headers body code
      → handle_return c server x params code t s ≡ (ok resp, s')
      → (view u).pending code ≡ (view s').pending code
      → handle_token c server x headers body refresh t' u ≡ (ok resp', u')
      → (d : D) × (r : TokenResponse) × ((x.callback
            (record { code = upstream_code; state = some state; iss = params.iss })
            s).0
          ≡ ok d)
        × (resp' ≡ token_response r)
        × (r.sub ≡ x.account_did d)
        × ((view u').refresh refresh ≡ some (x.account_did d, x.session_id d))
        × ((view u').active (x.account_did d) ≡ some (x.session_id d))
  login-token params upstream_code state code t t' s s' u u' resp resp' headers body refresh
        has_code has_state asks h same h' =
      let back =
        handle_return-ok c server x view laws flow params upstream_code state code t s s' resp
          has_code has_state h in
      let (r, jkt, is, found, done) =
        handle_token-exchange c server x view sound key holds laws auth headers body code refresh t'
          u u' resp' asks h' in
      let stored : (view u).pending code ≡ some (pending_for x back.session_data back.info t) =
        same
        ∙ ap (λ (m : String → Option PendingAuth). m code) back.code_stored
        ∙ put-same code _ (view s).pending in
      let a : done.auth_of ≡ pending_for x back.session_data back.info t =
        cc (stored, done.was_pending) in
      let d = x.account_did back.session_data in
      let sid = x.session_id back.session_data in
      let who : done.auth_of.account_did ≡ d = ap (λ (p : PendingAuth). p.account_did) a in
      let which : done.auth_of.upstream_session_id ≡ sid =
        ap (λ (p : PendingAuth). p.upstream_session_id) a in
      (
        back.session_data,
        r,
        back.confirmed,
        is,
        done.grants.sub_is ∙ who,
        ap (λ (v : View J D). v.refresh refresh) done.grants.maps
            ∙ put-same refresh (done.auth_of.account_did, done.auth_of.upstream_session_id)
                (view u).refresh
            ∙ ap (λ (p : PendingAuth). some (p.account_did, p.upstream_session_id)) a,
        subst (λ k. (view u').active k ≡ some sid) who
            (ap (λ (v : View J D). v.active done.auth_of.account_did) done.grants.maps
              ∙ put-same done.auth_of.account_did done.auth_of.upstream_session_id (view u).active
              ∙ ap some which),
      )
