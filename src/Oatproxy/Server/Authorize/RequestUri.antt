-- ===== src/Oatproxy/Server/Authorize/RequestUri.antt =====
-- A pushed request is used once, in its time, for any storage backend that keeps the laws of the
-- store. `start_auth` writes only to the tables of upstream requests.
use istat.Prelude.{◌+◌, ◌≤◌, String, ◌≡◌, sym, ap, subst, ◌∙◌, arith, none, some, ltb, not}
use istat.Outcome.{Outcome, ok, ensure}
use istat.Action.Inversion.{bind-ok, lift-ok, ok_or-ok, map_err-ok}
use istat.Time.{DateTime, minutes}
use istat.Http.{Response}
use istat.Oatproxy.Error.{Error}
use istat.Oatproxy.Store.{ParData}
use istat.Oatproxy.Store.Spec.{View, put, clear, StoreLaws, act-ok, clear-same}
use istat.Oatproxy.Server.{OAuthProxyServer, Externals, AuthorizeOptions}
use istat.Oatproxy.Server.Requests.{AuthorizeParams, redirect}
use istat.Oatproxy.Server.Authorize.{
  Authorization, of_par, of_request_uri, authorization, start, handle_authorize, requested_scopes,
}

abbrev pub KeepsView : {J D U S : Type 0} → Externals J D U S → (S → View J D) → Type 0
KeepsView {S = S} x view =
    (hint : String) (o : AuthorizeOptions) (s : S) → view (x.start_auth hint o s).1 ≡ view s

in_time :
    (expires now : DateTime) (e : Error) → ensure (not (ltb expires now)) e ≡ ok tt → now ≤ expires
in_time expires now e h = ground (arith, h)

module _ {K J D Q U S : Type 0} (server : OAuthProxyServer K J D Q S) (x : Externals J D U S)
    (view : S → View J D) where
  -- What a successful request by a `request_uri` did: the pushed request was there and in time; it
  -- is gone, and the client's information stands under the proxy's state for ten minutes.
  pub record Started (request_uri proxy_state : String) (now t : DateTime) (s : S)
      (after : View J D) (resp : Response) : Type 0 where
    pub par_data : ParData
    pub login_hint : String
    pub auth_url : String
    pub between : S
    pub was_pushed : (view s).par request_uri ≡ some par_data
    pub in_time : now ≤ par_data.expires_at
    pub hint_given : par_data.login_hint ≡ some login_hint
    pub upstream :
        (x.start_auth login_hint
          (record {
            scopes = requested_scopes x.parse_scope server.config.scope par_data.scope;
            state = some proxy_state;
          })
          between).0
        ≡ ok auth_url
    pub redirects : resp ≡ redirect auth_url
    pub maps : after ≡ record (view s) {
      par = clear request_uri (view s).par;
      clients =
          put proxy_state
            (record {
              redirect_uri = par_data.redirect_uri;
              state = par_data.state;
              response_type = par_data.response_type;
              scope = par_data.scope;
              expires_at = t + minutes 10;
            })
            (view s).clients;
    }

  module _ (laws : StoreLaws server.session_store view) (keeps : KeepsView x view) where
    abbrev Pushed : String → DateTime → S → Authorization → S → Type 0
    Pushed request_uri now s a s1 =
        (p : ParData) × ((view s).par request_uri ≡ some p)
        × (now ≤ p.expires_at)
        × (of_par p ≡ a)
        × (view s1 ≡ record (view s) { par = clear request_uri (view s).par })

    of_request_uri-ok :
        (request_uri : String) (now : DateTime) (s s1 : S) (a : Authorization)
        → of_request_uri server.session_store request_uri now s ≡ (ok a, s1)
        → Pushed request_uri now s a s1
    unfolding of_request_uri
    of_request_uri-ok request_uri now s s1 a h =
        act-ok view _ _ s a s1 (laws.consume_par_acts request_uri s) h λ s2 v2 g2.
          lift-ok _ _ s2 a s1 g2 λ p f3 g3. lift-ok _ _ s2 a s1 g3 λ unit f4 g4. (
            p,
            ok_or-ok _ _ _ f3,
            in_time p.expires_at now _ f4,
            cc (ap (λ (q : Outcome Error Authorization × S). q.0) g4),
            ap view (sym (ap (λ (q : Outcome Error Authorization × S). q.1) g4)) ∙ v2,
          )

    start-ok :
        (request_uri proxy_state : String) (now t : DateTime) (s s1 s' : S) (resp : Response)
        (p : ParData)
        → (view s).par request_uri ≡ some p
        → now ≤ p.expires_at
        → view s1 ≡ record (view s) { par = clear request_uri (view s).par }
        → start server x proxy_state t (of_par p) s1 ≡ (ok resp, s')
        → Started request_uri proxy_state now t s (view s') resp
    unfolding start
    start-ok request_uri proxy_state now t s s1 s' resp p found in_time v1 h =
        lift-ok _ _ s1 resp s' h λ login_hint e2 h2. bind-ok _ _ s1 resp s' h2 λ auth_url s3 e3 h3.
          act-ok view _ _ s3 resp s' (laws.store_client_acts proxy_state _ s3) h3 λ s4 v4 h4.
            let called = map_err-ok _ _ s1 auth_url s3 e3 in
            record {
              par_data = p;
              login_hint = login_hint;
              auth_url = auth_url;
              between = s1;
              was_pushed = found;
              in_time = in_time;
              hint_given = ok_or-ok _ _ _ e2;
              upstream = ap (λ (q : Outcome String String × S). q.0) called;
              redirects = cc (ap (λ (q : Outcome Error Response × S). q.0) h4);
              maps =
                  ap view (sym (ap (λ (q : Outcome Error Response × S). q.1) h4))
                  ∙ v4
                  ∙ ap
                      (λ (v : View J D). record v {
                        clients =
                            put proxy_state
                              (record {
                                redirect_uri = p.redirect_uri;
                                state = p.state;
                                response_type = p.response_type;
                                scope = p.scope;
                                expires_at = t + minutes 10;
                              })
                              v.clients;
                      })
                      (ap view (sym (ap (λ (q : Outcome String String × S). q.1) called))
                        ∙ keeps login_hint _ s1
                        ∙ v1);
            }

    -- When `handle_authorize` succeeds with a `request_uri`, the pushed request was stored and
    -- not expired and had a login hint, the upstream login was started for that hint with the
    -- requested scopes, and the answer redirects to its URL; the pushed request is gone and the
    -- client's information stands under the proxy's state for ten minutes.
    pub handle_authorize-ok :
        (params : AuthorizeParams) (request_uri proxy_state : String) (now t : DateTime) (s s' : S)
        (resp : Response)
        → params.request_uri ≡ some request_uri
        → handle_authorize server x params proxy_state now t s ≡ (ok resp, s')
        → Started request_uri proxy_state now t s (view s') resp
    unfolding handle_authorize authorization
    handle_authorize-ok params request_uri proxy_state now t s s' resp given h =
        bind-ok _ _ s resp s' h λ a s1 e1 h1.
          let (p, found, in_time, same, v1) = of_request_uri-ok request_uri now s s1 a (
            subst (λ u. authorization server.session_store params u now s ≡ (ok a, s1)) given e1) in
          start-ok request_uri proxy_state now t s s1 s' resp p found in_time v1
            (subst (λ b. start server x proxy_state t b s1 ≡ (ok resp, s')) (sym same) h1)

    -- Once `handle_authorize` has succeeded with a `request_uri`, no authorization by that
    -- `request_uri` succeeds in any state whose pushed request under it is as the first one left
    -- it, if starting the upstream login keeps the maps.
    pub request_uri_used_once :
        (params params' : AuthorizeParams) (request_uri proxy_state proxy_state' : String)
        (now t now' t' : DateTime) (s s' u u' : S) (resp resp' : Response)
        → params.request_uri ≡ some request_uri
        → params'.request_uri ≡ some request_uri
        → handle_authorize server x params proxy_state now t s ≡ (ok resp, s')
        → (view u).par request_uri ≡ (view s').par request_uri
        → ¬ (handle_authorize server x params' proxy_state' now' t' u ≡ (ok resp', u'))
    request_uri_used_once params params' request_uri proxy_state proxy_state' now t now' t' s s' u
          u' resp resp' given given' h same again =
        let first = handle_authorize-ok params request_uri proxy_state now t s s' resp given h in
        let second =
          handle_authorize-ok params' request_uri proxy_state' now' t' u u' resp' given' again in
        let gone : (view u).par request_uri ≡ none =
          same
          ∙ ap (λ (v : View J D). v.par request_uri) first.maps
          ∙ clear-same request_uri (view s).par in
        absurd (cc (gone, second.was_pushed))
