-- ===== src/Oatproxy/Server/Token/Codes.antt =====
-- Authorization codes and refresh tokens at the endpoint, for any storage backend that keeps the
-- laws of the store.
use istat.Prelude.{String, ◌≡◌, sym, ap, subst, ◌∙◌, none, some, if◌then◌else◌, ◌==◌}
use istat.Outcome.{Outcome, ok}
use istat.Action.{raise}
use istat.Action.Inversion.{bind-ok, lift-ok}
use istat.Time.{DateTime}
use istat.Http
use istat.Http.{HeaderMap, Response}
use istat.Oatproxy.Error.{Error, invalid_grant}
use istat.Oatproxy.Crypto.{Crypto, IsSound}
use istat.Oatproxy.Dpop.{extract_dpop_jkt}
use istat.Oatproxy.Token.RoundTrip.{Holds}
use istat.Oatproxy.Store.Spec.{View, StoreLaws, AuthLaws, clear-same, put-keeps, put-same}
use istat.Oatproxy.Server.{OAuthProxyServer, Externals}
use istat.Oatproxy.Server.Requests.{TokenResponse, TokenRequest, token_response}
use istat.Oatproxy.Server.Token.{
  handle_token, grant, read_body, authorization_code_grant, refresh_token_grant,
}
use istat.Oatproxy.Server.Token.Grants.{
  Granted, Exchanged, authorization_code_grant-ok, refresh_token_grant-ok,
}

module _ {K V G J D Q U S : Type 0} (c : Crypto K V G) (server : OAuthProxyServer K J D Q S)
    (x : Externals J D U S) where
  -- A body that asks for this code.
  abbrev pub AsksCode : HeaderMap → String → String → Type 0
  AsksCode headers body code =
      (params : TokenRequest) × (read_body x (Http.get "content-type" headers) body ≡ ok params)
      × (params.grant_type ≡ "authorization_code")
      × (params.code ≡ some code)

  -- A body that asks for a refresh by this token.
  abbrev pub AsksRefresh : HeaderMap → String → String → Type 0
  AsksRefresh headers body token =
      (params : TokenRequest) × (read_body x (Http.get "content-type" headers) body ≡ ok params)
      × (params.grant_type ≡ "refresh_token")
      × (params.refresh_token ≡ some token)

  -- what a successful answer is made of
  answered :
      (P : Type 0) (headers : HeaderMap) (body refresh : String) (now : DateTime) (s s' : S)
      (resp : Response) (params : TokenRequest)
      → read_body x (Http.get "content-type" headers) body ≡ ok params
      → handle_token c server x headers body refresh now s ≡ (ok resp, s')
      → ((r : TokenResponse)
          → grant c server x headers params refresh now s ≡ (ok r, s')
          → resp ≡ token_response r
          → P)
      → P
  unfolding handle_token
  answered P headers body refresh now s s' resp params reads h k =
      lift-ok _ _ s resp s' h λ params' e1 h1. bind-ok _ _ s resp s' h1 λ r t e2 h2.
        let same : params' ≡ params = cc (reads, e1) in
        k r
          (subst (λ p. grant c server x headers p refresh now s ≡ (ok r, s')) same
            (e2 ∙ ap (λ (u : S). (ok r, u)) (ap (λ (p : Outcome Error Response × S). p.1) h2)))
          (cc (ap (λ (p : Outcome Error Response × S). p.0) h2))

  grant-code :
      (headers : HeaderMap) (params : TokenRequest) (refresh : String) (now : DateTime) (s : S)
      → params.grant_type ≡ "authorization_code"
      → grant c server x headers params refresh now s
        ≡ authorization_code_grant c server x headers params refresh now s
  unfolding grant
  grant-code headers params refresh now s kind =
      ap
        (λ (k : String).
          (if k == "authorization_code"
              then authorization_code_grant c server x headers params refresh now
              else (if k == "refresh_token"
                  then refresh_token_grant c server x headers params refresh now
                  else raise invalid_grant))
            s)
        kind

  grant-refresh :
      (headers : HeaderMap) (params : TokenRequest) (refresh : String) (now : DateTime) (s : S)
      → params.grant_type ≡ "refresh_token"
      → grant c server x headers params refresh now s
        ≡ refresh_token_grant c server x headers params refresh now s
  unfolding grant
  grant-refresh headers params refresh now s kind =
      ap
        (λ (k : String).
          (if k == "authorization_code"
              then authorization_code_grant c server x headers params refresh now
              else (if k == "refresh_token"
                  then refresh_token_grant c server x headers params refresh now
                  else raise invalid_grant))
            s)
        kind

module _ {K V G J D Q U S : Type 0} (c : Crypto K V G) (server : OAuthProxyServer K J D Q S)
    (x : Externals J D U S) (view : S → View J D) (sound : IsSound c) (key : K)
    (holds : Holds server.key_store key) (laws : StoreLaws server.session_store view)
    (auth : AuthLaws server.client_auth_store view x.account_did x.session_id) where
  -- When a request for a code succeeds, the DPoP header gave a thumbprint and the code had a
  -- pending authorization, which is gone; the answer has that authorization's account as
  -- subject, the random string as refresh token and the scope of the account's upstream session,
  -- and its access token is judged by every token manager as one with those claims, bound to the
  -- thumbprint and expiring after the configured seconds; the maps gain the refresh token, the
  -- active session and the session, and are otherwise the same.
  pub handle_token-exchange :
      (headers : HeaderMap) (body code refresh : String) (now : DateTime) (s s' : S)
      (resp : Response)
      → AsksCode c server x headers body code
      → handle_token c server x headers body refresh now s ≡ (ok resp, s')
      → (r : TokenResponse) × (jkt : String) × (resp ≡ token_response r)
        × (extract_dpop_jkt c x.jwk_from_value headers ≡ ok jkt)
        × Exchanged c server x view sound jkt code refresh now (view s) (view s') r
  handle_token-exchange headers body code refresh now s s' resp (params, reads, kind, has) h =
      answered c server x _ headers body refresh now s s' resp params reads h λ r e same.
        let (jkt, found, done) =
          authorization_code_grant-ok c server x view sound key holds laws auth headers params code
            refresh now s s' r has
            (sym (grant-code c server x headers params refresh now s kind) ∙ e) in
        (r, jkt, same, found, done)

  -- When a refresh request succeeds, its refresh token was mapped to an account and a session;
  -- afterwards both that token and the new one are mapped to them, and the answer grants that
  -- account as an exchange does.
  pub handle_token-refresh :
      (headers : HeaderMap) (body token refresh : String) (now : DateTime) (s s' : S)
      (resp : Response)
      → AsksRefresh c server x headers body token
      → handle_token c server x headers body refresh now s ≡ (ok resp, s')
      → (r : TokenResponse) × (jkt : String) × (did : String) × (sid : String) × (resp
          ≡ token_response r)
        × (extract_dpop_jkt c x.jwk_from_value headers ≡ ok jkt)
        × ((view s).refresh token ≡ some (did, sid))
        × ((view s').refresh token ≡ some (did, sid))
        × ((view s').refresh refresh ≡ some (did, sid))
        × Granted c server x view sound jkt did sid refresh now (view s) (view s') r
  handle_token-refresh headers body token refresh now s s' resp (params, reads, kind, has) h =
      answered c server x _ headers body refresh now s s' resp params reads h λ r e same.
        let (jkt, mapped, found, was, done) =
          refresh_token_grant-ok c server x view sound key holds laws auth headers params token
            refresh now s s' r has
            (sym (grant-refresh c server x headers params refresh now s kind) ∙ e) in
        (
          r,
          jkt,
          mapped.0,
          mapped.1,
          same,
          found,
          was,
          rw done.maps (put-keeps refresh token mapped (view s).refresh was),
          rw done.maps (put-same refresh mapped (view s).refresh),
          done,
        )

  -- A code whose authorization is not pending is refused.
  spent :
      (headers : HeaderMap) (body code refresh : String) (now : DateTime) (s s' : S)
      (resp : Response)
      → AsksCode c server x headers body code
      → (view s).pending code ≡ none
      → ¬ (handle_token c server x headers body refresh now s ≡ (ok resp, s'))
  spent headers body code refresh now s s' resp asks gone h =
      let (r, jkt, same, found, done) =
        handle_token-exchange headers body code refresh now s s' resp asks h in
      absurd (cc (gone, done.was_pending))

  -- Once the token endpoint has exchanged a code, no request for that code succeeds in any state
  -- whose pending authorization for the code is as the exchange left it, whatever the headers,
  -- the time and the random string.
  pub code_used_once :
      (headers headers' : HeaderMap) (body body' code refresh refresh' : String)
      (now now' : DateTime) (s s' t t' : S) (resp resp' : Response)
      → AsksCode c server x headers body code
      → AsksCode c server x headers' body' code
      → handle_token c server x headers body refresh now s ≡ (ok resp, s')
      → (view t).pending code ≡ (view s').pending code
      → ¬ (handle_token c server x headers' body' refresh' now' t ≡ (ok resp', t'))
  code_used_once headers headers' body body' code refresh refresh' now now' s s' t t' resp resp'
        asks asks' h same =
      let (r, jkt, is, found, done) =
        handle_token-exchange headers body code refresh now s s' resp asks h in
      spent headers' body' code refresh' now' t t' resp' asks'
        (same ∙ rw done.grants.maps (clear-same code (view s).pending))
