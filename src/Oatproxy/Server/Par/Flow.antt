-- ===== src/Oatproxy/Server/Par/Flow.antt =====
-- A pushed request with what comes before and after it: a proof that is sent again, and the
-- authorization by the `request_uri` that was answered.
use istat.Prelude.{
  ◌+◌, ◌≤◌, String, true, ◌≡◌, refl, eq_refl, sym, ap, subst, ◌∙◌, Bool, false, some,
}
use istat.Outcome.{ok}
use istat.Time.{DateTime, seconds, minutes}
use istat.Http
use istat.Http.{HeaderMap, Response}
use istat.Oatproxy.Store.{DownstreamClientInfo, ParData}
use istat.Oatproxy.Store.Spec.{View, mark, StoreLaws, put-same}
use istat.Oatproxy.Server.{OAuthProxyServer, Externals}
use istat.Oatproxy.Server.Requests.{AuthorizeParams}
use istat.Oatproxy.Server.Push.{PushExternals, ParRequest, par_data_of}
use istat.Oatproxy.Server.Par.{client_info_of, request_uri_of, handle_par}
use istat.Oatproxy.Server.Par.Pushed.{ChecksReplay, Pushed, jti_of, handle_par-ok}
use istat.Oatproxy.Server.Authorize.{handle_authorize}
use istat.Oatproxy.Server.Authorize.RequestUri.{Started, KeepsView, handle_authorize-ok}

mark-same : (k : String) (m : String → Bool) → mark k m k ≡ true
mark-same k m = rw (eq_refl k) refl

-- the client's information that an authorization leaves, from the pushed parameters
abbrev pub waiting : ParRequest → DateTime → DownstreamClientInfo
waiting params t = record {
  redirect_uri = params.redirect_uri;
  state = params.state;
  response_type = params.response_type;
  scope = params.scope;
  expires_at = t + minutes 10;
}

module _ {K J D Q U S : Type 0} (server : OAuthProxyServer K J D Q S) (x : PushExternals S)
    (y : Externals J D U S) (view : S → View J D) (checks : ChecksReplay x) where
  -- an authorization that used a pushed request
  pub record Authorized (headers : HeaderMap) (body random proxy_state : String)
      (now now' t : DateTime) (s : S) (after : View J D) (resp : Response) (u : S) (last : View J D)
      (resp' : Response) : Type 0 where
    pub push : Pushed server x view checks headers body random now s after resp
    pub start : Started server y view (request_uri_of random) proxy_state now' t u last resp'
    pub same : start.par_data ≡ par_data_of push.params push.jkt now
    pub in_time : now' ≤ now + seconds 90
    pub client : last.clients proxy_state ≡ some (waiting push.params t)

  module _ (laws : StoreLaws server.session_store view)
      (looks : (jkt : String) (s : S)
        → view (server.session_store.get_by_dpop_jkt jkt s).1 ≡ view s) where
    used_after :
        (headers : HeaderMap) (body random proof : String) (now : DateTime) (s s' : S)
        (resp : Response)
        → Http.header "dpop" headers ≡ some proof
        → handle_par server x headers body random now s ≡ (ok resp, s')
        → (view s').used (jti_of server x view checks proof) ≡ true
    used_after headers body random proof now s s' resp given h =
        let first =
          handle_par-ok server x view checks laws looks headers body random now s s' resp h in
        let same : first.proof ≡ proof = cc (given, first.proof_given) in
        ap (λ (v : View J D). v.used (jti_of server x view checks proof)) first.maps
        ∙ subst
            (λ p.
              mark (jti_of server x view checks p) (view s).used (jti_of server x view checks proof)
              ≡ true)
            (sym same) (mark-same (jti_of server x view checks proof) (view s).used)

    -- Once `handle_par` has succeeded with a DPoP proof, no pushed request with that proof
    -- succeeds in any state that holds the proof's identifier as used as the first one left it,
    -- whatever its body, for any storage backend that keeps the laws of the store and looks
    -- sessions up without changing the maps, if the verifier passes a proof only when the replay
    -- store takes its identifier as new.
    pub proof_used_once :
        (headers headers' : HeaderMap) (body body' random random' proof : String)
        (now now' : DateTime) (s s' u u' : S) (resp resp' : Response)
        → Http.header "dpop" headers ≡ some proof
        → Http.header "dpop" headers' ≡ some proof
        → handle_par server x headers body random now s ≡ (ok resp, s')
        → (view u).used (jti_of server x view checks proof)
          ≡ (view s').used (jti_of server x view checks proof)
        → ¬ (handle_par server x headers' body' random' now' u ≡ (ok resp', u'))
    proof_used_once headers headers' body body' random random' proof now now' s s' u u' resp resp'
          given given' h same again =
        let used = same ∙ used_after headers body random proof now s s' resp given h in
        let second =
          handle_par-ok server x view checks laws looks headers' body' random' now' u u' resp'
            again in
        let sent : second.proof ≡ proof = cc (given', second.proof_given) in
        let new =
          subst (λ p. (view u).used (jti_of server x view checks p) ≡ false) sent second.was_new in
        absurd (cc (used, new))

    -- When `handle_par` succeeds and `handle_authorize` later succeeds with the `request_uri`
    -- that was answered, from a state whose pushed request is the one that was left, at most 90
    -- seconds lie between them, the upstream login was started for the pushed login hint and
    -- scopes, and the pushed redirect URI, state, response type and scope stand under the
    -- proxy's state for ten minutes, under the assumptions on the store, the verifier and the
    -- start of the upstream login.
    pub push-authorize :
        KeepsView y view
        → (headers : HeaderMap) (body random proxy_state : String) (params : AuthorizeParams)
          (now now' t : DateTime) (s s' u u' : S) (resp resp' : Response)
        → handle_par server x headers body random now s ≡ (ok resp, s')
        → params.request_uri ≡ some (request_uri_of random)
        → (view u).par (request_uri_of random) ≡ (view s').par (request_uri_of random)
        → handle_authorize server y params proxy_state now' t u ≡ (ok resp', u')
        → Authorized headers body random proxy_state now now' t s (view s') resp u (view u') resp'
    push-authorize keeps headers body random proxy_state params now now' t s s' u u' resp resp' h
          given left h' =
        let push =
          handle_par-ok server x view checks laws looks headers body random now s s' resp h in
        let start =
          handle_authorize-ok server y view laws keeps params (request_uri_of random) proxy_state
            now' t u u' resp' given h' in
        let p = par_data_of push.params push.jkt now in
        let stored : (view u).par (request_uri_of random) ≡ some p =
          left
          ∙ ap (λ (v : View J D). v.par (request_uri_of random)) push.maps
          ∙ put-same (request_uri_of random) p (view s).par in
        let same : start.par_data ≡ p = cc (stored, start.was_pushed) in
        record {
          push = push;
          start = start;
          same = same;
          in_time = subst (λ (q : ParData). now' ≤ q.expires_at) same start.in_time;
          client =
              ap (λ (v : View J D). v.clients proxy_state) start.maps
              ∙ put-same proxy_state _ (view u).clients
              ∙ ap
                  (λ (q : ParData).
                    some (record (client_info_of q) { expires_at = t + minutes 10 }))
                  same;
        }
