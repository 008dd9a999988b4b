-- ===== src/Oatproxy/Server/Par/Pushed.antt =====
-- What a pushed request does, for any storage backend that keeps the laws of the store.
use istat.Prelude.{
  ℕ, String, Bool, true, false, not, is_some, ◌≡◌, ◌≢◌, sym, ap, ◌∙◌, some, none, Option, [], ◌+◌,
  List, eq_iff, arith,
}
use istat.Text.{is_empty, ◌<>◌}
use istat.Json.{text, number, object, field, end}
use istat.Http.StatusCode
use istat.Outcome.{Outcome, ok}
use istat.Action.{Action}
use istat.Action.Inversion.{bind-ok, lift-ok, ok_or-ok, map_err-ok}
use istat.Time.{DateTime, seconds}
use istat.Http
use istat.Http.{HeaderMap, Response, Body}
use istat.Oatproxy.Error.{Error}
use istat.Oatproxy.Store.{ParData}
use istat.Oatproxy.Store.Spec.{View, put, mark, StoreLaws, act-ok, Acts-ok}
use istat.Oatproxy.Server.{OAuthProxyServer}
use istat.Oatproxy.Server.Push.{
  PushExternals, DpopError, DpopVerifier, ParRequest, read_params, validate_params, is_s256,
  insert_once, verifier, par_data_of, pushed_response,
}
use istat.Oatproxy.Server.Par.{client_info_of, request_uri_of, verify_proof, store_push, handle_par}

-- Documented of `dpop_verifier`: a proof passes only when the replay store takes its identifier as
-- new, and the store is asked nothing else.
pub record ChecksReplay {S : Type 0} (x : PushExternals S) : Type 0 where
  pub jti_hash : String → List ℕ
  pub inserts :
      (insert : List ℕ → Action DpopError S Bool) (v : DpopVerifier) (proof uri verb jkt : String)
      (s s' : S)
      → x.verify insert v proof uri verb s ≡ (ok jkt, s')
      → insert (jti_hash proof) s ≡ (ok true, s')

pub record IsValidPush (params : ParRequest) : Type 0 where
  pub has_client : params.client_id ≢ ""
  pub has_redirect : params.redirect_uri ≢ ""
  pub has_challenge : params.code_challenge ≢ none
  pub is_hashed : params.code_challenge_method ≡ some "S256"

given : (s : String) → not (is_empty s) ≡ true → s ≢ ""
given s h p = cc (h, ap is_empty p)

challenged : (o : Option String) → is_some o ≡ true → o ≢ none
challenged o h p = cc (h, ap is_some p)

s256 : (o : Option String) → is_s256 o ≡ true → o ≡ some "S256"
s256 none h = absurd (cc (h))
s256 (some m) h = ap some ((eq_iff m "S256").0 h)

validate_params-ok : (params : ParRequest) → validate_params params ≡ ok tt → IsValidPush params
unfolding validate_params
validate_params-ok params h = record {
  has_client = given params.client_id (ground (arith, h));
  has_redirect = given params.redirect_uri (ground (arith, h));
  has_challenge = challenged params.code_challenge (ground (arith, h));
  is_hashed = s256 params.code_challenge_method (ground (arith, h));
}

unused : (b : Bool) → true ≡ not b → b ≡ false
unused b h = ground (arith, h)

module _ {K J D Q S : Type 0} (server : OAuthProxyServer K J D Q S) (x : PushExternals S)
    (view : S → View J D) (checks : ChecksReplay x) where
  abbrev pub jti_of : String → String
  jti_of proof = x.hex_encode (checks.jti_hash proof)

  -- the maps after a pushed request
  abbrev pub pushed_maps : String → String → ParRequest → String → DateTime → View J D → View J D
  pushed_maps proof request_uri params jkt now v = record v {
    used = mark (jti_of proof) v.used;
    par =
        put request_uri
          (record {
            client_id = params.client_id;
            redirect_uri = params.redirect_uri;
            response_type = params.response_type;
            state = params.state;
            scope = params.scope;
            code_challenge = params.code_challenge;
            code_challenge_method = params.code_challenge_method;
            login_hint = params.login_hint;
            downstream_dpop_jkt = jkt;
            expires_at = now + seconds 90;
          })
          v.par;
    clients =
        put jkt
          (record {
            redirect_uri = params.redirect_uri;
            state = params.state;
            response_type = params.response_type;
            scope = params.scope;
            expires_at = now + seconds 90;
          })
          v.clients;
  }

  pub record Pushed (headers : HeaderMap) (body random : String) (now : DateTime) (s : S)
      (after : View J D) (resp : Response) : Type 0 where
    pub proof : String
    pub params : ParRequest
    pub jkt : String
    pub proof_given : Http.header "dpop" headers ≡ some proof
    pub was_read : read_params x (Http.get "content-type" headers) body ≡ ok params
    pub is_valid : IsValidPush params
    pub was_new : (view s).used (jti_of proof) ≡ false
    pub verified :
        (s1 : S) × (x.verify
            (insert_once x server.session_store)
            (verifier server.config.dpop_nonce_hmac_secret params.client_id)
            proof
            (server.config.host <> "/oauth/par")
            "POST"
            s
          ≡ (ok jkt, s1))
    pub responds : resp ≡ record {
      status = StatusCode.created;
      headers = [];
      body = Body.json (
          object (
            field "request_uri"
              (text ("urn:ietf:params:oauth:request_uri:" <> random))
              (field "expires_in" (number 90) end)));
    }
    pub maps :
        after
        ≡ pushed_maps proof ("urn:ietf:params:oauth:request_uri:" <> random) params jkt now (view s)

  module _ (laws : StoreLaws server.session_store view)
      (looks : (jkt : String) (s : S)
        → view (server.session_store.get_by_dpop_jkt jkt s).1 ≡ view s) where
    verify_proof-ok :
        (client_id proof jkt : String) (s s' : S)
        → verify_proof server x client_id proof s ≡ (ok jkt, s')
        → (x.verify
              (insert_once x server.session_store)
              (verifier server.config.dpop_nonce_hmac_secret client_id)
              proof
              (server.config.host <> "/oauth/par")
              "POST"
              s
            ≡ (ok jkt, s'))
          × ((view s).used (jti_of proof) ≡ false)
          × (view s' ≡ record (view s) { used = mark (jti_of proof) (view s).used })
    unfolding verify_proof insert_once
    verify_proof-ok client_id proof jkt s s' h =
        let passed = map_err-ok _ _ s jkt s' h in
        let inserted = checks.inserts _ _ proof _ _ jkt s s' passed in
        let (new, maps) =
          Acts-ok view (laws.check_nonce-Acts (jti_of proof) s)
            (map_err-ok _ _ s true s' inserted) in
        (passed, unused _ new, maps)

    store_push-ok :
        (request_uri : String) (p : ParData) (s s' : S) (resp : Response)
        → store_push server request_uri p s ≡ (ok resp, s')
        → (resp ≡ pushed_response request_uri)
          × (view s' ≡ record (view s) {
            par = put request_uri p (view s).par;
            clients = put p.downstream_dpop_jkt (client_info_of p) (view s).clients;
          })
    unfolding store_push
    store_push-ok request_uri p s s' resp h =
        act-ok view _ _ s resp s' (laws.store_par_acts request_uri p s) h λ s1 v1 h1.
          act-ok view _ _ s1 resp s'
            (laws.store_client_acts p.downstream_dpop_jkt (client_info_of p) s1) h1
            λ s2 v2 h2. (
              cc (ap (λ (q : Outcome Error Response × S). q.0) h2),
              ap view (sym (ap (λ (q : Outcome Error Response × S). q.1) h2))
                  ∙ v2
                  ∙ ap
                      (λ (v : View J D). record v {
                        clients = put p.downstream_dpop_jkt (client_info_of p) v.clients;
                      })
                      v1,
            )

    -- When `handle_par` succeeds, the request had a DPoP proof that the verifier passed for the
    -- endpoint's URL and whose identifier was not used before, and parameters with a client, a
    -- redirect URI, a challenge and the challenge method S256; the answer is 201 and names the
    -- new `request_uri` and 90 seconds, the identifier is used, the request's parameters stand
    -- under the `request_uri` and the client's information under the key's thumbprint, both
    -- until 90 seconds after the request, and the other maps are the same, under the assumptions
    -- on the store and the verifier.
    pub handle_par-ok :
        (headers : HeaderMap) (body random : String) (now : DateTime) (s s' : S) (resp : Response)
        → handle_par server x headers body random now s ≡ (ok resp, s')
        → Pushed headers body random now s (view s') resp
    unfolding handle_par
    handle_par-ok headers body random now s s' resp h = lift-ok _ _ s resp s' h λ proof e1 h1.
        lift-ok _ _ s resp s' h1 λ params e2 h2. lift-ok _ _ s resp s' h2 λ u e3 h3.
          bind-ok _ _ s resp s' h3 λ jkt s4 e4 h4. bind-ok _ _ s4 resp s' h4 λ session s5 e5 h5.
            let (passed, new, v4) = verify_proof-ok params.client_id proof jkt s s4 e4 in
            let (responds, v6) =
              store_push-ok (request_uri_of random) (par_data_of params jkt now) s5 s' resp h5 in
            let v5 = ap view (sym (ap (λ (q : Outcome Error _ × S). q.1) e5)) ∙ looks jkt s4 in
            record {
              proof = proof;
              params = params;
              jkt = jkt;
              proof_given = ok_or-ok _ _ _ e1;
              was_read = e2;
              is_valid = validate_params-ok params e3;
              was_new = new;
              verified = (s4, passed);
              responds = responds;
              maps =
                  v6
                  ∙ ap
                      (λ (v : View J D). record v {
                        par = put (request_uri_of random) (par_data_of params jkt now) v.par;
                        clients = put jkt (client_info_of (par_data_of params jkt now)) v.clients;
                      })
                      (v5 ∙ v4);
            }
