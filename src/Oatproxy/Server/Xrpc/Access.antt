-- ===== src/Oatproxy/Server/Xrpc/Access.antt =====
-- Who passes the checks of `handle_xrpc_proxy`, and with which upstream session.
use istat.Prelude.{String, ◌≡◌, sym, ap, subst, ◌∙◌, some, inr, eq_iff}
use istat.Outcome.{Outcome, ok}
use istat.Outcome.Inversion.{ensure-ok}
use istat.Action.Inversion.{bind-ok, lift-ok, ok_or-ok, from_result-ok}
use istat.Time.{DateTime}
use istat.Http.{HeaderMap}
use istat.Oatproxy.Error.{Error}
use istat.Oatproxy.Crypto.{Crypto}
use istat.Oatproxy.Jwt.{DownstreamTokenClaims}
use istat.Oatproxy.Dpop.{extract_dpop_jkt}
use istat.Oatproxy.Store.Spec.{View, StoreLaws, AuthLaws, act-ok, mapped_act-ok}
use istat.Oatproxy.Token.RoundTrip.{Holds}
use istat.Oatproxy.Token.Soundness.{Accepted, validate-Accepted}
use istat.Oatproxy.Token.Upstream.{ProofExternals}
use istat.Oatproxy.Server.{OAuthProxyServer, Externals}
use istat.Oatproxy.Server.Xrpc.{XrpcExternals, Grant, bearer, admit}

out_of : {E A : Type 0} {a b : A} → ◌≡◌ {A = Outcome E A} (ok a) (ok b) → a ≡ b
out_of h = cc (h)

module _ {K V G J D Q U S : Type 0} (c : Crypto K V G) (server : OAuthProxyServer K J D Q S)
    (x : Externals J D U S) (key : K) (holds : Holds server.key_store key) where
  -- The request carries a token that is accepted, bound to the key of its DPoP header, and the
  -- maps hold the active session of the token's account with its key.
  pub record Admits (headers : HeaderMap) (now : DateTime) (v : View J D) (g : Grant J D)
      : Type 0 where
    pub token : String
    pub claims : DownstreamTokenClaims
    pub did : String
    pub jkt : String
    pub carried : bearer headers ≡ ok token
    pub accepted : Accepted c server.key_store key holds server.token_manager token now claims
    pub bound : extract_dpop_jkt c x.jwk_from_value headers ≡ ok claims.cnf.jkt
    pub active : v.active claims.sub ≡ some g.session_id
    pub did_read : x.parse_did claims.sub ≡ inr did
    pub session : v.sessions did g.session_id ≡ some g.session
    pub dpop_key : v.dpop_keys g.session_id ≡ some (jkt, g.dpop_key)

  module _ {C : Type 0} (proofs : ProofExternals J C) (net : XrpcExternals D S)
      (view : S → View J D) (laws : StoreLaws server.session_store view)
      (auth : AuthLaws server.client_auth_store view x.account_did x.session_id) where
    pub admit-Admits :
        (headers : HeaderMap) (now : DateTime) (g : Grant J D) (s s' : S)
        → admit c server x proofs net headers now s ≡ (ok g, s')
        → Admits headers now (view s) g × (view s' ≡ view s)
    unfolding admit
    admit-Admits headers now g s s' h = lift-ok _ _ s g s' h λ token e1 h1.
        bind-ok _ _ s g s' h1 λ claims t e2 h2.
          let (accepted, same) =
            validate-Accepted c server.key_store key holds server.token_manager token now claims s t
              e2 in
          lift-ok _ _ t g s' h2 λ jkt e3 h3. lift-ok _ _ t g s' h3 λ u e4 h4.
            act-ok view _ _ t g s' (laws.get_active-Acts claims.sub t) h4 λ t5 v5 h5.
              lift-ok _ _ t5 g s' h5 λ sid e6 h6. lift-ok _ _ t5 g s' h6 λ did e7 h7.
                mapped_act-ok view _ _ _ t5 g s' (auth.get_session-Acts did sid t5) h7 λ t8 v8 h8.
                  lift-ok _ _ t8 g s' h8 λ d e9 h9.
                    act-ok view _ _ t8 g s' (laws.get_dpop_key-Acts sid t8) h9 λ t10 v10 h10.
                      lift-ok _ _ t10 g s' h10 λ found e11 h11.
                        let same5 : view t5 ≡ view s = v5 ∙ ap view (sym same) in
                        let same8 : view t8 ≡ view s = v8 ∙ same5 in
                        let is : ◌≡◌ {A = Grant J D}
                            (record { session_id = sid; session = d; dpop_key = found.1 }) g =
                          out_of (ap (λ (q : Outcome Error (Grant J D) × S). q.0) h11) in
                        (
                          subst (Admits headers now (view s)) is (record {
                            token = token;
                            claims = claims;
                            did = did;
                            jkt = found.0;
                            carried = e1;
                            accepted = accepted;
                            bound = e3 ∙ ap ok ((eq_iff _ _).0 (ensure-ok _ _ e4));
                            active =
                                ap (λ (v : View J D). v.active claims.sub) (ap view same)
                                ∙ ok_or-ok _ _ _ e6;
                            did_read = from_result-ok _ _ _ e7;
                            session =
                                ap (λ (v : View J D). v.sessions did sid) (sym same5)
                                ∙ ok_or-ok _ _ _ e9;
                            dpop_key =
                                ap (λ (v : View J D). v.dpop_keys sid) (sym same8)
                                ∙ ok_or-ok _ _ _ e11;
                          }),
                          ap view (sym (ap (λ (q : Outcome Error (Grant J D) × S). q.1) h11))
                              ∙ v10
                              ∙ same8,
                        )
