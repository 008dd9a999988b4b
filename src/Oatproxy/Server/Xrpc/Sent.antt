-- ===== src/Oatproxy/Server/Xrpc/Sent.antt =====
-- What `handle_xrpc_proxy` sends upstream.
use istat.Oatproxy.Server.Xrpc.Copied.{Copied, BodyOf}
use istat.Prelude.{String, ◌≡◌, Option, some, List, ◌∷◌, unwrap_or}
use istat.Outcome.{Outcome}
use istat.Action
use istat.Action.{Action, lift, resume, ◌>>=◌, ◌>>◌}
use istat.Time.{DateTime}
use istat.Text.{◌<>◌, trim_end_matches, trim_start_matches}
use istat.Oatproxy.Error.{Error}
use istat.Oatproxy.Crypto.{Crypto}
use istat.Oatproxy.Store.Spec.{View}
use istat.Oatproxy.Token.RoundTrip.{Holds}
use istat.Oatproxy.Token.Upstream.{ProofExternals, DpopKey, Made}
use istat.Oatproxy.Server.{OAuthProxyServer, Externals}
use istat.Oatproxy.Server.Xrpc.{XrpcRequest, XrpcExternals, UpstreamRequest, Grant}
use istat.Oatproxy.Server.Xrpc.Log.{Silent}
use istat.Oatproxy.Server.Xrpc.Access.{Admits}

module _ {K V G J D Q U C S : Type 0} (c : Crypto K V G) (server : OAuthProxyServer K J D Q S)
    (x : Externals J D U S) (proofs : ProofExternals J C) (net : XrpcExternals D S)
    (log : S → List UpstreamRequest) where
  -- The log has the requests that are handed to the HTTP client, each once; those that the client
  -- makes by itself, when it follows a redirect, are not in it. The store hands nothing to the
  -- client, and a `Jwk` has the key that it was given.
  pub record Network : Type 0 where
    pub reads_back : (k : DpopKey) (j : J) → proofs.key (proofs.with_key k j) ≡ k
    pub handed_once : (r : UpstreamRequest) (s : S) → log (net.send r s).1 ≡ r ∷ log s
    pub active_silent : (did : String) → Silent log (server.session_store.get_active_session did)
    pub session_silent :
        (did sid : String) → Silent log (server.client_auth_store.get_session did sid)
    pub key_silent : (sid : String) → Silent log (server.session_store.get_session_dpop_key sid)
    pub nonce_silent : (sid : String) → Silent log (server.session_store.get_session_dpop_nonce sid)
    pub update_silent :
        (sid nonce : String) → Silent log (server.session_store.update_session_dpop_nonce sid nonce)

  module _ (request : XrpcRequest) (g : Grant J D) where
    -- the URL on the session's server: one slash between the host and the path
    abbrev pub target : String
    target =
        trim_end_matches b'/' (net.host_url g.session)
        <> "/"
        <> trim_start_matches b'/' (unwrap_or request.path_and_query "")

    -- The request is for that URL, with the session's token and a DPoP proof of the session's key
    -- for this method, URL and token, and has the client's method, body and headers, but none of
    -- the headers with the client's host and credentials.
    pub record Proxied (r : UpstreamRequest) : Type 0 where
      pub nonce : Option String
      pub jti : String
      pub at : DateTime
      pub same_method : r.method ≡ request.method
      pub to_server : r.url ≡ target
      pub with_token : r.authorization ≡ "DPoP " <> net.access_token g.session
      pub made :
          Made c proofs request.method target
            (some (net.access_token g.session))
            nonce
            g.dpop_key
            jti
            at
            r.dpop
      pub same_headers : Copied request.headers r.headers
      pub same_body : BodyOf request.body r.body

  module _ (key : K) (holds : Holds server.key_store key) where
    -- a request that was sent for an admitted caller
    pub record Allowed (request : XrpcRequest) (now : DateTime) (v : View J D) (r : UpstreamRequest)
        : Type 0 where
      pub grant : Grant J D
      pub admitted : Admits c server x key holds request.headers now v grant
      pub proxied : Proxied request grant r
