-- ===== src/Oatproxy/Token/Refresh.antt =====
-- jacquard-oatproxy/src/token.rs: the refresh of upstream tokens, which no handler calls. The state is
-- the session that is refreshed in place, beside the state of the stores. A lifetime in seconds that is
-- negative is left out.
use istat.Prelude.{ℕ, ◌+◌, String, Option, none, some, unwrap_or, if◌then◌else◌}
use istat.Text.{◌<>◌}
use istat.Outcome.{Outcome, Result, ok, panic, ok_or, from_result}
use istat.Action
use istat.Action.{Action, pure, lift, ◌>>=◌, ◌>>◌}
use istat.Time.{DateTime, seconds}
use istat.Oatproxy.Crypto.{Crypto}
use istat.Oatproxy.Error.{Error, key_not_found, network_error, internal}
use istat.Oatproxy.Session.{OAuthSession, needs_refresh}
use istat.Oatproxy.Store.{OAuthSessionStore, KeyStore}
use istat.Oatproxy.Token.Upstream.{ProofExternals, create_upstream_dpop_proof}

pub record TokenResponse : Type 0 where
  pub access_token : String
  pub refresh_token : Option String
  pub expires_in : Option ℕ

-- the text of the nonce header, if it is there, and the body as JSON
pub record RefreshReply : Type 0 where
  pub nonce : Option (Result String String)
  pub json : Result String TokenResponse

-- `post` sends the form of a refresh grant with a DPoP proof.
pub record RefreshExternals (S : Type 0) : Type 0 where
  pub post : String → String → String → Action String S RefreshReply

-- the readings of the clock, in their order, and the random string of the proof
pub record Stamps : Type 0 where
  pub asked : DateTime
  pub proved : DateTime
  pub renewed : DateTime
  pub used : DateTime
  pub jti : String

module _ {E S A : Type 0} where
  -- a call that leaves the session
  abbrev on_store : Action E S A → Action E (OAuthSession × S) A
  on_store m q = ((m q.1).0, (q.0, (m q.1).1))

abbrev change :
    {S : Type 0} → (OAuthSession → OAuthSession) → Action Error (OAuthSession × S) (Unit {0})
change f q = (ok tt, (f q.0, q.1))

abbrev session_of : {S : Type 0} → Action Error (OAuthSession × S) OAuthSession
session_of q = (ok q.0, q)

-- `.unwrap()`
abbrev unwrap : {E A : Type 0} → Option A → Outcome E A
unwrap none = panic
unwrap (some a) = ok a

abbrev keep_nonce :
    {S : Type 0} → Option (Result String String) → Action Error (OAuthSession × S) (Unit {0})
keep_nonce none = pure tt
keep_nonce (some text) = do
  nonce ← lift (from_result internal text)
  change λ s. record s { upstream_dpop_nonce = some nonce }

abbrev new_refresh : Option String → OAuthSession → OAuthSession
new_refresh none s = s
new_refresh (some refresh) s = record s { upstream_refresh_token = some refresh }

module _ {K V G J C S : Type 0} (c : Crypto K V G) (proofs : ProofExternals J C)
    (net : RefreshExternals S) (session_store : OAuthSessionStore J S)
    (key_store : KeyStore K J S) where
  -- what is done where a refresh is needed
  unfoldable pub refresh_upstream : Stamps → Action Error (OAuthSession × S) (Unit {0})
  refresh_upstream at = do
    session ← session_of
    found ← on_store (key_store.get_dpop_key session.upstream_dpop_key_thumbprint)
    dpop_key ← lift (ok_or found key_not_found)
    dpop_proof ← lift (
        create_upstream_dpop_proof c proofs "POST" session.pds_url none session.upstream_dpop_nonce
          dpop_key at.jti at.proved)
    refresh_token ← lift (unwrap session.upstream_refresh_token)
    response ←
        Action.map_err network_error
          (on_store (net.post (session.pds_url <> "/oauth/token") dpop_proof refresh_token))
    keep_nonce response.nonce
    token_response ← lift (from_result network_error response.json)
    change λ s. record s { upstream_access_token = token_response.access_token }
    change (new_refresh token_response.refresh_token)
    change λ s. record s {
      upstream_expires_at = at.renewed + seconds (unwrap_or token_response.expires_in 3600);
      last_used_at = at.used;
    }
    refreshed ← session_of
    on_store (session_store.update_session refreshed)

  unfoldable pub refresh_upstream_if_needed : Stamps → Action Error (OAuthSession × S) (Unit {0})
  refresh_upstream_if_needed at = do
    session ← session_of
    if needs_refresh session 5 at.asked then refresh_upstream at else pure tt
