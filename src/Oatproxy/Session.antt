-- ===== src/Oatproxy/Session.antt =====
-- jacquard-oatproxy/src/session.rs
use istat.Prelude.{ℕ, ◌+◌, String, Bool, true, false, Option, none, some, List, [], ltb}
use istat.Time.{DateTime, minutes}

pub data SessionState : Type 0 where
  pending_par awaiting_authorization awaiting_token_exchange ready revoked : SessionState

pub record OAuthSession : Type 0 where
  pub id : String
  pub state : SessionState
  pub did : String
  pub handle : Option String
  pub pds_url : String
  pub upstream_access_token : String
  pub upstream_refresh_token : Option String
  pub upstream_dpop_key_thumbprint : String
  pub upstream_expires_at : DateTime
  pub upstream_scope : String
  pub upstream_dpop_nonce : Option String
  pub downstream_auth_code : Option String
  pub downstream_refresh_token : Option String
  pub downstream_dpop_key_thumbprint : String
  pub downstream_expires_at : DateTime
  pub downstream_dpop_nonce_pad : String
  pub jti_cache : List String
  pub request_uri : Option String
  pub pkce_verifier : Option String
  pub downstream_redirect_uri : String
  pub downstream_client_id : Option String
  pub downstream_state : Option String
  pub created_at : DateTime
  pub last_used_at : DateTime

-- The random session id and nonce pad are arguments, and so are the four readings of the clock.
unfoldable pub new :
    String
    → String
    → DateTime
    → DateTime
    → DateTime
    → DateTime
    → String
    → String
    → String
    → String
    → OAuthSession
new session_id nonce_pad t₁ t₂ t₃ t₄ did pds_url client_id redirect_uri = record {
  id = session_id;
  state = SessionState.awaiting_authorization;
  did = did;
  handle = none;
  pds_url = pds_url;
  upstream_access_token = "";
  upstream_refresh_token = none;
  upstream_dpop_key_thumbprint = "";
  upstream_expires_at = t₁;
  upstream_scope = "";
  upstream_dpop_nonce = none;
  downstream_auth_code = none;
  downstream_refresh_token = none;
  downstream_dpop_key_thumbprint = "";
  downstream_expires_at = t₂;
  downstream_dpop_nonce_pad = nonce_pad;
  jti_cache = [];
  request_uri = none;
  pkce_verifier = none;
  downstream_redirect_uri = redirect_uri;
  downstream_client_id = some client_id;
  downstream_state = none;
  created_at = t₃;
  last_used_at = t₄;
}

abbrev is_ready_state : SessionState → Bool
is_ready_state SessionState.ready = true
is_ready_state _ = false

abbrev is_revoked_state : SessionState → Bool
is_revoked_state SessionState.revoked = true
is_revoked_state _ = false

unfoldable pub is_ready : OAuthSession → Bool
is_ready s = is_ready_state s.state

unfoldable pub is_revoked : OAuthSession → Bool
is_revoked s = is_revoked_state s.state

unfoldable pub needs_refresh : OAuthSession → ℕ → DateTime → Bool
needs_refresh s buffer_minutes now = ltb s.upstream_expires_at (now + minutes buffer_minutes)
