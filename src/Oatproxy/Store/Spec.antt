-- ===== src/Oatproxy/Store/Spec.antt =====
-- What the handlers rely on of a storage backend: each method acts on finite maps as the comments
-- of jacquard-oatproxy/src/store.rs say ("get and remove", "valid and hasn't been used"), or fails
-- and leaves the maps as they were.
use istat.Prelude.{
  String, ◌≡◌, subst, Bool, true, not, Option, none, some, ◌⊎◌, ◌==◌, ◌&&◌, if◌then◌else◌, inl, inr,
  arith, refl, eq_refl,
}
use istat.Outcome.{Outcome, ok, err}
use istat.Action
use istat.Action.{Action, ◌>>=◌}
use istat.Action.Inversion.{bind-ok, map_err-ok}
use istat.Oatproxy.Store.{PendingAuth, DownstreamClientInfo, ParData, OAuthSessionStore}
use istat.Oatproxy.ClientAuthStore.{ClientAuthStore}

-- The maps. Rows that cannot be read back are not in them.
pub record View (Jwk SessionData : Type 0) : Type 0 where
  pub pending : String → Option PendingAuth
  pub clients : String → Option DownstreamClientInfo
  pub par : String → Option ParData
  pub refresh : String → Option (String × String)
  pub active : String → Option String
  pub dpop_keys : String → Option (String × Jwk)
  pub dpop_nonces : String → Option String
  pub used : String → Bool
  pub sessions : String → String → Option SessionData

module _ {ℓ} {V : Type ℓ} where
  abbrev pub put : String → V → (String → Option V) → String → Option V
  put k v m j = if k == j then some v else m j

  abbrev pub clear : String → (String → Option V) → String → Option V
  clear k m j = if k == j then none else m j

  abbrev pub put_pair :
      String → String → V → (String → String → Option V) → String → String → Option V
  put_pair k l v m i j = if (k == i) && (l == j) then some v else m i j

module _ {ℓ} {V : Type ℓ} where
  pub clear-same : (k : String) (m : String → Option V) → clear k m k ≡ none
  clear-same k m = rw (eq_refl k) refl

  pub put-same : (k : String) (v : V) (m : String → Option V) → put k v m k ≡ some v
  put-same k v m = rw (eq_refl k) refl

  -- putting what another key holds already
  pub put-keeps :
      (k j : String) (v : V) (m : String → Option V) → m j ≡ some v → put k v m j ≡ some v
  put-keeps k j v m h = ground (arith, h)

abbrev pub mark : String → (String → Bool) → String → Bool
mark k m j = if k == j then true else m j

module _ {E S A V : Type 0} (view : S → V) where
  -- the call answers `a` and leaves the maps `after`, or fails and leaves them as they were
  abbrev pub Acts : Outcome E A × S → A → V → V → Type 0
  Acts r a after before =
      ((r.0 ≡ ok a) × (view r.1 ≡ after)) ⊎ ((e : E) × (r.0 ≡ err e) × (view r.1 ≡ before))

module _ {J D S : Type 0} (o : OAuthSessionStore J S) (view : S → View J D) where
  pub record StoreLaws : Type 0 where
    pub store_pending_auth-Acts :
        (code : String) (a : PendingAuth) (s : S)
        → Acts view
            (o.store_pending_auth code a s)
            tt
            (record (view s) { pending = put code a (view s).pending })
            (view s)
    pub consume_pending_auth-Acts :
        (code : String) (s : S)
        → Acts view
            (o.consume_pending_auth code s)
            ((view s).pending code)
            (record (view s) { pending = clear code (view s).pending })
            (view s)
    pub store_client_acts :
        (k : String) (a : DownstreamClientInfo) (s : S)
        → Acts view
            (o.store_downstream_client_info k a s)
            tt
            (record (view s) { clients = put k a (view s).clients })
            (view s)
    pub consume_client_acts :
        (k : String) (s : S)
        → Acts view
            (o.consume_downstream_client_info k s)
            ((view s).clients k)
            (record (view s) { clients = clear k (view s).clients })
            (view s)
    pub store_par_acts :
        (k : String) (a : ParData) (s : S)
        → Acts view
            (o.store_par_data k a s)
            tt
            (record (view s) { par = put k a (view s).par })
            (view s)
    pub consume_par_acts :
        (k : String) (s : S)
        → Acts view
            (o.consume_par_data k s)
            ((view s).par k)
            (record (view s) { par = clear k (view s).par })
            (view s)
    pub store_refresh-Acts :
        (k did sid : String) (s : S)
        → Acts view
            (o.store_refresh_token_mapping k did sid s)
            tt
            (record (view s) { refresh = put k (did, sid) (view s).refresh })
            (view s)
    pub get_refresh-Acts :
        (k : String) (s : S)
        → Acts view (o.get_refresh_token_mapping k s) ((view s).refresh k) (view s) (view s)
    pub store_active-Acts :
        (did sid : String) (s : S)
        → Acts view
            (o.store_active_session did sid s)
            tt
            (record (view s) { active = put did sid (view s).active })
            (view s)
    pub get_active-Acts :
        (did : String) (s : S)
        → Acts view (o.get_active_session did s) ((view s).active did) (view s) (view s)
    pub store_dpop_key-Acts :
        (sid jkt : String) (key : J) (s : S)
        → Acts view
            (o.store_session_dpop_key sid jkt key s)
            tt
            (record (view s) { dpop_keys = put sid (jkt, key) (view s).dpop_keys })
            (view s)
    pub get_dpop_key-Acts :
        (sid : String) (s : S)
        → Acts view (o.get_session_dpop_key sid s) ((view s).dpop_keys sid) (view s) (view s)
    pub update_nonce-Acts :
        (sid nonce : String) (s : S)
        → Acts view
            (o.update_session_dpop_nonce sid nonce s)
            tt
            (record (view s) { dpop_nonces = put sid nonce (view s).dpop_nonces })
            (view s)
    pub get_nonce-Acts :
        (sid : String) (s : S)
        → Acts view (o.get_session_dpop_nonce sid s) ((view s).dpop_nonces sid) (view s) (view s)
    pub check_nonce-Acts :
        (jti : String) (s : S)
        → Acts view
            (o.check_and_consume_nonce jti s)
            (not ((view s).used jti))
            (record (view s) { used = mark jti (view s).used })
            (view s)

-- A call that ends with a value in every state.
abbrev pub Answers : {E S A : Type 0} → Action E S A → Type 0
Answers {E = E} {S = S} {A = A} m = (s : S) → (a : A) × ((m s).0 ≡ ok a)

module _ {J S : Type 0} (o : OAuthSessionStore J S) where
  -- every method that the laws speak of answers
  pub record AlwaysAnswers : Type 0 where
    pub pending_stored : (code : String) (a : PendingAuth) → Answers (o.store_pending_auth code a)
    pub pending_consumed : (code : String) → Answers (o.consume_pending_auth code)
    pub client_stored :
        (k : String) (a : DownstreamClientInfo) → Answers (o.store_downstream_client_info k a)
    pub client_consumed : (k : String) → Answers (o.consume_downstream_client_info k)
    pub par_stored : (k : String) (a : ParData) → Answers (o.store_par_data k a)
    pub par_consumed : (k : String) → Answers (o.consume_par_data k)
    pub refresh_stored : (k did sid : String) → Answers (o.store_refresh_token_mapping k did sid)
    pub refresh_read : (k : String) → Answers (o.get_refresh_token_mapping k)
    pub active_stored : (did sid : String) → Answers (o.store_active_session did sid)
    pub active_read : (did : String) → Answers (o.get_active_session did)
    pub key_stored : (sid jkt : String) (key : J) → Answers (o.store_session_dpop_key sid jkt key)
    pub key_read : (sid : String) → Answers (o.get_session_dpop_key sid)
    pub nonce_stored : (sid nonce : String) → Answers (o.update_session_dpop_nonce sid nonce)
    pub nonce_read : (sid : String) → Answers (o.get_session_dpop_nonce sid)
    pub nonce_checked : (jti : String) → Answers (o.check_and_consume_nonce jti)

module _ {J D R S : Type 0} (c : ClientAuthStore D R S) (view : S → View J D) where
  pub record AuthLaws (did_of sid_of : D → String) : Type 0 where
    pub get_session-Acts :
        (did sid : String) (s : S)
        → Acts view (c.get_session did sid s) ((view s).sessions did sid) (view s) (view s)
    pub upsert_session-Acts :
        (d : D) (s : S)
        → Acts view
            (c.upsert_session d s)
            tt
            (record (view s) { sessions = put_pair (did_of d) (sid_of d) d (view s).sessions })
            (view s)

module _ {E S A V : Type 0} (view : S → V) where
  -- a call that succeeded did what the law says
  pub Acts-ok :
      {r : Outcome E A × S} {a a' : A} {after before : V} {s' : S}
      → Acts view r a after before
      → r ≡ (ok a', s')
      → (a' ≡ a) × (view s' ≡ after)
  Acts-ok (inl (p, q)) h = (ground (arith, p, h), ground (arith, q, h))
  Acts-ok (inr (e, p, q)) h = absurd (cc (p, h))

module _ {E S A B V P : Type 0} (view : S → V) where
  -- the step of a run that goes on after such a call
  pub act-ok :
      (m : Action E S A) (f : A → Action E S B) (s : S) (b : B) (s' : S) {a : A} {after before : V}
      → Acts view (m s) a after before
      → (m >>= f) s ≡ (ok b, s')
      → ((t : S) → view t ≡ after → f a t ≡ (ok b, s') → P)
      → P
  act-ok m f s b s' {a = a} law h k = bind-ok m f s b s' h λ a' t e rest.
      let (same, maps) = Acts-ok view law e in k t maps (subst (λ v. f v t ≡ (ok b, s')) same rest)

module _ {E F S A B V P : Type 0} (view : S → V) where
  pub mapped_act-ok :
      (g : E → F) (m : Action E S A) (f : A → Action F S B) (s : S) (b : B) (s' : S) {a : A}
      {after before : V}
      → Acts view (m s) a after before
      → (Action.map_err g m >>= f) s ≡ (ok b, s')
      → ((t : S) → view t ≡ after → f a t ≡ (ok b, s') → P)
      → P
  mapped_act-ok g m f s b s' law h k = bind-ok (Action.map_err g m) f s b s' h λ a' t e rest.
      let (same, maps) = Acts-ok view law (map_err-ok g m s a' t e) in
      k t maps (subst (λ v. f v t ≡ (ok b, s')) same rest)
