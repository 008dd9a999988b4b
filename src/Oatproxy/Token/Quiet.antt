-- ===== src/Oatproxy/Token/Quiet.antt =====
-- Checking a token changes nothing, however it ends.
use istat.Prelude.{String, sym, subst}
use istat.Outcome.{Outcome}
use istat.Action.{Keeps, Keeps-lift, Keeps-bind}
use istat.Time.{DateTime}
use istat.Oatproxy.Crypto.{Crypto}
use istat.Oatproxy.Store.{KeyStore}
use istat.Oatproxy.Token.{TokenManager, validate_downstream_jwt, validate_parts}
use istat.Oatproxy.Token.RoundTrip.{Holds}

module _ {K V G J S : Type 0} (c : Crypto K V G) (ks : KeyStore K J S) (key : K)
    (holds : Holds ks key) (P : S → Type 0) where
  get_signing_key-Keeps : Keeps P ks.get_signing_key
  get_signing_key-Keeps = record {
    at = λ s h. subst (λ (q : Outcome _ K × S). P q.1) (sym (holds s)) h;
  }

  pub validate-Keeps :
      (tm : TokenManager) (jwt : String) (now : DateTime)
      → Keeps P (validate_downstream_jwt c tm ks jwt now)
  unfolding validate_downstream_jwt validate_parts
  validate-Keeps tm jwt now = Keeps-bind _ _ (Keeps-lift _) λ parts.
      Keeps-bind _ _ (Keeps-lift _) λ _. Keeps-bind _ _ (Keeps-lift _) λ payload.
        Keeps-bind _ _ (Keeps-lift _)
          λ signature. Keeps-bind _ _ get_signing_key-Keeps λ k. Keeps-lift _
