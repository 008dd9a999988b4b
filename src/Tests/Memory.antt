-- ===== src/Tests/Memory.antt =====
-- The store in memory, with sessions that are their own text.
use istat.Prelude.{String, ◌≡◌, inr}
use istat.Outcome.{Result}
use istat.Text.{◌<>◌}
use istat.Oatproxy.Store.Spec.{StoreLaws, AlwaysAnswers, AuthLaws}
use istat.Example.MemoryStore.{MemoryExternals, session_store, auth_store}
use istat.Example.MemoryStore.Laws.{view, memory_store-StoreLaws, memory_auth-AuthLaws}
use istat.Tests.Proxy.{noon}

abbrev pub texts : MemoryExternals String String
texts = record {
  session_to_string = λ d. inr d;
  session_from_str = λ t. inr t;
  session_account_did = λ d. "did:plc:" <> d;
  session_session_id = λ d. "sid-" <> d;
  auth_request_to_string = λ r. inr r;
  auth_request_from_str = λ t. inr t;
  auth_request_state = λ r. r;
}

back :
    (d t : String)
    → ◌≡◌ {A = Result String String} (inr d) (inr t)
    → ◌≡◌ {A = Result String String} (inr t) (inr d)
back d t h = cc (h)

memory_store-StoreLaws_example :
    StoreLaws (session_store {J = String} noon) (view texts)
    × AlwaysAnswers (session_store {J = String} noon)
memory_store-StoreLaws_example = memory_store-StoreLaws texts noon

memory_auth-AuthLaws_example :
    AuthLaws
      (auth_store {J = String} texts)
      (view texts)
      texts.session_account_did
      texts.session_session_id
memory_auth-AuthLaws_example = memory_auth-AuthLaws texts back
