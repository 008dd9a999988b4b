-- ===== src/Oatproxy/Server/Xrpc/Log.antt =====
-- What a call sends upstream, as a log of requests that only grows.
use mathlib.Core.List.{append_assoc}
use istat.Prelude.{
  ℕ, ◌+◌, ◌≤◌, ◌≡◌, refl, sym, ap, ◌∙◌, List, [], ◌++◌, All, All-append, length, length-append,
  arith,
}
use istat.Outcome.{Outcome, ok, err, panic}
use istat.Action.{Action, Keeps, lift, resume, ◌>>=◌}
use istat.Oatproxy.Error.{Error}
use istat.Oatproxy.Server.Xrpc.{UpstreamRequest}

module _ {S : Type 0} (log : S → List UpstreamRequest) where
  -- from one state to another at most `n` requests are sent, each as `P` says
  pub record Sends (n : ℕ) (P : UpstreamRequest → Type 0) (before after : S) : Type 0 where
    pub new : List UpstreamRequest
    pub log_after : log after ≡ new ++ log before
    pub few : length new ≤ n
    pub each : All P new

  -- a call that sends nothing, however it ends
  abbrev pub Silent : {E A : Type 0} → Action E S A → Type 0
  Silent m = (l : List UpstreamRequest) → Keeps (λ s. log s ≡ l) m

  module _ (P : UpstreamRequest → Type 0) where
    pub Sends-none : (n : ℕ) (s t : S) → log t ≡ log s → Sends n P s t
    Sends-none n s t h = record { new = []; log_after = h; few = omega arith; each = tt }

    module _ {A B : Type 0} (n k b : ℕ) (fits : n + k ≤ b) (f : A → Action Error S B) (s : S) where
      Sends-resume :
          (r : Outcome Error A × S)
          → Sends n P s r.1
          → ((a : A) (t : S) → r ≡ (ok a, t) → Sends k P t (f a t).1)
          → Sends b P s (resume r f).1
      Sends-resume (ok a, t) first rest =
          let then = rest a t refl in
          record {
            new = then.new ++ first.new;
            log_after =
                then.log_after
                ∙ ap (λ l. then.new ++ l) first.log_after
                ∙ sym (append_assoc then.new first.new (log s));
            few = omega (arith, fits, then.few, first.few, length-append then.new first.new);
            each = All-append _ _ _ then.each first.each;
          }
      Sends-resume (err e, t) first rest = record {
        new = first.new;
        log_after = first.log_after;
        few = omega (arith, fits, first.few);
        each = first.each;
      }
      Sends-resume (panic, t) first rest = record {
        new = first.new;
        log_after = first.log_after;
        few = omega (arith, fits, first.few);
        each = first.each;
      }

      pub Sends-bind :
          (m : Action Error S A)
          → Sends n P s (m s).1
          → ((a : A) (t : S) → m s ≡ (ok a, t) → Sends k P t (f a t).1)
          → Sends b P s ((m >>= f) s).1
      unfolding ◌>>=◌
      Sends-bind m first rest = Sends-resume (m s) first rest

    module _ {A B : Type 0} (k : ℕ) (f : A → Action Error S B) (s : S) where
      pub Sends-quiet :
          (m : Action Error S A)
          → Silent m
          → ((a : A) (t : S) → m s ≡ (ok a, t) → Sends k P t (f a t).1)
          → Sends k P s ((m >>= f) s).1
      Sends-quiet m silent rest =
          Sends-bind 0 k k (omega arith) f s m (Sends-none 0 s _ ((silent (log s)).at s refl)) rest

      pub Sends-lift :
          (r : Outcome Error A)
          → ((a : A) → r ≡ ok a → Sends k P s (f a s).1)
          → Sends k P s ((lift r >>= f) s).1
      unfolding ◌>>=◌
      Sends-lift (ok a) rest = rest a refl
      Sends-lift (err e) rest = Sends-none k s s refl
      Sends-lift panic rest = Sends-none k s s refl
