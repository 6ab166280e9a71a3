-- ===== src/Controller/Settling.antt =====
-- Calls that reply that nothing more is to be done: one rule for each way of putting calls together.
use project_onboarding_opera.Base.{
  String, ◌≡◌, refl, ap, ◌∙◌, Bool, true, false, none, some, arith, Outcome, ok, fail, panic, Error,
  if◌then◌else◌,
}
use project_onboarding_opera.Requeue.{
  Requeue, is_transient_error, reconcile_result_for_error, record_and_reconcile_error,
}
use project_onboarding_opera.Effects.{Effect, Attempt, pure, attempt, follow, ◌>>=◌}
use project_onboarding_opera.Controller.{Gauge, Reply, no_requeue, reply_error}

-- If the call replies that nothing more is to be done, `P` holds in the state that it leaves.
pub record Settles {S : Type 0} (P : S → Type 0) (m : Effect S Reply) : Type 0 where
  pub settles : (s : S) (r : Reply) → (m s).0 ≡ ok r → r.result ≡ no_requeue → P (m s).1

error_requeues : (e : Error) → ¬ (reconcile_result_for_error (some e) ≡ no_requeue)
unfolding reconcile_result_for_error
error_requeues e h = branch (is_transient_error (some e)) (ap (λ (q : Requeue). q.requeue_after) h)
  where
    after : Bool → Requeue
    after b =
        if b
        then record { requeue = false; requeue_after = 30; error = none }
        else record { requeue = false; requeue_after = 300; error = some e }

    branch : (b : Bool) → (after b).requeue_after ≡ 0 → ⊥
    branch true f = omega (arith, f)
    branch false f = omega (arith, f)

pub error_unsettled :
    (g : Gauge) (e : Error) (reason : String) (r : Reply)
    → Outcome.ok (reply_error g e reason) ≡ ok r
    → r.result ≡ no_requeue
    → ⊥
unfolding record_and_reconcile_error
error_unsettled g e reason r at done =
    let same : reply_error g e reason ≡ r = cc at in
    error_requeues e (ap (λ (q : Reply). q.result) same ∙ done)

module _ {S : Type 0} (P : S → Type 0) where
  pub Settles-error :
      (g : Gauge) (e : Error) (reason : String) → Settles P (pure (reply_error g e reason))
  unfolding pure
  Settles-error g e reason = record {
    settles = λ s r at done. absurd (error_unsettled g e reason r at done);
  }

module _ {S A : Type 0} (P : S → Type 0) (Q : A → Type 0) (m : Effect S A)
    (f : A → Effect S Reply) where
  follow-settled :
      (o : Outcome A) (t : S) (r : Reply)
      → ((a : A) → o ≡ ok a → Settles P (f a))
      → (follow o f t).0 ≡ ok r
      → r.result ≡ no_requeue
      → P (follow o f t).1
  follow-settled (ok a) t r k at done = (k a refl).settles t r at done
  follow-settled (fail e) t r k at done = absurd (cc at)
  follow-settled (panic x) t r k at done = absurd (cc at)

  pub Settles-bind :
      ((s : S) (a : A) → (m s).0 ≡ ok a → Q a)
      → ((a : A) → Q a → Settles P (f a))
      → Settles P (m >>= f)
  unfolding ◌>>=◌
  Settles-bind q k = record {
    settles = λ s r at done. follow-settled (m s).0 (m s).1 r (λ a e. k a (q s a e)) at done;
  }

-- What follows a call whose error is inspected.
pub Settles-then :
    {S A : Type 0} (P : S → Type 0) (m : Effect S A) (f : Attempt A → Effect S Reply)
    → ((r : Attempt A) → Settles P (f r))
    → Settles P (attempt m >>= f)
Settles-then P m f k = Settles-bind P (λ _. Unit) (attempt m) f (λ s a e. tt) λ r _. k r
