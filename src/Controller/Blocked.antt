-- ===== src/Controller/Blocked.antt =====
-- While a deletion has to wait, `Reconcile` neither finishes it nor gives up.
use Prim.Native.Nat.{◌<◌}
use project_onboarding_opera.Base.{
  String, ◌≡◌, refl, ◌∙◌, Bool, true, false, Option, none, some, Outcome, ok, Error, arith,
  if◌then◌else◌,
}
use project_onboarding_opera.Base.Lists.{All}
use project_onboarding_opera.Base.Text.{is_empty}
use project_onboarding_opera.Api.{TShirtSizeSpec}
use project_onboarding_opera.Helpers.Maps.{MapOrder}
use project_onboarding_opera.Requeue.{
  Requeue, is_transient_error, reconcile_result_for_error, record_and_reconcile_error,
}
use project_onboarding_opera.Effects.{Effect, Attempt, got, failed, attempt, ◌>>=◌}
use project_onboarding_opera.Effects.Keeps.{
  OnGot, Keeps, Yields, Keeps-attempt, Keeps-Yields, Yields-attempt, Yields-then, Yields-pure,
  Yields-if, Yields-Keeps,
}
use project_onboarding_opera.Cluster.{namespace, cluster_key, Object, Client, Lawful, Matches}
use project_onboarding_opera.Owners.{Machinery}
use project_onboarding_opera.Cleanup.{managed_list_options}
use project_onboarding_opera.Cleanup.Guards.{Stays}
use project_onboarding_opera.Deletion.{Finalized, finalize_project_onboarding_deletion}
use project_onboarding_opera.Deletion.Pending.{KeptBy}
use project_onboarding_opera.Deletion.Waiting.{finalize-waits, is_live-managed}
use project_onboarding_opera.Controller.Subject.{Resource, Runtime}
use project_onboarding_opera.Controller.Foreign.{Quiet}
use project_onboarding_opera.Controller.Isolation.{update_status-Spared, answered}
use project_onboarding_opera.Controller.{
  untouched, Reply, reply, reply_error, is_conflict, conclude_blocked, settle_deletion, after_get,
  reconcile,
}

-- The metrics stand, and the controller is called again after some seconds.
abbrev pub Waits : Reply → Type 0
Waits r = (r.gauge ≡ untouched) × (0 < r.result.requeue_after)

result_for_error-later : (e : Error) → 0 < (reconcile_result_for_error (some e)).requeue_after
unfolding reconcile_result_for_error
result_for_error-later e = branch (is_transient_error (some e))
  where
    later : Bool → Requeue
    later b =
        if b
        then record { requeue = false; requeue_after = 30; error = none }
        else record { requeue = false; requeue_after = 300; error = some e }

    branch : (b : Bool) → 0 < (later b).requeue_after
    branch true = omega arith
    branch false = omega arith

reply_error-Waits : (e : Error) (reason : String) → Waits (reply_error untouched e reason)
unfolding record_and_reconcile_error
reply_error-Waits e reason = (refl, result_for_error-later e)

conclude_blocked-Waits :
    {S : Type 0} (runtime : Runtime S) (r : Attempt (Unit {0})) → Waits (conclude_blocked runtime r)
unfolding conclude_blocked
conclude_blocked-Waits runtime (got u) = (refl, omega arith)
conclude_blocked-Waits runtime (failed e) = branch (is_conflict e)
  where
    branch :
        (b : Bool)
        → Waits (
            if b
            then reply (record { requeue = false; requeue_after = 30; error = none })
            else reply_error untouched e "status_update")
    branch true = (refl, omega arith)
    branch false = reply_error-Waits e "status_update"

settle_deletion-Waits :
    {S : Type 0} (P : S → Type 0) (runtime : Runtime S) (po : Resource) (r : Attempt Finalized)
    → ((answer : Resource) → Keeps P (runtime.update_status answer))
    → OnGot (λ f. f.complete ≡ false) r
    → Yields P Waits (settle_deletion runtime po r)
unfolding settle_deletion
settle_deletion-Waits P runtime po (got f) keeps waits = rw waits (
    Yields-then (λ _. Unit) _ _ _ (Keeps-Yields _ (Keeps-attempt _ (keeps _)))
      λ r _. Yields-pure _ _ (conclude_blocked-Waits runtime r))
settle_deletion-Waits P runtime po (failed e) keeps waits =
    Yields-pure _ _ (reply_error-Waits e "deletion_finalize")

module _ {S A B : Type 0} (P : S → Type 0) (Q : B → Type 0) (m : Effect S A)
    (f : Attempt A → Effect S B) (s : S) (a : A) where
  answered-result :
      (m s).0 ≡ ok a
      → P (m s).1
      → Yields P Q (f (got a))
      → (b : B) → ((attempt m >>= f) s).0 ≡ ok b
      → Q b
  unfolding attempt ◌>>=◌
  answered-result e h y b = rw e (y.result (m s).1 h b)

-- While a namespace is stored that has a name, carries the labels of the managed namespaces of a
-- ProjectOnboarding that is being deleted, is not being deleted itself, and whose name no entry marked
-- `offboard` has, every `Reconcile` that returns leaves it stored as it was, keeps the gauge of the
-- tenants, which only a finished deletion drops, and asks to be called again after a time above zero.
pub reconcile-Waits :
    (client : Client) (L : Lawful client) (runtime : Runtime client.State)
    (quiet : Quiet client L runtime) (machinery : Machinery) (scheme : Option machinery.Scheme)
    (parse_error : String → Option String)
    (read_tshirt : String → client.State → Outcome TShirtSizeSpec) (order : MapOrder)
    (name tenant : String) (po : Resource) (x : Object) (s : client.State) (r : Reply)
    → (runtime.get_resource name s).0 ≡ ok po
    → po.deleting ≡ true
    → L.stored s (cluster_key namespace tenant) ≡ some x
    → x.deleting ≡ false
    → Matches (managed_list_options po.spec) x.labels
    → is_empty tenant ≡ false
    → All (KeptBy tenant) po.spec.namespaces
    → (reconcile client runtime machinery scheme parse_error read_tshirt order name s).0 ≡ ok r
    → Waits r
      × (L.stored
            (reconcile client runtime machinery scheme parse_error read_tshirt order name s).1
            (cluster_key namespace tenant)
          ≡ some x)
unfolding reconcile after_get
reconcile-Waits client L runtime quiet machinery scheme parse_error read_tshirt order name tenant po
      x s r read dying h undeleted fits real kept e =
    (
      answered-result (Stays client L (cluster_key namespace tenant) x) Waits
          (runtime.get_resource name) _ s po read there all r e,
      answered (Stays client L (cluster_key namespace tenant) x) (runtime.get_resource name) _ s po
          read there (Yields-Keeps _ _ all),
    )
  where
    there : L.stored (runtime.get_resource name s).1 (cluster_key namespace tenant) ≡ some x
    there = quiet.get_keeps name s (cluster_key namespace tenant) ∙ h

    waits :
        Yields
          (Stays client L (cluster_key namespace tenant) x)
          (λ f. f.complete ≡ false)
          (finalize_project_onboarding_deletion client order po.spec)
    waits =
        finalize-waits client L x tenant po.spec (is_live-managed client x po.spec fits undeleted)
          real order (L.stored_key s (cluster_key namespace tenant) x h) undeleted fits kept

    all :
        Yields
          (Stays client L (cluster_key namespace tenant) x)
          Waits
          (after_get client runtime machinery scheme parse_error read_tshirt order (got po))
    all =
        Yields-if Waits po.deleting _ _
          (λ _. Yields-then _ _ _ _ (Yields-attempt _ _ waits) λ f q.
            settle_deletion-Waits _ runtime po f
              (update_status-Spared client L runtime quiet (cluster_key namespace tenant) x) q)
          (λ live. absurd (cc (dying, live)))
