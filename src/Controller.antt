-- ===== src/Controller.antt =====
-- internal/controller/projectonboarding_controller.go, `Reconcile`, with the error counter and the
-- gauge of internal/onboarding/metrics.go. Events and logs are left out.
pub mod Subject
pub mod Entries
pub mod Progressing
pub mod Settling
pub mod Settled
pub mod Foreign
pub mod Isolation
pub mod Blocked
use project_onboarding_opera.Base.{
  ℕ, String, ◌<>◌, Bool, true, false, Option, none, some, List, Error, Reason, reason_of,
  error_text, Outcome, if◌then◌else◌,
}
use project_onboarding_opera.Base.Text.{is_empty, trim_space}
use project_onboarding_opera.Api.{GitOpsSpec, TShirtSizeSpec, NamespaceSpec, ProjectOnboarding}
use project_onboarding_opera.Helpers.{active_tenant_count}
use project_onboarding_opera.Helpers.Maps.{MapOrder}
use project_onboarding_opera.Helpers.Status.{
  Bytes, Condition, set_condition, truncate_status_message,
}
use project_onboarding_opera.Effects.{Effect, Attempt, got, failed, pure, attempt, ◌>>=◌}
use project_onboarding_opera.Cluster.{Client, is_not_found}
use project_onboarding_opera.Owners.{Machinery}
use project_onboarding_opera.Cleanup.{cleanup_namespace}
use project_onboarding_opera.Prune.{prune_removed_namespaces}
use project_onboarding_opera.Deletion.{Finalized, finalize_project_onboarding_deletion}
use project_onboarding_opera.Defaults.{default_operator_namespace, merge_cluster_defaults}
use project_onboarding_opera.Defaults.Loading.{load_cluster_defaults}
use project_onboarding_opera.Reconcile.{reconcile_namespace}
use project_onboarding_opera.Requeue.{
  Requeue, reconcile_result_for_error, record_and_reconcile_error, is_reconciliation_paused,
  requeue_after_transient,
}
use project_onboarding_opera.Controller.Subject.{
  ProjectOnboardingStatus, Resource, Runtime, ensure_finalizer, remove_finalizer,
}
use project_onboarding_opera.Controller.Entries.{Progress, no_progress, reconcile_entries}

-- What happens to the gauge of the active tenants.
pub data Gauge : Type 0 where
  untouched dropped : Gauge
  set_to : ℕ → Gauge

-- The label of the error that is counted, the gauge, and what `Reconcile` returns.
pub record Reply : Type 0 where
  pub counted : Option String
  pub gauge : Gauge
  pub result : Requeue

-- return ctrl.Result{}, nil
abbrev pub no_requeue : Requeue
no_requeue = record { requeue = false; requeue_after = 0; error = none }

abbrev pub reply : Requeue → Reply
reply result = record { counted = none; gauge = untouched; result = result }

-- return onboarding.RecordAndReconcileError(err, reason)
abbrev pub reply_error : Gauge → Error → String → Reply
reply_error gauge e reason =
    let (counted, result) = record_and_reconcile_error (some e) reason in
    record { counted = counted; gauge = gauge; result = result }

-- apierrors.IsConflict(err)
unfoldable pub is_conflict : Error → Bool
is_conflict e = elim (reason_of e) [
  | none ↦ false
  | some r ↦ elim r [ Reason.conflict ↦ true | _ ↦ false ]
]

-- The error as `%v` prints it.
abbrev pub printed : Option Error → String
printed none = "<nil>"
printed (some e) = error_text e

module _ {S : Type 0} (runtime : Runtime S) where
  unfoldable pub operator_namespace : String
  operator_namespace =
      let ns = trim_space runtime.configured_namespace in
      let env = trim_space runtime.pod_namespace in
      if is_empty ns then if is_empty env then default_operator_namespace else env else ns

  -- The status of a deletion that waits.
  unfoldable pub blocked_status : String → ProjectOnboardingStatus → ProjectOnboardingStatus
  blocked_status pending_message status = record status {
    conditions =
        set_condition runtime.now "DeletionBlocked" "True" "AwaitingOffboard"
          (truncate_status_message (runtime.bytes_of pending_message)) status.conditions;
  }

  -- The status after the loop over the entries.
  unfoldable pub final_status : Resource → Progress → ProjectOnboardingStatus
  final_status po progress =
      if progress.all_ready
      then record {
        observed_generation = po.generation;
        phase = "Ready";
        conditions =
            set_condition runtime.now "Ready" "True" "ReconcileSucceeded"
              (runtime.bytes_of "All namespaces reconciled") po.status.conditions;
        namespaces = progress.namespaces;
      }
      else record {
        observed_generation = po.generation;
        phase = "Failed";
        conditions =
            set_condition runtime.now "Ready" "False" "ReconcileFailed"
              (truncate_status_message (
                runtime.bytes_of
                  ("one or more namespaces failed: " <> printed progress.first_error)))
              po.status.conditions;
        namespaces = progress.namespaces;
      }

  -- What is returned once the status was written.
  unfoldable pub conclude : Resource → Progress → Attempt (Unit {0}) → Reply
  unfolding is_conflict active_tenant_count
  conclude po progress (got _) =
      let gauge = set_to (active_tenant_count po.spec.namespaces) in
      elim progress.first_error [
        | none ↦ record { counted = none; gauge = gauge; result = no_requeue }
        | some e ↦ reply_error gauge e "namespace_reconcile"
      ]
  conclude po progress (failed e) =
      if is_conflict e
      then reply (record { requeue = true; requeue_after = 0; error = none })
      else reply_error untouched e "status_update"

  -- What is returned once the status of a deletion that waits was written.
  unfoldable pub conclude_blocked : Attempt (Unit {0}) → Reply
  unfolding is_conflict
  conclude_blocked (got _) = reply (record { requeue = false; requeue_after = 30; error = none })
  conclude_blocked (failed e) =
      if is_conflict e
      then reply (record { requeue = false; requeue_after = 30; error = none })
      else reply_error untouched e "status_update"

  -- What is returned once the finalizer was removed.
  unfoldable pub conclude_deletion : Attempt Resource → Reply
  conclude_deletion (got _) = record { counted = none; gauge = dropped; result = no_requeue }
  conclude_deletion (failed e) = reply_error untouched e "finalizer_remove"

  -- The answer of `FinalizeProjectOnboardingDeletion`.
  unfoldable pub settle_deletion : Resource → Attempt Finalized → Effect S Reply
  unfolding conclude_deletion conclude_blocked blocked_status
  settle_deletion po (failed e) = pure (reply_error untouched e "deletion_finalize")
  settle_deletion po (got finalized) =
      if finalized.complete
      then attempt (remove_finalizer runtime po) >>= (λ r. pure (conclude_deletion r))
      else attempt (
          runtime.update_status
            (record po { status = blocked_status finalized.pending_message po.status }))
        >>= (λ r. pure (conclude_blocked r))

module _ (client : Client) (runtime : Runtime client.State) (machinery : Machinery)
    (scheme : Option machinery.Scheme) (parse_error : String → Option String)
    (read_tshirt : String → client.State → Outcome TShirtSizeSpec) (order : MapOrder) where
  -- The loop over the entries and the status that it leads to.
  unfoldable pub reconcile_all : Resource → ProjectOnboarding → Effect client.State Reply
  unfolding conclude final_status
  reconcile_all po effective = do
    progress ←
        reconcile_entries runtime.bytes_of (cleanup_namespace client po.spec)
          (reconcile_namespace client machinery scheme parse_error read_tshirt order effective)
          po.spec.namespaces no_progress
    written ←
        attempt (runtime.update_status (record po { status = final_status runtime po progress }))
    pure (conclude runtime po progress written)

  -- The answer of `PruneRemovedNamespaces`.
  unfoldable pub after_prune :
      Resource → Option GitOpsSpec → Attempt (Unit {0}) → Effect client.State Reply
  unfolding reconcile_all
  after_prune po defaults (got _) = reconcile_all po (merge_cluster_defaults defaults po.spec)
  after_prune po defaults (failed e) = pure (reply_error untouched e "prune")

  -- The answer of `LoadClusterDefaults`.
  unfoldable pub after_defaults : Resource → Attempt (Option GitOpsSpec) → Effect client.State Reply
  unfolding after_prune
  after_defaults po (got defaults) =
      attempt (prune_removed_namespaces client po.spec) >>= after_prune po defaults
  after_defaults po (failed e) = pure (reply_error untouched e "defaults_load")

  -- The answer of `EnsureFinalizer`.
  unfoldable pub after_finalizer : Attempt Resource → Effect client.State Reply
  unfolding after_defaults
  after_finalizer (got po) =
      if is_reconciliation_paused (some po.spec)
      then pure (reply no_requeue)
      else attempt (
          load_cluster_defaults runtime.unmarshal runtime.get_config_map
            (operator_namespace runtime))
        >>= after_defaults po
  after_finalizer (failed e) = pure (reply_error untouched e "finalizer_ensure")

  -- The answer of the read of the resource.
  unfoldable pub after_get : Attempt Resource → Effect client.State Reply
  unfolding after_finalizer settle_deletion
  after_get (got po) =
      if po.deleting
      then attempt (finalize_project_onboarding_deletion client order po.spec)
        >>= settle_deletion runtime po
      else attempt (ensure_finalizer runtime po) >>= after_finalizer
  after_get (failed e) =
      if is_not_found e
      then pure (reply no_requeue)
      else pure (reply (record { requeue = false; requeue_after = 0; error = some e }))

  unfoldable pub reconcile : String → Effect client.State Reply
  unfolding after_get
  reconcile name = attempt (runtime.get_resource name) >>= after_get
