-- ===== src/Requeue.antt =====
-- internal/onboarding/errors.go and pause.go: when the controller comes back to a ProjectOnboarding.
use project_onboarding_opera.Base.{
  ℕ, String, Bool, true, false, ◌||◌, Option, none, some, Error, Reason, reason_of, ◌==◌,
  if◌then◌else◌,
}
use project_onboarding_opera.Base.Dict.{lookup}
use project_onboarding_opera.Base.Text.{trim_space, to_lower, is_empty}
use project_onboarding_opera.Api.{ProjectOnboarding}

-- Seconds.
abbrev pub requeue_after_transient : ℕ
requeue_after_transient = 30

abbrev pub requeue_after_failure : ℕ
requeue_after_failure = 300

-- The reasons that `IsTransientError` asks for.
abbrev pub is_transient_reason : Reason → Bool
is_transient_reason Reason.conflict = true
is_transient_reason Reason.timeout = true
is_transient_reason Reason.server_timeout = true
is_transient_reason Reason.too_many_requests = true
is_transient_reason Reason.service_unavailable = true
is_transient_reason Reason.internal_error = true
is_transient_reason Reason.not_found = false
is_transient_reason Reason.no_match = false
is_transient_reason Reason.other = false

unfoldable pub is_transient_error : Option Error → Bool
is_transient_error none = false
is_transient_error (some err) = elim (reason_of err) [
  | none ↦ false
  | some reason ↦ is_transient_reason reason
]

-- ctrl.Result, and the error that the controller is told.
pub record Requeue : Type 0 where
  pub requeue : Bool
  pub requeue_after : ℕ
  pub error : Option Error

unfoldable pub reconcile_result_for_error : Option Error → Requeue
unfolding is_transient_error
reconcile_result_for_error none = record { requeue = false; requeue_after = 0; error = none }
reconcile_result_for_error (some err) =
    if is_transient_error (some err)
    then record { requeue = false; requeue_after = requeue_after_transient; error = none }
    else record { requeue = false; requeue_after = requeue_after_failure; error = some err }

-- internal/onboarding/metrics.go, the classification of an error
unfoldable pub reconcile_error_reason : Option Error → String
unfolding is_transient_error
reconcile_error_reason none = ""
reconcile_error_reason (some err) =
    if is_transient_error (some err) then "transient" else "reconcile"

-- `RecordReconcileError`: the label of the counter that it increments.
unfoldable pub record_reconcile_error : String → String
record_reconcile_error reason = if is_empty reason then "unknown" else reason

-- `RecordAndReconcileError`: the label that it counts, if it counts one, and what it returns.
unfoldable pub record_and_reconcile_error : Option Error → String → Option String × Requeue
unfolding reconcile_error_reason record_reconcile_error reconcile_result_for_error
record_and_reconcile_error none reason = (none, reconcile_result_for_error none)
record_and_reconcile_error (some err) reason = (
  some (
      record_reconcile_error
        (if is_empty reason then reconcile_error_reason (some err) else reason)),
  reconcile_result_for_error (some err),
)

abbrev pub pause_reconciliation_annotation : String
pause_reconciliation_annotation = "onboarding.stderr.at/pause-reconciliation"

unfoldable pub is_reconciliation_paused : Option ProjectOnboarding → Bool
is_reconciliation_paused none = false
is_reconciliation_paused (some po) = elim (lookup pause_reconciliation_annotation po.annotations) [
  | none ↦ false
  | some v ↦
      let text = to_lower (trim_space v) in
      text == "1" || text == "true" || text == "yes" || text == "on"
]
