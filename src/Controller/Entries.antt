-- ===== src/Controller/Entries.antt =====
-- internal/controller/projectonboarding_controller.go: the loop of `Reconcile` over the namespace
-- entries. The parameters `cleanup` and `reconcile` are CleanupNamespace for the resource and
-- ReconcileNamespace for the resource with the cluster's defaults.
use project_onboarding_opera.Base.{
  String, Bool, true, false, Option, none, some, List, [], ◌∷◌, ◌++◌, Error, error_text, or_else,
  if◌then◌else◌,
}
use project_onboarding_opera.Api.{NamespaceSpec}
use project_onboarding_opera.Helpers.{is_enabled, is_offboard}
use project_onboarding_opera.Helpers.Status.{Bytes, truncate_status_message}
use project_onboarding_opera.Effects.{Effect, Attempt, got, failed, pure, attempt, ◌>>=◌}
use project_onboarding_opera.Controller.Subject.{NamespaceStatus}

-- `nsStatus` with the error that the round of the loop has met.
pub record Report : Type 0 where
  pub status : NamespaceStatus
  pub error : Option Error

-- `status.Namespaces`, `allReady` and `firstError`.
pub record Progress : Type 0 where
  pub namespaces : List NamespaceStatus
  pub all_ready : Bool
  pub first_error : Option Error

abbrev pub no_progress : Progress
no_progress = record { namespaces = []; all_ready = true; first_error = none }

-- What a round leaves in the variables of the loop.
unfoldable pub note : Progress → Report → Progress
note progress report = elim report.error [
  | none ↦ record progress { namespaces = progress.namespaces ++ report.status ∷ [] }
  | some e ↦ record {
    namespaces = progress.namespaces ++ report.status ∷ [];
    all_ready = false;
    first_error = or_else progress.first_error (some e);
  }
]

module _ (bytes_of : String → Bytes) where
  -- The two branches on the error of a call.
  unfoldable pub report_of : String → String → Attempt (Unit {0}) → Report
  report_of name done (got _) = record {
    status = record { name = name; ready = true; message = bytes_of done };
    error = none;
  }
  report_of name done (failed e) = record {
    status = record {
      name = name;
      ready = false;
      message = truncate_status_message (bytes_of (error_text e));
    };
    error = some e;
  }

  module _ {S : Type 0} (cleanup : NamespaceSpec → Effect S (Unit {0}))
      (reconcile : NamespaceSpec → Effect S (Unit {0})) where
    -- The body of the loop.
    unfoldable pub reconcile_entry : NamespaceSpec → Effect S Report
    unfolding report_of
    reconcile_entry ns_spec =
        if is_offboard ns_spec.offboard
        then attempt (cleanup ns_spec)
          >>= (λ r. pure (report_of ns_spec.name "offboarded (resources removed)" r))
        else if is_enabled ns_spec.enabled
        then attempt (reconcile ns_spec) >>= (λ r. pure (report_of ns_spec.name "reconciled" r))
        else pure record {
          status = record {
            name = ns_spec.name;
            ready = true;
            message = bytes_of "reconciliation disabled";
          };
          error = none;
        }

    unfoldable pub reconcile_entries : List NamespaceSpec → Progress → Effect S Progress
    unfolding reconcile_entry note
    reconcile_entries [] progress = pure progress
    reconcile_entries (ns_spec ∷ namespaces) progress =
        reconcile_entry ns_spec >>= λ report. reconcile_entries namespaces (note progress report)
