-- ===== src/SizeController.antt =====
-- internal/controller/tshirtsize_controller.go: the status of a T-shirt size (api/v1beta1,
-- TShirtSizeStatus). Events and logs are left out.
pub mod Shown
use project_onboarding_opera.Base.{
  ℕ, ◌-◌, ◌%◌, String, true, none, some, List, wrap, ltb, if◌then◌else◌,
}
use project_onboarding_opera.Base.Text.{ℤ, pos, negsuc}
use project_onboarding_opera.Api.{TShirtSizeSpec, ProjectOnboarding}
use project_onboarding_opera.Helpers.Status.{Bytes, Condition, set_condition}
use project_onboarding_opera.Validation.Resources.{tshirt_size_spec_has_sizing}
use project_onboarding_opera.Effects.{Effect, Attempt, got, failed, pure, attempt, ◌>>=◌}
use project_onboarding_opera.Cluster.{is_not_found}
use project_onboarding_opera.Requeue.{Requeue, reconcile_result_for_error}
use project_onboarding_opera.References.{count_project_onboarding_references}
use project_onboarding_opera.Controller.{no_requeue, is_conflict}

-- int32(n)
unfoldable pub to_int32 : ℕ → ℤ
to_int32 n =
    let low = n % 4294967296 in if ltb low 2147483648 then pos low else negsuc (4294967295 - low)

pub record TShirtSizeStatus : Type 0 where
  pub observed_generation : ℕ
  pub phase : String
  pub referenced_by : ℤ
  pub conditions : List Condition

pub record TShirtSize : Type 0 where
  pub name : String
  pub generation : ℕ
  pub spec : TShirtSizeSpec
  pub status : TShirtSizeStatus

module _ (now : ℕ) (bytes_of : String → Bytes) where
  unfoldable pub size_status : TShirtSize → ℕ → TShirtSizeStatus
  unfolding to_int32
  size_status size refs =
      if tshirt_size_spec_has_sizing size.spec
      then record {
        observed_generation = size.generation;
        phase = "Ready";
        referenced_by = to_int32 refs;
        conditions =
            set_condition now "Ready" "True" "CatalogueValid"
              (bytes_of "T-shirt size catalogue entry is valid") size.status.conditions;
      }
      else record {
        observed_generation = size.generation;
        phase = "Invalid";
        referenced_by = to_int32 refs;
        conditions =
            set_condition now "Ready" "False" "CatalogueInvalid"
              (bytes_of
                "spec must define resourceQuotas and/or limitRanges with at least one limit value")
              size.status.conditions;
      }

  -- What is returned once the status was written.
  unfoldable pub conclude_size : Attempt (Unit {0}) → Requeue
  conclude_size (got _) = no_requeue
  conclude_size (failed e) =
      if is_conflict e
      then record { requeue = true; requeue_after = 0; error = none }
      else reconcile_result_for_error (some (wrap "update TShirtSize status" e))

  module _ {S : Type 0} (get_size : String → Effect S TShirtSize)
      (list : Effect S (List ProjectOnboarding))
      (update_status : TShirtSize → Effect S (Unit {0})) where
    -- The answer of the count of the references.
    unfoldable pub after_count : TShirtSize → Attempt ℕ → Effect S Requeue
    unfolding size_status conclude_size
    after_count size (got refs) =
        attempt (update_status (record size { status = size_status size refs })) >>= λ r.
        pure (conclude_size r)
    after_count size (failed e) = pure (reconcile_result_for_error (some e))

    -- The answer of the read of the size.
    unfoldable pub after_size : Attempt TShirtSize → Effect S Requeue
    unfolding after_count
    after_size (got size) =
        attempt (count_project_onboarding_references list size.name) >>= after_count size
    after_size (failed e) =
        if is_not_found e then pure no_requeue else pure (reconcile_result_for_error (some e))

    unfoldable pub reconcile_size : String → Effect S Requeue
    unfolding after_size
    reconcile_size name = attempt (get_size name) >>= after_size
