-- ===== src/Controller/Subject.antt =====
-- api/v1beta1: the ProjectOnboarding as it is stored, with its status; the calls that the controller
-- makes about it, and the finalizer of internal/onboarding/reconcile.go.
use project_onboarding_opera.Base.{ℕ, String, Bool, Option, List, Outcome, if◌then◌else◌}
use project_onboarding_opera.Base.Dict.{Dict}
use project_onboarding_opera.Api.{GitOpsSpec, ProjectOnboarding}
use project_onboarding_opera.Helpers.Status.{Bytes, Condition}
use project_onboarding_opera.Effects.{Effect, pure}

pub record NamespaceStatus : Type 0 where
  pub name : String
  pub ready : Bool
  pub message : Bytes

pub record ProjectOnboardingStatus : Type 0 where
  pub observed_generation : ℕ
  pub phase : String
  pub conditions : List Condition
  pub namespaces : List NamespaceStatus

-- `spec` has the spec with the name and the annotations of the metadata.
pub record Resource : Type 0 where
  pub spec : ProjectOnboarding
  pub generation : ℕ
  pub finalizers : List String
  pub deleting : Bool
  pub status : ProjectOnboardingStatus

abbrev pub project_onboarding_finalizer : String
project_onboarding_finalizer = "onboarding.stderr.at/finalizer"

-- The calls about ProjectOnboardings and the ConfigMap of the defaults, the functions of
-- controllerutil on finalizers, the YAML parser, the clock, the bytes of a text, the namespace that
-- the reconciler is configured with and the one of the environment. An update answers the resource as
-- the server returns it.
pub record Runtime (State : Type 0) : Type 0 where
  pub get_resource : String → Effect State Resource
  pub update : Resource → Effect State Resource
  pub update_status : Resource → Effect State (Unit {0})
  pub get_config_map : String → String → Effect State (Dict String)
  pub unmarshal : String → Outcome (Option GitOpsSpec)
  pub contains_finalizer : String → List String → Bool
  pub add_finalizer : String → List String → List String
  pub remove_finalizer : String → List String → List String
  pub now : ℕ
  pub bytes_of : String → Bytes
  pub configured_namespace : String
  pub pod_namespace : String

module _ {State : Type 0} (runtime : Runtime State) where
  unfoldable pub ensure_finalizer : Resource → Effect State Resource
  ensure_finalizer po =
      if runtime.contains_finalizer project_onboarding_finalizer po.finalizers
      then pure po
      else runtime.update (record po {
        finalizers = runtime.add_finalizer project_onboarding_finalizer po.finalizers;
      })

  unfoldable pub remove_finalizer : Resource → Effect State Resource
  remove_finalizer po =
      if runtime.contains_finalizer project_onboarding_finalizer po.finalizers
      then runtime.update (record po {
        finalizers = runtime.remove_finalizer project_onboarding_finalizer po.finalizers;
      })
      else pure po
