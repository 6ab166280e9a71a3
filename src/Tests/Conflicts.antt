-- ===== src/Tests/Conflicts.antt =====
-- What the documentation says otherwise, at concrete inputs.
use project_onboarding_opera.Base.{◌≡◌, ◌≢◌, refl, true, false, none, some, [], ◌∷◌, ok}
use project_onboarding_opera.Base.Text.{is_empty, trim_space, trim_left, trim_right, is_space}
use project_onboarding_opera.Api.{
  ArgoCdProjectSpec, GitOpsSpec, NamespaceSpec, ProjectOnboarding,
  project_onboarding_managed_by_key,
}
use project_onboarding_opera.Cluster.{namespace, cluster_key, Object}
use project_onboarding_opera.Cleanup.{is_managed_by_project_onboarding, cleanup_namespace}
use project_onboarding_opera.Defaults.{merge_cluster_defaults}
use project_onboarding_opera.Settings.Overridden.{
  Overrides, other_operator, wanted_labels, cleanup_namespace-overridden,
}
use project_onboarding_opera.Validation.Resources.{
  is_enabled_ptr, is_opt_in_enabled_ptr, has_projects, resolve_application_git_ops_namespace,
  validate_git_ops_requirements,
}
use project_onboarding_opera.Validation.Resources.Fallback.{validate_git_ops_requirements-defaults}
use project_onboarding_opera.Tests.Samples.{team_a, team_b, teams, tenant}
use project_onboarding_opera.Tests.OneObject.{one_object, one_object_laws}

-- A custom label with the key of a managed one.
abbrev claimed : NamespaceSpec
claimed = record team_a {
  additional_settings = some record {
    pod_security_enforce = "";
    pod_security_warn = "";
    pod_security_audit = "";
    enable_cluster_monitoring = none;
    additional_labels = (record { key = project_onboarding_managed_by_key; value = "me" }) ∷ [];
  };
}

claimed-Overrides : Overrides teams claimed
claimed-Overrides = other_operator "me" refl refl

abbrev claimed_namespace : Object
claimed_namespace = record (tenant "team-a") { labels = wanted_labels teams claimed }

cleanup_namespace-overridden_example :
    (is_managed_by_project_onboarding claimed_namespace.labels teams ≡ false)
    × (one_object_laws.stored
          (cleanup_namespace one_object teams claimed (some claimed_namespace)).1
          (cluster_key namespace "team-a")
        ≡ some claimed_namespace)
cleanup_namespace-overridden_example =
    cleanup_namespace-overridden one_object one_object_laws teams claimed
      (cluster_key namespace "team-a") claimed_namespace (some claimed_namespace) tt
      claimed-Overrides refl refl refl

abbrev project : ArgoCdProjectSpec
project = record {
  enabled = some true;
  name = "apps";
  description = "";
  source_repos = [];
  source_namespaces = [];
  destinations = [];
  oidc_groups = [];
  roles = [];
}

-- It relies on the defaults of the cluster for the GitOps namespace.
abbrev relying : NamespaceSpec
relying = record team_a { argo_cd_projects = project ∷ []; application_git_ops_namespace = "" }

abbrev onboarding : ProjectOnboarding
onboarding = record teams { namespaces = team_b ∷ relying ∷ [] }

abbrev defaults : GitOpsSpec
defaults = record {
  application_namespace = "gitops";
  destinations = [];
  allowed_source_repos = [];
  allowed_oidc_groups = [];
  allowed_source_namespaces = [];
}

relying_enabled : is_enabled_ptr relying.enabled ≡ true
unfolding is_enabled_ptr
relying_enabled = refl

relying_projects : has_projects relying.argo_cd_projects ≡ true
unfolding has_projects is_opt_in_enabled_ptr
relying_projects = refl

relying_blank : is_empty (resolve_application_git_ops_namespace none relying) ≡ true
unfolding resolve_application_git_ops_namespace trim_space trim_left trim_right
relying_blank = refl

defaults_named : is_empty (trim_space defaults.application_namespace) ≡ false
unfolding trim_space trim_left trim_right is_space
defaults_named = refl

validate_git_ops_requirements-defaults_example :
    (validate_git_ops_requirements none onboarding.namespaces ≢ ok tt)
    × (validate_git_ops_requirements
          (merge_cluster_defaults (some defaults) onboarding).git_ops
          (merge_cluster_defaults (some defaults) onboarding).namespaces
        ≡ ok tt)
validate_git_ops_requirements-defaults_example =
    validate_git_ops_requirements-defaults defaults onboarding (team_b ∷ []) relying [] refl
      relying_enabled relying_projects relying_blank defaults_named
