-- ===== src/Defaults.antt =====
-- internal/onboarding/defaults.go: the cluster's GitOps defaults, how they are read and how they fill
-- a spec. The parser of their YAML and the read of the ConfigMap are parameters.
pub mod Laws
pub mod Loading
use project_onboarding_opera.Base.{
  ℕ, suc, String, ◌<>◌, Bool, Option, none, some, List, [], ◌∷◌, Outcome, ok, fail, panic, message,
  wrap, ◌&&◌, ◌>>=◌, ◌>>◌, if◌then◌else◌,
}
use project_onboarding_opera.Base.Text.{is_empty, trim_space, decimal, quote}
use project_onboarding_opera.Base.Lists.{is_nil}
use project_onboarding_opera.Api.{GitOpsDestinationSpec, GitOpsSpec, ProjectOnboarding}
use project_onboarding_opera.Validation.Quantity.{Checked}

-- The loop of `validateGitOpsDefaults`, from index `i`.
unfoldable pub validate_destinations : ℕ → List GitOpsDestinationSpec → Checked
validate_destinations i [] = ok tt
validate_destinations i (dest ∷ destinations) =
    let rest = validate_destinations (suc i) destinations in
    if is_empty (trim_space dest.name) && is_empty (trim_space dest.server)
    then fail (message ("gitOps.destinations[" <> (decimal i <> "] requires name or server")))
    else rest

unfoldable pub validate_git_ops_defaults : Option GitOpsSpec → Checked
validate_git_ops_defaults none = ok tt
validate_git_ops_defaults (some spec) = validate_destinations 0 spec.destinations

-- if len(target) == 0 { target = append([]T(nil), defaults...) }
abbrev pub unless_empty {ℓ} : {A : Type ℓ} → List A → List A → List A
unless_empty target defaults = if is_nil target then defaults else target

unfoldable pub merge_git_ops_defaults : GitOpsSpec → GitOpsSpec → GitOpsSpec
merge_git_ops_defaults target defaults = record {
  application_namespace =
      if is_empty (trim_space target.application_namespace)
      then defaults.application_namespace
      else target.application_namespace;
  destinations = unless_empty target.destinations defaults.destinations;
  allowed_source_repos = unless_empty target.allowed_source_repos defaults.allowed_source_repos;
  allowed_oidc_groups = unless_empty target.allowed_oidc_groups defaults.allowed_oidc_groups;
  allowed_source_namespaces =
      unless_empty target.allowed_source_namespaces defaults.allowed_source_namespaces;
}

abbrev pub merge_git_ops : GitOpsSpec → Option GitOpsSpec → GitOpsSpec
merge_git_ops defaults none = defaults
merge_git_ops defaults (some target) = merge_git_ops_defaults target defaults

-- The copy that `DeepCopy` makes is the record itself: records hold no references.
unfoldable pub merge_cluster_defaults : Option GitOpsSpec → ProjectOnboarding → ProjectOnboarding
unfolding merge_git_ops_defaults
merge_cluster_defaults none po = po
merge_cluster_defaults (some defaults) po = record po {
  git_ops = some (merge_git_ops defaults po.git_ops);
}

abbrev pub default_operator_namespace : String
default_operator_namespace = "project-onboarding-operator"

abbrev pub defaults_config_map_name : String
defaults_config_map_name = "onboarding-defaults"

abbrev pub defaults_config_map_key : String
defaults_config_map_key = "defaults.yaml"

-- err, if there is one, as `fmt.Errorf("<prefix>: %w", err)`
abbrev prefixed : {A : Type 0} → String → Outcome A → Outcome A
prefixed prefix (ok a) = ok a
prefixed prefix (fail e) = fail (wrap prefix e)
prefixed prefix (panic t) = panic t

-- `unmarshal` is what yaml.Unmarshal makes of the field `gitOps` of the text.
module _ (unmarshal : String → Outcome (Option GitOpsSpec)) where
  -- `LoadClusterDefaults`, from the data of the ConfigMap on
  unfoldable pub parse_defaults : Option String → Outcome (Option GitOpsSpec)
  unfolding validate_git_ops_defaults
  parse_defaults none = ok none
  parse_defaults (some raw) =
      let source =
        defaults_config_map_key <> (" in ConfigMap " <> quote defaults_config_map_name) in
      let parsed = prefixed ("parse " <> source) (unmarshal raw) >>= λ git_ops.
      prefixed ("invalid " <> source) (validate_git_ops_defaults git_ops) >> ok git_ops in
      if is_empty (trim_space raw) then ok none else parsed
