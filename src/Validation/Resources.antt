-- ===== src/Validation/Resources.antt =====
-- internal/validation/validate.go: the admission checks of a ProjectOnboarding and of a TShirtSize
-- that need no other object, and the test for a size that holds something.
pub mod Names
pub mod GitOps
pub mod Fallback
use project_onboarding_opera.Base.{
  String, ◌<>◌, Bool, true, false, not, ◌&&◌, ◌||◌, Option, none, some, List, [], ◌∷◌, ok, fail,
  message, ◌>>◌, is_some, if◌then◌else◌,
}
use project_onboarding_opera.Base.Text.{is_empty, trim_space, quote}
use project_onboarding_opera.Base.Lists.{is_nil, member}
use project_onboarding_opera.Api.{
  GitOpsSpec, ArgoCdProjectSpec, ResourceQuotaSpec, LimitRangeSpec, TShirtSizeSpec, NamespaceSpec,
  ProjectOnboarding,
}
use project_onboarding_opera.Validation.Quantity.{
  Checked, validate_resource_quota_spec, validate_limit_range_spec,
}

-- The loop of `validateUniqueNamespaceNames`, with the names that it has seen.
unfoldable pub validate_unique_onto : List String → List NamespaceSpec → Checked
validate_unique_onto seen [] = ok tt
validate_unique_onto seen (ns ∷ namespaces) =
    let name = trim_space ns.name in
    let skipped = validate_unique_onto seen namespaces in
    let rest = validate_unique_onto (name ∷ seen) namespaces in
    if is_empty name
    then skipped
    else if member name seen
    then fail
        (message ("duplicate tenant namespace name " <> (quote name <> " in spec.namespaces")))
    else rest

unfoldable pub validate_unique_namespace_names : List NamespaceSpec → Checked
validate_unique_namespace_names namespaces = validate_unique_onto [] namespaces

unfoldable pub is_opt_in_enabled_ptr : Option Bool → Bool
is_opt_in_enabled_ptr none = false
is_opt_in_enabled_ptr (some b) = b

unfoldable pub is_enabled_ptr : Option Bool → Bool
is_enabled_ptr none = true
is_enabled_ptr (some b) = b

-- `strings.TrimSpace(po.Spec.GitOps.ApplicationNamespace)`, "" without a GitOps block
abbrev pub fallback_git_ops_namespace : Option GitOpsSpec → String
fallback_git_ops_namespace none = ""
fallback_git_ops_namespace (some spec) = trim_space spec.application_namespace

-- ResolveApplicationGitOpsNamespace, of internal/onboarding/argocd.go
unfoldable pub resolve_application_git_ops_namespace : Option GitOpsSpec → NamespaceSpec → String
resolve_application_git_ops_namespace git_ops ns_spec =
    let ns = trim_space ns_spec.application_git_ops_namespace in
    if is_empty ns then fallback_git_ops_namespace git_ops else ns

-- The loop that sets `hasProjects`.
unfoldable pub has_projects : List ArgoCdProjectSpec → Bool
unfolding is_opt_in_enabled_ptr
has_projects [] = false
has_projects (project ∷ projects) = is_opt_in_enabled_ptr project.enabled || has_projects projects

-- The loop of `validateGitOpsRequirements`.
unfoldable pub validate_git_ops_requirements : Option GitOpsSpec → List NamespaceSpec → Checked
validate_git_ops_requirements git_ops [] = ok tt
validate_git_ops_requirements git_ops (ns ∷ namespaces) =
    let rest = validate_git_ops_requirements git_ops namespaces in
    if not (is_enabled_ptr ns.enabled)
    then rest
    else if not (has_projects ns.argo_cd_projects)
    then rest
    else if is_empty (resolve_application_git_ops_namespace git_ops ns)
    then fail (
        message (
          "spec.namespaces["
          <> (quote ns.name
              <> "].applicationGitOpsNamespace is required when argoCDProjects are enabled (legacy fallback: spec.gitOps.applicationNamespace or onboarding-defaults ConfigMap)")))
    else rest

-- `spec.Enabled != nil && !*spec.Enabled`
abbrev pub is_switched_off : Option Bool → Bool
is_switched_off none = false
is_switched_off (some b) = not b

unfoldable pub resource_quota_spec_has_values : Option ResourceQuotaSpec → Bool
resource_quota_spec_has_values none = false
resource_quota_spec_has_values (some spec) =
    if is_switched_off spec.enabled
    then false
    else is_some spec.pods
      || is_some spec.cpu
      || is_some spec.memory
      || is_some spec.ephemeral_storage
      || is_some spec.replication_controllers
      || is_some spec.resource_quotas
      || is_some spec.services
      || is_some spec.secrets
      || is_some spec.config_maps
      || is_some spec.persistent_volume_claims
      || is_some spec.limits
      || is_some spec.requests
      || not (is_nil spec.storage_classes)

unfoldable pub limit_range_spec_has_values : Option LimitRangeSpec → Bool
limit_range_spec_has_values none = false
limit_range_spec_has_values (some spec) =
    if is_switched_off spec.enabled
    then false
    else is_some spec.pod || is_some spec.container || is_some spec.pvc

unfoldable pub tshirt_size_spec_has_sizing : TShirtSizeSpec → Bool
unfolding resource_quota_spec_has_values limit_range_spec_has_values
tshirt_size_spec_has_sizing spec =
    resource_quota_spec_has_values spec.resource_quotas
    || limit_range_spec_has_values spec.limit_ranges
