-- ===== src/Reconcile/Prune.antt =====
-- internal/onboarding/prune.go, `PruneNamespaceResources`: the objects of a tenant namespace that its
-- entry no longer asks for.
use project_onboarding_opera.Base.{
  String, Bool, false, not, Option, none, some, List, [], ◌∷◌, if◌then◌else◌,
}
use project_onboarding_opera.Base.Lists.{member}
use project_onboarding_opera.Api.{
  ResourceQuotaSpec, LimitRangeSpec, ArgoCdProjectSpec, CustomNetworkPolicySpec, NamespaceSpec,
  ProjectOnboarding,
}
use project_onboarding_opera.Helpers.{is_enabled, is_opt_in_enabled}
use project_onboarding_opera.Helpers.Names.{sanitize_name}
use project_onboarding_opera.NetworkPolicies.{NetworkPolicy, default_network_policies}
use project_onboarding_opera.Effects.{Effect, wrapped, ◌>>=◌, ◌>>◌, when, for_each}
use project_onboarding_opera.Cluster.{network_policy, Object, Client}
use project_onboarding_opera.Cleanup.{
  managed_list_options, wants_group, wants_egress, delete_object, delete_managed_resource_quota,
  delete_managed_limit_range, delete_managed_role_binding, delete_managed_group,
  delete_managed_egress_ip, delete_app_projects_for_namespace,
}

-- The names of the active custom policies onto those of the default ones.
unfoldable pub custom_policy_names : List CustomNetworkPolicySpec → List String
custom_policy_names [] = []
custom_policy_names (spec ∷ specs) =
    let names = custom_policy_names specs in
    if is_enabled spec.active then sanitize_name spec.name ∷ names else names

unfoldable pub names_onto : List NetworkPolicy → List String → List String
names_onto [] names = names
names_onto (policy ∷ policies) names = policy.name ∷ names_onto policies names

unfoldable pub desired_network_policy_names : NamespaceSpec → List String
unfolding custom_policy_names names_onto
desired_network_policy_names ns_spec =
    names_onto (default_network_policies ns_spec.default_policies)
      (custom_policy_names ns_spec.network_policies)

-- `keep` of `pruneAppProjectsForNamespace`
unfoldable pub kept_app_projects : List ArgoCdProjectSpec → List String
kept_app_projects [] = []
kept_app_projects (project_spec ∷ projects) =
    let names = kept_app_projects projects in
    if is_opt_in_enabled project_spec.enabled
    then sanitize_name project_spec.name ∷ names
    else names

-- `ResourceQuotas != nil && IsEnabled(ResourceQuotas.Enabled)`
unfoldable pub wants_quota : Option ResourceQuotaSpec → Bool
wants_quota none = false
wants_quota (some quota) = is_enabled quota.enabled

-- `LimitRanges != nil && IsEnabled(LimitRanges.Enabled)`
unfoldable pub wants_limits : Option LimitRangeSpec → Bool
wants_limits none = false
wants_limits (some limits) = is_enabled limits.enabled

module _ (client : Client) where
  unfoldable pub prune_network_policy : List String → Object → Effect client.State (Unit {0})
  unfolding delete_object
  prune_network_policy keep o = when (not (member o.key.name keep)) (delete_object client o)

  unfoldable pub prune_managed_network_policies :
      ProjectOnboarding → String → List String → Effect client.State (Unit {0})
  unfolding prune_network_policy
  prune_managed_network_policies po ns_name keep = do
    items ← client.list network_policy (some ns_name) (managed_list_options po)
    for_each items (prune_network_policy keep)

  unfoldable pub prune_app_projects_for_namespace :
      ProjectOnboarding → NamespaceSpec → String → Effect client.State (Unit {0})
  unfolding kept_app_projects
  prune_app_projects_for_namespace po ns_spec ns_name =
      delete_app_projects_for_namespace client po ns_name
        (some (kept_app_projects ns_spec.argo_cd_projects))

  unfoldable pub prune_namespace_resources :
      ProjectOnboarding → NamespaceSpec → NamespaceSpec → Effect client.State (Unit {0})
  unfolding wants_quota wants_limits prune_managed_network_policies prune_app_projects_for_namespace
  prune_namespace_resources po ns_spec resolved = do
    let ns_name = sanitize_name ns_spec.name
    when (not (wants_quota resolved.resource_quotas))
        (delete_managed_resource_quota client po ns_name)
    when (not (wants_limits resolved.limit_ranges)) (delete_managed_limit_range client po ns_name)
    wrapped "network policies"
        (prune_managed_network_policies po ns_name (desired_network_policy_names ns_spec))
    when (not (wants_group ns_spec)) (
        delete_managed_role_binding client po ns_spec ns_name
        >> delete_managed_group client po ns_spec)
    when (not (wants_egress ns_spec)) (delete_managed_egress_ip client po ns_name)
    wrapped "argo cd app projects" (prune_app_projects_for_namespace po ns_spec ns_name)
