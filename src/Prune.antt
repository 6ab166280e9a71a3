-- ===== src/Prune.antt =====
-- internal/onboarding/prune.go: the cleanup of the tenant namespaces whose entries ask for it.
pub mod Frame
use project_onboarding_opera.Base.{
  String, ◌<>◌, Bool, Option, none, some, List, [], ◌∷◌, ◌==◌, if◌then◌else◌,
}
use project_onboarding_opera.Base.Text.{quote}
use project_onboarding_opera.Base.Lists.{member}
use project_onboarding_opera.Api.{NamespaceSpec, namespace_entry, ProjectOnboarding}
use project_onboarding_opera.Helpers.{is_offboard}
use project_onboarding_opera.Helpers.Names.{sanitize_name}
use project_onboarding_opera.Effects.{Effect, pure, wrapped, ◌>>=◌, for_each}
use project_onboarding_opera.Cluster.{namespace, Object, Client}
use project_onboarding_opera.Cleanup.{managed_list_options, cleanup_namespace}

-- desiredTenantNamespaceNames; a map[string]struct{} is the list of its keys
unfoldable pub desired_tenant_namespace_names : List NamespaceSpec → List String
desired_tenant_namespace_names [] = []
desired_tenant_namespace_names (ns_spec ∷ namespaces) =
    let names = desired_tenant_namespace_names namespaces in
    if is_offboard ns_spec.offboard then names else sanitize_name ns_spec.name ∷ names

unfoldable pub namespace_spec_for_managed_name : List NamespaceSpec → String → NamespaceSpec
namespace_spec_for_managed_name [] sanitized_name = namespace_entry sanitized_name
namespace_spec_for_managed_name (ns_spec ∷ namespaces) sanitized_name =
    if sanitize_name ns_spec.name == sanitized_name
    then ns_spec
    else namespace_spec_for_managed_name namespaces sanitized_name

module _ (client : Client) where
  -- listManagedNamespaces, of deletion.go
  unfoldable pub list_managed_namespaces : ProjectOnboarding → Effect client.State (List Object)
  list_managed_namespaces po =
      wrapped "list managed namespaces" (client.list namespace none (managed_list_options po))

  -- The end of the loop's body in `PruneRemovedNamespaces`.
  unfoldable pub cleanup_offboarded :
      ProjectOnboarding → String → NamespaceSpec → Effect client.State (Unit {0})
  cleanup_offboarded po name ns_spec =
      if is_offboard ns_spec.offboard
      then wrapped ("cleanup offboarded namespace " <> quote name)
          (cleanup_namespace client po ns_spec)
      else pure tt

  -- The body of the loop of `PruneRemovedNamespaces`.
  unfoldable pub prune_removed_namespace :
      ProjectOnboarding → Object → Effect client.State (Unit {0})
  unfolding cleanup_offboarded
  prune_removed_namespace po ns =
      if member ns.key.name (desired_tenant_namespace_names po.namespaces)
      then pure tt
      else cleanup_offboarded po ns.key.name
          (namespace_spec_for_managed_name po.namespaces ns.key.name)

  unfoldable pub prune_removed_namespaces : ProjectOnboarding → Effect client.State (Unit {0})
  unfolding list_managed_namespaces prune_removed_namespace
  prune_removed_namespaces po = do
    managed_namespaces ← list_managed_namespaces po
    for_each managed_namespaces (prune_removed_namespace po)
