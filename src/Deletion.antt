-- ===== src/Deletion.antt =====
-- internal/onboarding/deletion.go: what a ProjectOnboarding that is being deleted tears down, and
-- what it waits for.
pub mod Frame
pub mod Pending
pub mod Waiting
use project_onboarding_opera.Base.{
  String, ◌<>◌, Bool, true, false, not, ◌&&◌, Option, none, some, List, [], ◌∷◌, ◌++◌, map,
  if◌then◌else◌,
}
use project_onboarding_opera.Base.Dict.{Dict, insert, get}
use project_onboarding_opera.Base.Text.{is_empty, join}
use project_onboarding_opera.Base.Sorting.{sort_strings}
use project_onboarding_opera.Base.Lists.{is_nil, member}
use project_onboarding_opera.Api.{
  NamespaceSpec, namespace_entry, ProjectOnboarding, project_onboarding_namespace_key,
}
use project_onboarding_opera.Helpers.{is_offboard}
use project_onboarding_opera.Helpers.Names.{sanitize_name}
use project_onboarding_opera.Helpers.Maps.{MapOrder}
use project_onboarding_opera.Effects.{
  Effect, Attempt, got, failed, pure, raise, attempt, ◌>>=◌, ◌>>◌, for_each,
}
use project_onboarding_opera.Cluster.{namespace, cluster_key, Object, is_not_found, Client}
use project_onboarding_opera.Cleanup.{
  is_managed_by_project_onboarding, cleanup_namespace, cleanup_namespace_cluster_scoped,
}
use project_onboarding_opera.Prune.{list_managed_namespaces}

abbrev pub deletion_blocked_message_prefix : String
deletion_blocked_message_prefix =
    "Cannot delete ProjectOnboarding while managed tenant namespaces still exist. "
    <> "Set offboard=true on each namespace entry or delete the tenant namespaces manually. Pending: "

-- The results of `FinalizeProjectOnboardingDeletion` beside its error.
pub record Finalized : Type 0 where
  pub complete : Bool
  pub pending_message : String

-- namespaceNamesInSpec; a map[string]struct{} is the list of its keys
unfoldable pub namespace_names_in_spec : List NamespaceSpec → List String
namespace_names_in_spec [] = []
namespace_names_in_spec (ns_spec ∷ namespaces) =
    sanitize_name ns_spec.name ∷ namespace_names_in_spec namespaces

-- The managed namespaces that no entry names and that are not being deleted.
unfoldable pub unlisted_names : List String → List Object → List String
unlisted_names spec_names [] = []
unlisted_names spec_names (ns ∷ items) =
    let names = unlisted_names spec_names items in
    if member ns.key.name spec_names
    then names
    else if ns.deleting
    then names
    else ns.key.name ∷ names

-- if len(pending) > 0 { … return false, … }; return true, "", nil
unfoldable pub verdict : List String → Finalized
verdict pending =
    if is_nil pending then record { complete = true; pending_message = "" } else record {
      complete = false;
      pending_message = deletion_blocked_message_prefix <> join (sort_strings pending) ", ";
    }

-- The keys of `tenantNames` that the entries of the spec set.
unfoldable pub add_spec_tenants : List NamespaceSpec → Dict (Unit {0}) → Dict (Unit {0})
add_spec_tenants [] names = names
add_spec_tenants (ns_spec ∷ namespaces) names =
    add_spec_tenants namespaces (insert (sanitize_name ns_spec.name) tt names)

-- The keys of `tenantNames` that the managed namespaces set.
unfoldable pub add_managed_tenants : List Object → Dict (Unit {0}) → Dict (Unit {0})
unfolding get
add_managed_tenants [] names = names
add_managed_tenants (ns ∷ items) names =
    let label = get project_onboarding_namespace_key ns.labels in
    let named = insert ns.key.name tt names in
    add_managed_tenants items
      (if is_empty label then named else insert (sanitize_name label) tt named)

module _ (client : Client) where
  -- if apierrors.IsNotFound(err) { return false, nil }; if err != nil { return false, err }
  unfoldable pub answer_exists : (Object → Bool) → Attempt Object → Effect client.State Bool
  answer_exists test (got ns) = pure (test ns)
  answer_exists test (failed e) = if is_not_found e then pure false else raise e

  -- The tests of `managedNamespaceExists` on the namespace that it has read.
  abbrev pub is_live : ProjectOnboarding → Object → Bool
  is_live po ns = is_managed_by_project_onboarding ns.labels po && not ns.deleting

  unfoldable pub managed_namespace_exists : ProjectOnboarding → String → Effect client.State Bool
  unfolding answer_exists
  managed_namespace_exists po ns_name =
      attempt (client.get (cluster_key namespace ns_name)) >>= answer_exists (is_live po)

  unfoldable pub namespace_exists : String → Effect client.State Bool
  unfolding answer_exists
  namespace_exists name =
      attempt (client.get (cluster_key namespace name)) >>= answer_exists (λ _. true)

  -- The rest of `finalizeNamespaceEntry`, once it knows whether the managed namespace exists.
  unfoldable pub settle_namespace_entry :
      ProjectOnboarding → NamespaceSpec → Bool → Effect client.State String
  settle_namespace_entry po ns_spec exists =
      if is_offboard ns_spec.offboard
      then cleanup_namespace client po ns_spec >> pure ""
      else if exists
      then pure (sanitize_name ns_spec.name)
      else cleanup_namespace_cluster_scoped client po ns_spec >> pure ""

  unfoldable pub finalize_namespace_entry :
      ProjectOnboarding → NamespaceSpec → Effect client.State String
  unfolding managed_namespace_exists settle_namespace_entry
  finalize_namespace_entry po ns_spec =
      managed_namespace_exists po (sanitize_name ns_spec.name) >>= settle_namespace_entry po ns_spec

  -- The first loop of `FinalizeProjectOnboardingDeletion`: what it appends to `pending`.
  unfoldable pub finalize_entries :
      ProjectOnboarding → List NamespaceSpec → Effect client.State (List String)
  unfolding finalize_namespace_entry
  finalize_entries po [] = pure []
  finalize_entries po (ns_spec ∷ namespaces) = do
    ns_pending ← finalize_namespace_entry po ns_spec
    rest ← finalize_entries po namespaces
    pure (if is_empty ns_pending then rest else ns_pending ∷ rest)

  -- if exists { continue }; the cleanup of the tenant
  unfoldable pub release_unless : ProjectOnboarding → String → Bool → Effect client.State (Unit {0})
  release_unless po tenant_name true = pure tt
  release_unless po tenant_name false =
      cleanup_namespace_cluster_scoped client po (namespace_entry tenant_name)

  -- The body of the last loop of `cleanupClusterScopedForReleasedTenants`.
  unfoldable pub cleanup_released_tenant :
      ProjectOnboarding → String → Effect client.State (Unit {0})
  unfolding namespace_exists release_unless
  cleanup_released_tenant po tenant_name = do
    exists ← namespace_exists tenant_name
    release_unless po tenant_name exists

  unfoldable pub cleanup_cluster_scoped_for_released_tenants :
      MapOrder → ProjectOnboarding → Effect client.State (Unit {0})
  unfolding list_managed_namespaces add_spec_tenants add_managed_tenants cleanup_released_tenant
  cleanup_cluster_scoped_for_released_tenants order po = do
    managed_namespaces ← list_managed_namespaces client po
    let tenant_names = add_managed_tenants managed_namespaces (add_spec_tenants po.namespaces [])
    for_each (map (λ entry. entry.0) (order.range Unit tenant_names)) (cleanup_released_tenant po)

  unfoldable pub finalize_project_onboarding_deletion :
      MapOrder → ProjectOnboarding → Effect client.State Finalized
  unfolding finalize_entries unlisted_names verdict cleanup_cluster_scoped_for_released_tenants
  finalize_project_onboarding_deletion order po = do
    pending ← finalize_entries po po.namespaces
    managed_namespaces ← list_managed_namespaces client po
    cleanup_cluster_scoped_for_released_tenants order po
    pure (
        verdict
          (pending ++ unlisted_names (namespace_names_in_spec po.namespaces) managed_namespaces))
