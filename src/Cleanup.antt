-- ===== src/Cleanup.antt =====
-- internal/onboarding/cleanup.go, with the deletion of Argo CD projects of argocd.go: the removal of
-- what the operator created for one namespace entry.
pub mod Guards
pub mod Foreign
pub mod Released
use project_onboarding_opera.Base.{
  String, ◌<>◌, Bool, false, not, ◌&&◌, Option, none, some, List, [], ◌∷◌, Error, ◌==◌,
  if◌then◌else◌,
}
use project_onboarding_opera.Base.Dict.{Dict, get}
use project_onboarding_opera.Base.Lists.{member}
use project_onboarding_opera.Api.{
  NamespaceSpec, LocalAdminGroupSpec, EgressIpSpec, ProjectOnboarding, project_onboarding_label_key,
  project_onboarding_namespace_key, project_onboarding_managed_by_key,
  project_onboarding_managed_by_val,
}
use project_onboarding_opera.Helpers.{is_opt_in_enabled}
use project_onboarding_opera.Helpers.Names.{sanitize_name, group_name, role_binding_name}
use project_onboarding_opera.Effects.{
  Effect, Attempt, got, failed, pure, raise, attempt, wrapped, ◌>>=◌, ◌>>◌, when, for_each,
}
use project_onboarding_opera.Cluster.{
  Kind, namespace, resource_quota, limit_range, network_policy, role_binding, egress_ip, group,
  app_project, Key, cluster_key, namespaced_key, Object, is_not_found, is_no_match, Client,
}

unfoldable pub is_managed_by_project_onboarding : Dict String → ProjectOnboarding → Bool
unfolding get
is_managed_by_project_onboarding labels po =
    get project_onboarding_managed_by_key labels == project_onboarding_managed_by_val
    && get project_onboarding_label_key labels == po.name

-- managedListOptions, without the namespace
abbrev pub managed_list_options : ProjectOnboarding → Dict String
managed_list_options po =
    (project_onboarding_managed_by_key, project_onboarding_managed_by_val)
    ∷ (project_onboarding_label_key, po.name)
    ∷ []

-- The selector of `deleteAppProjectsForNamespace`.
abbrev pub app_project_list_options : ProjectOnboarding → String → Dict String
app_project_list_options po ns_name =
    (project_onboarding_label_key, po.name) ∷ (project_onboarding_namespace_key, ns_name) ∷ []

abbrev pub missing_or_no_match : Error → Bool
missing_or_no_match e = if is_not_found e then Bool.true else is_no_match e

-- `LocalAdminGroup != nil && IsOptInEnabled(LocalAdminGroup.Enabled)`
unfoldable pub wants_group : NamespaceSpec → Bool
wants_group ns_spec = elim ns_spec.local_admin_group [
  | none ↦ false
  | some spec ↦ is_opt_in_enabled spec.enabled
]

-- `EgressIPs != nil && IsOptInEnabled(EgressIPs.Enabled)`
unfoldable pub wants_egress : NamespaceSpec → Bool
wants_egress ns_spec = elim ns_spec.egress_ips [
  | none ↦ false
  | some spec ↦ is_opt_in_enabled spec.enabled
]

module _ (client : Client) where
  -- if err != nil { if absent(err) { return nil }; return err }
  unfoldable pub settle :
      {A : Type 0}
      → (Error → Bool)
      → (A → Effect client.State (Unit {0}))
      → Attempt A
      → Effect client.State (Unit {0})
  settle absent use_it (got a) = use_it a
  settle absent use_it (failed e) = if absent e then pure tt else raise e

  -- if err := c.Delete(ctx, obj); err != nil && !apierrors.IsNotFound(err) { return err }
  unfoldable pub delete_object : Object → Effect client.State (Unit {0})
  unfolding settle
  delete_object o = attempt (client.delete o) >>= settle is_not_found (λ _. pure tt)

  unfoldable pub delete_if_managed : ProjectOnboarding → Object → Effect client.State (Unit {0})
  unfolding delete_object
  delete_if_managed po o =
      if is_managed_by_project_onboarding o.labels po then delete_object o else pure tt

  unfoldable pub delete_managed_network_policies :
      ProjectOnboarding → String → Effect client.State (Unit {0})
  unfolding delete_object
  delete_managed_network_policies po ns_name = do
    items ← client.list network_policy (some ns_name) (managed_list_options po)
    for_each items delete_object

  -- The shape of `deleteManagedRoleBinding` and its like: read one object, and delete it if it is
  -- there and managed.
  unfoldable pub delete_managed :
      ProjectOnboarding → (Error → Bool) → Key → Effect client.State (Unit {0})
  unfolding settle delete_if_managed
  delete_managed po absent key = attempt (client.get key) >>= settle absent (delete_if_managed po)

  unfoldable pub delete_managed_role_binding :
      ProjectOnboarding → NamespaceSpec → String → Effect client.State (Unit {0})
  unfolding delete_managed
  delete_managed_role_binding po ns_spec ns_name =
      delete_managed po is_not_found
        (namespaced_key role_binding ns_name (role_binding_name ns_spec))

  unfoldable pub delete_managed_limit_range :
      ProjectOnboarding → String → Effect client.State (Unit {0})
  unfolding delete_managed
  delete_managed_limit_range po ns_name =
      delete_managed po is_not_found (namespaced_key limit_range ns_name (ns_name <> "-limitrange"))

  unfoldable pub delete_managed_resource_quota :
      ProjectOnboarding → String → Effect client.State (Unit {0})
  unfolding delete_managed
  delete_managed_resource_quota po ns_name =
      delete_managed po is_not_found (namespaced_key resource_quota ns_name (ns_name <> "-quota"))

  unfoldable pub delete_managed_egress_ip :
      ProjectOnboarding → String → Effect client.State (Unit {0})
  unfolding delete_managed
  delete_managed_egress_ip po ns_name =
      delete_managed po missing_or_no_match (cluster_key egress_ip ns_name)

  unfoldable pub delete_managed_group :
      ProjectOnboarding → NamespaceSpec → Effect client.State (Unit {0})
  unfolding delete_managed
  delete_managed_group po ns_spec =
      delete_managed po missing_or_no_match (cluster_key group (group_name ns_spec))

  unfoldable pub delete_managed_namespace :
      ProjectOnboarding → String → Effect client.State (Unit {0})
  unfolding delete_managed
  delete_managed_namespace po ns_name =
      delete_managed po is_not_found (cluster_key namespace ns_name)

  -- `keep != nil && keep[name]`
  abbrev pub is_kept : Option (List String) → String → Bool
  is_kept none name = false
  is_kept (some keep) name = member name keep

  delete_unless_kept : Option (List String) → Object → Effect client.State (Unit {0})
  unfolding delete_object
  delete_unless_kept keep o = when (not (is_kept keep o.key.name)) (delete_object o)

  -- The answer to the list call of `deleteAppProjectsForNamespace`.
  delete_app_projects :
      Option (List String) → Attempt (List Object) → Effect client.State (Unit {0})
  unfolding delete_unless_kept
  delete_app_projects keep (got items) = for_each items (delete_unless_kept keep)
  delete_app_projects keep (failed e) = if is_no_match e then pure tt else raise e

  unfoldable pub delete_app_projects_for_namespace :
      ProjectOnboarding → String → Option (List String) → Effect client.State (Unit {0})
  unfolding delete_app_projects
  delete_app_projects_for_namespace po ns_name keep =
      attempt (client.list app_project none (app_project_list_options po ns_name))
      >>= delete_app_projects keep

  unfoldable pub delete_managed_app_projects :
      ProjectOnboarding → NamespaceSpec → Effect client.State (Unit {0})
  unfolding delete_app_projects_for_namespace
  delete_managed_app_projects po ns_spec =
      delete_app_projects_for_namespace po (sanitize_name ns_spec.name) none

  unfoldable pub cleanup_namespace :
      ProjectOnboarding → NamespaceSpec → Effect client.State (Unit {0})
  cleanup_namespace po ns_spec = do
    let ns_name = sanitize_name ns_spec.name
    wrapped "network policies" (delete_managed_network_policies po ns_name)
    wrapped "role binding" (delete_managed_role_binding po ns_spec ns_name)
    wrapped "limit range" (delete_managed_limit_range po ns_name)
    wrapped "resource quota" (delete_managed_resource_quota po ns_name)
    when (wants_egress ns_spec) (wrapped "egress IP" (delete_managed_egress_ip po ns_name))
    when (wants_group ns_spec) (wrapped "local admin group" (delete_managed_group po ns_spec))
    wrapped "argo cd app project" (delete_managed_app_projects po ns_spec)
    wrapped "namespace" (delete_managed_namespace po ns_name)

  -- CleanupNamespaceClusterScoped, of deletion.go
  unfoldable pub cleanup_namespace_cluster_scoped :
      ProjectOnboarding → NamespaceSpec → Effect client.State (Unit {0})
  cleanup_namespace_cluster_scoped po ns_spec = do
    let ns_name = sanitize_name ns_spec.name
    wrapped "egress IP" (delete_managed_egress_ip po ns_name)
    wrapped "local admin group" (delete_managed_group po ns_spec)
    wrapped "argo cd app project" (delete_managed_app_projects po ns_spec)
