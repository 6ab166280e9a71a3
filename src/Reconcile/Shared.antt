-- ===== src/Reconcile/Shared.antt =====
-- internal/onboarding: the objects outside the tenant namespace, created or brought up to date
-- (reconcile_openshift.go, the Argo CD projects of argocd.go, the namespace itself of reconcile.go).
use project_onboarding_opera.Base.{
  String, ◌<>◌, Option, some, List, [], ◌∷◌, message, if◌then◌else◌,
}
use project_onboarding_opera.Base.Dict.{Dict, overlay}
use project_onboarding_opera.Base.Lists.{is_nil}
use project_onboarding_opera.Base.Text.{is_empty, quote}
use project_onboarding_opera.Api.{
  argo_cd_project_inherit_label, ArgoCdProjectSpec, LocalAdminGroupSpec, EgressIpSpec,
  NamespaceSpec, ProjectOnboarding, project_onboarding_label_key, project_onboarding_namespace_key,
  project_onboarding_managed_by_key, project_onboarding_managed_by_val,
}
use project_onboarding_opera.Helpers.{is_opt_in_enabled}
use project_onboarding_opera.Helpers.Names.{sanitize_name, group_name}
use project_onboarding_opera.Validation.Resources.{resolve_application_git_ops_namespace}
use project_onboarding_opera.Settings.{desired_labels}
use project_onboarding_opera.Content.{no_spec}
use project_onboarding_opera.Effects.{
  Effect, Attempt, got, failed, pure, raise, lift, attempt, ◌>>=◌, ◌>>◌, when, for_each,
}
use project_onboarding_opera.Cluster.{
  namespace, egress_ip, group, app_project, cluster_key, namespaced_key, Object, Client,
  is_not_found, is_no_match,
}
use project_onboarding_opera.Owners.{
  onboarding_owner, users, egress_ips, namespace_selector, project, Machinery, owned, set_field,
  ensure_project_onboarding_controller_ref,
}
use project_onboarding_opera.Projects.{app_project_spec}
use project_onboarding_opera.Reconcile.Tenant.{merge_string_maps, new_object}

unfoldable pub convert_users : List String → List String
convert_users [] = []
convert_users (user ∷ more) = user ∷ convert_users more

-- `projectLabels` of `reconcileAppProject`
unfoldable pub project_labels : ProjectOnboarding → String → Dict String → Dict String
unfolding overlay
project_labels po tenant_ns labels =
    overlay
      ((project_onboarding_managed_by_key, project_onboarding_managed_by_val)
        ∷ (project_onboarding_label_key, po.name)
        ∷ (project_onboarding_namespace_key, tenant_ns)
        ∷ (argo_cd_project_inherit_label, "global")
        ∷ [])
      labels

module _ (client : Client) (machinery : Machinery) (scheme : Option machinery.Scheme) where
  module _ (po : ProjectOnboarding) where
    unfoldable pub ensure_controller : Object → Effect client.State Object
    ensure_controller o =
        lift (ensure_project_onboarding_controller_ref machinery scheme (some po) o)

    -- What `reconcileLocalAdminGroup` does once the group was read.
    unfoldable pub write_group :
        NamespaceSpec
        → LocalAdminGroupSpec
        → Dict String
        → Attempt Object
        → Effect client.State (Unit {0})
    unfolding ensure_controller
    write_group ns_spec spec labels (got current) = do
      filled ← lift (
          set_field machinery (users (convert_users spec.users))
            (record current { labels = machinery.write_labels current.labels labels }))
      owned ← ensure_controller filled
      client.patch current owned
    write_group ns_spec spec labels (failed e) =
        if is_no_match e
        then raise (message "OpenShift Group API not available; localAdminGroup requires OpenShift")
        else if is_not_found e
        then lift (
            set_field machinery (users (convert_users spec.users))
              (new_object (cluster_key group (group_name ns_spec)) labels no_spec))
          >>= ensure_controller
          >>= client.create
        else raise e

    unfoldable pub reconcile_local_admin_group :
        NamespaceSpec → LocalAdminGroupSpec → Dict String → Effect client.State (Unit {0})
    unfolding write_group
    reconcile_local_admin_group ns_spec spec labels =
        attempt (client.get (cluster_key group (group_name ns_spec)))
        >>= write_group ns_spec spec labels

    -- The addresses, the namespace selector and the owner of an EgressIP.
    unfoldable pub fill_egress_ip : EgressIpSpec → String → Object → Effect client.State Object
    unfolding ensure_controller
    fill_egress_ip spec ns_name o = do
      addressed ← lift (set_field machinery (egress_ips spec.ips) o)
      selecting ← lift (set_field machinery (namespace_selector (("env", ns_name) ∷ [])) addressed)
      ensure_controller selecting

    -- What `reconcileEgressIP` does once the EgressIP was read.
    unfoldable pub write_egress_ip :
        EgressIpSpec → String → Dict String → Attempt Object → Effect client.State (Unit {0})
    unfolding fill_egress_ip
    write_egress_ip spec ns_name labels (got current) =
        fill_egress_ip spec ns_name
          (record current { labels = machinery.write_labels current.labels labels })
        >>= client.patch current
    write_egress_ip spec ns_name labels (failed e) =
        if is_no_match e
        then raise (
            message
              "OpenShift EgressIP API not available; egressIPs requires OVN-Kubernetes on OpenShift")
        else if is_not_found e
        then fill_egress_ip spec ns_name (new_object (cluster_key egress_ip ns_name) labels no_spec)
          >>= client.create
        else raise e

    unfoldable pub reconcile_egress_ip :
        EgressIpSpec → String → Dict String → Effect client.State (Unit {0})
    unfolding write_egress_ip
    reconcile_egress_ip spec ns_name labels =
        if is_nil spec.ips
        then raise (message "egressIPs.enabled requires at least one IP")
        else attempt (client.get (cluster_key egress_ip ns_name))
          >>= write_egress_ip spec ns_name labels

    -- The spec and the owner of an AppProject.
    unfoldable pub fill_app_project :
        ArgoCdProjectSpec → String → Object → Effect client.State Object
    fill_app_project project_spec tenant_ns o = do
      filled ←
          lift
            (set_field machinery (project (app_project_spec po.git_ops project_spec tenant_ns)) o)
      lift (owned filled (machinery.set_controller_reference (onboarding_owner po) filled scheme))

    -- What `reconcileAppProject` does once the project was read.
    unfoldable pub write_app_project :
        ArgoCdProjectSpec
        → String
        → String
        → Dict String
        → Attempt Object
        → Effect client.State (Unit {0})
    unfolding fill_app_project merge_string_maps project_labels
    write_app_project project_spec tenant_ns argo_ns labels (got current) =
        fill_app_project project_spec tenant_ns (record current {
          labels = merge_string_maps current.labels (project_labels po tenant_ns labels);
        })
        >>= client.patch current
    write_app_project project_spec tenant_ns argo_ns labels (failed e) =
        if is_not_found e
        then fill_app_project project_spec tenant_ns
            (record (new_object
              (namespaced_key app_project argo_ns (sanitize_name project_spec.name))
              (project_labels po tenant_ns labels) no_spec) {
                annotations = ("argocd.argoproj.io/sync-wave", "1") ∷ [];
              })
          >>= client.create
        else raise e

    unfoldable pub reconcile_app_project :
        ArgoCdProjectSpec → String → String → Dict String → Effect client.State (Unit {0})
    unfolding write_app_project
    reconcile_app_project project_spec tenant_ns argo_ns labels =
        attempt (client.get (namespaced_key app_project argo_ns (sanitize_name project_spec.name)))
        >>= write_app_project project_spec tenant_ns argo_ns labels

    unfoldable pub reconcile_argo_cd_projects :
        NamespaceSpec → String → Dict String → Effect client.State (Unit {0})
    unfolding reconcile_app_project
    reconcile_argo_cd_projects ns_spec ns_name labels =
        let argo_ns = resolve_application_git_ops_namespace po.git_ops ns_spec in
        if is_nil ns_spec.argo_cd_projects
        then pure tt
        else if is_empty argo_ns
        then raise (
            message (
              "argoCDProjects on namespace "
              <> (quote ns_spec.name
                  <> " require applicationGitOpsNamespace (Helm application_gitops_namespace)")))
        else for_each ns_spec.argo_cd_projects λ project_spec.
          when (is_opt_in_enabled project_spec.enabled)
            (reconcile_app_project project_spec ns_name argo_ns labels)

    -- What `reconcileNamespaceObject` does once the namespace was read.
    unfoldable pub write_namespace :
        NamespaceSpec → String → Dict String → Attempt Object → Effect client.State Object
    unfolding ensure_controller overlay
    write_namespace ns_spec ns_name labels (got current) = do
      owned ← ensure_controller (record current {
        labels = overlay current.labels (desired_labels po ns_spec ns_name labels);
        annotations = overlay current.annotations (overlay [] ns_spec.annotations);
      })
      client.patch current owned
      pure owned
    write_namespace ns_spec ns_name labels (failed e) =
        if is_not_found e
        then ensure_controller
            (record (new_object (cluster_key namespace ns_name)
              (desired_labels po ns_spec ns_name labels) no_spec) {
                annotations = overlay [] ns_spec.annotations;
              })
          >>= (λ owned. client.create owned >> pure owned)
        else raise e

    unfoldable pub reconcile_namespace_object :
        NamespaceSpec → String → Dict String → Effect client.State Object
    unfolding write_namespace
    reconcile_namespace_object ns_spec ns_name labels =
        attempt (client.get (cluster_key namespace ns_name))
        >>= write_namespace ns_spec ns_name labels
