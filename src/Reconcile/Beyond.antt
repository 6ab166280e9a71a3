-- ===== src/Reconcile/Beyond.antt =====
-- What `ReconcileNamespace` does beyond the namespace and its quota leaves alone what it has no key of.
use project_onboarding_opera.Base.{String, ◌<>◌, ◌≡◌, ◌≢◌, false, Option, none, some, List}
use project_onboarding_opera.Base.Dict.{Dict}
use project_onboarding_opera.Base.Lists.{All-everywhere, is_nil}
use project_onboarding_opera.Base.Text.{is_empty}
use project_onboarding_opera.Api.{
  LimitRangeSpec, LocalAdminGroupSpec, EgressIpSpec, NamespaceSpec, ProjectOnboarding,
}
use project_onboarding_opera.Helpers.{is_enabled, is_opt_in_enabled}
use project_onboarding_opera.Helpers.Names.{
  sanitize_name, group_name, role_binding_name, cluster_role_name,
}
use project_onboarding_opera.Validation.Resources.{resolve_application_git_ops_namespace}
use project_onboarding_opera.NetworkPolicies.{NetworkPolicy}
use project_onboarding_opera.Effects.{Effect, for_each}
use project_onboarding_opera.Effects.Keeps.{
  Keeps-pure, Keeps-raise, Keeps-lift, Keeps-when, Keeps-bind, Keeps-wrapped, Keeps-if,
  Keeps-for_each,
}
use project_onboarding_opera.Content.{Content, limits_spec, policy_spec, binding_spec}
use project_onboarding_opera.Cluster.{
  Kind, limit_range, network_policy, role_binding, namespaced_key, Key, Object, Client, Lawful,
}
use project_onboarding_opera.Owners.{Machinery}
use project_onboarding_opera.Reconcile.Tenant.{
  new_object, reconcile_owned, reconcile_limit_range, reconcile_network_policy,
  reconcile_default_network_policies, reconcile_custom_network_policies,
  reconcile_local_admin_role_binding,
}
use project_onboarding_opera.Reconcile.Shared.{reconcile_argo_cd_projects}
use project_onboarding_opera.Reconcile.Writes.{
  Kept, reconcile_owned-Kept, reconcile_local_admin_group-Kept, reconcile_egress_ip-Kept,
  reconcile_app_project-Kept,
}
use project_onboarding_opera.Reconcile.Prune.{wants_quota}
use project_onboarding_opera.Reconcile.Pruned.{
  project_key, quota_key, Clear, prune_namespace_resources-Kept,
}
use project_onboarding_opera.Reconcile.{
  limits_step, group_step, egress_step, reconcile_beyond_quota,
}

module _ (client : Client) (L : Lawful client) (k : Key) (x : Object) (machinery : Machinery)
    (scheme : Option machinery.Scheme) (po : ProjectOnboarding) (ns_spec : NamespaceSpec)
    (clear : Clear po ns_spec k x) where
  abbrev Spared : {A : Type 0} → Effect client.State A → Type 0
  Spared m = Kept client L k x machinery scheme m

  owned-Kept :
      (tenant_ns : Object) (kind : Kind) (name : String) (labels : Dict String) (content : Content)
      → k ≢ namespaced_key kind (sanitize_name ns_spec.name) name
      → Spared (
          reconcile_owned client machinery scheme
            (some tenant_ns)
            (new_object (namespaced_key kind (sanitize_name ns_spec.name) name) labels content))
  owned-Kept tenant_ns kind name labels content ne =
      reconcile_owned-Kept client L k x machinery scheme (some tenant_ns)
        (new_object (namespaced_key kind (sanitize_name ns_spec.name) name) labels content) ne

  argo_cd_projects-Kept :
      (labels : Dict String)
      → Spared (
          reconcile_argo_cd_projects client machinery scheme po ns_spec
            (sanitize_name ns_spec.name)
            labels)
  unfolding reconcile_argo_cd_projects
  argo_cd_projects-Kept labels =
      Keeps-if (is_nil ns_spec.argo_cd_projects) _ _ (λ _. Keeps-pure tt)
        λ _.
          Keeps-if (is_empty (resolve_application_git_ops_namespace po.git_ops ns_spec)) _ _
            (λ _. Keeps-raise _)
            λ _.
              Keeps-for_each (λ p. k ≢ project_key po ns_spec p) ns_spec.argo_cd_projects _
                clear.projects.1
                λ p ne. Keeps-when (is_opt_in_enabled p.enabled) _ (
                  reconcile_app_project-Kept client L k x machinery scheme po p
                    (sanitize_name ns_spec.name) _ labels ne)

  module _ (tenant_ns : Object) (labels : Dict String) where
    policies-Kept :
        (policies : List NetworkPolicy)
        → Spared (
            for_each policies (
              reconcile_network_policy client machinery scheme
                (some tenant_ns)
                (sanitize_name ns_spec.name)
                labels))
    unfolding reconcile_network_policy
    policies-Kept policies =
        Keeps-for_each (λ _. Unit) policies _ (All-everywhere _ policies λ _. tt)
          λ policy _.
            owned-Kept tenant_ns network_policy policy.name labels (policy_spec policy.spec)
              (clear.policy policy.name)

    group_step-Kept :
        (spec : Option LocalAdminGroupSpec)
        → Spared (
            group_step client machinery scheme tenant_ns
              (sanitize_name ns_spec.name)
              labels
              po
              ns_spec
              spec)
    unfolding group_step reconcile_local_admin_role_binding
    group_step-Kept none = Keeps-pure tt
    group_step-Kept (some spec) = Keeps-when (is_opt_in_enabled spec.enabled) _ (
        Keeps-bind _ _
          (Keeps-wrapped _ _ (
            reconcile_local_admin_group-Kept client L k x machinery scheme po ns_spec spec labels
              clear.admins))
          λ _. Keeps-wrapped _ _ (
            owned-Kept tenant_ns role_binding (role_binding_name ns_spec) labels
              (binding_spec record {
                subject_group = group_name ns_spec;
                cluster_role = cluster_role_name ns_spec;
              })
              (clear.binding (role_binding_name ns_spec))))

    egress_step-Kept :
        (spec : Option EgressIpSpec)
        → Spared (
            egress_step client machinery scheme tenant_ns
              (sanitize_name ns_spec.name)
              labels
              po
              spec)
    unfolding egress_step
    egress_step-Kept none = Keeps-pure tt
    egress_step-Kept (some spec) = Keeps-when (is_opt_in_enabled spec.enabled) _ (
        Keeps-wrapped _ _
          (reconcile_egress_ip-Kept client L k x machinery scheme po spec _ labels clear.egress))

    module _ (parse_error : String → Option String) where
      limits_step-Kept :
          (limits : Option LimitRangeSpec)
          → Spared (
              limits_step client machinery scheme tenant_ns
                (sanitize_name ns_spec.name)
                labels
                parse_error
                limits)
      unfolding limits_step reconcile_limit_range
      limits_step-Kept none = Keeps-pure tt
      limits_step-Kept (some limits) = Keeps-when (is_enabled limits.enabled) _ (
          Keeps-wrapped _ _ (
            Keeps-bind _ _ (Keeps-lift _) λ items.
              owned-Kept tenant_ns limit_range (sanitize_name ns_spec.name <> "-limitrange") labels
                (limits_spec items) clear.limits))

      pub reconcile_beyond_quota-Kept :
          (resolved : NamespaceSpec)
          → (wants_quota resolved.resource_quotas ≡ false
              → k ≢ quota_key (sanitize_name ns_spec.name))
          → Spared (
              reconcile_beyond_quota client machinery scheme tenant_ns
                (sanitize_name ns_spec.name)
                labels
                parse_error
                po
                ns_spec
                resolved)
      unfolding reconcile_beyond_quota reconcile_default_network_policies
          reconcile_custom_network_policies
      reconcile_beyond_quota-Kept resolved ne = Keeps-bind _ _ (limits_step-Kept _) λ _.
          Keeps-bind _ _ (Keeps-wrapped _ _ (policies-Kept _)) λ _.
            Keeps-bind _ _ (Keeps-wrapped _ _ (policies-Kept _)) λ _.
              Keeps-bind _ _ (group_step-Kept _) λ _. Keeps-bind _ _ (egress_step-Kept _) λ _.
                Keeps-bind _ _ (Keeps-wrapped _ _ (argo_cd_projects-Kept labels)) λ _.
                  Keeps-wrapped _ _
                    (prune_namespace_resources-Kept client L k x po ns_spec clear resolved ne)
