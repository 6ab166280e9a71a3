-- ===== src/Reconcile.antt =====
-- internal/onboarding/reconcile.go, `ReconcileNamespace`: what is done for one namespace entry.
-- The parameter `read_tshirt` is what `Get` answers for the name of a T-shirt size.
pub mod Tenant
pub mod Shared
pub mod Prune
pub mod Keys
pub mod Writes
pub mod Pruned
pub mod Beyond
pub mod Isolation
pub mod Stored
pub mod Quotas
pub mod Policies
pub mod Adopted
use project_onboarding_opera.Base.{String, Bool, Option, none, some, Outcome, if◌then◌else◌}
use project_onboarding_opera.Base.Dict.{Dict}
use project_onboarding_opera.Api.{
  ResourceQuotaSpec, LimitRangeSpec, TShirtSizeSpec, LocalAdminGroupSpec, EgressIpSpec,
  NamespaceSpec, ProjectOnboarding,
}
use project_onboarding_opera.Helpers.{is_enabled, is_opt_in_enabled}
use project_onboarding_opera.Helpers.Maps.{MapOrder}
use project_onboarding_opera.Helpers.Names.{sanitize_name, managed_labels}
use project_onboarding_opera.Sizing.Catalogue.{resolve_namespace_spec}
use project_onboarding_opera.Effects.{Effect, pure, lift, wrapped, ◌>>=◌, ◌>>◌, when}
use project_onboarding_opera.Cluster.{Object, Client}
use project_onboarding_opera.Owners.{Machinery}
use project_onboarding_opera.Reconcile.Tenant.{
  reconcile_resource_quota, reconcile_limit_range, reconcile_default_network_policies,
  reconcile_custom_network_policies, reconcile_local_admin_role_binding,
}
use project_onboarding_opera.Reconcile.Shared.{
  reconcile_namespace_object, reconcile_local_admin_group, reconcile_egress_ip,
  reconcile_argo_cd_projects,
}
use project_onboarding_opera.Reconcile.Prune.{prune_namespace_resources}

module _ (client : Client) (read_tshirt : String → client.State → Outcome TShirtSizeSpec)
    (order : MapOrder) where
  -- ResolveNamespaceSpec, with its read of the current state
  unfoldable pub resolve : NamespaceSpec → Effect client.State NamespaceSpec
  resolve ns_spec s = (resolve_namespace_spec (λ name. read_tshirt name s) order ns_spec, s)

module _ (client : Client) (machinery : Machinery) (scheme : Option machinery.Scheme) where
  module _ (tenant_ns : Object) (ns_name : String) (labels : Dict String) where
    unfoldable pub group_step :
        ProjectOnboarding
        → NamespaceSpec
        → Option LocalAdminGroupSpec
        → Effect client.State (Unit {0})
    group_step po ns_spec none = pure tt
    group_step po ns_spec (some spec) = when (is_opt_in_enabled spec.enabled) (
        wrapped "local admin group"
          (reconcile_local_admin_group client machinery scheme po ns_spec spec labels)
        >> wrapped "local admin role binding" (
            reconcile_local_admin_role_binding client machinery scheme (some tenant_ns) ns_name
              labels ns_spec))

    unfoldable pub egress_step :
        ProjectOnboarding → Option EgressIpSpec → Effect client.State (Unit {0})
    egress_step po none = pure tt
    egress_step po (some spec) =
        when (is_opt_in_enabled spec.enabled)
          (wrapped "egress IP" (reconcile_egress_ip client machinery scheme po spec ns_name labels))

    module _ (parse_error : String → Option String) where
      unfoldable pub quota_step : Option ResourceQuotaSpec → Effect client.State (Unit {0})
      quota_step none = pure tt
      quota_step (some quota) = when (is_enabled quota.enabled) (
          wrapped "resource quota" (
            reconcile_resource_quota client machinery scheme (some tenant_ns) ns_name labels
              parse_error quota))

      unfoldable pub limits_step : Option LimitRangeSpec → Effect client.State (Unit {0})
      limits_step none = pure tt
      limits_step (some limits) = when (is_enabled limits.enabled) (
          wrapped "limit range" (
            reconcile_limit_range client machinery scheme (some tenant_ns) ns_name labels
              parse_error limits))

      -- `ReconcileNamespace` once the quota is settled.
      unfoldable pub reconcile_beyond_quota :
          ProjectOnboarding → NamespaceSpec → NamespaceSpec → Effect client.State (Unit {0})
      unfolding limits_step group_step egress_step
      reconcile_beyond_quota po ns_spec resolved = do
        limits_step resolved.limit_ranges
        wrapped "default network policies" (
            reconcile_default_network_policies client machinery scheme (some tenant_ns) ns_name
              labels ns_spec)
        wrapped "custom network policies" (
            reconcile_custom_network_policies client machinery scheme (some tenant_ns) ns_name
              labels ns_spec)
        group_step po ns_spec ns_spec.local_admin_group
        egress_step po ns_spec.egress_ips
        wrapped "argo cd app project"
            (reconcile_argo_cd_projects client machinery scheme po ns_spec ns_name labels)
        wrapped "prune" (prune_namespace_resources client po ns_spec resolved)

      -- `ReconcileNamespace` once the namespace is there.
      unfoldable pub reconcile_contents :
          ProjectOnboarding → NamespaceSpec → NamespaceSpec → Effect client.State (Unit {0})
      unfolding quota_step reconcile_beyond_quota
      reconcile_contents po ns_spec resolved = do
        quota_step resolved.resource_quotas
        reconcile_beyond_quota po ns_spec resolved

  module _ (parse_error : String → Option String)
      (read_tshirt : String → client.State → Outcome TShirtSizeSpec) (order : MapOrder) where
    unfoldable pub reconcile_namespace :
        ProjectOnboarding → NamespaceSpec → Effect client.State (Unit {0})
    unfolding resolve reconcile_contents
    reconcile_namespace po ns_spec = do
      let ns_name = sanitize_name ns_spec.name
      let labels = managed_labels po ns_spec
      resolved ← resolve client read_tshirt order ns_spec
      tenant_ns ←
          wrapped "namespace"
            (reconcile_namespace_object client machinery scheme po ns_spec ns_name labels)
      reconcile_contents tenant_ns ns_name labels parse_error po ns_spec resolved
