-- ===== src/Settings.antt =====
-- internal/onboarding/namespace_settings.go and monitoring.go, with the part of
-- `reconcileNamespaceObject` of reconcile.go that computes the labels of a tenant namespace.
pub mod Labels
pub mod Managed
pub mod Overridden
use project_onboarding_opera.Base.{
  String, Bool, true, false, Option, none, some, List, [], ◌∷◌, if◌then◌else◌, is_some,
}
use project_onboarding_opera.Base.Dict.{Dict, insert, overlay}
use project_onboarding_opera.Base.Text.{is_empty}
use project_onboarding_opera.Api.{
  NamespaceLabel, AdditionalSettingsSpec, NamespaceSpec, ProjectOnboarding,
}
use project_onboarding_opera.Cleanup.{wants_egress}
use project_onboarding_opera.Validation.Resources.{resolve_application_git_ops_namespace}

abbrev pub user_monitoring_label : String
user_monitoring_label = "openshift.io/user-monitoring"

abbrev pub pod_security_audit_label : String
pod_security_audit_label = "pod-security.kubernetes.io/audit"

abbrev pub pod_security_warn_label : String
pod_security_warn_label = "pod-security.kubernetes.io/warn"

abbrev pub pod_security_enforce_label : String
pod_security_enforce_label = "pod-security.kubernetes.io/enforce"

abbrev pub argo_cd_managed_by_label : String
argo_cd_managed_by_label = "argocd.argoproj.io/managed-by"

-- The value that `ApplyUserMonitoringLabel` sets.
unfoldable pub monitoring_value : Option AdditionalSettingsSpec → String
monitoring_value none = "true"
monitoring_value (some settings) = elim settings.enable_cluster_monitoring [
  | none ↦ "true"
  | some enabled ↦ if enabled then "true" else "false"
]

unfoldable pub apply_user_monitoring_label :
    Dict String → Option AdditionalSettingsSpec → Dict String
unfolding monitoring_value
apply_user_monitoring_label labels settings =
    insert user_monitoring_label (monitoring_value settings) labels

-- for _, label := range settings.AdditionalLabels { … }
unfoldable pub add_labels : Dict String → List NamespaceLabel → Dict String
add_labels labels [] = labels
add_labels labels (label ∷ more) =
    add_labels (if is_empty label.key then labels else insert label.key label.value labels) more

-- if value != "" { labels[key] = value }
unfoldable pub set_unless_empty : String → String → Dict String → Dict String
set_unless_empty key value labels = if is_empty value then labels else insert key value labels

unfoldable pub apply_additional_settings_labels :
    Dict String → Option AdditionalSettingsSpec → Dict String
unfolding apply_user_monitoring_label add_labels set_unless_empty
apply_additional_settings_labels labels none = apply_user_monitoring_label labels none
apply_additional_settings_labels labels (some settings) =
    let custom = add_labels labels settings.additional_labels in
    let audited = set_unless_empty pod_security_audit_label settings.pod_security_audit custom in
    let warned = set_unless_empty pod_security_warn_label settings.pod_security_warn audited in
    let enforced =
      set_unless_empty pod_security_enforce_label settings.pod_security_enforce warned in
    apply_user_monitoring_label enforced (some settings)

-- `desiredLabels` of `reconcileNamespaceObject`
unfoldable pub desired_labels :
    ProjectOnboarding → NamespaceSpec → String → Dict String → Dict String
unfolding apply_additional_settings_labels set_unless_empty
desired_labels po ns_spec ns_name labels =
    let own = overlay (overlay [] labels) ns_spec.labels in
    let settled = apply_additional_settings_labels own ns_spec.additional_settings in
    let sized = set_unless_empty "namespace-size" ns_spec.project_size settled in
    let placed = if wants_egress ns_spec then insert "env" ns_name sized else sized in
    set_unless_empty argo_cd_managed_by_label
      (resolve_application_git_ops_namespace po.git_ops ns_spec) placed
