-- ===== src/Settings/Managed.antt =====
-- The labels that a tenant namespace is given are those by which a cleanup recognises it.
use project_onboarding_opera.Base.{
  String, ◌≡◌, refl, ◌∙◌, ap, Bool, true, false, Option, none, some, [], ◌==◌, or_else,
  if◌then◌else◌,
}
use project_onboarding_opera.Base.Dict.{
  Dict, lookup, insert, overlay, NodupKeys, lookup-insert, lookup-overlay,
}
use project_onboarding_opera.Api.{
  AdditionalSettingsSpec, NamespaceSpec, ProjectOnboarding, project_onboarding_label_key,
  project_onboarding_managed_by_key,
}
use project_onboarding_opera.Helpers.Names.{sanitize_name, managed_labels}
use project_onboarding_opera.Cleanup.{wants_egress, is_managed_by_project_onboarding}
use project_onboarding_opera.Cleanup.Foreign.{Matches-managed}
use project_onboarding_opera.Validation.Resources.{resolve_application_git_ops_namespace}
use project_onboarding_opera.Settings.{
  user_monitoring_label, pod_security_audit_label, pod_security_warn_label,
  pod_security_enforce_label, argo_cd_managed_by_label, monitoring_value,
  apply_user_monitoring_label, set_unless_empty, apply_additional_settings_labels, desired_labels,
}
use project_onboarding_opera.Settings.Labels.{
  last_label, lookup-set_unless_empty, lookup-apply_additional_settings_labels,
}

-- The operator itself sets no label of this key beside the managed ones.
abbrev pub IsUnreserved : String → Type 0
IsUnreserved k =
    ((argo_cd_managed_by_label == k) ≡ false)
    × (("env" == k) ≡ false)
    × (("namespace-size" == k) ≡ false)
    × ((user_monitoring_label == k) ≡ false)
    × ((pod_security_enforce_label == k) ≡ false)
    × ((pod_security_warn_label == k) ≡ false)
    × ((pod_security_audit_label == k) ≡ false)

-- The custom labels of the settings leave the key alone.
abbrev pub LeavesAlone : String → Option AdditionalSettingsSpec → Type 0
LeavesAlone k none = Unit
LeavesAlone k (some settings) = last_label k settings.additional_labels ≡ none

skip_insert :
    (key k v : String) (labels : Dict String)
    → (key == k) ≡ false
    → lookup k (insert key v labels) ≡ lookup k labels
skip_insert key k v labels differ = lookup-insert key k v labels ∙ rw differ refl

skip_set :
    (key k v : String) (labels : Dict String)
    → (key == k) ≡ false
    → lookup k (set_unless_empty key v labels) ≡ lookup k labels
skip_set key k v labels differ = lookup-set_unless_empty key k v labels ∙ rw differ refl

-- What the settings say of a key that the operator itself leaves alone.
abbrev pub custom_label : String → Option AdditionalSettingsSpec → Option String
custom_label k none = none
custom_label k (some settings) = last_label k settings.additional_labels

lookup-settings :
    (k : String) (labels : Dict String) (settings : Option AdditionalSettingsSpec)
    → IsUnreserved k
    → lookup k (apply_additional_settings_labels labels settings)
      ≡ or_else (custom_label k settings) (lookup k labels)
unfolding apply_additional_settings_labels apply_user_monitoring_label
lookup-settings k labels none (a, e, n, u, f, w, d) =
    skip_insert user_monitoring_label k (monitoring_value none) labels u
lookup-settings k labels (some settings) (a, e, n, u, f, w, d) =
    lookup-apply_additional_settings_labels k labels settings ∙ rw (u, f, w, d) refl

LeavesAlone-custom :
    (k : String) (settings : Option AdditionalSettingsSpec)
    → LeavesAlone k settings
    → custom_label k settings ≡ none
LeavesAlone-custom k none alone = refl
LeavesAlone-custom k (some settings) alone = alone

skip_egress :
    (b : Bool) (k name : String) (labels : Dict String)
    → ("env" == k) ≡ false
    → lookup k (if b then insert "env" name labels else labels) ≡ lookup k labels
skip_egress true k name labels differ = skip_insert "env" k name labels differ
skip_egress false k name labels differ = refl

-- A label that the operator sets no other way is the custom one, or else the one of the entry, or
-- else the managed one.
pub lookup-desired_labels :
    (k name : String) (po : ProjectOnboarding) (ns_spec : NamespaceSpec) (labels : Dict String)
    → IsUnreserved k
    → NodupKeys labels
    → NodupKeys ns_spec.labels
    → lookup k (desired_labels po ns_spec name labels)
      ≡ or_else
          (custom_label k ns_spec.additional_settings)
          (or_else (lookup k ns_spec.labels) (or_else (lookup k labels) none))
unfolding desired_labels lookup
lookup-desired_labels k name po ns_spec labels (a, e, n, u, f, w, d) once once' =
    skip_set argo_cd_managed_by_label k (resolve_application_git_ops_namespace po.git_ops ns_spec) _
      a
    ∙ (skip_egress (wants_egress ns_spec) k name _ e
        ∙ (skip_set "namespace-size" k ns_spec.project_size _ n
            ∙ (lookup-settings k (overlay (overlay [] labels) ns_spec.labels)
                  ns_spec.additional_settings (a, e, n, u, f, w, d)
                ∙ ap (or_else (custom_label k ns_spec.additional_settings)) (
                    lookup-overlay k (overlay [] labels) ns_spec.labels once'
                    ∙ ap (or_else (lookup k ns_spec.labels)) (lookup-overlay k [] labels once)))))

pub managed_labels-NodupKeys :
    (po : ProjectOnboarding) (ns_spec : NamespaceSpec) → NodupKeys (managed_labels po ns_spec)
unfolding managed_labels lookup
managed_labels-NodupKeys po ns_spec = (refl, (refl, (refl, tt)))

-- The labels that `reconcileNamespaceObject` wants for a tenant namespace are ones by which
-- `isManagedByProjectOnboarding` recognises it, if no two labels of the entry have the same key and
-- neither these nor the custom labels of its settings set the two keys that this test reads.
pub is_managed_by_project_onboarding-desired_labels :
    (po : ProjectOnboarding) (ns_spec : NamespaceSpec)
    → NodupKeys ns_spec.labels
    → lookup project_onboarding_managed_by_key ns_spec.labels ≡ none
    → lookup project_onboarding_label_key ns_spec.labels ≡ none
    → LeavesAlone project_onboarding_managed_by_key ns_spec.additional_settings
    → LeavesAlone project_onboarding_label_key ns_spec.additional_settings
    → is_managed_by_project_onboarding
        (desired_labels po ns_spec (sanitize_name ns_spec.name) (managed_labels po ns_spec))
        po
      ≡ true
unfolding managed_labels lookup
is_managed_by_project_onboarding-desired_labels po ns_spec once unset unset' alone alone' =
    Matches-managed po
      (desired_labels po ns_spec (sanitize_name ns_spec.name) (managed_labels po ns_spec))
      (
        reaches project_onboarding_managed_by_key (refl, refl, refl, refl, refl, refl, refl) unset
            alone,
        (
          reaches project_onboarding_label_key (refl, refl, refl, refl, refl, refl, refl) unset'
              alone',
          tt,
        ),
      )
  where
    reaches :
        (k : String)
        → IsUnreserved k
        → lookup k ns_spec.labels ≡ none
        → LeavesAlone k ns_spec.additional_settings
        → lookup k
            (desired_labels po ns_spec (sanitize_name ns_spec.name) (managed_labels po ns_spec))
          ≡ or_else (lookup k (managed_labels po ns_spec)) none
    reaches k free bare left =
        lookup-desired_labels k (sanitize_name ns_spec.name) po ns_spec (managed_labels po ns_spec)
          free (managed_labels-NodupKeys po ns_spec) once
        ∙ rw (LeavesAlone-custom k ns_spec.additional_settings left, bare) refl
