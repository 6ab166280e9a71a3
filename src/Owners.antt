-- ===== src/Owners.antt =====
-- internal/onboarding/owners.go: the owners of what the operator creates. The functions of
-- apimachinery and controller-runtime that it calls are the parameter `Machinery`.
use project_onboarding_opera.Base.{
  String, Bool, not, ◌&&◌, Option, none, some, List, Outcome, ok, ◌>>=◌, ◌==◌, if◌then◌else◌,
}
use project_onboarding_opera.Base.Dict.{Dict, get}
use project_onboarding_opera.Base.Text.{is_empty}
use project_onboarding_opera.Content.{AppProjectSpec, Content}
use project_onboarding_opera.Api.{
  ProjectOnboarding, project_onboarding_label_key, project_onboarding_managed_by_key,
  project_onboarding_managed_by_val,
}
use project_onboarding_opera.Cluster.{Object, OwnerReference}

pub data Owner : Type 0 where
  onboarding_owner : ProjectOnboarding → Owner
  namespace_owner : Object → Owner

-- The nested fields of unstructured objects that the operator sets: `users` of a Group,
-- `spec.egressIPs` and `spec.namespaceSelector` of an EgressIP, `spec` of an AppProject.
pub data Field : Type 0 where
  users : List String → Field
  egress_ips : List String → Field
  namespace_selector : Dict String → Field
  project : AppProjectSpec → Field

-- metav1.IsControlledBy; controllerutil.SetControllerReference and SetOwnerReference, which answer
-- the owner references that they leave; the setting of a nested field of an unstructured object; and
-- the labels of an unstructured object once pairs were written into the map that GetLabels answered.
pub record Machinery : Type 1 where
  pub Scheme : Type 0
  pub is_controlled_by : Object → Owner → Bool
  pub set_controller_reference : Owner → Object → Option Scheme → Outcome (List OwnerReference)
  pub set_owner_reference : Owner → Object → Option Scheme → Outcome (List OwnerReference)
  pub set_nested : Field → Content → Outcome Content
  pub write_labels : Dict String → Dict String → Dict String

-- IsManagedResource
unfoldable pub is_managed_resource : Dict String → Bool
unfolding get
is_managed_resource labels =
    get project_onboarding_managed_by_key labels == project_onboarding_managed_by_val
    && not (is_empty (get project_onboarding_label_key labels))

abbrev pub owned : Object → Outcome (List OwnerReference) → Outcome Object
owned o refs = refs >>= λ owners. ok (record o { owners = owners })

module _ (machinery : Machinery) where
  -- unstructured.SetNestedStringSlice and its like, on an object
  unfoldable pub set_field : Field → Object → Outcome Object
  set_field field o =
      machinery.set_nested field o.content >>= λ content. ok (record o { content = content })

  -- if metav1.IsControlledBy(obj, owner) { return nil }; return set(owner, obj, scheme)
  unfoldable pub unless_controlled : Owner → Object → Outcome (List OwnerReference) → Outcome Object
  unless_controlled owner o refs = if machinery.is_controlled_by o owner then ok o else owned o refs

  unfoldable pub ensure_project_onboarding_controller_ref :
      Option machinery.Scheme → Option ProjectOnboarding → Object → Outcome Object
  unfolding unless_controlled
  ensure_project_onboarding_controller_ref none po o = ok o
  ensure_project_onboarding_controller_ref (some scheme) none o = ok o
  ensure_project_onboarding_controller_ref (some scheme) (some po) o =
      unless_controlled (onboarding_owner po) o
        (machinery.set_controller_reference (onboarding_owner po) o (some scheme))

  unfoldable pub ensure_tenant_namespace_owner_ref :
      Option machinery.Scheme → Option Object → Object → Outcome Object
  unfolding unless_controlled
  ensure_tenant_namespace_owner_ref none tenant_ns o = ok o
  ensure_tenant_namespace_owner_ref (some scheme) none o = ok o
  ensure_tenant_namespace_owner_ref (some scheme) (some tenant_ns) o =
      unless_controlled (namespace_owner tenant_ns) o
        (machinery.set_owner_reference (namespace_owner tenant_ns) o (some scheme))
