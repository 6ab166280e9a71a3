-- ===== src/Settings/Overridden.antt =====
-- A custom label that takes the place of a managed one.
use project_onboarding_opera.Base.{
  String, ◌≡◌, refl, ◌∙◌, ap, Bool, true, false, inl, ◌&&◌, some, ◌==◌,
}
use project_onboarding_opera.Base.Dict.{Dict, get, NodupKeys, get-lookup}
use project_onboarding_opera.Api.{
  NamespaceSpec, ProjectOnboarding, project_onboarding_label_key, project_onboarding_managed_by_key,
  project_onboarding_managed_by_val,
}
use project_onboarding_opera.Helpers.Names.{sanitize_name, managed_labels}
use project_onboarding_opera.Cluster.{namespace, Key, Object, Client, Lawful}
use project_onboarding_opera.Cleanup.{is_managed_by_project_onboarding, cleanup_namespace}
use project_onboarding_opera.Cleanup.Foreign.{foreign, cleanup_namespace-stored}
use project_onboarding_opera.Settings.{desired_labels}
use project_onboarding_opera.Settings.Managed.{
  IsUnreserved, custom_label, lookup-desired_labels, managed_labels-NodupKeys,
}

-- The custom labels of an entry's settings give another value to one of the two keys by which the
-- operator recognises what it manages.
pub data Overrides (po : ProjectOnboarding) (ns_spec : NamespaceSpec) : Type 0 where
  other_operator :
      (v : String)
      → custom_label project_onboarding_managed_by_key ns_spec.additional_settings ≡ some v
      → (v == project_onboarding_managed_by_val) ≡ false
      → Overrides po ns_spec
  other_onboarding :
      (v : String)
      → custom_label project_onboarding_label_key ns_spec.additional_settings ≡ some v
      → (v == po.name) ≡ false
      → Overrides po ns_spec

fails_left : (p q : Bool) → p ≡ false → (p && q) ≡ false
fails_left p q e = cc

fails_right : (p q : Bool) → q ≡ false → (p && q) ≡ false
fails_right true q e = e
fails_right false q e = refl

-- The labels that the tenant namespace of an entry is to have.
abbrev pub wanted_labels : ProjectOnboarding → NamespaceSpec → Dict String
wanted_labels po ns_spec =
    desired_labels po ns_spec (sanitize_name ns_spec.name) (managed_labels po ns_spec)

get-desired_labels :
    (k v : String) (po : ProjectOnboarding) (ns_spec : NamespaceSpec)
    → IsUnreserved k
    → NodupKeys ns_spec.labels
    → custom_label k ns_spec.additional_settings ≡ some v
    → get k (wanted_labels po ns_spec) ≡ v
get-desired_labels k v po ns_spec free once custom = get-lookup k v (wanted_labels po ns_spec) (
    lookup-desired_labels k (sanitize_name ns_spec.name) po ns_spec (managed_labels po ns_spec) free
      (managed_labels-NodupKeys po ns_spec) once
    ∙ rw custom refl)

overridden-unmanaged :
    (po : ProjectOnboarding) (ns_spec : NamespaceSpec)
    → NodupKeys ns_spec.labels
    → Overrides po ns_spec
    → is_managed_by_project_onboarding (wanted_labels po ns_spec) po ≡ false
unfolding is_managed_by_project_onboarding
overridden-unmanaged po ns_spec once (other_operator v custom differs) =
    fails_left _ (get project_onboarding_label_key (wanted_labels po ns_spec) == po.name) (
      ap (λ s. s == project_onboarding_managed_by_val)
        (get-desired_labels project_onboarding_managed_by_key v po ns_spec
          (refl, refl, refl, refl, refl, refl, refl) once custom)
      ∙ differs)
overridden-unmanaged po ns_spec once (other_onboarding v custom differs) =
    fails_right
      (get project_onboarding_managed_by_key (wanted_labels po ns_spec)
        == project_onboarding_managed_by_val)
      _
      (ap (λ s. s == po.name)
          (get-desired_labels project_onboarding_label_key v po ns_spec
            (refl, refl, refl, refl, refl, refl, refl) once custom)
        ∙ differs)

-- A custom label can take the place of a managed one, and a cleanup then passes the tenant namespace
-- over: if the custom labels of an entry's settings give another value to one of the two keys by
-- which the operator recognises what it manages, and the labels of the entry itself have different
-- keys, the labels that `reconcileNamespaceObject` wants are not recognised as managed, and
-- CleanupNamespace leaves a namespace that has them as it is.
pub cleanup_namespace-overridden :
    (client : Client) (L : Lawful client) (po : ProjectOnboarding) (ns_spec : NamespaceSpec)
    (k : Key) (x : Object) (s : client.State)
    → NodupKeys ns_spec.labels
    → Overrides po ns_spec
    → k.kind ≡ namespace
    → x.labels ≡ wanted_labels po ns_spec
    → L.stored s k ≡ some x
    → (is_managed_by_project_onboarding x.labels po ≡ false)
      × (L.stored (cleanup_namespace client po ns_spec s).1 k ≡ some x)
cleanup_namespace-overridden client L po ns_spec k x s once over kind labelled held =
    let unmanaged : is_managed_by_project_onboarding x.labels po ≡ false =
      ap (λ labels. is_managed_by_project_onboarding labels po) labelled
      ∙ overridden-unmanaged po ns_spec once over in
    (
      unmanaged,
      cleanup_namespace-stored client L po ns_spec k x s
          (foreign unmanaged (inl λ e. absurd (cc (kind, e)))) held,
    )
