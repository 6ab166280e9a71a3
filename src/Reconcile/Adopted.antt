-- ===== src/Reconcile/Adopted.antt =====
-- A group that was there before the operator: it is brought up to date, and never cleaned up.
use project_onboarding_opera.Base.{String, ◌≡◌, refl, ◌∙◌, ap, subst, inr, false, Option, some, ok}
use project_onboarding_opera.Base.Dict.{Dict}
use project_onboarding_opera.Api.{LocalAdminGroupSpec, NamespaceSpec, ProjectOnboarding}
use project_onboarding_opera.Helpers.Names.{group_name}
use project_onboarding_opera.Effects.{Attempt, got, failed, lift, attempt, ◌>>=◌}
use project_onboarding_opera.Effects.Leaves.{Leaves, Leaves-bind, Leaves-if, Leaves-raise}
use project_onboarding_opera.Cluster.{
  group, Key, cluster_key, Object, Client, Lawful, is_not_found, is_no_match,
}
use project_onboarding_opera.Owners.{Machinery}
use project_onboarding_opera.Cleanup.{
  is_managed_by_project_onboarding, delete_managed_group, missing_or_no_match,
}
use project_onboarding_opera.Cleanup.Guards.{delete_managed-Keeps}
use project_onboarding_opera.Cleanup.Released.{Read, recover-Read}
use project_onboarding_opera.Reconcile.Shared.{
  ensure_controller, write_group, reconcile_local_admin_group,
}
use project_onboarding_opera.Reconcile.Keys.{
  set_field-kept, key_of, ensure_project_onboarding_controller_ref-same,
}

-- The documented behaviour of GetLabels of an unstructured object: it answers a copy, so what is
-- written into the map that it answered does not reach the object.
abbrev pub CopiesLabels : Machinery → Type 0
CopiesLabels machinery = (old new : Dict String) → machinery.write_labels old new ≡ old

-- A server that stores a patched object as it was sent.
abbrev pub PatchesExactly : (client : Client) → Lawful client → Type 0
PatchesExactly client L =
    (base o : Object) (s : client.State)
    → L.stored s o.key ≡ some base
    → (client.patch base o s).0 ≡ ok tt
    → L.stored (client.patch base o s).1 o.key ≡ some o

abbrev labels_of : Object → Dict String
labels_of o = o.labels

-- Something is stored that has the labels.
abbrev pub HasLabels : Dict String → Option Object → Type 0
HasLabels labels r = (y : Object) × (r ≡ some y) × (y.labels ≡ labels)

module _ (client : Client) (L : Lawful client) (machinery : Machinery)
    (scheme : Option machinery.Scheme) (copies : CopiesLabels machinery)
    (exactly : PatchesExactly client L) (po : ProjectOnboarding) (ns_spec : NamespaceSpec)
    (x : Object) where
  abbrev group_key : Key
  group_key = cluster_key group (group_name ns_spec)

  abbrev Same : Object → Type 0
  Same o = (o.key ≡ group_key) × (o.labels ≡ x.labels)

  abbrev Found : Object → client.State → Type 0
  Found base s = L.stored s group_key ≡ some base

  abbrev After : client.State → Type 0
  After s = HasLabels x.labels (L.stored s group_key)

  patch-After : (base o : Object) → Leaves (λ s. Same o × Found base s) After (client.patch base o)
  patch-After base o = record {
    leaves = λ s (same, found) u e. (
      o,
      subst (λ j. L.stored (client.patch base o s).1 j ≡ some o) same.0
          (exactly base o s (ap (L.stored s) same.0 ∙ found) e),
      same.1,
    );
  }

  ensured-After :
      (base o : Object)
      → Leaves
          (λ s. Same o × Found base s)
          After
          (ensure_controller client machinery scheme po o >>= client.patch base)
  unfolding ensure_controller lift
  ensured-After base o =
      Leaves-bind (λ p s. Same p × Found base s) _ _
        (λ s (same, found) p e. (
          (
            ensure_project_onboarding_controller_ref-same key_of (λ _ _. refl) machinery scheme
                  (some po) o p e
                ∙ same.0,
            ensure_project_onboarding_controller_ref-same labels_of (λ _ _. refl) machinery scheme
                  (some po) o p e
                ∙ same.1,
          ),
          found,
        ))
        λ p. patch-After base p

  write_group-After :
      (spec : LocalAdminGroupSpec) (labels : Dict String) (r : Attempt Object)
      → Leaves
          (λ s. Found x s × Read client L group_key r s)
          After
          (write_group client machinery scheme po ns_spec spec labels r)
  unfolding write_group lift
  write_group-After spec labels (got o) =
      Leaves-bind (λ p s. Same p × Found o s) _ _
        (λ s (h, (at, found)) p e.
          let same : o ≡ x = cc (h, found) in
          let kept = set_field-kept machinery _ _ p e in
          ((kept.0 ∙ at, kept.1 ∙ (copies o.labels labels ∙ ap labels_of same)), found))
        λ p. ensured-After o p
  write_group-After spec labels (failed e) =
      Leaves-if (is_no_match e) _ _ (λ _. Leaves-raise _)
        λ _.
          Leaves-if (is_not_found e) _ _
            (λ absent. record { leaves = λ s (h, missing) u f. absurd (cc (h, missing absent)) })
            (λ _. Leaves-raise e)

  reconcile-After :
      (spec : LocalAdminGroupSpec) (labels : Dict String)
      → Leaves
          (Found x)
          After
          (reconcile_local_admin_group client machinery scheme po ns_spec spec labels)
  unfolding reconcile_local_admin_group attempt
  reconcile-After spec labels =
      Leaves-bind (λ r s. Found x s × Read client L group_key r s) _ _
        (λ s h r e. (
          L.get_keeps group_key s group_key ∙ h,
          recover-Read client L group_key s (client.get group_key s).0 refl r e,
        ))
        (write_group-After spec labels)

-- A group that was there before the operator, without the labels of the objects that it manages, is
-- never cleaned up: once `reconcileLocalAdminGroup` has succeeded on it, `deleteManagedGroup` leaves
-- it stored, with the labels that it had. This holds for a GetLabels that answers a copy, and a server
-- that stores a patched object as it was sent.
pub delete_managed_group-adopted :
    (client : Client) (L : Lawful client) (machinery : Machinery) (scheme : Option machinery.Scheme)
    (po : ProjectOnboarding) (ns_spec : NamespaceSpec) (spec : LocalAdminGroupSpec)
    (labels : Dict String) (x : Object) (s : client.State)
    → CopiesLabels machinery
    → PatchesExactly client L
    → L.stored s (cluster_key group (group_name ns_spec)) ≡ some x
    → is_managed_by_project_onboarding x.labels po ≡ false
    → (reconcile_local_admin_group client machinery scheme po ns_spec spec labels s).0 ≡ ok tt
    → HasLabels x.labels (
        L.stored
          (delete_managed_group client po ns_spec
            (reconcile_local_admin_group client machinery scheme po ns_spec spec labels s).1).1
          (cluster_key group (group_name ns_spec)))
unfolding delete_managed_group
delete_managed_group-adopted client L machinery scheme po ns_spec spec labels x s copies exactly h
      unmanaged success =
    let (y, found, same) =
      (reconcile-After client L machinery scheme copies exactly po ns_spec x spec labels).leaves s h
        tt success in
    let foreign : is_managed_by_project_onboarding y.labels po ≡ false = rw same unmanaged in
    (
      y,
      (delete_managed-Keeps client L (cluster_key group (group_name ns_spec)) y po
            missing_or_no_match (cluster_key group (group_name ns_spec)) (inr foreign)).keeps
          _ found,
      same,
    )
