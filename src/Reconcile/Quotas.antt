-- ===== src/Reconcile/Quotas.antt =====
-- A namespace entry that is reconciled without an error has the quota that it resolves to.
use project_onboarding_opera.Base.{
  String, ◌≡◌, refl, ap, ◌∙◌, inl, Bool, true, false, Option, some, Outcome, ok,
}
use project_onboarding_opera.Base.Dict.{Dict}
use project_onboarding_opera.Base.Lists.{All-everywhere}
use project_onboarding_opera.Api.{
  ResourceQuotaSpec, TShirtSizeSpec, NamespaceSpec, ProjectOnboarding,
}
use project_onboarding_opera.Helpers.{is_enabled}
use project_onboarding_opera.Helpers.Maps.{MapOrder}
use project_onboarding_opera.Helpers.Names.{sanitize_name, managed_labels}
use project_onboarding_opera.Sizing.Catalogue.{resolve_namespace_spec}
use project_onboarding_opera.Quota.{ResourceList, build_resource_quota_hard}
use project_onboarding_opera.Content.{quota_spec}
use project_onboarding_opera.Effects.{lift, attempt, wrapped, when}
use project_onboarding_opera.Effects.Leaves.{Leaves, Leaves-wrapped, Leaves-bind}
use project_onboarding_opera.Cluster.{Object, Client, Lawful}
use project_onboarding_opera.Owners.{Machinery}
use project_onboarding_opera.Cleanup.Released.{Read, recover-Read}
use project_onboarding_opera.Reconcile.Tenant.{
  new_object, reconcile_owned, reconcile_resource_quota,
}
use project_onboarding_opera.Reconcile.Prune.{wants_quota}
use project_onboarding_opera.Reconcile.Pruned.{quota_key, Clear}
use project_onboarding_opera.Reconcile.Beyond.{reconcile_beyond_quota-Kept}
use project_onboarding_opera.Reconcile.{
  resolve, quota_step, reconcile_contents, reconcile_namespace,
}
use project_onboarding_opera.Reconcile.Stored.{HasHard, Stored, write_owned-Stored}

module _ (client : Client) (L : Lawful client) (machinery : Machinery)
    (scheme : Option machinery.Scheme) (hard : ResourceList) where
  reconcile_owned-Stored :
      (tenant_ns : Option Object) (desired : Object)
      → desired.content ≡ quota_spec hard
      → Leaves
          (λ s. Unit {0})
          (Stored client L machinery scheme desired.key hard)
          (reconcile_owned client machinery scheme tenant_ns desired)
  unfolding reconcile_owned attempt
  reconcile_owned-Stored tenant_ns desired holds =
      Leaves-bind (Read client L desired.key) _ _
        (λ s h r e. recover-Read client L desired.key s (client.get desired.key s).0 refl r e)
        (write_owned-Stored client L machinery scheme desired.key hard tenant_ns desired
          (refl, holds))

  module _ (ns_spec : NamespaceSpec) where
    abbrev QuotaStored : client.State → Type 0
    QuotaStored = Stored client L machinery scheme (quota_key (sanitize_name ns_spec.name)) hard

    module _ (tenant_ns : Object) (labels : Dict String) (parse_error : String → Option String)
        (po : ProjectOnboarding) (quota : ResourceQuotaSpec)
        (built : build_resource_quota_hard parse_error quota ≡ ok hard) where
      quota-Stored :
          Leaves
            (λ s. Unit {0})
            QuotaStored
            (reconcile_resource_quota client machinery scheme
              (some tenant_ns)
              (sanitize_name ns_spec.name)
              labels
              parse_error
              quota)
      unfolding reconcile_resource_quota lift
      quota-Stored =
          Leaves-bind (λ h s. h ≡ hard) _ _ (λ s t h e. cc (e, built))
            λ h. record {
              leaves = λ s same u e.
                  (reconcile_owned-Stored (some tenant_ns)
                      (new_object (quota_key (sanitize_name ns_spec.name)) labels (quota_spec h))
                      (ap quota_spec same)).leaves
                    s tt u e;
            }

      step-Stored :
          is_enabled quota.enabled ≡ true
          → Leaves
              (λ s. Unit {0})
              QuotaStored
              (quota_step client machinery scheme tenant_ns
                (sanitize_name ns_spec.name)
                labels
                parse_error
                (some quota))
      unfolding quota_step
      step-Stored on = branch (is_enabled quota.enabled) on
        where
          branch :
              (b : Bool)
              → b ≡ true
              → Leaves
                  (λ s. Unit {0})
                  QuotaStored
                  (when b (
                    wrapped "resource quota" (
                      reconcile_resource_quota client machinery scheme
                        (some tenant_ns)
                        (sanitize_name ns_spec.name)
                        labels
                        parse_error
                        quota)))
          branch true h = Leaves-wrapped "resource quota" _ quota-Stored
          branch false h = absurd (cc h)

      quota-Clear : (x : Object) → Clear po ns_spec (quota_key (sanitize_name ns_spec.name)) x
      quota-Clear x = record {
        limits = λ e. cc e;
        policy = λ name e. cc e;
        binding = λ name e. cc e;
        egress = λ e. cc e;
        admins = λ e. cc e;
        projects = (inl (λ e. cc e), All-everywhere _ ns_spec.argo_cd_projects λ p e. cc e);
      }

      contents-Stored :
          (resolved : NamespaceSpec)
          → resolved.resource_quotas ≡ some quota
          → is_enabled quota.enabled ≡ true
          → Leaves
              (λ s. Unit {0})
              QuotaStored
              (reconcile_contents client machinery scheme tenant_ns
                (sanitize_name ns_spec.name)
                labels
                parse_error
                po
                ns_spec
                resolved)
      unfolding reconcile_contents wants_quota
      contents-Stored resolved asked on =
          Leaves-bind (λ _. QuotaStored) _ _ (rw asked (step-Stored on).leaves)
            λ u. record {
              leaves = λ s (x, found, same) v e. (
                x,
                (reconcile_beyond_quota-Kept client L (quota_key (sanitize_name ns_spec.name)) x
                      machinery scheme po ns_spec (quota-Clear x) tenant_ns labels parse_error
                      resolved (λ off. absurd (cc (asked, on, off)))).keeps
                    s found,
                same,
              );
            }

-- Once `ReconcileNamespace` has succeeded for an entry that resolves to one with a quota that is not
-- switched off, the quota `<namespace>-quota` is stored with the hard limits that are built from it.
pub reconcile_namespace-HasHard :
    (client : Client) (L : Lawful client) (machinery : Machinery) (scheme : Option machinery.Scheme)
    (parse_error : String → Option String)
    (read_tshirt : String → client.State → Outcome TShirtSizeSpec) (order : MapOrder)
    (po : ProjectOnboarding) (ns_spec resolved : NamespaceSpec) (quota : ResourceQuotaSpec)
    (hard : ResourceList) (s : client.State)
    → resolve_namespace_spec (λ name. read_tshirt name s) order ns_spec ≡ ok resolved
    → resolved.resource_quotas ≡ some quota
    → is_enabled quota.enabled ≡ true
    → build_resource_quota_hard parse_error quota ≡ ok hard
    → (reconcile_namespace client machinery scheme parse_error read_tshirt order po ns_spec s).0
      ≡ ok tt
    → HasHard hard (
        L.stored
          (reconcile_namespace client machinery scheme parse_error read_tshirt order po ns_spec s).1
          (quota_key (sanitize_name ns_spec.name)))
unfolding reconcile_namespace resolve
reconcile_namespace-HasHard client L machinery scheme parse_error read_tshirt order po ns_spec
      resolved quota hard s resolves asked on built success =
    all.leaves s resolves tt success
  where
    all :
        Leaves
          (λ t. resolve_namespace_spec (λ name. read_tshirt name t) order ns_spec ≡ ok resolved)
          (QuotaStored client L machinery scheme hard ns_spec)
          (reconcile_namespace client machinery scheme parse_error read_tshirt order po ns_spec)
    all =
        Leaves-bind (λ r t. r ≡ resolved) _ _ (λ t h r e. cc (h, e))
          λ r. record {
            leaves = λ t same u e.
                (Leaves-bind {P = λ _. Unit {0}} (λ _ _. Unit {0}) _ _ (λ t' h ns e'. tt)
                    λ tenant_ns.
                      contents-Stored client L machinery scheme hard ns_spec tenant_ns
                        (managed_labels po ns_spec) parse_error po quota built r
                        (ap (λ (n : NamespaceSpec). n.resource_quotas) same ∙ asked) on).leaves
                  t tt u e;
          }
