-- ===== src/Prune/Frame.antt =====
-- What pruning never touches: whatever no entry marked `offboard` covers.
use project_onboarding_opera.Base.{
  String, ◌≡◌, Bool, true, false, none, some, List, [], ◌∷◌, ◌==◌, ◌<>◌, if◌then◌else◌,
}
use project_onboarding_opera.Base.Lists.{All, member}
use project_onboarding_opera.Effects.{pure, wrapped}
use project_onboarding_opera.Base.Text.{quote}
use project_onboarding_opera.Cleanup.{cleanup_namespace, managed_list_options}
use project_onboarding_opera.Api.{NamespaceSpec, ProjectOnboarding}
use project_onboarding_opera.Helpers.{is_offboard}
use project_onboarding_opera.Helpers.Names.{sanitize_name}
use project_onboarding_opera.Effects.Keeps.{
  Keeps, Keeps-pure, Keeps-if, Keeps-wrapped, Keeps-for_each, Yields, Yields-bind, Yields-wrapped,
}
use project_onboarding_opera.Cluster.{namespace, Key, Object, Client, Lawful}
use project_onboarding_opera.Cleanup.Guards.{Stays, Listed, list-Yields}
use project_onboarding_opera.Cleanup.Foreign.{Untouched, cleanup_namespace-Kept}
use project_onboarding_opera.Prune.{
  cleanup_offboarded, desired_tenant_namespace_names, namespace_spec_for_managed_name,
  prune_removed_namespace, prune_removed_namespaces, list_managed_namespaces,
}

-- No entry that is marked `offboard` covers the object.
abbrev pub SparedBy : ProjectOnboarding → Key → Object → NamespaceSpec → Type 0
SparedBy po k x ns_spec =
    is_offboard ns_spec.offboard ≡ true → Untouched po (sanitize_name ns_spec.name) k x

if-All : {A : Type 0} (P : A → Type 0) (b : Bool) (a c : A) → P a → P c → P (if b then a else c)
if-All P true a c p q = p
if-All P false a c p q = q

namespace_spec-SparedBy :
    (po : ProjectOnboarding) (k : Key) (x : Object) (namespaces : List NamespaceSpec)
    (name : String)
    → All (SparedBy po k x) namespaces
    → SparedBy po k x (namespace_spec_for_managed_name namespaces name)
unfolding namespace_spec_for_managed_name is_offboard
namespace_spec-SparedBy po k x [] name t = λ off. absurd (cc off)
namespace_spec-SparedBy po k x (ns_spec ∷ namespaces) name (spared, t) =
    if-All (SparedBy po k x) (sanitize_name ns_spec.name == name) _ _ spared
      (namespace_spec-SparedBy po k x namespaces name t)

module _ (client : Client) (L : Lawful client) (k : Key) (x : Object) where
  pub list_managed_namespaces-Yields :
      (po : ProjectOnboarding)
      → Yields
          (Stays client L k x)
          (All (Listed client L k x namespace (managed_list_options po)))
          (list_managed_namespaces client po)
  unfolding list_managed_namespaces
  list_managed_namespaces-Yields po =
      Yields-wrapped _ _ _ (list-Yields client L k x namespace none (managed_list_options po))

  cleanup_offboarded-Keeps :
      (po : ProjectOnboarding) (name : String) (ns_spec : NamespaceSpec)
      → SparedBy po k x ns_spec
      → Keeps (Stays client L k x) (cleanup_offboarded client po name ns_spec)
  unfolding cleanup_offboarded
  cleanup_offboarded-Keeps po name ns_spec spared =
      Keeps-if (is_offboard ns_spec.offboard)
        (wrapped ("cleanup offboarded namespace " <> quote name)
          (cleanup_namespace client po ns_spec))
        (pure tt)
        (λ off.
          Keeps-wrapped ("cleanup offboarded namespace " <> quote name)
            (cleanup_namespace client po ns_spec)
            (cleanup_namespace-Kept client L k x po ns_spec (spared off)))
        (λ _. Keeps-pure tt)

  prune_removed_namespace-Keeps :
      (po : ProjectOnboarding) (ns : Object)
      → All (SparedBy po k x) po.namespaces
      → Keeps (Stays client L k x) (prune_removed_namespace client po ns)
  unfolding prune_removed_namespace
  prune_removed_namespace-Keeps po ns spared =
      Keeps-if (member ns.key.name (desired_tenant_namespace_names po.namespaces)) (pure tt)
        (cleanup_offboarded client po ns.key.name
          (namespace_spec_for_managed_name po.namespaces ns.key.name))
        (λ _. Keeps-pure tt)
        (λ _.
          cleanup_offboarded-Keeps po ns.key.name
            (namespace_spec_for_managed_name po.namespaces ns.key.name)
            (namespace_spec-SparedBy po k x po.namespaces ns.key.name spared))

  pub prune_removed_namespaces-Keeps :
      (po : ProjectOnboarding)
      → All (SparedBy po k x) po.namespaces
      → Keeps (Stays client L k x) (prune_removed_namespaces client po)
  unfolding prune_removed_namespaces
  prune_removed_namespaces-Keeps po spared =
      Yields-bind _ _ _ (list_managed_namespaces-Yields po) λ items q.
        Keeps-for_each _ items (prune_removed_namespace client po) q
          λ ns l. prune_removed_namespace-Keeps po ns spared

  -- `PruneRemovedNamespaces` leaves a stored object as it is if every entry marked `offboard` spares
  -- it: the object is the namespace of another name, or is neither labelled as managed nor an Argo CD
  -- project that carries the labels of the projects of the entry's tenant.
  pub prune_removed_namespaces-stored :
      (po : ProjectOnboarding) (s : client.State)
      → All (SparedBy po k x) po.namespaces
      → L.stored s k ≡ some x
      → L.stored (prune_removed_namespaces client po s).1 k ≡ some x
  prune_removed_namespaces-stored po s spared h =
      (prune_removed_namespaces-Keeps po spared).keeps s h
