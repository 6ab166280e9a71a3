-- ===== src/Controller/Isolation.antt =====
-- `Reconcile` as a whole never touches what belongs to none of the resource's entries.
use project_onboarding_opera.Base.{
  String, ◌≡◌, refl, sym, ◌∙◌, subst, inl, Option, none, some, Outcome, ok,
}
use project_onboarding_opera.Base.Dict.{Dict}
use project_onboarding_opera.Base.Lists.{All-map}
use project_onboarding_opera.Api.{GitOpsSpec, TShirtSizeSpec, ProjectOnboarding}
use project_onboarding_opera.Helpers.Maps.{MapOrder}
use project_onboarding_opera.Requeue.{is_reconciliation_paused}
use project_onboarding_opera.Effects.{Effect, Attempt, got, failed, attempt, ◌>>=◌}
use project_onboarding_opera.Effects.Keeps.{
  Keeps, OnGot, Yields, Keeps-pure, Keeps-raise, Keeps-lift, Keeps-if, Keeps-bind, Keeps-attempt,
  Yields-bind, Yields-attempt, Yields-if, Yields-pure,
}
use project_onboarding_opera.Cluster.{Key, Object, Client, Lawful, is_not_found}
use project_onboarding_opera.Owners.{Machinery}
use project_onboarding_opera.Cleanup.Guards.{Stays}
use project_onboarding_opera.Cleanup.Foreign.{foreign, cleanup_namespace-Kept}
use project_onboarding_opera.Prune.Frame.{prune_removed_namespaces-Keeps}
use project_onboarding_opera.Deletion.{Finalized}
use project_onboarding_opera.Deletion.Frame.{finalize-Keeps}
use project_onboarding_opera.Defaults.Loading.{use_config_map, load_cluster_defaults}
use project_onboarding_opera.Reconcile.Isolation.{reconcile_namespace-Kept}
use project_onboarding_opera.Controller.Subject.{
  Resource, Runtime, project_onboarding_finalizer, ensure_finalizer, remove_finalizer,
}
use project_onboarding_opera.Controller.{
  settle_deletion, reconcile_all, after_prune, after_defaults, after_finalizer, after_get,
  reconcile,
}
use project_onboarding_opera.Controller.Foreign.{
  OtherTenant, Foreign, Quiet, OtherTenant-Outside, entries-Keeps, Foreign-SparedBy,
  Foreign-NotReleased,
}

module _ (client : Client) (L : Lawful client) (runtime : Runtime client.State)
    (quiet : Quiet client L runtime) (k : Key) (x : Object) where
  abbrev Spared : {A : Type 0} → Effect client.State A → Type 0
  Spared m = Keeps (Stays client L k x) m

  pub update-Spared : (po : Resource) → Spared (runtime.update po)
  update-Spared po = record { keeps = λ s h. quiet.update_keeps po s k ∙ h }

  pub update_status-Spared : (po : Resource) → Spared (runtime.update_status po)
  update_status-Spared po = record { keeps = λ s h. quiet.update_status_keeps po s k ∙ h }

  remove_finalizer-Spared : (po : Resource) → Spared (remove_finalizer runtime po)
  unfolding remove_finalizer
  remove_finalizer-Spared po =
      Keeps-if (runtime.contains_finalizer project_onboarding_finalizer po.finalizers) _ _
        (λ _. update-Spared _) (λ _. Keeps-pure po)

  ensure_finalizer-Yields :
      (po : Resource)
      → Yields (Stays client L k x) (λ answer. answer.spec ≡ po.spec) (ensure_finalizer runtime po)
  unfolding ensure_finalizer
  ensure_finalizer-Yields po =
      Yields-if _ (runtime.contains_finalizer project_onboarding_finalizer po.finalizers) _ _
        (λ _. Yields-pure _ po refl)
        λ _. record {
          keeps = λ s h. quiet.update_keeps _ s k ∙ h;
          result = λ s h answer e. quiet.update_spec _ s answer e;
        }

  settle_deletion-Spared :
      (po : Resource) (r : Attempt Finalized) → Spared (settle_deletion runtime po r)
  unfolding settle_deletion
  settle_deletion-Spared po (got finalized) =
      Keeps-if finalized.complete _ _
        (λ _. Keeps-bind _ _ (Keeps-attempt _ (remove_finalizer-Spared po)) λ r. Keeps-pure _)
        (λ _. Keeps-bind _ _ (Keeps-attempt _ (update_status-Spared _)) λ r. Keeps-pure _)
  settle_deletion-Spared po (failed e) = Keeps-pure _

  use_config_map-Spared :
      (r : Attempt (Dict String))
      → Spared (use_config_map runtime.unmarshal runtime.get_config_map r)
  unfolding use_config_map
  use_config_map-Spared (got entries) = Keeps-lift _
  use_config_map-Spared (failed e) =
      Keeps-if (is_not_found e) _ _ (λ _. Keeps-pure none) (λ _. Keeps-raise e)

  defaults-Spared :
      (ns : String) → Spared (load_cluster_defaults runtime.unmarshal runtime.get_config_map ns)
  unfolding load_cluster_defaults
  defaults-Spared ns =
      Keeps-bind _ _
        (Keeps-attempt _ record { keeps = λ s h. quiet.get_config_map_keeps _ _ s k ∙ h })
        use_config_map-Spared

  module _ (machinery : Machinery) (scheme : Option machinery.Scheme)
      (parse_error : String → Option String)
      (read_tshirt : String → client.State → Outcome TShirtSizeSpec) (order : MapOrder) where
    module _ (po : Resource) (f : Foreign po.spec k x) where
      reconcile_all-Spared :
          (effective : ProjectOnboarding)
          → Spared (
              reconcile_all client runtime machinery scheme parse_error read_tshirt order po
                effective)
      unfolding reconcile_all
      reconcile_all-Spared effective =
          Keeps-bind _ _
            (entries-Keeps (Stays client L k x) runtime.bytes_of _ _ po.spec.namespaces _ (
              All-map (OtherTenant k) _ po.spec.namespaces
                (λ ns_spec o. (
                  cleanup_namespace-Kept client L k x po.spec ns_spec
                      (foreign f.unlabelled (inl f.no_project)),
                  reconcile_namespace-Kept client L k x machinery scheme effective ns_spec
                      (OtherTenant-Outside effective ns_spec k x o) parse_error read_tshirt order,
                ))
                f.others))
            λ progress.
              Keeps-bind _ _ (Keeps-attempt _ (update_status-Spared _)) λ written. Keeps-pure _

      after_prune-Spared :
          (defaults : Option GitOpsSpec) (r : Attempt (Unit {0}))
          → Spared (
              after_prune client runtime machinery scheme parse_error read_tshirt order po defaults
                r)
      unfolding after_prune
      after_prune-Spared defaults (got u) = reconcile_all-Spared _
      after_prune-Spared defaults (failed e) = Keeps-pure _

      after_defaults-Spared :
          (r : Attempt (Option GitOpsSpec))
          → Spared
              (after_defaults client runtime machinery scheme parse_error read_tshirt order po r)
      unfolding after_defaults
      after_defaults-Spared (got defaults) =
          Keeps-bind _ _
            (Keeps-attempt _ (
              prune_removed_namespaces-Keeps client L k x po.spec (Foreign-SparedBy po.spec k x f)))
            (after_prune-Spared defaults)
      after_defaults-Spared (failed e) = Keeps-pure _

      after_finalizer-Spared :
          Spared
            (after_finalizer client runtime machinery scheme parse_error read_tshirt order (got po))
      unfolding after_finalizer
      after_finalizer-Spared =
          Keeps-if (is_reconciliation_paused (some po.spec)) _ _ (λ _. Keeps-pure _)
            λ _. Keeps-bind _ _ (Keeps-attempt _ (defaults-Spared _)) after_defaults-Spared

    ensured-Spared :
        (spec : ProjectOnboarding)
        → Foreign spec k x
        → (r : Attempt Resource) → OnGot (λ answer. answer.spec ≡ spec) r
        → Spared (after_finalizer client runtime machinery scheme parse_error read_tshirt order r)
    unfolding after_finalizer
    ensured-Spared spec f (got po) same =
        after_finalizer-Spared po (subst (λ sp. Foreign sp k x) (sym same) f)
    ensured-Spared spec f (failed e) same = Keeps-pure _

    after_get-Spared :
        (po : Resource)
        → Foreign po.spec k x
        → Spared (after_get client runtime machinery scheme parse_error read_tshirt order (got po))
    unfolding after_get
    after_get-Spared po f =
        Keeps-if po.deleting _ _
          (λ _.
            Keeps-bind _ _
              (Keeps-attempt _ (
                finalize-Keeps client L k x po.spec (Foreign-NotReleased po.spec k x f) order
                  (Foreign-SparedBy po.spec k x f)))
              (settle_deletion-Spared po))
          λ _.
            Yields-bind _ _ _ (Yields-attempt _ _ (ensure_finalizer-Yields po))
              (ensured-Spared po.spec f)

pub answered :
    {S A B : Type 0} (P : S → Type 0) (m : Effect S A) (f : Attempt A → Effect S B) (s : S) (a : A)
    → (m s).0 ≡ ok a
    → P (m s).1
    → Keeps P (f (got a))
    → P ((attempt m >>= f) s).1
unfolding attempt ◌>>=◌
answered P m f s a e h k = rw e (k.keeps (m s).1 h)

-- `Reconcile` of a ProjectOnboarding, whether it lives or is being deleted, leaves an object of the
-- cluster as it is if the object is not labelled as managed for it, is not an Argo CD project, and
-- belongs to the tenant of none of its entries, for calls about ProjectOnboardings and ConfigMaps that
-- touch no such object.
pub reconcile-stored :
    (client : Client) (L : Lawful client) (runtime : Runtime client.State)
    (quiet : Quiet client L runtime) (machinery : Machinery) (scheme : Option machinery.Scheme)
    (parse_error : String → Option String)
    (read_tshirt : String → client.State → Outcome TShirtSizeSpec) (order : MapOrder)
    (name : String) (po : Resource) (k : Key) (x : Object) (s : client.State)
    → (runtime.get_resource name s).0 ≡ ok po
    → Foreign po.spec k x
    → L.stored s k ≡ some x
    → L.stored (reconcile client runtime machinery scheme parse_error read_tshirt order name s).1 k
      ≡ some x
unfolding reconcile
reconcile-stored client L runtime quiet machinery scheme parse_error read_tshirt order name po k x s
      read f h =
    answered (Stays client L k x) (runtime.get_resource name) _ s po read
      (quiet.get_keeps name s k ∙ h)
      (after_get-Spared client L runtime quiet k x machinery scheme parse_error read_tshirt order po
        f)
