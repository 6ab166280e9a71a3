-- ===== src/Reconcile/Writes.antt =====
-- One stored object is followed through the creations and patches: none of them touches it if none is
-- of its key.
use project_onboarding_opera.Base.{String, ◌≡◌, ◌≢◌, refl, ◌∙◌, Option, Error}
use project_onboarding_opera.Base.Dict.{Dict}
use project_onboarding_opera.Base.Lists.{is_nil}
use project_onboarding_opera.Api.{
  ArgoCdProjectSpec, LocalAdminGroupSpec, EgressIpSpec, NamespaceSpec, ProjectOnboarding,
}
use project_onboarding_opera.Helpers.Names.{sanitize_name, group_name}
use project_onboarding_opera.Effects.{Effect, Attempt, got, failed, attempt, ◌>>=◌}
use project_onboarding_opera.Effects.Keeps.{
  Keeps, OnGot, Keeps-if, Keeps-raise, Keeps-pure, Keeps-bind, Yields-bind, Yields-attempt,
  Yields-then, Yields-lift,
}
use project_onboarding_opera.Cluster.{
  namespace, egress_ip, group, app_project, Key, cluster_key, namespaced_key, Object, Client,
  Lawful, is_not_found, is_no_match,
}
use project_onboarding_opera.Owners.{Machinery}
use project_onboarding_opera.Cleanup.Guards.{Stays, Agrees, get-Yields}
use project_onboarding_opera.Reconcile.Keys.{
  YieldsKey, key_of, ensure_tenant_namespace_owner_ref-same, ensure_controller-YieldsKey,
  set_field-YieldsKey, fill_egress_ip-YieldsKey, fill_app_project-YieldsKey,
}
use project_onboarding_opera.Reconcile.Tenant.{write_owned, reconcile_owned}
use project_onboarding_opera.Reconcile.Shared.{
  write_group, reconcile_local_admin_group, write_egress_ip, reconcile_egress_ip, write_app_project,
  reconcile_app_project, write_namespace, reconcile_namespace_object,
}

module _ (client : Client) (L : Lawful client) (k : Key) (x : Object) (machinery : Machinery)
    (scheme : Option machinery.Scheme) where
  abbrev pub Kept : {A : Type 0} → Effect client.State A → Type 0
  Kept m = Keeps (Stays client L k x) m

  -- The object that a call answers is created, or patched over the one that was read.
  create-Kept :
      (j : Key) (m : Effect client.State Object)
      → k ≢ j
      → YieldsKey (Stays client L k x) j m
      → Kept (m >>= client.create)
  create-Kept j m ne y =
      Yields-bind _ _ _ y
        λ o at. record { keeps = λ s h. L.create_others o s k (λ e. ne (e ∙ at)) ∙ h }

  patch-Kept :
      (base : Object) (j : Key) (m : Effect client.State Object)
      → k ≢ j
      → YieldsKey (Stays client L k x) j m
      → Kept (m >>= client.patch base)
  patch-Kept base j m ne y =
      Yields-bind _ _ _ y
        λ o at. record { keeps = λ s h. L.patch_others base o s k (λ e. ne (e ∙ at)) ∙ h }

  -- What is done with the answer of a read spares the object if it does so for the object that was
  -- read and for the error.
  read-Kept :
      (j : Key) (use_it : Attempt Object → Effect client.State (Unit {0}))
      → ((o : Object) → o.key ≡ j → Kept (use_it (got o)))
      → ((e : Error) → Kept (use_it (failed e)))
      → Kept (attempt (client.get j) >>= use_it)
  read-Kept j use_it a b =
      Yields-bind _ _ _ (Yields-attempt _ _ (get-Yields client L k x j)) λ r q. branch r q
    where
      branch :
          (r : Attempt Object)
          → OnGot (λ o. (o.key ≡ j) × Agrees client L k x o) r
          → Kept (use_it r)
      branch (got o) q = a o q.0
      branch (failed e) q = b e

  pub reconcile_owned-Kept :
      (tenant_ns : Option Object) (desired : Object)
      → k ≢ desired.key
      → Kept (reconcile_owned client machinery scheme tenant_ns desired)
  unfolding reconcile_owned write_owned
  reconcile_owned-Kept tenant_ns desired ne =
      read-Kept desired.key (write_owned client machinery scheme tenant_ns desired)
        (λ o at. patch-Kept o desired.key _ ne (
          Yields-lift _ _ λ p e.
            ensure_tenant_namespace_owner_ref-same key_of (λ _ _. refl) machinery scheme tenant_ns _
              p e
            ∙ at))
        (λ e.
          Keeps-if (is_not_found e) _ _
            (λ _. create-Kept desired.key _ ne (
              Yields-lift _ _ λ p f.
                ensure_tenant_namespace_owner_ref-same key_of (λ _ _. refl) machinery scheme
                  tenant_ns _ p f))
            (λ _. Keeps-raise e))

  module _ (po : ProjectOnboarding) where
    pub reconcile_local_admin_group-Kept :
        (ns_spec : NamespaceSpec) (spec : LocalAdminGroupSpec) (labels : Dict String)
        → k ≢ cluster_key group (group_name ns_spec)
        → Kept (reconcile_local_admin_group client machinery scheme po ns_spec spec labels)
    unfolding reconcile_local_admin_group write_group
    reconcile_local_admin_group-Kept ns_spec spec labels ne =
        read-Kept _ (write_group client machinery scheme po ns_spec spec labels)
          (λ o at.
            Yields-bind _ _ _ (set_field-YieldsKey client machinery scheme _ _ _ _ at) λ a at₁.
              patch-Kept o _ _ ne
                (ensure_controller-YieldsKey client machinery scheme _ po a _ at₁))
          (λ e.
            Keeps-if (is_no_match e) _ _ (λ _. Keeps-raise _)
              (λ _.
                Keeps-if (is_not_found e) _ _
                  (λ _. create-Kept _ _ ne (
                    Yields-then _ _ _ _ (set_field-YieldsKey client machinery scheme _ _ _ _ refl)
                      λ a at. ensure_controller-YieldsKey client machinery scheme _ po a _ at))
                  (λ _. Keeps-raise e)))

    pub reconcile_egress_ip-Kept :
        (spec : EgressIpSpec) (ns_name : String) (labels : Dict String)
        → k ≢ cluster_key egress_ip ns_name
        → Kept (reconcile_egress_ip client machinery scheme po spec ns_name labels)
    unfolding reconcile_egress_ip write_egress_ip
    reconcile_egress_ip-Kept spec ns_name labels ne =
        Keeps-if (is_nil spec.ips) _ _ (λ _. Keeps-raise _)
          λ _.
            read-Kept _ (write_egress_ip client machinery scheme po spec ns_name labels)
              (λ o at.
                patch-Kept o _ _ ne
                  (fill_egress_ip-YieldsKey client machinery scheme _ po spec ns_name _ _ at))
              (λ e.
                Keeps-if (is_no_match e) _ _ (λ _. Keeps-raise _)
                  (λ _.
                    Keeps-if (is_not_found e) _ _
                      (λ _. create-Kept _ _ ne (
                        fill_egress_ip-YieldsKey client machinery scheme _ po spec ns_name _ _
                          refl))
                      (λ _. Keeps-raise e)))

    pub reconcile_app_project-Kept :
        (project_spec : ArgoCdProjectSpec) (tenant_ns argo_ns : String) (labels : Dict String)
        → k ≢ namespaced_key app_project argo_ns (sanitize_name project_spec.name)
        → Kept
            (reconcile_app_project client machinery scheme po project_spec tenant_ns argo_ns labels)
    unfolding reconcile_app_project write_app_project
    reconcile_app_project-Kept project_spec tenant_ns argo_ns labels ne =
        read-Kept _
          (write_app_project client machinery scheme po project_spec tenant_ns argo_ns labels)
          (λ o at.
            patch-Kept o _ _ ne (
              fill_app_project-YieldsKey client machinery scheme _ po project_spec tenant_ns _ _
                at))
          (λ e.
            Keeps-if (is_not_found e) _ _
              (λ _. create-Kept _ _ ne (
                fill_app_project-YieldsKey client machinery scheme _ po project_spec tenant_ns _ _
                  refl))
              (λ _. Keeps-raise e))

    write_namespace-Kept :
        (ns_spec : NamespaceSpec) (ns_name : String) (labels : Dict String) (r : Attempt Object)
        → k ≢ cluster_key namespace ns_name
        → OnGot (λ o. (o.key ≡ cluster_key namespace ns_name) × Agrees client L k x o) r
        → Kept (write_namespace client machinery scheme po ns_spec ns_name labels r)
    unfolding write_namespace
    write_namespace-Kept ns_spec ns_name labels (got current) ne (at, _) =
        Yields-bind _ _ _ (ensure_controller-YieldsKey client machinery scheme _ po _ _ at) λ o at₁.
          Keeps-bind _ _
            record { keeps = λ s h. L.patch_others current o s k (λ e. ne (e ∙ at₁)) ∙ h }
            (λ _. Keeps-pure o)
    write_namespace-Kept ns_spec ns_name labels (failed e) ne q =
        Keeps-if (is_not_found e) _ _
          (λ _.
            Yields-bind _ _ _ (ensure_controller-YieldsKey client machinery scheme _ po _ _ refl)
              λ o at.
                Keeps-bind _ _
                  record { keeps = λ s h. L.create_others o s k (λ f. ne (f ∙ at)) ∙ h }
                  (λ _. Keeps-pure o))
          (λ _. Keeps-raise e)

    pub reconcile_namespace_object-Kept :
        (ns_spec : NamespaceSpec) (ns_name : String) (labels : Dict String)
        → k ≢ cluster_key namespace ns_name
        → Kept (reconcile_namespace_object client machinery scheme po ns_spec ns_name labels)
    unfolding reconcile_namespace_object
    reconcile_namespace_object-Kept ns_spec ns_name labels ne =
        Yields-bind _ _ _ (Yields-attempt _ _ (get-Yields client L k x _))
          λ r q. write_namespace-Kept ns_spec ns_name labels r ne q
