-- ===== src/Deletion/Frame.antt =====
-- What the teardown of a ProjectOnboarding never touches: what no entry marked `offboard` covers,
-- where it is a namespace or not labelled as managed.
use project_onboarding_opera.Base.{String, ◌≡◌, Bool, true, false, some, List, [], ◌∷◌}
use project_onboarding_opera.Base.Lists.{All}
use project_onboarding_opera.Api.{NamespaceSpec, namespace_entry, ProjectOnboarding}
use project_onboarding_opera.Helpers.{is_offboard}
use project_onboarding_opera.Helpers.Names.{sanitize_name}
use project_onboarding_opera.Helpers.Maps.{MapOrder}
use project_onboarding_opera.Effects.{Attempt, got, failed, for_each}
use project_onboarding_opera.Effects.Keeps.{
  Keeps, Keeps-pure, Keeps-raise, Keeps-if, Keeps-bind, Keeps-attempt, Yields-bind, Yields-Keeps,
}
use project_onboarding_opera.Cluster.{
  namespace, Key, Object, Client, Lawful, cluster_key, is_not_found,
}
use project_onboarding_opera.Cleanup.Guards.{Stays, get-Yields}
use project_onboarding_opera.Cleanup.Foreign.{
  NotReleased, cleanup_namespace-Kept, cleanup_namespace_cluster_scoped-Kept,
}
use project_onboarding_opera.Prune.Frame.{SparedBy, list_managed_namespaces-Yields}
use project_onboarding_opera.Deletion.{
  answer_exists, namespace_exists, managed_namespace_exists, settle_namespace_entry,
  finalize_namespace_entry, finalize_entries, cleanup_released_tenant, release_unless,
  cleanup_cluster_scoped_for_released_tenants, finalize_project_onboarding_deletion, is_live,
}

module _ (client : Client) (L : Lawful client) (k : Key) (x : Object) where
  pub answer_exists-Keeps :
      (test : Object → Bool) (r : Attempt Object)
      → Keeps (Stays client L k x) (answer_exists client test r)
  unfolding answer_exists
  answer_exists-Keeps test (got ns) = Keeps-pure (test ns)
  answer_exists-Keeps test (failed e) =
      Keeps-if (is_not_found e) _ _ (λ _. Keeps-pure false) (λ _. Keeps-raise e)

  get-Keeps : (j : Key) → Keeps (Stays client L k x) (client.get j)
  get-Keeps j = Yields-Keeps _ _ (get-Yields client L k x j)

  pub managed_namespace_exists-Keeps :
      (po : ProjectOnboarding) (ns_name : String)
      → Keeps (Stays client L k x) (managed_namespace_exists client po ns_name)
  unfolding managed_namespace_exists
  managed_namespace_exists-Keeps po ns_name =
      Keeps-bind _ _ (Keeps-attempt _ (get-Keeps (cluster_key namespace ns_name)))
        (answer_exists-Keeps (is_live client po))

  namespace_exists-Keeps :
      (name : String) → Keeps (Stays client L k x) (namespace_exists client name)
  unfolding namespace_exists
  namespace_exists-Keeps name =
      Keeps-bind _ _ (Keeps-attempt _ (get-Keeps (cluster_key namespace name)))
        (answer_exists-Keeps (λ _. true))

  module _ (po : ProjectOnboarding) (n : NotReleased po k x) where
    settle_namespace_entry-Keeps :
        (ns_spec : NamespaceSpec) (exists : Bool)
        → SparedBy po k x ns_spec
        → Keeps (Stays client L k x) (settle_namespace_entry client po ns_spec exists)
    unfolding settle_namespace_entry
    settle_namespace_entry-Keeps ns_spec exists spared =
        Keeps-if (is_offboard ns_spec.offboard) _ _
          (λ off.
            Keeps-bind _ _ (cleanup_namespace-Kept client L k x po ns_spec (spared off))
              λ _. Keeps-pure "")
          (λ _.
            Keeps-if exists _ _ (λ _. Keeps-pure (sanitize_name ns_spec.name))
              λ _.
                Keeps-bind _ _ (cleanup_namespace_cluster_scoped-Kept client L k x po ns_spec n)
                  λ _. Keeps-pure "")

    pub finalize_namespace_entry-Keeps :
        (ns_spec : NamespaceSpec)
        → SparedBy po k x ns_spec
        → Keeps (Stays client L k x) (finalize_namespace_entry client po ns_spec)
    unfolding finalize_namespace_entry
    finalize_namespace_entry-Keeps ns_spec spared =
        Keeps-bind _ _ (managed_namespace_exists-Keeps po (sanitize_name ns_spec.name))
          λ exists. settle_namespace_entry-Keeps ns_spec exists spared

    pub finalize_entries-Keeps :
        (namespaces : List NamespaceSpec)
        → All (SparedBy po k x) namespaces
        → Keeps (Stays client L k x) (finalize_entries client po namespaces)
    unfolding finalize_entries
    finalize_entries-Keeps [] t = Keeps-pure []
    finalize_entries-Keeps (ns_spec ∷ namespaces) (spared, t) =
        Keeps-bind _ _ (finalize_namespace_entry-Keeps ns_spec spared)
          λ p. Keeps-bind _ _ (finalize_entries-Keeps namespaces t) λ rest. Keeps-pure _

    cleanup_released_tenant-Keeps :
        (name : String) → Keeps (Stays client L k x) (cleanup_released_tenant client po name)
    unfolding cleanup_released_tenant release_unless
    cleanup_released_tenant-Keeps name = Keeps-bind _ _ (namespace_exists-Keeps name) release
      where
        release :
            (exists : Bool) → Keeps (Stays client L k x) (release_unless client po name exists)
        release true = Keeps-pure tt
        release false =
            cleanup_namespace_cluster_scoped-Kept client L k x po (namespace_entry name) n

    release_all :
        (names : List String)
        → Keeps (Stays client L k x) (for_each names (cleanup_released_tenant client po))
    unfolding for_each
    release_all [] = Keeps-pure tt
    release_all (name ∷ names) =
        Keeps-bind _ _ (cleanup_released_tenant-Keeps name) λ _. release_all names

    pub cleanup_cluster_scoped_for_released_tenants-Keeps :
        (order : MapOrder)
        → Keeps (Stays client L k x) (cleanup_cluster_scoped_for_released_tenants client order po)
    unfolding cleanup_cluster_scoped_for_released_tenants
    cleanup_cluster_scoped_for_released_tenants-Keeps order =
        Yields-bind _ _ _ (list_managed_namespaces-Yields client L k x po) λ items q. release_all _

    pub finalize-Keeps :
        (order : MapOrder)
        → All (SparedBy po k x) po.namespaces
        → Keeps (Stays client L k x) (finalize_project_onboarding_deletion client order po)
    unfolding finalize_project_onboarding_deletion
    finalize-Keeps order spared =
        Keeps-bind _ _ (finalize_entries-Keeps po.namespaces spared) λ pending.
          Yields-bind _ _ _ (list_managed_namespaces-Yields client L k x po) λ items q.
            Keeps-bind _ _ (cleanup_cluster_scoped_for_released_tenants-Keeps order)
              λ _. Keeps-pure _

    -- `FinalizeProjectOnboardingDeletion` leaves a stored object as it is if every entry marked
    -- `offboard` spares it (the object is the namespace of another name, or is neither labelled as
    -- managed nor an Argo CD project of the entry's tenant) and it is a namespace, or neither
    -- labelled as managed nor an Argo CD project.
    pub finalize-stored :
        (order : MapOrder) (s : client.State)
        → All (SparedBy po k x) po.namespaces
        → L.stored s k ≡ some x
        → L.stored (finalize_project_onboarding_deletion client order po s).1 k ≡ some x
    finalize-stored order s spared h = (finalize-Keeps order spared).keeps s h
