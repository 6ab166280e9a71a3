-- ===== src/Cleanup/Foreign.antt =====
-- What a cleanup never touches: objects of others, and the tenant namespaces of other entries.
use project_onboarding_opera.Base.{
  String, ◌≡◌, ◌≢◌, refl, ◌⊎◌, inl, inr, Bool, true, false, none, some, ◌==◌, eq_refl, ◌&&◌, Error,
}
use project_onboarding_opera.Base.Dict.{Dict, lookup, get}
use project_onboarding_opera.Api.{NamespaceSpec, ProjectOnboarding}
use project_onboarding_opera.Helpers.Names.{sanitize_name}
use project_onboarding_opera.Effects.{Effect, wrapped, ◌>>◌}
use project_onboarding_opera.Effects.Keeps.{Keeps, Keeps-bind, Keeps-wrapped, Keeps-when}
use project_onboarding_opera.Cluster.{
  namespace, network_policy, app_project, Key, Object, Client, Matches, Lawful,
}
use project_onboarding_opera.Cleanup.{
  is_managed_by_project_onboarding, managed_list_options, app_project_list_options,
  delete_managed_role_binding, delete_managed_limit_range, delete_managed_resource_quota,
  delete_managed_egress_ip, delete_managed_group, delete_managed_namespace, delete_managed,
  delete_managed_network_policies, delete_managed_app_projects, cleanup_namespace,
  cleanup_namespace_cluster_scoped,
}
use project_onboarding_opera.Cleanup.Guards.{
  Stays, Spares, SparesList, delete_managed-Keeps, delete_managed_network_policies-Keeps,
  delete_app_projects_for_namespace-Keeps,
}

get-lookup : (k v : String) (m : Dict String) → lookup k m ≡ some v → (get k m == v) ≡ true
unfolding get
get-lookup k v m e = rw (e, get) (eq_refl v)

both : (p q : Bool) → p ≡ true → q ≡ true → (p && q) ≡ true
both p q e f = cc

-- What a managed list answers carries the labels that `isManagedByProjectOnboarding` asks for.
pub Matches-managed :
    (po : ProjectOnboarding) (labels : Dict String)
    → Matches (managed_list_options po) labels
    → is_managed_by_project_onboarding labels po ≡ true
unfolding is_managed_by_project_onboarding
Matches-managed po labels (by_operator, (by_po, _)) =
    both _ _ (get-lookup _ _ labels by_operator) (get-lookup _ po.name labels by_po)

-- The object is neither labelled as managed for `po` nor an Argo CD project that carries the labels
-- by which projects of the tenant are listed.
pub data Untouched (po : ProjectOnboarding) (ns_name : String) (k : Key) (x : Object) : Type 0 where
  foreign :
      is_managed_by_project_onboarding x.labels po ≡ false
      → ((k.kind ≢ app_project) ⊎ (¬ Matches (app_project_list_options po ns_name) x.labels))
      → Untouched po ns_name k x
  other_namespace : k.kind ≡ namespace → k.name ≢ ns_name → Untouched po ns_name k x

-- The object is a namespace, or neither labelled as managed for `po` nor an Argo CD project.
pub data NotReleased (po : ProjectOnboarding) (k : Key) (x : Object) : Type 0 where
  unmanaged :
      is_managed_by_project_onboarding x.labels po ≡ false
      → k.kind ≢ app_project
      → NotReleased po k x
  is_namespace : k.kind ≡ namespace → NotReleased po k x

module _ (client : Client) (L : Lawful client) (k : Key) (x : Object) (po : ProjectOnboarding) where
  abbrev Kept : Effect client.State (Unit {0}) → Type 0
  Kept m = Keeps (Stays client L k x) m

  Spares-key :
      (ns_name : String) (j : Key)
      → Untouched po ns_name k x
      → (j.kind ≢ namespace) ⊎ (j.name ≡ ns_name)
      → Spares client L k x po j
  Spares-key ns_name j (foreign f a) w = inr f
  Spares-key ns_name j (other_namespace kind other) (inl ne) = inl (λ e. ne (cc (kind, e)))
  Spares-key ns_name j (other_namespace kind other) (inr same) = inl (λ e. other (cc (same, e)))

  then_wrapped :
      (prefix : String) {m n : Effect client.State (Unit {0})}
      → Kept m
      → Kept n
      → Kept (wrapped prefix m >> n)
  then_wrapped prefix a b = Keeps-bind _ _ (Keeps-wrapped prefix _ a) λ _. b

  SparesList-policies :
      (ns_name : String)
      → Untouched po ns_name k x
      → SparesList client L k x network_policy (managed_list_options po)
  SparesList-policies ns_name (foreign f a) = inr (λ m. cc (f, Matches-managed po x.labels m))
  SparesList-policies ns_name (other_namespace kind other) = inl (λ e. cc (kind, e))

  SparesList-projects :
      (ns_name : String)
      → Untouched po ns_name k x
      → SparesList client L k x app_project (app_project_list_options po ns_name)
  SparesList-projects ns_name (foreign f a) = a
  SparesList-projects ns_name (other_namespace kind other) = inl (λ e. cc (kind, e))

  module _ (ns_spec : NamespaceSpec) (u : Untouched po (sanitize_name ns_spec.name) k x) where
    managed-Kept :
        (absent : Error → Bool) (j : Key)
        → (j.kind ≢ namespace) ⊎ (j.name ≡ sanitize_name ns_spec.name)
        → Kept (delete_managed client po absent j)
    managed-Kept absent j w =
        delete_managed-Keeps client L k x po absent j
          (Spares-key (sanitize_name ns_spec.name) j u w)

    app_projects-Kept : Kept (delete_managed_app_projects client po ns_spec)
    unfolding delete_managed_app_projects
    app_projects-Kept =
        delete_app_projects_for_namespace-Keeps client L k x po (sanitize_name ns_spec.name) none
          (SparesList-projects (sanitize_name ns_spec.name) u)

    policies-Kept : Kept (delete_managed_network_policies client po (sanitize_name ns_spec.name))
    policies-Kept =
        delete_managed_network_policies-Keeps client L k x po (sanitize_name ns_spec.name)
          (SparesList-policies (sanitize_name ns_spec.name) u)

    pub cleanup_namespace-Kept : Kept (cleanup_namespace client po ns_spec)
    unfolding cleanup_namespace delete_managed_role_binding delete_managed_limit_range
        delete_managed_resource_quota delete_managed_egress_ip delete_managed_group
        delete_managed_namespace
    cleanup_namespace-Kept = then_wrapped _ policies-Kept (
        then_wrapped _ (managed-Kept _ _ (inl (λ e. cc e))) (
          then_wrapped _ (managed-Kept _ _ (inl (λ e. cc e))) (
            then_wrapped _ (managed-Kept _ _ (inl (λ e. cc e))) (
              Keeps-bind _ _
                (Keeps-when _ _ (Keeps-wrapped _ _ (managed-Kept _ _ (inl (λ e. cc e)))))
                λ _.
                  Keeps-bind _ _
                    (Keeps-when _ _ (Keeps-wrapped _ _ (managed-Kept _ _ (inl (λ e. cc e)))))
                    λ _.
                      (then_wrapped _ app_projects-Kept
                        (Keeps-wrapped _ _ (managed-Kept _ _ (inr refl))))))))

  Spares-cluster_key :
      (j : Key) → NotReleased po k x → j.kind ≢ namespace → Spares client L k x po j
  Spares-cluster_key j (unmanaged f a) ne = inr f
  Spares-cluster_key j (is_namespace kind) ne = inl (λ e. ne (cc (kind, e)))

  SparesList-all_projects :
      (ns_name : String)
      → NotReleased po k x
      → SparesList client L k x app_project (app_project_list_options po ns_name)
  SparesList-all_projects ns_name (unmanaged f a) = inl a
  SparesList-all_projects ns_name (is_namespace kind) = inl (λ e. cc (kind, e))

  pub cleanup_namespace_cluster_scoped-Kept :
      (ns_spec : NamespaceSpec)
      → NotReleased po k x
      → Kept (cleanup_namespace_cluster_scoped client po ns_spec)
  unfolding cleanup_namespace_cluster_scoped delete_managed_egress_ip delete_managed_group
      delete_managed_app_projects
  cleanup_namespace_cluster_scoped-Kept ns_spec n =
      then_wrapped "egress IP"
        (delete_managed-Keeps client L k x po _ _ (Spares-cluster_key _ n (λ e. cc e)))
        (then_wrapped "local admin group"
          (delete_managed-Keeps client L k x po _ _ (Spares-cluster_key _ n (λ e. cc e)))
          (Keeps-wrapped "argo cd app project" _ (
            delete_app_projects_for_namespace-Keeps client L k x po (sanitize_name ns_spec.name)
              none (SparesList-all_projects (sanitize_name ns_spec.name) n))))

-- A cleanup leaves a stored object as it is if the object is the namespace of another name, or is
-- neither labelled as managed for the ProjectOnboarding nor an Argo CD project that carries the
-- labels of the tenant's projects.
pub cleanup_namespace-stored :
    (client : Client) (L : Lawful client) (po : ProjectOnboarding) (ns_spec : NamespaceSpec)
    (k : Key) (x : Object) (s : client.State)
    → Untouched po (sanitize_name ns_spec.name) k x
    → L.stored s k ≡ some x
    → L.stored (cleanup_namespace client po ns_spec s).1 k ≡ some x
cleanup_namespace-stored client L po ns_spec k x s u h =
    (cleanup_namespace-Kept client L k x po ns_spec u).keeps s h
