-- ===== src/Reconcile/Policies.antt =====
-- The network policies that an entry asks for are those that pruning keeps.
use project_onboarding_opera.Base.{
  String, ◌≡◌, ◌≢◌, refl, sym, ◌∙◌, ap, inl, inr, Bool, true, false, not, ◌||◌, some, List, [], ◌∷◌,
  ◌++◌, Error, eq_refl, ◌==◌, if◌then◌else◌,
}
use project_onboarding_opera.Base.Lists.{member, Among}
use project_onboarding_opera.Api.{CustomNetworkPolicySpec, NamespaceSpec, ProjectOnboarding}
use project_onboarding_opera.Helpers.{is_enabled}
use project_onboarding_opera.Helpers.Names.{sanitize_name}
use project_onboarding_opera.NetworkPolicies.{
  NetworkPolicy, default_network_policies, active_network_policies, build_custom_network_policy,
}
use project_onboarding_opera.Effects.{Effect, when}
use project_onboarding_opera.Effects.Keeps.{
  Keeps, Keeps-pure, Keeps-when, Keeps-bind, Keeps-wrapped, Keeps-for_each, Yields-bind,
}
use project_onboarding_opera.Cluster.{network_policy, namespaced_key, Key, Object, Client, Lawful}
use project_onboarding_opera.Cleanup.{
  delete_object, delete_managed_resource_quota, delete_managed_limit_range,
  delete_managed_role_binding, delete_managed_group, delete_managed_egress_ip, delete_managed,
}
use project_onboarding_opera.Cleanup.Guards.{
  Stays, list-Yields, delete_object-Keeps, delete_managed-Keeps,
  delete_app_projects_for_namespace-Keeps,
}
use project_onboarding_opera.Reconcile.Prune.{
  custom_policy_names, names_onto, desired_network_policy_names, prune_network_policy,
  prune_managed_network_policies, prune_app_projects_for_namespace, prune_namespace_resources,
}

-- The policies that `ReconcileNamespace` creates for the entry: the default ones, then the active
-- custom ones.
abbrev pub wanted_policies : NamespaceSpec → List NetworkPolicy
wanted_policies ns_spec =
    default_network_policies ns_spec.default_policies
    ++ active_network_policies ns_spec.network_policies

names_onto-active :
    (specs : List CustomNetworkPolicySpec)
    → names_onto (active_network_policies specs) [] ≡ custom_policy_names specs
unfolding names_onto active_network_policies custom_policy_names build_custom_network_policy
names_onto-active [] = refl
names_onto-active (spec ∷ specs) = branch (is_enabled spec.active) (names_onto-active specs)
  where
    branch :
        (b : Bool)
        → names_onto (active_network_policies specs) [] ≡ custom_policy_names specs
        → names_onto
            (if b
              then build_custom_network_policy spec ∷ active_network_policies specs
              else active_network_policies specs)
            []
          ≡ (if b
              then sanitize_name spec.name ∷ custom_policy_names specs
              else custom_policy_names specs)
    branch true e = ap (List.◌∷◌ (sanitize_name spec.name)) e
    branch false e = e

names_onto-append :
    (xs ys : List NetworkPolicy) → names_onto (xs ++ ys) [] ≡ names_onto xs (names_onto ys [])
unfolding names_onto
names_onto-append [] ys = refl
names_onto-append (x ∷ xs) ys = ap (List.◌∷◌ x.name) (names_onto-append xs ys)

-- The names that pruning keeps are those of the policies that are created, in their order.
desired_network_policy_names-wanted :
    (ns_spec : NamespaceSpec)
    → desired_network_policy_names ns_spec ≡ names_onto (wanted_policies ns_spec) []
unfolding desired_network_policy_names
desired_network_policy_names-wanted ns_spec =
    ap (names_onto (default_network_policies ns_spec.default_policies))
      (sym (names_onto-active ns_spec.network_policies))
    ∙ sym (
        names_onto-append (default_network_policies ns_spec.default_policies)
          (active_network_policies ns_spec.network_policies))

member-names :
    (policy : NetworkPolicy) (policies : List NetworkPolicy)
    → Among policy policies
    → member policy.name (names_onto policies []) ≡ true
unfolding names_onto member
member-names policy [] h = absurd h
member-names policy (x ∷ policies) (inl same) =
    rw (ap (λ (p : NetworkPolicy). p.name) same, eq_refl policy.name) refl
member-names policy (x ∷ policies) (inr among) =
    later (x.name == policy.name) (member-names policy policies among)
  where
    later :
        (b : Bool)
        → member policy.name (names_onto policies []) ≡ true
        → (b || member policy.name (names_onto policies [])) ≡ true
    later true e = refl
    later false e = e

module _ (client : Client) (L : Lawful client) (x : Object) (ns_name name : String) where
  abbrev policy_key : Key
  policy_key = namespaced_key network_policy ns_name name

  abbrev Kept : Effect client.State (Unit {0}) → Type 0
  Kept m = Keeps (Stays client L policy_key x) m

  prune_network_policy-Kept :
      (keep : List String) (o : Object)
      → member name keep ≡ true
      → Kept (prune_network_policy client keep o)
  unfolding prune_network_policy
  prune_network_policy-Kept keep o wanted = branch (member o.key.name keep) refl
    where
      branch :
          (b : Bool) → member o.key.name keep ≡ b → Kept (when (not b) (delete_object client o))
      branch true e = Keeps-pure tt
      branch false e =
          delete_object-Keeps client L policy_key x o
            λ at. cc (ap (λ (j : Key). member j.name keep) at, e, wanted)

  managed-Kept :
      (po : ProjectOnboarding) (absent : Error → Bool) (j : Key)
      → policy_key ≢ j
      → Kept (delete_managed client po absent j)
  managed-Kept po absent j ne = delete_managed-Keeps client L policy_key x po absent j (inl ne)

module _ (client : Client) (L : Lawful client) (x : Object) (po : ProjectOnboarding)
    (ns_spec : NamespaceSpec) (name : String)
    (wanted : member name (desired_network_policy_names ns_spec) ≡ true) where
  prune-Kept :
      (resolved : NamespaceSpec)
      → Kept client L x
          (sanitize_name ns_spec.name)
          name
          (prune_namespace_resources client po ns_spec resolved)
  unfolding prune_namespace_resources delete_managed_resource_quota delete_managed_limit_range
      delete_managed_role_binding delete_managed_group delete_managed_egress_ip
      prune_managed_network_policies prune_app_projects_for_namespace
  prune-Kept resolved = Keeps-bind _ _ (Keeps-when _ _ (managed _ _ (λ e. cc e))) λ _.
      Keeps-bind _ _ (Keeps-when _ _ (managed _ _ (λ e. cc e))) λ _.
        Keeps-bind _ _
          (Keeps-wrapped _ _ (
            Yields-bind _ _ _
              (list-Yields client L _ x network_policy (some (sanitize_name ns_spec.name)) _)
              λ items q.
                Keeps-for_each _ items
                  (prune_network_policy client (desired_network_policy_names ns_spec)) q
                  λ o _.
                    prune_network_policy-Kept client L x (sanitize_name ns_spec.name) name _ o
                      wanted))
          λ _.
            Keeps-bind _ _
              (Keeps-when _ _
                (Keeps-bind _ _ (managed _ _ (λ e. cc e)) λ _. managed _ _ (λ e. cc e)))
              λ _. Keeps-bind _ _ (Keeps-when _ _ (managed _ _ (λ e. cc e))) λ _.
                Keeps-wrapped _ _
                  (delete_app_projects_for_namespace-Keeps client L _ x po _ _ (inl (λ e. cc e)))
    where
      managed :
          (absent : Error → Bool) (j : Key)
          → namespaced_key network_policy (sanitize_name ns_spec.name) name ≢ j
          → Kept client L x (sanitize_name ns_spec.name) name (delete_managed client po absent j)
      managed absent j ne = managed-Kept client L x _ _ po absent j ne

-- `PruneNamespaceResources` keeps every network policy that `ReconcileNamespace` creates for the
-- entry: one that is stored in the tenant namespace under the name of such a policy stays as it is.
pub prune_namespace_resources-wanted :
    (client : Client) (L : Lawful client) (po : ProjectOnboarding)
    (ns_spec resolved : NamespaceSpec) (policy : NetworkPolicy) (x : Object) (s : client.State)
    → Among policy (wanted_policies ns_spec)
    → L.stored s (namespaced_key network_policy (sanitize_name ns_spec.name) policy.name) ≡ some x
    → L.stored
        (prune_namespace_resources client po ns_spec resolved s).1
        (namespaced_key network_policy (sanitize_name ns_spec.name) policy.name)
      ≡ some x
prune_namespace_resources-wanted client L po ns_spec resolved policy x s among h =
    (prune-Kept client L x po ns_spec policy.name
        (ap (member policy.name) (desired_network_policy_names-wanted ns_spec)
          ∙ member-names policy (wanted_policies ns_spec) among)
        resolved).keeps
      s h
