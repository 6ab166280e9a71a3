-- ===== src/Reconcile/Keys.antt =====
-- What is set on an object before it is created or patched leaves its key alone.
use project_onboarding_opera.Base.{
  String, ◌≡◌, refl, ap, sym, ◌∙◌, Bool, true, false, Option, none, some, List, Outcome, ok, fail,
  panic, ◌>>=◌, if◌then◌else◌,
}
use project_onboarding_opera.Api.{ArgoCdProjectSpec, EgressIpSpec, ProjectOnboarding}
use project_onboarding_opera.Content.{Content}
use project_onboarding_opera.Effects.{Effect, lift}
use project_onboarding_opera.Effects.Keeps.{Yields, Yields-lift, Yields-then}
use project_onboarding_opera.Cluster.{Key, Object, OwnerReference, Client}
use project_onboarding_opera.Owners.{
  Owner, Field, Machinery, owned, set_field, unless_controlled,
  ensure_project_onboarding_controller_ref, ensure_tenant_namespace_owner_ref,
}
use project_onboarding_opera.Reconcile.Shared.{ensure_controller, fill_egress_ip, fill_app_project}

-- A part of an object that its owners have no share in.
abbrev pub IgnoresOwners : {B : Type 0} → (Object → B) → Type 0
IgnoresOwners f =
    (o : Object) (owners : List OwnerReference) → f (record o { owners = owners }) ≡ f o

module _ {B : Type 0} (f : Object → B) (ignores : IgnoresOwners f) where
  pub owned-same :
      (o : Object) (refs : Outcome (List OwnerReference)) (p : Object)
      → owned o refs ≡ ok p
      → f p ≡ f o
  owned-same o (ok owners) p e =
      let same : record o { owners = owners } ≡ p = cc e in ap f (sym same) ∙ ignores o owners
  owned-same o (fail x) p e = absurd (cc e)
  owned-same o (panic t) p e = absurd (cc e)

  module _ (machinery : Machinery) where
    unless_controlled-same :
        (owner : Owner) (o : Object) (refs : Outcome (List OwnerReference)) (p : Object)
        → unless_controlled machinery owner o refs ≡ ok p
        → f p ≡ f o
    unfolding unless_controlled
    unless_controlled-same owner o refs p = branch (machinery.is_controlled_by o owner)
      where
        branch : (b : Bool) → (if b then ok o else owned o refs) ≡ ok p → f p ≡ f o
        branch true e = let same : o ≡ p = cc e in ap f (sym same)
        branch false e = owned-same o refs p e

    pub ensure_project_onboarding_controller_ref-same :
        (scheme : Option machinery.Scheme) (po : Option ProjectOnboarding) (o p : Object)
        → ensure_project_onboarding_controller_ref machinery scheme po o ≡ ok p
        → f p ≡ f o
    unfolding ensure_project_onboarding_controller_ref
    ensure_project_onboarding_controller_ref-same none po o p e =
        let same : o ≡ p = cc e in ap f (sym same)
    ensure_project_onboarding_controller_ref-same (some scheme) none o p e =
        let same : o ≡ p = cc e in ap f (sym same)
    ensure_project_onboarding_controller_ref-same (some scheme) (some po) o p e =
        unless_controlled-same _ o _ p e

    pub ensure_tenant_namespace_owner_ref-same :
        (scheme : Option machinery.Scheme) (tenant_ns : Option Object) (o p : Object)
        → ensure_tenant_namespace_owner_ref machinery scheme tenant_ns o ≡ ok p
        → f p ≡ f o
    unfolding ensure_tenant_namespace_owner_ref
    ensure_tenant_namespace_owner_ref-same none tenant_ns o p e =
        let same : o ≡ p = cc e in ap f (sym same)
    ensure_tenant_namespace_owner_ref-same (some scheme) none o p e =
        let same : o ≡ p = cc e in ap f (sym same)
    ensure_tenant_namespace_owner_ref-same (some scheme) (some tenant_ns) o p e =
        unless_controlled-same _ o _ p e

abbrev pub key_of : Object → Key
key_of o = o.key

module _ (machinery : Machinery) where
  pub set_field-kept :
      (field : Field) (o p : Object)
      → set_field machinery field o ≡ ok p
      → (p.key ≡ o.key) × (p.labels ≡ o.labels)
  unfolding set_field
  set_field-kept field o p = branch (machinery.set_nested field o.content)
    where
      branch :
          (r : Outcome Content)
          → (r >>= λ content. ok (record o { content = content })) ≡ ok p
          → (p.key ≡ o.key) × (p.labels ≡ o.labels)
      branch (ok c) e = let same : record o { content = c } ≡ p = cc e in (cc same, cc same)
      branch (fail x) e = absurd (cc e)
      branch (panic t) e = absurd (cc e)

-- The call leaves `P` true and answers an object of the key.
abbrev pub YieldsKey : {S : Type 0} → (S → Type 0) → Key → Effect S Object → Type 0
YieldsKey P j m = Yields P (λ o. o.key ≡ j) m

module _ (client : Client) (machinery : Machinery) (scheme : Option machinery.Scheme)
    (P : client.State → Type 0) where
  pub set_field-YieldsKey :
      (field : Field) (o : Object) (j : Key)
      → o.key ≡ j
      → YieldsKey P j (lift (set_field machinery field o))
  set_field-YieldsKey field o j at =
      Yields-lift _ _ λ p e. (set_field-kept machinery field o p e).0 ∙ at

  module _ (po : ProjectOnboarding) where
    pub ensure_controller-YieldsKey :
        (o : Object) (j : Key)
        → o.key ≡ j
        → YieldsKey P j (ensure_controller client machinery scheme po o)
    unfolding ensure_controller
    ensure_controller-YieldsKey o j at = Yields-lift _ _ λ p e.
        ensure_project_onboarding_controller_ref-same key_of (λ _ _. refl) machinery scheme
          (some po) o p e
        ∙ at

    pub fill_egress_ip-YieldsKey :
        (spec : EgressIpSpec) (ns_name : String) (o : Object) (j : Key)
        → o.key ≡ j
        → YieldsKey P j (fill_egress_ip client machinery scheme po spec ns_name o)
    unfolding fill_egress_ip
    fill_egress_ip-YieldsKey spec ns_name o j at =
        Yields-then _ _ _ _ (set_field-YieldsKey _ o j at) λ a at₁.
          Yields-then _ _ _ _ (set_field-YieldsKey _ a j at₁)
            λ b at₂. ensure_controller-YieldsKey b j at₂

    pub fill_app_project-YieldsKey :
        (project_spec : ArgoCdProjectSpec) (tenant_ns : String) (o : Object) (j : Key)
        → o.key ≡ j
        → YieldsKey P j (fill_app_project client machinery scheme po project_spec tenant_ns o)
    unfolding fill_app_project
    fill_app_project-YieldsKey project_spec tenant_ns o j at =
        Yields-then _ _ _ _ (set_field-YieldsKey _ o j at)
          λ a at₁. Yields-lift _ _ λ p e. owned-same key_of (λ _ _. refl) a _ p e ∙ at₁
