-- ===== src/Cleanup/Released.antt =====
-- What a cleanup that succeeds has done: the tenant namespace is gone, or is none of the operator's.
use project_onboarding_opera.Base.{
  ◌≡◌, refl, sym, subst, ◌∙◌, ◌⊎◌, inl, inr, Bool, true, false, Option, none, some, Outcome, ok,
  fail, panic, Error, if◌then◌else◌,
}
use project_onboarding_opera.Api.{NamespaceSpec, ProjectOnboarding}
use project_onboarding_opera.Helpers.Names.{sanitize_name}
use project_onboarding_opera.Effects.{
  Effect, Attempt, got, failed, pure, raise, attempt, recover, ◌>>◌,
}
use project_onboarding_opera.Effects.Leaves.{
  Leaves, Leaves-pure, Leaves-raise, Leaves-wrapped, Leaves-bind,
}
use project_onboarding_opera.Cluster.{
  namespace, Key, cluster_key, Object, Client, Lawful, IsGone, is_not_found,
}
use project_onboarding_opera.Cleanup.{
  is_managed_by_project_onboarding, settle, delete_object, delete_if_managed, delete_managed,
  delete_managed_namespace, cleanup_namespace,
}

-- There is nothing under the key, or what is there is being deleted or is not labelled as managed.
abbrev pub IsReleased : ProjectOnboarding → Option Object → Type 0
IsReleased po none = Unit
IsReleased po (some o) =
    (o.deleting ≡ true) ⊎ (is_managed_by_project_onboarding o.labels po ≡ false)

IsGone-IsReleased : (po : ProjectOnboarding) (o : Option Object) → IsGone o → IsReleased po o
IsGone-IsReleased po none g = tt
IsGone-IsReleased po (some o) g = inl g

module _ (client : Client) (L : Lawful client) (k : Key) where
  -- What the state is known to hold once a read has been answered.
  abbrev pub Read : Attempt Object → client.State → Type 0
  Read (got o) s = (o.key ≡ k) × (L.stored s k ≡ some o)
  Read (failed e) s = is_not_found e ≡ true → L.stored s k ≡ none

  pub recover-Read :
      (s : client.State) (m : Outcome Object)
      → (client.get k s).0 ≡ m
      → (r : Attempt Object) → recover m ≡ ok r
      → Read r (client.get k s).1
  recover-Read s (ok o) e (got o') f =
      let found = L.get_found k s o e in
      let same : o ≡ o' = cc f in
      subst (λ (y : Object). (y.key ≡ k) × (L.stored (client.get k s).1 k ≡ some y)) same
        (L.stored_key s k o found, L.get_keeps k s k ∙ found)
  recover-Read s (ok o) e (failed e') f = absurd (cc f)
  recover-Read s (fail e') e (got o) f = absurd (cc f)
  recover-Read s (fail e') e (failed e'') f =
      λ missing. L.get_keeps k s k ∙ L.get_missing k s e'' (cc (e, f)) missing
  recover-Read s (panic t) e r f = absurd (cc f)

module _ (client : Client) (L : Lawful client) (po : ProjectOnboarding) (k : Key) where
  abbrev pub At : (Option Object → Type 0) → client.State → Type 0
  At P s = P (L.stored s k)

  -- What the state is known to hold once a deletion has been answered.
  abbrev Deleted : Attempt (Unit {0}) → client.State → Type 0
  Deleted (got u) s = At IsGone s
  Deleted (failed e) s = is_not_found e ≡ true → At IsGone s

  recover-Deleted :
      (o : Object) (s : client.State) (m : Outcome (Unit {0}))
      → o.key ≡ k
      → (client.delete o s).0 ≡ m
      → (r : Attempt (Unit {0})) → recover m ≡ ok r
      → Deleted r (client.delete o s).1
  recover-Deleted o s (ok u) at e (got v) f =
      subst (λ j. IsGone (L.stored (client.delete o s).1 j)) at (L.delete_done o s e)
  recover-Deleted o s (ok u) at e (failed x) f = absurd (cc f)
  recover-Deleted o s (fail x) at e (got v) f = absurd (cc f)
  recover-Deleted o s (fail x) at e (failed y) f = λ missing.
      subst (λ j. IsGone (L.stored (client.delete o s).1 j)) at
        (L.delete_missing o s y (cc (e, f)) missing)
  recover-Deleted o s (panic t) at e r f = absurd (cc f)

  Leaves-settle :
      {A : Type 0} (P : Attempt A → client.State → Type 0) (R : client.State → Type 0)
      (absent : Error → Bool) (use_it : A → Effect client.State (Unit {0}))
      → ((a : A) → Leaves (P (got a)) R (use_it a))
      → ((e : Error) (s : client.State) → absent e ≡ true → P (failed e) s → R s)
      → (r : Attempt A) → Leaves (P r) R (settle client absent use_it r)
  unfolding settle
  Leaves-settle P R absent use_it l imp (got a) = l a
  Leaves-settle P R absent use_it l imp (failed e) = branch (absent e) refl
    where
      branch : (b : Bool) → absent e ≡ b → Leaves (P (failed e)) R (if b then pure tt else raise e)
      branch true h = Leaves-pure tt λ s p. imp e s h p
      branch false h = Leaves-raise e

  delete_object-Leaves :
      (o : Object) → o.key ≡ k → Leaves (λ s. Unit {0}) (At IsGone) (delete_object client o)
  unfolding delete_object attempt
  delete_object-Leaves o at =
      Leaves-bind Deleted _ _ (λ s h r e. recover-Deleted o s (client.delete o s).0 at refl r e)
        (Leaves-settle Deleted (At IsGone) is_not_found _ (λ u. Leaves-pure tt λ s p. p)
          (λ e s missing p. p missing))

  delete_if_managed-Leaves :
      (o : Object)
      → Leaves (Read client L k (got o)) (At (IsReleased po)) (delete_if_managed client po o)
  unfolding delete_if_managed
  delete_if_managed-Leaves o = branch (is_managed_by_project_onboarding o.labels po) refl
    where
      branch :
          (b : Bool)
          → is_managed_by_project_onboarding o.labels po ≡ b
          → Leaves
              (Read client L k (got o))
              (At (IsReleased po))
              (if b then delete_object client o else pure tt)
      branch true managed = record {
        leaves =
            λ s (at, h) u e. IsGone-IsReleased po _ ((delete_object-Leaves o at).leaves s tt u e);
      }
      branch false foreign = Leaves-pure tt λ s (at, h). subst (IsReleased po) (sym h) (inr foreign)

  pub delete_managed-Leaves :
      Leaves (λ s. Unit {0}) (At (IsReleased po)) (delete_managed client po is_not_found k)
  unfolding delete_managed attempt
  delete_managed-Leaves =
      Leaves-bind (Read client L k) _ _
        (λ s h r e. recover-Read client L k s (client.get k s).0 refl r e)
        (Leaves-settle (Read client L k) (At (IsReleased po)) is_not_found _
          delete_if_managed-Leaves (λ e s missing p. subst (IsReleased po) (sym (p missing)) tt))

module _ {S : Type 0} {R : S → Type 0} where
  -- Only the last call of a chain matters for the state it leaves.
  after :
      (m n : Effect S (Unit {0})) → Leaves (λ s. Unit {0}) R n → Leaves (λ s. Unit {0}) R (m >> n)
  after m n l = Leaves-bind (λ a s. Unit {0}) m _ (λ s h a e. tt) λ a. l

-- A cleanup that succeeds has released the namespace of its entry: nothing is stored under its name
-- afterwards, or a namespace that is being deleted, or one that is not labelled as managed.
pub cleanup_namespace-IsReleased :
    (client : Client) (L : Lawful client) (po : ProjectOnboarding) (ns_spec : NamespaceSpec)
    (s : client.State)
    → (cleanup_namespace client po ns_spec s).0 ≡ ok tt
    → IsReleased po (
        L.stored
          (cleanup_namespace client po ns_spec s).1
          (cluster_key namespace (sanitize_name ns_spec.name)))
unfolding cleanup_namespace delete_managed_namespace
cleanup_namespace-IsReleased client L po ns_spec s e = all.leaves s tt tt e
  where
    all :
        Leaves
          (λ s. Unit {0})
          (At client L po (cluster_key namespace (sanitize_name ns_spec.name)) (IsReleased po))
          (cleanup_namespace client po ns_spec)
    all = after _ _ (
        after _ _ (
          after _ _ (
            after _ _ (
              after _ _ (
                after _ _ (
                  after _ _ (
                    Leaves-wrapped "namespace" _ (
                      delete_managed-Leaves client L po
                        (cluster_key namespace (sanitize_name ns_spec.name))))))))))
