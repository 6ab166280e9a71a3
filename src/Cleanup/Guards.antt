-- ===== src/Cleanup/Guards.antt =====
-- One stored object is followed through the calls: the operations of cleanup.go leave it alone if no
-- deletion is of its key.
use project_onboarding_opera.Base.{
  String, ◌≡◌, ◌≢◌, sym, ◌∙◌, ap, subst, ◌⊎◌, inl, inr, Bool, false, not, Option, none, some, List,
  [], ◌∷◌, Error,
}
use project_onboarding_opera.Base.Dict.{Dict}
use project_onboarding_opera.Base.Lists.{All}
use project_onboarding_opera.Api.{ProjectOnboarding}
use project_onboarding_opera.Effects.{Effect, Attempt, got, failed}
use project_onboarding_opera.Effects.Keeps.{
  Yields, Keeps, OnGot, Keeps-pure, Keeps-raise, Keeps-if, Keeps-when, Keeps-bind, Keeps-attempt,
  Yields-attempt, Yields-bind, Keeps-for_each,
}
use project_onboarding_opera.Cluster.{
  Kind, network_policy, app_project, Key, Object, is_not_found, is_no_match, Client, Matches,
  InNamespace, Lawful,
}
use project_onboarding_opera.Cleanup.{
  is_managed_by_project_onboarding, managed_list_options, app_project_list_options, settle,
  delete_object, delete_if_managed, delete_managed_network_policies, delete_managed, is_kept,
  delete_unless_kept, delete_app_projects, delete_app_projects_for_namespace,
}

trivial : {A : Type 0} (r : Attempt A) → OnGot (λ _. Unit {0}) r
trivial (got a) = tt
trivial (failed e) = tt

module _ (client : Client) (L : Lawful client) (k : Key) (x : Object) where
  abbrev pub Stays : client.State → Type 0
  Stays s = L.stored s k ≡ some x

  -- An object that was read under the followed key is the followed object.
  abbrev pub Agrees : Object → Type 0
  Agrees o = o.key ≡ k → o ≡ x

  agrees : (s : client.State) (o : Object) → Stays s → L.stored s o.key ≡ some o → Agrees o
  agrees s o h found e = cc (h, found, ap (L.stored s) e)

  pub get-Yields : (j : Key) → Yields Stays (λ o. (o.key ≡ j) × Agrees o) (client.get j)
  get-Yields j = record {
    keeps = λ s h. L.get_keeps j s k ∙ h;
    result = λ s h o e.
        let found = L.get_found j s o e in
        let same = L.stored_key s j o found in (same, agrees s o h (ap (L.stored s) same ∙ found));
  }

  abbrev pub Listed : Kind → Dict String → Object → Type 0
  Listed kind selector o = (o.key.kind ≡ kind) × Matches selector o.labels × Agrees o

  pub list-Yields :
      (kind : Kind) (ns : Option String) (selector : Dict String)
      → Yields Stays (All (Listed kind selector)) (client.list kind ns selector)
  list-Yields kind ns selector = record {
    keeps = λ s h. L.list_keeps kind ns selector s k ∙ h;
    result = λ s h os e. listed s h os (L.list_found kind ns selector s os e);
  }
    where
      listed :
          (s : client.State)
          → Stays s
          → (os : List Object)
          → All
              (λ o.
                (L.stored s o.key ≡ some o)
                × (o.key.kind ≡ kind)
                × InNamespace ns o
                × Matches selector o.labels)
              os
          → All (Listed kind selector) os
      listed s h [] t = tt
      listed s h (o ∷ os) ((found, of_kind, inside, fits), t) =
          ((of_kind, fits, agrees s o h found), listed s h os t)

  delete-Keeps : (o : Object) → k ≢ o.key → Keeps Stays (client.delete o)
  delete-Keeps o ne = record { keeps = λ s h. L.delete_others o s k ne ∙ h }

  Keeps-settle :
      {A : Type 0} (Q : A → Type 0) (absent : Error → Bool)
      (use_it : A → Effect client.State (Unit {0}))
      → ((a : A) → Q a → Keeps Stays (use_it a))
      → (r : Attempt A) → OnGot Q r
      → Keeps Stays (settle client absent use_it r)
  unfolding settle
  Keeps-settle Q absent use_it keep (got a) q = keep a q
  Keeps-settle Q absent use_it keep (failed e) q =
      Keeps-if (absent e) _ _ (λ _. Keeps-pure tt) (λ _. Keeps-raise e)

  pub delete_object-Keeps : (o : Object) → k ≢ o.key → Keeps Stays (delete_object client o)
  unfolding delete_object
  delete_object-Keeps o ne =
      Keeps-bind _ _ (Keeps-attempt _ (delete-Keeps o ne))
        λ r. Keeps-settle (λ _. Unit) is_not_found _ (λ _ _. Keeps-pure tt) r (trivial r)

  -- Reasons why deleting what was read under `j` spares the followed object.
  abbrev pub Spares : ProjectOnboarding → Key → Type 0
  Spares po j = (k ≢ j) ⊎ (is_managed_by_project_onboarding x.labels po ≡ false)

  delete_if_managed-Keeps :
      (po : ProjectOnboarding) (o : Object)
      → Agrees o
      → Spares po o.key
      → Keeps Stays (delete_if_managed client po o)
  unfolding delete_if_managed
  delete_if_managed-Keeps po o same (inl ne) =
      Keeps-if _ _ _ (λ _. delete_object-Keeps o ne) (λ _. Keeps-pure tt)
  delete_if_managed-Keeps po o same (inr foreign) =
      Keeps-if _ _ _
        (λ managed. delete_object-Keeps o λ e. cc (
          managed,
          foreign,
          ap (λ (y : Object). is_managed_by_project_onboarding y.labels po) (same (sym e)),
        ))
        (λ _. Keeps-pure tt)

  pub delete_managed-Keeps :
      (po : ProjectOnboarding) (absent : Error → Bool) (j : Key)
      → Spares po j
      → Keeps Stays (delete_managed client po absent j)
  unfolding delete_managed
  delete_managed-Keeps po absent j spared =
      Yields-bind _ _ _ (Yields-attempt _ _ (get-Yields j)) λ r q.
        Keeps-settle (λ o. (o.key ≡ j) × Agrees o) absent _
          (λ o (same, agree). delete_if_managed-Keeps po o agree (rw same spared)) r q

  -- Reasons why deleting what a list of the kind with the selector answers spares it.
  abbrev pub SparesList : Kind → Dict String → Type 0
  SparesList kind selector = (k.kind ≢ kind) ⊎ (¬ Matches selector x.labels)

  Listed-ne :
      (kind : Kind) (selector : Dict String) (o : Object)
      → SparesList kind selector
      → Listed kind selector o
      → k ≢ o.key
  Listed-ne kind selector o (inl ne) (of_kind, fits, agree) e =
      ne (ap (λ (j : Key). j.kind) e ∙ of_kind)
  Listed-ne kind selector o (inr unfit) (of_kind, fits, agree) e =
      unfit (subst (λ (y : Object). Matches selector y.labels) (agree (sym e)) fits)

  pub delete_managed_network_policies-Keeps :
      (po : ProjectOnboarding) (ns_name : String)
      → SparesList network_policy (managed_list_options po)
      → Keeps Stays (delete_managed_network_policies client po ns_name)
  unfolding delete_managed_network_policies
  delete_managed_network_policies-Keeps po ns_name spared =
      Yields-bind _ _ _ (list-Yields network_policy _ _) λ items q.
        Keeps-for_each (Listed network_policy (managed_list_options po)) items
          (delete_object client) q
          λ o l.
            delete_object-Keeps o (Listed-ne network_policy (managed_list_options po) o spared l)

  delete_app_projects-Keeps :
      (selector : Dict String) (keep : Option (List String))
      → SparesList app_project selector
      → (r : Attempt (List Object)) → OnGot (All (Listed app_project selector)) r
      → Keeps Stays (delete_app_projects client keep r)
  unfolding delete_app_projects delete_unless_kept
  delete_app_projects-Keeps selector keep spared (got items) q =
      Keeps-for_each (Listed app_project selector) items (delete_unless_kept client keep) q λ o l.
        Keeps-when (not (is_kept client keep o.key.name)) (delete_object client o)
          (delete_object-Keeps o (Listed-ne app_project selector o spared l))
  delete_app_projects-Keeps selector keep spared (failed e) q =
      Keeps-if (is_no_match e) _ _ (λ _. Keeps-pure tt) (λ _. Keeps-raise e)

  pub delete_app_projects_for_namespace-Keeps :
      (po : ProjectOnboarding) (ns_name : String) (keep : Option (List String))
      → SparesList app_project (app_project_list_options po ns_name)
      → Keeps Stays (delete_app_projects_for_namespace client po ns_name keep)
  unfolding delete_app_projects_for_namespace
  delete_app_projects_for_namespace-Keeps po ns_name keep spared =
      Yields-bind _ _ _
        (Yields-attempt _ _ (list-Yields app_project none (app_project_list_options po ns_name)))
        λ r q. delete_app_projects-Keeps (app_project_list_options po ns_name) keep spared r q
