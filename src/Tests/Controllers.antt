-- ===== src/Tests/Controllers.antt =====
-- Whole calls of `Reconcile` against the server with room for one object of each kind.
use project_onboarding_opera.Base.{
  ◌≡◌, ◌≢◌, refl, true, false, none, some, [], ◌∷◌, Outcome, ok, Error, api, Reason, ap, ◌==◌,
}
use project_onboarding_opera.Base.Dict.{lookup, get, insert}
use project_onboarding_opera.Base.Lists.{member}
use project_onboarding_opera.Base.Sorting.{sort_strings}
use project_onboarding_opera.Base.Text.{replace_all, join}
use project_onboarding_opera.Helpers.{is_enabled, is_offboard, is_opt_in_enabled}
use project_onboarding_opera.Helpers.Names.{sanitize_name}
use project_onboarding_opera.Helpers.Status.{truncate_status_message, truncate_at}
use project_onboarding_opera.Effects.{Effect, pure, raise, attempt, wrapped, ◌>>=◌, for_each}
use project_onboarding_opera.Cluster.{namespace, cluster_key, Object, Matches, is_not_found}
use project_onboarding_opera.Cleanup.{managed_list_options, is_managed_by_project_onboarding}
use project_onboarding_opera.Prune.{list_managed_namespaces}
use project_onboarding_opera.Deletion.{
  finalize_project_onboarding_deletion, finalize_entries, finalize_namespace_entry,
  managed_namespace_exists, settle_namespace_entry, answer_exists, namespace_exists,
  cleanup_cluster_scoped_for_released_tenants, cleanup_released_tenant, release_unless,
  add_managed_tenants, add_spec_tenants, namespace_names_in_spec, unlisted_names, verdict,
}
use project_onboarding_opera.Controller.Subject.{Resource, Runtime, ProjectOnboardingStatus}
use project_onboarding_opera.Controller.Entries.{
  Progress, no_progress, note, report_of, reconcile_entry, reconcile_entries,
}
use project_onboarding_opera.Controller.Progressing.{
  Coherent, status_names, entry_names, reconcile_entries-Coherent,
}
use project_onboarding_opera.Controller.Foreign.{Quiet, Foreign}
use project_onboarding_opera.Controller.Isolation.{reconcile-stored}
use project_onboarding_opera.Controller.Blocked.{Waits, reconcile-Waits}
use project_onboarding_opera.Controller.{
  Reply, reply, conclude_blocked, settle_deletion, after_get, reconcile,
}
use project_onboarding_opera.Tests.Samples.{as_added, team_a, team_b, teams, tenant, managed}
use project_onboarding_opera.Tests.Reconciles.{
  plain, no_objects, any_text, read_small, team_c_differs,
}
use project_onboarding_opera.Tests.Server.{Slots, set_slot, server, server_laws}

-- Calls that always answer the same resource and change nothing.
abbrev pub answering : Resource → Runtime Slots
answering po = record {
  get_resource = λ name s. (ok po, s);
  update = λ sent s. (ok sent, s);
  update_status = λ sent s. (ok tt, s);
  get_config_map = λ ns name s. (ok [], s);
  unmarshal = λ text. ok none;
  contains_finalizer = λ name names. member name names;
  add_finalizer = λ name names. name ∷ names;
  remove_finalizer = λ name names. [];
  now = 0;
  bytes_of = λ text. [];
  configured_namespace = "";
  pod_namespace = "";
}

answering-Quiet : (po : Resource) → Quiet server server_laws (answering po)
answering-Quiet po = record {
  get_keeps = λ name s j. refl;
  update_keeps = λ sent s j. refl;
  update_spec = λ sent s answer e. same sent answer e;
  update_status_keeps = λ sent s j. refl;
  get_config_map_keeps = λ ns name s j. refl;
}
  where
    same : (sent answer : Resource) → Outcome.ok sent ≡ ok answer → answer.spec ≡ sent.spec
    same sent answer e = cc e

abbrev new_status : ProjectOnboardingStatus
new_status = record { observed_generation = 0; phase = ""; conditions = []; namespaces = [] }

abbrev pub live : Resource
live = record {
  spec = teams;
  generation = 1;
  finalizers = "onboarding.stderr.at/finalizer" ∷ [];
  deleting = false;
  status = new_status;
}

-- A namespace of nobody.
abbrev stray : Object
stray = record (tenant "team-c") { labels = [] }

stray_differs : "team-c" ≢ sanitize_name "team_b"
unfolding sanitize_name
stray_differs e = cc (ap (λ s. s == "team-c") e)

stray-unmanaged : is_managed_by_project_onboarding [] teams ≡ false
unfolding is_managed_by_project_onboarding get lookup
stray-unmanaged = refl

stray-Foreign : Foreign teams (cluster_key namespace "team-c") stray
stray-Foreign = record {
  unlabelled = stray-unmanaged;
  no_project = λ e. cc e;
  others = (team_c_differs, (stray_differs, tt));
}

abbrev with_stray : Slots
with_stray = set_slot namespace (some stray) no_objects

reconcile-stored_example :
    server_laws.stored
      (reconcile server
        (answering live)
        plain
        none
        any_text
        read_small
        as_added
        "teams"
        with_stray).1
      (cluster_key namespace "team-c")
    ≡ some stray
reconcile-stored_example =
    reconcile-stored server server_laws (answering live) (answering-Quiet live) plain none any_text
      read_small as_added "teams" live (cluster_key namespace "team-c") stray with_stray refl
      stray-Foreign refl

abbrev down : Error
down = api Reason.other "down"

-- Of two entries the first fails, and the second is torn down.
abbrev one_failed : Progress
one_failed = record {
  namespaces =
      record { name = "team_a"; ready = false; message = [] }
      ∷ record { name = "team_b"; ready = true; message = [] }
      ∷ [];
  all_ready = false;
  first_error = some down;
}

abbrev run_entries : Effect Slots Progress
run_entries =
    reconcile_entries (λ text. []) (λ ns_spec. pure tt) (λ ns_spec. raise down)
      (team_a ∷ team_b ∷ []) no_progress

run_entries-one_failed : (run_entries no_objects).0 ≡ ok one_failed
unfolding reconcile_entries reconcile_entry note report_of truncate_status_message truncate_at
    is_offboard is_opt_in_enabled is_enabled pure raise attempt ◌>>=◌
run_entries-one_failed = refl

reconcile_entries-Coherent_example :
    (status_names one_failed.namespaces ≡ entry_names (team_a ∷ team_b ∷ [])) × Coherent one_failed
reconcile_entries-Coherent_example =
    reconcile_entries-Coherent (λ text. []) (λ ns_spec. pure tt) (λ ns_spec. raise down)
      (team_a ∷ team_b ∷ []) no_objects one_failed run_entries-one_failed

-- A ProjectOnboarding that is being deleted while its one tenant is still there.
abbrev dying : Resource
dying = record live { spec = record teams { namespaces = team_a ∷ [] }; deleting = true }

abbrev with_tenant : Slots
with_tenant = set_slot namespace (some (tenant "team-a")) no_objects

abbrev blocked : Reply
blocked = reply (record { requeue = false; requeue_after = 30; error = none })

dying-blocked :
    (reconcile server
      (answering dying)
      plain
      none
      any_text
      read_small
      as_added
      "teams"
      with_tenant).0
    ≡ ok blocked
unfolding reconcile after_get settle_deletion conclude_blocked finalize_project_onboarding_deletion
    finalize_entries finalize_namespace_entry managed_namespace_exists settle_namespace_entry
    answer_exists namespace_exists cleanup_cluster_scoped_for_released_tenants
    cleanup_released_tenant release_unless add_managed_tenants add_spec_tenants
    namespace_names_in_spec unlisted_names verdict list_managed_namespaces
    is_managed_by_project_onboarding sanitize_name replace_all join sort_strings member get lookup
    insert is_offboard is_opt_in_enabled pure attempt wrapped ◌>>=◌ for_each is_not_found
dying-blocked = refl

dying-Matches : Matches (managed_list_options dying.spec) managed
unfolding lookup
dying-Matches = (refl, (refl, tt))

stays : is_offboard team_a.offboard ≢ true
unfolding is_offboard is_opt_in_enabled
stays e = cc e

reconcile-Waits_example :
    Waits blocked
    × (server_laws.stored
          (reconcile server
            (answering dying)
            plain
            none
            any_text
            read_small
            as_added
            "teams"
            with_tenant).1
          (cluster_key namespace "team-a")
        ≡ some (tenant "team-a"))
reconcile-Waits_example =
    reconcile-Waits server server_laws (answering dying) (answering-Quiet dying) plain none any_text
      read_small as_added "teams" "team-a" dying (tenant "team-a") with_tenant blocked refl refl
      refl refl dying-Matches refl (λ off. absurd (stays off), tt) dying-blocked
