-- ===== src/Tests/Cleanups.antt =====
-- Cleanup, pruning and deletion against the client that holds one object.
use project_onboarding_opera.Base.{
  ◌≡◌, ◌≢◌, refl, ap, true, false, Option, none, some, [], ◌∷◌, ok, ◌<>◌, ◌==◌,
}
use project_onboarding_opera.Base.Dict.{lookup, get, insert}
use project_onboarding_opera.Base.Lists.{member}
use project_onboarding_opera.Base.Text.{replace_all, join}
use project_onboarding_opera.Base.Sorting.{sort_strings}
use project_onboarding_opera.Api.{ProjectOnboarding}
use project_onboarding_opera.Helpers.{is_offboard, is_opt_in_enabled}
use project_onboarding_opera.Helpers.Names.{sanitize_name, group_name, role_binding_name}
use project_onboarding_opera.Effects.{pure, raise, attempt, wrapped, ◌>>=◌, for_each}
use project_onboarding_opera.Cluster.{
  namespace, cluster_key, is_not_found, is_no_match, Object, Matches,
}
use project_onboarding_opera.Cleanup.{
  managed_list_options, is_managed_by_project_onboarding, wants_group, wants_egress, settle,
  delete_object, delete_if_managed, delete_managed_network_policies, delete_managed,
  delete_managed_role_binding, delete_managed_limit_range, delete_managed_resource_quota,
  delete_managed_egress_ip, delete_managed_group, delete_managed_namespace,
  delete_app_projects_for_namespace, delete_managed_app_projects, cleanup_namespace,
}
use project_onboarding_opera.Cleanup.Foreign.{
  other_namespace, is_namespace, cleanup_namespace-stored,
}
use project_onboarding_opera.Cleanup.Released.{IsReleased, cleanup_namespace-IsReleased}
use project_onboarding_opera.Prune.{list_managed_namespaces, prune_removed_namespaces}
use project_onboarding_opera.Prune.Frame.{prune_removed_namespaces-stored}
use project_onboarding_opera.Deletion.{
  Finalized, finalize_project_onboarding_deletion, deletion_blocked_message_prefix,
  finalize_entries, finalize_namespace_entry, managed_namespace_exists, settle_namespace_entry,
  answer_exists, namespace_exists, cleanup_cluster_scoped_for_released_tenants,
  cleanup_released_tenant, release_unless, add_managed_tenants, add_spec_tenants,
  namespace_names_in_spec, unlisted_names, verdict,
}
use project_onboarding_opera.Deletion.Frame.{finalize-stored}
use project_onboarding_opera.Deletion.Waiting.{finalize-incomplete}
use project_onboarding_opera.Tests.OneObject.{one_object, one_object_laws}
use project_onboarding_opera.Tests.Samples.{as_added, teams, team_a, team_b, tenant, managed}

team_a-name : sanitize_name "team_a" ≡ "team-a"
unfolding sanitize_name
team_a-name = refl

team_b-name : sanitize_name "team_b" ≡ "team-b"
unfolding sanitize_name
team_b-name = refl

abbrev present : Option Object
present = some (tenant "team-a")

names_differ : "team-a" ≢ sanitize_name "team_b"
unfolding sanitize_name
names_differ e = cc (ap (λ s. s == "team-a") e)

cleanup_namespace-stored_example :
    one_object_laws.stored
      (cleanup_namespace one_object teams team_b present).1
      (cluster_key namespace "team-a")
    ≡ some (tenant "team-a")
cleanup_namespace-stored_example =
    cleanup_namespace-stored one_object one_object_laws teams team_b
      (cluster_key namespace "team-a") (tenant "team-a") present (other_namespace refl names_differ)
      refl

matches : Matches (managed_list_options teams) managed
unfolding lookup
matches = (refl, (refl, tt))

cleanup_succeeds : (cleanup_namespace one_object teams team_b (some (tenant "team-b"))).0 ≡ ok tt
unfolding cleanup_namespace delete_managed_network_policies delete_managed_role_binding
    delete_managed_limit_range delete_managed_resource_quota delete_managed_egress_ip
    delete_managed_group delete_managed_namespace delete_app_projects_for_namespace
    delete_managed_app_projects delete_managed delete_if_managed delete_object settle
    is_managed_by_project_onboarding wants_group wants_egress is_not_found is_no_match sanitize_name
    group_name role_binding_name pure raise attempt wrapped ◌>>=◌ for_each get lookup
    is_opt_in_enabled
cleanup_succeeds = refl

cleanup_namespace-IsReleased_example : IsReleased teams (
    one_object_laws.stored
      (cleanup_namespace one_object teams team_b (some (tenant "team-b"))).1
      (cluster_key namespace (sanitize_name "team_b")))
cleanup_namespace-IsReleased_example =
    cleanup_namespace-IsReleased one_object one_object_laws teams team_b (some (tenant "team-b"))
      cleanup_succeeds

spared_a : is_offboard none ≡ true → ⊥
unfolding is_offboard
spared_a h = cc h

prune_removed_namespaces-stored_example :
    one_object_laws.stored
      (prune_removed_namespaces one_object teams present).1
      (cluster_key namespace "team-a")
    ≡ some (tenant "team-a")
prune_removed_namespaces-stored_example =
    prune_removed_namespaces-stored one_object one_object_laws (cluster_key namespace "team-a")
      (tenant "team-a") teams present
      (λ off. absurd (spared_a off), (λ off. other_namespace refl names_differ, tt)) refl

finalize-stored_example :
    one_object_laws.stored
      (finalize_project_onboarding_deletion one_object as_added teams present).1
      (cluster_key namespace "team-a")
    ≡ some (tenant "team-a")
finalize-stored_example =
    finalize-stored one_object one_object_laws (cluster_key namespace "team-a") (tenant "team-a")
      teams (is_namespace refl) as_added present
      (λ off. absurd (spared_a off), (λ off. other_namespace refl names_differ, tt)) refl

-- A ProjectOnboarding with the one tenant that stays.
abbrev solo : ProjectOnboarding
solo = record teams { namespaces = team_a ∷ [] }

abbrev waiting : Finalized
waiting = record { complete = false; pending_message = deletion_blocked_message_prefix <> "team-a" }

finalize_waiting :
    (finalize_project_onboarding_deletion one_object as_added solo present).0 ≡ ok waiting
unfolding finalize_project_onboarding_deletion finalize_entries finalize_namespace_entry
    managed_namespace_exists settle_namespace_entry answer_exists namespace_exists
    cleanup_cluster_scoped_for_released_tenants cleanup_released_tenant release_unless
    add_managed_tenants add_spec_tenants namespace_names_in_spec unlisted_names verdict
    list_managed_namespaces is_managed_by_project_onboarding sanitize_name replace_all join
    sort_strings member get lookup insert is_offboard is_opt_in_enabled pure attempt wrapped ◌>>=◌
    for_each is_not_found
finalize_waiting = refl

finalize-incomplete_example :
    (waiting.complete ≡ false)
    × (one_object_laws.stored
          (finalize_project_onboarding_deletion one_object as_added solo present).1
          (cluster_key namespace "team-a")
        ≡ some (tenant "team-a"))
finalize-incomplete_example =
    finalize-incomplete one_object one_object_laws as_added solo "team-a" (tenant "team-a") present
      waiting refl refl matches refl (λ off. absurd (spared_a off), tt) finalize_waiting
