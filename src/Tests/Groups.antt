-- ===== src/Tests/Groups.antt =====
-- A group that was there before the operator, on the server with room for one object of each kind.
use project_onboarding_opera.Base.{◌≡◌, refl, false, true, none, some, [], ◌∷◌, ok}
use project_onboarding_opera.Base.Dict.{lookup, get}
use project_onboarding_opera.Base.Text.{replace_all}
use project_onboarding_opera.Api.{LocalAdminGroupSpec}
use project_onboarding_opera.Content.{group_users}
use project_onboarding_opera.Helpers.Names.{sanitize_name, group_name}
use project_onboarding_opera.Effects.{pure, raise, lift, attempt, ◌>>=◌}
use project_onboarding_opera.Cluster.{group, cluster_key, Object, is_not_found, is_no_match}
use project_onboarding_opera.Owners.{set_field, ensure_project_onboarding_controller_ref}
use project_onboarding_opera.Cleanup.{is_managed_by_project_onboarding, delete_managed_group}
use project_onboarding_opera.Reconcile.Shared.{
  convert_users, ensure_controller, write_group, reconcile_local_admin_group,
}
use project_onboarding_opera.Reconcile.Adopted.{HasLabels, delete_managed_group-adopted}
use project_onboarding_opera.Tests.Samples.{team_a, teams, tenant, managed}
use project_onboarding_opera.Tests.Reconciles.{plain, no_objects}
use project_onboarding_opera.Tests.Server.{
  Slots, set_slot, server, server_laws, server-PatchesExactly,
}

abbrev alice : LocalAdminGroupSpec
alice = record { enabled = some true; group_name = ""; cluster_role = ""; users = "alice" ∷ [] }

-- The group of somebody else under the name that the entry asks for.
abbrev old_group : Object
old_group = record (tenant "team-a") {
  key = cluster_key group (group_name team_a);
  labels = ("owner", "directory") ∷ [];
  content = group_users ("bob" ∷ []);
}

abbrev with_group : Slots
with_group = set_slot group (some old_group) no_objects

with_group-stored :
    server_laws.stored with_group (cluster_key group (group_name team_a)) ≡ some old_group
unfolding group_name sanitize_name
with_group-stored = refl

old_group-unmanaged : is_managed_by_project_onboarding old_group.labels teams ≡ false
unfolding is_managed_by_project_onboarding get lookup
old_group-unmanaged = refl

old_group-updated :
    (reconcile_local_admin_group server plain none teams team_a alice managed with_group).0 ≡ ok tt
unfolding reconcile_local_admin_group write_group ensure_controller set_field convert_users
    ensure_project_onboarding_controller_ref group_name sanitize_name replace_all is_not_found
    is_no_match pure raise lift attempt ◌>>=◌
old_group-updated = refl

delete_managed_group-adopted_example : HasLabels (("owner", "directory") ∷ []) (
    server_laws.stored
      (delete_managed_group server teams team_a
        (reconcile_local_admin_group server plain none teams team_a alice managed with_group).1).1
      (cluster_key group (group_name team_a)))
delete_managed_group-adopted_example =
    delete_managed_group-adopted server server_laws plain none teams team_a alice managed old_group
      with_group (λ old new. refl) server-PatchesExactly with_group-stored old_group-unmanaged
      old_group-updated
