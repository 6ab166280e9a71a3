-- ===== src/Tests/Samples.antt =====
-- The test data that several tests share.
use mathlib.Core.List.Perm
use project_onboarding_opera.Base.{String, true, false, none, some, [], ◌∷◌}
use project_onboarding_opera.Base.Dict.{Dict}
use project_onboarding_opera.Api.{
  ResourceQuotaSpec, LimitRangeSpec, TShirtSizeSpec, NamespaceSpec, namespace_entry,
  ProjectOnboarding, project_onboarding_label_key, project_onboarding_managed_by_key,
  project_onboarding_managed_by_val,
}
use project_onboarding_opera.Helpers.Maps.{MapOrder}
use project_onboarding_opera.Content.{no_spec}
use project_onboarding_opera.Cluster.{namespace, Object, cluster_key}

-- The order in which the entries were added.
abbrev pub as_added : MapOrder
as_added = record { range = λ V m. m; range_perm = λ V m. Perm.refl m }

-- A tenant that stays.
abbrev pub team_a : NamespaceSpec
team_a = namespace_entry "team_a"

-- A tenant that is to be torn down.
abbrev pub team_b : NamespaceSpec
team_b = record (namespace_entry "team_b") { offboard = some true }

abbrev pub teams : ProjectOnboarding
teams = record {
  name = "teams";
  annotations = [];
  git_ops = none;
  namespaces = team_a ∷ team_b ∷ [];
}

abbrev pub managed : Dict String
managed =
    (project_onboarding_managed_by_key, project_onboarding_managed_by_val)
    ∷ (project_onboarding_label_key, "teams")
    ∷ []

-- A live tenant namespace of `teams`.
abbrev pub tenant : String → Object
tenant name = record {
  key = cluster_key namespace name;
  labels = managed;
  annotations = [];
  owners = [];
  deleting = false;
  content = no_spec;
}

abbrev pub empty_quota : ResourceQuotaSpec
empty_quota = record {
  enabled = some true;
  cpu = none;
  memory = none;
  ephemeral_storage = none;
  pods = none;
  replication_controllers = none;
  resource_quotas = none;
  services = none;
  secrets = none;
  config_maps = none;
  persistent_volume_claims = none;
  limits = none;
  requests = none;
  storage_classes = [];
}

abbrev pub empty_limits : LimitRangeSpec
empty_limits = record { enabled = some true; pod = none; container = none; pvc = none }

abbrev pub small : TShirtSizeSpec
small = record {
  description = "small";
  resource_quotas = some (record empty_quota { cpu = some "2"; memory = some "4Gi" });
  limit_ranges = none;
}
