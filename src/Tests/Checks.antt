-- ===== src/Tests/Checks.antt =====
-- Quotas, labels, the remaining admission checks, conditions, defaults and retries at concrete inputs.
use project_onboarding_opera.Base.Dict.{NodupKeys}
use project_onboarding_opera.Api.{ProjectOnboarding}
use project_onboarding_opera.Api.{project_onboarding_label_key, project_onboarding_managed_by_key}
use project_onboarding_opera.Helpers.Names.{sanitize_name, managed_labels}
use project_onboarding_opera.Cleanup.{is_managed_by_project_onboarding}
use project_onboarding_opera.Settings.{desired_labels}
use project_onboarding_opera.Settings.Managed.{is_managed_by_project_onboarding-desired_labels}
use project_onboarding_opera.Base.{
  ◌≤◌, String, ◌<>◌, ◌≡◌, refl, true, false, none, some, [], ◌∷◌, ok, Succeeds, Panics, ◌↔◌, ◌==◌,
}
use project_onboarding_opera.Base.Dict.{lookup}
use project_onboarding_opera.Base.Lists.{All, length}
use project_onboarding_opera.Base.Text.{pos, trim_space, trim_left, trim_right, is_space, is_empty}
use project_onboarding_opera.Helpers.Names.{normalize_quantity}
use project_onboarding_opera.Api.{
  StorageClassQuota, ResourceQuotaSpec, GitOpsSpec, ArgoCdProjectSpec, AdditionalSettingsSpec,
  NamespaceSpec,
}
use project_onboarding_opera.Validation.Quantity.{
  validate_resource_quota_spec, validate_limit_range_spec, validate_cpu_quantity,
  validate_byte_quantity, validate_resource_quota_limit_spec, validate_resource_quota_request_spec,
  validate_storage_classes,
}
use project_onboarding_opera.Quota.{build_resource_quota_hard, build_limit_range_items}
use project_onboarding_opera.Quota.Panics.{IsTidy, build_resource_quota_hard-Succeeds}
use project_onboarding_opera.Quota.Blanks.{
  with_storage_class, with_pod_cpu, blank_storage_class-Panics, padded_cpu-Panics,
}
use project_onboarding_opera.Validation.Resources.{
  validate_unique_namespace_names, validate_git_ops_requirements,
}
use project_onboarding_opera.Validation.Resources.Names.{
  trimmed_names, AreDistinct, validate_unique_namespace_names_iff,
}
use project_onboarding_opera.Validation.Resources.GitOps.{
  NamesGitOps, validate_git_ops_requirements_iff,
}
use project_onboarding_opera.Helpers.Status.{
  Condition, max_status_message_len, truncate_status_message, set_condition,
}
use project_onboarding_opera.Helpers.Status.Laws.{
  Says, find_condition, length-truncate_status_message, set_condition_lem,
}
use project_onboarding_opera.Defaults.{merge_cluster_defaults}
use project_onboarding_opera.Defaults.Laws.{
  said_text, said_list, TakenFrom, merge_cluster_defaults-TakenFrom,
}
use project_onboarding_opera.Tests.Parsers.{spaceless_error, spaceless-IsQuantityParser}
use project_onboarding_opera.Tests.Samples.{teams, team_a, team_b, empty_quota, empty_limits}

abbrev quota : ResourceQuotaSpec
quota = record empty_quota { cpu = some "2"; pods = some (pos 10) }

quota_admitted : validate_resource_quota_spec spaceless_error "quota" (some quota) ≡ ok tt
unfolding validate_resource_quota_spec validate_cpu_quantity validate_byte_quantity
    validate_resource_quota_limit_spec validate_resource_quota_request_spec validate_storage_classes
    spaceless_error trim_space trim_left trim_right is_space
quota_admitted = refl

quota-IsTidy : IsTidy quota
unfolding trim_space trim_left trim_right is_space
quota-IsTidy = record {
  cpu = refl;
  memory = tt;
  ephemeral_storage = tt;
  limits = tt;
  requests = tt;
  storage_classes = tt;
}

build_resource_quota_hard-Succeeds_example :
    Succeeds (build_resource_quota_hard spaceless_error quota)
build_resource_quota_hard-Succeeds_example =
    build_resource_quota_hard-Succeeds spaceless_error spaceless-IsQuantityParser "quota" quota
      quota-IsTidy quota_admitted

abbrev blank_gold : StorageClassQuota
blank_gold = record { key = "gold"; value = "" }

blank_rejected : spaceless_error (normalize_quantity "") ≡ some "not a quantity"
unfolding spaceless_error normalize_quantity
blank_rejected = refl

blank_trims : is_empty (trim_space "") ≡ true
unfolding trim_space trim_left trim_right
blank_trims = refl

blank_storage_class-Panics_example :
    (validate_resource_quota_spec spaceless_error "quota"
        (some (with_storage_class quota blank_gold))
      ≡ ok tt)
    × Panics (build_resource_quota_hard spaceless_error (with_storage_class quota blank_gold))
blank_storage_class-Panics_example =
    blank_storage_class-Panics spaceless_error "quota" quota blank_gold refl blank_trims
      blank_rejected quota_admitted

padded_fine :
    validate_cpu_quantity spaceless_error (("limits" <> ".pod.max") <> ".cpu") " 2" ≡ ok tt
unfolding validate_cpu_quantity spaceless_error trim_space trim_left trim_right is_space
padded_fine = refl

padded_rejected : spaceless_error " 2" ≡ some "not a quantity"
unfolding spaceless_error
padded_rejected = refl

limits_admitted : validate_limit_range_spec spaceless_error "limits" (some empty_limits) ≡ ok tt
unfolding validate_limit_range_spec
limits_admitted = refl

padded_cpu-Panics_example :
    (validate_limit_range_spec spaceless_error "limits" (some (with_pod_cpu empty_limits " 2"))
      ≡ ok tt)
    × Panics (build_limit_range_items spaceless_error (with_pod_cpu empty_limits " 2"))
padded_cpu-Panics_example =
    padded_cpu-Panics spaceless_error "limits" empty_limits " 2" padded_fine padded_rejected
      limits_admitted

validate_unique_namespace_names_iff_example :
    (validate_unique_namespace_names (team_a ∷ team_b ∷ []) ≡ ok tt)
    ↔ AreDistinct (trimmed_names (team_a ∷ team_b ∷ []))
validate_unique_namespace_names_iff_example =
    validate_unique_namespace_names_iff (team_a ∷ team_b ∷ [])

abbrev project : ArgoCdProjectSpec
project = record {
  enabled = some true;
  name = "apps";
  description = "";
  source_repos = [];
  source_namespaces = [];
  destinations = [];
  oidc_groups = [];
  roles = [];
}

abbrev with_project : NamespaceSpec
with_project = record team_a {
  argo_cd_projects = project ∷ [];
  application_git_ops_namespace = "gitops";
}

validate_git_ops_requirements_iff_example :
    (validate_git_ops_requirements none (with_project ∷ []) ≡ ok tt)
    ↔ All (NamesGitOps none) (with_project ∷ [])
validate_git_ops_requirements_iff_example =
    validate_git_ops_requirements_iff none (with_project ∷ [])

abbrev settings : AdditionalSettingsSpec
settings = record {
  pod_security_enforce = "";
  pod_security_warn = "baseline";
  pod_security_audit = "";
  enable_cluster_monitoring = some false;
  additional_labels = (record { key = "env"; value = "dev" }) ∷ [];
}

abbrev ready : Condition
ready = record {
  type = "Ready";
  status = "False";
  reason = "Failed";
  message = b'x' ∷ [];
  last_transition_time = 3;
}

set_condition_example :
    Says "True" "Done" []
      (find_condition "Ready" (set_condition 5 "Ready" "True" "Done" [] (ready ∷ [])))
    × ((other : String)
        → ("Ready" == other) ≡ false
        → find_condition other (set_condition 5 "Ready" "True" "Done" [] (ready ∷ []))
          ≡ find_condition other (ready ∷ []))
set_condition_example = set_condition_lem 5 "Ready" "True" "Done" [] (ready ∷ [])

length-truncate_status_message_example :
    length (truncate_status_message (b'o' ∷ b'k' ∷ [])) ≤ max_status_message_len
length-truncate_status_message_example = length-truncate_status_message (b'o' ∷ b'k' ∷ [])

abbrev defaults : GitOpsSpec
defaults = record {
  application_namespace = "gitops";
  destinations = [];
  allowed_source_repos = "https://git" ∷ [];
  allowed_oidc_groups = [];
  allowed_source_namespaces = [];
}

-- Its own source repositories, and for the rest the defaults.
abbrev fallen_back : ProjectOnboarding
fallen_back = record teams {
  git_ops =
      some (record defaults {
        application_namespace = " ";
        allowed_source_repos = "https://own" ∷ [];
      });
}

merge_cluster_defaults-TakenFrom_example :
    let merged = merge_cluster_defaults (some defaults) fallen_back in
    TakenFrom fallen_back.git_ops
      (some defaults)
      merged.git_ops
      (λ g. said_text g.application_namespace)
    × TakenFrom fallen_back.git_ops (some defaults) merged.git_ops (λ g. said_list g.destinations)
    × TakenFrom fallen_back.git_ops
        (some defaults)
        merged.git_ops
        (λ g. said_list g.allowed_source_repos)
    × TakenFrom fallen_back.git_ops
        (some defaults)
        merged.git_ops
        (λ g. said_list g.allowed_oidc_groups)
    × TakenFrom fallen_back.git_ops
        (some defaults)
        merged.git_ops
        (λ g. said_list g.allowed_source_namespaces)
    × (record merged { git_ops = fallen_back.git_ops } ≡ fallen_back)
merge_cluster_defaults-TakenFrom_example =
    merge_cluster_defaults-TakenFrom (some defaults) fallen_back

-- A tenant with settings, labels of its own and a size.
abbrev labelled : NamespaceSpec
labelled = record team_a {
  labels = ("cost", "42") ∷ [];
  additional_settings = some settings;
  project_size = "small";
}

cost_apart : lookup project_onboarding_managed_by_key labelled.labels ≡ none
unfolding lookup
cost_apart = refl

cost_apart' : lookup project_onboarding_label_key labelled.labels ≡ none
unfolding lookup
cost_apart' = refl

once : NodupKeys labelled.labels
unfolding lookup
once = (refl, tt)

is_managed_by_project_onboarding-desired_labels_example :
    is_managed_by_project_onboarding
      (desired_labels teams labelled (sanitize_name labelled.name) (managed_labels teams labelled))
      teams
    ≡ true
is_managed_by_project_onboarding-desired_labels_example =
    is_managed_by_project_onboarding-desired_labels teams labelled once cost_apart cost_apart' refl
      refl
