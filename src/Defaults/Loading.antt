-- ===== src/Defaults/Loading.antt =====
-- internal/onboarding/defaults.go, `LoadClusterDefaults`: the read of the ConfigMap, whose data are
-- what the parameter `get_config_map` answers for its namespace and name.
use project_onboarding_opera.Base.{String, Option, none, Outcome, if◌then◌else◌}
use project_onboarding_opera.Base.Dict.{Dict, lookup}
use project_onboarding_opera.Base.Text.{is_empty, trim_space}
use project_onboarding_opera.Api.{GitOpsSpec}
use project_onboarding_opera.Effects.{
  Effect, Attempt, got, failed, pure, raise, lift, attempt, ◌>>=◌,
}
use project_onboarding_opera.Cluster.{is_not_found}
use project_onboarding_opera.Defaults.{
  default_operator_namespace, defaults_config_map_name, defaults_config_map_key, parse_defaults,
}

module _ (unmarshal : String → Outcome (Option GitOpsSpec)) {S : Type 0}
    (get_config_map : String → String → Effect S (Dict String)) where
  -- What is done with the answer for the ConfigMap.
  unfoldable pub use_config_map : Attempt (Dict String) → Effect S (Option GitOpsSpec)
  unfolding parse_defaults lookup
  use_config_map (got entries) =
      lift (parse_defaults unmarshal (lookup defaults_config_map_key entries))
  use_config_map (failed e) = if is_not_found e then pure none else raise e

  unfoldable pub load_cluster_defaults : String → Effect S (Option GitOpsSpec)
  unfolding use_config_map
  load_cluster_defaults operator_namespace =
      let ns = trim_space operator_namespace in
      attempt (
        get_config_map (if is_empty ns then default_operator_namespace else ns)
          defaults_config_map_name)
      >>= use_config_map
