-- ===== src/Tests/Watching.antt =====
-- The watches and the references at concrete inputs.
use project_onboarding_opera.Effects.{Effect, pure}
use project_onboarding_opera.Base.{List, ok, String, ◌≡◌, refl, ◌↔◌, none, [], ◌∷◌}
use project_onboarding_opera.Base.Dict.{lookup}
use project_onboarding_opera.Base.Lists.{member}
use project_onboarding_opera.Api.{ProjectOnboarding}
use project_onboarding_opera.Helpers.Names.{managed_labels}
use project_onboarding_opera.References.{validate_tshirt_size_delete}
use project_onboarding_opera.Reconcile.Tenant.{merge_string_maps}
use project_onboarding_opera.Watches.{
  requests_for_size, find_project_onboardings_for_tshirt_size, project_onboarding_to_tshirt_size,
  managed_resource_requests,
}
use project_onboarding_opera.Watches.Deletions.{validate_tshirt_size_delete_iff}
use project_onboarding_opera.Watches.Laws.{
  requests-agree, managed_resource_requests-merge_string_maps,
}
use project_onboarding_opera.Tests.Samples.{team_a, team_b, teams}

-- Two entries of the same size.
abbrev sized : ProjectOnboarding
sized = record teams {
  namespaces =
      record team_a { project_size = "small" } ∷ record team_b { project_size = "small" } ∷ [];
}

-- The list of two ProjectOnboardings is read, and nothing is changed.
abbrev two_items : Effect (Unit {0}) (List ProjectOnboarding)
two_items = pure (sized ∷ teams ∷ [])

validate_tshirt_size_delete_iff_example :
    ((validate_tshirt_size_delete two_items "small" tt).0 ≡ ok tt)
    ↔ ((find_project_onboardings_for_tshirt_size two_items "small" tt).0 ≡ ok [])
unfolding pure
validate_tshirt_size_delete_iff_example =
    validate_tshirt_size_delete_iff two_items "small" (sized ∷ teams ∷ []) tt tt refl

requests-agree_example :
    member "small" (project_onboarding_to_tshirt_size sized)
    ≡ member "teams" (requests_for_size "small" (sized ∷ []))
requests-agree_example = requests-agree "small" sized refl

once : lookup {V = String} "owner" [] ≡ none
unfolding lookup
once = refl

managed_resource_requests-merge_string_maps_example :
    managed_resource_requests
      (merge_string_maps (("owner", "alice") ∷ []) (managed_labels teams team_a))
    ≡ "teams" ∷ []
managed_resource_requests-merge_string_maps_example =
    managed_resource_requests-merge_string_maps teams team_a (("owner", "alice") ∷ []) (once, tt)
      refl
