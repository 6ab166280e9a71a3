-- ===== src/Tests/SizeStatuses.antt =====
-- The status of a T-shirt size at concrete inputs.
use project_onboarding_opera.Base.{String, ◌≡◌, refl, ◌<◌, ◌↔◌, true, arith, List, ok, [], ◌∷◌}
use project_onboarding_opera.Base.Text.{pos}
use project_onboarding_opera.Api.{ProjectOnboarding}
use project_onboarding_opera.Effects.{Effect, pure, attempt, ◌>>=◌}
use project_onboarding_opera.Helpers.Status.{Bytes}
use project_onboarding_opera.Validation.Resources.{tshirt_size_spec_has_sizing}
use project_onboarding_opera.References.{
  count_entries, count_references, validate_tshirt_size_delete,
}
use project_onboarding_opera.SizeController.{TShirtSize, conclude_size, reconcile_size}
use project_onboarding_opera.SizeController.Shown.{reconcile_size-Shows}
use project_onboarding_opera.Tests.Samples.{small, team_a, teams}

-- A T-shirt size whose status was never written.
abbrev fresh_size : TShirtSize
fresh_size = record {
  name = "small";
  generation = 1;
  spec = small;
  status = record { observed_generation = 0; phase = ""; referenced_by = pos 0; conditions = [] };
}

abbrev sized_teams : ProjectOnboarding
sized_teams = record teams { namespaces = record team_a { project_size = "small" } ∷ [] }

abbrev no_bytes : String → Bytes
no_bytes text = []

-- The server has one size and one ProjectOnboarding, and keeps the sizes whose status was written.
abbrev get_size : String → Effect (List TShirtSize) TShirtSize
get_size name = pure fresh_size

abbrev list : Effect (List TShirtSize) (List ProjectOnboarding)
list = pure (sized_teams ∷ [])

abbrev update_status : TShirtSize → Effect (List TShirtSize) (Unit {0})
update_status size written = (ok tt, size ∷ written)

one_reference : count_references "small" (sized_teams ∷ []) < 4294967296
unfolding count_references count_entries
one_reference = omega arith

reconcile_size-Shows_example :
    (written : TShirtSize) × (reconcile_size 0 no_bytes get_size list update_status "small" []
      ≡ (attempt (update_status written) >>= λ r. pure (conclude_size 0 no_bytes r)) [])
    × ((written.status.referenced_by ≡ pos 0)
        ↔ ((validate_tshirt_size_delete list "small" []).0 ≡ ok tt))
    × ((written.status.phase ≡ "Ready") ↔ (tshirt_size_spec_has_sizing small ≡ true))
unfolding pure
reconcile_size-Shows_example =
    reconcile_size-Shows 0 no_bytes get_size list update_status "small" fresh_size
      (sized_teams ∷ []) [] [] [] refl refl one_reference
